-- ===== src/App/Find/Order.antt =====
-- The search for an id and the list of the entries agree.
use wsmr.Base.{
  Bool, true, false, not, Option, none, some, List, [], ◌∷◌, ◌++◌, if◌then◌else◌, ◌≡◌, refl,
}
use wsmr.Base.Text.{Text, codes, text_eq}
use wsmr.Error.{Result, ok, err}
use wsmr.Disk.{Disk}
use wsmr.Util.{Host, join_path}
use wsmr.Util.Xdg.{data_paths}
use wsmr.App.Entry.{DesktopEntry}
use wsmr.App.Find.{
  Listing, end, failed, file, directory, Dirs, is_entry_file, flat, read_entry, Found, or_next,
  found, walk, collect, in_bases, find_entry, list_bases, list,
}

-- Every entry of the listing can be read.
abbrev pub IsComplete : Listing → Type 0
IsComplete end = Unit
IsComplete (failed rest) = ⊥
IsComplete (file name rest) = IsComplete rest
IsComplete (directory name sub rest) = IsComplete sub × IsComplete rest

-- The directories below the bases are complete, where they are there.
abbrev pub AllComplete : Dirs → Text → List Text → Type 0
AllComplete dirs subpath [] = Unit
AllComplete dirs subpath (base ∷ bases) =
    elim (dirs (join_path base subpath)) [ none ↦ Unit | some l ↦ IsComplete l ]
    × AllComplete dirs subpath bases

-- The first of the listed files whose id is `id`, read.
pub open_first : Disk → Text → List (Text × Text) → Found
unfolding text_eq found read_entry
open_first d id [] = ok none
open_first d id ((i, path) ∷ rest) =
    let next = open_first d id rest in
    if text_eq i id then found (read_entry path (d path)) else next

or_next-found : (r : Result DesktopEntry) (next : Found) → or_next (found r) next ≡ found r
unfolding or_next found
or_next-found (ok e) next = refl
or_next-found (err x) next = refl

open_first-append :
    (d : Disk) (id : Text) (a b : List (Text × Text))
    → open_first d id (a ++ b) ≡ or_next (open_first d id a) (open_first d id b)
unfolding open_first
open_first-append d id [] b = unfold or_next in refl
open_first-append d id ((i, path) ∷ a) b = go (open_first-append d id a b) (text_eq i id)
  where
    go :
        open_first d id (a ++ b) ≡ or_next (open_first d id a) (open_first d id b)
        → (w : Bool)
        → (if w then found (read_entry path (d path)) else open_first d id (a ++ b))
          ≡ or_next
              (if w then found (read_entry path (d path)) else open_first d id a)
              (open_first d id b)
    go ih true = rw (or_next-found (read_entry path (d path)) (open_first d id b)) refl
    go ih false = ih

walk-collect :
    (d : Disk) (dir rel id : Text) (l : Listing)
    → IsComplete l
    → walk d dir rel id l ≡ open_first d id (collect dir rel l)
unfolding walk collect
walk-collect d dir rel id end h = unfold open_first in refl
walk-collect d dir rel id (failed rest) h = absurd h
walk-collect d dir rel id (directory name sub rest) (hs, h) =
    let path = join_path dir name in
    let below = rel ++ name ++ codes "/" in
    rw (walk-collect d path below id sub hs, walk-collect d dir rel id rest h)
      (rw (open_first-append d id (collect path below sub) (collect dir rel rest)) refl)
walk-collect d dir rel id (file name rest) h =
    go (walk-collect d dir rel id rest h) (is_entry_file name)
  where
    go :
        walk d dir rel id rest ≡ open_first d id (collect dir rel rest)
        → (w : Bool)
        → (if not w
            then walk d dir rel id rest
            else if text_eq (flat (rel ++ name)) id
            then found (read_entry (join_path dir name) (d (join_path dir name)))
            else walk d dir rel id rest)
          ≡ open_first d id (
              if not w
              then collect dir rel rest
              else (flat (rel ++ name), join_path dir name) ∷ collect dir rel rest)
    go ih true = unfold open_first in rw ih refl
    go ih false = ih

in_bases-list :
    (d : Disk) (dirs : Dirs) (subpath id : Text) (bases : List Text)
    → AllComplete dirs subpath bases
    → in_bases (λ dir l. walk d dir [] id l) dirs subpath bases
      ≡ open_first d id (list_bases dirs subpath bases)
unfolding in_bases list_bases
in_bases-list d dirs subpath id [] h = unfold open_first in refl
in_bases-list d dirs subpath id (base ∷ bases) (hl, h) =
    go (dirs (join_path base subpath)) hl (in_bases-list d dirs subpath id bases h)
  where
    go :
        (o : Option Listing)
        → elim o as (λ _. Type 0) [ none ↦ Unit | some l ↦ IsComplete l ]
        → in_bases (λ dir l. walk d dir [] id l) dirs subpath bases
          ≡ open_first d id (list_bases dirs subpath bases)
        → elim o as (λ _. Found) [
          | none ↦ in_bases (λ dir l. walk d dir [] id l) dirs subpath bases
          | some l ↦
              or_next
                (walk d (join_path base subpath) [] id l)
                (in_bases (λ dir l. walk d dir [] id l) dirs subpath bases)
        ]
          ≡ open_first d id (elim o as (λ _. List (Text × Text)) [
            | none ↦ list_bases dirs subpath bases
            | some l ↦ collect (join_path base subpath) [] l ++ list_bases dirs subpath bases
          ])
    go none k ih = ih
    go (some l) k ih =
        rw (walk-collect d (join_path base subpath) [] id l k, ih)
          (rw
            (open_first-append d id (collect (join_path base subpath) [] l)
              (list_bases dirs subpath bases))
            refl)

-- Where every directory can be read to its end, `find_entry` reads the first of the files that `list`
-- names under the id, and fails where that file cannot be read or parsed, also if a later one could;
-- it finds nothing where the list has no file under the id.
pub find_entry-list :
    (host : Host) (dirs : Dirs) (subpath id : Text)
    → AllComplete dirs subpath (data_paths host)
    → find_entry host dirs subpath id ≡ open_first host.files id (list host dirs subpath)
unfolding find_entry list
find_entry-list host dirs subpath id h =
    in_bases-list host.files dirs subpath id (data_paths host) h
