-- ===== src/App/Terminal/Lists/Precedence.antt =====
-- src/app/terminal.rs: what a list that is read later can change of the preferences.
use mathlib.Core.List.{append_assoc, append-nil}
use wsmr.Base.{
  Bool, true, false, not, ◌&&◌, ◌||◌, Option, none, some, List, [], ◌∷◌, ◌++◌, if◌then◌else◌, ◌≡◌,
  refl, ◌∙◌, sym, ap, arith, Bool-cases, inl, inr, keep, is_empty,
}
use wsmr.Base.Text.{Text, codes, text_eq, text_eq_iff, trim, starts_with, strip_prefix, lines}
use wsmr.Base.Maps.{is_some}
use wsmr.Base.Sets
use wsmr.Base.Sets.{member, text_key, member-insert, member-keep}
use wsmr.Disk.{File, missing, unreadable, content}
use wsmr.Util.{Host, join_path}
use wsmr.App.Terminal.Lists.{
  Preferences, Sign, plus, minus, bare, apply_ref, apply_line, read_preference, read_preferences,
  parse_terminal_list, signed, parse_entry_ref, read_file_of, read_dir_lists, read_all_lists,
  no_preferences,
}

-- No entry is protected and excluded.
abbrev pub IsDisjoint : Preferences → Type 0
IsDisjoint p = (x : Text) → member x p.protected ≡ true → member x p.excluded ≡ false

-- The preferred entries of `p` come first in `q`, in their order, and what is protected stays so.
pub record Extends (p q : Preferences) : Type 0 where
  pub more : List (Text × Option Text)
  pub explicit_first : q.explicit ≡ p.explicit ++ more
  pub stays : (x : Text) → member x p.protected ≡ true → member x q.protected ≡ true
  pub disjoint : IsDisjoint p → IsDisjoint q

Extends-refl : (p : Preferences) → Extends p p
Extends-refl p = record {
  more = [];
  explicit_first = sym (append-nil p.explicit);
  stays = λ x h. h;
  disjoint = λ h. h;
}

Extends-trans : (p q r : Preferences) → Extends p q → Extends q r → Extends p r
Extends-trans p q r a b = record {
  more = a.more ++ b.more;
  explicit_first =
      b.explicit_first
      ∙ ap (λ l. l ++ b.more) a.explicit_first
      ∙ append_assoc p.explicit a.more b.more;
  stays = λ x h. b.stays x (a.stays x h);
  disjoint = λ h. b.disjoint (a.disjoint h);
}

Extends-if :
    (b : Bool) (p q : Preferences) → (b ≡ true → Extends p q) → Extends p (if b then q else p)
Extends-if true p q h = h refl
Extends-if false p q h = Extends-refl p

minus-IsDisjoint :
    (id : Text) (p : Preferences)
    → member id p.protected ≡ false
    → IsDisjoint p
    → IsDisjoint (record p { excluded = Sets.insert id p.excluded })
minus-IsDisjoint id p absent h x m = elim (Bool-cases (text_eq id x)) [
  | inl same ↦ ground (arith, m, absent, ap (λ y. member y p.protected) ((text_eq_iff id x).0 same))
  | inr other ↦ ground (arith, member-insert id x p.excluded, h x m, other)
]

plus-IsDisjoint :
    (id : Text) (p : Preferences)
    → IsDisjoint p
    → IsDisjoint (record p {
      protected = Sets.insert id p.protected;
      excluded = keep (λ x. not (text_eq x id)) p.excluded;
    })
plus-IsDisjoint id p h x m = elim (Bool-cases (text_eq x id)) [
  | inl same ↦ ground (arith, member-keep (λ y. not (text_eq y id)) x p.excluded, same)
  | inr other ↦ ground (
    arith,
    member-keep (λ y. not (text_eq y id)) x p.excluded,
    h x (
        ground
          (arith, m, member-insert id x p.protected, other, text_eq_iff id x, text_eq_iff x id)),
  )
]

apply_ref-Extends :
    (s : Sign) (id : Text) (action : Option Text) (p : Preferences)
    → Extends p (apply_ref s id action p)
unfolding apply_ref
apply_ref-Extends bare id action p =
    Extends-if _ p (record p { explicit = p.explicit ++ (id, action) ∷ [] })
      (λ _. record {
        more = (id, action) ∷ [];
        explicit_first = refl;
        stays = λ x h. h;
        disjoint = λ h. h;
      })
apply_ref-Extends minus id action p =
    Extends-if (not (is_some action) && not (member id p.protected)) p
      (record p { excluded = Sets.insert id p.excluded })
      (λ c. record {
        more = [];
        explicit_first = sym (append-nil p.explicit);
        stays = λ x h. h;
        disjoint = minus-IsDisjoint id p (ground (arith, c));
      })
apply_ref-Extends plus id action p =
    Extends-if (not (is_some action)) p
      (record p {
        protected = Sets.insert id p.protected;
        excluded = keep (λ x. not (text_eq x id)) p.excluded;
      })
      (λ _. record {
        more = [];
        explicit_first = sym (append-nil p.explicit);
        stays = λ x h. ground (arith, member-insert id x p.protected, h);
        disjoint = plus-IsDisjoint id p;
      })

apply_line-Extends :
    (s : Sign) (r : Option Text × Option Text) (p : Preferences) → Extends p (apply_line s r p)
unfolding apply_line
apply_line-Extends s (none, action) p = Extends-refl p
apply_line-Extends s (some id, action) p = apply_ref-Extends s id action p

Extends-unless : (b : Bool) (p q : Preferences) → Extends p q → Extends p (if b then p else q)
Extends-unless true p q h = Extends-refl p
Extends-unless false p q h = h

read_preference-Extends :
    (home : Option Text) (raw : Text) (p : Preferences) → Extends p (read_preference home raw p)
unfolding read_preference
read_preference-Extends home raw p =
    let line = trim raw in
    let (sign, rest) = signed line (strip_prefix (codes "-") line) in
    Extends-unless (is_empty line || starts_with (codes "#") line) p
      (apply_line sign (parse_entry_ref home rest) p)
      (apply_line-Extends sign (parse_entry_ref home rest) p)

read_preferences-Extends :
    (home : Option Text) (ls : List Text) (p : Preferences) → Extends p (read_preferences home ls p)
unfolding read_preferences
read_preferences-Extends home [] p = Extends-refl p
read_preferences-Extends home (l ∷ ls) p =
    Extends-trans p (read_preference home l p) (read_preferences home ls (read_preference home l p))
      (read_preference-Extends home l p)
      (read_preferences-Extends home ls (read_preference home l p))

parse_terminal_list-Extends :
    (home : Option Text) (text : Text) (p : Preferences)
    → Extends p (parse_terminal_list home text p)
unfolding parse_terminal_list
parse_terminal_list-Extends home text p = read_preferences-Extends home (lines text) p

read_file_of-Extends :
    (home : Option Text) (f : File) (p : Preferences) → Extends p (read_file_of home f p)
unfolding read_file_of
read_file_of-Extends home (content c) p = parse_terminal_list-Extends home c p
read_file_of-Extends home missing p = Extends-refl p
read_file_of-Extends home unreadable p = Extends-refl p

read_dir_lists-Extends :
    (host : Host) (dir : Text) (fs : List Text) (p : Preferences)
    → Extends p (read_dir_lists host dir fs p)
unfolding read_dir_lists
read_dir_lists-Extends host dir [] p = Extends-refl p
read_dir_lists-Extends host dir (f ∷ fs) p =
    let q = read_file_of (host.env_var (codes "HOME")) (host.files (join_path dir f)) p in
    Extends-trans p q (read_dir_lists host dir fs q)
      (read_file_of-Extends (host.env_var (codes "HOME")) (host.files (join_path dir f)) p)
      (read_dir_lists-Extends host dir fs q)

read_all_lists-Extends :
    (host : Host) (names dirs : List Text) (p : Preferences)
    → Extends p (read_all_lists host names dirs p)
unfolding read_all_lists
read_all_lists-Extends host names [] p = Extends-refl p
read_all_lists-Extends host names (dir ∷ dirs) p =
    let q = read_dir_lists host dir names p in
    Extends-trans p q (read_all_lists host names dirs q) (read_dir_lists-Extends host dir names p)
      (read_all_lists-Extends host names dirs q)

read_all_lists-append :
    (host : Host) (names ds es : List Text) (p : Preferences)
    → read_all_lists host names (ds ++ es) p
      ≡ read_all_lists host names es (read_all_lists host names ds p)
unfolding read_all_lists
read_all_lists-append host names [] es p = refl
read_all_lists-append host names (d ∷ ds) es p =
    read_all_lists-append host names ds es (read_dir_lists host d names p)

-- The lists of earlier directories have precedence, whatever the later ones hold: the entries that they
-- prefer come first, in their order, and an entry that they protect is protected and not excluded in
-- the end.
pub read_all_lists-first :
    (host : Host) (names ds es : List Text) (x : Text)
    → ((more : List (Text × Option Text)) × ((read_all_lists host names
            (ds ++ es)
            no_preferences).explicit
          ≡ (read_all_lists host names ds no_preferences).explicit ++ more))
      × ((member x (read_all_lists host names ds no_preferences).protected
            && (not (member x (read_all_lists host names (ds ++ es) no_preferences).protected)
                || member x (read_all_lists host names (ds ++ es) no_preferences).excluded))
          ≡ false)
read_all_lists-first host names ds es x =
    let q = read_all_lists host names ds no_preferences in
    let r = read_all_lists host names es q in
    let ext : Extends q r = read_all_lists-Extends host names es q in
    let begun : IsDisjoint q =
      (read_all_lists-Extends host names ds no_preferences).disjoint
        (λ y m. unfold member in refl) in
    rw (read_all_lists-append host names ds es no_preferences) (
      (ext.more, ext.explicit_first),
      elim (Bool-cases (member x q.protected)) [
        | inl there ↦
            ground (arith, there, ext.stays x there, ext.disjoint begun x (ext.stays x there))
        | inr absent ↦ ground (arith, absent)
      ],
    )
