-- ===== src/App/Terminal/Cache.antt =====
-- The cache of the scan changes nothing of what the scan finds.
use wsmr.Base.{
  ℕ, true, false, Option, none, some, List, [], ◌∷◌, if◌then◌else◌, ◌≡◌, refl, ap, arith,
  Bool-cases, inl, inr, ==_iff,
}
use wsmr.Base.Text.{Text, codes, text_eq, text_eq_iff}
use wsmr.Base.Maps.{Map, lookup, insert, lookup-insert}
use wsmr.Base.Sets.{member, text_key}
use wsmr.Util.{Host}
use wsmr.App.Entry.{DesktopEntry}
use wsmr.App.Find.{Dirs, list}
use wsmr.App.Terminal.{
  Verdict, pass_over, not_terminal, accept, judge, Scan, is_cached, remember, Times, apply_verdict,
  scan_from, scan_for_terminal,
}

module _ (host : Host) (times : Times) where
  -- A path that the cache has with the time of the file is no terminal.
  abbrev pub IsSound : Map ℕ → Type 0
  IsSound cache =
      (path : Text)
      → lookup path cache ≡ some (times path)
      → judge host path (host.files path) ≡ not_terminal

  abbrev accepted_or : Verdict → Option DesktopEntry → Option DesktopEntry
  accepted_or pass_over next = next
  accepted_or not_terminal next = next
  accepted_or (accept e) next = some e

  -- The scan without a cache: the first file that is accepted and not excluded.
  pub first_accepted : List Text → List (Text × Text) → Option DesktopEntry
  unfolding judge member
  first_accepted excluded [] = none
  first_accepted excluded ((id, path) ∷ rest) =
      let next = first_accepted excluded rest in
      if member id excluded then next else accepted_or (judge host path (host.files path)) next

  is_cached-eq : (o : Option ℕ) (t : ℕ) → is_cached o t ≡ true → o ≡ some t
  unfolding is_cached
  is_cached-eq none t h = cc
  is_cached-eq (some u) t h = ap (λ (n : ℕ). some n) ((==_iff u t).0 h)

  remember-IsSound :
      (path : Text) (cache : Map ℕ)
      → judge host path (host.files path) ≡ not_terminal
      → IsSound cache
      → IsSound (insert path (times path) cache)
  remember-IsSound path cache h sound p e = elim (Bool-cases (text_eq path p)) [
    | inl same ↦ rw (← (text_eq_iff path p).0 same) h
    | inr other ↦ sound p (ground (arith, e, lookup-insert path p (times path) cache, other))
  ]

  -- What the scan finds, and that the cache stays sound.
  abbrev Agrees : List Text → List (Text × Text) → Scan → Scan → Type 0
  Agrees excluded paths s t = (t.found ≡ first_accepted excluded paths) × IsSound t.cache

  apply_verdict-Agrees :
      (excluded : List Text) (path : Text) (rest : List (Text × Text)) (s : Scan) (v : Verdict)
      (next : Scan → Scan)
      → judge host path (host.files path) ≡ v
      → IsSound s.cache
      → s.found ≡ none
      → ((r : Scan) → IsSound r.cache → r.found ≡ none → Agrees excluded rest r (next r))
      → ((apply_verdict path (times path) v next s).found
          ≡ accepted_or v (first_accepted excluded rest))
        × IsSound (apply_verdict path (times path) v next s).cache
  unfolding apply_verdict
  apply_verdict-Agrees excluded path rest s pass_over next hv sound none_yet ih =
      ih s sound none_yet
  apply_verdict-Agrees excluded path rest s not_terminal next hv sound none_yet ih =
      ih (remember path (times path) s) (remember-IsSound path s.cache hv sound) none_yet
  apply_verdict-Agrees excluded path rest s (accept e) next hv sound none_yet ih = (refl, sound)

  scan_from-Agrees :
      (excluded : List Text) (paths : List (Text × Text)) (s : Scan)
      → IsSound s.cache
      → s.found ≡ none
      → Agrees excluded paths s (scan_from host times excluded paths s)
  unfolding scan_from first_accepted
  scan_from-Agrees excluded [] s sound none_yet = (none_yet, sound)
  scan_from-Agrees excluded ((id, path) ∷ rest) s sound none_yet =
      elim (Bool-cases (member id excluded)) [
        | inl skipped ↦ rw skipped (scan_from-Agrees excluded rest s sound none_yet)
        | inr read ↦ rw read (elim (Bool-cases (is_cached (lookup path s.cache) (times path))) [
          | inl known ↦ rw known (
              rw (sound path (is_cached-eq (lookup path s.cache) (times path) known))
                (scan_from-Agrees excluded rest s sound none_yet))
          | inr unknown ↦ rw unknown (
              apply_verdict-Agrees excluded path rest s (judge host path (host.files path))
                (λ r. scan_from host times excluded rest r) refl sound none_yet
                (λ r. scan_from-Agrees excluded rest r))
        ])
      ]

  -- With a cache whose paths, where their files still have the cached times, are no terminals, the
  -- scan finds the same terminal as without a cache: the first one in the order of the search that is
  -- not excluded, is valid and is shown. And the cache that it leaves is such a cache again.
  pub scan_for_terminal-IsSound :
      (dirs : Dirs) (excluded : List Text) (cache : Map ℕ)
      → IsSound cache
      → ((scan_for_terminal host times dirs excluded cache).found
          ≡ first_accepted excluded (list host dirs (codes "applications")))
        × IsSound (scan_for_terminal host times dirs excluded cache).cache
  unfolding scan_for_terminal
  scan_for_terminal-IsSound dirs excluded cache sound =
      scan_from-Agrees excluded (list host dirs (codes "applications"))
        (record { cache = cache; changed = false; found = none }) sound refl
