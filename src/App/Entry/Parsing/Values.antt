-- ===== src/App/Entry/Parsing/Values.antt =====
-- What a parsed entry has for a key: the last value that its text gives.
use wsmr.Base.{
  Bool, true, false, not, ◌||◌, Option, none, some, List, [], ◌∷◌, if◌then◌else◌, ◌≡◌, refl, ◌∙◌,
  sym, ap, arith, Bool-cases, inl, inr, any,
}
use wsmr.Base.Text.{Text, text_eq, text_eq_iff, lines}
use wsmr.Base.Maps.{Map, lookup, insert, contains_key, lookup-insert}
use wsmr.Error.{invalid_arg, Result, ok, err}
use wsmr.App.Entry.{
  DesktopEntry, Reading, main_group, or_default, open_group, assign, read_lines, nothing_read,
  parse, get_in,
}
use wsmr.App.Entry.Parsing.{
  Sections, AreSections, render, put_keys, put_sections, read_lines-render,
}

-- The last value of the key in the assignments, and `d` without one.
pub last_value : Text → List (Text × Text) → Option Text → Option Text
unfolding text_eq
last_value k [] d = d
last_value k ((j, v) ∷ kvs) d = last_value k kvs (if text_eq j k then some v else d)

-- The same in the sections of a name.
pub value_of : Text → Text → Sections → Option Text → Option Text
unfolding last_value text_eq
value_of g k [] d = d
value_of g k ((n, kvs) ∷ sections) d =
    value_of g k sections (if text_eq n g then last_value k kvs d else d)

abbrev pub value_in : Text → Text → Map (Map Text) → Option Text
value_in g k groups = get_in k (lookup g groups)

-- A reading whose current group is the one of that name.
abbrev At : Text → Reading → Type 0
At n r = r.current ≡ some n

get_in-or_default : (k : Text) (o : Option (Map Text)) → get_in k (some (or_default o)) ≡ get_in k o
unfolding or_default get_in lookup
get_in-or_default k none = refl
get_in-or_default k (some g) = refl

open_group-value :
    (n g k : Text) (r : Reading) → value_in g k (open_group n r).groups ≡ value_in g k r.groups
unfolding open_group
open_group-value n g k r = elim (Bool-cases (text_eq n g)) [
  | inl same ↦
      ap (get_in k) (lookup-insert n g (or_default (lookup n r.groups)) r.groups)
      ∙ rw same (
          get_in-or_default k (lookup n r.groups)
          ∙ ap (λ (j : Text). value_in j k r.groups) ((text_eq_iff n g).0 same))
  | inr other ↦
      ap (get_in k) (lookup-insert n g (or_default (lookup n r.groups)) r.groups) ∙ rw other refl
]

get_in-insert :
    (j k v : Text) (o : Option (Map Text))
    → get_in k (some (insert j v (or_default o))) ≡ (if text_eq j k then some v else get_in k o)
unfolding get_in
get_in-insert j k v o =
    lookup-insert j k v (or_default o)
    ∙ ap (λ (x : Option Text). if text_eq j k then some v else x) (get_in-or_default k o)

assign-value :
    (n g j k v : Text) (r : Reading)
    → value_in g k (assign j v (some n) r).groups ≡ (
        if text_eq n g
        then if text_eq j k then some v else value_in g k r.groups
        else value_in g k r.groups)
unfolding assign
assign-value n g j k v r = elim (Bool-cases (text_eq n g)) [
  | inl same ↦
      ap (get_in k) (lookup-insert n g (insert j v (or_default (lookup n r.groups))) r.groups)
      ∙ rw same (
          get_in-insert j k v (lookup n r.groups)
          ∙ ap (λ (i : Text). if text_eq j k then some v else value_in i k r.groups)
              ((text_eq_iff n g).0 same))
  | inr other ↦
      ap (get_in k) (lookup-insert n g (insert j v (or_default (lookup n r.groups))) r.groups)
      ∙ rw other refl
]

assign-current : (n j v : Text) (r : Reading) → (assign j v (some n) r).current ≡ r.current
unfolding assign
assign-current n j v r = refl

put_keys-value :
    (n g k : Text) (kvs : List (Text × Text)) (r : Reading)
    → At n r
    → value_in g k (put_keys kvs r).groups
      ≡ (if text_eq n g then last_value k kvs (value_in g k r.groups) else value_in g k r.groups)
unfolding put_keys last_value
put_keys-value n g k [] r h = ground arith
put_keys-value n g k ((j, v) ∷ kvs) r h =
    ap (λ (o : Option Text). value_in g k (put_keys kvs (assign j v o r)).groups) h
    ∙ put_keys-value n g k kvs (assign j v (some n) r) (assign-current n j v r ∙ h)
    ∙ chosen (text_eq n g) (assign-value n g j k v r)
  where
    chosen :
        (b : Bool)
        → value_in g k (assign j v (some n) r).groups ≡ (
            if b
            then if text_eq j k then some v else value_in g k r.groups
            else value_in g k r.groups)
        → (if b
            then last_value k kvs (value_in g k (assign j v (some n) r).groups)
            else value_in g k (assign j v (some n) r).groups)
          ≡ (if b
              then last_value k kvs (if text_eq j k then some v else value_in g k r.groups)
              else value_in g k r.groups)
    chosen true e = ap (last_value k kvs) e
    chosen false e = e

put_sections-value :
    (g k : Text) (sections : Sections) (r : Reading)
    → value_in g k (put_sections sections r).groups ≡ value_of g k sections (value_in g k r.groups)
unfolding put_sections value_of
put_sections-value g k [] r = refl
put_sections-value g k ((n, kvs) ∷ sections) r =
    put_sections-value g k sections (put_keys kvs (open_group n r))
    ∙ ap (value_of g k sections) (
        put_keys-value n g k kvs (open_group n r) (unfold open_group in refl)
        ∙ ap (λ (o : Option Text). if text_eq n g then last_value k kvs o else o)
            (open_group-value n g k r))

-- A group is there where it was or where a section has its name.
abbrev pub has_section : Text → Sections → Bool
has_section g sections = any (λ (s : Text × List (Text × Text)). text_eq s.0 g) sections

open_group-has :
    (n g : Text) (r : Reading)
    → contains_key g (open_group n r).groups ≡ (text_eq n g || contains_key g r.groups)
unfolding open_group
open_group-has n g r = ground (arith, lookup-insert n g (or_default (lookup n r.groups)) r.groups)

assign-has :
    (n g j v : Text) (r : Reading)
    → contains_key g (assign j v (some n) r).groups ≡ (text_eq n g || contains_key g r.groups)
unfolding assign
assign-has n g j v r =
    ground (arith, lookup-insert n g (insert j v (or_default (lookup n r.groups))) r.groups)

put_keys-has :
    (n g : Text) (kvs : List (Text × Text)) (r : Reading)
    → At n r
    → contains_key g r.groups ≡ (text_eq n g || contains_key g r.groups)
    → contains_key g (put_keys kvs r).groups ≡ contains_key g r.groups
unfolding put_keys
put_keys-has n g [] r h there = refl
put_keys-has n g ((j, v) ∷ kvs) r h there =
    ap (λ (o : Option Text). contains_key g (put_keys kvs (assign j v o r)).groups) h
    ∙ put_keys-has n g kvs (assign j v (some n) r) (assign-current n j v r ∙ h)
        (ground (arith, assign-has n g j v r, there))
    ∙ assign-has n g j v r
    ∙ sym there

put_sections-has :
    (g : Text) (sections : Sections) (r : Reading)
    → contains_key g (put_sections sections r).groups
      ≡ (has_section g sections || contains_key g r.groups)
unfolding put_sections
put_sections-has g [] r = refl
put_sections-has g ((n, kvs) ∷ sections) r =
    let opened = open_group n r in
    ground (
      arith,
      put_sections-has g sections (put_keys kvs opened),
      put_keys-has n g kvs opened (unfold open_group in refl)
          (ground (arith, open_group-has n g r)),
      open_group-has n g r,
    )

-- What the result of a parse has for the keys of the groups.
abbrev pub Reads : Text → Sections → Result DesktopEntry → Type 0
Reads filename sections (err e) = (e ≡ invalid_arg) × (has_section main_group sections ≡ false)
Reads filename sections (ok e) =
    (e.filename ≡ filename) × ((g k : Text) → value_in g k e.groups ≡ value_of g k sections none)

-- The text of sections of assignments, whose keys are trimmed, have no `=` and begin as no group and
-- no comment, and whose names and values are of one line: it is parsed to an entry where a section is
-- the main one, and only there; and the entry has for each key of each group the last value that the
-- sections of the group give it, verbatim, also where the group has several sections, and none where
-- they give it none.
pub parse-Reads :
    (filename : Text) (sections : Sections)
    → AreSections sections
    → Reads filename sections (parse filename (render sections))
unfolding parse get_in
parse-Reads filename sections h = go (contains_key main_group groups) refl
  where
    groups : Map (Map Text)
    groups = (read_lines (lines (render sections)) nothing_read).groups

    go :
        (b : Bool)
        → contains_key main_group groups ≡ b
        → Reads filename sections (
            if not b then err invalid_arg else ok (record { filename = filename; groups = groups }))
    go true e = (
      refl,
      λ g k.
          ap (λ (r : Reading). value_in g k r.groups) (read_lines-render sections nothing_read h)
          ∙ put_sections-value g k sections nothing_read,
    )
    go false e = (
      refl,
      ground (
        arith,
        e,
        ap (λ (r : Reading). contains_key main_group r.groups)
            (read_lines-render sections nothing_read h),
        put_sections-has main_group sections nothing_read,
      ),
    )
