-- ===== src/App/Entry/Locale/First.antt =====
-- src/app/entry.rs: which value a localized key has.
use wsmr.Base.{Option, none, some, List, [], ◌∷◌, ◌++◌, map}
use wsmr.Base.Text.{Text, codes}
use wsmr.Base.Maps.{Map, lookup}
use wsmr.Base.Sets.{text_key}
use wsmr.App.Field.{expand_str}
use wsmr.App.Entry.Locale.{locale_variants}

-- The first of the values that is there.
abbrev pub first_some : List (Option Text) → Option Text
first_some [] = none
first_some (none ∷ os) = first_some os
first_some (some v ∷ os) = some v

-- The variants of all locales, with those that are there several times.
abbrev pub all_variants : List Text → List Text
all_variants [] = []
all_variants (lang ∷ langs) = locale_variants lang ++ all_variants langs

abbrev pub value_for : Text → Map Text → Text → Option Text
value_for key g cand = lookup (key ++ codes "[" ++ cand ++ codes "]") g

abbrev pub first_value : Text → Map Text → List Text → Option Text
first_value key g cands = elim (first_some (map (value_for key g) cands ++ lookup key g ∷ [])) [
  | none ↦ none
  | some v ↦ some (expand_str v)
]
