-- ===== src/App/Entry/Locale.antt =====
-- src/app/entry.rs: the values of a key by locale.
pub mod First
use wsmr.Base.{not, Option, none, some, List, [], ◌∷◌, ◌++◌, if◌then◌else◌}
use wsmr.Base.Text.{Text, codes, text_eq, split, split_once}
use wsmr.Base.Maps.{Map, lookup}
use wsmr.Base.Sets.{member, text_key}
use wsmr.Util.{Host, non_empty}
use wsmr.App.Field.{expand_str}
use wsmr.App.Entry.{DesktopEntry, group}
use wsmr.Util.Xdg.{split_colon}

-- `split(c).next().unwrap_or(s)`
first_piece : Text → List Text → Text
first_piece d [] = d
first_piece d (p ∷ ps) = p

-- The variants of the language, where it differs from the base.
variants_of : Text → Text → Option Text → List Text
unfolding text_eq
variants_of base lang none = if not (text_eq lang base) then base ∷ lang ∷ [] else base ∷ []
variants_of base lang (some m) =
    let with_mod = base ++ codes "@" ++ m in
    if not (text_eq lang base)
    then with_mod ∷ base ∷ (lang ++ codes "@" ++ m) ∷ lang ∷ []
    else with_mod ∷ base ∷ []

base_and_modifier : Text → Option (Text × Text) → Text × Option Text
base_and_modifier no_codeset none = (no_codeset, none)
base_and_modifier no_codeset (some (b, m)) = (b, some m)

unfoldable pub locale_variants : Text → List Text
unfolding first_piece base_and_modifier variants_of split split_once
locale_variants loc =
    let no_codeset = first_piece loc (split b'.' loc) in
    let (base, modifier) = base_and_modifier no_codeset (split_once b'@' no_codeset) in
    variants_of base (first_piece base (split b'_' base)) modifier

-- The first of the variables that is set and not empty.
first_set : Host → List Text → Option Text
unfolding non_empty
first_set host [] = none
first_set host (var ∷ vars) = elim (non_empty (host.env_var var)) [
  | none ↦ first_set host vars
  | some s ↦ some s
]

candidates_of : Option Text → List Text
unfolding split_colon
candidates_of none = []
candidates_of (some s) = split_colon s

unfoldable pub locale_candidates : Host → List Text
unfolding first_set candidates_of
locale_candidates host =
    candidates_of
      (first_set host (codes "LANGUAGE" ∷ codes "LC_ALL" ∷ codes "LC_MESSAGES" ∷ codes "LANG" ∷ []))

add_variants : List Text → List Text → List Text
unfolding member
add_variants out [] = out
add_variants out (v ∷ vs) =
    let more = add_variants (out ++ v ∷ []) vs in
    let same = add_variants out vs in if not (member v out) then more else same

chain_from : List Text → List Text → List Text
unfolding add_variants locale_variants
chain_from out [] = out
chain_from out (lang ∷ langs) = chain_from (add_variants out (locale_variants lang)) langs

unfoldable pub locale_variant_chain : Host → List Text
unfolding chain_from locale_candidates
locale_variant_chain host = chain_from [] (locale_candidates host)

-- The loop of `get_localized` over the candidates, and what follows it.
localized_from : Text → Map Text → List Text → Option Text
unfolding lookup expand_str
localized_from key g [] = elim (lookup key g) [ none ↦ none | some v ↦ some (expand_str v) ]
localized_from key g (cand ∷ cands) = elim (lookup (key ++ codes "[" ++ cand ++ codes "]") g) [
  | none ↦ localized_from key g cands
  | some v ↦ some (expand_str v)
]

localized_in : Host → Text → Option (Map Text) → Option Text
unfolding localized_from locale_variant_chain
localized_in host key none = none
localized_in host key (some g) = localized_from key g (locale_variant_chain host)

unfoldable pub get_localized : Host → DesktopEntry → Text → Option Text → Option Text
unfolding localized_in group
get_localized host e key action = localized_in host key (group e action)
