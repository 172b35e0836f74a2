-- ===== src/Env/Filter.antt =====
-- src/filter.rs: which variable names are kept.
pub mod Laws
use wsmr.Base.{
  ℕ, Bool, true, false, not, ◌&&◌, ◌||◌, List, [], ◌∷◌, ◌==◌, if◌then◌else◌, all, keep, is_empty,
}
use wsmr.Base.Text.{Text, codes, is_ascii_alphabetic, is_ascii_alphanumeric}
use wsmr.Base.Maps.{Map}
use wsmr.Base.Sets.{member, text_key}

abbrev pub drop_sh_vars : List Text
drop_sh_vars = codes "_" ∷ codes "SHELL" ∷ codes "PWD" ∷ codes "OLDWD" ∷ []

unfoldable pub is_word_char : ℕ → Bool
is_word_char c = is_ascii_alphanumeric c || c == b'_'

unfoldable pub is_valid_name : Text → Bool
unfolding is_word_char
is_valid_name [] = false
is_valid_name (c ∷ rest) =
    if is_ascii_alphabetic c
    then all is_word_char rest
    else if c == b'_'
    then not (is_empty rest) && all is_word_char rest
    else false

unfoldable pub keep_name : Text → Bool
unfolding member is_valid_name
keep_name name = not (member name drop_sh_vars) && is_valid_name name

unfoldable pub filter_names : List Text → List Text
unfolding keep_name
filter_names names = keep keep_name names

unfoldable pub filter_map {ℓ} : {V : Type ℓ} → Map V → Map V
unfolding keep_name
filter_map m = keep (λ kv. keep_name kv.0) m
