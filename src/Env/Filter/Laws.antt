-- ===== src/Env/Filter/Laws.antt =====
-- What a kept name looks like.
use wsmr.Base.{
  ℕ, true, none, ◌≡◌, ◌≢◌, ◌∙◌, sym, ap, [], ◌∷◌, arith, All, all, inl, inr, Bool-cases,
  if◌then◌else◌,
}
use wsmr.Base.Text.{Text, text_eq, text_eq_iff}
use wsmr.Base.Maps.{Map, lookup, insert, contains_key, lookup-insert}
use wsmr.Env.Filter.{is_word_char, is_valid_name, keep_name, filter_map}

-- A word character is none of the separators of the file formats.
pub is_word_char_plain :
    (c : ℕ) → is_word_char c ≡ true → (c ≢ b'=') × (c ≢ b' ') × (c ≢ 0) × (c ≢ b'\n') × (c ≢ b'\r')
unfolding is_word_char
is_word_char_plain c h = (ground arith, ground arith, ground arith, ground arith, ground arith)

abbrev pub IsWord : Text → Type 0
IsWord s = All (λ c. is_word_char c ≡ true) s

all-IsWord : (s : Text) → all is_word_char s ≡ true → IsWord s
all-IsWord [] h = tt
all-IsWord (c ∷ s) h = (ground arith, all-IsWord s (ground arith))

pub is_valid_name-IsWord : (s : Text) → is_valid_name s ≡ true → IsWord s
unfolding is_valid_name is_word_char
is_valid_name-IsWord [] h = tt
is_valid_name-IsWord (c ∷ s) h = (ground arith, all-IsWord s (ground arith))

pub keep_name-IsWord : (s : Text) → keep_name s ≡ true → IsWord s
unfolding keep_name
keep_name-IsWord s h = is_valid_name-IsWord s (ground arith)

pub keep_name-ne-nil : (s : Text) → keep_name s ≡ true → s ≢ []
unfolding keep_name is_valid_name
keep_name-ne-nil [] h = ground arith
keep_name-ne-nil (c ∷ s) h = cc

-- Every name of the map is one that is kept.
abbrev pub Kept : Map Text → Type 0
Kept m = (k : Text) → contains_key k m ≡ true → keep_name k ≡ true

pub insert-Kept : (n v : Text) (m : Map Text) → keep_name n ≡ true → Kept m → Kept (insert n v m)
insert-Kept n v m h old k c = elim (Bool-cases (text_eq n k)) [
  | inl same ↦ ap keep_name (sym ((text_eq_iff n k).0 same)) ∙ h
  | inr other ↦ old k (ground (arith, c, lookup-insert n k v m, other))
]

pub nil-Kept : Kept []
unfolding lookup
nil-Kept k c = cc

pub lookup-filter_map :
    {V : Type 0} (m : Map V) (k : Text)
    → lookup k (filter_map m) ≡ (if keep_name k then lookup k m else none)
unfolding lookup filter_map
lookup-filter_map [] k = ground arith
lookup-filter_map ((j, v) ∷ m) k = ground (arith, lookup-filter_map m k, text_eq_iff j k)
