-- ===== src/Comp/BinId.antt =====
-- The sanitized id of a compositor is a name that a shell takes for a function.
use wsmr.Base.{
  ℕ, Bool, true, false, ◌||◌, [], ◌∷◌, ◌==◌, within, if◌then◌else◌, ◌≡◌, refl, ◌∙◌, ap, arith, All,
  is_empty,
}
use wsmr.Base.Text.{Text, is_ascii_alphabetic, is_ascii_digit}
use wsmr.Comp.{is_word, lower, sanitize_from, sanitize_bin_id}

-- A lower case letter, a digit or an underscore.
abbrev pub is_id_char : ℕ → Bool
is_id_char c = within b'a' b'z' c || is_ascii_digit c || c == b'_'

abbrev pub IsIdText : Text → Type 0
IsIdText s = All (λ c. is_id_char c ≡ true) s

lower-is_id_char : (c : ℕ) → is_word c ≡ true → is_id_char (lower c) ≡ true
unfolding is_word lower
lower-is_id_char c h = ground (arith, h)

lower-fixed : (c : ℕ) → is_id_char c ≡ true → (is_word c ≡ true) × (lower c ≡ c)
unfolding is_word lower
lower-fixed c h = (ground (arith, h), ground (arith, h))

sanitize_from-IsIdText : (b : Bool) (s : Text) → IsIdText (sanitize_from b s)
unfolding sanitize_from
sanitize_from-IsIdText b [] = tt
sanitize_from-IsIdText b (c ∷ s) =
    step (is_word c) refl b (sanitize_from-IsIdText false s) (sanitize_from-IsIdText true s)
  where
    step :
        (w : Bool)
        → is_word c ≡ w
        → (k : Bool) → IsIdText (sanitize_from false s)
        → IsIdText (sanitize_from true s)
        → IsIdText (
            if w
            then lower c ∷ sanitize_from false s
            else if k
            then sanitize_from true s
            else b'_' ∷ sanitize_from true s)
    step true e k word run = (lower-is_id_char c e, word)
    step false e true word run = run
    step false e false word run = (refl, run)

sanitize_from-fixed : (b : Bool) (s : Text) → IsIdText s → sanitize_from b s ≡ s
unfolding sanitize_from
sanitize_from-fixed b [] h = refl
sanitize_from-fixed b (c ∷ s) (h, hs) =
    rw ((lower-fixed c h).0)
      (rw ((lower-fixed c h).1) (ap (λ (t : Text). c ∷ t) (sanitize_from-fixed false s hs)))

-- The first character is no digit.
abbrev pub IsBinId : Text → Type 0
IsBinId [] = Unit
IsBinId (c ∷ s) = (is_ascii_digit c ≡ false) × IsIdText (c ∷ s)

-- The id is of lower case letters, digits and underscores, and begins with no digit, whatever the
-- name; and it is empty for the empty name only.
pub sanitize_bin_id-IsBinId :
    (s : Text) → IsBinId (sanitize_bin_id s) × (is_empty (sanitize_bin_id s) ≡ is_empty s)
unfolding sanitize_bin_id
sanitize_bin_id-IsBinId [] = (tt, refl)
sanitize_bin_id-IsBinId (c ∷ s) = step (is_ascii_alphabetic c) refl
  where
    letter :
        is_ascii_alphabetic c ≡ true
        → (is_ascii_digit (lower c) ≡ false) × (is_id_char (lower c) ≡ true)
    letter e = unfold lower in (ground (arith, e), ground (arith, e))

    step :
        (w : Bool)
        → is_ascii_alphabetic c ≡ w
        → IsBinId (if w then lower c ∷ sanitize_from false s else b'_' ∷ sanitize_from true s)
          × (is_empty (if w then lower c ∷ sanitize_from false s else b'_' ∷ sanitize_from true s)
              ≡ false)
    step true e = (((letter e).0, ((letter e).1, sanitize_from-IsIdText false s)), refl)
    step false e = ((refl, (refl, sanitize_from-IsIdText true s)), refl)

fixed_at :
    (c : ℕ) (t : Text)
    → is_ascii_digit c ≡ false
    → is_id_char c ≡ true
    → IsIdText t
    → sanitize_bin_id (c ∷ t) ≡ c ∷ t
unfolding sanitize_bin_id
fixed_at c t d h hs = step (is_ascii_alphabetic c) refl
  where
    underscore : is_ascii_alphabetic c ≡ false → b'_' ≡ c
    underscore e = ground (arith, d, h, e)

    step :
        (w : Bool)
        → is_ascii_alphabetic c ≡ w
        → (if w then lower c ∷ sanitize_from false t else b'_' ∷ sanitize_from true t) ≡ c ∷ t
    step true e =
        ap (λ (x : ℕ). x ∷ sanitize_from false t) ((lower-fixed c h).1)
        ∙ ap (λ (l : Text). c ∷ l) (sanitize_from-fixed false t hs)
    step false e =
        ap (λ (x : ℕ). x ∷ sanitize_from true t) (underscore e)
        ∙ ap (λ (l : Text). c ∷ l) (sanitize_from-fixed true t hs)

-- A sanitized id is its own sanitized id.
pub sanitize_bin_id-idempotent :
    (s : Text) → sanitize_bin_id (sanitize_bin_id s) ≡ sanitize_bin_id s
sanitize_bin_id-idempotent s = fixed (sanitize_bin_id s) ((sanitize_bin_id-IsBinId s).0)
  where
    fixed : (t : Text) → IsBinId t → sanitize_bin_id t ≡ t
    fixed [] h = unfold sanitize_bin_id in refl
    fixed (c ∷ t) (d, (h, hs)) = fixed_at c t d h hs
