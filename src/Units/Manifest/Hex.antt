-- ===== src/Units/Manifest/Hex.antt =====
-- A fingerprint that was printed in hexadecimal is read back.
use native.Mathlib.Nat.{pow-suc}
use mathlib.Core.List.{concat-ne-nil}
use wsmr.Base.{
  ℕ, zero, suc, ◌+◌, ◌*◌, ◌/◌, ◌%◌, ◌^◌, ◌<◌, Option, none, some, [], ◌∷◌, ◌++◌, ◌≡◌, ◌≢◌, refl,
  ◌∙◌, ap, ◌⊎◌, inl, arith, All, All-append,
}
use wsmr.Base.Text.{Text, hex_digit}
use wsmr.Units.Manifest.{u64_mod, digit_value, push_digit, hex_from, from_str_radix, hex_pad}

abbrev pub IsHexDigit : ℕ → Type 0
IsHexDigit c = (c ≢ b'+') × (c ≢ b' ') × (c ≢ b'\n') × (c ≢ b'\r') × (c ≢ b'#')

hex_digit-IsHexDigit : (d : ℕ) → d < 16 → IsHexDigit (hex_digit d)
hex_digit-IsHexDigit d h = (ground arith, ground arith, ground arith, ground arith, ground arith)

pub hex_pad-IsHexDigit : (n x : ℕ) → All IsHexDigit (hex_pad n x)
unfolding hex_pad
hex_pad-IsHexDigit zero x = tt
hex_pad-IsHexDigit (suc n) x =
    All-append IsHexDigit (hex_pad n (x / 16)) (hex_digit (x % 16) ∷ [])
      (hex_pad-IsHexDigit n (x / 16)) (hex_digit-IsHexDigit (x % 16) (omega arith), tt)

digit_value-hex_digit : (d : ℕ) → d < 16 → digit_value (hex_digit d) ≡ some d
unfolding digit_value
digit_value-hex_digit d h = ground arith

abbrev digit_of : Option ℕ → ℕ
digit_of none = 0
digit_of (some d) = d

push_digit_cases :
    (acc : ℕ) (o : Option ℕ)
    → (push_digit acc o ≡ none) ⊎ (push_digit acc o ≡ some (acc * 16 + digit_of o))
unfolding push_digit
push_digit_cases acc none = inl refl
push_digit_cases acc (some d) = ground arith

abbrev then_digit : Option ℕ → ℕ → Option ℕ
then_digit none c = none
then_digit (some a) c = push_digit a (digit_value c)

hex_from-append :
    (acc : ℕ) (s : Text) (c : ℕ) → hex_from acc (s ++ c ∷ []) ≡ then_digit (hex_from acc s) c
unfolding hex_from
hex_from-append acc [] c = ground arith
hex_from-append acc (d ∷ s) c = ground (
  arith,
  hex_from-append (acc * 16 + digit_of (digit_value d)) s c,
  push_digit_cases acc (digit_value d),
)

quotient-lt : (n x : ℕ) → x < 16 ^ suc n → x / 16 < 16 ^ n
quotient-lt n x h = let h' = rw (pow-suc 16 n) at h in omega arith

push_digit_back : (x : ℕ) → x < u64_mod → push_digit (x / 16) (some (x % 16)) ≡ some x
unfolding push_digit
push_digit_back x u = ground arith

pub hex_from-hex_pad : (n x : ℕ) → x < 16 ^ n → x < u64_mod → hex_from 0 (hex_pad n x) ≡ some x
unfolding hex_pad hex_from
hex_from-hex_pad zero x h u = ground arith
hex_from-hex_pad (suc n) x h u =
    hex_from-append 0 (hex_pad n (x / 16)) (hex_digit (x % 16))
    ∙ ap (λ (o : Option ℕ). then_digit o (hex_digit (x % 16)))
        (hex_from-hex_pad n (x / 16) (quotient-lt n x h) (omega arith))
    ∙ ap (push_digit (x / 16)) (digit_value-hex_digit (x % 16) (omega arith))
    ∙ push_digit_back x u

from_str_radix-digits :
    (c : ℕ) (s : Text) → IsHexDigit c → from_str_radix (c ∷ s) ≡ hex_from 0 (c ∷ s)
unfolding from_str_radix
from_str_radix-digits c s h = ground arith

digits-from_str_radix : (s : Text) → All IsHexDigit s → s ≢ [] → from_str_radix s ≡ hex_from 0 s
digits-from_str_radix [] h ne = absurd (ne refl)
digits-from_str_radix (c ∷ s) (h, hs) ne = from_str_radix-digits c s h

pub hex_pad-ne-nil : (x : ℕ) → hex_pad 16 x ≢ []
unfolding hex_pad
hex_pad-ne-nil x = concat-ne-nil (hex_digit (x % 16)) (hex_pad 15 (x / 16))

-- The sixteen hexadecimal digits of a 64-bit number are read back as the number.
pub from_str_radix-hex_pad : (x : ℕ) → x < u64_mod → from_str_radix (hex_pad 16 x) ≡ some x
from_str_radix-hex_pad x u =
    digits-from_str_radix (hex_pad 16 x) (hex_pad-IsHexDigit 16 x) (hex_pad-ne-nil x)
    ∙ hex_from-hex_pad 16 x u u
