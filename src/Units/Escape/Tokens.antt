-- ===== src/Units/Escape/Tokens.antt =====
-- The output of an escape is a row of whole tokens.
use wsmr.Base.{
  ℕ, Bool, true, false, List, [], ◌∷◌, ◌++◌, ◌==◌, ◌≡◌, ◌≢◌, refl, arith, if◌then◌else◌, Bool-cases,
  inl, inr,
}
use wsmr.Base.Text.{Text, utf8}
use wsmr.Units.Escape.{
  cesc_byte, cesc_bytes, char2cesc, is_allowed, escape_char, escape_rest, escape_start,
  simple_systemd_escape,
}

-- Characters other than a backslash, and tokens `\xHH`.
pub data IsTokens : Text → Type 0 where
  nil : IsTokens []
  plain : {c : ℕ} {s : Text} → c ≢ b'\\' → IsTokens s → IsTokens (c ∷ s)
  token :
      {a b h l : ℕ} {s : Text} → a ≡ b'\\' → b ≡ b'x' → IsTokens s → IsTokens (a ∷ b ∷ h ∷ l ∷ s)

cesc_bytes-IsTokens : (bs : List ℕ) {s : Text} → IsTokens s → IsTokens (cesc_bytes bs ++ s)
unfolding cesc_bytes cesc_byte
cesc_bytes-IsTokens [] t = t
cesc_bytes-IsTokens (b ∷ bs) t = token refl refl (cesc_bytes-IsTokens bs t)

escape_char-IsTokens : (c : ℕ) {s : Text} → IsTokens s → IsTokens (escape_char c ++ s)
unfolding escape_char char2cesc
escape_char-IsTokens c t = elim (Bool-cases (c == b'/')) [
  | inl slash ↦ rw slash (plain (omega arith) t)
  | inr other ↦ rw other (elim (Bool-cases (is_allowed c)) [
    | inl ok' ↦ rw ok' (plain (unfold is_allowed in ground arith) t)
    | inr odd ↦ rw odd (cesc_bytes-IsTokens (utf8 (c ∷ [])) t)
  ])
]

escape_rest-IsTokens : (s : Text) → IsTokens (escape_rest s)
unfolding escape_rest
escape_rest-IsTokens [] = nil
escape_rest-IsTokens (c ∷ s) = escape_char-IsTokens c (escape_rest-IsTokens s)

pub guarded-IsTokens :
    (b : Bool) {s t : Text} → IsTokens s → IsTokens t → IsTokens (if b then s else t)
guarded-IsTokens true s t = s
guarded-IsTokens false s t = t

escape_start-IsTokens : (s : Text) → IsTokens (escape_start s)
unfolding escape_start
escape_start-IsTokens [] = nil
escape_start-IsTokens (c ∷ s) =
    guarded-IsTokens (c == b'.')
      (unfold char2cesc in cesc_bytes-IsTokens (utf8 (b'.' ∷ [])) (escape_rest-IsTokens s))
      (escape_rest-IsTokens (c ∷ s))

pub simple_systemd_escape-IsTokens :
    (s : Text) (start : Bool) → IsTokens (simple_systemd_escape s start)
unfolding simple_systemd_escape
simple_systemd_escape-IsTokens s false = escape_rest-IsTokens s
simple_systemd_escape-IsTokens s true = escape_start-IsTokens s
