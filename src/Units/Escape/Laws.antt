-- ===== src/Units/Escape/Laws.antt =====
-- Escaping loses nothing: the bytes of the text can be read back.
use mathlib.Core.List.{append_assoc, append-nil}
use wsmr.Base.{
  ==_iff, ℕ, ◌+◌, ◌-◌, ◌*◌, ◌/◌, ◌%◌, ◌<◌, Bool, true, false, ◌&&◌, List, [], ◌∷◌, ◌++◌, ◌==◌, ltb,
  ◌≡◌, ◌≢◌, refl, ◌∙◌, ap, sym, arith, if◌then◌else◌, All, Bool-cases, inl, inr,
}
use wsmr.Base.Text.{Text, utf8, utf8_char, hex_digit}
use wsmr.Units.Escape.{
  cesc_byte, cesc_bytes, char2cesc, is_allowed, escape_char, escape_rest, escape_start,
  simple_systemd_escape,
}

abbrev hex_value : ℕ → ℕ
hex_value c = if ltb c b'a' then c - b'0' else c - b'a' + 10

abbrev plain_byte : ℕ → ℕ
plain_byte c = if c == b'-' then b'/' else c

-- The bytes that a unit string stands for: `-` is a slash, `\xHH` the byte HH.
unfoldable pub unescape : Text → List ℕ
unescape [] = []
unescape (a ∷ []) = plain_byte a ∷ []
unescape (a ∷ b ∷ []) = plain_byte a ∷ plain_byte b ∷ []
unescape (a ∷ b ∷ c ∷ []) = plain_byte a ∷ plain_byte b ∷ plain_byte c ∷ []
unescape (a ∷ b ∷ h ∷ l ∷ s) =
    let token = unescape s in
    let rest = unescape (b ∷ h ∷ l ∷ s) in
    if a == b'\\' && b == b'x'
    then (hex_value h * 16 + hex_value l) ∷ token
    else plain_byte a ∷ rest

unescape-plain : (a : ℕ) (s : Text) → a ≢ b'\\' → unescape (a ∷ s) ≡ plain_byte a ∷ unescape s
unfolding unescape
unescape-plain a [] h = refl
unescape-plain a (b ∷ []) h = refl
unescape-plain a (b ∷ c ∷ []) h = refl
unescape-plain a (b ∷ c ∷ d ∷ s) h = ground arith

byte_digits :
    (b : ℕ) → b < 256 → hex_value (hex_digit (b / 16)) * 16 + hex_value (hex_digit (b % 16)) ≡ b
byte_digits b h = ground arith

unescape-cesc_byte : (b : ℕ) (s : Text) → b < 256 → unescape (cesc_byte b ++ s) ≡ b ∷ unescape s
unfolding unescape cesc_byte
unescape-cesc_byte b s h = ap (λ (c : ℕ). c ∷ unescape s) (byte_digits b h)

unescape-cesc_bytes :
    (bs : List ℕ) (s : Text)
    → All (λ b. b < 256) bs
    → unescape (cesc_bytes bs ++ s) ≡ bs ++ unescape s
unfolding cesc_bytes
unescape-cesc_bytes [] s h = refl
unescape-cesc_bytes (b ∷ bs) s (h, hs) =
    rw append_assoc (unescape-cesc_byte b (cesc_bytes bs ++ s) h)
    ∙ ap (λ (t : List ℕ). b ∷ t) (unescape-cesc_bytes bs s hs)

utf8_char-bytes : (c : ℕ) → c < 0x110000 → All (λ b. b < 256) (utf8_char c)
unfolding utf8_char
utf8_char-bytes c h = ground arith

utf8_char_ascii : (c : ℕ) → c < 0x80 → utf8_char c ≡ c ∷ []
unfolding utf8_char
utf8_char_ascii c h = ground arith

is_allowed_lem : (c : ℕ) → is_allowed c ≡ true → (c < 0x80) × (c ≢ b'\\') × (plain_byte c ≡ c)
unfolding is_allowed
is_allowed_lem c h = (ground arith, ground arith, ground arith)

char2cesc_char : (c : ℕ) → char2cesc (c ∷ []) ≡ cesc_bytes (utf8_char c)
unfolding char2cesc utf8
char2cesc_char c = rw append-nil

unescape-escape_char :
    (c : ℕ) (s : Text) → c < 0x110000 → unescape (escape_char c ++ s) ≡ utf8_char c ++ unescape s
unfolding escape_char
unescape-escape_char c s h = elim (Bool-cases (c == b'/')) [
  | inl slash ↦ rw slash (
      unescape-plain b'-' s (omega arith) ∙ ap (λ (t : List ℕ). t ++ unescape s) (slash_byte slash))
  | inr other ↦ rw other (elim (Bool-cases (is_allowed c)) [
    | inl ok' ↦
        let (ascii, no_backslash, plain) = is_allowed_lem c ok' in
        rw ok' (
          unescape-plain c s no_backslash
          ∙ ap (λ (d : ℕ). d ∷ unescape s) plain
          ∙ ap (λ (t : List ℕ). t ++ unescape s) (sym (utf8_char_ascii c ascii)))
    | inr odd ↦ rw odd (
        ap (λ (t : Text). unescape (t ++ s)) (char2cesc_char c)
        ∙ unescape-cesc_bytes (utf8_char c) s (utf8_char-bytes c h))
  ])
]
  where
    slash_byte : (c == b'/') ≡ true → b'/' ∷ [] ≡ utf8_char c
    slash_byte e = unfold utf8_char in ground arith

unescape-escape_rest : (s : Text) → All (λ c. c < 0x110000) s → unescape (escape_rest s) ≡ utf8 s
unfolding escape_rest utf8
unescape-escape_rest [] h = unfold unescape in refl
unescape-escape_rest (c ∷ s) (h, hs) =
    unescape-escape_char c (escape_rest s) h
    ∙ ap (λ (t : List ℕ). utf8_char c ++ t) (unescape-escape_rest s hs)

dot_byte :
    (c : ℕ) (s : Text)
    → (c == b'.') ≡ true
    → unescape (cesc_bytes (utf8_char b'.') ++ escape_rest s)
      ≡ utf8_char c ++ unescape (escape_rest s)
dot_byte c s dot =
    unescape-cesc_bytes (utf8_char b'.') (escape_rest s) (utf8_char-bytes b'.' (omega arith))
    ∙ ap (λ (d : ℕ). utf8_char d ++ unescape (escape_rest s)) (sym ((==_iff c b'.').0 dot))

guarded_start :
    (b : Bool) (c : ℕ) (s : Text)
    → ((c == b'.') ≡ b)
    → All (λ d. d < 0x110000) (c ∷ s)
    → unescape (if b then char2cesc (b'.' ∷ []) ++ escape_rest s else escape_rest (c ∷ s))
      ≡ utf8 (c ∷ s)
guarded_start true c s dot (h, hs) =
    ap (λ (t : Text). unescape (t ++ escape_rest s)) (char2cesc_char b'.')
    ∙ dot_byte c s dot
    ∙ unfold utf8 in ap (λ (t : List ℕ). utf8_char c ++ t) (unescape-escape_rest s hs)
guarded_start false c s other h = unescape-escape_rest (c ∷ s) h

unescape-escape_start : (s : Text) → All (λ c. c < 0x110000) s → unescape (escape_start s) ≡ utf8 s
unfolding escape_start
unescape-escape_start [] h = unfold unescape utf8 in refl
unescape-escape_start (c ∷ s) h = guarded_start (c == b'.') c s refl h

-- A unit string determines the bytes of the text that was escaped, with and without the guard of a
-- leading dot; so two texts with different bytes have different unit strings.
pub unescape-simple_systemd_escape :
    (s : Text) (start : Bool)
    → All (λ c. c < 0x110000) s
    → unescape (simple_systemd_escape s start) ≡ utf8 s
unfolding simple_systemd_escape
unescape-simple_systemd_escape s true h = unescape-escape_start s h
unescape-simple_systemd_escape s false h = unescape-escape_rest s h
