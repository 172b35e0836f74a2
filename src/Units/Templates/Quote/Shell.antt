-- ===== src/Units/Templates/Quote/Shell.antt =====
-- How a POSIX shell splits a line into words, and that it undoes `shlex_join`.
use mathlib.Core.List.{append_assoc, append-nil}
use wsmr.Base.{
  ℕ, Bool, true, false, Option, none, some, List, [], ◌∷◌, ◌++◌, ◌≡◌, refl, ◌∙◌, ap, sym, inl, inr,
  arith, ◌==◌, if◌then◌else◌, all, map, Bool-cases, ==_iff,
}
use wsmr.Base.Text.{Text, codes, contains_char, join}
use wsmr.Units.Templates.Quote.{is_plain, replace_quote, shlex_quote, shlex_join}

-- Between words, in a word, in single quotes, in double quotes.
pub data Mode : Type 0 where
  between in_word single double : Mode

-- The characters that a shell reads as themselves nowhere outside of quotes.
abbrev pub is_special : ℕ → Bool
is_special c = contains_char c (codes "|&;<>()$`\\*?[#~!{}\n\t")

-- The words of a line, or `none` where it is unfinished or holds what this reader does not know:
-- an unquoted special character, or one of $ ` \ in double quotes.
pub words : Mode → Text → List Text → Text → Option (List Text)
words between cur out [] = some out
words in_word cur out [] = some (out ++ cur ∷ [])
words single cur out [] = none
words double cur out [] = none
words between cur out (c ∷ s) =
    let again = words between [] out s in
    let quoted = words single [] out s in
    let quoted2 = words double [] out s in
    let started = words in_word (c ∷ []) out s in
    if c == b' '
    then again
    else if c == b'\''
    then quoted
    else if c == b'"'
    then quoted2
    else if is_special c
    then none
    else started
words in_word cur out (c ∷ s) =
    let closed = words between [] (out ++ cur ∷ []) s in
    let quoted = words single cur out s in
    let quoted2 = words double cur out s in
    let longer = words in_word (cur ++ c ∷ []) out s in
    if c == b' '
    then closed
    else if c == b'\''
    then quoted
    else if c == b'"'
    then quoted2
    else if is_special c
    then none
    else longer
words single cur out (c ∷ s) =
    let closed = words in_word cur out s in
    let longer = words single (cur ++ c ∷ []) out s in if c == b'\'' then closed else longer
words double cur out (c ∷ s) =
    let closed = words in_word cur out s in
    let longer = words double (cur ++ c ∷ []) out s in
    if c == b'"' then closed else if contains_char c (codes "$`\\") then none else longer

unfoldable pub shell_words : Text → Option (List Text)
unfolding words contains_char
shell_words s = words between [] [] s

words-is_plain :
    (c : ℕ) (cur : Text) (out : List Text) (s : Text)
    → is_plain c ≡ true
    → (words in_word cur out (c ∷ s) ≡ words in_word (cur ++ c ∷ []) out s)
      × (words between [] out (c ∷ s) ≡ words in_word (c ∷ []) out s)
unfolding words is_plain contains_char
words-is_plain c cur out s h = (ground arith, ground arith)

words-plain :
    (a cur : Text) (out : List Text) (s : Text)
    → all is_plain a ≡ true
    → words in_word cur out (a ++ s) ≡ words in_word (cur ++ a) out s
words-plain [] cur out s h = rw append-nil
words-plain (c ∷ a) cur out s h =
    (words-is_plain c cur out (a ++ s) (ground arith)).0
    ∙ words-plain a (cur ++ c ∷ []) out s (ground arith)
    ∙ rw append_assoc

-- The five characters that stand for a single quote.
words-quote :
    (cur : Text) (out : List Text) (s : Text)
    → words single cur out (codes "'\"'\"'" ++ s) ≡ words single (cur ++ b'\'' ∷ []) out s
unfolding words contains_char
words-quote cur out s = refl

words-single :
    (c : ℕ) (cur : Text) (out : List Text) (s : Text)
    → (c == b'\'') ≡ false
    → words single cur out (c ∷ s) ≡ words single (cur ++ c ∷ []) out s
unfolding words
words-single c cur out s h = rw h

words-replace_quote :
    (a cur : Text) (out : List Text) (s : Text)
    → words single cur out (replace_quote a ++ s) ≡ words single (cur ++ a) out s
unfolding replace_quote
words-replace_quote [] cur out s = rw append-nil
words-replace_quote (c ∷ a) cur out s = elim (Bool-cases (c == b'\'')) [
  | inl quote ↦ rw quote (
      words-quote cur out (replace_quote a ++ s)
      ∙ words-replace_quote a (cur ++ b'\'' ∷ []) out s
      ∙ rw append_assoc
          (ap (λ d. words single (cur ++ d ∷ a) out s) (sym ((==_iff c b'\'').0 quote))))
  | inr other ↦ rw other (
      words-single c cur out (replace_quote a ++ s) other
      ∙ words-replace_quote a (cur ++ c ∷ []) out s
      ∙ rw append_assoc)
]

-- A quoted argument is read as one word that goes on.
words-shlex_quote :
    (a : Text) (out : List Text) (s : Text)
    → words between [] out (shlex_quote a ++ s) ≡ words in_word a out s
unfolding shlex_quote
words-shlex_quote [] out s = unfold words contains_char in refl
words-shlex_quote (c ∷ a) out s = elim (Bool-cases (all is_plain (c ∷ a))) [
  | inl plain ↦ rw plain (
      (words-is_plain c [] out (a ++ s) (ground arith)).1
      ∙ words-plain a (c ∷ []) out s (ground arith))
  | inr other ↦ rw other (
      opened (replace_quote (c ∷ a) ++ b'\'' ∷ [])
      ∙ rw append_assoc (words-replace_quote (c ∷ a) [] out (b'\'' ∷ s))
      ∙ closed)
]
  where
    opened : (t : Text) → words between [] out ((b'\'' ∷ t) ++ s) ≡ words single [] out (t ++ s)
    opened t = unfold words in refl

    closed : words single (c ∷ a) out (b'\'' ∷ s) ≡ words in_word (c ∷ a) out s
    closed = unfold words in refl

words-end : (a : Text) (out : List Text) → words in_word a out [] ≡ some (out ++ a ∷ [])
unfolding words
words-end a out = refl

words-space :
    (a : Text) (out : List Text) (s : Text)
    → words in_word a out (b' ' ∷ s) ≡ words between [] (out ++ a ∷ []) s
unfolding words
words-space a out s = refl

words-join :
    (a : Text) (rest : List Text) (out : List Text)
    → words between [] out (join (codes " ") (map shlex_quote (a ∷ rest))) ≡ some (out ++ a ∷ rest)
unfolding join
words-join a [] out =
    ap (words between [] out) (sym (append-nil (shlex_quote a)))
    ∙ words-shlex_quote a out []
    ∙ words-end a out
words-join a (b ∷ rest) out =
    words-shlex_quote a out (b' ' ∷ join (codes " ") (map shlex_quote (b ∷ rest)))
    ∙ words-space a out (join (codes " ") (map shlex_quote (b ∷ rest)))
    ∙ words-join b rest (out ++ a ∷ [])
    ∙ rw append_assoc

-- A shell reads the joined line back as exactly the arguments, whatever characters they hold.
pub shell_words-shlex_join : (parts : List Text) → shell_words (shlex_join parts) ≡ some parts
unfolding shell_words shlex_join
shell_words-shlex_join [] = unfold words join in refl
shell_words-shlex_join (a ∷ rest) = words-join a rest []
