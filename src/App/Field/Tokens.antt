-- ===== src/App/Field/Tokens.antt =====
-- Splitting an `Exec` line undoes the quoting of the Desktop Entry Specification.
use mathlib.Core.List.{append_assoc, append-nil, reverse, reverse-append, reverse-reverse}
use wsmr.Base.{
  ℕ, Bool, true, false, ◌||◌, List, [], ◌∷◌, ◌++◌, ◌==◌, if◌then◌else◌, map, ◌≡◌, refl, ◌∙◌, ap,
  sym, arith, Bool-cases, inl, inr,
}
use wsmr.Base.Text.{Text, codes, join, trim, trim_start, trim_end, is_whitespace}
use wsmr.Error.{Result, ok}
use wsmr.App.Field.{Scan, scan, scan_quoted, scan_plain, tokens_from, scan_start, tokenize_exec}

-- The characters that the specification wants escaped inside of quotes.
abbrev pub needs_escape : ℕ → Bool
needs_escape c = c == b'"' || c == b'\\' || c == b'`' || c == b'$'

abbrev pub quote_body : Text → Text
quote_body [] = []
quote_body (c ∷ s) = if needs_escape c then b'\\' ∷ c ∷ quote_body s else c ∷ quote_body s

-- An argument in quotes.
abbrev pub quote_arg : Text → Text
quote_arg a = b'"' ∷ (quote_body a ++ b'"' ∷ [])

abbrev inside : List Text → Text → Scan
inside cmd arg = record { cmd = cmd; arg = arg; quoted = true; in_space = false; escaped = false }

abbrev outside : List Text → Text → Bool → Scan
outside cmd arg in_space = record {
  cmd = cmd;
  arg = arg;
  quoted = false;
  in_space = in_space;
  escaped = false;
}

tokens_from-escaped :
    (cmd : List Text) (arg : Text) (c : ℕ) (s : Text)
    → tokens_from (ok (inside cmd arg)) (b'\\' ∷ c ∷ s)
      ≡ tokens_from (ok (inside cmd (arg ++ c ∷ []))) s
unfolding tokens_from scan scan_quoted
tokens_from-escaped cmd arg c s = refl

tokens_from-plain :
    (cmd : List Text) (arg : Text) (c : ℕ) (s : Text)
    → needs_escape c ≡ false
    → tokens_from (ok (inside cmd arg)) (c ∷ s) ≡ tokens_from (ok (inside cmd (arg ++ c ∷ []))) s
unfolding tokens_from
tokens_from-plain cmd arg c s h = ap (λ (r : Result Scan). tokens_from r s) scanned
  where
    scanned : scan c (inside cmd arg) ≡ ok (inside cmd (arg ++ c ∷ []))
    scanned = unfold scan scan_quoted in ground (arith, h)

tokens_from-body :
    (cmd : List Text) (arg a rest : Text)
    → tokens_from (ok (inside cmd arg)) (quote_body a ++ rest)
      ≡ tokens_from (ok (inside cmd (arg ++ a))) rest
tokens_from-body cmd arg [] rest =
    ap (λ (t : Text). tokens_from (ok (inside cmd t)) rest) (sym (append-nil arg))
tokens_from-body cmd arg (c ∷ a) rest =
    step (needs_escape c) refl
    ∙ tokens_from-body cmd (arg ++ c ∷ []) a rest
    ∙ ap (λ (t : Text). tokens_from (ok (inside cmd t)) rest) (append_assoc arg (c ∷ []) a)
  where
    step :
        (b : Bool)
        → needs_escape c ≡ b
        → tokens_from
            (ok (inside cmd arg))
            ((if b then b'\\' ∷ c ∷ quote_body a else c ∷ quote_body a) ++ rest)
          ≡ tokens_from (ok (inside cmd (arg ++ c ∷ []))) (quote_body a ++ rest)
    step true e = tokens_from-escaped cmd arg c (quote_body a ++ rest)
    step false e = tokens_from-plain cmd arg c (quote_body a ++ rest) e

-- One quoted argument, at the start or behind a space.
tokens_from-quoted :
    (cmd : List Text) (b : Bool) (a rest : Text)
    → tokens_from (ok (outside cmd [] b)) (quote_arg a ++ rest)
      ≡ tokens_from (ok (outside cmd a false)) rest
tokens_from-quoted cmd b a rest =
    opened
    ∙ ap (tokens_from (ok (inside cmd []))) (append_assoc (quote_body a) (b'"' ∷ []) rest)
    ∙ tokens_from-body cmd [] a (b'"' ∷ rest)
    ∙ closed
  where
    opened :
        tokens_from (ok (outside cmd [] b)) (quote_arg a ++ rest)
        ≡ tokens_from (ok (inside cmd [])) (quote_body a ++ b'"' ∷ [] ++ rest)
    opened =
        unfold tokens_from scan scan_plain is_whitespace in
        elim (Bool-cases b) [ inl e ↦ rw e refl | inr e ↦ rw e refl ]

    closed :
        tokens_from (ok (inside cmd a)) (b'"' ∷ rest) ≡ tokens_from (ok (outside cmd a false)) rest
    closed = unfold tokens_from scan scan_quoted in refl

tokens_from-space :
    (cmd : List Text) (a rest : Text)
    → tokens_from (ok (outside cmd a false)) (b' ' ∷ rest)
      ≡ tokens_from (ok (outside (cmd ++ a ∷ []) [] true)) rest
unfolding tokens_from scan scan_plain is_whitespace
tokens_from-space cmd a rest = refl

-- A row of quoted arguments, with a space between two of them.
unfoldable pub exec_line : Text → List Text → Text
unfolding join
exec_line a args = join (codes " ") (map quote_arg (a ∷ args))

exec_line-cons :
    (a c : Text) (args : List Text)
    → exec_line a (c ∷ args) ≡ quote_arg a ++ (b' ' ∷ exec_line c args)
unfolding exec_line
exec_line-cons a c args = refl

exec_line-nil : (a : Text) → exec_line a [] ≡ quote_arg a ++ []
unfolding exec_line
exec_line-nil a = sym (append-nil (quote_arg a))

tokens_from-end :
    (cmd : List Text) (a : Text) → tokens_from (ok (outside cmd a false)) [] ≡ ok (cmd ++ a ∷ [])
unfolding tokens_from
tokens_from-end cmd a = refl

tokens_from-line :
    (cmd : List Text) (b : Bool) (a : Text) (args : List Text)
    → tokens_from (ok (outside cmd [] b)) (exec_line a args) ≡ ok (cmd ++ (a ∷ args))
tokens_from-line cmd b a [] =
    ap (tokens_from (ok (outside cmd [] b))) (exec_line-nil a)
    ∙ tokens_from-quoted cmd b a []
    ∙ tokens_from-end cmd a
tokens_from-line cmd b a (c ∷ args) =
    ap (tokens_from (ok (outside cmd [] b))) (exec_line-cons a c args)
    ∙ tokens_from-quoted cmd b a (b' ' ∷ exec_line c args)
    ∙ tokens_from-space cmd a (exec_line c args)
    ∙ tokens_from-line (cmd ++ a ∷ []) true c args
    ∙ ap (λ (l : List Text). ok l) (append_assoc cmd (a ∷ []) (c ∷ args))

-- What stands between the first quote of a line and its last one.
middle : Text → List Text → Text
middle a [] = quote_body a
middle a (c ∷ args) = quote_body a ++ (b'"' ∷ b' ' ∷ b'"' ∷ middle c args)

exec_line-middle :
    (a : Text) (args : List Text) → exec_line a args ≡ b'"' ∷ (middle a args ++ b'"' ∷ [])
unfolding middle
exec_line-middle a [] = unfold exec_line in refl
exec_line-middle a (c ∷ args) =
    exec_line-cons a c args
    ∙ ap (λ (t : Text). quote_arg a ++ (b' ' ∷ t)) (exec_line-middle c args)
    ∙ ap (λ (t : Text). b'"' ∷ t)
        (append_assoc (quote_body a) (b'"' ∷ []) (b' ' ∷ b'"' ∷ (middle c args ++ b'"' ∷ []))
          ∙ sym (append_assoc (quote_body a) (b'"' ∷ b' ' ∷ b'"' ∷ middle c args) (b'"' ∷ [])))

trim_start-quote : (s : Text) → trim_start (b'"' ∷ s) ≡ b'"' ∷ s
unfolding trim_start is_whitespace
trim_start-quote s = refl

trim-quotes : (m : Text) → trim (b'"' ∷ (m ++ b'"' ∷ [])) ≡ b'"' ∷ (m ++ b'"' ∷ [])
unfolding trim trim_end
trim-quotes m =
    let backwards : reverse (b'"' ∷ (m ++ b'"' ∷ [])) ≡ b'"' ∷ reverse (b'"' ∷ m) =
      reverse-append (b'"' ∷ m) (b'"' ∷ []) in
    ap (λ (t : Text). reverse (trim_start (reverse t))) (trim_start-quote (m ++ b'"' ∷ []))
    ∙ ap (λ (t : Text). reverse (trim_start t)) backwards
    ∙ ap reverse (trim_start-quote (reverse (b'"' ∷ m)))
    ∙ ap reverse (sym backwards)
    ∙ reverse-reverse (b'"' ∷ (m ++ b'"' ∷ []))

-- One argument or more, each in quotes with `"`, `\`, backquote and `$` escaped, and put in a line
-- with a space between two of them, are split into what they were, whatever they hold.
pub tokenize_exec-exec_line :
    (a : Text) (args : List Text) → tokenize_exec (exec_line a args) ≡ ok (a ∷ args)
unfolding tokenize_exec
tokenize_exec-exec_line a args =
    ap (tokens_from (ok scan_start)) (
      ap trim (exec_line-middle a args)
      ∙ trim-quotes (middle a args)
      ∙ sym (exec_line-middle a args))
    ∙ tokens_from-line [] false a args
