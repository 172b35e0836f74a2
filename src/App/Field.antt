-- ===== src/App/Field.antt =====
-- src/app/field.rs: the `Exec` value of a desktop entry, unescaped, split and filled in. An index of
-- bytes is one of code points: what is compared is ASCII.
pub mod Tokens
pub mod Args
use wsmr.Base.{
  ℕ, zero, suc, ◌+◌, ◌/◌, ◌%◌, Bool, true, false, not, ◌&&◌, ◌||◌, Option, none, some, List, [],
  ◌∷◌, ◌++◌, ◌==◌, ltb, if◌then◌else◌, is_empty, length, map,
}
use wsmr.Base.Text.{
  Text, codes, text_eq, contains, contains_char, trim, is_whitespace, utf8, upper_hex_digit,
  is_ascii_alphabetic, is_ascii_alphanumeric,
}
use wsmr.Base.Maps.{is_some}
use wsmr.Error.{Error, invalid_arg, Result, ok, err, ◌>>=◌}
use wsmr.Units.Templates.{replace}

pub record EntryCtx : Type 0 where
  pub name : Text
  pub icon : Text
  pub filename : Text

pub data GenArgs : Type 0 where
  single : List Text → GenArgs
  multi : List (List Text) → GenArgs

unescaped : ℕ → ℕ
unescaped c =
    if c == b's'
    then b' '
    else if c == b'n'
    then b'\n'
    else if c == b't'
    then b'\t'
    else if c == b'r'
    then b'\r'
    else c

-- The loop of `expand_str`; the flag is `escaped`.
expand_from : Bool → Text → Text
unfolding unescaped
expand_from escaped [] = []
expand_from true (c ∷ s) = unescaped c ∷ expand_from false s
expand_from false (c ∷ s) =
    let after = expand_from true s in
    let next = expand_from false s in if c == b'\\' then after else c ∷ next

unfoldable pub expand_str : Text → Text
unfolding expand_from contains_char
expand_str value = if not (contains_char b'\\' value) then value else expand_from false value

-- The variables of the loop of `tokenize_exec`.
pub record Scan : Type 0 where
  pub cmd : List Text
  pub arg : Text
  pub quoted : Bool
  pub in_space : Bool
  pub escaped : Bool

abbrev pub push : ℕ → Scan → Scan
push c st = record st { arg = st.arg ++ c ∷ []; in_space = false; escaped = false }

pub is_reserved : ℕ → Bool
unfolding contains_char
is_reserved c = contains_char c (codes "\t\n'\\><~|&;$*?#()`")

pub scan_quoted : ℕ → Scan → Result Scan
scan_quoted c st =
    if st.escaped
    then ok (push c st)
    else if c == b'"'
    then ok (record st { quoted = false; in_space = false })
    else if c == b'\\'
    then ok (record st { escaped = true; in_space = false })
    else if c == b'`' || c == b'$'
    then err invalid_arg
    else ok (push c st)

pub scan_plain : ℕ → Scan → Result Scan
unfolding is_reserved is_whitespace
scan_plain c st =
    if c == b'"'
    then ok (record st { quoted = true; in_space = false })
    else if is_whitespace c
    then ok (record st { cmd = st.cmd ++ st.arg ∷ []; arg = []; in_space = true })
    else if is_reserved c
    then err invalid_arg
    else ok (push c st)

pub scan : ℕ → Scan → Result Scan
unfolding scan_quoted scan_plain is_whitespace
scan c st =
    if st.in_space && is_whitespace c
    then ok st
    else if st.quoted
    then scan_quoted c st
    else scan_plain c st

pub tokens_from : Result Scan → Text → Result (List Text)
unfolding scan
tokens_from (err e) s = err e
tokens_from (ok st) [] = ok (st.cmd ++ st.arg ∷ [])
tokens_from (ok st) (c ∷ s) = tokens_from (scan c st) s

abbrev pub scan_start : Scan
scan_start = record { cmd = []; arg = []; quoted = false; in_space = false; escaped = false }

unfoldable pub tokenize_exec : Text → Result (List Text)
unfolding tokens_from trim
tokenize_exec value = tokens_from (ok scan_start) (trim value)

-- What follows the first character of a scheme, up to its colon.
scheme_rest : Text → Bool
scheme_rest [] = false
scheme_rest (c ∷ s) =
    let rest = scheme_rest s in
    if c == b':'
    then true
    else if not (is_ascii_alphanumeric c || c == b'+' || c == b'-' || c == b'.')
    then false
    else rest

unfoldable pub has_uri_scheme : Text → Bool
unfolding scheme_rest
has_uri_scheme [] = false
has_uri_scheme (c ∷ s) = if not (is_ascii_alphabetic c) then false else scheme_rest s

pub is_unreserved : ℕ → Bool
is_unreserved b =
    is_ascii_alphanumeric b || b == b'_' || b == b'.' || b == b'~' || b == b'-' || b == b'/'

pub encode_bytes : List ℕ → Text
unfolding is_unreserved
encode_bytes [] = []
encode_bytes (b ∷ bs) =
    let rest = encode_bytes bs in
    if is_unreserved b
    then b ∷ rest
    else b'%' ∷ upper_hex_digit (b / 16) ∷ upper_hex_digit (b % 16) ∷ rest

unfoldable pub percent_encode : Text → Text
unfolding encode_bytes utf8
percent_encode arg = encode_bytes (utf8 arg)

unfoldable pub path2url : Text → Text
unfolding has_uri_scheme percent_encode
path2url arg = if has_uri_scheme arg then arg else codes "file://" ++ percent_encode arg

unfoldable pub count_fields : Text → ℕ
count_fields [] = 0
count_fields (a ∷ []) = 0
count_fields (a ∷ b ∷ s) =
    let passed = count_fields s in
    let next = count_fields (b ∷ s) in
    if a == b'%' && b == b'%'
    then passed
    else if a == b'%' && is_ascii_alphabetic b
    then suc passed
    else next

unfoldable pub has_deprecated : Text → Bool
unfolding contains
has_deprecated s =
    contains (codes "%d") s
    || contains (codes "%D") s
    || contains (codes "%n") s
    || contains (codes "%N") s
    || contains (codes "%v") s
    || contains (codes "%m") s

-- The variables of the loop of `gen_entry_args`.
pub record Expansion : Type 0 where
  pub out : List Text
  pub encountered_fu : Option Text
  pub fu_idx : Option ℕ

guard_conflict : Option Text → Result (Unit {0})
guard_conflict none = ok tt
guard_conflict (some p) = err invalid_arg

abbrev add : List Text → Expansion → Expansion
add toks x = record x { out = x.out ++ toks }

abbrev encounter : Text → Expansion → Expansion
encounter tok x = record x { encountered_fu = some tok }

abbrev encounter_at : Text → Expansion → Expansion
encounter_at tok x = record x { encountered_fu = some tok; fu_idx = some (length x.out) }

-- `guard_conflict` and what follows it.
once : Expansion → Expansion → Result Expansion
unfolding guard_conflict
once x y = guard_conflict x.encountered_fu >>= λ _. ok y

-- `%f` and `%u`: nothing for no argument, the token filled in for one, and the token itself for more.
single_field : Text → Text → (Text → Text) → List Text → List Text
unfolding replace
single_field field tok shown [] = []
single_field field tok shown (a ∷ []) = replace field (shown a) tok ∷ []
single_field field tok shown (a ∷ b ∷ rest) = tok ∷ []

itself : Text → Text
itself a = a

icon_args : Text → List Text
icon_args icon = if not (is_empty icon) then codes "--icon" ∷ icon ∷ [] else []

-- The chain of tests on one token, from `%f` on.
expand_field : List Text → EntryCtx → Text → Expansion → Result Expansion
unfolding single_field once path2url contains text_eq icon_args itself
expand_field args ctx tok x =
    if contains (codes "%f") tok
    then once x (add (single_field (codes "%f") tok itself args) (encounter_at tok x))
    else if text_eq tok (codes "%F")
    then once x (add args (encounter tok x))
    else if contains (codes "%F") tok
    then err invalid_arg
    else if contains (codes "%u") tok
    then once x (add (single_field (codes "%u") tok path2url args) (encounter_at tok x))
    else if text_eq tok (codes "%U")
    then once x (add (map path2url args) (encounter tok x))
    else if contains (codes "%U") tok
    then err invalid_arg
    else if text_eq tok (codes "%c")
    then ok (add (ctx.name ∷ []) x)
    else if text_eq tok (codes "%k")
    then ok (add (ctx.filename ∷ []) x)
    else if text_eq tok (codes "%i")
    then ok (add (icon_args ctx.icon) x)
    else ok (add (tok ∷ []) x)

pub expand_token : List Text → EntryCtx → Text → Expansion → Result Expansion
unfolding expand_field count_fields has_deprecated contains replace
expand_token args ctx tok x =
    if ltb 1 (count_fields tok)
    then err invalid_arg
    else if contains (codes "%%") tok
    then ok (add (replace (codes "%%") (codes "%") tok ∷ []) x)
    else if has_deprecated tok
    then ok x
    else expand_field args ctx tok x

pub expand_tokens : List Text → EntryCtx → List Text → Expansion → Result Expansion
unfolding expand_token
expand_tokens args ctx [] x = ok x
expand_tokens args ctx (tok ∷ toks) x = expand_token args ctx tok x >>= expand_tokens args ctx toks

-- `inst[idx] = …`; the index is in range.
pub update_at : ℕ → (Text → Text) → List Text → List Text
update_at n f [] = []
update_at zero f (t ∷ ts) = f t ∷ ts
update_at (suc n) f (t ∷ ts) = t ∷ update_at n f ts

pub instance_of : Text → Text → ℕ → List Text → Text → List Text
unfolding update_at replace path2url text_eq
instance_of cmd fu idx out a =
    cmd ∷ update_at idx (replace fu (if text_eq fu (codes "%u") then path2url a else a)) out

is_single_valued : Text → Bool
unfolding text_eq
is_single_valued fu = text_eq fu (codes "%f") || text_eq fu (codes "%u")

-- One command line, or one for each argument where a single-valued field stands by itself.
assemble : Text → List Text → Expansion → GenArgs
unfolding is_single_valued instance_of
assemble cmd args x = elim x.encountered_fu [
  | none ↦ single (cmd ∷ x.out)
  | some fu ↦ elim x.fu_idx [
    | none ↦ single (cmd ∷ x.out)
    | some idx ↦
        if ltb 1 (length args) && is_single_valued fu
        then multi (map (instance_of cmd fu idx x.out) args)
        else single (cmd ∷ x.out)
  ]
]

conclude : Text → List Text → Expansion → Result GenArgs
unfolding assemble
conclude cmd args x =
    if not (is_empty args) && not (is_some x.encountered_fu)
    then err invalid_arg
    else ok (assemble cmd args x)

abbrev pub nothing_yet : Expansion
nothing_yet = record { out = []; encountered_fu = none; fu_idx = none }

unfoldable pub gen_entry_args : List Text → List Text → EntryCtx → Result GenArgs
unfolding expand_tokens conclude
gen_entry_args [] args ctx = err invalid_arg
gen_entry_args (cmd ∷ toks) args ctx = expand_tokens args ctx toks nothing_yet >>= conclude cmd args
