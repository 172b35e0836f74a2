-- ===== src/App/Entry/Parsing.antt =====
-- The parser of desktop entries on text of sections and assignments: the lines and what they do.
pub mod Values
use mathlib.Core.List.{append_assoc, reverse, reverse-cons, reverse-append, reverse-reverse}
use wsmr.Base.{
  ℕ, Bool, true, false, not, ◌&&◌, ◌||◌, Option, none, some, List, [], ◌∷◌, ◌++◌, ◌==◌,
  if◌then◌else◌, is_empty, ◌≡◌, ◌≢◌, refl, ◌∙◌, sym, ap, arith, All, All-append, All-reverse,
  Bool-cases, inl, inr,
}
use wsmr.Base.Text.{
  Text, codes, text_eq, trim, trim_start, trim_end, is_whitespace, starts_with, strip_prefix,
  strip_suffix, split_once, lines, lines_from, strip_cr,
}
use wsmr.Base.Text.Split.{Avoids, split_once-append, lines_from-append, strip_cr_of_Avoids}
use wsmr.App.Entry.{
  Reading, trim_start_cr, trim_end_cr, open_group, assign, group_name, read_assignment,
  read_group_or_key, read_line, read_lines,
}

trim_start_cr-Avoids : (s : Text) → Avoids b'\r' s → trim_start_cr s ≡ s
unfolding trim_start_cr
trim_start_cr-Avoids [] h = refl
trim_start_cr-Avoids (c ∷ s) (h, hs) = ground (arith, h)

trim_end_cr-Avoids : (s : Text) → Avoids b'\r' s → trim_end_cr s ≡ s
unfolding trim_end_cr
trim_end_cr-Avoids s h =
    ap reverse (trim_start_cr-Avoids (reverse s) (All-reverse (λ d. d ≢ b'\r') s h))
    ∙ reverse-reverse s

trim_start-solid : (c : ℕ) (s : Text) → is_whitespace c ≡ false → trim_start (c ∷ s) ≡ c ∷ s
unfolding trim_start
trim_start-solid c s h = rw h refl

trim_start-snoc :
    (c : ℕ) (s : Text) → is_whitespace c ≡ false → trim_start (s ++ c ∷ []) ≡ trim_start s ++ c ∷ []
unfolding trim_start
trim_start-snoc c [] h = rw h refl
trim_start-snoc c (d ∷ s) h = elim (Bool-cases (is_whitespace d)) [
  | inl blank ↦ rw blank (trim_start-snoc c s h)
  | inr solid ↦ rw solid refl
]

-- What starts with a solid character starts with it when it is trimmed.
trim-solid : (c : ℕ) (s : Text) → is_whitespace c ≡ false → (t : Text) × (trim (c ∷ s) ≡ c ∷ t)
unfolding trim trim_end
trim-solid c s h = (
  reverse (trim_start (reverse s)),
  ap (λ (x : Text). reverse (trim_start (reverse x))) (trim_start-solid c s h)
      ∙ ap (λ (x : Text). reverse (trim_start x)) (reverse-cons c s)
      ∙ ap reverse (trim_start-snoc c (reverse s) h)
      ∙ reverse-append (trim_start (reverse s)) (c ∷ []),
)

-- What is solid at both ends is trimmed already.
trim-both :
    (c d : ℕ) (s : Text)
    → is_whitespace c ≡ false
    → is_whitespace d ≡ false
    → trim (c ∷ (s ++ d ∷ [])) ≡ c ∷ (s ++ d ∷ [])
unfolding trim trim_end
trim-both c d s hc hd =
    ap (λ (x : Text). reverse (trim_start (reverse x))) (trim_start-solid c (s ++ d ∷ []) hc)
    ∙ ap (λ (x : Text). reverse (trim_start x)) (reverse-append (c ∷ s) (d ∷ []))
    ∙ ap reverse (trim_start-solid d (reverse (c ∷ s)) hd)
    ∙ reverse-cons d (reverse (c ∷ s))
    ∙ ap (λ (x : Text). x ++ d ∷ []) (reverse-reverse (c ∷ s))

strip_suffix-single : (c : ℕ) (s : Text) → strip_suffix (c ∷ []) (s ++ c ∷ []) ≡ some s
unfolding strip_suffix text_eq
strip_suffix-single c [] = ground arith
strip_suffix-single c (d ∷ []) = ground arith
strip_suffix-single c (d ∷ e ∷ s) = ground (arith, strip_suffix-single c (e ∷ s))

-- A name that a line of a group can have, and a key and a value that a line of an assignment can have.
abbrev pub IsLine : Text → Type 0
IsLine s = Avoids b'\n' s × Avoids b'\r' s

pub record IsKey (k : Text) : Type 0 where
  pub line : IsLine k
  pub no_equals : Avoids b'=' k
  pub trimmed : trim k ≡ k
  pub head : ℕ
  pub tail : Text
  pub begins : k ≡ head ∷ tail
  pub solid : is_whitespace head ≡ false
  pub no_bracket : (b'[' == head) ≡ false
  pub no_comment : (b'#' == head) ≡ false

abbrev pub group_line : Text → Text
group_line n = b'[' ∷ (n ++ b']' ∷ [])

abbrev pub key_line : Text → Text → Text
key_line k v = k ++ b'=' ∷ v

group_line-name : (n : Text) → group_name (group_line n) ≡ some n
unfolding group_name strip_prefix
group_line-name n = strip_suffix-single b']' n

-- What `read_line` makes of a line, given as it is trimmed at its end and at both.
abbrev read_trimmed : Text → Text → Reading → Reading
read_trimmed line trimmed r =
    if is_empty trimmed || starts_with (codes "#") trimmed
    then r
    else read_group_or_key line (group_name trimmed) r

read_line-trimmed :
    (raw line trimmed : Text) (r : Reading)
    → trim_end_cr raw ≡ line
    → trim line ≡ trimmed
    → read_line raw r ≡ read_trimmed line trimmed r
unfolding read_line
read_line-trimmed raw line trimmed r hl ht =
    ap (λ (l : Text). read_trimmed l (trim l) r) hl ∙ ap (λ (t : Text). read_trimmed line t r) ht

group_line-Avoids : (c : ℕ) (n : Text) → b'[' ≢ c → b']' ≢ c → Avoids c n → Avoids c (group_line n)
group_line-Avoids c n ho hc h = (ho, All-append (λ d. d ≢ c) n (b']' ∷ []) h (hc, tt))

key_line-Avoids :
    (c : ℕ) (k v : Text) → b'=' ≢ c → Avoids c k → Avoids c v → Avoids c (key_line k v)
key_line-Avoids c k v he hk hv = All-append (λ d. d ≢ c) k (b'=' ∷ v) hk (he, hv)

read_line-group : (n : Text) (r : Reading) → IsLine n → read_line (group_line n) r ≡ open_group n r
read_line-group n r (h, hr) =
    read_line-trimmed (group_line n) (group_line n) (group_line n) r
      (trim_end_cr-Avoids (group_line n) (group_line-Avoids b'\r' n (omega arith) (omega arith) hr))
      (trim-both b'[' b']' n (unfold is_whitespace in refl) (unfold is_whitespace in refl))
    ∙ opened
  where
    opened : read_trimmed (group_line n) (group_line n) r ≡ open_group n r
    opened =
        unfold starts_with in
        (ap (λ (o : Option Text). read_group_or_key (group_line n) o r) (group_line-name n)
          ∙ (unfold read_group_or_key in refl))

no_prefix : (c : ℕ) (t : Text) → (b'[' == c) ≡ false → strip_prefix (codes "[") (c ∷ t) ≡ none
unfolding strip_prefix
no_prefix c t h = rw h refl

group_name-none : (c : ℕ) (t : Text) → (b'[' == c) ≡ false → group_name (c ∷ t) ≡ none
unfolding group_name
group_name-none c t h =
    ap
      (λ (o : Option Text). elim o as (λ _. Option Text) [
        | none ↦ none
        | some s ↦ strip_suffix (codes "]") s
      ])
      (no_prefix c t h)

read_key-assign :
    (k v : Text) (r : Reading)
    → IsKey k
    → read_group_or_key (key_line k v) none r ≡ assign k v r.current r
unfolding read_group_or_key read_assignment
read_key-assign k v r h =
    ap (λ (o : Option (Text × Text)). read_assignment o r) (split_once-append b'=' k v h.no_equals)
    ∙ ap (λ (j : Text). assign j v r.current r) h.trimmed

read_trimmed-key :
    (k v : Text) (c : ℕ) (t : Text) (r : Reading)
    → IsKey k
    → (b'[' == c) ≡ false
    → (b'#' == c) ≡ false
    → read_trimmed (key_line k v) (c ∷ t) r ≡ assign k v r.current r
unfolding starts_with
read_trimmed-key k v c t r h hb hc = rw hc (
    ap (λ (o : Option Text). read_group_or_key (key_line k v) o r) (group_name-none c t hb)
    ∙ read_key-assign k v r h)

read_line-key :
    (k v : Text) (r : Reading)
    → IsKey k
    → IsLine v
    → read_line (key_line k v) r ≡ assign k v r.current r
read_line-key k v r h (hn, hr) =
    let (t, ht) = trim-solid h.head (h.tail ++ b'=' ∷ v) h.solid in
    read_line-trimmed (key_line k v) (key_line k v) (h.head ∷ t) r
      (trim_end_cr-Avoids (key_line k v) (key_line-Avoids b'\r' k v (omega arith) h.line.1 hr))
      (ap (λ (j : Text). trim (key_line j v)) h.begins ∙ ht)
    ∙ read_trimmed-key k v h.head t r h h.no_bracket h.no_comment

-- The sections of an entry and their text.
abbrev pub Sections : Type 0
Sections = List (Text × List (Text × Text))

pub render_keys : List (Text × Text) → Text
render_keys [] = []
render_keys ((k, v) ∷ kvs) = key_line k v ++ b'\n' ∷ render_keys kvs

pub render : Sections → Text
unfolding render_keys
render [] = []
render ((n, kvs) ∷ sections) = group_line n ++ b'\n' ∷ (render_keys kvs ++ render sections)

abbrev pub AreKeys : List (Text × Text) → Type 0
AreKeys kvs = All (λ (kv : Text × Text). IsKey kv.0 × IsLine kv.1) kvs

abbrev pub AreSections : Sections → Type 0
AreSections sections = All (λ (s : Text × List (Text × Text)). IsLine s.0 × AreKeys s.1) sections

pub put_keys : List (Text × Text) → Reading → Reading
put_keys [] r = r
put_keys ((k, v) ∷ kvs) r = put_keys kvs (assign k v r.current r)

pub put_sections : Sections → Reading → Reading
unfolding put_keys
put_sections [] r = r
put_sections ((n, kvs) ∷ sections) r = put_sections sections (put_keys kvs (open_group n r))

-- The first line of a text is read first.
read_lines-line :
    (line rest : Text) (r : Reading)
    → IsLine line
    → read_lines (lines_from [] (line ++ b'\n' ∷ rest)) r
      ≡ read_lines (lines_from [] rest) (read_line line r)
unfolding read_lines
read_lines-line line rest r (hn, hr) =
    ap (λ (ls : List Text). read_lines ls r) (lines_from-append [] line rest hn)
    ∙ ap (λ (l : Text). read_lines (lines_from [] rest) (read_line l r))
        (strip_cr_of_Avoids line hr)

read_lines-keys :
    (kvs : List (Text × Text)) (rest : Text) (r : Reading)
    → AreKeys kvs
    → read_lines (lines_from [] (render_keys kvs ++ rest)) r
      ≡ read_lines (lines_from [] rest) (put_keys kvs r)
unfolding render_keys put_keys
read_lines-keys [] rest r h = refl
read_lines-keys ((k, v) ∷ kvs) rest r ((hk, (hn, hr)), hs) =
    ap (λ (s : Text). read_lines (lines_from [] s) r)
      (append_assoc (key_line k v) (b'\n' ∷ render_keys kvs) rest)
    ∙ read_lines-line (key_line k v) (render_keys kvs ++ rest) r (
      key_line-Avoids b'\n' k v (omega arith) hk.line.0 hn,
      key_line-Avoids b'\r' k v (omega arith) hk.line.1 hr,
    )
    ∙ ap (λ (q : Reading). read_lines (lines_from [] (render_keys kvs ++ rest)) q)
        (read_line-key k v r hk (hn, hr))
    ∙ read_lines-keys kvs rest (assign k v r.current r) hs

-- Reading the text of sections makes the groups and the assignments, in their order.
pub read_lines-render :
    (sections : Sections) (r : Reading)
    → AreSections sections
    → read_lines (lines (render sections)) r ≡ put_sections sections r
unfolding lines render put_sections
read_lines-render [] r h = unfold lines_from read_lines in refl
read_lines-render ((n, kvs) ∷ sections) r (((hn, hr), hk), hs) =
    read_lines-line (group_line n) (render_keys kvs ++ render sections) r (
      group_line-Avoids b'\n' n (omega arith) (omega arith) hn,
      group_line-Avoids b'\r' n (omega arith) (omega arith) hr,
    )
    ∙ ap (λ (q : Reading). read_lines (lines_from [] (render_keys kvs ++ render sections)) q)
        (read_line-group n r (hn, hr))
    ∙ read_lines-keys kvs (render sections) (open_group n r) hk
    ∙ read_lines-render sections (put_keys kvs (open_group n r)) hs
