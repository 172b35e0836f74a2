-- ===== src/Units/Manifest/RoundTrip.antt =====
-- A manifest that was saved is loaded back.
use mathlib.Core.List.{append_assoc, append-nil}
use wsmr.Base.{
  ℕ, ◌<◌, false, Option, List, [], ◌∷◌, ◌++◌, ◌≡◌, ◌≢◌, refl, ◌∙◌, ap, sym, arith, is_empty, All,
}
use wsmr.Base.Text.{Text, codes, lines, lines_from, split_once}
use wsmr.Base.Text.Split.{Avoids, lines_from-append, strip_cr_of_Avoids, split_once-append}
use wsmr.Base.Maps
use wsmr.Base.Maps.{Map}
use wsmr.Base.Maps.Order.{IsOrdered, AllAbove, AllAbove-append, AllAbove-nil, insert_last}
use wsmr.Units.Manifest.{
  Manifest, u64_mod, record_parsed, parse_fields, starts_with_hash, parse_line, parse_lines, parse,
  hex_pad, manifest_header, render_from, render,
}
use wsmr.Units.Manifest.Hex.{IsHexDigit, hex_pad-IsHexDigit, from_str_radix-hex_pad, hex_pad-ne-nil}

-- The names and fingerprints that the line format can carry.
abbrev pub IsPrintable : Manifest → Type 0
IsPrintable [] = Unit
IsPrintable ((relname, fp) ∷ m) =
    (is_empty relname ≡ false)
    × Avoids b'\n' relname
    × Avoids b'\r' relname
    × (fp < u64_mod)
    × IsPrintable m

abbrev line_of : Text → ℕ → Text
line_of relname fp = hex_pad 16 fp ++ (b' ' ∷ relname)

body : Manifest → Text
body [] = []
body ((relname, fp) ∷ m) = line_of relname fp ++ (b'\n' ∷ body m)

line_list : Manifest → List Text
line_list [] = []
line_list ((relname, fp) ∷ m) = line_of relname fp ∷ line_list m

render_from-body : (out : Text) (m : Manifest) → render_from out m ≡ out ++ body m
unfolding render_from body
render_from-body out [] = sym (append-nil out)
render_from-body out ((relname, fp) ∷ m) =
    render_from-body (out ++ hex_pad 16 fp ++ b' ' ∷ [] ++ relname ++ b'\n' ∷ []) m
    ∙ simp append_assoc

digits-Avoids : (s : Text) → All IsHexDigit s → Avoids b' ' s × Avoids b'\n' s × Avoids b'\r' s
digits-Avoids [] h = (tt, tt, tt)
digits-Avoids (c ∷ s) (h, hs) = let (a, b, r) = digits-Avoids s hs in ((h.1, a), (h.2, b), (h.3, r))

line-Avoids : (c : ℕ) (g n : Text) → b' ' ≢ c → Avoids c g → Avoids c n → Avoids c (g ++ (b' ' ∷ n))
line-Avoids c [] n s hg hn = (s, hn)
line-Avoids c (d ∷ g) n s (h, hs) hn = (h, line-Avoids c g n s hs hn)

lines-body : (m : Manifest) → IsPrintable m → lines_from [] (body m) ≡ line_list m
unfolding body lines_from line_list
lines-body [] h = refl
lines-body ((relname, fp) ∷ m) (ne, nl, cr, u, h) =
    let (space_free, newline_free, return_free) =
      digits-Avoids (hex_pad 16 fp) (hex_pad-IsHexDigit 16 fp) in
    lines_from-append [] (line_of relname fp) (body m)
      (line-Avoids b'\n' (hex_pad 16 fp) relname (omega arith) newline_free nl)
    ∙ rw (
      strip_cr_of_Avoids (line_of relname fp)
          (line-Avoids b'\r' (hex_pad 16 fp) relname (omega arith) return_free cr),
      lines-body m h,
    )

-- A line that starts with a digit is neither blank nor a comment.
parse_line-digits :
    (s rest : Text) (m : Manifest)
    → All IsHexDigit s
    → s ≢ []
    → parse_line (s ++ rest) m ≡ parse_fields (split_once b' ' (s ++ rest)) m
unfolding parse_line starts_with_hash
parse_line-digits [] rest m h ne = absurd (ne refl)
parse_line-digits (c ∷ s) rest m (h, hs) ne = ground arith

parse_line-line_of :
    (relname : Text) (fp : ℕ) (m : Manifest)
    → is_empty relname ≡ false
    → fp < u64_mod
    → parse_line (line_of relname fp) m ≡ Maps.insert relname fp m
unfolding parse_fields record_parsed
parse_line-line_of relname fp m ne u =
    let digits = hex_pad-IsHexDigit 16 fp in
    parse_line-digits (hex_pad 16 fp) (b' ' ∷ relname) m digits (hex_pad-ne-nil fp)
    ∙ ap (λ (o : Option (Text × Text)). parse_fields o m)
        (split_once-append b' ' (hex_pad 16 fp) relname (digits-Avoids (hex_pad 16 fp) digits).0)
    ∙ rw (from_str_radix-hex_pad fp u) (rw ne)

parse_lines-line_list :
    (acc m : Manifest)
    → IsOrdered m
    → AllAbove m acc
    → IsPrintable m
    → parse_lines acc (line_list m) ≡ acc ++ m
unfolding parse_lines line_list
parse_lines-line_list acc [] o a h = sym (append-nil acc)
parse_lines-line_list acc ((relname, fp) ∷ m) (b, o) (a, as') (ne, nl, cr, u, h) =
    ap (λ (r : Manifest). parse_lines r (line_list m))
      (parse_line-line_of relname fp acc ne u ∙ insert_last relname fp acc a)
    ∙ parse_lines-line_list (acc ++ (relname, fp) ∷ []) m o (AllAbove-append relname fp m acc b a) h
    ∙ append_assoc acc ((relname, fp) ∷ []) m

abbrev header_line : Text
header_line = codes "# wsmr-generated manifest — machine-written, do not edit"

lines-header :
    (rest : Text) → lines_from [] (manifest_header ++ rest) ≡ header_line ∷ lines_from [] rest
lines-header rest =
    lines_from-append [] header_line rest (omega arith)
    ∙ rw (strip_cr_of_Avoids header_line (omega arith))

-- Loading a saved manifest gives the same entries.
pub parse-render : (m : Manifest) → IsOrdered m → IsPrintable m → parse (render m) ≡ m
unfolding parse render lines
parse-render m o h =
    ap (λ (t : Text). parse_lines [] (lines_from [] t)) (render_from-body manifest_header m)
    ∙ ap (parse_lines []) (lines-header (body m))
    ∙ skip (lines_from [] (body m))
    ∙ ap (parse_lines []) (lines-body m h)
    ∙ parse_lines-line_list [] m o (AllAbove-nil m) h
  where
    skip : (ls : List Text) → parse_lines [] (header_line ∷ ls) ≡ parse_lines [] ls
    skip ls = unfold parse_lines parse_line starts_with_hash in refl
