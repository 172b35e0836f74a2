-- ===== src/Env/Files/CleanupList.antt =====
-- The cleanup list that was written is read back.
use mathlib.Core.List.{append_assoc, append-nil}
use wsmr.Base.{
  ℕ, Bool, true, false, ◌||◌, Option, some, List, [], ◌∷◌, ◌++◌, ◌≡◌, ◌≢◌, refl, ◌∙◌, ap, sym,
  arith, is_empty, All,
}
use wsmr.Base.Text.{Text, lines, lines_from}
use wsmr.Base.Text.Split.{Avoids, lines_from-append, strip_cr_of_Avoids, split_once-append}
use wsmr.Base.Sets
use wsmr.Base.Sets.{member, member-extend, text_key}
use wsmr.Env.Filter.{keep_name}
use wsmr.Env.Filter.Laws.{IsWord, is_word_char_plain, keep_name-IsWord}
use wsmr.Env.Files.{
  CleanupEntry, entry_key, parse_fields, parse_entry, collect, parse_lines, parse_cleanup_entries,
  write_from, render_cleanup_entries,
}

-- A generation that a line can carry, and a name that the reader keeps.
pub record IsWritable (e : CleanupEntry) : Type 0 where
  pub generation_ne_nil : is_empty e.generation ≡ false
  pub no_space : Avoids b' ' e.generation
  pub no_newline : Avoids b'\n' e.generation
  pub no_return : Avoids b'\r' e.generation
  pub kept : keep_name e.name ≡ true

abbrev line_of : CleanupEntry → Text
line_of e = e.generation ++ (b' ' ∷ e.name)

line-Avoids : (c : ℕ) (g n : Text) → b' ' ≢ c → Avoids c g → Avoids c n → Avoids c (g ++ (b' ' ∷ n))
line-Avoids c [] n s hg hn = (s, hn)
line-Avoids c (d ∷ g) n s (h, hs) hn = (h, line-Avoids c g n s hs hn)

IsWord-Avoids : (s : Text) → IsWord s → Avoids b'\n' s × Avoids b'\r' s
IsWord-Avoids [] h = (tt, tt)
IsWord-Avoids (c ∷ s) (h, hs) =
    let plain = is_word_char_plain c h in
    let (n, r) = IsWord-Avoids s hs in ((plain.3, n), (plain.4, r))

-- The body without its accumulator.
body : List CleanupEntry → Text
body [] = []
body (e ∷ es) = line_of e ++ (b'\n' ∷ body es)

write_from-body : (out : Text) (es : List CleanupEntry) → write_from out es ≡ out ++ body es
unfolding write_from body
write_from-body out [] = sym (append-nil out)
write_from-body out (e ∷ es) =
    write_from-body (out ++ e.generation ++ b' ' ∷ [] ++ e.name ++ b'\n' ∷ []) es
    ∙ simp append_assoc

map_line : List CleanupEntry → List Text
map_line [] = []
map_line (e ∷ es) = line_of e ∷ map_line es

lines-body : (es : List CleanupEntry) → All IsWritable es → lines_from [] (body es) ≡ map_line es
unfolding body lines_from map_line
lines-body [] h = refl
lines-body (e ∷ es) (w, ws) =
    let word = IsWord-Avoids e.name (keep_name-IsWord e.name w.kept) in
    let newline_free = line-Avoids b'\n' e.generation e.name (omega arith) w.no_newline word.0 in
    let return_free = line-Avoids b'\r' e.generation e.name (omega arith) w.no_return word.1 in
    lines_from-append [] (line_of e) (body es) newline_free
    ∙ rw (strip_cr_of_Avoids (line_of e) return_free, lines-body es ws)

parse_entry-line_of : (e : CleanupEntry) → IsWritable e → parse_entry (line_of e) ≡ some e
unfolding parse_entry parse_fields
parse_entry-line_of e w =
    rw (split_once-append b' ' e.generation e.name w.no_space) (rw (w.generation_ne_nil, w.kept))

parse_lines-extend :
    (s es : List CleanupEntry) → All IsWritable es → parse_lines s (map_line es) ≡ Sets.extend s es
unfolding parse_lines map_line Sets.extend collect
parse_lines-extend s [] h = refl
parse_lines-extend s (e ∷ es) (w, ws) =
    ap (λ (o : Option CleanupEntry). parse_lines (collect o s) (map_line es))
      (parse_entry-line_of e w)
    ∙ parse_lines-extend (Sets.insert e s) es ws

parse-render :
    (es : List CleanupEntry)
    → All IsWritable es
    → parse_cleanup_entries (render_cleanup_entries es) ≡ Sets.extend [] es
unfolding parse_cleanup_entries render_cleanup_entries lines
parse-render es h =
    ap (λ (t : Text). parse_lines [] (lines_from [] t)) (write_from-body [] es)
    ∙ ap (parse_lines []) (lines-body es h)
    ∙ parse_lines-extend [] es h

-- Reading the cleanup list gives exactly the entries that were written, of one generation or of several,
-- where each generation is not empty and has no space and no line break, and each name is kept.
pub parse_cleanup_entries-render :
    (es : List CleanupEntry) (e : CleanupEntry)
    → All IsWritable es
    → member e (parse_cleanup_entries (render_cleanup_entries es)) ≡ member e es
parse_cleanup_entries-render es e h =
    ap (member e) (parse-render es h) ∙ member-extend e [] es ∙ or_false (member e es)
  where
    or_false : (b : Bool) → (b || member e []) ≡ b
    or_false b = unfold member in ground arith
