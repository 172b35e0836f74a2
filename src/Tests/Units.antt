-- ===== src/Tests/Units.antt =====
-- src/units: text that is quoted, escaped or saved, and read back.
use wsmr.Base.{true, some, [], ◌∷◌, ◌≡◌, refl, arith}
use wsmr.Base.Text.{codes, utf8, text_lt}
use wsmr.Base.Maps.Order.{IsOrdered}
use wsmr.Units.Manifest.{Manifest, render, parse}
use wsmr.Units.Manifest.RoundTrip.{IsPrintable, parse-render}
use wsmr.Units.Templates.Quote.{shlex_join}
use wsmr.Units.Templates.Quote.Shell.{shell_words, shell_words-shlex_join}
use wsmr.Units.Escape.{simple_systemd_escape}
use wsmr.Units.Escape.Laws.{unescape, unescape-simple_systemd_escape}

shell_words-shlex_join_example :
    shell_words (shlex_join (codes "it's" ∷ codes "$HOME" ∷ [] ∷ []))
    ≡ some (codes "it's" ∷ codes "$HOME" ∷ [] ∷ [])
shell_words-shlex_join_example = shell_words-shlex_join (codes "it's" ∷ codes "$HOME" ∷ [] ∷ [])

abbrev entries : Manifest
entries = (codes "a.service", 7) ∷ (codes "b.slice", 1000000) ∷ []

entries-IsOrdered : IsOrdered entries
unfolding text_lt
entries-IsOrdered = ((refl, tt), (tt, tt))

entries-IsPrintable : IsPrintable entries
entries-IsPrintable =
    (refl, omega arith, omega arith, omega arith, (refl, omega arith, omega arith, omega arith, tt))

parse-render_example : parse (render entries) ≡ entries
parse-render_example = parse-render entries entries-IsOrdered entries-IsPrintable

unescape-simple_systemd_escape_example :
    unescape (simple_systemd_escape (codes ".a b/c") true) ≡ utf8 (codes ".a b/c")
unescape-simple_systemd_escape_example =
    unescape-simple_systemd_escape (codes ".a b/c") true (omega arith)
