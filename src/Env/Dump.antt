-- ===== src/Env/Dump.antt =====
-- src/env/dump.rs: the output of the loader, split at its mark.
use wsmr.Base.{Option, none, some, [], ◌∷◌, ◌==◌, if◌then◌else◌}
use mathlib.Core.List.{reverse}
use wsmr.Base.Text.{Text, strip_prefix}
use wsmr.Base.Maps.{Map}
use wsmr.Error.{Error, Result, ok, err}
use wsmr.Env.Files.{parse_env_nul}

pub record ShellDump : Type 0 where
  pub messages : Text
  pub env : Map Text

-- `find(mark)`: what precedes the first occurrence of the mark, and what follows it.
unfoldable pub find_mark : Text → Text → Option (Text × Text)
unfolding strip_prefix
find_mark mark [] = elim (strip_prefix mark []) [ none ↦ none | some after ↦ some ([], after) ]
find_mark mark (c ∷ s) =
    let later = find_mark mark s in
    elim (strip_prefix mark (c ∷ s)) [
      | some after ↦ some ([], after)
      | none ↦ elim later [ none ↦ none | some (a, b) ↦ some (c ∷ a, b) ]
    ]

drop_nul : Text → Text
drop_nul [] = []
drop_nul (c ∷ s) = let rest = drop_nul s in if c == 0 then rest else c ∷ s

-- `trim_end_matches('\0')`
unfoldable pub trim_end_nul : Text → Text
unfolding drop_nul
trim_end_nul s = reverse (drop_nul (reverse s))

unfoldable pub parse_shell_dump : Text → Text → Result ShellDump
unfolding find_mark trim_end_nul parse_env_nul
parse_shell_dump stdout mark = elim (find_mark mark stdout) [
  | none ↦ err Error.resolve
  | some (before, after) ↦
      ok (record { messages = before; env = parse_env_nul (trim_end_nul after) })
]
