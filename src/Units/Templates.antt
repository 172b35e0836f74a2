-- ===== src/Units/Templates.antt =====
-- src/units/templates.rs: rendering of the static units, and the drop-ins of one compositor.
pub mod Body
pub mod Graph
pub mod Tweaks
pub mod Quote
pub mod Dropins
use wsmr.Base.{ℕ, zero, suc, ◌-◌, List, [], ◌∷◌, ◌++◌, if◌then◌else◌, length}
use wsmr.Base.Text.{Text, codes, starts_with}

pub record RenderCtx : Type 0 where
  pub bin_name : Text
  pub bin_path : Text
  pub waitpid_bin : Text

-- `replace(p, to)`, for a `p` that is not empty: after an occurrence its rest is passed over.
unfoldable pub replace_from : ℕ → Text → Text → Text → Text
replace_from n p to [] = []
replace_from (suc n) p to (c ∷ s) = replace_from n p to s
replace_from zero p to (c ∷ s) =
    let passed = replace_from (length p - 1) p to s in
    let next = replace_from 0 p to s in if starts_with p (c ∷ s) then to ++ passed else c ∷ next

unfoldable pub replace : Text → Text → Text → Text
unfolding replace_from starts_with
replace p to s = replace_from 0 p to s

unfoldable pub render : Text → RenderCtx → Text
unfolding replace
render body ctx = replace (codes "@BIN_NAME@") ctx.bin_name (
    replace (codes "@WAITPID_BIN@") ctx.waitpid_bin
      (replace (codes "@BIN_PATH@") ctx.bin_path body))
