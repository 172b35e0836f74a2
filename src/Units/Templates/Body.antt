-- ===== src/Units/Templates/Body.antt =====
-- A unit file with placeholders, and a raw string of the source, line by line.
use Prim.Native.String.{String}
use wsmr.Base.{List, [], ◌∷◌, ◌++◌}
use wsmr.Base.Text.{Text, codes}

pub record UnitTemplate : Type 0 where
  pub name : Text
  pub body : Text

unfoldable pub unlines : List String → Text
unlines [] = []
unlines (l ∷ ls) = codes l ++ (b'\n' ∷ unlines ls)
