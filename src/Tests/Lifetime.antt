-- ===== src/Tests/Lifetime.antt =====
-- src/session: a session that follows one that was never ended, and that exports a variable.
use wsmr.Base.{[], ◌∷◌, refl, arith}
use wsmr.Base.Text.{Text, codes}
use wsmr.Base.Maps.{Map}
use wsmr.Base.Sets.{text_key}
use wsmr.Session.State.{World, begin_generation}
use wsmr.Session.State.Cleanup.{IsGeneration}
use wsmr.Session.Process.{finalize}
use wsmr.Tests.Session.{system, manager, world}
use wsmr.Tests.Process.{bus_ops, host}

abbrev known : Map Text
known = (codes "DISPLAY", codes ":1") ∷ []

abbrev begun : World (Map Text)
begun = (begin_generation manager system known (codes "00aa") world).0

abbrev exported : World (Map Text)
exported = (finalize bus_ops system host [] begun).0

written : IsGeneration (codes "00aa")
written n h = record {
  generation_ne_nil = refl;
  no_space = omega arith;
  no_newline = omega arith;
  no_return = omega arith;
  kept = h;
}
