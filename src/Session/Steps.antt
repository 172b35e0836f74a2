-- ===== src/Session/Steps.antt =====
-- The steps of the processes of a session, and the operations of the buses that they call: the traits
-- `SessionOps` and `StateOps` of src/sysd/dbus.rs, and what `SessionBus` offers beside them.
use wsmr.Base.{ℕ}
use wsmr.Base.Text.{Text}
use wsmr.Error.{Result, ok, err}
use wsmr.Sysd.{UnitQuery}
use wsmr.Session.State.{StateOps, World, Outcome}

pub record BusOps (B : Type 0) : Type 0 where
  pub state_ops : StateOps B
  pub list_units : UnitQuery B
  pub reload : B → B × Result (Unit {0})
  pub stop_unit : Text → B → B × Result Text
  pub notify_access : Text → B → Result Text
  pub timeout_start_usec : Text → B → Result ℕ

module _ {B : Type 0} where
  -- What stands behind a `?` of a step.
  infixl 5 ◌then◌
  abbrev pub ◌then◌ : {A C : Type 0} → Outcome B A → (A → World B → Outcome B C) → Outcome B C
  (w, err e) then next = (w, err e)
  (w, ok a) then next = next a w

  -- A call that only reads.
  abbrev pub asked : {A : Type 0} → Result A → World B → Outcome B A
  asked r w = (w, r)

  -- A call that may change the other side.
  abbrev pub called : {A : Type 0} → B × Result A → World B → Outcome B A
  called (b, r) w = (record w { bus = b }, r)
