-- ===== src/Sysd/Update.antt =====
-- src/sysd/dbus.rs: the order in which the two environments are updated, and what a failure between
-- them leaves. The trait `EnvUpdateOps` is a record over a state `B` of the other side of the bus.
pub mod Refines
use wsmr.Base.{Bool, true, false, not, Option, none, some, List, [], ◌∷◌, ◌++◌, if◌then◌else◌, map}
use wsmr.Base.Text.{Text, codes}
use wsmr.Base.Maps.{Map}
use wsmr.Error.{Error, dbus, partial_env_update, Result, ok, err}

pub record EnvUpdateOps (B : Type 0) : Type 0 where
  pub set_environment : List Text → B → B × Result (Unit {0})
  pub unset_environment : List Text → B → B × Result (Unit {0})
  pub is_dbus_broker : B → Result Bool
  pub update_activation_environment : Map Text → B → B × Result (Unit {0})

pub assignment : Text × Text → Text
assignment (k, v) = k ++ b'=' ∷ v

pub blank : Text → Text × Text
blank n = (n, [])

module _ {B : Type 0} where
  -- What follows a call that has succeeded.
  pub and_then : B × Result (Unit {0}) → (B → B × Result (Unit {0})) → B × Result (Unit {0})
  and_then (b, ok _) next = next b
  and_then (b, err e) next = (b, err e)

  -- `map_err` with an error that is not `e`.
  pub reported_as : Error → B × Result (Unit {0}) → B × Result (Unit {0})
  reported_as x (b, ok _) = (b, ok tt)
  reported_as x (b, err e) = (b, err x)

module _ {B : Type 0} (ops : EnvUpdateOps B) where
  pub set_rest : Map Text → B → Result Bool → B × Result (Unit {0})
  unfolding reported_as
  set_rest vars b (err e) = (b, err e)
  set_rest vars b (ok true) = (b, ok tt)
  set_rest vars b (ok false) =
      reported_as partial_env_update (ops.update_activation_environment vars b)

  unfoldable pub set_systemd_vars_with : Map Text → B → B × Result (Unit {0})
  unfolding and_then set_rest assignment
  set_systemd_vars_with vars b =
      and_then (ops.set_environment (map assignment vars) b)
        λ c. set_rest vars c (ops.is_dbus_broker c)

  pub unset_rest : List Text → B → Result Bool → B × Result (Unit {0})
  unfolding and_then reported_as blank
  unset_rest names b (err e) = (b, err e)
  unset_rest names b (ok true) = reported_as dbus (ops.unset_environment names b)
  unset_rest names b (ok false) =
      and_then (ops.update_activation_environment (map blank names) b)
        λ c. reported_as partial_env_update (ops.unset_environment names c)

  unfoldable pub unset_systemd_vars_with : List Text → B → B × Result (Unit {0})
  unfolding unset_rest
  unset_systemd_vars_with names b = unset_rest names b (ops.is_dbus_broker b)
