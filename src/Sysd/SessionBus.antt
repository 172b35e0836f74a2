-- ===== src/Sysd/SessionBus.antt =====
-- src/sysd/dbus.rs: `StateOps` as the session bus implements it, by the calls to systemd's manager and
-- to the D-Bus daemon.
use wsmr.Base.{
  Bool, Option, none, some, List, [], ◌∷◌, if◌then◌else◌, ◌≡◌, refl, ◌∙◌, sym, ap, arith, inl, inr,
}
use wsmr.Base.Text.{Text, text_eq_iff, text_eq_refl, split_once}
use wsmr.Base.Maps.{Map, lookup, lookup-insert}
use wsmr.Base.Maps.Order.{IsOrdered, lookup_of_Below}
use wsmr.Base.Sets.{text_key}
use wsmr.Error.{Error, Result, ok, >>=-eq-ok, ok_injective}
use wsmr.Env.Filter.{keep_name}
use wsmr.Env.Filter.Laws.{Kept, keep_name-IsWord}
use wsmr.Env.Files.Snapshot.{IsWord-Avoids}
use wsmr.Session.State.{StateOps}
use wsmr.Session.State.Manager.{Changes, set_value, unset_value, IsManager}
use wsmr.Sysd.{systemd_vars, read_assignments, add_assignment}
use wsmr.Sysd.Update.{EnvUpdateOps, set_systemd_vars_with, unset_systemd_vars_with}
use wsmr.Sysd.Update.Refines.{
  Vars, set_var, set_all, apply_assignment, apply_assignments, Views, IsBus, SetStep, UnsetStep,
  HasPlainNames, updates-Step,
}

-- `environment` is the manager's property.
unfoldable pub session_bus : {B : Type 0} → EnvUpdateOps B → (B → Result (List Text)) → StateOps B
unfolding systemd_vars set_systemd_vars_with unset_systemd_vars_with
session_bus ops environment = record {
  systemd_vars = λ b. systemd_vars (environment b);
  set_systemd_vars = λ m b. set_systemd_vars_with ops m b;
  unset_systemd_vars = λ names b. unset_systemd_vars_with ops names b;
}

set_all-value :
    (m : Map Text) (e : Vars) (k : Text) → IsOrdered m → set_all m e k ≡ set_value m k (e k)
unfolding lookup
set_all-value [] e k o = refl
set_all-value ((j, v) ∷ m) e k (b, o) =
    ground (arith, set_all-value m (set_var j v e) k o, lookup_of_Below j m b, text_eq_iff j k)

-- A name that is kept has no `=`.
Kept-HasPlainNames : (m : Map Text) → Kept m → HasPlainNames m
unfolding lookup
Kept-HasPlainNames [] h = tt
Kept-HasPlainNames ((j, v) ∷ m) h = (
  (IsWord-Avoids j (keep_name-IsWord j (h j (ground (arith, text_eq_refl j))))).1,
  Kept-HasPlainNames m (λ k c. h k (ground (arith, c))),
)

SetStep-Changes :
    (m : Map Text) (v w : Views) (answer : Result Bool) (r : Result (Unit {0})) (k : Text)
    → IsOrdered m
    → SetStep m v w answer r
    → Changes (v.systemd k) (set_value m k (v.systemd k)) (w.systemd k) r
SetStep-Changes m v w answer r k o step = go step
  where
    changed :
        {x : Vars}
        → w ≡ record { systemd = set_all m v.systemd; daemon = x }
        → w.systemd k ≡ set_value m k (v.systemd k)
    changed e = ap (λ u. u.systemd k) e ∙ set_all-value m v.systemd k o

    go :
        {a : Result Bool} {s : Result (Unit {0})}
        → SetStep m v w a s
        → Changes (v.systemd k) (set_value m k (v.systemd k)) (w.systemd k) s
    go (SetStep.refused a e h) = inr (e, refl, inl (ap (λ u. u.systemd k) h))
    go (SetStep.shared h) = inl (refl, changed h)
    go (SetStep.told h) = inl (refl, changed h)
    go (SetStep.not_told h) = inr (Error.partial_env_update, refl, inr (changed h))
    go (SetStep.unknown e h) = inr (e, refl, inr (changed h))

UnsetStep-Changes :
    (names : List Text) (v w : Views) (answer : Result Bool) (r : Result (Unit {0})) (k : Text)
    → UnsetStep names v w answer r
    → Changes (v.systemd k) (unset_value names k (v.systemd k)) (w.systemd k) r
UnsetStep-Changes names v w answer r k (UnsetStep.refused a e h) =
    inr (e, refl, inl (ap (λ u. u.systemd k) h))
UnsetStep-Changes names v w answer r k (UnsetStep.shared h) = inl (refl, ap (λ u. u.systemd k) h)
UnsetStep-Changes names v w answer r k (UnsetStep.told h) = inl (refl, ap (λ u. u.systemd k) h)
UnsetStep-Changes names v w answer r k (UnsetStep.still_there h) =
    inr (Error.partial_env_update, refl, inl (ap (λ u. u.systemd k) h))

-- The filter, one assignment after the other.
abbrev filtered : Text → Option Text → Option Text
filtered k o = if keep_name k then o else none

add_assignment-filtered :
    (a : Option (Text × Text)) (m : Map Text) (e : Vars) (k : Text)
    → lookup k m ≡ filtered k (e k)
    → lookup k (add_assignment a m) ≡ filtered k (apply_assignment a e k)
unfolding add_assignment
add_assignment-filtered none m e k h = h
add_assignment-filtered (some (j, v)) m e k h =
    ground (arith, h, lookup-insert j k v m, text_eq_iff j k)

read_assignments-filtered :
    (list : List Text) (m : Map Text) (e : Vars) (k : Text)
    → lookup k m ≡ filtered k (e k)
    → lookup k (read_assignments m list) ≡ filtered k (apply_assignments list e k)
unfolding read_assignments apply_assignments
read_assignments-filtered [] m e k h = h
read_assignments-filtered (a ∷ list) m e k h =
    read_assignments-filtered list (add_assignment (split_once b'=' a) m)
      (apply_assignment (split_once b'=' a) e) k
      (add_assignment-filtered (split_once b'=' a) m e k h)

abbrev no_vars : Vars
no_vars _ = none

-- The property lists the environment as assignments.
abbrev pub IsListing : {B : Type 0} → (B → Result (List Text)) → (B → Views) → Type 0
IsListing {B} environment view =
    (b : B) (list : List Text) (k : Text)
    → environment b ≡ ok list
    → apply_assignments list no_vars k ≡ (view b).systemd k

-- The session bus keeps the contract, where each call of the manager and of the daemon has its effect or
-- fails without one, and the manager's property lists the environment.
pub session_bus-IsManager :
    {B : Type 0} (ops : EnvUpdateOps B) (environment : B → Result (List Text)) (view : B → Views)
    → IsBus ops view
    → IsListing environment view
    → IsManager (session_bus ops environment) (λ b. (view b).systemd)
unfolding session_bus
session_bus-IsManager ops environment view law listing = record {
  vars_view = λ b m k h.
      let (list, asked, made) =
        >>=-eq-ok (environment b) (λ l. ok (read_assignments [] l)) (unfold systemd_vars in h) in
      ap (lookup k) (sym (ok_injective made))
      ∙ read_assignments-filtered list [] no_vars k (unfold lookup in ground arith)
      ∙ ap (filtered k) (listing b list k asked);
  unset_view = λ names b k kept.
      UnsetStep-Changes names (view b) _ _ _ k (updates-Step ops view law [] names b tt).1;
  set_view = λ m b k h.
      SetStep-Changes m (view b) _ _ _ k h.1
        (updates-Step ops view law m [] b (Kept-HasPlainNames m h.0)).0;
}
