-- ===== src/Tests/Bus.antt =====
-- src/sysd/dbus.rs: a session bus whose manager keeps its environment as a list of assignments, and
-- whose D-Bus daemon shares it.
use mathlib.Core.Path.{fun_ext}
use wsmr.Base.{
  Bool, true, false, not, Option, none, some, List, [], ◌∷◌, ◌++◌, ◌≡◌, refl, ◌∙◌, sym, ap, inl,
  inr, Bool-cases, keep,
}
use wsmr.Base.Text.{Text, codes, text_eq, text_eq_iff, split_once}
use wsmr.Base.Sets.{member, text_key}
use wsmr.Error.{dbus, ok, err, ok_injective}
use wsmr.Session.State.{StateOps, World, end_generation}
use wsmr.Session.State.Restore.{EndsAs, after_end, end_generation-view}
use wsmr.Tests.Session.{system, disk, on_record, listed, loaded}
use wsmr.Session.State.Manager.{IsManager}
use wsmr.Sysd.Update.{EnvUpdateOps}
use wsmr.Sysd.Update.Refines.{
  Vars, Views, IsBus, set_var, unset_all, apply_assignment, apply_assignments,
}
use wsmr.Sysd.SessionBus.{session_bus, IsListing, session_bus-IsManager}

abbrev is_of : List Text → Option (Text × Text) → Bool
is_of names none = false
is_of names (some (k, v)) = member k names

abbrev without : List Text → List Text → List Text
without names list = keep (λ a. not (is_of names (split_once b'=' a))) list

abbrev no_vars : Vars
no_vars _ = none

abbrev views : List Text → Views
views list = record { systemd = apply_assignments list no_vars; daemon = no_vars }

-- The daemon takes no variables of its own.
abbrev calls : EnvUpdateOps (List Text)
calls = record {
  set_environment = λ list b. (b ++ list, ok tt);
  unset_environment = λ names b. (without names b, ok tt);
  is_dbus_broker = λ _. ok true;
  update_activation_environment = λ m b. (b, err dbus);
}

apply_assignments-append :
    (a b : List Text) (e : Vars)
    → apply_assignments (a ++ b) e ≡ apply_assignments b (apply_assignments a e)
unfolding apply_assignments
apply_assignments-append [] b e = refl
apply_assignments-append (x ∷ a) b e =
    apply_assignments-append a b (apply_assignment (split_once b'=' x) e)

-- An unset variable may be set before or not.
unset_all-set_var :
    (names : List Text) (j v : Text) (e : Vars)
    → member j names ≡ true
    → unset_all names (set_var j v e) ≡ unset_all names e
unset_all-set_var names j v e h = fun_ext (λ k. elim (Bool-cases (text_eq j k)) [
  | inl same ↦ rw (ap (λ n. member n names) (sym ((text_eq_iff j k).0 same)) ∙ h) refl
  | inr other ↦ rw other refl
])

set_var-unset_all :
    (names : List Text) (j v : Text) (e : Vars)
    → member j names ≡ false
    → unset_all names (set_var j v e) ≡ set_var j v (unset_all names e)
set_var-unset_all names j v e h = fun_ext (λ k. elim (Bool-cases (text_eq j k)) [
  | inl same ↦ rw (ap (λ n. member n names) (sym ((text_eq_iff j k).0 same)) ∙ h, same) refl
  | inr other ↦ rw other refl
])

unset_all-no_vars : (names : List Text) → no_vars ≡ unset_all names no_vars
unset_all-no_vars names =
    fun_ext (λ k. elim (Bool-cases (member k names)) [ inl e ↦ rw e refl | inr e ↦ rw e refl ])

apply_assignments-without :
    (names list : List Text) (e : Vars)
    → apply_assignments (without names list) (unset_all names e)
      ≡ unset_all names (apply_assignments list e)
unfolding apply_assignments
apply_assignments-without names [] e = refl
apply_assignments-without names (a ∷ list) e =
    go (λ d. apply_assignments-without names list d) (split_once b'=' a) refl
  where
    Goal : Type 0
    Goal =
        apply_assignments (without names (a ∷ list)) (unset_all names e)
        ≡ unset_all names (apply_assignments (a ∷ list) e)

    go :
        ((d : Vars)
          → apply_assignments (without names list) (unset_all names d)
            ≡ unset_all names (apply_assignments list d))
        → (o : Option (Text × Text)) → split_once b'=' a ≡ o
        → Goal
    go ih none h = rw h (
        ap (λ d. apply_assignments (without names list) (apply_assignment d (unset_all names e))) h
        ∙ ih e)
    go ih (some (j, v)) h = elim (Bool-cases (member j names)) [
      | inl there ↦ rw h (
          rw there (
            ap (apply_assignments (without names list)) (sym (unset_all-set_var names j v e there))
            ∙ ih (set_var j v e)))
      | inr absent ↦ rw h (
          rw absent (
            ap
              (λ d. apply_assignments (without names list) (apply_assignment d (unset_all names e)))
              h
            ∙ ap (apply_assignments (without names list))
                (sym (set_var-unset_all names j v e absent))
            ∙ ih (set_var j v e)))
    ]

calls-IsBus : IsBus calls views
calls-IsBus = record {
  set_effect = λ list b. inl (
    refl,
    ap (λ e. record { systemd = e; daemon = no_vars }) (apply_assignments-append b list no_vars),
  );
  unset_effect = λ names b. inl (
    refl,
    ap (λ e. record { systemd = e; daemon = no_vars })
        (ap (apply_assignments (without names b)) (unset_all-no_vars names)
          ∙ apply_assignments-without names b no_vars),
  );
  update_effect = λ m b. inr (dbus, refl, refl);
}

listing : IsListing (λ b. ok b) views
listing b list k h = ap (λ l. apply_assignments l no_vars k) (sym (ok_injective h))

abbrev bus_of : StateOps (List Text)
bus_of = session_bus calls (λ b. ok b)

bus-IsManager : IsManager bus_of (λ b. (views b).systemd)
bus-IsManager = session_bus-IsManager calls (λ b. ok b) views calls-IsBus listing

abbrev systemd_of : List Text → Vars
systemd_of b = (views b).systemd

-- `SHELL` is a variable that the program does not name.
abbrev bus_world : World (List Text)
bus_world = record { disk = disk; bus = codes "DISPLAY=:1" ∷ codes "SHELL=/bin/sh" ∷ [] }

end_generation-view_example :
    EndsAs bus_of [] bus_world
      (systemd_of bus_world.bus (codes "DISPLAY"))
      (after_end [] (codes "00ff") [] (systemd_of bus_world.bus) (codes "DISPLAY"))
      (systemd_of ((end_generation bus_of system bus_world).0.bus) (codes "DISPLAY"))
      (end_generation bus_of system bus_world)
end_generation-view_example =
    end_generation-view bus_of systemd_of bus-IsManager system (codes "00ff") [] [] bus_world
      (codes "DISPLAY") refl on_record listed loaded
