-- ===== src/Sysd/Update/Refines.antt =====
-- The two sequences implement a step of two environments of which the first one is what is read.
use wsmr.Base.{
  Bool, true, false, Option, none, some, List, [], ◌∷◌, if◌then◌else◌, map, ◌≡◌, refl, ◌∙◌, ap, All,
  ◌⊎◌, inl, inr,
}
use wsmr.Base.Text.{Text, text_eq, split_once}
use wsmr.Base.Text.Split.{Avoids, split_once-append}
use wsmr.Base.Maps.{Map}
use wsmr.Base.Sets.{member, text_key}
use wsmr.Error.{Error, dbus, partial_env_update, Result, ok, err}
use wsmr.Sysd.Update.{
  EnvUpdateOps, assignment, blank, and_then, reported_as, set_rest, set_systemd_vars_with,
  unset_rest, unset_systemd_vars_with,
}

abbrev pub Vars : Type 0
Vars = Text → Option Text

abbrev pub set_var : Text → Text → Vars → Vars
set_var k v e j = if text_eq k j then some v else e j

-- What setting and unsetting means for an environment.
abbrev pub set_all : Map Text → Vars → Vars
set_all [] e = e
set_all ((k, v) ∷ m) e = set_all m (set_var k v e)

abbrev pub unset_all : List Text → Vars → Vars
unset_all names e k = if member k names then none else e k

-- What the manager does with assignments: the name is what stands before the first `=`.
abbrev pub apply_assignment : Option (Text × Text) → Vars → Vars
apply_assignment none e = e
apply_assignment (some (k, v)) e = set_var k v e

unfoldable pub apply_assignments : List Text → Vars → Vars
apply_assignments [] e = e
apply_assignments (a ∷ rest) e = apply_assignments rest (apply_assignment (split_once b'=' a) e)

-- The environment of systemd, and that of a D-Bus daemon of its own, where there is one.
pub record Views : Type 0 where
  pub systemd : Vars
  pub daemon : Vars

-- A call answers and has its effect on one of the two, or fails and has none.
abbrev pub Effect : Views → Views → Result (Unit {0}) → Views → Type 0
Effect before after r w = ((r ≡ ok tt) × (w ≡ after)) ⊎ ((e : Error) × (r ≡ err e) × (w ≡ before))

-- The documented behaviour of the calls, seen through `view`.
pub record IsBus {B : Type 0} (ops : EnvUpdateOps B) (view : B → Views) : Type 0 where
  pub set_effect :
      (list : List Text) (b : B)
      → Effect
          (view b)
          (record { systemd = apply_assignments list (view b).systemd; daemon = (view b).daemon })
          ((ops.set_environment list b).1)
          (view ((ops.set_environment list b).0))
  pub unset_effect :
      (names : List Text) (b : B)
      → Effect
          (view b)
          (record { systemd = unset_all names (view b).systemd; daemon = (view b).daemon })
          ((ops.unset_environment names b).1)
          (view ((ops.unset_environment names b).0))
  pub update_effect :
      (m : Map Text) (b : B)
      → Effect
          (view b)
          (record { systemd = (view b).systemd; daemon = set_all m (view b).daemon })
          ((ops.update_activation_environment m b).1)
          (view ((ops.update_activation_environment m b).0))

-- The specification of setting, by the answer that the question for the broker gets: the daemon is
-- told last, and only where it does not share the environment of systemd.
pub data SetStep (m : Map Text) (v w : Views) : Result Bool → Result (Unit {0}) → Type 0 where
  refused : (answer : Result Bool) (e : Error) → w ≡ v → SetStep m v w answer (err e)
  shared :
      w ≡ record { systemd = set_all m v.systemd; daemon = v.daemon }
      → SetStep m v w (ok true) (ok tt)
  told :
      w ≡ record { systemd = set_all m v.systemd; daemon = set_all m v.daemon }
      → SetStep m v w (ok false) (ok tt)
  not_told :
      w ≡ record { systemd = set_all m v.systemd; daemon = v.daemon }
      → SetStep m v w (ok false) (err partial_env_update)
  unknown :
      (e : Error)
      → w ≡ record { systemd = set_all m v.systemd; daemon = v.daemon }
      → SetStep m v w (err e) (err e)

-- The specification of unsetting: systemd is told last.
pub data UnsetStep (names : List Text) (v w : Views)
    : Result Bool → Result (Unit {0}) → Type 0 where
  refused : (answer : Result Bool) (e : Error) → w ≡ v → UnsetStep names v w answer (err e)
  shared :
      w ≡ record { systemd = unset_all names v.systemd; daemon = v.daemon }
      → UnsetStep names v w (ok true) (ok tt)
  told :
      w ≡ record {
        systemd = unset_all names v.systemd;
        daemon = set_all (map blank names) v.daemon;
      }
      → UnsetStep names v w (ok false) (ok tt)
  still_there :
      w ≡ record { systemd = v.systemd; daemon = set_all (map blank names) v.daemon }
      → UnsetStep names v w (ok false) (err partial_env_update)

-- No name has a `=`.
abbrev pub HasPlainNames : Map Text → Type 0
HasPlainNames m = All (λ (kv : Text × Text). Avoids b'=' kv.0) m

apply_assignments-set :
    (m : Map Text) (e : Vars)
    → HasPlainNames m
    → apply_assignments (map assignment m) e ≡ set_all m e
unfolding apply_assignments assignment
apply_assignments-set [] e h = refl
apply_assignments-set ((k, v) ∷ m) e (h, hs) =
    ap (λ (o : Option (Text × Text)). apply_assignments (map assignment m) (apply_assignment o e))
      (split_once-append b'=' k v h)
    ∙ apply_assignments-set m (set_var k v e) hs

module _ {B : Type 0} (ops : EnvUpdateOps B) (view : B → Views) (law : IsBus ops view) where
  abbrev Pair : Type 0
  Pair = B × Result (Unit {0})

  -- The change of one of the two.
  abbrev on_systemd : Vars → Views → Views
  on_systemd e v = record { systemd = e; daemon = v.daemon }

  abbrev on_daemon : Vars → Views → Views
  on_daemon e v = record { systemd = v.systemd; daemon = e }

  set_told :
      (m : Map Text) (v u : Views) (r : Pair)
      → u ≡ on_systemd (set_all m v.systemd) v
      → Effect u (on_daemon (set_all m u.daemon) u) r.1 (view r.0)
      → SetStep m v
          (view ((reported_as partial_env_update r).0))
          (ok false)
          ((reported_as partial_env_update r).1)
  unfolding reported_as
  set_told m v u (b, ok _) hu (inl (h, hw)) =
      told (hw ∙ ap (λ (x : Views). on_daemon (set_all m x.daemon) x) hu)
  set_told m v u (b, err e) hu (inl (h, hw)) = cc
  set_told m v u (b, ok _) hu (inr (e, h, hw)) = cc
  set_told m v u (b, err e) hu (inr (f, h, hw)) = not_told (hw ∙ hu)

  set_asked :
      (m : Map Text) (v : Views) (c : B) (answer : Result Bool)
      → view c ≡ on_systemd (set_all m v.systemd) v
      → SetStep m v (view ((set_rest ops m c answer).0)) answer ((set_rest ops m c answer).1)
  unfolding set_rest
  set_asked m v c (err e) h = unknown e h
  set_asked m v c (ok true) h = shared h
  set_asked m v c (ok false) h =
      set_told m v (view c) (ops.update_activation_environment m c) h (law.update_effect m c)

  set_begun :
      (m : Map Text) (v : Views) (r : Pair)
      → Effect v (on_systemd (set_all m v.systemd) v) r.1 (view r.0)
      → SetStep m v
          (view ((and_then r λ c. set_rest ops m c (ops.is_dbus_broker c)).0))
          (ops.is_dbus_broker r.0)
          ((and_then r λ c. set_rest ops m c (ops.is_dbus_broker c)).1)
  unfolding and_then
  set_begun m v (c, ok _) (inl (h, hw)) = set_asked m v c (ops.is_dbus_broker c) hw
  set_begun m v (c, err e) (inl (h, hw)) = cc
  set_begun m v (c, ok _) (inr (e, h, hw)) = cc
  set_begun m v (c, err e) (inr (f, h, hw)) = refused (ops.is_dbus_broker c) e hw

  unset_told :
      (names : List Text) (v u : Views) (r : Pair)
      → u ≡ on_daemon (set_all (map blank names) v.daemon) v
      → Effect u (on_systemd (unset_all names u.systemd) u) r.1 (view r.0)
      → UnsetStep names v
          (view ((reported_as partial_env_update r).0))
          (ok false)
          ((reported_as partial_env_update r).1)
  unfolding reported_as
  unset_told names v u (b, ok _) hu (inl (h, hw)) =
      told (hw ∙ ap (λ (x : Views). on_systemd (unset_all names x.systemd) x) hu)
  unset_told names v u (b, err e) hu (inl (h, hw)) = cc
  unset_told names v u (b, ok _) hu (inr (e, h, hw)) = cc
  unset_told names v u (b, err e) hu (inr (f, h, hw)) = still_there (hw ∙ hu)

  unset_shared :
      (names : List Text) (v : Views) (r : Pair)
      → Effect v (on_systemd (unset_all names v.systemd) v) r.1 (view r.0)
      → UnsetStep names v (view ((reported_as dbus r).0)) (ok true) ((reported_as dbus r).1)
  unfolding reported_as
  unset_shared names v (b, ok _) (inl (h, hw)) = shared hw
  unset_shared names v (b, err e) (inl (h, hw)) = cc
  unset_shared names v (b, ok _) (inr (e, h, hw)) = cc
  unset_shared names v (b, err e) (inr (f, h, hw)) = refused (ok true) dbus hw

  -- The call on systemd, where the daemon's environment is changed already.
  unset_second :
      (names : List Text) (v : Views) (c : B)
      → view c ≡ on_daemon (set_all (map blank names) v.daemon) v
      → UnsetStep names v
          (view ((reported_as partial_env_update (ops.unset_environment names c)).0))
          (ok false)
          ((reported_as partial_env_update (ops.unset_environment names c)).1)
  unset_second names v c h =
      unset_told names v (view c) (ops.unset_environment names c) h (law.unset_effect names c)

  unset_begun :
      (names : List Text) (v : Views) (r : Pair)
      → Effect v (on_daemon (set_all (map blank names) v.daemon) v) r.1 (view r.0)
      → UnsetStep names v
          (view
            ((and_then r λ c. reported_as partial_env_update (ops.unset_environment names c)).0))
          (ok false)
          ((and_then r λ c. reported_as partial_env_update (ops.unset_environment names c)).1)
  unfolding and_then
  unset_begun names v (c, ok _) (inl (h, hw)) = unset_second names v c hw
  unset_begun names v (c, err e) (inl (h, hw)) = cc
  unset_begun names v (c, ok _) (inr (e, h, hw)) = cc
  unset_begun names v (c, err e) (inr (f, h, hw)) = refused (ok false) e hw

  unset_asked :
      (names : List Text) (b : B) (answer : Result Bool)
      → UnsetStep names
          (view b)
          (view ((unset_rest ops names b answer).0))
          answer
          ((unset_rest ops names b answer).1)
  unfolding unset_rest
  unset_asked names b (err e) = refused (err e) e refl
  unset_asked names b (ok true) =
      unset_shared names (view b) (ops.unset_environment names b) (law.unset_effect names b)
  unset_asked names b (ok false) =
      unset_begun names (view b) (ops.update_activation_environment (map blank names) b)
        (law.update_effect (map blank names) b)

  -- Where each call answers with its effect or fails without one, setting variables whose names have
  -- no `=`, and unsetting any, are steps of their specifications. The daemon is told exactly where the
  -- question for the broker says that it does not share the environment of systemd. Where the second
  -- call fails, setting has changed systemd and not the daemon, and unsetting the daemon and not
  -- systemd, and either returns the error of a partial update. Where the question itself fails, its
  -- error is returned as it is: unsetting has then changed nothing, but setting has changed systemd.
  pub updates-Step :
      (m : Map Text) (names : List Text) (b : B)
      → HasPlainNames m
      → SetStep m
          (view b)
          (view ((set_systemd_vars_with ops m b).0))
          (ops.is_dbus_broker ((ops.set_environment (map assignment m) b).0))
          ((set_systemd_vars_with ops m b).1)
        × UnsetStep names
            (view b)
            (view ((unset_systemd_vars_with ops names b).0))
            (ops.is_dbus_broker b)
            ((unset_systemd_vars_with ops names b).1)
  unfolding set_systemd_vars_with unset_systemd_vars_with
  updates-Step m names b h = (
    set_begun m (view b) (ops.set_environment (map assignment m) b)
        (rw (← apply_assignments-set m (view b).systemd h) (law.set_effect (map assignment m) b)),
    unset_asked names b (ops.is_dbus_broker b),
  )
