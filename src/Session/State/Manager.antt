-- ===== src/Session/State/Manager.antt =====
-- The contract of `StateOps`, and what the two calls of a restoration leave of a variable.
use wsmr.Base.{
  Bool, true, false, ◌&&◌, Option, none, some, List, [], ◌∷◌, if◌then◌else◌, ◌≡◌, refl, ◌∙◌, ap,
  ◌⊎◌, inl, inr,
}
use wsmr.Base.Text.{Text}
use wsmr.Base.Maps.{Map, lookup, contains_key, is_some}
use wsmr.Base.Sets.{member, text_key}
use wsmr.Error.{Error, Result, ok, err}
use wsmr.Env.Filter.{keep_name}
use wsmr.Env.Files.Snapshot.{IsEnvMap}
use wsmr.Env.Files.{entry_key}
use wsmr.Session.State.{StateOps, call_unset, call_set, set_after, restore_vars}

-- What a call leaves of a variable: the change, where it answers, and the change or nothing, where it
-- fails, since it may fail when systemd has been told already.
abbrev pub Changes : Option Text → Option Text → Option Text → Result (Unit {0}) → Type 0
Changes before after now r =
    ((r ≡ ok tt) × (now ≡ after)) ⊎ ((e : Error) × (r ≡ err e) × ((now ≡ before) ⊎ (now ≡ after)))

-- The variable where the map is set, and where the names are unset.
abbrev pub set_value : Map Text → Text → Option Text → Option Text
set_value m k before = elim (lookup k m) [ none ↦ before | some v ↦ some v ]

abbrev pub unset_value : List Text → Text → Option Text → Option Text
unset_value names k before = if member k names then none else before

abbrev pub KeptNames : List Text → Type 0
KeptNames names = (k : Text) → member k names ≡ true → keep_name k ≡ true

-- The contract of `StateOps`, over the environment of systemd, `view`, which may have variables that the
-- program does not name: what is read is filtered to the names that are kept, and each call may fail.
pub record IsManager {B : Type 0} (ops : StateOps B) (view : B → Text → Option Text) : Type 0 where
  pub vars_view :
      (b : B) (m : Map Text) (k : Text)
      → ops.systemd_vars b ≡ ok m
      → lookup k m ≡ (if keep_name k then view b k else none)
  pub unset_view :
      (names : List Text) (b : B) (k : Text)
      → KeptNames names
      → Changes
          (view b k)
          (unset_value names k (view b k))
          (view ((ops.unset_systemd_vars names b).0) k)
          ((ops.unset_systemd_vars names b).1)
  pub set_view :
      (m : Map Text) (b : B) (k : Text)
      → IsEnvMap m
      → Changes
          (view b k)
          (set_value m k (view b k))
          (view ((ops.set_systemd_vars m b).0) k)
          ((ops.set_systemd_vars m b).1)

-- The call to the other side that has failed.
pub data CallFails {B : Type 0} (ops : StateOps B) (pre : Map Text) (b : B) (e : Error)
    : Type 0 where
  asking : ops.systemd_vars b ≡ err e → CallFails ops pre b e
  unsetting :
      (names : List Text) → (ops.unset_systemd_vars names b).1 ≡ err e → CallFails ops pre b e
  setting : (c : B) → (ops.set_systemd_vars pre c).1 ≡ err e → CallFails ops pre b e

module _ {B : Type 0} (ops : StateOps B) (view : B → Text → Option Text)
    (law : IsManager ops view) where
  call_unset-view :
      (names : List Text) (b : B) (k : Text)
      → KeptNames names
      → Changes
          (view b k)
          (unset_value names k (view b k))
          (view ((call_unset ops names b).0) k)
          ((call_unset ops names b).1)
  unfolding call_unset
  call_unset-view [] b k kept = inl (refl, unfold member in refl)
  call_unset-view (n ∷ names) b k kept = law.unset_view (n ∷ names) b k kept

  call_set-view :
      (m : Map Text) (b : B) (k : Text)
      → IsEnvMap m
      → Changes
          (view b k)
          (set_value m k (view b k))
          (view ((call_set ops m b).0) k)
          ((call_set ops m b).1)
  unfolding call_set
  call_set-view [] b k h = inl (refl, unfold lookup in refl)
  call_set-view (n ∷ m) b k h = law.set_view (n ∷ m) b k h

  call_unset-err :
      (names : List Text) (b : B) (e : Error)
      → (call_unset ops names b).1 ≡ err e
      → (ops.unset_systemd_vars names b).1 ≡ err e
  unfolding call_unset
  call_unset-err [] b e h = cc
  call_unset-err (n ∷ names) b e h = h

  call_set-err :
      (m : Map Text) (b : B) (e : Error)
      → (call_set ops m b).1 ≡ err e
      → (ops.set_systemd_vars m b).1 ≡ err e
  unfolding call_set
  call_set-err [] b e h = cc
  call_set-err (n ∷ m) b e h = h

  -- A variable that the second call has not changed is as the first one leaves it.
  unset_only :
      (now old pre : Option Text) (named : Bool)
      → (named && is_some pre) ≡ false
      → now ≡ (if named then none else old)
      → (now ≡ old) ⊎ (now ≡ elim pre [ none ↦ if named then none else old | some v ↦ some v ])
  unset_only now old (some v) true a h = cc
  unset_only now old none true a h = inr h
  unset_only now old pre false a h = inl h

  -- How the two calls come out for a variable that none of them names twice.
  unfoldable pub Restored : List Text → Map Text → B → Text → B × Result (Unit {0}) → Type 0
  Restored names pre b k r =
      ((r.1 ≡ ok tt) × (view r.0 k ≡ set_value pre k (unset_value names k (view b k))))
      ⊎ ((e : Error) × (r.1 ≡ err e)
          × CallFails ops pre b e
          × ((view r.0 k ≡ view b k)
              ⊎ (view r.0 k ≡ set_value pre k (unset_value names k (view b k)))))

  pub restore_vars-Restored :
      (names : List Text) (pre : Map Text) (b : B) (k : Text)
      → KeptNames names
      → IsEnvMap pre
      → (member k names && contains_key k pre) ≡ false
      → Restored names pre b k (restore_vars ops names pre b)
  unfolding restore_vars Restored set_after
  restore_vars-Restored names pre b k kept h apart =
      go (call_unset ops names b) refl (call_unset-view names b k kept)
    where
      go :
          (r : B × Result (Unit {0}))
          → call_unset ops names b ≡ r
          → Changes (view b k) (unset_value names k (view b k)) (view r.0 k) r.1
          → Restored names pre b k (set_after ops pre r)
      go (c, ok _) e (inl (_, un)) = elim (call_set-view pre c k h) [
        | inl (done, now) ↦ inl (done, now ∙ ap (set_value pre k) un)
        | inr (x, bad, inl now) ↦ inr (
          x,
          bad,
          setting c (call_set-err pre c x bad),
          unset_only _ (view b k) (lookup k pre) (member k names) apart (now ∙ un),
        )
        | inr (x, bad, inr now) ↦
            inr (x, bad, setting c (call_set-err pre c x bad), inr (now ∙ ap (set_value pre k) un))
      ]
      go (c, ok _) e (inr (x, bad, _)) = cc
      go (c, err y) e (inl (good, _)) = cc
      go (c, err y) e (inr (x, bad, now)) = inr (
        y,
        refl,
        unsetting names (call_unset-err names b y (ap (λ r. r.1) e)),
        elim now [
          | inl same ↦ inl same
          | inr un ↦ unset_only (view c k) (view b k) (lookup k pre) (member k names) apart un
        ],
      )
