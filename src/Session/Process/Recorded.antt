-- ===== src/Session/Process/Recorded.antt =====
-- What the processes export is on the cleanup list before.
use wsmr.Base.{
  Bool, true, false, not, ◌&&◌, ◌||◌, Option, none, some, List, [], ◌∷◌, if◌then◌else◌, ◌≡◌, refl,
  ◌∙◌, ap, arith, ◌⊎◌, inl, inr, Bool-cases,
}
use wsmr.Base.Text.{Text, codes, text_eq, text_eq_refl}
use wsmr.Base.Maps.{Map, lookup, keys, contains_key, is_some}
use wsmr.Base.Maps.Order.{IsOrdered, insert-IsOrdered}
use wsmr.Base.Sets.{member, text_key}
use wsmr.Error.{Error, Result, ok, err}
use wsmr.Disk.{can_write}
use wsmr.Util.{Host, non_empty}
use wsmr.Env.Filter.{keep_name}
use wsmr.Env.Filter.Laws.{Kept, insert-Kept, nil-Kept}
use wsmr.Env.Files.{CleanupEntry, entry_key}
use wsmr.Session.State.{StateOps, World, Outcome, System, cleanup_path, append_cleanup}
use wsmr.Session.State.Cleanup.{IsEstablished, Listed, append_cleanup-Listed, append_cleanup-bus}
use wsmr.Session.Steps.{BusOps, ◌then◌, asked, called}
use wsmr.Session.Process.{
  export_var, export_from, record_and_set, finalize_notice, finalize_export, finalize,
}

-- A call that sets variables whose names are kept changes no other one, also where it fails.
abbrev pub SetsOnly : {B : Type 0} → StateOps B → (B → Text → Option Text) → Type 0
SetsOnly {B} ops view =
    (m : Map Text) (b : B) (k : Text)
    → Kept m
    → contains_key k m ≡ false
    → view ((ops.set_systemd_vars m b).0) k ≡ view b k

contains_key-member : (k : Text) (m : Map Text) → member k (keys m) ≡ contains_key k m
unfolding member lookup
contains_key-member k [] = refl
contains_key-member k ((j, v) ∷ m) = ground (arith, contains_key-member k m)

pub export_from-Kept :
    (host : Host) (names : List Text) (m : Map Text) → Kept m → Kept (export_from host names m)
unfolding export_from
export_from-Kept host [] m h = h
export_from-Kept host (n ∷ names) m h =
    export_from-Kept host names (if keep_name n then export_var n (host.env_var n) m else m)
      (elim (Bool-cases (keep_name n)) [
        | inl kept ↦ rw kept (exported (host.env_var n) kept)
        | inr dropped ↦ rw dropped h
      ])
  where
    exported : (o : Option Text) → keep_name n ≡ true → Kept (export_var n o m)
    exported none kept = unfold export_var in h
    exported (some v) kept = unfold export_var in insert-Kept n v m kept h

pub export_from-IsOrdered :
    (host : Host) (names : List Text) (m : Map Text)
    → IsOrdered m
    → IsOrdered (export_from host names m)
unfolding export_from
export_from-IsOrdered host [] m h = h
export_from-IsOrdered host (n ∷ names) m h =
    export_from-IsOrdered host names (if keep_name n then export_var n (host.env_var n) m else m)
      (elim (Bool-cases (keep_name n)) [
        | inl kept ↦ rw kept (exported (host.env_var n))
        | inr dropped ↦ rw dropped h
      ])
  where
    exported : (o : Option Text) → IsOrdered (export_var n o m)
    exported none = unfold export_var in h
    exported (some v) = unfold export_var in insert-IsOrdered n v m h

-- The variable is as it was, or its name is on the list under the generation.
abbrev pub IsCovered :
    {B : Type 0} → (B → Text → Option Text) → Text → Text → World B → World B → Type 0
IsCovered view g k before after =
    (view after.bus k ≡ view before.bus k)
    ⊎ Listed (record { generation = g; name = k }) true after.disk

module _ {B : Type 0} (ops : BusOps B) (sys : System) (view : B → Text → Option Text)
    (only : SetsOnly ops.state_ops view) where
  set_recorded :
      (vars : Map Text) (g k : Text) (b : Bool) (w : World B) (o : Outcome B (Unit {0}))
      → Kept vars
      → o.1 ≡ ok tt
      → o.0.bus ≡ w.bus
      → Listed (record { generation = g; name = k }) b o.0.disk
      → (contains_key k vars ≡ true → b ≡ true)
      → IsCovered view g k w
          ((o then λ _ v. called (ops.state_ops.set_systemd_vars vars v.bus) v).0)
  set_recorded vars g k b w (v, err x) kept he hb hl hk = cc
  set_recorded vars g k b w (v, ok _) kept he hb (es, hr, hm) hk =
      elim (Bool-cases (contains_key k vars)) [
        | inl there ↦ inr (es, hr, hm ∙ hk there)
        | inr not_there ↦ inl (only vars v.bus k kept not_there ∙ ap (λ (c : B). view c k) hb)
      ]

  record_and_set-IsCovered :
      (vars : Map Text) (g k : Text) (es : List CleanupEntry) (w : World B)
      → sys.lock ≡ ok tt
      → can_write sys.dev cleanup_path ≡ true
      → IsEstablished g es w.disk
      → Kept vars
      → IsCovered view g k w ((record_and_set ops sys vars w).0)
  unfolding record_and_set
  record_and_set-IsCovered vars g k es w hl hc he kept =
      let e : CleanupEntry = record { generation = g; name = k } in
      let done = append_cleanup-Listed sys e (keys vars) g es w hl hc he in
      set_recorded vars g k
        (member e es || (text_eq g e.generation && keep_name e.name && member e.name (keys vars))) w
        (append_cleanup sys (keys vars) w) kept done.0 (append_cleanup-bus sys (keys vars) w) done.1
        (λ there. ground (arith, text_eq_refl g, kept k there, contains_key-member k vars, there))

  then_asked-IsCovered :
      {A C : Type 0} (g k : Text) (w : World B) (f : World B → Result C) (o : Outcome B A)
      → IsCovered view g k w o.0
      → IsCovered view g k w ((o then λ _ v. asked (f v) v).0)
  then_asked-IsCovered g k w f (v, err x) h = h
  then_asked-IsCovered g k w f (v, ok a) h = h

  -- Where a generation is on record and its cleanup list can be read and written: however `finalize`
  -- ends, a variable of systemd is as it was, or its name is on the cleanup list under the
  -- generation; also where the call that sets the variables fails half way.
  pub finalize-IsCovered :
      (host : Host) (extra : List Text) (g k : Text) (es : List CleanupEntry) (w : World B)
      → sys.lock ≡ ok tt
      → can_write sys.dev cleanup_path ≡ true
      → IsEstablished g es w.disk
      → IsCovered view g k w ((finalize ops sys host extra w).0)
  unfolding finalize finalize_export
  finalize-IsCovered host extra g k es w hl hc he =
      go (not (is_some (non_empty (host.env_var (codes "WAYLAND_DISPLAY")))))
    where
      names : List Text
      names = codes "WAYLAND_DISPLAY" ∷ codes "DISPLAY" ∷ extra

      exported : Map Text
      exported = export_from host names []

      go :
          (refused : Bool)
          → IsCovered view g k w
              ((if refused then (w, err Error.resolve) else finalize_export ops sys host extra w).0)
      go true = inl refl
      go false =
          then_asked-IsCovered g k w (λ v. finalize_notice ops sys v.bus)
            (record_and_set ops sys exported w)
            (record_and_set-IsCovered exported g k es w hl hc he
              (export_from-Kept host names [] nil-Kept))
