-- ===== src/Session/State.antt =====
-- src/session/state.rs: the state files of a session and what it owes the environment of systemd.
-- The lock is one step that is taken or fails: a process holds it for a whole operation, so that an
-- operation is one step of the shared state. The paths, which need the runtime directory, fail with it.
pub mod Manager
pub mod Restore
pub mod Cleanup
pub mod Begin
use wsmr.Base.{
  ℕ, Bool, true, false, not, ◌&&◌, ◌||◌, Option, none, some, List, [], ◌∷◌, ◌++◌, if◌then◌else◌,
  keep, is_empty,
}
use wsmr.Base.Text.{Text, codes, text_eq, trim, starts_with}
use wsmr.Base.Maps.{Map, lookup, contains_key, is_some, keys}
use wsmr.Base.Sets
use wsmr.Base.Sets.{member, extend, text_key}
use wsmr.Error.{Error, io, resolve, Result, ok, err, ◌>>=◌}
use wsmr.Disk.{
  File, missing, unreadable, content, Disk, put, Device, atomic_write, Removal, removed, not_found,
  refused, remove_file,
}
use wsmr.Env.Filter.{keep_name}
use wsmr.Env.Varnames.{always_cleanup, never_cleanup}
use wsmr.Env.Files.{
  CleanupEntry, entry_key, nul, serialize_env, load_env, read_cleanup_entries,
  render_cleanup_entries,
}

abbrev pub generation_path : Text
generation_path = codes "generation"

abbrev pub env_pre_path : Text
env_pre_path = codes "env_pre"

abbrev pub cleanup_path : Text
cleanup_path = codes "env_cleanup.list"

-- The trait `StateOps` over a state `B` of the other side of the bus.
pub record StateOps (B : Type 0) : Type 0 where
  pub systemd_vars : B → Result (Map Text)
  pub set_systemd_vars : Map Text → B → B × Result (Unit {0})
  pub unset_systemd_vars : List Text → B → B × Result (Unit {0})

-- The system: the file system's answers, the lock, and the names that `read_dir` lists.
pub record System : Type 0 where
  pub dev : Device
  pub lock : Result (Unit {0})
  pub dir_entries : Disk → List Text

pub record World (B : Type 0) : Type 0 where
  pub disk : Disk
  pub bus : B

-- What a run leaves, also where it fails, and its result.
abbrev pub Outcome : Type 0 → Type 0 → Type 0
Outcome B A = World B × Result A

pub exists : File → Bool
exists missing = false
exists unreadable = true
exists (content _) = true

non_empty : Text → Option Text
non_empty s = if not (is_empty s) then some s else none

unfoldable pub read_generation : File → Result (Option Text)
unfolding non_empty trim
read_generation missing = ok none
read_generation unreadable = err (io generation_path)
read_generation (content s) = ok (non_empty (trim s))

names_of : Text → List CleanupEntry → List Text
names_of g [] = []
names_of g (e ∷ es) =
    let rest = names_of g es in if text_eq e.generation g then e.name ∷ rest else rest

-- The names listed under the generation on record, and under none if there is none.
listed_names : Option Text → File → Result (List Text)
unfolding names_of extend read_cleanup_entries
listed_names none f = ok []
listed_names (some g) f =
    read_cleanup_entries cleanup_path f >>= λ es. ok (extend [] (names_of g es))

to_unset : List Text → Map Text → Map Text → List Text
unfolding extend always_cleanup never_cleanup member lookup
to_unset listed systemd pre =
    keep (λ k. not (member k never_cleanup) && contains_key k systemd && not (contains_key k pre))
      (extend listed always_cleanup)

no_state : Disk → Bool
unfolding exists
no_state d =
    not (exists (d generation_path))
    && not (exists (d cleanup_path))
    && not (exists (d env_pre_path))

-- `let _ = remove_file(f)`
unfoldable pub forget : Device → Text → Disk → Disk
unfolding remove_file
forget dev f d = elim (remove_file dev f d) [ removed e ↦ e | not_found ↦ d | refused ↦ d ]

forget_vars : Device → List Text → Disk → Disk
unfolding forget starts_with
forget_vars dev [] d = d
forget_vars dev (f ∷ fs) d =
    let next = forget_vars dev fs (forget dev f d) in
    let same = forget_vars dev fs d in if starts_with (codes "vars_") f then next else same

-- `sweep_stray_prepare_vars`
sweep : System → Disk → Disk
unfolding forget_vars
sweep sys d = forget_vars sys.dev (sys.dir_entries d) d

clear_files : System → Disk → Disk
unfolding forget sweep
clear_files sys d =
    sweep sys
      (forget sys.dev generation_path (forget sys.dev env_pre_path (forget sys.dev cleanup_path d)))

-- The loop of `append_cleanup`, with its flag: an entry that is in the set already adds nothing.
add_names : Text → List Text → List CleanupEntry × Bool → List CleanupEntry × Bool
unfolding keep_name member Sets.insert
add_names g [] (es, added) = (es, added)
add_names g (n ∷ ns) (es, added) =
    let e : CleanupEntry = record { generation = g; name = n } in
    let more = add_names g ns (Sets.insert e es, true) in
    let same = add_names g ns (es, added) in if keep_name n && not (member e es) then more else same

module _ {B : Type 0} where
  cleared : System → Disk → B × Result (Unit {0}) → Outcome B (Unit {0})
  unfolding clear_files
  cleared sys d (b, ok _) = (record { disk = clear_files sys d; bus = b }, ok tt)
  cleared sys d (b, err e) = (record { disk = d; bus = b }, err e)

  run_locked : {A : Type 0} → (World B → Outcome B A) → World B → Result (Unit {0}) → Outcome B A
  run_locked f w (ok _) = f w
  run_locked f w (err e) = (w, err e)

  pub locked : {A : Type 0} → System → (World B → Outcome B A) → World B → Outcome B A
  unfolding run_locked
  locked sys f w = run_locked f w sys.lock

  written : {A : Type 0} → (World B → Outcome B A) → World B → Result Disk → Outcome B A
  written k w (ok d) = k (record { disk = d; bus = w.bus })
  written k w (err e) = (w, err e)

  unfoldable pub write_file :
      {A : Type 0} → System → Text → Text → (World B → Outcome B A) → World B → Outcome B A
  unfolding atomic_write written
  write_file sys p c k w = written k w (atomic_write sys.dev p c w.disk)

  establish : System → Map Text → Text → World B → Outcome B Text
  unfolding write_file serialize_env render_cleanup_entries
  establish sys pre id = write_file sys generation_path (id ++ b'\n' ∷ []) (
      write_file sys env_pre_path (serialize_env pre nul)
        (write_file sys cleanup_path (render_cleanup_entries []) (λ w. (w, ok id))))

  after_restore : System → Map Text → Text → Outcome B (Unit {0}) → Outcome B Text
  unfolding establish
  after_restore sys pre id (w, ok _) = establish sys pre id w
  after_restore sys pre id (w, err e) = (w, err e)

  save_entries : System → Bool → List CleanupEntry → World B → Outcome B (Unit {0})
  unfolding write_file render_cleanup_entries
  save_entries sys true es w =
      write_file sys cleanup_path (render_cleanup_entries es) (λ v. (v, ok tt)) w
  save_entries sys false es w = (w, ok tt)

  append_read :
      System → List Text → Text → Result (List CleanupEntry) → World B → Outcome B (Unit {0})
  unfolding save_entries add_names
  append_read sys names g (ok es) w =
      let added = add_names g names (es, false) in save_entries sys added.1 added.0 w
  append_read sys names g (err e) w = (w, err e)

  append_for : System → List Text → Result (Option Text) → World B → Outcome B (Unit {0})
  unfolding append_read read_cleanup_entries
  append_for sys names (ok (some g)) w =
      append_read sys names g (read_cleanup_entries cleanup_path (w.disk cleanup_path)) w
  append_for sys names (ok none) w = (w, err resolve)
  append_for sys names (err e) w = (w, err e)

  unfoldable pub append_cleanup : System → List Text → World B → Outcome B (Unit {0})
  unfolding locked run_locked append_for read_generation
  append_cleanup sys names w =
      locked sys (λ v. append_for sys names (read_generation (v.disk generation_path)) v) w

module _ {B : Type 0} (ops : StateOps B) where
  call_unset : List Text → B → B × Result (Unit {0})
  call_unset names b = if not (is_empty names) then ops.unset_systemd_vars names b else (b, ok tt)

  call_set : Map Text → B → B × Result (Unit {0})
  call_set pre b = if not (is_empty pre) then ops.set_systemd_vars pre b else (b, ok tt)

  set_after : Map Text → B × Result (Unit {0}) → B × Result (Unit {0})
  unfolding call_set
  set_after pre (b, ok _) = call_set pre b
  set_after pre (b, err e) = (b, err e)

  -- The two calls that change the other side; the second one is made where the first one succeeds.
  pub restore_vars : List Text → Map Text → B → B × Result (Unit {0})
  unfolding call_unset set_after
  restore_vars names pre b = set_after pre (call_unset names b)

  -- What is read before anything is changed: the names to unset and the snapshot to restore.
  plan_restore : Disk → B → Result (List Text × Map Text)
  unfolding read_generation listed_names load_env to_unset
  plan_restore d b = read_generation (d generation_path) >>= λ current.
      listed_names current (d cleanup_path) >>= λ listed.
      load_env env_pre_path (d env_pre_path) >>= λ pre.
      ops.systemd_vars b >>= λ systemd. ok (to_unset listed systemd pre, pre)

  run_restore : System → World B → Result (List Text × Map Text) → Outcome B (Unit {0})
  unfolding restore_vars cleared
  run_restore sys w (ok (names, pre)) = cleared sys w.disk (restore_vars names pre w.bus)
  run_restore sys w (err e) = (w, err e)

  restore_and_clear_locked : System → World B → Outcome B (Unit {0})
  unfolding no_state plan_restore run_restore
  restore_and_clear_locked sys w =
      if no_state w.disk then (w, ok tt) else run_restore sys w (plan_restore w.disk w.bus)

  unfoldable pub end_generation : System → World B → Outcome B (Unit {0})
  unfolding locked restore_and_clear_locked
  end_generation sys w = locked sys (restore_and_clear_locked sys) w

  -- `id` is the random id that a run draws.
  unfoldable pub begin_generation : System → Map Text → Text → World B → Outcome B Text
  unfolding locked restore_and_clear_locked after_restore
  begin_generation sys pre id w =
      locked sys (λ v. after_restore sys pre id (restore_and_clear_locked sys v)) w
