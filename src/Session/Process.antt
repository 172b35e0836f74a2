-- ===== src/Session/Process.antt =====
-- src/session/exec.rs, src/session/finalize.rs, src/session/cleanup.rs and src/session/wait.rs: the
-- processes that export variables and declare readiness, and the one that cleans up. The disk is the
-- directory of the state files.
pub mod Recorded
pub mod Prepare
use wsmr.Base.{
  ℕ, ◌*◌, Bool, true, false, not, ◌&&◌, ◌||◌, Option, none, some, List, [], ◌∷◌, ◌++◌,
  if◌then◌else◌, is_empty, first, leb, keep,
}
use wsmr.Base.Text.{Text, codes, text_eq, is_whitespace}
use wsmr.Base.Maps.{Map, lookup, insert, keys, is_some}
use wsmr.Error.{Error, resolve, invalid_arg, Result, ok, err, ◌>>=◌}
use wsmr.Disk.{Disk}
use wsmr.Util.{Host, non_empty, unwrap_or, parse_unsigned, u64_max}
use wsmr.Env.Filter.{keep_name}
use wsmr.Env.Delta.{is_value}
use wsmr.Sysd.{UnitQuery, active_wm_unit}
use wsmr.Session.State.{StateOps, World, Outcome, System, forget, append_cleanup, end_generation}
use wsmr.Session.Steps.{BusOps, ◌then◌, asked, called}

-- `split_whitespace`
words_from : Text → Text → List Text
unfolding is_whitespace
words_from [] [] = []
words_from (a ∷ cur) [] = (a ∷ cur) ∷ []
words_from [] (c ∷ s) =
    let next = words_from [] s in
    let longer = words_from (c ∷ []) s in if is_whitespace c then next else longer
words_from (a ∷ cur) (c ∷ s) =
    let ended = words_from [] s in
    let longer = words_from (a ∷ (cur ++ c ∷ [])) s in
    if is_whitespace c then (a ∷ cur) ∷ ended else longer

unfoldable pub split_whitespace : Text → List Text
unfolding words_from
split_whitespace s = words_from [] s

parse_seconds : Option Text → Option ℕ
unfolding parse_unsigned
parse_seconds none = none
parse_seconds (some s) = parse_unsigned u64_max s

at_least_one : Option ℕ → ℕ
at_least_one none = 30
at_least_one (some n) = if leb 1 n then n else 30

-- In seconds.
unfoldable pub wait_timeout : Host → ℕ
unfolding at_least_one parse_seconds
wait_timeout host = at_least_one (parse_seconds (host.env_var (codes "UWSM_WAIT_VARNAMES_TIMEOUT")))

-- In microseconds: the start timeout of the unit, where systemd tells it.
readiness_timeout : Host → Result ℕ → ℕ
unfolding wait_timeout
readiness_timeout host (ok usec) = usec
readiness_timeout host (err e) = wait_timeout host * 1_000_000

-- The names that are waited for, before they are filtered.
unfoldable pub awaited_names : Host → List Text → List Text
unfolding split_whitespace unwrap_or
awaited_names host extra =
    codes "WAYLAND_DISPLAY"
    ∷ (extra ++ split_whitespace (unwrap_or [] (host.env_var (codes "UWSM_WAIT_VARNAMES"))))

-- How a process that declares readiness ends.
pub data Notice : Type 0 where
  ready narrowed silent : Notice

export_var : Text → Option Text → Map Text → Map Text
unfolding insert
export_var name none export = export
export_var name (some val) export = insert name val export

-- The variables of the process that are to be exported.
pub export_from : Host → List Text → Map Text → Map Text
unfolding export_var keep_name
export_from host [] export = export
export_from host (name ∷ names) export =
    export_from host names
      (if keep_name name then export_var name (host.env_var name) export else export)

-- What the environment of systemd has now and did not have before.
unfoldable pub changed_vars : Map Text → Map Text → Map Text
unfolding is_value lookup
changed_vars pre [] = []
changed_vars pre ((k, v) ∷ post) =
    let rest = changed_vars pre post in if is_value (lookup k pre) v then rest else (k, v) ∷ rest

module _ {B : Type 0} (ops : BusOps B) (sys : System) where
  -- The cleanup obligation is recorded before anything is exported.
  unfoldable pub record_and_set : Map Text → World B → Outcome B (Unit {0})
  unfolding append_cleanup
  record_and_set vars w = append_cleanup sys (keys vars) w then λ _ v.
      called (ops.state_ops.set_systemd_vars vars v.bus) v

  is_all : Result Text → Result Bool
  is_all access = access >>= λ a. ok (text_eq a (codes "all"))

  narrow_or_silent : Result Bool → Result Notice
  narrow_or_silent access = access >>= λ wide. ok (if wide then narrowed else silent)

  finalize_active : Option Text → B → Result Notice
  unfolding narrow_or_silent is_all
  finalize_active none b = ok silent
  finalize_active (some unit) b = narrow_or_silent (is_all (ops.notify_access unit b))

  finalize_notice : B → Result Notice
  unfolding finalize_active active_wm_unit
  finalize_notice b =
      ops.list_units (codes "activating" ∷ []) (codes "wayland-wm@*.service" ∷ []) b
      >>= λ activating.
          if not (is_empty activating)
          then ok ready
          else active_wm_unit ops.list_units b >>= λ unit. finalize_active unit b

  finalize_export : Host → List Text → World B → Outcome B Notice
  unfolding record_and_set finalize_notice export_from
  finalize_export host extra w =
      record_and_set (export_from host (codes "WAYLAND_DISPLAY" ∷ codes "DISPLAY" ∷ extra) []) w
      then λ _ v. asked (finalize_notice v.bus) v

  unfoldable pub finalize : Host → List Text → World B → Outcome B Notice
  unfolding finalize_export non_empty
  finalize host extra w =
      if not (is_some (non_empty (host.env_var (codes "WAYLAND_DISPLAY"))))
      then (w, err resolve)
      else finalize_export host extra w

  -- A failed question is taken for access that is not wide.
  is_wide : Result Text → Bool
  unfolding text_eq
  is_wide (ok a) = text_eq a (codes "all")
  is_wide (err e) = false

  readiness_notice : Text → B → Result Notice
  unfolding is_wide active_wm_unit
  readiness_notice unit b =
      ops.list_units (codes "activating" ∷ []) (codes "wayland-wm@*.service" ∷ []) b
      >>= λ activating.
          if not (is_empty activating)
          then ok ready
          else active_wm_unit ops.list_units b >>= λ active.
              if is_some active && is_wide (ops.notify_access unit b)
              then ok narrowed
              else ok silent

  pub sync_delta : Map Text → World B → Outcome B (Unit {0})
  unfolding record_and_set
  sync_delta delta w = if not (is_empty delta) then record_and_set delta w else (w, ok tt)

  -- `waited` is `waitenv` with its settling; what the other side does in the meantime is `later`.
  watch_unit :
      Host
      → (List Text → ℕ → Result (Unit {0}))
      → (World B → World B)
      → Text
      → World B
      → Outcome B Notice
  unfolding sync_delta readiness_notice changed_vars awaited_names readiness_timeout
  watch_unit host waited later unit w = asked (ops.state_ops.systemd_vars w.bus) w then λ env_pre v.
      asked
        (waited (awaited_names host [])
          (readiness_timeout host (ops.timeout_start_usec unit v.bus)))
        (later v)
      then λ _ u. asked (ops.state_ops.systemd_vars u.bus) u then λ env_post t.
          sync_delta (changed_vars env_pre env_post) t then λ _ s.
          asked (readiness_notice unit s.bus) s

  unfoldable pub readiness_watch :
      Host
      → (List Text → ℕ → Result (Unit {0}))
      → (World B → World B)
      → Text
      → World B
      → Outcome B Notice
  unfolding watch_unit
  readiness_watch host waited later id_unit_string w =
      watch_unit host waited later (codes "wayland-wm@" ++ (id_unit_string ++ codes ".service")) w

  -- The helper scripts that are removed as well are not among the state files.
  forget_conf : World B → Outcome B (Unit {0})
  unfolding forget
  forget_conf w = (record w { disk = forget sys.dev (codes "env_session.conf") w.disk }, ok tt)

  unfoldable pub cleanup_env : World B → Outcome B (Unit {0})
  unfolding end_generation forget_conf
  cleanup_env w = end_generation ops.state_ops sys w then λ _. forget_conf
