-- ===== src/Session/Process/Prepare.antt =====
-- src/session/prepare.rs: the environment of a session, from the login's to that of systemd. The file
-- of variables that the loader's script reads is its text here, since it lives only for the run.
pub mod Tracked
pub mod Lifetime
use wsmr.Base.{
  ℕ, Bool, true, false, not, ◌&&◌, Option, none, some, List, [], ◌∷◌, ◌++◌, if◌then◌else◌, is_empty,
  first,
}
use wsmr.Base.Text.{Text, codes, join}
use wsmr.Base.Maps.{Map, lookup, insert, is_some}
use wsmr.Error.{resolve, Result, ok, err, ◌>>=◌}
use wsmr.Util.{Host, non_empty, unwrap_or, parse_unsigned, u32_max, decimal, read_fg_vt}
use wsmr.Comp.{CompGlobals}
use wsmr.Env.Delta.{EnvChanges, compute_changes}
use wsmr.Env.Dump.{parse_shell_dump}
use wsmr.Env.Files.{nul, newline, serialize_env, load_env}
use wsmr.Env.Varnames.{session_specific_list}
use wsmr.Units.Templates.Quote.{shlex_quote}
use wsmr.Sysd.{running_states}
use wsmr.Session.State.{
  World, Outcome, System, forget, write_file, append_cleanup, begin_generation,
}
use wsmr.Session.Steps.{BusOps, ◌then◌, asked, called}

abbrev pub env_login_path : Text
env_login_path = codes "env_login"

abbrev pub session_conf_path : Text
session_conf_path = codes "env_session.conf"

has_value : Map Text → Text → Bool
unfolding lookup non_empty
has_value m k = is_some (non_empty (lookup k m))

-- The variables of the session that have a value.
unfoldable pub session_vars : (Text → Option Text) → List Text → Map Text → Map Text
unfolding insert non_empty
session_vars env [] m = m
session_vars env (k ∷ ks) m = elim (non_empty (env k)) [
  | none ↦ session_vars env ks m
  | some v ↦ session_vars env ks (insert k v m)
]

module _ {B : Type 0} (sys : System) where
  pub save_session_conf : Map Text → World B → Outcome B (Unit {0})
  unfolding write_file serialize_env session_vars
  save_session_conf env w =
      write_file sys session_conf_path
        (serialize_env (session_vars (λ k. lookup k env) session_specific_list []) newline)
        (λ v. (v, ok tt)) w

  -- `save_login_envs` of src/session/start.rs; `environ` is the environment of the process.
  unfoldable pub save_login_envs : Map Text → World B → Outcome B (Unit {0})
  unfolding write_file serialize_env session_vars
  save_login_envs environ w =
      write_file sys env_login_path (serialize_env environ nul)
        (write_file sys session_conf_path
          (serialize_env (session_vars (λ k. lookup k environ) session_specific_list []) newline)
          (λ v. (v, ok tt)))
        w

-- The terminal of the login, or that in the foreground, which is then set.
vt_from : Host → Map Text → Option ℕ → Result (ℕ × Map Text)
unfolding read_fg_vt insert decimal
vt_from host env (some v) = ok (v, env)
vt_from host env none =
    read_fg_vt host.files >>= λ v. ok (v, insert (codes "XDG_VTNR") (decimal v) env)

parsed_vt : Option Text → Option ℕ
unfolding parse_unsigned
parsed_vt none = none
parsed_vt (some s) = parse_unsigned u32_max s

with_session : Map Text → Option (Text × Text) → Result (Map Text)
unfolding insert
with_session env none = err resolve
with_session env (some (sid, seat)) =
    ok (insert (codes "XDG_SEAT") seat (insert (codes "XDG_SESSION_ID") sid env))

-- `by_vt` connects to the system bus and asks for the session on a terminal.
unfoldable pub deduce_session_with :
    (ℕ → Result (Option (Text × Text))) → Map Text → ℕ → Result (Map Text)
unfolding with_session
deduce_session_with by_vt env vt = by_vt vt >>= with_session env

deduced : Host → (ℕ → Result (Option (Text × Text))) → Map Text → Result (Map Text)
unfolding vt_from parsed_vt deduce_session_with lookup
deduced host by_vt env = vt_from host env (parsed_vt (lookup (codes "XDG_VTNR") env)) >>= λ found.
    deduce_session_with by_vt found.1 found.0

module _ {B : Type 0} (sys : System) (host : Host) (by_vt : ℕ → Result (Option (Text × Text))) where
  saved_session : Map Text → World B → Outcome B (Map Text)
  unfolding save_session_conf
  saved_session env w = save_session_conf sys env w then λ _ v. (v, ok env)

  unfoldable pub deduce_session : Map Text → World B → Outcome B (Map Text)
  unfolding has_value deduced saved_session
  deduce_session env w =
      if has_value env (codes "XDG_SEAT") && has_value env (codes "XDG_SESSION_ID")
      then (w, ok env)
      else (asked (deduced host by_vt env) w then saved_session)

true_or_false : Bool → Text
true_or_false true = codes "true"
true_or_false false = codes "false"

-- `sh_quote` is the quoting of `shlex_quote`.
unfoldable pub aux_vars : CompGlobals → Text → Bool → Text
unfolding join shlex_quote true_or_false unwrap_or
aux_vars comp mark have_login =
    join (codes "\n") (
      codes "__SELF_NAME__=wsmr"
      ∷ (codes "__WM_ID__=" ++ shlex_quote comp.id)
      ∷ (codes "__WM_ID_UNIT_STRING__=" ++ shlex_quote comp.id_unit_string)
      ∷ (codes "__WM_BIN_ID__=" ++ shlex_quote comp.bin_id)
      ∷ (codes "__WM_DESKTOP_NAMES__=" ++ shlex_quote (join (codes ":") comp.desktop_names))
      ∷ (codes "__WM_FIRST_DESKTOP_NAME__="
          ++ shlex_quote (unwrap_or [] (first comp.desktop_names)))
      ∷ codes "__WM_DESKTOP_NAMES_EXCLUSIVE__=false"
      ∷ (codes "__LOAD_PROFILE__=" ++ true_or_false have_login)
      ∷ codes "__OIFS__=\" \t\n\""
      ∷ (codes "__RANDOM_MARK__=" ++ mark)
      ∷ codes "IN_UWSM_ENV_PRELOADER=true"
      ∷ [])
    ++ codes "\n"

-- The output of the loader's shell, and whether it has exited with success.
abbrev pub ShellRun : Type 0
ShellRun = Text → Map Text → Result (Text × Bool)

loaded : Text → Text × Bool → Result (Map Text)
unfolding parse_shell_dump
loaded mark (stdout, success) =
    parse_shell_dump stdout mark >>= λ dump. if success then ok dump.env else err resolve

unfoldable pub run_loader : ShellRun → CompGlobals → Map Text → Text → Bool → Result (Map Text)
unfolding loaded aux_vars
run_loader shell comp env_merged mark have_login =
    shell (aux_vars comp mark have_login) env_merged >>= loaded mark

-- `extend` of a map.
pub extend_map : Map Text → Map Text → Map Text
unfolding insert
extend_map m [] = m
extend_map m ((k, v) ∷ vars) = extend_map (insert k v m) vars

-- The unit that is started where the session is bound to no process.
bindpid_unit : Result (List Text) → Map Text → (Text → Result ℕ) → Option Text
unfolding lookup non_empty decimal
bindpid_unit (err e) env leader = none
bindpid_unit (ok (u ∷ units)) env leader = none
bindpid_unit (ok []) env leader = elim (non_empty (lookup (codes "XDG_SESSION_ID") env)) [
  | none ↦ none
  | some sid ↦ elim (leader sid) [
    | err e ↦ none
    | ok pid ↦ some (codes "wayland-session-bindpid@" ++ decimal pid ++ codes ".service")
  ]
]

-- What else a preparation is given: the leader of a session, the start of a unit by `systemctl`, the
-- shell, and the random texts of the generation and of the dump.
pub record Preparation (B : Type 0) : Type 0 where
  pub by_vt : ℕ → Result (Option (Text × Text))
  pub leader : Text → Result ℕ
  pub start_unit : Text → B → B
  pub shell : ShellRun
  pub id : Text
  pub mark : Text

module _ {B : Type 0} (ops : BusOps B) where
  set_changed : Map Text → World B → Outcome B (Unit {0})
  set_changed vars w =
      if not (is_empty vars)
      then called (ops.state_ops.set_systemd_vars vars w.bus) w
      else (w, ok tt)

  unset_changed : List Text → World B → Outcome B (Unit {0})
  unset_changed names w =
      if not (is_empty names)
      then called (ops.state_ops.unset_systemd_vars names w.bus) w
      else (w, ok tt)

module _ {B : Type 0} (ops : BusOps B) (sys : System) where
  pub apply_changes : EnvChanges → World B → Outcome B (Unit {0})
  unfolding append_cleanup set_changed unset_changed
  apply_changes changes w = append_cleanup sys changes.cleanup w then λ _ v.
      set_changed ops changes.set v then λ _. unset_changed ops changes.unset

module _ {B : Type 0} (ops : BusOps B) (sys : System) (host : Host) (prep : Preparation B) where
  started : Option Text → B → B
  started none b = b
  started (some unit) b = prep.start_unit unit b

  ensure_bindpid : Map Text → World B → World B
  unfolding started bindpid_unit
  ensure_bindpid env w = record w {
    bus =
        started
          (bindpid_unit
            (ops.list_units running_states (codes "wayland-session-bindpid@*.service" ∷ []) w.bus)
            env prep.leader)
          w.bus;
  }

  prepare_from : CompGlobals → Bool → Map Text → World B → Outcome B (Unit {0})
  unfolding begin_generation run_loader extend_map compute_changes apply_changes
  prepare_from comp have_login env_login w =
      asked (ops.state_ops.systemd_vars w.bus) w then λ env_pre v.
      begin_generation ops.state_ops sys env_pre prep.id v then λ _ u.
      asked (run_loader prep.shell comp (extend_map env_pre env_login) prep.mark have_login) u
      then λ env_post. apply_changes ops sys (compute_changes env_pre env_post)

  prepare_login : CompGlobals → Map Text → World B → Outcome B (Unit {0})
  unfolding forget deduce_session ensure_bindpid prepare_from
  prepare_login comp env_login w =
      deduce_session sys host prep.by_vt env_login
        (record w { disk = forget sys.dev env_login_path w.disk })
      then λ env v. prepare_from comp (not (is_empty env_login)) env (ensure_bindpid env v)

  unfoldable pub prepare_env : CompGlobals → World B → Outcome B (Unit {0})
  unfolding prepare_login load_env
  prepare_env comp w =
      asked (load_env env_login_path (w.disk env_login_path)) w then prepare_login comp
