-- ===== src/Cli.antt =====
-- src/main.rs: what the flags and the environment settle before a command is run. The flags are those
-- that the argument parser has read.
use wsmr.Base.{
  ℕ, zero, suc, ◌+◌, Bool, true, false, not, ◌||◌, Option, none, some, List, [], ◌∷◌, ◌++◌, ◌==◌,
  ltb, if◌then◌else◌, is_empty, map, within,
}
use wsmr.Base.Text.{Text, codes, text_eq, starts_with, split}
use wsmr.Error.{resolve, Result, ok, err, ◌>>=◌}
use wsmr.Util.{Host, parse_unsigned, unwrap_or, which}
use wsmr.App.Find.{Dirs}
use wsmr.Comp.{ResolveInput, CompGlobals}
use wsmr.Comp.Resolve.{resolve_comp}
use wsmr.Session.Start.{Rung, runtime, home, GstGate, disabled, warn, abort, StartOpts}
use wsmr.Session.Process.{split_whitespace}
use wsmr.Session.Check.{Reason, Verdict}

rung_of_env : Option Text → Rung
unfolding text_eq
rung_of_env none = runtime
rung_of_env (some s) = if text_eq s (codes "home") then home else runtime

-- Any other value than `run` and `home` is ignored, as `run` is the default.
unfoldable pub resolve_rung_with : Option Rung → Option Text → Rung
unfolding rung_of_env
resolve_rung_with (some r) env = r
resolve_rung_with none env = rung_of_env env

-- A signed integer: of a number that is not negative, and of `-1 - n`.
pub data Signed : Type 0 where
  pos negsuc : ℕ → Signed

is_positive : Signed → Bool
is_positive (pos n) = ltb 0 n
is_positive (negsuc n) = false

negated : ℕ → Signed
negated zero = pos zero
negated (suc n) = negsuc n

as_signed : (ℕ → Signed) → Option ℕ → Option Signed
as_signed f none = none
as_signed f (some n) = some (f n)

-- What follows the minus sign is digits alone, without a plus sign.
negative_digits : Text → Option ℕ
unfolding parse_unsigned
negative_digits [] = none
negative_digits (c ∷ s) =
    if c == b'+' then none else parse_unsigned 9_223_372_036_854_775_808 (c ∷ s)

-- `parse::<i64>()`
unfoldable pub parse_i64 : Text → Option Signed
unfolding parse_unsigned negative_digits as_signed negated
parse_i64 [] = none
parse_i64 (c ∷ s) =
    if c == b'-'
    then as_signed negated (negative_digits s)
    else as_signed (λ n. pos n) (parse_unsigned 9_223_372_036_854_775_807 (c ∷ s))

to_ascii_lowercase : Text → Text
to_ascii_lowercase s = map (λ (c : ℕ). if within b'A' b'Z' c then c + 32 else c) s

bool_word : Text → Option Bool
unfolding text_eq
bool_word s =
    if is_empty s || text_eq s (codes "no") || text_eq s (codes "false") || text_eq s (codes "n")
    then some false
    else if text_eq s (codes "yes") || text_eq s (codes "true") || text_eq s (codes "y")
    then some true
    else none

-- A number is true where it is positive; `none` is the rejection.
unfoldable pub str2bool_plus : Text → Option Bool
unfolding parse_i64 is_positive bool_word to_ascii_lowercase
str2bool_plus s = elim (parse_i64 s) [
  | some n ↦ some (is_positive n)
  | none ↦ bool_word (to_ascii_lowercase s)
]

or_bool : Bool → Option Bool → Bool
or_bool d none = d
or_bool d (some b) = b

tweaks_of_env : Option Text → Option Text → Bool
unfolding str2bool_plus or_bool
tweaks_of_env (some t) nt = or_bool true (str2bool_plus t)
tweaks_of_env none (some nt) = not (or_bool false (str2bool_plus nt))
tweaks_of_env none none = true

unfoldable pub resolve_tweaks_with : Bool → Bool → Option Text → Option Text → Bool
unfolding tweaks_of_env
resolve_tweaks_with no_tweaks tweaks t_env nt_env =
    if tweaks then true else if no_tweaks then false else tweaks_of_env t_env nt_env

-- A negative number of seconds disables its gate.
unfoldable pub resolve_gst_gate : Signed → Signed → GstGate
resolve_gst_gate warn_seconds (pos n) = abort n
resolve_gst_gate (pos m) (negsuc n) = warn m
resolve_gst_gate (negsuc m) (negsuc n) = disabled

or_not_found : Option Text → Result Text
or_not_found none = err resolve
or_not_found (some p) = ok p

-- The command line with its program by its path.
hardcoded : Host → List Text → Result (List Text)
unfolding or_not_found which starts_with
hardcoded host [] = ok []
hardcoded host (first ∷ rest) =
    if starts_with (codes "/") first
    then ok (first ∷ rest)
    else or_not_found (which host first) >>= λ p. ok (p ∷ rest)

unfoldable pub apply_hardcode : Host → CompGlobals → Bool → Result CompGlobals
unfolding hardcoded
apply_hardcode host comp false = ok comp
apply_hardcode host comp true =
    hardcoded host comp.cmdline >>= λ cmdline. ok (record comp { cmdline = cmdline })

-- Unlike elsewhere, empty parts are kept.
unfoldable pub split_colon : Text → List Text
unfolding split
split_colon s = if is_empty s then [] else split b':' s

-- The flags that `start` and the auxiliary commands share.
pub record CompArgs : Type 0 where
  pub wm_cmdline : List Text
  pub desktop_names : Option Text
  pub desktop_names_exclusive : Bool
  pub wm_name : Option Text
  pub wm_comment : Option Text

unfoldable pub resolve_input : Host → List Text → CompArgs → ResolveInput
unfolding split_colon unwrap_or
resolve_input host cmdline args = record {
  wm_cmdline = cmdline;
  desktop_names = split_colon (unwrap_or [] args.desktop_names);
  desktop_names_exclusive = args.desktop_names_exclusive;
  name = args.wm_name;
  description = args.wm_comment;
  xdg_current_desktop = split_colon (unwrap_or [] (host.env_var (codes "XDG_CURRENT_DESKTOP")));
}

-- The command line of an auxiliary command, whose program may be left to the id.
aux_cmdline : Text → List Text → List Text
aux_cmdline wm_id [] = wm_id ∷ []
aux_cmdline wm_id (c ∷ cs) = if is_empty c then wm_id ∷ cs else c ∷ cs

unfoldable pub resolve_aux : Host → Dirs → Text → CompArgs → Result CompGlobals
unfolding resolve_comp resolve_input aux_cmdline
resolve_aux host dirs wm_id args =
    resolve_comp host dirs (resolve_input host (aux_cmdline wm_id args.wm_cmdline) args)

pub record StartArgs : Type 0 where
  pub comp : CompArgs
  pub hardcode : Bool
  pub only_generate : Bool
  pub dry_run : Bool
  pub unit_rung : Option Rung
  pub gst_warn_seconds : Signed
  pub gst_abort_seconds : Signed
  pub no_tweaks : Bool
  pub tweaks : Bool

start_opts : Host → StartArgs → Text → StartOpts
unfolding resolve_rung_with resolve_gst_gate resolve_tweaks_with
start_opts host args bin_path = record {
  only_generate = args.only_generate;
  dry_run = args.dry_run;
  rung = resolve_rung_with args.unit_rung (host.env_var (codes "UWSM_UNIT_RUNG"));
  gst_gate = resolve_gst_gate args.gst_warn_seconds args.gst_abort_seconds;
  tweaks =
      resolve_tweaks_with args.no_tweaks args.tweaks (host.env_var (codes "UWSM_TWEAKS"))
        (host.env_var (codes "UWSM_NO_TWEAKS"));
  bin_path = bin_path;
}

-- The compositor and the options of `start`; `exe` is the answer of `current_exe`.
unfoldable pub start : Host → Dirs → Result Text → StartArgs → Result (CompGlobals × StartOpts)
unfolding resolve_comp resolve_input apply_hardcode start_opts
start host dirs exe args =
    resolve_comp host dirs (resolve_input host args.comp.wm_cmdline args.comp) >>= λ comp.
    apply_hardcode host comp args.hardcode >>= λ hard.
    exe >>= λ bin_path. ok (hard, start_opts host args bin_path)

-- The names that `finalize` is given.
unfoldable pub finalize_names : Host → List Text → List Text
unfolding split_whitespace unwrap_or
finalize_names host env_names =
    env_names ++ split_whitespace (unwrap_or [] (host.env_var (codes "UWSM_FINALIZE_VARNAMES")))

-- The terminals that `check may-start` takes, and the messages that it prints where it refuses.
unfoldable pub vtnr_or_one : List ℕ → List ℕ
vtnr_or_one [] = 1 ∷ []
vtnr_or_one (v ∷ vs) = v ∷ vs

unfoldable pub shown_reasons : Bool → Bool → Verdict → List Reason
shown_reasons quiet verbose v =
    if quiet
    then []
    else if verbose
    then v.errors ++ v.visible ++ v.silent
    else v.errors ++ v.visible
