-- ===== src/App/Launch/Target/Command.antt =====
-- The command line of `systemd-run` carries that of the application behind its first `--`.
use wsmr.Base.{
  ℕ, suc, Bool, true, false, not, Option, none, some, List, [], ◌∷◌, ◌++◌, if◌then◌else◌, ◌≡◌, refl,
  ◌∙◌, ap, sym, All, All-append, map, ltb, length, any,
}
use wsmr.Base.Text.{Text, codes, text_eq, contains_char}
use wsmr.Error.{invalid_arg, Result, ok, err, ◌>>=◌, >>=-eq-ok}
use wsmr.Util.{Host}
use wsmr.App.Find.{Dirs}
use wsmr.App.Launch.{
  UnitType, scope, service, Silence, out, err_out, both, AppOpts, LaunchSpec, setenv_words,
  silence_words, type_words, property_words, workdir_word, run_words, build_argv, resolve_slice,
  first_desktop,
}
use wsmr.App.Launch.Target.{
  Resolved, Terminals, resolve_target, wrap_cmdlines, name_for, spec_for, argvs_from, argvs_of,
  resolve_launch,
}

-- What `systemd-run` runs: the words behind the first `--`.
pub after_separator : List Text → Option (List Text)
unfolding text_eq
after_separator [] = none
after_separator (w ∷ ws) =
    let later = after_separator ws in if text_eq w (codes "--") then some ws else later

abbrev IsOption : Text → Type 0
IsOption w = text_eq w (codes "--") ≡ false

after_separator-append :
    (ws cmd : List Text) → All IsOption ws → after_separator (ws ++ codes "--" ∷ cmd) ≡ some cmd
unfolding after_separator
after_separator-append [] cmd h = unfold text_eq in refl
after_separator-append (w ∷ ws) cmd (h, hs) = rw h (after_separator-append ws cmd hs)

setenv_words-IsOption : (vars : List (Text × Text)) → All IsOption (setenv_words vars)
unfolding setenv_words text_eq
setenv_words-IsOption [] = tt
setenv_words-IsOption ((k, v) ∷ vars) = (refl, setenv_words-IsOption vars)

silence_words-IsOption : (s : Option Silence) → All IsOption (silence_words s)
unfolding silence_words text_eq
silence_words-IsOption none = tt
silence_words-IsOption (some out) = (refl, tt)
silence_words-IsOption (some err_out) = (refl, tt)
silence_words-IsOption (some both) = (refl, (refl, tt))

type_words-IsOption :
    (t : UnitType) (vars : List (Text × Text)) (s : Option Silence)
    → All IsOption (type_words t vars s)
unfolding type_words text_eq
type_words-IsOption scope vars s = (refl, tt)
type_words-IsOption service vars s = (
  refl,
  (
    refl,
    All-append IsOption (setenv_words vars) (silence_words s) (setenv_words-IsOption vars)
        (silence_words-IsOption s),
  ),
)

property_words-IsOption : (ps : List Text) → All IsOption (property_words ps)
unfolding property_words text_eq
property_words-IsOption [] = tt
property_words-IsOption (p ∷ ps) = (refl, property_words-IsOption ps)

workdir_word-IsOption : (d : Option Text) → IsOption (workdir_word d)
unfolding workdir_word text_eq
workdir_word-IsOption none = refl
workdir_word-IsOption (some d) = refl

run_words-IsOption : (spec : LaunchSpec) → All IsOption (run_words spec)
unfolding run_words text_eq
run_words-IsOption spec =
    let typed = type_words-IsOption spec.unit_type spec.session_setenv spec.silent in
    (
      refl,
      (
        refl,
        All-append IsOption
            (type_words spec.unit_type spec.session_setenv spec.silent
              ++ property_words spec.properties)
            _
            (All-append IsOption (type_words spec.unit_type spec.session_setenv spec.silent)
              (property_words spec.properties) typed (property_words-IsOption spec.properties))
            (refl, (refl, (refl, (refl, (refl, (workdir_word-IsOption spec.workdir, tt)))))),
      ),
    )

build_argv-command : (spec : LaunchSpec) → after_separator (build_argv spec) ≡ some spec.cmdline
unfolding build_argv
build_argv-command spec =
    after_separator-append (run_words spec) spec.cmdline (run_words-IsOption spec)

-- The command lines that are run are those, in their order.
abbrev Runs : List (List Text) → List (List Text) → Type 0
Runs argvs cmds = map after_separator argvs ≡ map (λ (c : List Text). some c) cmds

shown : Result (List (List Text)) → List (Option (List Text))
unfolding after_separator
shown (ok argvs) = map after_separator argvs
shown (err e) = []

argvs_from-Runs :
    (host : Host) (opts : AppOpts) (hex : ℕ → Text) (r : Resolved) (slice : Text) (several : Bool)
    (n : ℕ) (cmds argvs : List (List Text))
    → argvs_from host opts hex r slice several n cmds ≡ ok argvs
    → Runs argvs cmds
unfolding argvs_from shown
argvs_from-Runs host opts hex r slice several n [] argvs h = ap shown (sym h)
argvs_from-Runs host opts hex r slice several n (cmd ∷ cmds) argvs h =
    let (unit_name, hn, h') =
      >>=-eq-ok (name_for opts (first_desktop host) r several cmd (hex n)) _ h in
    let (rest, hr, h'') = >>=-eq-ok (argvs_from host opts hex r slice several (suc n) cmds) _ h' in
    ap shown (sym h'')
    ∙ ap (λ (o : Option (List Text)). o ∷ map after_separator rest)
        (build_argv-command (spec_for host opts r slice cmd unit_name))
    ∙ ap (λ (l : List (Option (List Text))). some cmd ∷ l)
        (argvs_from-Runs host opts hex r slice several (suc n) cmds rest hr)

argvs_of-Runs :
    (host : Host) (opts : AppOpts) (hex : ℕ → Text) (r : Resolved) (cmds argvs : List (List Text))
    → argvs_of host opts hex r cmds ≡ ok argvs
    → Runs argvs cmds
unfolding argvs_of
argvs_of-Runs host opts hex r cmds argvs h =
    let (slice, hs, h') = >>=-eq-ok (resolve_slice opts.slice) _ h in
    argvs_from-Runs host opts hex r slice (ltb 1 (length cmds)) 0 cmds argvs h'

-- Where a launch is resolved, each unit property has a `=`, the target was resolved and wrapped in
-- the terminal's command where one is wanted, and the command lines of `systemd-run` are one for each
-- command line of the target, in their order, with exactly that command line behind the first `--`.
pub resolve_launch-Runs :
    (host : Host) (dirs : Dirs) (terminals : Terminals) (hex : ℕ → Text) (opts : AppOpts)
    (argvs : List (List Text))
    → resolve_launch host dirs terminals hex opts ≡ ok argvs
    → (any (λ p. not (contains_char b'=' p)) opts.unit_properties ≡ false)
      × ((r : Resolved) × (cmds : List (List Text)) × (resolve_target host dirs opts ≡ ok r)
          × (wrap_cmdlines terminals r ≡ ok cmds)
          × (map after_separator argvs ≡ map (λ (c : List Text). some c) cmds))
unfolding resolve_launch
resolve_launch-Runs host dirs terminals hex opts argvs h =
    go (any (λ p. not (contains_char b'=' p)) opts.unit_properties) refl h
  where
    go :
        (malformed : Bool)
        → any (λ p. not (contains_char b'=' p)) opts.unit_properties ≡ malformed
        → (if malformed
            then err invalid_arg
            else resolve_target host dirs opts >>= λ r.
                wrap_cmdlines terminals r >>= λ cmdlines. argvs_of host opts hex r cmdlines)
          ≡ ok argvs
        → (any (λ p. not (contains_char b'=' p)) opts.unit_properties ≡ false)
          × ((r : Resolved) × (cmds : List (List Text)) × (resolve_target host dirs opts ≡ ok r)
              × (wrap_cmdlines terminals r ≡ ok cmds)
              × (map after_separator argvs ≡ map (λ (c : List Text). some c) cmds))
    go true e k = cc
    go false e k =
        let (r, hr, k') = >>=-eq-ok (resolve_target host dirs opts) _ k in
        let (cmds, hc, k'') = >>=-eq-ok (wrap_cmdlines terminals r) _ k' in
        (e, (r, cmds, hr, hc, argvs_of-Runs host opts hex r cmds argvs k''))
