-- ===== src/Tests/Session.antt =====
-- src/session: a session whose state is on the disk, and a manager that keeps its variables in a map.
use wsmr.Base.{
  true, false, ◌&&◌, ◌||◌, Option, none, some, [], ◌∷◌, ◌++◌, ◌≡◌, refl, ◌∙◌, sym, ap, inl, arith,
  if◌then◌else◌,
}
use wsmr.Base.Text.{text_lt, Text, codes, text_eq, trim, trim_start, trim_end, is_whitespace}
use wsmr.Base.Maps.{Map, lookup}
use wsmr.Base.Sets.{member, text_key}
use wsmr.Error.{Error, io, ok, err, ok_injective}
use wsmr.Disk.{missing, unreadable, content, Disk, Device, can_write}
use wsmr.Env.Filter.{keep_name, filter_map}
use wsmr.Env.Filter.Laws.{lookup-filter_map}
use wsmr.Env.Delta.{remove_all}
use wsmr.Env.Delta.Laws.{lookup-remove_all}
use wsmr.Env.Files.{CleanupEntry, entry_key, read_cleanup_entries, load_env}
use wsmr.Session.Check.{CheckOpts, Probes, may_start, check_may_start_with}
use wsmr.Session.Check.Laws.{meets_conditions, may_start-check_may_start_with}
use wsmr.Session.State.{
  begin_generation, StateOps, World, System, generation_path, env_pre_path, cleanup_path,
  read_generation, append_cleanup, end_generation,
}
use wsmr.Session.State.Cleanup.{IsGeneration, Listed, append_cleanup-Listed, append_cleanup-err}
use wsmr.Session.State.Begin.{HasState, begin_generation-HasState}
use wsmr.Base.Maps.Order.{IsOrdered}
use wsmr.Session.State.Manager.{IsManager, CallFails, asking, unsetting, setting}
use wsmr.Session.State.Restore.{
  finished, failed, after_end, end_generation-view, end_generation-unreadable,
}

abbrev pub able : Device
able = record {
  parent = λ _. codes "/run/user";
  temp_path = λ p. codes "." ++ p ++ codes ".wsmr-tmp";
  can_create_parent = λ _. true;
  can_write_temp = λ _. true;
  can_rename = λ _. true;
  can_remove = λ _. true;
}

abbrev pub system : System
system = record { dev = able; lock = ok tt; dir_entries = λ _. codes "vars_1" ∷ [] }

abbrev pub manager : StateOps (Map Text)
manager = record {
  systemd_vars = λ b. ok (filter_map b);
  set_systemd_vars = λ m b. (m ++ b, ok tt);
  unset_systemd_vars = λ names b. (remove_all b names, ok tt);
}

abbrev pub view : Map Text → Text → Option Text
view b k = lookup k b

pub lookup-append :
    (m b : Map Text) (k : Text)
    → lookup k (m ++ b) ≡ elim (lookup k m) [ none ↦ lookup k b | some v ↦ some v ]
unfolding lookup
lookup-append [] b k = refl
lookup-append ((j, v) ∷ m) b k = ground (arith, lookup-append m b k)

pub manager-IsManager : IsManager manager view
manager-IsManager = record {
  vars_view = λ b m k h. ap (lookup k) (sym (ok_injective h)) ∙ lookup-filter_map b k;
  unset_view = λ names b k kept. inl (refl, lookup-remove_all b names k);
  set_view = λ m b k h. inl (refl, lookup-append m b k);
}

abbrev pub disk : Disk
disk p =
    if text_eq generation_path p
    then content (codes "00ff")
    else if text_eq cleanup_path p
    then missing
    else if text_eq env_pre_path p
    then missing
    else missing

abbrev pub world : World (Map Text)
world = record {
  disk = disk;
  bus = (codes "DISPLAY", codes ":1") ∷ (codes "SHELL", codes "/bin/sh") ∷ [];
}

pub on_record : read_generation (disk generation_path) ≡ ok (some (codes "00ff"))
unfolding read_generation trim trim_start trim_end is_whitespace text_eq
on_record = refl

pub listed : read_cleanup_entries cleanup_path (disk cleanup_path) ≡ ok []
unfolding read_cleanup_entries text_eq
listed = refl

pub loaded : load_env env_pre_path (disk env_pre_path) ≡ ok []
unfolding load_env text_eq
loaded = refl

abbrev unreadable_world : World (Map Text)
unreadable_world = record {
  disk = λ p. if text_eq env_pre_path p then unreadable else disk p;
  bus = world.bus;
}

end_generation-unreadable_example :
    ((end_generation manager system unreadable_world).0 ≡ unreadable_world)
    × ((x : Error) × ((end_generation manager system unreadable_world).1 ≡ err x))
end_generation-unreadable_example =
    end_generation-unreadable manager system unreadable_world (unfold text_eq in refl)

pub tagged : IsGeneration (codes "00ff")
tagged n h = record {
  generation_ne_nil = refl;
  no_space = omega arith;
  no_newline = omega arith;
  no_return = omega arith;
  kept = h;
}

abbrev entry : CleanupEntry
entry = record { generation = codes "00ff"; name = codes "LANG" }

append_cleanup-Listed_example :
    ((append_cleanup system (codes "LANG" ∷ []) world).1 ≡ ok tt)
    × Listed entry
        (member entry []
          || (text_eq (codes "00ff") (codes "00ff")
              && keep_name (codes "LANG")
              && member (codes "LANG") (codes "LANG" ∷ [])))
        ((append_cleanup system (codes "LANG" ∷ []) world).0.disk)
append_cleanup-Listed_example =
    append_cleanup-Listed system entry (codes "LANG" ∷ []) (codes "00ff") [] world refl
      (unfold can_write in refl)
      (record { on_record = on_record; listed = listed; writable = tt; tagged = tagged })

abbrev locked_out : System
locked_out = record { dev = able; lock = err (io (codes "state.lock")); dir_entries = λ _. [] }

append_cleanup-err_example : (append_cleanup locked_out (codes "LANG" ∷ []) world).0 ≡ world
append_cleanup-err_example =
    append_cleanup-err locked_out (io (codes "state.lock")) (codes "LANG" ∷ []) world
      (unfold append_cleanup in refl)

abbrev opts : CheckOpts
opts = record {
  no_login = false;
  vtnr = 1 ∷ [];
  allow_remote = false;
  gst_seconds = 60;
  verbose = false;
}

abbrev probes : Probes
probes = record {
  is_root = false;
  dbus_session_present = true;
  parent_cmdline = ok (codes "-bash");
  compositor_active = ok false;
  foreground_vt = ok 2;
  session_id = codes "1";
  connect_system = ok tt;
  session_vtnr = λ _. ok 1;
  session_remote = λ _. ok false;
  graphical_target_reached = λ _. ok true;
}

may_start-check_may_start_with_example :
    may_start (check_may_start_with opts probes) ≡ meets_conditions opts probes
may_start-check_may_start_with_example = may_start-check_may_start_with opts probes

abbrev variables : Map Text
variables = (codes "LANG", codes "C") ∷ (codes "PWD", codes "/") ∷ []

variables-IsOrdered : IsOrdered variables
unfolding text_lt
variables-IsOrdered = ((refl, tt), (tt, tt))

-- No call of the manager fails.
no_failure : {e : Error} {pre : Map Text} → CallFails manager pre world.bus e → ⊥
no_failure (asking h) = cc
no_failure (unsetting names h) = cc
no_failure (setting c h) = cc

pub world_ends :
    (k : Text)
    → ((end_generation manager system world).1 ≡ ok tt)
      × (view ((end_generation manager system world).0.bus) k
          ≡ after_end [] (codes "00ff") [] (view world.bus) k)
world_ends k =
    elim (end_generation-view manager view manager-IsManager system (codes "00ff") [] [] world k
      refl on_record listed loaded) [
        | finished done now ↦ (done, now)
        | failed e bad why same now ↦ absurd (no_failure why)
      ]

pub ended : (end_generation manager system world).1 ≡ ok tt
ended = (world_ends (codes "DISPLAY")).0

begin_generation-HasState_example :
    ((begin_generation manager system variables (codes "00aa") world).1 ≡ ok (codes "00aa"))
    × HasState
        (codes "00aa")
        variables
        ((begin_generation manager system variables (codes "00aa") world).0.disk)
begin_generation-HasState_example =
    begin_generation-HasState manager system variables (codes "00aa") world refl
      (unfold can_write in (refl, refl, refl)) ended
      (unfold trim trim_start trim_end is_whitespace in refl) refl variables-IsOrdered
      (omega arith, (omega arith, tt))
