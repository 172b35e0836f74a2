-- ===== src/Session/State/Begin.antt =====
-- The begin of a generation: what the state files hold afterwards.
use mathlib.Core.Path.{subst, sym}
use wsmr.Base.{true, false, some, [], ◌∷◌, ◌++◌, ◌≡◌, refl, ◌∙◌, ap, is_empty}
use wsmr.Base.Text.{Text, text_eq, trim}
use wsmr.Base.Maps.{Map}
use wsmr.Base.Maps.Order.{IsOrdered}
use wsmr.Error.{ok, err}
use wsmr.Disk.{content, Disk, put, can_write}
use wsmr.Disk.Laws.{put_self, put_other}
use wsmr.Env.Filter.{filter_map}
use wsmr.Env.Files.{
  nul, serialize_env, load_env, read_cleanup_entries, render_cleanup_entries, parse_cleanup_entries,
}
use wsmr.Env.Files.Snapshot.{ValuesAvoid, parse_env_nul-serialize_env}
use wsmr.Session.State.{
  StateOps, World, Outcome, System, generation_path, cleanup_path, env_pre_path, read_generation,
  write_file, establish, after_restore, restore_and_clear_locked, end_generation, begin_generation,
  non_empty,
}
use wsmr.Session.State.Cleanup.{write_file-ok, locked-ok}

-- The device lets the three state files be written.
abbrev pub IsWritableState : System → Type 0
IsWritableState sys =
    (can_write sys.dev generation_path ≡ true)
    × (can_write sys.dev env_pre_path ≡ true)
    × (can_write sys.dev cleanup_path ≡ true)

-- The disk with the state files of a new generation.
abbrev established : Text → Map Text → Disk → Disk
established id pre d = put cleanup_path (content (render_cleanup_entries [])) (
    put env_pre_path (content (serialize_env pre nul))
      (put generation_path (content (id ++ b'\n' ∷ [])) d))

-- What the state files read as.
abbrev pub HasState : Text → Map Text → Disk → Type 0
HasState id pre d =
    (read_generation (d generation_path) ≡ ok (some id))
    × (load_env env_pre_path (d env_pre_path) ≡ ok (filter_map pre))
    × (read_cleanup_entries cleanup_path (d cleanup_path) ≡ ok [])

module _ {B : Type 0} (sys : System) (can : IsWritableState sys) where
  establish-established :
      (pre : Map Text) (id : Text) (w : World B)
      → establish sys pre id w ≡ (record { disk = established id pre w.disk; bus = w.bus }, ok id)
  unfolding establish
  establish-established pre id w =
      let last : World B → Outcome B Text = λ x. (x, ok id) in
      let listing = render_cleanup_entries [] in
      let third : World B → Outcome B Text = write_file sys cleanup_path listing last in
      let snapshot = serialize_env pre nul in
      let first_disk = put generation_path (content (id ++ b'\n' ∷ [])) w.disk in
      let second_disk = put env_pre_path (content snapshot) first_disk in
      write_file-ok sys generation_path (id ++ b'\n' ∷ [])
        (write_file sys env_pre_path snapshot third) w can.0
      ∙ write_file-ok sys env_pre_path snapshot third (record { disk = first_disk; bus = w.bus })
          can.1
      ∙ write_file-ok sys cleanup_path listing last (record { disk = second_disk; bus = w.bus })
          can.2

  after_restore-ok :
      (pre : Map Text) (id : Text) (r : Outcome B (Unit {0}))
      → r.1 ≡ ok tt
      → after_restore sys pre id r ≡ establish sys pre id r.0
  unfolding after_restore
  after_restore-ok pre id (w, ok _) h = refl
  after_restore-ok pre id (w, err e) h = cc

read_generation-written :
    (id : Text)
    → trim (id ++ b'\n' ∷ []) ≡ id
    → is_empty id ≡ false
    → read_generation (content (id ++ b'\n' ∷ [])) ≡ ok (some id)
unfolding read_generation
read_generation-written id t n = rw t (unfold non_empty in rw n refl)

HasState-established :
    (id : Text) (pre : Map Text) (d : Disk)
    → trim (id ++ b'\n' ∷ []) ≡ id
    → is_empty id ≡ false
    → IsOrdered pre
    → ValuesAvoid 0 pre
    → HasState id pre (established id pre d)
HasState-established id pre d t n o v = (
  ap read_generation (
        put_other generation_path cleanup_path _ _ (unfold text_eq in refl)
        ∙ put_other generation_path env_pre_path _ _ (unfold text_eq in refl)
        ∙ put_self generation_path (content (id ++ b'\n' ∷ [])) d)
      ∙ read_generation-written id t n,
  ap (load_env env_pre_path) (
        put_other env_pre_path cleanup_path _ _ (unfold text_eq in refl)
        ∙ put_self env_pre_path (content (serialize_env pre nul)) _)
      ∙ unfold load_env in ap (λ (m : Map Text). ok m) (parse_env_nul-serialize_env pre o v),
  ap (read_cleanup_entries cleanup_path)
        (put_self cleanup_path (content (render_cleanup_entries [])) _)
      ∙ unfold read_cleanup_entries parse_cleanup_entries render_cleanup_entries in refl,
)

module _ {B : Type 0} (ops : StateOps B) (sys : System) (pre : Map Text) (id : Text) (w : World B)
    (l : sys.lock ≡ ok tt) (can : IsWritableState sys)
    (ended : (end_generation ops sys w).1 ≡ ok tt) where
  begin_generation-established : begin_generation ops sys pre id w ≡ (
    record {
      disk = established id pre (restore_and_clear_locked ops sys w).0.disk;
      bus = (restore_and_clear_locked ops sys w).0.bus;
    },
    ok id,
  )
  unfolding begin_generation end_generation
  begin_generation-established =
      let restored = restore_and_clear_locked ops sys w in
      let fine : restored.1 ≡ ok tt =
        ap (λ (r : Outcome B (Unit {0})). r.1)
          (sym (locked-ok sys (restore_and_clear_locked ops sys) w l))
        ∙ ended in
      locked-ok sys (λ u. after_restore sys pre id (restore_and_clear_locked ops sys u)) w l
      ∙ after_restore-ok sys can pre id restored fine
      ∙ establish-established sys can pre id restored.0

  -- On the other side, the begin of a generation is the end of what an earlier session has left.
  pub begin_generation-bus :
      (begin_generation ops sys pre id w).0.bus ≡ (end_generation ops sys w).0.bus
  unfolding end_generation
  begin_generation-bus =
      ap (λ (r : Outcome B Text). r.0.bus) begin_generation-established
      ∙ ap (λ (r : Outcome B (Unit {0})). r.0.bus)
          (sym (locked-ok sys (restore_and_clear_locked ops sys) w l))

-- Where the end of what an earlier session has left succeeds and the state files can be written,
-- `begin_generation` succeeds with its new id; and then the id is on record, the snapshot loads as
-- the given variables, less those whose names are not kept, and the cleanup list is empty. The id is
-- not empty and has no white space around it, and no value of a variable has a NUL.
pub begin_generation-HasState :
    {B : Type 0} (ops : StateOps B) (sys : System) (pre : Map Text) (id : Text) (w : World B)
    → sys.lock ≡ ok tt
    → IsWritableState sys
    → (end_generation ops sys w).1 ≡ ok tt
    → trim (id ++ b'\n' ∷ []) ≡ id
    → is_empty id ≡ false
    → IsOrdered pre
    → ValuesAvoid 0 pre
    → ((begin_generation ops sys pre id w).1 ≡ ok id)
      × HasState id pre ((begin_generation ops sys pre id w).0.disk)
begin_generation-HasState {B} ops sys pre id w l can ended t n o v =
    let e = begin_generation-established ops sys pre id w l can ended in
    (
      ap (λ (r : Outcome B Text). r.1) e,
      subst (λ (r : Outcome B Text). HasState id pre r.0.disk) (sym e)
          (HasState-established id pre (restore_and_clear_locked ops sys w).0.disk t n o v),
    )
