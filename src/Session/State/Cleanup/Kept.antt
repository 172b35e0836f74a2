-- ===== src/Session/State/Cleanup/Kept.antt =====
-- What `append_cleanup` leaves of the state files: a generation on record and a list that can be read,
-- with the snapshot as it was.
use wsmr.Base.{Bool, true, false, ◌&&◌, ◌||◌, some, List, ◌≡◌, refl, ◌∙◌, sym, ap, All}
use wsmr.Base.Text.{Text, text_eq}
use wsmr.Base.Sets.{member, text_key, All-members, member-All}
use wsmr.Error.{ok}
use wsmr.Disk.{content, Disk, put, can_write}
use wsmr.Disk.Laws.{put_self, put_other}
use wsmr.Env.Filter.{keep_name}
use wsmr.Env.Files.{
  CleanupEntry, entry_key, read_cleanup_entries, render_cleanup_entries, parse_cleanup_entries,
}
use wsmr.Env.Files.CleanupList.{IsWritable, parse_cleanup_entries-render}
use wsmr.Session.State.{
  World, System, generation_path, cleanup_path, env_pre_path, read_generation, add_names,
  save_entries, append_for, append_read, append_cleanup,
}
use wsmr.Session.State.Cleanup.{
  IsEstablished, IsGeneration, write_file-ok, locked-ok, add_names-IsWritable, add_names-unflagged,
  add_names-member,
}

-- The list on the disk after a run, with an entry on it exactly where the test says so, and the other
-- state files as they were.
pub record Appended (g : Text) (on_list : CleanupEntry → Bool) (before after : Disk) : Type 0 where
  pub es : List CleanupEntry
  pub established : IsEstablished g es after
  pub on_list_iff : (e : CleanupEntry) → member e es ≡ on_list e
  pub same_snapshot : after env_pre_path ≡ before env_pre_path

module _ (g : Text) (tagged : IsGeneration g) where
  put-Appended :
      (es : List CleanupEntry) (d : Disk)
      → read_generation (d generation_path) ≡ ok (some g)
      → All IsWritable es
      → Appended g (λ e. member e es) d (put cleanup_path (content (render_cleanup_entries es)) d)
  put-Appended es d on_record h =
      let rs = parse_cleanup_entries (render_cleanup_entries es) in
      let same : (e : CleanupEntry) → member e rs ≡ member e es =
        λ e. parse_cleanup_entries-render es e h in
      record {
        es = rs;
        established = record {
          on_record =
              ap read_generation
                (put_other generation_path cleanup_path _ _ (unfold text_eq in refl))
              ∙ on_record;
          listed =
              ap (read_cleanup_entries cleanup_path)
                (put_self cleanup_path (content (render_cleanup_entries es)) d)
              ∙ unfold read_cleanup_entries in refl;
          writable =
              All-members IsWritable rs (λ e m. member-All IsWritable es e h (sym (same e) ∙ m));
          tagged = tagged;
        };
        on_list_iff = same;
        same_snapshot = put_other env_pre_path cleanup_path _ _ (unfold text_eq in refl);
      }

relisted :
    {g : Text} {p q : CleanupEntry → Bool} {before after : Disk}
    → ((e : CleanupEntry) → p e ≡ q e)
    → Appended g p before after
    → Appended g q before after
relisted same a = record {
  es = a.es;
  established = a.established;
  on_list_iff = λ e. a.on_list_iff e ∙ same e;
  same_snapshot = a.same_snapshot;
}

module _ {B : Type 0} (sys : System) (g : Text) (tagged : IsGeneration g) where
  save_entries-Appended :
      (added : Bool) (es old : List CleanupEntry) (w : World B)
      → can_write sys.dev cleanup_path ≡ true
      → IsEstablished g old w.disk
      → All IsWritable es
      → (added ≡ false → es ≡ old)
      → Appended g (λ e. member e es) w.disk ((save_entries sys added es w).0.disk)
  unfolding save_entries
  save_entries-Appended false es old w can h writable same = record {
    es = old;
    established = h;
    on_list_iff = λ e. ap (member e) (sym (same refl));
    same_snapshot = refl;
  }
  save_entries-Appended true es old w can h writable same =
      rw (write_file-ok sys cleanup_path (render_cleanup_entries es) (λ v. (v, ok tt)) w can)
        (put-Appended g tagged es w.disk h.on_record writable)

  -- What `append_cleanup` leaves on the disk where it may proceed.
  pub append_cleanup-Appended :
      (names : List Text) (es : List CleanupEntry) (w : World B)
      → sys.lock ≡ ok tt
      → can_write sys.dev cleanup_path ≡ true
      → IsEstablished g es w.disk
      → Appended g
          (λ e. member e es || (text_eq g e.generation && keep_name e.name && member e.name names))
          w.disk
          ((append_cleanup sys names w).0.disk)
  unfolding append_cleanup append_for append_read
  append_cleanup-Appended names es w l can h =
      let added = add_names g names (es, false) in
      let listed = λ (e : CleanupEntry).
        member e es || (text_eq g e.generation && keep_name e.name && member e.name names) in
      rw
        (locked-ok sys (λ v. append_for sys names (read_generation (v.disk generation_path)) v) w l)
        (rw h.on_record (
          rw h.listed (
            relisted (add_names-member g names es false) (
              save_entries-Appended added.1 added.0 es w can h
                (add_names-IsWritable g names es false tagged h.writable)
                (add_names-unflagged g names es)))))
