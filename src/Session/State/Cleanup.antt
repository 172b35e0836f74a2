-- ===== src/Session/State/Cleanup.antt =====
-- The cleanup list: what a process records under the generation of the session, and what it leaves.
pub mod Kept
use wsmr.Base.{
  Bool, true, false, not, ◌&&◌, ◌||◌, Option, none, some, List, [], ◌∷◌, ◌≡◌, refl, ◌∙◌, sym, ap,
  arith, All, Bool-cases, inl, inr,
}
use wsmr.Base.Text.{Text, text_eq, text_eq_iff}
use wsmr.Base.Sets
use wsmr.Base.Sets.{member, text_key, member-insert}
use wsmr.Error.{Error, Result, ok, err}
use wsmr.Disk.{content, Disk, put, can_write, atomic_write}
use wsmr.Disk.Laws.{atomic_write-ok, put_self}
use wsmr.Env.Filter.{keep_name}
use wsmr.Env.Files.{
  CleanupEntry, entry_key, entry_same_iff, read_cleanup_entries, render_cleanup_entries,
  parse_cleanup_entries,
}
use wsmr.Env.Files.CleanupList.{IsWritable, parse_cleanup_entries-render}
use wsmr.Session.State.{
  World, Outcome, System, generation_path, cleanup_path, read_generation, add_names, write_file,
  written, run_locked, save_entries, append_read, append_for, append_cleanup, locked,
}

abbrev entry : Text → Text → CleanupEntry
entry g n = record { generation = g; name = n }

-- An entry is there after the loop where it was, or where it is of this generation and asked for.
add_names-member :
    (g : Text) (ns : List Text) (es : List CleanupEntry) (b : Bool) (e : CleanupEntry)
    → member e ((add_names g ns (es, b)).0)
      ≡ (member e es || (text_eq g e.generation && keep_name e.name && member e.name ns))
unfolding add_names
add_names-member g [] es b e = ground arith
add_names-member g (n ∷ ns) es b e = ground (
  arith,
  text_eq_iff n e.name,
  text_eq_iff g e.generation,
  entry_same_iff (entry g n) e,
  member-insert (entry g n) e es,
  add_names-member g ns (Sets.insert (entry g n) es) true e,
  add_names-member g ns es b e,
)

add_names-flagged :
    (g : Text) (ns : List Text) (es : List CleanupEntry) → (add_names g ns (es, true)).1 ≡ true
unfolding add_names
add_names-flagged g [] es = refl
add_names-flagged g (n ∷ ns) es =
    ground (arith, add_names-flagged g ns (Sets.insert (entry g n) es), add_names-flagged g ns es)

-- The loop leaves the flag down only where it has added nothing.
add_names-unflagged :
    (g : Text) (ns : List Text) (es : List CleanupEntry)
    → (add_names g ns (es, false)).1 ≡ false
    → (add_names g ns (es, false)).0 ≡ es
unfolding add_names
add_names-unflagged g [] es h = refl
add_names-unflagged g (n ∷ ns) es h =
    elim (Bool-cases (keep_name n && not (member (entry g n) es))) [
      | inl more ↦
          absurd (ground (arith, h, more, add_names-flagged g ns (Sets.insert (entry g n) es)))
      | inr same ↦ rw same (add_names-unflagged g ns es (ground (arith, h, same)))
    ]

All-insert :
    (P : CleanupEntry → Type 0) (e : CleanupEntry) (es : List CleanupEntry)
    → P e
    → All P es
    → All P (Sets.insert e es)
unfolding Sets.insert
All-insert P e [] p h = (p, tt)
All-insert P e (c ∷ es) p (q, h) = elim (Bool-cases (entry_key.same c e)) [
  | inl same ↦ rw same (q, h)
  | inr other ↦ rw other (elim (Bool-cases (entry_key.before e c)) [
    | inl before ↦ rw before (p, (q, h))
    | inr after ↦ rw after (q, All-insert P e es p h)
  ])
]

-- What a generation and a name need so that the entry can be written and read back.
abbrev pub IsGeneration : Text → Type 0
IsGeneration g = (n : Text) → keep_name n ≡ true → IsWritable (entry g n)

add_names-IsWritable :
    (g : Text) (ns : List Text) (es : List CleanupEntry) (b : Bool)
    → IsGeneration g
    → All IsWritable es
    → All IsWritable ((add_names g ns (es, b)).0)
unfolding add_names
add_names-IsWritable g [] es b w h = h
add_names-IsWritable g (n ∷ ns) es b w h = elim (Bool-cases (keep_name n)) [
  | inl kept ↦ rw kept (elim (Bool-cases (member (entry g n) es)) [
    | inl there ↦ rw there (add_names-IsWritable g ns es b w h)
    | inr new' ↦ rw new' (
        add_names-IsWritable g ns (Sets.insert (entry g n) es) true w
          (All-insert IsWritable (entry g n) es (w n kept) h))
  ])
  | inr dropped ↦ rw dropped (add_names-IsWritable g ns es b w h)
]

-- What `append_cleanup` finds when it may proceed: a generation on record, and a list it can read.
pub record IsEstablished (g : Text) (es : List CleanupEntry) (d : Disk) : Type 0 where
  pub on_record : read_generation (d generation_path) ≡ ok (some g)
  pub listed : read_cleanup_entries cleanup_path (d cleanup_path) ≡ ok es
  pub writable : All IsWritable es
  pub tagged : IsGeneration g

-- The cleanup list on the disk can be read, and whether `e` is on it is `b`.
abbrev pub Listed : CleanupEntry → Bool → Disk → Type 0
Listed e b d =
    (es : List CleanupEntry) × (read_cleanup_entries cleanup_path (d cleanup_path) ≡ ok es)
    × (member e es ≡ b)

pub write_file-ok :
    {B A : Type 0} (sys : System) (p c : Text) (k : World B → Outcome B A) (w : World B)
    → can_write sys.dev p ≡ true
    → write_file sys p c k w ≡ k (record { disk = put p (content c) w.disk; bus = w.bus })
unfolding write_file written
write_file-ok sys p c k w can = ap (written k w) (atomic_write-ok sys.dev p c w.disk can)

pub locked-ok :
    {B A : Type 0} (sys : System) (f : World B → Outcome B A) (w : World B)
    → sys.lock ≡ ok tt
    → locked sys f w ≡ f w
unfolding locked run_locked
locked-ok sys f w h = ap (run_locked f w) h

pub Listed-put :
    (e : CleanupEntry) (es : List CleanupEntry) (d : Disk)
    → All IsWritable es
    → Listed e (member e es) (put cleanup_path (content (render_cleanup_entries es)) d)
Listed-put e es d h = (
  parse_cleanup_entries (render_cleanup_entries es),
  (ap (read_cleanup_entries cleanup_path)
        (put_self cleanup_path (content (render_cleanup_entries es)) d)
      ∙ unfold read_cleanup_entries in refl),
  parse_cleanup_entries-render es e h,
)

module _ {B : Type 0} (sys : System) (e : CleanupEntry) where
  save_entries-Listed :
      (added : Bool) (es old : List CleanupEntry) (w : World B)
      → can_write sys.dev cleanup_path ≡ true
      → All IsWritable es
      → (added ≡ false → es ≡ old)
      → read_cleanup_entries cleanup_path (w.disk cleanup_path) ≡ ok old
      → ((save_entries sys added es w).1 ≡ ok tt)
        × Listed e (member e es) ((save_entries sys added es w).0.disk)
  unfolding save_entries
  save_entries-Listed false es old w can h same r =
      (refl, (old, r, ap (member e) (sym (same refl))))
  save_entries-Listed true es old w can h same r =
      rw (write_file-ok sys cleanup_path (render_cleanup_entries es) (λ v. (v, ok tt)) w can)
        (refl, Listed-put e es w.disk h)

  -- Where a generation is on record and the list can be read and written, `append_cleanup` succeeds,
  -- and an entry is then on the list exactly where it was on it before, whatever its generation, or
  -- where it has the generation on record and its name was given and can be kept.
  pub append_cleanup-Listed :
      (names : List Text) (g : Text) (es : List CleanupEntry) (w : World B)
      → sys.lock ≡ ok tt
      → can_write sys.dev cleanup_path ≡ true
      → IsEstablished g es w.disk
      → ((append_cleanup sys names w).1 ≡ ok tt)
        × Listed e
            (member e es || (text_eq g e.generation && keep_name e.name && member e.name names))
            ((append_cleanup sys names w).0.disk)
  unfolding append_cleanup append_for append_read
  append_cleanup-Listed names g es w l can h =
      let added = add_names g names (es, false) in
      rw
        (locked-ok sys (λ v. append_for sys names (read_generation (v.disk generation_path)) v) w l)
        (rw h.on_record (
          rw h.listed (
            rw (sym (add_names-member g names es false e)) (
              save_entries-Listed added.1 added.0 es w can
                (add_names-IsWritable g names es false h.tagged h.writable)
                (add_names-unflagged g names es) h.listed))))

module _ {B : Type 0} (sys : System) (y : Error) where
  written-err :
      (w : World B) (r : Result Disk)
      → (written (λ v. (v, ok tt)) w r).1 ≡ err y
      → (written (λ v. (v, ok tt)) w r).0 ≡ w
  unfolding written
  written-err w (ok d) h = cc
  written-err w (err x) h = refl

  save_entries-err :
      (added : Bool) (es : List CleanupEntry) (w : World B)
      → (save_entries sys added es w).1 ≡ err y
      → (save_entries sys added es w).0 ≡ w
  unfolding save_entries write_file
  save_entries-err true es w h =
      written-err w (atomic_write sys.dev cleanup_path (render_cleanup_entries es) w.disk) h
  save_entries-err false es w h = refl

  append_read-err :
      (names : List Text) (g : Text) (r : Result (List CleanupEntry)) (w : World B)
      → (append_read sys names g r w).1 ≡ err y
      → (append_read sys names g r w).0 ≡ w
  unfolding append_read
  append_read-err names g (ok es) w h =
      let added = add_names g names (es, false) in save_entries-err added.1 added.0 w h
  append_read-err names g (err x) w h = refl

  append_for-err :
      (names : List Text) (r : Result (Option Text)) (w : World B)
      → (append_for sys names r w).1 ≡ err y
      → (append_for sys names r w).0 ≡ w
  unfolding append_for
  append_for-err names (ok (some g)) w h =
      append_read-err names g (read_cleanup_entries cleanup_path (w.disk cleanup_path)) w h
  append_for-err names (ok none) w h = refl
  append_for-err names (err x) w h = refl

  -- Where `append_cleanup` fails, for whatever reason, nothing on the disk has changed.
  pub append_cleanup-err :
      (names : List Text) (w : World B)
      → (append_cleanup sys names w).1 ≡ err y
      → (append_cleanup sys names w).0 ≡ w
  unfolding append_cleanup locked run_locked
  append_cleanup-err names w h = go sys.lock h
    where
      f : World B → Outcome B (Unit {0})
      f v = append_for sys names (read_generation (v.disk generation_path)) v

      go : (l : Result (Unit {0})) → (run_locked f w l).1 ≡ err y → (run_locked f w l).0 ≡ w
      go (ok _) h = append_for-err names (read_generation (w.disk generation_path)) w h
      go (err x) h = refl

-- `append_cleanup` calls nothing on the other side, whatever it returns.
module _ {B : Type 0} (sys : System) where
  written-bus :
      (w : World B) (r : Result Disk) → (written {A = Unit {0}} (λ v. (v, ok tt)) w r).0.bus ≡ w.bus
  unfolding written
  written-bus w (ok d) = refl
  written-bus w (err x) = refl

  save_entries-bus :
      (added : Bool) (es : List CleanupEntry) (w : World B)
      → (save_entries sys added es w).0.bus ≡ w.bus
  unfolding save_entries write_file
  save_entries-bus true es w =
      written-bus w (atomic_write sys.dev cleanup_path (render_cleanup_entries es) w.disk)
  save_entries-bus false es w = refl

  append_read-bus :
      (names : List Text) (g : Text) (r : Result (List CleanupEntry)) (w : World B)
      → (append_read sys names g r w).0.bus ≡ w.bus
  unfolding append_read
  append_read-bus names g (ok es) w =
      let added = add_names g names (es, false) in save_entries-bus added.1 added.0 w
  append_read-bus names g (err x) w = refl

  append_for-bus :
      (names : List Text) (r : Result (Option Text)) (w : World B)
      → (append_for sys names r w).0.bus ≡ w.bus
  unfolding append_for
  append_for-bus names (ok (some g)) w =
      append_read-bus names g (read_cleanup_entries cleanup_path (w.disk cleanup_path)) w
  append_for-bus names (ok none) w = refl
  append_for-bus names (err x) w = refl

  pub append_cleanup-bus :
      (names : List Text) (w : World B) → (append_cleanup sys names w).0.bus ≡ w.bus
  unfolding append_cleanup locked run_locked
  append_cleanup-bus names w = go sys.lock
    where
      f : World B → Outcome B (Unit {0})
      f v = append_for sys names (read_generation (v.disk generation_path)) v

      go : (l : Result (Unit {0})) → (run_locked f w l).0.bus ≡ w.bus
      go (ok _) = append_for-bus names (read_generation (w.disk generation_path)) w
      go (err x) = refl
