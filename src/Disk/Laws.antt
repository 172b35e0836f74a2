-- ===== src/Disk/Laws.antt =====
-- Reading after a write or a removal.
use wsmr.Base.{Bool, true, false, ◌≡◌, refl, ◌⊎◌, inl, inr, arith, Bool-cases}
use wsmr.Base.Text.{Text, text_eq, text_eq_refl}
use wsmr.Error.{Error, io, ok, err}
use wsmr.Disk.{
  File, missing, unreadable, content, Disk, put, Device, can_write, atomic_write, removed,
  not_found, refused, remove_file,
}

-- A write that is possible puts exactly the content in place.
pub atomic_write-ok :
    (dev : Device) (p c : Text) (d : Disk)
    → can_write dev p ≡ true
    → atomic_write dev p c d ≡ ok (put p (content c) d)
unfolding atomic_write can_write
atomic_write-ok dev p c d can = ground (arith, can)

atomic_write-err :
    (dev : Device) (p c : Text) (d : Disk)
    → can_write dev p ≡ false
    → (x : Error) × (atomic_write dev p c d ≡ err x)
unfolding atomic_write can_write
atomic_write-err dev p c d no' = elim (Bool-cases (dev.can_create_parent p)) [
  | inr e ↦ (io (dev.parent p), rw e refl)
  | inl e ↦ elim (Bool-cases (dev.can_write_temp p)) [
    | inr f ↦ (io (dev.temp_path p), rw e (rw f refl))
    | inl f ↦ (io p, ground (arith, e, f, no'))
  ]
]

pub put_other : (p q : Text) (f : File) (d : Disk) → text_eq q p ≡ false → put q f d p ≡ d p
unfolding put
put_other p q f d h = rw h

pub put_self : (p : Text) (f : File) (d : Disk) → put p f d p ≡ f
unfolding put
put_self p f d = rw (text_eq_refl p)

pub atomic_write_cases :
    (dev : Device) (p c : Text) (d : Disk)
    → ((can_write dev p ≡ true) × (atomic_write dev p c d ≡ ok (put p (content c) d)))
      ⊎ ((x : Error) × (atomic_write dev p c d ≡ err x))
atomic_write_cases dev p c d = elim (Bool-cases (can_write dev p)) [
  | inl yes' ↦ inl (yes', atomic_write-ok dev p c d yes')
  | inr no' ↦ inr (atomic_write-err dev p c d no')
]

-- What `remove_file` finds and does.
pub data Removes (dev : Device) (p : Text) (d : Disk) : Type 0 where
  gone : d p ≡ missing → remove_file dev p d ≡ not_found → Removes dev p d
  done : dev.can_remove p ≡ true → remove_file dev p d ≡ removed (put p missing d) → Removes dev p d
  denied : dev.can_remove p ≡ false → remove_file dev p d ≡ refused → Removes dev p d

pub remove_file_cases : (dev : Device) (p : Text) (d : Disk) → Removes dev p d
unfolding remove_file
remove_file_cases dev p d = go (d p) refl (dev.can_remove p) refl
  where
    go : (f : File) → d p ≡ f → (b : Bool) → dev.can_remove p ≡ b → Removes dev p d
    go missing e b h = gone e (rw (e, remove_file))
    go unreadable e true h = done h (rw (e, remove_file) (rw h))
    go unreadable e false h = denied h (rw (e, remove_file) (rw h))
    go (content c) e true h = done h (rw (e, remove_file) (rw h))
    go (content c) e false h = denied h (rw (e, remove_file) (rw h))
