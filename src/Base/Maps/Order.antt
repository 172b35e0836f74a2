-- ===== src/Base/Maps/Order.antt =====
-- The keys of a map ascend, so each has one entry, and its lookups determine the map.
use mathlib.Core.Path.{◌≡◌, refl}
use mathlib.Core.Logic.{inl, inr}
use mathlib.Core.Bool.{true, false}
use mathlib.Core.Option.{none}
use mathlib.Core.List.{[], ◌∷◌, ◌++◌}
use native.Mathlib.Omega.{arith}
use wsmr.Base.Lists.{All}
use wsmr.Base.Tests.{Bool-cases}
use wsmr.Base.Text.{Text, text_eq, text_lt, text_eq_iff}
use wsmr.Base.Maps.{Map, lookup, insert, remove}

pub text_lt_irrefl : (a : Text) → text_lt a a ≡ false
unfolding text_lt
text_lt_irrefl [] = refl
text_lt_irrefl (x ∷ a) = ground (arith, text_lt_irrefl a)

pub text_lt_trans : (a b c : Text) → text_lt a b ≡ true → text_lt b c ≡ true → text_lt a c ≡ true
unfolding text_lt
text_lt_trans (x ∷ a) (y ∷ b) (z ∷ c) h k = ground (arith, text_lt_trans a b c)
text_lt_trans a b c h k = ground arith

pub text_lt_total : (a b : Text) → text_lt a b ≡ false → text_eq b a ≡ false → text_lt b a ≡ true
unfolding text_lt text_eq
text_lt_total (x ∷ a) (y ∷ b) h k = ground (arith, text_lt_total a b)
text_lt_total a b h k = ground arith

pub text_lt-ne : (a b : Text) → text_lt a b ≡ true → text_eq a b ≡ false
text_lt-ne a b h = ground (arith, text_eq_iff a b, text_lt_irrefl a)

-- `k` stands before every key of the map.
abbrev pub Below {ℓ} : {V : Type ℓ} → Text → Map V → Type 0
Below k [] = Unit
Below k ((j, v) ∷ m) = (text_lt k j ≡ true) × Below k m

abbrev pub IsOrdered {ℓ} : {V : Type ℓ} → Map V → Type 0
IsOrdered [] = Unit
IsOrdered ((k, v) ∷ m) = Below k m × IsOrdered m

-- Every key of `m` stands before `k`.
abbrev pub Above {ℓ} : {V : Type ℓ} → Text → Map V → Type 0
Above k m = All (λ e. text_lt e.0 k ≡ true) m

-- Every key of `acc` stands before every key of `m`.
abbrev pub AllAbove {ℓ} : {V : Type ℓ} → Map V → Map V → Type 0
AllAbove m acc = All (λ e. Above e.0 acc) m

module _ {ℓ} {V : Type ℓ} where
  Above-append :
      (j k : Text) (v : V) (m : Map V) → text_lt j k ≡ true → Above j m → Above k (m ++ (j, v) ∷ [])
  Above-append j k v [] h a = (h, tt)
  Above-append j k v ((i, w) ∷ m) h (a, as') = (text_lt_trans i j k a h, Above-append j k v m h as')

  pub AllAbove-append :
      (j : Text) (v : V) (m acc : Map V) → Below j m → Above j acc → AllAbove m (acc ++ (j, v) ∷ [])
  AllAbove-append j v [] acc b a = tt
  AllAbove-append j v ((k, w) ∷ m) acc (b, bs) a =
      (Above-append j k v acc b a, AllAbove-append j v m acc bs a)

  pub AllAbove-nil : (m : Map V) → AllAbove m []
  AllAbove-nil [] = tt
  AllAbove-nil ((k, v) ∷ m) = (tt, AllAbove-nil m)

  Below-trans : (a b : Text) (m : Map V) → text_lt a b ≡ true → Below b m → Below a m
  Below-trans a b [] h k = tt
  Below-trans a b ((j, v) ∷ m) h (k, ks) = (text_lt_trans a b j h k, Below-trans a b m h ks)

  pub lookup_of_Below : (k : Text) (m : Map V) → Below k m → lookup k m ≡ none
  unfolding lookup
  lookup_of_Below k [] h = refl
  lookup_of_Below k ((j, v) ∷ m) (h, hs) =
      ground (arith, text_lt-ne k j h, text_eq_iff j k, text_lt_irrefl k, lookup_of_Below k m hs)

  Below-insert :
      (a k : Text) (v : V) (m : Map V) → text_lt a k ≡ true → Below a m → Below a (insert k v m)
  unfolding insert
  Below-insert a k v [] h b = (h, tt)
  Below-insert a k v ((j, w) ∷ m) h (b, bs) = ground (arith, Below-insert a k v m h bs)

  pub insert-IsOrdered : (k : Text) (v : V) (m : Map V) → IsOrdered m → IsOrdered (insert k v m)
  unfolding insert
  insert-IsOrdered k v [] h = (tt, tt)
  insert-IsOrdered k v ((j, w) ∷ m) (b, o) = elim (Bool-cases (text_eq j k)) [
    | inl same ↦ rw same (rw ((text_eq_iff j k).0 same) at b, o)
    | inr other ↦ rw other (elim (Bool-cases (text_lt k j)) [
      | inl low ↦ rw low ((low, Below-trans k j m low b), (b, o))
      | inr high ↦
          rw high (Below-insert j k v m (text_lt_total k j high other) b, insert-IsOrdered k v m o)
    ])
  ]

  Below-remove : (a k : Text) (m : Map V) → Below a m → Below a (remove k m)
  unfolding remove
  Below-remove a k [] b = tt
  Below-remove a k ((j, w) ∷ m) (b, bs) = ground (arith, Below-remove a k m bs)

  pub remove-IsOrdered : (k : Text) (m : Map V) → IsOrdered m → IsOrdered (remove k m)
  unfolding remove
  remove-IsOrdered k [] h = tt
  remove-IsOrdered k ((j, w) ∷ m) (b, o) =
      ground (arith, remove-IsOrdered k m o, Below-remove j k m b)

  -- An insertion behind every key appends.
  pub insert_last :
      (k : Text) (v : V) (m : Map V)
      → All (λ e. text_lt e.0 k ≡ true) m
      → insert k v m ≡ m ++ (k, v) ∷ []
  unfolding insert
  insert_last k v [] h = refl
  insert_last k v ((j, w) ∷ m) (h, hs) =
      ground
        (arith, text_lt-ne j k h, text_lt_irrefl j, text_lt_trans j k j h, insert_last k v m hs)
