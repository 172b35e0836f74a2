-- ===== src/Base/Sets.antt =====
-- `BTreeSet<K>`: a list kept in the order of its elements.
use mathlib.Core.Path.{◌≡◌, refl, subst}
use mathlib.Core.Bool.{Bool, true, false, ◌||◌, ◌&&◌}
use mathlib.Core.List.{List, [], ◌∷◌, ◌++◌}
use native.Mathlib.Omega.{arith}
use mathlib.Core.Logic.{◌↔◌, inl, inr}
use wsmr.Base.Tests.{if◌then◌else◌, Bool-cases}
use wsmr.Base.Lists.{All, keep}
use wsmr.Base.Text.{Text, text_eq, text_lt, text_eq_iff}

pub record Key (K : Type 0) : Type 0 where
  pub same : K → K → Bool
  pub before : K → K → Bool
  pub same_iff : (a b : K) → (same a b ≡ true) ↔ (a ≡ b)

instance abbrev pub text_key : Key Text
text_key = record { same = text_eq; before = text_lt; same_iff = text_eq_iff }

module _ {K : Type 0} ⦃k : Key K⦄ where
  unfoldable pub member : K → List K → Bool
  member a [] = false
  member a (b ∷ s) = k.same b a || member a s

  unfoldable pub insert : K → List K → List K
  insert a [] = a ∷ []
  insert a (b ∷ s) =
      let rest = insert a s in
      if k.same b a then b ∷ s else if k.before a b then a ∷ b ∷ s else b ∷ rest

  -- `collect()` and `extend`.
  unfoldable pub extend : List K → List K → List K
  unfolding insert
  extend s [] = s
  extend s (a ∷ l) = extend (insert a s) l

  pub member-insert : (a b : K) (s : List K) → member b (insert a s) ≡ (k.same a b || member b s)
  unfolding member insert
  member-insert a b [] = refl
  member-insert a b (c ∷ s) =
      ground (arith, k.same_iff a b, k.same_iff c a, k.same_iff c b, member-insert a b s)

  pub member-extend : (b : K) (s l : List K) → member b (extend s l) ≡ (member b l || member b s)
  unfolding extend member
  member-extend b s [] = refl
  member-extend b s (a ∷ l) = ground (arith, member-extend b (insert a s) l, member-insert a b s)

  pub member-append : (b : K) (s l : List K) → member b (s ++ l) ≡ (member b s || member b l)
  unfolding member
  member-append b [] l = refl
  member-append b (a ∷ s) l = ground (arith, member-append b s l)

  -- Filtering by a test of the element keeps exactly the members that pass.
  pub member-keep : (p : K → Bool) (b : K) (s : List K) → member b (keep p s) ≡ (p b && member b s)
  unfolding member
  member-keep p b [] = ground arith
  member-keep p b (a ∷ s) = ground (arith, k.same_iff a b, member-keep p b s)

  pub All-members : (P : K → Type 0) (s : List K) → ((b : K) → member b s ≡ true → P b) → All P s
  unfolding member
  All-members P [] h = tt
  All-members P (a ∷ s) h =
      (h a (ground (arith, k.same_iff a a)), All-members P s (λ b m. h b (ground (arith, m))))

  pub member-All : (P : K → Type 0) (s : List K) (b : K) → All P s → member b s ≡ true → P b
  unfolding member
  member-All P [] b h m = cc
  member-All P (a ∷ s) b (p, h) m = elim (Bool-cases (k.same a b)) [
    | inl same ↦ subst P ((k.same_iff a b).0 same) p
    | inr other ↦ member-All P s b h (ground (arith, m, other))
  ]
