-- ===== src/Base/Text/Split.antt =====
-- Splitting text at a separator that its pieces avoid.
use mathlib.Core.Path.{◌≡◌, refl}
use mathlib.Core.Logic.{◌≢◌}
use mathlib.Core.Option.{none, some}
use mathlib.Core.List.{[], ◌∷◌, ◌++◌, append_assoc, append-nil}
use native.Mathlib.Omega.{arith}
use Prim.Native.Nat.{ℕ}
use wsmr.Base.Tests.{==_refl}
use wsmr.Base.Lists.{All}
use wsmr.Base.Text.{Text, split_from, split_once, lines_from, strip_cr, strip_suffix, text_eq}

-- No code point of the text is `c`.
abbrev pub Avoids : ℕ → Text → Type 0
Avoids c s = All (λ d. d ≢ c) s

pub split_from-append :
    (c : ℕ) (cur a rest : Text)
    → Avoids c a
    → split_from c cur (a ++ rest) ≡ split_from c (cur ++ a) rest
unfolding split_from
split_from-append c cur [] rest h = rw append-nil
split_from-append c cur (d ∷ a) rest (h, hs) =
    ground (arith, split_from-append c (cur ++ d ∷ []) a rest hs, append_assoc cur (d ∷ []) a)

pub split_from-separator :
    (c : ℕ) (cur rest : Text) → split_from c cur (c ∷ rest) ≡ cur ∷ split_from c [] rest
unfolding split_from
split_from-separator c cur rest = rw (==_refl c)

pub split_once-append :
    (c : ℕ) (a b : Text) → Avoids c a → split_once c (a ++ (c ∷ b)) ≡ some (a, b)
unfolding split_once
split_once-append c [] b h = rw (==_refl c)
split_once-append c (d ∷ a) b (h, hs) = ground (arith, split_once-append c a b hs)

pub lines_from-append :
    (cur a rest : Text)
    → Avoids b'\n' a
    → lines_from cur (a ++ (b'\n' ∷ rest)) ≡ strip_cr (cur ++ a) ∷ lines_from [] rest
unfolding lines_from
lines_from-append [] [] rest h = refl
lines_from-append (x ∷ cur) [] rest h = rw append-nil
lines_from-append [] (d ∷ a) rest (h, hs) = ground (arith, lines_from-append (d ∷ []) a rest hs)
lines_from-append (x ∷ cur) (d ∷ a) rest (h, hs) =
    ground
      (arith, lines_from-append ((x ∷ cur) ++ d ∷ []) a rest hs, append_assoc (x ∷ cur) (d ∷ []) a)

strip_suffix-cr : (s : Text) → Avoids b'\r' s → strip_suffix (b'\r' ∷ []) s ≡ none
unfolding strip_suffix text_eq
strip_suffix-cr [] h = refl
strip_suffix-cr (c ∷ s) (h, hs) = ground (arith, strip_suffix-cr s hs)

pub strip_cr_of_Avoids : (s : Text) → Avoids b'\r' s → strip_cr s ≡ s
unfolding strip_cr
strip_cr_of_Avoids s h = ground (arith, strip_suffix-cr s h)
