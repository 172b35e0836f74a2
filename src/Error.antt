-- ===== src/Error.antt =====
-- src/error.rs: the error type, and the crate's `Result` with its `?`. The formatted messages are
-- left out; an error keeps its variant, and the path or the name that it carries.
use wsmr.Base.{◌≡◌, refl, ◌⊎◌, inl, inr}
use wsmr.Base.Text.{Text}

pub data Error : Type 0 where
  io : Text → Error
  env_missing : Text → Error
  dbus invalid_arg resolve not_implemented generation_conflict partial_env_update : Error

pub data Result {ℓ} (V : Type ℓ) : Type ℓ where
  err : Error → Result V
  ok : V → Result V

-- What stands behind a `?`.
infixl 5 ◌>>=◌
abbrev pub ◌>>=◌ {κ ℓ} : {V : Type κ} {W : Type ℓ} → Result V → (V → Result W) → Result W
err x >>= next = err x
ok v >>= next = next v

pub Result-cases {ℓ} :
    {V : Type ℓ} (r : Result V) → ((v : V) × (r ≡ ok v)) ⊎ ((x : Error) × (r ≡ err x))
Result-cases (err x) = inr (x, refl)
Result-cases (ok v) = inl (v, refl)

-- A result that is a value came from a value of each step before it.
pub >>=-eq-ok {κ ℓ} :
    {V : Type κ} {W : Type ℓ} (r : Result V) (next : V → Result W) {w : W}
    → (r >>= next) ≡ ok w
    → (v : V) × (r ≡ ok v) × (next v ≡ ok w)
>>=-eq-ok (err x) next eq = cc
>>=-eq-ok (ok v) next eq = (v, refl, eq)

pub ok_injective {ℓ} : {V : Type ℓ} {v w : V} → ok v ≡ ok w → v ≡ w
ok_injective h = cc
