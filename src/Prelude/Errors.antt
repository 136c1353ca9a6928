-- ===== src/Prelude/Errors.antt =====
-- error.rs: the error type of the crate, and the result of a fallible function.
use Prim.Native.Nat.{ℕ}
use mathlib.Core.Path.{◌≡◌, refl}
use mathlib.Core.Logic.{◌⊎◌, inl, inr}
use mathlib.Core.Bool.{Bool, true, false}

pub data Error : Type 0 where
  io not_little_fs crc_mismatch invalid_tag invalid_path short_read out_of_range : Error
  read_only not_found already_exists geometry_mismatch corrupt unformatted not_empty : Error
  unsupported_version : ℕ → Error

pub data Result {ℓ} (A : Type ℓ) : Type ℓ where
  ok : A → Result A
  err : Error → Result A

-- `if !b { return Err(e) }`
abbrev pub guard : Bool → Error → Result (Unit {0})
guard false e = err e
guard true e = ok tt

-- `?`, and the same where the value is not used
infixl 5 ◌>>=◌ ◌>>◌
abbrev pub ◌>>=◌ {ℓ κ} : {A : Type ℓ} {B : Type κ} → Result A → (A → Result B) → Result B
err e >>= next = err e
ok a >>= next = next a

abbrev pub ◌>>◌ {κ} : {B : Type κ} → Result (Unit {0}) → Result B → Result B
first >> second = first >>= λ done. second

pub Result-cases {ℓ} :
    {A : Type ℓ} (r : Result A) → ((a : A) × (r ≡ ok a)) ⊎ ((e : Error) × (r ≡ err e))
Result-cases (ok a) = inl (a, refl)
Result-cases (err e) = inr (e, refl)

-- A chain that returns: its first step did, and the rest did from there.
pub chain_ok {κ ℓ} :
    {B : Type κ} {out : B} {A : Type ℓ} (first : Result A) (rest : A → Result B)
    → (first >>= rest) ≡ ok out
    → (value : A) × (first ≡ ok value) × (rest value ≡ ok out)
chain_ok (err e) rest failed = absurd (cc)
chain_ok (ok value) rest returns = (value, refl, returns)
