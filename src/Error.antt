-- ===== src/Error.antt =====
-- src/error.rs: the errors that the modelled operations raise, and the results that carry them. The
-- messages of `MvccConflict` are kept as what they name; the others are kept by their variant.
use rockduck.Prelude.{◌≡◌, ◌⊎◌, inl, inr, refl, ℕ, Bool, Option, none, some}

pub data Conflict : Type 0 where
  already_active already_committed not_active : Conflict
  -- which active transaction the commit met, and the two flags of the message
  ssi : ℕ → Bool → Bool → Conflict

pub data RockDuckError : Type 0 where
  mvcc_conflict : ℕ → Conflict → RockDuckError
  codec internal write compaction metadata deserialize query : RockDuckError

pub data Result {ℓ} (A : Type ℓ) : Type ℓ where
  ok : A → Result A
  err : RockDuckError → Result A

-- `?`
infixl 5 ◌>>=◌ ◌>>◌
abbrev pub ◌>>=◌ {ℓ κ} : {A : Type ℓ} {B : Type κ} → Result A → (A → Result B) → Result B
ok a >>= f = f a
err e >>= f = err e

abbrev pub ◌>>◌ {ℓ κ} : {A : Type ℓ} {B : Type κ} → Result A → Result B → Result B
m >> n = m >>= λ _. n

-- `ok_or`
abbrev pub ok_or {ℓ} : {A : Type ℓ} → Option A → RockDuckError → Result A
ok_or none e = err e
ok_or (some a) e = ok a

-- To split on a computed result and keep the equation.
pub Result-cases {ℓ} :
    {A : Type ℓ} (r : Result A) → ((e : RockDuckError) × (r ≡ err e)) ⊎ ((a : A) × (r ≡ ok a))
Result-cases (ok a) = inr (a, refl)
Result-cases (err e) = inl (e, refl)
