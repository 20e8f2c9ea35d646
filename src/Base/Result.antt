-- ===== src/Base/Result.antt =====
-- A Go call that returns (value, error), or panics. An error is the message's place in the source.
use native.Mathlib.Omega.{arith}
use mathlib.Core.Path.{◌≡◌, refl}
use mathlib.Core.Logic.{◌⊎◌, inl, inr}
use mathlib.Core.Bool.{Bool, true, false}
use gca_backend.Base.Tests.{if◌then◌else◌}

pub data Error : Type 0 where
  bad_length unknown_equipment bad_signature banned duplicate io_failure : Error
  not_initialized already_registered missing_file out_of_time wrong_equipment : Error
  bad_new_gca bad_server_list bad_server too_short bad_timeslot not_found : Error
  predates_history other_reading too_long : Error
  no_servers already_exists aborted not_finite bad_status no_randomness : Error

pub data Result {ℓ} (X : Type ℓ) : Type ℓ where
  panic : Result X
  err : Error → Result X
  ok : X → Result X

infixl 5 ◌>>=◌ ◌>>◌
abbrev pub ◌>>=◌ {ℓ κ} : {X : Type ℓ} {Y : Type κ} → Result X → (X → Result Y) → Result Y
panic >>= next = panic
err error >>= next = err error
ok x >>= next = next x

abbrev pub ◌>>◌ {ℓ} : {Y : Type ℓ} → Result (Unit {0}) → Result Y → Result Y
first >> second = first >>= λ _. second

-- `if !test { return err }`
abbrev pub guard : Bool → Error → Result (Unit {0})
guard test error = if test then ok tt else err error

-- An index or a slice that Go checks at run time.
abbrev pub check : Bool → Result (Unit {0})
check true = ok tt
check false = panic

-- The parts of a bind that succeeds.
pub >>=-eq-ok {ℓ κ} :
    {A : Type ℓ} {B : Type κ} (first : Result A) (next : A → Result B) {b : B}
    → (first >>= next) ≡ ok b
    → (a : A) × (first ≡ ok a) × (next a ≡ ok b)
>>=-eq-ok (ok a) next done = (a, refl, done)
>>=-eq-ok (err e) next done = ground arith
>>=-eq-ok panic next done = ground arith

pub Result-cases {ℓ} :
    {A : Type ℓ} (r : Result A) → ((a : A) × (r ≡ ok a)) ⊎ ((e : Error) × (r ≡ err e)) ⊎ (r ≡ panic)
Result-cases (ok a) = inl (a, refl)
Result-cases (err e) = inr (inl (e, refl))
Result-cases panic = inr (inr refl)
