-- ===== src/Base/Outcome.antt =====
-- What a call that may throw returns.
use mathlib.Core.Logic.{◌⊎◌, inl, inr}
use mathlib.Core.Path.{◌≡◌, refl}
use mathlib.Core.Option.{Option, none, some}

-- The exceptions and failed assertions of the program. `stuck` is none of them: a loop of the
-- model that ran out of fuel.
pub data Error : Type 0 where
  truncated_frame unexpected_size invalid_message_type : Error
  truncated_record time_goes_back : Error
  oversized_frame system_call_failed partial_send server_disconnected : Error
  out_of_range invalid_direction assertion_failed : Error
  stuck : Error

-- What came back, or the exception on its way up.
pub data Result {ℓ} (A : Type ℓ) : Type ℓ where
  err : Error → Result A
  ok : A → Result A

-- An exception passes over the rest of the body.
infixl 5 ◌>>=◌
abbrev pub ◌>>=◌ {ℓ κ} : {A : Type ℓ} {B : Type κ} → Result A → (A → Result B) → Result B
err thrown >>= rest = err thrown
ok result >>= rest = rest result

abbrev pub or_throw {ℓ} : {A : Type ℓ} → Option A → Error → Result A
or_throw none e = err e
or_throw (some a) e = ok a

pub Result-cases {ℓ} :
    {A : Type ℓ} (r : Result A) → ((a : A) × (r ≡ ok a)) ⊎ ((e : Error) × (r ≡ err e))
Result-cases (ok a) = inl (a, refl)
Result-cases (err e) = inr (e, refl)

pub ok_inj {ℓ} : {A : Type ℓ} (a b : A) → ok a ≡ ok b → a ≡ b
ok_inj a b e = cc e

pub bind_cong {ℓ κ} :
    {A : Type ℓ} {B : Type κ} (r : Result A) (f g : A → Result B)
    → ((a : A) → f a ≡ g a)
    → (r >>= f) ≡ (r >>= g)
bind_cong (err e) f g h = refl
bind_cong (ok a) f g h = h a

pub bind_assoc {ℓ κ μ} :
    {A : Type ℓ} {B : Type κ} {C : Type μ} (r : Result A) (f : A → Result B) (g : B → Result C)
    → (r >>= λ a. f a >>= g) ≡ (r >>= f >>= g)
bind_assoc (err e) f g = refl
bind_assoc (ok a) f g = refl
