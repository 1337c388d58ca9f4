-- ===== src/Outcome.antt =====
-- Results of the services: a value, or the exception that left the call (backend/app/core/errors.py).
use tw_stock_android_spec.Base.{
  ℕ, String, ◌≡◌, refl, Bool, true, false, Option, none, some, if◌then◌else◌, sym, ap, ◌∙◌,
}

-- `AppError` with its code and status, and the Python exceptions that the services let through.
pub data Error : Type 0 where
  app_error : String → ℕ → Error
  key_error value_error type_error attribute_error integrity_error : Error
  subscription_error capacity_error assertion_error arithmetic_error index_error : Error

pub data Result {ℓ} (A : Type ℓ) : Type ℓ where
  err : Error → Result A
  ok : A → Result A

-- What follows a call runs on its value, and an exception passes through.
module _ {ℓ κ} {A : Type ℓ} {B : Type κ} where
  infixl 5 ◌>>=◌
  abbrev pub ◌>>=◌ : Result A → (A → Result B) → Result B
  err raised >>= next = err raised
  ok value >>= next = next value

-- A check, and then what follows it.
module _ {κ} {B : Type κ} where
  infixl 5 ◌>>◌
  abbrev pub ◌>>◌ : Result (Unit {0}) → Result B → Result B
  check >> rest = check >>= λ passed. rest

-- `if test: raise e`
abbrev pub raise_if : Bool → Error → Result (Unit {0})
raise_if true e = err e
raise_if false e = ok tt

abbrev pub or_raise {ℓ} : {A : Type ℓ} → Option A → Error → Result A
or_raise none e = err e
or_raise (some a) e = ok a

-- Where the whole goes through, so did its first call, and what followed it did.
module _ {ℓ κ} {A : Type ℓ} {B : Type κ} where
  pub >>=-eq-ok :
      (call : Result A) (next : A → Result B) {out : B}
      → (call >>= next) ≡ ok out
      → (value : A) × (call ≡ ok value) × (next value ≡ ok out)
  >>=-eq-ok (err raised) next through = cc
  >>=-eq-ok (ok value) next through = (value, refl, through)

pub ok-injective {ℓ} : {A : Type ℓ} {a b : A} → ok a ≡ ok b → a ≡ b
ok-injective e = cc

pub raise_if-false : (b : Bool) (e : Error) → raise_if b e ≡ ok tt → b ≡ false
raise_if-false true e h = cc
raise_if-false false e h = refl

-- Where the first call goes through with a value, so does the second, with the value's image.
abbrev pub Follows {ℓ κ} : {A : Type ℓ} {B : Type κ} → (A → B) → Result A → Result B → Type (ℓ ⊔ κ)
Follows {A} image call other = (value : A) → call ≡ ok value → other ≡ ok (image value)

pub Follows-ok {ℓ κ} :
    {A : Type ℓ} {B : Type κ} (image : A → B) (a : A) (b : B)
    → image a ≡ b
    → Follows image (ok a) (ok b)
Follows-ok image a b same value h = ap ok (sym same ∙ ap image (ok-injective h))

pub Follows-bind {ℓ κ μ ν} :
    {A : Type ℓ} {B : Type κ} {C : Type μ} {D : Type ν} (image : A → B) (after : C → D)
    (call : Result A) (other : Result B) (next : A → Result C) (next' : B → Result D)
    → Follows image call other
    → ((a : A) → Follows after (next a) (next' (image a)))
    → Follows after (call >>= next) (other >>= next')
Follows-bind image after (err e) other next next' first then_next value h = cc
Follows-bind image after (ok a) other next next' first then_next value h =
    rw (first a refl) (then_next a value h)

-- One call, written in two ways
pub Follows-same {ℓ} :
    {A : Type ℓ} {call other : Result A} → call ≡ other → Follows (λ (a : A). a) call other
Follows-same e value h = sym e ∙ h

pub Follows-if {ℓ κ} :
    {A : Type ℓ} {B : Type κ} (image : A → B) (test : Bool) (a c : Result A) (b d : Result B)
    → (test ≡ true → Follows image a b)
    → (test ≡ false → Follows image c d)
    → Follows image (if test then a else c) (if test then b else d)
Follows-if image true a c b d p q = p refl
Follows-if image false a c b d p q = q refl

-- Whatever the first call yields, what follows it is followed.
pub Follows-after {ℓ κ μ} :
    {A : Type ℓ} {C : Type κ} {D : Type μ} (after : C → D) (call : Result A) (next : A → Result C)
    (other : Result D)
    → ((a : A) → Follows after (next a) other)
    → Follows after (call >>= next) other
Follows-after after (err e) next other h value through = cc
Follows-after after (ok a) next other h value through = h a value through
