-- ===== src/Base/Decimal.antt =====
-- Python's `Decimal` under its default context: an integer coefficient over a power of ten, exact
-- comparison, and results rounded half to even to 28 significant digits.
use Prim.Native.Nat.{ℕ, zero, suc, ◌+◌, ◌-◌, ◌*◌, ◌/◌, ◌%◌, ◌^◌, ◌≤◌, ◌<◌, max}
use mathlib.Core.Path.{◌≡◌, refl}
use mathlib.Core.Logic.{◌⊎◌, inl, inr}
use mathlib.Core.Option.{Option, none, some}
use mathlib.Core.Bool.{Bool, true, false, not, xor, ◌&&◌, ◌||◌}
use native.Mathlib.Nat.{one-le-pow, le_of_mul-le-mul_left, mul-le-mul_right}
use native.Mathlib.Omega.{arith}
use tw_stock_android_spec.Base.Tests.{ltb, leb, ◌==◌, if◌then◌else◌, Bool-cases, ltb→lt}
use tw_stock_android_spec.Base.Int.{ℤ, pos, negsuc, pos_part, neg_part, sub_ℕ, ◌+ℤ◌, ◌-ℤ◌, ◌*ℤ◌}

-- The number `coefficient / 10 ^ scale`.
pub record Decimal : Type 0 where
  pub coefficient : ℤ
  pub scale : ℕ

abbrev pub of_int : ℤ → Decimal
of_int z = record { coefficient = z; scale = 0 }

abbrev pub of_nat : ℕ → Decimal
of_nat n = of_int (pos n)

-- The decimal digits of `n`, at most `fuel` of them; `n` itself is fuel enough.
digits_from : ℕ → ℕ → ℕ
digits_from zero n = 0
digits_from (suc fuel) n = elim (n == 0) [ true ↦ 0 | false ↦ suc (digits_from fuel (n / 10)) ]

unfoldable pub digits : ℕ → ℕ
unfolding digits_from
digits n = digits_from n n

-- Half to even: `n / 10 ^ k` to the nearest number.
unfoldable pub round_half_even : ℕ → ℕ → ℕ
round_half_even n k =
    let unit = 10 ^ k in
    let q = n / unit in
    let r = n % unit in if ltb unit (2 * r) || (unit == 2 * r && (q % 2 == 1)) then q + 1 else q

-- The magnitude `n / 10 ^ scale` at 28 significant digits.
unfoldable pub fit : ℕ → ℕ → ℕ × ℕ
unfolding digits round_half_even
fit n scale =
    let excess = digits n - 28 in
    if excess == 0
    then (n, scale)
    else if leb excess scale
    then (round_half_even n excess, scale - excess)
    else (round_half_even n excess * 10 ^ (excess - scale), 0)

abbrev pub signed : Bool → ℕ → ℤ
signed negative n = if negative then sub_ℕ 0 n else pos n

abbrev pub is_negative : ℤ → Bool
is_negative (pos n) = false
is_negative (negsuc n) = true

abbrev pub magnitude : ℤ → ℕ
magnitude z = pos_part z + neg_part z

unfoldable pub rounded : ℤ → ℕ → Decimal
unfolding fit
rounded z scale =
    let (n, s) = fit (magnitude z) scale in
    record { coefficient = signed (is_negative z) n; scale = s }

-- The coefficient of `d` at a scale of `s`, which is no smaller than its own.
abbrev pub at_scale : ℕ → Decimal → ℤ
at_scale s d = d.coefficient *ℤ pos (10 ^ (s - d.scale))

infixl 65 ◌+ᴰ◌ ◌-ᴰ◌
infixl 70 ◌*ᴰ◌
unfoldable pub ◌+ᴰ◌ : Decimal → Decimal → Decimal
unfolding rounded ◌+ℤ◌ ◌*ℤ◌
a +ᴰ b = let s = max a.scale b.scale in rounded (at_scale s a +ℤ at_scale s b) s

unfoldable pub ◌-ᴰ◌ : Decimal → Decimal → Decimal
unfolding rounded ◌-ℤ◌ ◌*ℤ◌
a -ᴰ b = let s = max a.scale b.scale in rounded (at_scale s a -ℤ at_scale s b) s

unfoldable pub ◌*ᴰ◌ : Decimal → Decimal → Decimal
unfolding rounded ◌*ℤ◌
a *ᴰ b = rounded (a.coefficient *ℤ b.coefficient) (a.scale + b.scale)

-- The quotient of the magnitudes to more than 28 digits, its last digit moved off 0 and 5 where a
-- remainder is dropped, so that rounding it rounds the exact quotient.
quotient : ℕ → ℕ → ℕ → ℕ
quotient n d shift =
    let q = n * 10 ^ shift / d in if (n * 10 ^ shift % d == 0) || not (q % 5 == 0) then q else q + 1

-- `a / b` for a `b` that is not zero
unfoldable pub divided : Decimal → Decimal → Decimal
unfolding rounded quotient digits xor
divided a b =
    let n = magnitude a.coefficient * 10 ^ b.scale in
    let d = magnitude b.coefficient * 10 ^ a.scale in
    let shift = digits d + 29 in
    let negative = xor (is_negative a.coefficient) (is_negative b.coefficient) in
    rounded (signed negative (quotient n d shift)) shift

-- `a / b`; `none` where Python raises.
unfoldable pub div : Decimal → Decimal → Option Decimal
div a b = if magnitude b.coefficient == 0 then none else some (divided a b)

pub div-some :
    (a b : Decimal) → (magnitude b.coefficient == 0) ≡ false → div a b ≡ some (divided a b)
unfolding div
div-some a b h = rw h refl

-- `abs(d)`, rounded as every result is.
unfoldable pub abs : Decimal → Decimal
unfolding rounded
abs d = rounded (pos (magnitude d.coefficient)) d.scale

-- The two sides of a comparison, as natural numbers.
abbrev pub left_side : Decimal → Decimal → ℕ
left_side a b = pos_part a.coefficient * 10 ^ b.scale + neg_part b.coefficient * 10 ^ a.scale

abbrev pub right_side : Decimal → Decimal → ℕ
right_side a b = pos_part b.coefficient * 10 ^ a.scale + neg_part a.coefficient * 10 ^ b.scale

infix 50 ◌≤ᴰ◌ ◌<ᴰ◌
abbrev pub ◌≤ᴰ◌ : Decimal → Decimal → Type 0
a ≤ᴰ b = left_side a b ≤ right_side a b

abbrev pub ◌<ᴰ◌ : Decimal → Decimal → Type 0
a <ᴰ b = left_side a b < right_side a b

abbrev pub ltb_ᴰ : Decimal → Decimal → Bool
ltb_ᴰ a b = ltb (left_side a b) (right_side a b)

abbrev pub leb_ᴰ : Decimal → Decimal → Bool
leb_ᴰ a b = leb (left_side a b) (right_side a b)

abbrev pub is_zero : Decimal → Bool
is_zero d = magnitude d.coefficient == 0

pub ≤ᴰ_refl : (a : Decimal) → a ≤ᴰ a
≤ᴰ_refl a = omega arith

pub ≤ᴰ_total : (a b : Decimal) → (a ≤ᴰ b) ⊎ (b ≤ᴰ a)
≤ᴰ_total a b = omega arith

pow_pos : (n : ℕ) → 0 < 10 ^ n
pow_pos n = one-le-pow n 10 (omega arith)

pub ≤ᴰ_trans : (a b c : Decimal) → a ≤ᴰ b → b ≤ᴰ c → a ≤ᴰ c
≤ᴰ_trans a b c h k =
    let x = 10 ^ a.scale in
    let y = 10 ^ b.scale in
    let z = 10 ^ c.scale in
    le_of_mul-le-mul_left {k = y} (omega (arith, mul-le-mul_right z h, mul-le-mul_right x k))
      (pow_pos b.scale)

-- `max` and `min` keep their first argument on a tie.
unfoldable pub max_ᴰ : Decimal → Decimal → Decimal
max_ᴰ a b = if ltb_ᴰ a b then b else a

unfoldable pub min_ᴰ : Decimal → Decimal → Decimal
min_ᴰ a b = if ltb_ᴰ b a then b else a

pub max_ᴰ_bounds : (a b : Decimal) → (a ≤ᴰ max_ᴰ a b) × (b ≤ᴰ max_ᴰ a b)
unfolding max_ᴰ
max_ᴰ_bounds a b = elim (Bool-cases (ltb_ᴰ a b)) [
  | inl t ↦ rw t (omega (arith, ltb→lt _ _ t), ≤ᴰ_refl b)
  | inr t ↦ rw t (≤ᴰ_refl a, ground arith)
]

pub min_ᴰ_bounds : (a b : Decimal) → (min_ᴰ a b ≤ᴰ a) × (min_ᴰ a b ≤ᴰ b)
unfolding min_ᴰ
min_ᴰ_bounds a b = elim (Bool-cases (ltb_ᴰ b a)) [
  | inl t ↦ rw t (omega (arith, ltb→lt _ _ t), ≤ᴰ_refl b)
  | inr t ↦ rw t (≤ᴰ_refl a, ground arith)
]
