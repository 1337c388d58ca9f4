-- ===== src/Indicator/Series.antt =====
-- What the indicators of backend/app/services/technical_indicators.py are made of: means, slices,
-- and loops over the indices of a list that append one value for each.

use tw_stock_android_spec.Base.{
  ℕ, zero, suc, ◌+◌, ◌-◌, ◌≤◌, ◌<◌, ◌≡◌, refl, sym, ap, ◌∙◌, Option, none, some, List, [], ◌∷◌,
  ◌++◌, length, take, drop, ◌==◌, Bool, arith,
}
use tw_stock_android_spec.Base.Decimal.{Decimal, of_nat, ◌+ᴰ◌, left_side, right_side, div}
use tw_stock_android_spec.Outcome.{
  Result, ok, arithmetic_error, index_error, or_raise, ◌>>=◌, >>=-eq-ok, ok-injective, Follows,
}

abbrev pub ratio : Decimal → Decimal → Result Decimal
ratio a b = or_raise (div a b) arithmetic_error

-- `a == b`
abbrev pub same : Decimal → Decimal → Bool
same a b = left_side a b == right_side a b

-- `sum(values, start)`
unfoldable pub sum_decimals : Decimal → List Decimal → Decimal
sum_decimals total [] = total
sum_decimals total (v ∷ values) = sum_decimals (total +ᴰ v) values

unfoldable pub mean : List Decimal → Result Decimal
mean values = ratio (sum_decimals (of_nat 0) values) (of_nat (length values))

module _ {ℓ} {A : Type ℓ} where
  unfoldable pub get_elem? : List A → ℕ → Option A
  get_elem? [] i = none
  get_elem? (x ∷ xs) zero = some x
  get_elem? (x ∷ xs) (suc i) = get_elem? xs i

  -- `xs[index]`
  abbrev pub item : List A → ℕ → Result A
  item xs index = or_raise (get_elem? xs index) index_error

  -- `xs[index + 1 - period : index + 1]`, where `period` is at most `index + 1`.
  abbrev pub window : ℕ → ℕ → List A → List A
  window period index xs = take period (drop (index + 1 - period) xs)

  -- `[None] * n`, for values that are optional
  unfoldable pub blanks : ℕ → List (Option A)
  blanks zero = []
  blanks (suc n) = none ∷ blanks n

  pub get_elem?-take : (k i : ℕ) (xs : List A) → i < k → get_elem? (take k xs) i ≡ get_elem? xs i
  unfolding get_elem?
  get_elem?-take zero i xs h = absurd (omega arith)
  get_elem?-take (suc k) i [] h = refl
  get_elem?-take (suc k) zero (x ∷ xs) h = refl
  get_elem?-take (suc k) (suc i) (x ∷ xs) h = get_elem?-take k i xs (omega arith)

  pub take-drop-take :
      (p d k : ℕ) (xs : List A) → d + p ≤ k → take p (drop d (take k xs)) ≡ take p (drop d xs)
  take-drop-take zero d k xs h = refl
  take-drop-take (suc p) zero zero xs h = absurd (omega arith)
  take-drop-take (suc p) zero (suc k) [] h = refl
  take-drop-take (suc p) zero (suc k) (x ∷ xs) h =
      ap (◌∷◌ x) (take-drop-take p zero k xs (omega arith))
  take-drop-take (suc p) (suc d) zero xs h = absurd (omega arith)
  take-drop-take (suc p) (suc d) (suc k) [] h = refl
  take-drop-take (suc p) (suc d) (suc k) (x ∷ xs) h = take-drop-take (suc p) d k xs (omega arith)

  -- A window that ends before `k` is a window of the first `k`.
  pub window-take :
      (period index k : ℕ) (xs : List A)
      → period ≤ index + 1
      → index < k
      → window period index (take k xs) ≡ window period index xs
  window-take period index k xs fits h =
      take-drop-take period (index + 1 - period) k xs (omega arith)

  pub take-blanks_le : (k a : ℕ) (ys : List (Option A)) → k ≤ a → take k (blanks a ++ ys) ≡ blanks k
  unfolding blanks
  take-blanks_le zero a ys h = refl
  take-blanks_le (suc k) zero ys h = absurd (omega arith)
  take-blanks_le (suc k) (suc a) ys h = ap (◌∷◌ none) (take-blanks_le k a ys (omega arith))

  pub take-blanks_ge :
      (k a : ℕ) (ys : List (Option A))
      → a ≤ k
      → take k (blanks a ++ ys) ≡ blanks a ++ take (k - a) ys
  unfolding blanks
  take-blanks_ge k zero ys h = ap (λ n. take n ys) (omega arith)
  take-blanks_ge zero (suc a) ys h = absurd (omega arith)
  take-blanks_ge (suc k) (suc a) ys h =
      ap (◌∷◌ none)
        (take-blanks_ge k a ys (omega arith) ∙ ap (λ n. blanks a ++ take n ys) (omega arith))

-- A loop over `count` indices from `index` that carries a state and yields one value for each.
module _ {ℓ κ} {S : Type ℓ} {B : Type κ} where
  unfoldable pub scan : (ℕ → S → Result (S × B)) → S → ℕ → ℕ → Result (List B)
  scan step s index zero = ok []
  scan step s index (suc count) = do
    next ← step index s
    rest ← scan step next.0 (index + 1) count
    ok (next.1 ∷ rest)

  -- A shorter loop yields a front part, where the steps agree at its indices.
  pub scan-take :
      (step other : ℕ → S → Result (S × B)) (s : S) (index n m : ℕ) (out : List B)
      → ((i : ℕ) (t : S) → index ≤ i → i < index + m → step i t ≡ other i t)
      → m ≤ n
      → scan step s index n ≡ ok out
      → scan other s index m ≡ ok (take m out)
  unfolding scan
  scan-take step other s index n zero out agree le h = refl
  scan-take step other s index zero (suc m) out agree le h = absurd (omega arith)
  scan-take step other s index (suc n) (suc m) out agree le h =
      let first =
        >>=-eq-ok (step index s)
          (λ next. scan step next.0 (index + 1) n >>= λ rest. ok (next.1 ∷ rest)) h in
      let then_rest =
        >>=-eq-ok (scan step first.0.0 (index + 1) n) (λ rest. ok (first.0.1 ∷ rest)) first.2 in
      let shorter =
        scan-take step other first.0.0 (index + 1) n m then_rest.0
          (λ i t lo hi. agree i t (omega arith) (omega arith)) (omega arith) then_rest.1 in
      let same = sym (agree index s (omega arith) (omega arith)) ∙ first.1 in
      let out_eq = ok-injective then_rest.2 in
      rw (same, shorter) (ap (λ (xs : List B). ok (take (suc m) xs)) out_eq)

  pub scan-Follows :
      (step other : ℕ → S → Result (S × B)) (s : S) (index n m : ℕ)
      → ((i : ℕ) (t : S) → index ≤ i → i < index + m → step i t ≡ other i t)
      → m ≤ n
      → Follows (take m) (scan step s index n) (scan other s index m)
  scan-Follows step other s index n m agree le out h =
      scan-take step other s index n m out agree le h
