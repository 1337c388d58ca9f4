-- ===== src/Indicator/Front.antt =====
-- Front parts of a series: the shapes that the loops of backend/app/services/technical_indicators.py
-- give their results, and a loop over fewer indices.
use Prim.Native.Nat.{min}
use tw_stock_android_spec.Base.{
  ℕ, zero, suc, ◌-◌, ◌≤◌, ◌<◌, ◌≡◌, refl, sym, ap, ◌∙◌, Option, none, some, List, [], ◌∷◌, ◌++◌,
  leb, length, take, length-take, inl, inr, Bool-cases, arith,
}
use tw_stock_android_spec.Outcome.{Result, ok, ◌>>=◌, Follows, Follows-ok, Follows-bind}
use tw_stock_android_spec.Indicator.Series.{
  blanks, scan, scan-Follows, take-blanks_le, take-blanks_ge,
}

pub length-take_le {ℓ} : {A : Type ℓ} (k : ℕ) (xs : List A) → k ≤ length xs → length (take k xs) ≡ k
length-take_le k xs le = omega (arith, length-take k xs)

-- What a seed is written at, and what follows it.
abbrev pub seeded {ℓ} : {A : Type ℓ} → ℕ → A → List (Option A) → List (Option A)
seeded period seed rest = blanks (period - 1) ++ some seed ∷ rest

module _ {ℓ} {A : Type ℓ} (k period : ℕ) (seed : A) (rest : List (Option A))
    (least : 0 < period) where
  pub take-seeded_lt : k < period → take k (seeded period seed rest) ≡ blanks k
  take-seeded_lt h = take-blanks_le k (period - 1) (some seed ∷ rest) (omega arith)

  pub take-seeded_ge :
      period ≤ k → take k (seeded period seed rest) ≡ seeded period seed (take (k - period) rest)
  take-seeded_ge h =
      take-blanks_ge k (period - 1) (some seed ∷ rest) (omega arith)
      ∙ ap (λ n. blanks (period - 1) ++ take n (some seed ∷ rest)) one_more
    where
      one_more : k - (period - 1) ≡ suc (k - period)
      one_more = omega arith

pub take-blanks {ℓ} : {A : Type ℓ} (k n : ℕ) → k ≤ n → take k (blanks {A = A} n) ≡ blanks k
unfolding blanks
take-blanks zero n le = refl
take-blanks (suc k) zero le = absurd (omega arith)
take-blanks (suc k) (suc n) le = ap (◌∷◌ none) (take-blanks k n (omega arith))

append-nil {ℓ} : {A : Type ℓ} (xs : List A) → xs ++ [] ≡ xs
append-nil [] = refl
append-nil (x ∷ xs) = ap (◌∷◌ x) (append-nil xs)

-- A series that begins after `a` blanks, or is blank where it is shorter than that.
abbrev pub padded {ℓ} : {A : Type ℓ} → ℕ → ℕ → List (Option A) → List (Option A)
padded n a rest = blanks (min n a) ++ rest

take-padded {ℓ} :
    {A : Type ℓ} (n a k : ℕ) (rest : List (Option A))
    → k ≤ n
    → take k (padded n a rest) ≡ padded k a (take (k - a) rest)
take-padded n a k rest le = elim (Bool-cases (leb a k)) [
  | inl t ↦
      let here : min n a ≡ a = ground arith in
      let there : min k a ≡ a = ground arith in
      ap (λ m. take k (blanks m ++ rest)) here
      ∙ take-blanks_ge k a rest (ground arith)
      ∙ ap (λ m. blanks m ++ take (k - a) rest) (sym there)
  | inr t ↦
      let there : min k a ≡ k = ground arith in
      let no_rest : k - a ≡ 0 = ground arith in
      take-blanks_le k (min n a) rest (ground arith)
      ∙ sym (append-nil (blanks k))
      ∙ ap (λ m. blanks m ++ []) (sym there)
      ∙ ap (λ m. blanks (min k a) ++ take m rest) (sym no_rest)
]

module _ {ℓ κ} {S : Type ℓ} {B : Type κ} (step other : ℕ → S → Result (S × Option B)) (s : S)
    (n k : ℕ) (le : k ≤ n) where
  -- A loop that begins at index `a`
  pub padded-Follows :
      (a : ℕ)
      → ((i : ℕ) (t : S) → a ≤ i → i < k → step i t ≡ other i t)
      → Follows
          (take k)
          (scan step s a (n - a) >>= λ rest. ok (padded n a rest))
          (scan other s a (k - a) >>= λ rest. ok (padded k a rest))
  padded-Follows a agree =
      Follows-bind (take (k - a)) (take k) _ _ _ _
        (scan-Follows step other s a (n - a) (k - a) (λ i t lo hi. agree i t lo (omega arith))
          (omega arith))
        (λ rest. Follows-ok (take k) (padded n a rest) _ (take-padded n a k rest le))

  -- A loop that follows a seed
  pub seeded-Follows :
      (period : ℕ) (seed : B)
      → 0 < period
      → period ≤ k
      → ((i : ℕ) (t : S) → period ≤ i → i < k → step i t ≡ other i t)
      → Follows
          (take k)
          (scan step s period (n - period) >>= λ rest. ok (seeded period seed rest))
          (scan other s period (k - period) >>= λ rest. ok (seeded period seed rest))
  seeded-Follows period seed least many agree =
      Follows-bind (take (k - period)) (take k) _ _ _ _
        (scan-Follows step other s period (n - period) (k - period)
          (λ i t lo hi. agree i t lo (omega arith)) (omega arith))
        (λ rest.
          Follows-ok (take k) (seeded period seed rest) _
            (take-seeded_ge k period seed rest least many))
