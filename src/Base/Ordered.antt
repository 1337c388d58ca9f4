-- ===== src/Base/Ordered.antt =====
-- Lists whose numeric keys ascend strictly: sorting leaves them alone, and a filter by a lower bound
-- on the key drops a front part.
use Prim.Native.Nat.{ℕ, zero, suc, ◌≤◌, ◌<◌}
use mathlib.Core.Path.{◌≡◌, refl, ap, subst, ◌∙◌}
use mathlib.Core.Logic.{inl, inr}
use mathlib.Core.Bool.{Bool, ◌&&◌}
use mathlib.Core.List.{List, [], ◌∷◌, ◌++◌}
use mathlib.Core.Option.{some}
use native.Mathlib.Omega.{arith}
use tw_stock_android_spec.Base.Tests.{ltb, lt→ltb, Bool-cases}
use tw_stock_android_spec.Base.Lists.{some_eq, take, drop, filter, get_last?, All, All-append}
use tw_stock_android_spec.Base.Sort.{insert_sorted, sort_by}

module _ {ℓ} {A : Type ℓ} (key : A → ℕ) where
  -- Every key is below all that follow it.
  abbrev pub Ascending : List A → Type 0
  Ascending [] = Unit
  Ascending (x ∷ xs) = All (λ y. key x < key y) xs × Ascending xs

  abbrev pub by_key : A → A → Bool
  by_key x y = ltb (key x) (key y)

  abbrev pub above : ℕ → A → Bool
  above c x = ltb c (key x)

  insert_sorted-least :
      (x : A) (xs : List A) → All (λ y. key x < key y) xs → insert_sorted by_key x xs ≡ x ∷ xs
  insert_sorted-least x [] h = refl
  insert_sorted-least x (y ∷ ys) h = ground arith

  pub sort_by-Ascending : (xs : List A) → Ascending xs → sort_by by_key xs ≡ xs
  sort_by-Ascending [] h = refl
  sort_by-Ascending (x ∷ xs) h =
      ap (insert_sorted by_key x) (sort_by-Ascending xs h.1) ∙ insert_sorted-least x xs h.0

  All-filter_below :
      (p : A → Bool) (n : ℕ) (xs : List A)
      → All (λ y. n < key y) xs
      → All (λ y. n < key y) (filter p xs)
  All-filter_below p n [] h = tt
  All-filter_below p n (x ∷ xs) h = elim (Bool-cases (p x)) [
    | inl t ↦ rw t (h.0, All-filter_below p n xs h.1)
    | inr t ↦ rw t (All-filter_below p n xs h.1)
  ]

  pub filter-Ascending : (p : A → Bool) (xs : List A) → Ascending xs → Ascending (filter p xs)
  filter-Ascending p [] h = tt
  filter-Ascending p (x ∷ xs) h = elim (Bool-cases (p x)) [
    | inl t ↦ rw t (All-filter_below p (key x) xs h.0, filter-Ascending p xs h.1)
    | inr t ↦ rw t (filter-Ascending p xs h.1)
  ]

  pub filter-above-All : (c : ℕ) (xs : List A) → All (λ y. c < key y) xs → filter (above c) xs ≡ xs
  filter-above-All c [] h = refl
  filter-above-All c (x ∷ xs) h = rw (lt→ltb c (key x) h.0) (ap (◌∷◌ x) (filter-above-All c xs h.1))

  -- A later bound filters what an earlier one let through.
  pub filter-above-above :
      (p : A → Bool) (c d : ℕ) (xs : List A)
      → c ≤ d
      → filter (λ x. p x && above d x) xs ≡ filter (above d) (filter (λ x. p x && above c x) xs)
  filter-above-above p c d [] h = refl
  filter-above-above p c d (x ∷ xs) h = ground (arith, filter-above-above p c d xs h)

  pub last_above :
      (n : ℕ) (x : A) (xs : List A)
      → All (λ y. n < key y) (x ∷ xs)
      → (b : ℕ) (z : A) → get_last? (take (suc b) (x ∷ xs)) ≡ some z
      → n < key z
  last_above n x [] h zero z e = ground arith
  last_above n x [] h (suc b) z e = ground arith
  last_above n x (y ∷ ys) h zero z e = ground arith
  last_above n x (y ∷ ys) h (suc b) z e = last_above n y ys h.1 b z e

  -- Past the last of a page of `suc b` comes exactly what the page left over.
  pub filter-above_last :
      (b : ℕ) (xs : List A) (z : A)
      → Ascending xs
      → get_last? (take (suc b) xs) ≡ some z
      → filter (above (key z)) xs ≡ drop (suc b) xs
  filter-above_last b [] z h e = cc
  filter-above_last zero (x ∷ xs) z h e =
      let below : All (λ y. key z < key y) xs =
        subst (λ w. All (λ y. key w < key y) xs) (some_eq e) h.0 in
      ground (arith, ap key (some_eq e), filter-above-All (key z) xs below)
  filter-above_last (suc b) (x ∷ []) z h e = ground arith
  filter-above_last (suc b) (x ∷ y ∷ ys) z h e =
      ground (arith, last_above (key x) y ys h.0 b z e, filter-above_last b (y ∷ ys) z h.1 e)

  pub Ascending-append_one :
      (xs : List A) (x : A) → Ascending xs → All (λ y. key y < key x) xs → Ascending (xs ++ x ∷ [])
  Ascending-append_one [] x h k = (tt, tt)
  Ascending-append_one (y ∷ ys) x h k =
      (All-append (λ z. key y < key z) ys (x ∷ []) h.0 (k.0, tt), Ascending-append_one ys x h.1 k.1)
