-- ===== src/Watchlist/Counted.antt =====
-- Counting what is found: rows and the ids that they were looked for by
-- (backend/app/repositories/sql_watchlist.py).
use tw_stock_android_spec.Base.{
  suc, ◌≤◌, ◌≡◌, refl, sym, ap, ◌∙◌, Bool, true, false, ◌&&◌, List, [], ◌∷◌, length, filter, All,
  inl, inr, Bool-cases, subst, arith,
}
use tw_stock_android_spec.Base.Assoc.{
  Eq, nat_eq, beq_eq, beq_refl, contains, erase, Distinct, Distinct-erase, contains-erase,
}

module _ {ℓ} {A : Type ℓ} ⦃e : Eq A⦄ where
  -- Every element of the first is one of the second.
  abbrev pub Within : List A → List A → Type ℓ
  Within xs ys = (a : A) → contains a xs ≡ true → contains a ys ≡ true

  length-erase :
      (a : A) (xs : List A) → contains a xs ≡ true → suc (length (erase a xs)) ≡ length xs
  length-erase a [] h = cc
  length-erase a (x ∷ xs) h = elim (Bool-cases (e.beq x a)) [
    | inl t ↦ rw t refl
    | inr t ↦ rw t (ap suc (length-erase a xs (rw t at h)))
  ]

  in_rest :
      (a x : A) (xs ys : List A)
      → contains x xs ≡ false
      → Distinct ys
      → contains a xs ≡ true
      → contains a ys ≡ true
      → contains a (erase x ys) ≡ true
  in_rest a x xs ys new d h g = elim (Bool-cases (e.beq x a)) [
    | inl t ↦
        absurd (false_true (sym new ∙ subst (λ y. contains y xs ≡ true) (sym (beq_eq x a t)) h))
    | inr t ↦ contains-erase a x ys d ∙ rw t g
  ]
    where
      false_true : false ≡ true → ⊥
      false_true p = cc

  pub length-Within :
      (xs ys : List A) → Distinct xs → Distinct ys → Within xs ys → length xs ≤ length ys
  length-Within [] ys d c w = omega arith
  length-Within (x ∷ xs) ys d c w =
      let here = w x (rw (beq_refl x) refl) in
      omega (
        arith,
        length-erase x ys here,
        length-Within xs (erase x ys) d.1 (Distinct-erase x ys c)
            (λ b g. in_rest b x xs ys d.0 c g (w b (ground (arith, g)))),
      )

module _ {ℓ} {A : Type ℓ} (p q : A → Bool) where
  length-filter_both : (xs : List A) → length (filter (λ x. p x && q x) xs) ≤ length (filter p xs)
  length-filter_both [] = omega arith
  length-filter_both (x ∷ xs) = ground (arith, length-filter_both xs)

  -- Where the second test drops nothing of what the first leaves, it holds there.
  pub none_dropped :
      (xs : List A)
      → length (filter p xs) ≤ length (filter (λ x. p x && q x) xs)
      → All (λ x. p x ≡ true → q x ≡ true) xs
  none_dropped [] n = tt
  none_dropped (x ∷ xs) n = (
    λ h. ground (arith, n, h, length-filter_both xs),
    none_dropped xs (ground (arith, n, length-filter_both xs)),
  )
