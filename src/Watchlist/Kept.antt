-- ===== src/Watchlist/Kept.antt =====
-- What a change of some rows leaves of the others (backend/app/repositories/sql_watchlist.py).
use tw_stock_android_spec.Base.{
  ℕ, ◌≡◌, refl, sym, Bool, true, false, ◌&&◌, some, some_eq, List, [], ◌∷◌, ◌++◌, ◌==◌, map, filter,
  find?, All, inl, inr, Bool-cases, subst, arith,
}
use tw_stock_android_spec.Base.Assoc.{nat_eq, contains, Distinct}
use tw_stock_android_spec.Watchlist.Rows.{keys_of}

module _ {A : Type 0} (p : A → Bool) where
  -- The function changes no row that passes the test, and makes none pass.
  abbrev pub Spares : (A → A) → A → Type 0
  Spares f x = (p (f x) ≡ p x) × (p x ≡ true → f x ≡ x)

  pub filter-map : (f : A → A) (xs : List A) → All (Spares f) xs → filter p (map f xs) ≡ filter p xs
  filter-map f [] h = refl
  filter-map f (x ∷ xs) h = elim (Bool-cases (p x)) [
    | inl t ↦ rw (h.0.0, t, h.0.1 t, filter-map f xs h.1) refl
    | inr t ↦ rw (h.0.0, t) (filter-map f xs h.1)
  ]

  pub filter-filter :
      (q : A → Bool) (xs : List A)
      → All (λ x. p x ≡ true → q x ≡ true) xs
      → filter p (filter q xs) ≡ filter p xs
  filter-filter q [] h = refl
  filter-filter q (x ∷ xs) h = elim (Bool-cases (p x)) [
    | inl t ↦ rw (h.0 t, t, filter-filter q xs h.1) refl
    | inr t ↦ elim (Bool-cases (q x)) [
      | inl u ↦ rw (u, t) (filter-filter q xs h.1)
      | inr u ↦ rw (u, t) (filter-filter q xs h.1)
    ]
  ]

  pub filter-append_other :
      (xs : List A) (x : A) → p x ≡ false → filter p (xs ++ x ∷ []) ≡ filter p xs
  filter-append_other [] x h = rw h refl
  filter-append_other (y ∷ xs) x h = elim (Bool-cases (p y)) [
    | inl t ↦ rw (t, filter-append_other xs x h) refl
    | inr t ↦ rw t (filter-append_other xs x h)
  ]

pub every : {A : Type 0} (P : A → Type 0) (xs : List A) → ((x : A) → P x) → All P xs
every P [] h = tt
every P (x ∷ xs) h = (h x, every P xs h)

module _ {A : Type 0} (key : A → ℕ) (q : A → Bool) (id : ℕ) where
  abbrev is_found : A → Bool
  is_found a = key a == id && q a

  key_there :
      (xs : List A) (a : A) → find? is_found xs ≡ some a → contains (key a) (keys_of key xs) ≡ true
  key_there [] a h = cc
  key_there (x ∷ xs) a h = elim (Bool-cases (is_found x)) [
    | inl t ↦
        let same : some x ≡ some a = rw t at h in
        subst (λ y. contains (key y) (keys_of key (x ∷ xs)) ≡ true) (some_eq same) (ground arith)
    | inr t ↦ let rest = key_there xs a (rw t at h) in ground (arith, rest)
  ]

  keys_other :
      (k : ℕ) (xs : List A)
      → contains k (keys_of key xs) ≡ false
      → All (λ y. key y == k ≡ true → q y ≡ true) xs
  keys_other k [] h = tt
  keys_other k (x ∷ xs) h = (λ t. ground (arith, h, t), keys_other k xs (ground (arith, h)))

  -- Where no id stands twice, the row that was found is all that has its id.
  pub found_only :
      (xs : List A) (a : A)
      → Distinct (keys_of key xs)
      → find? is_found xs ≡ some a
      → All (λ y. key y == key a ≡ true → q y ≡ true) xs
  found_only [] a d h = tt
  found_only (x ∷ xs) a d h = elim (Bool-cases (is_found x)) [
    | inl t ↦
        let same : some x ≡ some a = rw t at h in
        subst (λ y. All (λ z. key z == key y ≡ true → q z ≡ true) (x ∷ xs)) (some_eq same)
          (λ u. ground (arith, t), keys_other (key x) xs d.0)
    | inr t ↦
        let rest : find? is_found xs ≡ some a = rw t at h in
        let there = key_there xs a rest in
        let fresh = d.0 in
        (
          λ u.
              let same : key x ≡ key a = ground (arith, u) in
              let again = subst (λ k. contains k (keys_of key xs) ≡ true) (sym same) there in cc,
          found_only xs a d.1 rest,
        )
  ]
