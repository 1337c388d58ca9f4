-- ===== src/Watchlist/Keys.antt =====
-- The ids of rows and the search for one, under a change of the rows
-- (backend/app/repositories/sql_watchlist.py).
use tw_stock_android_spec.Base.{
  ℕ, ◌≡◌, refl, ap, Bool, false, none, List, [], ◌∷◌, ◌++◌, map, filter, find?, All, inl, inr,
  Bool-cases, arith,
}
use tw_stock_android_spec.Base.Assoc.{nat_eq, contains, Distinct}
use tw_stock_android_spec.Watchlist.Rows.{keys_of}

module _ {A : Type 0} (key : A → ℕ) where
  pub keys_of-map :
      (f : A → A) (rows : List A)
      → ((a : A) → key (f a) ≡ key a)
      → keys_of key (map f rows) ≡ keys_of key rows
  keys_of-map f [] h = refl
  keys_of-map f (a ∷ rows) h = rw (h a, keys_of-map f rows h) refl

  pub keys_of-append_one :
      (rows : List A) (a : A) → keys_of key (rows ++ a ∷ []) ≡ keys_of key rows ++ key a ∷ []
  keys_of-append_one [] a = refl
  keys_of-append_one (b ∷ rows) a = ap (◌∷◌ (key b)) (keys_of-append_one rows a)

  module _ (q : A → Bool) where
    keys_of-filter :
        (k : ℕ) (rows : List A)
        → contains k (keys_of key rows) ≡ false
        → contains k (keys_of key (filter q rows)) ≡ false
    keys_of-filter k [] h = refl
    keys_of-filter k (a ∷ rows) h = elim (Bool-cases (q a)) [
      | inl t ↦ rw t (ground (arith, h, keys_of-filter k rows))
      | inr t ↦ rw t (keys_of-filter k rows (ground (arith, h)))
    ]

    pub Distinct-filter :
        (rows : List A) → Distinct (keys_of key rows) → Distinct (keys_of key (filter q rows))
    Distinct-filter [] d = tt
    Distinct-filter (a ∷ rows) d = elim (Bool-cases (q a)) [
      | inl t ↦ rw t (keys_of-filter (key a) rows d.0, Distinct-filter rows d.1)
      | inr t ↦ rw t (Distinct-filter rows d.1)
    ]

module _ {A : Type 0} (q : A → Bool) where
  pub find?-map :
      (f : A → A) (rows : List A)
      → ((a : A) → q (f a) ≡ q a)
      → find? q rows ≡ none
      → find? q (map f rows) ≡ none
  find?-map f [] same h = refl
  find?-map f (a ∷ rows) same h = elim (Bool-cases (q a)) [
    | inl t ↦ let no = rw t at h in cc
    | inr t ↦ rw (same a, t) (find?-map f rows same (rw t at h))
  ]

  pub find?-filter :
      (r : A → Bool) (rows : List A) → find? q rows ≡ none → find? q (filter r rows) ≡ none
  find?-filter r [] h = refl
  find?-filter r (a ∷ rows) h = elim (Bool-cases (q a)) [
    | inl t ↦ let no = rw t at h in cc
    | inr t ↦ elim (Bool-cases (r a)) [
      | inl u ↦ rw (u, t) (find?-filter r rows (rw t at h))
      | inr u ↦ rw u (find?-filter r rows (rw t at h))
    ]
  ]

  pub find?-append_one :
      (rows : List A) (a : A) → find? q rows ≡ none → q a ≡ false → find? q (rows ++ a ∷ []) ≡ none
  find?-append_one [] a h n = rw n refl
  find?-append_one (b ∷ rows) a h n = elim (Bool-cases (q b)) [
    | inl t ↦ let no = rw t at h in cc
    | inr t ↦ rw t (find?-append_one rows a (rw t at h) n)
  ]

pub All-map :
    {A : Type 0} (P : A → Type 0) (f : A → A) (rows : List A)
    → All (λ a. P (f a)) rows
    → All P (map f rows)
All-map P f [] h = tt
All-map P f (a ∷ rows) h = (h.0, All-map P f rows h.1)

pub All-both :
    {A : Type 0} (P Q R : A → Type 0) (rows : List A)
    → ((a : A) → P a → Q a → R a)
    → All P rows
    → All Q rows
    → All R rows
All-both P Q R [] f h k = tt
All-both P Q R (a ∷ rows) f h k = (f a h.0 k.0, All-both P Q R rows f h.1 k.1)
