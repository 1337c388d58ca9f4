-- ===== src/Base/Assoc.antt =====
-- Equality as an interface, and Python dictionaries in insertion order over keys that have it.
use Prim.Native.Nat.{ℕ, suc, ◌≤◌}
use Prim.Native.String.{String}
use mathlib.Core.Path.{◌≡◌, refl, ap, ◌∙◌, sym, subst}
use mathlib.Core.Logic.{◌↔◌, inl, inr, ◌≢◌}
use mathlib.Core.Bool.{Bool, true, false, ◌||◌, ◌&&◌}
use mathlib.Core.List.{List, [], ◌∷◌, ◌++◌}
use mathlib.Core.Option.{Option, none, some}
use native.Mathlib.Omega.{arith}
use text.Mathlib.Text.{◌==◌ as str_eq}
use text.Mathlib.TextEquality.{eq_iff}
use tw_stock_android_spec.Base.Lists.{length, All, some_eq}
use tw_stock_android_spec.Base.Tests.{◌==◌, ==_iff, if◌then◌else◌, Bool-cases}

pub record Eq {ℓ} (A : Type ℓ) : Type ℓ where
  pub beq : A → A → Bool
  -- The test decides the path.
  pub beq_iff : (x y : A) → (beq x y ≡ true) ↔ (x ≡ y)

pub nat_eq_iff : (a b : ℕ) → ((a == b) ≡ true) ↔ (a ≡ b)
nat_eq_iff a b = ==_iff a b

instance abbrev pub nat_eq : Eq ℕ
nat_eq = record { beq = λ a b. a == b; beq_iff = nat_eq_iff }

instance abbrev pub string_eq : Eq String
string_eq = record { beq = str_eq; beq_iff = eq_iff }

-- Two ids as one key.
abbrev pub Pair : Type 0
Pair = ℕ × ℕ

abbrev pub same_pair : Pair → Pair → Bool
same_pair (a, b) (c, d) = a == c && b == d

pub same_pair_iff : (p q : Pair) → (same_pair p q ≡ true) ↔ (p ≡ q)
same_pair_iff (a, b) (c, d) = ground arith

instance abbrev pub pair_eq : Eq Pair
pair_eq = record { beq = same_pair; beq_iff = same_pair_iff }

-- An id and a text as one key.
abbrev pub same_named : ℕ × String → ℕ × String → Bool
same_named (a, s) (b, t) = a == b && str_eq s t

pub same_named_iff : (p q : ℕ × String) → (same_named p q ≡ true) ↔ (p ≡ q)
same_named_iff (a, s) (b, t) = ground (arith, eq_iff s t)

instance abbrev pub named_eq : Eq (ℕ × String)
named_eq = record { beq = same_named; beq_iff = same_named_iff }

module _ {ℓ} {A : Type ℓ} ⦃e : Eq A⦄ where
  pub beq_refl : (a : A) → e.beq a a ≡ true
  beq_refl a = (e.beq_iff a a).1 refl

  pub beq_eq : (a b : A) → e.beq a b ≡ true → a ≡ b
  beq_eq a b h = (e.beq_iff a b).0 h

  -- `a in xs`
  abbrev pub contains : A → List A → Bool
  contains a [] = false
  contains a (x ∷ xs) = e.beq x a || contains a xs

  pub contains-append_one : (a : A) (xs : List A) → contains a (xs ++ a ∷ []) ≡ true
  contains-append_one a [] = rw (beq_refl a)
  contains-append_one a (x ∷ xs) = ground (arith, contains-append_one a xs)

  -- `xs.remove(a)` of a set
  abbrev pub erase : A → List A → List A
  erase a [] = []
  erase a (x ∷ xs) = if e.beq x a then xs else x ∷ erase a xs

  pub erase-append_one : (a : A) (xs : List A) → contains a xs ≡ false → erase a (xs ++ a ∷ []) ≡ xs
  erase-append_one a [] h = rw (beq_refl a)
  erase-append_one a (x ∷ xs) h = elim (Bool-cases (e.beq x a)) [
    | inl t ↦ absurd (true_false (rw t at h))
    | inr t ↦ rw t (ap (◌∷◌ x) (erase-append_one a xs (rw t at h)))
  ]
    where
      true_false : true ≡ false → ⊥
      true_false p = cc

  -- No element stands twice.
  abbrev pub Distinct : List A → Type 0
  Distinct [] = Unit
  Distinct (x ∷ xs) = (contains x xs ≡ false) × Distinct xs

  contains-append_other :
      (a x : A) (xs : List A)
      → contains a xs ≡ false
      → e.beq x a ≡ false
      → contains a (xs ++ x ∷ []) ≡ false
  contains-append_other a x [] h n = rw n
  contains-append_other a x (y ∷ xs) h n = ground (arith, contains-append_other a x xs)

  contains_cons_false :
      (a x : A) (xs : List A)
      → contains a (x ∷ xs) ≡ false
      → (e.beq x a ≡ false) × (contains a xs ≡ false)
  contains_cons_false a x xs h = ground arith

  pub beq_sym_false : (a b : A) → e.beq a b ≡ false → e.beq b a ≡ false
  beq_sym_false a b h = elim (Bool-cases (e.beq b a)) [
    | inl t ↦
        absurd (true_false (sym (beq_refl a) ∙ subst (λ c. e.beq a c ≡ false) (beq_eq b a t) h))
    | inr t ↦ t
  ]
    where
      true_false : true ≡ false → ⊥
      true_false p = cc

  pub Distinct-append_one :
      (xs : List A) (x : A) → Distinct xs → contains x xs ≡ false → Distinct (xs ++ x ∷ [])
  Distinct-append_one [] x d h = (refl, tt)
  Distinct-append_one (y ∷ xs) x d h =
      let parts = contains_cons_false x y xs h in
      (
        contains-append_other y x xs d.0 (beq_sym_false y x parts.0),
        Distinct-append_one xs x d.1 parts.1,
      )

module _ {ℓ} {A : Type ℓ} ⦃e : Eq A⦄ where
  pub contains-append_one_eq :
      (a x : A) (xs : List A) → contains a (xs ++ x ∷ []) ≡ (contains a xs || e.beq x a)
  contains-append_one_eq a x [] = ground arith
  contains-append_one_eq a x (y ∷ xs) = ground (arith, contains-append_one_eq a x xs)

  pub contains-erase-false :
      (a x : A) (xs : List A) → contains a xs ≡ false → contains a (erase x xs) ≡ false
  contains-erase-false a x [] h = refl
  contains-erase-false a x (y ∷ xs) h = ground (arith, contains-erase-false a x xs)

  pub Distinct-erase : (x : A) (xs : List A) → Distinct xs → Distinct (erase x xs)
  Distinct-erase x [] d = tt
  Distinct-erase x (y ∷ xs) d = elim (Bool-cases (e.beq y x)) [
    | inl t ↦ rw t d.1
    | inr t ↦ rw t (contains-erase-false y x xs d.0, Distinct-erase x xs d.1)
  ]

  pub contains-erase :
      (a x : A) (xs : List A)
      → Distinct xs
      → contains a (erase x xs) ≡ (if e.beq x a then false else contains a xs)
  contains-erase a x [] d = ground arith
  contains-erase a x (y ∷ xs) d = elim (Bool-cases (e.beq y x)) [
    | inl t ↦ elim (Bool-cases (e.beq x a)) [
      | inl u ↦ rw (t, u) (subst (λ z. contains z xs ≡ false) (beq_eq y x t ∙ beq_eq x a u) d.0)
      | inr u ↦ rw (t, u, subst (λ z. e.beq z a ≡ false) (sym (beq_eq y x t)) u) refl
    ]
    | inr t ↦ elim (Bool-cases (e.beq x a)) [
      | inl u ↦
          rw (t, u, subst (λ z. e.beq y z ≡ false) (beq_eq x a u) t)
            (contains-erase a x xs d.1 ∙ rw u refl)
      | inr u ↦ rw (t, u, contains-erase a x xs d.1) (rw u refl)
    ]
  ]

module _ {ℓ κ} {K : Type ℓ} {V : Type κ} ⦃e : Eq K⦄ where
  abbrev pub find_key : K → List (K × V) → Option V
  find_key k [] = none
  find_key k ((j, v) ∷ d) = if e.beq j k then some v else find_key k d

  -- `d[k] = v`
  abbrev pub put : K → V → List (K × V) → List (K × V)
  put k v [] = (k, v) ∷ []
  put k v ((j, w) ∷ d) = if e.beq j k then (j, v) ∷ d else (j, w) ∷ put k v d

  -- `del d[k]`
  abbrev pub delete : K → List (K × V) → List (K × V)
  delete k [] = []
  delete k ((j, w) ∷ d) = if e.beq j k then d else (j, w) ∷ delete k d

  abbrev pub keys : List (K × V) → List K
  keys [] = []
  keys ((j, w) ∷ d) = j ∷ keys d

  pub find_key-put_self : (k : K) (v : V) (d : List (K × V)) → find_key k (put k v d) ≡ some v
  find_key-put_self k v [] = rw (beq_refl k)
  find_key-put_self k v ((j, w) ∷ d) = elim (Bool-cases (e.beq j k)) [
    | inl t ↦ rw (t, t)
    | inr t ↦ rw (t, t) (find_key-put_self k v d)
  ]

  pub find_key-put_ne :
      (k i : K) (v : V) (d : List (K × V)) → k ≢ i → find_key i (put k v d) ≡ find_key i d
  find_key-put_ne k i v [] ne = elim (Bool-cases (e.beq k i)) [
    | inl t ↦ absurd (ne (beq_eq k i t))
    | inr t ↦ rw t
  ]
  find_key-put_ne k i v ((j, w) ∷ d) ne = elim (Bool-cases (e.beq j k)) [
    | inl t ↦ elim (Bool-cases (e.beq j i)) [
      | inl u ↦ absurd (ne (ground (arith, beq_eq j k t, beq_eq j i u)))
      | inr u ↦ rw (t, u)
    ]
    | inr t ↦ elim (Bool-cases (e.beq j i)) [
      | inl u ↦ rw (t, u)
      | inr u ↦ rw (t, u) (find_key-put_ne k i v d ne)
    ]
  ]

  -- A key that is there keeps its place; a new one goes to the end.
  pub keys-put_there :
      (k : K) (v w : V) (d : List (K × V)) → find_key k d ≡ some w → keys (put k v d) ≡ keys d
  keys-put_there k v w [] h = absurd (none_some h)
    where
      none_some : {x : V} → none ≡ some x → ⊥
      none_some p = cc
  keys-put_there k v w ((j, x) ∷ d) h = elim (Bool-cases (e.beq j k)) [
    | inl t ↦ rw t
    | inr t ↦ rw t (ap (◌∷◌ j) (keys-put_there k v w d (rw t at h)))
  ]

  pub put-append_one :
      (k : K) (v : V) (d : List (K × V)) → find_key k d ≡ none → put k v d ≡ d ++ (k, v) ∷ []
  put-append_one k v [] h = refl
  put-append_one k v ((j, x) ∷ d) h = elim (Bool-cases (e.beq j k)) [
    | inl t ↦ absurd (some_none (rw t at h))
    | inr t ↦ rw t (ap (◌∷◌ (j, x)) (put-append_one k v d (rw t at h)))
  ]
    where
      some_none : {y : V} → some y ≡ none → ⊥
      some_none p = cc

  pub keys-append : (d c : List (K × V)) → keys (d ++ c) ≡ keys d ++ keys c
  keys-append [] c = refl
  keys-append ((j, w) ∷ d) c = ap (◌∷◌ j) (keys-append d c)

  pub delete-append_one :
      (k : K) (v : V) (d : List (K × V)) → find_key k d ≡ none → delete k (d ++ (k, v) ∷ []) ≡ d
  delete-append_one k v [] h = rw (beq_refl k)
  delete-append_one k v ((j, x) ∷ d) h = elim (Bool-cases (e.beq j k)) [
    | inl t ↦ absurd (some_none (rw t at h))
    | inr t ↦ rw t (ap (◌∷◌ (j, x)) (delete-append_one k v d (rw t at h)))
  ]
    where
      some_none : {y : V} → some y ≡ none → ⊥
      some_none p = cc

  pub keys-delete : (k : K) (d : List (K × V)) → keys (delete k d) ≡ erase k (keys d)
  keys-delete k [] = refl
  keys-delete k ((j, x) ∷ d) = elim (Bool-cases (e.beq j k)) [
    | inl t ↦ rw t
    | inr t ↦ rw t (ap (◌∷◌ j) (keys-delete k d))
  ]

  pub length-keys : (d : List (K × V)) → length (keys d) ≡ length d
  length-keys [] = refl
  length-keys (x ∷ d) = ap suc (length-keys d)

  pub length-delete-le : (k : K) (d : List (K × V)) → length (delete k d) ≤ length d
  length-delete-le k [] = omega arith
  length-delete-le k ((j, x) ∷ d) = elim (Bool-cases (e.beq j k)) [
    | inl t ↦ rw t (omega arith)
    | inr t ↦ rw t (omega (arith, length-delete-le k d))
  ]

  pub length-put_there :
      (k : K) (v w : V) (d : List (K × V)) → find_key k d ≡ some w → length (put k v d) ≡ length d
  length-put_there k v w d h =
      sym (length-keys (put k v d)) ∙ ap length (keys-put_there k v w d h) ∙ length-keys d

  -- Writing back what was there undoes a write.
  pub put_back :
      (k : K) (v w : V) (d : List (K × V)) → find_key k d ≡ some v → put k v (put k w d) ≡ d
  put_back k v w [] h = absurd (none_some h)
    where
      none_some : {x : V} → none ≡ some x → ⊥
      none_some p = cc
  put_back k v w ((j, x) ∷ d) h = elim (Bool-cases (e.beq j k)) [
    | inl t ↦ simp t (ap (λ y. (j, y) ∷ d) (sym (some_eq (rw t at h))))
    | inr t ↦ simp t (ap (◌∷◌ (j, x)) (put_back k v w d (rw t at h)))
  ]

  pub contains-keys : (k : K) (d : List (K × V)) → find_key k d ≡ none → contains k (keys d) ≡ false
  contains-keys k [] h = refl
  contains-keys k ((j, x) ∷ d) h = elim (Bool-cases (e.beq j k)) [
    | inl t ↦ absurd (some_none (rw t at h))
    | inr t ↦ rw t (contains-keys k d (rw t at h))
  ]
    where
      some_none : {y : V} → some y ≡ none → ⊥
      some_none p = cc

  -- A predicate on the values of a dictionary.
  module _ {μ} (P : V → Type μ) where
    pub All-find_key :
        (k : K) (v : V) (d : List (K × V)) → All (λ x. P x.1) d → find_key k d ≡ some v → P v
    All-find_key k v [] h f = absurd (none_some f)
      where
        none_some : {x : V} → none ≡ some x → ⊥
        none_some p = cc
    All-find_key k v ((j, w) ∷ d) h f = elim (Bool-cases (e.beq j k)) [
      | inl t ↦ subst P (some_eq (rw t at f)) h.0
      | inr t ↦ All-find_key k v d h.1 (rw t at f)
    ]

    pub All-put :
        (k : K) (v : V) (d : List (K × V)) → All (λ x. P x.1) d → P v → All (λ x. P x.1) (put k v d)
    All-put k v [] h p = (p, tt)
    All-put k v ((j, w) ∷ d) h p = elim (Bool-cases (e.beq j k)) [
      | inl t ↦ rw t (p, h.1)
      | inr t ↦ rw t (h.0, All-put k v d h.1 p)
    ]

    pub All-delete : (k : K) (d : List (K × V)) → All (λ x. P x.1) d → All (λ x. P x.1) (delete k d)
    All-delete k [] h = tt
    All-delete k ((j, w) ∷ d) h = elim (Bool-cases (e.beq j k)) [
      | inl t ↦ rw t h.1
      | inr t ↦ rw t (h.0, All-delete k d h.1)
    ]
