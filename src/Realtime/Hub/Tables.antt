-- ===== src/Realtime/Hub/Tables.antt =====
-- The table of owners of a subscription manager, by identity
-- (backend/app/services/realtime_provider_manager.py).
use tw_stock_android_spec.Base.{
  ◌≡◌, refl, sym, ap, ◌∙◌, String, true, false, ◌||◌, none, some, List, [], ◌∷◌, str_eq, or_else,
  if◌then◌else◌, All, inl, inr, Bool-cases, Option-cases, subst, arith,
}
use tw_stock_android_spec.Base.Assoc.{
  Eq, string_eq, contains, Distinct, Distinct-append_one, Distinct-erase, beq_eq, beq_refl,
  find_key, put, delete, keys, find_key-put_self, find_key-put_ne, keys-put_there, put-append_one,
  keys-append, keys-delete, contains-keys, All-put, All-delete,
}
use tw_stock_android_spec.Realtime.Quote.{Identity, identity_eq, same_identity, same_identity_iff}
use tw_stock_android_spec.Realtime.Hub.Interface.{is_call}

module _ {ℓ κ} {K : Type ℓ} {V : Type κ} ⦃e : Eq K⦄ where
  pub find_key-put :
      (k j : K) (v : V) (d : List (K × V))
      → find_key j (put k v d) ≡ (if e.beq k j then some v else find_key j d)
  find_key-put k j v d = elim (Bool-cases (e.beq k j)) [
    | inl t ↦
        subst (λ i. find_key i (put k v d) ≡ some v) (beq_eq k j t) (find_key-put_self k v d)
        ∙ rw t refl
    | inr t ↦
        find_key-put_ne k j v d
          (λ same. true-false (sym (subst (λ i. e.beq k i ≡ true) same (beq_refl k)) ∙ t))
        ∙ rw t refl
  ]
    where
      true-false : true ≡ false → ⊥
      true-false p = cc

  pub find_key-absent :
      (k : K) (d : List (K × V)) → contains k (keys d) ≡ false → find_key k d ≡ none
  find_key-absent k [] h = refl
  find_key-absent k ((j, w) ∷ d) h = ground (arith, find_key-absent k d)

  pub find_key-delete :
      (k j : K) (d : List (K × V))
      → Distinct (keys d)
      → find_key j (delete k d) ≡ (if e.beq k j then none else find_key j d)
  find_key-delete k j [] h = ground arith
  find_key-delete k j ((i, w) ∷ d) h = elim (Bool-cases (e.beq i k)) [
    | inl t ↦ elim (Bool-cases (e.beq k j)) [
      | inl u ↦
          rw (t, u)
            (find_key-absent j d
              (subst (λ z. contains z (keys d) ≡ false) (beq_eq i k t ∙ beq_eq k j u) h.0))
      | inr u ↦ rw (t, u, subst (λ z. e.beq z j ≡ false) (sym (beq_eq i k t)) u) refl
    ]
    | inr t ↦ elim (Bool-cases (e.beq k j)) [
      | inl u ↦
          rw (t, u, subst (λ z. e.beq i z ≡ false) (beq_eq k j u) t)
            (find_key-delete k j d h.1 ∙ rw u refl)
      | inr u ↦ rw (t, u, find_key-delete k j d h.1) (rw u refl)
    ]
  ]

  pub Distinct-put :
      (k : K) (v : V) (d : List (K × V)) → Distinct (keys d) → Distinct (keys (put k v d))
  Distinct-put k v d h = elim (Option-cases (find_key k d)) [
    | inl new ↦
        subst Distinct (sym (ap keys (put-append_one k v d new) ∙ keys-append d ((k, v) ∷ [])))
          (Distinct-append_one (keys d) k h (contains-keys k d new))
    | inr (w, there) ↦ subst Distinct (sym (keys-put_there k v w d there)) h
  ]

  Distinct-delete : (k : K) (d : List (K × V)) → Distinct (keys d) → Distinct (keys (delete k d))
  Distinct-delete k d h = subst Distinct (sym (keys-delete k d)) (Distinct-erase k (keys d) h)

abbrev pub Table : Type 0
Table = List (Identity × List String)

abbrev pub owners_at : Identity → Table → List String
owners_at i table = or_else (find_key i table) []

pub owners_at-put :
    (i j : Identity) (os : List String) (table : Table)
    → owners_at j (put i os table) ≡ (if same_identity i j then os else owners_at j table)
owners_at-put i j os table = ap (λ o. or_else o []) (find_key-put i j os table) ∙ ground arith

pub owners_at-delete :
    (i j : Identity) (table : Table)
    → Distinct (keys table)
    → owners_at j (delete i table) ≡ (if same_identity i j then [] else owners_at j table)
owners_at-delete i j table d = ap (λ o. or_else o []) (find_key-delete i j table d) ∙ ground arith

-- No identity stands twice, and no owner twice at one.
pub record IsTable (table : Table) : Type 0 where
  pub identities : Distinct (keys table)
  pub owners : All (λ e. Distinct e.1) table

pub put-IsTable :
    (i : Identity) (os : List String) (table : Table)
    → Distinct os
    → IsTable table
    → IsTable (put i os table)
put-IsTable i os table d t = record {
  identities = Distinct-put i os table t.identities;
  owners = All-put Distinct i os table t.owners d;
}

pub delete-IsTable : (i : Identity) (table : Table) → IsTable table → IsTable (delete i table)
delete-IsTable i table t = record {
  identities = Distinct-delete i table t.identities;
  owners = All-delete Distinct i table t.owners;
}

-- What a table is after the owners of one identity became `os`
module _ (i : Identity) (o : String) (os : List String) (table table' : Table)
    (written : (j : Identity)
      → owners_at j table' ≡ (if same_identity i j then os else owners_at j table)) where
  at_same : (j : Identity) → same_identity i j ≡ true → owners_at j table' ≡ os
  at_same j t = written j ∙ rw t refl

  at_other : (j : Identity) → same_identity i j ≡ false → owners_at j table' ≡ owners_at j table
  at_other j t = written j ∙ rw t refl

  before_same : (j : Identity) → same_identity i j ≡ true → owners_at j table ≡ owners_at i table
  before_same j t = ap (λ k. owners_at k table) (sym ((same_identity_iff i j).0 t))

  -- One owner more
  pub taken_law :
      ((p : String) → contains p os ≡ (contains p (owners_at i table) || str_eq o p))
      → (p : String) (j : Identity)
      → contains p (owners_at j table')
        ≡ (if is_call o i p j then true else contains p (owners_at j table))
  taken_law more p j = elim (Bool-cases (same_identity i j)) [
    | inl t ↦ ap (contains p) (at_same j t) ∙ more p ∙ rw (t, before_same j t) (ground arith)
    | inr t ↦ ap (contains p) (at_other j t) ∙ rw t (ground arith)
  ]

  -- One owner less
  pub gone_law :
      ((p : String)
        → contains p os ≡ (if str_eq o p then false else contains p (owners_at i table)))
      → (p : String) (j : Identity)
      → contains p (owners_at j table')
        ≡ (if is_call o i p j then false else contains p (owners_at j table))
  gone_law less p j = elim (Bool-cases (same_identity i j)) [
    | inl t ↦ ap (contains p) (at_same j t) ∙ less p ∙ rw (t, before_same j t) (ground arith)
    | inr t ↦ ap (contains p) (at_other j t) ∙ rw t (ground arith)
  ]

  -- The same owners as before
  pub same_law :
      os ≡ owners_at i table
      → (p : String) (j : Identity)
      → contains p (owners_at j table') ≡ contains p (owners_at j table)
  same_law same p j = elim (Bool-cases (same_identity i j)) [
    | inl t ↦ ap (contains p) (at_same j t ∙ same ∙ sym (before_same j t))
    | inr t ↦ ap (contains p) (at_other j t)
  ]
