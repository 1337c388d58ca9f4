-- ===== src/Realtime/Hub/Coalesced.antt =====
-- What a session is sent of the quotes that were routed (backend/app/services/realtime_hub.py).
use tw_stock_android_spec.Base.{
  ℕ, ◌≡◌, refl, sym, ◌∙◌, String, true, false, Option, none, some, List, [], ◌∷◌, map, str_eq,
  eq_iff, if◌then◌else◌, filter, get_last?, All, inl, inr, Bool-cases, subst, arith,
}
use tw_stock_android_spec.Base.Assoc.{string_eq, nat_eq, find_key, put, keys, Distinct}
use tw_stock_android_spec.Realtime.Hub.Tables.{find_key-put, Distinct-put}
use tw_stock_android_spec.Realtime.Hub.Dispatch.{Listener, values, listens, hear}

-- A quote that came later, if there was one, or else the one before
abbrev pub later : {Q : Type 0} → Option Q → Option Q → Option Q
later none before = before
later (some q) before = some q

pub later-get_last?-cons :
    {Q : Type 0} (q : Q) (qs : List Q) (before : Option Q)
    → later (get_last? (q ∷ qs)) before ≡ later (get_last? qs) (some q)
later-get_last?-cons q [] before = refl
later-get_last?-cons q (r ∷ rs) before =
    later-get_last?-cons r rs before ∙ sym (later-get_last?-cons r rs (some q))

-- The sessions before and after, one by one
abbrev pub Each : {Q : Type 0} → (Q → Q → Type 0) → List Q → List Q → Type 0
Each R [] [] = Unit {0}
Each R (x ∷ xs) (y ∷ ys) = R x y × Each R xs ys
Each R [] (y ∷ ys) = ⊥
Each R (x ∷ xs) [] = ⊥

pub Each-map :
    {Q : Type 0} (P : Q → Type 0) (R : Q → Q → Type 0) (f : Q → Q)
    → ((x : Q) → P x → R x (f x))
    → (xs : List Q) → All P xs
    → Each R xs (map f xs)
Each-map P R f h [] p = tt
Each-map P R f h (x ∷ xs) p = (h x p.0, Each-map P R f h xs p.1)

module _ {Q : Type 0} (composite_key : Q → String) where
  abbrev pub keyed : List Q → List (String × Q)
  keyed [] = []
  keyed (q ∷ qs) = (composite_key q, q) ∷ keyed qs

  -- The last quote of a security
  abbrev pub latest : String → List Q → Option Q
  latest key qs = get_last? (filter (λ q. str_eq (composite_key q) key) qs)

  abbrev pub Named : String × Q → Type 0
  Named e = composite_key e.1 ≡ e.0

  pub keyed-values : (d : List (String × Q)) → All Named d → keyed (values d) ≡ d
  keyed-values [] h = refl
  keyed-values ((key, q) ∷ d) h = rw (h.0, keyed-values d h.1) refl

  put-Named : (q : Q) (d : List (String × Q)) → All Named d → All Named (put (composite_key q) q d)
  put-Named q [] h = (refl, tt)
  put-Named q ((key, r) ∷ d) h = elim (Bool-cases (str_eq key (composite_key q))) [
    | inl t ↦ rw t (sym ((eq_iff key (composite_key q)).0 t), h.1)
    | inr t ↦ rw t (h.0, put-Named q d h.1)
  ]

  module _ (table : List (String × List ℕ)) where
    unfoldable pub hear_all : List Q → Listener Q → Listener Q
    hear_all [] l = l
    hear_all (q ∷ qs) l = hear_all qs (hear composite_key table q l)

    -- What the quotes did to a session
    pub record Heard (qs : List Q) (l l' : Listener Q) : Type 0 where
      pub same_listens :
          (key : String) → listens composite_key table l' key ≡ listens composite_key table l key
      pub same_alive : l'.is_alive ≡ l.is_alive
      pub same_sent : l'.sent ≡ l.sent
      pub named : All Named l.pending_coalesced → All Named l'.pending_coalesced
      pub distinct : Distinct (keys l.pending_coalesced) → Distinct (keys l'.pending_coalesced)
      pub pending :
          (key : String)
          → find_key key l'.pending_coalesced ≡ (
              if listens composite_key table l key
              then later (latest key qs) (find_key key l.pending_coalesced)
              else find_key key l.pending_coalesced)

    module _ (q : Q) (l : Listener Q) where
      abbrev key_of : String
      key_of = composite_key q

      found :
          (key : String)
          → listens composite_key table l key_of ≡ true
          → find_key key (put key_of q l.pending_coalesced) ≡ (
              if listens composite_key table l key
              then later (latest key (q ∷ [])) (find_key key l.pending_coalesced)
              else find_key key l.pending_coalesced)
      found key on = elim (Bool-cases (str_eq key_of key)) [
        | inl t ↦
            find_key-put key_of key q l.pending_coalesced
            ∙ rw
                (
                  t,
                  subst (λ k. listens composite_key table l k ≡ true) ((eq_iff key_of key).0 t) on,
                )
                refl
        | inr t ↦ find_key-put key_of key q l.pending_coalesced ∙ rw t (ground arith)
      ]

      kept :
          (key : String)
          → listens composite_key table l key_of ≡ false
          → find_key key l.pending_coalesced ≡ (
              if listens composite_key table l key
              then later (latest key (q ∷ [])) (find_key key l.pending_coalesced)
              else find_key key l.pending_coalesced)
      kept key off = elim (Bool-cases (str_eq key_of key)) [
        | inl t ↦
            rw (subst (λ k. listens composite_key table l k ≡ false) ((eq_iff key_of key).0 t) off)
              refl
        | inr t ↦ rw t (ground arith)
      ]

      pub hear-Heard : Heard (q ∷ []) l (hear composite_key table q l)
      unfolding hear
      hear-Heard = elim (Bool-cases (listens composite_key table l key_of)) [
        | inl on ↦ rw on record {
          same_listens = λ key. refl;
          same_alive = refl;
          same_sent = refl;
          named = put-Named q l.pending_coalesced;
          distinct = Distinct-put key_of q l.pending_coalesced;
          pending = λ key. found key on;
        }
        | inr off ↦ rw off record {
          same_listens = λ key. refl;
          same_alive = refl;
          same_sent = refl;
          named = λ h. h;
          distinct = λ h. h;
          pending = λ key. kept key off;
        }
      ]
