-- ===== src/Realtime/Hub/Acquire.antt =====
-- `acquire_subscription` on the table of owners
-- (backend/app/services/realtime_provider_manager.py).
use tw_stock_android_spec.Base.{
  ◌≡◌, refl, sym, ap, ◌∙◌, String, Bool, true, false, not, ◌||◌, Option, none, some, List, [], ◌∷◌,
  ◌++◌, str_eq, or_else, inl, inr, Bool-cases, subst, arith, length, eq_iff, if_both,
}
use tw_stock_android_spec.Base.Assoc.{
  string_eq, contains, Distinct, Distinct-append_one, contains-append_one_eq, find_key, put, delete,
  All-find_key,
}
use tw_stock_android_spec.Outcome.{ok, subscription_error, capacity_error}
use tw_stock_android_spec.Realtime.Quote.{Identity, identity_eq}
use tw_stock_android_spec.Realtime.Subscription.{
  Capabilities, Manager, budget_exceeded, limit_of, is_full, subscribe_first, acquire_first,
  acquire_owned, join, acquire_subscription,
}
use tw_stock_android_spec.Realtime.Hub.Tables.{
  owners_at, owners_at-put, owners_at-delete, IsTable, put-IsTable, delete-IsTable, taken_law,
  same_law,
}
use tw_stock_android_spec.Realtime.Hub.Calls.{Calls, unchanged, owned_here}

module _ (o : String) (i : Identity) (m : Manager) (t : IsTable m.subscription_owners) where
  one_owner : (p : String) → contains p (o ∷ []) ≡ (contains p [] || str_eq o p)
  one_owner p = ground arith

  subscribe_first-Calls :
      (done : Bool) (m' : Manager)
      → m'.subscription_owners ≡ m.subscription_owners
      → owners_at i m.subscription_owners ≡ []
      → Calls true o i m (subscribe_first i o done m')
  unfolding subscribe_first
  subscribe_first-Calls true m' same free =
      let table = m.subscription_owners in
      record {
        table = rw same (put-IsTable i (o ∷ []) table (refl, tt) t);
        through = λ h. rw same (
            taken_law i o (o ∷ []) table (put i (o ∷ []) table)
              (λ j. owners_at-put i j (o ∷ []) table) (λ p. rw free (one_owner p)));
        refused = λ f h. cc;
      }
  subscribe_first-Calls false m' same free =
      let table = m.subscription_owners in
      let empty = put i [] table in
      let e = put-IsTable i [] table tt t in
      record {
        table = rw same (delete-IsTable i empty e);
        through = λ h. cc;
        refused = λ f h. rw same (
            same_law i o [] table (delete i empty)
              (λ j.
                owners_at-delete i j empty e.identities
                ∙ ground (arith, owners_at-put i j [] table))
              (sym free));
      }

  acquire_first-Calls :
      (caps : Capabilities) (done : Bool)
      → owners_at i m.subscription_owners ≡ []
      → Calls true o i m (acquire_first caps i o done m)
  unfolding acquire_first
  acquire_first-Calls caps done free =
      if_both (Calls true o i m)
        (budget_exceeded m.subscription_budget caps.subscription_hard_limit) _ _
        (unchanged o i m t true capacity_error m refl)
        (if_both (Calls true o i m)
          (is_full (limit_of m.subscription_budget caps.subscription_hard_limit)
            (length m.subscription_owners))
          _ _ (unchanged o i m t true capacity_error _ refl)
          (subscribe_first-Calls done _ refl free))

  had_already :
      (p : String) (os : List String)
      → contains o os ≡ true
      → contains p os ≡ (contains p os || str_eq o p)
  had_already p os had = elim (Bool-cases (str_eq o p)) [
    | inl s ↦ subst (λ x. contains x os ≡ true) ((eq_iff o p).0 s) had ∙ rw s (ground arith)
    | inr s ↦ rw s (ground arith)
  ]

  -- An owner already
  already :
      (os : List String)
      → find_key i m.subscription_owners ≡ some os
      → contains o os ≡ true
      → Calls true o i m (ok tt, m)
  already os f had =
      let here = ap (λ x. or_else x []) f in
      record {
        table = t;
        through = λ h.
            taken_law i o os m.subscription_owners m.subscription_owners
              (λ j. owned_here o i m t os j here) (λ p. rw here (had_already p os had));
        refused = λ e h. cc;
      }

  joined :
      (os : List String)
      → find_key i m.subscription_owners ≡ some os
      → contains o os ≡ false
      → Calls true o i m (join i o os m)
  joined os f new =
      let here = ap (λ x. or_else x []) f in
      let table = m.subscription_owners in
      let distinct = All-find_key Distinct i os table t.owners f in
      record {
        table = put-IsTable i (os ++ o ∷ []) table (Distinct-append_one os o distinct new) t;
        through = λ h.
            taken_law i o (os ++ o ∷ []) table (put i (os ++ o ∷ []) table)
              (λ j. owners_at-put i j (os ++ o ∷ []) table)
              (λ p. rw here (contains-append_one_eq p o os));
        refused = λ e h. cc;
      }

  acquire_owned-Calls :
      (caps : Capabilities) (done : Bool) (found : Option (List String))
      → find_key i m.subscription_owners ≡ found
      → Calls true o i m (acquire_owned caps i o done found m)
  unfolding acquire_owned
  acquire_owned-Calls caps done none f = acquire_first-Calls caps done (ap (λ x. or_else x []) f)
  acquire_owned-Calls caps done (some []) f =
      acquire_first-Calls caps done (ap (λ x. or_else x []) f)
  acquire_owned-Calls caps done (some (p ∷ ps)) f = elim (Bool-cases (contains o (p ∷ ps))) [
    | inl had ↦ rw had (already (p ∷ ps) f had)
    | inr new ↦ rw new (joined (p ∷ ps) f new)
  ]

  pub acquire_subscription-Calls :
      (caps : Capabilities) (done : Bool)
      → Calls true o i m (acquire_subscription (λ s. s) caps o i.0 i.1 done m)
  unfolding acquire_subscription
  acquire_subscription-Calls caps done =
      if_both (Calls true o i m) (not caps.configured) _ _
        (unchanged o i m t true subscription_error m refl)
        (acquire_owned-Calls caps done (find_key i m.subscription_owners) refl)
