-- ===== src/Realtime/Hub/Release.antt =====
-- `release_subscription` on the table of owners
-- (backend/app/services/realtime_provider_manager.py).
use tw_stock_android_spec.Base.{
  ◌≡◌, refl, sym, ap, ◌∙◌, String, Bool, true, false, Option, none, some, List, [], ◌∷◌, str_eq,
  or_else, if◌then◌else◌, inl, inr, Bool-cases, subst, eq_iff,
}
use tw_stock_android_spec.Base.Assoc.{
  string_eq, contains, erase, Distinct, Distinct-erase, contains-erase, find_key, put, delete,
  All-find_key,
}
use tw_stock_android_spec.Outcome.{ok}
use tw_stock_android_spec.Realtime.Quote.{Identity, identity_eq}
use tw_stock_android_spec.Realtime.Subscription.{
  Manager, release_last, release_left, release_owned, release_subscription,
}
use tw_stock_android_spec.Realtime.Hub.Tables.{
  owners_at, owners_at-put, owners_at-delete, IsTable, put-IsTable, delete-IsTable, gone_law,
  same_law,
}
use tw_stock_android_spec.Realtime.Hub.Calls.{Calls, owned_here, at_found}

module _ (o : String) (i : Identity) (m : Manager) (t : IsTable m.subscription_owners) where
  sole : (os : List String) → contains o os ≡ true → erase o os ≡ [] → os ≡ o ∷ []
  sole [] h e = cc
  sole (x ∷ xs) h e = elim (Bool-cases (str_eq x o)) [
    | inl s ↦ let rest = rw s at e in ap (λ y. y ∷ xs) ((eq_iff x o).0 s) ∙ ap (◌∷◌ o) rest
    | inr s ↦ let rest = rw s at e in cc
  ]

  erased_law :
      (os : List String)
      → find_key i m.subscription_owners ≡ some os
      → (p : String)
      → contains p (erase o os)
        ≡ (if str_eq o p then false else contains p (owners_at i m.subscription_owners))
  erased_law os f p =
      rw (at_found o i m t os f)
        (contains-erase p o os (All-find_key Distinct i os m.subscription_owners t.owners f))

  -- No owner of it: nothing to leave
  no_owner :
      (os : List String)
      → owners_at i m.subscription_owners ≡ os
      → contains o os ≡ false
      → Calls false o i m (ok tt, m)
  no_owner os here none_of = record {
    table = t;
    through = λ h.
        gone_law i o os m.subscription_owners m.subscription_owners
          (λ j. owned_here o i m t os j here) (λ p. rw here (absent p));
    refused = λ e h. cc;
  }
    where
      absent : (p : String) → contains p os ≡ (if str_eq o p then false else contains p os)
      absent p = elim (Bool-cases (str_eq o p)) [
        | inl s ↦ subst (λ x. contains x os ≡ false) ((eq_iff o p).0 s) none_of ∙ rw s refl
        | inr s ↦ rw s refl
      ]

  release_last-Calls :
      (done : Bool) (os : List String)
      → find_key i m.subscription_owners ≡ some os
      → contains o os ≡ true
      → erase o os ≡ []
      → Calls false o i m (release_last i o done m)
  unfolding release_last
  release_last-Calls true os f had gone =
      let table = m.subscription_owners in
      record {
        table = delete-IsTable i table t;
        through = λ h.
            gone_law i o [] table (delete i table) (λ j. owners_at-delete i j table t.identities)
              (λ p. ap (contains p) (sym gone) ∙ erased_law os f p);
        refused = λ e h. cc;
      }
  release_last-Calls false os f had gone =
      let table = m.subscription_owners in
      record {
        table = put-IsTable i (o ∷ []) table (refl, tt) t;
        through = λ h. cc;
        refused = λ e h.
            same_law i o (o ∷ []) table (put i (o ∷ []) table)
              (λ j. owners_at-put i j (o ∷ []) table)
              (sym (at_found o i m t os f ∙ sole os had gone));
      }

  release_left-Calls :
      (done : Bool) (os left : List String)
      → find_key i m.subscription_owners ≡ some os
      → contains o os ≡ true
      → erase o os ≡ left
      → Calls false o i m (release_left i o done left m)
  unfolding release_left
  release_left-Calls done os [] f had gone = release_last-Calls done os f had gone
  release_left-Calls done os (p ∷ ps) f had gone =
      let table = m.subscription_owners in
      let distinct =
        subst Distinct gone (Distinct-erase o os (All-find_key Distinct i os table t.owners f)) in
      record {
        table = put-IsTable i (p ∷ ps) table distinct t;
        through = λ h.
            gone_law i o (p ∷ ps) table (put i (p ∷ ps) table)
              (λ j. owners_at-put i j (p ∷ ps) table)
              (λ q. ap (contains q) (sym gone) ∙ erased_law os f q);
        refused = λ e h. cc;
      }

  release_owned-Calls :
      (done : Bool) (found : Option (List String))
      → find_key i m.subscription_owners ≡ found
      → Calls false o i m (release_owned i o done found m)
  unfolding release_owned
  release_owned-Calls done none f = no_owner [] (ap (λ x. or_else x []) f) refl
  release_owned-Calls done (some os) f = elim (Bool-cases (contains o os)) [
    | inl had ↦ rw had (release_left-Calls done os (erase o os) f had refl)
    | inr new ↦ rw new (no_owner os (at_found o i m t os f) new)
  ]

  pub release_subscription-Calls :
      (done : Bool) → Calls false o i m (release_subscription (λ s. s) o i.0 i.1 done m)
  unfolding release_subscription
  release_subscription-Calls done = release_owned-Calls done (find_key i m.subscription_owners) refl
