-- ===== src/Realtime/Hub/Serves.antt =====
-- Every connection of a server owns at the manager what it has, and nobody else owns anything
-- (backend/app/services/realtime_hub.py).
use tw_stock_android_spec.Base.{
  ℕ, ◌≡◌, refl, ◌∙◌, String, false, not, ◌&&◌, ◌||◌, List, [], ◌∷◌, ◌==◌, str_eq, eq_iff, All, inl,
  inr, Bool-cases, subst, arith,
}
use tw_stock_android_spec.Base.Assoc.{string_eq, beq_sym_false, contains, Distinct}
use tw_stock_android_spec.Realtime.Quote.{Identity, identity_eq}
use tw_stock_android_spec.Realtime.Hub.Interface.{SubscriptionManager}
use tw_stock_android_spec.Realtime.Hub.Session.{ConnectionSession}
use tw_stock_android_spec.Realtime.Hub.Targets.{Texts, Hub}
use tw_stock_android_spec.Realtime.Hub.Endpoint.{ClientMessage, handle}
use tw_stock_android_spec.Realtime.Hub.Server.{owners_of, receive}
use tw_stock_android_spec.Realtime.Hub.Agrees.{Agrees, Keeps}
use tw_stock_android_spec.Realtime.Hub.Runs.{handle-Keeps}
use tw_stock_android_spec.Realtime.Hub.Leaving.{LeavesNothing}

module _ {M : Type 0} (manager : SubscriptionManager M) where
  abbrev pub AllAgree : List ConnectionSession → M → Type 0
  AllAgree ss m = All (λ s. Agrees manager (s, m)) ss

  pub record IsServing (ss : List ConnectionSession) (m : M) : Type 0 where
    pub sound : manager.IsSound m
    pub distinct : Distinct (owners_of ss)
    pub agree : AllAgree ss m
    pub others :
        (p : String) (j : Identity) → contains p (owners_of ss) ≡ false → manager.owns m p j ≡ false

  -- What a move does to connections that agree with the manager
  pub record Serves (ss : List ConnectionSession) (m : M) (ss' : List ConnectionSession) (m' : M)
      : Type 0 where
    pub sound : manager.IsSound m'
    pub distinct : Distinct (owners_of ss')
    pub fewer :
        (p : String) → contains p (owners_of ss) ≡ false → contains p (owners_of ss') ≡ false
    pub agree : AllAgree ss' m'
    pub rest :
        (p : String) (j : Identity)
        → contains p (owners_of ss') ≡ false
        → manager.owns m' p j ≡ (not (contains p (owners_of ss)) && manager.owns m p j)

  Agrees-of_same :
      (s : ConnectionSession) (m m' : M)
      → manager.IsSound m'
      → ((j : Identity) → manager.owns m' s.owner_id j ≡ manager.owns m s.owner_id j)
      → Agrees manager (s, m)
      → Agrees manager (s, m')
  Agrees-of_same s m m' sound same a = record {
    sound = sound;
    distinct = a.distinct;
    owned = λ j. same j ∙ a.owned j;
  }

  AllAgree-of_same :
      (o : String) (ss : List ConnectionSession) (m m' : M)
      → manager.IsSound m'
      → ((p : String) (j : Identity)
          → str_eq o p ≡ false
          → manager.owns m' p j ≡ manager.owns m p j)
      → contains o (owners_of ss) ≡ false
      → AllAgree ss m
      → AllAgree ss m'
  AllAgree-of_same o [] m m' sound same new a = tt
  AllAgree-of_same o (s ∷ ss) m m' sound same new a = (
    Agrees-of_same s m m' sound (λ j. same s.owner_id j (other new)) a.0,
    AllAgree-of_same o ss m m' sound same (ground (arith, new)) a.1,
  )
    where
      other :
          (str_eq s.owner_id o || contains o (owners_of ss)) ≡ false → str_eq o s.owner_id ≡ false
      other h = beq_sym_false s.owner_id o (ground (arith, h))

  module _ (s : ConnectionSession) (ss : List ConnectionSession) (m : M)
      (distinct : Distinct (owners_of (s ∷ ss))) (agree : AllAgree (s ∷ ss) m) where
    -- The first connection does something.
    head_Serves :
        (s' : ConnectionSession) (m' : M)
        → Keeps manager (s, m) (s', m')
        → Serves (s ∷ ss) m (s' ∷ ss) m'
    head_Serves s' m' k =
        let a = k.agrees agree.0 in
        record {
          sound = a.sound;
          distinct = (rw k.same_owner distinct.0, distinct.1);
          fewer = λ p h. rw k.same_owner h;
          agree = (
            a,
            AllAgree-of_same s.owner_id ss m m' a.sound (λ p j. k.others agree.0 p j) distinct.0
                agree.1,
          );
          rest = λ p j h.
              let gone : (str_eq s.owner_id p || contains p (owners_of ss)) ≡ false =
                rw k.same_owner at h in
              k.others agree.0 p j (ground (arith, gone)) ∙ rw gone refl;
        }

    -- Another does, and the first stays.
    pub tail_Serves :
        (ss' : List ConnectionSession) (m' : M)
        → Serves ss m ss' m'
        → Serves (s ∷ ss) m (s ∷ ss') m'
    tail_Serves ss' m' v = record {
      sound = v.sound;
      distinct = (v.fewer s.owner_id distinct.0, v.distinct);
      fewer = λ p h. let less = v.fewer p (ground (arith, h)) in ground (arith, h, less);
      agree = (
        Agrees-of_same s m m' v.sound
            (λ j. v.rest s.owner_id j (v.fewer s.owner_id distinct.0) ∙ rw distinct.0 refl) agree.0,
        v.agree,
      );
      rest = λ p j h. let same = v.rest p j (ground (arith, h)) in same ∙ ground (arith, h);
    }

    -- The first leaves.
    pub gone_Serves :
        (m' : M)
        → LeavesNothing manager s.owner_id m m'
        → manager.IsSound m'
        → Serves (s ∷ ss) m ss m'
    gone_Serves m' g sound = record {
      sound = sound;
      distinct = distinct.1;
      fewer = λ p h. ground (arith, h);
      agree = AllAgree-of_same s.owner_id ss m m' sound g.others distinct.0 agree.1;
      rest = λ p j h. elim (Bool-cases (str_eq s.owner_id p)) [
        | inl t ↦
            rw t
              (subst (λ o. manager.owns m' o j ≡ false) ((eq_iff s.owner_id p).0 t) (g.nothing j))
        | inr t ↦ g.others p j t ∙ rw (t, h) refl
      ];
    }

  pub nobody_Serves : (m : M) → manager.IsSound m → Serves [] m [] m
  nobody_Serves m sound = record {
    sound = sound;
    distinct = tt;
    fewer = λ p h. h;
    agree = tt;
    rest = λ p j h. refl;
  }

  module _ (texts : Texts) where
    pub receive-Serves :
        (id : ℕ) (message : ClientMessage) (ss : List ConnectionSession) (h : Hub M)
        → manager.IsSound h.manager
        → Distinct (owners_of ss)
        → AllAgree ss h.manager
        → let v = receive manager texts id message ss h in Serves ss h.manager v.0 v.1.manager
    unfolding receive
    receive-Serves id message [] h sound d a = nobody_Serves h.manager sound
    receive-Serves id message (s ∷ ss) h sound d a = elim (Bool-cases (s.id == id)) [
      | inl t ↦
          let c = (handle manager texts message (s, h)).1 in
          rw t (
            head_Serves s ss h.manager d a c.0 c.1.manager
              (handle-Keeps manager texts message (s, h)))
      | inr t ↦
          let v = receive manager texts id message ss h in
          rw t (
            tail_Serves s ss h.manager d a v.0 v.1.manager
              (receive-Serves id message ss h sound d.1 a.1))
    ]
