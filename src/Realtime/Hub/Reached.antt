-- ===== src/Realtime/Hub/Reached.antt =====
-- What holds of every server that is reached (backend/app/services/realtime_hub.py).
use tw_stock_android_spec.Base.{
  ℕ, ◌≡◌, refl, ◌∙◌, String, false, not, ◌&&◌, List, [], ◌∷◌, ◌==◌, inl, inr, Bool-cases, arith,
}
use tw_stock_android_spec.Base.Assoc.{string_eq, contains, Distinct}
use tw_stock_android_spec.Outcome.{Result, ok}
use tw_stock_android_spec.Realtime.Quote.{Identity, identity_eq}
use tw_stock_android_spec.Realtime.Hub.Interface.{SubscriptionManager}
use tw_stock_android_spec.Realtime.Hub.Session.{ConnectionSession}
use tw_stock_android_spec.Realtime.Hub.Targets.{Texts, Hub, register_connection}
use tw_stock_android_spec.Realtime.Hub.Handlers.{Conn, unregister_connection}
use tw_stock_android_spec.Realtime.Hub.Server.{
  Server, owners_of, departed, depart, arrive, ServerStep, connect, send, disconnect, Reach, begin,
  later,
}
use tw_stock_android_spec.Realtime.Hub.Agrees.{Keeps-refl}
use tw_stock_android_spec.Realtime.Hub.Leaving.{opened-Agrees, ended}
use tw_stock_android_spec.Realtime.Hub.Serves.{
  AllAgree, IsServing, Serves, tail_Serves, gone_Serves, nobody_Serves, receive-Serves,
}

module _ {M : Type 0} (manager : SubscriptionManager M) (texts : Texts) where
  departed_ok :
      (ss : List ConnectionSession) (r : Result (Unit {0}) × Conn manager)
      → (departed manager texts ss r).0 ≡ ok tt
      → r.0 ≡ ok tt
  unfolding departed
  departed_ok ss r h = h

  depart-Serves :
      (id : ℕ) (ss : List ConnectionSession) (h : Hub M)
      → manager.IsSound h.manager
      → Distinct (owners_of ss)
      → AllAgree manager ss h.manager
      → (depart manager texts id ss h).0 ≡ ok tt
      → let v = (depart manager texts id ss h).1 in Serves manager ss h.manager v.0 v.1.manager
  unfolding depart departed
  depart-Serves id [] h sound d a through = nobody_Serves manager h.manager sound
  depart-Serves id (s ∷ ss) h sound d a through = elim (Bool-cases (s.id == id)) [
    | inl t ↦
        let out : (unregister_connection manager (s, h)).0 ≡ ok tt = rw t at through in
        let g = ended manager texts (s, h) (s, h) a.0 (Keeps-refl manager (s, h.manager)) out in
        rw t (gone_Serves manager s ss h.manager d a _ g g.sound)
    | inr t ↦
        let v = (depart manager texts id ss h).1 in
        rw t (
          tail_Serves manager s ss h.manager d a v.0 v.1.manager
            (depart-Serves id ss h sound d.1 a.1 (rw t at through)))
  ]

  serving :
      (ss ss' : List ConnectionSession) (m m' : M)
      → IsServing manager ss m
      → Serves manager ss m ss' m'
      → IsServing manager ss' m'
  serving ss ss' m m' i v = record {
    sound = v.sound;
    distinct = v.distinct;
    agree = v.agree;
    others = λ p j h. v.rest p j h ∙ none_left p j;
  }
    where
      none_left :
          (p : String) (j : Identity)
          → (not (contains p (owners_of ss)) && manager.owns m p j) ≡ false
      none_left p j = elim (Bool-cases (contains p (owners_of ss))) [
        | inl t ↦ rw t refl
        | inr t ↦ rw (t, i.others p j t) refl
      ]

  arrive-IsServing :
      (id : ℕ) (owner : String) (max_subscriptions : ℕ) (s : Server M)
      → contains owner (owners_of s.connections) ≡ false
      → IsServing manager s.connections s.hub.manager
      → let t = arrive manager texts id owner max_subscriptions s in
        IsServing manager t.connections t.hub.manager
  unfolding register_connection
  arrive-IsServing id owner max_subscriptions s new i = record {
    sound = i.sound;
    distinct = (new, i.distinct);
    agree = (
      opened-Agrees manager id owner max_subscriptions s.hub i.sound (λ j. i.others owner j new),
      i.agree,
    );
    others = λ p j h. i.others p j (ground (arith, h));
  }

  ServerStep-IsServing :
      {s t : Server M}
      → ServerStep manager texts s t
      → IsServing manager s.connections s.hub.manager
      → IsServing manager t.connections t.hub.manager
  ServerStep-IsServing (connect id owner max_subscriptions s new) i =
      arrive-IsServing id owner max_subscriptions s new i
  ServerStep-IsServing (send id message s) i =
      serving s.connections _ s.hub.manager _ i
        (receive-Serves manager texts id message s.connections s.hub i.sound i.distinct i.agree)
  ServerStep-IsServing (disconnect id s through) i =
      serving s.connections _ s.hub.manager _ i
        (depart-Serves id s.connections s.hub i.sound i.distinct i.agree through)

  pub Reach-IsServing :
      {h : Hub M} {s : Server M}
      → manager.IsSound h.manager
      → ((p : String) (j : Identity) → manager.owns h.manager p j ≡ false)
      → Reach manager texts h s
      → IsServing manager s.connections s.hub.manager
  Reach-IsServing sound nobody begin = record {
    sound = sound;
    distinct = tt;
    agree = tt;
    others = λ p j h. nobody p j;
  }
  Reach-IsServing sound nobody (later r move) =
      ServerStep-IsServing move (Reach-IsServing sound nobody r)
