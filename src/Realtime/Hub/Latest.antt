-- ===== src/Realtime/Hub/Latest.antt =====
-- A session is sent the latest quote of each of its securities, once
-- (backend/app/services/realtime_hub.py).
use tw_stock_android_spec.Base.{
  ℕ, ◌≡◌, refl, sym, ap, ◌∙◌, String, Bool, true, false, Option, none, some, List, [], ◌∷◌, ◌++◌,
  map, map-map, map-same, str_eq, if◌then◌else◌, filter, All, inl, inr, Bool-cases, subst, arith,
}
use tw_stock_android_spec.Base.Assoc.{string_eq, nat_eq, find_key, keys, Distinct}
use tw_stock_android_spec.Realtime.Hub.Dispatch.{
  Listener, Fanout, values, listens, hear, route_quote, route_all, send_one, send_all, flush,
  dispatch_pending,
}
use tw_stock_android_spec.Realtime.Hub.Coalesced.{
  later, later-get_last?-cons, Each, Each-map, keyed, latest, keyed-values, hear_all, Heard,
  hear-Heard,
}

module _ {Q : Type 0} (composite_key : Q → String) where
  latest-cons :
      (key : String) (q : Q) (qs : List Q) (before : Option Q)
      → later (latest composite_key key (q ∷ qs)) before
        ≡ later (latest composite_key key qs) (later (latest composite_key key (q ∷ [])) before)
  latest-cons key q qs before = elim (Bool-cases (str_eq (composite_key q) key)) [
    | inl t ↦ rw t (later-get_last?-cons q (filter (λ r. str_eq (composite_key r) key) qs) before)
    | inr t ↦ rw t refl
  ]

  module _ (table : List (String × List ℕ)) where
    Heard-trans :
        (q : Q) (qs : List Q) (l m n : Listener Q)
        → Heard composite_key table (q ∷ []) l m
        → Heard composite_key table qs m n
        → Heard composite_key table (q ∷ qs) l n
    Heard-trans q qs l m n a b = record {
      same_listens = λ key. b.same_listens key ∙ a.same_listens key;
      same_alive = b.same_alive ∙ a.same_alive;
      same_sent = b.same_sent ∙ a.same_sent;
      named = λ h. b.named (a.named h);
      distinct = λ h. b.distinct (a.distinct h);
      pending = λ key. elim (Bool-cases (listens composite_key table l key)) [
        | inl on ↦ rw on (
            b.pending key
            ∙ rw (a.same_listens key ∙ on) (
                ap (later (latest composite_key key qs)) (a.pending key ∙ rw on refl)
                ∙ sym (latest-cons key q qs (find_key key l.pending_coalesced))))
        | inr off ↦
            rw off (b.pending key ∙ rw (a.same_listens key ∙ off) (a.pending key ∙ rw off refl))
      ];
    }

    hear_all-Heard :
        (qs : List Q) (l : Listener Q)
        → Heard composite_key table qs l (hear_all composite_key table qs l)
    unfolding hear_all
    hear_all-Heard [] l = record {
      same_listens = λ key. refl;
      same_alive = refl;
      same_sent = refl;
      named = λ h. h;
      distinct = λ h. h;
      pending = λ key. ground arith;
    }
    hear_all-Heard (q ∷ qs) l =
        Heard-trans q qs l (hear composite_key table q l)
          (hear_all composite_key table qs (hear composite_key table q l))
          (hear-Heard composite_key table q l) (hear_all-Heard qs (hear composite_key table q l))

  table-route_all :
      (qs : List Q) (f : Fanout Q)
      → (route_all composite_key qs f).key_to_sessions ≡ f.key_to_sessions
  unfolding route_all route_quote
  table-route_all [] f = refl
  table-route_all (q ∷ qs) f = table-route_all qs (route_quote composite_key q f)

  sessions-route_all :
      (qs : List Q) (f : Fanout Q)
      → (route_all composite_key qs f).sessions
        ≡ map (hear_all composite_key f.key_to_sessions qs) f.sessions
  unfolding route_all route_quote hear_all
  sessions-route_all [] f = sym (map-same f.sessions)
  sessions-route_all (q ∷ qs) f =
      sessions-route_all qs (route_quote composite_key q f)
      ∙ map-map (hear composite_key f.key_to_sessions q)
          (hear_all composite_key f.key_to_sessions qs)
          (λ l.
            hear_all composite_key f.key_to_sessions qs (hear composite_key f.key_to_sessions q l))
          f.sessions (λ l. refl)

  module _ (delivers : ℕ → Q → Bool) (through : (id : ℕ) (q : Q) → delivers id q ≡ true) where
    append_one-append : (xs ys : List Q) (q : Q) → (xs ++ q ∷ []) ++ ys ≡ xs ++ q ∷ ys
    append_one-append [] ys q = refl
    append_one-append (x ∷ xs) ys q = ap (◌∷◌ x) (append_one-append xs ys q)

    append_nil : (xs : List Q) → xs ++ [] ≡ xs
    append_nil [] = refl
    append_nil (x ∷ xs) = ap (◌∷◌ x) (append_nil xs)

    sent-send_one : (q : Q) (l : Listener Q) → (send_one delivers q l).sent ≡ l.sent ++ q ∷ []
    unfolding send_one
    sent-send_one q l = rw (through l.id q) refl

    sent-send_all : (qs : List Q) (l : Listener Q) → (send_all delivers qs l).sent ≡ l.sent ++ qs
    unfolding send_all
    sent-send_all [] l = sym (append_nil l.sent)
    sent-send_all (q ∷ qs) l =
        sent-send_all qs (send_one delivers q l)
        ∙ ap (λ xs. xs ++ qs) (sent-send_one q l)
        ∙ append_one-append l.sent qs q

    sent-flush :
        (l : Listener Q)
        → (flush delivers l).sent
          ≡ l.sent ++ (if l.is_alive then values l.pending_coalesced else [])
    unfolding flush
    sent-flush l = elim (Bool-cases l.is_alive) [
      | inl t ↦ rw t (
          sent-send_all (values l.pending_coalesced)
            (record l { is_alive = true; pending_coalesced = [] }))
      | inr t ↦ rw t (sym (append_nil l.sent))
    ]

    -- Nothing was sent yet, and nothing is pending.
    abbrev pub IsFresh : Listener Q → Type 0
    IsFresh l = (l.pending_coalesced ≡ []) × (l.sent ≡ [])

    -- What a session was sent, by security
    pub record Told (table : List (String × List ℕ)) (qs : List Q) (l l' : Listener Q)
        : Type 0 where
      pub once : Distinct (keys (keyed composite_key l'.sent))
      pub newest :
          (key : String)
          → find_key key (keyed composite_key l'.sent)
            ≡ (if listens composite_key table l key then latest composite_key key qs else none)

    module _ (table : List (String × List ℕ)) (qs : List Q) (l : Listener Q)
        (fresh : IsFresh l) where
      abbrev heard : Listener Q
      heard = hear_all composite_key table qs l

      sent_alive :
          l.is_alive ≡ true
          → keyed composite_key (flush delivers heard).sent ≡ heard.pending_coalesced
      sent_alive alive =
          let h = hear_all-Heard table qs l in
          ap (keyed composite_key)
            (sent-flush heard ∙ rw (h.same_alive ∙ alive, h.same_sent ∙ fresh.1) refl)
          ∙ keyed-values composite_key heard.pending_coalesced (h.named (rw fresh.0 tt))

      sent_gone : l.is_alive ≡ false → (flush delivers heard).sent ≡ []
      sent_gone gone =
          let h = hear_all-Heard table qs l in
          sent-flush heard ∙ rw (h.same_alive ∙ gone, h.same_sent ∙ fresh.1) refl

      newest_pending :
          (key : String)
          → find_key key heard.pending_coalesced
            ≡ (if listens composite_key table l key then latest composite_key key qs else none)
      newest_pending key =
          (hear_all-Heard table qs l).pending key
          ∙ rw fresh.0 (
              ap (λ x. if listens composite_key table l key then x else none)
                (later_none (latest composite_key key qs)))
        where
          later_none : (x : Option Q) → later x none ≡ x
          later_none none = refl
          later_none (some q) = refl

      flush-Told : Told table qs l (flush delivers heard)
      flush-Told = elim (Bool-cases l.is_alive) [
        | inl alive ↦ record {
          once =
              subst (λ d. Distinct (keys d)) (sym (sent_alive alive))
                ((hear_all-Heard table qs l).distinct (rw fresh.0 tt));
          newest = λ key. ap (find_key key) (sent_alive alive) ∙ newest_pending key;
        }
        | inr gone ↦ record {
          once = rw (sent_gone gone) tt;
          newest = λ key. rw (sent_gone gone, gone) (ground arith);
        }
      ]

    -- Quotes are routed and then dispatched to sessions with nothing pending, and every send goes
    -- through: each session is sent, for every security that it listens to, the last of its quotes,
    -- once, and nothing else.
    pub dispatch_pending-Told :
        (f : Fanout Q) (qs : List Q)
        → All IsFresh f.sessions
        → Each
            (Told f.key_to_sessions qs)
            f.sessions
            (dispatch_pending delivers (route_all composite_key qs f)).sessions
    unfolding dispatch_pending
    dispatch_pending-Told f qs fresh =
        subst (Each (Told f.key_to_sessions qs) f.sessions)
          (sym (
            ap (map (flush delivers)) (sessions-route_all qs f)
            ∙ map-map (hear_all composite_key f.key_to_sessions qs) (flush delivers)
                (λ l. flush delivers (hear_all composite_key f.key_to_sessions qs l)) f.sessions
                (λ l. refl)))
          (Each-map IsFresh (Told f.key_to_sessions qs)
            (λ l. flush delivers (hear_all composite_key f.key_to_sessions qs l))
            (flush-Told f.key_to_sessions qs) f.sessions fresh)
