-- ===== src/Realtime/Hub/Dispatch.antt =====
-- The routing of published quotes to the sessions, and their coalesced dispatch (`_route_quote` and
-- `_coalesced_dispatch_loop` of backend/app/services/realtime_hub.py). A quote is a parameter with
-- its composite key.
use tw_stock_android_spec.Base.{
  ℕ, ◌+◌, String, Bool, false, ◌&&◌, List, [], ◌∷◌, ◌++◌, map, or_else, if◌then◌else◌, length,
  filter,
}
use tw_stock_android_spec.Base.Assoc.{string_eq, nat_eq, contains, find_key, put, keys}

-- What routing and dispatch read and write of a `ConnectionSession`; `sent` is what its socket took.
pub record Listener (Q : Type 0) : Type 0 where
  pub id : ℕ
  pub channels : List String
  pub is_alive : Bool
  pub pending_coalesced : List (String × Q)
  pub sent : List Q

-- A session that has left `sessions` is not alive, and gets nothing.
pub record Fanout (Q : Type 0) : Type 0 where
  pub sessions : List (Listener Q)
  pub key_to_sessions : List (String × List ℕ)
  pub quotes_coalesced : ℕ
  pub quotes_published : ℕ

abbrev pub values : {Q : Type 0} → List (String × Q) → List Q
values [] = []
values ((key, q) ∷ d) = q ∷ values d

module _ {Q : Type 0} (composite_key : Q → String) where
  -- `session in self.key_to_sessions.get(key, set())`, alive and on the channel of quotes
  abbrev pub listens : List (String × List ℕ) → Listener Q → String → Bool
  listens table l key =
      contains l.id (or_else (find_key key table) []) && l.is_alive && contains "quote" l.channels

  unfoldable pub hear : List (String × List ℕ) → Q → Listener Q → Listener Q
  hear table q l =
      if listens table l (composite_key q)
      then record l { pending_coalesced = put (composite_key q) q l.pending_coalesced }
      else l

  -- The sessions where the quote takes the place of one that was not sent.
  abbrev pub replaces : List (String × List ℕ) → Q → Listener Q → Bool
  replaces table q l =
      listens table l (composite_key q) && contains (composite_key q) (keys l.pending_coalesced)

  unfoldable pub route_quote : Q → Fanout Q → Fanout Q
  route_quote q f = record f {
    sessions = map (hear f.key_to_sessions q) f.sessions;
    quotes_coalesced =
        f.quotes_coalesced + length (filter (replaces f.key_to_sessions q) f.sessions);
  }

  unfoldable pub route_all : List Q → Fanout Q → Fanout Q
  route_all [] f = f
  route_all (q ∷ qs) f = route_all qs (route_quote q f)

module _ {Q : Type 0} (delivers : ℕ → Q → Bool) where
  -- A send that raises: the session is not alive from there on.
  unfoldable pub send_one : Q → Listener Q → Listener Q
  send_one q l =
      if delivers l.id q
      then record l { sent = l.sent ++ q ∷ [] }
      else record l { is_alive = false }

  unfoldable pub send_all : List Q → Listener Q → Listener Q
  send_all [] l = l
  send_all (q ∷ qs) l = send_all qs (send_one q l)

  -- What has no quote pending, or is not alive, is passed over.
  unfoldable pub flush : Listener Q → Listener Q
  flush l =
      if l.is_alive
      then send_all (values l.pending_coalesced) (record l { pending_coalesced = [] })
      else l

  abbrev pub published_to : Listener Q → ℕ
  published_to l =
      if l.is_alive then length (filter (delivers l.id) (values l.pending_coalesced)) else 0

  abbrev pub published : List (Listener Q) → ℕ
  published [] = 0
  published (l ∷ ls) = published_to l + published ls

  -- One turn of the loop
  unfoldable pub dispatch_pending : Fanout Q → Fanout Q
  dispatch_pending f = record f {
    sessions = map flush f.sessions;
    quotes_published = f.quotes_published + published f.sessions;
  }
