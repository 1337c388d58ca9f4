-- ===== src/Realtime/Hub/Targets.antt =====
-- What a connection asks for, and the table of who listens to a security
-- (backend/app/services/realtime_hub.py).
use tw_stock_android_spec.Base.{
  ℕ, String, Bool, true, false, not, ◌&&◌, ◌||◌, Option, none, some, List, [], ◌∷◌, ◌++◌, str_eq,
  leb, if◌then◌else◌, filter, is_some, or_else,
}
use tw_stock_android_spec.Base.Assoc.{nat_eq, string_eq, contains, erase, find_key, put, delete}
use tw_stock_android_spec.Outcome.{Result, ok, err, value_error}
use tw_stock_android_spec.Realtime.Quote.{QuoteType, tick, bid_ask, Identity, identity_eq}
use tw_stock_android_spec.Realtime.Hub.Session.{ConnectionSession, Message}

-- A requested security; `quote_types` stands for a list or for one text.
pub record Target : Type 0 where
  pub market : Option String
  pub code : Option String
  pub quote_type : Option String
  pub quote_types : Option (List String)

-- The functions on texts that the hub calls.
pub record Texts : Type 0 where
  pub upper : String → String
  pub lower : String → String
  pub isdigit : String → Bool
  pub len : String → ℕ
  -- `f"{market}:{code}"`
  pub join : String → String → String

abbrev pub has_quote_type : Target → Bool
has_quote_type t = is_some t.quote_type || is_some t.quote_types

abbrev pub one_type : Option String → List String
one_type none = "tick" ∷ []
one_type (some s) = s ∷ []

-- `target.get("quote_types") or [target.get("quote_type", "tick")]`
unfoldable pub raw_types : Option String → Option (List String) → List String
raw_types one none = one_type one
raw_types one (some []) = one_type one
raw_types one (some (s ∷ rest)) = s ∷ rest

unfoldable pub type_of : String → Option QuoteType
type_of s = if str_eq s "tick" then some tick else if str_eq s "bid_ask" then some bid_ask else none

abbrev pub is_type : QuoteType → QuoteType → Bool
is_type tick tick = true
is_type tick bid_ask = false
is_type bid_ask tick = false
is_type bid_ask bid_ask = true

-- `dict.fromkeys`: a type that came before is passed over.
unfoldable pub add_type : Option QuoteType → Result (List QuoteType) → Result (List QuoteType)
add_type none rest = err value_error
add_type (some q) (err e) = err e
add_type (some q) (ok rest) = ok (q ∷ filter (λ r. not (is_type q r)) rest)

unfoldable pub parse_types : (String → String) → List String → Result (List QuoteType)
parse_types lower [] = ok []
parse_types lower (s ∷ rest) = add_type (type_of (lower s)) (parse_types lower rest)

abbrev pub known_channels : List String
known_channels =
    "quote" ∷ "candle_1m" ∷ "candle_5m" ∷ "market" ∷ "industry_strength" ∷ "theme_strength"
    ∷ "alert" ∷ []

-- `set(channels or ["quote"]) & {...}`
unfoldable pub channels_of : Option (List String) → List String
channels_of none = "quote" ∷ []
channels_of (some []) = "quote" ∷ []
channels_of (some (c ∷ cs)) = filter (λ channel. contains channel known_channels) (c ∷ cs)

abbrev pub identities : String → List QuoteType → List Identity
identities key [] = []
identities key (q ∷ qs) = (key, q) ∷ identities key qs

abbrev pub named_types : String → Result (List QuoteType) → Result (List Identity)
named_types key (err e) = err e
named_types key (ok types) = ok (identities key types)

module _ (texts : Texts) where
  abbrev pub market_of : Target → String
  market_of t = texts.upper (or_else t.market "")

  abbrev pub code_of : Target → String
  code_of t = texts.upper (or_else t.code "")

  unfoldable pub valid_security_target : String → String → Bool
  valid_security_target market code =
      (str_eq market "TWSE" || str_eq market "TPEX")
      && texts.isdigit code
      && leb 4 (texts.len code)
      && leb (texts.len code) 6

  abbrev pub types_of : Target → Result (List QuoteType)
  types_of t = parse_types texts.lower (raw_types t.quote_type t.quote_types)

  -- The types that are named, or all that the connection has of the security.
  unfoldable pub requested : Target → ConnectionSession → String → Result (List Identity)
  requested t s key =
      if has_quote_type t
      then named_types key (types_of t)
      else ok (filter (λ (i : Identity). str_eq i.0 key) s.provider_subscriptions)

-- The hub's tables, the manager, and what was sent to the connection.
pub record Hub (M : Type 0) : Type 0 where
  pub sessions : List ℕ
  pub key_to_sessions : List (String × List ℕ)
  pub manager : M
  pub messages : List Message

unfoldable pub add_session : ℕ → List ℕ → List ℕ
add_session id ids = if contains id ids then ids else ids ++ id ∷ []

-- `self.key_to_sessions[key].add(session)`, of a `defaultdict`
unfoldable pub link : String → ℕ → List (String × List ℕ) → List (String × List ℕ)
link key id table = put key (add_session id (or_else (find_key key table) [])) table

unfoldable pub unlink_from : String → List ℕ → List (String × List ℕ) → List (String × List ℕ)
unlink_from key [] table = delete key table
unlink_from key (i ∷ ids) table = put key (i ∷ ids) table

-- The session leaves the key, and a key without sessions is dropped.
unfoldable pub unlink : String → ℕ → List (String × List ℕ) → List (String × List ℕ)
unlink key id table = unlink_from key (erase id (or_else (find_key key table) [])) table

unfoldable pub unlink_all : List String → ℕ → List (String × List ℕ) → List (String × List ℕ)
unlink_all [] id table = table
unlink_all (key ∷ keys) id table = unlink_all keys id (unlink key id table)

-- `break` out of the loop over targets, or not
pub data Step : Type 0 where
  go_on leave : Step

unfoldable pub register_connection :
    ℕ → String → ℕ → {M : Type 0} → Hub M → ConnectionSession × Hub M
register_connection id owner_id max_subscriptions h = (
  record {
    id = id;
    owner_id = owner_id;
    max_subscriptions = max_subscriptions;
    subscriptions = [];
    provider_subscriptions = [];
    channels = "quote" ∷ [];
    is_alive = true;
  },
  record h { sessions = add_session id h.sessions },
)
