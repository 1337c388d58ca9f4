-- ===== src/Alert/Service.antt =====
-- `AlertRuleService` and `AlertEvaluationService.evaluate` (backend/app/services/alerts.py) with
-- `event_state` and `add_event` (backend/app/repositories/sql_alert.py). Times are in seconds.
use Prim.Native.Nat.{max}
use tw_stock_android_spec.Base.{
  ℕ, ◌+◌, String, Bool, true, false, not, ◌&&◌, ◌||◌, Option, none, some, List, [], ◌∷◌, ◌++◌, map,
  ◌==◌, leb, if◌then◌else◌, filter, is_some, or_else,
}
use tw_stock_android_spec.Base.Assoc.{Pair, pair_eq, contains, find_key, put, string_eq, nat_eq}
use tw_stock_android_spec.Base.Int.{ℤ, pos, leb_ℤ, ltb_ℤ, ◌-ℤ◌, ◌*ℤ◌}
use tw_stock_android_spec.Outcome.{Result, ok, err, app_error, value_error, ◌>>◌, raise_if}
use tw_stock_android_spec.Alert.Types.{
  RuleType, AlertRule, eod, realtime, MarketPoint, AlertOccurrence, AlertEvent, PushEvent,
}
use tw_stock_android_spec.Alert.Rule.{validate_rule}
use tw_stock_android_spec.Alert.Calendar.{is_trading_day, latest_completed}
use tw_stock_android_spec.Alert.Evaluator.{evaluate}

-- `except ValueError`
abbrev pub as_invalid : Result (Unit {0}) → Result (Unit {0})
as_invalid (err value_error) = err (app_error "ALERT_RULE_INVALID" 422)
as_invalid m = m

-- The checks of `save` before the repository is called; `there` is its answer for the rule's id.
unfoldable pub check_save : AlertRule → Option ℕ → Option AlertRule → Result (Unit {0})
check_save values rule_id there = do
  as_invalid (validate_rule values)
  raise_if (is_some rule_id && not (is_some there)) (app_error "ALERT_RULE_NOT_FOUND" 404)

unfoldable pub require : Option AlertRule → Result AlertRule
require none = err (app_error "ALERT_RULE_NOT_FOUND" 404)
require (some rule) = ok rule

-- What the loop keeps: the three tables of `event_state`, the rows added, and the two counters.
pub record Loop : Type 0 where
  pub fingerprints : List String
  pub latest_events : List (Pair × ℕ)
  pub counts : List (ℕ × ℕ)
  pub events : List AlertEvent
  pub pushes : List PushEvent
  pub created : ℕ
  pub errors : ℕ

-- `counts.get(rule_id, 0)`
abbrev pub count_of : ℕ → List (ℕ × ℕ) → ℕ
count_of r counts = or_else (find_key r counts) 0

abbrev pub is_notified : ℕ → AlertEvent → Bool
is_notified target e = e.trade_date == target && e.notification_eligible

unfoldable pub counts_from : ℕ → List AlertEvent → List (ℕ × ℕ) → List (ℕ × ℕ)
counts_from target [] counts = counts
counts_from target (e ∷ rows) counts = counts_from target rows (
    if is_notified target e
    then put e.alert_rule_id (count_of e.alert_rule_id counts + 1) counts
    else counts)

unfoldable pub latest_from : List AlertEvent → List (Pair × ℕ) → List (Pair × ℕ)
latest_from [] latest = latest
latest_from (e ∷ rows) latest =
    let key : Pair = (e.alert_rule_id, e.security_id) in
    latest_from rows
      (put key (max (or_else (find_key key latest) e.triggered_at) e.triggered_at) latest)

-- The `where` clause of `event_state`
unfoldable pub is_selected : List ℕ → ℕ → ℤ → AlertEvent → Bool
is_selected ids target since e =
    contains e.alert_rule_id ids && (e.trade_date == target || leb_ℤ since (pos e.triggered_at))

abbrev pub fingerprints_of : ℕ → List AlertEvent → List String
fingerprints_of target rows = map (λ e. e.fingerprint) (filter (λ e. e.trade_date == target) rows)

unfoldable pub event_state : List ℕ → ℕ → ℤ → List AlertEvent → List PushEvent → Loop
event_state ids target since events pushes =
    let rows = filter (is_selected ids target since) events in
    record {
      fingerprints = fingerprints_of target rows;
      latest_events = latest_from rows [];
      counts = counts_from target rows [];
      events = events;
      pushes = pushes;
      created = 0;
      errors = 0;
    }

-- One turn of the inner loop: the rule and security, the two times it reads, and the new event's id.
pub record Visit : Type 0 where
  pub rule : AlertRule
  pub security_id : ℕ
  pub now : ℕ
  pub later : ℕ
  pub event_id : ℕ

-- The cooldown compares the last event with `now - timedelta(minutes=rule.cooldown_minutes)`.
unfoldable pub cooling : AlertRule → ℕ → Option ℕ → Bool
cooling rule now none = false
cooling rule now (some previous) = leb_ℤ (pos now -ℤ rule.cooldown_minutes *ℤ pos 60) (pos previous)

unfoldable pub eligible : Visit → Loop → Bool
eligible v s =
    not (cooling v.rule v.now (find_key (v.rule.id, v.security_id) s.latest_events))
    && ltb_ℤ (pos (count_of v.rule.id s.counts)) v.rule.daily_limit

abbrev pub new_event : Visit → ℕ → AlertOccurrence → String → Bool → AlertEvent
new_event v target o fingerprint notify = record {
  id = v.event_id;
  alert_rule_id = v.rule.id;
  security_id = v.security_id;
  triggered_at = v.later;
  trade_date = target;
  occurrence = o;
  fingerprint = fingerprint;
  notification_eligible = notify;
}

-- `owner` is the user of a persisted rule, `digest` the fingerprint, `history` the market points.
module _ (owner : ℕ → Option ℕ) (digest : ℕ → ℕ → ℕ → RuleType → String)
    (history : ℕ → List MarketPoint) (target : ℕ) where
  -- `add_event` and what follows it
  unfoldable pub record_event : Visit → AlertOccurrence → String → Bool → Loop → Loop
  record_event v o fingerprint notify s = record {
    fingerprints = fingerprint ∷ s.fingerprints;
    latest_events = put (v.rule.id, v.security_id) v.later s.latest_events;
    counts = if notify then put v.rule.id (count_of v.rule.id s.counts + 1) s.counts else s.counts;
    events = s.events ++ new_event v target o fingerprint notify ∷ [];
    pushes =
        if notify
        then s.pushes
          ++ record { id = v.event_id; user_id = owner v.rule.id; event_type = o.event_type } ∷ []
        else s.pushes;
    created = s.created + 1;
    errors = s.errors;
  }

  unfoldable pub fire : Visit → AlertOccurrence → String → Loop → Loop
  fire v o fingerprint s =
      if contains fingerprint s.fingerprints
      then s
      else record_event v o fingerprint (eligible v s) s

  -- An exception is counted and the loop goes on.
  unfoldable pub occurred : Visit → Result (Option AlertOccurrence) → Loop → Loop
  occurred v (err e) s = record s { errors = s.errors + 1 }
  occurred v (ok none) s = s
  occurred v (ok (some o)) s = fire v o (digest v.rule.id v.security_id target o.event_type) s

  unfoldable pub points_of : ℕ → List MarketPoint
  points_of security =
      filter (λ p. is_trading_day p.trade_date && leb p.trade_date target) (history security)

  unfoldable pub visit : Visit → Loop → Loop
  visit v s = occurred v (evaluate v.rule (points_of v.security_id)) s

  unfoldable pub visit_all : List Visit → Loop → Loop
  visit_all [] s = s
  visit_all (v ∷ vs) s = visit_all vs (visit v s)

-- The rules that the service evaluates, of those enabled.
unfoldable pub is_eod : AlertRule → Bool
is_eod rule = elim rule.evaluation_mode [ eod ↦ true | realtime ↦ false ]

pub data RunStatus : Type 0 where
  success partial : RunStatus

unfoldable pub status_of : Loop → RunStatus
status_of s = if s.errors == 0 then success else partial

-- The times that a turn reads and the key of its event.
pub record Reads : Type 0 where
  pub now : ℕ
  pub later : ℕ
  pub event_id : ℕ

-- What an evaluation is given: the enabled rules, each rule's securities, and what it reads.
pub record Evaluation : Type 0 where
  pub target_date : Option ℕ
  pub today : ℕ
  pub started_at : ℕ
  pub enabled_rules : List AlertRule
  pub membership : ℕ → List ℕ
  pub reads : ℕ → ℕ → Reads
  pub owner : ℕ → Option ℕ
  pub digest : ℕ → ℕ → ℕ → RuleType → String
  pub history : ℕ → List MarketPoint

unfoldable pub target_of : Evaluation → ℕ
target_of ev = or_else ev.target_date (latest_completed ev.today)

unfoldable pub rules_of : Evaluation → List AlertRule
rules_of ev = filter is_eod ev.enabled_rules

abbrev pub ids_of : List AlertRule → List ℕ
ids_of [] = []
ids_of (rule ∷ rules) = rule.id ∷ ids_of rules

-- `max([rule.cooldown_minutes for rule in rules], default=0)`
unfoldable pub max_cooldown : List AlertRule → ℤ
max_cooldown [] = pos 0
max_cooldown (rule ∷ []) = rule.cooldown_minutes
max_cooldown (rule ∷ next ∷ rules) =
    let rest = max_cooldown (next ∷ rules) in
    if leb_ℤ rest rule.cooldown_minutes then rule.cooldown_minutes else rest

unfoldable pub visits_for : Evaluation → AlertRule → List ℕ → List Visit
visits_for ev rule [] = []
visits_for ev rule (security ∷ securities) =
    let reads = ev.reads rule.id security in
    record {
      rule = rule;
      security_id = security;
      now = reads.now;
      later = reads.later;
      event_id = reads.event_id;
    }
    ∷ visits_for ev rule securities

unfoldable pub visits_of : Evaluation → List AlertRule → List Visit
visits_of ev [] = []
visits_of ev (rule ∷ rules) = visits_for ev rule (ev.membership rule.id) ++ visits_of ev rules

-- `AlertEvaluationService.evaluate` on the tables of events and of notifications to push.
unfoldable pub evaluate_all : Evaluation → List AlertEvent → List PushEvent → Loop
evaluate_all ev events pushes =
    let rules = rules_of ev in
    let since = pos ev.started_at -ℤ max_cooldown rules *ℤ pos 60 in
    visit_all ev.owner ev.digest ev.history (target_of ev) (visits_of ev rules)
      (event_state (ids_of rules) (target_of ev) since events pushes)
