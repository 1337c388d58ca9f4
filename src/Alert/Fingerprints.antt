-- ===== src/Alert/Fingerprints.antt =====
-- One event for a fingerprint (backend/app/services/alerts.py).
use tw_stock_android_spec.Base.{
  ℕ, ◌+◌, ◌≡◌, String, Bool, false, Option, none, some, List, [], ◌∷◌, length, length-append, inl,
  inr, Bool-cases, arith,
}
use tw_stock_android_spec.Base.Assoc.{Distinct, contains, string_eq}
use tw_stock_android_spec.Base.Int.{pos, ◌-ℤ◌, ◌*ℤ◌}
use tw_stock_android_spec.Outcome.{Result, ok, err}
use tw_stock_android_spec.Alert.Types.{
  RuleType, MarketPoint, AlertOccurrence, AlertEvent, PushEvent,
}
use tw_stock_android_spec.Alert.Evaluator.{evaluate}
use tw_stock_android_spec.Alert.Service.{
  Loop, event_state, Visit, eligible, new_event, record_event, fire, occurred, points_of, visit,
  visit_all, Evaluation, target_of, rules_of, ids_of, max_cooldown, visits_of, evaluate_all,
}

-- The loop has made one event for each fingerprint it took, from the two numbers it began with.
abbrev pub IsTallied : ℕ → ℕ → Loop → Type 0
IsTallied fingerprints events s =
    Distinct s.fingerprints
    × (length s.fingerprints ≡ fingerprints + s.created)
    × (length s.events ≡ events + s.created)

module _ (owner : ℕ → Option ℕ) (digest : ℕ → ℕ → ℕ → RuleType → String)
    (history : ℕ → List MarketPoint) (target m n : ℕ) where
  record_event-IsTallied :
      (v : Visit) (o : AlertOccurrence) (f : String) (notify : Bool) (s : Loop)
      → contains f s.fingerprints ≡ false
      → IsTallied m n s
      → IsTallied m n (record_event owner digest history target v o f notify s)
  unfolding record_event
  record_event-IsTallied v o f notify s new h = (
    (new, h.0),
    omega (arith, h.1),
    omega (arith, h.2, length-append s.events (new_event v target o f notify ∷ [])),
  )

  fire-IsTallied :
      (v : Visit) (o : AlertOccurrence) (f : String) (s : Loop)
      → IsTallied m n s
      → IsTallied m n (fire owner digest history target v o f s)
  unfolding fire
  fire-IsTallied v o f s h = elim (Bool-cases (contains f s.fingerprints)) [
    | inl t ↦ rw t h
    | inr t ↦ rw t (record_event-IsTallied v o f (eligible v s) s t h)
  ]

  visit-IsTallied :
      (v : Visit) (s : Loop)
      → IsTallied m n s
      → IsTallied m n (visit owner digest history target v s)
  unfolding visit occurred
  visit-IsTallied v s h =
      turn (evaluate v.rule (points_of owner digest history target v.security_id))
    where
      turn :
          (r : Result (Option AlertOccurrence))
          → IsTallied m n (occurred owner digest history target v r s)
      turn (err e) = h
      turn (ok none) = h
      turn (ok (some o)) =
          fire-IsTallied v o (digest v.rule.id v.security_id target o.event_type) s h

  visit_all-IsTallied :
      (vs : List Visit) (s : Loop)
      → IsTallied m n s
      → IsTallied m n (visit_all owner digest history target vs s)
  unfolding visit_all
  visit_all-IsTallied [] s h = h
  visit_all-IsTallied (v ∷ vs) s h =
      visit_all-IsTallied vs (visit owner digest history target v s) (visit-IsTallied v s h)

-- The tables that an evaluation begins with.
abbrev pub start_of : Evaluation → List AlertEvent → List PushEvent → Loop
start_of ev events pushes =
    let rules = rules_of ev in
    event_state (ids_of rules) (target_of ev) (pos ev.started_at -ℤ max_cooldown rules *ℤ pos 60)
      events pushes

-- An evaluation that begins with distinct fingerprints for the day ends with distinct ones, and takes
-- one and adds one event for each that it counts as created.
pub evaluate_all-IsTallied :
    (ev : Evaluation) (events : List AlertEvent) (pushes : List PushEvent)
    → Distinct (start_of ev events pushes).fingerprints
    → IsTallied
        (length (start_of ev events pushes).fingerprints)
        (length events)
        (evaluate_all ev events pushes)
unfolding evaluate_all event_state
evaluate_all-IsTallied ev events pushes h =
    visit_all-IsTallied ev.owner ev.digest ev.history (target_of ev)
      (length (start_of ev events pushes).fingerprints) (length events) (visits_of ev (rules_of ev))
      (start_of ev events pushes) (h, omega arith, omega arith)
