-- ===== src/Alert/Limits.antt =====
-- How many notifications an evaluation can make (backend/app/services/alerts.py,
-- backend/app/repositories/sql_alert.py).
use Prim.Native.Nat.{max}
use tw_stock_android_spec.Base.{
  ℕ, ◌+◌, ◌≤◌, ◌<◌, ◌≡◌, refl, sym, ap, ◌∙◌, String, Bool, true, false, not, ◌&&◌, Option, none,
  some, List, [], ◌∷◌, ◌++◌, ◌==◌, ltb, if◌then◌else◌, filter, length, or_else, All, All-append,
  inl, inr, Bool-cases, ltb→lt, filter-append, length-append, ==_iff, ==_refl, if_both, subst,
  arith,
}
use tw_stock_android_spec.Base.Assoc.{
  contains, find_key, put, nat_eq, find_key-put_self, find_key-put_ne, string_eq, pair_eq,
}
use tw_stock_android_spec.Base.Int.{ℤ, pos, ltb_ℤ, ◌-ℤ◌, ◌*ℤ◌}
use tw_stock_android_spec.Outcome.{Result, ok, err}
use tw_stock_android_spec.Alert.Types.{
  RuleType, AlertRule, MarketPoint, AlertOccurrence, AlertEvent, PushEvent,
}
use tw_stock_android_spec.Alert.Evaluator.{evaluate}
use tw_stock_android_spec.Alert.Service.{
  Loop, count_of, is_notified, counts_from, is_selected, event_state, Visit, eligible, cooling,
  new_event, record_event, fire, occurred, points_of, visit, visit_all, Evaluation, target_of,
  rules_of, ids_of, max_cooldown, visits_for, visits_of, evaluate_all,
}

-- The notifications of a rule on a day.
abbrev pub is_notified_of : ℕ → ℕ → AlertEvent → Bool
is_notified_of r target e = e.alert_rule_id == r && is_notified target e

abbrev pub notified : ℕ → ℕ → List AlertEvent → ℕ
notified r target events = length (filter (is_notified_of r target) events)

count_of-put :
    (r k n : ℕ) (counts : List (ℕ × ℕ))
    → count_of r (put k n counts) ≡ (if k == r then n else count_of r counts)
count_of-put r k n counts = elim (Bool-cases (k == r)) [
  | inl t ↦ rw t (
      ap (λ j. count_of j (put k n counts)) (sym ((==_iff k r).0 t))
      ∙ ap (λ o. or_else o 0) (find_key-put_self k n counts))
  | inr t ↦ rw t (ap (λ o. or_else o 0) (find_key-put_ne k r n counts (λ e. ground arith)))
]

abbrev pub added : ℕ → ℕ → AlertEvent → ℕ
added r target e = if is_notified_of r target e then 1 else 0

-- One notification more is one more in the table.
count_of-put_next :
    (r k : ℕ) (notify : Bool) (counts : List (ℕ × ℕ))
    → count_of r (if notify then put k (count_of k counts + 1) counts else counts)
      ≡ count_of r counts + (if k == r && notify then 1 else 0)
count_of-put_next r k false counts = ground arith
count_of-put_next r k true counts = elim (Bool-cases (k == r)) [
  | inl t ↦
      rw (count_of-put r k (count_of k counts + 1) counts, t)
        (ap (λ j. count_of j counts + 1) ((==_iff k r).0 t))
  | inr t ↦ rw (count_of-put r k (count_of k counts + 1) counts, t) (omega arith)
]

notified_cons :
    (r target : ℕ) (e : AlertEvent) (rows : List AlertEvent)
    → notified r target (e ∷ rows) ≡ added r target e + notified r target rows
notified_cons r target e rows = ground arith

-- The loop of `event_state` counts the notifications of the rows it has read.
count_of-counts_from :
    (r target : ℕ) (rows : List AlertEvent) (counts : List (ℕ × ℕ))
    → count_of r (counts_from target rows counts) ≡ count_of r counts + notified r target rows
unfolding counts_from
count_of-counts_from r target [] counts = omega arith
count_of-counts_from r target (e ∷ rows) counts =
    let next =
      if is_notified target e
      then put e.alert_rule_id (count_of e.alert_rule_id counts + 1) counts
      else counts in
    let rest = count_of-counts_from r target rows next in
    let one = count_of-put_next r e.alert_rule_id (is_notified target e) counts in
    omega (arith, rest, one, notified_cons r target e rows)

notified-selected :
    (r target : ℕ) (ids : List ℕ) (since : ℤ) (events : List AlertEvent)
    → contains r ids ≡ true
    → notified r target (filter (is_selected ids target since) events) ≡ notified r target events
unfolding is_selected
notified-selected r target ids since [] h = refl
notified-selected r target ids since (e ∷ events) h = elim (Bool-cases (e.alert_rule_id == r)) [
  | inl t ↦
      let there = subst (λ k. contains k ids ≡ true) (sym ((==_iff e.alert_rule_id r).0 t)) h in
      ground (arith, there, notified-selected r target ids since events h)
  | inr t ↦ ground (arith, notified-selected r target ids since events h)
]

-- The loop's table agrees with its events, which are within the bound.
abbrev pub IsCounted : ℕ → ℕ → ℕ → Loop → Type 0
IsCounted r target bound s =
    (count_of r s.counts ≡ notified r target s.events) × (notified r target s.events ≤ bound)

notified-append_one :
    (r target : ℕ) (events : List AlertEvent) (e : AlertEvent)
    → notified r target (events ++ e ∷ []) ≡ notified r target events + added r target e
notified-append_one r target events e =
    rw (filter-append (is_notified_of r target) events (e ∷ [])) (
      length-append (filter (is_notified_of r target) events)
        (filter (is_notified_of r target) (e ∷ []))
      ∙ ground arith)

event_state-IsCounted :
    (r target : ℕ) (ids : List ℕ) (since : ℤ) (events : List AlertEvent) (pushes : List PushEvent)
    (bound : ℕ)
    → contains r ids ≡ true
    → notified r target events ≤ bound
    → IsCounted r target bound (event_state ids target since events pushes)
unfolding event_state
event_state-IsCounted r target ids since events pushes bound h k = (
  omega (
    arith,
    count_of-counts_from r target (filter (is_selected ids target since) events) [],
    notified-selected r target ids since events h,
  ),
  k,
)

-- A turn that may notify has a count below the limit.
eligible-below :
    (v : Visit) (s : Loop) (limit : ℕ)
    → v.rule.daily_limit ≡ pos limit
    → eligible v s ≡ true
    → count_of v.rule.id s.counts < limit
unfolding eligible
eligible-below v s limit e h =
    below v.rule.daily_limit (count_of v.rule.id s.counts)
      (cooling v.rule v.now (find_key (v.rule.id, v.security_id) s.latest_events)) e h
  where
    below :
        (z : ℤ) (n : ℕ) (cool : Bool)
        → z ≡ pos limit
        → not cool && ltb_ℤ (pos n) z ≡ true
        → n < limit
    below z n cool p q = ltb→lt n limit (omega_part (rw p at q))
      where
        omega_part : not cool && ltb_ℤ (pos n) (pos limit) ≡ true → ltb n limit ≡ true
        omega_part q = ground arith

bounded_step :
    (bound : ℕ) (x notify : Bool) (a n : ℕ)
    → a ≡ n + (if x && notify then 1 else 0)
    → n ≤ bound
    → (x ≡ true → notify ≡ true → n < bound)
    → a ≤ bound
bounded_step bound true true a n e le less = omega (arith, less refl refl)
bounded_step bound true false a n e le less = omega arith
bounded_step bound false notify a n e le less = omega arith

module _ (owner : ℕ → Option ℕ) (digest : ℕ → ℕ → ℕ → RuleType → String)
    (history : ℕ → List MarketPoint) (target r bound : ℕ) where
  added-new_event :
      (v : Visit) (o : AlertOccurrence) (f : String) (notify : Bool)
      → added r target (new_event v target o f notify) ≡ (if v.rule.id == r && notify then 1 else 0)
  added-new_event v o f notify = ground (arith, ==_refl target)

  record_event-IsCounted :
      (v : Visit) (o : AlertOccurrence) (f : String) (notify : Bool) (s : Loop)
      → (v.rule.id ≡ r → notify ≡ true → count_of v.rule.id s.counts < bound)
      → IsCounted r target bound s
      → IsCounted r target bound (record_event owner digest history target v o f notify s)
  unfolding record_event
  record_event-IsCounted v o f notify s below q =
      let more = count_of-put_next r v.rule.id notify s.counts in
      let e = new_event v target o f notify in
      let grown =
        notified-append_one r target s.events e
        ∙ ap (◌+◌ (notified r target s.events)) (added-new_event v o f notify) in
      (
        omega (arith, more, grown, q.0),
        bounded_step bound (v.rule.id == r) notify _ (notified r target s.events) grown q.1 (λ t u.
            subst (λ n. n < bound) q.0
              (subst (λ k. count_of k s.counts < bound) ((==_iff v.rule.id r).0 t)
                (below ((==_iff v.rule.id r).0 t) u))),
      )

  visit-IsCounted :
      (limit : ℕ) (v : Visit) (s : Loop)
      → limit ≤ bound
      → (v.rule.id ≡ r → v.rule.daily_limit ≡ pos limit)
      → IsCounted r target bound s
      → IsCounted r target bound (visit owner digest history target v s)
  unfolding visit occurred fire
  visit-IsCounted limit v s le same q =
      turn (evaluate v.rule (points_of owner digest history target v.security_id))
    where
      turn :
          (m : Result (Option AlertOccurrence))
          → IsCounted r target bound (occurred owner digest history target v m s)
      turn (err e) = q
      turn (ok none) = q
      turn (ok (some o)) =
          if_both (IsCounted r target bound)
            (contains (digest v.rule.id v.security_id target o.event_type) s.fingerprints) s _ q
            (record_event-IsCounted v o (digest v.rule.id v.security_id target o.event_type)
              (eligible v s) s (λ e u. omega (arith, eligible-below v s limit (same e) u)) q)

  visit_all-IsCounted :
      (limit : ℕ) (vs : List Visit) (s : Loop)
      → limit ≤ bound
      → All (λ v. v.rule.id ≡ r → v.rule.daily_limit ≡ pos limit) vs
      → IsCounted r target bound s
      → IsCounted r target bound (visit_all owner digest history target vs s)
  unfolding visit_all
  visit_all-IsCounted limit [] s le h q = q
  visit_all-IsCounted limit (v ∷ vs) s le h q =
      visit_all-IsCounted limit vs (visit owner digest history target v s) le h.1
        (visit-IsCounted limit v s le h.0 q)

-- A turn's rule is one of those evaluated.
visits_for-All :
    (P : AlertRule → Type 0) (ev : Evaluation) (rule : AlertRule) (securities : List ℕ)
    → P rule
    → All (λ v. P v.rule) (visits_for ev rule securities)
unfolding visits_for
visits_for-All P ev rule [] p = tt
visits_for-All P ev rule (s ∷ ss) p = (p, visits_for-All P ev rule ss p)

pub visits_of-All :
    (P : AlertRule → Type 0) (ev : Evaluation) (rules : List AlertRule)
    → All P rules
    → All (λ v. P v.rule) (visits_of ev rules)
unfolding visits_of
visits_of-All P ev [] h = tt
visits_of-All P ev (rule ∷ rules) h =
    All-append (λ v. P v.rule) (visits_for ev rule (ev.membership rule.id)) (visits_of ev rules)
      (visits_for-All P ev rule (ev.membership rule.id) h.0) (visits_of-All P ev rules h.1)

-- An evaluation makes no more notifications of a rule for its day than the rule's daily limit, those
-- of earlier evaluations included: where there were more before, it adds none. The rule's id names one
-- limit among the rules evaluated.
pub evaluate_all_within_limit :
    (ev : Evaluation) (events : List AlertEvent) (pushes : List PushEvent) (r limit : ℕ)
    → contains r (ids_of (rules_of ev)) ≡ true
    → All (λ rule. rule.id ≡ r → rule.daily_limit ≡ pos limit) (rules_of ev)
    → notified r (target_of ev) (evaluate_all ev events pushes).events
      ≤ max (notified r (target_of ev) events) limit
unfolding evaluate_all
evaluate_all_within_limit ev events pushes r limit there h =
    let target = target_of ev in
    let rules = rules_of ev in
    let bound = max (notified r target events) limit in
    (visit_all-IsCounted ev.owner ev.digest ev.history target r bound limit (visits_of ev rules) _
      (omega arith) (visits_of-All (λ rule. rule.id ≡ r → rule.daily_limit ≡ pos limit) ev rules h)
      (event_state-IsCounted r target (ids_of rules)
        (pos ev.started_at -ℤ max_cooldown rules *ℤ pos 60) events pushes bound there
        (omega arith))).1
