-- ===== src/Realtime/Feed/Fed.antt =====
-- The candles and the statuses over the ingestion loop, its failures and new beginnings
-- (backend/app/services/realtime_provider_manager.py).
use tw_stock_android_spec.Base.{
  ℕ, ◌≤◌, ◌≡◌, refl, sym, ap, ◌∙◌, true, ◌&&◌, ◌||◌, Option, none, some, List, [], ◌∷◌, All, inl,
  inr, Bool-cases, if_both, subst, arith,
}
use tw_stock_android_spec.Outcome.{ok}
use tw_stock_android_spec.Realtime.Quote.{snapshot, one_minute}
use tw_stock_android_spec.Realtime.Subscription.{Capabilities, budget_exceeded}
use tw_stock_android_spec.Realtime.Intraday.{Quote, bucket_start_of}
use tw_stock_android_spec.Realtime.Intraday.Arrival.{
  Ingestion, is_saved, ingest, ingest_all, nothing_yet, cached_quote, AllTimely,
}
use tw_stock_android_spec.Realtime.Intraday.Ingest.{IsStamped, IsUpdate, IsBalanced, session_volume}
use tw_stock_android_spec.Realtime.Feed.{
  ProviderStatus, disconnected, live, Feed, is_live_eligible, first_status, alert_status_of, told,
  start_manager, seen, broken, StreamEvent, handled, aggregated, saved, failed, ended, stopped,
  on_event, run_events,
}

-- The evaluator shows the hub's status.
abbrev pub Agrees : Feed → Type 0
Agrees f =
    (previous : ProviderStatus)
    → f.alert_status ≡ some previous
    → previous ≡ alert_status_of f.hub_status

told-some :
    (status : ProviderStatus) (o : Option ProviderStatus) (previous : ProviderStatus)
    → told status o ≡ some previous
    → previous ≡ status
told-some status none previous h = cc
told-some status (some s) previous h = cc

seen-Agrees : (caps : Capabilities) (f : Feed) → Agrees f → Agrees (seen caps f)
unfolding seen alert_status_of
seen-Agrees caps f a =
    if_both Agrees (is_live_eligible caps) _ _ (λ p h. told-some live f.alert_status p h) a

broken-Agrees : (f : Feed) → Agrees (broken f)
unfolding broken alert_status_of
broken-Agrees f p h = told-some disconnected f.alert_status p h

-- The events after which the loop goes on, and no quote is left unaggregated
abbrev pub IsWhole : StreamEvent → Type 0
IsWhole (saved caps now q) = ⊥
IsWhole stopped = ⊥
IsWhole _ = Unit

abbrev pub quotes_of : List StreamEvent → List (ℕ × Quote)
quotes_of [] = []
quotes_of (handled caps now q ∷ events) = (now, q) ∷ quotes_of events
quotes_of (aggregated caps now q ∷ events) = (now, q) ∷ quotes_of events
quotes_of (saved caps now q ∷ events) = (now, q) ∷ quotes_of events
quotes_of (failed ∷ events) = quotes_of events
quotes_of (ended ∷ events) = quotes_of events
quotes_of (stopped ∷ events) = quotes_of events

-- The loop goes on, with these quotes in the cache and the candles.
record Holds (s : Ingestion) (f : Feed) : Type 0 where
  running : f.running ≡ true
  ingesting : f.ingesting ≡ true
  ingestion : f.ingestion ≡ s
  agrees : Agrees f

seen-Holds : (s : Ingestion) (caps : Capabilities) (f : Feed) → Holds s f → Holds s (seen caps f)
unfolding seen alert_status_of
seen-Holds s caps f h =
    if_both (Holds s) (is_live_eligible caps) _ _
      record {
        running = h.running;
        ingesting = h.ingesting;
        ingestion = h.ingestion;
        agrees = λ p e. told-some live f.alert_status p e;
      }
      h

broken-Holds : (s : Ingestion) (f : Feed) → Holds s f → Holds s (broken f)
unfolding broken
broken-Holds s f h = record {
  running = h.running;
  ingesting = h.ingesting;
  ingestion = h.ingestion;
  agrees = broken-Agrees f;
}

handled-Holds :
    (s : Ingestion) (caps : Capabilities) (now : ℕ) (q : Quote) (f : Feed)
    → Holds s f
    → Holds (ingest now q s) (record (seen caps f) { ingestion = ingest now q f.ingestion })
handled-Holds s caps now q f h =
    let after = seen-Holds s caps f h in
    record {
      running = after.running;
      ingesting = after.ingesting;
      ingestion = ap (ingest now q) h.ingestion;
      agrees = after.agrees;
    }

on_event-Holds :
    (e : StreamEvent) (s : Ingestion) (f : Feed)
    → IsWhole e
    → Holds s f
    → Holds (ingest_all (quotes_of (e ∷ [])) s) (on_event e f)
unfolding on_event ingest_all
on_event-Holds (handled caps now q) s f w h = handled-Holds s caps now q f h
on_event-Holds (aggregated caps now q) s f w h =
    let after = handled-Holds s caps now q f h in
    if_both (Holds (ingest now q s)) (is_saved q (cached_quote now f.ingestion)) _ _
      (broken-Holds _ _ after) after
on_event-Holds failed s f w h = broken-Holds s f h
on_event-Holds ended s f w h = h
on_event-Holds (saved caps now q) s f w h = elim w [ ]
on_event-Holds stopped s f w h = elim w [ ]

ingest_all-quotes :
    (e : StreamEvent) (events : List StreamEvent) (s : Ingestion)
    → ingest_all (quotes_of (e ∷ events)) s
      ≡ ingest_all (quotes_of events) (ingest_all (quotes_of (e ∷ [])) s)
unfolding ingest_all
ingest_all-quotes (handled caps now q) events s = refl
ingest_all-quotes (aggregated caps now q) events s = refl
ingest_all-quotes (saved caps now q) events s = refl
ingest_all-quotes failed events s = refl
ingest_all-quotes ended events s = refl
ingest_all-quotes stopped events s = refl

run_events-Holds :
    (events : List StreamEvent) (s : Ingestion) (f : Feed)
    → All IsWhole events
    → Holds s f
    → Holds (ingest_all (quotes_of events) s) (run_events events f)
unfolding run_events ingest_all
run_events-Holds [] s f w h = h
run_events-Holds (e ∷ events) s f w h =
    let step = on_event-Holds e s f w.0 h in
    let goes_on : (f.running && f.ingesting) ≡ true = ground (arith, h.running, h.ingesting) in
    rw (goes_on, ingest_all-quotes e events s) (run_events-Holds events _ (on_event e f) w.1 step)

start_manager-Holds :
    (caps : Capabilities) (f g : Feed)
    → start_manager caps f ≡ (ok tt, g)
    → (caps.realtime_available || caps.configured) ≡ true
    → Holds f.ingestion g
unfolding start_manager
start_manager-Holds caps f g h there =
    elim (Bool-cases (budget_exceeded f.manager.subscription_budget caps.subscription_hard_limit)) [
      | inl t ↦ let no = ap (λ r. r.0) (rw t at h) in cc
      | inr t ↦ subst (Holds f.ingestion) (ap (λ r. r.1) (rw t at h)) (record {
        running = refl;
        ingesting = ground (arith, there);
        ingestion = refl;
        agrees = λ p e. told-some (alert_status_of (first_status caps)) f.alert_status p e;
      })
    ]

-- What the loop comes to
module _ (time_of total_of : ℕ → ℕ) (time_mono : (m n : ℕ) → m ≤ n → time_of m ≤ time_of n)
    (total_mono : (m n : ℕ) → m ≤ n → total_of m ≤ total_of n) (opening : Quote) where
  -- The candles hold what the session's totals say, and the evaluator shows the hub's status.
  pub record IsFed (first : ℕ) (qs : List (ℕ × Quote)) (f : Feed) : Type 0 where
    pub balanced : IsBalanced time_of total_of time_mono total_mono opening first qs f.ingestion
    pub agrees : Agrees f

  -- A manager that is started with a provider that is configured, from an empty cache, and then a
  -- session of quotes as in Ingest, which begins with a snapshot and in which an update that is not
  -- newer than the last one saved comes before that one expires, 120 seconds after it was saved,
  -- and neither the baseline, the current candle nor the first one have expired: whatever streams
  -- end, and whatever calls raise before a quote is saved or after it is aggregated, the candles
  -- hold together exactly what the total of the newest quote has over the opening one, and the
  -- evaluator shows the hub's status.
  pub run_events-IsFed :
      (caps later : Capabilities) (f g : Feed) (first now : ℕ) (events : List StreamEvent)
      → start_manager caps f ≡ (ok tt, g)
      → (caps.realtime_available || caps.configured) ≡ true
      → f.ingestion ≡ nothing_yet
      → opening.event_kind ≡ snapshot
      → IsStamped time_of total_of time_mono total_mono first opening
      → All IsWhole events
      → All
          (λ (a : ℕ × Quote). IsUpdate time_of total_of time_mono total_mono a.1)
          (quotes_of events)
      → AllTimely
          (bucket_start_of one_minute opening.exchange_timestamp)
          (quotes_of events)
          (ingest now opening nothing_yet)
      → IsFed first (quotes_of events) (run_events (handled later now opening ∷ events) g)
  run_events-IsFed caps later f g first now events begun there empty kind stamp w u t =
      let held =
        run_events-Holds (handled later now opening ∷ events) f.ingestion g (tt, w)
          (start_manager-Holds caps f g begun there) in
      record {
        balanced =
            subst
              (IsBalanced time_of total_of time_mono total_mono opening first (quotes_of events))
              (ap (ingest_all ((now, opening) ∷ quotes_of events)) (sym empty) ∙ sym held.ingestion)
              (session_volume time_of total_of time_mono total_mono opening first now
                (quotes_of events) kind stamp u t);
        agrees = held.agrees;
      }
