-- ===== src/Realtime/Intraday/Conserved.antt =====
-- No share of a session is lost and none is counted twice
-- (backend/app/services/intraday_candle_aggregator.py).
use tw_stock_android_spec.Base.{
  ℕ, ◌+◌, ◌-◌, ◌≤◌, ◌<◌, ◌≡◌, refl, sym, ap, ◌∙◌, true, false, none, some, List, [], ◌∷◌, ◌==◌,
  ==_iff, All, inl, inr, Bool-cases, subst, arith,
}
use tw_stock_android_spec.Base.Assoc.{nat_eq, find_key, find_key-put_self, put}
use tw_stock_android_spec.Realtime.Quote.{snapshot, update, one_minute}
use tw_stock_android_spec.Realtime.Intraday.{
  Quote, IntradayCandle, Cache, Delta, retention, at_time, save_candle, set_baseline, delta_of,
  not_after, is_late, new_candle, extend_candle, finalize, update_one_minute, accept_kind, accept,
  bucket_start_of,
}
use tw_stock_android_spec.Realtime.Intraday.Late.{
  accept_update, update_in_order, update_next_minute, delta_of-volume,
}
use tw_stock_android_spec.Realtime.Intraday.Session.{
  new_cache, traded, traded-put_there, traded-put_new, starts-put, starts_before, bucket_start_mono,
  Since, Since-put, saved_whole, save_candle-whole,
}

-- The current candle after a quote: in its minute, saved, and the latest that is
pub record IsCurrent (q : Quote) (c : IntradayCandle) (cache : Cache) : Type 0 where
  pub open_still : c.is_final ≡ false
  pub at : cache.current ≡ some c
  pub updated : c.updated_at ≡ q.exchange_timestamp
  pub sequence : c.last_sequence ≡ q.sequence
  pub minute : c.bucket_start ≡ bucket_start_of one_minute q.exchange_timestamp
  pub saved_too : find_key c.bucket_start cache.candles ≡ some c
  pub latest : All (λ e. e.0 ≤ c.bucket_start) cache.candles

-- What was traded since the opening total `start` is in the candles.
-- `base` is a start that no candle of the session is before.
pub record IsRecorded (start base : ℕ) (q : Quote) (cache : Cache) : Type 0 where
  pub begun : base ≤ bucket_start_of one_minute q.exchange_timestamp
  pub since : Since base cache.candles
  pub total : traded cache.candles + start ≡ q.total_volume
  pub baseline : cache.baseline ≡ some (q.total_volume, q.turnover_amount)
  pub current : (c : IntradayCandle) × IsCurrent q c cache

-- The clock alone changes nothing.
pub clock-IsRecorded :
    (start base now : ℕ) (q : Quote) (cache : Cache)
    → IsRecorded start base q cache
    → IsRecorded start base q (record cache { clock = now })
clock-IsRecorded start base now q cache i =
    let (c, at) = i.current in
    record {
      begun = i.begun;
      since = i.since;
      total = i.total;
      baseline = i.baseline;
      current = (
        c,
        record {
          open_still = at.open_still;
          at = at.at;
          updated = at.updated;
          sequence = at.sequence;
          minute = at.minute;
          saved_too = at.saved_too;
          latest = at.latest;
        },
      );
    }

module _ (start base : ℕ) (q : Quote) (d : Delta) (cache : Cache)
    (kept : cache.clock < base + retention)
    (begun : base ≤ bucket_start_of one_minute q.exchange_timestamp)
    (since : Since base cache.candles)
    (baseline : cache.baseline ≡ some (q.total_volume, q.turnover_amount)) where
  abbrev opened : IntradayCandle
  opened = new_candle q d

  open-IsRecorded :
      traded cache.candles + d.volume + start ≡ q.total_volume
      → All (λ e. e.0 < bucket_start_of one_minute q.exchange_timestamp) cache.candles
      → IsRecorded start base q (save_candle (new_candle q d) cache)
  unfolding new_candle
  open-IsRecorded sum before =
      subst (IsRecorded start base q) (sym (save_candle-whole base opened cache kept begun since))
        record {
          begun = begun;
          since = Since-put base opened.bucket_start opened cache.candles begun since;
          total =
              omega (arith, sum, traded-put_new opened.bucket_start opened cache.candles before);
          baseline = baseline;
          current = (
            opened,
            record {
              open_still = refl;
              at = refl;
              updated = refl;
              sequence = refl;
              minute = refl;
              saved_too = find_key-put_self opened.bucket_start opened cache.candles;
              latest =
                  starts-put opened.bucket_start opened.bucket_start opened cache.candles
                    (omega arith) (below cache.candles before);
            },
          );
        }
    where
      below :
          (candles : List (ℕ × IntradayCandle))
          → All (λ e. e.0 < bucket_start_of one_minute q.exchange_timestamp) candles
          → All (λ e. e.0 ≤ bucket_start_of one_minute q.exchange_timestamp) candles
      below [] a = tt
      below (e ∷ candles) a = (omega (arith, a.0), below candles a.1)

  extend-IsRecorded :
      (c : IntradayCandle)
      → traded cache.candles + d.volume + start ≡ q.total_volume
      → c.is_final ≡ false
      → c.bucket_start ≡ bucket_start_of one_minute q.exchange_timestamp
      → find_key c.bucket_start cache.candles ≡ some c
      → All (λ e. e.0 ≤ c.bucket_start) cache.candles
      → IsRecorded start base q (save_candle (extend_candle q d c) cache)
  unfolding extend_candle
  extend-IsRecorded c sum going minute there below =
      let e = extend_candle q d c in
      let later : base ≤ c.bucket_start = omega (arith, begun, minute) in
      subst (IsRecorded start base q) (sym (save_candle-whole base e cache kept later since))
        record {
          begun = begun;
          since = Since-put base c.bucket_start e cache.candles later since;
          total = omega (arith, sum, traded-put_there c.bucket_start c e cache.candles there);
          baseline = baseline;
          current = (
            e,
            record {
              open_still = going;
              at = rw going refl;
              updated = refl;
              sequence = refl;
              minute = minute;
              saved_too = find_key-put_self c.bucket_start e cache.candles;
              latest = starts-put c.bucket_start c.bucket_start e cache.candles (omega arith) below;
            },
          );
        }

module _ (start base : ℕ) (q r : Quote) (cache : Cache) (i : IsRecorded start base q cache)
    (kept : cache.clock < base + retention) (kind : r.event_kind ≡ update)
    (time : q.exchange_timestamp ≤ r.exchange_timestamp)
    (sequence : not_after r.sequence q.sequence ≡ false)
    (grows : q.total_volume ≤ r.total_volume) where
  abbrev added : Delta
  added = delta_of cache.baseline r

  added-volume : added.volume ≡ r.total_volume - q.total_volume
  added-volume = delta_of-volume cache.baseline r q.total_volume q.turnover_amount i.baseline

  module _ (c : IntradayCandle) (now : IsCurrent q c cache) where
    began : base ≤ bucket_start_of one_minute r.exchange_timestamp
    began = omega (arith, i.begun, bucket_start_mono q.exchange_timestamp r.exchange_timestamp time)

    on_time : is_late r c ≡ false
    unfolding is_late
    on_time = rw (now.sequence, sequence, now.updated) (ground (arith, time))

    same_minute :
        c.bucket_start == bucket_start_of one_minute r.exchange_timestamp ≡ true
        → IsRecorded start base r (accept r cache).1
    unfolding set_baseline
    same_minute t =
        let minute =
          (==_iff c.bucket_start (bucket_start_of one_minute r.exchange_timestamp)).0 t in
        let done =
          accept_update r cache (some c) kind now.at
          ∙ update_in_order r added c (set_baseline r cache) on_time minute in
        subst (λ out. IsRecorded start base r out.1) (sym done)
          (extend-IsRecorded start base r added (set_baseline r cache) kept began i.since refl c
            (omega (arith, i.total, added-volume, grows)) now.open_still minute now.saved_too
            now.latest)

    next_minute :
        c.bucket_start == bucket_start_of one_minute r.exchange_timestamp ≡ false
        → IsRecorded start base r (accept r cache).1
    unfolding set_baseline finalize
    next_minute t =
        let f = finalize r.received_at c in
        let minute_since : base ≤ c.bucket_start = omega (arith, i.begun, now.minute) in
        let whole = save_candle-whole base f (set_baseline r cache) kept minute_since i.since in
        let done =
          ap (λ out. out.1) (accept_update r cache (some c) kind now.at)
          ∙ update_next_minute r added c (set_baseline r cache) on_time t
          ∙ ap (save_candle (new_candle r added)) whole in
        let later = bucket_start_mono q.exchange_timestamp r.exchange_timestamp time in
        subst (IsRecorded start base r) (sym done) (
          open-IsRecorded start base r added (saved_whole f (set_baseline r cache)) kept began
            (Since-put base c.bucket_start f cache.candles minute_since i.since) refl
            (omega (
              arith,
              i.total,
              added-volume,
              grows,
              traded-put_there c.bucket_start c f cache.candles now.saved_too,
            ))
            (starts_before c.bucket_start (bucket_start_of one_minute r.exchange_timestamp)
              (put c.bucket_start f cache.candles) (ground (arith, t, later, now.minute))
              (starts-put c.bucket_start c.bucket_start f cache.candles (omega arith) now.latest)))

    accept_current : IsRecorded start base r (accept r cache).1
    accept_current =
        elim (Bool-cases (c.bucket_start == bucket_start_of one_minute r.exchange_timestamp)) [
          | inl t ↦ same_minute t
          | inr t ↦ next_minute t
        ]

  pub accept-IsRecorded : IsRecorded start base r (accept r cache).1
  accept-IsRecorded = accept_current i.current.0 i.current.1

-- The cache of a session that has only its snapshot
pub record IsOpened (q : Quote) (cache : Cache) : Type 0 where
  pub empty : cache.candles ≡ []
  pub none_open : cache.current ≡ none
  pub baseline : cache.baseline ≡ some (q.total_volume, q.turnover_amount)

pub accept-snapshot :
    (q : Quote) (now : ℕ)
    → q.event_kind ≡ snapshot
    → IsOpened q (accept q (at_time now new_cache)).1
unfolding accept accept_kind set_baseline at_time
accept-snapshot q now opening =
    subst (λ k. IsOpened q (accept_kind k q (at_time now new_cache)).1) (sym opening)
      (record { empty = refl; none_open = ground arith; baseline = refl })

pub first-IsRecorded :
    (q r : Quote) (base : ℕ) (cache : Cache)
    → IsOpened q cache
    → cache.clock < base + retention
    → base ≤ bucket_start_of one_minute r.exchange_timestamp
    → r.event_kind ≡ update
    → q.total_volume ≤ r.total_volume
    → IsRecorded q.total_volume base r (accept r cache).1
unfolding update_one_minute set_baseline
first-IsRecorded q r base cache o kept begun kind grows =
    let d = delta_of cache.baseline r in
    let volume = delta_of-volume cache.baseline r q.total_volume q.turnover_amount o.baseline in
    subst (λ out. IsRecorded q.total_volume base r out.1)
      (sym (accept_update r cache none kind o.none_open))
      (open-IsRecorded q.total_volume base r d (set_baseline r cache) kept begun (rw o.empty tt)
        refl (rw o.empty (omega (arith, grows, volume))) (rw o.empty tt))
