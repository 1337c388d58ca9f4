-- ===== src/Realtime/Intraday/Ingest.antt =====
-- The shares of a session whose quotes come in any order
-- (backend/app/services/realtime_cache.py and intraday_candle_aggregator.py beside it).
use tw_stock_android_spec.Base.{
  ℕ, ◌+◌, ◌≤◌, ◌<◌, ◌≡◌, refl, true, false, some, List, [], ◌∷◌, leb, ltb, if◌then◌else◌, if_both,
  All, ◌⊎◌, inl, inr, Bool-cases, subst, arith,
}
use tw_stock_android_spec.Realtime.Quote.{snapshot, update, one_minute}
use tw_stock_android_spec.Realtime.Intraday.{Quote, at_time, bucket_start_of, not_after, accept}
use tw_stock_android_spec.Realtime.Intraday.Session.{new_cache, traded, bucket_start_mono}
use tw_stock_android_spec.Realtime.Intraday.Conserved.{
  IsRecorded, IsOpened, clock-IsRecorded, accept-IsRecorded, accept-snapshot, first-IsRecorded,
}
use tw_stock_android_spec.Realtime.Intraday.Arrival.{
  Ingestion, is_outdated, is_saved, default_ttl, cached_quote, ingest, ingest_all, nothing_yet,
  IsTimely, AllTimely,
}

-- The exchange's times and totals, by sequence
module _ (time_of total_of : ℕ → ℕ) (time_mono : (m n : ℕ) → m ≤ n → time_of m ≤ time_of n)
    (total_mono : (m n : ℕ) → m ≤ n → total_of m ≤ total_of n) where
  pub record IsStamped (n : ℕ) (q : Quote) : Type 0 where
    pub numbered : q.sequence ≡ some n
    pub timed : q.exchange_timestamp ≡ time_of n
    pub counted : q.total_volume ≡ total_of n

  abbrev pub IsUpdate : Quote → Type 0
  IsUpdate q = (q.event_kind ≡ update) × ((n : ℕ) × IsStamped n q)

  abbrev pub AtMost : ℕ → ℕ × Quote → Type 0
  AtMost n a = (m : ℕ) × ((a.1.sequence ≡ some m) × (m ≤ n))

  module _ (opening : Quote) where
    abbrev pub first_start : ℕ
    first_start = bucket_start_of one_minute opening.exchange_timestamp

    -- The newest quote so far, and what the candles hold up to it
    record IsIngested (number : ℕ) (newest : Quote) (s : Ingestion) : Type 0 where
      saved : s.quote ≡ some newest
      stamped : IsStamped number newest
      after : opening.exchange_timestamp ≤ newest.exchange_timestamp
      recorded :
          ((newest ≡ opening) × IsOpened opening s.cache)
          ⊎ IsRecorded opening.total_volume first_start newest s.cache

    module _ (m : ℕ) (e q : Quote) (s : Ingestion) (i : IsIngested m e s)
        (kind : q.event_kind ≡ update) (n : ℕ) (stamp : IsStamped n q) (now : ℕ)
        (timely : IsTimely first_start now q s) where
      time_after : m < n → e.exchange_timestamp ≤ q.exchange_timestamp
      time_after above = rw (stamp.timed, i.stamped.timed) (time_mono m n (omega (arith, above)))

      newer :
          m < n
          → IsRecorded opening.total_volume first_start q
              (accept q (record s.cache { clock = now })).1
      unfolding not_after
      newer above =
          let time = time_after above in
          let total : e.total_volume ≤ q.total_volume =
            rw (stamp.counted, i.stamped.counted) (total_mono m n (omega (arith, above))) in
          let start =
            bucket_start_mono opening.exchange_timestamp q.exchange_timestamp
              (omega (arith, i.after, time)) in
          elim i.recorded [
            | inl first ↦
                first-IsRecorded opening q first_start (record s.cache { clock = now })
                  (record {
                    empty = first.1.empty;
                    none_open = first.1.none_open;
                    baseline = first.1.baseline;
                  })
                  timely.retained start kind
                  (subst (λ o. o.total_volume ≤ q.total_volume) first.0 total)
            | inr r ↦
                accept-IsRecorded opening.total_volume first_start e q
                  (record s.cache { clock = now })
                  (clock-IsRecorded opening.total_volume first_start now e s.cache r)
                  timely.retained kind time
                  (rw (stamp.numbered, i.stamped.numbered) (ground (arith, above))) total
          ]

      -- A newer quote is saved, whether or not the last one is still cached.
      newer_saved : leb n m ≡ false → is_saved q (cached_quote now s) ≡ true
      unfolding is_saved is_outdated
      newer_saved new = elim (Bool-cases (ltb now s.quote_until)) [
        | inl t ↦ rw (t, i.saved, stamp.numbered, i.stamped.numbered, new) refl
        | inr t ↦ rw t refl
      ]

      -- One that is not newer comes while the last one is cached, and is dropped.
      older_dropped : leb n m ≡ true → is_saved q (cached_quote now s) ≡ false
      unfolding is_saved is_outdated not_after
      older_dropped old = elim timely.compared [
        | inl there ↦
            let here : ltb now s.quote_until ≡ true = ground (arith, there) in
            rw (here, i.saved, stamp.numbered, i.stamped.numbered, old) refl
        | inr new ↦ let other = rw (i.saved, stamp.numbered, i.stamped.numbered, old) at new in cc
      ]

      -- The newest quote after this one
      record Next (s' : Ingestion) : Type 0 where
        number : ℕ
        newest : Quote
        ingested : IsIngested number newest s'
        grows : m ≤ number
        covers : n ≤ number

      ingest-Next : Next (ingest now q s)
      unfolding ingest
      ingest-Next = elim (Bool-cases (leb n m)) [
        | inl old ↦ rw (older_dropped old) record {
          number = m;
          newest = e;
          ingested = i;
          grows = omega arith;
          covers = ground (arith, old);
        }
        | inr new ↦
            let above : m < n = ground (arith, new) in
            rw (newer_saved new, timely.kept)
              record {
                number = n;
                newest = q;
                ingested = record {
                  saved = refl;
                  stamped = stamp;
                  after = omega (arith, i.after, time_after above);
                  recorded = inr (newer above);
                };
                grows = omega (arith, above);
                covers = omega arith;
              }
      ]

    -- The newest of some quotes, and what the candles hold
    pub record IsBalanced (m : ℕ) (arrivals : List (ℕ × Quote)) (s : Ingestion) : Type 0 where
      pub newest : Quote
      pub number : ℕ
      pub saved : s.quote ≡ some newest
      pub numbered : newest.sequence ≡ some number
      pub grows : m ≤ number
      pub none_newer : All (AtMost number) arrivals
      pub balanced : traded s.cache.candles + opening.total_volume ≡ newest.total_volume

    balance :
        (m : ℕ) (e : Quote) (s : Ingestion)
        → IsIngested m e s
        → traded s.cache.candles + opening.total_volume ≡ e.total_volume
    balance m e s i = elim i.recorded [
      | inl first ↦ rw (first.1.empty, first.0) (omega arith)
      | inr r ↦ r.total
    ]

    ingest_all-IsBalanced :
        (arrivals : List (ℕ × Quote)) (m : ℕ) (e : Quote) (s : Ingestion)
        → IsIngested m e s
        → All (λ (a : ℕ × Quote). IsUpdate a.1) arrivals
        → AllTimely first_start arrivals s
        → IsBalanced m arrivals (ingest_all arrivals s)
    unfolding ingest_all
    ingest_all-IsBalanced [] m e s i u t = record {
      newest = e;
      number = m;
      saved = i.saved;
      numbered = i.stamped.numbered;
      grows = omega arith;
      none_newer = tt;
      balanced = balance m e s i;
    }
    ingest_all-IsBalanced ((now, q) ∷ arrivals) m e s i ((kind, (n, stamp)), u) (timely, t) =
        let next = ingest-Next m e q s i kind n stamp now timely in
        let b =
          ingest_all-IsBalanced arrivals next.number next.newest (ingest now q s) next.ingested u
            t in
        record {
          newest = b.newest;
          number = b.number;
          saved = b.saved;
          numbered = b.numbered;
          grows = omega (arith, b.grows, next.grows);
          none_newer = ((n, (stamp.numbered, omega (arith, b.grows, next.covers))), b.none_newer);
          balanced = b.balanced;
        }

    opened-IsIngested :
        (now first : ℕ)
        → opening.event_kind ≡ snapshot
        → IsStamped first opening
        → IsIngested first opening (ingest now opening nothing_yet)
    unfolding ingest is_saved
    opened-IsIngested now first kind stamp =
        if_both (λ o. IsIngested first opening (if is_saved opening o then after else nothing_yet))
          (ltb now 0) _ _ begun begun
      where
        after : Ingestion
        after = record {
          quote = some opening;
          quote_until = now + default_ttl;
          cache = (accept opening (at_time now new_cache)).1;
        }

        begun : IsIngested first opening after
        begun = record {
          saved = refl;
          stamped = stamp;
          after = omega arith;
          recorded = inl (refl, accept-snapshot opening now kind);
        }

    -- The times and totals of the exchange rise with the sequence. A session begins with a snapshot,
    -- and its updates come in whatever order and however often, as long as one that is not newer
    -- than the last one saved comes before that one expires, which is 120 seconds after it was
    -- saved, and neither the baseline and the current candle, which are kept for a day, nor the
    -- session's first candle, for a week, have expired: the candles hold together exactly what the
    -- total of the newest quote has over the opening one, and that quote is the last one saved.
    pub session_volume :
        (first now : ℕ) (arrivals : List (ℕ × Quote))
        → opening.event_kind ≡ snapshot
        → IsStamped first opening
        → All (λ (a : ℕ × Quote). IsUpdate a.1) arrivals
        → AllTimely first_start arrivals (ingest now opening nothing_yet)
        → IsBalanced first arrivals (ingest_all ((now, opening) ∷ arrivals) nothing_yet)
    unfolding ingest_all
    session_volume first now arrivals kind stamp u t =
        ingest_all-IsBalanced arrivals first opening (ingest now opening nothing_yet)
          (opened-IsIngested now first kind stamp) u t
