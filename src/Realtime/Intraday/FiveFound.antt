-- ===== src/Realtime/Intraday/FiveFound.antt =====
-- The one-minute candles that a five-minute one is derived from
-- (backend/app/services/intraday_candle_aggregator.py).
use tw_stock_android_spec.Base.{
  ℕ, zero, suc, ◌+◌, ◌-◌, ◌≤◌, ◌<◌, ◌≡◌, refl, Bool, true, ◌&&◌, Option, none, some, some_eq, List,
  [], ◌∷◌, ◌++◌, filter, ltb, leb, ◌==◌, if_both, length, length-append, length-drop, drop,
  insert_sorted, sort_by, length-sort_by, All, All-append, inl, inr, Bool-cases, subst, arith,
}
use tw_stock_android_spec.Base.Assoc.{nat_eq, find_key, put, find_key-put_self}
use tw_stock_android_spec.Realtime.Quote.{EventKind, snapshot, update, one_minute}
use tw_stock_android_spec.Realtime.Intraday.{
  Quote, IntradayCandle, Cache, Delta, retention, is_retained, bucket_start_of, save_candle,
  finalize, is_late, new_candle, extend_candle, delta_of, set_baseline, update_one_minute,
  accept_kind, accept, saved,
}
use tw_stock_android_spec.Realtime.Intraday.Five.{
  between, Caches, SessionRow, starts_before, tagged, own_rows, get_candles,
}

pub All-between :
    (P : IntradayCandle → Type 0) (minimum maximum : ℕ) (candles : List (ℕ × IntradayCandle))
    → All (λ entry. P entry.1) candles
    → All P (between minimum maximum candles)
unfolding between
All-between P minimum maximum [] h = tt
All-between P minimum maximum ((start, c) ∷ candles) h =
    if_both (All P) (leb minimum start && leb start maximum) _ _
      (h.0, All-between P minimum maximum candles h.1) (All-between P minimum maximum candles h.1)

module _ {ℓ} {A : Type ℓ} (P : A → Type 0) where
  module _ (before : A → A → Bool) where
    All-insert_sorted : (c : A) (cs : List A) → P c → All P cs → All P (insert_sorted before c cs)
    All-insert_sorted c [] p h = (p, tt)
    All-insert_sorted c (d ∷ cs) p h =
        if_both (All P) (before d c) _ _ (h.0, All-insert_sorted c cs p h.1) (p, h)

    All-sort_by : (cs : List A) → All P cs → All P (sort_by before cs)
    All-sort_by [] h = tt
    All-sort_by (c ∷ cs) h = All-insert_sorted c (sort_by before cs) h.0 (All-sort_by cs h.1)

  All-drop : (n : ℕ) (cs : List A) → All P cs → All P (drop n cs)
  All-drop zero cs h = h
  All-drop (suc n) [] h = tt
  All-drop (suc n) (c ∷ cs) h = All-drop n cs h.1

-- A row of this session, whose candle has a property
abbrev Own : (IntradayCandle → Type 0) → SessionRow → Type 0
Own P row = (row.0 ≡ true) × P row.1

All-tagged :
    (P : IntradayCandle → Type 0) (cs : List IntradayCandle)
    → All P cs
    → All (Own P) (tagged true cs)
All-tagged P [] h = tt
All-tagged P (c ∷ cs) h = ((refl, h.0), All-tagged P cs h.1)

length-tagged : (cs : List IntradayCandle) → length (tagged true cs) ≡ length cs
length-tagged [] = refl
length-tagged (c ∷ cs) = omega (arith, length-tagged cs)

own_rows-All :
    (P : IntradayCandle → Type 0) (rows : List SessionRow)
    → All (Own P) rows
    → (length (own_rows rows) ≡ length rows) × All P (own_rows rows)
own_rows-All P [] h = (refl, tt)
own_rows-All P ((own, c) ∷ rows) h =
    let rest = own_rows-All P rows h.1 in rw h.0.0 (omega (arith, rest.0), (h.0.1, rest.1))

between-some :
    (minimum maximum start : ℕ) (candles : List (ℕ × IntradayCandle)) (c : IntradayCandle)
    → find_key start candles ≡ some c
    → minimum ≤ start
    → start ≤ maximum
    → 1 ≤ length (between minimum maximum candles)
unfolding between
between-some minimum maximum start [] c h le ge = cc
between-some minimum maximum start ((k, d) ∷ candles) c h le ge = elim (Bool-cases (k == start)) [
  | inl t ↦
      let within : (leb minimum k && leb k maximum) ≡ true = ground (arith, t, le, ge) in
      rw within (omega arith)
  | inr t ↦
      let rest = between-some minimum maximum start candles c (rw t at h) le ge in
      elim (Bool-cases (leb minimum k && leb k maximum)) [
        | inl u ↦ rw u (omega arith)
        | inr u ↦ rw u rest
      ]
]

-- No other session has candles from `start` to `end`.
abbrev pub IsAlone : ℕ → ℕ → Caches → Type 0
IsAlone start end s = (between start end s.earlier ≡ []) × (between start end s.later ≡ [])

-- The rows of this session, where it is alone
pub get_candles-own :
    (P : IntradayCandle → Type 0) (minimum maximum start : ℕ) (s : Caches) (c : IntradayCandle)
    → IsAlone minimum maximum s
    → All (λ entry. P entry.1) s.one.candles
    → find_key start s.one.candles ≡ some c
    → minimum ≤ start
    → start ≤ maximum
    → (1 ≤ length (own_rows (get_candles minimum maximum 5 s)))
      × All P (own_rows (get_candles minimum maximum 5 s))
unfolding get_candles
get_candles-own P minimum maximum start s c alone h there le ge =
    let cs = between minimum maximum s.one.candles in
    let rows = tagged true cs ++ [] in
    let sorted = sort_by starts_before rows in
    let fine : All (Own P) rows =
      All-append (Own P) (tagged true cs) []
        (All-tagged P cs (All-between P minimum maximum s.one.candles h)) tt in
    let own =
      own_rows-All P (drop (length sorted - 5) sorted) (
        All-drop (Own P) (length sorted - 5) sorted
          (All-sort_by (Own P) starts_before rows fine)) in
    let some_row : 1 ≤ length (own_rows (drop (length sorted - 5) sorted)) = omega (
      arith,
      between-some minimum maximum start s.one.candles c there le ge,
      length-tagged cs,
      length-append (tagged true cs) [],
      length-sort_by starts_before rows,
      length-drop (length sorted - 5) sorted,
      own.0,
    ) in
    rw (alone.0, alone.1) (some_row, own.1)

-- A candle that is still retained is found.
find_key-retained :
    (now k : ℕ) (c : IntradayCandle) (d : List (ℕ × IntradayCandle))
    → now < k + retention
    → find_key k d ≡ some c
    → find_key k (filter (is_retained now) d) ≡ some c
find_key-retained now k c [] recent h = h
find_key-retained now k c ((j, w) ∷ d) recent h = elim (Bool-cases (j == k)) [
  | inl t ↦
      let stays : ltb now (j + retention) ≡ true = ground (arith, t, recent) in
      rw (stays, t) (rw t at h)
  | inr t ↦
      let rest = find_key-retained now k c d recent (rw t at h) in
      elim (Bool-cases (ltb now (j + retention))) [ inl u ↦ rw (u, t) rest | inr u ↦ rw u rest ]
]

-- The candle that a call yields is saved under its start, and is ordered.
abbrev pub IsSaved : Option IntradayCandle × Cache → Type 0
IsSaved out = (c : IntradayCandle) → out.0 ≡ some c → find_key c.bucket_start out.1.candles ≡ some c

saved-IsSaved :
    (c : IntradayCandle) (cache : Cache)
    → cache.clock < c.bucket_start + retention
    → IsSaved (saved c cache)
unfolding save_candle
saved-IsSaved c cache recent d h =
    subst (λ e. find_key e.bucket_start (save_candle c cache).candles ≡ some e) (some_eq h)
      (find_key-retained cache.clock c.bucket_start c (put c.bucket_start c cache.candles) recent
        (find_key-put_self c.bucket_start c cache.candles))

update_one_minute-IsSaved :
    (q : Quote) (d : Delta) (o : Option IntradayCandle) (cache : Cache)
    → cache.clock < bucket_start_of one_minute q.exchange_timestamp + retention
    → IsSaved (update_one_minute q d o cache)
unfolding update_one_minute new_candle extend_candle save_candle
update_one_minute-IsSaved q d none cache recent = saved-IsSaved (new_candle q d) cache recent
update_one_minute-IsSaved q d (some c) cache recent =
    if_both IsSaved (is_late q c) _ _ (λ e h. cc)
      (elim (Bool-cases (c.bucket_start == bucket_start_of one_minute q.exchange_timestamp)) [
        | inl t ↦ rw t (saved-IsSaved (extend_candle q d c) cache (ground (arith, t, recent)))
        | inr t ↦
            rw t
              (saved-IsSaved (new_candle q d) (save_candle (finalize q.received_at c) cache) recent)
      ])

pub accept-IsSaved :
    (q : Quote) (cache : Cache)
    → cache.clock < bucket_start_of one_minute q.exchange_timestamp + retention
    → IsSaved (accept q cache)
unfolding accept accept_kind set_baseline
accept-IsSaved q cache recent = by_kind q.event_kind
  where
    by_kind : (kind : EventKind) → IsSaved (accept_kind kind q cache)
    by_kind snapshot = λ c h. cc
    by_kind update =
        update_one_minute-IsSaved q (delta_of cache.baseline q) cache.current (set_baseline q cache)
          recent

-- The candle that a call yields is of the quote's minute.
abbrev pub IsOfMinute : Quote → Option IntradayCandle × Cache → Type 0
IsOfMinute q out =
    (c : IntradayCandle)
    → out.0 ≡ some c
    → c.bucket_start ≡ bucket_start_of one_minute q.exchange_timestamp

saved-IsOfMinute :
    (q : Quote) (c : IntradayCandle) (cache : Cache)
    → c.bucket_start ≡ bucket_start_of one_minute q.exchange_timestamp
    → IsOfMinute q (saved c cache)
saved-IsOfMinute q c cache same d h =
    subst (λ e. e.bucket_start ≡ bucket_start_of one_minute q.exchange_timestamp) (some_eq h) same

update_one_minute-start :
    (q : Quote) (d : Delta) (o : Option IntradayCandle) (cache : Cache)
    → IsOfMinute q (update_one_minute q d o cache)
unfolding update_one_minute new_candle extend_candle
update_one_minute-start q d none cache = saved-IsOfMinute q (new_candle q d) cache refl
update_one_minute-start q d (some c) cache =
    if_both (IsOfMinute q) (is_late q c) _ _ (λ e h. cc)
      (elim (Bool-cases (c.bucket_start == bucket_start_of one_minute q.exchange_timestamp)) [
        | inl t ↦ rw t (saved-IsOfMinute q (extend_candle q d c) cache (ground (arith, t)))
        | inr t ↦ rw t (
            saved-IsOfMinute q (new_candle q d) (save_candle (finalize q.received_at c) cache) refl)
      ])

pub accept-start : (q : Quote) (cache : Cache) → IsOfMinute q (accept q cache)
unfolding accept accept_kind
accept-start q cache = by_kind q.event_kind
  where
    by_kind : (kind : EventKind) → IsOfMinute q (accept_kind kind q cache)
    by_kind snapshot = λ c h. cc
    by_kind update =
        update_one_minute-start q (delta_of cache.baseline q) cache.current (set_baseline q cache)
