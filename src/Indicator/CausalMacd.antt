-- ===== src/Indicator/CausalMacd.antt =====
-- The values of `macd` up to a day depend on the prices up to that day only
-- (backend/app/services/technical_indicators.py).

use tw_stock_android_spec.Base.{
  ℕ, zero, suc, ◌+◌, ◌-◌, ◌≤◌, ◌<◌, ◌≡◌, refl, ap, ◌∙◌, subst, false, some, List, [], ◌∷◌, ◌++◌,
  ltb, if◌then◌else◌, if_both, length, length-append, length-take, take, drop, All, inl, inr,
  Bool-cases, Option-cases, ltb→lt, some_eq, arith,
}
use tw_stock_android_spec.Base.Decimal.{Decimal}
use tw_stock_android_spec.Outcome.{
  Result, ok, Follows, Follows-ok, Follows-bind, Follows-same, Follows-after,
}
use tw_stock_android_spec.Indicator.Series.{mean, item, get_elem?, blanks}
use tw_stock_android_spec.Indicator.Averages.{
  Line, alpha_of, differences, available_from, write_at, write_smoothed, second_values,
  signal_seeded, signal_line, Macd, macd, ema,
}
use tw_stock_android_spec.Indicator.Causal.{ema-take}
use tw_stock_android_spec.Indicator.Writes.{
  differences-take, write_at-take, write_at-length_le, length-write_at, write_smoothed-take, From,
  write_smoothed-From, write_smoothed-append, available_from-From, available_from-take,
  take-blanks-length,
}

module _ {ℓ} {A : Type ℓ} where
  take-append_le : (n : ℕ) (xs ys : List A) → n ≤ length xs → take n (xs ++ ys) ≡ take n xs
  take-append_le zero xs ys h = refl
  take-append_le (suc n) [] ys h = absurd (omega arith)
  take-append_le (suc n) (x ∷ xs) ys h = ap (◌∷◌ x) (take-append_le n xs ys (omega arith))

  drop-append_le : (n : ℕ) (xs ys : List A) → n ≤ length xs → drop n (xs ++ ys) ≡ drop n xs ++ ys
  drop-append_le zero xs ys h = refl
  drop-append_le (suc n) [] ys h = absurd (omega arith)
  drop-append_le (suc n) (x ∷ xs) ys h = drop-append_le n xs ys (omega arith)

  get_elem?-append_lt :
      (n : ℕ) (xs ys : List A) → n < length xs → get_elem? (xs ++ ys) n ≡ get_elem? xs n
  unfolding get_elem?
  get_elem?-append_lt n [] ys h = absurd (omega arith)
  get_elem?-append_lt zero (x ∷ xs) ys h = refl
  get_elem?-append_lt (suc n) (x ∷ xs) ys h = get_elem?-append_lt n xs ys (omega arith)

module _ {ℓ κ} {A : Type ℓ} (P : A → Type κ) where
  All-drop : (n : ℕ) (ys : List A) → All P ys → All P (drop n ys)
  All-drop zero ys h = h
  All-drop (suc n) [] h = h
  All-drop (suc n) (y ∷ ys) h = All-drop n ys h.1

  All-drop_append : (n : ℕ) (xs ys : List A) → length xs ≤ n → All P ys → All P (drop n (xs ++ ys))
  All-drop_append n [] ys h a = All-drop n ys a
  All-drop_append zero (x ∷ xs) ys h a = absurd (omega arith)
  All-drop_append (suc n) (x ∷ xs) ys h a = All-drop_append n xs ys (omega arith) a

  All-get_elem? : (n : ℕ) (ys : List A) (y : A) → All P ys → get_elem? ys n ≡ some y → P y
  unfolding get_elem?
  All-get_elem? n [] y h f = cc
  All-get_elem? zero (x ∷ ys) y h f = subst P (some_eq f) h.0
  All-get_elem? (suc n) (x ∷ ys) y h f = All-get_elem? n ys y h.1 f

  All-get_elem?_append :
      (n : ℕ) (xs ys : List A) (y : A)
      → length xs ≤ n
      → All P ys
      → get_elem? (xs ++ ys) n ≡ some y
      → P y
  unfolding get_elem?
  All-get_elem?_append n [] ys y h a f = All-get_elem? n ys y a f
  All-get_elem?_append zero (x ∷ xs) ys y h a f = absurd (omega arith)
  All-get_elem?_append (suc n) (x ∷ xs) ys y h a f =
      All-get_elem?_append n xs ys y (omega arith) a f

-- The values below `k` and those from there on
module _ (period k : ℕ) (near far : List (ℕ × Decimal)) (blank : Line) (least : 0 < period)
    (beyond : From k far) where
  short : length (take k blank) ≤ k
  short = omega (arith, length-take k blank)

  written-take_ge :
      (seed current alpha : _)
      → period ≤ length near
      → take k (
          write_smoothed alpha current
            (drop period (near ++ far))
            (write_at seed (some current) blank))
        ≡ write_smoothed alpha current
            (drop period near)
            (write_at seed (some current) (take k blank))
  written-take_ge seed current alpha many =
      let signal = write_at seed (some current) (take k blank) in
      write_smoothed-take k alpha current (drop period (near ++ far))
        (write_at seed (some current) blank)
      ∙ ap (write_smoothed alpha current (drop period (near ++ far)))
          (write_at-take k seed (some current) blank)
      ∙ ap (λ later. write_smoothed alpha current later signal)
          (drop-append_le period near far many)
      ∙ write_smoothed-append k alpha current (drop period near) far signal
          (omega (arith, short, length-write_at seed (some current) (take k blank))) beyond

  written-take_lt :
      (seed : ℕ) (current alpha : Decimal)
      → length near < period
      → k ≤ seed
      → take k (
          write_smoothed alpha current
            (drop period (near ++ far))
            (write_at seed (some current) blank))
        ≡ take k blank
  written-take_lt seed current alpha few late =
      write_smoothed-take k alpha current (drop period (near ++ far))
        (write_at seed (some current) blank)
      ∙ ap (write_smoothed alpha current (drop period (near ++ far))) (
          write_at-take k seed (some current) blank
          ∙ write_at-length_le seed (some current) (take k blank) (omega (arith, short)))
      ∙ write_smoothed-From k alpha current (drop period (near ++ far)) (take k blank) short
          (All-drop_append (λ (x : ℕ × Decimal). k ≤ x.0) period near far (omega arith) beyond)

  signal_seeded-take_ge :
      period ≤ length near
      → Follows
          (take k)
          (signal_seeded period (near ++ far) blank)
          (signal_seeded period near (take k blank))
  unfolding signal_seeded
  signal_seeded-take_ge many =
      rw
        (
          get_elem?-append_lt (period - 1) near far (omega arith),
          take-append_le period near far many,
        )
        (Follows-bind (λ (a : ℕ × Decimal). a) (take k) (item near (period - 1)) _ _ _
          (Follows-same refl)
          (λ seed.
            Follows-bind (λ (a : Decimal). a) (take k) (mean (second_values (take period near))) _ _
              _ (Follows-same refl)
              (λ current.
                Follows-bind (λ (a : Decimal). a) (take k) (alpha_of period) _ _ _
                  (Follows-same refl)
                  (λ alpha. Follows-ok (take k) _ _ (written-take_ge seed.0 current alpha many)))))

  signal_seeded-take_lt :
      length near < period
      → Follows (take k) (signal_seeded period (near ++ far) blank) (ok (take k blank))
  unfolding signal_seeded
  signal_seeded-take_lt few = elim (Option-cases (get_elem? (near ++ far) (period - 1))) [
    | inl missing ↦ rw missing (λ out h. cc)
    | inr (seed, found) ↦ rw found (
        Follows-after (take k) (mean (second_values (take period (near ++ far)))) _ _ (λ current.
          Follows-after (take k) (alpha_of period) _ _ (λ alpha. Follows-ok (take k) _ _ (
            written-take_lt seed.0 current alpha few (
              All-get_elem?_append (λ (x : ℕ × Decimal). k ≤ x.0) (period - 1) near far seed
                (omega arith) beyond found)))))
  ]

  signal_branches-take :
      Follows
        (take k)
        (if ltb (length (near ++ far)) period
          then ok blank
          else signal_seeded period (near ++ far) blank)
        (if ltb (length near) period
          then ok (take k blank)
          else signal_seeded period near (take k blank))
  signal_branches-take = elim (Bool-cases (ltb (length near) period)) [
    | inl few ↦ rw few (
        if_both (λ (r : Result Line). Follows (take k) r (ok (take k blank)))
          (ltb (length (near ++ far)) period) _ _ (Follows-ok (take k) blank _ refl)
          (signal_seeded-take_lt (ltb→lt (length near) period few)))
    | inr many ↦
        let enough : ltb (length (near ++ far)) period ≡ false =
          ground (arith, length-append near far) in
        rw (many, enough) (signal_seeded-take_ge (ground arith))
  ]

signal_line-take :
    (period k : ℕ) (line : Line)
    → 0 < period
    → Follows (take k) (signal_line period line) (signal_line period (take k line))
unfolding signal_line
signal_line-take period k line least =
    let near = available_from 0 (take k line) in
    let far = available_from (0 + k) (drop k line) in
    let blank : Line = blanks (length line) in
    let beyond : From k far =
      subst (λ i. From i far) (omega arith) (available_from-From (0 + k) (drop k line)) in
    let both = signal_branches-take period k near far blank least beyond in
    rw (available_from-take k 0 line, ← take-blanks-length k line) both

-- The front part of each of the three lines
abbrev pub front_macd : ℕ → Macd → Macd
front_macd k m = record {
  line = take k m.line;
  signal = take k m.signal;
  histogram = take k m.histogram;
}

pub macd-take :
    (values : List Decimal) (fast_period slow_period signal_period k : ℕ)
    → k ≤ length values
    → 0 < fast_period
    → 0 < slow_period
    → 0 < signal_period
    → Follows
        (front_macd k)
        (macd values fast_period slow_period signal_period)
        (macd (take k values) fast_period slow_period signal_period)
unfolding macd
macd-take values fast_period slow_period signal_period k le f s g =
    Follows-bind (take k) (front_macd k) (ema values fast_period) _ _ _
      (ema-take values fast_period k le f)
      (λ fast.
        Follows-bind (take k) (front_macd k) (ema values slow_period) _ _ _
          (ema-take values slow_period k le s)
          (λ slow.
            Follows-bind (take k) (front_macd k) (differences fast slow) _ _ _
              (differences-take k fast slow)
              (λ line.
                Follows-bind (take k) (front_macd k) (signal_line signal_period line) _ _ _
                  (signal_line-take signal_period k line g)
                  (λ signal.
                    Follows-bind (take k) (front_macd k) (differences line signal) _ _ _
                      (differences-take k line signal)
                      (λ histogram. Follows-ok (front_macd k) _ _ refl)))))
