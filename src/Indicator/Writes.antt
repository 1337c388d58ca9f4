-- ===== src/Indicator/Writes.antt =====
-- How the writes of `macd` into its signal look from a front part
-- (backend/app/services/technical_indicators.py).
use tw_stock_android_spec.Base.{
  ℕ, zero, suc, ◌+◌, ◌≤◌, ◌≡◌, refl, sym, ap, ◌∙◌, Option, none, some, List, [], ◌∷◌, ◌++◌, length,
  take, take-nil, drop, All, arith,
}
use tw_stock_android_spec.Base.Decimal.{Decimal}
use tw_stock_android_spec.Outcome.{ok, ok-injective, Follows, Follows-ok, Follows-bind}
use tw_stock_android_spec.Indicator.Series.{blanks}
use tw_stock_android_spec.Indicator.Averages.{
  Line, smoothed, difference, differences, available_from, write_at, write_smoothed,
}

pub differences-take :
    (k : ℕ) (a b : Line) → Follows (take k) (differences a b) (differences (take k a) (take k b))
unfolding differences
differences-take zero a b out h = refl
differences-take (suc k) [] [] out h =
    ap ok (sym (take-nil (suc k)) ∙ ap (take (suc k)) (ok-injective h))
differences-take (suc k) [] (y ∷ b) out h = cc
differences-take (suc k) (x ∷ a) [] out h = cc
differences-take (suc k) (x ∷ a) (y ∷ b) out h =
    Follows-bind (take k) (take (suc k)) (differences a b) _ _ _ (differences-take k a b)
      (λ rest. Follows-ok (take (suc k)) (difference x y ∷ rest) _ refl) out h

-- Writes below `k` are all that a front part sees.
pub write_at-take :
    (k index : ℕ) (x : Option Decimal) (ys : Line)
    → take k (write_at index x ys) ≡ write_at index x (take k ys)
unfolding write_at
write_at-take zero index x ys = refl
write_at-take (suc k) index x [] = refl
write_at-take (suc k) zero x (y ∷ ys) = refl
write_at-take (suc k) (suc index) x (y ∷ ys) = ap (◌∷◌ y) (write_at-take k index x ys)

pub write_at-length_le :
    (index : ℕ) (x : Option Decimal) (ys : Line) → length ys ≤ index → write_at index x ys ≡ ys
unfolding write_at
write_at-length_le index x [] h = refl
write_at-length_le zero x (y ∷ ys) h = absurd (omega arith)
write_at-length_le (suc index) x (y ∷ ys) h =
    ap (◌∷◌ y) (write_at-length_le index x ys (omega arith))

pub length-write_at :
    (index : ℕ) (x : Option Decimal) (ys : Line) → length (write_at index x ys) ≡ length ys
unfolding write_at
length-write_at index x [] = refl
length-write_at zero x (y ∷ ys) = refl
length-write_at (suc index) x (y ∷ ys) = ap suc (length-write_at index x ys)

pub write_smoothed-take :
    (k : ℕ) (alpha current : Decimal) (later : List (ℕ × Decimal)) (signal : Line)
    → take k (write_smoothed alpha current later signal)
      ≡ write_smoothed alpha current later (take k signal)
unfolding write_smoothed
write_smoothed-take k alpha current [] signal = refl
write_smoothed-take k alpha current ((index, value) ∷ later) signal =
    let next = smoothed alpha current value in
    write_smoothed-take k alpha next later (write_at index (some next) signal)
    ∙ ap (write_smoothed alpha next later) (write_at-take k index (some next) signal)

-- Writes past the end
abbrev pub From : ℕ → List (ℕ × Decimal) → Type 0
From k available = All (λ (x : ℕ × Decimal). k ≤ x.0) available

pub write_smoothed-From :
    (k : ℕ) (alpha current : Decimal) (later : List (ℕ × Decimal)) (signal : Line)
    → length signal ≤ k
    → From k later
    → write_smoothed alpha current later signal ≡ signal
unfolding write_smoothed
write_smoothed-From k alpha current [] signal short h = refl
write_smoothed-From k alpha current ((index, value) ∷ later) signal short h =
    let next = smoothed alpha current value in
    ap (write_smoothed alpha next later)
      (write_at-length_le index (some next) signal (omega (arith, h.0)))
    ∙ write_smoothed-From k alpha next later signal short h.1

pub write_smoothed-append :
    (k : ℕ) (alpha current : Decimal) (near far : List (ℕ × Decimal)) (signal : Line)
    → length signal ≤ k
    → From k far
    → write_smoothed alpha current (near ++ far) signal ≡ write_smoothed alpha current near signal
unfolding write_smoothed
write_smoothed-append k alpha current [] far signal short h =
    write_smoothed-From k alpha current far signal short h
write_smoothed-append k alpha current ((index, value) ∷ near) far signal short h =
    let next = smoothed alpha current value in
    write_smoothed-append k alpha next near far (write_at index (some next) signal)
      (omega (arith, length-write_at index (some next) signal)) h

From-le :
    (index : ℕ) (available : List (ℕ × Decimal)) → From (index + 1) available → From index available
From-le index [] h = tt
From-le index (x ∷ available) h = (omega (arith, h.0), From-le index available h.1)

pub available_from-From : (index : ℕ) (line : Line) → From index (available_from index line)
unfolding available_from
available_from-From index [] = tt
available_from-From index (none ∷ line) =
    From-le index (available_from (index + 1) line) (available_from-From (index + 1) line)
available_from-From index (some v ∷ line) = (
  omega arith,
  From-le index (available_from (index + 1) line) (available_from-From (index + 1) line),
)

pub available_from-take :
    (k index : ℕ) (line : Line)
    → available_from index line
      ≡ available_from index (take k line) ++ available_from (index + k) (drop k line)
unfolding available_from
available_from-take zero index line = ap (λ i. available_from i line) (omega arith)
available_from-take (suc k) index [] = refl
available_from-take (suc k) index (none ∷ line) =
    available_from-take k (index + 1) line
    ∙ ap (λ i. available_from (index + 1) (take k line) ++ available_from i (drop k line))
        (omega arith)
available_from-take (suc k) index (some v ∷ line) = ap (◌∷◌ (index, v)) (
    available_from-take k (index + 1) line
    ∙ ap (λ i. available_from (index + 1) (take k line) ++ available_from i (drop k line))
        (omega arith))

pub take-blanks-length :
    (k : ℕ) (line : Line)
    → take k (blanks (length line)) ≡ blanks {A = Decimal} (length (take k line))
unfolding blanks
take-blanks-length zero line = refl
take-blanks-length (suc k) [] = refl
take-blanks-length (suc k) (x ∷ line) = ap (◌∷◌ none) (take-blanks-length k line)
