-- ===== src/Candle/Volume.antt =====
-- The shares of aggregated candles (backend/app/services/candle_aggregation.py).
use tw_stock_android_spec.Base.{
  ℕ, ◌≡◌, refl, sym, ap, subst, ◌∙◌, Option, none, some, List, [], ◌∷◌, ◌++◌, inl, inr, Bool-cases,
  arith,
}
use tw_stock_android_spec.Base.Assoc.{Pair, pair_eq, find_key, put}
use tw_stock_android_spec.Candle.Aggregation.{
  PriceBasis, CandleInterval, day, week, month, DailyPrice, Candle, daily, Group, with_candle,
  add_volume, volume_from, merge, merge_all, group_from, merged, aggregate, key_of,
}

-- The shares of all candles, where each one's are known.
abbrev pub volume_of : List Candle → Option ℕ
volume_of cs = volume_from (some 0) cs

add_volume_assoc :
    (a b c : Option ℕ) → add_volume (add_volume a b) c ≡ add_volume a (add_volume b c)
add_volume_assoc none b c = refl
add_volume_assoc (some a) none c = refl
add_volume_assoc (some a) (some b) none = refl
add_volume_assoc (some a) (some b) (some c) = ap some (omega arith)

add_volume_comm : (a b : Option ℕ) → add_volume a b ≡ add_volume b a
add_volume_comm none none = refl
add_volume_comm none (some b) = refl
add_volume_comm (some a) none = refl
add_volume_comm (some a) (some b) = ap some (omega arith)

add_volume_zero : (a : Option ℕ) → add_volume (some 0) a ≡ a
add_volume_zero none = refl
add_volume_zero (some a) = ap some (omega arith)

volume_from-add : (t : Option ℕ) (cs : List Candle) → volume_from t cs ≡ add_volume t (volume_of cs)
unfolding volume_from
volume_from-add t [] = sym (add_volume_comm t (some 0) ∙ add_volume_zero t)
volume_from-add t (c ∷ cs) =
    volume_from-add (add_volume t c.volume_shares) cs
    ∙ add_volume_assoc t c.volume_shares (volume_of cs)
    ∙ ap (add_volume t) (
        ap (λ v. add_volume v (volume_of cs)) (sym (add_volume_zero c.volume_shares))
        ∙ sym (volume_from-add (add_volume (some 0) c.volume_shares) cs))

volume_of_cons :
    (c : Candle) (cs : List Candle) → volume_of (c ∷ cs) ≡ add_volume c.volume_shares (volume_of cs)
unfolding volume_from
volume_of_cons c cs =
    volume_from-add (add_volume (some 0) c.volume_shares) cs
    ∙ ap (λ v. add_volume v (volume_of cs)) (add_volume_zero c.volume_shares)

volume_of-append_one :
    (cs : List Candle) (c : Candle)
    → volume_of (cs ++ c ∷ []) ≡ add_volume (volume_of cs) c.volume_shares
unfolding volume_from
volume_of-append_one [] c = refl
volume_of-append_one (d ∷ cs) c =
    volume_of_cons d (cs ++ c ∷ [])
    ∙ ap (add_volume d.volume_shares) (volume_of-append_one cs c)
    ∙ sym (add_volume_assoc d.volume_shares (volume_of cs) c.volume_shares)
    ∙ ap (λ v. add_volume v c.volume_shares) (sym (volume_of_cons d cs))

add_volume_swap : (a b c : Option ℕ) → add_volume (add_volume a b) c ≡ add_volume (add_volume a c) b
add_volume_swap a b c =
    add_volume_assoc a b c ∙ ap (add_volume a) (add_volume_comm b c) ∙ sym (add_volume_assoc a c b)

volume_of_one : (c : Candle) → volume_of (c ∷ []) ≡ c.volume_shares
unfolding volume_from
volume_of_one c = add_volume_zero c.volume_shares

-- The shares of all groups.
abbrev pub groups_volume : List (Pair × Group) → Option ℕ
groups_volume [] = some 0
groups_volume ((k, g) ∷ groups) = add_volume (volume_of (g.0 ∷ g.1)) (groups_volume groups)

none-some : {g : Group} → none ≡ some g → ⊥
none-some e = cc

put-volume :
    (key : Pair) (c : Candle) (groups : List (Pair × Group)) (o : Option Group)
    → find_key key groups ≡ o
    → groups_volume (put key (with_candle o c) groups)
      ≡ add_volume (groups_volume groups) c.volume_shares
put-volume key c [] none f =
    add_volume_comm (volume_of (c ∷ [])) (some 0) ∙ ap (add_volume (some 0)) (volume_of_one c)
put-volume key c [] (some g) f = absurd (none-some f)
put-volume key c ((j, g) ∷ groups) o f = elim (Bool-cases (pair_eq.beq j key)) [
  | inl t ↦
      let before = volume_of (g.0 ∷ g.1) in
      let others = groups_volume groups in
      rw t (
        subst
          (λ o.
            add_volume (volume_of ((with_candle o c).0 ∷ (with_candle o c).1)) others
            ≡ add_volume (add_volume before others) c.volume_shares)
          (rw t at f)
          (ap (λ v. add_volume v others) (volume_of-append_one (g.0 ∷ g.1) c)
            ∙ add_volume_swap before c.volume_shares others))
  | inr t ↦ rw t (
      ap (add_volume (volume_of (g.0 ∷ g.1))) (put-volume key c groups o (rw t at f))
      ∙ sym (add_volume_assoc (volume_of (g.0 ∷ g.1)) (groups_volume groups) c.volume_shares))
]

merge_all-volume :
    (groups : List (Pair × Group)) → volume_of (merge_all groups) ≡ groups_volume groups
unfolding volume_from merge
merge_all-volume [] = refl
merge_all-volume ((k, g) ∷ groups) =
    volume_of_cons (merge g) (merge_all groups)
    ∙ ap (add_volume (volume_of (g.0 ∷ g.1))) (merge_all-volume groups)

module _ (iso_week year_month : ℕ → Pair) where
  group_from-volume :
      (interval : CandleInterval) (cs : List Candle) (groups : List (Pair × Group))
      → groups_volume (group_from iso_week year_month interval cs groups)
        ≡ add_volume (groups_volume groups) (volume_of cs)
  unfolding group_from volume_from
  group_from-volume interval [] groups =
      sym (add_volume_comm (groups_volume groups) (some 0) ∙ add_volume_zero (groups_volume groups))
  group_from-volume interval (c ∷ cs) groups =
      let key = key_of iso_week year_month interval c in
      group_from-volume interval cs (put key (with_candle (find_key key groups) c) groups)
      ∙ ap (λ v. add_volume v (volume_of cs)) (put-volume key c groups (find_key key groups) refl)
      ∙ add_volume_assoc (groups_volume groups) c.volume_shares (volume_of cs)
      ∙ ap (add_volume (groups_volume groups)) (sym (volume_of_cons c cs))

  grouped-volume :
      (interval : CandleInterval) (cs : List Candle)
      → volume_of (merge_all (group_from iso_week year_month interval cs [])) ≡ volume_of cs
  grouped-volume interval cs =
      merge_all-volume (group_from iso_week year_month interval cs [])
      ∙ group_from-volume interval cs []
      ∙ add_volume_zero (volume_of cs)

  -- Aggregation keeps the shares traded: the candles of weeks or months have together as many as the
  -- daily candles, and the number is known of the ones exactly where it is of the others.
  pub aggregate-volume :
      (records : List DailyPrice) (interval : CandleInterval) (basis : PriceBasis)
      → volume_of (aggregate iso_week year_month records interval basis)
        ≡ volume_of (daily basis records)
  unfolding aggregate merged
  aggregate-volume records day basis = refl
  aggregate-volume records week basis = grouped-volume week (daily basis records)
  aggregate-volume records month basis = grouped-volume month (daily basis records)
