-- ===== src/Push/Machine.antt =====
-- The life of one delivery, apart from how it is stored: its status and the number of its attempts
-- (backend/app/services/push_notifications.py), and tables of deliveries that only move along it.
use tw_stock_android_spec.Base.{
  ℕ, ◌+◌, ◌≤◌, ◌≡◌, refl, sym, ap, ◌∙◌, true, false, some, List, [], ◌∷◌, ◌++◌, ◌==◌, find?, All,
  inl, inr, Bool-cases, ==_iff, some_eq, subst, arith,
}
use tw_stock_android_spec.Push.Types.{
  DeliveryStatus, pending, sending, sent, invalid_token, failed, disabled, PushDeliveryModel,
  write_row,
}
use tw_stock_android_spec.Push.Delivery.{is_final}

-- One move. A delivery that is not final may be claimed for an attempt, lost or disabled; an attempt
-- ends in one of three ways; what is sent, or has an invalid token, does not move.
pub data Move : DeliveryStatus → ℕ → DeliveryStatus → ℕ → Type 0 where
  claim : {s : DeliveryStatus} {n m : ℕ} → is_final s ≡ false → m ≡ n + 1 → Move s n sending m
  succeed : {n : ℕ} → Move sending n sent n
  reject : {n : ℕ} → Move sending n invalid_token n
  miss : {n : ℕ} → Move sending n failed n
  lose : {s : DeliveryStatus} {n : ℕ} → is_final s ≡ false → Move s n failed n
  disable : {s : DeliveryStatus} {n : ℕ} → is_final s ≡ false → Move s n disabled n

pub data Moves : DeliveryStatus → ℕ → DeliveryStatus → ℕ → Type 0 where
  stay : {s : DeliveryStatus} {n : ℕ} → Moves s n s n
  then_moves : {s t u : DeliveryStatus} {n m k : ℕ} → Move s n t m → Moves t m u k → Moves s n u k

pub Moves-trans :
    {s t u : DeliveryStatus} {n m k : ℕ} → Moves s n t m → Moves t m u k → Moves s n u k
Moves-trans stay rest = rest
Moves-trans (then_moves move moves) rest = then_moves move (Moves-trans moves rest)

Move-is_final : {s t : DeliveryStatus} {n m : ℕ} → Move s n t m → is_final s ≡ false
Move-is_final (claim free e) = free
Move-is_final succeed = refl
Move-is_final reject = refl
Move-is_final miss = refl
Move-is_final (lose free) = free
Move-is_final (disable free) = free

pub Moves-final :
    {s t : DeliveryStatus} {n m : ℕ} → Moves s n t m → is_final s ≡ true → (t ≡ s) × (m ≡ n)
Moves-final stay final = (refl, refl)
Moves-final (then_moves move moves) final = absurd (true_false (sym final ∙ Move-is_final move))
  where
    true_false : true ≡ false → ⊥
    true_false p = cc

Move-le : {s t : DeliveryStatus} {n m : ℕ} → Move s n t m → n ≤ m
Move-le (claim free e) = omega arith
Move-le succeed = omega arith
Move-le reject = omega arith
Move-le miss = omega arith
Move-le (lose free) = omega arith
Move-le (disable free) = omega arith

pub Moves-le : {s t : DeliveryStatus} {n m : ℕ} → Moves s n t m → n ≤ m
Moves-le stay = omega arith
Moves-le (then_moves move moves) = omega (arith, Move-le move, Moves-le moves)

-- A row and what became of it: the same delivery, moved along.
pub record Progress (x y : PushDeliveryModel) : Type 0 where
  pub same_id : y.id ≡ x.id
  pub same_event : y.event_id ≡ x.event_id
  pub same_token : y.token_id ≡ x.token_id
  pub moves : Moves x.status x.attempts y.status y.attempts

pub Progress-refl : (x : PushDeliveryModel) → Progress x x
Progress-refl x = record { same_id = refl; same_event = refl; same_token = refl; moves = stay }

pub Progress-trans : {x y z : PushDeliveryModel} → Progress x y → Progress y z → Progress x z
Progress-trans p q = record {
  same_id = q.same_id ∙ p.same_id;
  same_event = q.same_event ∙ p.same_event;
  same_token = q.same_token ∙ p.same_token;
  moves = Moves-trans p.moves q.moves;
}

-- A row that was added started as pending and has moved along.
abbrev pub IsStarted : PushDeliveryModel → Type 0
IsStarted y = Moves pending 0 y.status y.attempts

-- Each row of a table moved along, none is missing, and the rows after them were added.
abbrev pub Advances : List PushDeliveryModel → List PushDeliveryModel → Type 0
Advances [] ys = All IsStarted ys
Advances (x ∷ xs) [] = ⊥
Advances (x ∷ xs) (y ∷ ys) = Progress x y × Advances xs ys

pub Advances-refl : (xs : List PushDeliveryModel) → Advances xs xs
Advances-refl [] = tt
Advances-refl (x ∷ xs) = (Progress-refl x, Advances-refl xs)

All-Advances :
    (xs ys : List PushDeliveryModel) → All IsStarted xs → Advances xs ys → All IsStarted ys
All-Advances [] ys h a = a
All-Advances (x ∷ xs) [] h a = absurd a
All-Advances (x ∷ xs) (y ∷ ys) h a = (Moves-trans h.0 a.0.moves, All-Advances xs ys h.1 a.1)

pub Advances-trans :
    (xs ys zs : List PushDeliveryModel) → Advances xs ys → Advances ys zs → Advances xs zs
Advances-trans [] ys zs a b = All-Advances ys zs a b
Advances-trans (x ∷ xs) [] zs a b = absurd a
Advances-trans (x ∷ xs) (y ∷ ys) [] a b = absurd b
Advances-trans (x ∷ xs) (y ∷ ys) (z ∷ zs) a b =
    (Progress-trans a.0 b.0, Advances-trans xs ys zs a.1 b.1)

pub Advances-append_one :
    (xs : List PushDeliveryModel) (d : PushDeliveryModel) → IsStarted d → Advances xs (xs ++ d ∷ [])
Advances-append_one [] d h = (h, tt)
Advances-append_one (x ∷ xs) d h = (Progress-refl x, Advances-append_one xs d h)

pub find?-has_id :
    (k : ℕ) (rows : List PushDeliveryModel) (d : PushDeliveryModel)
    → find? (λ x. x.id == k) rows ≡ some d
    → d.id ≡ k
find?-has_id k [] d f = cc
find?-has_id k (x ∷ rows) d f = elim (Bool-cases (x.id == k)) [
  | inl t ↦ ap (λ y. y.id) (sym (some_eq (rw t at f))) ∙ (==_iff x.id k).0 t
  | inr t ↦ find?-has_id k rows d (rw t at f)
]

-- Writing back a row that moved along moves the table along.
pub Advances-write_row :
    (k : ℕ) (rows : List PushDeliveryModel) (d e : PushDeliveryModel)
    → find? (λ x. x.id == k) rows ≡ some d
    → Progress d e
    → Advances rows (write_row (λ x. x.id) e rows)
Advances-write_row k [] d e f p = cc
Advances-write_row k (x ∷ rows) d e f p = elim (Bool-cases (x.id == k)) [
  | inl t ↦
      let same = some_eq (rw t at f) in
      let there : (x.id == e.id) ≡ true =
        ground (arith, p.same_id, ap (λ (y : PushDeliveryModel). y.id) same) in
      rw there (subst (λ y. Progress y e) (sym same) p, Advances-refl rows)
  | inr t ↦
      let other : (x.id == e.id) ≡ false =
        ground (arith, p.same_id, find?-has_id k (x ∷ rows) d f) in
      rw other (Progress-refl x, Advances-write_row k rows d e (rw t at f) p)
]
