-- ===== src/Sync/Paging.antt =====
-- Pulling page by page (`CloudSyncService.changes` of backend/app/services/cloud_sync.py) until the
-- server says that there is no more.
use Prim.Native.Nat.{min}
use mathlib.Core.Path.{subst}
use mathlib.Core.List.{map-append}
use native.Mathlib.Nat.{le_refl}
use native.Mathlib.Numerals.{add-one}
use tw_stock_android_spec.Base.{
  ℕ, zero, suc, ◌+◌, ◌-◌, ◌≤◌, ◌<◌, ◌≡◌, refl, sym, ◌∙◌, ap, inl, inr, false, Bool, Option, none,
  some, List, [], ◌∷◌, ◌++◌, map, ◌&&◌, ◌==◌, ltb, if◌then◌else◌, length, length-take, length-drop,
  take, drop, take-append-drop, take_of_length-le, filter, get_last?, All, Ascending,
  sort_by-Ascending, filter-Ascending, filter-above-above, filter-above_last, last_above,
  Bool-cases, ltb→lt, ge→ltb_false, take-nil, arith,
}
use tw_stock_android_spec.Sync.Types.{Entity, Row, Change, Db, Runtime}
use tw_stock_android_spec.Sync.Pull.{
  ChangeView, pending, cursor_after, last_sequence, change_view, changes, bootstrap,
}
use tw_stock_android_spec.Sync.Log.{IsLog}

abbrev pub mine_after : ℕ → ℕ → Change → Bool
mine_after user cursor c = c.user_id == user && ltb cursor c.sequence

-- What comes after a page, where the rest ends
abbrev pub after_page : List ChangeView → Option (List ChangeView) → Option (List ChangeView)
after_page page none = none
after_page page (some rest) = some (page ++ rest)

-- The loop of a client that pulls until `has_more` is false; one that is still pulling when the fuel
-- is spent has no result.
pub pull_all : Runtime → ℕ → ℕ → ℕ → ℕ → Db → ℕ → ℕ → Option (List ChangeView)
pull_all rt page_limit user limit now db zero cursor = none
pull_all rt page_limit user limit now db (suc fuel) cursor =
    let page = changes rt page_limit user cursor limit now db in
    let rest = pull_all rt page_limit user limit now db fuel page.next_cursor in
    if page.has_more then after_page page.changes rest else some page.changes

pending-filter :
    (user cursor : ℕ) (db : Db)
    → IsLog db
    → pending user cursor db ≡ filter (mine_after user cursor) db.changes
unfolding pending
pending-filter user cursor db log =
    sort_by-Ascending (λ c. c.sequence) _
      (filter-Ascending (λ c. c.sequence) (mine_after user cursor) db.changes log.ascending)

take-take-suc : {A : Type 0} (n : ℕ) (xs : List A) → take n (take (suc n) xs) ≡ take n xs
take-take-suc zero xs = refl
take-take-suc (suc n) [] = refl
take-take-suc (suc n) (x ∷ xs) = ap (◌∷◌ x) (take-take-suc n xs)

filter-mine_after_above :
    (user cursor : ℕ) (cs : List Change)
    → All (λ c. cursor < c.sequence) (filter (mine_after user cursor) cs)
filter-mine_after_above user cursor [] = tt
filter-mine_after_above user cursor (c ∷ cs) = elim (Bool-cases (mine_after user cursor c)) [
  | inl t ↦ rw t (ground arith, filter-mine_after_above user cursor cs)
  | inr t ↦ rw t (filter-mine_after_above user cursor cs)
]

last_of_take :
    {A : Type 0} (b : ℕ) (x : A) (xs : List A)
    → (z : A) × (get_last? (take (suc b) (x ∷ xs)) ≡ some z)
last_of_take zero x xs = (x, refl)
last_of_take (suc b) x [] = (x, refl)
last_of_take (suc b) x (y ∷ ys) = last_of_take b y ys

-- After a page of `suc b` of the pending changes, what is pending from its cursor is what it left.
pending_after_page :
    (user cursor b : ℕ) (cs : List Change) (x : Change) (xs : List Change)
    → Ascending (λ c. c.sequence) cs
    → filter (mine_after user cursor) cs ≡ x ∷ xs
    → filter (mine_after user (cursor_after cursor (take (suc b) (x ∷ xs)))) cs
      ≡ drop (suc b) (x ∷ xs)
unfolding cursor_after
pending_after_page user cursor b cs x xs asc e =
    let (z, last) = last_of_take b x xs in
    let key : Change → ℕ = λ c. c.sequence in
    let asc' = subst (Ascending key) e (filter-Ascending key (mine_after user cursor) cs asc) in
    let all_above =
      subst (All (λ c. cursor < c.sequence)) e (filter-mine_after_above user cursor cs) in
    let later : cursor ≤ key z = omega (arith, last_above key cursor x xs all_above b z last) in
    rw last (
      filter-above-above key (λ c. c.user_id == user) cursor (key z) cs later
      ∙ ap (filter (λ c. ltb (key z) (key c))) e
      ∙ filter-above_last key b (x ∷ xs) z asc' last)

module _ (rt : Runtime) (page_limit user limit now : ℕ) (db : Db) (log : IsLog db) where
  abbrev waiting : ℕ → List Change
  waiting cursor = filter (mine_after user cursor) db.changes

  -- The parts of a page, where a page holds up to `suc b` changes.
  page_parts :
      (b cursor : ℕ)
      → min limit page_limit ≡ suc b
      → let page = changes rt page_limit user cursor limit now db in
        let rows = take (suc b) (waiting cursor) in
        (page.changes ≡ map (change_view rt) rows)
        × (page.next_cursor ≡ cursor_after cursor rows)
        × (page.has_more ≡ ltb (suc b) (length (waiting cursor)))
  unfolding changes
  page_parts b cursor size =
      rw (pending-filter user cursor db log, size, add-one, take-take-suc (suc b) (waiting cursor))
        (refl, refl, ground (arith, length-take (suc (suc b)) (waiting cursor)))

  next_waiting :
      (b cursor : ℕ) (ys : List Change)
      → waiting cursor ≡ ys
      → 0 < length ys
      → waiting (cursor_after cursor (take (suc b) ys)) ≡ drop (suc b) ys
  next_waiting b cursor [] e h = absurd (omega arith)
  next_waiting b cursor (x ∷ xs) e h =
      pending_after_page user cursor b db.changes x xs log.ascending e

  pull_all-waiting :
      (b : ℕ)
      → min limit page_limit ≡ suc b
      → (fuel cursor : ℕ) → length (waiting cursor) < fuel
      → pull_all rt page_limit user limit now db fuel cursor
        ≡ some (map (change_view rt) (waiting cursor))
  unfolding pull_all
  pull_all-waiting b size zero cursor enough = absurd (omega arith)
  pull_all-waiting b size (suc fuel) cursor enough =
      let ys = waiting cursor in
      let (sent, next, more) = page_parts b cursor size in
      elim (Bool-cases (ltb (suc b) (length ys))) [
        | inr last ↦
            rw (more, last, sent)
              (ap (λ cs. some (map (change_view rt) cs))
                (take_of_length-le (suc b) ys (ground arith)))
        | inl left ↦
            let long : suc b < length ys = ltb→lt (suc b) (length ys) left in
            let after = next_waiting b cursor ys refl (omega arith) in
            let shorter : length (waiting (cursor_after cursor (take (suc b) ys))) < fuel =
              rw after (omega (arith, length-drop (suc b) ys)) in
            rw (more, left, sent, next, pull_all-waiting b size fuel _ shorter, after)
              (ap some (
                sym (map-append (change_view rt) (take (suc b) ys) (drop (suc b) ys))
                ∙ ap (map (change_view rt)) (take-append-drop (suc b) ys)))
      ]

-- With the log in order and page sizes that are not 0, a client that pulls page after page comes to a
-- page that says there is no more, and has then got every change of the user past the cursor, each
-- once and in the order of the log; as many requests as there are such changes, and one more, are
-- enough.
pub pull_all_complete :
    (rt : Runtime) (page_limit user limit now : ℕ) (db : Db) (cursor fuel : ℕ)
    → IsLog db
    → 0 < limit
    → 0 < page_limit
    → length (filter (mine_after user cursor) db.changes) < fuel
    → pull_all rt page_limit user limit now db fuel cursor
      ≡ some (map (change_view rt) (filter (mine_after user cursor) db.changes))
pull_all_complete rt page_limit user limit now db cursor fuel log h k enough =
    let size : min limit page_limit ≡ suc (min limit page_limit - 1) = omega arith in
    pull_all-waiting rt page_limit user limit now db log _ size fuel cursor enough

nothing_after_last :
    (user n : ℕ) (cs : List Change) → last_sequence user cs ≤ n → filter (mine_after user n) cs ≡ []
unfolding last_sequence
nothing_after_last user n [] h = refl
nothing_after_last user n (c ∷ cs) h = elim (Bool-cases (c.user_id == user)) [
  | inl mine ↦
      let h' = rw mine at h in
      rw (mine, ge→ltb_false n c.sequence (omega arith))
        (nothing_after_last user n cs (omega arith))
  | inr other ↦ rw other (nothing_after_last user n cs (rw other at h))
]

-- The cursor that comes with a bootstrap has seen every change: pulling from it yields none.
pub bootstrap_up_to_date :
    (rt : Runtime) (before : Entity → Row → Row → Bool) (page_limit user limit now later : ℕ)
    (db : Db)
    → let cursor = (bootstrap rt before user now db).cursor in
      let page = changes rt page_limit user cursor limit later db in
      (page.changes ≡ []) × (page.next_cursor ≡ cursor) × (page.has_more ≡ false)
unfolding bootstrap changes pending cursor_after
bootstrap_up_to_date rt before page_limit user limit now later db =
    let bounded = min limit page_limit in
    rw (nothing_after_last user (last_sequence user db.changes) db.changes (le_refl _))
      (rw (take-nil (bounded + 1), take-nil bounded) (refl, refl, ground arith))
