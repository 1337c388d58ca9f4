-- ===== src/Sync/Examples.antt =====
-- A small account's tables, runs of the sync calls on them, and each theorem at such an input.
use tw_stock_android_spec.Base.{
  ℕ, ◌+◌, ◌≤◌, ◌≡◌, refl, Bool, true, false, Option, none, some, List, [], ◌∷◌, map, String, str_eq,
  is_some, if◌then◌else◌, filter, arith,
}
use tw_stock_android_spec.Base.Int.{pos}
use tw_stock_android_spec.Outcome.{Result, ok, err, app_error}
use tw_stock_android_spec.Value.{Fields, null, int, text, end, fields, truthy, lookup, insert}
use tw_stock_android_spec.Sync.Types.{
  Entity, watchlist, portfolio, user_setting, index_of, entity_of, upsert, delete, mutation_of, Row,
  Operation, SyncResult, stale_version, Db, Runtime, find, store,
}
use tw_stock_android_spec.Sync.Build.{
  refused_key, wrapped, live_parent, columns, new_row, build_watchlist, build_portfolio,
  build_screener, build_setting, required_uuid, build_item, executed_time, transaction_row,
  build_transaction, scope_target, optional_uuid, scope_refused, alert_row, build_alert,
  validate_and_build,
}
use tw_stock_android_spec.Sync.Payload.{own_payload, payload_of}
use tw_stock_android_spec.Sync.Update.{
  copy_keys, updatable_keys, update_screener, update_setting_key, update_setting,
  update_transaction, update_attributes,
}
use tw_stock_android_spec.Sync.Push.{
  reject, accepted_result, conflict_with, flush_row, new_change, logged, accept, add_built, create,
  remove, write_update, modify, mutate, decide, record_result, dispatch, apply, prior_of, apply_all,
  device_refused, push,
}
use tw_stock_android_spec.Sync.Pull.{
  pending, cursor_after, last_sequence, change_view, changes, bootstrap,
}
use tw_stock_android_spec.Sync.Isolation.{
  Holds, push_keeps_others, push_keeps_tombstones, push_version_grows,
}
use tw_stock_android_spec.Sync.Replay.{as_duplicate, push_replay}
use tw_stock_android_spec.Sync.Log.{IsLog, push-IsLog, IsTold, push-IsTold}
use tw_stock_android_spec.Sync.Paging.{
  pull_all, mine_after, pull_all_complete, bootstrap_up_to_date,
}
use tw_stock_android_spec.Sync.Step.{entry, with_entry}
use tw_stock_android_spec.Sync.Races.{
  run, no_lost_update, unaccepted_writes_nothing, rejected_setting_writes,
}

program : Unit {0}
unfolding truthy lookup insert index_of entity_of mutation_of find store refused_key wrapped
    live_parent columns new_row build_watchlist build_portfolio build_screener build_setting
    required_uuid build_item executed_time transaction_row build_transaction scope_target
    optional_uuid scope_refused alert_row build_alert validate_and_build own_payload payload_of
    copy_keys updatable_keys update_screener update_setting_key update_setting update_transaction
    update_attributes accepted_result conflict_with flush_row new_change logged accept add_built
    create remove write_update modify mutate decide record_result dispatch apply prior_of apply_all
    device_refused push pending cursor_after last_sequence change_view changes bootstrap
program = tt

abbrev runtime : Runtime
runtime = record {
  parse_uuid = λ s. if str_eq s "list" then some 10 else none;
  show_uuid = λ n. "id";
  parse_time = λ s. none;
  show_time = λ n. "time";
  show = λ v. "value";
  int_of = λ v. some (pos 0);
  accepts = λ rows row. true;
}

abbrev row : Entity → ℕ → ℕ → ℕ → Option ℕ → Fields → Row
row e id user version deleted a = record {
  entity = e;
  id = id;
  user_id = user;
  version = version;
  created_at = 100;
  updated_at = 100;
  deleted_at = deleted;
  attributes = a;
}

abbrev own_list : Row
own_list =
    row watchlist 10 1 3 none (fields (("name", text "mine") ∷ ("sort_order", int (pos 0)) ∷ []))

abbrev foreign_list : Row
foreign_list = row watchlist 20 2 5 none (fields (("name", text "theirs") ∷ []))

abbrev theme : Row
theme = row user_setting 30 1 1 none (fields (("key", text "theme") ∷ ("value", text "dark") ∷ []))

abbrev gone : Row
gone = row portfolio 40 1 2 (some 90) (fields (("name", text "old") ∷ []))

abbrev start : Db
start = record {
  devices = record { id = 7; user_id = 1; revoked_at = none } ∷ [];
  securities = [];
  rows = own_list ∷ foreign_list ∷ theme ∷ gone ∷ [];
  operations = [];
  changes = [];
  next_sequence = 1;
}

abbrev operation : ℕ → String → ℕ → String → ℕ → Fields → Operation
operation op_id entity id mutation base payload = record {
  operation_id = op_id;
  entity_type = entity;
  entity_id = id;
  operation = mutation;
  base_version = base;
  payload = some payload;
}

abbrev rename : Operation
rename = operation 1 "WATCHLIST" 10 "UPSERT" 3 (fields (("name", text "renamed") ∷ []))

abbrev revive : Operation
revive = operation 2 "PORTFOLIO" 40 "UPSERT" 2 (fields (("name", text "back") ∷ []))

abbrev steal : Operation
steal = operation 3 "WATCHLIST" 20 "DELETE" 5 end

abbrev add_list : Operation
add_list = operation 4 "WATCHLIST" 11 "UPSERT" 0 end

abbrev blank_theme : Operation
blank_theme =
    operation 5 "USER_SETTING" 30 "UPSERT" 1 (fields (("key", text "skin") ∷ ("value", null) ∷ []))

abbrev batch : List (ℕ × Operation)
batch = (200, rename) ∷ (201, revive) ∷ (202, steal) ∷ (203, add_list) ∷ (204, blank_theme) ∷ []

abbrev value_or {ℓ} : {A : Type ℓ} → A → Result A → A
value_or a (ok b) = b
value_or a (err e) = a

abbrev after : List SyncResult × Db
after = value_or ([], start) (push runtime 1 7 batch start)

after-push : push runtime 1 7 batch start ≡ ok after
unfolding program
after-push = refl

-- What the batch leaves of the rows: one renamed, one untouched, one overwritten by a rejection.
after_rows :
    map {B = ℕ × ℕ × Bool} (λ r. (r.id, r.version, is_some r.deleted_at)) after.1.rows
    ≡ (10, 4, false) ∷ (20, 5, false) ∷ (30, 1, false) ∷ (40, 2, true) ∷ (11, 1, false) ∷ []
unfolding program
after_rows = refl

other_device : push runtime 2 7 batch start ≡ err (app_error "FORBIDDEN" 403)
unfolding program
other_device = refl

push_keeps_others_example : find watchlist 20 after.1.rows ≡ some foreign_list
unfolding program
push_keeps_others_example =
    push_keeps_others runtime 1 7 batch start watchlist 20 foreign_list after-push refl
      (omega arith)

push_keeps_tombstones_example : Holds portfolio 40 (λ r. is_some r.deleted_at ≡ true) after.1
unfolding program
push_keeps_tombstones_example =
    push_keeps_tombstones runtime 1 7 batch start portfolio 40 after-push (gone, refl, refl)

push_version_grows_example : Holds watchlist 10 (λ r. 3 ≤ r.version) after.1
unfolding program
push_version_grows_example =
    push_version_grows runtime 1 7 batch start watchlist 10 3 after-push
      (own_list, refl, omega arith)

push_replay_example :
    push runtime 1 7 (map (λ (t, op). (t + 60, op)) batch) after.1
    ≡ ok (map as_duplicate after.0, after.1)
push_replay_example = push_replay runtime 1 7 (λ t. t + 60) batch start after-push

start-IsLog : IsLog start
start-IsLog = record { ascending = tt; bounded = tt }

after-IsLog : IsLog after.1
after-IsLog = push-IsLog runtime 1 7 batch start after-push start-IsLog

abbrev empty : Db
empty = record start { rows = [] }

abbrev filled : List SyncResult × Db
filled = value_or ([], empty) (push runtime 1 7 batch empty)

filled-push : push runtime 1 7 batch empty ≡ ok filled
unfolding program
filled-push = refl

push-IsTold_example : IsTold filled.1
unfolding find
push-IsTold_example = push-IsTold runtime 1 7 batch empty filled-push (λ e i. refl)

pull_all_complete_example :
    pull_all runtime 1 1 5 300 after.1 9 0
    ≡ some (map (change_view runtime) (filter (mine_after 1 0) after.1.changes))
unfolding program
pull_all_complete_example =
    pull_all_complete runtime 1 1 5 300 after.1 0 9 after-IsLog (omega arith) (omega arith)
      (omega arith)

bootstrap_up_to_date_example :
    let cursor = (bootstrap runtime (λ e r s. false) 1 300 after.1).cursor in
    let page = changes runtime 100 1 cursor 50 301 after.1 in
    (page.changes ≡ []) × (page.next_cursor ≡ cursor) × (page.has_more ≡ false)
bootstrap_up_to_date_example =
    bootstrap_up_to_date runtime (λ e r s. false) 100 1 50 300 301 after.1

abbrev renamed : SyncResult × Db
renamed = value_or (reject rename, start) (run runtime 1 watchlist upsert rename 200 start)

renamed-run : run runtime 1 watchlist upsert rename 200 start ≡ ok renamed
unfolding program
renamed-run = refl

abbrev late_delete : Operation
late_delete = operation 6 "WATCHLIST" 10 "DELETE" 3 end

no_lost_update_example :
    (r : Row) × (find watchlist 10 renamed.1.rows ≡ some r)
    × (r.version ≡ 3 + 1)
    × (run runtime 1 watchlist delete late_delete 210 renamed.1
        ≡ ok (conflict_with runtime late_delete r stale_version, renamed.1))
unfolding program
no_lost_update_example =
    no_lost_update runtime 1 watchlist upsert delete rename late_delete 200 210 start own_list refl
      refl refl renamed-run refl

abbrev stolen : SyncResult × Db
stolen = value_or (reject steal, start) (apply runtime 1 7 202 steal none start)

stolen_applies : apply runtime 1 7 202 steal none start ≡ ok stolen
unfolding program
stolen_applies = refl

unaccepted_writes_nothing_example :
    stolen.1 ≡ with_entry (entry 1 7 202 steal.operation_id stolen.0) start
unfolding program
unaccepted_writes_nothing_example =
    unaccepted_writes_nothing runtime 1 7 202 steal start (cc) stolen_applies (cc)

rejected_setting_writes_example :
    run runtime 1 user_setting upsert blank_theme 204 start
    ≡ ok (
      reject blank_theme,
      record start {
        rows =
            store
              (record theme { attributes = insert "key" (text "skin") theme.attributes })
              start.rows;
      },
    )
unfolding program
rejected_setting_writes_example =
    rejected_setting_writes runtime 1 blank_theme 204 start theme
      (fields (("key", text "skin") ∷ ("value", null) ∷ [])) "skin" refl refl refl refl refl refl
      refl refl refl
