-- ===== src/Sync/Push.antt =====
-- `SyncService::push`, `SyncService::delete` and `Outcome` of
-- backend/src/features/sync/sync_service.rs, over the services as an interface: each is asked on
-- behalf of one actor and store. `S` is what the services change, and `E` and `W` are the requests
-- for expenses and withdrawals.
pub mod Answers
use text.Mathlib.Text.{◌==◌ as str_eq}
use Prim.Native.String.{◌++◌ as str_append}
use kitaza.Common.{
  ℕ, String, Bool, true, false, Option, none, some, List, [], ◌∷◌, ◌++◌, if◌then◌else◌,
}
use kitaza.Common.Failure.{
  ApiResult, ApiError, ok, err, not_found, bad_request, internal, to_string,
}
use kitaza.Services.Selling.{RecordSaleRequest}
use kitaza.Services.Stockroom.{RecordMovementRequest}
use kitaza.Services.Catalogue.{SaveProductRequest}
use kitaza.Sync.Timeline.{StockEvent, sale, movement, into_timeline}

-- `SyncDependencies`, with the operations that a push calls.
pub record SyncDependencies (F E W S : Type 0) : Type 0 where
  pub save_product : SaveProductRequest F → S → ApiResult ℕ × S
  pub record_sale : RecordSaleRequest F → S → ApiResult ℕ × S
  pub record_movement : RecordMovementRequest F → S → ApiResult (Unit {0}) × S
  pub record_expense : E → S → ApiResult ℕ × S
  pub record_withdrawal : W → S → ApiResult ℕ × S
  pub expense_id : E → Option ℕ
  pub withdrawal_id : W → Option ℕ
  pub void_sale : ℕ → S → ApiResult (Unit {0}) × S
  pub remove_expense : ℕ → S → ApiResult (Unit {0}) × S
  pub remove_withdrawal : ℕ → S → ApiResult (Unit {0}) × S
  pub remove_product : ℕ → S → ApiResult (Unit {0}) × S

pub record DeletionRequest : Type 0 where
  pub entity : String
  pub id : ℕ

pub record PushRequest (F E W : Type 0) : Type 0 where
  pub products : List (SaveProductRequest F)
  pub stock_movements : List (RecordMovementRequest F)
  pub sales : List (RecordSaleRequest F)
  pub expenses : List E
  pub withdrawals : List W
  pub deletions : List DeletionRequest

pub data PushedEntity : Type 0 where
  product stock_movement pushed_sale expense withdrawal deletion : PushedEntity

pub record PushedRow : Type 0 where
  pub entity : PushedEntity
  pub id : ℕ

pub record RejectedRow : Type 0 where
  pub entity : PushedEntity
  pub id : Option ℕ
  pub reason : String

pub record Outcome : Type 0 where
  pub applied : List PushedRow
  pub rejected : List RejectedRow

-- `Outcome::applied`
abbrev pub add_applied : PushedEntity → ℕ → Outcome → Outcome
add_applied entity id o = record o {
  applied = o.applied ++ (record { entity = entity; id = id } ∷ []);
}

-- `Outcome::applied_if_known`
abbrev pub add_applied_if_known : PushedEntity → Option ℕ → Outcome → Outcome
add_applied_if_known entity none o = o
add_applied_if_known entity (some id) o = add_applied entity id o

unfoldable pub reason_of : ApiError → String
reason_of (internal cause) = "could not be saved right now; it will be retried"
reason_of other = to_string other

-- `Outcome::rejected`
abbrev pub add_rejected : PushedEntity → Option ℕ → ApiError → Outcome → Outcome
add_rejected entity id error o = record o {
  rejected = o.rejected ++ (record { entity = entity; id = id; reason = reason_of error } ∷ []);
}

-- A row of a kind whose service answers with the id that it saved.
abbrev pub note_saved : PushedEntity → Option ℕ → ApiResult ℕ → Outcome → Outcome
note_saved entity asked (ok id) o = add_applied entity id o
note_saved entity asked (err error) o = add_rejected entity asked error o

abbrev pub note_movement : Option ℕ → ApiResult (Unit {0}) → Outcome → Outcome
note_movement asked (ok _) o = add_applied_if_known stock_movement asked o
note_movement asked (err error) o = add_rejected stock_movement asked error o

abbrev pub note_deletion : ℕ → ApiResult (Unit {0}) → Outcome → Outcome
note_deletion asked (ok _) o = add_applied deletion asked o
note_deletion asked (err error) o = add_rejected deletion (some asked) error o

-- Something that is already gone counts as deleted.
unfoldable pub forgive_missing : ApiResult (Unit {0}) → ApiResult (Unit {0})
forgive_missing (err (not_found what)) = ok tt
forgive_missing other = other

-- A loop of `push` over one kind of row.
unfoldable pub for_each :
    {A S : Type 0} → (A → Outcome × S → Outcome × S) → List A → Outcome × S → Outcome × S
for_each step [] state = state
for_each step (x ∷ xs) state = for_each step xs (step x state)

module _ {F E W S : Type 0} (services : SyncDependencies F E W S) where
  abbrev pub push_product : SaveProductRequest F → Outcome × S → Outcome × S
  push_product request (o, s) =
      let (saved, s') = services.save_product request s in
      (note_saved product request.id saved o, s')

  abbrev pub push_event : StockEvent F → Outcome × S → Outcome × S
  push_event (sale request) (o, s) =
      let (saved, s') = services.record_sale request s in
      (note_saved pushed_sale request.id saved o, s')
  push_event (movement request) (o, s) =
      let (saved, s') = services.record_movement request s in (note_movement request.id saved o, s')

  abbrev pub push_expense : E → Outcome × S → Outcome × S
  push_expense request (o, s) =
      let (saved, s') = services.record_expense request s in
      (note_saved expense (services.expense_id request) saved o, s')

  abbrev pub push_withdrawal : W → Outcome × S → Outcome × S
  push_withdrawal request (o, s) =
      let (saved, s') = services.record_withdrawal request s in
      (note_saved withdrawal (services.withdrawal_id request) saved o, s')

  -- `SyncService::delete`
  unfoldable pub delete : DeletionRequest → S → ApiResult (Unit {0}) × S
  unfolding forgive_missing
  delete request s =
      let (result, s') =
        if str_eq request.entity "sale"
        then services.void_sale request.id s
        else if str_eq request.entity "expense"
        then services.remove_expense request.id s
        else if str_eq request.entity "withdrawal"
        then services.remove_withdrawal request.id s
        else if str_eq request.entity "product"
        then services.remove_product request.id s
        else (
          err (
              bad_request
                (str_append (str_append "cannot delete unknown entity '" request.entity) "'")),
          s,
        ) in
      (forgive_missing result, s')

  abbrev pub push_deletion : DeletionRequest → Outcome × S → Outcome × S
  push_deletion request (o, s) =
      let (result, s') = delete request s in (note_deletion request.id result o, s')

  -- `SyncService::push`
  unfoldable pub push : ℕ → PushRequest F E W → S → Outcome × S
  unfolding for_each into_timeline
  push now request s = for_each push_deletion request.deletions (
      for_each push_withdrawal request.withdrawals (
        for_each push_expense request.expenses (
          for_each push_event (into_timeline now request.sales request.stock_movements)
            (for_each push_product request.products (record { applied = []; rejected = [] }, s)))))
