-- ===== src/Services/Cashbook.antt =====
-- Expenses and the owner's withdrawals: expense_category.rs, expense_repository.rs and
-- expense_service.rs of backend/src/features/expenses, withdrawal_repository.rs and
-- withdrawal_service.rs of backend/src/features/withdrawals. Amounts are in centavos.
pub mod Laws
use text.Mathlib.Text.{◌==◌ as str_eq}
use Prim.Native.String.{◌++◌}
use kitaza.Common.{
  ℕ, String, Bool, true, false, ◌&&◌, ◌||◌, not, Option, none, some, List, [], ◌∷◌, ◌==◌,
  if◌then◌else◌, unwrap_or, is_some,
}
use kitaza.Common.Int.{ℤ}
use kitaza.Common.Failure.{ApiResult, ok, err, bad_request, forbidden, not_found, conflict}
use kitaza.Access.Permission.{record_expenses, delete_records}
use kitaza.Access.Actor.{Actor, require, require_owner, staff_id, is_owner}
use kitaza.Services.Request.{Env, money_from_f64, trimmed, Effect, audit, invalidate, publish}
use kitaza.Services.Request

pub data ExpenseCategory : Type 0 where
  inventory utilities salary transportation rent supplies repairs : ExpenseCategory
  taxes_permits other : ExpenseCategory

-- `ExpenseCategory::as_str`
unfoldable pub as_str : ExpenseCategory → String
as_str inventory = "inventory"
as_str utilities = "utilities"
as_str salary = "salary"
as_str transportation = "transportation"
as_str rent = "rent"
as_str supplies = "supplies"
as_str repairs = "repairs"
as_str taxes_permits = "taxes_permits"
as_str other = "other"

-- The match in `ExpenseCategory::parse`, on the trimmed and lower-cased text.
unfoldable pub named : String → Option ExpenseCategory
named raw =
    if str_eq raw "inventory"
    then some inventory
    else if str_eq raw "utilities"
    then some utilities
    else if str_eq raw "salary"
    then some salary
    else if str_eq raw "transportation"
    then some transportation
    else if str_eq raw "rent"
    then some rent
    else if str_eq raw "supplies"
    then some supplies
    else if str_eq raw "repairs"
    then some repairs
    else if str_eq raw "taxes_permits"
    then some taxes_permits
    else if str_eq raw "other"
    then some other
    else none

pub record Expense : Type 0 where
  pub store_id : ℕ
  pub category : String
  pub description : Option String
  pub amount : ℤ
  pub occurred_at : ℕ
  pub recorded_by : Option ℕ
  pub deleted_at : Option ℕ

pub record Withdrawal : Type 0 where
  pub store_id : ℕ
  pub amount : ℤ
  pub reason : Option String
  pub occurred_at : ℕ
  pub deleted_at : Option ℕ

-- The tables `expenses` and `owner_withdrawals` by their ids.
pub record Books : Type 0 where
  pub expenses : ℕ → Option Expense
  pub withdrawals : ℕ → Option Withdrawal

pub record RecordExpenseRequest (F : Type 0) : Type 0 where
  pub id : Option ℕ
  pub category : String
  pub description : Option String
  pub amount : F
  pub occurred_at : Option ℕ

pub record RecordWithdrawalRequest (F : Type 0) : Type 0 where
  pub id : Option ℕ
  pub amount : F
  pub reason : Option String
  pub occurred_at : Option ℕ

abbrev pub put_expense : ℕ → Expense → Books → Books
put_expense expense row b = record b {
  expenses = λ id. if id == expense then some row else b.expenses id;
}

abbrev pub put_withdrawal : ℕ → Withdrawal → Books → Books
put_withdrawal withdrawal row b = record b {
  withdrawals = λ id. if id == withdrawal then some row else b.withdrawals id;
}

-- SQL's `=` of two columns in a condition: a missing value equals nothing.
abbrev pub equal_columns : Option ℕ → Option ℕ → Bool
equal_columns (some a) (some b) = a == b
equal_columns _ _ = false

-- `ExpenseRepository::upsert`: whether the row was inserted, or `none` where the write was refused.
unfoldable pub upsert_expense : ℕ → Expense → Bool → Books → Option Bool × Books
upsert_expense expense new by_owner b = elim (b.expenses expense) [
  | none ↦ (some true, put_expense expense new b)
  | some old ↦
      if (old.store_id == new.store_id)
        && (by_owner || equal_columns old.recorded_by new.recorded_by)
      then (
        some false,
        put_expense expense
            (record old {
              category = new.category;
              description = new.description;
              amount = new.amount;
              occurred_at = new.occurred_at;
              deleted_at = none;
            })
            b,
      )
      else (none, b)
]

-- `ExpenseRepository::soft_delete`
unfoldable pub soft_delete_expense : ℕ → ℕ → ℕ → Books → Bool × Books
soft_delete_expense store expense now b = elim (b.expenses expense) [
  | none ↦ (false, b)
  | some old ↦
      if (old.store_id == store) && not (is_some old.deleted_at)
      then (true, put_expense expense (record old { deleted_at = some now }) b)
      else (false, b)
]

-- `WithdrawalRepository::upsert`
unfoldable pub upsert_withdrawal : ℕ → Withdrawal → Books → Option Bool × Books
upsert_withdrawal withdrawal new b = elim (b.withdrawals withdrawal) [
  | none ↦ (some true, put_withdrawal withdrawal new b)
  | some old ↦
      if old.store_id == new.store_id
      then (some false, put_withdrawal withdrawal new b)
      else (none, b)
]

-- `WithdrawalRepository::soft_delete`
unfoldable pub soft_delete_withdrawal : ℕ → ℕ → ℕ → Books → Bool × Books
soft_delete_withdrawal store withdrawal now b = elim (b.withdrawals withdrawal) [
  | none ↦ (false, b)
  | some old ↦
      if (old.store_id == store) && not (is_some old.deleted_at)
      then (true, put_withdrawal withdrawal (record old { deleted_at = some now }) b)
      else (false, b)
]

-- The log's entry that only a first write makes.
abbrev pub logged : Bool → Effect → List Effect → List Effect
logged true entry rest = entry ∷ rest
logged false entry rest = rest

-- The end of `ExpenseService::record`, after the write.
unfoldable pub answered : ℕ → ℕ → Option Bool × Books → ApiResult ℕ × Books × List Effect
answered store id (none, b) =
    (err (forbidden "only the owner can change an expense someone else recorded"), b, [])
answered store id (some inserted, b) = (
  ok id,
  b,
  logged inserted (audit Request.AuditAction.expense_recorded id)
      (invalidate store ∷ publish Request.RealtimeTopic.expense_recorded (some id) ∷ []),
)

module _ {F : Type 0} (env : Env F) where
  -- `ExpenseCategory::parse`
  unfoldable pub parse : String → ApiResult ExpenseCategory
  unfolding named
  parse raw =
      let name = env.to_lowercase (env.trim raw) in
      elim (named name) [
        | none ↦ err (bad_request (("unknown expense category '" ++ name) ++ "'"))
        | some category ↦ ok category
      ]

  abbrev pub new_expense : ℕ → Actor → ℕ → RecordExpenseRequest F → ExpenseCategory → Expense
  new_expense store actor now request category = record {
    store_id = store;
    category = as_str category;
    description = trimmed env request.description;
    amount = money_from_f64 env request.amount;
    occurred_at = unwrap_or request.occurred_at now;
    recorded_by = staff_id actor;
    deleted_at = none;
  }

  -- `ExpenseService::record`, with the id of the expense for its answer.
  unfoldable pub record_expense :
      ℕ → Actor → ℕ → RecordExpenseRequest F → Books → ApiResult ℕ × Books × List Effect
  unfolding require parse upsert_expense as_str staff_id is_owner answered
  record_expense store actor now request b = elim (require actor record_expenses) [
    | err e ↦ (err e, b, [])
    | ok _ ↦ elim (parse request.category) [
      | err e ↦ (err e, b, [])
      | ok category ↦
          let id = unwrap_or request.id (env.new_v4 0) in
          answered store id
            (upsert_expense id (new_expense store actor now request category) (is_owner actor) b)
    ]
  ]

  -- `WithdrawalService::record`, with the id of the withdrawal for its answer.
  unfoldable pub record_withdrawal :
      ℕ → Actor → ℕ → RecordWithdrawalRequest F → Books → ApiResult ℕ × Books × List Effect
  unfolding require_owner upsert_withdrawal
  record_withdrawal store actor now request b = elim (require_owner actor) [
    | err e ↦ (err e, b, [])
    | ok _ ↦
        let id = unwrap_or request.id (env.new_v4 0) in
        let (saved, b') =
          upsert_withdrawal id
            (record {
              store_id = store;
              amount = money_from_f64 env request.amount;
              reason = trimmed env request.reason;
              occurred_at = unwrap_or request.occurred_at now;
              deleted_at = none;
            })
            b in
        elim saved [
          | none ↦ (err (conflict "this record belongs to another store"), b', [])
          | some inserted ↦ (
            ok id,
            b',
            logged inserted (audit Request.AuditAction.withdrawal_recorded id) (
                invalidate store
                ∷ publish Request.RealtimeTopic.withdrawal_recorded (some id)
                ∷ []),
          )
        ]
  ]

-- `ExpenseService::remove`
unfoldable pub remove_expense :
    ℕ → Actor → ℕ → ℕ → Books → ApiResult (Unit {0}) × Books × List Effect
unfolding require soft_delete_expense
remove_expense store actor now expense b = elim (require actor delete_records) [
  | err e ↦ (err e, b, [])
  | ok _ ↦
      let (removed, b') = soft_delete_expense store expense now b in
      if removed
      then (
        ok tt,
        b',
        audit Request.AuditAction.expense_deleted expense
            ∷ invalidate store
            ∷ publish Request.RealtimeTopic.expense_removed (some expense)
            ∷ [],
      )
      else (err (not_found "expense"), b', [])
]

-- `WithdrawalService::remove`
unfoldable pub remove_withdrawal :
    ℕ → Actor → ℕ → ℕ → Books → ApiResult (Unit {0}) × Books × List Effect
unfolding require_owner soft_delete_withdrawal
remove_withdrawal store actor now withdrawal b = elim (require_owner actor) [
  | err e ↦ (err e, b, [])
  | ok _ ↦
      let (removed, b') = soft_delete_withdrawal store withdrawal now b in
      if removed
      then (
        ok tt,
        b',
        audit Request.AuditAction.withdrawal_deleted withdrawal ∷ invalidate store ∷ [],
      )
      else (err (not_found "withdrawal"), b', [])
]
