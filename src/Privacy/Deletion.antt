-- ===== src/Privacy/Deletion.antt =====
-- The deletion of an account: `request_deletion`, `cancel_deletion` and `deletion_state` of
-- `ConsentRepository` (backend/src/features/privacy/consent_repository.rs), on the columns of
-- `owners` that they read and write. The database's clock is a parameter.
pub mod Laws
use kitaza.Common.{ℕ, ◌+◌, Option, none, some, List, find, update_where, ◌==◌, unwrap_or}
use kitaza.Common.Failure.{ApiResult, ok, err, internal}

pub record Account : Type 0 where
  pub id : ℕ
  pub deletion_requested_at : Option ℕ
  pub delete_after : Option ℕ

pub record DeletionState : Type 0 where
  pub requested_at : ℕ
  pub deletes_at : ℕ

-- `SET deletion_requested_at = COALESCE(…), delete_after = COALESCE(…)`
abbrev pub mark : ℕ → ℕ → Account → Account
mark grace now a = record a {
  deletion_requested_at = some (unwrap_or a.deletion_requested_at now);
  delete_after = some (unwrap_or a.delete_after (now + grace));
}

-- `RETURNING deletion_requested_at, delete_after`, of a row that `mark` wrote.
abbrev pub returned : ℕ → ℕ → Account → DeletionState
returned grace now a = record {
  requested_at = unwrap_or a.deletion_requested_at now;
  deletes_at = unwrap_or a.delete_after (now + grace);
}

-- `request_deletion`
unfoldable pub request_deletion : ℕ → ℕ → ℕ → List Account → ApiResult DeletionState × List Account
request_deletion owner grace now accounts =
    let marked = update_where (λ a. a.id == owner) (mark grace now) accounts in
    elim (find (λ a. a.id == owner) accounts) [
      | none ↦ (err (internal "no rows returned"), marked)
      | some a ↦ (ok (returned grace now a), marked)
    ]

-- `SET deletion_requested_at = NULL, delete_after = NULL`
abbrev pub unmark : Account → Account
unmark a = record a { deletion_requested_at = none; delete_after = none }

-- `cancel_deletion`
unfoldable pub cancel_deletion : ℕ → List Account → List Account
cancel_deletion owner = update_where (λ a. a.id == owner) unmark

-- `deletion_state`
unfoldable pub deletion_state : ℕ → List Account → Option DeletionState
deletion_state owner accounts = elim (find (λ a. a.id == owner) accounts) [
  | none ↦ none
  | some a ↦ elim a.deletion_requested_at [
    | none ↦ none
    | some requested ↦ elim a.delete_after [
      | none ↦ none
      | some deletes ↦ some (record { requested_at = requested; deletes_at = deletes })
    ]
  ]
]
