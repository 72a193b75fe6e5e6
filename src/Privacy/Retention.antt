-- ===== src/Privacy/Retention.antt =====
-- `sweep` of backend/src/features/privacy/retention.rs, on the tables that it reads and deletes
-- from. The schema deletes what belongs to a deleted owner with it (`ON DELETE CASCADE`); the
-- tables that only go that way, and the column `currency`, are left out. A row deleted by cascade
-- is not counted, as in the database.
pub mod Laws
use kitaza.Common.{
  ℕ, ◌-◌, Bool, false, true, ◌&&◌, not, Option, none, some, List, [], ◌∷◌, String, select, any,
  length, ltb, leb, ◌==◌, is_some, if◌then◌else◌,
}
use kitaza.Billing.Payments.{Payment, Status, pending, paid}
use kitaza.Auth.Tables.{DeviceSession}
use kitaza.Privacy.Deletion.{Account}

pub record RetentionPolicy : Type 0 where
  pub error_reports : ℕ
  pub activity : ℕ
  pub dormant_sessions : ℕ

pub record SweepResult : Type 0 where
  pub accounts_deleted : ℕ
  pub error_reports_deleted : ℕ
  pub activity_deleted : ℕ
  pub sessions_deleted : ℕ

-- A row of `accounting_records`: a payment without who paid it.
pub record AccountingRecord : Type 0 where
  pub id : ℕ
  pub plan : String
  pub months : ℕ
  pub amount : ℕ
  pub provider : String
  pub provider_reference : Option String
  pub paid_at : Option ℕ

-- The columns of `client_error_reports` that the sweep reads.
pub record ErrorReport : Type 0 where
  pub owner_id : ℕ
  pub last_seen : ℕ

-- The columns of `audit_events` that the sweep reads.
pub record AuditEvent : Type 0 where
  pub owner_id : ℕ
  pub recorded_at : ℕ

pub record Archive : Type 0 where
  pub accounts : List Account
  pub payments : List Payment
  pub accounting_records : List AccountingRecord
  pub error_reports : List ErrorReport
  pub audit_events : List AuditEvent
  pub sessions : List DeviceSession

-- `DELETE FROM … WHERE …`
abbrev pub delete {ℓ} : {A : Type ℓ} → (A → Bool) → List A → List A
delete p = select (λ x. not (p x))

-- `rows_affected` of that statement.
abbrev pub count {ℓ} : {A : Type ℓ} → (A → Bool) → List A → ℕ
count p xs = length (select p xs)

-- `delete_after IS NOT NULL AND delete_after <= now()`
abbrev pub is_due : ℕ → Account → Bool
is_due now a = elim a.delete_after [ none ↦ false | some at ↦ leb at now ]

-- `JOIN owners o ON o.id = p.owner_id WHERE …`, for an owner's id.
abbrev pub belongs_to_due : ℕ → List Account → ℕ → Bool
belongs_to_due now accounts owner = any (λ a. (a.id == owner) && is_due now a) accounts

abbrev pub is_paid : Payment → Bool
is_paid p = elim p.status [ pending ↦ false | paid ↦ true ]

abbrev pub without_payer : Payment → AccountingRecord
without_payer p = record {
  id = p.id;
  plan = p.plan;
  months = p.months;
  amount = p.amount;
  provider = p.provider;
  provider_reference = p.provider_reference;
  paid_at = p.paid_at;
}

-- `INSERT INTO accounting_records … ON CONFLICT (id) DO NOTHING`
unfoldable pub retain : List Payment → List AccountingRecord → List AccountingRecord
retain [] records = records
retain (p ∷ ps) records =
    let rest = retain ps records in
    if any (λ r. r.id == p.id) rest then rest else without_payer p ∷ rest

-- `purge_accounts`
unfoldable pub purge_accounts : ℕ → Archive → ℕ × Archive
unfolding retain
purge_accounts now t =
    let gone = belongs_to_due now t.accounts in
    (
      count (is_due now) t.accounts,
      record {
        accounts = delete (is_due now) t.accounts;
        payments = delete (λ p. gone p.owner_id) t.payments;
        accounting_records =
            retain (select (λ p. gone p.owner_id && is_paid p) t.payments) t.accounting_records;
        error_reports = delete (λ r. gone r.owner_id) t.error_reports;
        audit_events = delete (λ e. gone e.owner_id) t.audit_events;
        sessions = delete (λ s. gone s.owner_id) t.sessions;
      },
    )

-- `last_seen < now() - $1`: when the difference stops at 0, no row is before it.
abbrev pub is_stale_report : RetentionPolicy → ℕ → ErrorReport → Bool
is_stale_report policy now r = ltb r.last_seen (now - policy.error_reports)

-- `recorded_at < now() - $1`
abbrev pub is_stale_event : RetentionPolicy → ℕ → AuditEvent → Bool
is_stale_event policy now e = ltb e.recorded_at (now - policy.activity)

-- `revoked_at IS NOT NULL AND last_seen_at < now() - $1`
abbrev pub is_dormant : RetentionPolicy → ℕ → DeviceSession → Bool
is_dormant policy now s = is_some s.revoked_at && ltb s.last_seen_at (now - policy.dormant_sessions)

-- `sweep`, once the accounts are purged.
abbrev pub after_purge : RetentionPolicy → ℕ → ℕ × Archive → SweepResult × Archive
after_purge policy now (accounts_deleted, t) = (
  record {
    accounts_deleted = accounts_deleted;
    error_reports_deleted = count (is_stale_report policy now) t.error_reports;
    activity_deleted = count (is_stale_event policy now) t.audit_events;
    sessions_deleted = count (is_dormant policy now) t.sessions;
  },
  record t {
    error_reports = delete (is_stale_report policy now) t.error_reports;
    audit_events = delete (is_stale_event policy now) t.audit_events;
    sessions = delete (is_dormant policy now) t.sessions;
  },
)

-- `sweep`
unfoldable pub sweep : RetentionPolicy → ℕ → Archive → SweepResult × Archive
unfolding purge_accounts
sweep policy now t = after_purge policy now (purge_accounts now t)

-- `SweepResult::default()`
abbrev pub nothing_swept : SweepResult
nothing_swept = record {
  accounts_deleted = 0;
  error_reports_deleted = 0;
  activity_deleted = 0;
  sessions_deleted = 0;
}
