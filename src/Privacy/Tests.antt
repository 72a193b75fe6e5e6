-- ===== src/Privacy/Tests.antt =====
-- Concrete runs of the deletion of an account and of the sweep.
use kitaza.Common.{
  not, leb, is_some, ℕ, none, some, [], ◌∷◌, ◌≡◌, refl, true, ◌||◌, ◌==◌, ◌&&◌, any, ltb, ◌+◌,
}
use kitaza.Billing.Payments.{Payment, paid}
use kitaza.Auth.Tables.{DeviceSession}
use kitaza.Privacy.Deletion.{Account, request_deletion}
use kitaza.Privacy.Retention.{Archive, RetentionPolicy, sweep, is_paid}
use kitaza.Privacy.Retention.Laws.{has_ended, sweep-keeps, sweep-keeps_paid, deletion_waits}

abbrev policy : RetentionPolicy
policy = record { error_reports = 90; activity = 730; dormant_sessions = 365 }

abbrev payment : ℕ → ℕ → Payment
payment id owner = record {
  id = id;
  owner_id = owner;
  plan = "pro";
  months = 1;
  amount = 24_900;
  provider = "test";
  provider_reference = none;
  status = paid;
  method = none;
  paid_through = none;
  paid_at = some 50;
}

abbrev device : ℕ → DeviceSession
device owner = record {
  owner_id = owner;
  staff_id = none;
  device_name = "phone";
  created_at = 10;
  last_seen_at = 20;
  revoked_at = some 30;
}

abbrev leaving : Account
leaving = record { id = 1; deletion_requested_at = some 100; delete_after = some 130 }

abbrev staying : Account
staying = record { id = 2; deletion_requested_at = none; delete_after = none }

abbrev archive : Archive
archive = record {
  accounts = leaving ∷ staying ∷ [];
  payments = payment 7 1 ∷ payment 8 2 ∷ [];
  accounting_records = [];
  error_reports = record { owner_id = 2; last_seen = 5 } ∷ [];
  audit_events = record { owner_id = 1; recorded_at = 120 } ∷ [];
  sessions = device 2 ∷ device 1 ∷ [];
}

sweep_counts : (sweep policy 500 archive).0 ≡ record {
  accounts_deleted = 1;
  error_reports_deleted = 1;
  activity_deleted = 0;
  sessions_deleted = 1;
}
unfolding sweep
sweep_counts = refl

sweep-keeps_example :
    let swept = (sweep policy 500 archive).1 in
    (any (λ x. x.owner_id == 2) swept.error_reports
      ≡ any
          (λ x.
            (x.owner_id == 2)
            && (not (has_ended policy 500 archive x.owner_id) && leb 500 (x.last_seen + 90)))
          archive.error_reports)
    × (any (λ x. x.owner_id == 2) swept.audit_events
        ≡ any
            (λ x.
              (x.owner_id == 2)
              && (not (has_ended policy 500 archive x.owner_id) && leb 500 (x.recorded_at + 730)))
            archive.audit_events)
    × (any (λ x. x.owner_id == 2) swept.sessions
        ≡ any
            (λ x.
              (x.owner_id == 2)
              && (not (has_ended policy 500 archive x.owner_id)
                  && (not (is_some x.revoked_at) || leb 500 (x.last_seen_at + 365))))
            archive.sessions)
sweep-keeps_example =
    sweep-keeps policy 500 archive (λ x. x.owner_id == 2) (λ x. x.owner_id == 2)
      (λ x. x.owner_id == 2)

sweep-keeps_paid_example :
    any (λ p. (p.id == 7) && is_paid p) (sweep policy 500 archive).1.payments
      || any (λ r. r.id == 7) (sweep policy 500 archive).1.accounting_records
    ≡ true
sweep-keeps_paid_example = sweep-keeps_paid 500 policy 7 archive refl

deletion_waits_example :
    any
      (λ a. a.id == 2)
      (sweep policy 230
        (record archive { accounts = (request_deletion 2 30 200 archive.accounts).1 })).1.accounts
    ≡ any (λ a. a.id == 2) archive.accounts && ltb 230 (200 + 30)
deletion_waits_example = deletion_waits 230 policy 2 30 200 archive refl
