-- ===== src/Privacy/Retention/Laws.antt =====
-- The sweep run twice, and the payments that it must not lose.
use kitaza.Auth.Tables.{DeviceSession}
use kitaza.Common.{
  leb, not, none, some, ℕ, Bool, true, false, ◌&&◌, ◌||◌, List, [], ◌∷◌, ◌≡◌, refl, arith, select,
  any, update_where, is_some, ltb, ◌+◌, ◌==◌,
}
use kitaza.Billing.Payments.{Payment}
use kitaza.Privacy.Deletion.{Account, mark, unmark, request_deletion, cancel_deletion}
use kitaza.Privacy.Retention.{
  Archive, RetentionPolicy, ErrorReport, AuditEvent, AccountingRecord, sweep, purge_accounts,
  retain, delete, is_due, is_paid, belongs_to_due, is_stale_report, is_stale_event, is_dormant,
}

retained-has :
    (id : ℕ) (ps : List Payment) (records : List AccountingRecord)
    → any (λ r. r.id == id) (retain ps records)
      ≡ any (λ r. r.id == id) records || any (λ p. p.id == id) ps
unfolding retain
retained-has id [] records = ground arith
retained-has id (p ∷ ps) records = ground (arith, retained-has id ps records)

module _ (now : ℕ) where
  marked_waits :
      (owner grace asked : ℕ) (accounts : List Account)
      → any (λ a. (a.id == owner) && is_some a.delete_after) accounts ≡ false
      → any
          (λ a. a.id == owner)
          (delete (is_due now) (update_where (λ a. a.id == owner) (mark grace asked) accounts))
        ≡ any (λ a. a.id == owner) accounts && ltb now (asked + grace)
  marked_waits owner grace asked [] e = refl
  marked_waits owner grace asked (a ∷ rest) e = ground (arith, marked_waits owner grace asked rest)

  cancelled_waits :
      (owner : ℕ) (accounts : List Account)
      → any
          (λ a. a.id == owner)
          (delete (is_due now) (update_where (λ a. a.id == owner) unmark accounts))
        ≡ any (λ a. a.id == owner) accounts
  cancelled_waits owner [] = refl
  cancelled_waits owner (a ∷ rest) = ground (arith, cancelled_waits owner rest)

  any-split :
      (id : ℕ) (gone : ℕ → Bool) (ps : List Payment)
      → any (λ p. (p.id == id) && is_paid p) ps ≡ true
      → any (λ p. (p.id == id) && is_paid p) (delete (λ p. gone p.owner_id) ps)
          || any (λ p. p.id == id) (select (λ p. gone p.owner_id && is_paid p) ps)
        ≡ true
  any-split id gone [] e = ground arith
  any-split id gone (p ∷ ps) e = ground (arith, any-split id gone ps)

  -- A payment that was received stays on record through a sweep, as a payment or, without its
  -- payer, as an accounting record under the same id.
  pub sweep-keeps_paid :
      (policy : RetentionPolicy) (id : ℕ) (t : Archive)
      → any (λ p. (p.id == id) && is_paid p) t.payments ≡ true
      → let swept = (sweep policy now t).1 in
        any (λ p. (p.id == id) && is_paid p) swept.payments
          || any (λ r. r.id == id) swept.accounting_records
        ≡ true
  unfolding sweep purge_accounts
  sweep-keeps_paid policy id t e =
      let gone = belongs_to_due now t.accounts in
      ground (
        arith,
        any-split id gone t.payments e,
        retained-has id (select (λ p. gone p.owner_id && is_paid p) t.payments)
            t.accounting_records,
      )

  -- An account without a pending request that then asks for its deletion is gone after a sweep
  -- exactly if the grace period had run out by then.
  pub deletion_waits :
      (policy : RetentionPolicy) (owner grace asked : ℕ) (t : Archive)
      → any (λ a. (a.id == owner) && is_some a.delete_after) t.accounts ≡ false
      → let marked = record t { accounts = (request_deletion owner grace asked t.accounts).1 } in
        any (λ a. a.id == owner) (sweep policy now marked).1.accounts
        ≡ any (λ a. a.id == owner) t.accounts && ltb now (asked + grace)
  unfolding sweep purge_accounts request_deletion
  deletion_waits policy owner grace asked t e =
      ground (arith, marked_waits owner grace asked t.accounts e)

  -- An account whose deletion was called off is kept by every sweep.
  pub cancelled_is_kept :
      (policy : RetentionPolicy) (owner : ℕ) (t : Archive)
      → let calm = record t { accounts = cancel_deletion owner t.accounts } in
        any (λ a. a.id == owner) (sweep policy now calm).1.accounts
        ≡ any (λ a. a.id == owner) t.accounts
  unfolding sweep purge_accounts cancel_deletion
  cancelled_is_kept policy owner t = cancelled_waits owner t.accounts

-- What a deletion keeps, by a test of its own.
kept_twice {ℓ} :
    {A : Type ℓ} (p kept gone stale : A → Bool)
    → ((x : A) → kept x ≡ not (gone x) && not (stale x))
    → (xs : List A) → any p (delete stale (delete gone xs)) ≡ any (λ x. p x && kept x) xs
kept_twice p kept gone stale h [] = refl
kept_twice p kept gone stale h (x ∷ xs) = ground (arith, h x, kept_twice p kept gone stale h xs)

module _ (policy : RetentionPolicy) (now : ℕ) (t : Archive) where
  -- The account of an owner has a deletion whose time has come.
  abbrev pub has_ended : ℕ → Bool
  has_ended owner =
      any (λ a. (a.id == owner) && elim a.delete_after [ none ↦ false | some at ↦ leb at now ])
        t.accounts

  -- A sweep keeps, of the crash reports, the log and the devices, exactly the rows whose owner is
  -- not deleted and that are recent: reports seen and events recorded within the policy's spans up
  -- to now, and devices that are signed in or were seen within its span.
  pub sweep-keeps :
      (p : ErrorReport → Bool) (r : AuditEvent → Bool) (d : DeviceSession → Bool)
      → let swept = (sweep policy now t).1 in
        (any p swept.error_reports
          ≡ any
              (λ x.
                p x && (not (has_ended x.owner_id) && leb now (x.last_seen + policy.error_reports)))
              t.error_reports)
        × (any r swept.audit_events
            ≡ any
                (λ x.
                  r x && (not (has_ended x.owner_id) && leb now (x.recorded_at + policy.activity)))
                t.audit_events)
        × (any d swept.sessions
            ≡ any
                (λ x.
                  d x
                  && (not (has_ended x.owner_id)
                      && (not (is_some x.revoked_at)
                          || leb now (x.last_seen_at + policy.dormant_sessions))))
                t.sessions)
  unfolding sweep purge_accounts
  sweep-keeps p r d = (
    kept_twice p (λ x. not (has_ended x.owner_id) && leb now (x.last_seen + policy.error_reports))
        (λ x. has_ended x.owner_id) (is_stale_report policy now) (λ x. ground arith)
        t.error_reports,
    kept_twice r (λ x. not (has_ended x.owner_id) && leb now (x.recorded_at + policy.activity))
        (λ x. has_ended x.owner_id) (is_stale_event policy now) (λ x. ground arith) t.audit_events,
    kept_twice d
        (λ x.
          not (has_ended x.owner_id)
          && (not (is_some x.revoked_at) || leb now (x.last_seen_at + policy.dormant_sessions)))
        (λ x. has_ended x.owner_id) (is_dormant policy now) (λ x. ground arith) t.sessions,
  )
