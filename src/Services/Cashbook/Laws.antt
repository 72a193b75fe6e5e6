-- ===== src/Services/Cashbook/Laws.antt =====
-- What may happen to an expense and to a withdrawal.
use kitaza.Common.{
  ℕ, ◌≡◌, ◌⊎◌, refl, Bool, true, false, ◌&&◌, ◌||◌, not, Option, none, some, [], ◌∷◌, arith, ◌==◌,
  if◌then◌else◌, unwrap_or, is_some, subst, Bool-cases, inl, inr,
}
use kitaza.Common.Int.{ℤ, pos}
use kitaza.Common.Failure.{ApiError, ApiResult, ok, err, ok-cases}
use kitaza.Access.Permission.{record_expenses, delete_records}
use kitaza.Access.Actor.{Actor, require, staff_id, is_owner}
use kitaza.Services.Request.{Env, Effect, audit, invalidate, publish}
use kitaza.Services.Request
use kitaza.Services.Cashbook.{
  ExpenseCategory, inventory, utilities, salary, transportation, rent, supplies, repairs,
  taxes_permits, other, as_str, named, Expense, Books, RecordExpenseRequest, upsert_expense,
  soft_delete_expense, equal_columns, record_expense, remove_expense, parse, new_expense, answered,
}

-- A category's own name is read as it.
pub named-as_str : (category : ExpenseCategory) → named (as_str category) ≡ some category
unfolding named as_str
named-as_str inventory = refl
named-as_str utilities = refl
named-as_str salary = refl
named-as_str transportation = refl
named-as_str rent = refl
named-as_str supplies = refl
named-as_str repairs = refl
named-as_str taxes_permits = refl
named-as_str other = refl

-- What an expense counts for in a store's reports.
abbrev pub counted_amount : ℕ → Option Expense → ℤ
counted_amount store none = pos 0
counted_amount store (some row) =
    if (row.store_id == store) && not (is_some row.deleted_at) then row.amount else pos 0

abbrev pub is_ok {ℓ} : {A : Type ℓ} → ApiResult A → Bool
is_ok (ok _) = true
is_ok (err _) = false

-- Writing the same row again, by the owner or by the one who recorded it.
answered-again :
    (store id : ℕ) (new : Expense) (by_owner : Bool) (b : Books)
    → new.deleted_at ≡ none
    → (by_owner || equal_columns new.recorded_by new.recorded_by) ≡ true
    → is_ok (answered store id (upsert_expense id new by_owner b)).0 ≡ true
    → let b' = (answered store id (upsert_expense id new by_owner b)).1 in
      let (answer, b'', told) = answered store id (upsert_expense id new by_owner b') in
      (answer ≡ ok id)
      × (b''.expenses id ≡ b'.expenses id)
      × (told ≡ invalidate store ∷ publish Request.RealtimeTopic.expense_recorded (some id) ∷ [])
unfolding answered upsert_expense
answered-again store id new by_owner b live by accepted = ground arith

abbrev pub is_live : Option Expense → Bool
is_live none = false
is_live (some row) = not (is_some row.deleted_at)

-- A write that is repeated after a removal.
answered-revives :
    (store id gone : ℕ) (new : Expense) (by_owner : Bool) (who : Actor) (b : Books)
    → new.deleted_at ≡ none
    → new.store_id ≡ store
    → (by_owner || equal_columns new.recorded_by new.recorded_by) ≡ true
    → is_ok (answered store id (upsert_expense id new by_owner b)).0 ≡ true
    → let b' = (answered store id (upsert_expense id new by_owner b)).1 in
      let removed = (soft_delete_expense store id gone b').1 in
      (is_live (removed.expenses id) ≡ false)
      × (is_ok (answered store id (upsert_expense id new by_owner removed)).0 ≡ true)
      × (is_live ((answered store id (upsert_expense id new by_owner removed)).1.expenses id)
          ≡ true)
unfolding answered upsert_expense soft_delete_expense
answered-revives store id gone new by_owner who b live own by accepted = ground arith

remove_expense-deletes :
    (store : ℕ) (who : Actor) (gone id : ℕ) (b : Books)
    → is_ok (remove_expense store who gone id b).0 ≡ true
    → (remove_expense store who gone id b).1 ≡ (soft_delete_expense store id gone b).1
unfolding remove_expense
remove_expense-deletes store who gone id b e = elim (ok-cases (require who delete_records)) [
  | inr (x, f) ↦ absurd (ground arith)
  | inl (_, f) ↦ elim (Bool-cases (soft_delete_expense store id gone b).0) [
    | inl g ↦ rw (f, g, remove_expense) refl
    | inr g ↦ rw (f, g, remove_expense) refl
  ]
]

module _ {F : Type 0} (env : Env F) (store : ℕ) (actor : Actor)
    (request : RecordExpenseRequest F) where
  -- A recording either is refused before the write, or answers what the write says.
  record_expense-cases :
      ((e : ApiError) × ((now : ℕ) (c : Books)
          → record_expense env store actor now request c ≡ (err e, c, [])))
      ⊎ ((category : ExpenseCategory) × ((now : ℕ) (c : Books)
            → record_expense env store actor now request c
              ≡ answered store (unwrap_or request.id (env.new_v4 0)) (
                  upsert_expense
                    (unwrap_or request.id (env.new_v4 0))
                    (new_expense env store actor now request category)
                    (is_owner actor)
                    c)))
  unfolding record_expense
  record_expense-cases = elim (ok-cases (require actor record_expenses)) [
    | inr (e, f) ↦ inl (e, λ now c. rw (f, record_expense) refl)
    | inl (_, f) ↦ elim (ok-cases (parse env request.category)) [
      | inr (e, g) ↦ inl (e, λ now c. rw (f, g, record_expense) refl)
      | inl (category, g) ↦ inr (category, λ now c. rw (f, g, record_expense) refl)
    ]
  ]

  same_row :
      (now later at : ℕ) (category : ExpenseCategory)
      → request.occurred_at ≡ some at
      → new_expense env store actor later request category
        ≡ new_expense env store actor now request category
  same_row now later at category when = ground arith

  id_sent : (id : ℕ) → request.id ≡ some id → unwrap_or request.id (env.new_v4 0) ≡ id
  id_sent id sent = ground arith

  by_self : (is_owner actor || equal_columns (staff_id actor) (staff_id actor)) ≡ true
  unfolding is_owner staff_id
  by_self = ground arith

  -- A staff member never changes an expense of somebody else's: whatever they send under its id is
  -- refused, the books stay as they are, and nothing is told.
  pub record_expense_of_another :
      (now id : ℕ) (b : Books) (row : Expense)
      → request.id ≡ some id
      → b.expenses id ≡ some row
      → is_owner actor ≡ false
      → equal_columns row.recorded_by (staff_id actor) ≡ false
      → let (answer, b', told) = record_expense env store actor now request b in
        (is_ok answer ≡ false) × (b' ≡ b) × (told ≡ [])
  unfolding upsert_expense answered
  record_expense_of_another now id b row sent there staff another = elim record_expense-cases [
    | inl (e, f) ↦ rw (f now b) (refl, refl, refl)
    | inr (category, f) ↦ rw (f now b) (ground arith)
  ]

  -- A push that is repeated because its answer was lost gets the same answer, leaves the expense as
  -- it was, and is not logged again.
  pub record_expense_again :
      (now later at id : ℕ) (b : Books)
      → request.id ≡ some id
      → request.occurred_at ≡ some at
      → is_ok (record_expense env store actor now request b).0 ≡ true
      → let b' = (record_expense env store actor now request b).1 in
        let (answer, b'', told) = record_expense env store actor later request b' in
        (answer ≡ ok id)
        × (b''.expenses id ≡ b'.expenses id)
        × (told ≡ invalidate store ∷ publish Request.RealtimeTopic.expense_recorded (some id) ∷ [])
  record_expense_again now later at id b sent when accepted = elim record_expense-cases [
    | inl (e, f) ↦
        let h : (false ≡ true) = subst (λ r. is_ok r.0 ≡ true) (f now b) accepted in absurd cc
    | inr (category, f) ↦
        let new = new_expense env store actor now request category in
        let h =
          subst (λ i. is_ok (answered store i (upsert_expense i new (is_owner actor) b)).0 ≡ true)
            (id_sent id sent) (subst (λ r. is_ok r.0 ≡ true) (f now b) accepted) in
        rw (f now b) (
          rw
            (f later
              (answered store (unwrap_or request.id (env.new_v4 0))
                (upsert_expense (unwrap_or request.id (env.new_v4 0)) new (is_owner actor) b)).1)
            (rw (same_row now later at category when, id_sent id sent)
              (answered-again store id new (is_owner actor) b refl by_self h)))
  ]

  -- But a push that is repeated after the expense was removed brings it back: the removal is undone
  -- by the phone that recorded the expense, whoever removed it.
  pub record_expense-revives :
      (who : Actor) (now gone later at id : ℕ) (b : Books)
      → request.id ≡ some id
      → request.occurred_at ≡ some at
      → is_ok (record_expense env store actor now request b).0 ≡ true
      → is_ok (remove_expense store who gone id (record_expense env store actor now request b).1).0
        ≡ true
      → let b' =
          (remove_expense store who gone id (record_expense env store actor now request b).1).1 in
        let (answer, b'', _) = record_expense env store actor later request b' in
        (is_live (b'.expenses id) ≡ false)
        × (is_ok answer ≡ true)
        × (is_live (b''.expenses id) ≡ true)
  record_expense-revives who now gone later at id b sent when accepted removed =
      elim record_expense-cases [
        | inl (e, f) ↦
            let h : (false ≡ true) = subst (λ r. is_ok r.0 ≡ true) (f now b) accepted in absurd cc
        | inr (category, f) ↦
            let new = new_expense env store actor now request category in
            let h =
              subst
                (λ i. is_ok (answered store i (upsert_expense i new (is_owner actor) b)).0 ≡ true)
                (id_sent id sent) (subst (λ r. is_ok r.0 ≡ true) (f now b) accepted) in
            rw
              (remove_expense-deletes store who gone id
                (record_expense env store actor now request b).1 removed)
              (rw (f now b) (
                rw
                  (f later
                    (soft_delete_expense store id gone
                      (answered store (unwrap_or request.id (env.new_v4 0)) (
                        upsert_expense (unwrap_or request.id (env.new_v4 0)) new (is_owner actor)
                          b)).1).1)
                  (rw (same_row now later at category when, id_sent id sent)
                    (answered-revives store id gone new (is_owner actor) who b refl refl by_self
                      h))))
      ]
