-- ===== src/Sync/Push/Answers.antt =====
-- A push answers for every row it was given.
use kitaza.Common.{
  ℕ, suc, ◌+◌, ◌≡◌, refl, ap, ◌∙◌, true, Option, none, some, List, [], ◌∷◌, ◌++◌, map, length,
  arith, is_some, length-append,
}
use kitaza.Common.Failure.{ApiResult, ok, err}
use kitaza.Common.Sort.{All, All-sort, length-sort}
use kitaza.Services.Selling.{RecordSaleRequest}
use kitaza.Services.Stockroom.{RecordMovementRequest}
use kitaza.Sync.Timeline.{StockEvent, sale, movement, queued, no_later, into_timeline}
use kitaza.Sync.Push.{
  SyncDependencies, PushRequest, Outcome, note_saved, note_movement, for_each, push_product,
  push_event, push_expense, push_withdrawal, push_deletion, push, PushedEntity, reason_of, delete,
  note_deletion, DeletionRequest, deletion, stock_movement, product, pushed_sale, expense,
  withdrawal,
}

-- How many rows have been answered for.
abbrev pub answered : Outcome → ℕ
answered o = length o.applied + length o.rejected

answered-note_saved :
    (entity : PushedEntity) (asked : Option ℕ) (r : ApiResult ℕ) (o : Outcome)
    → answered (note_saved entity asked r o) ≡ suc (answered o)
answered-note_saved entity asked (ok id) o =
    omega (arith, length-append o.applied (record { entity = entity; id = id } ∷ []))
answered-note_saved entity asked (err e) o = omega (
  arith,
  length-append o.rejected (record { entity = entity; id = asked; reason = reason_of e } ∷ []),
)

answered-note_movement :
    (asked : Option ℕ) (r : ApiResult (Unit {0})) (o : Outcome)
    → is_some asked ≡ true
    → answered (note_movement asked r o) ≡ suc (answered o)
answered-note_movement none r o h = absurd cc
answered-note_movement (some id) (ok _) o h =
    omega (arith, length-append o.applied (record { entity = stock_movement; id = id } ∷ []))
answered-note_movement (some id) (err e) o h = omega (
  arith,
  length-append o.rejected
      (record { entity = stock_movement; id = some id; reason = reason_of e } ∷ []),
)

answered-note_deletion :
    (asked : ℕ) (r : ApiResult (Unit {0})) (o : Outcome)
    → answered (note_deletion asked r o) ≡ suc (answered o)
answered-note_deletion asked (ok _) o =
    omega (arith, length-append o.applied (record { entity = deletion; id = asked } ∷ []))
answered-note_deletion asked (err e) o = omega (
  arith,
  length-append o.rejected
      (record { entity = deletion; id = some asked; reason = reason_of e } ∷ []),
)

answered-for_each :
    {A S : Type 0} (P : A → Type 0) (step : A → Outcome × S → Outcome × S)
    → ((x : A) (state : Outcome × S) → P x → answered (step x state).0 ≡ suc (answered state.0))
    → (xs : List A) (state : Outcome × S) → All P xs
    → answered (for_each step xs state).0 ≡ length xs + answered state.0
unfolding for_each
answered-for_each P step one [] state h = omega arith
answered-for_each P step one (x ∷ xs) state h =
    omega (arith, answered-for_each P step one xs (step x state) h.1, one x state h.0)

length-map : {A B : Type 0} (f : A → B) (xs : List A) → length (map f xs) ≡ length xs
length-map f [] = refl
length-map f (x ∷ xs) = ap suc (length-map f xs)

-- Whether an event has an id, so that its answer can be reported.
abbrev pub HasId : {F : Type 0} → StockEvent F → Type 0
HasId (sale request) = Unit
HasId (movement request) = is_some request.id ≡ true

-- Whatever holds of a list's every element holds all the way through.
all {ℓ} : {A : Type ℓ} (xs : List A) → All (λ x. Unit {0}) xs
all [] = tt
all (x ∷ xs) = (tt, all xs)

All-queued :
    {F : Type 0} (sales : List (RecordSaleRequest F)) (movements : List (RecordMovementRequest F))
    → All (λ m. is_some m.id ≡ true) movements
    → All HasId (map sale sales ++ map movement movements)
All-queued [] [] h = tt
All-queued [] (m ∷ movements) h = (h.0, All-queued [] movements h.1)
All-queued (request ∷ sales) movements h = (tt, All-queued sales movements h)

All-timeline :
    {F : Type 0} (now : ℕ) (sales : List (RecordSaleRequest F))
    (movements : List (RecordMovementRequest F))
    → All (λ m. is_some m.id ≡ true) movements
    → All HasId (into_timeline now sales movements)
unfolding into_timeline
All-timeline now sales movements h =
    All-sort (no_later now) HasId (queued now sales movements) (All-queued sales movements h)

length-timeline :
    {F : Type 0} (now : ℕ) (sales : List (RecordSaleRequest F))
    (movements : List (RecordMovementRequest F))
    → length (into_timeline now sales movements) ≡ length sales + length movements
unfolding into_timeline
length-timeline now sales movements =
    length-sort (no_later now) (queued now sales movements)
    ∙ length-append (map sale sales) (map movement movements)
    ∙ omega (arith, length-map sale sales, length-map movement movements)

module _ {F E W S : Type 0} (services : SyncDependencies F E W S) where
  answered-push_event :
      (e : StockEvent F) (state : Outcome × S)
      → HasId e
      → answered (push_event services e state).0 ≡ suc (answered state.0)
  answered-push_event (sale request) (o, s) h =
      answered-note_saved pushed_sale request.id (services.record_sale request s).0 o
  answered-push_event (movement request) (o, s) h =
      answered-note_movement request.id (services.record_movement request s).0 o h

  answered-push_deletion :
      (request : DeletionRequest) (state : Outcome × S)
      → answered (push_deletion services request state).0 ≡ suc (answered state.0)
  answered-push_deletion request (o, s) =
      answered-note_deletion request.id (delete services request s).0 o

  -- Whatever the services answer, a push reports as many rows, applied and rejected together, as it
  -- was given, so a row that fails never stops the rest. The stock movements are to carry ids.
  pub push_answers :
      (now : ℕ) (request : PushRequest F E W) (s : S)
      → All (λ m. is_some m.id ≡ true) request.stock_movements
      → answered (push services now request s).0
        ≡ length request.products
          + length request.stock_movements
          + length request.sales
          + length request.expenses
          + length request.withdrawals
          + length request.deletions
  unfolding push
  push_answers now request s ids =
      let start : Outcome × S = (record { applied = []; rejected = [] }, s) in
      let one = for_each (push_product services) request.products start in
      let timeline = into_timeline now request.sales request.stock_movements in
      let two = for_each (push_event services) timeline one in
      let three = for_each (push_expense services) request.expenses two in
      let four = for_each (push_withdrawal services) request.withdrawals three in
      omega (
        arith,
        answered-for_each (λ x. Unit {0}) (push_product services)
            (λ x state h.
              answered-note_saved product x.id (services.save_product x state.1).0 state.0)
            request.products start (all request.products),
        answered-for_each HasId (push_event services) answered-push_event timeline one
            (All-timeline now request.sales request.stock_movements ids),
        length-timeline now request.sales request.stock_movements,
        answered-for_each (λ x. Unit {0}) (push_expense services)
            (λ x state h.
              answered-note_saved expense (services.expense_id x)
                (services.record_expense x state.1).0 state.0)
            request.expenses two (all request.expenses),
        answered-for_each (λ x. Unit {0}) (push_withdrawal services)
            (λ x state h.
              answered-note_saved withdrawal (services.withdrawal_id x)
                (services.record_withdrawal x state.1).0 state.0)
            request.withdrawals three (all request.withdrawals),
        answered-for_each (λ x. Unit {0}) (push_deletion services)
            (λ x state h. answered-push_deletion x state) request.deletions four
            (all request.deletions),
      )
