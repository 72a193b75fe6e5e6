-- ===== src/Sync/Timeline.antt =====
-- backend/src/features/sync/push_timeline.rs: the queued sales and stock movements of a push, in
-- the order in which they happened. `now` stands for the clock, read once.
use mathlib.Core.List.{Perm}
use kitaza.Common.{
  ℕ, ◌≡◌, ◌∙◌, refl, Bool, List, [], ◌∷◌, ◌++◌, map, select, leb, ◌==◌, arith, unwrap_or,
}
use kitaza.Common.Sort.{sort, IsSorted, TotalOrder, sort-perm, sort-IsSorted, select-sort}
use kitaza.Services.Selling.{RecordSaleRequest}
use kitaza.Services.Stockroom.{RecordMovementRequest}

pub data StockEvent (F : Type 0) : Type 0 where
  sale : RecordSaleRequest F → StockEvent F
  movement : RecordMovementRequest F → StockEvent F

module _ {F : Type 0} (now : ℕ) where
  -- `StockEvent::occurred_at`
  unfoldable pub occurred_at : StockEvent F → ℕ
  occurred_at (sale request) = unwrap_or request.occurred_at now
  occurred_at (movement request) = unwrap_or request.occurred_at now

  abbrev pub no_later : StockEvent F → StockEvent F → Bool
  no_later a b = leb (occurred_at a) (occurred_at b)

  abbrev pub queued :
      List (RecordSaleRequest F) → List (RecordMovementRequest F) → List (StockEvent F)
  queued sales movements = map sale sales ++ map movement movements

  unfoldable pub into_timeline :
      List (RecordSaleRequest F) → List (RecordMovementRequest F) → List (StockEvent F)
  unfolding occurred_at
  into_timeline sales movements = sort no_later (queued sales movements)

  no_later-TotalOrder : TotalOrder no_later
  no_later-TotalOrder = record { total = λ a b e. ground arith; trans = λ a b c e f. ground arith }

  module _ {A : Type 0} (event : A → StockEvent F) (time : ℕ) (at : A → ℕ) where
    select-map :
        ((x : A) → occurred_at (event x) ≡ at x)
        → (xs : List A)
        → select (λ e. occurred_at e == time) (map event xs)
          ≡ map event (select (λ x. at x == time) xs)
    select-map h [] = refl
    select-map h (x ∷ xs) = ground (arith, h x, select-map h xs)

  select-append :
      (p : StockEvent F → Bool) (xs ys : List (StockEvent F))
      → select p (xs ++ ys) ≡ select p xs ++ select p ys
  select-append p [] ys = refl
  select-append p (x ∷ xs) ys = ground (arith, select-append p xs ys)

  -- The timeline has the sales and the movements that were sent and nothing else. It runs forward
  -- in time; and what it has of one moment are the sales of that moment and then the movements of
  -- it, each in the order in which they were sent. What comes without a time is of the moment of
  -- the push.
  pub into_timeline_lem :
      (sales : List (RecordSaleRequest F)) (movements : List (RecordMovementRequest F)) (time : ℕ)
      → Perm (into_timeline sales movements) (map sale sales ++ map movement movements)
        × IsSorted (λ a b. leb (occurred_at a) (occurred_at b)) (into_timeline sales movements)
        × (select (λ e. occurred_at e == time) (into_timeline sales movements)
            ≡ map sale (select (λ r. unwrap_or r.occurred_at now == time) sales)
              ++ map movement (select (λ r. unwrap_or r.occurred_at now == time) movements))
  unfolding into_timeline occurred_at
  into_timeline_lem sales movements time = (
    sort-perm no_later (queued sales movements),
    sort-IsSorted no_later no_later-TotalOrder (queued sales movements),
    select-sort no_later (λ e. occurred_at e == time) (λ a b e f. ground arith)
          (queued sales movements)
        ∙ select-append (λ e. occurred_at e == time) (map sale sales) (map movement movements)
        ∙ rw
            (
              select-map sale time (λ r. unwrap_or r.occurred_at now) (λ r. refl) sales,
              select-map movement time (λ r. unwrap_or r.occurred_at now) (λ r. refl) movements,
            )
            refl,
  )
