-- ===== src/Services/Catalogue/Laws.antt =====
-- What saving and removing products leaves alone.
use kitaza.Common.{
  ℕ, String, ◌≡◌, ◌≢◌, Bool, false, Option, none, some, [], arith, refl, Bool-cases, Option-cases,
  inl, inr, ◌==◌,
}
use kitaza.Common.Int.{pos, ◌≤ℤ◌}
use kitaza.Common.Failure.{ApiError, ok, err}
use kitaza.Access.Permission.{view_profit}
use kitaza.Access.Actor.{Actor, can}
use kitaza.Ledger.Tables.{Tables, Product, stock_of}
use kitaza.Ledger.Movements.{find_product}
use kitaza.Services.Request.{Env}
use kitaza.Services.Catalogue.{SaveProductRequest, product_id, save, remove}

module _ {F : Type 0} (env : Env F) (barcode_taken : Tables → ℕ → ℕ → Option String → Bool)
    (store : ℕ) (actor : Actor) (now : ℕ) (t : Tables) (request : SaveProductRequest F) where
  -- Saving a product that is already there leaves every stock as it was, whatever opening stock
  -- the request names.
  pub stock_of-save :
      (old : Product) (q : ℕ)
      → t.products (product_id env request) ≡ some old
      → stock_of (save env barcode_taken store actor now t request).1 q ≡ stock_of t q
  unfolding save
  stock_of-save old q known = ground arith

  -- A save that is accepted never leaves a product that sells below its cost.
  pub save-no_loss :
      (product : Product)
      → (save env barcode_taken store actor now t request).0 ≡ ok product
      → product.cost_price ≤ℤ product.selling_price
  unfolding save
  save-no_loss product e = ground arith

  -- Whatever staff who may not see costs send to be saved, and whether or not it is accepted, every
  -- product that has not been removed, of any store, is still there with the cost that it had.
  pub save-keeps_cost :
      (q : ℕ) (before : Product)
      → can actor view_profit ≡ false
      → t.products q ≡ some before
      → before.deleted_at ≡ none
      → (after : Product) × ((save env barcode_taken store actor now t request).1.products q
          ≡ some after)
        × (after.cost_price ≡ before.cost_price)
  unfolding save find_product
  save-keeps_cost q before blind known live = elim (Bool-cases (q == product_id env request)) [
    | inr other ↦ (before, ground arith, refl)
    | inl same ↦
        let same' : q ≡ product_id env request = ground arith in
        let known' : t.products (product_id env request) ≡ some before = rw (← same') known in
        elim (Option-cases ((save env barcode_taken store actor now t request).1.products q)) [
          | inl gone ↦ absurd (ground arith)
          | inr (after, e) ↦ (after, e, ground arith)
        ]
  ]

  -- Staff who may not see costs, saving a product that was removed, bring it back with a cost of
  -- zero: the cost it had is lost.
  pub save-revives :
      (old product : Product) (gone : ℕ)
      → can actor view_profit ≡ false
      → t.products (product_id env request) ≡ some old
      → old.deleted_at ≡ some gone
      → (save env barcode_taken store actor now t request).0 ≡ ok product
      → (product.cost_price ≡ pos 0) × (product.deleted_at ≡ none)
  unfolding save find_product
  save-revives old product gone blind known deleted e = ground arith

  -- A save that is refused changes no table and announces nothing.
  pub save-refused :
      (why : ApiError)
      → (save env barcode_taken store actor now t request).0 ≡ err why
      → ((save env barcode_taken store actor now t request).1 ≡ t)
        × ((save env barcode_taken store actor now t request).2 ≡ [])
  unfolding save
  save-refused why e = ground arith

  -- The products of other stores are never touched by a save or a removal.
  pub other_stores_kept :
      (q removed_id : ℕ) (row : Product)
      → t.products q ≡ some row
      → row.store_id ≢ store
      → ((save env barcode_taken store actor now t request).1.products q ≡ some row)
        × ((remove store actor removed_id now t).1.products q ≡ some row)
  unfolding save remove find_product
  other_stores_kept q removed_id row known elsewhere = (ground arith, ground arith)

-- A product that was removed is not found any more, and removing it again changes nothing.
pub remove_twice :
    (store product now later : ℕ) (actor : Actor) (t : Tables)
    → (remove store actor product now t).0 ≡ ok tt
    → let after = (remove store actor product now t).1 in
      (find_product after store product ≡ none)
      × ((remove store actor product later after).1 ≡ after)
      × ((remove store actor product later after).2 ≡ [])
unfolding remove find_product
remove_twice store product now later actor t e = ground arith
