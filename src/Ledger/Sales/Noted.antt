-- ===== src/Ledger/Sales/Noted.antt =====
-- A stock movement whose note is that of a sale is retired with the sale.
use kitaza.Common.{
  ℕ, String, ◌≡◌, refl, none, some, List, ◌==◌, if◌then◌else◌, arith, ==_self, eq_refl, ◌∙◌, ap,
  false, ◌&&◌, sym,
}
use kitaza.Common.Int.{ℤ, pos, ◌+ℤ◌, int_laws, parts_of_eq}
use kitaza.Ledger.Tables.{Item, Tables, Product, Sale, unexplained}
use kitaza.Ledger.Movements.{
  Entry, change, record_movement, find_product, has_movement, delta, apply_movement, move_stock,
}
use kitaza.Ledger.Movements.Laws.{unexplained-record_movement}
use kitaza.Ledger.Sales.{void, voided, put_sale, take_back, sale_note, is_movement_of}
use kitaza.Ledger.Sales.Effects.{sum_where, Owned}
use kitaza.Ledger.Sales.TakeBack.{IsSound, PicksOne, unexplained-take_back_of}

pub void-known :
    (uuid_text : ℕ → String) (pick : Item → List Item → Item) (store sale now : ℕ) (t : Tables)
    (row : Sale)
    → t.sales sale ≡ some row
    → row.store_id ≡ store
    → row.deleted_at ≡ none
    → (void uuid_text pick store sale now t).1
      ≡ take_back uuid_text pick sale store now (put_sale sale (voided now row) t)
unfolding void
void-known uuid_text pick store sale now t row found own live =
    rw (found, void) (rw (own, ==_self store, live) refl)

record_movement-applied :
    (e : Entry) (now : ℕ) (t : Tables) (product : Product) (d : ℤ)
    → e.effect ≡ change d
    → find_product t e.store_id e.product_id ≡ some product
    → has_movement e.movement_id t.movements ≡ false
    → (record_movement e now t).1 ≡ apply_movement e d now t
unfolding record_movement delta
record_movement-applied e now t product d effect known unseen =
    rw (known, record_movement) (rw (unseen, effect) refl)

sum_where-noted :
    (uuid_text : ℕ → String) (e : Entry) (sale now : ℕ) (t : Tables) (d : ℤ)
    → e.note ≡ some (sale_note uuid_text sale)
    → sum_where
        (is_movement_of e.store_id (sale_note uuid_text sale))
        e.product_id
        (apply_movement e d now t).movements
      ≡ d
        +ℤ sum_where (is_movement_of e.store_id (sale_note uuid_text sale)) e.product_id t.movements
unfolding sum_where
sum_where-noted uuid_text e sale now t d noted =
    rw (noted, ==_self e.store_id, eq_refl (sale_note uuid_text sale), ==_self e.product_id) refl

plus_tied : (u d s l : ℤ) → s +ℤ l ≡ pos 0 → u +ℤ (d +ℤ s +ℤ l) ≡ u +ℤ d
plus_tied u d s l h = omega (int_laws, parts_of_eq _ _ h)

Owned-apply_movement :
    (e : Entry) (d : ℤ) (now : ℕ) (t : Tables) (store q : ℕ)
    → Owned t store (some q)
    → Owned (apply_movement e d now t) store (some q)
Owned-apply_movement e d now t store q (row, here, belongs) = (
  if q == e.product_id && row.store_id == e.store_id then move_stock d e.unit_cost now row else row,
  ground arith,
  ground arith,
)

-- Whoever may record stock movements may give one the note of a sale. Voiding that sale then
-- retires the movement too, and leaves its change of the stock in place: afterwards the stock of
-- the product is off by that change from what its ledger explains. The movement is new, of a
-- product of the store, and not a count; the sale is a live one of the store, and up to then its
-- lines hold each product once, of the store, and the rows with its note are those of its lines.
pub noted_movement_unbalances :
    (uuid_text : ℕ → String) (pick : Item → List Item → Item) (one : PicksOne pick) (e : Entry)
    (sale now later : ℕ) (t : Tables) (product : Product) (row : Sale) (d : ℤ)
    → IsSound uuid_text t sale e.store_id
    → t.sales sale ≡ some row
    → row.store_id ≡ e.store_id
    → row.deleted_at ≡ none
    → e.effect ≡ change d
    → e.note ≡ some (sale_note uuid_text sale)
    → find_product t e.store_id e.product_id ≡ some product
    → has_movement e.movement_id t.movements ≡ false
    → let moved = (record_movement e now t).1 in
      unexplained (void uuid_text pick e.store_id sale later moved).1 e.product_id
      ≡ unexplained t e.product_id +ℤ d
noted_movement_unbalances uuid_text pick one e sale now later t product row d sound found own live
      effect noted known unseen =
    let u = apply_movement e d now t in
    let v = put_sale sale (voided later row) u in
    let moved = record_movement-applied e now t product d effect known unseen in
    let same : unexplained v e.product_id ≡ unexplained t e.product_id =
      unfold unexplained in
      (ap (λ w. unexplained w e.product_id) (sym moved)
        ∙ unexplained-record_movement e now t e.product_id) in
    rw (moved, void-known uuid_text pick e.store_id sale later u row found own live)
      (unexplained-take_back_of pick one uuid_text sale e.store_id later v e.product_id
          (sound.single e.product_id)
          (λ i is lines.
            Owned-apply_movement e d now t e.store_id e.product_id
              (sound.owned e.product_id i is lines))
        ∙ rw (same, sum_where-noted uuid_text e sale now t d noted)
            (plus_tied _ d _ _ (sound.tied e.product_id)))
