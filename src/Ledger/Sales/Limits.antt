-- ===== src/Ledger/Sales/Limits.antt =====
-- Where the code of sales refuses, ends a sale for good, and where it gives back too little.
use kitaza.Common.{
  ℕ, String, ◌≡◌, refl, false, none, some, List, [], ◌∷◌, select, inl, inr, arith, ==_self, ◌∙◌,
  ◌⊎◌,
}
use kitaza.Common.Int.{ℤ, pos, ◌+ℤ◌, ◌≤ℤ◌, ◌<ℤ◌, int_laws, parts_of_eq}
use kitaza.Ledger.Tables.{Product, Item, Tables, stock_of}
use kitaza.Ledger.Sales.{Prepared, is_line_of, restore_stock_for, retire_movements_for}
use kitaza.Common.Sort.{All}
use kitaza.Common.Failure.{ApiError, ok, err}
use kitaza.Common.Sort.{All}
use kitaza.Ledger.Tables.{Sale}
use kitaza.Ledger.Sales.{Recorder, voided, put_sale, take_back, void, write_sale, record_sale}
use kitaza.Ledger.Sales.Effects.{quantities, line_sum}
use kitaza.Ledger.Sales.TakeBack.{stock_of-restore_row}

-- A recording that fails, for whatever reason, changes nothing.
pub record_sale_atomic :
    (numeric : ℤ → ℤ) (uuid_text : ℕ → String) (new_id : ℕ → ℕ) (pick : Item → List Item → Item)
    (s : Prepared) (by : Recorder) (now : ℕ) (t : Tables) (e : ApiError)
    → (record_sale numeric uuid_text new_id pick s by now t).0 ≡ err e
    → (record_sale numeric uuid_text new_id pick s by now t).1 ≡ t
unfolding record_sale write_sale
record_sale_atomic numeric uuid_text new_id pick s by now t e h = ground arith

voided-row :
    (uuid_text : ℕ → String) (pick : Item → List Item → Item) (store sale now : ℕ) (t t' : Tables)
    (gone : Sale)
    → void uuid_text pick store sale now t ≡ (some gone, t')
    → (t'.sales sale ≡ some gone) × (gone.store_id ≡ store) × (gone.deleted_at ≡ some now)
unfolding void restore_stock_for retire_movements_for
voided-row uuid_text pick store sale now t t' gone h = ground (arith, ==_self sale)

-- A sale that has been voided stays so: whoever sends it again, whatever it says by then, is told
-- of the voided sale, and nothing changes; nor does anything when it is voided again.
pub void_is_final :
    (numeric : ℤ → ℤ) (uuid_text : ℕ → String) (new_id : ℕ → ℕ) (pick : Item → List Item → Item)
    (s : Prepared) (by : Recorder) (now again : ℕ) (t t' : Tables) (gone : Sale)
    → void uuid_text pick s.store_id s.id now t ≡ (some gone, t')
    → (record_sale numeric uuid_text new_id pick s by again t'
        ≡ (ok (record { sale = gone; created = false }), t'))
      × (void uuid_text pick s.store_id s.id again t' ≡ (none, t'))
unfolding void record_sale
void_is_final numeric uuid_text new_id pick s by now again t t' gone h =
    let (found, own, dead) = voided-row uuid_text pick s.store_id s.id now t t' gone h in
    (
      rw (found, record_sale) (rw (own, ==_self s.store_id, dead) refl),
      rw (found, void) (rw (own, ==_self s.store_id, dead) refl),
    )

-- Postgres uses one of the rows that an update joins.
abbrev pub In : Item → List Item → Type 0
In x [] = ⊥
In x (y ∷ ys) = (x ≡ y) ⊎ In x ys

abbrev pub PicksJoined : (Item → List Item → Item) → Type 0
PicksJoined pick = (i : Item) (is : List Item) → In (pick i is) (i ∷ is)

abbrev IsPositive : Item → Type 0
IsPositive i = pos 0 <ℤ i.quantity

quantities_pos : (is : List Item) → All IsPositive is → pos 0 ≤ℤ quantities is
unfolding quantities
quantities_pos [] h = omega arith
quantities_pos (i ∷ is) h = omega (int_laws, quantities_pos is h.1, h.0)

quantity-le :
    (x : Item) (is : List Item) → All IsPositive is → In x is → x.quantity ≤ℤ quantities is
unfolding quantities
quantity-le x [] h found = absurd found
quantity-le x (i ∷ is) h (inl e) = rw e (omega (int_laws, quantities_pos is h.1))
quantity-le x (i ∷ is) h (inr later) = omega (int_laws, quantity-le x is h.1 later, h.0)

-- Of two rows and more, one is less than their sum.
quantity-lt :
    (x i j : Item) (is : List Item)
    → All IsPositive (i ∷ j ∷ is)
    → In x (i ∷ j ∷ is)
    → x.quantity <ℤ quantities (i ∷ j ∷ is)
unfolding quantities
quantity-lt x i j is h (inl e) = rw e (omega (int_laws, quantities_pos is h.1.1, h.1.0))
quantity-lt x i j is h (inr later) = omega (int_laws, quantity-le x (j ∷ is) h.1 later, h.0)

less_of_parts : (b a c x k : ℤ) → b ≡ a +ℤ x → c ≡ a → x <ℤ k → b <ℤ c +ℤ k
less_of_parts b a c x k h e lt = omega (int_laws, parts_of_eq _ _ h, parts_of_eq _ _ e)

void-live :
    (uuid_text : ℕ → String) (pick : Item → List Item → Item) (store sale now : ℕ) (t : Tables)
    (row : Sale)
    → t.sales sale ≡ some row
    → row.store_id ≡ store
    → row.deleted_at ≡ none
    → (void uuid_text pick store sale now t).1
      ≡ take_back uuid_text pick sale store now (put_sale sale (voided now row) t)
unfolding void
void-live uuid_text pick store sale now t row found own live =
    rw (found, void) (rw (own, ==_self store, live) refl)

-- A live sale that holds a product of its store on two lines or more, each of a positive quantity,
-- gives back less of it when it is voided than its lines took, whichever row Postgres uses.
pub void_gives_back_less :
    (uuid_text : ℕ → String) (pick : Item → List Item → Item) (store sale now : ℕ) (t : Tables)
    (row : Sale) (product : Product) (q : ℕ) (i j : Item) (is : List Item)
    → PicksJoined pick
    → t.sales sale ≡ some row
    → row.store_id ≡ store
    → row.deleted_at ≡ none
    → t.products q ≡ some product
    → product.store_id ≡ store
    → select (is_line_of sale q) t.items ≡ i ∷ j ∷ is
    → All IsPositive (i ∷ j ∷ is)
    → stock_of (void uuid_text pick store sale now t).1 q <ℤ stock_of t q +ℤ line_sum sale q t.items
void_gives_back_less uuid_text pick store sale now t row product q i j is one found own live here
      belongs lines positive =
    let u = put_sale sale (voided now row) t in
    let picked = pick i (j ∷ is) in
    rw (void-live uuid_text pick store sale now t row found own live, lines)
      (less_of_parts _ product.stock_quantity _ picked.quantity (quantities (i ∷ j ∷ is))
        (unfold retire_movements_for in
          (stock_of-restore_row pick now sale store u q product (i ∷ j ∷ is) lines here
            ∙ rw (belongs, ==_self store) refl))
        (ground arith) (quantity-lt picked i j is positive (one i (j ∷ is))))
