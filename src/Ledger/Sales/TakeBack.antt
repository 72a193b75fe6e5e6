-- ===== src/Ledger/Sales/TakeBack.antt =====
-- Taking back what an earlier recording of a sale did: its stock, and its rows in the ledger.
use kitaza.Common.{
  ℕ, String, ◌≡◌, refl, false, Option, none, some, List, [], ◌∷◌, ◌==◌, if◌then◌else◌, select,
  Bool-cases, Option-cases, inl, inr, arith, length, ◌≤◌, sym, ◌∙◌,
}
use kitaza.Common.Int.{ℤ, pos, ◌+ℤ◌, ◌-ℤ◌, int_laws, parts_of_eq, +ℤ-zero}
use kitaza.Ledger.Tables.{Product, Movement, Item, Tables, stock_of, live_sum, unexplained}
use kitaza.Ledger.Sales.{
  is_line_of, restock, restore_stock_for, is_movement_of, retire, retire_movements_for, sale_note,
}
use kitaza.Ledger.Sales.{take_back}
use kitaza.Ledger.Sales.Effects.{
  sum_where, quantities, line_sum, Owned, live_sum-retire, sum_where-retire,
}

-- What the recording of a sale leaves, and its taking back relies on: one line for a product at
-- most, of a product of the store, with a live row of the ledger against it; and no lines of a sale
-- that is not there.
pub record IsSound (uuid_text : ℕ → String) (t : Tables) (sale store : ℕ) : Type 0 where
  pub single : (q : ℕ) → length (select (is_line_of sale q) t.items) ≤ 1
  pub owned :
      (q : ℕ) (i : Item) (is : List Item)
      → select (is_line_of sale q) t.items ≡ i ∷ is
      → Owned t store (some q)
  pub tied :
      (q : ℕ)
      → sum_where (is_movement_of store (sale_note uuid_text sale)) q t.movements
          +ℤ line_sum sale q t.items
        ≡ pos 0
  pub recorded : (q : ℕ) → t.sales sale ≡ none → select (is_line_of sale q) t.items ≡ []

-- Where one row is joined, Postgres uses that row.
abbrev pub PicksOne : (Item → List Item → Item) → Type 0
PicksOne pick = (i : Item) → pick i [] ≡ i

module _ (pick : Item → List Item → Item) (now : ℕ) where
  pub stock_of-restore_row :
      (sale store : ℕ) (t : Tables) (q : ℕ) (row : Product) (is : List Item)
      → select (is_line_of sale q) t.items ≡ is
      → t.products q ≡ some row
      → stock_of (restore_stock_for pick sale store now t) q ≡ (
          if row.store_id == store
          then (restock pick now is row).stock_quantity
          else row.stock_quantity)
  unfolding restore_stock_for
  stock_of-restore_row sale store t q row is e here =
      rw (here, restore_stock_for)
        (rw e
          (elim (Bool-cases (row.store_id == store)) [ inl own ↦ rw own | inr other ↦ rw other ]))

module _ (pick : Item → List Item → Item) (one : PicksOne pick) (now : ℕ) where
  restock-single :
      (row : Product) (is : List Item)
      → length is ≤ 1
      → (restock pick now is row).stock_quantity ≡ row.stock_quantity +ℤ quantities is
  unfolding quantities
  restock-single row [] h = sym (+ℤ-zero row.stock_quantity)
  restock-single row (i ∷ []) h = rw (one i, +ℤ-zero i.quantity) refl
  restock-single row (i ∷ j ∷ is) h = absurd (omega arith)

  -- Each product gets back what the sale's lines hold of it.
  pub stock_of-restore :
      (sale store : ℕ) (t : Tables) (q : ℕ) (is : List Item)
      → select (is_line_of sale q) t.items ≡ is
      → length is ≤ 1
      → ((i : Item) (rest : List Item) → is ≡ i ∷ rest → Owned t store (some q))
      → stock_of (restore_stock_for pick sale store now t) q ≡ stock_of t q +ℤ quantities is
  unfolding quantities
  stock_of-restore sale store t q [] e h own = elim (Option-cases (t.products q)) [
    | inl missing ↦ unfold restore_stock_for in ground (arith, +ℤ-zero (pos 0))
    | inr (row, here) ↦ ground (
      arith,
      stock_of-restore_row pick now sale store t q row [] e here,
      +ℤ-zero row.stock_quantity,
    )
  ]
  stock_of-restore sale store t q (i ∷ is) e h own =
      let (row, here, belongs) = own i is refl in
      ground (
        arith,
        stock_of-restore_row pick now sale store t q row (i ∷ is) e here,
        restock-single row (i ∷ is) h,
      )

-- `(b + l) - (c' )` where `c' + s = c` and `s + l = 0`.
same_difference : (b c c' s l : ℤ) → c' +ℤ s ≡ c → s +ℤ l ≡ pos 0 → b +ℤ l -ℤ c' ≡ b -ℤ c
same_difference b c c' s l h k = omega (int_laws, parts_of_eq _ _ h, parts_of_eq _ _ k)

difference_of : (b c c' s l : ℤ) → c' +ℤ s ≡ c → b +ℤ l -ℤ c' ≡ b -ℤ c +ℤ (s +ℤ l)
difference_of b c c' s l h = omega (int_laws, parts_of_eq _ _ h)

restocked :
    (pick : Item → List Item → Item) (now : ℕ) (is : List Item) (row : Product)
    → (restock pick now is row).store_id ≡ row.store_id
restocked pick now [] row = refl
restocked pick now (i ∷ is) row = refl

is_movement_of-retire :
    (store : ℕ) (note : String) (now : ℕ) (m : Movement)
    → is_movement_of store note (retire now m) ≡ false
is_movement_of-retire store note now m = ground arith

module _ (pick : Item → List Item → Item) (one : PicksOne pick) (uuid_text : ℕ → String)
    (sale store now : ℕ) (t : Tables) where
  -- Taking a sound sale back leaves no product with more or less than its ledger explains.
  pub unexplained-take_back :
      IsSound uuid_text t sale store
      → (q : ℕ) → unexplained (take_back uuid_text pick sale store now t) q ≡ unexplained t q
  unfolding unexplained retire_movements_for restore_stock_for
  unexplained-take_back sound q =
      rw (stock_of-restore pick one now sale store t q _ refl (sound.single q) (sound.owned q)) (
        same_difference (stock_of t q) _ _ _ _
          (live_sum-retire (is_movement_of store (sale_note uuid_text sale)) now q t.movements)
          (sound.tied q))

  -- Where the rows of the ledger with the sale's note are not those of its lines, the difference is
  -- what no longer is explained.
  pub unexplained-take_back_of :
      (q : ℕ)
      → length (select (is_line_of sale q) t.items) ≤ 1
      → ((i : Item) (is : List Item)
          → select (is_line_of sale q) t.items ≡ i ∷ is
          → Owned t store (some q))
      → unexplained (take_back uuid_text pick sale store now t) q
        ≡ unexplained t q
          +ℤ (sum_where (is_movement_of store (sale_note uuid_text sale)) q t.movements
              +ℤ line_sum sale q t.items)
  unfolding unexplained retire_movements_for restore_stock_for
  unexplained-take_back_of q single own =
      rw (stock_of-restore pick one now sale store t q _ refl single own) (
        difference_of (stock_of t q) _ _ _ _
          (live_sum-retire (is_movement_of store (sale_note uuid_text sale)) now q t.movements))

  -- Afterwards the sale has nothing left to take back from any product's ledger.
  pub sum_where-take_back :
      (q : ℕ)
      → sum_where
          (is_movement_of store (sale_note uuid_text sale))
          q
          (take_back uuid_text pick sale store now t).movements
        ≡ pos 0
  unfolding retire_movements_for restore_stock_for
  sum_where-take_back q =
      sum_where-retire (is_movement_of store (sale_note uuid_text sale)) now q
        (is_movement_of-retire store (sale_note uuid_text sale) now) t.movements

  pub live_sum-take_back :
      (q : ℕ)
      → live_sum q (take_back uuid_text pick sale store now t).movements
          +ℤ sum_where (is_movement_of store (sale_note uuid_text sale)) q t.movements
        ≡ live_sum q t.movements
  unfolding retire_movements_for restore_stock_for
  live_sum-take_back q =
      live_sum-retire (is_movement_of store (sale_note uuid_text sale)) now q t.movements

  pub Owned-take_back :
      (o : Option ℕ) → Owned t store o → Owned (take_back uuid_text pick sale store now t) store o
  unfolding retire_movements_for restore_stock_for
  Owned-take_back none own = tt
  Owned-take_back (some q) (row, here, belongs) = (
    restock pick now (select (is_line_of sale q) t.items) row,
    ground arith,
    restocked pick now (select (is_line_of sale q) t.items) row ∙ belongs,
  )
