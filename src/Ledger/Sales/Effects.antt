-- ===== src/Ledger/Sales/Effects.antt =====
-- What each statement of a sale does to the stock of a product, to its ledger, and to the lines
-- that the sale keeps of it.
use kitaza.Common.{
  ℕ, String, ◌≡◌, refl, Bool, false, ◌&&◌, Option, none, some, List, [], ◌∷◌, ◌==◌, if◌then◌else◌,
  select, Bool-cases, Option-cases, inl, inr, arith, eq_refl, ==_self, ◌⊎◌,
}
use kitaza.Common.Int.{ℤ, pos, ◌+ℤ◌, int_laws, parts_of_eq, zero-+ℤ, +ℤ-zero, cancel}
use kitaza.Access.Actor.{eqb_id}
use kitaza.Ledger.Tables.{Product, Movement, Item, Tables, counts, stock_of, live_sum}
use kitaza.Ledger.Sales.{
  Line, Prepared, is_line_of, is_movement_of, retire, retire_where, sale_note, insert_line,
  with_item, with_movement, sell,
}

-- The live movements of a product that a test picks out, summed.
unfoldable pub sum_where : (Movement → Bool) → ℕ → List Movement → ℤ
sum_where test product [] = pos 0
sum_where test product (m ∷ ms) =
    (if test m && counts product m then m.quantity else pos 0) +ℤ sum_where test product ms

unfoldable pub quantities : List Item → ℤ
quantities [] = pos 0
quantities (i ∷ is) = i.quantity +ℤ quantities is

-- The quantity of a product that the lines of a sale hold.
abbrev pub line_sum : ℕ → ℕ → List Item → ℤ
line_sum sale product items = quantities (select (is_line_of sale product) items)

-- What a prepared line takes out of a product's stock.
abbrev pub taken : ℕ → Line → ℤ
taken product l = if eqb_id l.product_id (some product) then l.quantity else pos 0

-- The product, if one is named, is a product of the store.
abbrev pub Owned : Tables → ℕ → Option ℕ → Type 0
Owned t store none = Unit
Owned t store (some p) = (row : Product) × (t.products p ≡ some row) × (row.store_id ≡ store)

abbrev pub InStore : Tables → ℕ → Line → Type 0
InStore t store l = Owned t store l.product_id

counts-retire : (q now : ℕ) (m : Movement) → counts q (retire now m) ≡ false
counts-retire q now m = ground arith

-- Retiring takes exactly what the test picks out from a product's ledger, and leaves nothing for
-- the same test.
module _ (test : Movement → Bool) (now q : ℕ) where
  pub live_sum-retire :
      (ms : List Movement)
      → live_sum q (retire_where test now ms) +ℤ sum_where test q ms ≡ live_sum q ms
  unfolding live_sum retire_where sum_where
  live_sum-retire [] = omega int_laws
  live_sum-retire (m ∷ ms) =
      let ih = parts_of_eq _ _ (live_sum-retire ms) in
      elim (Bool-cases (test m)) [
        | inl mine ↦ rw (mine, counts-retire) (omega int_laws)
        | inr other ↦ rw other (omega int_laws)
      ]

  pub sum_where-retire :
      (retired : (m : Movement) → test (retire now m) ≡ false) (ms : List Movement)
      → sum_where test q (retire_where test now ms) ≡ pos 0
  unfolding retire_where sum_where
  sum_where-retire retired [] = refl
  sum_where-retire retired (m ∷ ms) = elim (Bool-cases (test m)) [
    | inl mine ↦ rw (mine, retired, sum_where-retire retired ms) (zero-+ℤ (pos 0))
    | inr other ↦ rw (other, other, sum_where-retire retired ms) (zero-+ℤ (pos 0))
  ]

-- A line's item and movement, in the sums of a product.
module _ (uuid_text : ℕ → String) (new_id : ℕ → ℕ) (s : Prepared) (now : ℕ) (l : Line)
    (t : Tables) where
  pub insert_line-cases :
      (t' : Tables)
      → insert_line uuid_text new_id s now l t ≡ some t'
      → ((l.product_id ≡ none) × (t' ≡ with_item s l t))
        ⊎ ((p : ℕ) × (l.product_id ≡ some p)
            × (t' ≡ with_movement uuid_text new_id s now l p (with_item s l t)))
  unfolding insert_line
  insert_line-cases t' h = elim (Option-cases l.product_id) [
    | inl quick ↦ inl (quick, ground arith)
    | inr (p, named) ↦ inr (p, named, ground arith)
  ]

  pub live_sum-with_movement :
      (p q : ℕ)
      → l.product_id ≡ some p
      → live_sum q (with_movement uuid_text new_id s now l p t).movements +ℤ taken q l
        ≡ live_sum q t.movements
  unfolding live_sum
  live_sum-with_movement p q named = rw named (elim (Bool-cases (p == q)) [
    | inl same ↦ rw same (omega int_laws)
    | inr other ↦ rw other (omega int_laws)
  ])

  pub stock_of-with_movement :
      (p q : ℕ) (row : Product)
      → l.product_id ≡ some p
      → t.products p ≡ some row
      → row.store_id ≡ s.store_id
      → stock_of (with_movement uuid_text new_id s now l p t) q +ℤ taken q l ≡ stock_of t q
  stock_of-with_movement p q row named here own = rw named (elim (Bool-cases (p == q)) [
    | inl same ↦
        let same' : p ≡ q = ground arith in
        let here' : t.products q ≡ some row = rw (← same') here in
        ground (arith, cancel row.stock_quantity l.quantity)
    | inr other ↦ ground (arith, +ℤ-zero (stock_of t q))
  ])

  pub sum_where-with_movement :
      (p q : ℕ)
      → l.product_id ≡ some p
      → sum_where
            (is_movement_of s.store_id (sale_note uuid_text s.id))
            q
            (with_movement uuid_text new_id s now l p t).movements
          +ℤ taken q l
        ≡ sum_where (is_movement_of s.store_id (sale_note uuid_text s.id)) q t.movements
  unfolding sum_where
  sum_where-with_movement p q named =
      rw (named, ==_self s.store_id, eq_refl (sale_note uuid_text s.id))
        (elim (Bool-cases (p == q)) [
          | inl same ↦ rw same (omega int_laws)
          | inr other ↦ rw other (omega int_laws)
        ])

  pub Owned-with_movement :
      (p store : ℕ) (o : Option ℕ)
      → Owned t store o
      → Owned (with_movement uuid_text new_id s now l p t) store o
  Owned-with_movement p store none own = tt
  Owned-with_movement p store (some q) (row, here, belongs) = (
    if q == p && row.store_id == s.store_id then sell l.quantity now row else row,
    ground arith,
    ground arith,
  )

  pub Owned-with_item :
      (store : ℕ) (o : Option ℕ) → Owned t store o → Owned (with_item s l t) store o
  Owned-with_item store none own = tt
  Owned-with_item store (some q) own = own
