-- ===== src/Ledger/Sales/Accepted.antt =====
-- When a sale is accepted.
use kitaza.Common.{
  ap, ◌∙◌, ◌&&◌, ◌||◌, is_some, not, ℕ, String, ◌≡◌, ◌≢◌, refl, subst, true, false, Option, none,
  some, List, [], ◌∷◌, arith, Option-cases, inl, inr,
}
use kitaza.Common.Int.{ℤ}
use kitaza.Common.Failure.{ApiResult, ok}
use kitaza.Common.Sort.{All}
use kitaza.Ledger.Tables.{Tables, Item}
use kitaza.Ledger.Movements.{has_movement}
use kitaza.Ledger.Sales.{
  Line, Prepared, Recorder, has_item, delete_lines, with_item, with_movement, insert_line,
  insert_lines, open_sale, admits_line, admits_stock, admits_sale, admits_new_sale, record_over,
  Recorded, sale_row, write_sale, record_sale,
}
use kitaza.Ledger.Sales.Effects.{InStore, Owned, Owned-with_movement, Owned-with_item}

module _ (uuid_text : ℕ → String) (new_id : ℕ → ℕ) (s : Prepared) (now : ℕ) where
  -- A line that the database will take: its product is of the store, its ids are new, and its
  -- numbers and the stock that it leaves fit their columns.
  pub record IsFresh (t : Tables) (l : Line) : Type 0 where
    pub own : InStore t s.store_id l
    pub new_item : has_item l.id t.items ≡ false
    pub new_movement : has_movement (new_id l.id) t.movements ≡ false
    pub line_fits : admits_line l ≡ true
    pub stock_fits :
        (p : ℕ) → l.product_id ≡ some p → admits_stock s.store_id l.quantity (t.products p) ≡ true

  abbrev pub Differs : Line → Line → Type 0
  Differs l m =
      (l.id ≢ m.id)
      × (new_id l.id ≢ new_id m.id)
      × ((p : ℕ) → l.product_id ≡ some p → m.product_id ≢ some p)

  -- No two lines share an id, or name the same product.
  abbrev pub HasIds : List Line → Type 0
  HasIds [] = Unit
  HasIds (l ∷ ls) = All (Differs l) ls × HasIds ls

  insert_line-some :
      (t : Tables) (l : Line)
      → IsFresh t l
      → (t' : Tables) × (insert_line uuid_text new_id s now l t ≡ some t')
  unfolding insert_line
  insert_line-some t l fresh = elim (Option-cases l.product_id) [
    | inl quick ↦ (with_item s l t, ground (arith, fresh.new_item, fresh.line_fits))
    | inr (p, product) ↦ (
      with_movement uuid_text new_id s now l p (with_item s l t),
      ground
          (arith, fresh.new_item, fresh.line_fits, fresh.new_movement, fresh.stock_fits p product),
    )
  ]

  insert_line-IsFresh :
      (t t' : Tables) (l m : Line)
      → insert_line uuid_text new_id s now l t ≡ some t'
      → Differs l m
      → IsFresh t m
      → IsFresh t' m
  unfolding insert_line
  insert_line-IsFresh t t' l m e differs fresh = record {
    own = elim (Option-cases l.product_id) [
      | inl quick ↦
          let taken : with_item s l t ≡ t' = ground arith in
          subst (λ u. InStore u s.store_id m) taken
            (Owned-with_item uuid_text new_id s now l t s.store_id m.product_id fresh.own)
      | inr (p, product) ↦
          let taken : with_movement uuid_text new_id s now l p (with_item s l t) ≡ t' =
            ground arith in
          subst (λ u. InStore u s.store_id m) taken
            (Owned-with_movement uuid_text new_id s now l (with_item s l t) p s.store_id
              m.product_id
              (Owned-with_item uuid_text new_id s now l t s.store_id m.product_id fresh.own))
    ];
    new_item = ground arith;
    new_movement = ground arith;
    line_fits = fresh.line_fits;
    stock_fits = ground arith;
  }

  keep-IsFresh :
      (t t' : Tables) (l : Line) (ms : List Line)
      → insert_line uuid_text new_id s now l t ≡ some t'
      → All (Differs l) ms
      → All (IsFresh t) ms
      → All (IsFresh t') ms
  keep-IsFresh t t' l [] e differ fresh = tt
  keep-IsFresh t t' l (m ∷ ms) e differ fresh =
      (insert_line-IsFresh t t' l m e differ.0 fresh.0, keep-IsFresh t t' l ms e differ.1 fresh.1)

  insert_lines-some :
      (t : Tables) (ls : List Line)
      → HasIds ls
      → All (IsFresh t) ls
      → (t' : Tables) × (insert_lines uuid_text new_id s now ls t ≡ some t')
  unfolding insert_lines
  insert_lines-some t [] ids fresh = (t, refl)
  insert_lines-some t (l ∷ ls) ids fresh =
      let (t', e) = insert_line-some t l fresh.0 in
      let (last, rest) = insert_lines-some t' ls ids.1 (keep-IsFresh t t' l ls e ids.0 fresh.1) in
      (last, rw (e, insert_lines) rest)

has_item-delete_lines :
    (item sale : ℕ) (items : List Item)
    → has_item item items ≡ false
    → has_item item (delete_lines sale items) ≡ false
unfolding has_item delete_lines
has_item-delete_lines item sale [] h = refl
has_item-delete_lines item sale (i ∷ items) h =
    ground (arith, has_item-delete_lines item sale items)

module _ (numeric : ℤ → ℤ) (uuid_text : ℕ → String) (new_id : ℕ → ℕ) (s : Prepared) (by : Recorder)
    (now : ℕ) (t : Tables) where
  open_own :
      (o : Option ℕ) → Owned t s.store_id o → Owned (open_sale numeric s by now t) s.store_id o
  open_own none own = tt
  open_own (some p) own = own

  open-IsFresh :
      (ls : List Line)
      → All (IsFresh uuid_text new_id s now t) ls
      → All (IsFresh uuid_text new_id s now (open_sale numeric s by now t)) ls
  open-IsFresh [] h = tt
  open-IsFresh (l ∷ ls) h = (
    record {
      own = open_own l.product_id h.0.own;
      new_item = has_item-delete_lines l.id s.id t.items h.0.new_item;
      new_movement = h.0.new_movement;
      line_fits = h.0.line_fits;
      stock_fits = h.0.stock_fits;
    },
    open-IsFresh ls h.1,
  )

  write_sale-some :
      (t' : Tables)
      → t.sales s.id ≡ none
      → t.stores s.store_id ≡ true
      → admits_sale (sale_row numeric s by now none) ≡ true
      → insert_lines uuid_text new_id s now s.lines (open_sale numeric s by now t) ≡ some t'
      → (write_sale numeric uuid_text new_id s by now t t).0
        ≡ ok (record { sale = sale_row numeric s by now none; created = true })
  unfolding write_sale
  write_sale-some t' unseen there fits went =
      let admitted : admits_new_sale numeric s by now t ≡ true =
        ap (λ o. admits_sale (sale_row numeric s by now o) && (is_some o || t.stores s.store_id))
          unseen
        ∙ rw (fits, there) refl in
      rw (admitted, write_sale)
        (rw (went, write_sale)
          (ap
            (λ o.
              let answer : ApiResult Recorded =
                ok (record { sale = sale_row numeric s by now o; created = not (is_some o) }) in
              answer)
            unseen))

  -- A sale that the server has not seen, of a store that is there and of products of it, on one
  -- line each, is accepted and created. Its lines and their movements have ids that are new and
  -- differ; its payment method is one that the database knows; and its amounts, those of its lines,
  -- and the stock that each line leaves fit their columns.
  pub record_sale_accepted :
      (pick : Item → List Item → Item)
      → t.sales s.id ≡ none
      → t.stores s.store_id ≡ true
      → admits_sale (sale_row numeric s by now none) ≡ true
      → HasIds uuid_text new_id s now s.lines
      → All (IsFresh uuid_text new_id s now t) s.lines
      → (record_sale numeric uuid_text new_id pick s by now t).0
        ≡ ok (record { sale = sale_row numeric s by now none; created = true })
  unfolding record_sale
  record_sale_accepted pick unseen there fits ids fresh =
      let (t', e) =
        insert_lines-some uuid_text new_id s now (open_sale numeric s by now t) s.lines ids
          (open-IsFresh s.lines fresh) in
      ap (λ o. (record_over numeric uuid_text new_id pick o s by now t).0) unseen
      ∙ write_sale-some t' unseen there fits e
