-- ===== src/Ledger/Sales/Lines.antt =====
-- What the lines of a sale take out of the stock and the ledger of each product.
use kitaza.Common.{
  ℕ, String, ◌≡◌, Option, some, List, [], ◌∷◌, if◌then◌else◌, select, Bool-cases, Option-cases, inl,
  inr, arith, length, ==_self, sym, ◌+◌,
}
use kitaza.Common.Int.{ℤ, pos, ◌+ℤ◌, int_laws, parts_of_eq, +ℤ-zero, +ℤ_comm}
use kitaza.Access.Actor.{eqb_id}
use kitaza.Ledger.Tables.{Product, Tables, stock_of, live_sum}
use kitaza.Ledger.Sales.{
  Line, Prepared, is_line_of, is_movement_of, sale_note, insert_line, insert_lines, with_item,
}
use kitaza.Common.Sort.{All}
use kitaza.Ledger.Sales.Effects.{
  sum_where, quantities, line_sum, taken, Owned, InStore, insert_line-cases, live_sum-with_movement,
  stock_of-with_movement, sum_where-with_movement, Owned-with_movement, Owned-with_item,
}

-- What a piece of a sale's recording takes out of the product `q`: `d` from its stock, from its
-- ledger and from what the sale's retirement would take back, and into `n` lines of the sale.
pub record Takes (uuid_text : ℕ → String) (s : Prepared) (q : ℕ) (t t' : Tables) (d : ℤ) (n : ℕ)
    : Type 0 where
  pub stock : stock_of t' q +ℤ d ≡ stock_of t q
  pub live : live_sum q t'.movements +ℤ d ≡ live_sum q t.movements
  pub mine :
      sum_where (is_movement_of s.store_id (sale_note uuid_text s.id)) q t'.movements +ℤ d
      ≡ sum_where (is_movement_of s.store_id (sale_note uuid_text s.id)) q t.movements
  pub kept : line_sum s.id q t'.items ≡ line_sum s.id q t.items +ℤ d
  pub lines :
      length (select (is_line_of s.id q) t'.items) ≡ length (select (is_line_of s.id q) t.items) + n

-- Whether a line names a product, as a number.
abbrev pub names : ℕ → Line → ℕ
names q l = if eqb_id l.product_id (some q) then 1 else 0

module _ (uuid_text : ℕ → String) (new_id : ℕ → ℕ) (s : Prepared) (now : ℕ) (l : Line)
    (t : Tables) where
  line_sum-with_item :
      (q : ℕ) → line_sum s.id q (with_item s l t).items ≡ line_sum s.id q t.items +ℤ taken q l
  unfolding quantities
  line_sum-with_item q = rw (==_self s.id) (elim (Bool-cases (eqb_id l.product_id (some q))) [
    | inl mine ↦ rw mine (+ℤ_comm l.quantity (line_sum s.id q t.items))
    | inr other ↦ rw other (sym (+ℤ-zero (line_sum s.id q t.items)))
  ])

  length-with_item :
      (q : ℕ)
      → length (select (is_line_of s.id q) (with_item s l t).items)
        ≡ length (select (is_line_of s.id q) t.items) + names q l
  length-with_item q = ground (arith, ==_self s.id)

  -- A line that goes in takes its quantity out of the product that it names, and nothing out of
  -- any other.
  pub insert_line-Takes :
      (t' : Tables) (q : ℕ)
      → InStore t s.store_id l
      → insert_line uuid_text new_id s now l t ≡ some t'
      → Takes uuid_text s q t t' (taken q l) (names q l)
  insert_line-Takes t' q own h = elim (insert_line-cases uuid_text new_id s now l t t' h) [
    | inl (quick, e) ↦ rw e (record {
      stock = rw quick (+ℤ-zero (stock_of t q));
      live = rw quick (+ℤ-zero (live_sum q t.movements));
      mine = rw quick (+ℤ-zero _);
      kept = line_sum-with_item q;
      lines = length-with_item q;
    })
    | inr (p, named, e) ↦
        let (row, here, belongs) : (row : Product) × (t.products p ≡ some row)
            × (row.store_id ≡ s.store_id) =
          rw named at own in
        rw e (record {
          stock =
              stock_of-with_movement uuid_text new_id s now l (with_item s l t) p q row named here
                belongs;
          live = live_sum-with_movement uuid_text new_id s now l t p q named;
          mine = sum_where-with_movement uuid_text new_id s now l t p q named;
          kept = line_sum-with_item q;
          lines = length-with_item q;
        })
  ]

  -- A line leaves every product in the store where it was.
  pub insert_line-Owned :
      (t' : Tables) (store : ℕ) (o : Option ℕ)
      → insert_line uuid_text new_id s now l t ≡ some t'
      → Owned t store o
      → Owned t' store o
  insert_line-Owned t' store o h own = elim (insert_line-cases uuid_text new_id s now l t t' h) [
    | inl (quick, e) ↦ rw e (Owned-with_item uuid_text new_id s now l t store o own)
    | inr (p, named, e) ↦ rw e (
        Owned-with_movement uuid_text new_id s now l (with_item s l t) p store o
          (Owned-with_item uuid_text new_id s now l t store o own))
  ]

-- The sums over all lines.
abbrev pub taken_by : ℕ → List Line → ℤ
taken_by q [] = pos 0
taken_by q (l ∷ ls) = taken q l +ℤ taken_by q ls

abbrev pub named_by : ℕ → List Line → ℕ
named_by q [] = 0
named_by q (l ∷ ls) = names q l + named_by q ls

Takes-nothing :
    (uuid_text : ℕ → String) (s : Prepared) (q : ℕ) (t : Tables) → Takes uuid_text s q t t (pos 0) 0
Takes-nothing uuid_text s q t = record {
  stock = +ℤ-zero _;
  live = +ℤ-zero _;
  mine = +ℤ-zero _;
  kept = sym (+ℤ-zero _);
  lines = omega arith;
}

-- `a' + d = a` and `a'' + d' = a'` give `a'' + (d + d') = a`.
then_taken : (a a' a'' d d' : ℤ) → a' +ℤ d ≡ a → a'' +ℤ d' ≡ a' → a'' +ℤ (d +ℤ d') ≡ a
then_taken a a' a'' d d' h h' = omega (int_laws, parts_of_eq _ _ h, parts_of_eq _ _ h')

then_kept : (a a' a'' d d' : ℤ) → a' ≡ a +ℤ d → a'' ≡ a' +ℤ d' → a'' ≡ a +ℤ (d +ℤ d')
then_kept a a' a'' d d' h h' = omega (int_laws, parts_of_eq _ _ h, parts_of_eq _ _ h')

Takes-trans :
    (uuid_text : ℕ → String) (s : Prepared) (q : ℕ) (t u v : Tables) (d d' : ℤ) (n n' : ℕ)
    → Takes uuid_text s q t u d n
    → Takes uuid_text s q u v d' n'
    → Takes uuid_text s q t v (d +ℤ d') (n + n')
Takes-trans uuid_text s q t u v d d' n n' h h' = record {
  stock = then_taken _ _ _ d d' h.stock h'.stock;
  live = then_taken _ _ _ d d' h.live h'.live;
  mine = then_taken _ _ _ d d' h.mine h'.mine;
  kept = then_kept _ _ _ d d' h.kept h'.kept;
  lines = omega (arith, h.lines, h'.lines);
}

module _ (uuid_text : ℕ → String) (new_id : ℕ → ℕ) (s : Prepared) (now : ℕ) where
  insert_line-InStore :
      (l : Line) (t t' : Tables) (store : ℕ) (ls : List Line)
      → insert_line uuid_text new_id s now l t ≡ some t'
      → All (InStore t store) ls
      → All (InStore t' store) ls
  insert_line-InStore l t t' store [] h own = tt
  insert_line-InStore l t t' store (k ∷ ks) h own = (
    insert_line-Owned uuid_text new_id s now l t t' store k.product_id h own.0,
    insert_line-InStore l t t' store ks h own.1,
  )

  -- The loop takes out of each product what its lines name of it.
  pub insert_lines-Takes :
      (ls : List Line) (t t' : Tables) (q : ℕ)
      → All (InStore t s.store_id) ls
      → insert_lines uuid_text new_id s now ls t ≡ some t'
      → Takes uuid_text s q t t' (taken_by q ls) (named_by q ls)
  unfolding insert_lines
  insert_lines-Takes [] t t' q own h =
      let same : t ≡ t' = cc in rw (← same) (Takes-nothing uuid_text s q t)
  insert_lines-Takes (l ∷ ls) t t' q own h =
      elim (Option-cases (insert_line uuid_text new_id s now l t)) [
        | inl refused ↦ absurd (ground arith)
        | inr (u, went) ↦
            Takes-trans uuid_text s q t u t' (taken q l) (taken_by q ls) (names q l) (named_by q ls)
              (insert_line-Takes uuid_text new_id s now l t u q own.0 went)
              (insert_lines-Takes ls u t' q (insert_line-InStore l t u s.store_id ls went own.1)
                (ground arith))
      ]

  -- Products of the store stay so through the loop.
  pub insert_lines-Owned :
      (ls : List Line) (t t' : Tables) (store : ℕ) (o : Option ℕ)
      → insert_lines uuid_text new_id s now ls t ≡ some t'
      → Owned t store o
      → Owned t' store o
  unfolding insert_lines
  insert_lines-Owned [] t t' store o h own = let same : t ≡ t' = cc in rw (← same) own
  insert_lines-Owned (l ∷ ls) t t' store o h own =
      elim (Option-cases (insert_line uuid_text new_id s now l t)) [
        | inl refused ↦ absurd (ground arith)
        | inr (u, went) ↦
            insert_lines-Owned ls u t' store o (ground arith)
              (insert_line-Owned uuid_text new_id s now l t u store o went own)
      ]
