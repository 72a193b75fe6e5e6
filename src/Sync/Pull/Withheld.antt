-- ===== src/Sync/Pull/Withheld.antt =====
-- What a pull keeps from those who may not see costs.
use kitaza.Common.{
  ℕ, String, ◌≡◌, refl, ap, sym, subst, ◌∙◌, Bool, true, false, Option, some, List, [], ◌∷◌, map,
  arith, Bool-cases, inl, inr,
}
use kitaza.Access.Permission.{view_profit}
use kitaza.Access.Actor.{Actor, can}
use kitaza.Sync.Cursor.{
  SyncTable, products, sales, expenses, withdrawals, stock_movements, SyncCursor, mark, advance,
  encode, decode, decode-encode,
}
use kitaza.Sync.Cursor
use kitaza.Sync.Paging.{Row, changed_since}
use kitaza.Sync.Pull.{PullResponse, Pulled, shows_costs, pull_table, pull_tables, starting, pull}

eqb_eq : (a b : SyncTable) → Cursor.eqb a b ≡ true → a ≡ b
eqb_eq a b e = ground arith

module _ {V : Type 0} (page_size settle_window now store : ℕ)
    (tables : SyncTable → List (Row V)) where
  abbrev turn : Bool → SyncTable → Pulled V → Pulled V
  turn = pull_table page_size settle_window now store tables

  abbrev turns : Bool → List SyncTable → Pulled V → Pulled V
  turns = pull_tables page_size settle_window now store tables

  withheld_turn :
      (table other : SyncTable) (s : Pulled V)
      → shows_costs other ≡ true
      → s.page other ≡ []
      → ((turn false table s).page other ≡ [])
        × (mark (turn false table s).cursor other ≡ mark s.cursor other)
  unfolding pull_table mark advance
  withheld_turn table other s hidden empty = elim (Bool-cases (Cursor.eqb other table)) [
    | inl e ↦
        let withheld : shows_costs table ≡ true = rw (← eqb_eq other table e) hidden in
        (ground arith, ground arith)
    | inr e ↦ (ground arith, ground arith)
  ]

  -- Two states of the loop that agree on a table.
  abbrev Agrees : SyncTable → Pulled V → Pulled V → Type 0
  Agrees other s s' = (s.page other ≡ s'.page other) × (mark s.cursor other ≡ mark s'.cursor other)

  visible_turn :
      (table other : SyncTable) (s s' : Pulled V)
      → shows_costs other ≡ false
      → Agrees other s s'
      → Agrees other (turn true table s) (turn false table s')
  unfolding pull_table mark advance
  visible_turn table other s s' shown (same_page, same_mark) =
      elim (Bool-cases (Cursor.eqb other table)) [
        | inl e ↦
            let same = eqb_eq other table e in
            let visible : shows_costs table ≡ false = rw (← same) shown in
            let level : mark s.cursor table ≡ mark s'.cursor table = rw (← same) same_mark in
            let paged =
              ap (λ m. changed_since settle_window now (tables table) store m page_size) level in
            (ground arith, ground arith)
        | inr e ↦ (ground arith, ground arith)
      ]

  withheld_turns :
      (list : List SyncTable) (other : SyncTable) (s : Pulled V)
      → shows_costs other ≡ true
      → s.page other ≡ []
      → ((turns false list s).page other ≡ [])
        × (mark (turns false list s).cursor other ≡ mark s.cursor other)
  unfolding pull_tables
  withheld_turns [] other s hidden empty = (empty, refl)
  withheld_turns (table ∷ list) other s hidden empty =
      let (still_empty, unmoved) = withheld_turn table other s hidden empty in
      let (at_last, unmoved_rest) =
        withheld_turns list other (turn false table s) hidden still_empty in
      (at_last, unmoved_rest ∙ unmoved)

  visible_turns :
      (list : List SyncTable) (other : SyncTable) (s s' : Pulled V)
      → shows_costs other ≡ false
      → Agrees other s s'
      → Agrees other (turns true list s) (turns false list s')
  unfolding pull_tables
  visible_turns [] other s s' shown agrees = agrees
  visible_turns (table ∷ list) other s s' shown agrees =
      visible_turns list other (turn true table s) (turn false table s') shown
        (visible_turn table other s s' shown agrees)

  module _ (set_zero : String → V → V) (sale_id : V → Option ℕ) (lines_for_sales : List ℕ → List V)
      (to_hex : SyncCursor → String) (of_hex : String → Option SyncCursor) where
    abbrev pub answer : Actor → Option String → PullResponse V
    answer =
        pull page_size settle_window now store tables set_zero sale_id lines_for_sales to_hex of_hex

    -- Where the marks of a pull stand when it is done.
    abbrev pub reached : Actor → Option String → SyncCursor
    reached actor raw =
        (turns (can actor view_profit) Cursor.all
          (starting page_size settle_window now store tables (decode of_hex raw))).cursor

    -- With the same cursor, someone who may not see costs gets the products, the sales and the
    -- stock movements that the owner gets, each with its cost set to zero, and no expenses and no
    -- withdrawals; the cursor they are given back, if it
    -- is read as it was written, stands where it stood on those two tables.
    pub pull-withheld :
        (owner staff : Actor) (raw : Option String)
        → of_hex (to_hex (reached staff raw)) ≡ some (reached staff raw)
        → can owner view_profit ≡ true
        → can staff view_profit ≡ false
        → let full = answer owner raw in
          let response = answer staff raw in
          let next = decode of_hex (some response.cursor) in
          (response.products ≡ map (set_zero "cost_price") full.products)
          × (response.sales ≡ map (set_zero "cost_amount") full.sales)
          × (response.stock_movements ≡ map (set_zero "unit_cost") full.stock_movements)
          × (response.expenses ≡ [])
          × (response.withdrawals ≡ [])
          × (mark next expenses ≡ mark (decode of_hex raw) expenses)
          × (mark next withdrawals ≡ mark (decode of_hex raw) withdrawals)
    unfolding pull
    pull-withheld owner staff raw reads sees blind =
        let start : Pulled V =
          starting page_size settle_window now store tables (decode of_hex raw) in
        let next = decode-encode to_hex of_hex (turns false Cursor.all start).cursor (
          subst
            (λ b.
              of_hex (to_hex (turns b Cursor.all start).cursor)
              ≡ some (turns b Cursor.all start).cursor)
            blind reads) in
        let shown : (other : SyncTable)
            → shows_costs other ≡ false
            → (turns true Cursor.all start).page other ≡ (turns false Cursor.all start).page other =
          λ other visible. (visible_turns Cursor.all other start start visible (refl, refl)).0 in
        rw (sees, blind)
          (
            ap (map (set_zero "cost_price")) (sym (shown products refl)),
            ap (map (set_zero "cost_amount")) (sym (shown sales refl)),
            ap (map (set_zero "unit_cost")) (sym (shown stock_movements refl)),
            (withheld_turns Cursor.all expenses start refl refl).0,
            (withheld_turns Cursor.all withdrawals start refl refl).0,
            ap (λ c. mark c expenses) next ∙ (withheld_turns Cursor.all expenses start refl refl).1,
            ap (λ c. mark c withdrawals) next
                ∙ (withheld_turns Cursor.all withdrawals start refl refl).1,
          )
