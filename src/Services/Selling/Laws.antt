-- ===== src/Services/Selling/Laws.antt =====
-- What a sale that is sent in comes to, in money and in stock.
use kitaza.Common.{
  ℕ, suc, ◌≡◌, ◌≢◌, refl, sym, subst, ap, ◌∙◌, String, Bool, false, some, List, [], ◌∷◌, map,
  unwrap_or, arith, Option-cases, inl, inr,
}
use kitaza.Common.Int.{ℤ, pos, ◌+ℤ◌, ◌*ℤ◌, ◌≤ℤ◌, +ℤ-zero, +ℤ_assoc, zero-+ℤ, cancel}
use kitaza.Common.Failure.{ok, bind-ok, ok-injective, ok-cases}
use kitaza.Common.Sort.{All}
use kitaza.Access.Permission.{view_profit, delete_records}
use kitaza.Access.Actor.{Actor, can, require, staff_id, is_owner}
use kitaza.Ledger.Tables.{Tables, Product, Item, unexplained}
use kitaza.Ledger.Movements.{find_product}
use kitaza.Ledger.Sales.{Line, Prepared, Recorder, record_sale}
use kitaza.Ledger.Sales.Effects.{InStore, Owned}
use kitaza.Ledger.Sales.TakeBack.{IsSound, PicksOne}
use kitaza.Ledger.Sales.Balance.{unexplained-record_sale}
use kitaza.Services.Request.{Env, money_zero}
use kitaza.Services.Selling.{
  SaleLineRequest, RecordSaleRequest, Tally, catalogue, seen_items, normalise_payment_method,
  resolve_line, resolve_lines, hide_cost, prepare, record_request, void_request,
}

-- What the lines come to.
unfoldable pub line_totals : List Line → ℤ
line_totals [] = pos 0
line_totals (l ∷ ls) = l.line_total +ℤ line_totals ls

-- What the lines cost the owner.
unfoldable pub line_costs : List Line → ℤ
line_costs [] = pos 0
line_costs (l ∷ ls) = (l.unit_cost *ℤ l.quantity) +ℤ line_costs ls

find_product-Owned :
    (store p : ℕ) (t : Tables) (row : Product)
    → find_product t store p ≡ some row
    → Owned t store (some p)
unfolding find_product
find_product-Owned store p t row e = elim (Option-cases (t.products p)) [
  | inl missing ↦ absurd (ground arith)
  | inr (found, known) ↦ (found, known, ground arith)
]

module _ {F : Type 0} (env : Env F) where
  catalogue-Owned :
      (store p : ℕ) (t : Tables) (item : SaleLineRequest F) (found : String × ℤ × ℤ)
      → item.product_id ≡ some p
      → catalogue env store t item ≡ ok found
      → Owned t store (some p)
  catalogue-Owned store p t item found product known =
      elim (Option-cases (find_product t store p)) [
        | inl missing ↦ absurd (ground arith)
        | inr (row, e) ↦ find_product-Owned store p t row e
      ]

  resolve_line-InStore :
      (store n : ℕ) (t : Tables) (item : SaleLineRequest F) (l : Line)
      → resolve_line env store t n item ≡ ok l
      → InStore t store l
  unfolding resolve_line find_product
  resolve_line-InStore store n t item l e =
      let (found, known, built) = bind-ok (catalogue env store t item) _ l e in
      let line = ok-injective _ l built in
      subst (λ x. InStore t store x) line
        (elim (Option-cases item.product_id) [
          | inl quick ↦ rw quick tt
          | inr (p, product) ↦ rw product (catalogue-Owned store p t item found product known)
        ])

  resolve_lines-InStore :
      (store n : ℕ) (t : Tables) (items : List (SaleLineRequest F)) (gross cost : ℤ) (tally : Tally)
      → resolve_lines env store t n items gross cost ≡ ok tally
      → All (InStore t store) tally.lines
  unfolding resolve_lines
  resolve_lines-InStore store n t [] gross cost tally e =
      subst (λ x. All (InStore t store) x.lines) (ok-injective _ tally e) tt
  resolve_lines-InStore store n t (item ∷ items) gross cost tally e =
      let (line, first, e') = bind-ok (resolve_line env store t n item) _ tally e in
      let (rest, others, built) =
        bind-ok
          (resolve_lines env store t (suc n) items (gross +ℤ line.line_total)
            (cost +ℤ (line.unit_cost *ℤ line.quantity)))
          _ tally e' in
      subst (λ x. All (InStore t store) x.lines) (ok-injective _ tally built)
        (
          resolve_line-InStore store n t item line first,
          resolve_lines-InStore store (suc n) t items _ _ rest others,
        )

  resolve_lines-totals :
      (store n : ℕ) (t : Tables) (items : List (SaleLineRequest F)) (gross cost : ℤ) (tally : Tally)
      → resolve_lines env store t n items gross cost ≡ ok tally
      → (tally.gross ≡ gross +ℤ line_totals tally.lines)
        × (tally.cost ≡ cost +ℤ line_costs tally.lines)
  unfolding resolve_lines line_totals line_costs
  resolve_lines-totals store n t [] gross cost tally e =
      subst (λ x. (x.gross ≡ gross +ℤ line_totals x.lines) × (x.cost ≡ cost +ℤ line_costs x.lines))
        (ok-injective _ tally e) (sym (+ℤ-zero gross), sym (+ℤ-zero cost))
  resolve_lines-totals store n t (item ∷ items) gross cost tally e =
      let (line, first, e') = bind-ok (resolve_line env store t n item) _ tally e in
      let (rest, others, built) =
        bind-ok
          (resolve_lines env store t (suc n) items (gross +ℤ line.line_total)
            (cost +ℤ (line.unit_cost *ℤ line.quantity)))
          _ tally e' in
      let (gross_rest, cost_rest) = resolve_lines-totals store (suc n) t items _ _ rest others in
      subst (λ x. (x.gross ≡ gross +ℤ line_totals x.lines) × (x.cost ≡ cost +ℤ line_costs x.lines))
        (ok-injective _ tally built) (gross_rest ∙ +ℤ_assoc _ _ _, cost_rest ∙ +ℤ_assoc _ _ _)

  -- The total and the discount of a prepared sale are what its lines come to, the discount is
  -- never more than that, and the recorded cost is what the lines cost.
  pub prepare-totals :
      (store now : ℕ) (actor : Actor) (t : Tables) (request : RecordSaleRequest F) (s : Prepared)
      → prepare env store actor now t request ≡ ok s
      → (s.total_amount +ℤ s.discount_amount ≡ line_totals s.lines)
        × (s.discount_amount ≤ℤ line_totals s.lines)
        × (s.cost_amount ≡ line_costs s.lines)
  unfolding prepare
  prepare-totals store now actor t request s e =
      let (method, known, e') =
        bind-ok (normalise_payment_method env request.payment_method) _ s e in
      let (tally, resolved, built) =
        bind-ok
          (resolve_lines env store t 1 (seen_items env actor request.items) money_zero money_zero) _
          s e' in
      let (gross, cost) =
        resolve_lines-totals store 1 t (seen_items env actor request.items) money_zero money_zero
          tally resolved in
      let total : tally.gross ≡ line_totals tally.lines = gross ∙ zero-+ℤ _ in
      subst
        (λ x.
          (x.total_amount +ℤ x.discount_amount ≡ line_totals x.lines)
          × (x.discount_amount ≤ℤ line_totals x.lines)
          × (x.cost_amount ≡ line_costs x.lines))
        (ok-injective _ s built)
        (rw (← total) (cancel _ _), rw (← total) (ground arith), cost ∙ zero-+ℤ _)

  prepare-InStore :
      (store now : ℕ) (actor : Actor) (t : Tables) (request : RecordSaleRequest F) (s : Prepared)
      → prepare env store actor now t request ≡ ok s
      → All (InStore t s.store_id) s.lines
        × (s.id ≡ unwrap_or request.id (env.new_v4 0))
        × (s.store_id ≡ store)
  unfolding prepare
  prepare-InStore store now actor t request s e =
      let (method, known, e') =
        bind-ok (normalise_payment_method env request.payment_method) _ s e in
      let (tally, resolved, built) =
        bind-ok
          (resolve_lines env store t 1 (seen_items env actor request.items) money_zero money_zero) _
          s e' in
      subst
        (λ x.
          All (InStore t x.store_id) x.lines
          × (x.id ≡ unwrap_or request.id (env.new_v4 0))
          × (x.store_id ≡ store))
        (ok-injective _ s built)
        (
          resolve_lines-InStore store 1 t (seen_items env actor request.items) money_zero money_zero
              tally resolved,
          refl,
          refl,
        )

  module _ (numeric : ℤ → ℤ) (uuid_text : ℕ → String) (new_id : ℕ → ℕ)
      (pick : Item → List Item → Item) (one : PicksOne pick)
      (is_low_stock : Tables → ℕ → Bool) where
    record_request-ok :
        (store now : ℕ) (actor : Actor) (t : Tables) (request : RecordSaleRequest F) (s : Prepared)
        → prepare env store actor now t request ≡ ok s
        → (record_request env numeric uuid_text new_id pick is_low_stock store actor now t
            request).1
          ≡ (record_sale numeric uuid_text new_id pick s
              (record { staff_id = staff_id actor; is_owner = is_owner actor })
              now
              t).1
    unfolding record_request
    record_request-ok store now actor t request s prepared =
        let by : Recorder = record { staff_id = staff_id actor; is_owner = is_owner actor } in
        rw (prepared, record_request)
          (elim (ok-cases (record_sale numeric uuid_text new_id pick s by now t).0) [
            | inl (recorded, e) ↦ rw e refl
            | inr (why, e) ↦ rw e refl
          ])

    -- Whatever request comes in and whoever sends it, no product of any store is left with more or
    -- less stock than its ledger explains, where an earlier recording of that sale is whole: its
    -- lines hold each product once at most, each of the store; the live movements of the store that
    -- have the sale's note are, in sum and for each product, what those lines took; and a sale that
    -- is not there has no lines.
    pub unexplained-record_request :
        (store now : ℕ) (actor : Actor) (t : Tables) (request : RecordSaleRequest F) (q : ℕ)
        → IsSound uuid_text t (unwrap_or request.id (env.new_v4 0)) store
        → unexplained
            (record_request env numeric uuid_text new_id pick is_low_stock store actor now t
              request).1
            q
          ≡ unexplained t q
    unfolding record_request
    unexplained-record_request store now actor t request q sound =
        elim (ok-cases (prepare env store actor now t request)) [
          | inr (e, refused) ↦ rw (refused, record_request) refl
          | inl (s, prepared) ↦
              let (own, id, at) = prepare-InStore store now actor t request s prepared in
              let by : Recorder = record { staff_id = staff_id actor; is_owner = is_owner actor } in
              rw (record_request-ok store now actor t request s prepared) (
                unexplained-record_sale numeric uuid_text new_id pick one s by now t q own
                  (rw (id, at) sound))
        ]

  hide_cost_twice :
      (items : List (SaleLineRequest F))
      → map (hide_cost env) (map (hide_cost env) items) ≡ map (hide_cost env) items
  hide_cost_twice [] = refl
  hide_cost_twice (item ∷ items) = ap (λ rest. hide_cost env item ∷ rest) (hide_cost_twice items)

  -- From staff who may not see costs, a sale is prepared as if it had been sent without any.
  pub prepare-hide_cost :
      (store now : ℕ) (actor : Actor) (t : Tables) (request : RecordSaleRequest F)
      → can actor view_profit ≡ false
      → prepare env store actor now t request
        ≡ prepare env store actor now t
            (record request { items = map (hide_cost env) request.items })
  unfolding prepare
  prepare-hide_cost store now actor t request e =
      rw (e, prepare) (rw (hide_cost_twice request.items) refl)

  -- Voiding needs the permission: without it nothing changes and nothing is announced. With it, a
  -- sale that is not there or is voided already is reported missing, with nothing announced.
  pub void_request-refused :
      (uuid_text : ℕ → String) (pick : Item → List Item → Item) (store sale now : ℕ) (actor : Actor)
      (t : Tables)
      → can actor delete_records ≡ false
      → (void_request env uuid_text pick store actor sale now t).1 ≡ t
        × ((void_request env uuid_text pick store actor sale now t).2 ≡ [])
        × ((void_request env uuid_text pick store actor sale now t).0 ≢ ok tt)
  unfolding void_request require
  void_request-refused uuid_text pick store sale now actor t e = ground arith
