-- ===== src/Ledger/Sales/Undo.antt =====
-- A sale that is voided gives back what it took, and a sale that is sent again counts once.
use kitaza.Common.{
  ℕ, String, ◌≡◌, refl, true, false, Option, none, some, List, arith, ◌==◌, Bool-cases, inl, inr,
  ==_self, sym, ◌∙◌, ap,
}
use kitaza.Common.Int.{ℤ, pos, ◌+ℤ◌, ◌-ℤ◌, int_laws, parts_of_eq, +ℤ_comm}
use kitaza.Access.Actor.{eqb_id}
use kitaza.Ledger.Tables.{Item, Tables, stock_of, live_sum, unexplained}
use kitaza.Ledger.Sales.{Prepared, insert_lines}
use kitaza.Common.Sort.{All, All-mono}
use kitaza.Common.Failure.{ApiResult, ok}
use kitaza.Common.Sort.{All, All-mono}
use kitaza.Ledger.Tables.{Sale}
use kitaza.Ledger.Sales.{
  Recorder, Recorded, voided, put_sale, take_back, void, open_sale, write_sale, record_sale,
  record_over, sale_row,
}
use kitaza.Ledger.Sales.Effects.{quantities, line_sum, InStore}
use kitaza.Ledger.Sales.Lines.{taken_by, insert_lines-Owned}
use kitaza.Ledger.Sales.TakeBack.{IsSound, PicksOne, live_sum-take_back, Owned-take_back}
use kitaza.Ledger.Sales.Balance.{unexplained-record_sale, unexplained-void}
use kitaza.Ledger.Sales.Sound.{IsClear, Distinct, insert_lines-sales, lines-Takes, lines-IsSound}

-- Two tables that explain the same stock with ledgers of the same sum hold the same stock.
same_difference_stock : (b b' c c' : ℤ) → b' -ℤ c' ≡ b -ℤ c → c' ≡ c → b' ≡ b
same_difference_stock b b' c c' h k = omega (int_laws, parts_of_eq _ _ h, parts_of_eq _ _ k)

same_stock :
    (t u : Tables) (q : ℕ)
    → unexplained u q ≡ unexplained t q
    → live_sum q u.movements ≡ live_sum q t.movements
    → stock_of u q ≡ stock_of t q
unfolding unexplained
same_stock t u q = same_difference_stock _ _ _ _

-- `x + m = y`, `y + d = z` and `m + d = 0` give `x = z`.
given_back : (x y z m d n : ℤ) → x +ℤ m ≡ y → y +ℤ d ≡ z → m +ℤ d ≡ n → n ≡ pos 0 → x ≡ z
given_back x y z m d n a b c e =
    omega (int_laws, parts_of_eq _ _ a, parts_of_eq _ _ b, parts_of_eq _ _ c, parts_of_eq _ _ e)

clear_of_sum : (m k : ℤ) → m +ℤ k ≡ pos 0 → k ≡ pos 0 → m ≡ pos 0
clear_of_sum m k a b = omega (int_laws, parts_of_eq _ _ a, parts_of_eq _ _ b)

eqb_id_self : (o : Option ℕ) → eqb_id o o ≡ true
eqb_id_self none = refl
eqb_id_self (some a) = ==_self a

-- A sale that the tables do not hold has nothing to take back.
IsSound-IsClear :
    (uuid_text : ℕ → String) (t : Tables) (sale store : ℕ)
    → IsSound uuid_text t sale store
    → t.sales sale ≡ none
    → IsClear uuid_text t sale store
IsSound-IsClear uuid_text t sale store sound missing q =
    clear_of_sum _ (line_sum sale q t.items) (sound.tied q)
      (unfold quantities in rw (sound.recorded q missing) refl)

-- A live sale that its recorder sends again is taken back and written.
record_sale-known :
    (numeric : ℤ → ℤ) (uuid_text : ℕ → String) (new_id : ℕ → ℕ) (pick : Item → List Item → Item)
    (s : Prepared) (by : Recorder) (now : ℕ) (t : Tables) (existing : Sale)
    → t.sales s.id ≡ some existing
    → (existing.store_id == s.store_id) ≡ true
    → existing.deleted_at ≡ none
    → eqb_id existing.recorded_by_staff_id by.staff_id ≡ true
    → record_sale numeric uuid_text new_id pick s by now t
      ≡ write_sale numeric uuid_text new_id s by now t
          (take_back uuid_text pick s.id s.store_id now t)
unfolding record_sale
record_sale-known numeric uuid_text new_id pick s by now t existing found own live same =
    ap (λ o. record_over numeric uuid_text new_id pick o s by now t) found
    ∙ rw (own, live, same) (elim (Bool-cases by.is_owner) [ inl e ↦ rw e refl | inr e ↦ rw e refl ])

module _ (numeric : ℤ → ℤ) (uuid_text : ℕ → String) (new_id : ℕ → ℕ)
    (pick : Item → List Item → Item) (one : PicksOne pick) (s : Prepared) (by : Recorder) (now : ℕ)
    (t t' : Tables) (r : Recorded) (own : All (InStore t s.store_id) s.lines)
    (sound : IsSound uuid_text t s.id s.store_id) (distinct : Distinct s.lines)
    (unseen : t.sales s.id ≡ none)
    (went : record_sale numeric uuid_text new_id pick s by now t ≡ (ok r, t')) where
  first_lines : insert_lines uuid_text new_id s now s.lines (open_sale numeric s by now t) ≡ some t'
  unfolding record_sale write_sale
  first_lines = ground arith

  pub first-IsSound : IsSound uuid_text t' s.id s.store_id
  first-IsSound =
      lines-IsSound numeric uuid_text new_id s by now t t' first_lines own
        (IsSound-IsClear uuid_text t s.id s.store_id sound unseen) distinct

  first-sale : t'.sales s.id ≡ some (sale_row numeric s by now none)
  first-sale =
      insert_lines-sales uuid_text new_id s now s.lines (open_sale numeric s by now t) t' s.id
        first_lines
      ∙ rw (==_self s.id, unseen) refl

  first-unexplained : (q : ℕ) → unexplained t' q ≡ unexplained t q
  first-unexplained q =
      ap (λ (u : ApiResult Recorded × Tables). unexplained u.1 q) (sym went)
      ∙ unexplained-record_sale numeric uuid_text new_id pick one s by now t q own sound

  -- Its voiding takes the sale back.
  void-first :
      (later : ℕ)
      → void uuid_text pick s.store_id s.id later t' ≡ (
        some (voided later (sale_row numeric s by now none)),
        take_back uuid_text pick s.id s.store_id later
            (put_sale s.id (voided later (sale_row numeric s by now none)) t'),
      )
  unfolding void
  void-first later = rw (first-sale, void) (rw (==_self s.store_id) refl)

  live_sum-void :
      (later q : ℕ)
      → live_sum q (void uuid_text pick s.store_id s.id later t').1.movements
        ≡ live_sum q t.movements
  live_sum-void later q =
      let takes = lines-Takes numeric uuid_text new_id s by now t t' first_lines own q in
      rw (void-first later) (
        given_back _ _ _ _ (taken_by q s.lines) _
          (live_sum-take_back pick one uuid_text s.id s.store_id later
            (put_sale s.id (voided later (sale_row numeric s by now none)) t') q)
          takes.live takes.mine (IsSound-IsClear uuid_text t s.id s.store_id sound unseen q))

  -- A sale that has been recorded for the first time, of products of the store, with no product on
  -- two lines, can be voided at any later time: that gives the sale back, and leaves every product
  -- with the stock that it had before the sale. Before it, there were no lines of the sale, and the
  -- live movements of the store that had its note came to nothing for each product.
  pub void_undoes :
      (later q : ℕ)
      → let (voided_sale, after) = void uuid_text pick s.store_id s.id later t' in
        (voided_sale ≡ some (voided later (sale_row numeric s by now none)))
        × (stock_of after q ≡ stock_of t q)
  void_undoes later q = (
    ap (λ (u : Option Sale × Tables). u.0) (void-first later),
    same_stock t (void uuid_text pick s.store_id s.id later t').1 q
        (unexplained-void uuid_text pick one s.store_id s.id later t' q first-IsSound
          ∙ first-unexplained q)
        (live_sum-void later q),
  )

  -- Sent again by the same recorder, the sale is written over what was taken back.
  record_sale-again :
      (new_id' : ℕ → ℕ) (later : ℕ)
      → record_sale numeric uuid_text new_id' pick s by later t'
        ≡ write_sale numeric uuid_text new_id' s by later t'
            (take_back uuid_text pick s.id s.store_id later t')
  unfolding record_sale
  record_sale-again new_id' later =
      record_sale-known numeric uuid_text new_id' pick s by later t'
        (sale_row numeric s by now none) first-sale (==_self s.store_id) refl
        (eqb_id_self by.staff_id)

  module _ (new_id' : ℕ → ℕ) (later : ℕ) (r' : Recorded) (t'' : Tables)
      (went' : record_sale numeric uuid_text new_id' pick s by later t' ≡ (ok r', t'')) where
    back : Tables
    back = take_back uuid_text pick s.id s.store_id later t'

    second_lines :
        insert_lines uuid_text new_id' s later s.lines (open_sale numeric s by later back)
        ≡ some t''
    unfolding write_sale back
    second_lines = ground (arith, record_sale-again new_id' later)

    own_first : All (InStore t' s.store_id) s.lines
    own_first =
        All-mono (InStore t s.store_id) (InStore t' s.store_id) s.lines
          (λ l.
            insert_lines-Owned uuid_text new_id s now s.lines (open_sale numeric s by now t) t'
              s.store_id l.product_id first_lines)
          own

    own_back : All (InStore back s.store_id) s.lines
    unfolding back
    own_back =
        All-mono (InStore t' s.store_id) (InStore back s.store_id) s.lines
          (λ l. Owned-take_back pick one uuid_text s.id s.store_id later t' l.product_id) own_first

    live_sum-again : (q : ℕ) → live_sum q t''.movements ≡ live_sum q t'.movements
    unfolding back
    live_sum-again q =
        let takes = lines-Takes numeric uuid_text new_id s by now t t' first_lines own q in
        let retaken =
          lines-Takes numeric uuid_text new_id' s by later back t'' second_lines own_back q in
        given_back _ _ _ (taken_by q s.lines) _ _ retaken.live
          (live_sum-take_back pick one uuid_text s.id s.store_id later t' q)
          (+ℤ_comm (taken_by q s.lines) _ ∙ takes.mine)
          (IsSound-IsClear uuid_text t s.id s.store_id sound unseen q)

    -- A sale of products of the store, with no product on two lines, that a device sends again, and
    -- that is recorded again, leaves every product with the stock that the first recording left,
    -- and is not new. Before the first recording, there were no lines of the sale, and the live
    -- movements of the store that had its note came to nothing for each product.
    pub record_sale_again : (q : ℕ) → (stock_of t'' q ≡ stock_of t' q) × (r'.created ≡ false)
    record_sale_again q = (
      same_stock t' t'' q
          (ap (λ (u : ApiResult Recorded × Tables). unexplained u.1 q) (sym went')
            ∙ unexplained-record_sale numeric uuid_text new_id' pick one s by later t' q own_first
                first-IsSound)
          (live_sum-again q),
      unfold write_sale in ground (arith, record_sale-again new_id' later, first-sale),
    )
