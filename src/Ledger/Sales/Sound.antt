-- ===== src/Ledger/Sales/Sound.antt =====
-- The recording of a sale leaves what its voiding and its replay rely on.
use kitaza.Common.{
  ℕ, String, ◌≡◌, refl, some, List, [], ◌∷◌, ◌==◌, select, Bool-cases, Option-cases, inl, inr,
  arith, length, ◌≤◌, ==_self, ◌∙◌, ap,
}
use kitaza.Common.Int.{ℤ, pos, ◌+ℤ◌, int_laws, parts_of_eq}
use kitaza.Ledger.Tables.{Tables}
use kitaza.Ledger.Sales.{
  Line, Prepared, is_line_of, is_movement_of, sale_note, insert_line, insert_lines,
}
use kitaza.Common.Sort.{All}
use kitaza.Common.Sort.{All}
use kitaza.Ledger.Sales.{Recorder, open_sale}
use kitaza.Ledger.Sales.Effects.{insert_line-cases, sum_where, quantities, Owned, InStore}
use kitaza.Ledger.Sales.Lines.{Takes, taken_by, named_by, insert_lines-Takes, insert_lines-Owned}
use kitaza.Ledger.Sales.TakeBack.{IsSound}
use kitaza.Ledger.Sales.Balance.{select-delete_lines}

-- The loop over the lines leaves the sales alone.
module _ (uuid_text : ℕ → String) (new_id : ℕ → ℕ) (s : Prepared) (now : ℕ) where
  insert_line-sales :
      (l : Line) (t t' : Tables) (sale : ℕ)
      → insert_line uuid_text new_id s now l t ≡ some t'
      → t'.sales sale ≡ t.sales sale
  insert_line-sales l t t' sale h = elim (insert_line-cases uuid_text new_id s now l t t' h) [
    | inl (quick, e) ↦ rw e refl
    | inr (p, named, e) ↦ rw e refl
  ]

  pub insert_lines-sales :
      (ls : List Line) (t t' : Tables) (sale : ℕ)
      → insert_lines uuid_text new_id s now ls t ≡ some t'
      → t'.sales sale ≡ t.sales sale
  unfolding insert_lines
  insert_lines-sales [] t t' sale h = let same : t ≡ t' = cc in rw (← same) refl
  insert_lines-sales (l ∷ ls) t t' sale h =
      elim (Option-cases (insert_line uuid_text new_id s now l t)) [
        | inl refused ↦ absurd (ground arith)
        | inr (u, went) ↦
            insert_lines-sales ls u t' sale (ground arith) ∙ insert_line-sales l t u sale went
      ]

-- A product that a line names is one of the store's.
names-Owned :
    (t : Tables) (store q : ℕ) (ls : List Line)
    → 1 ≤ named_by q ls
    → All (InStore t store) ls
    → Owned t store (some q)
names-Owned t store q [] h own = absurd (omega arith)
names-Owned t store q (l ∷ ls) h own =
    let from_rest = names-Owned t store q ls in
    elim (Option-cases l.product_id) [
      | inl none_named ↦ from_rest (ground arith) own.1
      | inr (p, named) ↦ elim (Bool-cases (p == q)) [
        | inl same ↦ let same' : l.product_id ≡ some q = ground arith in rw same' at (own.0)
        | inr other ↦ from_rest (ground arith) own.1
      ]
    ]

-- The lines of a sale name no product twice.
abbrev pub Distinct : List Line → Type 0
Distinct ls = (q : ℕ) → named_by q ls ≤ 1

-- Nothing waits to be taken back.
abbrev pub IsClear : (ℕ → String) → Tables → ℕ → ℕ → Type 0
IsClear uuid_text t sale store =
    (q : ℕ) → sum_where (is_movement_of store (sale_note uuid_text sale)) q t.movements ≡ pos 0

tied_after :
    (m m' k k' d : ℤ) → m' +ℤ d ≡ m → m ≡ pos 0 → k' ≡ k +ℤ d → k ≡ pos 0 → m' +ℤ k' ≡ pos 0
tied_after m m' k k' d a b c e =
    omega (int_laws, parts_of_eq _ _ a, parts_of_eq _ _ b, parts_of_eq _ _ c, parts_of_eq _ _ e)

module _ (numeric : ℤ → ℤ) (uuid_text : ℕ → String) (new_id : ℕ → ℕ) (s : Prepared) (by : Recorder)
    (now : ℕ) (u t' : Tables)
    (went : insert_lines uuid_text new_id s now s.lines (open_sale numeric s by now u) ≡ some t')
    (own : All (InStore u s.store_id) s.lines) where
  pub lines-Takes :
      (q : ℕ)
      → Takes uuid_text s q
          (open_sale numeric s by now u)
          t'
          (taken_by q s.lines)
          (named_by q s.lines)
  lines-Takes q =
      insert_lines-Takes uuid_text new_id s now s.lines (open_sale numeric s by now u) t' q own went

  lines-length : (q : ℕ) → length (select (is_line_of s.id q) t'.items) ≡ named_by q s.lines
  lines-length q =
      let takes = lines-Takes q in
      omega (arith, takes.lines, ap length (select-delete_lines s.id q u.items))

  -- Lines that name no product twice, written where nothing waits to be taken back, can be taken
  -- back whole.
  pub lines-IsSound :
      IsClear uuid_text u s.id s.store_id → Distinct s.lines → IsSound uuid_text t' s.id s.store_id
  lines-IsSound clear distinct = record {
    single = λ q. rw (lines-length q) (distinct q);
    owned = λ q i is e.
        insert_lines-Owned uuid_text new_id s now s.lines (open_sale numeric s by now u) t'
          s.store_id (some q) went
          (names-Owned u s.store_id q s.lines (omega (arith, lines-length q, ap length e)) own);
    tied = λ q.
        let takes = lines-Takes q in
        tied_after _ _ _ _ (taken_by q s.lines) takes.mine (clear q) takes.kept
          (unfold quantities in rw (select-delete_lines s.id q u.items) refl);
    recorded = λ q missing. absurd (
        ground (
          arith,
          ==_self s.id,
          insert_lines-sales uuid_text new_id s now s.lines (open_sale numeric s by now u) t' s.id
              went,
        ));
  }
