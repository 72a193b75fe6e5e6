-- ===== src/Ledger/Sales/Balance.antt =====
-- Sales leave the ledger in balance: every change of a product's stock has its row.
use kitaza.Common.{
  ℕ, String, ◌≡◌, refl, ◌&&◌, some, List, [], ◌∷◌, ◌==◌, select, Bool-cases, Option-cases, inl, inr,
  arith, is_some, not, ==_self, ◌∙◌, ◌⊎◌,
}
use kitaza.Common.Int.{ℤ, ◌+ℤ◌, ◌-ℤ◌, int_laws, parts_of_eq}
use kitaza.Ledger.Tables.{Item, Tables, unexplained}
use kitaza.Ledger.Sales.{Prepared, is_line_of, insert_lines, delete_lines}
use kitaza.Common.Sort.{All, All-mono}
use kitaza.Common.Sort.{All, All-mono}
use kitaza.Ledger.Tables.{Sale}
use kitaza.Ledger.Sales.{
  Recorder, voided, put_sale, take_back, void, open_sale, write_sale, record_sale, admits_new_sale,
}
use kitaza.Ledger.Sales.Effects.{InStore}
use kitaza.Ledger.Sales.Lines.{insert_lines-Takes}
use kitaza.Ledger.Sales.TakeBack.{IsSound, PicksOne, unexplained-take_back, Owned-take_back}

pub select-delete_lines :
    (sale q : ℕ) (is : List Item) → select (is_line_of sale q) (delete_lines sale is) ≡ []
unfolding delete_lines
select-delete_lines sale q [] = refl
select-delete_lines sale q (i ∷ is) = ground (arith, select-delete_lines sale q is)

-- What is taken from the stock and from the ledger alike is explained.
explained : (b b' c c' d : ℤ) → b' +ℤ d ≡ b → c' +ℤ d ≡ c → b' -ℤ c' ≡ b -ℤ c
explained b b' c c' d h k = omega (int_laws, parts_of_eq _ _ h, parts_of_eq _ _ k)

module _ (numeric : ℤ → ℤ) (uuid_text : ℕ → String) (new_id : ℕ → ℕ) where
  -- Either a line is refused and the tables stand as they did, or every line goes in.
  write_sale-cases :
      (s : Prepared) (by : Recorder) (now : ℕ) (t u : Tables)
      → ((write_sale numeric uuid_text new_id s by now t u).1 ≡ t)
        ⊎ ((t' : Tables) × (insert_lines uuid_text new_id s now s.lines
                (open_sale numeric s by now u)
              ≡ some t')
            × ((write_sale numeric uuid_text new_id s by now t u).1 ≡ t'))
  unfolding write_sale
  write_sale-cases s by now t u = elim (Bool-cases (admits_new_sale numeric s by now u)) [
    | inr refused ↦ inl (rw (refused, write_sale) refl)
    | inl admitted ↦
        elim (Option-cases
          (insert_lines uuid_text new_id s now s.lines (open_sale numeric s by now u))) [
            | inl refused ↦ inl (ground arith)
            | inr (t', went) ↦ inr (t', went, ground arith)
          ]
  ]

  unexplained-write_sale :
      (s : Prepared) (by : Recorder) (now : ℕ) (t u : Tables) (q : ℕ)
      → unexplained u q ≡ unexplained t q
      → All (InStore u s.store_id) s.lines
      → unexplained (write_sale numeric uuid_text new_id s by now t u).1 q ≡ unexplained t q
  unfolding unexplained
  unexplained-write_sale s by now t u q same own = elim (write_sale-cases s by now t u) [
    | inl e ↦ rw e refl
    | inr (t', went, e) ↦
        let takes =
          insert_lines-Takes uuid_text new_id s now s.lines (open_sale numeric s by now u) t' q own
            went in
        rw e (explained _ _ _ _ _ takes.stock takes.live ∙ same)
  ]

pub IsSound-put_sale :
    (uuid_text : ℕ → String) (sale store : ℕ) (row : Sale) (t : Tables)
    → IsSound uuid_text t sale store
    → IsSound uuid_text (put_sale sale row t) sale store
IsSound-put_sale uuid_text sale store row t sound = record {
  single = sound.single;
  owned = sound.owned;
  tied = sound.tied;
  recorded = λ q missing. absurd (ground (arith, ==_self sale));
}

-- Either there is nothing to void, or the sale's row is marked and its effects are taken back.
pub void-cases :
    (uuid_text : ℕ → String) (pick : Item → List Item → Item) (store sale now : ℕ) (t : Tables)
    → ((void uuid_text pick store sale now t).1 ≡ t)
      ⊎ ((row : Sale) × (t.sales sale ≡ some row)
          × ((void uuid_text pick store sale now t).1
              ≡ take_back uuid_text pick sale store now (put_sale sale (voided now row) t)))
unfolding void
void-cases uuid_text pick store sale now t = elim (Option-cases (t.sales sale)) [
  | inl missing ↦ inl (ground arith)
  | inr (row, found) ↦ elim (Bool-cases (row.store_id == store && not (is_some row.deleted_at))) [
    | inl live ↦ inr (row, found, rw (found, void) (rw (live, void) refl))
    | inr done ↦ inl (rw (found, void) (rw (done, void) refl))
  ]
]

module _ (numeric : ℤ → ℤ) (uuid_text : ℕ → String) (new_id : ℕ → ℕ)
    (pick : Item → List Item → Item) (one : PicksOne pick) where
  -- Recording a sale of products of the store, for the first time or again, leaves no product with
  -- more or less stock than its ledger explains, and so does every refusal. It is assumed that what
  -- an earlier recording left is whole: its lines hold each product once at most, each of the
  -- store; the live movements of the store that have the sale's note are, in sum and for each
  -- product, what those lines took; and a sale that is not there has no lines.
  pub unexplained-record_sale :
      (s : Prepared) (by : Recorder) (now : ℕ) (t : Tables) (q : ℕ)
      → All (InStore t s.store_id) s.lines
      → IsSound uuid_text t s.id s.store_id
      → unexplained (record_sale numeric uuid_text new_id pick s by now t).1 q ≡ unexplained t q
  unfolding record_sale
  unexplained-record_sale s by now t q own sound =
      let back = take_back uuid_text pick s.id s.store_id now t in
      ground (
        arith,
        unexplained-write_sale numeric uuid_text new_id s by now t t q refl own,
        unexplained-write_sale numeric uuid_text new_id s by now t back q
            (unexplained-take_back pick one uuid_text s.id s.store_id now t sound q)
            (All-mono (InStore t s.store_id) (InStore back s.store_id) s.lines
              (λ l. Owned-take_back pick one uuid_text s.id s.store_id now t l.product_id) own),
      )

-- Voiding a sale leaves no product with more or less stock than its ledger explains, where the
-- sale's lines hold each product once at most, each of the store, the live movements of the store
-- that have the sale's note are, in sum and for each product, what those lines took, and a sale
-- that is not there has no lines.
pub unexplained-void :
    (uuid_text : ℕ → String) (pick : Item → List Item → Item) (one : PicksOne pick)
    (store sale now : ℕ) (t : Tables) (q : ℕ)
    → IsSound uuid_text t sale store
    → unexplained (void uuid_text pick store sale now t).1 q ≡ unexplained t q
unexplained-void uuid_text pick one store sale now t q sound =
    elim (void-cases uuid_text pick store sale now t) [
      | inl e ↦ rw e refl
      | inr (row, found, e) ↦
          let u = put_sale sale (voided now row) t in
          rw e (
            unexplained-take_back pick one uuid_text sale store now u
              (IsSound-put_sale uuid_text sale store (voided now row) t sound) q
            ∙ unfold unexplained in refl)
    ]
