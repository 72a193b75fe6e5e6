-- ===== src/Billing/Payments/Confirming.antt =====
-- A confirmation takes effect once, and only for the owner who paid.
use kitaza.Common.{
  ℕ, ◌≡◌, ◌≢◌, refl, Option, none, some, List, [], ◌∷◌, arith, String, Option-cases, inl, inr,
}
use kitaza.Billing.Payments.{
  Payment, Tables, Confirmed, refers, awaits, mark_paid, update_where, first_where, settle, bought,
  confirm,
}

-- After the two updates of a confirmation no row is left waiting on its reference.
first_where-update_where :
    (t u : Tables) (reference : String) (method : Option String) (now through : ℕ)
    (ps : List Payment)
    → u.owners ≡ t.owners
    → first_where (awaits u reference) (
        update_where
          (refers reference)
          (λ q. record q { paid_through = some through })
          (update_where (awaits t reference) (mark_paid method now) ps))
      ≡ none
first_where-update_where t u reference method now through [] e = refl
first_where-update_where t u reference method now through (p ∷ ps) e =
    ground (arith, first_where-update_where t u reference method now through ps e)

module _ (add_months : ℕ → ℕ → Option ℕ) where
  confirm-unknown :
      (reference : String) (method : Option String) (now : ℕ) (t : Tables)
      → first_where (awaits t reference) t.payments ≡ none
      → confirm add_months reference method now t ≡ (none, t)
  unfolding confirm
  confirm-unknown reference method now t e = ground arith

  confirm-settle :
      (reference : String) (method : Option String) (now : ℕ) (t : Tables) (p : Payment)
      → first_where (awaits t reference) t.payments ≡ some p
      → confirm add_months reference method now t ≡ settle add_months reference method now t p
  unfolding confirm
  confirm-settle reference method now t p e = rw (e, confirm)

  -- Told of the same payment again, with any method and at any time, `confirm` reports nothing and
  -- changes nothing.
  pub confirm_twice :
      (reference : String) (method method' : Option String) (now now' : ℕ) (t : Tables)
      → let after = (confirm add_months reference method now t).1 in
        confirm add_months reference method' now' after ≡ (none, after)
  confirm_twice reference method method' now now' t =
      elim (Option-cases (first_where (awaits t reference) t.payments)) [
        | inl e ↦
            rw (confirm-unknown reference method now t e)
              (confirm-unknown reference method' now' t e)
        | inr (p, e) ↦ rw (confirm-settle reference method now t p e) (
            confirm-unknown reference method' now' (settle add_months reference method now t p).1 (
              first_where-update_where t (settle add_months reference method now t p).1 reference
                method now (bought add_months t p now) t.payments refl))
      ]

  -- A confirmation never touches the subscription of anyone but the owner who paid.
  pub confirm_leaves :
      (reference : String) (method : Option String) (now : ℕ) (t : Tables) (c : Confirmed) (o : ℕ)
      → (confirm add_months reference method now t).0 ≡ some c
      → o ≢ c.owner_id
      → (confirm add_months reference method now t).1.subscriptions o ≡ t.subscriptions o
  unfolding confirm
  confirm_leaves reference method now t c o e ne = ground arith
