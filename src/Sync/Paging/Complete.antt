-- ===== src/Sync/Paging/Complete.antt =====
-- A device that keeps pulling gets every row.
use kitaza.Common.{
  ℕ, zero, suc, ◌≡◌, ◌≢◌, refl, Bool, true, false, some, List, [], ◌∷◌, take, drop, select, arith,
  Bool-cases, inl, inr,
}
use kitaza.Common.Sort.{sort, insert, All, All-insert, All-sort, All-mono, All-select, TotalOrder}
use kitaza.Sync.Paging.{Row, mark_of, is_after, le, last_of}

module _ {V : Type 0} where
  pub le-TotalOrder : TotalOrder (le {V = V})
  le-TotalOrder = record { total = λ r s e. ground arith; trans = λ r s u e f. ground arith }

  -- Each row comes before every later one.
  abbrev pub IsAscending : List (Row V) → Type 0
  IsAscending [] = Unit
  IsAscending (r ∷ rs) = All (λ s. is_after (mark_of r) s ≡ true) rs × IsAscending rs

  -- No two rows have the same id: it is the primary key.
  abbrev pub HasKeys : List (Row V) → Type 0
  HasKeys [] = Unit
  HasKeys (r ∷ rs) = All (λ s. r.id ≢ s.id) rs × HasKeys rs

  insert-IsAscending :
      (r : Row V) (rs : List (Row V))
      → All (λ s. r.id ≢ s.id) rs
      → IsAscending rs
      → IsAscending (insert le r rs)
  unfolding insert
  insert-IsAscending r [] d a = (tt, tt)
  insert-IsAscending r (s ∷ rs) d a = elim (Bool-cases (le r s)) [
    | inl e ↦
        let first : is_after (mark_of r) s ≡ true = ground (arith, d.0) in
        rw e ((first, All-mono _ _ rs (λ u later. ground arith) a.0), a)
    | inr e ↦ rw e (
      All-insert le (λ u. is_after (mark_of s) u ≡ true) r rs (ground arith) a.0,
      insert-IsAscending r rs d.1 a.1,
    )
  ]

  pub sort-IsAscending : (rs : List (Row V)) → HasKeys rs → IsAscending (sort le rs)
  unfolding sort
  sort-IsAscending [] h = tt
  sort-IsAscending (r ∷ rs) h =
      insert-IsAscending r (sort le rs) (All-sort le _ rs h.0) (sort-IsAscending rs h.1)

  pub select-IsAscending :
      (p : Row V → Bool) (rs : List (Row V)) → IsAscending rs → IsAscending (select p rs)
  select-IsAscending p [] a = tt
  select-IsAscending p (r ∷ rs) a = elim (Bool-cases (p r)) [
    | inl e ↦ rw e (All-select _ p rs a.0, select-IsAscending p rs a.1)
    | inr e ↦ rw e (select-IsAscending p rs a.1)
  ]

  select-All : (p : Row V → Bool) (rs : List (Row V)) → All (λ r. p r ≡ true) rs → select p rs ≡ rs
  select-All p [] h = refl
  select-All p (r ∷ rs) h = rw (h.0, select-All p rs h.1) refl

  pub All-last_of :
      (P : Row V → Type 0) (n : ℕ) (rs : List (Row V)) (last : Row V)
      → All P rs
      → last_of (take n rs) ≡ some last
      → P last
  All-last_of P zero rs last h e = absurd cc
  All-last_of P (suc n) [] last h e = absurd cc
  All-last_of P (suc zero) (r ∷ rs) last h e = ground (arith, h.0)
  All-last_of P (suc (suc n)) (r ∷ []) last h e = ground (arith, h.0)
  All-last_of P (suc (suc n)) (r ∷ s ∷ rs) last h e = All-last_of P (suc n) (s ∷ rs) last h.1 e

  -- What comes after the last row of a page is what the page left out.
  pub select-is_after :
      (n : ℕ) (rs : List (Row V)) (last : Row V)
      → IsAscending rs
      → last_of (take n rs) ≡ some last
      → select (is_after (mark_of last)) rs ≡ drop n rs
  select-is_after zero rs last a e = absurd cc
  select-is_after (suc n) [] last a e = refl
  select-is_after (suc zero) (r ∷ rs) last a e =
      ground (arith, select-All (is_after (mark_of r)) rs a.0)
  select-is_after (suc (suc n)) (r ∷ []) last a e = ground arith
  select-is_after (suc (suc n)) (r ∷ s ∷ rs) last a e =
      let earlier : is_after (mark_of r) last ≡ true =
        All-last_of (λ u. is_after (mark_of r) u ≡ true) (suc n) (s ∷ rs) last a.0 e in
      let behind : is_after (mark_of last) r ≡ false = ground arith in
      rw behind (select-is_after (suc n) (s ∷ rs) last a.1 e)
