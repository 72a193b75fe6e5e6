-- ===== src/Common/Sort.antt =====
-- Rust's stable `sort_by_key` and SQL's `ORDER BY`, as an insertion sort by a Boolean order.
use Prim.Native.Nat.{suc}
use mathlib.Core.Path.{◌≡◌, refl, ap, ◌∙◌}
use mathlib.Core.Bool.{Bool, true, false}
use mathlib.Core.List.{List, [], ◌∷◌, Perm}
use mathlib.Core.List.Perm
use native.Mathlib.Omega.{arith}
use mathlib.Core.Logic.{inl, inr}
use kitaza.Common.Tests.{if◌then◌else◌, Bool-cases}
use kitaza.Common.Lists.{select, length}

-- A predicate that holds of each element.
abbrev pub All {ℓ κ} : {A : Type ℓ} → (A → Type κ) → List A → Type κ
All P [] = Unit
All P (x ∷ xs) = P x × All P xs

pub All-mono {ℓ κ} :
    {A : Type ℓ} (P Q : A → Type κ) (xs : List A) → ((x : A) → P x → Q x) → All P xs → All Q xs
All-mono P Q [] f h = tt
All-mono P Q (x ∷ xs) f h = (f x h.0, All-mono P Q xs f h.1)

-- A total order as a test.
pub record TotalOrder {ℓ} {A : Type ℓ} (le : A → A → Bool) : Type ℓ where
  pub total : (x y : A) → le x y ≡ false → le y x ≡ true
  pub trans : (x y z : A) → le x y ≡ true → le y z ≡ true → le x z ≡ true

module _ {ℓ} {A : Type ℓ} (le : A → A → Bool) where
  unfoldable pub insert : A → List A → List A
  insert x [] = x ∷ []
  insert x (y ∷ ys) = let rest = insert x ys in if le x y then x ∷ y ∷ ys else y ∷ rest

  unfoldable pub sort : List A → List A
  unfolding insert
  sort [] = []
  sort (x ∷ xs) = insert x (sort xs)

  -- Each element is at most every later one.
  abbrev pub IsSorted : List A → Type 0
  IsSorted [] = Unit
  IsSorted (x ∷ xs) = All (λ y. le x y ≡ true) xs × IsSorted xs

  pub insert-perm : (x : A) (ys : List A) → Perm (insert x ys) (x ∷ ys)
  unfolding insert
  insert-perm x [] = Perm.refl (x ∷ [])
  insert-perm x (y ∷ ys) = elim (Bool-cases (le x y)) [
    | inl e ↦ rw e (Perm.refl (x ∷ y ∷ ys))
    | inr e ↦ rw e (Perm.trans (Perm.cons y (insert-perm x ys)) (Perm.swap x y ys))
  ]

  pub sort-perm : (xs : List A) → Perm (sort xs) xs
  unfolding sort
  sort-perm [] = Perm.refl []
  sort-perm (x ∷ xs) = Perm.trans (insert-perm x (sort xs)) (Perm.cons x (sort-perm xs))

  pub All-insert {κ} : (P : A → Type κ) (x : A) (ys : List A) → P x → All P ys → All P (insert x ys)
  unfolding insert
  All-insert P x [] p h = (p, tt)
  All-insert P x (y ∷ ys) p h = elim (Bool-cases (le x y)) [
    | inl e ↦ rw e (p, h)
    | inr e ↦ rw e (h.0, All-insert P x ys p h.1)
  ]

  length-insert : (x : A) (ys : List A) → length (insert x ys) ≡ suc (length ys)
  unfolding insert
  length-insert x [] = refl
  length-insert x (y ∷ ys) = ground (arith, length-insert x ys)

  pub length-sort : (xs : List A) → length (sort xs) ≡ length xs
  unfolding sort
  length-sort [] = refl
  length-sort (x ∷ xs) = length-insert x (sort xs) ∙ ap suc (length-sort xs)

  pub All-sort {κ} : (P : A → Type κ) (xs : List A) → All P xs → All P (sort xs)
  unfolding sort
  All-sort P [] h = tt
  All-sort P (x ∷ xs) h = All-insert P x (sort xs) h.0 (All-sort P xs h.1)

  module _ (order : TotalOrder le) where
    insert-IsSorted : (x : A) (ys : List A) → IsSorted ys → IsSorted (insert x ys)
    unfolding insert
    insert-IsSorted x [] s = (tt, tt)
    insert-IsSorted x (y ∷ ys) s = elim (Bool-cases (le x y)) [
      | inl e ↦ rw e ((e, All-mono _ _ ys (λ z below. order.trans x y z e below) s.0), s)
      | inr e ↦
          rw e
            (All-insert (λ z. le y z ≡ true) x ys (order.total x y e) s.0, insert-IsSorted x ys s.1)
    ]

    pub sort-IsSorted : (xs : List A) → IsSorted (sort xs)
    unfolding sort
    sort-IsSorted [] = tt
    sort-IsSorted (x ∷ xs) = insert-IsSorted x (sort xs) (sort-IsSorted xs)

  -- Elements that a test picks out, and that the order does not tell apart, keep their order.
  module _ (p : A → Bool) (same : (x y : A) → p x ≡ true → p y ≡ true → le x y ≡ true) where
    select-insert : (x : A) (ys : List A) → select p (insert x ys) ≡ select p (x ∷ ys)
    unfolding insert
    select-insert x [] = refl
    select-insert x (y ∷ ys) = ground (arith, select-insert x ys, same x y)

    pub select-sort : (xs : List A) → select p (sort xs) ≡ select p xs
    unfolding sort
    select-sort [] = refl
    select-sort (x ∷ xs) = rw select-insert (ground (arith, select-sort xs))

pub All-select {ℓ κ} :
    {A : Type ℓ} (P : A → Type κ) (p : A → Bool) (xs : List A) → All P xs → All P (select p xs)
All-select P p [] h = tt
All-select P p (x ∷ xs) h = elim (Bool-cases (p x)) [
  | inl e ↦ rw e (h.0, All-select P p xs h.1)
  | inr e ↦ rw e (All-select P p xs h.1)
]

module _ {ℓ} {A : Type ℓ} (le : A → A → Bool) where
  insert-first : (x : A) (ys : List A) → All (λ y. le x y ≡ true) ys → insert le x ys ≡ x ∷ ys
  unfolding insert
  insert-first x [] h = refl
  insert-first x (y ∷ ys) h = rw h.0 refl

  module _ (order : TotalOrder le) (p : A → Bool) where
    insert-select :
        (x : A) (ys : List A)
        → IsSorted le ys
        → select p (insert le x ys) ≡ (if p x then insert le x (select p ys) else select p ys)
    unfolding insert
    insert-select x [] s = ground arith
    insert-select x (y ∷ ys) s = ground (
      arith,
      insert-select x ys s.1,
      λ (below : le x y ≡ true).
          insert-first x (select p ys)
            (All-select _ p ys (All-mono _ _ ys (λ z above. order.trans x y z below above) s.0)),
    )

    -- Sorting what a test picks out, or picking it out of what is sorted, gives the same list.
    pub sort-select : (xs : List A) → sort le (select p xs) ≡ select p (sort le xs)
    unfolding sort
    sort-select [] = refl
    sort-select (x ∷ xs) =
        ground (arith, sort-select xs, insert-select x (sort le xs) (sort-IsSorted le order xs))
