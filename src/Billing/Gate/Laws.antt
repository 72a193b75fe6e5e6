-- ===== src/Billing/Gate/Laws.antt =====
-- What the billing gates let through.
use kitaza.Common.{
  ℕ, zero, suc, ◌≤◌, ◌<◌, ◌≡◌, refl, Bool, true, false, ◌||◌, some, List, [], ◌∷◌, String, take,
  length, ◌==◌, arith, Option-cases, inl, inr, ◌↔◌, ap, ◌∙◌,
}
use kitaza.Common.Failure.{ok}
use kitaza.Common.Sort.{length-sort, sort, insert}
use kitaza.Billing.Standing.{allows_staff, store_limit}
use kitaza.Billing.Gate.{
  Store, older, stores_of, store_count, has_store, is_within_first, standing, check_new_store,
  check_store_request,
}
use kitaza.Access.Actor.{Actor, is_owner}

has_store-insert :
    (id : ℕ) (s : Store) (ss : List Store)
    → has_store id (insert older s ss) ≡ (s.id == id || has_store id ss)
unfolding insert has_store
has_store-insert id s [] = refl
has_store-insert id s (t ∷ ss) = ground (arith, has_store-insert id s ss)

has_store-sort : (id : ℕ) (ss : List Store) → has_store id (sort older ss) ≡ has_store id ss
unfolding sort has_store
has_store-sort id [] = refl
has_store-sort id (s ∷ ss) =
    has_store-insert id s (sort older ss) ∙ ap (λ b. s.id == id || b) (has_store-sort id ss)

take_short : (n : ℕ) (ss : List Store) → length ss ≤ n → take n ss ≡ ss
take_short zero [] h = refl
take_short zero (s ∷ ss) h = absurd (omega (arith, h))
take_short (suc n) [] h = refl
take_short (suc n) (s ∷ ss) h = ap (λ rest. s ∷ rest) (take_short n ss (omega (arith, h)))

has_store-take :
    (id n m : ℕ) (ss : List Store)
    → n ≤ m
    → has_store id (take n ss) ≡ true
    → has_store id (take m ss) ≡ true
unfolding has_store
has_store-take id zero m ss h e = absurd cc
has_store-take id (suc n) zero ss h e = absurd (omega (arith, h))
has_store-take id (suc n) (suc m) [] h e = absurd cc
has_store-take id (suc n) (suc m) (s ∷ ss) h e = ground (arith, has_store-take id n m ss)

-- A larger limit never shuts a store out: the stores that take entries under a limit take them
-- under every larger one.
pub is_within_first_mono :
    (stores : List Store) (owner store limit larger : ℕ)
    → limit ≤ larger
    → is_within_first stores owner store limit ≡ true
    → is_within_first stores owner store larger ≡ true
unfolding is_within_first
is_within_first_mono stores owner store limit larger h e =
    has_store-take store limit larger (sort older (stores_of owner stores)) h e

-- Where the limit is not exceeded, every store of the owner is within it.
is_within_first_full :
    (stores : List Store) (owner store limit : ℕ)
    → store_count stores owner ≤ limit
    → is_within_first stores owner store limit ≡ has_store store (stores_of owner stores)
unfolding is_within_first store_count
is_within_first_full stores owner store limit h =
    ap (has_store store) (
      take_short limit (sort older (stores_of owner stores))
        (omega (arith, length-sort older (stores_of owner stores))))
    ∙ has_store-sort store (stores_of owner stores)

store_count-open :
    (store : Store) (stores : List Store) (owner : ℕ)
    → store.owner_id ≡ owner
    → store_count (store ∷ stores) owner ≡ suc (store_count stores owner)
unfolding store_count
store_count-open store stores owner own = ground arith

has_store-open :
    (store : Store) (stores : List Store) (owner : ℕ)
    → store.owner_id ≡ owner
    → has_store store.id (stores_of owner (store ∷ stores)) ≡ true
unfolding has_store
has_store-open store stores owner own = ground arith

module _ (grace now : ℕ) (enforced : Bool) (show : ℕ → String) where
  check_new_store-limit :
      (stores : List Store) (owner : Actor) (limit : ℕ)
      → check_new_store grace now enforced show stores owner ≡ ok tt
      → store_limit (standing grace now enforced owner.subscription) ≡ some limit
      → store_count stores owner.owner_id < limit
  unfolding check_new_store
  check_new_store-limit stores owner limit e f = ground arith

  -- Where the owner may open one more store, the store takes entries as soon as it is opened.
  pub new_store_takes_entries :
      (stores : List Store) (owner : Actor) (store : Store) (is_write : Bool)
      → is_owner owner ≡ true
      → store.owner_id ≡ owner.owner_id
      → check_new_store grace now enforced show stores owner ≡ ok tt
      → check_store_request grace now enforced show (store ∷ stores) owner store.id is_write ≡ ok tt
  unfolding check_store_request check_new_store store_count has_store
  new_store_takes_entries stores owner store is_write o own e =
      elim (Option-cases (store_limit (standing grace now enforced owner.subscription))) [
        | inl free ↦ ground arith
        | inr (limit, f) ↦
            let room = check_new_store-limit stores owner limit e f in
            let count = store_count-open store stores owner.owner_id own in
            let here : is_within_first (store ∷ stores) owner.owner_id store.id limit ≡ true =
              is_within_first_full (store ∷ stores) owner.owner_id store.id limit
                (omega (arith, room, count))
              ∙ has_store-open store stores owner.owner_id own in
            ground arith
      ]

  -- Of the requests that a store-scoped route receives from staff, none passes while the plan of
  -- the account has no staff; from the owner, every read passes, whatever the standing.
  pub check_store_request_reads :
      (stores : List Store) (actor : Actor) (store : ℕ)
      → (check_store_request grace now enforced show stores actor store false ≡ ok tt)
        ↔ ((is_owner actor || allows_staff (standing grace now enforced actor.subscription)) ≡ true)
  unfolding check_store_request
  check_store_request_reads stores actor store = ground arith
