-- ===== src/Stores/Scope/Laws.antt =====
-- A request only reaches a store that its sender has.
use kitaza.Common.{
  ℕ, ◌≡◌, ◌∙◌, Bool, true, none, some, List, [], ◌∷◌, map, ap, subst, sym, arith, ◌==◌,
  Option-cases, Bool-cases, inl, inr,
}
use kitaza.Common.Failure.{ApiResult, ok, ok-cases, bind-ok, ok-injective, ◌>>◌}
use kitaza.Billing.Gate.{check_store_request}
use kitaza.Access.Actor.{Actor}
use kitaza.Auth.Tables.{AccountTables, StoreRecord}
use kitaza.Stores.Scope.{
  ScopeEnv, RequestParts, Memory, Confirmed, is_memoised, owns, assert_owner_of, authorise,
  current_actor, store_scope, actor_for_token, gate_store, takes_entries,
}

-- Every remembered pair is in the table.
abbrev pub IsTruthful : List StoreRecord → Confirmed → Type 0
IsTruthful stores [] = Unit
IsTruthful stores ((owner, store) ∷ rest) =
    (owns owner store stores ≡ true) × IsTruthful stores rest

-- Whether a store is the one that a staff member was added to, or one of the owner's own.
abbrev pub has_store : Actor → ℕ → List StoreRecord → Bool
has_store actor store stores = elim actor.staff [
  | some grant ↦ grant.store_id == store
  | none ↦ owns actor.owner_id store stores
]

is_memoised-owns :
    (owner store : ℕ) (stores : List StoreRecord) (confirmed : Confirmed)
    → IsTruthful stores confirmed
    → is_memoised owner store confirmed ≡ true
    → owns owner store stores ≡ true
is_memoised-owns owner store stores [] v e = absurd cc
is_memoised-owns owner store stores ((o, s) ∷ rest) v e =
    ground (arith, is_memoised-owns owner store stores rest v.1)

authorise-has_store :
    (actor : Actor) (store : ℕ) (stores : List StoreRecord) (confirmed : Confirmed)
    → IsTruthful stores confirmed
    → (authorise actor store stores confirmed).0 ≡ ok tt
    → has_store actor store stores ≡ true
unfolding authorise assert_owner_of
authorise-has_store actor store stores confirmed v e =
    ground (arith, is_memoised-owns actor.owner_id store stores confirmed v)

assert_owner_of-IsTruthful :
    (owner store : ℕ) (stores : List StoreRecord) (confirmed : Confirmed)
    → IsTruthful stores confirmed
    → IsTruthful stores (assert_owner_of owner store stores confirmed).1
unfolding assert_owner_of
assert_owner_of-IsTruthful owner store stores confirmed v =
    elim (Bool-cases (is_memoised owner store confirmed)) [
      | inl e ↦ rw (e, assert_owner_of) v
      | inr e ↦ elim (Bool-cases (owns owner store stores)) [
        | inl f ↦ rw (e, f, assert_owner_of) (f, v)
        | inr f ↦ rw (e, f, assert_owner_of) v
      ]
    ]

authorise-IsTruthful :
    (actor : Actor) (store : ℕ) (stores : List StoreRecord) (confirmed : Confirmed)
    → IsTruthful stores confirmed
    → IsTruthful stores (authorise actor store stores confirmed).1
unfolding authorise
authorise-IsTruthful actor store stores confirmed v = elim (Option-cases actor.staff) [
  | inl e ↦ rw (e, authorise) (assert_owner_of-IsTruthful actor.owner_id store stores confirmed v)
  | inr (grant, e) ↦ elim (Bool-cases (grant.store_id == store)) [
    | inl f ↦ rw (e, f, authorise) v
    | inr f ↦ rw (e, f, authorise) v
  ]
]

module _ (env : ScopeEnv) (grace : ℕ) (enforced : Bool) (now : ℕ) (t : AccountTables)
    (parts : RequestParts) (m : Memory) where
  current_actor-confirmed :
      (current_actor env grace enforced now t parts m).1.confirmed ≡ m.confirmed
  unfolding current_actor actor_for_token
  current_actor-confirmed = ground arith

  -- What is checked once the sender and the store are known.
  abbrev checked : Actor → ℕ → Memory → ApiResult (ℕ × Actor)
  checked a store m' =
      (authorise a store t.stores m'.confirmed).0
      >> (check_store_request grace now enforced env.show (map gate_store t.stores) a store
            (takes_entries env grace enforced now t parts)
          >> ok (store, a))

  checked-passed :
      (a actor : Actor) (s store : ℕ) (m' : Memory)
      → checked a s m' ≡ ok (store, actor)
      → ((authorise a s t.stores m'.confirmed).0 ≡ ok tt) × (a ≡ actor) × (s ≡ store)
  checked-passed a actor s store m' e =
      let (_, passed, f) = bind-ok (authorise a s t.stores m'.confirmed).0 _ (store, actor) e in
      let (_, _, g) =
        bind-ok
          (check_store_request grace now enforced env.show (map gate_store t.stores) a s
            (takes_entries env grace enforced now t parts))
          (λ _. ok (s, a)) (store, actor) f in
      let same = ok-injective (s, a) (store, actor) g in
      (passed, ap (λ p. p.1) same, ap (λ p. p.0) same)

  store_scope-checked :
      (a : Actor) (s : ℕ)
      → (current_actor env grace enforced now t parts m).0 ≡ ok a
      → parts.store_id ≡ some s
      → let m' = (current_actor env grace enforced now t parts m).1 in
        store_scope env grace enforced now t parts m
        ≡ (checked a s m', record m' { confirmed = (authorise a s t.stores m'.confirmed).1 })
  unfolding store_scope
  store_scope-checked a s f g = ground arith

  store_scope-reached :
      (store : ℕ) (actor : Actor)
      → (store_scope env grace enforced now t parts m).0 ≡ ok (store, actor)
      → (a : Actor) × (s : ℕ) × ((current_actor env grace enforced now t parts m).0 ≡ ok a)
        × (parts.store_id ≡ some s)
  unfolding store_scope
  store_scope-reached store actor e =
      elim (ok-cases (current_actor env grace enforced now t parts m).0) [
        | inr (x, f) ↦ absurd (ground arith)
        | inl (a, f) ↦ elim (Option-cases parts.store_id) [
          | inl g ↦ absurd (ground arith)
          | inr (s, g) ↦ (a, s, f, g)
        ]
      ]

  -- A request that is let through to a store comes from staff of that store or from its owner, and
  -- what the directory remembers is true afterwards if it was before.
  pub store_scope_isolates :
      (store : ℕ) (actor : Actor)
      → IsTruthful t.stores m.confirmed
      → (store_scope env grace enforced now t parts m).0 ≡ ok (store, actor)
      → (has_store actor store t.stores ≡ true)
        × IsTruthful t.stores (store_scope env grace enforced now t parts m).1.confirmed
  store_scope_isolates store actor v e =
      let (a, s, f, g) = store_scope-reached store actor e in
      let m' = (current_actor env grace enforced now t parts m).1 in
      let all = store_scope-checked a s f g in
      let (passed, who, which) = checked-passed a actor s store m' (sym (ap (λ r. r.0) all) ∙ e) in
      let v' : IsTruthful t.stores m'.confirmed = rw current_actor-confirmed v in
      (
        subst (λ b. has_store b store t.stores ≡ true) who
            (subst (λ i. has_store a i t.stores ≡ true) which
              (authorise-has_store a s t.stores m'.confirmed v' passed)),
        rw all (authorise-IsTruthful a s t.stores m'.confirmed v'),
      )
