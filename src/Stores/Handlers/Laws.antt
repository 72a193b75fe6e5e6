-- ===== src/Stores/Handlers/Laws.antt =====
-- A store that was opened can be used, and a change that is sent twice is told once.
use kitaza.Common.{
  ℕ, String, Bool, true, ◌≡◌, arith, Option, none, some, List, map, [], ◌∷◌, find, ◌==◌,
  update_where, refl, eq_refl, Option-cases, inl, inr,
}
use kitaza.Common.Failure.{ok}
use kitaza.Billing.Gate.{check_new_store, check_store_request}
use kitaza.Billing.Gate.Laws.{new_store_takes_entries}
use kitaza.Access.Actor.{Actor, is_owner}
use kitaza.Auth.Tables.{AccountTables, StoreRecord}
use kitaza.Stores.Scope.{gate_store, authorise, assert_owner_of, Confirmed}
use kitaza.Stores.Handlers.{
  CreateStoreRequest, UpdateStoreRequest, StoreSummary, create_store, update_store, opened, changed,
}

module _ (trim : String → String) (grace now : ℕ) (enforced : Bool) (show : ℕ → String) where
  created_passes_gate :
      (id : ℕ) (request : CreateStoreRequest) (owner : Actor) (t : AccountTables)
      → is_owner owner ≡ true
      → check_new_store grace now enforced show (map gate_store t.stores) owner ≡ ok tt
      → check_store_request grace now enforced show
          (gate_store (opened trim id now request owner.owner_id) ∷ map gate_store t.stores)
          owner
          id
          true
        ≡ ok tt
  created_passes_gate id request owner t o e =
      new_store_takes_entries grace now enforced show (map gate_store t.stores) owner
        (gate_store (opened trim id now request owner.owner_id)) true o refl e

  -- A store that `create_store` answers with is its owner's, and takes entries at once: the scope
  -- of a request to it is authorised, whatever was remembered, and the gate lets a write pass.
  pub created_store_is_open :
      (id : ℕ) (request : CreateStoreRequest) (owner : Actor) (t : AccountTables)
      (summary : StoreSummary) (confirmed : Confirmed)
      → is_owner owner ≡ true
      → (create_store trim grace now enforced show id request owner t).0 ≡ ok summary
      → let stores = (create_store trim grace now enforced show id request owner t).1.stores in
        ((authorise owner summary.id stores confirmed).0 ≡ ok tt)
        × (check_store_request grace now enforced show (map gate_store stores) owner summary.id true
            ≡ ok tt)
  unfolding create_store authorise assert_owner_of is_owner
  created_store_is_open id request owner t summary confirmed o e =
      ground (arith, created_passes_gate id request owner t o)

changed_twice :
    (trim : String → String) (name : Option String) (share : Option Bool) (s : StoreRecord)
    → let request : UpdateStoreRequest = record { name = name; share_benchmarks = share } in
      changed trim request (changed trim request s) ≡ changed trim request s
changed_twice trim none none s = refl
changed_twice trim none (some _) s = refl
changed_twice trim (some _) none s = refl
changed_twice trim (some _) (some _) s = refl

module _ (trim : String → String) (store : ℕ) (request : UpdateStoreRequest) where
  found_changed :
      (stores : List StoreRecord)
      → find (λ s. s.id == store) (update_where (λ s. s.id == store) (changed trim request) stores)
        ≡ elim (find (λ s. s.id == store) stores) [
          | none ↦ none
          | some s ↦ some (changed trim request s)
        ]
  found_changed [] = refl
  found_changed (s ∷ rest) = ground (arith, found_changed rest)

  changed_again :
      (s : StoreRecord) → changed trim request (changed trim request s) ≡ changed trim request s
  changed_again s = changed_twice trim request.name request.share_benchmarks s

  stores_again :
      (stores : List StoreRecord)
      → let written = update_where (λ s. s.id == store) (changed trim request) stores in
        update_where (λ s. s.id == store) (changed trim request) written ≡ written
  stores_again [] = refl
  stores_again (s ∷ rest) = ground (arith, stores_again rest, changed_again s)

  -- A change that is sent again gets the same answer, changes nothing and is not logged again.
  pub update_store_again :
      (actor : Actor) (t : AccountTables) (summary : StoreSummary)
      → (update_store trim store actor request t).0 ≡ ok summary
      → let written = (update_store trim store actor request t).1 in
        update_store trim store actor request written ≡ (ok summary, written, [])
  unfolding update_store
  update_store_again actor t summary e = elim (Option-cases (find (λ s. s.id == store) t.stores)) [
    | inl f ↦ ground arith
    | inr (before, f) ↦ ground (
      arith,
      found_changed t.stores,
      stores_again t.stores,
      changed_again before,
      eq_refl (changed trim request before).name,
    )
  ]
