-- ===== src/Stores/Tests.antt =====
-- A concrete request to a store, and the opening of another.
use kitaza.Common.{◌≡◌, map, refl, true, false, none, some, [], ◌∷◌, ◌==◌, if◌then◌else◌}
use kitaza.Common.Failure.{ok}
use kitaza.Billing.Gate.{check_new_store, store_count, check_store_request}
use kitaza.Billing.Standing.{of}
use kitaza.Access.Actor.{Actor, is_owner}
use kitaza.Access.Sessions.{resolve, actor_in, remembered, into_actor}
use kitaza.Auth.Tables.{AccountTables}
use kitaza.Auth.Directory.{database}
use kitaza.Stores.Scope.{
  ScopeEnv, RequestParts, Memory, store_scope, current_actor, actor_for_token, authorise,
  assert_owner_of, gate_store,
}
use kitaza.Stores.Handlers.{CreateStoreRequest, create_store, to_summary, opened}
use kitaza.Stores.Handlers.Laws.{created_store_is_open}
use kitaza.Stores.Scope.Laws.{IsTruthful, has_store, store_scope_isolates}

abbrev env : ScopeEnv
env = record {
  trim = λ s. s;
  strip_prefix = λ _ _. some "token";
  contains = λ _ _. false;
  ends_with = λ _ _. false;
  verify_access_token = λ _ _. ok 10;
  show = λ _. "";
}

-- Session 10 is the phone of owner 1, who owns store 2.
abbrev tables : AccountTables
tables = record {
  owners = record { id = 1; email = "nena"; password_hash = ""; full_name = "Aling Nena" } ∷ [];
  stores =
      record {
        id = 2;
        owner_id = 1;
        name = "Nena's";
        business_type = "sari_sari";
        currency_code = "PHP";
        share_benchmarks = true;
        created_at = 5;
      }
      ∷ [];
  subscriptions = λ _. none;
  sessions = λ id.
      if id == 10
      then some (record {
        owner_id = 1;
        staff_id = none;
        device_name = "phone";
        created_at = 10;
        last_seen_at = 10;
        revoked_at = none;
      })
      else none;
  tokens = [];
  staff_members = λ _. none;
  invites = [];
}

abbrev owner : Actor
owner = record {
  owner_id = 1;
  session_id = 10;
  name = "Aling Nena";
  device_name = "phone";
  staff = none;
  subscription = none;
}

abbrev parts : RequestParts
parts = record {
  authorization = some "Bearer token";
  store_id = some 2;
  matched_path = some "/stores/{store_id}/sales";
  is_read = false;
}

abbrev memory : Memory
memory = record { resolved = []; confirmed = [] }

passed_lem : (store_scope env 0 false 100 tables parts memory).0 ≡ ok (2, owner)
unfolding store_scope current_actor actor_for_token resolve remembered actor_in database into_actor
    authorise assert_owner_of check_store_request of
passed_lem = refl

store_scope_isolates_example :
    (has_store owner 2 tables.stores ≡ true)
    × IsTruthful tables.stores (store_scope env 0 false 100 tables parts memory).1.confirmed
store_scope_isolates_example =
    store_scope_isolates env 0 false 100 tables parts memory 2 owner tt passed_lem

abbrev request : CreateStoreRequest
request = record { name = "Carinderia"; business_type = some "carinderia" }

abbrev unpaid : AccountTables
unpaid = record tables { stores = [] }

opened_lem :
    (create_store (λ s. s) 0 100 false (λ _. "") 3 request owner unpaid).0
    ≡ ok (to_summary (opened (λ s. s) 3 100 request 1))
unfolding create_store check_new_store of store_count
opened_lem = refl

created_store_is_open_example :
    let stores = (create_store (λ s. s) 0 100 false (λ _. "") 3 request owner unpaid).1.stores in
    ((authorise owner 3 stores []).0 ≡ ok tt)
    × (check_store_request 0 100 false (λ _. "") (map gate_store stores) owner 3 true ≡ ok tt)
unfolding is_owner
created_store_is_open_example =
    created_store_is_open (λ s. s) 0 100 false (λ _. "") 3 request owner unpaid
      (to_summary (opened (λ s. s) 3 100 request 1)) [] refl opened_lem
