-- ===== src/Stores/Handlers.antt =====
-- The handlers of backend/src/features/stores/store_handlers.rs, past the checks of the request's
-- form (`ValidatedJson`) and the extractors, whose results they take. The id of a new row and the
-- clock are parameters.
pub mod Laws
use text.Mathlib.Text.{◌==◌ as str_eq}
use kitaza.Common.{
  ℕ, String, Bool, true, Option, none, some, List, [], ◌∷◌, map, any, find, update_where, ◌==◌,
  if◌then◌else◌, unwrap_or,
}
use kitaza.Common.Failure.{ApiResult, ok, err, internal, not_found}
use kitaza.Billing.Gate.{check_new_store}
use kitaza.Access.Actor.{Actor, require_owner}
use kitaza.Auth.Tables.{AccountTables, StoreRecord}
use kitaza.Services.Request.{Effect, audit, AuditAction}
use kitaza.Stores.Scope.{gate_store}

pub record StoreSummary : Type 0 where
  pub id : ℕ
  pub name : String
  pub business_type : String
  pub currency_code : String
  pub share_benchmarks : Bool

pub record CreateStoreRequest : Type 0 where
  pub name : String
  pub business_type : Option String

pub record UpdateStoreRequest : Type 0 where
  pub name : Option String
  pub share_benchmarks : Option Bool

-- `DEFAULT_BUSINESS_TYPE`
abbrev pub default_business_type : String
default_business_type = "sari_sari"

-- `to_summary`
abbrev pub to_summary : StoreRecord → StoreSummary
to_summary store = record {
  id = store.id;
  name = store.name;
  business_type = store.business_type;
  currency_code = store.currency_code;
  share_benchmarks = store.share_benchmarks;
}

-- `INSERT INTO stores … RETURNING …`, with the columns' defaults.
abbrev pub opened : (String → String) → ℕ → ℕ → CreateStoreRequest → ℕ → StoreRecord
opened trim id now request owner = record {
  id = id;
  owner_id = owner;
  name = trim request.name;
  business_type = unwrap_or request.business_type default_business_type;
  currency_code = "PHP";
  share_benchmarks = true;
  created_at = now;
}

-- `UPDATE stores s SET …`
abbrev pub changed : (String → String) → UpdateStoreRequest → StoreRecord → StoreRecord
changed trim request store = record store {
  name = elim request.name [ none ↦ store.name | some name ↦ trim name ];
  share_benchmarks = unwrap_or request.share_benchmarks store.share_benchmarks;
}

module _ (trim : String → String) where
  -- `create_store`
  unfoldable pub create_store :
      ℕ
      → ℕ
      → Bool
      → (ℕ → String)
      → ℕ
      → CreateStoreRequest
      → Actor
      → AccountTables
      → ApiResult StoreSummary × AccountTables × List Effect
  unfolding check_new_store
  create_store grace now enforced show id request owner t =
      elim (check_new_store grace now enforced show (map gate_store t.stores) owner) [
        | err e ↦ (err e, t, [])
        | ok _ ↦
            let store = opened trim id now request owner.owner_id in
            if any (λ s. s.id == id) t.stores
            then (err (internal "the store violates a key"), t, [])
            else (
              ok (to_summary store),
              record t { stores = store ∷ t.stores },
              audit AuditAction.store_added id ∷ [],
            )
      ]

  -- `update_store`
  unfoldable pub update_store :
      ℕ
      → Actor
      → UpdateStoreRequest
      → AccountTables
      → ApiResult StoreSummary × AccountTables × List Effect
  unfolding require_owner
  update_store store actor request t = elim (require_owner actor) [
    | err e ↦ (err e, t, [])
    | ok _ ↦
        let t' = record t {
          stores = update_where (λ s. s.id == store) (changed trim request) t.stores;
        } in
        elim (find (λ s. s.id == store) t.stores) [
          | none ↦ (err (not_found "store"), t', [])
          | some before ↦
              let after = changed trim request before in
              (
                ok (to_summary after),
                t',
                if str_eq before.name after.name
                    then []
                    else audit AuditAction.store_renamed store ∷ [],
              )
        ]
  ]
