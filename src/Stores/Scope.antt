-- ===== src/Stores/Scope.antt =====
-- `CurrentActor` of backend/src/features/access/current_actor.rs, `StoreDirectory` of
-- backend/src/features/stores/store_directory.rs and `StoreScope` of store_scope.rs. The database's
-- rows are those of Auth/Tables; the token's signature, Rust's functions on strings and the
-- settings of billing are parameters.
pub mod Laws
use kitaza.Common.{
  ℕ, String, Bool, true, false, ◌&&◌, ◌||◌, not, Option, none, some, List, [], ◌∷◌, map, any, ◌==◌,
  if◌then◌else◌, unwrap_or,
}
use kitaza.Common.Failure.{ApiResult, ok, err, ◌>>◌, unauthorized, forbidden, bad_request}
use kitaza.Billing.Gate.{Store, check_store_request}
use kitaza.Access.Actor.{Actor, require_owner}
use kitaza.Access.Sessions.{Remembered, resolve}
use kitaza.Auth.Tables.{AccountTables, StoreRecord}
use kitaza.Auth.Directory.{database}

-- `verify_access_token token now` gives the session that a valid token names.
pub record ScopeEnv : Type 0 where
  pub trim : String → String
  pub strip_prefix : String → String → Option String
  pub contains : String → String → Bool
  pub ends_with : String → String → Bool
  pub verify_access_token : String → ℕ → ApiResult ℕ
  pub show : ℕ → String

-- What a request carries: its header as text, the store id of its path if it is a UUID, the path
-- that was matched, and whether its method is GET or HEAD.
pub record RequestParts : Type 0 where
  pub authorization : Option String
  pub store_id : Option ℕ
  pub matched_path : Option String
  pub is_read : Bool

-- The pairs of an owner and a store that are known to belong together.
abbrev pub Confirmed : Type 0
Confirmed = List (ℕ × ℕ)

-- What an instance remembers between requests.
pub record Memory : Type 0 where
  pub resolved : Remembered
  pub confirmed : Confirmed

-- `is_memoised`
abbrev pub is_memoised : ℕ → ℕ → Confirmed → Bool
is_memoised owner store [] = false
is_memoised owner store ((o, s) ∷ rest) =
    let known = is_memoised owner store rest in if (o == owner) && (s == store) then true else known

-- `SELECT id FROM stores WHERE id = $1 AND owner_id = $2`
abbrev pub owns : ℕ → ℕ → List StoreRecord → Bool
owns owner store = any (λ s. (s.id == store) && (s.owner_id == owner))

-- `assert_owner_of`
unfoldable pub assert_owner_of :
    ℕ → ℕ → List StoreRecord → Confirmed → ApiResult (Unit {0}) × Confirmed
assert_owner_of owner store stores confirmed =
    if is_memoised owner store confirmed
    then (ok tt, confirmed)
    else if owns owner store stores
    then (ok tt, (owner, store) ∷ confirmed)
    else (err (forbidden "this store does not belong to you"), confirmed)

-- `authorise`
unfoldable pub authorise :
    Actor → ℕ → List StoreRecord → Confirmed → ApiResult (Unit {0}) × Confirmed
unfolding assert_owner_of
authorise actor store stores confirmed = elim actor.staff [
  | some grant ↦
      if grant.store_id == store
      then (ok tt, confirmed)
      else (err (forbidden "this store does not belong to you"), confirmed)
  | none ↦ assert_owner_of actor.owner_id store stores confirmed
]

abbrev pub gate_store : StoreRecord → Store
gate_store s = record { id = s.id; owner_id = s.owner_id; created_at = s.created_at }

module _ (env : ScopeEnv) (grace : ℕ) (enforced : Bool) (now : ℕ) (t : AccountTables) where
  -- `actor_for_token`
  unfoldable pub actor_for_token : String → Memory → ApiResult Actor × Memory
  unfolding resolve database
  actor_for_token token m = elim (env.verify_access_token token now) [
    | err e ↦ (err e, m)
    | ok session ↦
        let (actor, resolved) = resolve (database t) session now now m.resolved in
        let m' = record m { resolved = resolved } in
        elim actor [
          | none ↦ (err (unauthorized "this device was signed out"), m')
          | some a ↦ (ok a, m')
        ]
  ]

  -- `CurrentActor::from_request_parts`
  unfoldable pub current_actor : RequestParts → Memory → ApiResult Actor × Memory
  unfolding actor_for_token
  current_actor parts m = elim parts.authorization [
    | none ↦ (err (unauthorized "missing authorization header"), m)
    | some header ↦ elim (env.strip_prefix header "Bearer ") [
      | none ↦ (err (unauthorized "expected a bearer token"), m)
      | some token ↦ actor_for_token (env.trim token) m
    ]
  ]

  -- `CurrentOwner::from_request_parts`
  unfoldable pub current_owner : RequestParts → Memory → ApiResult Actor × Memory
  unfolding current_actor require_owner
  current_owner parts m =
      let (actor, m') = current_actor parts m in
      elim actor [ err e ↦ (err e, m') | ok a ↦ (require_owner a >> ok a, m') ]

  -- `is_account_management`
  abbrev pub is_account_management : String → Bool
  is_account_management route =
      env.contains route "/staff" || env.ends_with route "/stores/{store_id}"

  -- `takes_entries`
  abbrev pub takes_entries : RequestParts → Bool
  takes_entries parts =
      not parts.is_read && not (is_account_management (unwrap_or parts.matched_path ""))

  -- `StoreScope::from_request_parts`
  unfoldable pub store_scope : RequestParts → Memory → ApiResult (ℕ × Actor) × Memory
  unfolding current_actor authorise check_store_request
  store_scope parts m =
      let (actor, m') = current_actor parts m in
      elim actor [
        | err e ↦ (err e, m')
        | ok a ↦ elim parts.store_id [
          | none ↦ (err (bad_request "a valid store id is required"), m')
          | some store ↦
              let (allowed, confirmed) = authorise a store t.stores m'.confirmed in
              (
                allowed
                    >> (check_store_request grace now enforced env.show (map gate_store t.stores) a
                          store (takes_entries parts)
                        >> ok (store, a)),
                record m' { confirmed = confirmed },
              )
        ]
      ]
