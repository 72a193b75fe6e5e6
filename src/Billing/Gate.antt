-- ===== src/Billing/Gate.antt =====
-- The gates of backend/src/features/billing/billing_service.rs: may this account do that right
-- now. `grace` and `enforced` are the settings, `show` writes a number in decimal, and the rows of
-- `stores` are a list in any order.
pub mod Laws
use kitaza.Common.{
  ℕ, ◌+◌, Bool, true, false, ◌&&◌, ◌||◌, not, Option, none, some, List, [], ◌∷◌, String, take,
  length, select, ltb, leb, ◌==◌, if◌then◌else◌,
}
use Prim.Native.String.{◌++◌}
use kitaza.Common.Failure.{ApiResult, ok, err, subscription_required, upgrade_required}
use kitaza.Common.Sort.{sort}
use kitaza.Billing.Plan.{SubscriptionRecord}
use kitaza.Billing.Standing.{Standing, of, can_upload, allows_staff, store_limit}
use kitaza.Access.Actor.{Actor, is_owner}

pub record Store : Type 0 where
  pub id : ℕ
  pub owner_id : ℕ
  pub created_at : ℕ

-- `ORDER BY created_at, id`
abbrev pub older : Store → Store → Bool
older s t = ltb s.created_at t.created_at || (s.created_at == t.created_at && leb s.id t.id)

abbrev pub stores_of : ℕ → List Store → List Store
stores_of owner = select (λ s. s.owner_id == owner)

-- `BillingRepository::store_count`
unfoldable pub store_count : List Store → ℕ → ℕ
store_count stores owner = length (stores_of owner stores)

-- `$2 IN (SELECT id …)`
unfoldable pub has_store : ℕ → List Store → Bool
has_store store [] = false
has_store store (s ∷ ss) = s.id == store || has_store store ss

-- `BillingRepository::is_within_first`
unfoldable pub is_within_first : List Store → ℕ → ℕ → ℕ → Bool
unfolding has_store
is_within_first stores owner store limit =
    has_store store (take limit (sort older (stores_of owner stores)))

-- `paused`
abbrev pub paused {ℓ} : {A : Type ℓ} → ApiResult A
paused =
    err (
      subscription_required
        "this account is paused until it is paid; nothing on the phones is lost")

-- `BillingService::standing`
abbrev pub standing : ℕ → ℕ → Bool → Option SubscriptionRecord → Standing
standing grace now enforced subscription = of subscription now grace enforced

module _ (grace now : ℕ) (enforced : Bool) (show : ℕ → String) where
  -- `BillingService::check_new_store`
  unfoldable pub check_new_store : List Store → Actor → ApiResult (Unit {0})
  unfolding can_upload store_limit store_count
  check_new_store stores owner =
      if not (can_upload (standing grace now enforced owner.subscription))
      then paused
      else elim (store_limit (standing grace now enforced owner.subscription)) [
        | none ↦ ok tt
        | some limit ↦
            if leb limit (store_count stores owner.owner_id)
            then err (
                upgrade_required (
                  ("your plan includes " ++ show limit)
                  ++ (if limit == 1 then " store" else " stores")))
            else ok tt
      ]

  -- `BillingService::check_staff`
  unfoldable pub check_staff : Option SubscriptionRecord → ApiResult (Unit {0})
  unfolding can_upload allows_staff
  check_staff subscription =
      if allows_staff (standing grace now enforced subscription)
      then ok tt
      else if can_upload (standing grace now enforced subscription)
      then err (upgrade_required "staff accounts come with Kitaza Pro")
      else paused

  -- `BillingService::check_store_request`
  unfoldable pub check_store_request : List Store → Actor → ℕ → Bool → ApiResult (Unit {0})
  unfolding can_upload allows_staff store_limit is_within_first is_owner
  check_store_request stores actor store is_write =
      if not (is_owner actor) && not (allows_staff (standing grace now enforced actor.subscription))
      then (if can_upload (standing grace now enforced actor.subscription)
          then err (upgrade_required "the store's plan no longer includes staff")
          else paused)
      else if not is_write
      then ok tt
      else if not (can_upload (standing grace now enforced actor.subscription))
      then paused
      else elim (store_limit (standing grace now enforced actor.subscription)) [
        | none ↦ ok tt
        | some limit ↦
            if not (is_within_first stores actor.owner_id store limit)
            then err (
                upgrade_required (
                  ("your plan takes new entries in " ++ show limit)
                  ++ (if limit == 1 then " store" else " stores")))
            else ok tt
      ]
