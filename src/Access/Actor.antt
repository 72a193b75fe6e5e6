-- ===== src/Access/Actor.antt =====
-- backend/src/features/access/actor.rs: who is making a request.
use kitaza.Common.{
  ℕ, String, ◌≡◌, Bool, true, false, Option, none, some, arith, ◌==◌, if◌then◌else◌, not, is_some,
  ◌↔◌, ◌≢◌,
}
use kitaza.Common.Failure.{ApiResult, ok, err, forbidden}
use kitaza.Billing.Plan.{SubscriptionRecord}
use kitaza.Access.Permission.{Permission, manage_products, Permissions, refusal, allows, full}

pub record StaffGrant : Type 0 where
  pub staff_id : ℕ
  pub store_id : ℕ
  pub permissions : Permissions

pub record Actor : Type 0 where
  pub owner_id : ℕ
  pub session_id : ℕ
  pub name : String
  pub device_name : String
  pub staff : Option StaffGrant
  pub subscription : Option SubscriptionRecord

unfoldable pub is_owner : Actor → Bool
is_owner actor = not (is_some actor.staff)

unfoldable pub staff_id : Actor → Option ℕ
staff_id actor = elim actor.staff [ none ↦ none | some grant ↦ some grant.staff_id ]

unfoldable pub permissions : Actor → Permissions
permissions actor = elim actor.staff [ none ↦ full | some grant ↦ grant.permissions ]

unfoldable pub can : Actor → Permission → Bool
unfolding permissions allows
can actor p = allows (permissions actor) p

unfoldable pub require : Actor → Permission → ApiResult (Unit {0})
unfolding can refusal
require actor p = if can actor p then ok tt else err (forbidden (refusal p))

unfoldable pub require_owner : Actor → ApiResult (Unit {0})
unfolding is_owner
require_owner actor = if is_owner actor then ok tt else err (forbidden "only the owner can do this")

-- The derived `PartialEq` of `Option<Uuid>`.
abbrev pub eqb_id : Option ℕ → Option ℕ → Bool
eqb_id none none = true
eqb_id (some a) (some b) = a == b
eqb_id _ _ = false

unfoldable pub may_amend : Actor → Option ℕ → Bool
unfolding staff_id
may_amend actor recorded_by = elim (staff_id actor) [
  | none ↦ true
  | some staff ↦ eqb_id recorded_by (some staff)
]

-- The owner passes every check.
pub owner_passes :
    (actor : Actor) (p : Permission) (recorded_by : Option ℕ)
    → actor.staff ≡ none
    → (require actor p ≡ ok tt)
      × (require_owner actor ≡ ok tt)
      × (may_amend actor recorded_by ≡ true)
unfolding require require_owner may_amend
owner_passes actor manage_products recorded_by h = ground arith
owner_passes actor _ recorded_by h = ground arith

-- Staff pass the check of a permission exactly if their grant has it, never pass the owner's, and
-- may amend exactly the records that they recorded themselves.
pub staff_are_limited :
    (actor : Actor) (grant : StaffGrant) (p : Permission) (recorded_by : Option ℕ)
    → actor.staff ≡ some grant
    → ((require actor p ≡ ok tt) ↔ (allows grant.permissions p ≡ true))
      × (require_owner actor ≢ ok tt)
      × ((may_amend actor recorded_by ≡ true) ↔ (recorded_by ≡ some grant.staff_id))
unfolding require require_owner may_amend
staff_are_limited actor grant manage_products recorded_by h = ground arith
staff_are_limited actor grant _ recorded_by h = ground arith
