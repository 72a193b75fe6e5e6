-- ===== src/Access/Permission.antt =====
-- backend/src/features/access/permission.rs: what an owner can let a staff member do.
use kitaza.Common.{String, ◌≡◌, refl, Bool, true, false, ◌||◌, List, [], ◌∷◌, arith, select}

pub data Permission : Type 0 where
  manage_products record_expenses view_profit delete_records : Permission

-- `Permission::ALL`
abbrev pub all : List Permission
all = manage_products ∷ record_expenses ∷ view_profit ∷ delete_records ∷ []

unfoldable pub refusal : Permission → String
refusal manage_products = "only the owner can change products and stock"
refusal record_expenses = "only the owner can record expenses"
refusal view_profit = "only the owner can see profit and costs"
refusal delete_records = "only the owner can void or delete records"

pub record Permissions : Type 0 where
  pub manage_products : Bool
  pub record_expenses : Bool
  pub view_profit : Bool
  pub delete_records : Bool

-- `Permissions::ALL`
abbrev pub full : Permissions
full = record {
  manage_products = true;
  record_expenses = true;
  view_profit = true;
  delete_records = true;
}

-- `Permissions::default`
abbrev pub default : Permissions
default = record {
  manage_products = false;
  record_expenses = false;
  view_profit = false;
  delete_records = false;
}

unfoldable pub allows : Permissions → Permission → Bool
allows p manage_products = p.manage_products
allows p record_expenses = p.record_expenses
allows p view_profit = p.view_profit
allows p delete_records = p.delete_records

-- The derived `PartialEq` of `Permission`.
abbrev pub eqb : Permission → Permission → Bool
eqb manage_products manage_products = true
eqb record_expenses record_expenses = true
eqb view_profit view_profit = true
eqb delete_records delete_records = true
eqb _ _ = false

-- `slice::contains`
unfoldable pub contains : List Permission → Permission → Bool
contains [] p = false
contains (x ∷ xs) p = eqb x p || contains xs p

unfoldable pub from_list : List Permission → Permissions
unfolding contains
from_list list = record {
  manage_products = contains list manage_products;
  record_expenses = contains list record_expenses;
  view_profit = contains list view_profit;
  delete_records = contains list delete_records;
}

unfoldable pub to_list : Permissions → List Permission
unfolding allows
to_list p = select (allows p) all

-- The flags built from a list allow exactly the permissions on the list.
pub allows-from_list :
    (list : List Permission) (p : Permission) → allows (from_list list) p ≡ contains list p
unfolding allows from_list
allows-from_list list manage_products = refl
allows-from_list list _ = refl

-- Writing the flags out as a list and reading them back gives the same flags.
pub from_list-to_list : (p : Permissions) → from_list (to_list p) ≡ p
unfolding from_list to_list
from_list-to_list p = ground arith
