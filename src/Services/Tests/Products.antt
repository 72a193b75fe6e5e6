-- ===== src/Services/Tests/Products.antt =====
-- Concrete runs of the saving and removing of products.
use kitaza.Common.{ℕ, String, ◌≡◌, refl, Bool, false, Option, none, some, [], ◌==◌, if◌then◌else◌}
use kitaza.Common.Int.{pos, ◌≤ℤ◌}
use kitaza.Common.Failure.{ok}
use kitaza.Access.Actor.{can}
use kitaza.Ledger.Tables.{Tables, Product}
use kitaza.Common.Failure.{err, forbidden}
use kitaza.Services.Catalogue.{SaveProductRequest, new_row, updated, save, remove}
use kitaza.Services.Catalogue.Laws.{save-no_loss, save-keeps_cost, save-revives, save-refused}
use kitaza.Services.Tests.{env, fish, stall, cashier, clerk, clerk_blind}

abbrev never_taken : Tables → ℕ → ℕ → Option String → Bool
never_taken t store product barcode = false

abbrev dearer : SaveProductRequest ℕ
dearer = record {
  id = some 4;
  name = "Dried fish";
  barcode = none;
  unit_label = "kg";
  cost_price = 0;
  selling_price = 9_900;
  opening_stock = 77;
  reorder_level = 0;
}

abbrev new_price : Product
new_price = updated (new_row env 1 clerk (some fish) 30 dearer) fish 30

dearer_lem : (save env never_taken 1 clerk 30 stall dearer).0 ≡ ok new_price
unfolding save can
dearer_lem = refl

save-no_loss_example : new_price.cost_price ≤ℤ new_price.selling_price
save-no_loss_example = save-no_loss env never_taken 1 clerk 30 stall dearer new_price dearer_lem

save-keeps_cost_example :
    (after : Product) × ((save env never_taken 1 clerk 30 stall dearer).1.products 4 ≡ some after)
    × (after.cost_price ≡ fish.cost_price)
save-keeps_cost_example =
    save-keeps_cost env never_taken 1 clerk 30 stall dearer 4 fish clerk_blind refl refl

abbrev gone_fish : Product
gone_fish = record fish { deleted_at = some 12; is_active = false }

abbrev cleared : Tables
cleared = record stall { products = λ p. if p == 4 then some gone_fish else none }

abbrev back : Product
back = updated (new_row env 1 clerk none 30 dearer) gone_fish 30

back_lem : (save env never_taken 1 clerk 30 cleared dearer).0 ≡ ok back
unfolding save can
back_lem = refl

save-revives_example : (back.cost_price ≡ pos 0) × (back.deleted_at ≡ none)
save-revives_example =
    save-revives env never_taken 1 clerk 30 cleared dearer gone_fish back 12 clerk_blind refl refl
      back_lem

cashier_refused :
    (save env never_taken 1 cashier 30 stall dearer).0
    ≡ err (forbidden "only the owner can change products and stock")
unfolding save
cashier_refused = refl

save-refused_example :
    ((save env never_taken 1 cashier 30 stall dearer).1 ≡ stall)
    × ((save env never_taken 1 cashier 30 stall dearer).2 ≡ [])
save-refused_example =
    save-refused env never_taken 1 cashier 30 stall dearer
      (forbidden "only the owner can change products and stock") cashier_refused

removed_lem : (remove 1 clerk 4 30 stall).0 ≡ ok tt
unfolding remove
removed_lem = refl
