-- ===== src/Products.antt =====
-- internal/products/service.go: what the catalogue accepts, over an interface of what it persists, and
-- the responses of internal/server/control_products.go.
pub mod Catalogue
pub mod Inventory
pub mod Stock
pub mod Archival
use enterprise_integration_s.Common.{
  ℕ, suc, ◌+◌, ◌%◌, ◌^◌, String, Bool, false, not, ◌&&◌, ◌||◌, Option, none, some, List, [], ◌∷◌,
  Result, ok, err, ◌>>=◌, str_eq, if◌then◌else◌,
}
use enterprise_integration_s.Common.Int.{ℤ, pos, int64, ltb_ℤ}
use enterprise_integration_s.Orders.Provider.{Strings}
use enterprise_integration_s.Store.{ProductRow, Db, Env}
use enterprise_integration_s.Inventory.Allocation.{units}

pub data ProductError : Type 0 where
  invalid_product_input duplicate_sku product_not_found product_in_use : ProductError
  database_error : ProductError

pub record InitialInventory : Type 0 where
  pub warehouse_id : String
  pub on_hand_quantity : ℤ

-- Price is a signed int64 and Stock a signed int.
pub record Draft : Type 0 where
  pub sku : String
  pub name : String
  pub category : String
  pub description : String
  pub price : ℤ
  pub stock : ℤ
  pub status : String
  pub initial_inventory : List InitialInventory

pub record Product : Type 0 where
  pub id : String
  pub shop_id : String
  pub draft : Draft

pub record Patch : Type 0 where
  pub name : Option String
  pub category : Option String
  pub description : Option String
  pub price : Option ℤ
  pub status : Option String

-- `Manager`: what persists the catalogue, on the tables. A failed call rolls back.
pub record Manager : Type 0 where
  pub create : Product → Db → Result ProductError Db
  pub update : String → String → Patch → Db → Result ProductError (ProductRow × Db)
  pub archive : String → String → Db → Result ProductError Db

abbrev pub is_negative : ℤ → Bool
is_negative z = ltb_ℤ z (pos 0)

-- return Product{}, fmt.Errorf("%w: ...", ErrInvalidProductInput)
abbrev pub reject_if : Bool → Result {0, 0} ProductError Unit
reject_if refused = if refused then err invalid_product_input else ok tt

abbrev pub member : String → List String → Bool
member x [] = false
member x (y ∷ ys) = str_eq x y || member x ys

abbrev pub or_default : String → String → String
or_default fallback text = if str_eq text "" then fallback else text

abbrev pub is_product_status : String → Bool
is_product_status s = str_eq s "ACTIVE" || str_eq s "INACTIVE"

module _ (str : Strings) where
  abbrev pub trimmed : InitialInventory → InitialInventory
  trimmed a = record a { warehouse_id = str.trim_space a.warehouse_id }

  -- The loop over the initial inventory: the trimmed allocations, and totalStock by its 64 bits.
  unfoldable pub sum_inventory :
      List String → ℕ → List InitialInventory → Result ProductError (List InitialInventory × ℕ)
  sum_inventory seen total_stock [] = ok ([], total_stock)
  sum_inventory seen total_stock (given ∷ rest) = do
    let a = trimmed given
    _ ← reject_if (str_eq a.warehouse_id "" || is_negative a.on_hand_quantity)
    _ ← reject_if (member a.warehouse_id seen)
    (allocations, stock) ←
        sum_inventory (a.warehouse_id ∷ seen) ((total_stock + units a.on_hand_quantity) % 2 ^ 64)
          rest
    ok (a ∷ allocations, stock)

  -- The stock that an initial inventory, if there is one, makes up.
  unfoldable pub with_inventory : Draft → List InitialInventory → Result ProductError Draft
  unfolding sum_inventory
  with_inventory d [] = ok d
  with_inventory d (a ∷ more) = do
    (allocations, stock) ← sum_inventory [] 0 (a ∷ more)
    ok (record d { initial_inventory = allocations; stock = int64 stock })

  abbrev pub trimmed_draft : Draft → Draft
  trimmed_draft d = record d {
    sku = str.trim_space d.sku;
    name = str.trim_space d.name;
    category = str.trim_space d.category;
    status = str.trim_space d.status;
  }

  abbrev pub is_incomplete : Draft → Bool
  is_incomplete d =
      str_eq d.sku "" || str_eq d.name "" || is_negative d.price || is_negative d.stock

  -- The normalisation and validation of `Create`.
  unfoldable pub normalise_draft : Draft → Result ProductError Draft
  normalise_draft given = do
    let d = trimmed_draft given
    _ ← reject_if (is_incomplete d)
    stocked ← with_inventory d d.initial_inventory
    let complete = record stocked {
      category = or_default "Uncategorized" stocked.category;
      status = or_default "ACTIVE" stocked.status;
    }
    _ ← reject_if (not (is_product_status complete.status))
    ok complete

  abbrev pub mapped_text : (String → String) → Option String → Option String
  mapped_text f none = none
  mapped_text f (some s) = some (f s)

  abbrev pub text_fails : (String → Bool) → Option String → Bool
  text_fails bad none = false
  text_fails bad (some s) = bad s

  abbrev pub price_fails : Option ℤ → Bool
  price_fails none = false
  price_fails (some z) = is_negative z

  -- The normalisation and validation of `Update`.
  unfoldable pub normalise_patch : Patch → Result ProductError Patch
  normalise_patch given = do
    let p = record given {
      name = mapped_text str.trim_space given.name;
      category = mapped_text str.trim_space given.category;
      status = mapped_text (λ s. str.to_upper (str.trim_space s)) given.status;
    }
    _ ← reject_if (text_fails (λ s. str_eq s "") p.name)
    _ ← reject_if (text_fails (λ s. str_eq s "") p.category)
    _ ← reject_if (price_fails p.price)
    _ ← reject_if (text_fails (λ s. not (is_product_status s)) p.status)
    ok p

  module _ (env : Env) (manager : Manager) where
    -- `Create` of the service, which draws the product's id.
    unfoldable pub create : String → Draft → Db → Result ProductError (Product × Db)
    unfolding normalise_draft
    create shop given db = do
      d ← normalise_draft given
      let product : Product = record { id = env.new_id "prd" db.drawn; shop_id = shop; draft = d }
      created ← manager.create product (record db { drawn = suc db.drawn })
      ok (product, created)

    -- `Update` of the service.
    unfoldable pub update : String → String → Patch → Db → Result ProductError (ProductRow × Db)
    unfolding normalise_patch
    update shop product given db = do
      patch ← normalise_patch given
      manager.update shop product patch db

    -- `Archive` of the service.
    abbrev pub archive : String → String → Db → Result ProductError Db
    archive = manager.archive

  -- `controlProductError`
  abbrev pub product_error_status : ProductError → ℕ
  product_error_status product_not_found = 404
  product_error_status product_in_use = 409
  product_error_status invalid_product_input = 400
  product_error_status _ = 500
