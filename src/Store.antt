-- ===== src/Store.antt =====
-- The tables of the marketplace database that the modelled statements read and write, as far as
-- their columns (apps/marketplace/internal/store/sqlc/models.go and the INSERT statements of the
-- packages). An instant is a number of microseconds; a nullable column is an `Option`.
use enterprise_integration_s.Common.{ℕ, String, Bool, Option, List}
use enterprise_integration_s.Common.Int.{ℤ}
use enterprise_integration_s.Orders.Status.{Status}
use enterprise_integration_s.Orders.State.{PaymentStatus, Field}

pub record ShopRow : Type 0 where
  pub id : String
  pub provider_profile : String

pub record OrderRow : Type 0 where
  pub id : String
  pub order_number : String
  pub shop_id : String
  pub status : Status
  pub payment_status : PaymentStatus
  pub payment_reference : String
  pub paid_at : Option ℕ
  pub payment_expires_at : Option ℕ
  pub payment_failed_at : Option ℕ
  pub payment_failure_reason : String
  pub seller_deadline_at : Option ℕ
  pub deadline_claimed_until : Option ℕ
  pub cancellation_actor : String
  pub cancellation_reason : String
  pub fulfillment_warehouse_id : Option String
  pub total_amount : ℤ

pub record WarehouseRow : Type 0 where
  pub id : String
  pub shop_id : String
  pub code : String
  pub name : String
  pub active : Bool
  pub priority : ℤ

pub record InventoryRow : Type 0 where
  pub warehouse_id : String
  pub product_id : String
  pub on_hand_quantity : ℕ
  pub reserved_quantity : ℕ

pub record ProductRow : Type 0 where
  pub id : String
  pub shop_id : String
  pub sku : String
  pub name : String
  pub category : String
  pub description : String
  pub price : ℕ
  pub status : String
  pub stock : ℕ

pub data ReservationStatus : Type 0 where
  active committed released fulfilled : ReservationStatus

pub record ReservationRow : Type 0 where
  pub id : String
  pub order_id : String
  pub order_item_id : String
  pub product_id : String
  pub warehouse_id : String
  pub quantity : ℕ
  pub fulfilled_quantity : ℕ
  pub status : ReservationStatus
  pub committed_at : Option ℕ
  pub released_at : Option ℕ

pub record OrderItemRow : Type 0 where
  pub id : String
  pub order_id : String
  pub product_id : String
  pub sku : String
  pub product_name : String
  pub price : ℕ
  pub quantity : ℕ
  pub subtotal : ℤ

pub record PackageItemRow : Type 0 where
  pub package_id : String
  pub order_item_id : String
  pub quantity : ℕ

pub data ShipmentStatus : Type 0 where
  created shipped in_delivery delivered delivery_failed returning returned : ShipmentStatus

pub data PackageStatus : Type 0 where
  ready_to_ship : PackageStatus
  follows : ShipmentStatus → PackageStatus

pub record PackageRow : Type 0 where
  pub id : String
  pub order_id : String
  pub warehouse_id : String
  pub status : PackageStatus

pub record ShipmentRow : Type 0 where
  pub id : String
  pub order_id : String
  pub package_id : Option String
  pub tracking_number : String
  pub shipping_provider : String
  pub pickup_type : String
  pub status : ShipmentStatus
  pub delivery_failure_reason : String
  pub shipped_at : Option ℕ
  pub delivered_at : Option ℕ
  pub failed_at : Option ℕ
  pub returning_at : Option ℕ
  pub returned_at : Option ℕ

pub record EventRow : Type 0 where
  pub id : String
  pub shop_id : String
  pub event_type : String
  pub aggregate_id : String
  pub payload : List Field

pub record OutboxRow : Type 0 where
  pub id : String
  pub event_id : String
  pub published_at : Option ℕ
  pub created_at : ℕ

pub record Db : Type 0 where
  pub shops : List ShopRow
  pub orders : List OrderRow
  pub warehouses : List WarehouseRow
  pub inventory : List InventoryRow
  pub products : List ProductRow
  pub reservations : List ReservationRow
  pub order_items : List OrderItemRow
  pub packages : List PackageRow
  pub package_items : List PackageItemRow
  pub shipments : List ShipmentRow
  pub events : List EventRow
  pub outbox : List OutboxRow
  pub drawn : ℕ  -- how many identifiers platform.NewID has given out

-- What a statement takes from outside the program: now() of the transaction, and the text that
-- platform.NewID draws for a prefix, by how many were drawn before.
pub record Env : Type 0 where
  pub now : ℕ
  pub new_id : String → ℕ → String
