-- ===== src/Simulation.antt =====
-- createSimulatedOrder of internal/server/control_fulfillment.go: a customer's order of the dashboard,
-- with its items and their reservation. A response is its status code. Access control and the random
-- product of an order without items are parameters; the customer and the address are left out.
pub mod Items
pub mod Total
use enterprise_integration_s.Common.{
  ℕ, suc, ◌+◌, ◌*◌, ◌-◌, ◌%◌, ◌^◌, String, concat, Bool, true, ◌&&◌, ◌||◌, not, Option, none, some,
  List, [], ◌∷◌, ◌++◌, Result, ok, err, ◌>>=◌, str_eq, if◌then◌else◌, ltb, is_some,
}
use enterprise_integration_s.Common.Int.{ℤ, pos, int64, ltb_ℤ}
use enterprise_integration_s.Common.Table.{update_where, query_row}
use enterprise_integration_s.Orders.Status.{unpaid}
use enterprise_integration_s.Orders.Provider.{Strings}
use enterprise_integration_s.Orders.State.{pending, Field, entry}
use enterprise_integration_s.Store.{
  ShopRow, OrderRow, WarehouseRow, ProductRow, OrderItemRow, Db, Env,
}
use enterprise_integration_s.Events.{record_event}
use enterprise_integration_s.Inventory.Allocation.{
  Error, no_eligible_warehouse, text, Line, units, is_positive, allocate,
}
use enterprise_integration_s.Shipments.{order_is}
use enterprise_integration_s.Packages.Control.{respond_created}
use Prim.Native.String.{slice, len}

-- One element of the input's items; Quantity is a signed int.
pub record OrderedItem : Type 0 where
  pub product_id : String
  pub quantity : ℤ

-- What the loop carries: the tables, reservationLines, and total by its 64 bits.
pub record Draft : Type 0 where
  pub db : Db
  pub lines : List Line
  pub total : ℕ

abbrev pub on_sale : String → String → ProductRow → Bool
on_sale shop product p = str_eq p.id product && str_eq p.shop_id shop && str_eq p.status "ACTIVE"

abbrev pub new_item : String → String → OrderedItem → ProductRow → OrderItemRow
new_item id order item p = record {
  id = id;
  order_id = order;
  product_id = item.product_id;
  sku = p.sku;
  product_name = p.name;
  price = p.price;
  quantity = units item.quantity;
  subtotal = int64 (p.price * units item.quantity);
}

abbrev pub new_line : String → OrderedItem → Line
new_line id item = record {
  order_item_id = id;
  product_id = item.product_id;
  quantity = item.quantity;
}

-- INSERT INTO order_items, whose key is id and whose quantity is a 32-bit INTEGER.
unfoldable pub insert_item : OrderItemRow → Db → Result ℕ Db
insert_item i db =
    if is_some (query_row (λ (x : OrderItemRow). str_eq x.id i.id) db.order_items)
      || ltb (2 ^ 31 - 1) i.quantity
    then err 500
    else ok (record db { order_items = i ∷ db.order_items })

abbrev pub found_product : Option ProductRow → Result ℕ ProductRow
found_product none = err 400
found_product (some p) = ok p

module _ (str : Strings) (env : Env) (payment_expiry : ℕ) where
  -- The body of the loop over the items.
  unfoldable pub add_item : String → String → OrderedItem → Draft → Result ℕ Draft
  unfolding insert_item
  add_item shop order item d = do
    _ ← (if not (is_positive item.quantity) then err 400 else ok tt)
    p ← found_product (query_row (on_sale shop item.product_id) d.db.products)
    let id = env.new_id "item" d.db.drawn
    inserted ← insert_item (new_item id order item p) (record d.db { drawn = suc d.db.drawn })
    ok (record {
      db = inserted;
      lines = d.lines ++ (new_line id item ∷ []);
      total = (d.total + p.price * units item.quantity) % 2 ^ 64;
    })

  unfoldable pub add_items : String → String → List OrderedItem → Draft → Result ℕ Draft
  add_items shop order [] d = ok d
  add_items shop order (item ∷ items) d = add_item shop order item d >>= add_items shop order items

  abbrev pub new_order : String → String → String → OrderRow
  new_order id number shop = record {
    id = id;
    order_number = number;
    shop_id = shop;
    status = unpaid;
    payment_status = pending;
    payment_reference = "";
    paid_at = none;
    payment_expires_at = some (env.now + payment_expiry);
    payment_failed_at = none;
    payment_failure_reason = "";
    seller_deadline_at = none;
    deadline_claimed_until = none;
    cancellation_actor = "";
    cancellation_reason = "";
    fulfillment_warehouse_id = none;
    total_amount = pos 0;
  }

  -- INSERT INTO orders, with its two unique columns and its reference to the shop.
  unfoldable pub insert_order : OrderRow → Db → Result ℕ Db
  insert_order o db =
      if is_some
          (query_row (λ x. str_eq x.id o.id || str_eq x.order_number o.order_number) db.orders)
        || not (is_some (query_row (λ (s : ShopRow). str_eq s.id o.shop_id) db.shops))
      then err 500
      else ok (record db { orders = o ∷ db.orders })

  abbrev pub allocation_code : Result Error (WarehouseRow × Db) → Result ℕ (WarehouseRow × Db)
  allocation_code (ok r) = ok r
  allocation_code (err no_eligible_warehouse) = err 400
  allocation_code (err (text _)) = err 500

  -- UPDATE orders SET total_amount, with CHECK (total_amount >= 0).
  unfoldable pub set_total : String → ℤ → Db → Result ℕ Db
  set_total order total db =
      if ltb_ℤ total (pos 0)
      then err 500
      else ok (record db {
        orders = update_where (order_is order) (λ o. record o { total_amount = total }) db.orders;
      })

  -- The text fields of the event; its total_amount is left out.
  abbrev pub created_payload : String → String → String → List Field
  created_payload order number warehouse =
      entry "id" order
      ∷ entry "order_number" number
      ∷ entry "status" "UNPAID"
      ∷ entry "fulfillment_warehouse_id" warehouse
      ∷ []

  -- "SIM-" + strings.ToUpper(platform.NewID(""))[1:]
  abbrev pub number_of : ℕ → String
  number_of drawn =
      let raw = str.to_upper (env.new_id "" drawn) in concat "SIM-" (slice raw 1 (len raw))

  -- The transaction of `createSimulatedOrder`.
  unfoldable pub place_order : String → List OrderedItem → Db → Result ℕ Db
  unfolding insert_order set_total
  place_order shop items db = do
    let order = env.new_id "ord" db.drawn
    let number = number_of (suc db.drawn)
    opened ← insert_order (new_order order number shop) (record db { drawn = suc (suc db.drawn) })
    d ← add_items shop order items (record { db = opened; lines = []; total = 0 })
    (warehouse, reserved) ← allocation_code (allocate env shop order d.lines d.db)
    totalled ← set_total order (int64 d.total) reserved
    ok (
        record_event env shop "order.created" order (created_payload order number warehouse.id)
          totalled)

  -- The items of the request, or one unit of the random product.
  unfoldable pub chosen_items : Option String → List OrderedItem → Result ℕ (List OrderedItem)
  chosen_items random (item ∷ items) = ok (item ∷ items)
  chosen_items none [] = err 400
  chosen_items (some product) [] = ok (record { product_id = product; quantity = pos 1 } ∷ [])

  -- `createSimulatedOrder`, on a request with a readable body.
  unfoldable pub create_simulated_order :
      (String → Bool) → (String → Db → Option String) → String → List OrderedItem → Db → Db × ℕ
  unfolding chosen_items
  create_simulated_order may_access random_product shop items db =
      if not (may_access shop)
      then (db, 403)
      else respond_created
          (chosen_items (random_product shop db) items >>= λ chosen. place_order shop chosen db) db
