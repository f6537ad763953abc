-- ===== src/Simulation/Total.antt =====
-- A placed order: its stock, its items and its total.
use enterprise_integration_s.Common.{
  ℕ, suc, ◌≡◌, ◌∙◌, refl, sym, String, true, str_eq, eq_iff, List, [], ◌∷◌, ◌++◌, some, arith, ok,
  err, Result, bind-ok, length,
}
use enterprise_integration_s.Common.Int.{ℤ, int64}
use enterprise_integration_s.Common.Table.{
  total, All, query_row, update_where, query_row-update_where,
}
use enterprise_integration_s.Orders.Status.{unpaid}
use enterprise_integration_s.Orders.Provider.{Strings}
use enterprise_integration_s.Orders.State.{pending}
use enterprise_integration_s.Store.{OrderRow, WarehouseRow, OrderItemRow, Db, Env}
use enterprise_integration_s.Events.{record_event}
use enterprise_integration_s.Inventory.Allocation.{
  Error, no_eligible_warehouse, text, Line, allocate, reserve_line, reserve_lines, assign_warehouse,
}
use enterprise_integration_s.Inventory.Invariant.{Inv}
use enterprise_integration_s.Inventory.Invariant.Reserve.{reserve_line-ok}
use enterprise_integration_s.Inventory.Invariant.Allocate.{allocate-ok, ordered_lines, allocate-Inv}
use enterprise_integration_s.Repository.Cancellation.{Inv-stock}
use enterprise_integration_s.Shipments.{order_is}
use enterprise_integration_s.Simulation.{
  OrderedItem, Draft, add_items, new_order, insert_order, allocation_code, set_total,
  created_payload, number_of, place_order,
}
use enterprise_integration_s.Simulation.Items.{amount, int64-same, add_items-Added}

reserve_lines-same :
    (env : Env) (order warehouse : String) (lines : List Line) (db db' : Db)
    → reserve_lines env order warehouse lines db ≡ ok db'
    → (db'.orders ≡ db.orders) × (db'.order_items ≡ db.order_items)
unfolding reserve_lines
reserve_lines-same env order warehouse [] db db' h = ground arith
reserve_lines-same env order warehouse (line ∷ lines) db db' h =
    let (db₁, one, rest) =
      bind-ok (reserve_line env order warehouse line db) (reserve_lines env order warehouse lines)
        {b = db'} h in
    let (_, written) = reserve_line-ok env order warehouse line db db₁ one in
    let (orders, items) = reserve_lines-same env order warehouse lines db₁ db' rest in
    (rw written at orders, rw written at items)

allocation_code-ok :
    (str : Strings) (env : Env) (expiry : ℕ) (r : Result Error (WarehouseRow × Db))
    {a : WarehouseRow × Db}
    → allocation_code str env expiry r ≡ ok a
    → r ≡ ok a
allocation_code-ok str env expiry (ok r) h = ground arith
allocation_code-ok str env expiry (err no_eligible_warehouse) h = absurd cc
allocation_code-ok str env expiry (err (text _)) h = absurd cc

-- An allocation only assigns the order's warehouse, of all that orders and their items say.
allocate-same :
    (env : Env) (shop order : String) (lines : List Line) (db : Db) {chosen : WarehouseRow × Db}
    → allocate env shop order lines db ≡ ok chosen
    → (chosen.1.orders
        ≡ update_where
            (λ r. str_eq r.id order)
            (λ r. record r { fulfillment_warehouse_id = some chosen.0.id })
            db.orders)
      × (chosen.1.order_items ≡ db.order_items)
unfolding assign_warehouse
allocate-same env shop order lines db {chosen} h =
    let (required, _, allocated) = allocate-ok env shop order lines db {chosen = chosen} h in
    let (_, db₁, done, same) = allocated in
    let (orders, items) =
      reserve_lines-same env order chosen.0.id (ordered_lines lines) db db₁ done in
    (rw (same, orders) refl, rw (same, items) refl)

-- The order that a request has placed.
pub record Placed (env : Env) (count : ℕ) (db db' : Db) : Type 0 where
  pub o : OrderRow
  pub found : query_row (order_is (env.new_id "ord" db.drawn)) db'.orders ≡ some o
  pub is_unpaid : o.status ≡ unpaid
  pub is_pending : o.payment_status ≡ pending
  pub warehouse : WarehouseRow
  pub assigned : o.fulfillment_warehouse_id ≡ some warehouse.id
  pub items : List OrderItemRow
  pub counted : length items ≡ count
  pub inserted : db'.order_items ≡ items ++ db.order_items
  pub of_order : All (λ i. i.order_id ≡ env.new_id "ord" db.drawn) items
  pub totalled : o.total_amount ≡ int64 (total amount items)

insert_order-ok :
    (str : Strings) (env : Env) (expiry : ℕ) (o : OrderRow) (db db' : Db)
    → insert_order str env expiry o db ≡ ok db'
    → db' ≡ record db { orders = o ∷ db.orders }
unfolding insert_order
insert_order-ok str env expiry o db db' h = ground arith

abbrev with_total : ℤ → OrderRow → OrderRow
with_total sum o = record o { total_amount = sum }

set_total-ok :
    (str : Strings) (env : Env) (expiry : ℕ) (order : String) (sum : ℤ) (db db' : Db)
    → set_total str env expiry order sum db ≡ ok db'
    → db' ≡ record db { orders = update_where (order_is order) (with_total sum) db.orders }
unfolding set_total
set_total-ok str env expiry order sum db db' h = ground arith

module _ (str : Strings) (env : Env) (expiry : ℕ) (shop number : String) (items : List OrderedItem)
    (db : Db) where
  abbrev order_id : String
  order_id = env.new_id "ord" db.drawn

  abbrev first_row : OrderRow
  first_row = new_order str env expiry order_id number shop

  abbrev opened_db : Db
  opened_db = record db { orders = first_row ∷ db.orders; drawn = suc (suc db.drawn) }

  abbrev assign : String → OrderRow → OrderRow
  assign warehouse o = record o { fulfillment_warehouse_id = some warehouse }

  -- The order's row after its warehouse and its total are written.
  last_row :
      (d : Draft) (reserved : WarehouseRow × Db)
      → add_items str env expiry shop order_id items
          (record { db = opened_db; lines = []; total = 0 })
        ≡ ok d
      → allocate env shop order_id d.lines d.db ≡ ok reserved
      → query_row
          (order_is order_id)
          (update_where (order_is order_id) (with_total (int64 d.total)) reserved.1.orders)
        ≡ some (with_total (int64 d.total) (assign reserved.0.id first_row))
  last_row d reserved looped taken =
      let a =
        add_items-Added str env expiry shop order_id items
          (record { db = opened_db; lines = []; total = 0 }) d looped refl in
      let self : str_eq order_id order_id ≡ true = (eq_iff order_id order_id).1 refl in
      let (orders, _) = allocate-same env shop order_id d.lines d.db {chosen = reserved} taken in
      let found : query_row (order_is order_id) d.db.orders ≡ some first_row =
        rw (a.orders_same, self) refl in
      let found_assigned =
        query_row-update_where (order_is order_id) (order_is order_id) (assign reserved.0.id)
          (λ _. refl) d.db.orders {r = first_row} found in
      let found_assigned = rw self at found_assigned in
      let found_total =
        query_row-update_where (order_is order_id) (order_is order_id) (with_total (int64 d.total))
          (λ _. refl) (update_where (order_is order_id) (assign reserved.0.id) d.db.orders)
          {r = assign reserved.0.id first_row} found_assigned in
      let found_total = rw self at found_total in rw orders found_total

  placed :
      (d : Draft) (reserved : WarehouseRow × Db)
      → add_items str env expiry shop order_id items
          (record { db = opened_db; lines = []; total = 0 })
        ≡ ok d
      → allocate env shop order_id d.lines d.db ≡ ok reserved
      → Inv db
      → let db' =
          record_event env shop "order.created" order_id
            (created_payload str env expiry order_id number reserved.0.id)
            (record reserved.1 {
              orders =
                  update_where (order_is order_id) (with_total (int64 d.total)) reserved.1.orders;
            }) in
        Inv db' × Placed env (length items) db db'
  unfolding record_event
  placed d reserved looped taken v =
      let a =
        add_items-Added str env expiry shop order_id items
          (record { db = opened_db; lines = []; total = 0 }) d looped refl in
      let (_, kept_items) =
        allocate-same env shop order_id d.lines d.db {chosen = reserved} taken in
      let stock = a.stock_same (Inv-stock db opened_db refl refl refl v) in
      let reserved_stock =
        allocate-Inv env shop order_id d.lines d.db {chosen = reserved} taken stock in
      (
        Inv-stock reserved.1 _ refl refl refl reserved_stock,
        record {
          o = with_total (int64 d.total) (assign reserved.0.id first_row);
          found = last_row d reserved looped taken;
          is_unpaid = refl;
          is_pending = refl;
          warehouse = reserved.0;
          assigned = refl;
          items = a.added;
          counted = a.counted;
          inserted = kept_items ∙ a.inserted;
          of_order = a.of_order;
          totalled = int64-same d.total (total amount a.added) (omega (arith, a.summed));
        },
      )

-- Where the accounting invariants hold, an order that createSimulatedOrder places leaves them so. The
-- order is UNPAID and PENDING with a warehouse, has one new item for each requested one, and its total
-- is the sum of their prices times quantities, as far as 64 bits hold it.
pub place_order-Placed :
    (str : Strings) (env : Env) (expiry : ℕ) (shop : String) (items : List OrderedItem)
    (db db' : Db)
    → place_order str env expiry shop items db ≡ ok db'
    → Inv db
    → Inv db' × Placed env (length items) db db'
unfolding place_order
place_order-Placed str env expiry shop items db db' h v =
    let order = env.new_id "ord" db.drawn in
    let number = number_of str env expiry (suc db.drawn) in
    let o = new_order str env expiry order number shop in
    let drawn : Db = record db { drawn = suc (suc db.drawn) } in
    let (opened, inserted, h₁) = bind-ok (insert_order str env expiry o drawn) _ {b = db'} h in
    let h₁ = rw (insert_order-ok str env expiry o drawn opened inserted) at h₁ in
    let start : Draft = record {
      db = record drawn { orders = o ∷ db.orders };
      lines = [];
      total = 0;
    } in
    let (d, looped, h₂) =
      bind-ok (add_items str env expiry shop order items start) _ {b = db'} h₁ in
    let (reserved, coded, h₃) =
      bind-ok (allocation_code str env expiry (allocate env shop order d.lines d.db)) _ {b = db'}
        h₂ in
    let taken =
      allocation_code-ok str env expiry (allocate env shop order d.lines d.db) {a = reserved}
        coded in
    let (totalled, set, last) =
      bind-ok (set_total str env expiry order (int64 d.total) reserved.1) _ {b = db'} h₃ in
    let last =
      rw (set_total-ok str env expiry order (int64 d.total) reserved.1 totalled set) at last in
    let (kept, done) = placed str env expiry shop number items db d reserved looped taken v in
    let recorded =
      record_event env shop "order.created" order
        (created_payload str env expiry order number reserved.0.id)
        (record reserved.1 {
          orders = update_where (order_is order) (with_total (int64 d.total)) reserved.1.orders;
        }) in
    let this : recorded ≡ db' = ground arith in rw (sym this) (kept, done)
