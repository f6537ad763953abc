-- ===== src/Simulation/Items.antt =====
-- The items that the loop of createSimulatedOrder adds.
use enterprise_integration_s.Common.{
  ℕ, suc, ◌+◌, ◌*◌, ◌%◌, ◌^◌, ◌≡◌, ◌∙◌, refl, sym, String, ap, not, if◌then◌else◌, List, [], ◌∷◌,
  ◌++◌, arith, ok, err, bind-ok, length,
}
use enterprise_integration_s.Common.Int.{int64}
use enterprise_integration_s.Common.Table.{total, All, query_row}
use enterprise_integration_s.Common.Keys.Found.{
  All-append, total-append, length-append, append_assoc,
}
use enterprise_integration_s.Orders.Provider.{Strings}
use enterprise_integration_s.Store.{OrderItemRow, Db, Env}
use enterprise_integration_s.Inventory.Allocation.{units, is_positive}
use enterprise_integration_s.Inventory.Invariant.{Inv}
use enterprise_integration_s.Repository.Cancellation.{Inv-stock}
use enterprise_integration_s.Simulation.{
  OrderedItem, Draft, on_sale, new_item, new_line, insert_item, found_product, add_item, add_items,
}

abbrev pub amount : OrderItemRow → ℕ
amount i = i.price * i.quantity

insert_item-ok :
    (i : OrderItemRow) (db db' : Db)
    → insert_item i db ≡ ok db'
    → db' ≡ record db { order_items = i ∷ db.order_items }
unfolding insert_item
insert_item-ok i db db' h = ground arith

pub int64-same : (a b : ℕ) → a % 2 ^ 64 ≡ b % 2 ^ 64 → int64 a ≡ int64 b
int64-same a b e = rw e refl

-- What the loop has added.
pub record Added (order : String) (count : ℕ) (d d' : Draft) : Type 0 where
  pub added : List OrderItemRow
  pub counted : length added ≡ count
  pub inserted : d'.db.order_items ≡ added ++ d.db.order_items
  pub of_order : All (λ i. i.order_id ≡ order) added
  pub summed : d'.total ≡ (d.total + total amount added) % 2 ^ 64
  pub orders_same : d'.db.orders ≡ d.db.orders
  pub stock_same : Inv d.db → Inv d'.db

module _ (str : Strings) (env : Env) (expiry : ℕ) where
  add_item-Added :
      (shop order : String) (item : OrderedItem) (d d' : Draft)
      → add_item str env expiry shop order item d ≡ ok d'
      → Added order 1 d d'
  unfolding add_item
  add_item-Added shop order item d d' h =
      let (_, _, h₁) =
        bind-ok (if not (is_positive item.quantity) then err 400 else ok tt) _ {b = d'} h in
      let (p, _, h₂) =
        bind-ok (found_product (query_row (on_sale shop item.product_id) d.db.products)) _ {b = d'}
          h₁ in
      let i = new_item (env.new_id "item" d.db.drawn) order item p in
      let drawn : Db = record d.db { drawn = suc d.db.drawn } in
      let (db₁, done, last) = bind-ok (insert_item i drawn) _ {b = d'} h₂ in
      let written = insert_item-ok i drawn db₁ done in
      let next : Draft = record {
        db = db₁;
        lines = d.lines ++ (new_line (env.new_id "item" d.db.drawn) item ∷ []);
        total = (d.total + p.price * units item.quantity) % 2 ^ 64;
      } in
      let last : next ≡ d' = ground arith in
      rw (sym last, written)
        (record {
          added = i ∷ [];
          counted = refl;
          inserted = refl;
          of_order = (refl, tt);
          summed = omega arith;
          orders_same = refl;
          stock_same = λ v.
              Inv-stock d.db (record drawn { order_items = i ∷ d.db.order_items }) refl refl refl v;
        })

  pub add_items-Added :
      (shop order : String) (items : List OrderedItem) (d d' : Draft)
      → add_items str env expiry shop order items d ≡ ok d'
      → d.total % 2 ^ 64 ≡ d.total
      → Added order (length items) d d'
  unfolding add_items
  add_items-Added shop order [] d d' h small =
      let same : d ≡ d' = ground arith in
      rw (sym same) (record {
        added = [];
        counted = refl;
        inserted = refl;
        of_order = tt;
        summed = omega (arith, small);
        orders_same = refl;
        stock_same = λ v. v;
      })
  add_items-Added shop order (item ∷ items) d d' h small =
      let (d₁, one, rest) =
        bind-ok (add_item str env expiry shop order item d)
          (add_items str env expiry shop order items) {b = d'} h in
      let a = add_item-Added shop order item d d₁ one in
      let b = add_items-Added shop order items d₁ d' rest (omega (arith, a.summed)) in
      record {
        added = b.added ++ a.added;
        counted = omega (arith, length-append b.added a.added, a.counted, b.counted);
        inserted =
            b.inserted
            ∙ ap (λ rows. b.added ++ rows) a.inserted
            ∙ sym (append_assoc b.added a.added d.db.order_items);
        of_order = All-append (λ i. i.order_id ≡ order) b.added a.added b.of_order a.of_order;
        summed = omega (arith, total-append amount b.added a.added, a.summed, b.summed);
        orders_same = b.orders_same ∙ a.orders_same;
        stock_same = λ v. b.stock_same (a.stock_same v);
      }
