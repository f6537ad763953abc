-- ===== src/Inventory/Refinement.antt =====
-- What Allocate and Release promise, as operations on a shelf that knows nothing of warehouses, rows
-- or statuses: how much of each product is free, and how much each order holds of it.
use enterprise_integration_s.Common.{
  ℕ, ◌+◌, ◌-◌, ◌^◌, ◌≤◌, ◌≡◌, ◌∙◌, refl, sym, String, str_eq, eq_iff, if◌then◌else◌, List, [], ◌∷◌,
  map, arith, Bool-cases, inl, inr, ok, bind-ok, ◌==◌,
}
use enterprise_integration_s.Common.Table.{
  affected, total, All, All-map, update_where, select_where, total-update_one,
  affected-update_where,
}
use enterprise_integration_s.Common.Sorting.{text_before}
use enterprise_integration_s.Common.Sorting.Laws.{total-sort_by}
use enterprise_integration_s.Store.{WarehouseRow, ReservationRow, Db, Env}
use enterprise_integration_s.Inventory.Allocation.{
  Line, units, sellable, take_stock, write_line, reserve_line, reserve_lines, assign_warehouse,
  allocate,
}
use enterprise_integration_s.Inventory.Holding.{
  product_is, Released, live_of, returning, release_mark, add_stock, release_row, release_rows,
  release,
}
use enterprise_integration_s.Inventory.Invariant.{held_by, stock_of, Inv}
use enterprise_integration_s.Inventory.Invariant.Reserve.{take-stock_of, reserve_line-ok}
use enterprise_integration_s.Inventory.Invariant.Allocate.{allocate-ok, ordered_lines, allocate-Inv}
use enterprise_integration_s.Inventory.Invariant.Releasing.{known-mark, given_of, given-held}
use enterprise_integration_s.Inventory.Invariant.Release.{release-total}

pub record Shelf : Type 0 where
  pub free : String → ℕ
  pub held : String → String → ℕ

-- What the lines ask of a product.
abbrev pub asked_of : String → Line → ℕ
asked_of product l = if str_eq l.product_id product then units l.quantity else 0

abbrev pub asked : String → List Line → ℕ
asked product = total (asked_of product)

-- An order takes what its lines ask for.
abbrev pub take : String → List Line → Shelf → Shelf
take order lines s = record {
  free = λ p. s.free p - asked p lines;
  held = λ o p. s.held o p + (if str_eq order o then asked p lines else 0);
}

-- An order gives back all that it holds.
abbrev pub give : String → Shelf → Shelf
give order s = record {
  free = λ p. s.free p + s.held order p;
  held = λ o p. if str_eq order o then 0 else s.held o p;
}

-- The tables show the shelf.
pub record Represents (db : Db) (s : Shelf) : Type 0 where
  pub free : (p : String) → total (stock_of p) db.products ≡ s.free p
  pub held : (o p : String) → total (held_by o p) db.reservations ≡ s.held o p

write_line-free :
    (env : Env) (order warehouse : String) (line : Line) (db : Db) (p : String)
    → affected (sellable line.product_id (units line.quantity)) db.products ≡ 1
    → total (stock_of p) (write_line env order warehouse line db).products + asked_of p line
      ≡ total (stock_of p) db.products
write_line-free env order warehouse line db p sold =
    let n = units line.quantity in
    omega (
      arith,
      total-update_one (sellable line.product_id n) (take_stock n) (stock_of p)
          (if str_eq line.product_id p then n else 0) 0 db.products sold
          (take-stock_of line.product_id p n),
    )

module _ (env : Env) (order warehouse : String) where
  reserve_lines-takes :
      (lines : List Line) (db db' : Db)
      → reserve_lines env order warehouse lines db ≡ ok db'
      → (p : String)
      → (total (stock_of p) db'.products + asked p lines ≡ total (stock_of p) db.products)
        × ((o : String)
            → total (held_by o p) db'.reservations
              ≡ total (held_by o p) db.reservations + (if str_eq order o then asked p lines else 0))
  unfolding reserve_lines
  reserve_lines-takes [] db db' h p =
      let same : db ≡ db' = ground arith in rw (sym same) (omega arith, λ o. ground arith)
  reserve_lines-takes (line ∷ lines) db db' h p =
      let (db₁, one, rest) =
        bind-ok (reserve_line env order warehouse line db) (reserve_lines env order warehouse lines)
          {b = db'} h in
      let (sold, written) = reserve_line-ok env order warehouse line db db₁ one in
      let (free, held) = reserve_lines-takes lines db₁ db' rest p in
      let free = rw written at free in
      (
        omega (arith, free, write_line-free env order warehouse line db p sold),
        λ o. let held = rw written at (held o) in ground (arith, held),
      )

release_row-gives :
    (row : Released) (db db' : Db) (p : String)
    → release_row row db ≡ ok db'
    → affected (product_is row.product_id) db.products ≡ 1
    → (total (stock_of p) db'.products ≡ total (stock_of p) db.products + given_of p row)
      × ((x : String) → affected (product_is x) db'.products ≡ affected (product_is x) db.products)
      × (db'.reservations ≡ db.reservations)
unfolding release_row
release_row-gives row db db' p h known = elim (Bool-cases (row.quantity == 0)) [
  | inl none_left ↦
      let same : db ≡ db' = ground arith in rw (sym same) (ground arith, λ x. refl, refl)
  | inr some_left ↦
      let n = row.quantity in
      let stock = update_where (product_is row.product_id) (add_stock n) db.products in
      let same : db'.products ≡ stock = ground arith in
      let kept : db'.reservations ≡ db.reservations = ground arith in
      let grown =
        total-update_one (product_is row.product_id) (add_stock n) (stock_of p) 0 (given_of p row)
          db.products known
          (λ r e.
            ground (arith, eq_iff r.id row.product_id, eq_iff r.id p, eq_iff row.product_id p)) in
      (
        rw same (omega (arith, grown)),
        λ x. rw same (
            affected-update_where (product_is x) (product_is row.product_id) (add_stock n)
              (λ r. refl) db.products),
        kept,
      )
]

release_rows-gives :
    (rows : List Released) (db db' : Db) (p : String)
    → release_rows rows db ≡ ok db'
    → All (λ row. affected (product_is row.product_id) db.products ≡ 1) rows
    → (total (stock_of p) db'.products ≡ total (stock_of p) db.products + total (given_of p) rows)
      × (db'.reservations ≡ db.reservations)
unfolding release_rows
release_rows-gives [] db db' p h known =
    let same : db ≡ db' = ground arith in rw (sym same) (omega arith, refl)
release_rows-gives (row ∷ rows) db db' p h known =
    let (db₁, one, rest) = bind-ok (release_row row db) (release_rows rows) {b = db'} h in
    let (free, same_count, same) = release_row-gives row db db₁ p one known.0 in
    let (more, same_rest) =
      release_rows-gives rows db₁ db' p rest
        (All-map (λ r e. same_count r.product_id ∙ e) rows known.1) in
    (omega (arith, free, more), same_rest ∙ same)

held_by-mark :
    (now : ℕ) (order o p : String) (rows : List ReservationRow)
    → total (held_by o p) (update_where (live_of order) (release_mark now) rows)
      ≡ (if str_eq order o then 0 else total (held_by o p) rows)
held_by-mark now order o p [] = ground arith
held_by-mark now order o p (r ∷ rows) = ground (
  arith,
  held_by-mark now order o p rows,
  eq_iff order o,
  eq_iff r.order_id order,
  eq_iff r.order_id o,
)

allocate-takes :
    (env : Env) (shop order : String) (lines : List Line) (db : Db) {chosen : WarehouseRow × Db}
    (s : Shelf)
    → allocate env shop order lines db ≡ ok chosen
    → Represents db s
    → ((p : String) → asked p lines ≤ s.free p) × Represents chosen.1 (take order lines s)
unfolding assign_warehouse
allocate-takes env shop order lines db {chosen} s h r =
    let (_, _, allocated) = allocate-ok env shop order lines db {chosen = chosen} h in
    let (_, db₁, done, same) = allocated in
    let sorted : (p : String) → asked p (ordered_lines lines) ≡ asked p lines =
      λ p. total-sort_by (λ a b. text_before a.product_id b.product_id) (asked_of p) lines in
    let taken = reserve_lines-takes env order chosen.0.id (ordered_lines lines) db db₁ done in
    (
      λ p. let (free, _) = taken p in omega (arith, free, sorted p, r.free p),
      rw same (record {
        free = λ p. let (free, _) = taken p in omega (arith, free, sorted p, r.free p);
        held = λ o p. let (_, held) = taken p in ground (arith, held o, sorted p, r.held o p);
      }),
    )

release-gives :
    (now : ℕ) (order : String) (db db' : Db) (s : Shelf)
    → release now order db ≡ ok db'
    → Inv db
    → Represents db s
    → Represents db' (give order s)
unfolding release
release-gives now order db db' s h v r =
    let rows = map returning (select_where (live_of order) db.reservations) in
    let marked : Db = record db {
      reservations = update_where (live_of order) (release_mark now) db.reservations;
    } in
    let known =
      known-mark (λ product. affected (product_is product) db.products ≡ 1) order db.reservations
        v.keyed.known_product in
    record {
      free = λ p.
          let (free, _) = release_rows-gives rows marked db' p h known in
          omega (arith, free, given-held order p db.reservations, r.free p, r.held order p);
      held = λ o p.
          let (_, same) = release_rows-gives rows marked db' p h known in
          rw same (ground (arith, held_by-mark now order o p db.reservations, r.held o p));
    }

-- Allocate and Release refine the shelf: where the tables show a shelf, the accounting invariants hold
-- and products.stock has room for what is free and what the order holds already, an allocation that
-- succeeds asks for no more of any product than is free, and the tables then show the shelf from which
-- the order has taken its lines; a later release succeeds, and the tables then show the shelf to which
-- the order has given back all that it held.
pub allocate-release-refines :
    (env : Env) (shop order : String) (lines : List Line) (db : Db) {chosen : WarehouseRow × Db}
    (s : Shelf) (now : ℕ)
    → allocate env shop order lines db ≡ ok chosen
    → Inv db
    → Represents db s
    → ((p : String) → s.free p + s.held order p ≤ 2 ^ 31 - 1)
    → ((p : String) → asked p lines ≤ s.free p)
      × Represents chosen.1 (take order lines s)
      × (db' : Db) × (release now order chosen.1 ≡ ok db')
      × Represents db' (give order (take order lines s))
allocate-release-refines env shop order lines db {chosen} s now h v r room =
    let (enough, taken) = allocate-takes env shop order lines db {chosen = chosen} s h r in
    let kept = allocate-Inv env shop order lines db {chosen = chosen} h v in
    let (db', done, _, _, _) = release-total now order chosen.1 kept (λ p.
      ground (arith, enough p, taken.free p, taken.held order p, room p, eq_iff order order)) in
    (
      enough,
      taken,
      db',
      done,
      release-gives now order chosen.1 db' (take order lines s) done kept taken,
    )
