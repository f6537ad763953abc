-- ===== src/Inventory/Invariant/Releasing.antt =====
-- The loop of `Release`, between the marking of the reservations and its end.
use enterprise_integration_s.Common.{
  ℕ, ◌+◌, ◌-◌, ◌^◌, ◌≤◌, ◌≡◌, ◌∙◌, sym, refl, String, Bool, true, ◌&&◌, str_eq, eq_iff,
  if◌then◌else◌, List, [], ◌∷◌, map, arith, Bool-cases, inl, inr, ok, leb, ◌==◌, bind-ok,
}
use enterprise_integration_s.Common.Table.{
  affected, total, All, All-map, All-update_where, update_where, select_where, total-update_one,
  total-update_where_same, affected-update_where,
}
use enterprise_integration_s.Store.{InventoryRow, ProductRow, ReservationRow, Db}
use enterprise_integration_s.Inventory.Allocation.{stored_at}
use enterprise_integration_s.Inventory.Holding.{
  product_is, Released, live_of, returning, releasable, unreserve, add_stock, overflows,
  release_mark, release_row, release_rows,
}
use enterprise_integration_s.Inventory.Invariant.{
  stock_of, on_hand_of, reserved_of, reserved_at, held_at, held_by, IsConserved, IsKeyed, Inv,
}

abbrev pending_at : String → String → Released → ℕ
pending_at w p row =
    if str_eq row.warehouse_id w && str_eq row.product_id p then row.quantity else 0

-- Between the marking of the reservations and the end of the loop: the rows still to be given back
-- are reserved in their warehouses, and held by no reservation any more.
pub record Releasing (db : Db) (rows : List Released) : Type 0 where
  pub conserved : IsConserved db
  pub pending :
      (w p : String)
      → total (reserved_at w p) db.inventory
        ≡ total (held_at w p) db.reservations + total (pending_at w p) rows
  pub keyed : IsKeyed db
  pub known : All (λ row. affected (product_is row.product_id) db.products ≡ 1) rows

-- What a released row gives back of a product.
abbrev pub given_of : String → Released → ℕ
given_of product row = if str_eq row.product_id product then row.quantity else 0

-- The INTEGER column products.stock has room for all rows.
abbrev pub Room : List Released → Db → Type 0
Room rows db = (p : String) → total (stock_of p) db.products + total (given_of p) rows ≤ 2 ^ 31 - 1

pub given-held :
    (order p : String) (rows : List ReservationRow)
    → total (given_of p) (map returning (select_where (live_of order) rows))
      ≡ total (held_by order p) rows
given-held order p [] = refl
given-held order p (r ∷ rows) = ground (arith, given-held order p rows)

held_at-mark :
    (now : ℕ) (order w p : String) (rows : List ReservationRow)
    → total (held_at w p) (update_where (live_of order) (release_mark now) rows)
        + total (pending_at w p) (map returning (select_where (live_of order) rows))
      ≡ total (held_at w p) rows
held_at-mark now order w p [] = omega arith
held_at-mark now order w p (r ∷ rows) = ground (arith, held_at-mark now order w p rows)

pub known-mark :
    (P : String → Type 0) (order : String) (rows : List ReservationRow)
    → All (λ r. P r.product_id) rows
    → All (λ row. P row.product_id) (map returning (select_where (live_of order) rows))
known-mark P order [] a = tt
known-mark P order (r ∷ rows) a = elim (Bool-cases (live_of order r)) [
  | inl e ↦ rw e (a.0, known-mark P order rows a.1)
  | inr e ↦ rw e (known-mark P order rows a.1)
]

module _ (now : ℕ) (order : String) (db : Db) where
  abbrev pub marked : Db
  marked = record db {
    reservations = update_where (live_of order) (release_mark now) db.reservations;
  }

  pub marked-Releasing :
      Inv db → Releasing marked (map returning (select_where (live_of order) db.reservations))
  marked-Releasing v = record {
    conserved = v.conserved;
    pending = λ w p. omega (arith, v.accounted w p, held_at-mark now order w p db.reservations);
    keyed = record {
      one_stock = v.keyed.one_stock;
      one_product = v.keyed.one_product;
      known_product =
          All-update_where (λ r. affected (product_is r.product_id) db.products ≡ 1) (live_of order)
            (release_mark now) (λ r _ e. e) db.reservations v.keyed.known_product;
    };
    known =
        known-mark (λ p. affected (product_is p) db.products ≡ 1) order db.reservations
          v.keyed.known_product;
  }

module _ {ℓ} {R : Type ℓ} (q : R → Bool) (v : R → ℕ) where
  total-none : (rows : List R) → affected q rows ≡ 0 → total (λ r. if q r then v r else 0) rows ≡ 0
  total-none [] e = refl
  total-none (r ∷ rows) e = ground (arith, total-none rows)

  affected-none :
      (n : ℕ) (rows : List R) → affected q rows ≡ 0 → affected (λ r. q r && leb n (v r)) rows ≡ 0
  affected-none n [] e = refl
  affected-none n (r ∷ rows) e = ground (arith, affected-none n rows)

  -- The one row that a condition selects has the whole of the column's sum.
  affected-lone :
      (n : ℕ) (rows : List R)
      → affected q rows ≤ 1
      → 1 ≤ n
      → n ≤ total (λ r. if q r then v r else 0) rows
      → affected (λ r. q r && leb n (v r)) rows ≡ 1
  affected-lone n [] a p h = absurd (omega arith)
  affected-lone n (r ∷ rows) a p h =
      ground (arith, affected-lone n rows, total-none rows, affected-none n rows)

unreserve-reserved_of :
    (row : Released) (p : String) (r : InventoryRow)
    → releasable row r ≡ true
    → reserved_of p (unreserve row.quantity r)
        + (if str_eq row.product_id p then row.quantity else 0)
      ≡ reserved_of p r + 0
unreserve-reserved_of row p r h =
    ground
      (arith, eq_iff r.product_id row.product_id, eq_iff r.product_id p, eq_iff row.product_id p)

unreserve-reserved_at :
    (row : Released) (w p : String) (r : InventoryRow)
    → releasable row r ≡ true
    → reserved_at w p (unreserve row.quantity r) + pending_at w p row ≡ reserved_at w p r + 0
unreserve-reserved_at row w p r h = ground (
  arith,
  eq_iff r.product_id row.product_id,
  eq_iff r.product_id p,
  eq_iff row.product_id p,
  eq_iff r.warehouse_id row.warehouse_id,
  eq_iff r.warehouse_id w,
  eq_iff row.warehouse_id w,
)

add-stock_of :
    (product p : String) (n : ℕ) (r : ProductRow)
    → product_is product r ≡ true
    → stock_of p (add_stock n r) + 0 ≡ stock_of p r + (if str_eq product p then n else 0)
add-stock_of product p n r h = ground (arith, eq_iff r.id product, eq_iff r.id p, eq_iff product p)

-- The two UPDATEs of one released row.
abbrev give_back : Released → Db → Db
give_back row db = record db {
  inventory = update_where (releasable row) (unreserve row.quantity) db.inventory;
  products = update_where (product_is row.product_id) (add_stock row.quantity) db.products;
}

module _ (row : Released) (rows : List Released) (db : Db) (v : Releasing db (row ∷ rows)) where
  releasable-one : 1 ≤ row.quantity → affected (releasable row) db.inventory ≡ 1
  releasable-one pos =
      affected-lone (stored_at row.warehouse_id row.product_id) (λ r. r.reserved_quantity)
        row.quantity db.inventory (v.keyed.one_stock row.warehouse_id row.product_id) pos
        (ground (
          arith,
          v.pending row.warehouse_id row.product_id,
          eq_iff row.warehouse_id row.warehouse_id,
          eq_iff row.product_id row.product_id,
        ))

  skip-Releasing : row.quantity ≡ 0 → Releasing db rows
  skip-Releasing zero = record {
    conserved = v.conserved;
    pending = λ w p. ground (arith, v.pending w p);
    keyed = v.keyed;
    known = v.known.1;
  }

  give_back-Releasing :
      affected (releasable row) db.inventory ≡ 1 → Releasing (give_back row db) rows
  give_back-Releasing one = record {
    conserved = λ p.
        let moved = if str_eq row.product_id p then row.quantity else 0 in
        let freed =
          total-update_one (releasable row) (unreserve row.quantity) (reserved_of p) moved 0
            db.inventory one (unreserve-reserved_of row p) in
        let given =
          total-update_one (product_is row.product_id) (add_stock row.quantity) (stock_of p) 0 moved
            db.products v.known.0 (add-stock_of row.product_id p row.quantity) in
        let kept =
          total-update_where_same (releasable row) (unreserve row.quantity) (on_hand_of p)
            (λ r _. refl) db.inventory in
        omega (arith, v.conserved p, freed, given, kept);
    pending = λ w p.
        let freed =
          total-update_one (releasable row) (unreserve row.quantity) (reserved_at w p)
            (pending_at w p row) 0 db.inventory one (unreserve-reserved_at row w p) in
        omega (arith, v.pending w p, freed);
    keyed = record {
      one_stock = λ w p.
          rw
            (affected-update_where (stored_at w p) (releasable row) (unreserve row.quantity)
              (λ r. refl) db.inventory)
            (v.keyed.one_stock w p);
      one_product = λ p. rw (same p) (v.keyed.one_product p);
      known_product =
          All-map (λ r e. rw (same r.product_id) e) db.reservations v.keyed.known_product;
    };
    known = All-map (λ r e. rw (same r.product_id) e) rows v.known.1;
  }
    where
      same :
          (p : String)
          → affected (product_is p) (give_back row db).products
            ≡ affected (product_is p) db.products
      same p =
          affected-update_where (product_is p) (product_is row.product_id) (add_stock row.quantity)
            (λ r. refl) db.products

  room-overflows :
      (stock : List ProductRow)
      → total (stock_of row.product_id) stock + row.quantity ≤ 2 ^ 31 - 1
      → affected (overflows row) stock ≡ 0
  room-overflows [] h = refl
  room-overflows (r ∷ stock) h = ground (arith, room-overflows stock)

  give_back-Room : Room (row ∷ rows) db → Room rows (give_back row db)
  give_back-Room room p =
      let given =
        total-update_one (product_is row.product_id) (add_stock row.quantity) (stock_of p) 0
          (given_of p row) db.products v.known.0 (add-stock_of row.product_id p row.quantity) in
      omega (arith, given, room p)

  -- A released row is written as it is meant to be, or it changes nothing.
  release_row-Releasing :
      (db' : Db)
      → release_row row db ≡ ok db'
      → Releasing db' rows × (db'.reservations ≡ db.reservations) × (db'.orders ≡ db.orders)
  unfolding release_row
  release_row-Releasing db' e = elim (Bool-cases (row.quantity == 0)) [
    | inl none_left ↦
        let same : db ≡ db' = ground arith in
        rw (sym same) (skip-Releasing (ground arith), refl, refl)
    | inr some_left ↦
        let same : give_back row db ≡ db' = ground arith in
        rw (sym same) (give_back-Releasing (releasable-one (ground arith)), refl, refl)
  ]

  -- Where the column has room, no released row meets an error.
  release_row-ok : Room (row ∷ rows) db → (db' : Db) × (release_row row db ≡ ok db') × Room rows db'
  unfolding release_row
  release_row-ok room = elim (Bool-cases (row.quantity == 0)) [
    | inl none_left ↦ (db, rw none_left refl, λ p. ground (arith, room p))
    | inr some_left ↦
        let one = releasable-one (ground arith) in
        let self = (eq_iff row.product_id row.product_id).1 refl in
        let fits = room-overflows db.products (ground (arith, room row.product_id, self)) in
        (give_back row db, rw (some_left, one, fits) refl, give_back-Room room)
  ]

pub release_rows-Releasing :
    (rows : List Released) (db db' : Db)
    → release_rows rows db ≡ ok db'
    → Releasing db rows
    → Releasing db' [] × (db'.reservations ≡ db.reservations) × (db'.orders ≡ db.orders)
unfolding release_rows
release_rows-Releasing [] db db' e v =
    let same : db ≡ db' = ground arith in rw (sym same) (v, refl, refl)
release_rows-Releasing (row ∷ rows) db db' e v =
    let (db₁, one, rest) = bind-ok (release_row row db) (release_rows rows) {b = db'} e in
    let (v₁, same₁, orders₁) = release_row-Releasing row rows db v db₁ one in
    let (v₂, same₂, orders₂) = release_rows-Releasing rows db₁ db' rest v₁ in
    (v₂, same₂ ∙ same₁, orders₂ ∙ orders₁)

pub release_rows-ok :
    (rows : List Released) (db : Db)
    → Releasing db rows
    → Room rows db
    → (db' : Db) × (release_rows rows db ≡ ok db')
unfolding release_rows
release_rows-ok [] db v room = (db, refl)
release_rows-ok (row ∷ rows) db v room =
    let (db₁, done, room₁) = release_row-ok row rows db v room in
    let (v₁, _, _) = release_row-Releasing row rows db v db₁ done in
    let (db₂, rest) = release_rows-ok rows db₁ v₁ room₁ in (db₂, rw done rest)
