-- ===== src/Inventory/Invariant/Allocate.antt =====
-- `Allocate` keeps the accounting invariants, and takes exactly what the lines ask for.
use enterprise_integration_s.Common.{
  ℕ, ◌≤◌, ◌≡◌, ◌∙◌, refl, String, Bool, true, false, ◌||◌, str_eq, eq_iff, Option-cases, List, [],
  ◌∷◌, arith, Bool-cases, inl, inr, Result, ok, Result-cases,
}
use mathlib.Core.Path.{subst}
use enterprise_integration_s.Common.Sorting.{insert_sorted, sort_by, text_before}
use enterprise_integration_s.Common.Table.{
  affected, All, All-map, query_row, query_row-affected, affected-update_where,
}
use enterprise_integration_s.Store.{InventoryRow, WarehouseRow, Db, Env}
use enterprise_integration_s.Inventory.Allocation.{
  Error, Line, units, stored_at, reserve_row, add_required, aggregate_from,
  aggregate_required_quantity, is_eligible, reserve_line, reserve_lines, assign_warehouse,
  allocate_from, allocate, active_warehouses,
}
use enterprise_integration_s.Inventory.Invariant.{Inv}
use enterprise_integration_s.Inventory.Invariant.Reserve.{reserve_line-ok, reserve_line-Inv}

-- Whether a map has the key.
abbrev has_key : String → List (String × ℕ) → Bool
has_key p [] = false
has_key p ((k, _) ∷ rest) = str_eq k p || has_key p rest

has_key-insert_sorted :
    (before : String × ℕ → String × ℕ → Bool) (p : String) (x : String × ℕ) (ys : List (String × ℕ))
    → has_key p (insert_sorted before x ys) ≡ (str_eq x.0 p || has_key p ys)
unfolding insert_sorted
has_key-insert_sorted before p x [] = refl
has_key-insert_sorted before p x (y ∷ ys) = ground (arith, has_key-insert_sorted before p x ys)

has_key-sort_by :
    (before : String × ℕ → String × ℕ → Bool) (p : String) (xs : List (String × ℕ))
    → has_key p (sort_by before xs) ≡ has_key p xs
unfolding sort_by
has_key-sort_by before p [] = refl
has_key-sort_by before p (x ∷ xs) =
    rw (has_key-insert_sorted before p x (sort_by before xs), has_key-sort_by before p xs) refl

has_key-add_required :
    (p key : String) (n : ℕ) (required : List (String × ℕ))
    → has_key p (add_required key n required) ≡ (str_eq key p || has_key p required)
unfolding add_required
has_key-add_required p key n [] = refl
has_key-add_required p key n ((k, m) ∷ rest) =
    ground (arith, eq_iff k key, eq_iff k p, eq_iff key p, has_key-add_required p key n rest)

aggregate_from-keeps :
    (p : String) (required : List (String × ℕ)) (lines : List Line) {required' : List (String × ℕ)}
    → aggregate_from required lines ≡ ok required'
    → has_key p required ≡ true
    → has_key p required' ≡ true
unfolding aggregate_from
aggregate_from-keeps p required [] h k = ground arith
aggregate_from-keeps p required (line ∷ lines) {required'} h k =
    let more = add_required line.product_id (units line.quantity) required in
    ground (
      arith,
      has_key-add_required p line.product_id (units line.quantity) required,
      aggregate_from-keeps p more lines {required' = required'},
    )

aggregate_from-covers :
    (required : List (String × ℕ)) (lines : List Line) {required' : List (String × ℕ)}
    → aggregate_from required lines ≡ ok required'
    → All (λ l. has_key l.product_id required' ≡ true) lines
unfolding aggregate_from
aggregate_from-covers required [] h = tt
aggregate_from-covers required (line ∷ lines) {required'} h =
    let more = add_required line.product_id (units line.quantity) required in
    ground (
      arith,
      eq_iff line.product_id line.product_id,
      has_key-add_required line.product_id line.product_id (units line.quantity) required,
      aggregate_from-keeps line.product_id more lines {required' = required'},
      aggregate_from-covers more lines {required' = required'},
    )

-- An eligible warehouse has a row for every required product.
is_eligible-stored :
    (warehouse p : String) (required : List (String × ℕ)) (rows : List InventoryRow)
    → is_eligible warehouse required rows ≡ true
    → has_key p required ≡ true
    → 1 ≤ affected (stored_at warehouse p) rows
unfolding is_eligible
is_eligible-stored warehouse p [] rows h k = cc
is_eligible-stored warehouse p ((key, n) ∷ rest) rows h k =
    elim (Option-cases (query_row (stored_at warehouse key) rows)) [
      | inl e ↦ ground arith
      | inr (r, e) ↦ elim (Bool-cases (str_eq key p)) [
        | inl same ↦
            rw (← (eq_iff key p).0 same) (query_row-affected (stored_at warehouse key) rows e)
        | inr other ↦ is_eligible-stored warehouse p rest rows (ground arith) (ground arith)
      ]
    ]

reserve_line-stored :
    (env : Env) (order warehouse : String) (line : Line) (db db' : Db) (w p : String)
    → reserve_line env order warehouse line db ≡ ok db'
    → affected (stored_at w p) db'.inventory ≡ affected (stored_at w p) db.inventory
reserve_line-stored env order warehouse line db db' w p h =
    rw ((reserve_line-ok env order warehouse line db db' h).1) (
      affected-update_where (stored_at w p) (stored_at warehouse line.product_id)
        (reserve_row (units line.quantity)) (λ r. refl) db.inventory)

module _ (env : Env) (order warehouse : String) where
  abbrev HasRows : Db → List Line → Type 0
  HasRows db lines = All (λ l. affected (stored_at warehouse l.product_id) db.inventory ≡ 1) lines

  reserve_lines-Inv :
      (lines : List Line) (db : Db) {db' : Db}
      → HasRows db lines
      → reserve_lines env order warehouse lines db ≡ ok db'
      → Inv db
      → Inv db'
  unfolding reserve_lines
  reserve_lines-Inv [] db a h v = ground arith
  reserve_lines-Inv (line ∷ lines) db {db'} a h v =
      elim (Result-cases (reserve_line env order warehouse line db)) [
        | inl (e, failed) ↦ ground arith
        | inr (db₁, done) ↦
            reserve_lines-Inv lines db₁ {db' = db'}
              (All-map
                (λ l one.
                  reserve_line-stored env order warehouse line db db₁ warehouse l.product_id done
                  ∙ one)
                lines a.1)
              (ground arith) (reserve_line-Inv env order warehouse line db db₁ a.0 done v)
      ]

  assign_warehouse-Inv : (db : Db) → Inv db → Inv (assign_warehouse env order warehouse db)
  unfolding assign_warehouse
  assign_warehouse-Inv db v = record {
    conserved = v.conserved;
    accounted = v.accounted;
    keyed = record {
      one_stock = v.keyed.one_stock;
      one_product = v.keyed.one_product;
      known_product = v.keyed.known_product;
    };
  }

  is_eligible-HasRows :
      (required : List (String × ℕ)) (lines : List Line) (db : Db)
      → is_eligible warehouse required db.inventory ≡ true
      → All (λ l. has_key l.product_id required ≡ true) lines
      → Inv db
      → HasRows db lines
  is_eligible-HasRows required lines db h a v =
      All-map
        (λ l k.
          let stored = is_eligible-stored warehouse l.product_id required db.inventory h k in
          omega (arith, stored, v.keyed.one_stock warehouse l.product_id))
        lines a

-- What an allocation did: the chosen warehouse was eligible, and took every line.
abbrev pub Allocated :
    Env → String → List (String × ℕ) → List Line → Db → WarehouseRow × Db → Type 0
Allocated env order required lines db (chosen, db') =
    (is_eligible chosen.id required db.inventory ≡ true)
    × (db₁ : Db) × (reserve_lines env order chosen.id lines db ≡ ok db₁)
    × (db' ≡ assign_warehouse env order chosen.id db₁)

Allocated-ok :
    (env : Env) (order : String) (required : List (String × ℕ)) (lines : List Line) (db : Db)
    (r : WarehouseRow × Db) {chosen : WarehouseRow × Db}
    → Allocated env order required lines db r
    → ◌≡◌ {A = Result Error (WarehouseRow × Db)} (ok r) (ok chosen)
    → Allocated env order required lines db chosen
Allocated-ok env order required lines db r {chosen} a h =
    let same : r ≡ chosen = ground arith in subst (Allocated env order required lines db) same a

allocate_from-ok :
    (env : Env) (order : String) (required : List (String × ℕ)) (lines : List Line)
    (candidates : List WarehouseRow) (db : Db) {chosen : WarehouseRow × Db}
    → allocate_from env order required lines candidates db ≡ ok chosen
    → Allocated env order required lines db chosen
unfolding allocate_from
allocate_from-ok env order required lines [] db h = cc
allocate_from-ok env order required lines (w ∷ rest) db {chosen} h =
    elim (Bool-cases (is_eligible w.id required db.inventory)) [
      | inr short ↦
          allocate_from-ok env order required lines rest db {chosen = chosen} (ground arith)
      | inl fits ↦ elim (Result-cases (reserve_lines env order w.id lines db)) [
        | inl (e, failed) ↦ ground arith
        | inr (db₁, done) ↦
            Allocated-ok env order required lines db (w, assign_warehouse env order w.id db₁)
              {chosen = chosen} (fits, db₁, done, refl) (ground arith)
      ]
    ]

-- The lines in the order of their products, and what they require.
abbrev pub ordered_lines : List Line → List Line
ordered_lines = sort_by (λ a b. text_before a.product_id b.product_id)

pub allocate-ok :
    (env : Env) (shop order : String) (lines : List Line) (db : Db) {chosen : WarehouseRow × Db}
    → allocate env shop order lines db ≡ ok chosen
    → (required : List (String × ℕ)) × (aggregate_required_quantity (ordered_lines lines)
        ≡ ok required)
      × Allocated env order
          (sort_by (λ a b. text_before a.0 b.0) required)
          (ordered_lines lines)
          db
          chosen
unfolding allocate
allocate-ok env shop order [] db h = cc
allocate-ok env shop order (line ∷ lines) db {chosen} h =
    elim (Result-cases (aggregate_required_quantity (ordered_lines (line ∷ lines)))) [
      | inl (e, failed) ↦ ground arith
      | inr (required, done) ↦ (
        required,
        done,
        allocate_from-ok env order (sort_by (λ a b. text_before a.0 b.0) required)
            (ordered_lines (line ∷ lines)) (active_warehouses shop db) db {chosen = chosen}
            (ground arith),
      )
    ]

-- An allocation keeps the accounting invariants: the sellable stock of every product stays what its
-- warehouses hold and have not reserved, and every reserved quantity is held by a live reservation.
pub allocate-Inv :
    (env : Env) (shop order : String) (lines : List Line) (db : Db) {chosen : WarehouseRow × Db}
    → allocate env shop order lines db ≡ ok chosen
    → Inv db
    → Inv chosen.1
unfolding aggregate_required_quantity
allocate-Inv env shop order lines db {chosen} h v =
    let (required, counted, allocated) = allocate-ok env shop order lines db h in
    let (fits, db₁, done, same) = allocated in
    let covered =
      All-map (λ l k. has_key-sort_by (λ a b. text_before a.0 b.0) l.product_id required ∙ k)
        (ordered_lines lines) (aggregate_from-covers [] (ordered_lines lines) counted) in
    let rows =
      is_eligible-HasRows env order chosen.0.id (sort_by (λ a b. text_before a.0 b.0) required)
        (ordered_lines lines) db fits covered v in
    rw same (
      assign_warehouse-Inv env order chosen.0.id db₁
        (reserve_lines-Inv env order chosen.0.id (ordered_lines lines) db rows done v))
