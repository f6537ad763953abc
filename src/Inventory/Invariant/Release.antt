-- ===== src/Inventory/Invariant/Release.antt =====
-- `Release` whole, and the accounting invariants.
use enterprise_integration_s.Common.{ℕ, ◌≡◌, String, false, List, [], ◌∷◌, map, arith, ok}
use enterprise_integration_s.Common.Table.{All, update_where, select_where}
use enterprise_integration_s.Store.{ReservationRow, Db}
use enterprise_integration_s.Inventory.Holding.{live_of, returning, release_mark, release}
use enterprise_integration_s.Inventory.Invariant.{HasRoom, Inv}
use enterprise_integration_s.Inventory.Invariant.Releasing.{
  marked, marked-Releasing, given-held, release_rows-Releasing, release_rows-ok,
}

none_live :
    (now : ℕ) (order : String) (rows : List ReservationRow)
    → All (λ r. live_of order r ≡ false) (update_where (live_of order) (release_mark now) rows)
none_live now order [] = tt
none_live now order (r ∷ rows) = ground (arith, none_live now order rows)

-- A release that succeeds keeps the accounting invariants and the orders, and leaves the order no live
-- reservation.
pub release-Inv :
    (now : ℕ) (order : String) (db db' : Db)
    → release now order db ≡ ok db'
    → Inv db
    → Inv db' × All (λ r. live_of order r ≡ false) db'.reservations × (db'.orders ≡ db.orders)
unfolding release
release-Inv now order db db' done v =
    let (v', same, orders) =
      release_rows-Releasing (map returning (select_where (live_of order) db.reservations))
        (marked now order db) db' done (marked-Releasing now order db v) in
    (
      record {
        conserved = v'.conserved;
        accounted = λ w p. omega (arith, v'.pending w p);
        keyed = v'.keyed;
      },
      rw same (none_live now order db.reservations),
      orders,
    )

-- Where the accounting invariants hold and products.stock has room for what the order still holds,
-- releasing the order succeeds: no statement of it meets a drift or an overflow. The invariants still
-- hold, no reservation of the order is live any more, and no order row has changed.
pub release-total :
    (now : ℕ) (order : String) (db : Db)
    → Inv db
    → HasRoom order db
    → (db' : Db) × (release now order db ≡ ok db')
      × Inv db'
      × All (λ r. live_of order r ≡ false) db'.reservations
      × (db'.orders ≡ db.orders)
unfolding release
release-total now order db v room =
    let rows = map returning (select_where (live_of order) db.reservations) in
    let (db', done) =
      release_rows-ok rows (marked now order db) (marked-Releasing now order db v)
        (λ p. omega (arith, room p, given-held order p db.reservations)) in
    let (kept, dead, orders) = release-Inv now order db db' done v in
    (db', done, kept, dead, orders)
