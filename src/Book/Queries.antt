-- ===== src/Book/Queries.antt =====
-- The queries of an `OrderBook`: src/core/order_book.cpp, and `for_each_order` of
-- include/order_book/core/order_book.hpp.
use limit_order_book.Base.{
  ℕ, Bool, true, false, Option, none, some, List, [], ◌∷◌, ◌++◌, map_option, length, nat_eq,
  if◌then◌else◌,
}
use limit_order_book.Map.{Map, lookup}
use limit_order_book.Types.{Side, bid, ask, other}
use limit_order_book.Book.State.{OrderEntry, OrderLocation, Levels, OrderBook, remaining_at}

pub record OrderView : Type 0 where
  pub order_id : ℕ
  pub side : Side
  pub price : ℕ
  pub quantity : ℕ

pub record LevelView : Type 0 where
  pub side : Side
  pub price : ℕ
  pub quantity : ℕ
  pub orders : List OrderView

abbrev pub first_quantity : Levels → ℕ
first_quantity [] = 0
first_quantity ((p, l) ∷ ls) = l.aggregate_quantity

unfoldable pub best_quantity : OrderBook → Side → ℕ
best_quantity b bid = first_quantity b.bids
best_quantity b ask = first_quantity b.asks
best_quantity b other = 0

abbrev pub first_price : Levels → Option ℕ
first_price [] = none
first_price ((p, l) ∷ ls) = some p

unfoldable pub best_bid : OrderBook → Option ℕ
best_bid b = first_price b.bids

unfoldable pub best_ask : OrderBook → Option ℕ
best_ask b = first_price b.asks

unfoldable pub remaining_quantity : OrderBook → ℕ → Option ℕ
unfolding remaining_at
remaining_quantity b id = map_option (remaining_at b) (lookup id b.orders_by_id)

unfoldable pub order_count : OrderBook → ℕ
order_count b = length b.orders_by_id

abbrev pub view_at : OrderBook → ℕ → OrderLocation → OrderView
view_at b id loc = record {
  order_id = id;
  side = loc.side;
  price = loc.price;
  quantity = remaining_at b loc;
}

unfoldable pub order : OrderBook → ℕ → Option OrderView
unfolding remaining_at
order b id = map_option (view_at b id) (lookup id b.orders_by_id)

-- levels.begin()->second.orders.front().order_id; no level of a book is empty (Book/Invariant).
abbrev pub first_id : Levels → Option ℕ
first_id [] = none
first_id ((p, l) ∷ ls) = elim l.orders [ [] ↦ none | (n, e) ∷ os ↦ some e.order_id ]

abbrev pub order_of : OrderBook → Option ℕ → Option OrderView
order_of b none = none
order_of b (some id) = order b id

unfoldable pub front : OrderBook → Side → Option OrderView
unfolding order
front b bid = order_of b (first_id b.bids)
front b ask = order_of b (first_id b.asks)
front b other = none

unfoldable pub level_orders : Side → ℕ → Map ℕ OrderEntry → List OrderView
level_orders side price [] = []
level_orders side price ((n, e) ∷ os) =
    record { order_id = e.order_id; side = side; price = price; quantity = e.remaining_quantity }
    ∷ level_orders side price os

-- The lambda `append` of `snapshot`.
unfoldable pub level_views : Side → Levels → List LevelView
unfolding level_orders
level_views side [] = []
level_views side ((p, l) ∷ ls) =
    record {
      side = side;
      price = p;
      quantity = l.aggregate_quantity;
      orders = level_orders side p l.orders;
    }
    ∷ level_views side ls

unfoldable pub snapshot : OrderBook → List LevelView
unfolding level_views
snapshot b = level_views bid b.bids ++ level_views ask b.asks

unfoldable pub bid_level_count : OrderBook → ℕ
bid_level_count b = length b.bids

unfoldable pub ask_level_count : OrderBook → ℕ
ask_level_count b = length b.asks

-- The visitor keeps a state `S`; it returns `false` to stop the visit.
module _ {ℓ} {S : Type ℓ} (visitor : S → OrderView → S × Bool) where
  unfoldable pub visit_orders : Side → ℕ → Map ℕ OrderEntry → S → S × Bool
  visit_orders side price [] s = (s, true)
  visit_orders side price ((n, e) ∷ os) s =
      let (s', more) = visitor s (record {
        order_id = e.order_id;
        side = side;
        price = price;
        quantity = e.remaining_quantity;
      }) in
      let rest = visit_orders side price os s' in if more then rest else (s', false)

  unfoldable pub visit_levels : Side → Levels → S → S
  unfolding visit_orders
  visit_levels side [] s = s
  visit_levels side ((p, l) ∷ ls) s =
      let (s', more) = visit_orders side p l.orders s in
      let rest = visit_levels side ls s' in if more then rest else s'

  unfoldable pub for_each_order : OrderBook → Side → S → S
  unfolding visit_levels
  for_each_order b bid s = visit_levels bid b.bids s
  for_each_order b ask s = visit_levels ask b.asks s
  for_each_order b other s = s
