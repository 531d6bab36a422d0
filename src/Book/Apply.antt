-- ===== src/Book/Apply.antt =====
-- The three events of a book: `OrderBook::apply` of src/core/order_book.cpp, and `reset`.
use limit_order_book.Base.{
  ℕ, suc, ◌-◌, Bool, not, ◌&&◌, none, some, ◌==◌, nat_eq, ltb, if◌then◌else◌,
}
use limit_order_book.Map.{lookup, contains, insert, erase, modify}
use limit_order_book.Types.{
  Side, is_known, ApplyResult, ok, duplicate_order, unknown_order, invalid_price, invalid_quantity,
  quantity_exceeds_remaining, not_implemented, allocation_failed, AddOrder, CancelOrder,
  ExecuteOrder, EventPayload, add_order, cancel_order, execute_order,
}
use limit_order_book.Book.State.{
  OrderEntry, PriceLevel, OrderLocation, Levels, OrderBook, Allocation, before, levels, with_levels,
  empty_level, empty_book, emplace_back, pop_back, erase_node, set_remaining, grow, shrink,
  remaining_at, settle, erase_if_empty,
}

-- levels.try_emplace(price, order_alloc_), whose level is new if `created`
unfoldable pub open_level : Side → ℕ → Bool → Levels → Levels
open_level side price created ls = if created then insert (before side) price empty_level ls else ls

-- if (created_level) levels.erase(level_it)
unfoldable pub close_level : ℕ → Bool → Levels → Levels
close_level price created ls = if created then erase price ls else ls

-- The lambda `add_to`: a failed allocation takes back what was done before it.
unfoldable pub add_to : Allocation → OrderBook → AddOrder → ApplyResult × OrderBook
unfolding open_level close_level
add_to alloc b e =
    let ls = levels b e.side in
    let created = not (contains e.price ls) in
    let opened = open_level e.side e.price created ls in
    let entry : OrderEntry = record { order_id = e.order_id; remaining_quantity = e.quantity } in
    let queued = modify e.price (emplace_back b.next_node entry) opened in
    let undone =
      with_levels b e.side (close_level e.price created (modify e.price pop_back queued)) in
    if created && not alloc.level_node
    then (allocation_failed, b)
    else if not alloc.order_node
    then (allocation_failed, with_levels b e.side (close_level e.price created opened))
    else if contains e.order_id b.orders_by_id
    then (duplicate_order, undone)
    else if not alloc.index_node
    then (allocation_failed, undone)
    else (
      ok,
      record (with_levels b e.side (modify e.price (grow e.quantity) queued)) {
        orders_by_id =
            insert ltb e.order_id
              (record { side = e.side; price = e.price; iterator = b.next_node }) b.orders_by_id;
        next_node = suc b.next_node;
      },
    )

unfoldable pub apply_add : Allocation → OrderBook → AddOrder → ApplyResult × OrderBook
unfolding add_to
apply_add alloc b e =
    if e.quantity == 0
    then (invalid_quantity, b)
    else if e.price == 0
    then (invalid_price, b)
    else if contains e.order_id b.orders_by_id
    then (duplicate_order, b)
    else if not (is_known e.side)
    then (unknown_order, b)
    else if not b.has_pool
    then (allocation_failed, b)
    else add_to alloc b e

-- What a cancel does to the level of the order, the index and the book.
unfoldable pub cancel_at : OrderBook → ℕ → OrderLocation → OrderBook
unfolding erase_if_empty
cancel_at b id loc =
    let taken = λ (l : PriceLevel). erase_node loc.iterator (shrink (remaining_at b loc) l) in
    record (with_levels b loc.side (settle loc.price taken (levels b loc.side))) {
      orders_by_id = erase id b.orders_by_id;
    }

unfoldable pub cancel_found : OrderBook → ℕ → OrderLocation → ApplyResult × OrderBook
unfolding cancel_at
cancel_found b id loc =
    if is_known loc.side
    then elim (lookup loc.price (levels b loc.side)) [
      | none ↦ (unknown_order, b)
      | some l ↦ (ok, cancel_at b id loc)
    ]
    else (not_implemented, b)

unfoldable pub apply_cancel : OrderBook → CancelOrder → ApplyResult × OrderBook
unfolding cancel_found
apply_cancel b e = elim (lookup e.order_id b.orders_by_id) [
  | none ↦ (unknown_order, b)
  | some loc ↦ cancel_found b e.order_id loc
]

-- The node loses `q`; an order that is used up leaves the queue and the index.
unfoldable pub execute_at : OrderBook → ℕ → OrderLocation → ℕ → OrderBook
unfolding erase_if_empty
execute_at b id loc q =
    let left = remaining_at b loc - q in
    let lower = λ (l : PriceLevel). set_remaining loc.iterator left (shrink q l) in
    if left == 0
    then record (with_levels b loc.side
        (settle loc.price (λ l. erase_node loc.iterator (lower l)) (levels b loc.side))) {
          orders_by_id = erase id b.orders_by_id;
        }
    else with_levels b loc.side (modify loc.price lower (levels b loc.side))

unfoldable pub execute_found : OrderBook → ExecuteOrder → OrderLocation → ApplyResult × OrderBook
unfolding execute_at
execute_found b e loc =
    if e.quantity == 0
    then (invalid_quantity, b)
    else if ltb (remaining_at b loc) e.quantity
    then (quantity_exceeds_remaining, b)
    else if is_known loc.side
    then elim (lookup loc.price (levels b loc.side)) [
      | none ↦ (unknown_order, b)
      | some l ↦ (ok, execute_at b e.order_id loc e.quantity)
    ]
    else (not_implemented, b)

unfoldable pub apply_execute : OrderBook → ExecuteOrder → ApplyResult × OrderBook
unfolding execute_found
apply_execute b e = elim (lookup e.order_id b.orders_by_id) [
  | none ↦ (unknown_order, b)
  | some loc ↦ execute_found b e loc
]

-- std::visit on the payload
unfoldable pub apply : Allocation → OrderBook → EventPayload → ApplyResult × OrderBook
apply alloc b (add_order e) = apply_add alloc b e
apply alloc b (cancel_order e) = apply_cancel b e
apply alloc b (execute_order e) = apply_execute b e

unfoldable pub reset : OrderBook → OrderBook
reset b = record b {
  bids = empty_book.bids;
  asks = empty_book.asks;
  orders_by_id = empty_book.orders_by_id;
}
