-- ===== src/Book/Replace.antt =====
-- `OrderBook::replace` of src/core/order_book.cpp: the replacement of an order by a feed.
use limit_order_book.Base.{
  ℕ, suc, Bool, not, ◌&&◌, ◌||◌, none, some, ◌==◌, nat_eq, ltb, if◌then◌else◌,
}
use limit_order_book.Map.{lookup, contains, insert, erase, modify}
use limit_order_book.Types.{
  side_eq, ApplyResult, ok, unknown_order, duplicate_order, invalid_price, invalid_quantity,
  allocation_failed, AddOrder,
}
use limit_order_book.Book.State.{
  OrderEntry, OrderLocation, OrderBook, Allocation, levels, with_levels, emplace_back, pop_back,
  erase_node, set_remaining, grow, shrink, remaining_at, erase_if_empty,
}
use limit_order_book.Book.Apply.{open_level, close_level}

-- The lambda `adjust`: the same node gets the new quantity.
unfoldable pub adjust : OrderBook → OrderLocation → ℕ → OrderBook
adjust b old q = with_levels b old.side (
    modify old.price (λ l. grow q (set_remaining old.iterator q (shrink (remaining_at b old) l)))
      (levels b old.side))

-- The lambda `move_to`: the new node is made first, so that a failure can be taken back.
unfoldable pub move_to :
    Allocation → OrderBook → ℕ → OrderLocation → AddOrder → ApplyResult × OrderBook
unfolding open_level close_level erase_if_empty
move_to alloc b old_id old next =
    let ls = levels b old.side in
    let created = not (contains next.price ls) in
    let opened = open_level old.side next.price created ls in
    let entry : OrderEntry = record {
      order_id = next.order_id;
      remaining_quantity = next.quantity;
    } in
    let queued = modify next.price (emplace_back b.next_node entry) opened in
    let undone =
      with_levels b old.side (close_level next.price created (modify next.price pop_back queued)) in
    let location : OrderLocation = record {
      side = next.side;
      price = next.price;
      iterator = b.next_node;
    } in
    let left =
      modify old.price (λ l. erase_node old.iterator (shrink (remaining_at b old) l)) queued in
    let joined = modify next.price (grow next.quantity) left in
    if created && not alloc.level_node
    then (allocation_failed, b)
    else if not alloc.order_node
    then (allocation_failed, with_levels b old.side (close_level next.price created opened))
    else if not (next.order_id == old_id) && not alloc.index_node
    then (allocation_failed, undone)
    else (
      ok,
      record (with_levels b old.side (erase_if_empty old.price joined)) {
        orders_by_id =
            if next.order_id == old_id
            then modify old_id (λ _. location) b.orders_by_id
            else erase old_id (insert ltb next.order_id location b.orders_by_id);
        next_node = suc b.next_node;
      },
    )

unfoldable pub replace_found :
    Allocation → OrderBook → ℕ → OrderLocation → AddOrder → Bool → ApplyResult × OrderBook
unfolding move_to adjust
replace_found alloc b old_id old next maintain_priority =
    if next.quantity == 0
    then (invalid_quantity, b)
    else if next.price == 0
    then (invalid_price, b)
    else if not (next.side == old.side)
    then (unknown_order, b)
    else if not (next.order_id == old_id) && contains next.order_id b.orders_by_id
    then (duplicate_order, b)
    else if maintain_priority
    then if not (next.price == old.price) || not (next.order_id == old_id)
      then (invalid_price, b)
      else (ok, adjust b old next.quantity)
    else move_to alloc b old_id old next

unfoldable pub replace : Allocation → OrderBook → ℕ → AddOrder → Bool → ApplyResult × OrderBook
unfolding replace_found
replace alloc b old_id next maintain_priority = elim (lookup old_id b.orders_by_id) [
  | none ↦ (unknown_order, b)
  | some old ↦ replace_found alloc b old_id old next maintain_priority
]
