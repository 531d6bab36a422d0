-- ===== src/Book/Spec.antt =====
-- What a book promises: a map from the ids of the live orders to their side, price and quantity.
-- The specification knows of no levels, queues, nodes, aggregates or allocations.
use limit_order_book.Base.{
  ℕ, ◌-◌, not, Option, none, some, ◌==◌, nat_eq, ltb, if◌then◌else◌, is_some,
}
use limit_order_book.Types.{
  is_known, ApplyResult, ok, duplicate_order, unknown_order, invalid_price, invalid_quantity,
  quantity_exceeds_remaining, AddOrder, CancelOrder, ExecuteOrder, EventPayload, add_order,
  cancel_order, execute_order,
}
use limit_order_book.Book.Queries.{OrderView}

abbrev pub Orders : Type 0
Orders = ℕ → Option OrderView

abbrev pub put_order : OrderView → Orders → Orders
put_order o orders j = if o.order_id == j then some o else orders j

abbrev pub drop_order : ℕ → Orders → Orders
drop_order id orders j = if id == j then none else orders j

unfoldable pub spec_add : Orders → AddOrder → ApplyResult × Orders
spec_add orders e =
    if e.quantity == 0
    then (invalid_quantity, orders)
    else if e.price == 0
    then (invalid_price, orders)
    else if is_some (orders e.order_id)
    then (duplicate_order, orders)
    else if not (is_known e.side)
    then (unknown_order, orders)
    else (
      ok,
      put_order
          (record { order_id = e.order_id; side = e.side; price = e.price; quantity = e.quantity })
          orders,
    )

unfoldable pub spec_cancel : Orders → CancelOrder → ApplyResult × Orders
spec_cancel orders e = elim (orders e.order_id) [
  | none ↦ (unknown_order, orders)
  | some o ↦ (ok, drop_order e.order_id orders)
]

abbrev pub spec_execute_on : Orders → OrderView → ExecuteOrder → ApplyResult × Orders
spec_execute_on orders o e =
    if e.quantity == 0
    then (invalid_quantity, orders)
    else if ltb o.quantity e.quantity
    then (quantity_exceeds_remaining, orders)
    else if o.quantity == e.quantity
    then (ok, drop_order e.order_id orders)
    else (ok, put_order (record o { quantity = o.quantity - e.quantity }) orders)

unfoldable pub spec_execute : Orders → ExecuteOrder → ApplyResult × Orders
spec_execute orders e = elim (orders e.order_id) [
  | none ↦ (unknown_order, orders)
  | some o ↦ spec_execute_on orders o e
]

unfoldable pub spec_apply : Orders → EventPayload → ApplyResult × Orders
unfolding spec_add spec_cancel spec_execute
spec_apply orders (add_order e) = spec_add orders e
spec_apply orders (cancel_order e) = spec_cancel orders e
spec_apply orders (execute_order e) = spec_execute orders e
