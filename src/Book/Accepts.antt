-- ===== src/Book/Accepts.antt =====
-- A replacement that the book has the memory for is refused for its own faults only.
use limit_order_book.Base.{
  ℕ, Bool, true, false, not, ◌&&◌, some, ◌≡◌, refl, arith, ◌==◌, nat_eq, inl, inr,
}
use limit_order_book.Map.{lookup, contains}
use limit_order_book.Types.{side_eq, side_beq_iff, ok, AddOrder}
use limit_order_book.Book.State.{OrderLocation, OrderBook, Allocation}
use limit_order_book.Book.Replace.{move_to, replace_found, replace}
use limit_order_book.Book.Invariant.Replaced.{Replaceable}
use limit_order_book.Book.Refine.{short}

-- A replacement that keeps the place of the order keeps its price and its id.
abbrev pub InPlace : ℕ → OrderLocation → AddOrder → Type 0
InPlace old_id old next = (next.price ≡ old.price) × (next.order_id ≡ old_id)

module _ (alloc : Allocation) (b : OrderBook) (old_id : ℕ) (old : OrderLocation) (next : AddOrder)
    (g : Replaceable b old_id old next) (memory : short alloc b ≡ false) where
  move_to_accepted : (move_to alloc b old_id old next).0 ≡ ok
  unfolding move_to
  move_to_accepted = ground (arith, memory)

  id_is_free : (not (next.order_id == old_id) && contains next.order_id b.orders_by_id) ≡ false
  id_is_free = elim g.fresh [ inl same ↦ ground (arith, same) | inr free ↦ ground (arith, free) ]

  replace_found_accepted :
      (maintain : Bool)
      → (maintain ≡ true → InPlace old_id old next)
      → (replace_found alloc b old_id old next maintain).0 ≡ ok
  unfolding replace_found
  replace_found_accepted true place =
      let p = place refl in
      ground (
        arith,
        p.0,
        p.1,
        g.positive,
        g.priced,
        (side_beq_iff next.side old.side).1 g.same_side,
        id_is_free,
      )
  replace_found_accepted false place = ground (
    arith,
    move_to_accepted,
    g.positive,
    g.priced,
    (side_beq_iff next.side old.side).1 g.same_side,
    id_is_free,
  )

  -- A replacement of a live order is accepted if no allocation is refused, its side is the order's,
  -- its quantity and price are positive, its id is free or the order's own, and, where the place is
  -- to be kept, its price and id are the order's.
  pub replace_accepted :
      (maintain : Bool)
      → lookup old_id b.orders_by_id ≡ some old
      → (maintain ≡ true → InPlace old_id old next)
      → (replace alloc b old_id next maintain).0 ≡ ok
  unfolding replace
  replace_accepted maintain h place = rw (h, replace) (replace_found_accepted maintain place)
