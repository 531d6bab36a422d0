-- ===== src/Book/Rollback.antt =====
-- Errors of `apply(AddOrder)`: the book comes back as it was.
use limit_order_book.Base.{
  ℕ, not, ◌≡◌, ◌≢◌, refl, arith, nat_eq, inl, inr, drop_last-append, Option-cases,
}
use limit_order_book.Map.{lookup, contains, modify}
use limit_order_book.Map.Laws.{erase-insert, modify-modify, modify_id}
use limit_order_book.Types.{Side, bid, ask, other, ok, AddOrder}
use limit_order_book.Book.State.{
  OrderEntry, PriceLevel, Levels, OrderBook, Allocation, before, levels, with_levels, empty_level,
  emplace_back, pop_back,
}
use limit_order_book.Book.Apply.{open_level, close_level, add_to, apply_add}

with_levels_self : (b : OrderBook) (s : Side) → with_levels b s (levels b s) ≡ b
with_levels_self b bid = refl
with_levels_self b ask = refl
with_levels_self b other = refl

pop_back-emplace_back :
    (n : ℕ) (e : OrderEntry) (l : PriceLevel) → pop_back (emplace_back n e l) ≡ l
pop_back-emplace_back n e l = λ i. record l { orders = drop_last-append l.orders (n, e) i }

close-open :
    (s : Side) (p : ℕ) (ls : Levels)
    → close_level p (not (contains p ls)) (open_level s p (not (contains p ls)) ls) ≡ ls
unfolding close_level open_level
close-open s p ls = elim (Option-cases (lookup p ls)) [
  | inl e ↦ rw e (erase-insert (before s) p empty_level ls e)
  | inr (l, e) ↦ rw e refl
]

-- pop_back takes back what emplace_back did to the level.
unqueue :
    (p n : ℕ) (e : OrderEntry) (ls : Levels)
    → modify p pop_back (modify p (emplace_back n e) ls) ≡ ls
unqueue p n e ls = rw modify-modify (modify_id p _ ls (pop_back-emplace_back n e))

pub close-open_self :
    (b : OrderBook) (s : Side) (p : ℕ)
    → let created = not (contains p (levels b s)) in
      with_levels b s (close_level p created (open_level s p created (levels b s))) ≡ b
close-open_self b s p = rw close-open (with_levels_self b s)

pub close-unqueue_self :
    (b : OrderBook) (s : Side) (p n : ℕ) (e : OrderEntry)
    → let created = not (contains p (levels b s)) in
      let opened = open_level s p created (levels b s) in
      with_levels b s
        (close_level p created (modify p pop_back (modify p (emplace_back n e) opened)))
      ≡ b
close-unqueue_self b s p n e = rw unqueue (close-open_self b s p)

add_to_undone :
    (alloc : Allocation) (b : OrderBook) (e : AddOrder)
    → (add_to alloc b e).0 ≢ ok
    → (add_to alloc b e).1 ≡ b
unfolding add_to
add_to_undone alloc b e h = ground (
  arith,
  close-open_self b e.side e.price,
  close-unqueue_self b e.side e.price b.next_node
      (record { order_id = e.order_id; remaining_quantity = e.quantity }),
)

pub apply_add_undone :
    (alloc : Allocation) (b : OrderBook) (e : AddOrder)
    → (apply_add alloc b e).0 ≢ ok
    → (apply_add alloc b e).1 ≡ b
unfolding apply_add
apply_add_undone alloc b e h = ground (arith, add_to_undone alloc b e)
