-- ===== src/Book/Invariant/Add.antt =====
-- `apply(AddOrder)` keeps the invariant, and what it adds.
use limit_order_book.Base.{suc, ◌<◌, true, none, ◌≡◌, sym, ◌∙◌, arith, nat_eq, inl, inr, ltb, subst}
use limit_order_book.Map.{lookup, insert}
use limit_order_book.Map.Laws.{lookup-insert}
use limit_order_book.Types.{is_known, u32_mod, ok, ok-cases, AddOrder}
use limit_order_book.Book.State.{OrderEntry, OrderLocation, OrderBook, Allocation, levels}
use limit_order_book.Book.Apply.{apply_add}
use limit_order_book.Book.Rollback.{apply_add_undone}
use limit_order_book.Book.Consistent.{Consistent-eq, Consistent-put}
use limit_order_book.Book.Levels.Steps.{pushed, LevelsOk-pushed}
use limit_order_book.Book.Nodes.{nodes_of, node_at_fresh, nodes_of_self, nodes_of-pushed}
use limit_order_book.Book.Invariant.{IsValid, side_ok, updated, updated-IsValid}

abbrev pub entry_of : AddOrder → OrderEntry
entry_of e = record { order_id = e.order_id; remaining_quantity = e.quantity }

abbrev pub location_of : OrderBook → AddOrder → OrderLocation
location_of b e = record { side = e.side; price = e.price; iterator = b.next_node }

-- The book with the order of `e` at the back of its level.
abbrev pub added : OrderBook → AddOrder → OrderBook
added b e =
    updated b e.side (pushed e.side e.price b.next_node (entry_of e) (levels b e.side))
      (insert ltb e.order_id (location_of b e) b.orders_by_id) (suc b.next_node)

-- What the guards of an accepted order have checked.
pub record Accepted (b : OrderBook) (e : AddOrder) : Type 0 where
  pub positive : 0 < e.quantity
  pub priced : 0 < e.price
  pub fresh : lookup e.order_id b.orders_by_id ≡ none
  pub known : is_known e.side ≡ true

pub apply_add-Accepted :
    (alloc : Allocation) (b : OrderBook) (e : AddOrder)
    → (apply_add alloc b e).0 ≡ ok
    → Accepted b e
unfolding apply_add
apply_add-Accepted alloc b e h = record {
  positive = ground arith;
  priced = ground arith;
  fresh = ground arith;
  known = ground arith;
}

pub apply_add-added :
    (alloc : Allocation) (b : OrderBook) (e : AddOrder)
    → (apply_add alloc b e).0 ≡ ok
    → (apply_add alloc b e).1 ≡ added b e
unfolding apply_add
apply_add-added alloc b e h = ground arith

module _ (b : OrderBook) (e : AddOrder) (v : IsValid b) (a : Accepted b e) where
  pub nodes_of_free : nodes_of b (location_of b e) ≡ none
  nodes_of_free =
      nodes_of_self b (location_of b e) a.known
      ∙ node_at_fresh e.side b.next_node e.price (levels b e.side) (side_ok b e.side a.known v)

  pub added-IsValid : e.quantity < u32_mod → IsValid (added b e)
  added-IsValid small =
      updated-IsValid b e.side _ (insert ltb e.order_id (location_of b e) b.orders_by_id)
        (suc b.next_node) a.known v (omega arith)
        (LevelsOk-pushed e.side b.next_node (levels b e.side) (side_ok b e.side a.known v) e.price
          (entry_of e) a.priced a.positive small)
        (Consistent-eq _ _ _ _
          (λ at.
            nodes_of-pushed b (location_of b e) a.known (entry_of e) at
              (sym (nodes_of_self b (location_of b e) a.known) ∙ nodes_of_free))
          (lookup-insert ltb e.order_id (location_of b e) b.orders_by_id)
          (Consistent-put v.consistent (location_of b e) (entry_of e) nodes_of_free a.fresh))

pub apply_add-IsValid :
    (alloc : Allocation) (b : OrderBook) (e : AddOrder)
    → e.quantity < u32_mod
    → IsValid b
    → IsValid (apply_add alloc b e).1
apply_add-IsValid alloc b e small v = elim (ok-cases (apply_add alloc b e).0) [
  | inl h ↦
      subst IsValid (sym (apply_add-added alloc b e h))
        (added-IsValid b e v (apply_add-Accepted alloc b e h) small)
  | inr h ↦ subst IsValid (sym (apply_add_undone alloc b e h)) v
]
