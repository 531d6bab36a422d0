-- ===== src/Book/Effects.antt =====
-- What the changed books of Book/Invariant show of their orders.
use limit_order_book.Base.{
  ℕ, ◌-◌, ◌<◌, none, some, ◌≡◌, refl, sym, ap, ◌∙◌, ◌==◌, nat_eq, if◌then◌else◌, ltb,
}
use limit_order_book.Map.{Map}
use limit_order_book.Map.Laws.{lookup-insert, lookup-erase}
use limit_order_book.Types.{Side, bid, ask, other, u32_mod, AddOrder}
use limit_order_book.Book.State.{OrderLocation, Levels, OrderBook, with_levels, remaining_at}
use limit_order_book.Book.Queries.{OrderView, order}
use limit_order_book.Book.Consistent.{put_node, drop_node, put_index, drop_index}
use limit_order_book.Book.Queue.{with_remaining}
use limit_order_book.Book.Nodes.{
  nodes_of, index_of, nodes_of_self, nodes_of-erase, nodes_of-pushed, nodes_of-change,
}
use limit_order_book.Book.Invariant.{IsValid, Found, updated, reindexed}
use limit_order_book.Book.Invariant.Add.{
  Accepted, added, entry_of, location_of, added-IsValid, nodes_of_free,
}
use limit_order_book.Book.Invariant.Remove.{removed, lowered, removed-IsValid, lowered-IsValid}
use limit_order_book.Book.Spec.{put_order, drop_order}
use limit_order_book.Book.Views.{
  view_of, orders_of, order-orders_of, orders_of-eq, orders_of-put, orders_of-drop,
  orders_of-change,
}

pub nodes_of-updated :
    (b : OrderBook) (s : Side) (ls : Levels) (index : Map ℕ OrderLocation) (next : ℕ)
    (at : OrderLocation)
    → nodes_of (updated b s ls index next) at ≡ nodes_of (with_levels b s ls) at
unfolding nodes_of
nodes_of-updated b s ls index next at = refl

nodes_of-reindexed :
    (b : OrderBook) (s : Side) (ls : Levels) (index : Map ℕ OrderLocation) (at : OrderLocation)
    → nodes_of (reindexed b s ls index) at ≡ nodes_of (with_levels b s ls) at
unfolding nodes_of
nodes_of-reindexed b s ls index at = refl

pub index_of-with_levels :
    (b : OrderBook) (s : Side) (ls : Levels) (j : ℕ)
    → index_of (with_levels b s ls) j ≡ index_of b j
index_of-with_levels b bid ls j = refl
index_of-with_levels b ask ls j = refl
index_of-with_levels b other ls j = refl

-- The view of an added order.
abbrev pub added_view : AddOrder → OrderView
added_view e = record {
  order_id = e.order_id;
  side = e.side;
  price = e.price;
  quantity = e.quantity;
}

pub order-added :
    (b : OrderBook) (e : AddOrder)
    → IsValid b
    → Accepted b e
    → e.quantity < u32_mod
    → (j : ℕ) → order (added b e) j ≡ put_order (added_view e) (order b) j
order-added b e v a small j =
    order-orders_of (added b e) (added-IsValid b e v a small) j
    ∙ (orders_of-eq (put_node (location_of b e) (entry_of e) (nodes_of b)) _
          (put_index e.order_id (location_of b e) (index_of b)) _
          (λ at.
            nodes_of-updated b e.side _ _ _ at
            ∙ nodes_of-pushed b (location_of b e) a.known (entry_of e) at
                (sym (nodes_of_self b (location_of b e) a.known) ∙ nodes_of_free b e v a))
          (lookup-insert ltb e.order_id (location_of b e) b.orders_by_id) j
        ∙ (orders_of-put v.consistent (location_of b e) (entry_of e) j (nodes_of_free b e v a)
            ∙ ap (λ x. if e.order_id == j then some (added_view e) else x)
                (sym (order-orders_of b v j))))

module _ (b : OrderBook) (id : ℕ) (loc : OrderLocation) (v : IsValid b) (f : Found b id loc) where
  pub order-removed : (j : ℕ) → order (removed b id loc) j ≡ drop_order id (order b) j
  order-removed j =
      order-orders_of (removed b id loc) (removed-IsValid b id loc v f) j
      ∙ (orders_of-eq (drop_node loc (nodes_of b)) _ (drop_index id (index_of b)) _
            (λ at.
              nodes_of-reindexed b loc.side _ _ at
              ∙ nodes_of-erase b loc f.known _ f.level at f.at_level refl)
            (lookup-erase id b.orders_by_id) j
          ∙ (orders_of-drop v.consistent loc id j f.indexed
              ∙ ap (λ x. if id == j then none else x) (sym (order-orders_of b v j))))

  pub order-lowered :
      (q j : ℕ)
      → q < remaining_at b loc
      → order (lowered b loc q) j
        ≡ put_order
            (view_of id loc (some (with_remaining (remaining_at b loc - q) f.entry)))
            (order b)
            j
  order-lowered q j less =
      order-orders_of (lowered b loc q) (lowered-IsValid b id loc v f q less) j
      ∙ (orders_of-eq (put_node loc (with_remaining (remaining_at b loc - q) f.entry) (nodes_of b))
            _ (index_of b) _
            (λ at.
              nodes_of-change b loc f.known _ f.level f.entry (remaining_at b loc - q) at f.at_level
                f.at_node refl)
            (index_of-with_levels b loc.side _) j
          ∙ (orders_of-change v.consistent loc (with_remaining (remaining_at b loc - q) f.entry) j
                (ap (index_of b) f.named ∙ f.indexed)
              ∙ (ap
                    (λ i.
                      put_order
                        (view_of i loc (some (with_remaining (remaining_at b loc - q) f.entry)))
                        (orders_of (nodes_of b) (index_of b)) j)
                    f.named
                  ∙ ap
                      (λ x.
                        if id == j
                        then some (
                            view_of id loc (some (with_remaining (remaining_at b loc - q) f.entry)))
                        else x)
                      (sym (order-orders_of b v j)))))

  -- What `order` shows of the order itself.
  pub order_found :
      order b id
      ≡ some (record {
        order_id = id;
        side = loc.side;
        price = loc.price;
        quantity = remaining_at b loc;
      })
  unfolding order
  order_found = rw (f.indexed, order)
