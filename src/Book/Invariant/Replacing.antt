-- ===== src/Book/Invariant/Replacing.antt =====
-- What a replacement does to the orders and the queues of a book of src/core/order_book.cpp.
use limit_order_book.Base.{
  ℕ, ◌<◌, ◌⊎◌, Option, none, some, List, [], ◌∷◌, ◌≡◌, refl, sym, ◌∙◌, ap, arith, ◌==◌, nat_eq,
  if◌then◌else◌, Bool-cases, inl, inr, subst, map_option,
}
use limit_order_book.Map.{Map, lookup, modify}
use limit_order_book.Map.Laws.{lookup-modify}
use limit_order_book.Types.{Side, bid, ask, other, u32_mod, AddOrder}
use limit_order_book.Book.State.{
  OrderEntry, PriceLevel, Levels, OrderLocation, OrderBook, levels, with_levels, remaining_at,
  set_remaining, grow, shrink,
}
use limit_order_book.Book.Replace.{adjust}
use limit_order_book.Book.Queries.{order}
use limit_order_book.Book.Spec.{put_order, drop_order}
use limit_order_book.Book.Views.{
  view_of, orders_of, order-orders_of, orders_of-eq, orders_of-change, orders_of-put,
  orders_of-drop,
}
use limit_order_book.Book.Consistent.{
  Consistent-eq, Consistent-change, Consistent-drop, put_node, drop_node, put_index, drop_index,
  location_beq,
}
use limit_order_book.Book.Effects.{added_view, nodes_of-updated, index_of-with_levels}
use limit_order_book.Book.Queue.{with_remaining, is_empty-modify}
use limit_order_book.Book.Levels.{QueueOk-set}
use limit_order_book.Book.Levels.Steps.{LevelsOk-change}
use limit_order_book.Book.Nodes.{nodes_of, index_of, nodes_of-change}
use limit_order_book.Book.Invariant.{IsValid, side_ok, updated-IsValid, Found, updated-with_levels}
use limit_order_book.Book.Invariant.Remove.{remaining_at_found, queue_ok, node_of_loc}
use limit_order_book.Book.Invariant.Replace.{
  moved, moved-IsValid, moved_nodes, moved_index, new_node_free, new_entry, new_location,
}

pub adjusted-IsValid :
    (b : OrderBook) (old_id : ℕ) (old : OrderLocation) (q : ℕ)
    → IsValid b
    → Found b old_id old
    → 0 < q
    → q < u32_mod
    → IsValid (adjust b old q)
unfolding adjust
adjusted-IsValid b old_id old q v f pos small = subst IsValid (updated-with_levels b old.side _) (
    updated-IsValid b old.side _ b.orders_by_id b.next_node f.known v (omega arith)
      (LevelsOk-change old.side b.next_node (levels b old.side) (side_ok b old.side f.known v)
        old.price f.level _ f.at_level
        (rw (remaining_at_found b old_id old f) (
          QueueOk-set b.next_node old.iterator q f.entry f.level f.at_node pos small
            (queue_ok b old_id old v f)))
        (is_empty-modify old.iterator (with_remaining q) f.level.orders
          ∙ ((side_ok b old.side f.known v).each old.price f.level f.at_level).filled))
      (Consistent-eq _ _ _ _
        (λ at. nodes_of-change b old f.known _ f.level f.entry q at f.at_level f.at_node refl)
        (λ j. refl)
        (Consistent-change v.consistent old f.entry (with_remaining q f.entry)
          (node_of_loc b old_id old v f) refl)))

-- The ids of a queue, in the order of their time.
unfoldable pub ids_in : Map ℕ OrderEntry → List ℕ
ids_in [] = []
ids_in ((n, e) ∷ os) = e.order_id ∷ ids_in os

abbrev pub ids_of_level : Option PriceLevel → List ℕ
ids_of_level none = []
ids_of_level (some l) = ids_in l.orders

abbrev pub queue_ids : OrderBook → Side → ℕ → List ℕ
queue_ids b side price = ids_of_level (lookup price (levels b side))

ids_in-modify :
    (n q : ℕ) (os : Map ℕ OrderEntry) → ids_in (modify n (with_remaining q) os) ≡ ids_in os
unfolding ids_in modify
ids_in-modify n q [] = refl
ids_in-modify n q ((m, e) ∷ os) = elim (Bool-cases (m == n)) [
  | inl same ↦ rw same (ap (λ xs. e.order_id ∷ xs) (ids_in-modify n q os))
  | inr apart ↦ rw apart (ap (λ xs. e.order_id ∷ xs) (ids_in-modify n q os))
]

-- A side whose queues keep their ids.
queue_ids-with_levels :
    (b : OrderBook) (s t : Side) (ls : Levels) (price : ℕ)
    → ids_of_level (lookup price ls) ≡ queue_ids b s price
    → queue_ids (with_levels b s ls) t price ≡ queue_ids b t price
queue_ids-with_levels b bid bid ls price h = h
queue_ids-with_levels b bid ask ls price h = refl
queue_ids-with_levels b bid other ls price h = refl
queue_ids-with_levels b ask bid ls price h = refl
queue_ids-with_levels b ask ask ls price h = h
queue_ids-with_levels b ask other ls price h = h
queue_ids-with_levels b other bid ls price h = refl
queue_ids-with_levels b other ask ls price h = h
queue_ids-with_levels b other other ls price h = h

-- No order changes its place when one changes its quantity.
pub queue_ids-adjust :
    (b : OrderBook) (old : OrderLocation) (q : ℕ) (side : Side) (price : ℕ)
    → queue_ids (adjust b old q) side price ≡ queue_ids b side price
unfolding adjust
queue_ids-adjust b old q side price = queue_ids-with_levels b old.side side _ price (
    ap ids_of_level (
      lookup-modify old.price
        (λ l. grow q (set_remaining old.iterator q (shrink (remaining_at b old) l)))
        (levels b old.side) price)
    ∙ kept (lookup price (levels b old.side)))
  where
    kept :
        (o : Option PriceLevel)
        → ids_of_level (
            if old.price == price
            then map_option
                (λ l. grow q (set_remaining old.iterator q (shrink (remaining_at b old) l)))
                o
            else o)
          ≡ ids_of_level o
    kept none = elim (Bool-cases (old.price == price)) [ inl h ↦ rw h refl | inr h ↦ rw h refl ]
    kept (some l) = elim (Bool-cases (old.price == price)) [
      | inl h ↦ rw h (ids_in-modify old.iterator q l.orders)
      | inr h ↦ rw h refl
    ]

module _ (b : OrderBook) (old_id : ℕ) (old : OrderLocation) (next : AddOrder) (v : IsValid b)
    (f : Found b old_id old) (pos : 0 < next.quantity) (small : next.quantity < u32_mod) where
  -- The orders when the quantity of one changes in place.
  pub order-adjusted :
      (j : ℕ)
      → order (adjust b old next.quantity) j
        ≡ put_order (view_of old_id old (some (with_remaining next.quantity f.entry))) (order b) j
  unfolding adjust
  order-adjusted j =
      order-orders_of (adjust b old next.quantity)
        (adjusted-IsValid b old_id old next.quantity v f pos small) j
      ∙ (orders_of-eq (put_node old (with_remaining next.quantity f.entry) (nodes_of b)) _
            (index_of b) _
            (λ at.
              nodes_of-change b old f.known _ f.level f.entry next.quantity at f.at_level f.at_node
                refl)
            (index_of-with_levels b old.side _) j
          ∙ (orders_of-change v.consistent old (with_remaining next.quantity f.entry) j
                (ap (index_of b) f.named ∙ f.indexed)
              ∙ (ap
                    (λ i.
                      put_order (view_of i old (some (with_remaining next.quantity f.entry)))
                        (orders_of (nodes_of b) (index_of b)) j)
                    f.named
                  ∙ ap
                      (λ x.
                        if old_id == j
                        then some (view_of old_id old (some (with_remaining next.quantity f.entry)))
                        else x)
                      (sym (order-orders_of b v j)))))

  -- The orders when one moves.
  pub order-moved :
      (priced : 0 < next.price)
      (fresh : (next.order_id ≡ old_id) ⊎ (lookup next.order_id b.orders_by_id ≡ none))
      → next.side ≡ old.side
      → (j : ℕ)
      → order (moved b old_id old next) j
        ≡ put_order (added_view next) (drop_order old_id (order b)) j
  unfolding location_beq
  order-moved priced fresh side j =
      let loc = new_location b old next in
      let free = new_node_free b old_id old next v f pos small priced fresh in
      let dropped = Consistent-drop v.consistent old old_id f.indexed in
      order-orders_of (moved b old_id old next)
        (moved-IsValid b old_id old next v f pos small priced fresh) j
      ∙ (orders_of-eq (put_node loc (new_entry next) (drop_node old (nodes_of b))) _
            (put_index next.order_id loc (drop_index old_id (index_of b))) _
            (λ at.
              nodes_of-updated b old.side _ _ _ at
              ∙ moved_nodes b old_id old next v f pos small priced fresh at)
            (moved_index b old_id old next v f pos small priced fresh) j
          ∙ (orders_of-put dropped loc (new_entry next) j (ground (arith, free))
              ∙ (ap
                    (λ s.
                      put_order
                        (record {
                          order_id = next.order_id;
                          side = s;
                          price = next.price;
                          quantity = next.quantity;
                        })
                        (orders_of (drop_node old (nodes_of b)) (drop_index old_id (index_of b))) j)
                    (sym side)
                  ∙ ap (λ x. if next.order_id == j then some (added_view next) else x)
                      (orders_of-drop v.consistent old old_id j f.indexed
                        ∙ ap (λ x. if old_id == j then none else x)
                            (sym (order-orders_of b v j))))))
