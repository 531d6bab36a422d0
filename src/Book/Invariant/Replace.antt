-- ===== src/Book/Invariant/Replace.antt =====
-- `replace` keeps the invariant; a move to another place in the book is a removal and an addition.
use limit_order_book.Base.{
  ℕ, suc, ◌+◌, ◌-◌, ◌%◌, ◌<◌, false, not, none, some, ◌≡◌, ◌≢◌, ◌⊎◌, refl, sym, ap, ◌∙◌, arith,
  ◌==◌, nat_eq, nat_beq_iff, Bool-cases, inl, inr, ltb, if◌then◌else◌, map_option,
}
use limit_order_book.Map.{Map, lookup, insert, erase, modify, contains}
use limit_order_book.Map.Laws.{lookup-erase, lookup-insert, lookup-modify, modify_commute}
use limit_order_book.Types.{Side, bid, ask, other, side_eq, u32_mod, u64_mod, ok, AddOrder}
use limit_order_book.Book.State.{
  OrderEntry, PriceLevel, OrderLocation, Levels, OrderBook, Allocation, levels, with_levels,
  emplace_back, erase_node, grow, shrink, settle, remaining_at,
}
use limit_order_book.Book.Apply.{open_level}
use limit_order_book.Book.Rollback.{close-open_self, close-unqueue_self}
use limit_order_book.Book.Replace.{move_to}
use limit_order_book.Book.Consistent.{
  location_beq, Consistent-eq, Consistent-put, Consistent-drop, put_node, drop_node, put_index,
  drop_index,
}
use limit_order_book.Book.Queue.{lookup-append, lookup_above}
use limit_order_book.Book.Levels.{LevelsOk, QueueOk-take}
use limit_order_book.Book.Levels.Steps.{
  pushed, level_or_empty, lookup-pushed, LevelsOk-pushed, LevelsOk-settle,
}
use limit_order_book.Book.Nodes.{
  nodes_of, index_of, node_at_fresh, nodes_of_self, nodes_of-erase, nodes_of-pushed,
}
use limit_order_book.Book.Invariant.{IsValid, side_ok, updated, updated-IsValid, Found}
use limit_order_book.Book.Invariant.Remove.{remaining_at_found, queue_ok, entry_positive}

abbrev pub take_from : OrderBook → OrderLocation → PriceLevel → PriceLevel
take_from b old l = erase_node old.iterator (shrink (remaining_at b old) l)

abbrev pub new_entry : AddOrder → OrderEntry
new_entry next = record { order_id = next.order_id; remaining_quantity = next.quantity }

abbrev pub new_location : OrderBook → OrderLocation → AddOrder → OrderLocation
new_location b old next = record { side = old.side; price = next.price; iterator = b.next_node }

abbrev pub new_index : OrderBook → ℕ → OrderLocation → AddOrder → Map ℕ OrderLocation
new_index b old_id old next =
    if next.order_id == old_id
    then modify old_id (λ _. new_location b old next) b.orders_by_id
    else erase old_id (insert ltb next.order_id (new_location b old next) b.orders_by_id)

abbrev pub queued_levels : OrderBook → OrderLocation → AddOrder → Levels
queued_levels b old next =
    pushed old.side next.price b.next_node (new_entry next) (levels b old.side)

-- The book with the order of `next` at the back of its level and the old order gone.
abbrev pub moved : OrderBook → ℕ → OrderLocation → AddOrder → OrderBook
moved b old_id old next =
    updated b old.side (settle old.price (take_from b old) (queued_levels b old next))
      (new_index b old_id old next) (suc b.next_node)

levels-with_levels : (b : OrderBook) (s : Side) (ls : Levels) → levels (with_levels b s ls) s ≡ ls
levels-with_levels b bid ls = refl
levels-with_levels b ask ls = refl
levels-with_levels b other ls = refl

with_levels-with_levels :
    (b : OrderBook) (s : Side) (ks ls : Levels)
    → with_levels (with_levels b s ks) s ls ≡ with_levels b s ls
with_levels-with_levels b bid ks ls = refl
with_levels-with_levels b ask ks ls = refl
with_levels-with_levels b other ks ls = refl

grow-take :
    (n q r : ℕ)
    → r < u32_mod
    → (l : PriceLevel) → grow q (erase_node n (shrink r l)) ≡ erase_node n (shrink r (grow q l))
grow-take n q r small l = λ i. record { orders = erase n l.orders; aggregate_quantity = sums i }
  where
    sums :
        (((l.aggregate_quantity + u64_mod - r) % u64_mod) + q) % u64_mod
        ≡ (((l.aggregate_quantity + q) % u64_mod) + u64_mod - r) % u64_mod
    sums = omega arith

module _ (b : OrderBook) (old_id : ℕ) (old : OrderLocation) (next : AddOrder) (v : IsValid b)
    (f : Found b old_id old) (pos : 0 < next.quantity) (small : next.quantity < u32_mod)
    (priced : 0 < next.price)
    (fresh : (next.order_id ≡ old_id) ⊎ (lookup next.order_id b.orders_by_id ≡ none)) where
  side_ls : LevelsOk old.side b.next_node (levels b old.side)
  side_ls = side_ok b old.side f.known v

  -- The old level after the push: the same nodes, and the new one if it is the same price.
  record OldLevel (l : PriceLevel) : Type 0 where
    at_level : lookup old.price (queued_levels b old next) ≡ some l
    at_node : lookup old.iterator l.orders ≡ some f.entry

  no_such_node : lookup b.next_node f.level.orders ≡ none
  no_such_node =
      lookup_above 0 b.next_node b.next_node f.level.orders (omega arith)
        (queue_ok b old_id old v f).chain

  old_apart : (b.next_node == old.iterator) ≡ false
  old_apart = elim (Bool-cases (b.next_node == old.iterator)) [
    | inl same ↦ cc (
      no_such_node,
      f.at_node,
      ap (λ n. lookup n f.level.orders) ((nat_beq_iff b.next_node old.iterator).0 same),
    )
    | inr apart ↦ apart
  ]

  old_level : (l : PriceLevel) × OldLevel l
  old_level = elim (Bool-cases (next.price == old.price)) [
    | inl same ↦ (
      grow next.quantity (emplace_back b.next_node (new_entry next) f.level),
      record {
        at_level =
            lookup-pushed old.side next.price b.next_node (new_entry next) (levels b old.side)
              old.price
            ∙ rw same (
                ap
                  (λ o. some (
                    grow next.quantity
                      (emplace_back b.next_node (new_entry next) (level_or_empty o))))
                  (ap (λ p. lookup p (levels b old.side))
                      ((nat_beq_iff next.price old.price).0 same)
                    ∙ f.at_level));
        at_node =
            lookup-append b.next_node old.iterator f.level.orders (new_entry next) no_such_node
            ∙ rw old_apart f.at_node;
      },
    )
    | inr apart ↦ (
      f.level,
      record {
        at_level =
            lookup-pushed old.side next.price b.next_node (new_entry next) (levels b old.side)
              old.price
            ∙ (rw apart f.at_level);
        at_node = f.at_node;
      },
    )
  ]

  moved_levels :
      LevelsOk old.side
        (suc b.next_node)
        (settle old.price (take_from b old) (queued_levels b old next))
  moved_levels =
      let (l, o) = old_level in
      let ok =
        LevelsOk-pushed old.side b.next_node (levels b old.side) side_ls next.price (new_entry next)
          priced pos small in
      LevelsOk-settle old.side (suc b.next_node) _ ok old.price (take_from b old) l o.at_level (
        rw (remaining_at_found b old_id old f) (
          QueueOk-take (suc b.next_node) old.iterator f.entry l o.at_node
            (ok.each old.price l o.at_level).queue))

  pub new_node_free : nodes_of b (new_location b old next) ≡ none
  new_node_free =
      nodes_of_self b (new_location b old next) f.known
      ∙ node_at_fresh old.side b.next_node next.price (levels b old.side) side_ls

  queued_nodes :
      (at : OrderLocation)
      → nodes_of (with_levels b old.side (queued_levels b old next)) at
        ≡ put_node (new_location b old next) (new_entry next) (nodes_of b) at
  queued_nodes at =
      nodes_of-pushed b (new_location b old next) f.known (new_entry next) at
        (node_at_fresh old.side b.next_node next.price (levels b old.side) side_ls)

  taken_nodes :
      (at : OrderLocation)
      → nodes_of
          (with_levels b old.side (settle old.price (take_from b old) (queued_levels b old next)))
          at
        ≡ drop_node old (nodes_of (with_levels b old.side (queued_levels b old next))) at
  taken_nodes at =
      let (l, o) = old_level in
      let b' = with_levels b old.side (queued_levels b old next) in
      let self = levels-with_levels b old.side (queued_levels b old next) in
      let twice =
        with_levels-with_levels b old.side (queued_levels b old next)
          (settle old.price (take_from b old) (queued_levels b old next)) in
      sym (ap (λ x. nodes_of x at) twice)
      ∙ (ap (λ x. nodes_of (with_levels b' old.side (settle old.price (take_from b old) x)) at)
            (sym self)
          ∙ nodes_of-erase b' old f.known (take_from b old) l at
              (ap (lookup old.price) self ∙ o.at_level) refl)

  pub moved_nodes :
      (at : OrderLocation)
      → nodes_of
          (with_levels b old.side (settle old.price (take_from b old) (queued_levels b old next)))
          at
        ≡ put_node (new_location b old next) (new_entry next) (drop_node old (nodes_of b)) at
  unfolding location_beq
  moved_nodes at = ground (arith, taken_nodes at, queued_nodes at, old_apart)

  ids_apart : lookup next.order_id b.orders_by_id ≡ none → (next.order_id == old_id) ≡ false
  ids_apart new = elim (Bool-cases (next.order_id == old_id)) [
    | inl same ↦ cc (
      new,
      f.indexed,
      ap (λ i. lookup i b.orders_by_id) ((nat_beq_iff next.order_id old_id).0 same),
    )
    | inr apart ↦ apart
  ]

  pub moved_index :
      (j : ℕ)
      → lookup j (new_index b old_id old next)
        ≡ put_index next.order_id (new_location b old next) (drop_index old_id (index_of b)) j
  moved_index j = elim fresh [
    | inl same ↦ ground (
      arith,
      lookup-modify old_id (λ _. new_location b old next) b.orders_by_id j,
      ap (map_option (λ (_ : OrderLocation). new_location b old next)) f.indexed,
      nat_beq_iff old_id j,
    )
    | inr new ↦ ground (
      arith,
      ids_apart new,
      lookup-erase old_id (insert ltb next.order_id (new_location b old next) b.orders_by_id) j,
      lookup-insert ltb next.order_id (new_location b old next) b.orders_by_id j,
    )
  ]

  pub moved-IsValid : IsValid (moved b old_id old next)
  moved-IsValid =
      updated-IsValid b old.side _ (new_index b old_id old next) (suc b.next_node) f.known v
        (omega arith) moved_levels
        (Consistent-eq _ _ _ _ moved_nodes moved_index (
          Consistent-put (Consistent-drop v.consistent old old_id f.indexed)
            (new_location b old next) (new_entry next) (ground (arith, new_node_free))
            (elim fresh [ inl same ↦ ground arith | inr new ↦ ground arith ])))

  pub move_to-moved :
      (alloc : Allocation)
      → next.side ≡ old.side
      → (move_to alloc b old_id old next).0 ≡ ok
      → (move_to alloc b old_id old next).1 ≡ moved b old_id old next
  unfolding move_to
  move_to-moved alloc same h = ground (
    arith,
    modify_commute next.price old.price (grow next.quantity) (take_from b old)
        (modify next.price (emplace_back b.next_node (new_entry next)) (
          open_level old.side next.price (not (contains next.price (levels b old.side)))
            (levels b old.side)))
        (grow-take old.iterator next.quantity (remaining_at b old)
          (rw (remaining_at_found b old_id old f) (entry_positive b old_id old v f).1)),
  )

pub move_to_undone :
    (alloc : Allocation) (b : OrderBook) (old_id : ℕ) (old : OrderLocation) (next : AddOrder)
    → (move_to alloc b old_id old next).0 ≢ ok
    → (move_to alloc b old_id old next).1 ≡ b
unfolding move_to
move_to_undone alloc b old_id old next h = ground (
  arith,
  close-open_self b old.side next.price,
  close-unqueue_self b old.side next.price b.next_node (new_entry next),
)
