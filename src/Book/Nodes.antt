-- ===== src/Book/Nodes.antt =====
-- The nodes of a book by their location, after each step on the levels of one side.
use limit_order_book.Base.{
  ℕ, true, ◌&&◌, Option, none, some, [], ◌∷◌, ◌≡◌, refl, sym, ap, arith, ◌==◌, nat_eq, nat_beq_iff,
  Bool-cases, Option-cases, inl, inr, map_option, if◌then◌else◌, subst,
}
use limit_order_book.Map.{Map, lookup, modify, erase}
use limit_order_book.Map.Laws.{lookup-erase, lookup-modify}
use limit_order_book.Types.{Side, bid, ask, other, side_eq, side_beq_iff, is_known}
use limit_order_book.Book.State.{
  OrderEntry, PriceLevel, OrderLocation, Levels, OrderBook, levels, with_levels, is_empty, settle,
  node_at, node_in,
}
use limit_order_book.Book.Consistent.{location_beq, Nodes, Index, put_node, drop_node}
use limit_order_book.Book.Queue.{lookup-append, lookup_above, with_remaining}
use limit_order_book.Book.Levels.{LevelsOk}
use limit_order_book.Book.Levels.Steps.{level_or_empty, pushed, lookup-pushed, lookup-settle}

-- The node at a location of the book; a side that is no side has none.
unfoldable pub nodes_of : OrderBook → Nodes
unfolding node_at
nodes_of b loc =
    if is_known loc.side then node_at (levels b loc.side) loc.price loc.iterator else none

abbrev pub index_of : OrderBook → Index
index_of b id = lookup id b.orders_by_id

pub node_at_fresh :
    (s : Side) (next p : ℕ) (ls : Levels) → LevelsOk s next ls → node_at ls p next ≡ none
unfolding node_at
node_at_fresh s next p ls ok = elim (Option-cases (lookup p ls)) [
  | inl e ↦ rw e
  | inr (l, e) ↦ rw e (lookup_above 0 next next l.orders (omega arith) (ok.each p l e).queue.chain)
]

node_in-level_or_empty :
    (o : Option PriceLevel) (n : ℕ) → lookup n (level_or_empty o).orders ≡ node_in o n
unfolding lookup
node_in-level_or_empty none n = refl
node_in-level_or_empty (some l) n = refl

pub node_at-pushed :
    (s : Side) (p n : ℕ) (e : OrderEntry) (ls : Levels) (q m : ℕ)
    → node_at ls p n ≡ none
    → node_at (pushed s p n e ls) q m ≡ (if (p == q) && (n == m) then some e else node_at ls q m)
unfolding node_at
node_at-pushed s p n e ls q m free = rw (lookup-pushed s p n e ls q) (elim (Bool-cases (p == q)) [
  | inl same ↦ rw same (
      ground (
        arith,
        lookup-append n m (level_or_empty (lookup p ls)).orders e,
        node_in-level_or_empty (lookup p ls) n,
        node_in-level_or_empty (lookup p ls) m,
        ap (λ x. node_in (lookup x ls) m) ((nat_beq_iff p q).0 same),
      ))
  | inr apart ↦ rw apart
])

is_empty-lookup :
    (os : Map ℕ OrderEntry) (m : ℕ)
    → node_in
        (if is_empty os then none else some (record { orders = os; aggregate_quantity = 0 }))
        m
      ≡ lookup m os
unfolding lookup
is_empty-lookup [] m = refl
is_empty-lookup (o ∷ os) m = refl

pub node_at-settle :
    (p : ℕ) (f : PriceLevel → PriceLevel) (l : PriceLevel) (ls : Levels) (q m : ℕ)
    → lookup p ls ≡ some l
    → node_at (settle p f ls) q m ≡ (if p == q then lookup m (f l).orders else node_at ls q m)
unfolding node_at
node_at-settle p f l ls q m h =
    rw (lookup-settle p f l ls q h) (ground (arith, is_empty-lookup (f l).orders m))

pub node_at-modify :
    (p : ℕ) (f : PriceLevel → PriceLevel) (l : PriceLevel) (ls : Levels) (q m : ℕ)
    → lookup p ls ≡ some l
    → node_at (modify p f ls) q m ≡ (if p == q then lookup m (f l).orders else node_at ls q m)
unfolding node_at
node_at-modify p f l ls q m h =
    ground (arith, lookup-modify p f ls q, ap (map_option f) h, nat_beq_iff p q)

pub nodes_of-with_levels :
    (b : OrderBook) (s : Side) (ls : Levels) (loc : OrderLocation)
    → is_known s ≡ true
    → nodes_of (with_levels b s ls) loc
      ≡ (if s == loc.side then node_at ls loc.price loc.iterator else nodes_of b loc)
unfolding nodes_of
nodes_of-with_levels b bid ls loc h = ground arith
nodes_of-with_levels b ask ls loc h = ground arith
nodes_of-with_levels b other ls loc h = cc

module _ (b : OrderBook) (loc : OrderLocation) (known : is_known loc.side ≡ true) where
  pub nodes_of_self : nodes_of b loc ≡ node_at (levels b loc.side) loc.price loc.iterator
  unfolding nodes_of
  nodes_of_self = rw known

  same_side :
      (at : OrderLocation)
      → (loc.side == at.side) ≡ true
      → nodes_of b at ≡ node_at (levels b loc.side) at.price at.iterator
  unfolding nodes_of
  same_side at h =
      let e = (side_beq_iff loc.side at.side).0 h in
      rw (subst (λ s. is_known s ≡ true) e known)
        (ap (λ s. node_at (levels b s) at.price at.iterator) (sym e))

  -- A change of the level at `loc` shows at the locations of that level only.
  nodes_of-settle :
      (f : PriceLevel → PriceLevel) (l : PriceLevel) (at : OrderLocation)
      → lookup loc.price (levels b loc.side) ≡ some l
      → nodes_of (with_levels b loc.side (settle loc.price f (levels b loc.side))) at ≡ (
          if (loc.side == at.side) && (loc.price == at.price)
          then lookup at.iterator (f l).orders
          else nodes_of b at)
  nodes_of-settle f l at h = ground (
    arith,
    nodes_of-with_levels b loc.side (settle loc.price f (levels b loc.side)) at known,
    same_side at,
    node_at-settle loc.price f l (levels b loc.side) at.price at.iterator h,
  )

  node_in_level :
      (l : PriceLevel) (at : OrderLocation)
      → lookup loc.price (levels b loc.side) ≡ some l
      → loc.price ≡ at.price
      → node_at (levels b loc.side) at.price at.iterator ≡ lookup at.iterator l.orders
  unfolding node_at
  node_in_level l at h e = rw (← e) (ap (λ o. node_in o at.iterator) h)

  pub nodes_of-erase :
      (f : PriceLevel → PriceLevel) (l : PriceLevel) (at : OrderLocation)
      → lookup loc.price (levels b loc.side) ≡ some l
      → (f l).orders ≡ erase loc.iterator l.orders
      → nodes_of (with_levels b loc.side (settle loc.price f (levels b loc.side))) at
        ≡ drop_node loc (nodes_of b) at
  unfolding location_beq
  nodes_of-erase f l at h step = ground (
    arith,
    nodes_of-settle f l at h,
    ap (lookup at.iterator) step,
    lookup-erase loc.iterator l.orders at.iterator,
    same_side at,
    node_in_level l at h,
  )

  pub nodes_of-pushed :
      (e : OrderEntry) (at : OrderLocation)
      → node_at (levels b loc.side) loc.price loc.iterator ≡ none
      → nodes_of
          (with_levels b loc.side (pushed loc.side loc.price loc.iterator e (levels b loc.side)))
          at
        ≡ put_node loc e (nodes_of b) at
  unfolding location_beq
  nodes_of-pushed e at h = ground (
    arith,
    nodes_of-with_levels b loc.side (pushed loc.side loc.price loc.iterator e (levels b loc.side))
        at known,
    same_side at,
    node_at-pushed loc.side loc.price loc.iterator e (levels b loc.side) at.price at.iterator h,
  )

  pub nodes_of-change :
      (f : PriceLevel → PriceLevel) (l : PriceLevel) (e : OrderEntry) (q : ℕ) (at : OrderLocation)
      → lookup loc.price (levels b loc.side) ≡ some l
      → lookup loc.iterator l.orders ≡ some e
      → (f l).orders ≡ modify loc.iterator (with_remaining q) l.orders
      → nodes_of (with_levels b loc.side (modify loc.price f (levels b loc.side))) at
        ≡ put_node loc (with_remaining q e) (nodes_of b) at
  unfolding location_beq
  nodes_of-change f l e q at h found step = ground (
    arith,
    nodes_of-with_levels b loc.side (modify loc.price f (levels b loc.side)) at known,
    same_side at,
    node_at-modify loc.price f l (levels b loc.side) at.price at.iterator h,
    ap (lookup at.iterator) step,
    lookup-modify loc.iterator (with_remaining q) l.orders at.iterator,
    node_in_level l at h,
    ap (map_option (with_remaining q)) found,
    nat_beq_iff loc.iterator at.iterator,
  )
