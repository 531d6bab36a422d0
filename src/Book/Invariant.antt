-- ===== src/Book/Invariant.antt =====
-- The invariant of an `OrderBook`, and that every operation keeps it.
pub mod Add
pub mod Remove
pub mod Replace
pub mod Replacing
pub mod Replaced
use limit_order_book.Base.{
  ℕ, suc, ◌+◌, ◌-◌, ◌≤◌, ◌<◌, Bool, true, false, not, ◌&&◌, Option, none, some, [], ◌∷◌, ◌++◌, ◌≡◌,
  ◌≢◌, refl, sym, ap, ◌∙◌, arith, ◌==◌, nat_eq, nat_beq_iff, Bool-cases, Option-cases, inl, inr,
  ◌⊎◌, map_option, if◌then◌else◌, subst, ltb,
}
use limit_order_book.Map.{Map, lookup, insert, erase, modify, contains}
use limit_order_book.Map.Laws.{lookup-insert, lookup-erase, lookup-modify, erase-modify}
use limit_order_book.Types.{Side, bid, ask, other, side_eq, side_beq_iff, is_known, u32_mod}
use limit_order_book.Book.State.{
  OrderEntry, PriceLevel, OrderLocation, Levels, OrderBook, levels, with_levels, emplace_back,
  erase_node, grow, is_empty, settle, node_at, node_in,
}
use limit_order_book.Book.Consistent.{
  location_beq, location_beq_iff, Nodes, Index, put_node, drop_node, Consistent, Consistent-eq,
  Consistent-put, Consistent-drop, Consistent-change, put_index, drop_index,
}
use limit_order_book.Book.Levels.{LevelsOk, QueueOk}
use limit_order_book.Book.Levels.Steps.{pushed, LevelsOk-pushed, LevelsOk-settle, LevelsOk-mono}
use limit_order_book.Book.Nodes.{
  nodes_of, index_of, node_at_fresh, nodes_of_self, nodes_of-erase, nodes_of-pushed,
  nodes_of-change,
}

-- Both sides are sorted and their levels well-formed; the index and the queues agree.
pub record IsValid (b : OrderBook) : Type 0 where
  pub bids_ok : LevelsOk bid b.next_node b.bids
  pub asks_ok : LevelsOk ask b.next_node b.asks
  pub consistent : Consistent (nodes_of b) (index_of b)

pub side_ok :
    (b : OrderBook) (s : Side) → is_known s ≡ true → IsValid b → LevelsOk s b.next_node (levels b s)
side_ok b bid h v = v.bids_ok
side_ok b ask h v = v.asks_ok
side_ok b other h v = cc

-- The book after a change of the levels of one side and of the index.
abbrev pub updated : OrderBook → Side → Levels → Map ℕ OrderLocation → ℕ → OrderBook
updated b s ls index next = record (with_levels b s ls) { orders_by_id = index; next_node = next }

pub updated-IsValid :
    (b : OrderBook) (s : Side) (ls : Levels) (index : Map ℕ OrderLocation) (next : ℕ)
    → is_known s ≡ true
    → IsValid b
    → b.next_node ≤ next
    → LevelsOk s next ls
    → Consistent (nodes_of (with_levels b s ls)) (λ id. lookup id index)
    → IsValid (updated b s ls index next)
unfolding nodes_of
updated-IsValid b bid ls index next k v up ok c = record {
  bids_ok = ok;
  asks_ok = LevelsOk-mono ask b.next_node b.asks v.asks_ok next up;
  consistent = c;
}
updated-IsValid b ask ls index next k v up ok c = record {
  bids_ok = LevelsOk-mono bid b.next_node b.bids v.bids_ok next up;
  asks_ok = ok;
  consistent = c;
}
updated-IsValid b other ls index next k v up ok c = cc

abbrev pub reindexed : OrderBook → Side → Levels → Map ℕ OrderLocation → OrderBook
reindexed b s ls index = record (with_levels b s ls) { orders_by_id = index }

pub updated-reindexed :
    (b : OrderBook) (s : Side) (ls : Levels) (index : Map ℕ OrderLocation)
    → updated b s ls index b.next_node ≡ reindexed b s ls index
updated-reindexed b bid ls index = refl
updated-reindexed b ask ls index = refl
updated-reindexed b other ls index = refl

pub updated-with_levels :
    (b : OrderBook) (s : Side) (ls : Levels)
    → updated b s ls b.orders_by_id b.next_node ≡ with_levels b s ls
updated-with_levels b bid ls = refl
updated-with_levels b ask ls = refl
updated-with_levels b other ls = refl

-- What the index says of an order of a valid book: its level, and its node there.
pub record Found (b : OrderBook) (id : ℕ) (loc : OrderLocation) : Type 0 where
  pub level : PriceLevel
  pub entry : OrderEntry
  pub known : is_known loc.side ≡ true
  pub at_level : lookup loc.price (levels b loc.side) ≡ some level
  pub at_node : lookup loc.iterator level.orders ≡ some entry
  pub named : entry.order_id ≡ id
  pub indexed : lookup id b.orders_by_id ≡ some loc

pub found :
    (b : OrderBook) (id : ℕ) (loc : OrderLocation)
    → IsValid b
    → lookup id b.orders_by_id ≡ some loc
    → Found b id loc
unfolding nodes_of node_at
found b id loc v h =
    let (e, p, q) = v.consistent.node_of id loc h in
    let known : is_known loc.side ≡ true = ground arith in
    elim (Option-cases (lookup loc.price (levels b loc.side))) [
      | inl missing ↦ absurd (ground (arith, ap (λ o. node_in o loc.iterator) missing))
      | inr (l, at) ↦ record {
        level = l;
        entry = e;
        known = known;
        at_level = at;
        at_node = ground (arith, ap (λ o. node_in o loc.iterator) at);
        named = q;
        indexed = h;
      }
    ]
