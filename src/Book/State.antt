-- ===== src/Book/State.antt =====
-- The state of an `OrderBook` (include/order_book/core/order_book.hpp) and the primitive steps that
-- its operations are made of.
-- A node of a `std::list` is named by a number, which stands for its address: the iterators of a
-- list are these names. New nodes are named in order of allocation.
use limit_order_book.Base.{
  ℕ, ◌+◌, ◌-◌, ◌%◌, Bool, true, false, Option, none, some, List, [], ◌∷◌, ◌++◌, ltb, nat_eq,
  drop_last, if◌then◌else◌,
}
use limit_order_book.Map.{Map, lookup, erase, modify}
use limit_order_book.Types.{Side, bid, ask, other, u64_mod}

pub record OrderEntry : Type 0 where
  pub order_id : ℕ
  pub remaining_quantity : ℕ

-- `orders` is the queue of one price, oldest node first.
pub record PriceLevel : Type 0 where
  pub orders : Map ℕ OrderEntry
  pub aggregate_quantity : ℕ

pub record OrderLocation : Type 0 where
  pub side : Side
  pub price : ℕ
  pub iterator : ℕ

abbrev pub Levels : Type 0
Levels = Map ℕ PriceLevel

-- `has_pool` is `pool_ != nullptr`: a book that was moved from has none.
pub record OrderBook : Type 0 where
  pub has_pool : Bool
  pub bids : Levels
  pub asks : Levels
  pub orders_by_id : Map ℕ OrderLocation
  pub next_node : ℕ

-- Which of the allocations of one call succeed: the map node of a new price level, the list node of
-- the order (from the book's pool), and the node of the order index.
pub record Allocation : Type 0 where
  pub level_node : Bool
  pub order_node : Bool
  pub index_node : Bool

abbrev pub empty_book : OrderBook
empty_book = record { has_pool = true; bids = []; asks = []; orders_by_id = []; next_node = 0 }

-- std::greater for the bids, std::less for the asks.
abbrev pub before : Side → ℕ → ℕ → Bool
before bid a b = ltb b a
before ask a b = ltb a b
before other a b = ltb a b

-- side == Side::Bid ? bids_ : asks_
abbrev pub levels : OrderBook → Side → Levels
levels b bid = b.bids
levels b ask = b.asks
levels b other = b.asks

abbrev pub with_levels : OrderBook → Side → Levels → OrderBook
with_levels b bid ls = record b { bids = ls }
with_levels b ask ls = record b { asks = ls }
with_levels b other ls = record b { asks = ls }

abbrev pub empty_level : PriceLevel
empty_level = record { orders = []; aggregate_quantity = 0 }

-- Sums and differences of `std::uint64_t`.
abbrev pub add_u64 : ℕ → ℕ → ℕ
add_u64 a b = (a + b) % u64_mod

abbrev pub sub_u64 : ℕ → ℕ → ℕ
sub_u64 a b = (a + u64_mod - b) % u64_mod

abbrev pub emplace_back : ℕ → OrderEntry → PriceLevel → PriceLevel
emplace_back n e l = record l { orders = l.orders ++ (n, e) ∷ [] }

abbrev pub pop_back : PriceLevel → PriceLevel
pop_back l = record l { orders = drop_last l.orders }

abbrev pub erase_node : ℕ → PriceLevel → PriceLevel
erase_node n l = record l { orders = erase n l.orders }

abbrev pub set_remaining : ℕ → ℕ → PriceLevel → PriceLevel
set_remaining n q l = record l {
  orders = modify n (λ e. record e { remaining_quantity = q }) l.orders;
}

abbrev pub grow : ℕ → PriceLevel → PriceLevel
grow q l = record l { aggregate_quantity = add_u64 l.aggregate_quantity q }

abbrev pub shrink : ℕ → PriceLevel → PriceLevel
shrink q l = record l { aggregate_quantity = sub_u64 l.aggregate_quantity q }

abbrev pub is_empty {ℓ} : {A : Type ℓ} → List A → Bool
is_empty [] = true
is_empty (x ∷ xs) = false

-- The node that an iterator of the list at `price` denotes.
abbrev pub node_in : Option PriceLevel → ℕ → Option OrderEntry
node_in none n = none
node_in (some l) n = lookup n l.orders

unfoldable pub node_at : Levels → ℕ → ℕ → Option OrderEntry
node_at ls price n = node_in (lookup price ls) n

abbrev pub remaining_in : Option OrderEntry → ℕ
remaining_in none = 0
remaining_in (some e) = e.remaining_quantity

-- iterator->remaining_quantity. The iterators of the index denote live nodes (Book/Invariant), so
-- the value for a dangling one is never read.
unfoldable pub remaining_at : OrderBook → OrderLocation → ℕ
unfolding node_at
remaining_at b loc = remaining_in (node_at (levels b loc.side) loc.price loc.iterator)

abbrev pub level_is_empty : Option PriceLevel → Bool
level_is_empty none = false
level_is_empty (some l) = is_empty l.orders

-- `if (level.orders.empty()) levels.erase(level)`
unfoldable pub erase_if_empty : ℕ → Levels → Levels
erase_if_empty price ls = if level_is_empty (lookup price ls) then erase price ls else ls

-- A level that is changed in place, and erased if its queue is empty then.
abbrev pub settle : ℕ → (PriceLevel → PriceLevel) → Levels → Levels
settle price f ls = erase_if_empty price (modify price f ls)
