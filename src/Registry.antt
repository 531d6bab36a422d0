-- ===== src/Registry.antt =====
-- include/order_book/core/order_registry.hpp: the books by instrument, and the number of the last
-- event that was applied. The logger only observes and is left out.
pub mod Laws
pub mod Tests
use limit_order_book.Base.{
  ℕ, ◌+◌, ◌-◌, Bool, true, false, not, ◌&&◌, Option, none, some, [], ◌∷◌, ltb, ◌==◌, nat_eq,
  if◌then◌else◌, is_some,
}
use limit_order_book.Map.{Map, lookup, contains, insert, erase, modify}
use limit_order_book.Types.{
  ApplyResult, is_ok, allocation_failed, unknown_instrument, AddOrder, CancelOrder, ExecuteOrder,
  EventPayload, add_order, cancel_order, execute_order, MarketEvent,
}
use limit_order_book.Book.State.{OrderBook, Allocation, empty_book}
use limit_order_book.Book.Apply.{apply_add, apply_cancel, apply_execute}
use limit_order_book.Book.Validate.{validate_invariants}
use limit_order_book.Book.Validate.{validate_invariants}
use limit_order_book.Book.Queries.{order_count, bid_level_count, ask_level_count}

pub record Registry : Type 0 where
  pub sequence : ℕ
  pub books : Map ℕ OrderBook

-- Whether the node of `books_` and the pool of a new book can be allocated, and what the book needs.
pub record Memory : Type 0 where
  pub book_node : Bool
  pub allocation : Allocation

abbrev pub with_book :
    ℕ → (ApplyResult × OrderBook) → Map ℕ OrderBook → ApplyResult × Map ℕ OrderBook
with_book i (r, book) books = (r, modify i (λ _. book) books)

-- A book that was made for the order goes again if the order is not accepted.
abbrev pub add_to_new :
    ℕ → (ApplyResult × OrderBook) → Map ℕ OrderBook → ApplyResult × Map ℕ OrderBook
add_to_new i (r, book) books = if is_ok r then (r, insert ltb i book books) else (r, books)

abbrev pub add_in :
    Memory → Map ℕ OrderBook → ℕ → AddOrder → Option OrderBook → ApplyResult × Map ℕ OrderBook
add_in memory books i e (some book) = with_book i (apply_add memory.allocation book e) books
add_in memory books i e none =
    if memory.book_node
    then add_to_new i (apply_add memory.allocation empty_book e) books
    else (allocation_failed, books)

abbrev pub cancel_in :
    Map ℕ OrderBook → ℕ → CancelOrder → Option OrderBook → ApplyResult × Map ℕ OrderBook
cancel_in books i e none = (unknown_instrument, books)
cancel_in books i e (some book) = with_book i (apply_cancel book e) books

abbrev pub execute_in :
    Map ℕ OrderBook → ℕ → ExecuteOrder → Option OrderBook → ApplyResult × Map ℕ OrderBook
execute_in books i e none = (unknown_instrument, books)
execute_in books i e (some book) = with_book i (apply_execute book e) books

-- The three private overloads of `apply`.
unfoldable pub route : Memory → Map ℕ OrderBook → ℕ → EventPayload → ApplyResult × Map ℕ OrderBook
route memory books i (add_order e) = add_in memory books i e (lookup i books)
route memory books i (cancel_order e) = cancel_in books i e (lookup i books)
route memory books i (execute_order e) = execute_in books i e (lookup i books)

abbrev pub committed : Registry → ℕ → ApplyResult × Map ℕ OrderBook → ApplyResult × Registry
committed g sequence (r, books) =
    (r, record { sequence = if is_ok r then sequence else g.sequence; books = books })

unfoldable pub apply_event : Memory → Registry → MarketEvent → ApplyResult × Registry
unfolding route
apply_event memory g event =
    committed g event.sequence (route memory g.books event.instrument_id event.payload)

unfoldable pub seq_valid : Registry → ℕ → Bool
seq_valid g seq = ltb g.sequence seq && (seq - g.sequence == 1)

-- The three counts add up a count of each book.
abbrev pub sum_of : (OrderBook → ℕ) → Map ℕ OrderBook → ℕ
sum_of f [] = 0
sum_of f ((i, book) ∷ rest) = f book + sum_of f rest

unfoldable pub total_orders : Registry → ℕ
total_orders g = sum_of order_count g.books

unfoldable pub total_bid_levels : Registry → ℕ
total_bid_levels g = sum_of bid_level_count g.books

unfoldable pub total_ask_levels : Registry → ℕ
total_ask_levels g = sum_of ask_level_count g.books

-- The checks of every book.
abbrev pub all_valid : Map ℕ OrderBook → Bool
all_valid [] = true
all_valid ((i, book) ∷ rest) = validate_invariants book && all_valid rest

unfoldable pub validate_registry : Registry → Bool
validate_registry g = all_valid g.books
