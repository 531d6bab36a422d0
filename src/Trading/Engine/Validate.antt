-- ===== src/Trading/Engine/Validate.antt =====
-- `MatchingEngine::validate_invariants`, without the text of its reason.
use limit_order_book.Base.{
  ℕ, ◌+◌, Bool, true, false, not, ◌&&◌, Option, none, some, List, [], ◌∷◌, length, ◌==◌, nat_eq,
  pair_eq, if◌then◌else◌,
}
use limit_order_book.Base.Int.{ℤ, pos, negsuc, ◌+ℤ◌}
use limit_order_book.Map.{Map, lookup}
use limit_order_book.Types.{side_eq}
use limit_order_book.Book.State.{OrderBook}
use limit_order_book.Book.Queries.{OrderView, LevelView, best_bid, best_ask, order_count, snapshot}
use limit_order_book.Book.Validate.{validate_invariants}
use limit_order_book.Trading.Messages.{Message}
use limit_order_book.Trading.Engine.Position.{Position}
use limit_order_book.Trading.Engine.State.{Engine}
use limit_order_book.Trading.Replica.{crossed_prices}

abbrev pub names : Option ℕ → ℕ → Bool
names none id = false
names (some k) id = k == id

-- Does the resting order `m` agree with the order `o` of the book of `instrument`?
abbrev pub owner_agrees : Engine → ℕ → OrderView → Option Message → Bool
owner_agrees e instrument o none = false
owner_agrees e instrument o (some m) =
    ((m.instrument_id == instrument)
      && ((m.side == o.side) && ((m.price == o.price) && (m.quantity == o.quantity))))
    && names (lookup (m.client_id, m.order_id) e.by_client) o.order_id

abbrev pub owners_agree : Engine → ℕ → List OrderView → Bool
owners_agree e instrument [] = true
owners_agree e instrument (o ∷ os) =
    owner_agrees e instrument o (lookup o.order_id e.resting) && owners_agree e instrument os

abbrev pub levels_agree : Engine → ℕ → List LevelView → Bool
levels_agree e instrument [] = true
levels_agree e instrument (l ∷ ls) =
    owners_agree e instrument l.orders && levels_agree e instrument ls

-- The loop over the books: how many orders they hold, if all checks pass.
unfoldable pub checked_orders : Engine → Map ℕ OrderBook → Option ℕ
checked_orders e [] = some 0
checked_orders e ((i, book) ∷ rest) =
    let later = checked_orders e rest in
    if validate_invariants book
      && (not (crossed_prices (best_bid book) (best_ask book)) && levels_agree e i (snapshot book))
    then elim later [ none ↦ none | some n ↦ some (order_count book + n) ]
    else none

abbrev pub total_quantity : ℕ → Map (ℕ × ℕ) Position → ℤ
total_quantity i [] = pos 0
total_quantity i (((client, j), p) ∷ rest) =
    if j == i then p.quantity +ℤ total_quantity i rest else total_quantity i rest

abbrev pub total_cash : ℕ → Map (ℕ × ℕ) Position → ℤ
total_cash i [] = pos 0
total_cash i (((client, j), p) ∷ rest) =
    if j == i then p.cash +ℤ total_cash i rest else total_cash i rest

abbrev pub is_zero : ℤ → Bool
is_zero (pos n) = n == 0
is_zero (negsuc n) = false

-- Do the positions in each instrument cancel out?
unfoldable pub positions_net : Map (ℕ × ℕ) Position → Map (ℕ × ℕ) Position → Bool
positions_net all [] = true
positions_net all (((client, i), p) ∷ rest) =
    (is_zero (total_quantity i all) && is_zero (total_cash i all)) && positions_net all rest

abbrev pub counts_agree : Engine → Option ℕ → Bool
counts_agree e none = false
counts_agree e (some count) = (count == length e.resting) && (count == length e.by_client)

unfoldable pub validate_engine : Engine → Bool
unfolding checked_orders positions_net
validate_engine e =
    counts_agree e (checked_orders e e.books) && positions_net e.positions e.positions
