-- ===== src/Feed/Tests.antt =====
-- A feed without books, and the first order of it.
use limit_order_book.Base.{true, false, [], ◌∷◌, ◌≡◌, refl}
use limit_order_book.Map.{lookup, insert, modify}
use limit_order_book.Types.{bid}
use limit_order_book.Book.State.{Allocation}
use limit_order_book.Book.Apply.{apply_add, add_to, open_level}
use limit_order_book.Book.Queries.{order, best_bid, best_ask, order_count}
use limit_order_book.Book.State.{remaining_at, node_at}
use limit_order_book.Book.Validate.{validate_invariants, validate_levels, validate_orders}
use limit_order_book.Feed.Keys.{book_key_eq, order_key_eq}
use limit_order_book.Feed.Books.{
  EventType, FeedEvent, FeedBooks, consume_feed, apply_feed, apply_typed, add_event, validate_feed,
  tracked_orders, booked_orders,
}

abbrev granted : Allocation
granted = record { level_node = true; order_node = true; index_node = true }

abbrev feed : FeedBooks
feed = record { filter = []; valid = true; updates = 0; books = []; orders = [] }

abbrev order_added : FeedEvent
order_added = record {
  type = EventType.add;
  sequence = 1;
  timestamp_ns = 0;
  channel = 2;
  symbol = 65 ∷ 66 ∷ [];
  order_id = 7;
  new_order_id = 0;
  side = bid;
  price = 10000;
  quantity = 100;
  remaining = 0;
  match_id = 0;
  maintain_priority = false;
}

-- The order is booked, and the routing state and the book agree.
feed_agrees :
    ((consume_feed granted feed (88 ∷ []) order_added).0 ≡ true)
    × (validate_feed (consume_feed granted feed (88 ∷ []) order_added).1 ≡ true)
unfolding consume_feed apply_feed apply_typed add_event validate_feed tracked_orders booked_orders
    order order_count best_bid best_ask remaining_at node_at validate_invariants validate_levels
    validate_orders apply_add add_to open_level lookup insert modify
feed_agrees = (refl, refl)
