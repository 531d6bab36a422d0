-- ===== src/Feed/Books.antt =====
-- src/feed/books.cpp: the books of a feed, by venue, channel and symbol. `none` of `apply_feed` is
-- an exception. What the failed event has changed by then is `left_behind`: a new book for an add that
-- it refuses. A change that a book refuses leaves that book as it was, and nothing else is written in
-- front of a throw.
use limit_order_book.Base.{
  ℕ, suc, ◌+◌, ◌-◌, ◌%◌, Bool, true, false, not, ◌&&◌, ◌||◌, Option, none, some, [], ◌∷◌, ltb, leb,
  ◌==◌, nat_eq, if◌then◌else◌, is_some,
}
use limit_order_book.Map.{Map, lookup, contains, insert, erase, modify}
use limit_order_book.Types.{Side, side_eq, ApplyResult, is_ok, AddOrder, u32_mod, u64_mod}
use limit_order_book.Book.State.{OrderBook, Allocation, empty_book}
use limit_order_book.Book.Apply.{apply_add, apply_cancel, apply_execute}
use limit_order_book.Book.Replace.{replace as replace_order}
use limit_order_book.Book.Queries.{order, order_count}
use limit_order_book.Book.Validate.{validate_invariants}
use limit_order_book.Feed.Keys.{
  Text, text_eq, BookKey, OrderKey, book_key_eq, order_key_eq, book_key_before, order_key_before,
}
use limit_order_book.Trading.Engine.State.{◌>>=◌}

pub data EventType : Type 0 where
  metadata directory add reduce execute delete replace execute_remaining trade clear : EventType

pub record FeedEvent : Type 0 where
  pub type : EventType
  pub sequence : ℕ
  pub timestamp_ns : ℕ
  pub channel : ℕ
  pub symbol : Text
  pub order_id : ℕ
  pub new_order_id : ℕ
  pub side : Side
  pub price : ℕ
  pub quantity : ℕ
  pub remaining : ℕ
  pub match_id : ℕ
  pub maintain_priority : Bool

pub record Tracked : Type 0 where
  pub book : BookKey
  pub side : Side
  pub price : ℕ
  pub quantity : ℕ

pub record FeedBooks : Type 0 where
  pub filter : Text
  pub valid : Bool
  pub updates : ℕ
  pub books : Map BookKey OrderBook
  pub orders : Map OrderKey Tracked

abbrev pub is_empty_text : Text → Bool
is_empty_text [] = true
is_empty_text (c ∷ cs) = false

abbrev pub selected : FeedBooks → Text → Bool
selected b symbol = is_empty_text b.filter || (b.filter == symbol)

-- applied(...): a result that is not Ok is an exception.
abbrev pub applied_book : ApplyResult × OrderBook → Option OrderBook
applied_book (r, book) = if is_ok r then some book else none

-- The order for the book, if its price and quantity have 32 bits.
abbrev pub feed_add : ℕ → Side → ℕ → ℕ → Option AddOrder
feed_add id side price quantity =
    if (ltb 0 price && ltb price u32_mod) && (ltb 0 quantity && ltb quantity u32_mod)
    then some (record { order_id = id; side = side; price = price; quantity = quantity })
    else none

abbrev pub key_of : Text → FeedEvent → ℕ → OrderKey
key_of venue e id = record { venue = venue; channel = e.channel; order_id = id }

abbrev pub book_of : Text → FeedEvent → BookKey
book_of venue e = record { venue = venue; channel = e.channel; symbol = e.symbol }

-- p.first.venue == venue && p.first.channel == e.channel
abbrev pub is_cleared : Text → ℕ → BookKey → Bool
is_cleared venue channel k = (k.venue == venue) && (k.channel == channel)

-- std::erase_if for the venue and the channel of a clear
unfoldable pub clear_orders : Text → ℕ → Map OrderKey Tracked → Map OrderKey Tracked
clear_orders venue channel [] = []
clear_orders venue channel ((k, t) ∷ rest) =
    let kept = clear_orders venue channel rest in
    if (k.venue == venue) && (k.channel == channel) then kept else (k, t) ∷ kept

unfoldable pub clear_books : Text → ℕ → Map BookKey OrderBook → Map BookKey OrderBook
clear_books venue channel [] = []
clear_books venue channel ((k, t) ∷ rest) =
    let kept = clear_books venue channel rest in
    if is_cleared venue channel k then kept else (k, t) ∷ kept

abbrev pub book_or_empty : Map BookKey OrderBook → BookKey → OrderBook
book_or_empty books k = elim (lookup k books) [ none ↦ empty_book | some book ↦ book ]

abbrev pub add_selected : Allocation → FeedBooks → BookKey → FeedEvent → Option FeedBooks
add_selected alloc b k e = do
  new_order ← feed_add e.order_id e.side e.price e.quantity
  book ← applied_book (apply_add alloc (book_or_empty b.books k) new_order)
  some (record b {
    books = insert book_key_before k book b.books;
    updates = (b.updates + 1) % u64_mod;
  })

unfoldable pub add_event : Allocation → FeedBooks → Text → FeedEvent → Option FeedBooks
add_event alloc b venue e =
    let k = book_of venue e in
    if is_empty_text e.symbol || contains (key_of venue e e.order_id) b.orders
    then none
    else if (e.price == 0) || (e.quantity == 0)
    then none
    else ((if selected b e.symbol then add_selected alloc b k e else some b) >>= λ b'.
        some (record b' {
          orders =
              insert order_key_before (key_of venue e e.order_id)
                (record { book = k; side = e.side; price = e.price; quantity = e.quantity })
                b'.orders;
        }))

-- What an event does to the book of its order: `no_change` where the book is not kept.
abbrev pub on_book :
    (OrderBook → Option OrderBook) → FeedBooks → BookKey → Option OrderBook → Option FeedBooks
on_book f b k none = some b
on_book f b k (some book) = f book >>= λ book'.
    some (record b { books = modify k (λ _. book') b.books; updates = (b.updates + 1) % u64_mod })

-- it->second.quantity = left, and the order goes at zero
abbrev pub track_left : FeedBooks → OrderKey → ℕ → FeedBooks
track_left b key left =
    if left == 0
    then record b { orders = erase key b.orders }
    else record b { orders = modify key (λ t. record t { quantity = left }) b.orders }

abbrev pub cancel_on : FeedEvent → OrderBook → Option OrderBook
cancel_on e book = applied_book (apply_cancel book (record { order_id = e.order_id }))

abbrev pub execute_on : FeedEvent → OrderBook → Option OrderBook
execute_on e book =
    applied_book
      (apply_execute book (record { order_id = e.order_id; quantity = e.quantity % u32_mod }))

abbrev pub replace_on :
    Allocation → FeedEvent → Option AddOrder → Bool → OrderBook → Option OrderBook
replace_on alloc e next maintain book =
    next >>= λ o. applied_book (replace_order alloc book e.order_id o maintain)

abbrev pub remaining_on : Allocation → FeedEvent → Tracked → OrderBook → Option OrderBook
remaining_on alloc e old book =
    if e.remaining == 0
    then cancel_on e book
    else replace_on alloc e (feed_add e.order_id old.side old.price e.remaining) true book

unfoldable pub delete_event : FeedBooks → OrderKey → FeedEvent → Tracked → Option FeedBooks
delete_event b key e old = on_book (cancel_on e) b old.book (lookup old.book b.books) >>= λ b'.
    some (record b' { orders = erase key b'.orders })

unfoldable pub decrease_event : FeedBooks → OrderKey → FeedEvent → Tracked → Option FeedBooks
decrease_event b key e old =
    if (e.quantity == 0) || ltb old.quantity e.quantity
    then none
    else (on_book (execute_on e) b old.book (lookup old.book b.books) >>= λ b'.
        some (track_left b' key (old.quantity - e.quantity)))

unfoldable pub remaining_event :
    Allocation → FeedBooks → OrderKey → FeedEvent → Tracked → Option FeedBooks
remaining_event alloc b key e old =
    if (e.quantity == 0) || leb u32_mod e.remaining
    then none
    else (on_book (remaining_on alloc e old) b old.book (lookup old.book b.books) >>= λ b'.
        some (track_left b' key e.remaining))

abbrev pub move_tracked : FeedBooks → OrderKey → OrderKey → Tracked → FeedBooks
move_tracked b key next t =
    if next == key
    then record b { orders = modify key (λ _. t) b.orders }
    else record b { orders = erase key (insert order_key_before next t b.orders) }

unfoldable pub replace_event :
    Allocation → FeedBooks → OrderKey → OrderKey → FeedEvent → Tracked → Option FeedBooks
replace_event alloc b key next e old =
    if not (next == key) && contains next b.orders
    then none
    else if (e.price == 0) || (e.quantity == 0)
    then none
    else if e.maintain_priority && (not (next == key) || not (e.price == old.price))
    then none
    else (on_book
          (replace_on alloc e (feed_add e.new_order_id old.side e.price e.quantity)
            e.maintain_priority)
          b old.book (lookup old.book b.books)
        >>= λ b'.
            some (move_tracked b' key next (record old { price = e.price; quantity = e.quantity })))

abbrev pub change_tracked :
    Allocation → FeedBooks → Text → FeedEvent → EventType → Tracked → Option FeedBooks
change_tracked alloc b venue e EventType.delete old =
    delete_event b (key_of venue e e.order_id) e old
change_tracked alloc b venue e EventType.reduce old =
    decrease_event b (key_of venue e e.order_id) e old
change_tracked alloc b venue e EventType.execute old =
    decrease_event b (key_of venue e e.order_id) e old
change_tracked alloc b venue e EventType.execute_remaining old =
    remaining_event alloc b (key_of venue e e.order_id) e old
change_tracked alloc b venue e EventType.replace old =
    replace_event alloc b (key_of venue e e.order_id) (key_of venue e e.new_order_id) e old
change_tracked alloc b venue e EventType.metadata old = none
change_tracked alloc b venue e EventType.directory old = none
change_tracked alloc b venue e EventType.add old = none
change_tracked alloc b venue e EventType.trade old = none
change_tracked alloc b venue e EventType.clear old = none

-- The events of an order that is there.
unfoldable pub follow_up : Allocation → FeedBooks → Text → FeedEvent → Option FeedBooks
follow_up alloc b venue e = do
  old ← lookup (key_of venue e e.order_id) b.orders
  if is_empty_text e.symbol || (old.book.symbol == e.symbol)
      then change_tracked alloc b venue e e.type old
      else none

unfoldable pub apply_typed :
    Allocation → FeedBooks → Text → FeedEvent → EventType → Option FeedBooks
apply_typed alloc b venue e EventType.metadata = some b
apply_typed alloc b venue e EventType.directory = some b
apply_typed alloc b venue e EventType.trade = some b
apply_typed alloc b venue e EventType.clear = some (record b {
  orders = clear_orders venue e.channel b.orders;
  books = clear_books venue e.channel b.books;
})
apply_typed alloc b venue e EventType.add = add_event alloc b venue e
apply_typed alloc b venue e EventType.delete = follow_up alloc b venue e
apply_typed alloc b venue e EventType.reduce = follow_up alloc b venue e
apply_typed alloc b venue e EventType.execute = follow_up alloc b venue e
apply_typed alloc b venue e EventType.execute_remaining = follow_up alloc b venue e
apply_typed alloc b venue e EventType.replace = follow_up alloc b venue e

-- Books::apply
unfoldable pub apply_feed : Allocation → FeedBooks → Text → FeedEvent → Option FeedBooks
unfolding apply_typed
apply_feed alloc b venue e =
    if is_empty_text venue then none else apply_typed alloc b venue e e.type

abbrev pub is_add : EventType → Bool
is_add EventType.add = true
is_add EventType.metadata = false
is_add _ = false

-- Whether an event comes as far as books_.try_emplace(...).
abbrev pub opens_book : FeedBooks → Text → FeedEvent → Bool
opens_book b venue e =
    (not (is_empty_text venue) && is_add e.type)
    && (not (is_empty_text e.symbol || contains (key_of venue e e.order_id) b.orders)
        && (not ((e.price == 0) || (e.quantity == 0))
            && (selected b e.symbol && is_some (feed_add e.order_id e.side e.price e.quantity))))

-- The books where an event has thrown.
abbrev pub left_behind : FeedBooks → Text → FeedEvent → FeedBooks
left_behind b venue e =
    if opens_book b venue e && not (contains (book_of venue e) b.books)
    then record b { books = insert book_key_before (book_of venue e) empty_book b.books }
    else b

abbrev pub poisoned : FeedBooks → Option FeedBooks → Bool × FeedBooks
poisoned left none = (false, record left { valid = false })
poisoned left (some b) = (true, b)

-- Books::consume; `false` is its exception.
unfoldable pub consume_feed : Allocation → FeedBooks → Text → FeedEvent → Bool × FeedBooks
unfolding apply_feed
consume_feed alloc b venue e =
    if not b.valid
    then (false, b)
    else poisoned (left_behind b venue e) (apply_feed alloc b venue e)

-- The orders of the selected symbols, each compared with its book; `none` is a disagreement.
unfoldable pub tracked_orders : FeedBooks → Map OrderKey Tracked → Option ℕ
tracked_orders b [] = some 0
tracked_orders b ((k, t) ∷ rest) =
    let later = tracked_orders b rest in
    if not (selected b t.book.symbol)
    then later
    else (lookup t.book b.books >>= λ book. order book k.order_id >>= λ o.
        if (o.price == t.price) && ((o.quantity == t.quantity) && (o.side == t.side))
        then (later >>= λ n. some (suc n))
        else none)

-- The orders of all books, if each book passes its own checks.
unfoldable pub booked_orders : Map BookKey OrderBook → Option ℕ
booked_orders [] = some 0
booked_orders ((k, book) ∷ rest) =
    let later = booked_orders rest in
    if validate_invariants book then (later >>= λ n. some (order_count book + n)) else none

-- Books::validate_invariants
unfoldable pub validate_feed : FeedBooks → Bool
unfolding tracked_orders booked_orders
validate_feed b = b.valid && elim (tracked_orders b b.orders) [
  | none ↦ false
  | some n ↦ elim (booked_orders b.books) [ none ↦ false | some m ↦ m == n ]
]
