-- ===== src/Trading/Replica.antt =====
-- `MarketReplica` of src/trading/replica.cpp: the books that a client rebuilds from the public
-- updates. `none` of `restore` and `snapshot` is an exception.
pub mod Laws
pub mod Restore
pub mod Tests
use limit_order_book.Base.{
  ℕ, suc, ◌+◌, ◌-◌, Bool, true, false, not, ◌&&◌, ◌||◌, Option, none, some, List, [], ◌∷◌, ◌++◌,
  map, length, ltb, leb, ◌==◌, nat_eq, if◌then◌else◌, ◌%◌,
}
use limit_order_book.Map.{Map, lookup, contains, insert, modify}
use limit_order_book.Types.{
  ApplyResult, ok, is_ok, unknown_instrument, invalid_quantity, AddOrder, u32_mod,
}
use limit_order_book.Book.State.{OrderBook, Allocation, empty_book}
use limit_order_book.Book.Apply.{apply_add, apply_cancel, apply_execute}
use limit_order_book.Book.Queries.{
  OrderView, LevelView, remaining_quantity, order_count, best_bid, best_ask, snapshot,
}
use limit_order_book.Book.Validate.{validate_invariants}
use limit_order_book.Trading.Messages.{Message, Kind, UpdateType, default_message}

pub record Replica : Type 0 where
  pub books : Map ℕ OrderBook
  pub epoch : ℕ
  pub sequence : ℕ
  pub synchronized : Bool

abbrev pub kind_code : Kind → ℕ
kind_code Kind.command = 1
kind_code Kind.report = 2
kind_code Kind.delta = 3
kind_code Kind.heartbeat = 4
kind_code Kind.snapshot_begin = 5
kind_code Kind.snapshot_order = 6
kind_code Kind.snapshot_end = 7

abbrev pub is_kind : Kind → Kind → Bool
is_kind a b = kind_code a == kind_code b

abbrev pub is_trade : UpdateType → Bool
is_trade UpdateType.trade = true
is_trade UpdateType.add = false
is_trade _ = false

-- books_[m.instrument_id]
abbrev pub book_or_new : Map ℕ OrderBook → ℕ → OrderBook
book_or_new books i = elim (lookup i books) [ none ↦ empty_book | some book ↦ book ]

abbrev pub put_in : Map ℕ OrderBook → ℕ → ApplyResult × OrderBook → ApplyResult × Map ℕ OrderBook
put_in books i (r, book) = (r, insert ltb i book books)

abbrev pub order_in : Message → AddOrder
order_in m = record {
  order_id = m.exchange_id;
  side = m.side;
  price = m.price;
  quantity = m.quantity;
}

abbrev pub reduce_to : OrderBook → Message → Option ℕ → ApplyResult × OrderBook
reduce_to book m none = (invalid_quantity, book)
reduce_to book m (some old) =
    if (m.quantity == 0) || leb old m.quantity
    then (invalid_quantity, book)
    else apply_execute book (record { order_id = m.exchange_id; quantity = old - m.quantity })

-- The branches for a book that is there.
abbrev pub change_book : OrderBook → Message → UpdateType → ApplyResult × OrderBook
change_book book m UpdateType.add = (ok, book)
change_book book m UpdateType.cancel = apply_cancel book (record { order_id = m.exchange_id })
change_book book m UpdateType.execute =
    apply_execute book (record { order_id = m.exchange_id; quantity = m.quantity })
change_book book m UpdateType.reduce = reduce_to book m (remaining_quantity book m.exchange_id)
change_book book m UpdateType.trade = (ok, book)

abbrev pub change_in : Map ℕ OrderBook → Message → Option OrderBook → ApplyResult × Map ℕ OrderBook
change_in books m none = (unknown_instrument, books)
change_in books m (some book) = put_in books m.instrument_id (change_book book m m.update)

-- `if (m.update != UpdateType::Trade) { ... }`
unfoldable pub apply_update :
    Allocation → Map ℕ OrderBook → Message → UpdateType → ApplyResult × Map ℕ OrderBook
apply_update alloc books m UpdateType.trade = (ok, books)
apply_update alloc books m UpdateType.add =
    put_in books m.instrument_id (apply_add alloc (book_or_new books m.instrument_id) (order_in m))
apply_update alloc books m UpdateType.cancel = change_in books m (lookup m.instrument_id books)
apply_update alloc books m UpdateType.execute = change_in books m (lookup m.instrument_id books)
apply_update alloc books m UpdateType.reduce = change_in books m (lookup m.instrument_id books)

abbrev pub lost : Replica → Bool × Replica
lost r = (false, record r { synchronized = false })

abbrev pub consumed : Replica → ℕ → ApplyResult × Map ℕ OrderBook → Bool × Replica
consumed r sequence (result, books) =
    if is_ok result
    then (true, record r { books = books; sequence = sequence })
    else lost (record r { books = books })

-- MarketReplica::consume
unfoldable pub consume : Allocation → Replica → Message → Bool × Replica
unfolding apply_update
consume alloc r m =
    if not r.synchronized
    then (false, r)
    else if not (m.epoch == r.epoch)
    then lost r
    else if is_kind m.kind Kind.heartbeat
    then (if ltb r.sequence m.sequence then lost r else (r.synchronized, r))
    else if not (is_kind m.kind Kind.delta)
    then lost r
    else if leb m.sequence r.sequence
    then (true, r)
    else if not (m.sequence - r.sequence == 1)
    then lost r
    else consumed r m.sequence (apply_update alloc r.books m m.update)

-- MarketReplica::invalidate
abbrev pub invalidate : Replica → Replica
invalidate r = record r { synchronized = false }

unfoldable pub replica_orders : Map ℕ OrderBook → ℕ
replica_orders [] = 0
replica_orders ((i, book) ∷ rest) = order_count book + replica_orders rest

-- One row of a snapshot.
abbrev pub row_of : Message → ℕ → OrderView → Message
row_of m i o = record m {
  kind = Kind.snapshot_order;
  instrument_id = i;
  exchange_id = o.order_id;
  side = o.side;
  price = o.price;
  quantity = o.quantity;
}

abbrev pub level_rows : Message → ℕ → List LevelView → List Message
level_rows m i [] = []
level_rows m i (l ∷ ls) = map (row_of m i) l.orders ++ level_rows m i ls

unfoldable pub book_rows : Message → Map ℕ OrderBook → List Message
book_rows m [] = []
book_rows m ((i, book) ∷ rest) = level_rows m i (snapshot book) ++ book_rows m rest

-- MarketReplica::snapshot
unfoldable pub replica_snapshot : Replica → Option (List Message)
unfolding book_rows
replica_snapshot r =
    if not r.synchronized
    then none
    else (let m = record default_message {
      kind = Kind.snapshot_begin;
      epoch = r.epoch;
      sequence = r.sequence;
      quantity = replica_orders r.books % u32_mod;
    } in
        some (m ∷ book_rows m r.books ++ record m { kind = Kind.snapshot_end } ∷ []))

abbrev pub member : ℕ → List ℕ → Bool
member id [] = false
member id (x ∷ xs) = (x == id) || member id xs

abbrev pub same_watermark : Message → Message → Bool
same_watermark first m = (m.epoch == first.epoch) && (m.sequence == first.sequence)

-- A row that is no order of a book, or repeats an id.
abbrev pub is_bad_row : Message → List ℕ → Bool
is_bad_row m ids =
    not (is_kind m.kind Kind.snapshot_order)
    || ((m.instrument_id == 0) || ((m.exchange_id == 0) || member m.exchange_id ids))

-- The loop over the rows between the first and the last.
unfoldable pub restore_rows :
    Allocation → Message → List Message → List ℕ → Map ℕ OrderBook → Option (Map ℕ OrderBook)
restore_rows alloc first [] ids books = some books
restore_rows alloc first (m ∷ ms) ids books =
    let (result, books') =
      put_in books m.instrument_id
        (apply_add alloc (book_or_new books m.instrument_id) (order_in m)) in
    let rest = restore_rows alloc first ms (m.exchange_id ∷ ids) books' in
    if not (same_watermark first m) || is_bad_row m ids
    then none
    else if is_ok result
    then rest
    else none

abbrev pub crossed_prices : Option ℕ → Option ℕ → Bool
crossed_prices none ask = false
crossed_prices (some bid) none = false
crossed_prices (some bid) (some ask) = leb ask bid

-- The loop over the rebuilt books.
unfoldable pub books_are_sound : Map ℕ OrderBook → Bool
books_are_sound [] = true
books_are_sound ((i, book) ∷ rest) =
    (validate_invariants book && not (crossed_prices (best_bid book) (best_ask book)))
    && books_are_sound rest

abbrev pub is_envelope : Message → List Message → Message → Bool
is_envelope first rows last =
    is_kind first.kind Kind.snapshot_begin
    && (is_kind last.kind Kind.snapshot_end
        && (not (first.epoch == 0)
            && ((length rows == first.quantity) && (last.quantity == first.quantity))))

abbrev pub restored : Replica → Message → Option (Map ℕ OrderBook) → Bool × Replica
restored r first none = lost r
restored r first (some books) =
    if books_are_sound books
    then (
      true,
      record { books = books; epoch = first.epoch; sequence = first.sequence; synchronized = true },
    )
    else lost r

-- The rows as the first, those between, and the last.
abbrev pub split_last : Message → List Message → List Message × Message
split_last m [] = ([], m)
split_last m (x ∷ xs) = let (rows, last) = split_last x xs in (m ∷ rows, last)

-- MarketReplica::restore; `false` is its exception, after which the replica is not synchronized.
unfoldable pub restore : Allocation → Replica → List Message → Bool × Replica
unfolding restore_rows books_are_sound
restore alloc r [] = lost r
restore alloc r (first ∷ []) = lost r
restore alloc r (first ∷ m ∷ ms) =
    let (rows, last) = split_last m ms in
    if not (is_envelope first rows last) || not (same_watermark first last)
    then lost r
    else restored r first (restore_rows alloc first rows [] [])
