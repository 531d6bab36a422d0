-- ===== src/Trading/Replica/Tests.antt =====
-- A replica in step, the next update, and a snapshot of one order.
use limit_order_book.Base.{true, List, [], ◌∷◌, ◌≡◌, refl, arith, nat_eq}
use limit_order_book.Map.{lookup, insert, modify}
use limit_order_book.Types.{ask}
use limit_order_book.Book.State.{Allocation}
use limit_order_book.Book.Apply.{apply_add, add_to, open_level}
use limit_order_book.Book.Queries.{best_bid, best_ask}
use limit_order_book.Book.Validate.{validate_invariants, validate_levels, validate_orders}
use limit_order_book.Trading.Messages.{Message, Kind, UpdateType, default_message}
use limit_order_book.Trading.Engine.Numbering.{BooksOk}
use limit_order_book.Trading.Replica.{Replica, consume, restore, restore_rows, books_are_sound}
use limit_order_book.Trading.Replica.Laws.{Consumed, consume-Consumed}
use limit_order_book.Trading.Replica.Restore.{Restored, restore-Restored}

abbrev granted : Allocation
granted = record { level_node = true; order_node = true; index_node = true }

abbrev replica : Replica
replica = record { books = []; epoch = 5; sequence = 0; synchronized = true }

abbrev added : Message
added = record default_message {
  kind = Kind.delta;
  update = UpdateType.add;
  epoch = 5;
  sequence = 1;
  instrument_id = 1;
  exchange_id = 3;
  side = ask;
  price = 100;
  quantity = 10;
}

nothing-BooksOk : BooksOk []
unfolding lookup
nothing-BooksOk i b h = absurd (ground (arith, h))

consume-Consumed_example : Consumed granted replica added (consume granted replica added)
consume-Consumed_example = consume-Consumed granted replica added (omega arith) nothing-BooksOk

abbrev opening : Message
opening = record default_message {
  kind = Kind.snapshot_begin;
  epoch = 6;
  sequence = 40;
  quantity = 1;
}

abbrev row : Message
row = record added { kind = Kind.snapshot_order; epoch = 6; sequence = 40 }

abbrev closing : Message
closing = record opening { kind = Kind.snapshot_end }

abbrev rows : List Message
rows = row ∷ closing ∷ []

restore-Restored_example :
    Restored granted replica opening (row ∷ []) closing (restore granted replica (opening ∷ rows))
restore-Restored_example =
    restore-Restored granted replica opening row (closing ∷ []) (omega arith, (omega arith, tt))

-- The snapshot is taken over.
restores : (restore granted replica (opening ∷ rows)).0 ≡ true
unfolding restore restore_rows books_are_sound validate_invariants validate_levels validate_orders
    best_bid best_ask apply_add add_to open_level lookup insert modify
restores = refl
