-- ===== src/Registry/Tests.antt =====
-- A registry with one order, and the theorems of Registry at it.
use limit_order_book.Base.{ℕ, true, [], ◌≡◌, ◌≢◌, refl, arith, if◌then◌else◌, nat_eq}
use limit_order_book.Map.{lookup, insert, modify}
use limit_order_book.Types.{
  bid, add_order, cancel_order, MarketEvent, ApplyResult, ok, is_ok, unknown_order,
}
use limit_order_book.Book.Apply.{apply_add, add_to, open_level, apply_cancel}
use limit_order_book.Registry.{Registry, Memory, route, apply_event}
use limit_order_book.Registry.Laws.{EachValid, SameElsewhere, apply_event_lem, apply_event_undone}

abbrev memory : Memory
memory = record {
  book_node = true;
  allocation = record { level_node = true; order_node = true; index_node = true };
}

abbrev empty_registry : Registry
empty_registry = record { sequence = 0; books = [] }

abbrev first : MarketEvent
first = record {
  sequence = 1;
  instrument_id = 4;
  payload = add_order (record { order_id = 7; side = bid; price = 100; quantity = 5 });
}

empty-EachValid : EachValid empty_registry
unfolding lookup
empty-EachValid i b h = absurd (ground (arith, h))

apply_event_lem_example :
    EachValid (apply_event memory empty_registry first).1
    × (SameElsewhere 4 [] (apply_event memory empty_registry first).1.books
        × ((apply_event memory empty_registry first).1.sequence
            ≡ (if is_ok (apply_event memory empty_registry first).0 then 1 else 0)))
apply_event_lem_example = apply_event_lem memory empty_registry first (omega arith) empty-EachValid

abbrev registry : Registry
registry = (apply_event memory empty_registry first).1

abbrev stray : MarketEvent
stray = record { sequence = 2; instrument_id = 4; payload = cancel_order (record { order_id = 9 }) }

stray-refused : (apply_event memory registry stray).0 ≡ unknown_order
unfolding apply_event route apply_add add_to open_level apply_cancel lookup insert modify
stray-refused = refl

unknown_not_ok : (r : ApplyResult) → r ≡ unknown_order → r ≢ ok
unknown_not_ok r h k = cc (h, k)

apply_event_undone_example :
    ((j : ℕ) → lookup j (apply_event memory registry stray).1.books ≡ lookup j registry.books)
    × ((apply_event memory registry stray).1.sequence ≡ registry.sequence)
apply_event_undone_example =
    apply_event_undone memory registry stray
      (unknown_not_ok (apply_event memory registry stray).0 stray-refused)
