-- ===== src/Book/Tests.antt =====
-- A book with two orders, and the theorems of Book at it.
use limit_order_book.Base.{true, false, some, [], ◌∷◌, subst, ◌≡◌, ◌≢◌, refl, arith, inl, nat_eq}
use limit_order_book.Map.{lookup, insert, modify}
use limit_order_book.Types.{
  bid, AddOrder, EventPayload, add_order, execute_order, ApplyResult, allocation_failed, ok,
}
use limit_order_book.Book.State.{OrderLocation, OrderBook, Allocation, empty_book}
use limit_order_book.Book.Apply.{apply, apply_add, add_to, open_level}
use limit_order_book.Book.Replace.{replace}
use limit_order_book.Book.Validate.{validate_invariants, validate_levels, validate_orders}
use limit_order_book.Book.Queries.{best_bid, best_ask, order}
use limit_order_book.Book.Spec.{spec_apply}
use limit_order_book.Book.Invariant.{IsValid}
use limit_order_book.Book.Invariant.Replaced.{Replaceable, Replaced, replace_Replaced}
use limit_order_book.Book.Refine.{Refines, apply-Refines, apply_undone}
use limit_order_book.Book.Accepts.{replace_accepted}
use limit_order_book.Book.Reachable.{Reachable, created, applied, Reachable-IsValid}

abbrev granted : Allocation
granted = record { level_node = true; order_node = true; index_node = true }

abbrev refused : Allocation
refused = record { level_node = true; order_node = true; index_node = false }

abbrev first_bid : AddOrder
first_bid = record { order_id = 7; side = bid; price = 100; quantity = 5 }

abbrev second_bid : AddOrder
second_bid = record { order_id = 8; side = bid; price = 100; quantity = 3 }

abbrev book : OrderBook
book = record {
  has_pool = true;
  bids =
      (
        100,
        record {
          orders =
              (0, record { order_id = 7; remaining_quantity = 5 })
              ∷ (1, record { order_id = 8; remaining_quantity = 3 })
              ∷ [];
          aggregate_quantity = 8;
        },
      )
      ∷ [];
  asks = [];
  orders_by_id =
      (7, record { side = bid; price = 100; iterator = 0 })
      ∷ (8, record { side = bid; price = 100; iterator = 1 })
      ∷ [];
  next_node = 2;
}

abbrev made : OrderBook
made = (apply granted (apply granted empty_book (add_order first_bid)).1 (add_order second_bid)).1

made-book : made ≡ book
unfolding apply apply_add add_to open_level lookup insert modify
made-book = refl

made-Reachable : Reachable made
made-Reachable =
    applied granted _ (add_order second_bid) (omega arith)
      (applied granted empty_book (add_order first_bid) (omega arith) (created true))

book-IsValid : IsValid book
book-IsValid = subst IsValid made-book (Reachable-IsValid made made-Reachable)

Reachable-IsValid_example : IsValid made
Reachable-IsValid_example = Reachable-IsValid made made-Reachable

abbrev execution : EventPayload
execution = execute_order (record { order_id = 7; quantity = 2 })

apply-Refines_example :
    Refines granted book (spec_apply (order book) execution) (apply granted book execution)
apply-Refines_example = apply-Refines granted book execution book-IsValid (omega arith)

abbrev third_bid : EventPayload
third_bid = add_order (record { order_id = 9; side = bid; price = 100; quantity = 1 })

third_bid-refused : (apply refused book third_bid).0 ≡ allocation_failed
unfolding apply apply_add add_to open_level lookup insert modify
third_bid-refused = refl

failed_not_ok : (r : ApplyResult) → r ≡ allocation_failed → r ≢ ok
failed_not_ok r h k = cc (h, k)

apply_undone_example : (apply refused book third_bid).1 ≡ book
apply_undone_example =
    apply_undone refused book third_bid
      (failed_not_ok (apply refused book third_bid).0 third_bid-refused)

abbrev seventh : OrderLocation
seventh = record { side = bid; price = 100; iterator = 0 }

abbrev larger : AddOrder
larger = record { order_id = 7; side = bid; price = 101; quantity = 9 }

seventh_indexed : lookup 7 book.orders_by_id ≡ some seventh
unfolding lookup
seventh_indexed = refl

replace_Replaced_example :
    Replaced book 7 seventh larger false (replace granted book 7 larger false)
replace_Replaced_example =
    replace_Replaced granted book 7 seventh larger false book-IsValid seventh_indexed (omega arith)

abbrev larger-Replaceable : Replaceable book 7 seventh larger
larger-Replaceable = record {
  positive = omega arith;
  priced = omega arith;
  same_side = refl;
  fresh = inl refl;
}

replace_accepted_example : (replace granted book 7 larger false).0 ≡ ok
replace_accepted_example =
    replace_accepted granted book 7 seventh larger larger-Replaceable refl false seventh_indexed
      λ h. cc

book-validates : validate_invariants book ≡ true
unfolding validate_invariants validate_levels validate_orders lookup best_bid best_ask
book-validates = refl

broken-fails : validate_invariants (record book { orders_by_id = [] }) ≡ false
unfolding validate_invariants validate_levels validate_orders lookup best_bid best_ask
broken-fails = refl
