-- ===== src/Registry/Laws.antt =====
-- What an event does to the registry: to its own instrument only, and nothing if it is refused.
use limit_order_book.Base.{
  ℕ, true, false, some, ltb, ◌==◌, nat_eq, if◌then◌else◌, ◌≡◌, ◌≢◌, refl, sym, ap, ◌∙◌, subst,
  arith, Bool-cases, Option-cases, inl, inr, nat_beq_iff,
}
use limit_order_book.Map.{Map, lookup, insert, modify}
use limit_order_book.Map.Laws.{lookup-insert, lookup-modify, beq_refl}
use limit_order_book.Types.{
  ApplyResult, ok, is_ok, is_ok-ok, EventPayload, add_order, cancel_order, execute_order,
  MarketEvent,
}
use limit_order_book.Book.State.{OrderBook, empty_book}
use limit_order_book.Book.Apply.{apply_add, apply}
use limit_order_book.Book.Invariant.{IsValid}
use limit_order_book.Book.Invariant.Add.{apply_add-IsValid}
use limit_order_book.Book.Invariant.Remove.{apply_cancel-IsValid, apply_execute-IsValid}
use limit_order_book.Book.Refine.{InRange, apply_undone}
use limit_order_book.Book.Reachable.{created, Reachable-IsValid}
use limit_order_book.Registry.{Registry, Memory, route, apply_event}

abbrev pub EachValid : Registry → Type 0
EachValid g = (i : ℕ) (book : OrderBook) → lookup i g.books ≡ some book → IsValid book

-- The books other than `i` are the same.
abbrev pub SameElsewhere : ℕ → Map ℕ OrderBook → Map ℕ OrderBook → Type 0
SameElsewhere i old books = (j : ℕ) → (i == j) ≡ false → lookup j books ≡ lookup j old

SameElsewhere-modify :
    (i : ℕ) (f : OrderBook → OrderBook) (books : Map ℕ OrderBook)
    → SameElsewhere i books (modify i f books)
SameElsewhere-modify i f books j apart = ground (arith, lookup-modify i f books j, apart)

SameElsewhere-insert :
    (i : ℕ) (book : OrderBook) (books : Map ℕ OrderBook)
    → SameElsewhere i books (insert ltb i book books)
SameElsewhere-insert i book books j apart = ground (arith, lookup-insert ltb i book books j, apart)

module _ (memory : Memory) (books : Map ℕ OrderBook) (i : ℕ) where
  route-SameElsewhere : (p : EventPayload) → SameElsewhere i books (route memory books i p).1
  unfolding route
  route-SameElsewhere (add_order e) = elim (Option-cases (lookup i books)) [
    | inl h ↦ rw h λ j apart. elim (Bool-cases memory.book_node) [
      | inr full ↦ rw full refl
      | inl room ↦ rw room (elim (Bool-cases (is_ok (apply_add memory.allocation empty_book e).0)) [
        | inl good ↦ rw good (SameElsewhere-insert i _ books j apart)
        | inr bad ↦ rw bad refl
      ])
    ]
    | inr (book, h) ↦ rw h (SameElsewhere-modify i _ books)
  ]
  route-SameElsewhere (cancel_order e) = elim (Option-cases (lookup i books)) [
    | inl h ↦ rw h (λ j apart. refl)
    | inr (book, h) ↦ rw h (SameElsewhere-modify i _ books)
  ]
  route-SameElsewhere (execute_order e) = elim (Option-cases (lookup i books)) [
    | inl h ↦ rw h (λ j apart. refl)
    | inr (book, h) ↦ rw h (SameElsewhere-modify i _ books)
  ]

-- At the instrument itself: a valid book, if there is one.
module _ (memory : Memory) (books : Map ℕ OrderBook) (i : ℕ)
    (valid : (b : OrderBook) → lookup i books ≡ some b → IsValid b) where
  abbrev ValidHere : Map ℕ OrderBook → Type 0
  ValidHere m = (b : OrderBook) → lookup i m ≡ some b → IsValid b

  ValidHere-modify : (book : OrderBook) → IsValid book → ValidHere (modify i (λ _. book) books)
  ValidHere-modify book v b h = elim (Option-cases (lookup i books)) [
    | inl none_here ↦ absurd (ground (arith, lookup-modify i (λ _. book) books i, none_here, h))
    | inr (old, here) ↦
        subst IsValid (ground (arith, lookup-modify i (λ _. book) books i, here, h, beq_refl i)) v
  ]

  ValidHere-insert : (book : OrderBook) → IsValid book → ValidHere (insert ltb i book books)
  ValidHere-insert book v b h =
      subst IsValid (ground (arith, lookup-insert ltb i book books i, h, beq_refl i)) v

  route-ValidHere : (p : EventPayload) → InRange p → ValidHere (route memory books i p).1
  unfolding route
  route-ValidHere (add_order e) small = elim (Option-cases (lookup i books)) [
    | inr (book, h) ↦
        rw h (ValidHere-modify _ (apply_add-IsValid memory.allocation book e small (valid book h)))
    | inl h ↦ rw h (elim (Bool-cases memory.book_node) [
      | inr full ↦ rw full valid
      | inl room ↦ rw room (elim (Bool-cases (is_ok (apply_add memory.allocation empty_book e).0)) [
        | inl good ↦ rw good (
            ValidHere-insert _ (
              apply_add-IsValid memory.allocation empty_book e small
                (Reachable-IsValid empty_book (created true))))
        | inr bad ↦ rw bad valid
      ])
    ])
  ]
  route-ValidHere (cancel_order e) small = elim (Option-cases (lookup i books)) [
    | inl h ↦ rw h valid
    | inr (book, h) ↦ rw h (ValidHere-modify _ (apply_cancel-IsValid book e (valid book h)))
  ]
  route-ValidHere (execute_order e) small = elim (Option-cases (lookup i books)) [
    | inl h ↦ rw h valid
    | inr (book, h) ↦ rw h (ValidHere-modify _ (apply_execute-IsValid book e (valid book h)))
  ]

-- An event whose quantity has 32 bits keeps every book of the registry valid, leaves the books of
-- all other instruments as they were, and takes over the event's sequence number if the result is
-- `ok` and keeps its own if not.
pub apply_event_lem :
    (memory : Memory) (g : Registry) (event : MarketEvent)
    → InRange event.payload
    → EachValid g
    → EachValid (apply_event memory g event).1
      × (SameElsewhere event.instrument_id g.books (apply_event memory g event).1.books
          × ((apply_event memory g event).1.sequence
              ≡ (if is_ok (apply_event memory g event).0 then event.sequence else g.sequence)))
unfolding apply_event
apply_event_lem memory g event small valid =
    let i = event.instrument_id in
    let elsewhere = route-SameElsewhere memory g.books i event.payload in
    (
      λ j b h. elim (Bool-cases (i == j)) [
        | inl same ↦
            route-ValidHere memory g.books i (λ b' k. valid i b' k) event.payload small b
              (ap (λ k. lookup k (route memory g.books i event.payload).1)
                  ((nat_beq_iff i j).0 same)
                ∙ h)
        | inr apart ↦ valid j b (sym (elsewhere j apart) ∙ h)
      ],
      (elsewhere, refl),
    )

not_ok : (r : ApplyResult) → r ≢ ok → is_ok r ≡ false
not_ok r bad = elim (Bool-cases (is_ok r)) [ inl h ↦ absurd (bad (is_ok-ok r h)) | inr h ↦ h ]

lookup-modify_same :
    (i : ℕ) (old book : OrderBook) (books : Map ℕ OrderBook)
    → lookup i books ≡ some old
    → book ≡ old
    → (j : ℕ) → lookup j (modify i (λ _. book) books) ≡ lookup j books
lookup-modify_same i old book books here same j = elim (Bool-cases (i == j)) [
  | inl e ↦ ground (arith, lookup-modify i (λ _. book) books j, e, here, same)
  | inr e ↦ ground (arith, lookup-modify i (λ _. book) books j, e)
]

route_undone :
    (memory : Memory) (books : Map ℕ OrderBook) (i : ℕ) (p : EventPayload)
    → (route memory books i p).0 ≢ ok
    → (j : ℕ) → lookup j (route memory books i p).1 ≡ lookup j books
unfolding route apply
route_undone memory books i (add_order e) = elim (Option-cases (lookup i books)) [
  | inr (book, h) ↦ rw h (λ bad.
      lookup-modify_same i book _ books h (apply_undone memory.allocation book (add_order e) bad))
  | inl h ↦ rw h (elim (Bool-cases memory.book_node) [
    | inr full ↦ rw full (λ bad j. refl)
    | inl room ↦ rw room (elim (Bool-cases (is_ok (apply_add memory.allocation empty_book e).0)) [
      | inl good ↦ rw good (λ bad. absurd (bad (is_ok-ok _ good)))
      | inr failed ↦ rw failed (λ bad j. refl)
    ])
  ])
]
route_undone memory books i (cancel_order e) = elim (Option-cases (lookup i books)) [
  | inl h ↦ rw h (λ bad j. refl)
  | inr (book, h) ↦ rw h (λ bad.
      lookup-modify_same i book _ books h
        (apply_undone memory.allocation book (cancel_order e) bad))
]
route_undone memory books i (execute_order e) = elim (Option-cases (lookup i books)) [
  | inl h ↦ rw h (λ bad j. refl)
  | inr (book, h) ↦ rw h (λ bad.
      lookup-modify_same i book _ books h
        (apply_undone memory.allocation book (execute_order e) bad))
]

-- An event that is refused leaves every book and the sequence number as they were.
pub apply_event_undone :
    (memory : Memory) (g : Registry) (event : MarketEvent)
    → (apply_event memory g event).0 ≢ ok
    → ((j : ℕ) → lookup j (apply_event memory g event).1.books ≡ lookup j g.books)
      × ((apply_event memory g event).1.sequence ≡ g.sequence)
unfolding apply_event
apply_event_undone memory g event bad = (
  route_undone memory g.books event.instrument_id event.payload bad,
  rw (not_ok (route memory g.books event.instrument_id event.payload).0 bad) refl,
)
