-- ===== src/Trading/Replica/Restore.antt =====
-- What a snapshot does to a replica.
use limit_order_book.Base.{
  ◌==◌, ◌&&◌, false, ap, ◌∙◌, nat_beq_iff, if◌then◌else◌, ℕ, ◌<◌, Bool, true, not, ◌||◌, Option,
  none, some, List, [], ◌∷◌, ltb, nat_eq, ◌≡◌, refl, arith, Bool-cases, inl, inr,
}
use limit_order_book.Map.{Map, lookup, insert}
use limit_order_book.Types.{ok, is_ok-ok, is_ok, u32_mod}
use limit_order_book.Book.State.{OrderBook, Allocation}
use limit_order_book.Book.Apply.{apply_add}
use limit_order_book.Book.Invariant.Add.{apply_add-IsValid, apply_add-added, apply_add-Accepted}
use limit_order_book.Book.Queries.{order}
use limit_order_book.Book.Spec.{Orders, put_order}
use limit_order_book.Book.Effects.{added_view, order-added}
use limit_order_book.Map.Laws.{lookup-insert}
use limit_order_book.Trading.Messages.{Message}
use limit_order_book.Trading.Replica.{
  Replica, book_or_new, order_in, lost, restore_rows, same_watermark, is_bad_row, books_are_sound,
  is_envelope, restored, split_last, restore,
}
use limit_order_book.Trading.Engine.Numbering.{BooksOk}
use limit_order_book.Trading.Engine.Ensures.{Ensures}
use limit_order_book.Trading.Replica.Laws.{BooksOk-insert, book_or_new-IsValid}

-- The quantities of the rows have 32 bits.
abbrev pub Quantities : List Message → Type 0
Quantities [] = Unit
Quantities (m ∷ ms) = (m.quantity < u32_mod) × Quantities ms

-- The live orders by instrument and id.
abbrev pub Table : Type 0
Table = ℕ → Orders

abbrev pub no_orders : Table
no_orders i j = none

-- The order of a row, and the table that the rows make.
abbrev pub put_row : Message → Table → Table
put_row m t i j =
    if m.instrument_id == i then put_order (added_view (order_in m)) (t i) j else t i j

abbrev pub taken : List Message → Table → Table
taken [] t = t
taken (m ∷ ms) t = taken ms (put_row m t)

abbrev pub table_of : Map ℕ OrderBook → Table
table_of books i j = order (book_or_new books i) j

-- The books are valid and hold the orders of a table.
pub record Hold (t : Table) (books : Map ℕ OrderBook) : Type 0 where
  pub books_ok : BooksOk books
  pub orders : (i j : ℕ) → table_of books i j ≡ t i j

book_or_new-insert :
    (books : Map ℕ OrderBook) (k i j : ℕ) (book : OrderBook)
    → table_of (insert ltb k book books) i j ≡ (if k == i then order book j else table_of books i j)
book_or_new-insert books k i j book = elim (Bool-cases (k == i)) [
  | inl same ↦ rw (book_or_new, lookup-insert ltb k book books i, same) refl
  | inr other ↦ rw (book_or_new, lookup-insert ltb k book books i, other) refl
]

-- A row that a book accepts.
row-Hold :
    (alloc : Allocation) (m : Message) (t : Table) (books : Map ℕ OrderBook)
    → m.quantity < u32_mod
    → Hold t books
    → (apply_add alloc (book_or_new books m.instrument_id) (order_in m)).0 ≡ ok
    → Hold (put_row m t) (
        insert ltb m.instrument_id
          (apply_add alloc (book_or_new books m.instrument_id) (order_in m)).1
          books)
row-Hold alloc m t books small h accepted =
    let k = m.instrument_id in
    let old = book_or_new books k in
    let valid = book_or_new-IsValid books k h.books_ok in
    let new = (apply_add alloc old (order_in m)).1 in
    let joined : (j : ℕ) → order new j ≡ put_order (added_view (order_in m)) (order old) j = λ j.
      ap (λ b. order b j) (apply_add-added alloc old (order_in m) accepted)
      ∙ order-added old (order_in m) valid (apply_add-Accepted alloc old (order_in m) accepted)
          small j in
    record {
      books_ok =
          BooksOk-insert books k new h.books_ok
            (apply_add-IsValid alloc old (order_in m) small valid);
      orders = λ i j. book_or_new-insert books k i j new ∙ elim (Bool-cases (k == i)) [
        | inl same ↦
            let at = (nat_beq_iff k i).0 same in
            rw same (
              joined j
              ∙ ap (λ o. if m.exchange_id == j then some (added_view (order_in m)) else o)
                  (h.orders k j ∙ ap (λ n. t n j) at))
        | inr other ↦ rw other (h.orders i j)
      ];
    }

restore_rows-Hold :
    (alloc : Allocation) (first : Message) (ms : List Message) (ids : List ℕ) (t : Table)
    (books : Map ℕ OrderBook)
    → Quantities ms
    → Hold t books
    → Ensures (Hold (taken ms t)) (restore_rows alloc first ms ids books)
unfolding restore_rows
restore_rows-Hold alloc first [] ids t books small h = h
restore_rows-Hold alloc first (m ∷ ms) ids t books small h =
    let added = apply_add alloc (book_or_new books m.instrument_id) (order_in m) in
    elim (Bool-cases (not (same_watermark first m) || is_bad_row m ids)) [
      | inl bad ↦ rw bad tt
      | inr good ↦ elim (Bool-cases (is_ok added.0)) [
        | inr k ↦ rw (good, k) tt
        | inl k ↦
            rw (good, k)
              (restore_rows-Hold alloc first ms (m.exchange_id ∷ ids) (put_row m t)
                (insert ltb m.instrument_id added.1 books) small.1
                (row-Hold alloc m t books small.0 h (is_ok-ok added.0 k)))
      ]
    ]

split_last-Quantities :
    (m : Message) (ms : List Message) → Quantities (m ∷ ms) → Quantities (split_last m ms).0
split_last-Quantities m [] small = tt
split_last-Quantities m (x ∷ xs) small = (small.0, split_last-Quantities x xs small.1)

-- Why a snapshot is refused: its ends do not fit, a row is not accepted, or a book is not sound.
pub data Refused (alloc : Allocation) (first : Message) (rows : List Message) (last : Message)
    : Type 0 where
  bad_ends :
      is_envelope first rows last && same_watermark first last ≡ false
      → Refused alloc first rows last
  bad_row : restore_rows alloc first rows [] [] ≡ none → Refused alloc first rows last
  unsound :
      (books : Map ℕ OrderBook)
      → restore_rows alloc first rows [] [] ≡ some books
      → books_are_sound books ≡ false
      → Refused alloc first rows last

-- What `restore` has done: nothing but to put the replica out of step, for a reason; or the books are
-- rebuilt, are sound, and hold the orders of the rows and no others, with the first row's epoch and
-- number.
pub data Restored (alloc : Allocation) (r : Replica) (first : Message) (rows : List Message)
    (last : Message) : Bool × Replica → Type 0 where
  failed :
      (p : Bool × Replica)
      → Refused alloc first rows last
      → p ≡ lost r
      → Restored alloc r first rows last p
  rebuilt :
      (p : Bool × Replica)
      → p.0 ≡ true
      → p.1.synchronized ≡ true
      → p.1.epoch ≡ first.epoch
      → p.1.sequence ≡ first.sequence
      → Hold (taken rows no_orders) p.1.books
      → books_are_sound p.1.books ≡ true
      → Restored alloc r first rows last p

Hold-nil : Hold no_orders []
unfolding lookup order
Hold-nil = record { books_ok = λ i b h. absurd (ground (arith, h)); orders = λ i j. refl }

module _ (alloc : Allocation) (r : Replica) (first : Message) where
  restored-Restored :
      (rows : List Message) (last : Message) (o : Option (Map ℕ OrderBook))
      → restore_rows alloc first rows [] [] ≡ o
      → Ensures (Hold (taken rows no_orders)) o
      → Restored alloc r first rows last (restored r first o)
  restored-Restored rows last none e all = failed _ (bad_row e) refl
  restored-Restored rows last (some books) e all = elim (Bool-cases (books_are_sound books)) [
    | inl h ↦ rw h (rebuilt _ refl refl refl refl all h)
    | inr h ↦ rw h (failed _ (unsound books e h) refl)
  ]

  -- A snapshot of at least two rows whose quantities have 32 bits is taken over as a whole: the
  -- books hold the orders of the rows between the first and the last and no others, are valid, pass
  -- `validate_invariants` and are not crossed, and the epoch and the number are the first row's. Or
  -- it is refused for a reason of `Refused`, the replica is out of step, and its books are as before.
  pub restore-Restored :
      (m : Message) (ms : List Message)
      → Quantities (m ∷ ms)
      → Restored alloc r first
          (split_last m ms).0
          (split_last m ms).1
          (restore alloc r (first ∷ m ∷ ms))
  unfolding restore
  restore-Restored m ms small =
      let rows = (split_last m ms).0 in
      let last = (split_last m ms).1 in
      elim (Bool-cases (not (is_envelope first rows last) || not (same_watermark first last))) [
        | inl h ↦ rw h (failed _ (bad_ends (ends _ _ h)) refl)
        | inr h ↦ rw h (
            restored-Restored rows last (restore_rows alloc first rows [] []) refl (
              restore_rows-Hold alloc first rows [] no_orders [] (split_last-Quantities m ms small)
                Hold-nil))
      ]
    where
      ends : (a b : Bool) → not a || not b ≡ true → a && b ≡ false
      ends true true k = cc
      ends true false k = refl
      ends false b k = refl
