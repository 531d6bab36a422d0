-- ===== src/Trading/Replica/Laws.antt =====
-- What a message does to a replica.
use limit_order_book.Base.{
  ◌≤◌, ◌≢◌, ◌⊎◌, ◌∙◌, ap, true≢false, ltb→lt, leb→le, ℕ, suc, ◌-◌, ◌<◌, Bool, true, false, ◌||◌,
  Option, none, some, ltb, leb, ◌==◌, nat_eq, ◌≡◌, refl, sym, subst, arith, Bool-cases,
  Option-cases, inl, inr, nat_beq_iff,
}
use limit_order_book.Map.{Map, lookup, insert}
use limit_order_book.Map.Laws.{lookup-insert}
use limit_order_book.Types.{ApplyResult, ok, is_ok, is_ok-ok, u32_mod}
use limit_order_book.Book.State.{OrderBook, Allocation, empty_book}
use limit_order_book.Book.Queries.{remaining_quantity}
use limit_order_book.Book.Invariant.{IsValid}
use limit_order_book.Book.Invariant.Add.{apply_add-IsValid}
use limit_order_book.Book.Invariant.Remove.{apply_cancel-IsValid, apply_execute-IsValid}
use limit_order_book.Book.Reachable.{created, Reachable-IsValid}
use limit_order_book.Trading.Messages.{Message, Kind, UpdateType}
use limit_order_book.Trading.Replica.{
  Replica, is_kind, book_or_new, order_in, reduce_to, change_book, change_in, apply_update, lost,
  consumed, consume,
}
use limit_order_book.Trading.Engine.Numbering.{BooksOk}

pub BooksOk-insert :
    (books : Map ℕ OrderBook) (i : ℕ) (book : OrderBook)
    → BooksOk books
    → IsValid book
    → BooksOk (insert ltb i book books)
BooksOk-insert books i book all v j b h = elim (Bool-cases (i == j)) [
  | inl same ↦ subst IsValid (ground (arith, lookup-insert ltb i book books j, h, same)) v
  | inr apart ↦ all j b (ground (arith, lookup-insert ltb i book books j, h, apart))
]

pub book_or_new-IsValid :
    (books : Map ℕ OrderBook) (i : ℕ) → BooksOk books → IsValid (book_or_new books i)
book_or_new-IsValid books i all = elim (Option-cases (lookup i books)) [
  | inl h ↦ rw (book_or_new, h) (Reachable-IsValid empty_book (created true))
  | inr (book, h) ↦ rw (book_or_new, h) (all i book h)
]

reduce_to-IsValid :
    (book : OrderBook) (m : Message) (o : Option ℕ) → IsValid book → IsValid (reduce_to book m o).1
reduce_to-IsValid book m none v = v
reduce_to-IsValid book m (some old) v =
    elim (Bool-cases ((m.quantity == 0) || leb old m.quantity)) [
      | inl h ↦ rw h v
      | inr h ↦ rw h (apply_execute-IsValid book _ v)
    ]

change_book-IsValid :
    (book : OrderBook) (m : Message) (u : UpdateType)
    → IsValid book
    → IsValid (change_book book m u).1
change_book-IsValid book m UpdateType.add v = v
change_book-IsValid book m UpdateType.cancel v = apply_cancel-IsValid book _ v
change_book-IsValid book m UpdateType.execute v = apply_execute-IsValid book _ v
change_book-IsValid book m UpdateType.reduce v =
    reduce_to-IsValid book m (remaining_quantity book m.exchange_id) v
change_book-IsValid book m UpdateType.trade v = v

change_in-BooksOk :
    (books : Map ℕ OrderBook) (m : Message) (o : Option OrderBook)
    → lookup m.instrument_id books ≡ o
    → BooksOk books
    → BooksOk (change_in books m o).1
change_in-BooksOk books m none h all = all
change_in-BooksOk books m (some book) h all =
    BooksOk-insert books m.instrument_id _ all
      (change_book-IsValid book m m.update (all m.instrument_id book h))

apply_update-BooksOk :
    (alloc : Allocation) (books : Map ℕ OrderBook) (m : Message) (u : UpdateType)
    → m.quantity < u32_mod
    → BooksOk books
    → BooksOk (apply_update alloc books m u).1
unfolding apply_update
apply_update-BooksOk alloc books m UpdateType.trade small all = all
apply_update-BooksOk alloc books m UpdateType.add small all =
    BooksOk-insert books m.instrument_id _ all (
      apply_add-IsValid alloc (book_or_new books m.instrument_id) (order_in m) small
        (book_or_new-IsValid books m.instrument_id all))
apply_update-BooksOk alloc books m UpdateType.cancel small all =
    change_in-BooksOk books m (lookup m.instrument_id books) refl all
apply_update-BooksOk alloc books m UpdateType.execute small all =
    change_in-BooksOk books m (lookup m.instrument_id books) refl all
apply_update-BooksOk alloc books m UpdateType.reduce small all =
    change_in-BooksOk books m (lookup m.instrument_id books) refl all

-- Why a message puts a replica out of step: it is out of step already, or the message is of another
-- epoch, or it is neither an update nor a heartbeat, or messages before it are missing, or its update
-- is refused.
pub data OutOfStep (alloc : Allocation) (r : Replica) (m : Message) : Type 0 where
  not_synchronized : r.synchronized ≡ false → OutOfStep alloc r m
  other_epoch : m.epoch ≢ r.epoch → OutOfStep alloc r m
  other_kind :
      is_kind m.kind Kind.heartbeat ≡ false
      → is_kind m.kind Kind.delta ≡ false
      → OutOfStep alloc r m
  ahead : is_kind m.kind Kind.heartbeat ≡ true → r.sequence < m.sequence → OutOfStep alloc r m
  gap : is_kind m.kind Kind.delta ≡ true → suc r.sequence < m.sequence → OutOfStep alloc r m
  refused :
      is_kind m.kind Kind.delta ≡ true
      → m.sequence ≡ suc r.sequence
      → (apply_update alloc r.books m m.update).0 ≢ ok
      → OutOfStep alloc r m

-- What `consume` has done: the replica is lost for a reason; or it is kept and the message has a
-- number that the replica has passed; or the message was next in number, and its update was carried
-- out.
pub data Consumed (alloc : Allocation) (r : Replica) (m : Message) : Bool × Replica → Type 0 where
  out_of_step :
      (p : Bool × Replica)
      → OutOfStep alloc r m
      → p.0 ≡ false
      → p.1.synchronized ≡ false
      → BooksOk p.1.books
      → Consumed alloc r m p
  unchanged :
      (p : Bool × Replica)
      → r.synchronized ≡ true
      → m.epoch ≡ r.epoch
      → (is_kind m.kind Kind.heartbeat ≡ true) ⊎ (is_kind m.kind Kind.delta ≡ true)
      → m.sequence ≤ r.sequence
      → p ≡ (true, r)
      → Consumed alloc r m p
  advanced :
      (p : Bool × Replica)
      → r.synchronized ≡ true
      → m.epoch ≡ r.epoch
      → is_kind m.kind Kind.delta ≡ true
      → m.sequence ≡ suc r.sequence
      → (apply_update alloc r.books m m.update).0 ≡ ok
      → p ≡ (
        true,
        record r { books = (apply_update alloc r.books m m.update).1; sequence = m.sequence },
      )
      → BooksOk p.1.books
      → Consumed alloc r m p

next_number : (m last : ℕ) → (m - last == 1) ≡ true → m ≡ suc last
next_number m last h = ground arith

is_gap : (m last : ℕ) → leb m last ≡ false → (m - last == 1) ≡ false → suc last < m
is_gap m last h k = ground arith

not_above : (last m : ℕ) → ltb last m ≡ false → m ≤ last
not_above last m h = ground arith

not_ok : (result : ApplyResult) → is_ok result ≡ false → result ≢ ok
not_ok result h e = true≢false (sym (ap is_ok e) ∙ h)

module _ (alloc : Allocation) (r : Replica) (m : Message) (small : m.quantity < u32_mod)
    (all : BooksOk r.books) where
  consumed-Consumed :
      r.synchronized ≡ true
      → m.epoch ≡ r.epoch
      → is_kind m.kind Kind.delta ≡ true
      → m.sequence ≡ suc r.sequence
      → Consumed alloc r m (consumed r m.sequence (apply_update alloc r.books m m.update))
  consumed-Consumed sync epoch delta next =
      let books_ok = apply_update-BooksOk alloc r.books m m.update small all in
      elim (Bool-cases (is_ok (apply_update alloc r.books m m.update).0)) [
        | inl h ↦ rw h (advanced _ sync epoch delta next (is_ok-ok _ h) refl books_ok)
        | inr h ↦ rw h (out_of_step _ (refused delta next (not_ok _ h)) refl refl books_ok)
      ]

  lost-Consumed : OutOfStep alloc r m → Consumed alloc r m (lost r)
  lost-Consumed why = out_of_step _ why refl refl all

  -- An answer that the guards lead to.
  answered :
      (p : Bool × Replica)
      → consume alloc r m ≡ p
      → Consumed alloc r m p
      → Consumed alloc r m (consume alloc r m)
  answered p e c = subst (Consumed alloc r m) (sym e) c

  module _ (sync : r.synchronized ≡ true) (same_epoch : (m.epoch == r.epoch) ≡ true) where
    kept-Consumed :
        (is_kind m.kind Kind.heartbeat ≡ true) ⊎ (is_kind m.kind Kind.delta ≡ true)
        → m.sequence ≤ r.sequence
        → Consumed alloc r m (true, r)
    kept-Consumed kind old =
        unchanged _ sync ((nat_beq_iff m.epoch r.epoch).0 same_epoch) kind old refl

    heartbeat-Consumed :
        is_kind m.kind Kind.heartbeat ≡ true → Consumed alloc r m (consume alloc r m)
    unfolding consume
    heartbeat-Consumed h = elim (Bool-cases (ltb r.sequence m.sequence)) [
      | inl late ↦
          answered (lost r) (rw (sync, same_epoch, h, late) refl)
            (lost-Consumed (ahead h (ltb→lt _ _ late)))
      | inr on_time ↦
          answered (true, r) (rw (sync, same_epoch, h, on_time) refl)
            (kept-Consumed (inl h) (not_above _ _ on_time))
    ]

    delta-Consumed :
        is_kind m.kind Kind.heartbeat ≡ false
        → is_kind m.kind Kind.delta ≡ true
        → Consumed alloc r m (consume alloc r m)
    unfolding consume
    delta-Consumed h d = elim (Bool-cases (leb m.sequence r.sequence)) [
      | inl old ↦
          answered (true, r) (rw (sync, same_epoch, h, d, old) refl)
            (kept-Consumed (inr d) (leb→le _ _ old))
      | inr new ↦ elim (Bool-cases (m.sequence - r.sequence == 1)) [
        | inr skips ↦
            answered (lost r) (rw (sync, same_epoch, h, d, new, skips) refl)
              (lost-Consumed (gap d (is_gap _ _ new skips)))
        | inl next ↦
            answered (consumed r m.sequence (apply_update alloc r.books m m.update))
              (rw (sync, same_epoch, h, d, new, next) refl)
              (consumed-Consumed sync ((nat_beq_iff m.epoch r.epoch).0 same_epoch) d
                (next_number m.sequence r.sequence next))
      ]
    ]

    in_epoch-Consumed : Consumed alloc r m (consume alloc r m)
    unfolding consume
    in_epoch-Consumed = elim (Bool-cases (is_kind m.kind Kind.heartbeat)) [
      | inl h ↦ heartbeat-Consumed h
      | inr h ↦ elim (Bool-cases (is_kind m.kind Kind.delta)) [
        | inl d ↦ delta-Consumed h d
        | inr d ↦
            answered (lost r) (rw (sync, same_epoch, h, d) refl) (lost-Consumed (other_kind h d))
      ]
    ]

  -- A message of a 32-bit quantity puts a replica with valid books out of step, for one of the
  -- reasons of `OutOfStep`; or it is an update or a heartbeat of the replica's epoch whose number the
  -- replica has reached, and changes nothing; or it is the next update of that epoch and is carried
  -- out. The books stay valid.
  pub consume-Consumed : Consumed alloc r m (consume alloc r m)
  unfolding consume
  consume-Consumed = elim (Bool-cases r.synchronized) [
    | inr h ↦ answered (false, r) (rw h refl) (out_of_step _ (not_synchronized h) refl h all)
    | inl sync ↦ elim (Bool-cases (m.epoch == r.epoch)) [
      | inr h ↦ answered (lost r) (rw (sync, h) refl) (
          lost-Consumed
            (other_epoch (λ e. true≢false (sym ((nat_beq_iff m.epoch r.epoch).1 e) ∙ h))))
      | inl epoch ↦ in_epoch-Consumed sync epoch
    ]
  ]
