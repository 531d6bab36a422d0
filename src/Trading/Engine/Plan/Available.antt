-- ===== src/Trading/Engine/Plan/Available.antt =====
-- How much `plan` trades: all that the opposite side offers at prices that cross, up to the quantity.
use limit_order_book.Base.{
  ℕ, ◌+◌, ◌-◌, true, false, List, [], ◌∷◌, ◌++◌, ◌≡◌, refl, ◌∙◌, arith, ◌==◌, nat_eq, if◌then◌else◌,
  Bool-cases, inl, inr,
}
use limit_order_book.Map.{Map}
use Prim.Native.Nat.{min}
use limit_order_book.Types.{is_known, Side, bid, side_eq}
use limit_order_book.Book.State.{OrderBook, OrderEntry, Levels, levels}
use limit_order_book.Book.Queries.{OrderView, level_orders}
use limit_order_book.Trading.Messages.{Message, no_reason}
use limit_order_book.Trading.Engine.Risk.{is_market}
use limit_order_book.Trading.Engine.Plan.{crosses, maker_side, plan}
use limit_order_book.Map.Order.{After, Sorted}
use limit_order_book.Book.State.{before}
use limit_order_book.Book.Invariant.{IsValid, side_ok}
use limit_order_book.Trading.Engine.Plan.Greedy.{
  queue, total, match_queue, plan-matched, maker_queue,
}

-- What the queue offers at prices that cross.
abbrev pub available : Message → List OrderView → ℕ
available c [] = 0
available c (o ∷ os) = (if crosses c o.price then o.quantity else 0) + available c os

-- Once a price does not cross, no later one does.
abbrev Closing : Message → List OrderView → Type 0
Closing c [] = Unit
Closing c (o ∷ os) = (crosses c o.price ≡ false → available c os ≡ 0) × Closing c os

total-match_queue :
    (c : Message) (left : ℕ) (os : List OrderView)
    → Closing c os
    → total (match_queue c left os) ≡ min left (available c os)
total-match_queue c left [] closing = ground arith
total-match_queue c left (o ∷ os) closing =
    let ih = total-match_queue c (left - min left o.quantity) os closing.1 in
    elim (Bool-cases (crosses c o.price)) [
      | inl h ↦ elim (Bool-cases (left == 0)) [
        | inl z ↦ rw (h, z) (ground arith)
        | inr z ↦ rw (h, z, ih) (omega arith)
      ]
      | inr h ↦ elim (Bool-cases (left == 0)) [
        | inl z ↦ rw (h, z, closing.0 h) (ground arith)
        | inr z ↦ rw (h, z, closing.0 h) (ground arith)
      ]
    ]

crosses-later :
    (c : Message) (p q : ℕ)
    → before (maker_side c) p q ≡ true
    → crosses c p ≡ false
    → crosses c q ≡ false
unfolding crosses
crosses-later c p q later h = elim (Bool-cases (is_market c.order_type)) [
  | inl m ↦ ground (arith, m)
  | inr m ↦ elim (Bool-cases (c.side == bid)) [
    | inl k ↦ ground (arith, m, k)
    | inr k ↦ ground (arith, m, k)
  ]
]

available-level :
    (c : Message) (side : Side) (p : ℕ) (os : Map ℕ OrderEntry) (rest : List OrderView)
    → crosses c p ≡ false
    → available c (level_orders side p os ++ rest) ≡ available c rest
unfolding level_orders
available-level c side p [] rest h = refl
available-level c side p ((n, e) ∷ os) rest h =
    rw h (omega (arith, available-level c side p os rest h))

available-queue :
    (c : Message) (p : ℕ) (ls : Levels)
    → After (before (maker_side c)) p ls
    → crosses c p ≡ false
    → available c (queue (maker_side c) ls) ≡ 0
available-queue c p [] a h = refl
available-queue c p ((q, l) ∷ ls) a h =
    available-level c (maker_side c) q l.orders (queue (maker_side c) ls)
      (crosses-later c p q a.0 h)
    ∙ available-queue c p ls a.1 h

Closing-level :
    (c : Message) (side : Side) (p : ℕ) (os : Map ℕ OrderEntry) (rest : List OrderView)
    → (crosses c p ≡ false → available c rest ≡ 0)
    → Closing c rest
    → Closing c (level_orders side p os ++ rest)
unfolding level_orders
Closing-level c side p [] rest h k = k
Closing-level c side p ((n, e) ∷ os) rest h k =
    (λ stop. available-level c side p os rest stop ∙ h stop, Closing-level c side p os rest h k)

Closing-queue :
    (c : Message) (ls : Levels)
    → Sorted (before (maker_side c)) ls
    → Closing c (queue (maker_side c) ls)
Closing-queue c [] s = tt
Closing-queue c ((p, l) ∷ ls) s =
    Closing-level c (maker_side c) p l.orders (queue (maker_side c) ls) (available-queue c p ls s.0)
      (Closing-queue c ls s.1)

known_maker_side : (c : Message) → is_known (maker_side c) ≡ true
known_maker_side c = elim (Bool-cases (c.side == bid)) [ inl h ↦ rw h refl | inr h ↦ rw h refl ]

queue-Closing :
    (c : Message) (book : OrderBook)
    → IsValid book
    → Closing c (queue (maker_side c) (levels book (maker_side c)))
queue-Closing c book v =
    Closing-queue c (levels book (maker_side c))
      (side_ok book (maker_side c) (known_maker_side c) v).sorted

-- In a valid book, a plan without a rejection and without a missing order trades the smaller of the
-- command's quantity and all that the opposite side offers at prices that cross.
pub plan-available :
    (c : Message) (resting : Map ℕ Message) (book : OrderBook)
    → IsValid book
    → (plan c resting book).rejection ≡ no_reason
    → (plan c resting book).faulted ≡ false
    → (total (plan c resting book).planned
        ≡ min c.quantity (available c (queue (maker_side c) (levels book (maker_side c)))))
      × ((plan c resting book).leaves
          ≡ c.quantity - available c (queue (maker_side c) (levels book (maker_side c))))
plan-available c resting book v clean sound =
    let os = maker_queue c resting book in
    let fills = total-match_queue c c.quantity os (queue-Closing c book v) in
    rw (plan-matched c resting book clean sound) (fills, omega (arith, fills))
