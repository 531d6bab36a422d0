-- ===== src/Book/Invariant/Replaced.antt =====
-- `replace` as a whole: what each outcome means for the book, and that the invariant is kept.
use limit_order_book.Base.{
  ap, ℕ, ◌<◌, Bool, true, false, none, some, ◌≡◌, ◌≢◌, ◌⊎◌, refl, sym, ◌∙◌, arith, ◌==◌, nat_eq,
  Bool-cases, Option-cases, inl, inr, subst,
}
use limit_order_book.Map.{lookup}
use limit_order_book.Types.{
  Side, side_eq, side_beq_iff, u32_mod, ApplyResult, ok, ok-cases, AddOrder,
}
use limit_order_book.Book.State.{OrderLocation, OrderBook, Allocation}
use limit_order_book.Book.Replace.{adjust, replace_found, replace}
use limit_order_book.Book.Queries.{order, OrderView}
use limit_order_book.Book.Spec.{put_order, drop_order}
use limit_order_book.Book.Effects.{added_view}
use limit_order_book.Book.Invariant.Replacing.{
  adjusted-IsValid, queue_ids, queue_ids-adjust, order-adjusted, order-moved,
}
use limit_order_book.Book.Invariant.{IsValid, Found, found}
use limit_order_book.Book.Invariant.Replace.{moved, moved-IsValid, move_to-moved, move_to_undone}

-- What the guards of `replace` have checked when it goes on to change the book.
pub record Replaceable (b : OrderBook) (old_id : ℕ) (old : OrderLocation) (next : AddOrder)
    : Type 0 where
  pub positive : 0 < next.quantity
  pub priced : 0 < next.price
  pub same_side : next.side ≡ old.side
  pub fresh : (next.order_id ≡ old_id) ⊎ (lookup next.order_id b.orders_by_id ≡ none)

-- A replacement that succeeds has changed the quantity in place or moved the order; one that fails
-- has changed nothing.
pub data Replaced (b : OrderBook) (old_id : ℕ) (old : OrderLocation) (next : AddOrder)
    (maintain : Bool) : ApplyResult × OrderBook → Type 0 where
  refused :
      (r : ApplyResult × OrderBook) → r.0 ≢ ok → r.1 ≡ b → Replaced b old_id old next maintain r
  kept_place :
      (r : ApplyResult × OrderBook)
      → Replaceable b old_id old next
      → maintain ≡ true
      → next.price ≡ old.price
      → next.order_id ≡ old_id
      → r ≡ (ok, adjust b old next.quantity)
      → ((j : ℕ) → order r.1 j ≡ put_order (added_view next) (order b) j)
      → ((s : Side) (price : ℕ) → queue_ids r.1 s price ≡ queue_ids b s price)
      → Replaced b old_id old next maintain r
  changed_place :
      (r : ApplyResult × OrderBook)
      → Replaceable b old_id old next
      → maintain ≡ false
      → r ≡ (ok, moved b old_id old next)
      → ((j : ℕ) → order r.1 j ≡ put_order (added_view next) (drop_order old_id (order b)) j)
      → Replaced b old_id old next maintain r

replaceable :
    (alloc : Allocation) (b : OrderBook) (old_id : ℕ) (old : OrderLocation) (next : AddOrder)
    (maintain : Bool)
    → (replace_found alloc b old_id old next maintain).0 ≡ ok
    → Replaceable b old_id old next
unfolding replace_found
replaceable alloc b old_id old next maintain h = record {
  positive = ground arith;
  priced = ground arith;
  same_side = ground (arith, side_beq_iff next.side old.side);
  fresh = elim (Bool-cases (next.order_id == old_id)) [
    | inl same ↦ inl (ground arith)
    | inr apart ↦ inr (ground arith)
  ];
}

replace_found_undone :
    (alloc : Allocation) (b : OrderBook) (old_id : ℕ) (old : OrderLocation) (next : AddOrder)
    (maintain : Bool)
    → (replace_found alloc b old_id old next maintain).0 ≢ ok
    → (replace_found alloc b old_id old next maintain).1 ≡ b
unfolding replace_found
replace_found_undone alloc b old_id old next maintain h =
    ground (arith, move_to_undone alloc b old_id old next)

replace_found_adjusted :
    (alloc : Allocation) (b : OrderBook) (old_id : ℕ) (old : OrderLocation) (next : AddOrder)
    → (replace_found alloc b old_id old next true).0 ≡ ok
    → (next.price ≡ old.price)
      × (next.order_id ≡ old_id)
      × (replace_found alloc b old_id old next true ≡ (ok, adjust b old next.quantity))
unfolding replace_found
replace_found_adjusted alloc b old_id old next h = (ground arith, ground arith, ground arith)

module _ (alloc : Allocation) (b : OrderBook) (old_id : ℕ) (old : OrderLocation) (next : AddOrder)
    (v : IsValid b) (f : Found b old_id old) (small : next.quantity < u32_mod) where
  replace_found-moved :
      (replace_found alloc b old_id old next false).0 ≡ ok
      → replace_found alloc b old_id old next false ≡ (ok, moved b old_id old next)
  unfolding replace_found
  replace_found-moved h =
      let g = replaceable alloc b old_id old next false h in
      ground (
        arith,
        move_to-moved b old_id old next v f g.positive small g.priced g.fresh alloc g.same_side,
      )

  -- The order with its new quantity is the order of `next`.
  same_order :
      Replaceable b old_id old next
      → next.price ≡ old.price
      → next.order_id ≡ old_id
      → (j : ℕ) → order (adjust b old next.quantity) j ≡ put_order (added_view next) (order b) j
  same_order g p i j =
      order-adjusted b old_id old next v f g.positive small j
      ∙ (ap (λ n. put_order (record (as_old) { order_id = n }) (order b) j) (sym i)
          ∙ (ap
                (λ s.
                  put_order (record (as_old) { order_id = next.order_id; side = s }) (order b) j)
                (sym g.same_side)
              ∙ ap (λ n. put_order (record (added_view next) { price = n }) (order b) j) (sym p)))
    where
      as_old : OrderView
      as_old = record {
        order_id = old_id;
        side = old.side;
        price = old.price;
        quantity = next.quantity;
      }

  replace_found_Replaced :
      (maintain : Bool)
      → Replaced b old_id old next maintain (replace_found alloc b old_id old next maintain)
  replace_found_Replaced maintain =
      elim (ok-cases (replace_found alloc b old_id old next maintain).0) [
        | inr h ↦ refused _ h (replace_found_undone alloc b old_id old next maintain h)
        | inl h ↦ by_priority maintain h
      ]
    where
      by_priority :
          (m : Bool)
          → (replace_found alloc b old_id old next m).0 ≡ ok
          → Replaced b old_id old next m (replace_found alloc b old_id old next m)
      by_priority true h =
          let (p, i, e) = replace_found_adjusted alloc b old_id old next h in
          let g = replaceable alloc b old_id old next true h in
          kept_place _ g refl p i e (λ j. ap (λ r. order r.1 j) e ∙ same_order g p i j)
            (λ s price.
              ap (λ r. queue_ids r.1 s price) e ∙ queue_ids-adjust b old next.quantity s price)
      by_priority false h =
          let g = replaceable alloc b old_id old next false h in
          let e = replace_found-moved h in
          changed_place _ g refl e (λ j.
            ap (λ r. order r.1 j) e
            ∙ order-moved b old_id old next v f g.positive small g.priced g.fresh g.same_side j)

  Replaced-IsValid :
      (maintain : Bool) {r : ApplyResult × OrderBook}
      → Replaced b old_id old next maintain r
      → IsValid r.1
  Replaced-IsValid maintain (refused r h e) = subst IsValid (sym e) v
  Replaced-IsValid maintain (kept_place r g m p i e o q) =
      subst (λ x. IsValid (x.1)) (sym e)
        (adjusted-IsValid b old_id old next.quantity v f g.positive small)
  Replaced-IsValid maintain (changed_place r g m e o) =
      subst (λ x. IsValid (x.1)) (sym e)
        (moved-IsValid b old_id old next v f g.positive small g.priced g.fresh)

-- A replacement of a live order of a valid book by a 32-bit quantity has changed the quantity in
-- place: the orders are as before but for the new quantity, and every queue holds the same ids in the
-- same order. Or it moved the order to the end of the queue of its price: the orders are the new one
-- and those before without the old one. Or it was refused and changed nothing.
pub replace_Replaced :
    (alloc : Allocation) (b : OrderBook) (old_id : ℕ) (old : OrderLocation) (next : AddOrder)
    (maintain : Bool)
    → IsValid b
    → lookup old_id b.orders_by_id ≡ some old
    → next.quantity < u32_mod
    → Replaced b old_id old next maintain (replace alloc b old_id next maintain)
unfolding replace
replace_Replaced alloc b old_id old next maintain v h small =
    rw (h, replace)
      (replace_found_Replaced alloc b old_id old next v (found b old_id old v h) small maintain)

pub replace-IsValid :
    (alloc : Allocation) (b : OrderBook) (old_id : ℕ) (next : AddOrder) (maintain : Bool)
    → next.quantity < u32_mod
    → IsValid b
    → IsValid (replace alloc b old_id next maintain).1
unfolding replace
replace-IsValid alloc b old_id next maintain small v =
    elim (Option-cases (lookup old_id b.orders_by_id)) [
      | inl h ↦ rw (h, replace) v
      | inr (old, h) ↦
          Replaced-IsValid alloc b old_id old next v (found b old_id old v h) small maintain
            (replace_Replaced alloc b old_id old next maintain v h small)
    ]
