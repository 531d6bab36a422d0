-- ===== src/Book/Refine.antt =====
-- The operations of a valid book do what the specification says, or fail to allocate.
use limit_order_book.Base.{
  ℕ, ◌-◌, ◌≤◌, ◌<◌, Bool, true, false, not, ◌&&◌, none, some, ◌≡◌, ◌≢◌, ◌⊎◌, refl, sym, ap, ◌∙◌,
  arith, ◌==◌, nat_eq, Bool-cases, Option-cases, inl, inr, if◌then◌else◌, ltb, subst, is_some,
}
use limit_order_book.Map.{lookup}
use limit_order_book.Types.{
  u32_mod, ApplyResult, ok, ok-cases, allocation_failed, invalid_quantity,
  quantity_exceeds_remaining, AddOrder, CancelOrder, ExecuteOrder, EventPayload, add_order,
  cancel_order, execute_order,
}
use limit_order_book.Book.State.{OrderLocation, OrderBook, Allocation, remaining_at}
use limit_order_book.Book.Apply.{
  apply_add, apply_cancel, cancel_found, execute_found, apply_execute, apply,
}
use limit_order_book.Book.Queries.{OrderView, order}
use limit_order_book.Book.Rollback.{apply_add_undone}
use limit_order_book.Book.Invariant.{IsValid, Found, found}
use limit_order_book.Book.Invariant.Add.{
  Accepted, apply_add-Accepted, apply_add-added, apply_add-IsValid,
}
use limit_order_book.Book.Invariant.Remove.{
  removed, lowered, apply_cancel-removed, apply_execute-executed, apply_cancel-IsValid,
  apply_execute-IsValid,
}
use limit_order_book.Book.Spec.{
  Orders, put_order, drop_order, spec_add, spec_cancel, spec_execute, spec_execute_on, spec_apply,
}
use limit_order_book.Book.Effects.{
  added_view, order-added, order-removed, order-lowered, order_found,
}

-- Some allocation is refused.
abbrev pub short : Allocation → OrderBook → Bool
short alloc b = not (b.has_pool && (alloc.level_node && (alloc.order_node && alloc.index_node)))

-- The result of the specification with the book that the operation left, or a failed allocation
-- that changed nothing, where one was refused.
pub data Refines (alloc : Allocation) (b : OrderBook) (spec : ApplyResult × Orders)
    : ApplyResult × OrderBook → Type 0 where
  as_specified :
      (r : ApplyResult × OrderBook)
      → r.0 ≡ spec.0
      → ((j : ℕ) → order r.1 j ≡ spec.1 j)
      → Refines alloc b spec r
  no_memory :
      (r : ApplyResult × OrderBook)
      → short alloc b ≡ true
      → r.0 ≡ allocation_failed
      → r.1 ≡ b
      → Refines alloc b spec r

is_some-order : (b : OrderBook) (id : ℕ) → is_some (order b id) ≡ is_some (lookup id b.orders_by_id)
unfolding order
is_some-order b id = ground arith

spec_add_result :
    (alloc : Allocation) (b : OrderBook) (e : AddOrder)
    → ((apply_add alloc b e).0 ≡ (spec_add (order b) e).0)
      ⊎ (((apply_add alloc b e).0 ≡ allocation_failed) × (short alloc b ≡ true))
unfolding apply_add spec_add
spec_add_result alloc b e = ground (arith, is_some-order b e.order_id)

spec_add-Accepted :
    (b : OrderBook) (e : AddOrder)
    → Accepted b e
    → spec_add (order b) e ≡ (ok, put_order (added_view e) (order b))
unfolding spec_add
spec_add-Accepted b e a =
    let pos = a.positive in
    let priced = a.priced in
    let known = a.known in ground (arith, is_some-order b e.order_id, ap is_some a.fresh)

spec_add_undone :
    (orders : Orders) (e : AddOrder) → (spec_add orders e).0 ≢ ok → (spec_add orders e).1 ≡ orders
unfolding spec_add
spec_add_undone orders e h = ground arith

add_Refines :
    (alloc : Allocation) (b : OrderBook) (e : AddOrder)
    → IsValid b
    → e.quantity < u32_mod
    → Refines alloc b (spec_add (order b) e) (apply_add alloc b e)
add_Refines alloc b e v small = elim (ok-cases (apply_add alloc b e).0) [
  | inl h ↦
      let a = apply_add-Accepted alloc b e h in
      let spec = spec_add-Accepted b e a in
      as_specified _ (h ∙ sym (ap (λ s. s.0) spec)) (λ j.
        ap (λ x. order x j) (apply_add-added alloc b e h)
        ∙ (order-added b e v a small j ∙ sym (ap (λ s. s.1 j) spec)))
  | inr h ↦
      let undone = apply_add_undone alloc b e h in
      elim (spec_add_result alloc b e) [
        | inl same ↦ as_specified _ same (λ j.
            ap (λ x. order x j) undone
            ∙ sym (ap (λ o. o j) (spec_add_undone (order b) e (λ k. h (same ∙ k)))))
        | inr (failed, refused) ↦ no_memory _ refused failed undone
      ]
]

order_missing : (b : OrderBook) (id : ℕ) → lookup id b.orders_by_id ≡ none → order b id ≡ none
unfolding order
order_missing b id h = rw (h, order)

cancel_Refines :
    (alloc : Allocation) (b : OrderBook) (e : CancelOrder)
    → IsValid b
    → Refines alloc b (spec_cancel (order b) e) (apply_cancel b e)
unfolding spec_cancel
cancel_Refines alloc b e v = elim (Option-cases (lookup e.order_id b.orders_by_id)) [
  | inl h ↦
      rw (order_missing b e.order_id h, spec_cancel)
        (unfold apply_cancel in rw (h, apply_cancel) (as_specified _ refl (λ j. refl)))
  | inr (loc, h) ↦
      let f = found b e.order_id loc v h in
      rw (order_found b e.order_id loc v f, spec_cancel)
        (subst (Refines alloc b (ok, drop_order e.order_id (order b)))
          (sym (apply_cancel-removed b e loc f))
          (as_specified _ refl (order-removed b e.order_id loc v f)))
]

apply_execute_found :
    (b : OrderBook) (e : ExecuteOrder) (loc : OrderLocation)
    → lookup e.order_id b.orders_by_id ≡ some loc
    → apply_execute b e ≡ execute_found b e loc
unfolding apply_execute
apply_execute_found b e loc h = rw (h, apply_execute)

execute_found_zero :
    (b : OrderBook) (e : ExecuteOrder) (loc : OrderLocation)
    → (e.quantity == 0) ≡ true
    → execute_found b e loc ≡ (invalid_quantity, b)
unfolding execute_found
execute_found_zero b e loc h = rw h

execute_found_exceeds :
    (b : OrderBook) (e : ExecuteOrder) (loc : OrderLocation)
    → (e.quantity == 0) ≡ false
    → ltb (remaining_at b loc) e.quantity ≡ true
    → execute_found b e loc ≡ (quantity_exceeds_remaining, b)
unfolding execute_found
execute_found_exceeds b e loc h k = rw (h, k)

module _ (alloc : Allocation) (b : OrderBook) (e : ExecuteOrder) (loc : OrderLocation)
    (v : IsValid b) (f : Found b e.order_id loc) where
  abbrev found_view : OrderView
  found_view = record {
    order_id = e.order_id;
    side = loc.side;
    price = loc.price;
    quantity = remaining_at b loc;
  }

  executed_Refines :
      (part : Bool)
      → (remaining_at b loc == e.quantity) ≡ part
      → e.quantity ≤ remaining_at b loc
      → Refines alloc b
          (if part then (ok, drop_order e.order_id (order b)) else (
            ok,
            put_order (record found_view { quantity = remaining_at b loc - e.quantity }) (order b),
          ))
          (ok, if part then removed b e.order_id loc else lowered b loc e.quantity)
  executed_Refines true h le = as_specified _ refl (order-removed b e.order_id loc v f)
  executed_Refines false h le =
      as_specified _ refl (λ j. order-lowered b e.order_id loc v f e.quantity j (ground arith))

  execute_on_Refines : Refines alloc b (spec_execute_on (order b) found_view e) (apply_execute b e)
  execute_on_Refines = elim (Bool-cases (e.quantity == 0)) [
    | inl zero ↦ rw zero (
        subst (Refines alloc b (invalid_quantity, order b))
          (sym (apply_execute_found b e loc f.indexed ∙ execute_found_zero b e loc zero))
          (as_specified _ refl (λ j. refl)))
    | inr some_left ↦ rw some_left (elim (Bool-cases (ltb (remaining_at b loc) e.quantity)) [
      | inl over ↦ rw over (
          subst (Refines alloc b (quantity_exceeds_remaining, order b))
            (sym (
              apply_execute_found b e loc f.indexed ∙ execute_found_exceeds b e loc some_left over))
            (as_specified _ refl (λ j. refl)))
      | inr within ↦ rw within (
          subst
            (Refines alloc b (
              if remaining_at b loc == e.quantity then (ok, drop_order e.order_id (order b)) else (
                ok,
                put_order (record found_view { quantity = remaining_at b loc - e.quantity })
                    (order b),
              )))
            (sym (apply_execute-executed b e loc f (ground arith) (ground arith)))
            (executed_Refines (remaining_at b loc == e.quantity) refl (ground arith)))
    ])
  ]

execute_Refines :
    (alloc : Allocation) (b : OrderBook) (e : ExecuteOrder)
    → IsValid b
    → Refines alloc b (spec_execute (order b) e) (apply_execute b e)
unfolding spec_execute
execute_Refines alloc b e v = elim (Option-cases (lookup e.order_id b.orders_by_id)) [
  | inl h ↦
      rw (order_missing b e.order_id h, spec_execute)
        (unfold apply_execute in rw (h, apply_execute) (as_specified _ refl (λ j. refl)))
  | inr (loc, h) ↦
      let f = found b e.order_id loc v h in
      rw (order_found b e.order_id loc v f, spec_execute) (execute_on_Refines alloc b e loc v f)
]

-- The quantity of an event has 32 bits.
abbrev pub InRange : EventPayload → Type 0
InRange (add_order e) = e.quantity < u32_mod
InRange (cancel_order e) = Unit
InRange (execute_order e) = e.quantity < u32_mod

-- Every event on a valid book, its quantity of 32 bits, has the result that the specification gives it and leaves orders as
-- the specification says, or fails where an allocation is refused, and leaves the book as it was.
pub apply-Refines :
    (alloc : Allocation) (b : OrderBook) (event : EventPayload)
    → IsValid b
    → InRange event
    → Refines alloc b (spec_apply (order b) event) (apply alloc b event)
unfolding spec_apply apply
apply-Refines alloc b (add_order e) v small = add_Refines alloc b e v small
apply-Refines alloc b (cancel_order e) v small = cancel_Refines alloc b e v
apply-Refines alloc b (execute_order e) v small = execute_Refines alloc b e v

-- Every event whose quantity has 32 bits keeps the invariant.
pub apply-IsValid :
    (alloc : Allocation) (b : OrderBook) (event : EventPayload)
    → InRange event
    → IsValid b
    → IsValid (apply alloc b event).1
unfolding apply
apply-IsValid alloc b (add_order e) small v = apply_add-IsValid alloc b e small v
apply-IsValid alloc b (cancel_order e) small v = apply_cancel-IsValid b e v
apply-IsValid alloc b (execute_order e) small v = apply_execute-IsValid b e v

cancel_undone :
    (b : OrderBook) (e : CancelOrder) → (apply_cancel b e).0 ≢ ok → (apply_cancel b e).1 ≡ b
unfolding apply_cancel cancel_found
cancel_undone b e h = ground arith

execute_undone :
    (b : OrderBook) (e : ExecuteOrder) → (apply_execute b e).0 ≢ ok → (apply_execute b e).1 ≡ b
unfolding apply_execute execute_found
execute_undone b e h = ground arith

-- An event that is not accepted leaves the book exactly as it was.
pub apply_undone :
    (alloc : Allocation) (b : OrderBook) (event : EventPayload)
    → (apply alloc b event).0 ≢ ok
    → (apply alloc b event).1 ≡ b
unfolding apply
apply_undone alloc b (add_order e) h = apply_add_undone alloc b e h
apply_undone alloc b (cancel_order e) h = cancel_undone b e h
apply_undone alloc b (execute_order e) h = execute_undone b e h
