-- ===== src/Book/Views.antt =====
-- What `order` shows of a valid book, in terms of its nodes and its index, after each move.
use limit_order_book.Base.{
  ℕ, false, Option, none, some, ◌≡◌, refl, sym, ap, fun_ext, ◌∙◌, arith, ◌==◌, nat_eq, nat_beq_iff,
  Bool-cases, Option-cases, inl, inr, map_option,
}
use limit_order_book.Map.{lookup}
use limit_order_book.Book.State.{OrderEntry, OrderLocation, OrderBook, remaining_at, remaining_in}
use limit_order_book.Book.Queries.{OrderView, order}
use limit_order_book.Book.Consistent.{
  location_beq, location_beq_iff, Nodes, Index, Consistent, put_node, drop_node, put_index,
  drop_index, index_injective,
}
use limit_order_book.Book.Nodes.{nodes_of, index_of, nodes_of_self}
use limit_order_book.Book.Invariant.{IsValid, found}
use limit_order_book.Book.Spec.{Orders, put_order, drop_order}

abbrev pub view_of : ℕ → OrderLocation → Option OrderEntry → OrderView
view_of id loc o = record {
  order_id = id;
  side = loc.side;
  price = loc.price;
  quantity = remaining_in o;
}

abbrev pub shown : Nodes → ℕ → OrderLocation → OrderView
shown nodes id loc = view_of id loc (nodes loc)

abbrev pub orders_of : Nodes → Index → Orders
orders_of nodes index id = map_option (shown nodes id) (index id)

pub order-orders_of :
    (b : OrderBook) → IsValid b → (id : ℕ) → order b id ≡ orders_of (nodes_of b) (index_of b) id
unfolding order remaining_at
order-orders_of b v id = elim (Option-cases (lookup id b.orders_by_id)) [
  | inl h ↦ rw h
  | inr (loc, h) ↦
      let f = found b id loc v h in
      rw (h, order) (ap (λ o. some (view_of id loc o)) (sym (nodes_of_self b loc f.known)))
]

pub orders_of-eq :
    (nodes nodes' : Nodes) (index index' : Index)
    → ((at : OrderLocation) → nodes' at ≡ nodes at)
    → ((id : ℕ) → index' id ≡ index id)
    → (j : ℕ) → orders_of nodes' index' j ≡ orders_of nodes index j
orders_of-eq nodes nodes' index index' n i j = λ k. orders_of (fun_ext n k) (fun_ext i k) j

module _ {nodes : Nodes} {index : Index} (c : Consistent nodes index) where
  free_apart :
      (j : ℕ) (loc at : OrderLocation)
      → nodes loc ≡ none
      → index j ≡ some at
      → location_beq loc at ≡ false
  free_apart j loc at free h = elim (Bool-cases (location_beq loc at)) [
    | inl same ↦
        let (d, p, q) = c.node_of j at h in
        cc (free, p, ap nodes ((location_beq_iff loc at).0 same))
    | inr apart ↦ apart
  ]

  taken_apart :
      (id j : ℕ) (loc at : OrderLocation)
      → index id ≡ some loc
      → (id == j) ≡ false
      → index j ≡ some at
      → location_beq loc at ≡ false
  taken_apart id j loc at h ids k = elim (Bool-cases (location_beq loc at)) [
    | inl same ↦
        let e = (location_beq_iff loc at).0 same in
        absurd (ground (arith, index_injective c id j at (h ∙ ap some e) k))
    | inr apart ↦ apart
  ]

  pub orders_of-put :
      (loc : OrderLocation) (e : OrderEntry) (j : ℕ)
      → nodes loc ≡ none
      → orders_of (put_node loc e nodes) (put_index e.order_id loc index) j
        ≡ put_order (view_of e.order_id loc (some e)) (orders_of nodes index) j
  orders_of-put loc e j free = elim (Bool-cases (e.order_id == j)) [
    | inl same ↦ rw same (ground (arith, location_beq_iff loc loc))
    | inr apart ↦ rw apart (elim (Option-cases (index j)) [
      | inl h ↦ rw h
      | inr (at, h) ↦ rw h (rw (free_apart j loc at free h) refl)
    ])
  ]

  pub orders_of-drop :
      (loc : OrderLocation) (id j : ℕ)
      → index id ≡ some loc
      → orders_of (drop_node loc nodes) (drop_index id index) j
        ≡ drop_order id (orders_of nodes index) j
  orders_of-drop loc id j found = elim (Bool-cases (id == j)) [
    | inl same ↦ rw same
    | inr apart ↦ rw apart (elim (Option-cases (index j)) [
      | inl h ↦ rw h
      | inr (at, h) ↦ rw h (rw (taken_apart id j loc at found apart h) refl)
    ])
  ]

  pub orders_of-change :
      (loc : OrderLocation) (e : OrderEntry) (j : ℕ)
      → index e.order_id ≡ some loc
      → orders_of (put_node loc e nodes) index j
        ≡ put_order (view_of e.order_id loc (some e)) (orders_of nodes index) j
  orders_of-change loc e j found = elim (Bool-cases (e.order_id == j)) [
    | inl same ↦
        let e_j = (nat_beq_iff e.order_id j).0 same in
        rw (same, ap index (sym e_j) ∙ found) (ground (arith, location_beq_iff loc loc))
    | inr apart ↦ rw apart (elim (Option-cases (index j)) [
      | inl h ↦ rw h
      | inr (at, h) ↦ rw h (rw (taken_apart e.order_id j loc at found apart h) refl)
    ])
  ]
