-- ===== src/Book/Consistent.antt =====
-- The index of a book and the nodes of its queues, as two functions that invert one another, and
-- the three moves of the operations: an order enters, leaves, or changes its quantity.
use limit_order_book.Base.{
  ℕ, Bool, true, none, some, Option, ◌≡◌, ◌↔◌, sym, ap, ◌∙◌, arith, ◌&&◌, ◌==◌, nat_eq, Bool-cases,
  inl, inr, if◌then◌else◌,
}
use limit_order_book.Types.{side_eq, side_beq_iff}
use limit_order_book.Book.State.{OrderEntry, OrderLocation}

unfoldable pub location_beq : OrderLocation → OrderLocation → Bool
location_beq a b = (a.side == b.side) && ((a.price == b.price) && (a.iterator == b.iterator))

pub location_beq_iff : (a b : OrderLocation) → (location_beq a b ≡ true) ↔ (a ≡ b)
unfolding location_beq
location_beq_iff a b = (
  λ h. ground (arith, side_beq_iff a.side b.side),
  λ e. ground (arith, side_beq_iff a.side b.side),
)

abbrev pub Nodes : Type 0
Nodes = OrderLocation → Option OrderEntry

abbrev pub Index : Type 0
Index = ℕ → Option OrderLocation

-- Each node is where the index says that its order is, and each entry of the index denotes a node
-- of its order.
pub record Consistent (nodes : Nodes) (index : Index) : Type 0 where
  pub index_of :
      (loc : OrderLocation) (e : OrderEntry) → nodes loc ≡ some e → index e.order_id ≡ some loc
  pub node_of :
      (id : ℕ) (loc : OrderLocation)
      → index id ≡ some loc
      → (e : OrderEntry) × (nodes loc ≡ some e) × (e.order_id ≡ id)

abbrev pub put_node : OrderLocation → OrderEntry → Nodes → Nodes
put_node loc e nodes at = if location_beq loc at then some e else nodes at

abbrev pub drop_node : OrderLocation → Nodes → Nodes
drop_node loc nodes at = if location_beq loc at then none else nodes at

abbrev pub put_index : ℕ → OrderLocation → Index → Index
put_index id loc index j = if id == j then some loc else index j

abbrev pub drop_index : ℕ → Index → Index
drop_index id index j = if id == j then none else index j

pub Consistent-eq :
    (nodes nodes' : Nodes) (index index' : Index)
    → ((at : OrderLocation) → nodes' at ≡ nodes at)
    → ((id : ℕ) → index' id ≡ index id)
    → Consistent nodes index
    → Consistent nodes' index'
Consistent-eq nodes nodes' index index' n i c = record {
  index_of = λ loc e h. i e.order_id ∙ c.index_of loc e (sym (n loc) ∙ h);
  node_of = λ id loc h. let (e, p, q) = c.node_of id loc (sym (i id) ∙ h) in (e, n loc ∙ p, q);
}

module _ {nodes : Nodes} {index : Index} (c : Consistent nodes index) where
  free_unindexed : (id : ℕ) (loc : OrderLocation) → nodes loc ≡ none → index id ≡ some loc → ⊥
  free_unindexed id loc free h = let (d, p, q) = c.node_of id loc h in cc

  -- Two orders of the index are at two nodes.
  pub index_injective :
      (i j : ℕ) (loc : OrderLocation) → index i ≡ some loc → index j ≡ some loc → i ≡ j
  index_injective i j loc h k =
      let (d, p, q) = c.node_of i loc h in let (d', p', q') = c.node_of j loc k in ground arith

  pub Consistent-put :
      (loc : OrderLocation) (e : OrderEntry)
      → nodes loc ≡ none
      → index e.order_id ≡ none
      → Consistent (put_node loc e nodes) (put_index e.order_id loc index)
  Consistent-put loc e free fresh = record {
    index_of = λ at d h. ground (arith, location_beq_iff loc at, c.index_of at d);
    node_of = λ id at h. elim (Bool-cases (location_beq loc at)) [
      | inl same ↦ (
        e,
        rw same,
        ground (
          arith,
          location_beq_iff loc at,
          free_unindexed id at (sym (ap nodes ((location_beq_iff loc at).0 same)) ∙ free),
        ),
      )
      | inr apart ↦
          let (d, p, q) = c.node_of id at (ground (arith, location_beq_iff loc at)) in
          (d, rw apart p, q)
    ];
  }

  pub Consistent-drop :
      (loc : OrderLocation) (id : ℕ)
      → index id ≡ some loc
      → Consistent (drop_node loc nodes) (drop_index id index)
  Consistent-drop loc id found = record {
    index_of = λ at d h. ground (arith, location_beq_iff loc at, c.index_of at d);
    node_of = λ j at h.
        let (d, p, q) = c.node_of j at (ground arith) in
        let (d', p', q') = c.node_of id loc found in
        (d, ground (arith, location_beq_iff loc at), q);
  }

  pub Consistent-change :
      (loc : OrderLocation) (e e' : OrderEntry)
      → nodes loc ≡ some e
      → e'.order_id ≡ e.order_id
      → Consistent (put_node loc e' nodes) index
  Consistent-change loc e e' found same = record {
    index_of =
        λ at d h. ground (arith, location_beq_iff loc at, c.index_of at d, c.index_of loc e found);
    node_of = λ j at h. elim (Bool-cases (location_beq loc at)) [
      | inl here ↦
          let (d, p, q) = c.node_of j at h in
          let moved = ap nodes ((location_beq_iff loc at).0 here) in
          (e', rw here, ground (arith, moved, p))
      | inr apart ↦ let (d, p, q) = c.node_of j at h in (d, rw apart p, q)
    ];
  }
