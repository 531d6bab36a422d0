-- ===== src/Book/Invariant/Remove.antt =====
-- `apply(CancelOrder)` and `apply(ExecuteOrder)` keep the invariant, and what they take away.
use limit_order_book.Base.{
  ℕ, ◌-◌, ◌≤◌, ◌<◌, true, false, some, ◌≡◌, refl, sym, ap, ◌∙◌, arith, ◌⊎◌, ◌==◌, nat_eq,
  Bool-cases, Option-cases, inl, inr, ltb, subst, fun_ext, if◌then◌else◌,
}
use limit_order_book.Map.{lookup, erase, modify}
use limit_order_book.Map.Laws.{lookup-erase, erase-modify}
use limit_order_book.Types.{u32_mod, ok, CancelOrder, ExecuteOrder}
use limit_order_book.Book.State.{
  PriceLevel, OrderLocation, OrderBook, levels, with_levels, erase_node, set_remaining, shrink,
  settle, remaining_at, node_at, node_in, remaining_in,
}
use limit_order_book.Book.Apply.{
  cancel_found, apply_cancel, execute_at, execute_found, apply_execute,
}
use limit_order_book.Book.Consistent.{Consistent-eq, Consistent-drop, Consistent-change}
use limit_order_book.Book.Queue.{with_remaining, lookup_positive, is_empty-modify}
use limit_order_book.Book.Levels.{QueueOk, QueueOk-take, QueueOk-lower}
use limit_order_book.Book.Levels.Steps.{LevelsOk-settle, LevelsOk-change}
use limit_order_book.Book.Nodes.{nodes_of, nodes_of_self, nodes_of-erase, nodes_of-change}
use limit_order_book.Book.Invariant.{
  IsValid, side_ok, updated-IsValid, Found, found, reindexed, updated-reindexed,
  updated-with_levels,
}

-- The iterator of an order of the index denotes its node.
pub remaining_at_found :
    (b : OrderBook) (id : ℕ) (loc : OrderLocation) (f : Found b id loc)
    → remaining_at b loc ≡ f.entry.remaining_quantity
unfolding remaining_at
remaining_at_found b id loc f =
    ap remaining_in (ap (λ o. node_in o loc.iterator) f.at_level ∙ f.at_node)

-- The book without the order `id`.
abbrev pub removed : OrderBook → ℕ → OrderLocation → OrderBook
removed b id loc =
    reindexed b loc.side
      (settle loc.price (λ l. erase_node loc.iterator (shrink (remaining_at b loc) l))
        (levels b loc.side))
      (erase id b.orders_by_id)

-- The book with `q` less of the order at `loc`, some of which is left.
abbrev pub lowered : OrderBook → OrderLocation → ℕ → OrderBook
lowered b loc q = with_levels b loc.side (
    modify loc.price (λ l. set_remaining loc.iterator (remaining_at b loc - q) (shrink q l))
      (levels b loc.side))

module _ (b : OrderBook) (id : ℕ) (loc : OrderLocation) (v : IsValid b) (f : Found b id loc) where
  pub entry_positive : (0 < f.entry.remaining_quantity) × (f.entry.remaining_quantity < u32_mod)
  entry_positive =
      lookup_positive 0 b.next_node loc.iterator f.level.orders f.entry
        ((side_ok b loc.side f.known v).each loc.price f.level f.at_level).queue.chain f.at_node

  pub remaining_positive : 0 < remaining_at b loc
  remaining_positive = rw (remaining_at_found b id loc f) entry_positive.0

  pub queue_ok : QueueOk b.next_node f.level
  queue_ok = ((side_ok b loc.side f.known v).each loc.price f.level f.at_level).queue

  pub node_of_loc : nodes_of b loc ≡ some f.entry
  unfolding node_at
  node_of_loc =
      nodes_of_self b loc f.known ∙ ap (λ o. node_in o loc.iterator) f.at_level ∙ f.at_node

  pub removed-IsValid : IsValid (removed b id loc)
  removed-IsValid = subst IsValid (updated-reindexed b loc.side _ (erase id b.orders_by_id)) (
      updated-IsValid b loc.side _ (erase id b.orders_by_id) b.next_node f.known v (omega arith)
        (LevelsOk-settle loc.side b.next_node (levels b loc.side) (side_ok b loc.side f.known v)
          loc.price _ f.level f.at_level
          (rw (remaining_at_found b id loc f)
            (QueueOk-take b.next_node loc.iterator f.entry f.level f.at_node queue_ok)))
        (Consistent-eq _ _ _ _ (λ at. nodes_of-erase b loc f.known _ f.level at f.at_level refl)
          (lookup-erase id b.orders_by_id) (Consistent-drop v.consistent loc id f.indexed)))

  pub lowered-IsValid : (q : ℕ) → q < remaining_at b loc → IsValid (lowered b loc q)
  lowered-IsValid q less = subst IsValid (updated-with_levels b loc.side _) (
      updated-IsValid b loc.side _ b.orders_by_id b.next_node f.known v (omega arith)
        (LevelsOk-change loc.side b.next_node (levels b loc.side) (side_ok b loc.side f.known v)
          loc.price f.level _ f.at_level
          (rw (remaining_at_found b id loc f) (
            QueueOk-lower b.next_node loc.iterator q f.entry f.level f.at_node
              (rw (remaining_at_found b id loc f) at less) queue_ok))
          (is_empty-modify loc.iterator (with_remaining (remaining_at b loc - q)) f.level.orders
            ∙ ((side_ok b loc.side f.known v).each loc.price f.level f.at_level).filled))
        (Consistent-eq _ _ _ _
          (λ at.
            nodes_of-change b loc f.known _ f.level f.entry (remaining_at b loc - q) at f.at_level
              f.at_node refl)
          (λ j. refl)
          (Consistent-change v.consistent loc f.entry
            (with_remaining (remaining_at b loc - q) f.entry) node_of_loc refl)))

pub cancel_found_lem :
    (b : OrderBook) (id : ℕ) (loc : OrderLocation) (f : Found b id loc)
    → cancel_found b id loc ≡ (ok, removed b id loc)
unfolding cancel_found
cancel_found_lem b id loc f = rw f.known (rw (f.at_level, cancel_found) refl)

-- Cancelling an order of the index succeeds and removes it.
pub apply_cancel-removed :
    (b : OrderBook) (e : CancelOrder) (loc : OrderLocation) (f : Found b e.order_id loc)
    → apply_cancel b e ≡ (ok, removed b e.order_id loc)
unfolding apply_cancel
apply_cancel-removed b e loc f = rw (f.indexed, apply_cancel) (cancel_found_lem b e.order_id loc f)

pub apply_cancel-IsValid :
    (b : OrderBook) (e : CancelOrder) → IsValid b → IsValid (apply_cancel b e).1
unfolding apply_cancel
apply_cancel-IsValid b e v = elim (Option-cases (lookup e.order_id b.orders_by_id)) [
  | inl h ↦ rw (h, apply_cancel) v
  | inr (loc, h) ↦
      let f = found b e.order_id loc v h in
      subst (λ r. IsValid (r.1)) (sym (apply_cancel-removed b e loc f))
        (removed-IsValid b e.order_id loc v f)
]

-- What an execution leaves: the order goes when nothing of it is left.
abbrev pub executed : OrderBook → ℕ → OrderLocation → ℕ → OrderBook
executed b id loc q = if remaining_at b loc == q then removed b id loc else lowered b loc q

erase_node-set_remaining :
    (n q : ℕ) (l : PriceLevel) → erase_node n (set_remaining n q l) ≡ erase_node n l
erase_node-set_remaining n q l =
    λ i. record l { orders = erase-modify n (with_remaining q) l.orders i }

execute_at_lem :
    (b : OrderBook) (id : ℕ) (loc : OrderLocation) (q : ℕ)
    → q ≤ remaining_at b loc
    → execute_at b id loc q ≡ executed b id loc q
unfolding execute_at
execute_at_lem b id loc q le = elim (Bool-cases (remaining_at b loc == q)) [
  | inl all ↦
      let same : remaining_at b loc ≡ q = ground arith in
      let zero : ((remaining_at b loc - q) == 0) ≡ true = ground arith in
      let used = λ (l : PriceLevel).
        erase_node-set_remaining loc.iterator (remaining_at b loc - q) (shrink q l)
        ∙ ap (λ x. erase_node loc.iterator (shrink x l)) (sym same) in
      rw (all, zero)
        (ap
          (λ x.
            reindexed b loc.side (settle loc.price x (levels b loc.side)) (erase id b.orders_by_id))
          (fun_ext used))
  | inr part ↦
      let left : ((remaining_at b loc - q) == 0) ≡ false = ground arith in rw (part, left) refl
]

execute_found_lem :
    (b : OrderBook) (e : ExecuteOrder) (loc : OrderLocation) (f : Found b e.order_id loc)
    → 0 < e.quantity
    → e.quantity ≤ remaining_at b loc
    → execute_found b e loc ≡ (ok, executed b e.order_id loc e.quantity)
unfolding execute_found
execute_found_lem b e loc f pos le =
    let positive : (e.quantity == 0) ≡ false = ground arith in
    let enough : ltb (remaining_at b loc) e.quantity ≡ false = ground arith in
    rw (positive, enough, f.known)
      (rw (f.at_level, execute_found)
        (ap (λ x. (ok, x)) (execute_at_lem b e.order_id loc e.quantity le)))

-- Executing at most what is left of an order of the index succeeds.
pub apply_execute-executed :
    (b : OrderBook) (e : ExecuteOrder) (loc : OrderLocation) (f : Found b e.order_id loc)
    → 0 < e.quantity
    → e.quantity ≤ remaining_at b loc
    → apply_execute b e ≡ (ok, executed b e.order_id loc e.quantity)
unfolding apply_execute
apply_execute-executed b e loc f pos le =
    rw (f.indexed, apply_execute) (execute_found_lem b e loc f pos le)

pub executed-IsValid :
    (b : OrderBook) (id : ℕ) (loc : OrderLocation) (f : Found b id loc) (q : ℕ)
    → IsValid b
    → q ≤ remaining_at b loc
    → IsValid (executed b id loc q)
executed-IsValid b id loc f q v le = elim (Bool-cases (remaining_at b loc == q)) [
  | inl all ↦ rw all (removed-IsValid b id loc v f)
  | inr part ↦ rw part (lowered-IsValid b id loc v f q (ground arith))
]

-- An execution of nothing, or of more than is left, is refused.
range-cases : (q r : ℕ) → ((0 < q) × (q ≤ r)) ⊎ ((q ≡ 0) ⊎ (r < q))
range-cases q r = ground (arith, Bool-cases (q == 0), Bool-cases (ltb r q))

execute_found_refused :
    (b : OrderBook) (e : ExecuteOrder) (loc : OrderLocation)
    → (e.quantity ≡ 0) ⊎ (remaining_at b loc < e.quantity)
    → (execute_found b e loc).1 ≡ b
unfolding execute_found
execute_found_refused b e loc h = ground arith

pub apply_execute-IsValid :
    (b : OrderBook) (e : ExecuteOrder) → IsValid b → IsValid (apply_execute b e).1
unfolding apply_execute
apply_execute-IsValid b e v = elim (Option-cases (lookup e.order_id b.orders_by_id)) [
  | inl h ↦ rw (h, apply_execute) v
  | inr (loc, h) ↦
      let f = found b e.order_id loc v h in
      elim (range-cases e.quantity (remaining_at b loc)) [
        | inl (pos, le) ↦
            subst (λ r. IsValid (r.1)) (sym (apply_execute-executed b e loc f pos le))
              (executed-IsValid b e.order_id loc f e.quantity v le)
        | inr bad ↦
            rw (h, apply_execute) (subst IsValid (sym (execute_found_refused b e loc bad)) v)
      ]
]
