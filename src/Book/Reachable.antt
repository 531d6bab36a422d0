-- ===== src/Book/Reachable.antt =====
-- The books that a program can make: an empty book, changed by any sequence of operations.
use limit_order_book.Base.{
  ℕ, ◌<◌, Bool, none, some, [], ◌≡◌, ◌≢◌, refl, arith, nat_eq, Bool-cases, inl, inr,
}
use limit_order_book.Map.{Map, lookup}
use limit_order_book.Types.{is_known, Side, bid, ask, other, u32_mod, AddOrder, EventPayload}
use limit_order_book.Book.State.{levels, OrderLocation, OrderBook, Allocation, empty_book, node_at}
use limit_order_book.Book.Apply.{apply, reset}
use limit_order_book.Book.Replace.{replace}
use limit_order_book.Book.Levels.{LevelsOk}
use limit_order_book.Book.Nodes.{nodes_of}
use limit_order_book.Book.Invariant.{IsValid}
use limit_order_book.Book.Invariant.Replaced.{replace-IsValid}
use limit_order_book.Book.Refine.{InRange, apply-IsValid}

-- The pool of a new book may have failed to allocate its storage.
abbrev pub new_book : Bool → OrderBook
new_book pool = record empty_book { has_pool = pool }

pub data Reachable : OrderBook → Type 0 where
  created : (pool : Bool) → Reachable (new_book pool)
  applied :
      (alloc : Allocation) (b : OrderBook) (event : EventPayload)
      → InRange event
      → Reachable b
      → Reachable (apply alloc b event).1
  replaced :
      (alloc : Allocation) (b : OrderBook) (old_id : ℕ) (next : AddOrder) (maintain : Bool)
      → next.quantity < u32_mod
      → Reachable b
      → Reachable (replace alloc b old_id next maintain).1
  cleared : (b : OrderBook) → Reachable b → Reachable (reset b)

lookup-nil : {V : Type 0} (k : ℕ) (m : Map ℕ V) → m ≡ [] → lookup k m ≡ none
unfolding lookup
lookup-nil k m h = rw h refl

not_found : {V : Type 0} (k : ℕ) (v : V) (m : Map ℕ V) → m ≡ [] → lookup k m ≢ some v
not_found k v m h e = cc (lookup-nil k m h, e)

LevelsOk-empty : (s : Side) (next : ℕ) → LevelsOk s next []
LevelsOk-empty s next = record { sorted = tt; each = λ p l h. absurd (not_found p l [] refl h) }

abbrev pub bare : Bool → ℕ → OrderBook
bare pool next = record (new_book pool) { next_node = next }

no_levels : (pool : Bool) (next : ℕ) (s : Side) → levels (bare pool next) s ≡ []
no_levels pool next bid = refl
no_levels pool next ask = refl
no_levels pool next other = refl

no_nodes : (pool : Bool) (next : ℕ) (loc : OrderLocation) → nodes_of (bare pool next) loc ≡ none
unfolding nodes_of node_at
no_nodes pool next loc = elim (Bool-cases (is_known loc.side)) [
  | inl h ↦ rw (h, lookup-nil loc.price _ (no_levels pool next loc.side)) refl
  | inr h ↦ rw h refl
]

pub bare-IsValid : (pool : Bool) (next : ℕ) → IsValid (bare pool next)
bare-IsValid pool next = record {
  bids_ok = LevelsOk-empty bid next;
  asks_ok = LevelsOk-empty ask next;
  consistent = record {
    index_of = λ loc e h. absurd (ground (arith, no_nodes pool next loc, h));
    node_of = λ id loc h. absurd (not_found id loc [] refl h);
  };
}

-- Every book that events and replacements of 32-bit quantities and resets can make is valid: both sides are sorted and hold no empty level, every
-- aggregate is the sum of its queue, and the index and the queues agree.
pub Reachable-IsValid : (b : OrderBook) → Reachable b → IsValid b
unfolding reset
Reachable-IsValid b (created pool) = bare-IsValid pool 0
Reachable-IsValid b (applied alloc c event fits r) =
    apply-IsValid alloc c event fits (Reachable-IsValid c r)
Reachable-IsValid b (replaced alloc c old_id next maintain fits r) =
    replace-IsValid alloc c old_id next maintain fits (Reachable-IsValid c r)
Reachable-IsValid b (cleared c r) = bare-IsValid c.has_pool c.next_node
