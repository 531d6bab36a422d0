-- ===== src/Book/Levels.antt =====
-- Well-formed price levels, and what each step on the levels of one side does to them.
pub mod Steps
use limit_order_book.Base.{
  ℕ, suc, ◌+◌, ◌-◌, ◌%◌, ◌≤◌, ◌<◌, Bool, true, false, not, ◌&&◌, Option, none, some, [], ◌∷◌, ◌++◌,
  ◌≡◌, refl, sym, ap, arith, ◌==◌, nat_eq, ltb, nat_beq_iff, Bool-cases, Option-cases, inl, inr,
  map_option, if◌then◌else◌,
}
use limit_order_book.Map.{Map, lookup, contains, insert, erase, modify}
use limit_order_book.Map.Laws.{lookup-insert, lookup-erase, lookup-modify, beq_refl}
use limit_order_book.Map.Order.{StrictOrder, Sorted, Sorted-insert, Sorted-erase, Sorted-modify}
use limit_order_book.Types.{Side, bid, ask, other, u32_mod, u64_mod}
use limit_order_book.Book.State.{
  OrderEntry, PriceLevel, Levels, before, empty_level, emplace_back, erase_node, set_remaining,
  grow, shrink, is_empty, settle, remaining_in,
}
use limit_order_book.Book.Apply.{open_level, close_level}
use limit_order_book.Book.Queue.{
  Chain, total, Chain-append, Chain-erase, Chain-modify, Chain-mono_hi, total-append, total-erase,
  total-modify, lookup-le-total, lookup_positive,
}

-- The aggregate of a level is the sum of its orders, to the width of its word.
pub record QueueOk (next : ℕ) (l : PriceLevel) : Type 0 where
  pub chain : Chain 0 next l.orders
  pub sums : l.aggregate_quantity ≡ total l.orders % u64_mod

pub record LevelOk (next price : ℕ) (l : PriceLevel) : Type 0 where
  pub priced : 0 < price
  pub filled : is_empty l.orders ≡ false
  pub queue : QueueOk next l

-- The levels of one side: best price first, and each well-formed.
pub record LevelsOk (s : Side) (next : ℕ) (ls : Levels) : Type 0 where
  pub sorted : Sorted (before s) ls
  pub each : (p : ℕ) (l : PriceLevel) → lookup p ls ≡ some l → LevelOk next p l

pub before-StrictOrder : (s : Side) → StrictOrder (before s)
before-StrictOrder bid = record {
  trans = λ a b c h k. ground arith;
  total = λ a b h k. ground arith;
  irrefl = λ a. ground arith;
}
before-StrictOrder ask = record {
  trans = λ a b c h k. ground arith;
  total = λ a b h k. ground arith;
  irrefl = λ a. ground arith;
}
before-StrictOrder other = record {
  trans = λ a b c h k. ground arith;
  total = λ a b h k. ground arith;
  irrefl = λ a. ground arith;
}

pub empty_level-QueueOk : (next : ℕ) → QueueOk next empty_level
unfolding total
empty_level-QueueOk next = record { chain = omega arith; sums = refl }

pub QueueOk-mono : (n m : ℕ) (l : PriceLevel) → n ≤ m → QueueOk n l → QueueOk m l
QueueOk-mono n m l h q = record { chain = Chain-mono_hi 0 n m l.orders h q.chain; sums = q.sums }

pub QueueOk-push :
    (next : ℕ) (e : OrderEntry) (l : PriceLevel)
    → 0 < e.remaining_quantity
    → e.remaining_quantity < u32_mod
    → QueueOk next l
    → QueueOk (suc next) (grow e.remaining_quantity (emplace_back next e l))
QueueOk-push next e l p r q = record {
  chain = Chain-append 0 next l.orders e p r q.chain;
  sums = omega (arith, total-append l.orders next e, q.sums);
}

pub QueueOk-take :
    (next n : ℕ) (e : OrderEntry) (l : PriceLevel)
    → lookup n l.orders ≡ some e
    → QueueOk next l
    → QueueOk next (erase_node n (shrink e.remaining_quantity l))
QueueOk-take next n e l h q = record {
  chain = Chain-erase 0 next n l.orders q.chain;
  sums =
      let (p, r) = lookup_positive 0 next n l.orders e q.chain h in
      omega (arith, total-erase 0 next n l.orders e q.chain h, q.sums, p, r);
}

pub QueueOk-lower :
    (next n d : ℕ) (e : OrderEntry) (l : PriceLevel)
    → lookup n l.orders ≡ some e
    → d < e.remaining_quantity
    → QueueOk next l
    → QueueOk next (set_remaining n (e.remaining_quantity - d) (shrink d l))
QueueOk-lower next n d e l h lt q = record {
  chain =
      let (p, r) = lookup_positive 0 next n l.orders e q.chain h in
      Chain-modify 0 next n (e.remaining_quantity - d) l.orders (omega arith) (omega arith) q.chain;
  sums =
      let (p, r) = lookup_positive 0 next n l.orders e q.chain h in
      omega (
        arith,
        total-modify 0 next n (e.remaining_quantity - d) l.orders e q.chain h,
        q.sums,
        p,
        r,
      );
}

pub QueueOk-set :
    (next n d : ℕ) (e : OrderEntry) (l : PriceLevel)
    → lookup n l.orders ≡ some e
    → 0 < d
    → d < u32_mod
    → QueueOk next l
    → QueueOk next (grow d (set_remaining n d (shrink e.remaining_quantity l)))
QueueOk-set next n d e l h pos small q = record {
  chain = Chain-modify 0 next n d l.orders pos small q.chain;
  sums =
      let (p, r) = lookup_positive 0 next n l.orders e q.chain h in
      omega (
        arith,
        total-modify 0 next n d l.orders e q.chain h,
        lookup-le-total 0 next n l.orders e q.chain h,
        q.sums,
        p,
        r,
      );
}
