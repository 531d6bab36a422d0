-- ===== src/LfQueue.antt =====
-- The bounded queue of include/order_book/core/lfqueue.hpp, for one producer and one consumer. An
-- index is a machine word that wraps around; SIZE is a power of two, so `& MASK` is the remainder.
pub mod Slots
pub mod Fifo
pub mod Steps
pub mod Threads
pub mod Moves
pub mod Sound
pub mod Calls
mod Tests
use limit_order_book.Base.{
  ℕ, ◌+◌, ◌-◌, ◌%◌, Bool, true, false, List, [], ◌==◌, nat_eq, if◌then◌else◌,
}
use limit_order_book.Types.{u64_mod}

-- The array is a function from the slot.
pub record LfQueue {ℓ} (A : Type ℓ) : Type ℓ where
  pub prod_idx : ℕ
  pub cons_idx : ℕ
  pub buffers : ℕ → A

-- `prod_idx + 1` of a `std::size_t`.
abbrev pub next_idx : ℕ → ℕ
next_idx idx = (idx + 1) % u64_mod

abbrev pub is_empty : ℕ → ℕ → Bool
is_empty prod cons = prod == cons

module _ (size : ℕ) where
  -- The subtraction of two words wraps.
  abbrev pub is_full : ℕ → ℕ → Bool
  is_full prod cons = (prod + u64_mod - cons) % u64_mod == size

  abbrev pub slot : ℕ → ℕ
  slot idx = idx % size

module _ {ℓ} {A : Type ℓ} (size : ℕ) where
  abbrev pub write_at : (ℕ → A) → ℕ → A → ℕ → A
  write_at buffers idx x i = if i == slot size idx then x else buffers i

  unfoldable pub try_push : LfQueue A → A → LfQueue A × Bool
  try_push q x = if is_full size q.prod_idx q.cons_idx then (q, false) else (
    record q { buffers = write_at q.buffers q.prod_idx x; prod_idx = next_idx q.prod_idx },
    true,
  )

  -- `out` is the caller's variable `data`, which a failure leaves as it was.
  unfoldable pub try_pop : LfQueue A → A → LfQueue A × (A × Bool)
  try_pop q out =
      if is_empty q.prod_idx q.cons_idx
      then (q, (out, false))
      else (record q { cons_idx = next_idx q.cons_idx }, (q.buffers (slot size q.cons_idx), true))

module _ {ℓ} (A : Type ℓ) where
  -- Where the producer is in `try_push`: before it, behind the load of its own index, behind the
  -- test, and behind the write to the slot.
  pub data Producer : Type ℓ where
    idle : Producer
    pushing : A → ℕ → Producer
    writing : A → ℕ → Producer
    publishing : A → ℕ → Producer

  -- Where the consumer is in `try_pop`: before it, behind the load of the producer's index, behind
  -- the test, and behind the read of the slot.
  pub data Consumer : Type ℓ where
    resting : Consumer
    popping : ℕ → Consumer
    reading : ℕ → Consumer
    releasing : A → ℕ → Consumer

  -- The queue between its two threads, with what was pushed and popped so far.
  pub record System : Type ℓ where
    pub queue : LfQueue A
    pub producer : Producer
    pub consumer : Consumer
    pub sent : List A
    pub received : List A
