-- ===== src/SlotPool/Adaptor.antt =====
-- The allocator of include/order_book/memory/allocator_adaptor.hpp over a pool: single objects only.
use limit_order_book.Base.{ℕ, ◌*◌, ◌/◌, Bool, Option, none, ltb, nat_eq, if◌then◌else◌}
use limit_order_book.SlotPool.{Pool, Allocated, bad_alloc, try_allocate, allocate, deallocate}

-- sizeof(T), alignof(T) and CAPACITY_BYTES.
module _ (size_of align_of capacity : ℕ) where
  unfoldable pub adaptor_try_allocate : Pool → ℕ → Bool → Pool × Option ℕ
  adaptor_try_allocate p n reserved =
      if ltb (capacity / size_of) n
      then (p, none)
      else if ltb 1 n
      then (p, none)
      else try_allocate p (n * size_of) align_of reserved

  unfoldable pub adaptor_allocate : Pool → ℕ → Bool → Pool × Allocated
  adaptor_allocate p n reserved =
      if ltb (capacity / size_of) n
      then (p, bad_alloc)
      else if ltb 1 n
      then (p, bad_alloc)
      else allocate p (n * size_of) align_of reserved

  unfoldable pub adaptor_deallocate : Pool → ℕ → ℕ → Pool
  adaptor_deallocate p pointer n = if ltb 1 n then p else deallocate p pointer (n * size_of)
