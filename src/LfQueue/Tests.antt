-- ===== src/LfQueue/Tests.antt =====
-- A queue of two slots whose indices are about to wrap around, and two threads that meet.
use limit_order_book.Base.{ℕ, zero, suc, [], ◌∷◌, ◌≡◌, ◌≢◌, refl, arith, ◌≤◌, some, get_elem?}
use mathlib.Core.Option.{some-injective}
use limit_order_book.LfQueue.{
  idle, LfQueue, System, writing, reading, slot, write_at, try_push, try_pop,
}
use limit_order_book.LfQueue.Slots.{IsSize}
use limit_order_book.LfQueue.Fifo.{Holds, Same, try_push_lem, try_pop_lem, fifo_push, fifo_pop}
use limit_order_book.LfQueue.Steps.{
  push_starts, push_tests, push_writes, push_publishes, pop_starts, pop_tests, Reachable, starts,
  steps, initial,
}
use limit_order_book.LfQueue.Sound.{InOrder, Reachable-InOrder, Reachable-apart}
use limit_order_book.LfQueue.Calls.{Pushing, called, goes_on, after_push, try_push_runs}

abbrev two-IsSize : IsSize 2
two-IsSize = record { exponent = 1; power = refl; small = omega arith }

-- One item, 7, at the last index before the wrap.
abbrev queue : LfQueue ℕ
queue = record { prod_idx = 0; cons_idx = 18446744073709551615; buffers = λ i. 7 }

stored_at : (i x : ℕ) → get_elem? (7 ∷ []) i ≡ some x → 7 ≡ x
stored_at zero x h = some-injective _ _ h
stored_at (suc i) x h = cc

abbrev queue-Holds : Holds 2 queue (7 ∷ [])
queue-Holds = record {
  head = 18446744073709551615;
  cons_at = refl;
  prod_at = refl;
  room = omega arith;
  stored = stored_at;
}

try_push_lem_example : Same 2 (try_push 2 queue 8) (fifo_push 2 (7 ∷ []) 8)
try_push_lem_example = try_push_lem two-IsSize queue (7 ∷ []) 8 queue-Holds

try_pop_lem_example : Same 2 (try_pop 2 queue 0) (fifo_pop (7 ∷ []) 0)
try_pop_lem_example = try_pop_lem two-IsSize queue (7 ∷ []) 0 queue-Holds

abbrev zeros : System ℕ
zeros = initial (λ i. 0)

-- The producer has pushed 7 and is about to write 8; the consumer is about to read 7.
abbrev meeting : System ℕ
meeting = record {
  queue = record { prod_idx = 1; cons_idx = 0; buffers = write_at 2 (λ i. 0) 0 7 };
  producer = writing 8 1;
  consumer = reading 0;
  sent = 7 ∷ [];
  received = [];
}

abbrev meeting-Reachable : Reachable 2 meeting
meeting-Reachable =
    steps
      (steps
        (steps
          (steps
            (steps
              (steps (steps (steps (starts (λ i. 0)) (push_starts 7 refl)) (push_tests refl refl))
                (push_writes refl))
              (push_publishes refl))
            (push_starts 8 refl))
          (pop_starts refl))
        (push_tests refl refl))
      (pop_tests refl refl)

Reachable-InOrder_example : InOrder two-IsSize meeting
Reachable-InOrder_example = Reachable-InOrder two-IsSize meeting-Reachable

Reachable-apart_example : slot 2 1 ≢ slot 2 0
Reachable-apart_example =
    Reachable-apart two-IsSize {s = meeting} {x = 8} {prod = 1} {cons = 0} meeting-Reachable refl
      refl

-- A call that succeeds, access by access.
abbrev pushed : System ℕ
pushed = after_push 2 zeros 7

push_of_seven : Pushing 2 7 zeros 4 pushed
unfolding try_push
push_of_seven =
    goes_on
      (goes_on (goes_on (called refl) (λ k. cc) (push_tests refl refl) refl) (λ k. cc)
        (push_writes refl) refl)
      (λ k. cc) (push_publishes refl) refl

try_push_runs_example :
    (4 ≤ 4)
    × (pushed.producer ≡ idle → pushed ≡ after_push 2 zeros 7)
    × (pushed.producer ≢ idle → (u : System ℕ) × Pushing 2 7 zeros 5 u)
try_push_runs_example = try_push_runs 2 zeros 7 push_of_seven
