-- ===== src/LfQueue/Sound.antt =====
-- What every interleaving on the queue of src/include/order_book/core/lfqueue.hpp keeps.
use limit_order_book.Base.{
  ℕ, ◌+◌, ◌-◌, ◌≤◌, ◌%◌, List, [], ◌++◌, length, ◌≡◌, ◌≢◌, refl, sym, ◌∙◌, ap, arith, nat_eq,
}
use limit_order_book.Types.{u64_mod}
use limit_order_book.LfQueue.{
  System, idle, pushing, writing, resting, popping, reading, releasing, slot,
}
use limit_order_book.LfQueue.Slots.{IsSize, size_lt, slot-apart}
use limit_order_book.LfQueue.Steps.{
  Step, push_starts, push_fails, push_tests, push_writes, push_publishes, pop_starts, pop_fails,
  pop_tests, pop_reads, pop_releases, Reachable, starts, steps,
}
use limit_order_book.LfQueue.Threads.{Sound, producer_idle, consumer_resting}
use limit_order_book.LfQueue.Moves.{
  producer_moves, consumer_moves, has_room, has_item, writing_prod, popping_prod, reading_cons,
  read_first, split_first, after_write, after_publish, after_release,
}

module _ {ℓ} {A : Type ℓ} {size : ℕ} (sized : IsSize size) where
  Step-Sound : {s t : System A} → Step size s t → Sound size s → Sound size t
  Step-Sound {s} (push_starts x e) h =
      producer_moves sized s (pushing x s.queue.prod_idx) h
        (record { at_push = λ y p k. cc; at_write = λ y p k. cc; at_publish = λ y p k. cc })
  Step-Sound {s} (push_fails e full) h =
      producer_moves sized s idle h (producer_idle size s.queue h.waiting)
  Step-Sound {s} (push_tests {x = x} {prod = prod} e not_full) h =
      let same = h.producing.at_push x prod e in
      let room = has_room sized s prod h same not_full in
      producer_moves sized s (writing x prod) h (record {
        at_push = λ y p k. cc;
        at_write = λ y p k. (omega (arith, same, writing_prod sized k), room);
        at_publish = λ y p k. cc;
      })
  Step-Sound {s} (push_writes {x = x} {prod = prod} e) h =
      after_write sized s x prod h (h.producing.at_write x prod e)
  Step-Sound {s} (push_publishes {x = x} {prod = prod} e) h =
      after_publish sized s x prod h (h.producing.at_publish x prod e)
  Step-Sound {s} (pop_starts e) h = consumer_moves sized s (popping s.queue.prod_idx) h (record {
    at_pop = λ p k. (
      length h.waiting,
      omega arith,
      omega (arith, popping_prod sized k, h.holds.prod_at, h.holds.cons_at),
    );
    at_read = λ c k. cc;
    at_release = λ x c k. cc;
  })
  Step-Sound {s} (pop_fails e empty) h =
      consumer_moves sized s resting h (consumer_resting size s.queue h.waiting)
  Step-Sound {s} (pop_tests {prod = prod} e some_wait) h =
      let (known, few, same) = h.consuming.at_pop prod e in
      let pos = has_item sized s prod known h few same some_wait in
      consumer_moves sized s (reading s.queue.cons_idx) h (record {
        at_pop = λ p k. cc;
        at_read = λ c k. (sym (reading_cons sized k), pos);
        at_release = λ x c k. cc;
      })
  Step-Sound {s} (pop_reads {cons = cons} e) h =
      let (same, pos) = h.consuming.at_read cons e in
      consumer_moves sized s (releasing (s.queue.buffers (slot size cons)) cons) h (record {
        at_pop = λ p k. cc;
        at_read = λ c k. cc;
        at_release = λ x c k. read_first sized s h cons same pos k;
      })
  Step-Sound {s} (pop_releases {x = x} {cons = cons} e) h =
      let (same, first) = h.consuming.at_release x cons e in
      let (ys, waiting) = split_first sized h.waiting x first in
      after_release sized s x cons ys h same waiting

  Reachable-Sound : {s : System A} → Reachable size s → Sound size s
  Reachable-Sound (starts content) = record {
    waiting = [];
    holds = record {
      head = 0;
      cons_at = refl;
      prod_at = refl;
      room = omega arith;
      stored = λ i x at. cc;
    };
    history = refl;
    producing = producer_idle size (record { prod_idx = 0; cons_idx = 0; buffers = content }) [];
    consuming = consumer_resting size (record { prod_idx = 0; cons_idx = 0; buffers = content }) [];
  }
  Reachable-Sound (steps r st) = Step-Sound st (Reachable-Sound r)

  -- What the two threads see of one another.
  pub record InOrder (s : System A) : Type ℓ where
    pub rest : List A
    pub in_order : s.sent ≡ s.received ++ rest
    pub bounded : length rest ≤ size
    pub counted : (s.queue.prod_idx + u64_mod - s.queue.cons_idx) % u64_mod ≡ length rest

  -- However the accesses of the two threads interleave, the items arrive in the order in which they
  -- were pushed, none lost and none twice: what was pushed is what was popped, then the items that
  -- wait. At most SIZE wait, and the wrapping difference of the indices is their number.
  pub Reachable-InOrder : {s : System A} → Reachable size s → InOrder s
  Reachable-InOrder {s} r =
      let h = Reachable-Sound r in
      record {
        rest = h.waiting;
        in_order = h.history;
        bounded = h.holds.room;
        counted = omega (arith, h.holds.prod_at, h.holds.cons_at, h.holds.room, size_lt sized);
      }

  -- The slot that the producer is about to write is never the one that the consumer is about to
  -- read, however their accesses interleaved so far.
  pub Reachable-apart :
      {s : System A} {x : A} {prod cons : ℕ}
      → Reachable size s
      → s.producer ≡ writing x prod
      → s.consumer ≡ reading cons
      → slot size prod ≢ slot size cons
  Reachable-apart {s} {x} {prod} {cons} r writes reads same =
      let h = Reachable-Sound r in
      let (at_prod, room) = h.producing.at_write x prod writes in
      let (at_cons, pos) = h.consuming.at_read cons reads in
      slot-apart sized h.holds.head (length h.waiting) pos room (
        ap (slot size) (sym (at_cons ∙ h.holds.cons_at))
        ∙ sym same
        ∙ ap (slot size) (at_prod ∙ h.holds.prod_at))
