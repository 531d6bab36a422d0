-- ===== src/LfQueue/Steps.antt =====
-- The two threads on the queue of src/include/order_book/core/lfqueue.hpp: a step is one access of
-- `try_push` or `try_pop` to shared memory, and the steps of the two interleave. The release of an
-- index and its acquire by the other thread make the accesses before it visible, so memory is
-- taken as one state that both threads see.
use limit_order_book.Base.{ℕ, true, false, [], ◌∷◌, ◌++◌, ◌≡◌}
use limit_order_book.LfQueue.{
  System, idle, pushing, writing, publishing, resting, popping, reading, releasing, slot, write_at,
  is_full, is_empty, next_idx,
}

-- The new queue, whose array holds what its default constructor puts there.
abbrev pub initial {ℓ} : {A : Type ℓ} → (ℕ → A) → System A
initial content = record {
  queue = record { prod_idx = 0; cons_idx = 0; buffers = content };
  producer = idle;
  consumer = resting;
  sent = [];
  received = [];
}

module _ {ℓ} {A : Type ℓ} (size : ℕ) where
  pub data Step : System A → System A → Type ℓ where
    -- try_push is called and loads prod_idx_.
    push_starts :
        {s : System A} (x : A)
        → s.producer ≡ idle
        → Step s (record s { producer = pushing x s.queue.prod_idx })
    -- It loads cons_idx_ and the queue is full: it returns false.
    push_fails :
        {s : System A} {x : A} {prod : ℕ}
        → s.producer ≡ pushing x prod
        → is_full size prod s.queue.cons_idx ≡ true
        → Step s (record s { producer = idle })
    push_tests :
        {s : System A} {x : A} {prod : ℕ}
        → s.producer ≡ pushing x prod
        → is_full size prod s.queue.cons_idx ≡ false
        → Step s (record s { producer = writing x prod })
    -- buffers_[prod_idx & MASK] = data
    push_writes :
        {s : System A} {x : A} {prod : ℕ}
        → s.producer ≡ writing x prod
        → Step s (record s {
          queue = record s.queue { buffers = write_at size s.queue.buffers prod x };
          producer = publishing x prod;
        })
    -- prod_idx_.store(prod_idx + 1), and it returns true.
    push_publishes :
        {s : System A} {x : A} {prod : ℕ}
        → s.producer ≡ publishing x prod
        → Step s (record s {
          queue = record s.queue { prod_idx = next_idx prod };
          producer = idle;
          sent = s.sent ++ x ∷ [];
        })
    -- try_pop is called and loads prod_idx_.
    pop_starts :
        {s : System A}
        → s.consumer ≡ resting
        → Step s (record s { consumer = popping s.queue.prod_idx })
    -- It loads cons_idx_ and the queue is empty: it returns false.
    pop_fails :
        {s : System A} {prod : ℕ}
        → s.consumer ≡ popping prod
        → is_empty prod s.queue.cons_idx ≡ true
        → Step s (record s { consumer = resting })
    pop_tests :
        {s : System A} {prod : ℕ}
        → s.consumer ≡ popping prod
        → is_empty prod s.queue.cons_idx ≡ false
        → Step s (record s { consumer = reading s.queue.cons_idx })
    -- data = buffers_[cons_idx & MASK]
    pop_reads :
        {s : System A} {cons : ℕ}
        → s.consumer ≡ reading cons
        → Step s (record s { consumer = releasing (s.queue.buffers (slot size cons)) cons })
    -- cons_idx_.store(cons_idx + 1), and it returns true.
    pop_releases :
        {s : System A} {x : A} {cons : ℕ}
        → s.consumer ≡ releasing x cons
        → Step s (record s {
          queue = record s.queue { cons_idx = next_idx cons };
          consumer = resting;
          received = s.received ++ x ∷ [];
        })

  pub data Reachable : System A → Type ℓ where
    starts : (content : ℕ → A) → Reachable (initial content)
    steps : {s t : System A} → Reachable s → Step s t → Reachable t
