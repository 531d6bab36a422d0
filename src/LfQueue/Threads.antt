-- ===== src/LfQueue/Threads.antt =====
-- Every interleaving of the two threads of src/include/order_book/core/lfqueue.hpp: what each may
-- rely on between its accesses, and what follows for the items.
use limit_order_book.Base.{
  ℕ, ◌+◌, ◌≤◌, ◌<◌, ◌%◌, List, [], ◌∷◌, ◌++◌, length, get_elem?, some, ◌≡◌, arith, length-append,
}
use limit_order_book.Types.{u64_mod}
use limit_order_book.LfQueue.{
  LfQueue, System, Producer, idle, pushing, writing, publishing, Consumer, resting, popping,
  reading, releasing, slot,
}
use limit_order_book.LfQueue.Fifo.{Holds}

module _ {ℓ} {A : Type ℓ} (size : ℕ) where
  pub record ProducerOk (q : LfQueue A) (xs : List A) (p : Producer A) : Type ℓ where
    pub at_push : (x : A) (prod : ℕ) → p ≡ pushing x prod → prod ≡ q.prod_idx
    pub at_write :
        (x : A) (prod : ℕ) → p ≡ writing x prod → (prod ≡ q.prod_idx) × (length xs < size)
    pub at_publish :
        (x : A) (prod : ℕ)
        → p ≡ publishing x prod
        → (prod ≡ q.prod_idx) × (length xs < size) × (q.buffers (slot size prod) ≡ x)

  -- The consumer may know of fewer items than wait, never of more.
  pub record ConsumerOk (q : LfQueue A) (xs : List A) (c : Consumer A) : Type ℓ where
    pub at_pop :
        (prod : ℕ)
        → c ≡ popping prod
        → (known : ℕ) × (known ≤ length xs) × (prod ≡ (q.cons_idx + known) % u64_mod)
    pub at_read : (cons : ℕ) → c ≡ reading cons → (cons ≡ q.cons_idx) × (0 < length xs)
    pub at_release :
        (x : A) (cons : ℕ) → c ≡ releasing x cons → (cons ≡ q.cons_idx) × (get_elem? xs 0 ≡ some x)

  pub record Sound (s : System A) : Type ℓ where
    pub waiting : List A
    pub holds : Holds size s.queue waiting
    pub history : s.sent ≡ s.received ++ waiting
    pub producing : ProducerOk s.queue waiting s.producer
    pub consuming : ConsumerOk s.queue waiting s.consumer

  pub producer_idle : (q : LfQueue A) (xs : List A) → ProducerOk q xs idle
  producer_idle q xs = record {
    at_push = λ x p e. cc;
    at_write = λ x p e. cc;
    at_publish = λ x p e. cc;
  }

  pub consumer_resting : (q : LfQueue A) (xs : List A) → ConsumerOk q xs resting
  consumer_resting q xs = record {
    at_pop = λ p e. cc;
    at_read = λ c e. cc;
    at_release = λ x c e. cc;
  }

  -- What the producer knows stays true when the consumer takes the first item.
  pub producer-popped :
      (q : LfQueue A) (xs : List A) (x : A) (p : Producer A) (cons : ℕ)
      → ProducerOk q (x ∷ xs) p
      → ProducerOk (record q { cons_idx = cons }) xs p
  producer-popped q xs x p cons ok = record {
    at_push = ok.at_push;
    at_write = λ y prod e. let k = ok.at_write y prod e in (k.0, omega (arith, k.1));
    at_publish = λ y prod e. let k = ok.at_publish y prod e in (k.0, omega (arith, k.1), k.2);
  }

  -- What the consumer knows stays true when the producer adds an item, and when it writes to a slot.
  pub consumer-published :
      (q : LfQueue A) (xs : List A) (x : A) (c : Consumer A) (prod : ℕ)
      → ConsumerOk q xs c
      → ConsumerOk (record q { prod_idx = prod }) (xs ++ x ∷ []) c
  consumer-published q xs x c prod ok = record {
    at_pop =
        λ p e. let k = ok.at_pop p e in (k.0, omega (arith, k.1, length-append xs (x ∷ [])), k.2);
    at_read = λ i e. let k = ok.at_read i e in (k.0, omega (arith, k.1, length-append xs (x ∷ [])));
    at_release = λ y i e. let k = ok.at_release y i e in (k.0, first_stays xs x y k.1);
  }
    where
      first_stays :
          (ys : List A) (y z : A) → get_elem? ys 0 ≡ some z → get_elem? (ys ++ y ∷ []) 0 ≡ some z
      first_stays [] y z h = cc
      first_stays (w ∷ ws) y z h = h

  pub consumer-written :
      (q : LfQueue A) (xs : List A) (c : Consumer A) (buffers : ℕ → A)
      → ConsumerOk q xs c
      → ConsumerOk (record q { buffers = buffers }) xs c
  consumer-written q xs c buffers ok = record {
    at_pop = ok.at_pop;
    at_read = ok.at_read;
    at_release = ok.at_release;
  }
