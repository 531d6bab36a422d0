-- ===== src/LfQueue/Moves.antt =====
-- One access of a thread to the queue of src/include/order_book/core/lfqueue.hpp and what the
-- threads know after it.
use limit_order_book.Base.{
  ℕ, ◌+◌, ◌≤◌, ◌<◌, ◌%◌, false, List, [], ◌∷◌, ◌++◌, append_assoc, length, get_elem?, some, ◌≡◌,
  refl, sym, ◌∙◌, ap, subst, arith, ◌==◌, nat_eq,
}
use mathlib.Core.Option.{some-injective}
use limit_order_book.Types.{u64_mod}
use limit_order_book.LfQueue.{
  LfQueue, System, Producer, idle, writing, publishing, Consumer, resting, popping, reading,
  releasing, slot, write_at, is_full, is_empty, next_idx,
}
use limit_order_book.LfQueue.Slots.{IsSize}
use limit_order_book.LfQueue.Fifo.{
  Holds, is_full_lem, is_empty_lem, published, written, popped, front, read_back,
}
use limit_order_book.LfQueue.Threads.{
  ProducerOk, ConsumerOk, Sound, producer_idle, consumer_resting, producer-popped,
  consumer-published, consumer-written,
}

module _ {ℓ} {A : Type ℓ} {size : ℕ} (sized : IsSize size) where
  -- The steps that change nothing but what one thread knows.
  pub producer_moves :
      (s : System A) (p : Producer A) (h : Sound size s)
      → ProducerOk size s.queue h.waiting p
      → Sound size (record s { producer = p })
  producer_moves s p h ok = record {
    waiting = h.waiting;
    holds = h.holds;
    history = h.history;
    producing = ok;
    consuming = h.consuming;
  }

  pub consumer_moves :
      (s : System A) (c : Consumer A) (h : Sound size s)
      → ConsumerOk size s.queue h.waiting c
      → Sound size (record s { consumer = c })
  consumer_moves s c h ok = record {
    waiting = h.waiting;
    holds = h.holds;
    history = h.history;
    producing = h.producing;
    consuming = ok;
  }

  pub has_room :
      (s : System A) (prod : ℕ) (h : Sound size s)
      → prod ≡ s.queue.prod_idx
      → is_full size prod s.queue.cons_idx ≡ false
      → length h.waiting < size
  has_room s prod h same not_full =
      let test : length h.waiting == size ≡ false =
        sym (is_full_lem sized h.holds.head (length h.waiting) h.holds.room)
        ∙ rw (sym h.holds.prod_at, sym h.holds.cons_at, sym same) not_full in
      ground (arith, test, h.holds.room)

  pub has_item :
      (s : System A) (prod known : ℕ) (h : Sound size s)
      → known ≤ length h.waiting
      → prod ≡ (s.queue.cons_idx + known) % u64_mod
      → is_empty prod s.queue.cons_idx ≡ false
      → 0 < length h.waiting
  has_item s prod known h few same some_wait =
      let test : known == 0 ≡ false =
        sym (is_empty_lem sized s.queue.cons_idx known (omega (arith, few, h.holds.room)))
        ∙ ap (λ c. is_empty c (s.queue.cons_idx % u64_mod)) (sym same)
        ∙ ap (is_empty prod) (omega (arith, h.holds.cons_at))
        ∙ some_wait in
      ground (arith, test, few)

  first_of :
      (q : LfQueue A) (xs : List A)
      → Holds size q xs
      → 0 < length xs
      → get_elem? xs 0 ≡ some (q.buffers (slot size q.cons_idx))
  first_of q [] h pos = absurd (omega (arith, pos))
  first_of q (x ∷ xs) h pos = ap some (sym (front sized q xs x h))

  publishing_prod : {x y : A} {m n : ℕ} → publishing x m ≡ publishing y n → m ≡ n
  publishing_prod e = cc

  publishing_item : {x y : A} {m n : ℕ} → publishing x m ≡ publishing y n → x ≡ y
  publishing_item e = cc

  pub writing_prod : {x y : A} {m n : ℕ} → writing x m ≡ writing y n → m ≡ n
  writing_prod e = cc

  pub popping_prod : {m n : ℕ} → ◌≡◌ {A = Consumer A} (popping m) (popping n) → m ≡ n
  popping_prod e = cc

  pub reading_cons : {m n : ℕ} → ◌≡◌ {A = Consumer A} (reading m) (reading n) → m ≡ n
  reading_cons e = cc

  releasing_cons : {x y : A} {m n : ℕ} → releasing x m ≡ releasing y n → m ≡ n
  releasing_cons e = cc

  releasing_item : {x y : A} {m n : ℕ} → releasing x m ≡ releasing y n → x ≡ y
  releasing_item e = cc

  pub read_first :
      (s : System A) (h : Sound size s) (cons : ℕ)
      → cons ≡ s.queue.cons_idx
      → 0 < length h.waiting
      → {x : A} {c : ℕ} → releasing (s.queue.buffers (slot size cons)) cons ≡ releasing x c
      → (c ≡ s.queue.cons_idx) × (get_elem? h.waiting 0 ≡ some x)
  read_first s h cons same pos e = (
    sym (releasing_cons e) ∙ same,
    first_of s.queue h.waiting h.holds pos
        ∙ ap some (ap (λ n. s.queue.buffers (slot size n)) (sym same) ∙ releasing_item e),
  )

  pub split_first : (xs : List A) (x : A) → get_elem? xs 0 ≡ some x → (ys : List A) × (xs ≡ x ∷ ys)
  split_first [] x h = cc
  split_first (y ∷ ys) x h = (ys, ap (λ z. z ∷ ys) (some-injective _ _ h))

  pub after_write :
      (s : System A) (x : A) (prod : ℕ) (h : Sound size s)
      → (prod ≡ s.queue.prod_idx) × (length h.waiting < size)
      → Sound size (record s {
        queue = record s.queue { buffers = write_at size s.queue.buffers prod x };
        producer = publishing x prod;
      })
  after_write s x prod h k = record {
    waiting = h.waiting;
    holds =
        subst
          (λ n.
            Holds size (record s.queue { buffers = write_at size s.queue.buffers n x }) h.waiting)
          (sym k.0) (written sized s.queue h.waiting x h.holds k.1);
    history = h.history;
    producing = record {
      at_push = λ y p e. cc;
      at_write = λ y p e. cc;
      at_publish = λ y p e.
          subst
            (λ n.
              (n ≡ s.queue.prod_idx)
              × (length h.waiting < size)
              × (write_at size s.queue.buffers prod x (slot size n) ≡ y))
            (publishing_prod e)
            (k.0, k.1, read_back sized s.queue.buffers prod x ∙ publishing_item e);
    };
    consuming =
        consumer-written size s.queue h.waiting s.consumer (write_at size s.queue.buffers prod x)
          h.consuming;
  }

  pub after_publish :
      (s : System A) (x : A) (prod : ℕ) (h : Sound size s)
      → (prod ≡ s.queue.prod_idx)
        × (length h.waiting < size)
        × (s.queue.buffers (slot size prod) ≡ x)
      → Sound size (record s {
        queue = record s.queue { prod_idx = next_idx prod };
        producer = idle;
        sent = s.sent ++ x ∷ [];
      })
  after_publish s x prod h k = record {
    waiting = h.waiting ++ x ∷ [];
    holds =
        subst (λ n. Holds size (record s.queue { prod_idx = next_idx n }) (h.waiting ++ x ∷ []))
          (sym k.0)
          (published sized s.queue h.waiting x h.holds k.1
            (subst (λ n. s.queue.buffers (slot size n) ≡ x) k.0 k.2));
    history = rw (h.history, append_assoc s.received h.waiting (x ∷ [])) refl;
    producing =
        producer_idle size (record s.queue { prod_idx = next_idx prod }) (h.waiting ++ x ∷ []);
    consuming = consumer-published size s.queue h.waiting x s.consumer (next_idx prod) h.consuming;
  }

  pub after_release :
      (s : System A) (x : A) (cons : ℕ) (ys : List A) (h : Sound size s)
      → cons ≡ s.queue.cons_idx
      → h.waiting ≡ x ∷ ys
      → Sound size (record s {
        queue = record s.queue { cons_idx = next_idx cons };
        consumer = resting;
        received = s.received ++ x ∷ [];
      })
  after_release s x cons ys h same waiting = record {
    waiting = ys;
    holds =
        subst (λ n. Holds size (record s.queue { cons_idx = next_idx n }) ys) (sym same)
          (popped sized s.queue ys x (subst (Holds size s.queue) waiting h.holds));
    history = h.history ∙ rw (waiting, append_assoc s.received (x ∷ []) ys) refl;
    producing =
        producer-popped size s.queue ys x s.producer (next_idx cons)
          (subst (λ xs. ProducerOk size s.queue xs s.producer) waiting h.producing);
    consuming = consumer_resting size (record s.queue { cons_idx = next_idx cons }) ys;
  }
