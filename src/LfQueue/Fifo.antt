-- ===== src/LfQueue/Fifo.antt =====
-- What the queue of src/include/order_book/core/lfqueue.hpp promises: a list of at most SIZE items,
-- in the order of their pushes.
use limit_order_book.Base.{
  ℕ, zero, suc, ◌+◌, ◌-◌, ◌≤◌, ◌<◌, ◌%◌, Bool, true, false, List, [], ◌∷◌, ◌++◌, length, get_elem?,
  some, ◌≡◌, ◌≢◌, refl, sym, ◌∙◌, ap, subst, arith, ◌==◌, nat_eq, if◌then◌else◌, inl, inr, ◌⊎◌,
  Bool-cases, length-append, nat_beq_iff,
}
use mathlib.Core.Option.{some-injective}
use limit_order_book.Types.{u64_mod}
use limit_order_book.LfQueue.{
  LfQueue, slot, write_at, is_full, is_empty, next_idx, try_push, try_pop,
}
use limit_order_book.LfQueue.Slots.{IsSize, size_lt, slot-apart}

module _ {ℓ} {A : Type ℓ} where
  abbrev pub fifo_push : ℕ → List A → A → List A × Bool
  fifo_push size xs x = if length xs == size then (xs, false) else (xs ++ x ∷ [], true)

  abbrev pub fifo_pop : List A → A → List A × (A × Bool)
  fifo_pop [] out = ([], (out, false))
  fifo_pop (x ∷ xs) out = (xs, (x, true))

  -- The slots from the counter `head` on hold the items.
  abbrev pub Stored : ℕ → (ℕ → A) → ℕ → List A → Type ℓ
  Stored size buffers head xs =
      (i : ℕ) (x : A) → get_elem? xs i ≡ some x → buffers (slot size ((head + i) % u64_mod)) ≡ x

  -- `head` counts the pops; it does not wrap.
  pub record Holds (size : ℕ) (q : LfQueue A) (xs : List A) : Type ℓ where
    pub head : ℕ
    pub cons_at : q.cons_idx ≡ head % u64_mod
    pub prod_at : q.prod_idx ≡ (head + length xs) % u64_mod
    pub room : length xs ≤ size
    pub stored : Stored size q.buffers head xs

  -- What `q` and the items are after a call, with what the call returns.
  pub record Same {ℓ'} {R : Type ℓ'} (size : ℕ) (q : LfQueue A × R) (xs : List A × R)
      : Type (ℓ ⊔ ℓ') where
    pub holds : Holds size q.0 xs.0
    pub returned : q.1 ≡ xs.1

  pub get_elem?-lt : (xs : List A) (i : ℕ) (x : A) → get_elem? xs i ≡ some x → i < length xs
  get_elem?-lt [] i x h = cc
  get_elem?-lt (y ∷ ys) zero x h = omega arith
  get_elem?-lt (y ∷ ys) (suc i) x h = omega (arith, get_elem?-lt ys i x h)

  get_elem?-last :
      (xs : List A) (i : ℕ) (x y : A)
      → get_elem? (xs ++ y ∷ []) i ≡ some x
      → (get_elem? xs i ≡ some x) ⊎ ((i ≡ length xs) × (y ≡ x))
  get_elem?-last [] zero x y h = inr (refl, some-injective _ _ h)
  get_elem?-last [] (suc i) x y h = cc
  get_elem?-last (z ∷ zs) zero x y h = inl h
  get_elem?-last (z ∷ zs) (suc i) x y h = elim (get_elem?-last zs i x y h) [
    | inl k ↦ inl k
    | inr k ↦ inr (omega (arith, k.0), k.1)
  ]

module _ {size : ℕ} (sized : IsSize size) where
  -- The test on the wrapping indices is the test on the number of items.
  pub is_full_lem :
      (head n : ℕ) → n ≤ size → is_full size ((head + n) % u64_mod) (head % u64_mod) ≡ n == size
  is_full_lem head n h = ground (arith, size_lt sized)

  pub is_empty_lem :
      (head n : ℕ) → n ≤ size → is_empty ((head + n) % u64_mod) (head % u64_mod) ≡ n == 0
  is_empty_lem head n h = ground (arith, size_lt sized)

module _ {ℓ} {A : Type ℓ} {size : ℕ} (sized : IsSize size) where
  -- A write behind the items leaves them as they are.
  pub Stored-write_at :
      (buffers : ℕ → A) (head : ℕ) (xs : List A) (x : A)
      → Stored size buffers head xs
      → length xs < size
      → Stored size (write_at size buffers ((head + length xs) % u64_mod) x) head xs
  Stored-write_at buffers head xs x h room i y at = elim (Bool-cases other) [
    | inl same ↦ absurd (apart ((nat_beq_iff _ _).0 same))
    | inr differs ↦ rw differs (h i y at)
  ]
    where
      below : i < length xs
      below = get_elem?-lt xs i y at

      other : Bool
      other = slot size ((head + i) % u64_mod) == slot size ((head + length xs) % u64_mod)

      counted : head + i + (length xs - i) ≡ head + length xs
      counted = omega (arith, below)

      apart : slot size ((head + i) % u64_mod) ≢ slot size ((head + length xs) % u64_mod)
      apart =
          subst (λ n. slot size ((head + i) % u64_mod) ≢ slot size (n % u64_mod)) counted
            (slot-apart sized (head + i) (length xs - i) (omega (arith, below))
              (omega (arith, room)))

  -- The item at the counter behind the others joins them.
  pub Stored-append :
      (buffers : ℕ → A) (head : ℕ) (xs : List A) (x : A)
      → Stored size buffers head xs
      → buffers (slot size ((head + length xs) % u64_mod)) ≡ x
      → Stored size buffers head (xs ++ x ∷ [])
  Stored-append buffers head xs x h last i y at = elim (get_elem?-last xs i y x at) [
    | inl k ↦ h i y k
    | inr k ↦ subst (λ n. buffers (slot size ((head + n) % u64_mod)) ≡ y) (sym k.0) (last ∙ k.1)
  ]

  pub Stored-tail :
      (buffers : ℕ → A) (head : ℕ) (xs : List A) (x : A)
      → Stored size buffers head (x ∷ xs)
      → Stored size buffers (head + 1) xs
  Stored-tail buffers head xs x h i y at =
      let counted : head + 1 + i ≡ head + suc i = omega arith in rw counted (h (suc i) y at)

  -- The store to an index, behind the write to the slot and behind the read of it.
  pub published :
      (q : LfQueue A) (xs : List A) (x : A)
      → Holds size q xs
      → length xs < size
      → q.buffers (slot size q.prod_idx) ≡ x
      → Holds size (record q { prod_idx = next_idx q.prod_idx }) (xs ++ x ∷ [])
  published q xs x h room last = record {
    head = h.head;
    cons_at = h.cons_at;
    prod_at = omega (arith, h.prod_at, length-append xs (x ∷ []));
    room = omega (arith, room, length-append xs (x ∷ []));
    stored =
        Stored-append q.buffers h.head xs x h.stored
          (subst (λ n. q.buffers (slot size n) ≡ x) h.prod_at last);
  }

  pub written :
      (q : LfQueue A) (xs : List A) (x : A)
      → Holds size q xs
      → length xs < size
      → Holds size (record q { buffers = write_at size q.buffers q.prod_idx x }) xs
  written q xs x h room = record {
    head = h.head;
    cons_at = h.cons_at;
    prod_at = h.prod_at;
    room = h.room;
    stored =
        subst (λ n. Stored size (write_at size q.buffers n x) h.head xs) (sym h.prod_at)
          (Stored-write_at q.buffers h.head xs x h.stored room);
  }

  pub read_back :
      (buffers : ℕ → A) (idx : ℕ) (x : A) → write_at size buffers idx x (slot size idx) ≡ x
  read_back buffers idx x = rw ((nat_beq_iff (slot size idx) (slot size idx)).1 refl) refl

  pub front :
      (q : LfQueue A) (xs : List A) (x : A)
      → Holds size q (x ∷ xs)
      → q.buffers (slot size q.cons_idx) ≡ x
  front q xs x h =
      subst (λ n. q.buffers (slot size n) ≡ x) (omega (arith, h.cons_at)) (h.stored 0 x refl)

  pub popped :
      (q : LfQueue A) (xs : List A) (x : A)
      → Holds size q (x ∷ xs)
      → Holds size (record q { cons_idx = next_idx q.cons_idx }) xs
  popped q xs x h = record {
    head = h.head + 1;
    cons_at = omega (arith, h.cons_at);
    prod_at = omega (arith, h.prod_at);
    room = omega (arith, h.room);
    stored = Stored-tail q.buffers h.head xs x h.stored;
  }

  pushed :
      (q : LfQueue A) (xs : List A) (x : A)
      → Holds size q xs
      → length xs < size
      → Holds size
          (record q {
            buffers = write_at size q.buffers q.prod_idx x;
            prod_idx = next_idx q.prod_idx;
          })
          (xs ++ x ∷ [])
  pushed q xs x h room =
      published (record q { buffers = write_at size q.buffers q.prod_idx x }) xs x
        (written q xs x h room) room (read_back q.buffers q.prod_idx x)

  -- A queue that holds a list of at most SIZE items, with indices that may have wrapped around, puts
  -- an item last and says so, or fails and stays as it is if SIZE items wait.
  pub try_push_lem :
      (q : LfQueue A) (xs : List A) (x : A)
      → Holds size q xs
      → Same size (try_push size q x) (fifo_push size xs x)
  unfolding try_push
  try_push_lem q xs x h =
      let test : is_full size q.prod_idx q.cons_idx ≡ length xs == size =
        rw (h.prod_at, h.cons_at) (is_full_lem sized h.head (length xs) h.room) in
      elim (Bool-cases (length xs == size)) [
        | inl full ↦ rw (is_full, test ∙ full, full) (record { holds = h; returned = refl })
        | inr not_full ↦
            rw (is_full, test ∙ not_full, not_full)
              (record {
                holds = pushed q xs x h (ground (arith, h.room, not_full));
                returned = refl;
              })
      ]

  -- A queue that holds a list of at most SIZE items, with indices that may have wrapped around, takes
  -- its first item, or fails and leaves the output as it is if none waits.
  pub try_pop_lem :
      (q : LfQueue A) (xs : List A) (out : A)
      → Holds size q xs
      → Same size (try_pop size q out) (fifo_pop xs out)
  unfolding try_pop
  try_pop_lem q [] out h =
      let test : is_empty q.prod_idx q.cons_idx ≡ true =
        rw (h.prod_at, h.cons_at) (is_empty_lem sized h.head 0 h.room) in
      rw (is_empty, test) (record { holds = h; returned = refl })
  try_pop_lem q (x ∷ xs) out h =
      let test : is_empty q.prod_idx q.cons_idx ≡ false =
        rw (h.prod_at, h.cons_at)
          (is_empty_lem sized h.head (suc (length xs)) h.room ∙ ground arith) in
      rw (is_empty, test)
        (record { holds = popped q xs x h; returned = ap (λ y. (y, true)) (front q xs x h) })
