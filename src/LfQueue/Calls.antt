-- ===== src/LfQueue/Calls.antt =====
-- A call that the other thread does not interrupt, of src/include/order_book/core/lfqueue.hpp.
use limit_order_book.Base.{
  ℕ, suc, Bool, true, false, nat_beq_iff, true≢false, nat_eq, ◌==◌, ◌≢◌, sym, ◌∙◌, ap, subst, ◌≤◌,
  [], ◌∷◌, ◌++◌, ◌≡◌, refl, arith, if◌then◌else◌, Bool-cases, inl, inr,
}
use limit_order_book.LfQueue.{
  System, Producer, idle, pushing, writing, publishing, is_full, write_at, next_idx, try_push,
}
use limit_order_book.LfQueue.Steps.{
  Step, push_starts, push_fails, push_tests, push_writes, push_publishes, pop_starts, pop_fails,
  pop_tests, pop_reads, pop_releases,
}

-- The accesses of the producer.
abbrev pub is_producer {ℓ} : {A : Type ℓ} {size : ℕ} {s t : System A} → Step size s t → Bool
is_producer (push_starts x e) = true
is_producer (push_fails e h) = true
is_producer (push_tests e h) = true
is_producer (push_writes e) = true
is_producer (push_publishes e) = true
is_producer (pop_starts e) = false
is_producer (pop_fails e h) = false
is_producer (pop_tests e h) = false
is_producer (pop_reads e) = false
is_producer (pop_releases e) = false

-- The first `n` accesses of one call try_push(x) that the consumer does not interrupt, from `s` on:
-- any accesses of the producer until it is idle again.
pub data Pushing {ℓ} {A : Type ℓ} (size : ℕ) (x : A) (s : System A) : ℕ → System A → Type ℓ where
  called :
      s.producer ≡ idle → Pushing size x s 1 (record s { producer = pushing x s.queue.prod_idx })
  goes_on :
      {n : ℕ} {t u : System A}
      → Pushing size x s n t
      → t.producer ≢ idle
      → (step : Step size t u) → is_producer step ≡ true
      → Pushing size x s (suc n) u

module _ {ℓ} {A : Type ℓ} (size : ℕ) (s : System A) where
  -- The state after `try_push`.
  abbrev pub after_push : A → System A
  after_push x =
      let (q, done) = try_push size s.queue x in
      record s { queue = q; producer = idle; sent = if done then s.sent ++ x ∷ [] else s.sent }

  abbrev index_of : Producer A → ℕ
  index_of idle = 0
  index_of (pushing x prod) = prod
  index_of (writing x prod) = prod
  index_of (publishing x prod) = prod

  abbrev place_of : Producer A → ℕ
  place_of idle = 0
  place_of (pushing x prod) = 1
  place_of (writing x prod) = 2
  place_of (publishing x prod) = 3

  abbrev set_idle : System A → System A
  set_idle t = record t { producer = idle }

  -- The accesses by what the producer is about to do.
  abbrev after_test : System A → Producer A → System A
  after_test t (pushing x prod) = record t { producer = writing x prod }
  after_test t idle = t
  after_test t _ = t

  abbrev after_write : System A → Producer A → System A
  after_write t (writing x prod) = record t {
    queue = record t.queue { buffers = write_at size t.queue.buffers prod x };
    producer = publishing x prod;
  }
  after_write t idle = t
  after_write t _ = t

  abbrev after_publish : System A → Producer A → System A
  after_publish t (publishing x prod) = record t {
    queue = record t.queue { prod_idx = next_idx prod };
    producer = idle;
    sent = t.sent ++ x ∷ [];
  }
  after_publish t idle = t
  after_publish t _ = t

  -- Where a call is after each of its accesses.
  data At (x : A) : ℕ → System A → Type ℓ where
    started : {t : System A} → t ≡ record s { producer = pushing x s.queue.prod_idx } → At x 1 t
    refused :
        {t : System A}
        → is_full size s.queue.prod_idx s.queue.cons_idx ≡ true
        → t ≡ record s { producer = idle }
        → At x 2 t
    tested :
        {t : System A}
        → is_full size s.queue.prod_idx s.queue.cons_idx ≡ false
        → t ≡ record s { producer = writing x s.queue.prod_idx }
        → At x 2 t
    written :
        {t : System A}
        → is_full size s.queue.prod_idx s.queue.cons_idx ≡ false
        → t ≡ record s {
          queue = record s.queue { buffers = write_at size s.queue.buffers s.queue.prod_idx x };
          producer = publishing x s.queue.prod_idx;
        }
        → At x 3 t
    published :
        {t : System A}
        → is_full size s.queue.prod_idx s.queue.cons_idx ≡ false
        → t ≡ record s {
          queue = record s.queue {
            buffers = write_at size s.queue.buffers s.queue.prod_idx x;
            prod_idx = next_idx s.queue.prod_idx;
          };
          producer = idle;
          sent = s.sent ++ x ∷ [];
        }
        → At x 4 t

  -- What the access of a test has found.
  tested_full :
      {t : System A} (x y : A) (prod : ℕ) (full : Bool)
      → t ≡ record s { producer = pushing x s.queue.prod_idx }
      → t.producer ≡ pushing y prod
      → is_full size prod t.queue.cons_idx ≡ full
      → is_full size s.queue.prod_idx s.queue.cons_idx ≡ full
  tested_full {t} x y prod full same e test =
      subst (λ q. is_full size (index_of q.producer) q.queue.cons_idx ≡ full) same
        (subst (λ i. is_full size i t.queue.cons_idx ≡ full) (sym (ap index_of e)) test)

  -- The producer of a state is in one place.
  clash : {a p q : Producer A} → a ≡ p → a ≡ q → (place_of p == place_of q) ≡ false → ⊥
  clash {a} {p} {q} e f apart =
      true≢false (sym ((nat_beq_iff (place_of p) (place_of q)).1 (ap place_of (sym e ∙ f))) ∙ apart)

  producer_in : {t u : System A} → t ≡ u → t.producer ≡ u.producer
  producer_in same = ap (λ q. q.producer) same

  fails-At :
      {n : ℕ} {t : System A} (x y : A) (prod : ℕ)
      → At x n t
      → t.producer ≡ pushing y prod
      → is_full size prod t.queue.cons_idx ≡ true
      → At x (suc n) (set_idle t)
  fails-At x y prod (started same) e full =
      refused (tested_full x y prod true same e full) (ap set_idle same)
  fails-At x y prod (refused f same) e full = absurd (clash (producer_in same) e refl)
  fails-At x y prod (tested f same) e full = absurd (clash (producer_in same) e refl)
  fails-At x y prod (written f same) e full = absurd (clash (producer_in same) e refl)
  fails-At x y prod (published f same) e full = absurd (clash (producer_in same) e refl)

  tests-At :
      {n : ℕ} {t : System A} (x y : A) (prod : ℕ)
      → At x n t
      → t.producer ≡ pushing y prod
      → is_full size prod t.queue.cons_idx ≡ false
      → At x (suc n) (after_test t (pushing y prod))
  tests-At {n} {t} x y prod (started same) e room =
      tested (tested_full x y prod false same e room)
        (ap (after_test t) (sym e) ∙ ap (λ q. after_test q q.producer) same)
  tests-At x y prod (refused f same) e room = absurd (clash (producer_in same) e refl)
  tests-At x y prod (tested f same) e room = absurd (clash (producer_in same) e refl)
  tests-At x y prod (written f same) e room = absurd (clash (producer_in same) e refl)
  tests-At x y prod (published f same) e room = absurd (clash (producer_in same) e refl)

  writes-At :
      {n : ℕ} {t : System A} (x y : A) (prod : ℕ)
      → At x n t
      → t.producer ≡ writing y prod
      → At x (suc n) (after_write t (writing y prod))
  writes-At {n} {t} x y prod (tested room same) e =
      written room (ap (after_write t) (sym e) ∙ ap (λ q. after_write q q.producer) same)
  writes-At x y prod (started same) e = absurd (clash (producer_in same) e refl)
  writes-At x y prod (refused f same) e = absurd (clash (producer_in same) e refl)
  writes-At x y prod (written f same) e = absurd (clash (producer_in same) e refl)
  writes-At x y prod (published f same) e = absurd (clash (producer_in same) e refl)

  publishes-At :
      {n : ℕ} {t : System A} (x y : A) (prod : ℕ)
      → At x n t
      → t.producer ≡ publishing y prod
      → At x (suc n) (after_publish t (publishing y prod))
  publishes-At {n} {t} x y prod (written room same) e =
      published room (ap (after_publish t) (sym e) ∙ ap (λ q. after_publish q q.producer) same)
  publishes-At x y prod (started same) e = absurd (clash (producer_in same) e refl)
  publishes-At x y prod (refused f same) e = absurd (clash (producer_in same) e refl)
  publishes-At x y prod (tested f same) e = absurd (clash (producer_in same) e refl)
  publishes-At x y prod (published f same) e = absurd (clash (producer_in same) e refl)

  access-At :
      {n : ℕ} {t u : System A} (x : A)
      → At x n t
      → t.producer ≢ idle
      → (step : Step size t u) → is_producer step ≡ true
      → At x (suc n) u
  access-At x h busy (push_starts y e) p = absurd (busy e)
  access-At x h busy (push_fails {x = y} {prod = prod} e full) p = fails-At x y prod h e full
  access-At x h busy (push_tests {x = y} {prod = prod} e room) p = tests-At x y prod h e room
  access-At x h busy (push_writes {x = y} {prod = prod} e) p = writes-At x y prod h e
  access-At x h busy (push_publishes {x = y} {prod = prod} e) p = publishes-At x y prod h e
  access-At x h busy (pop_starts e) p = cc
  access-At x h busy (pop_fails e full) p = cc
  access-At x h busy (pop_tests e room) p = cc
  access-At x h busy (pop_reads e) p = cc
  access-At x h busy (pop_releases e) p = cc

  Pushing-At : (x : A) {n : ℕ} {t : System A} → Pushing size x s n t → At x n t
  Pushing-At x (called e) = started refl
  Pushing-At x (goes_on c busy step p) = access-At x (Pushing-At x c) busy step p

  At-le : {n : ℕ} {t : System A} (x : A) → At x n t → n ≤ 4
  At-le x (started same) = omega arith
  At-le x (refused f same) = omega arith
  At-le x (tested f same) = omega arith
  At-le x (written f same) = omega arith
  At-le x (published f same) = omega arith

  At-done : {n : ℕ} {t : System A} (x : A) → At x n t → t.producer ≡ idle → t ≡ after_push x
  unfolding try_push
  At-done x (started same) e = absurd (clash (producer_in same) e refl)
  At-done x (refused full same) e = same ∙ rw full refl
  At-done x (tested f same) e = absurd (clash (producer_in same) e refl)
  At-done x (written f same) e = absurd (clash (producer_in same) e refl)
  At-done x (published room same) e = same ∙ rw room refl

  At-goes_on :
      {n : ℕ} {t : System A} (x : A)
      → At x n t
      → t.producer ≢ idle
      → (u : System A) × (step : Step size t u) × (is_producer step ≡ true)
  At-goes_on {n} {t} x (started same) busy =
      elim (Bool-cases (is_full size s.queue.prod_idx t.queue.cons_idx)) [
        | inl full ↦ (_, push_fails (producer_in same) full, refl)
        | inr room ↦ (_, push_tests (producer_in same) room, refl)
      ]
  At-goes_on x (refused f same) busy = absurd (busy (producer_in same))
  At-goes_on x (tested f same) busy = (_, push_writes (producer_in same), refl)
  At-goes_on x (written f same) busy = (_, push_publishes (producer_in same), refl)
  At-goes_on x (published f same) busy = absurd (busy (producer_in same))

  -- A call of try_push that the consumer does not interrupt, whatever accesses the producer makes in
  -- it: there are at most four; until the producer is idle again it can make another; and when it is
  -- idle, the state is what `try_push` says.
  pub try_push_runs :
      {n : ℕ} {t : System A} (x : A)
      → Pushing size x s n t
      → (n ≤ 4)
        × (t.producer ≡ idle → t ≡ after_push x)
        × (t.producer ≢ idle → (u : System A) × Pushing size x s (suc n) u)
  try_push_runs {n} {t} x c =
      let h = Pushing-At x c in
      (
        At-le x h,
        At-done x h,
        λ busy. let (u, step, p) = At-goes_on x h busy in (u, goes_on c busy step p),
      )
