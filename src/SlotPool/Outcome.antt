-- ===== src/SlotPool/Outcome.antt =====
-- What a call of allocation in include/order_book/memory/fixed_slot_pool.hpp returns.
use limit_order_book.Base.{
  true≢false, ℕ, suc, ◌+◌, ◌-◌, ◌/◌, ◌%◌, ◌≤◌, ◌<◌, Bool, true, false, not, ◌||◌, none, some, ◌≡◌,
  ◌≢◌, refl, sym, ◌∙◌, ap, arith, ◌==◌, nat_eq, Bool-cases, inl, inr, ◌⊎◌, nat_beq_iff,
  if◌then◌else◌,
}
use limit_order_book.SlotPool.{Pool, sub_size, set_at, ready, popped_slot, take_slot, try_allocate}
use limit_order_book.SlotPool.Layout.{Valid, slot_at, slot_ends, slot_at-index, slot_at-aligned}
use limit_order_book.SlotPool.Allocate.{popped_slot-Valid}

-- `p` gives a slot of its own to the caller and becomes `q`.
pub record HandsOut (p q : Pool) (at : ℕ) : Type 0 where
  pub valid : Valid q
  pub slot : ℕ
  pub inside : slot < p.slots
  pub found_at : at ≡ p.storage + slot_at p slot
  pub was_free : p.in_uses slot ≡ false
  pub now_used : q.in_uses ≡ set_at p.in_uses slot true
  pub others_kept : q ≡ record p { free_count = q.free_count; in_uses = q.in_uses }
  pub one_less : suc q.free_count ≡ p.free_count
  pub aligned : at % p.slot_alignment ≡ 0
  pub within : at + p.slot_sz ≤ p.storage + p.capacity_bytes

pub popped_slot-HandsOut :
    (p : Pool)
    → Valid p
    → 0 < p.free_count
    → HandsOut p (popped_slot p p.slot_sz).0 (popped_slot p p.slot_sz).1
popped_slot-HandsOut p h pos =
    let f = h.free (p.free_count - 1) (omega (arith, pos)) in
    let at : sub_size (p.free_slots (p.free_count - 1)) p.first_valid_start / p.slot_sz ≡ f.index =
      ap (λ n. sub_size n p.first_valid_start / p.slot_sz) f.start_at
      ∙ slot_at-index p f.index h f.inside in
    record {
      valid = popped_slot-Valid p h pos;
      slot = f.index;
      inside = f.inside;
      found_at = ap (λ n. p.storage + n) f.start_at;
      was_free = f.unused;
      now_used = ap (λ k. set_at p.in_uses k true) at;
      others_kept = refl;
      one_less = omega (arith, pos);
      aligned =
          ap (λ n. (p.storage + n) % p.slot_alignment) f.start_at ∙ slot_at-aligned p f.index h;
      within = omega (arith, f.start_at, slot_ends p f.index h f.inside);
    }

differs : (m n : ℕ) → m ≢ n → m == n ≡ false
differs m n other = elim (Bool-cases (m == n)) [
  | inl same ↦ absurd (other ((nat_beq_iff m n).0 same))
  | inr k ↦ k
]

either_way {ℓ} : {A : Type ℓ} {x : A} (b : Bool) → (if b then x else x) ≡ x
either_way true = refl
either_way false = refl

any_size {ℓ} :
    {A : Type ℓ} {x : A} (y : A) (b c : Bool)
    → (if b then x else if not c || true then x else y) ≡ x
any_size y true c = refl
any_size y false true = refl
any_size y false false = refl

module _ (p : Pool) (h : Valid p) where
  taken : 0 < p.free_count → take_slot p p.slot_sz p.slot_alignment ≡ some (popped_slot p p.slot_sz)
  unfolding take_slot
  taken pos =
      rw
        (
          some_left p.free_count pos,
          (nat_beq_iff p.slot_sz p.slot_sz).1 refl,
          (nat_beq_iff p.slot_alignment p.slot_alignment).1 refl,
        )
        refl
    where
      some_left : (n : ℕ) → 0 < n → n == 0 ≡ false
      some_left n k = ground (arith, k)

  not_taken :
      (bytes alignment : ℕ)
      → (p.free_count ≡ 0) ⊎ ((bytes ≢ p.slot_sz) ⊎ (alignment ≢ p.slot_alignment))
      → take_slot p bytes alignment ≡ none
  unfolding take_slot
  not_taken bytes alignment (inl z) = rw ((nat_beq_iff p.free_count 0).1 z) refl
  not_taken bytes alignment (inr (inl other)) =
      rw (differs p.slot_sz bytes (λ e. other (sym e))) (either_way (p.free_count == 0))
  not_taken bytes alignment (inr (inr other)) =
      rw (differs p.slot_alignment alignment (λ e. other (sym e)))
        (any_size _ (p.free_count == 0) (p.slot_sz == bytes))

  is_ready : (bytes alignment : ℕ) (reserved : Bool) → ready p bytes alignment reserved ≡ some p
  unfolding ready
  is_ready bytes alignment reserved = rw h.initialized refl

  pub try_allocate_taken :
      (reserved : Bool)
      → 0 < p.free_count
      → try_allocate p p.slot_sz p.slot_alignment reserved
        ≡ ((popped_slot p p.slot_sz).0, some (popped_slot p p.slot_sz).1)
  unfolding try_allocate
  try_allocate_taken reserved pos =
      rw
        (
          some_bytes p.slot_sz h.slot_sz_pos,
          is_ready p.slot_sz p.slot_alignment reserved,
          taken pos,
        )
        refl
    where
      some_bytes : (n : ℕ) → 0 < n → n == 0 ≡ false
      some_bytes n k = ground (arith, k)

  -- A call for the pool's size and alignment, while a slot is free, gets the address of a slot that
  -- nobody held: inside the storage, aligned, and marked as used. Nothing else of the pool changes.
  pub try_allocate-HandsOut :
      (reserved : Bool)
      → 0 < p.free_count
      → (at : ℕ) × (q : Pool) × (try_allocate p p.slot_sz p.slot_alignment reserved ≡ (q, some at))
        × HandsOut p q at
  try_allocate-HandsOut reserved pos = (
    (popped_slot p p.slot_sz).1,
    (popped_slot p p.slot_sz).0,
    try_allocate_taken reserved pos,
    popped_slot-HandsOut p h pos,
  )

  -- A call for another size or alignment, for no bytes, or with no slot free gets nothing and
  -- changes nothing.
  pub try_allocate_refused :
      (bytes alignment : ℕ) (reserved : Bool)
      → (bytes ≡ 0) ⊎ ((p.free_count ≡ 0) ⊎ ((bytes ≢ p.slot_sz) ⊎ (alignment ≢ p.slot_alignment)))
      → try_allocate p bytes alignment reserved ≡ (p, none)
  unfolding try_allocate
  try_allocate_refused bytes alignment reserved why = elim (Bool-cases (bytes == 0)) [
    | inl nothing ↦ rw nothing refl
    | inr something ↦
        rw
          (
            something,
            is_ready bytes alignment reserved,
            not_taken bytes alignment (without_bytes bytes something why),
          )
          refl
  ]
    where
      without_bytes : {R : Type 0} (n : ℕ) → n == 0 ≡ false → (n ≡ 0) ⊎ R → R
      without_bytes n k (inl z) = absurd (true≢false (sym ((nat_beq_iff n 0).1 z) ∙ k))
      without_bytes n k (inr r) = r
