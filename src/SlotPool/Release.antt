-- ===== src/SlotPool/Release.antt =====
-- Deallocation of include/order_book/memory/fixed_slot_pool.hpp: which pointers it takes back.
use limit_order_book.Base.{
  both_true, le→leb, ℕ, ◌+◌, ◌-◌, ◌*◌, ◌/◌, ◌%◌, ◌≤◌, ◌<◌, Bool, true, false, not, ◌||◌, ◌≡◌, refl,
  sym, ◌∙◌, ap, subst, arith, ◌==◌, nat_eq, Bool-cases, inl, inr, ◌⊎◌, nat_beq_iff, leb→le,
}
use native.Mathlib.Nat.{
  div-add-mod, mul-le-mul_right, le_of_mul-le-mul_right, mul-mod_left, mod_self, mul_comm,
}
use limit_order_book.Types.{u64_mod}
use limit_order_book.SlotPool.{Pool, sub_size, padding_of, is_slot, freed, deallocate}
use limit_order_book.SlotPool.Layout.{Valid, slot_at, slot_ends, slot_at-index, slot_at-aligned}

-- A pointer that an allocation handed out and that was not taken back since.
pub record UsedAt (p : Pool) (pointer : ℕ) : Type 0 where
  pub index : ℕ
  pub inside : index < p.slots
  pub points : pointer ≡ p.storage + slot_at p index
  pub used : p.in_uses index ≡ true

last_test : (a b c d : Bool) → (a || b) || (c || not d) ≡ false → d ≡ true
last_test true b c d h = cc
last_test false true c d h = cc
last_test false false true d h = cc
last_test false false false true h = refl
last_test false false false false h = sym h

module _ (p : Pool) (h : Valid p) where
  start_of : (k : ℕ) → k < p.slots → sub_size (p.storage + slot_at p k) p.storage ≡ slot_at p k
  start_of k below = omega (arith, slot_ends p k h below, h.addressable)

  offset_of : (k : ℕ) → k < p.slots → sub_size (slot_at p k) p.first_valid_start ≡ k * p.slot_sz
  offset_of k below = omega (arith, slot_ends p k h below, h.addressable)

  no_padding :
      (pointer : ℕ) → pointer % p.slot_alignment ≡ 0 → padding_of p.slot_alignment pointer ≡ 0
  no_padding pointer aligned =
      ap (λ r. (p.slot_alignment - r) % p.slot_alignment) aligned
      ∙ ap (λ n. n % p.slot_alignment) (omega arith)
      ∙ mod_self p.slot_alignment

  slot_passes : (k : ℕ) → k < p.slots → is_slot p (p.storage + slot_at p k) (slot_at p k) ≡ true
  slot_passes k below =
      let upto : k * p.slot_sz ≤ (p.slots - 1) * p.slot_sz =
        mul-le-mul_right p.slot_sz (omega (arith, below)) in
      let whole : sub_size (slot_at p k) p.first_valid_start % p.slot_sz ≡ 0 =
        ap (λ n. n % p.slot_sz) (offset_of k below) ∙ mul-mod_left k p.slot_sz in
      rw
        (
          le→leb (slot_at p k) p.last_valid_start (omega (arith, upto, h.last)),
          le→leb p.first_valid_start (slot_at p k) (omega arith),
          whole,
          no_padding (p.storage + slot_at p k) (slot_at-aligned p k h),
        )
        (le→leb (0 + p.slot_sz) p.slot_sz (omega arith))

  at_slot :
      (pointer start : ℕ)
      → pointer < u64_mod
      → start ≡ sub_size pointer p.storage
      → start ≤ p.last_valid_start
      → p.first_valid_start ≤ start
      → sub_size start p.first_valid_start % p.slot_sz ≡ 0
      → (k : ℕ) × (k < p.slots)
        × (pointer ≡ p.storage + slot_at p k)
        × (sub_size start p.first_valid_start / p.slot_sz ≡ k)
  at_slot pointer start word is_start low high whole =
      let k = sub_size start p.first_valid_start / p.slot_sz in
      let ends = slot_ends p (p.slots - 1) h (omega (arith, h.slots_pos)) in
      let offset : sub_size start p.first_valid_start ≡ start - p.first_valid_start =
        omega (arith, low, high, h.last, ends, h.addressable) in
      let product : k * p.slot_sz ≡ start - p.first_valid_start =
        mul_comm k p.slot_sz
        ∙ omega
            (arith, div-add-mod (sub_size start p.first_valid_start) p.slot_sz, whole, offset) in
      let upto : k ≤ p.slots - 1 =
        le_of_mul-le-mul_right (omega (arith, product, low, high, h.last)) h.slot_sz_pos in
      (
        k,
        omega (arith, upto, h.slots_pos),
        omega (arith, product, is_start, word, low, high, h.last, ends, h.addressable),
        refl,
      )

  -- The start that passes the guards is a slot's.
  passed_index :
      (pointer : ℕ)
      → pointer < u64_mod
      → is_slot p pointer (sub_size pointer p.storage) ≡ true
      → (k : ℕ) × (k < p.slots)
        × (pointer ≡ p.storage + slot_at p k)
        × (sub_size (sub_size pointer p.storage) p.first_valid_start / p.slot_sz ≡ k)
  passed_index pointer word passes =
      let (ends, rest) = both_true _ _ passes in
      let (not_behind, not_before) = both_true _ _ ends in
      let (whole, aligned) = both_true _ _ rest in
      at_slot pointer (sub_size pointer p.storage) word refl (leb→le _ _ not_behind)
        (leb→le _ _ not_before) ((nat_beq_iff _ _).0 whole)

  -- The first guard of `deallocate`.
  is_refused : ℕ → ℕ → Bool
  is_refused pointer bytes =
      (pointer == 0 || bytes == 0) || (not p.first_init || not (bytes == p.slot_sz))

  asked_for_size : (pointer bytes : ℕ) → is_refused pointer bytes ≡ false → bytes ≡ p.slot_sz
  unfolding is_refused
  asked_for_size pointer bytes k =
      (nat_beq_iff bytes p.slot_sz).0
        (last_test (pointer == 0) (bytes == 0) (not p.first_init) (bytes == p.slot_sz) k)

  used_is_asked : (pointer : ℕ) → UsedAt p pointer → is_refused pointer p.slot_sz ≡ false
  unfolding is_refused
  used_is_asked pointer u =
      let pointer_pos : pointer == 0 ≡ false = ground (arith, u.points, h.storage_pos) in
      let size_pos : p.slot_sz == 0 ≡ false = ground (arith, h.slot_sz_pos) in
      rw (pointer_pos, size_pos, h.initialized, (nat_beq_iff p.slot_sz p.slot_sz).1 refl) refl

  -- A pointer to a slot in use, with the size of a slot, is taken back: the slot is free again and
  -- on top of the stack.
  pub deallocate_used :
      (pointer : ℕ) (u : UsedAt p pointer)
      → deallocate p pointer p.slot_sz ≡ freed p (slot_at p u.index) u.index
  unfolding deallocate is_refused
  deallocate_used pointer u =
      subst (λ n. deallocate p n p.slot_sz ≡ freed p (slot_at p u.index) u.index) (sym u.points)
        (rw
          (
            subst (λ n. is_refused n p.slot_sz ≡ false) u.points (used_is_asked pointer u),
            start_of u.index u.inside,
            is_slot,
            slot_passes u.index u.inside,
            slot_at-index p u.index h u.inside,
            u.used,
          )
          refl)

  pub deallocate_cases :
      (pointer bytes : ℕ)
      → pointer < u64_mod
      → (deallocate p pointer bytes ≡ p) ⊎ ((bytes ≡ p.slot_sz) × UsedAt p pointer)
  unfolding deallocate is_refused
  deallocate_cases pointer bytes word = elim (Bool-cases (is_refused pointer bytes)) [
    | inl refused ↦ inl (rw refused refl)
    | inr asked ↦
        let same = asked_for_size pointer bytes asked in
        elim (Bool-cases (is_slot p pointer (sub_size pointer p.storage))) [
          | inr no_slot ↦ inl (rw (asked, is_slot, no_slot) refl)
          | inl passes ↦
              let (k, below, points, at) = passed_index pointer word passes in
              elim (Bool-cases (p.in_uses k)) [
                | inr free ↦ inl (rw (asked, is_slot, passes, same, at, free) refl)
                | inl used ↦
                    inr (same, record { index = k; inside = below; points = points; used = used })
              ]
        ]
  ]

  -- Every other call is ignored: one with another size, with a pointer that is not to a slot, or with
  -- a pointer to a slot that is free already.
  pub deallocate_ignored :
      (pointer bytes : ℕ)
      → pointer < u64_mod
      → ((bytes ≡ p.slot_sz) → UsedAt p pointer → ⊥)
      → deallocate p pointer bytes ≡ p
  deallocate_ignored pointer bytes word unused = elim (deallocate_cases pointer bytes word) [
    | inl ignored ↦ ignored
    | inr (same, u) ↦ absurd (unused same u)
  ]
