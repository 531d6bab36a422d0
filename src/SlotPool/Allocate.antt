-- ===== src/SlotPool/Allocate.antt =====
-- Allocation of include/order_book/memory/fixed_slot_pool.hpp: the first call builds the tables, and
-- a call hands out a slot that no one holds.
use limit_order_book.Base.{
  ℕ, ◌+◌, ◌-◌, ◌*◌, ◌/◌, ◌%◌, ◌≤◌, ◌<◌, true, false, ◌≡◌, ◌≢◌, refl, sym, ◌∙◌, ap, subst, arith,
  ◌==◌, nat_eq, Bool-cases, inl, inr, nat_beq_iff,
}
use native.Mathlib.Nat.{
  div-mul-le_self, le-div_iff_mul-le, div-add-mod, mod-lt, add-mod-mod, mul-add-mod_self_left,
  mod_self, mul-lt-mul_of_pos_right,
}
use limit_order_book.Types.{u64_mod}
use limit_order_book.SlotPool.{Pool, sub_size, set_at, set_up, padding_of, popped_slot}
use limit_order_book.SlotPool.Counting.{count_free-false, count_free-taken}
use limit_order_book.SlotPool.Layout.{Valid, IsFree, slot_at, slot_at-index}

-- A pool whose constructor has run and no allocation yet.
pub record Fresh (p : Pool) : Type 0 where
  pub untouched : p.first_init ≡ false
  pub storage_pos : 0 < p.storage
  pub addressable : p.storage + p.capacity_bytes < u64_mod

-- The size and the alignment of a type: the one is a multiple of the other.
pub record Request (bytes alignment : ℕ) : Type 0 where
  pub bytes_pos : 0 < bytes
  pub alignment_pos : 0 < alignment
  pub units : ℕ
  pub whole : bytes ≡ units * alignment

padding_aligns :
    (pointer alignment : ℕ)
    → 0 < alignment
    → (pointer + padding_of alignment pointer) % alignment ≡ 0
padding_aligns pointer alignment pos =
    let whole : pointer + (alignment - pointer % alignment)
        ≡ alignment * (pointer / alignment) + alignment =
      omega (arith, div-add-mod pointer alignment, mod-lt pointer pos) in
    add-mod-mod pointer (alignment - pointer % alignment) alignment
    ∙ ap (λ n. n % alignment) whole
    ∙ mul-add-mod_self_left alignment (pointer / alignment) alignment
    ∙ mod_self alignment

pub set_up-Valid :
    (p : Pool) (bytes alignment padding : ℕ)
    → Fresh p
    → Request bytes alignment
    → padding_of alignment p.storage ≡ padding
    → padding + bytes ≤ p.capacity_bytes
    → Valid (set_up p bytes alignment padding)
set_up-Valid p bytes alignment padding fresh request at room =
    let n = (p.capacity_bytes - padding) / bytes in
    let pos : 1 ≤ n = (le-div_iff_mul-le request.bytes_pos).1 (omega (arith, room)) in
    record {
      initialized = refl;
      storage_pos = fresh.storage_pos;
      slot_sz_pos = request.bytes_pos;
      slots_pos = pos;
      fits = omega (arith, div-mul-le_self (p.capacity_bytes - padding) bytes, room);
      addressable = fresh.addressable;
      last = refl;
      aligned =
          ap (λ d. (p.storage + d) % alignment) (sym at)
          ∙ padding_aligns p.storage alignment request.alignment_pos;
      units = request.units;
      whole = request.whole;
      counted = sym (count_free-false n);
      free = λ i below. record { index = i; inside = below; start_at = refl; unused = refl };
      distinct = λ i j less below same.
          omega (arith, mul-lt-mul_of_pos_right less request.bytes_pos, same);
    }

-- The free slots but the last lie at other indices than it.
others_stay :
    (p : Pool)
    → Valid p
    → (pos : 0 < p.free_count) → (f : IsFree p (p.free_slots (p.free_count - 1))) → (i : ℕ)
    → i < p.free_count - 1
    → IsFree
        (record p { free_count = p.free_count - 1; in_uses = set_at p.in_uses f.index true })
        (p.free_slots i)
others_stay p h pos f i below =
    let g = h.free i (omega (arith, below)) in
    let apart : g.index ≢ f.index = λ same.
      h.distinct i (p.free_count - 1) below (omega (arith, pos))
        (g.start_at ∙ ap (slot_at p) same ∙ sym f.start_at) in
    record {
      index = g.index;
      inside = g.inside;
      start_at = g.start_at;
      unused = elim (Bool-cases (g.index == f.index)) [
        | inl same ↦ absurd (apart ((nat_beq_iff _ _).0 same))
        | inr other ↦ rw other g.unused
      ];
    }

pub popped_slot-Valid : (p : Pool) → Valid p → 0 < p.free_count → Valid (popped_slot p p.slot_sz).0
popped_slot-Valid p h pos =
    let top = p.free_count - 1 in
    let f = h.free top (omega (arith, pos)) in
    let at : sub_size (p.free_slots top) p.first_valid_start / p.slot_sz ≡ f.index =
      ap (λ n. sub_size n p.first_valid_start / p.slot_sz) f.start_at
      ∙ slot_at-index p f.index h f.inside in
    subst (λ k. Valid (record p { free_count = top; in_uses = set_at p.in_uses k true })) (sym at)
      (record {
        initialized = h.initialized;
        storage_pos = h.storage_pos;
        slot_sz_pos = h.slot_sz_pos;
        slots_pos = h.slots_pos;
        fits = h.fits;
        addressable = h.addressable;
        last = h.last;
        aligned = h.aligned;
        units = h.units;
        whole = h.whole;
        counted =
            omega
              (arith, count_free-taken p.in_uses p.slots f.index f.inside f.unused, h.counted, pos);
        free = λ i below. others_stay p h pos f i below;
        distinct = λ i j less below. h.distinct i j less (omega (arith, below));
      })
