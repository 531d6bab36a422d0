-- ===== src/SlotPool/Reuse.antt =====
-- A slot of include/order_book/memory/fixed_slot_pool.hpp that is taken back and handed out again.
use limit_order_book.Base.{
  true≢false, ℕ, ◌+◌, ◌-◌, ◌/◌, ◌<◌, Bool, true, false, ◌≡◌, ◌≢◌, refl, sym, ◌∙◌, ap, subst, arith,
  ◌==◌, nat_eq, Bool-cases, inl, inr, nat_beq_iff, some, fun_ext,
}
use limit_order_book.Types.{u64_mod}
use limit_order_book.SlotPool.{Pool, sub_size, set_at, freed, deallocate, try_allocate, popped_slot}
use limit_order_book.SlotPool.Counting.{count_free-returned}
use limit_order_book.SlotPool.Layout.{Valid, IsFree, slot_at, slot_at-index, slot_at-injective}
use limit_order_book.SlotPool.Outcome.{try_allocate_taken}
use limit_order_book.SlotPool.Release.{UsedAt, deallocate_used, deallocate_cases}

set_at-same {ℓ} : {A : Type ℓ} (f : ℕ → A) (i : ℕ) (x : A) → set_at f i x i ≡ x
set_at-same f i x = rw ((nat_beq_iff i i).1 refl) refl

pub set_at-other {ℓ} : {A : Type ℓ} (f : ℕ → A) (i j : ℕ) (x : A) → j ≢ i → set_at f i x j ≡ f j
set_at-other f i j x other = elim (Bool-cases (j == i)) [
  | inl same ↦ absurd (other ((nat_beq_iff j i).0 same))
  | inr k ↦ rw k refl
]

module _ (p : Pool) (h : Valid p) (pointer : ℕ) (u : UsedAt p pointer) where
  returned : Pool
  returned = freed p (slot_at p u.index) u.index

  used_not_free : (k : ℕ) → p.in_uses k ≡ false → k ≢ u.index
  used_not_free k free same = true≢false (sym u.used ∙ ap p.in_uses (sym same) ∙ free)

  still_listed : (i : ℕ) → i < p.free_count + 1 → IsFree returned (returned.free_slots i)
  unfolding returned
  still_listed i below = elim (Bool-cases (i == p.free_count)) [
    | inl last ↦ rw last (record {
      index = u.index;
      inside = u.inside;
      start_at = refl;
      unused = set_at-same p.in_uses u.index false;
    })
    | inr earlier ↦
        let g = h.free i (ground (arith, below, earlier)) in
        rw earlier (record {
          index = g.index;
          inside = g.inside;
          start_at = g.start_at;
          unused =
              set_at-other p.in_uses u.index g.index false (used_not_free g.index g.unused)
              ∙ g.unused;
        })
  ]

  distinct_again :
      (i j : ℕ)
      → i < j
      → j < p.free_count + 1
      → set_at p.free_slots p.free_count (slot_at p u.index) i
        ≢ set_at p.free_slots p.free_count (slot_at p u.index) j
  distinct_again i j less below same =
      let before : i ≢ p.free_count = omega (arith, less, below) in
      let at_i = set_at-other p.free_slots p.free_count i (slot_at p u.index) before in
      elim (Bool-cases (j == p.free_count)) [
        | inl last ↦
            let g = h.free i (omega (arith, less, below)) in
            let at_j : set_at p.free_slots p.free_count (slot_at p u.index) j ≡ slot_at p u.index =
              rw last refl in
            used_not_free g.index g.unused
              (slot_at-injective p g.index u.index h (sym g.start_at ∙ sym at_i ∙ same ∙ at_j))
        | inr earlier ↦
            let apart : j ≢ p.free_count = ground (arith, earlier) in
            let at_j = set_at-other p.free_slots p.free_count j (slot_at p u.index) apart in
            h.distinct i j less (omega (arith, below, apart)) (sym at_i ∙ same ∙ at_j)
      ]

  freed-Valid : Valid (freed p (slot_at p u.index) u.index)
  unfolding returned
  freed-Valid = record {
    initialized = h.initialized;
    storage_pos = h.storage_pos;
    slot_sz_pos = h.slot_sz_pos;
    slots_pos = h.slots_pos;
    fits = h.fits;
    addressable = h.addressable;
    last = h.last;
    aligned = h.aligned;
    units = h.units;
    whole = h.whole;
    counted =
        omega (arith, count_free-returned p.in_uses p.slots u.index u.inside u.used, h.counted);
    free = still_listed;
    distinct = distinct_again;
  }

pub deallocate-Valid :
    (p : Pool) (pointer bytes : ℕ)
    → Valid p
    → pointer < u64_mod
    → Valid (deallocate p pointer bytes)
deallocate-Valid p pointer bytes h word = elim (deallocate_cases p h pointer bytes word) [
  | inl ignored ↦ subst Valid (sym ignored) h
  | inr (same, u) ↦
      subst Valid (sym (ap (deallocate p pointer) same ∙ deallocate_used p h pointer u))
        (freed-Valid p h pointer u)
]

-- The top of the stack after a slot was taken back.
top_start :
    (p : Pool) (start : ℕ) → set_at p.free_slots p.free_count start (p.free_count + 1 - 1) ≡ start
top_start p start =
    ap (set_at p.free_slots p.free_count start) (omega arith)
    ∙ set_at-same p.free_slots p.free_count start

top_again :
    (p : Pool)
    → Valid p
    → (pointer : ℕ) (u : UsedAt p pointer)
    → (popped_slot (freed p (slot_at p u.index) u.index) p.slot_sz).1 ≡ pointer
top_again p h pointer u = ap (λ n. p.storage + n) (top_start p (slot_at p u.index)) ∙ sym u.points

uses_again :
    (p : Pool)
    → Valid p
    → (pointer : ℕ) (u : UsedAt p pointer)
    → (popped_slot (freed p (slot_at p u.index) u.index) p.slot_sz).0.in_uses ≡ p.in_uses
uses_again p h pointer u =
    ap
      (λ start.
        set_at (set_at p.in_uses u.index false) (sub_size start p.first_valid_start / p.slot_sz)
          true)
      (top_start p (slot_at p u.index))
    ∙ ap (λ k. set_at (set_at p.in_uses u.index false) k true) (slot_at-index p u.index h u.inside)
    ∙ fun_ext (λ j. put_back j)
  where
    put_back : (j : ℕ) → set_at (set_at p.in_uses u.index false) u.index true j ≡ p.in_uses j
    put_back j = elim (Bool-cases (j == u.index)) [
      | inl same ↦ rw same (sym u.used ∙ ap p.in_uses (sym ((nat_beq_iff j u.index).0 same)))
      | inr other ↦ rw other refl
    ]

-- A slot that is taken back is the next to be handed out, and the pool is then as it was before, but
-- for the place of `free_slots` above the top of the stack, which has the slot's start.
pub reallocated :
    (p : Pool) (pointer : ℕ) (reserved : Bool)
    → Valid p
    → UsedAt p pointer
    → (q : Pool) × (try_allocate
          (deallocate p pointer p.slot_sz)
          p.slot_sz
          p.slot_alignment
          reserved
        ≡ (q, some pointer))
      × (q ≡ record p { free_slots = set_at p.free_slots p.free_count (pointer - p.storage) })
reallocated p pointer reserved h u =
    let back = freed p (slot_at p u.index) u.index in
    let valid = freed-Valid p h pointer u in
    (
      (popped_slot back p.slot_sz).0,
      ap (λ r. try_allocate r p.slot_sz p.slot_alignment reserved) (deallocate_used p h pointer u)
          ∙ try_allocate_taken back valid reserved (omega arith)
          ∙ ap (λ at. ((popped_slot back p.slot_sz).0, some at)) (top_again p h pointer u),
      again (uses_again p h pointer u) (omega (arith, u.points)),
    )
  where
    again :
        (popped_slot (freed p (slot_at p u.index) u.index) p.slot_sz).0.in_uses ≡ p.in_uses
        → slot_at p u.index ≡ pointer - p.storage
        → (popped_slot (freed p (slot_at p u.index) u.index) p.slot_sz).0
          ≡ record p { free_slots = set_at p.free_slots p.free_count (pointer - p.storage) }
    again uses start =
        let less : p.free_count + 1 - 1 ≡ p.free_count = omega arith in
        ap
          (λ uses'. record p {
            free_slots = set_at p.free_slots p.free_count (slot_at p u.index);
            in_uses = uses';
            free_count = p.free_count + 1 - 1;
          })
          uses
        ∙ ap
            (λ n. record p {
              free_slots = set_at p.free_slots p.free_count (slot_at p u.index);
              free_count = n;
            })
            less
        ∙ ap (λ n. record p { free_slots = set_at p.free_slots p.free_count n }) start
