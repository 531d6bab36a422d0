-- ===== src/SlotPool/Calls.antt =====
-- Sequences of calls of include/order_book/memory/fixed_slot_pool.hpp, and what a call leaves to the
-- holders of slots.
use limit_order_book.Base.{
  true≢false, ℕ, suc, ◌+◌, ◌*◌, ◌≤◌, ◌<◌, Bool, true, ◌≡◌, ◌≢◌, refl, sym, ◌∙◌, ap, subst, arith,
  ◌==◌, nat_eq, Bool-cases, inl, inr, ◌⊎◌, nat_beq_iff, some, second-none≢some, both_equal,
  first_equal, Option, none, List, [], ◌∷◌,
}
use native.Mathlib.Nat.{mul-le-mul_right}
use native.Mathlib.Decide.{dec_lt, ℕ_discrete}
use limit_order_book.Types.{u64_mod}
use limit_order_book.SlotPool.{Pool, deallocate, try_allocate}
use limit_order_book.SlotPool.Layout.{Valid, slot_at}
use limit_order_book.SlotPool.Outcome.{HandsOut, try_allocate-HandsOut, try_allocate_refused}
use limit_order_book.SlotPool.Release.{UsedAt}
use limit_order_book.SlotPool.Reuse.{set_at-other, deallocate-Valid}

-- What an allocation leaves to the holder of a pointer.
pub record Apart (p q : Pool) (pointer bytes at : ℕ) : Type 0 where
  pub disjoint : (at + bytes ≤ pointer) ⊎ (pointer + p.slot_sz ≤ at)
  pub still_used : UsedAt q pointer

next_slot : (p : Pool) (j k : ℕ) → j < k → slot_at p j + p.slot_sz ≤ slot_at p k
next_slot p j k less =
    let one_more : suc j * p.slot_sz ≤ k * p.slot_sz = mul-le-mul_right p.slot_sz less in
    let counted : suc j * p.slot_sz ≡ j * p.slot_sz + p.slot_sz = omega arith in
    omega (arith, one_more, counted)

apart :
    (p q : Pool) (at pointer : ℕ) (out : HandsOut p q at) (u : UsedAt p pointer)
    → u.index ≢ out.slot
apart p q at pointer out u same = true≢false (sym u.used ∙ ap p.in_uses same ∙ out.was_free)

HandsOut-Apart :
    (p q : Pool) (at pointer : ℕ)
    → Valid p
    → HandsOut p q at
    → UsedAt p pointer
    → Apart p q pointer p.slot_sz at
HandsOut-Apart p q at pointer h out u = record {
  disjoint = elim (dec_lt u.index out.slot) [
    | yes less ↦ inr (omega (arith, out.found_at, u.points, next_slot p u.index out.slot less))
    | no more ↦ inl (
        omega (
          arith,
          out.found_at,
          u.points,
          next_slot p out.slot u.index (omega (arith, more, apart p q at pointer out u)),
        ))
  ];
  still_used =
      subst (λ r. UsedAt r pointer) (sym out.others_kept)
        (record {
          index = u.index;
          inside = u.inside;
          points = u.points;
          used =
              ap (λ f. f u.index) out.now_used
              ∙ set_at-other p.in_uses out.slot u.index true (apart p q at pointer out u)
              ∙ u.used;
        });
}

-- A call that gets an address asked for the pool's size and alignment, and got a slot.
accepted-HandsOut :
    (p q : Pool) (bytes alignment at : ℕ) (reserved : Bool)
    → Valid p
    → try_allocate p bytes alignment reserved ≡ (q, some at)
    → (bytes ≡ p.slot_sz) × HandsOut p q at
accepted-HandsOut p q bytes alignment at reserved h e = elim (ℕ_discrete bytes p.slot_sz) [
  | no other ↦ refused (inr (inr (inl other)))
  | yes size ↦ elim (ℕ_discrete alignment p.slot_alignment) [
    | no other ↦ refused (inr (inr (inr other)))
    | yes aligned ↦ elim (Bool-cases (p.free_count == 0)) [
      | inl exhausted ↦ refused (inr (inl ((nat_beq_iff p.free_count 0).0 exhausted)))
      | inr some_left ↦
          let (at', q', found, out) =
            try_allocate-HandsOut p h reserved (ground (arith, some_left)) in
          let same : (q', some at') ≡ (q, some at) =
            sym found
            ∙ ap (λ n. try_allocate p n p.slot_alignment reserved) (sym size)
            ∙ ap (λ n. try_allocate p bytes n reserved) (sym aligned)
            ∙ e in
          (size, subst (λ (b, r). HandsOut p r b) (both_equal same) out)
    ]
  ]
]
  where
    refused :
        (bytes ≡ 0) ⊎ ((p.free_count ≡ 0) ⊎ ((bytes ≢ p.slot_sz) ⊎ (alignment ≢ p.slot_alignment)))
        → (bytes ≡ p.slot_sz) × HandsOut p q at
    refused why =
        absurd (second-none≢some (sym (try_allocate_refused p h bytes alignment reserved why) ∙ e))

-- Whatever the size and the alignment of a call, the bytes that it hands out are none of a slot that
-- is in use, and what was in use stays in use.
pub try_allocate-Apart :
    (p q : Pool) (pointer bytes alignment at : ℕ) (reserved : Bool)
    → Valid p
    → UsedAt p pointer
    → try_allocate p bytes alignment reserved ≡ (q, some at)
    → Apart p q pointer bytes at
try_allocate-Apart p q pointer bytes alignment at reserved h u e =
    let (size, out) = accepted-HandsOut p q bytes alignment at reserved h e in
    subst (λ n. Apart p q pointer n at) (sym size) (HandsOut-Apart p q at pointer h out u)

-- A call, and what it leaves of the pool.
pub data Call : Type 0 where
  allocates : (bytes alignment : ℕ) (reserved : Bool) → Call
  releases : (pointer bytes : ℕ) → Call

abbrev pub after_call : Call → Pool → Pool
after_call (allocates bytes alignment reserved) p = (try_allocate p bytes alignment reserved).0
after_call (releases pointer bytes) p = deallocate p pointer bytes

abbrev pub after_calls : List Call → Pool → Pool
after_calls [] p = p
after_calls (c ∷ cs) p = after_calls cs (after_call c p)

-- The pointers that are given back are 64-bit words.
abbrev pub Words : List Call → Type 0
Words [] = Unit
Words (allocates bytes alignment reserved ∷ cs) = Words cs
Words (releases pointer bytes ∷ cs) = (pointer < u64_mod) × Words cs

try_allocate-Valid :
    (p : Pool) (bytes alignment : ℕ) (reserved : Bool)
    → Valid p
    → Valid (try_allocate p bytes alignment reserved).0
try_allocate-Valid p bytes alignment reserved h =
    by_answer (try_allocate p bytes alignment reserved) refl
  where
    by_answer : (r : Pool × Option ℕ) → try_allocate p bytes alignment reserved ≡ r → Valid r.0
    by_answer (q, some at) e = (accepted-HandsOut p q bytes alignment at reserved h e).1.valid
    by_answer (q, none) e = elim (ℕ_discrete bytes p.slot_sz) [
      | no other ↦ unchanged q e (inr (inr (inl other)))
      | yes size ↦ elim (ℕ_discrete alignment p.slot_alignment) [
        | no other ↦ unchanged q e (inr (inr (inr other)))
        | yes aligned ↦ elim (Bool-cases (p.free_count == 0)) [
          | inl exhausted ↦ unchanged q e (inr (inl ((nat_beq_iff p.free_count 0).0 exhausted)))
          | inr some_left ↦
              let (at', q', found, out) =
                try_allocate-HandsOut p h reserved (ground (arith, some_left)) in
              let same : (q, none) ≡ (q', some at') =
                sym e
                ∙ ap (λ n. try_allocate p n alignment reserved) size
                ∙ ap (λ n. try_allocate p p.slot_sz n reserved) aligned
                ∙ found in
              absurd (second-none≢some same)
        ]
      ]
    ]
      where
        unchanged :
            (q : Pool)
            → try_allocate p bytes alignment reserved ≡ (q, none)
            → (bytes ≡ 0)
              ⊎ ((p.free_count ≡ 0) ⊎ ((bytes ≢ p.slot_sz) ⊎ (alignment ≢ p.slot_alignment)))
            → Valid q
        unchanged q e why =
            subst Valid
              (first_equal (sym (try_allocate_refused p h bytes alignment reserved why) ∙ e)) h

-- A pool that is laid out stays valid under every sequence of calls, of whatever sizes, alignments
-- and 64-bit pointers; so the stack never grows past its vector and holds each free slot once.
pub calls-Valid : (cs : List Call) (p : Pool) → Valid p → Words cs → Valid (after_calls cs p)
calls-Valid [] p h words = h
calls-Valid (allocates bytes alignment reserved ∷ cs) p h words =
    calls-Valid cs _ (try_allocate-Valid p bytes alignment reserved h) words
calls-Valid (releases pointer bytes ∷ cs) p h words =
    calls-Valid cs _ (deallocate-Valid p pointer bytes h words.0) words.1
