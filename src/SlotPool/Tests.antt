-- ===== src/SlotPool/Tests.antt =====
-- A pool of three slots of eight bytes at an address that is not aligned.
use limit_order_book.Base.{
  ℕ, ◌+◌, ◌*◌, ◌≡◌, ◌≢◌, subst, refl, arith, some, true, false, List, [], ◌∷◌,
}
use limit_order_book.SlotPool.{
  Pool, set_at, set_up, popped_slot, ready, take_slot, try_allocate, deallocate,
}
use limit_order_book.SlotPool.Layout.{Valid}
use limit_order_book.SlotPool.Allocate.{Fresh, Request, set_up-Valid, popped_slot-Valid}
use limit_order_book.SlotPool.Outcome.{HandsOut, try_allocate-HandsOut}
use limit_order_book.SlotPool.First.{LaidOut, first_call-LaidOut}
use limit_order_book.SlotPool.Release.{UsedAt, deallocate_ignored}
use limit_order_book.SlotPool.Reuse.{reallocated}
use limit_order_book.SlotPool.Calls.{
  Apart, try_allocate-Apart, Call, allocates, releases, after_calls, calls-Valid,
}

abbrev new : Pool
new = record {
  first_init = false;
  storage = 4100;
  capacity_bytes = 30;
  slots = 0;
  free_slots = λ i. 0;
  in_uses = λ i. false;
  free_count = 0;
  slot_sz = 0;
  slot_alignment = 0;
  last_valid_start = 0;
  first_valid_start = 0;
}

abbrev new-Fresh : Fresh new
new-Fresh = record { untouched = refl; storage_pos = omega arith; addressable = omega arith }

abbrev words-Request : Request 8 8
words-Request = record {
  bytes_pos = omega arith;
  alignment_pos = omega arith;
  units = 1;
  whole = refl;
}

first_call-LaidOut_example :
    (at : ℕ) × (q : Pool) × (try_allocate new 8 8 true ≡ (q, some at)) × LaidOut new q 8 8 at
first_call-LaidOut_example = first_call-LaidOut new new-Fresh 8 8 words-Request (omega arith)

abbrev laid_out : Pool
laid_out = set_up new 8 8 4

abbrev laid_out-Valid : Valid laid_out
laid_out-Valid = set_up-Valid new 8 8 4 new-Fresh words-Request refl (omega arith)

-- One slot, at 4120, is in use.
abbrev one_used : Pool
one_used = (popped_slot laid_out 8).0

abbrev in_use : UsedAt one_used 4120
in_use = record { index = 2; inside = omega arith; points = refl; used = refl }

abbrev one_used-Valid : Valid one_used
one_used-Valid = popped_slot-Valid laid_out laid_out-Valid (omega arith)

try_allocate-HandsOut_example :
    (at : ℕ) × (q : Pool) × (try_allocate one_used 8 8 true ≡ (q, some at)) × HandsOut one_used q at
try_allocate-HandsOut_example = try_allocate-HandsOut one_used one_used-Valid true (omega arith)

abbrev two_used : Pool
two_used = (popped_slot one_used 8).0

second_found : try_allocate one_used 8 8 true ≡ (two_used, some 4112)
unfolding try_allocate ready take_slot
second_found = refl

try_allocate-Apart_example : Apart one_used two_used 4120 8 4112
try_allocate-Apart_example =
    try_allocate-Apart one_used two_used 4120 8 8 4112 true one_used-Valid in_use second_found

reallocated_example :
    (q : Pool) × (try_allocate (deallocate one_used 4120 8) 8 8 true ≡ (q, some 4120))
    × (q ≡ record one_used { free_slots = set_at one_used.free_slots 2 20 })
reallocated_example = reallocated one_used 4120 true one_used-Valid in_use

-- 4121 lies inside a slot.
abbrev calls : List Call
calls = allocates 8 8 true ∷ releases 4121 8 ∷ allocates 16 8 true ∷ releases 4120 8 ∷ []

calls-Valid_example : Valid (after_calls calls one_used)
calls-Valid_example = calls-Valid calls one_used one_used-Valid (omega arith, (omega arith, tt))

-- 4112 is a slot that is free.
deallocate_ignored_example : deallocate one_used 4112 8 ≡ one_used
deallocate_ignored_example =
    deallocate_ignored one_used one_used-Valid 4112 8 (omega arith) (λ same u. at_free u)
  where
    at_free : UsedAt one_used 4112 → ⊥
    at_free u = used_at u.index u.points u.used
      where
        used_at : (k : ℕ) → 4112 ≡ 4100 + (4 + k * 8) → one_used.in_uses k ≡ true → ⊥
        used_at k points used =
            let first : k ≡ 1 = omega (arith, points) in
            false_true (subst (λ j. one_used.in_uses j ≡ true) first used)
          where
            false_true : false ≢ true
            false_true e = cc
