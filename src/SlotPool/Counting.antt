-- ===== src/SlotPool/Counting.antt =====
-- How many slots are free, as in_uses_ of include/order_book/memory/fixed_slot_pool.hpp says.
use limit_order_book.Base.{
  ℕ, zero, suc, ◌≤◌, ◌<◌, Bool, true, false, ◌≡◌, refl, subst, arith, nat_eq, if◌then◌else◌,
}
use native.Mathlib.Decide.{dec_lt}
use limit_order_book.SlotPool.{set_at}

abbrev pub count_free : (ℕ → Bool) → ℕ → ℕ
count_free used zero = 0
count_free used (suc n) = if used n then count_free used n else suc (count_free used n)

pub count_free-false : (n : ℕ) → count_free (λ i. false) n ≡ n
count_free-false zero = refl
count_free-false (suc n) = omega (arith, count_free-false n)

count_free-beyond :
    (used : ℕ → Bool) (n i : ℕ) (b : Bool)
    → n ≤ i
    → count_free (set_at used i b) n ≡ count_free used n
count_free-beyond used zero i b h = refl
count_free-beyond used (suc n) i b h = ground (arith, count_free-beyond used n i b)

pub count_free-taken :
    (used : ℕ → Bool) (n i : ℕ)
    → i < n
    → used i ≡ false
    → suc (count_free (set_at used i true) n) ≡ count_free used n
count_free-taken used zero i h k = absurd (omega (arith, h))
count_free-taken used (suc n) i h k = elim (dec_lt i n) [
  | yes below ↦ ground (arith, count_free-taken used n i below k)
  | no last ↦
      let same : i ≡ n = omega (arith, h, last) in
      let at_n : used n ≡ false = subst (λ j. used j ≡ false) same k in
      ground (arith, count_free-beyond used n i true (omega (arith, same)), at_n)
]

pub count_free-returned :
    (used : ℕ → Bool) (n i : ℕ)
    → i < n
    → used i ≡ true
    → count_free (set_at used i false) n ≡ suc (count_free used n)
count_free-returned used zero i h k = absurd (omega (arith, h))
count_free-returned used (suc n) i h k = elim (dec_lt i n) [
  | yes below ↦ ground (arith, count_free-returned used n i below k)
  | no last ↦
      let same : i ≡ n = omega (arith, h, last) in
      let at_n : used n ≡ true = subst (λ j. used j ≡ true) same k in
      ground (arith, count_free-beyond used n i false (omega (arith, same)), at_n)
]

pub count_free-le : (used : ℕ → Bool) (n : ℕ) → count_free used n ≤ n
count_free-le used zero = omega arith
count_free-le used (suc n) = ground (arith, count_free-le used n)
