-- ===== src/SlotPool/Layout.antt =====
-- Where the slots of include/order_book/memory/fixed_slot_pool.hpp lie, and what holds of a pool
-- whose tables are set up.
use limit_order_book.Base.{
  ℕ, suc, ◌+◌, ◌-◌, ◌*◌, ◌/◌, ◌%◌, ◌≤◌, ◌<◌, true, false, ◌≡◌, ◌≢◌, sym, ◌∙◌, ap, arith,
}
use native.Mathlib.Nat.{
  mul-le-mul_right, mul-div_cancel, le_of_mul-le-mul_right, add_assoc, mul_assoc,
  add-mul-mod_self_right,
}
use limit_order_book.Types.{u64_mod}
use limit_order_book.SlotPool.{Pool, sub_size}
use limit_order_book.SlotPool.Counting.{count_free}

-- The slot at an index, from the start of the storage.
abbrev pub slot_at : Pool → ℕ → ℕ
slot_at p k = p.first_valid_start + k * p.slot_sz

pub record IsFree (p : Pool) (start : ℕ) : Type 0 where
  pub index : ℕ
  pub inside : index < p.slots
  pub start_at : start ≡ slot_at p index
  pub unused : p.in_uses index ≡ false

-- The stack holds the free slots, each once.
pub record Valid (p : Pool) : Type 0 where
  pub initialized : p.first_init ≡ true
  pub storage_pos : 0 < p.storage
  pub slot_sz_pos : 0 < p.slot_sz
  pub slots_pos : 0 < p.slots
  pub fits : p.first_valid_start + p.slots * p.slot_sz ≤ p.capacity_bytes
  pub addressable : p.storage + p.capacity_bytes < u64_mod
  pub last : p.last_valid_start ≡ slot_at p (p.slots - 1)
  pub aligned : (p.storage + p.first_valid_start) % p.slot_alignment ≡ 0
  pub units : ℕ
  pub whole : p.slot_sz ≡ units * p.slot_alignment
  pub counted : p.free_count ≡ count_free p.in_uses p.slots
  pub free : (i : ℕ) → i < p.free_count → IsFree p (p.free_slots i)
  pub distinct : (i j : ℕ) → i < j → j < p.free_count → p.free_slots i ≢ p.free_slots j

pub slot_ends :
    (p : Pool) (k : ℕ) → Valid p → k < p.slots → slot_at p k + p.slot_sz ≤ p.capacity_bytes
slot_ends p k h below =
    omega (
      arith,
      h.fits,
      mul-le-mul_right {m = suc k} {n = p.slots} p.slot_sz below,
      suc_mul k p.slot_sz,
    )
  where
    suc_mul : (a b : ℕ) → suc a * b ≡ a * b + b
    suc_mul a b = omega arith

pub slot_at-index :
    (p : Pool) (k : ℕ)
    → Valid p
    → k < p.slots
    → sub_size (slot_at p k) p.first_valid_start / p.slot_sz ≡ k
slot_at-index p k h below =
    let offset : sub_size (slot_at p k) p.first_valid_start ≡ k * p.slot_sz =
      omega (arith, slot_ends p k h below, h.addressable) in
    ap (λ n. n / p.slot_sz) offset ∙ mul-div_cancel k h.slot_sz_pos

pub slot_at-injective : (p : Pool) (j k : ℕ) → Valid p → slot_at p j ≡ slot_at p k → j ≡ k
slot_at-injective p j k h same =
    omega (arith, upto j k (omega (arith, same)), upto k j (omega (arith, same)))
  where
    upto : (m n : ℕ) → m * p.slot_sz ≤ n * p.slot_sz → m ≤ n
    upto m n le = le_of_mul-le-mul_right le h.slot_sz_pos

pub slot_at-aligned :
    (p : Pool) (k : ℕ) → Valid p → (p.storage + slot_at p k) % p.slot_alignment ≡ 0
slot_at-aligned p k h =
    let counted : p.storage + slot_at p k
        ≡ p.storage + p.first_valid_start + k * h.units * p.slot_alignment =
      sym (add_assoc p.storage p.first_valid_start (k * p.slot_sz))
      ∙ ap (λ n. p.storage + p.first_valid_start + n)
          (ap (λ n. k * n) h.whole ∙ sym (mul_assoc k h.units p.slot_alignment)) in
    ap (λ n. n % p.slot_alignment) counted
    ∙ add-mul-mod_self_right (p.storage + p.first_valid_start) (k * h.units) p.slot_alignment
    ∙ h.aligned
