-- ===== src/LfQueue/Slots.antt =====
-- The slots of the wrapping indices of src/include/order_book/core/lfqueue.hpp.
use limit_order_book.Base.{
  ℕ, zero, suc, ◌+◌, ◌*◌, ◌^◌, ◌≤◌, ◌<◌, ◌≡◌, ◌≢◌, sym, ◌∙◌, subst, arith, ◌%◌, ◌/◌,
}
use Prim.Native.Nat.{◌∣◌}
use native.Mathlib.Nat.{
  dvd_refl, dvd-mul_left_of_dvd, mod-mod_of_dvd, div-add-mod, mul-le-mul_left, mul-suc,
}
use native.Mathlib.Decide.{dec_le, dec_lt}
use native.Mathlib.Omega.{pow_step}
use limit_order_book.Types.{u64_mod}
use limit_order_book.LfQueue.{slot}

-- The `static_assert`s on SIZE.
pub record IsSize (size : ℕ) : Type 0 where
  pub exponent : ℕ
  pub power : size ≡ 2 ^ exponent
  pub small : exponent < 64

two_power-dvd : (k n : ℕ) → k ≤ n → 2 ^ k ∣ 2 ^ n
two_power-dvd zero zero h = dvd_refl 1
two_power-dvd (suc k) zero h = absurd (omega (arith, h))
two_power-dvd k (suc n) h = elim (dec_le k n) [
  | yes le ↦
      subst (λ p. 2 ^ k ∣ p) (sym (pow_step 2 n))
        (dvd-mul_left_of_dvd (2 ^ k) (two_power-dvd k n le) 2)
  | no gt ↦
      let last : k ≡ suc n = omega (arith, h, gt) in
      subst (λ m. 2 ^ m ∣ 2 ^ suc n) (sym last) (dvd_refl (2 ^ suc n))
]

two_power_pos : (k : ℕ) → 0 < 2 ^ k
two_power_pos zero = omega arith
two_power_pos (suc k) = omega (arith, pow_step 2 k, two_power_pos k)

two_power_lt : (k n : ℕ) → k < n → 2 ^ k < 2 ^ n
two_power_lt k zero h = absurd (omega (arith, h))
two_power_lt k (suc n) h = elim (dec_lt k n) [
  | yes lt ↦ omega (arith, pow_step 2 n, two_power_lt k n lt)
  | no ge ↦
      let last : k ≡ n = omega (arith, h, ge) in
      subst (λ m. 2 ^ m < 2 ^ suc n) (sym last) (omega (arith, pow_step 2 n, two_power_pos n))
]

module _ {size : ℕ} (sized : IsSize size) where
  size_pos : 0 < size
  size_pos = omega (arith, sized.power, two_power_pos sized.exponent)

  pub size_lt : size < u64_mod
  size_lt = omega (arith, sized.power, two_power_lt sized.exponent 64 sized.small)

  size-dvd : size ∣ u64_mod
  size-dvd =
      subst (λ n. n ∣ u64_mod) (sym sized.power)
        (two_power-dvd sized.exponent 64 (omega (arith, sized.small)))

  -- An index that has wrapped around leads to the slot of the number it counts.
  pub slot_wrapped : (n : ℕ) → slot size (n % u64_mod) ≡ n % size
  slot_wrapped n = mod-mod_of_dvd size n size-dvd

  same_remainder : (n d : ℕ) → n % size ≡ (n + d) % size → d < size → d ≡ 0
  same_remainder n d same few =
      let q = n / size in
      let q' = (n + d) / size in
      elim (dec_le q' q) [
        | yes le ↦
            omega
              (arith, same, div-add-mod n size, div-add-mod (n + d) size, mul-le-mul_left size le)
        | no gt ↦
            let step : size * suc q ≤ size * q' = mul-le-mul_left size (omega (arith, gt)) in
            absurd (
              omega (
                arith,
                same,
                few,
                div-add-mod n size,
                div-add-mod (n + d) size,
                step,
                mul-suc size q,
              ))
      ]

  -- Fewer than SIZE pushes apart, two slots differ.
  pub slot-apart :
      (n d : ℕ) → 0 < d → d < size → slot size (n % u64_mod) ≢ slot size ((n + d) % u64_mod)
  slot-apart n d pos few same =
      omega
        (arith, pos, same_remainder n d (sym (slot_wrapped n) ∙ same ∙ slot_wrapped (n + d)) few)
