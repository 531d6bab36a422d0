-- ===== src/EventIo/Numbers.antt =====
-- Numbers as src/io/event_io.cpp prints and reads them.
use limit_order_book.Base.{
  ℕ, zero, suc, ◌+◌, ◌-◌, ◌*◌, ◌/◌, ◌%◌, ◌^◌, ◌≤◌, ◌<◌, Bool, true, false, not, ◌&&◌, some, [], ◌∷◌,
  ltb, leb, ◌==◌, nat_eq, ◌≡◌, refl, ◌∙◌, ap, arith, Bool-cases, inl, inr, ltb→lt,
}
use native.Mathlib.Omega.{pow_step}
use limit_order_book.Types.{u64_mod}
use limit_order_book.Feed.Keys.{Text}
use limit_order_book.EventIo.{digits, digits_from, fits_in, parse_integer, print, is_newline}

-- A byte that a field can hold: no comma and no end of a line.
abbrev pub is_plain : ℕ → Bool
is_plain c = not (c == 44) && not (is_newline c)

abbrev pub all_plain : Text → Bool
all_plain [] = true
all_plain (c ∷ cs) = is_plain c && all_plain cs

one_digit :
    (d value : ℕ) (acc : Text)
    → d < 10
    → digits_from ((48 + d) ∷ acc) value ≡ digits_from acc (value * 10 + d)
one_digit d value acc small =
    let low : leb 48 (48 + d) ≡ true = ground (arith, small) in
    let high : leb (48 + d) 57 ≡ true = ground (arith, small) in
    let back : 48 + d - 48 ≡ d = omega arith in rw (low, high, back) refl

plain_digit :
    (d : ℕ) (acc : Text) → d < 10 → all_plain acc ≡ true → all_plain ((48 + d) ∷ acc) ≡ true
plain_digit d acc small h =
    let no_comma : (48 + d) == 44 ≡ false = ground (arith, small) in
    let no_feed : (48 + d) == 10 ≡ false = ground (arith, small) in
    let no_return : (48 + d) == 13 ≡ false = ground (arith, small) in
    rw (no_comma, no_feed, no_return, h) refl

rounds_left : (fuel n : ℕ) → 10 ≤ n → n < 10 ^ suc fuel → 0 < fuel
rounds_left zero n big small = absurd (omega (arith, big, small))
rounds_left (suc fuel) n big small = omega arith

-- With as many rounds as the number has digits, the digits read back as the number.
digits_from-digits :
    (fuel n : ℕ) (acc : Text)
    → 0 < fuel
    → n < 10 ^ fuel
    → digits_from (digits fuel n acc) 0 ≡ digits_from acc n
digits_from-digits zero n acc pos small = absurd (omega (arith, pos))
digits_from-digits (suc fuel) n acc pos small = elim (Bool-cases (ltb n 10)) [
  | inl last ↦
      let small_n = ltb→lt n 10 last in
      rw last (one_digit n 0 acc small_n ∙ ap (digits_from acc) (omega arith))
  | inr more ↦
      let big : 10 ≤ n = ground (arith, more) in
      rw more (
        digits_from-digits fuel (n / 10) ((48 + n % 10) ∷ acc) (rounds_left fuel n big small)
          (omega (arith, small, pow_step 10 fuel))
        ∙ one_digit (n % 10) (n / 10) acc (omega arith)
        ∙ ap (digits_from acc) (omega arith))
]

-- The first byte is a digit, and so are the others in front of the text behind.
digits-plain :
    (fuel n : ℕ) (acc : Text) → all_plain acc ≡ true → all_plain (digits fuel n acc) ≡ true
digits-plain zero n acc h = h
digits-plain (suc fuel) n acc h = elim (Bool-cases (ltb n 10)) [
  | inl last ↦ rw last (plain_digit n acc (ltb→lt n 10 last) h)
  | inr more ↦
      rw more (
        digits-plain fuel (n / 10) ((48 + n % 10) ∷ acc) (plain_digit (n % 10) acc (omega arith) h))
]

abbrev pub starts_digit : Text → Bool
starts_digit [] = false
starts_digit (c ∷ cs) = leb 48 c && leb c 57

digits-starts :
    (fuel n : ℕ) (acc : Text) → 0 < fuel → n < 10 ^ fuel → starts_digit (digits fuel n acc) ≡ true
digits-starts zero n acc pos small = absurd (omega (arith, pos))
digits-starts (suc fuel) n acc pos small = elim (Bool-cases (ltb n 10)) [
  | inl last ↦
      let small_n = ltb→lt n 10 last in
      let high : leb (48 + n) 57 ≡ true = ground (arith, small_n) in
      let low : leb 48 (48 + n) ≡ true = ground arith in rw (last, low, high) refl
  | inr more ↦
      let big : 10 ≤ n = ground (arith, more) in
      rw more (
        digits-starts fuel (n / 10) ((48 + n % 10) ∷ acc) (rounds_left fuel n big small)
          (omega (arith, small, pow_step 10 fuel)))
]

fits : (n : ℕ) → n < u64_mod → n < 10 ^ 20
fits n small = omega (arith, small)

-- A number below 2^64 has at most 20 digits, so its print is read back by a type that holds it.
pub parse_integer-print :
    (bound n : ℕ) → n < bound → n < u64_mod → parse_integer bound (print n) ≡ some n
unfolding print parse_integer
parse_integer-print bound n within small =
    read (digits 20 n []) (digits-starts 20 n [] (omega arith) (fits n small))
      (digits_from-digits 20 n [] (omega arith) (fits n small))
  where
    read :
        (text : Text)
        → starts_digit text ≡ true
        → digits_from text 0 ≡ some n
        → parse_integer bound text ≡ some n
    read [] h k = cc
    read (c ∷ cs) h k =
        let below : ltb n bound ≡ true = ground (arith, within) in
        ap (fits_in bound) k ∙ rw below refl

pub print-plain : (n : ℕ) → all_plain (print n) ≡ true
unfolding print
print-plain n = digits-plain 20 n [] refl

pub print-starts : (n : ℕ) → n < u64_mod → starts_digit (print n) ≡ true
unfolding print
print-starts n small = digits-starts 20 n [] (omega arith) (fits n small)
