-- ===== src/EventIo/Decimal.antt =====
-- What `parse_integer` of src/io/event_io.cpp accepts: the decimal digits of a number that fits.
use limit_order_book.Base.{
  none≢some, ℕ, ◌+◌, ◌-◌, ◌*◌, ◌^◌, ◌<◌, Bool, true, false, ◌&&◌, Option, none, some, [], ◌∷◌,
  length, ltb, leb, nat_eq, ◌≡◌, refl, sym, ap, ◌∙◌, subst, arith, Bool-cases, inl, inr, ltb→lt,
}
use native.Mathlib.Omega.{pow_step}
use limit_order_book.Feed.Keys.{Text, text_eq}
use limit_order_book.EventIo.{parse_integer, is_blank, digits_from, fits_in}

-- The number that decimal digits stand for, each by its place, and whether all bytes are digits.
abbrev pub decimal : Text → ℕ
decimal [] = 0
decimal (c ∷ cs) = (c - 48) * 10 ^ length cs + decimal cs

abbrev pub all_digits : Text → Bool
all_digits [] = true
all_digits (c ∷ cs) = (leb 48 c && leb c 57) && all_digits cs

-- The text is a decimal number that the type holds.
pub record Number (bound : ℕ) (text : Text) (n : ℕ) : Type 0 where
  pub filled : is_blank text ≡ false
  pub digits : all_digits text ≡ true
  pub value : n ≡ decimal text
  pub below : n < bound

shifted : (v d x : ℕ) → (v * 10 + d) * x ≡ v * (10 * x) + d * x
shifted v d x = omega arith

digits_from-decimal :
    (text : Text) (v w : ℕ)
    → digits_from text v ≡ some w
    → (all_digits text ≡ true) × (w ≡ v * 10 ^ length text + decimal text)
digits_from-decimal [] v w h = (refl, omega (arith, same h))
  where
    same : {m n : ℕ} → some m ≡ some n → m ≡ n
    same e = cc
digits_from-decimal (c ∷ cs) v w h = elim (Bool-cases (leb 48 c && leb c 57)) [
  | inr bad ↦ absurd (none≢some (sym (refused bad) ∙ h))
  | inl good ↦
      let (all, value) = digits_from-decimal cs (v * 10 + (c - 48)) w (sym (goes_on good) ∙ h) in
      (
        rw (good, all) refl,
        omega (
          arith,
          value,
          shifted v (c - 48) (10 ^ length cs),
          ap (λ k. v * k) (pow_step 10 (length cs)),
        ),
      )
]
  where
    refused : leb 48 c && leb c 57 ≡ false → digits_from (c ∷ cs) v ≡ none
    refused k = rw k refl

    goes_on :
        leb 48 c && leb c 57 ≡ true → digits_from (c ∷ cs) v ≡ digits_from cs (v * 10 + (c - 48))
    goes_on k = rw k refl

fits_in-some : (bound v : ℕ) (o : Option ℕ) → fits_in bound o ≡ some v → (o ≡ some v) × (v < bound)
fits_in-some bound v none k = cc
fits_in-some bound v (some w) k = elim (Bool-cases (ltb w bound)) [
  | inl small ↦
      let same : w ≡ v = injective (sym (opened small) ∙ k) in
      (ap some same, subst (λ n. n < bound) same (ltb→lt w bound small))
  | inr big ↦ absurd (none≢some (sym (shut big) ∙ k))
]
  where
    injective : {m n : ℕ} → some m ≡ some n → m ≡ n
    injective e = cc

    opened : ltb w bound ≡ true → fits_in bound (some w) ≡ some w
    opened s = rw s refl

    shut : ltb w bound ≡ false → fits_in bound (some w) ≡ none
    shut s = rw s refl

pub parse_integer-Number :
    (bound v : ℕ) (text : Text) → parse_integer bound text ≡ some v → Number bound text v
unfolding parse_integer
parse_integer-Number bound v [] h = cc
parse_integer-Number bound v (c ∷ cs) h =
    let (read, small) = fits_in-some bound v (digits_from (c ∷ cs) 0) h in
    let (all, value) = digits_from-decimal (c ∷ cs) 0 v read in
    record { filled = refl; digits = all; value = omega (arith, value); below = small }
