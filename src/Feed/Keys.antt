-- ===== src/Feed/Keys.antt =====
-- Texts as lists of bytes, and the keys of include/order_book/feed/books.hpp in the order of
-- `operator<=>`.
use limit_order_book.Base.{
  ℕ, Bool, true, false, ◌&&◌, ◌||◌, List, [], ◌∷◌, ◌≡◌, ◌↔◌, refl, arith, ltb, Keyed, ◌==◌, nat_eq,
  nat_beq_iff,
}

abbrev pub Text : Type 0
Text = List ℕ

abbrev pub text_beq : Text → Text → Bool
text_beq [] [] = true
text_beq (x ∷ xs) (y ∷ ys) = (x == y) && text_beq xs ys
text_beq [] (y ∷ ys) = false
text_beq (x ∷ xs) [] = false

pub text_beq_iff : (s t : Text) → (text_beq s t ≡ true) ↔ (s ≡ t)
text_beq_iff [] [] = (λ h. refl, λ h. refl)
text_beq_iff (x ∷ xs) (y ∷ ys) =
    let ih = text_beq_iff xs ys in
    (λ h. ground (arith, ih, nat_beq_iff x y), λ h. ground (arith, ih, nat_beq_iff x y))
text_beq_iff [] (y ∷ ys) = (λ h. cc, λ h. cc)
text_beq_iff (x ∷ xs) [] = (λ h. cc, λ h. cc)

instance abbrev pub text_eq : Keyed Text
text_eq = record { beq = text_beq; beq_iff = text_beq_iff }

abbrev pub text_before : Text → Text → Bool
text_before [] [] = false
text_before [] (y ∷ ys) = true
text_before (x ∷ xs) [] = false
text_before (x ∷ xs) (y ∷ ys) = ltb x y || ((x == y) && text_before xs ys)

pub record BookKey : Type 0 where
  pub venue : Text
  pub channel : ℕ
  pub symbol : Text

pub record OrderKey : Type 0 where
  pub venue : Text
  pub channel : ℕ
  pub order_id : ℕ

abbrev pub book_key_beq : BookKey → BookKey → Bool
book_key_beq a b = (a.venue == b.venue) && ((a.channel == b.channel) && (a.symbol == b.symbol))

pub book_key_beq_iff : (a b : BookKey) → (book_key_beq a b ≡ true) ↔ (a ≡ b)
book_key_beq_iff a b =
    let v = text_beq_iff a.venue b.venue in
    let s = text_beq_iff a.symbol b.symbol in
    let c = nat_beq_iff a.channel b.channel in
    (λ h. ground (arith, v, s, c), λ h. ground (arith, v, s, c))

instance abbrev pub book_key_eq : Keyed BookKey
book_key_eq = record { beq = book_key_beq; beq_iff = book_key_beq_iff }

abbrev pub order_key_beq : OrderKey → OrderKey → Bool
order_key_beq a b = (a.venue == b.venue) && ((a.channel == b.channel) && (a.order_id == b.order_id))

pub order_key_beq_iff : (a b : OrderKey) → (order_key_beq a b ≡ true) ↔ (a ≡ b)
order_key_beq_iff a b =
    let v = text_beq_iff a.venue b.venue in
    let i = nat_beq_iff a.order_id b.order_id in
    let c = nat_beq_iff a.channel b.channel in
    (λ h. ground (arith, v, i, c), λ h. ground (arith, v, i, c))

instance abbrev pub order_key_eq : Keyed OrderKey
order_key_eq = record { beq = order_key_beq; beq_iff = order_key_beq_iff }

abbrev pub book_key_before : BookKey → BookKey → Bool
book_key_before a b =
    text_before a.venue b.venue
    || ((a.venue == b.venue)
        && (ltb a.channel b.channel || ((a.channel == b.channel) && text_before a.symbol b.symbol)))

abbrev pub order_key_before : OrderKey → OrderKey → Bool
order_key_before a b =
    text_before a.venue b.venue
    || ((a.venue == b.venue)
        && (ltb a.channel b.channel || ((a.channel == b.channel) && ltb a.order_id b.order_id)))
