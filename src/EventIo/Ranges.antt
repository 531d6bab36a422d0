-- ===== src/EventIo/Ranges.antt =====
-- What src/io/event_io.cpp accepts: an event of a line is the event that its seven fields say, with no
-- number cut off, whatever the line.
use limit_order_book.Base.{
  ℕ, Bool, true, false, not, ◌||◌, ◌⊎◌, Option, none, some, List, [], ◌∷◌, ◌==◌, nat_eq, ◌≡◌, refl,
  sym, subst, arith, Bool-cases, inl, inr, true≢false,
}
use Prim.Native.String.{String}
use limit_order_book.Types.{
  Side, bid, ask, other, EventPayload, add_order, cancel_order, execute_order, MarketEvent, u32_mod,
  u64_mod,
}
use limit_order_book.Feed.Keys.{Text, text_eq, text_beq_iff}
use limit_order_book.Trading.Engine.Ensures.{Ensures}
use limit_order_book.EventIo.{
  ParseResult, or_error, parse_side, parse_add, parse_cancel, parse_execute, parse_typed,
  parse_fields, parse_integer, parse_event_line, is_skipped, is_blank, split_csv, trim_line,
  add_word, cancel_word, execute_word,
}
use limit_order_book.EventIo.Decimal.{Number, parse_integer-Number}

-- The names of a side.
abbrev pub IsSide : Text → Side → Type 0
IsSide text bid = (text ≡ 66 ∷ 73 ∷ 68 ∷ []) ⊎ ((text ≡ 66 ∷ []) ⊎ (text ≡ 98 ∷ 105 ∷ 100 ∷ []))
IsSide text ask = (text ≡ 65 ∷ 83 ∷ 75 ∷ []) ⊎ ((text ≡ 65 ∷ []) ⊎ (text ≡ 97 ∷ 115 ∷ 107 ∷ []))
IsSide text other = ⊥

-- What the fields for the type, the id, the side, the price and the quantity say.
abbrev pub PayloadOf : Text → Text → Text → Text → Text → EventPayload → Type 0
PayloadOf type id side price quantity (add_order o) =
    (type ≡ add_word)
    × (Number u64_mod id o.order_id)
    × (IsSide side o.side)
    × (Number u32_mod price o.price)
    × (Number u32_mod quantity o.quantity)
PayloadOf type id side price quantity (cancel_order o) =
    (type ≡ cancel_word)
    × (Number u64_mod id o.order_id)
    × (side ≡ [])
    × (price ≡ [])
    × (quantity ≡ [])
PayloadOf type id side price quantity (execute_order o) =
    (type ≡ execute_word)
    × (Number u64_mod id o.order_id)
    × (side ≡ [])
    × (price ≡ [])
    × (Number u32_mod quantity o.quantity)

pub record FieldsOf (f0 f1 f2 f3 f4 f5 f6 : Text) (e : MarketEvent) : Type 0 where
  pub sequence_read : Number u64_mod f0 e.sequence
  pub instrument_read : Number u64_mod f1 e.instrument_id
  pub payload_read : PayloadOf f2 f3 f4 f5 f6 e.payload

abbrev pub EventOf : List Text → MarketEvent → Type 0
EventOf (f0 ∷ f1 ∷ f2 ∷ f3 ∷ f4 ∷ f5 ∷ f6 ∷ []) e = FieldsOf f0 f1 f2 f3 f4 f5 f6 e
EventOf _ e = ⊥

or_error-Ensures {ℓ κ} :
    {A : Type ℓ} (Q : MarketEvent → Type κ) (o : Option A) (error : String) (next : A → ParseResult)
    → ((a : A) → o ≡ some a → Ensures Q ((next a).event))
    → Ensures Q ((or_error o error next).event)
or_error-Ensures Q none error next h = tt
or_error-Ensures Q (some a) error next h = h a refl

one_of : (s t : Text) → (s == t) ≡ true → s ≡ t
one_of s t h = (text_beq_iff s t).0 h

one_of_three :
    (text a b c : Text)
    → (text == a) || ((text == b) || (text == c)) ≡ true
    → (text ≡ a) ⊎ ((text ≡ b) ⊎ (text ≡ c))
one_of_three text a b c h = elim (Bool-cases (text == a)) [
  | inl k ↦ inl (one_of text a k)
  | inr k ↦ elim (Bool-cases (text == b)) [
    | inl l ↦ inr (inl (one_of text b l))
    | inr l ↦ inr (inr (one_of text c (last (text == a) (text == b) (text == c) k l h)))
  ]
]
  where
    last : (x y z : Bool) → x ≡ false → y ≡ false → x || (y || z) ≡ true → z ≡ true
    last true y z k l m = absurd (true≢false k)
    last false true z k l m = absurd (true≢false l)
    last false false z k l m = m

parse_side-IsSide : (text : Text) (s : Side) → parse_side text ≡ some s → IsSide text s
unfolding parse_side
parse_side-IsSide text bid h = one_of_three text _ _ _ (ground arith)
parse_side-IsSide text ask h = one_of_three text _ _ _ (ground arith)
parse_side-IsSide text other h = ground arith

first_false : (a b : Bool) → a || b ≡ false → a ≡ false
first_false true b h = absurd (true≢false h)
first_false false b h = refl

second_false : (a b : Bool) → a || b ≡ false → b ≡ false
second_false true b h = absurd (true≢false h)
second_false false b h = h

blank : (text : Text) → not (is_blank text) ≡ false → text ≡ []
blank [] h = refl
blank (c ∷ cs) h = cc

module _ (f0 f1 f3 : Text) (sequence instrument_id order_id : ℕ) (s : Number u64_mod f0 sequence)
    (i : Number u64_mod f1 instrument_id) (o : Number u64_mod f3 order_id)
    (side price quantity : Text) where
  parse_add-FieldsOf :
      Ensures
        (FieldsOf f0 f1 add_word f3 side price quantity)
        ((parse_add sequence instrument_id order_id side price quantity).event)
  unfolding parse_add
  parse_add-FieldsOf =
      let Q = FieldsOf f0 f1 add_word f3 side price quantity in
      or_error-Ensures Q (parse_side side) "invalid side" _ λ a known.
        or_error-Ensures Q (parse_integer u32_mod price) "invalid price" _ λ b price_read.
          or_error-Ensures Q (parse_integer u32_mod quantity) "invalid quantity" _
            λ c quantity_read. record {
              sequence_read = s;
              instrument_read = i;
              payload_read = (
                refl,
                o,
                parse_side-IsSide side a known,
                parse_integer-Number u32_mod b price price_read,
                parse_integer-Number u32_mod c quantity quantity_read,
              );
            }

  parse_cancel-FieldsOf :
      Ensures
        (FieldsOf f0 f1 cancel_word f3 side price quantity)
        ((parse_cancel sequence instrument_id order_id side price quantity).event)
  unfolding parse_cancel
  parse_cancel-FieldsOf =
      elim (Bool-cases (not (is_blank side) || (not (is_blank price) || not (is_blank quantity)))) [
        | inl filled ↦ rw filled tt
        | inr empty ↦ rw empty (record {
          sequence_read = s;
          instrument_read = i;
          payload_read = (
            refl,
            o,
            blank side (first_false _ _ empty),
            blank price (first_false _ _ (second_false _ _ empty)),
            blank quantity (second_false _ _ (second_false _ _ empty)),
          );
        })
      ]

  parse_execute-FieldsOf :
      Ensures
        (FieldsOf f0 f1 execute_word f3 side price quantity)
        ((parse_execute sequence instrument_id order_id side price quantity).event)
  unfolding parse_execute
  parse_execute-FieldsOf = elim (Bool-cases (not (is_blank side) || not (is_blank price))) [
    | inl filled ↦ rw filled tt
    | inr empty ↦ rw empty (
        or_error-Ensures (FieldsOf f0 f1 execute_word f3 side price quantity)
          (parse_integer u32_mod quantity) "invalid quantity" _
          λ c read. record {
            sequence_read = s;
            instrument_read = i;
            payload_read = (
              refl,
              o,
              blank side (first_false _ _ empty),
              blank price (second_false _ _ empty),
              parse_integer-Number u32_mod c quantity read,
            );
          })
  ]

  parse_typed-FieldsOf :
      (type : Text)
      → Ensures
          (FieldsOf f0 f1 type f3 side price quantity)
          ((parse_typed type sequence instrument_id order_id side price quantity).event)
  unfolding parse_typed
  parse_typed-FieldsOf type = elim (Bool-cases (type == add_word)) [
    | inl adds ↦ rw adds (
        subst
          (λ t.
            Ensures (FieldsOf f0 f1 t f3 side price quantity)
              ((parse_add sequence instrument_id order_id side price quantity).event))
          (sym (one_of type add_word adds)) parse_add-FieldsOf)
    | inr h ↦ elim (Bool-cases (type == cancel_word)) [
      | inl cancels ↦
          rw (h, cancels)
            (subst
              (λ t.
                Ensures (FieldsOf f0 f1 t f3 side price quantity)
                  ((parse_cancel sequence instrument_id order_id side price quantity).event))
              (sym (one_of type cancel_word cancels)) parse_cancel-FieldsOf)
      | inr k ↦ elim (Bool-cases (type == execute_word)) [
        | inl executes ↦
            rw (h, k, executes)
              (subst
                (λ t.
                  Ensures (FieldsOf f0 f1 t f3 side price quantity)
                    ((parse_execute sequence instrument_id order_id side price quantity).event))
                (sym (one_of type execute_word executes)) parse_execute-FieldsOf)
        | inr l ↦ rw (h, k, l) tt
      ]
    ]
  ]

seven_fields :
    (f0 f1 f2 f3 f4 f5 f6 : Text)
    → Ensures
        (FieldsOf f0 f1 f2 f3 f4 f5 f6)
        ((parse_fields (f0 ∷ f1 ∷ f2 ∷ f3 ∷ f4 ∷ f5 ∷ f6 ∷ [])).event)
unfolding parse_fields
seven_fields f0 f1 f2 f3 f4 f5 f6 =
    let Q = FieldsOf f0 f1 f2 f3 f4 f5 f6 in
    or_error-Ensures Q (parse_integer u64_mod f0) "invalid sequence" _ λ sequence h.
      or_error-Ensures Q (parse_integer u64_mod f1) "invalid instrument_id" _ λ instrument_id i.
        or_error-Ensures Q (parse_integer u64_mod f3) "invalid order_id" _ λ order_id j.
          parse_typed-FieldsOf f0 f1 f3 sequence instrument_id order_id
            (parse_integer-Number u64_mod sequence f0 h)
            (parse_integer-Number u64_mod instrument_id f1 i)
            (parse_integer-Number u64_mod order_id f3 j) f4 f5 f6 f2

parse_fields-EventOf : (fields : List Text) → Ensures (EventOf fields) ((parse_fields fields).event)
unfolding parse_fields
parse_fields-EventOf [] = tt
parse_fields-EventOf (a ∷ []) = tt
parse_fields-EventOf (a ∷ b ∷ []) = tt
parse_fields-EventOf (a ∷ b ∷ c ∷ []) = tt
parse_fields-EventOf (a ∷ b ∷ c ∷ d ∷ []) = tt
parse_fields-EventOf (a ∷ b ∷ c ∷ d ∷ e ∷ []) = tt
parse_fields-EventOf (a ∷ b ∷ c ∷ d ∷ e ∷ f ∷ []) = tt
parse_fields-EventOf (a ∷ b ∷ c ∷ d ∷ e ∷ f ∷ g ∷ []) = seven_fields a b c d e f g
parse_fields-EventOf (a ∷ b ∷ c ∷ d ∷ e ∷ f ∷ g ∷ h ∷ rest) = tt

-- Whatever the line, if an event is read from it, then the line without its end has seven fields and
-- the event is what they say: each number is the one that the digits of its field stand for, none cut
-- off, with ids below 2^64 and prices and quantities below 2^32; the side is the one that is named;
-- and the fields that an event does not have are empty.
pub parse_event_line-EventOf :
    (line : Text) → Ensures (EventOf (split_csv (trim_line line))) ((parse_event_line line).event)
unfolding parse_event_line
parse_event_line-EventOf line = elim (Bool-cases (is_skipped (trim_line line))) [
  | inl skipped ↦ rw (is_skipped, skipped) tt
  | inr kept ↦ rw (is_skipped, kept) (parse_fields-EventOf (split_csv (trim_line line)))
]
