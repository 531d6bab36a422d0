-- ===== src/EventIo.antt =====
-- The lines of an event file: src/io/event_io.cpp. Text is a list of bytes.
pub mod Numbers
pub mod Decimal
pub mod Fields
pub mod RoundTrip
pub mod Ranges
mod Tests
use limit_order_book.Base.{
  ℕ, zero, suc, ◌+◌, ◌-◌, ◌*◌, ◌/◌, ◌%◌, Bool, true, false, not, ◌&&◌, ◌||◌, Option, none, some,
  List, [], ◌∷◌, ◌++◌, ltb, leb, ◌==◌, nat_eq, if◌then◌else◌,
}
use Prim.Native.String.{String}
use limit_order_book.Types.{
  Side, bid, ask, side_eq, AddOrder, CancelOrder, ExecuteOrder, EventPayload, add_order,
  cancel_order, execute_order, MarketEvent, u32_mod, u64_mod,
}
use limit_order_book.Feed.Keys.{Text, text_eq}

pub record ParseResult : Type 0 where
  pub event : Option MarketEvent
  pub error : String

abbrev pub failed : String → ParseResult
failed error = record { event = none; error = error }

-- The fields between the commas: one more than there are commas.
unfoldable pub split_csv : Text → List Text
split_csv [] = [] ∷ []
split_csv (c ∷ cs) =
    let rest = split_csv cs in
    if c == 44 then [] ∷ rest else elim rest [ [] ↦ (c ∷ []) ∷ [] | f ∷ fs ↦ (c ∷ f) ∷ fs ]

-- The digits of a number after those that make `value`; `none` at a byte that is no digit.
abbrev pub digits_from : Text → ℕ → Option ℕ
digits_from [] value = some value
digits_from (c ∷ cs) value =
    let rest = digits_from cs (value * 10 + (c - 48)) in if leb 48 c && leb c 57 then rest else none

abbrev pub fits_in : ℕ → Option ℕ → Option ℕ
fits_in bound none = none
fits_in bound (some value) = if ltb value bound then some value else none

-- `std::from_chars` of an unsigned type below `bound`, up to the end of the text: at least one digit,
-- only digits, and no overflow.
unfoldable pub parse_integer : ℕ → Text → Option ℕ
parse_integer bound [] = none
parse_integer bound (c ∷ cs) = fits_in bound (digits_from (c ∷ cs) 0)

-- BID, B, bid, ASK, A and ask.
unfoldable pub parse_side : Text → Option Side
parse_side text =
    if (text == 66 ∷ 73 ∷ 68 ∷ []) || ((text == 66 ∷ []) || (text == 98 ∷ 105 ∷ 100 ∷ []))
    then some bid
    else if (text == 65 ∷ 83 ∷ 75 ∷ []) || ((text == 65 ∷ []) || (text == 97 ∷ 115 ∷ 107 ∷ []))
    then some ask
    else none

-- The line without the newlines and carriage returns at its end.
abbrev pub is_newline : ℕ → Bool
is_newline c = (c == 10) || (c == 13)

unfoldable pub trim_line : Text → Text
trim_line [] = []
trim_line (c ∷ cs) = elim (trim_line cs) [
  | [] ↦ if is_newline c then [] else c ∷ []
  | d ∷ ds ↦ c ∷ d ∷ ds
]

abbrev pub starts_with : Text → Text → Bool
starts_with text [] = true
starts_with [] (p ∷ ps) = false
starts_with (c ∷ cs) (p ∷ ps) = (c == p) && starts_with cs ps

-- `sequence,`
abbrev pub header_start : Text
header_start = 115 ∷ 101 ∷ 113 ∷ 117 ∷ 101 ∷ 110 ∷ 99 ∷ 101 ∷ 44 ∷ []

abbrev pub add_word : Text
add_word = 65 ∷ 68 ∷ 68 ∷ []

abbrev pub cancel_word : Text
cancel_word = 67 ∷ 65 ∷ 78 ∷ 67 ∷ 69 ∷ 76 ∷ []

abbrev pub execute_word : Text
execute_word = 69 ∷ 88 ∷ 69 ∷ 67 ∷ 85 ∷ 84 ∷ 69 ∷ []

abbrev pub is_blank : Text → Bool
is_blank [] = true
is_blank (c ∷ cs) = false

-- A field that must be there, or the error.
abbrev pub or_error {ℓ} : {A : Type ℓ} → Option A → String → (A → ParseResult) → ParseResult
or_error none error next = failed error
or_error (some a) error next = next a

abbrev pub found : ℕ → ℕ → EventPayload → ParseResult
found sequence instrument_id payload = record {
  event = some (record { sequence = sequence; instrument_id = instrument_id; payload = payload });
  error = "";
}

unfoldable pub parse_add : ℕ → ℕ → ℕ → Text → Text → Text → ParseResult
unfolding parse_side parse_integer
parse_add sequence instrument_id order_id side_text price_text quantity_text =
    or_error (parse_side side_text) "invalid side" λ side.
      or_error (parse_integer u32_mod price_text) "invalid price" λ price.
        or_error (parse_integer u32_mod quantity_text) "invalid quantity" λ quantity.
          found sequence instrument_id (
            add_order
              (record { order_id = order_id; side = side; price = price; quantity = quantity }))

unfoldable pub parse_cancel : ℕ → ℕ → ℕ → Text → Text → Text → ParseResult
parse_cancel sequence instrument_id order_id side_text price_text quantity_text =
    if not (is_blank side_text) || (not (is_blank price_text) || not (is_blank quantity_text))
    then failed "cancel fields side, price, and quantity must be empty"
    else found sequence instrument_id (cancel_order (record { order_id = order_id }))

unfoldable pub parse_execute : ℕ → ℕ → ℕ → Text → Text → Text → ParseResult
unfolding parse_integer
parse_execute sequence instrument_id order_id side_text price_text quantity_text =
    if not (is_blank side_text) || not (is_blank price_text)
    then failed "execute fields side and price must be empty"
    else (or_error (parse_integer u32_mod quantity_text) "invalid quantity" λ quantity.
        found sequence instrument_id
          (execute_order (record { order_id = order_id; quantity = quantity })))

unfoldable pub parse_typed : Text → ℕ → ℕ → ℕ → Text → Text → Text → ParseResult
unfolding parse_add parse_cancel parse_execute
parse_typed type sequence instrument_id order_id side price quantity =
    if type == add_word
    then parse_add sequence instrument_id order_id side price quantity
    else if type == cancel_word
    then parse_cancel sequence instrument_id order_id side price quantity
    else if type == execute_word
    then parse_execute sequence instrument_id order_id side price quantity
    else failed "unknown event type"

unfoldable pub parse_fields : List Text → ParseResult
unfolding parse_typed parse_integer
parse_fields (f0 ∷ f1 ∷ f2 ∷ f3 ∷ f4 ∷ f5 ∷ f6 ∷ []) =
    or_error (parse_integer u64_mod f0) "invalid sequence" λ sequence.
      or_error (parse_integer u64_mod f1) "invalid instrument_id" λ instrument_id.
        or_error (parse_integer u64_mod f3) "invalid order_id"
          λ order_id. parse_typed f2 sequence instrument_id order_id f4 f5 f6
parse_fields _ = failed "expected 7 CSV fields"

-- A line that is blank, a comment or the header is neither an event nor an error.
abbrev pub is_skipped : Text → Bool
is_skipped line = is_blank line || (starts_with line (35 ∷ []) || starts_with line header_start)

unfoldable pub parse_event_line : Text → ParseResult
unfolding parse_fields split_csv trim_line
parse_event_line line =
    let trimmed = trim_line line in
    if is_skipped trimmed
    then record { event = none; error = "" }
    else parse_fields (split_csv trimmed)

-- `output << n`: the decimal digits of a number in front of a text. A 64-bit number has at most 20.
abbrev pub digits : ℕ → ℕ → Text → Text
digits zero n acc = acc
digits (suc fuel) n acc =
    let more = digits fuel (n / 10) ((48 + n % 10) ∷ acc) in
    if ltb n 10 then (48 + n) ∷ acc else more

unfoldable pub print : ℕ → Text
print n = digits 20 n []

-- side == Side::Bid ? "BID" : "ASK"
abbrev pub side_word : Side → Text
side_word s = if s == bid then 66 ∷ 73 ∷ 68 ∷ [] else 65 ∷ 83 ∷ 75 ∷ []

unfoldable pub payload_csv : EventPayload → Text
unfolding print
payload_csv (add_order o) =
    add_word
    ++ 44
      ∷ (print o.order_id
          ++ 44 ∷ (side_word o.side ++ 44 ∷ (print o.price ++ 44 ∷ (print o.quantity ++ 10 ∷ []))))
payload_csv (cancel_order o) = cancel_word ++ 44 ∷ (print o.order_id ++ 44 ∷ 44 ∷ 44 ∷ 10 ∷ [])
payload_csv (execute_order o) =
    execute_word ++ 44 ∷ (print o.order_id ++ 44 ∷ 44 ∷ 44 ∷ (print o.quantity ++ 10 ∷ []))

unfoldable pub write_event_csv : MarketEvent → Text
unfolding print payload_csv
write_event_csv e = print e.sequence ++ 44 ∷ (print e.instrument_id ++ 44 ∷ payload_csv e.payload)

-- sequence,instrument_id,event_type,order_id,side,price,quantity
unfoldable pub write_csv_header : Text
write_csv_header =
    115 ∷ 101 ∷ 113 ∷ 117 ∷ 101 ∷ 110 ∷ 99 ∷ 101 ∷ 44 ∷ 105 ∷ 110 ∷ 115 ∷ 116 ∷ 114 ∷ 117 ∷ 109
    ∷ 101 ∷ 110 ∷ 116 ∷ 95 ∷ 105 ∷ 100 ∷ 44 ∷ 101 ∷ 118 ∷ 101 ∷ 110 ∷ 116 ∷ 95 ∷ 116 ∷ 121 ∷ 112
    ∷ 101 ∷ 44 ∷ 111 ∷ 114 ∷ 100 ∷ 101 ∷ 114 ∷ 95 ∷ 105 ∷ 100 ∷ 44 ∷ 115 ∷ 105 ∷ 100 ∷ 101 ∷ 44
    ∷ 112 ∷ 114 ∷ 105 ∷ 99 ∷ 101 ∷ 44 ∷ 113 ∷ 117 ∷ 97 ∷ 110 ∷ 116 ∷ 105 ∷ 116 ∷ 121 ∷ 10 ∷ []
