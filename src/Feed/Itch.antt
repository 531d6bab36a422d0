-- ===== src/Feed/Itch.antt =====
-- The ITCH decoder of src/feed/itch.cpp. `none` of a step is an exception; nothing is changed before
-- one is thrown.
pub mod Ending
pub mod Session
mod Tests
use limit_order_book.Base.{
  ℕ, zero, suc, ◌+◌, ◌-◌, ◌*◌, ◌/◌, ◌%◌, Bool, true, false, not, ◌&&◌, ◌||◌, Option, none, some,
  List, [], ◌∷◌, length, get_elem?, ltb, leb, ◌==◌, nat_eq, if◌then◌else◌,
}
use limit_order_book.Map.{Map, lookup, insert}
use limit_order_book.Types.{u64_mod}
use limit_order_book.Feed.Keys.{Text, text_eq}
use limit_order_book.Feed.Bytes.{integer, symbol, side_of_char}
use limit_order_book.Feed.Books.{FeedEvent, EventType}
use limit_order_book.Feed.Pitch.{require, default_event, placed}
use limit_order_book.Trading.Engine.State.{◌>>=◌}

pub record ItchDecoder : Type 0 where
  pub records : ℕ
  pub failed : Bool
  pub complete : Bool
  pub symbols : Map ℕ Text

abbrev pub new_itch : ItchDecoder
new_itch = record { records = 0; failed = false; complete = false; symbols = [] }

-- The length of each type of message: S, R, H, Y, L, V, W, K, J, h, A, F, E, C, X, D, U, P, Q, B, I,
-- N and O.
abbrev pub itch_lengths : Map ℕ ℕ
itch_lengths =
    (83, 12)
    ∷ (82, 39)
    ∷ (72, 25)
    ∷ (89, 20)
    ∷ (76, 26)
    ∷ (86, 35)
    ∷ (87, 12)
    ∷ (75, 28)
    ∷ (74, 35)
    ∷ (104, 21)
    ∷ (65, 36)
    ∷ (70, 40)
    ∷ (69, 31)
    ∷ (67, 36)
    ∷ (88, 23)
    ∷ (68, 19)
    ∷ (85, 35)
    ∷ (80, 44)
    ∷ (81, 40)
    ∷ (66, 19)
    ∷ (73, 50)
    ∷ (78, 20)
    ∷ (79, 48)
    ∷ []

abbrev pub field : List ℕ → ℕ → ℕ → Option ℕ
field m pos size = integer m pos size false

abbrev pub is_one_of : ℕ → List ℕ → Bool
is_one_of c [] = false
is_one_of c (x ∷ xs) = (c == x) || is_one_of c xs

-- 'S': O, S, Q, M, E or C.
unfoldable pub itch_system : ItchDecoder → List ℕ → Option (FeedEvent × ItchDecoder)
itch_system d m = do
  code ← get_elem? m 11
  _ ← require (is_one_of code (79 ∷ 83 ∷ 81 ∷ 77 ∷ 69 ∷ 67 ∷ []))
  some (
    if code == 79 then record default_event { type = EventType.clear } else default_event,
    record d {
      symbols = if code == 79 then [] else d.symbols;
      complete = (code == 67) || d.complete;
    },
  )

-- symbols_.emplace keeps what is there.
abbrev pub emplaced : ItchDecoder → ℕ → Text → Option ItchDecoder
emplaced d locate name = elim (lookup locate d.symbols) [
  | none ↦ some (record d { symbols = insert ltb locate name d.symbols })
  | some old ↦ require (old == name) >>= λ _. some d
]

unfoldable pub itch_directory : ItchDecoder → List ℕ → ℕ → Option (FeedEvent × ItchDecoder)
itch_directory d m locate = do
  _ ← require (not (locate == 0))
  name ← symbol m 11 8
  d' ← emplaced d locate name
  some (record default_event { type = EventType.directory; symbol = name }, d')

unfoldable pub itch_add : List ℕ → Text → Option FeedEvent
itch_add m name = do
  order_id ← field m 11 8
  c ← get_elem? m 19
  side ← side_of_char c
  quantity ← field m 20 4
  again ← symbol m 24 8
  _ ← require (again == name)
  price ← field m 32 4
  some (record default_event {
    type = EventType.add;
    order_id = order_id;
    side = side;
    quantity = quantity;
    price = price;
  })

unfoldable pub itch_replace : List ℕ → Option FeedEvent
itch_replace m = do
  order_id ← field m 11 8
  new_order_id ← field m 19 8
  quantity ← field m 27 4
  price ← field m 31 4
  some (record default_event {
    type = EventType.replace;
    order_id = order_id;
    new_order_id = new_order_id;
    quantity = quantity;
    price = price;
  })

unfoldable pub itch_trade : List ℕ → Text → Bool → Option FeedEvent
itch_trade m name cross = do
  quantity ← field m (if cross then 11 else 20) (if cross then 8 else 4)
  again ← symbol m (if cross then 19 else 24) 8
  _ ← require (again == name)
  price ← field m (if cross then 27 else 32) 4
  match_id ← field m (if cross then 31 else 36) 8
  some (record default_event {
    type = EventType.trade;
    quantity = quantity;
    price = price;
    match_id = match_id;
  })

-- The printable flag, Y or N, and the price of 'C'.
abbrev pub printed_price : List ℕ → Option ℕ
printed_price m = do flag ← get_elem? m 31; _ ← require ((flag == 89) || (flag == 78)); field m 32 4

-- 'D', 'X', 'E' and 'C'.
unfoldable pub itch_change : List ℕ → ℕ → Option FeedEvent
itch_change m c = do
  order_id ← field m 11 8
  if c == 68
      then some (record default_event { type = EventType.delete; order_id = order_id })
      else (field m 19 4 >>= λ quantity.
          if c == 88
          then some (record default_event {
            type = EventType.reduce;
            order_id = order_id;
            quantity = quantity;
          })
          else (field m 23 8 >>= λ match_id.
              (if c == 67 then printed_price m else some 0) >>= λ price.
              some (record default_event {
                type = EventType.execute;
                order_id = order_id;
                quantity = quantity;
                match_id = match_id;
                price = price;
              })))

-- The messages of an order or a trade: A, F, U, P, Q and the others.
unfoldable pub itch_order : List ℕ → ℕ → Text → Option FeedEvent
unfolding itch_add itch_replace itch_trade itch_change
itch_order m c name =
    if (c == 65) || (c == 70)
    then itch_add m name
    else if c == 85
    then itch_replace m
    else if (c == 80) || (c == 81)
    then itch_trade m name (c == 81)
    else itch_change m c

unfoldable pub itch_listed : ItchDecoder → List ℕ → ℕ → ℕ → Option (FeedEvent × ItchDecoder)
unfolding itch_order
itch_listed d m c locate = do
  name ← lookup locate d.symbols
  e ← itch_order m c name
  some (record e { symbol = name }, d)

-- A message of type `c`: S, R, one of AFECXDUPQ, or one that is only checked.
unfoldable pub itch_event : ItchDecoder → List ℕ → ℕ → ℕ → Option (FeedEvent × ItchDecoder)
unfolding itch_system itch_directory itch_listed
itch_event d m c locate =
    if c == 83
    then itch_system d m
    else if c == 82
    then itch_directory d m locate
    else if is_one_of c (65 ∷ 70 ∷ 69 ∷ 67 ∷ 88 ∷ 68 ∷ 85 ∷ 80 ∷ 81 ∷ [])
    then itch_listed d m c locate
    else some (default_event, d)

-- An archive starts with the system event O.
abbrev pub starts_well : ItchDecoder → List ℕ → ℕ → Option Bool
starts_well d m c =
    if d.records == 0
    then (get_elem? m 11 >>= λ code. require ((c == 83) && (code == 79)))
    else some true

unfoldable pub itch_message : ItchDecoder → List ℕ → Option (FeedEvent × ItchDecoder)
unfolding itch_event
itch_message d m = do
  _ ← require (not d.complete)
  c ← get_elem? m 0
  size ← lookup c itch_lengths
  _ ← require (length m == size)
  _ ← starts_well d m c
  timestamp ← field m 5 6
  _ ← require (ltb timestamp 86400000000000)
  locate ← field m 1 2
  (e, d') ← itch_event d m c (locate % 65536)
  some (
    placed e 0 ((d.records + 1) % u64_mod) timestamp,
    record d' { records = (d'.records + 1) % u64_mod },
  )

-- What the handler of exceptions makes of a message.
abbrev pub or_failed :
    ItchDecoder → Option (FeedEvent × ItchDecoder) → ItchDecoder × Option FeedEvent
or_failed d none = (record d { failed = true }, none)
or_failed d (some (e, d')) = (d', some e)

-- Itch50Decoder::decode
unfoldable pub decode_itch : ItchDecoder → List ℕ → ItchDecoder × Option FeedEvent
unfolding itch_message
decode_itch d m = if d.failed then (d, none) else or_failed d (itch_message d m)

abbrev pub itch_complete : ItchDecoder → Bool
itch_complete d = d.complete && not d.failed
