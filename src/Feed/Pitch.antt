-- ===== src/Feed/Pitch.antt =====
-- src/feed/pitch.cpp: the decoder of PITCH packets. `none` of a step is an exception.
pub mod Packets
mod Tests
use limit_order_book.Base.{
  ℕ, zero, suc, ◌+◌, ◌-◌, ◌*◌, ◌/◌, ◌%◌, Bool, true, false, not, ◌&&◌, ◌||◌, Option, none, some,
  List, [], ◌∷◌, length, take, drop, get_elem?, ltb, leb, ◌==◌, nat_eq, if◌then◌else◌, ◌≡◌, refl,
}
use limit_order_book.Types.{bid}
use limit_order_book.Feed.Bytes.{integer, symbol, side_of_char}
use limit_order_book.Feed.Books.{FeedEvent, EventType}
use limit_order_book.Trading.Engine.State.{◌>>=◌}

-- `Unit` of the decoder.
pub record PitchUnit : Type 0 where
  pub next : ℕ
  pub seconds : ℕ
  pub timed : Bool
  pub ended : Bool

pub record PitchDecoder : Type 0 where
  pub units : ℕ → PitchUnit
  pub failed : Bool

abbrev pub new_pitch : PitchDecoder
new_pitch = record {
  units = λ i. record { next = 1; seconds = 0; timed = false; ended = false };
  failed = false;
}

abbrev pub default_event : FeedEvent
default_event = record {
  type = EventType.metadata;
  sequence = 0;
  timestamp_ns = 0;
  channel = 0;
  symbol = [];
  order_id = 0;
  new_order_id = 0;
  side = bid;
  price = 0;
  quantity = 0;
  remaining = 0;
  match_id = 0;
  maintain_priority = false;
}

abbrev pub require : Bool → Option Bool
require true = some true
require false = none

pub required : (b c : Bool) → require b ≡ some c → b ≡ true
required true c h = refl
required false c h = cc

abbrev pub number : List ℕ → ℕ → ℕ → Option ℕ
number m pos size = integer m pos size true

abbrev pub sized : List ℕ → ℕ → Option Bool
sized m want = require (length m == want)

-- The price of a message: two bytes of hundreds, or eight bytes.
unfoldable pub pitch_price : List ℕ → Bool → ℕ → ℕ → Option ℕ
pitch_price m short_form short_at long_at =
    if short_form then (number m short_at 2 >>= λ n. some (n * 100)) else number m long_at 8

unfoldable pub pitch_add : List ℕ → ℕ → Option FeedEvent
pitch_add m type = do
  let short_form = type == 0x22
  let expanded = type == 0x2f
  _ ←
      if expanded
      then require (length m == 40 || length m == 41)
      else sized m (if short_form then 26 else 34)
  order_id ← number m 6 8
  c ← get_elem? m 14
  side ← side_of_char c
  quantity ← number m 15 (if short_form then 2 else 4)
  symbol ← symbol m (if short_form then 17 else 19) (if expanded then 8 else 6)
  price ← pitch_price m short_form 23 (if expanded then 27 else 25)
  some (record default_event {
    type = EventType.add;
    order_id = order_id;
    side = side;
    quantity = quantity;
    symbol = symbol;
    price = price;
  })

unfoldable pub pitch_execute : List ℕ → Option FeedEvent
pitch_execute m = do
  _ ← sized m 26
  order_id ← number m 6 8
  quantity ← number m 14 4
  match_id ← number m 18 8
  some (record default_event {
    type = EventType.execute;
    order_id = order_id;
    quantity = quantity;
    match_id = match_id;
  })

unfoldable pub pitch_execute_remaining : List ℕ → Option FeedEvent
pitch_execute_remaining m = do
  _ ← sized m 38
  order_id ← number m 6 8
  quantity ← number m 14 4
  remaining ← number m 18 4
  match_id ← number m 22 8
  price ← number m 30 8
  some (record default_event {
    type = EventType.execute_remaining;
    order_id = order_id;
    quantity = quantity;
    remaining = remaining;
    match_id = match_id;
    price = price;
  })

unfoldable pub pitch_reduce : List ℕ → Bool → Option FeedEvent
pitch_reduce m long_form = do
  _ ← sized m (if long_form then 18 else 16)
  order_id ← number m 6 8
  quantity ← number m 14 (if long_form then 4 else 2)
  some (record default_event { type = EventType.reduce; order_id = order_id; quantity = quantity })

unfoldable pub pitch_modify : List ℕ → Bool → Option FeedEvent
unfolding pitch_price
pitch_modify m short_form = do
  _ ← sized m (if short_form then 19 else 27)
  order_id ← number m 6 8
  quantity ← number m 14 (if short_form then 2 else 4)
  price ← pitch_price m short_form 16 18
  flags ← get_elem? m (if short_form then 18 else 26)
  some (record default_event {
    type = EventType.replace;
    order_id = order_id;
    new_order_id = order_id;
    quantity = quantity;
    price = price;
    maintain_priority = flags / 2 % 2 == 1;
  })

unfoldable pub pitch_delete : List ℕ → Option FeedEvent
pitch_delete m = do
  _ ← sized m 14
  order_id ← number m 6 8
  some (record default_event { type = EventType.delete; order_id = order_id })

unfoldable pub pitch_trade : List ℕ → ℕ → Option FeedEvent
unfolding pitch_price
pitch_trade m type = do
  let short_form = type == 0x2b
  let expanded = type == 0x30
  _ ← sized m (if short_form then 33 else if expanded then 43 else 41)
  quantity ← number m 15 (if short_form then 2 else 4)
  symbol ← symbol m (if short_form then 17 else 19) (if expanded then 8 else 6)
  price ← pitch_price m short_form 23 (if expanded then 27 else 25)
  match_id ← number m (if short_form then 25 else if expanded then 35 else 33) 8
  some (record default_event {
    type = EventType.trade;
    quantity = quantity;
    symbol = symbol;
    price = price;
    match_id = match_id;
  })

-- A message that changes no order.
abbrev pub pitch_other : List ℕ → ℕ → EventType → Option FeedEvent
pitch_other m want type = sized m want >>= λ _. some (record default_event { type = type })

-- The switch on the type of a message.
unfoldable pub pitch_event : List ℕ → ℕ → Option FeedEvent
unfolding pitch_add pitch_execute pitch_execute_remaining pitch_reduce pitch_modify pitch_delete
    pitch_trade
pitch_event m type =
    if type == 0x21 || (type == 0x22 || type == 0x2f)
    then pitch_add m type
    else if type == 0x23
    then pitch_execute m
    else if type == 0x24
    then pitch_execute_remaining m
    else if type == 0x25 || type == 0x26
    then pitch_reduce m (type == 0x25)
    else if type == 0x27 || type == 0x28
    then pitch_modify m (type == 0x28)
    else if type == 0x29
    then pitch_delete m
    else if type == 0x2a || (type == 0x2b || type == 0x30)
    then pitch_trade m type
    else if type == 0x97
    then pitch_other m 6 EventType.clear
    else if type == 0x2c
    then pitch_other m 14 EventType.metadata
    else if type == 0x2d
    then pitch_other m 6 EventType.metadata
    else if type == 0x31
    then pitch_other m 18 EventType.metadata
    else none

-- The event at its place in the stream.
abbrev pub placed : FeedEvent → ℕ → ℕ → ℕ → FeedEvent
placed e channel sequence timestamp = record e {
  channel = channel;
  sequence = sequence;
  timestamp_ns = timestamp;
}

unfoldable pub pitch_time : ℕ → ℕ → List ℕ → PitchUnit → Option (FeedEvent × PitchUnit)
pitch_time channel sequence m state = do
  _ ← require (length m == 6 || length m == 10)
  seconds ← number m 2 4
  _ ← require (ltb seconds 86400)
  some (
    placed default_event channel sequence (seconds * 1000000000),
    record state { seconds = seconds; timed = true },
  )

unfoldable pub pitch_timed : ℕ → ℕ → List ℕ → ℕ → PitchUnit → Option (FeedEvent × PitchUnit)
unfolding pitch_event
pitch_timed channel sequence m type state = do
  _ ← require state.timed
  nanos ← number m 2 4
  _ ← require (ltb nanos 1000000000)
  e ← pitch_event m type
  some (
    placed e channel sequence (state.seconds * 1000000000 + nanos),
    record state { ended = state.ended || (type == 0x2d) },
  )

-- One round of the loop behind the checks of the header.
unfoldable pub pitch_message : ℕ → ℕ → List ℕ → PitchUnit → Option (FeedEvent × PitchUnit)
unfolding pitch_time pitch_timed
pitch_message channel sequence m state = get_elem? m 1 >>= λ type.
    if type == 0x20
    then pitch_time channel sequence m state
    else pitch_timed channel sequence m type state

-- The bytes of the message at an offset, if it lies within the packet.
unfoldable pub pitch_span : List ℕ → ℕ → Option (List ℕ)
pitch_span p offset = do
  _ ← require (leb (offset + 2) (length p))
  size ← get_elem? p offset
  _ ← require (leb 6 size && leb size (length p - offset))
  some (take size (drop offset p))

-- The loop, with the number of messages to go.
unfoldable pub pitch_messages :
    ℕ → ℕ → ℕ → List ℕ → ℕ → PitchUnit → Option (List FeedEvent × PitchUnit)
unfolding pitch_message pitch_span
pitch_messages zero channel sequence p offset state =
    require (offset == length p) >>= λ _. some ([], state)
pitch_messages (suc n) channel sequence p offset state = do
  _ ← require (not state.ended)
  m ← pitch_span p offset
  (e, state') ← pitch_message channel sequence m state
  (es, state'') ← pitch_messages n channel (sequence + 1) p (offset + length m) state'
  some (e ∷ es, state'')

abbrev pub set_unit : (ℕ → PitchUnit) → ℕ → PitchUnit → ℕ → PitchUnit
set_unit units channel state c = if c == channel then state else units c

-- A packet of `count` messages behind the checks of the header.
unfoldable pub pitch_sequenced :
    PitchDecoder → List ℕ → ℕ → ℕ → ℕ → Option (List FeedEvent × PitchDecoder)
unfolding pitch_messages
pitch_sequenced d p count channel sequence = do
  let state = d.units channel
  _ ← require (sequence == state.next)
  _ ← require (not state.ended)
  _ ← require (leb (sequence + count - 1) 4294967295)
  (events, state') ← pitch_messages count channel sequence p 8 state
  some (
    events,
    record d { units = set_unit d.units channel (record state' { next = sequence + count }) },
  )

unfoldable pub pitch_packet : PitchDecoder → List ℕ → Option (List FeedEvent × PitchDecoder)
unfolding pitch_sequenced
pitch_packet d p = do
  _ ← require (leb 8 (length p))
  size ← number p 0 2
  _ ← require (size == length p)
  count ← get_elem? p 2
  channel ← get_elem? p 3
  sequence ← number p 4 4
  if count == 0
      then (require ((length p == 8) && ((sequence == (d.units channel).next) || (sequence == 0)))
          >>= λ _. some ([], d))
      else pitch_sequenced d p count channel sequence

-- What the handler of exceptions makes of a packet.
abbrev pub or_failed :
    PitchDecoder → Option (List FeedEvent × PitchDecoder) → PitchDecoder × Option (List FeedEvent)
or_failed d none = (record d { failed = true }, none)
or_failed d (some (events, d')) = (d', some events)

-- PitchDecoder::decode
unfoldable pub decode_pitch : PitchDecoder → List ℕ → PitchDecoder × Option (List FeedEvent)
unfolding pitch_packet
decode_pitch d p = if d.failed then (d, none) else or_failed d (pitch_packet d p)

-- The units from `n` down: whether one was used, if each one that was used has ended.
abbrev pub all_ended : (ℕ → PitchUnit) → ℕ → Option Bool
all_ended units zero = some false
all_ended units (suc n) =
    let later = all_ended units n in
    if (units n).next == 1
    then later
    else if (units n).ended
    then (later >>= λ _. some true)
    else none

unfoldable pub pitch_complete : PitchDecoder → Bool
pitch_complete d = elim (all_ended d.units 256) [ none ↦ false | some seen ↦ seen && not d.failed ]
