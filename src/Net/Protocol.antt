-- ===== src/Net/Protocol.antt =====
-- The codec of src/net/protocol.cpp: frames of 40 bytes for events, of 16 for acknowledgements.
-- `none` of an encoder stands for its `std::invalid_argument`.
use limit_order_book.Base.{
  ℕ, suc, Bool, true, false, not, ◌&&◌, ◌||◌, Option, none, some, ◌==◌, nat_eq, if◌then◌else◌, leb,
  List, [], ◌∷◌, get_elem?,
}
use limit_order_book.Types.{
  Side, bid, ask, is_known, side_eq, ApplyResult, ok, duplicate_order, unknown_order, invalid_price,
  invalid_quantity, unknown_instrument, quantity_exceeds_remaining, parse_error, not_implemented,
  allocation_failed, EventPayload, MarketEvent,
}
use limit_order_book.Net.Frames.{Frame, zeros, set, put, get}

-- LOB1
abbrev pub magic : ℕ
magic = 1280262705

unfoldable pub valid_header : Frame → Bool
valid_header frame = (get frame 0 4 == magic) && ((frame 4 == 1) && (frame 7 == 0))

abbrev pub header : Frame
header = set (put zeros 0 magic 4) 4 1

-- add->side == Side::Bid ? 1 : 2
abbrev pub side_code : Side → ℕ
side_code s = if s == bid then 1 else 2

abbrev pub encode_payload : EventPayload → Frame → Option Frame
encode_payload (EventPayload.add_order a) frame =
    if not (is_known a.side)
    then none
    else some (
        put (put (put (set (set frame 5 1) 6 (side_code a.side)) 24 a.order_id 8) 32 a.price 4) 36
          a.quantity 4)
encode_payload (EventPayload.cancel_order c) frame = some (put (set frame 5 2) 24 c.order_id 8)
encode_payload (EventPayload.execute_order x) frame =
    some (put (put (set frame 5 3) 24 x.order_id 8) 36 x.quantity 4)

unfoldable pub encode_event : MarketEvent → Option Frame
encode_event event =
    encode_payload event.payload (put (put header 8 event.sequence 8) 16 event.instrument_id 8)

abbrev pub decode_payload : Frame → ℕ → Option EventPayload
decode_payload frame order =
    let price = get frame 32 4 in
    let quantity = get frame 36 4 in
    if frame 5 == 1
    then (if not (frame 6 == 1) && not (frame 6 == 2)
        then none
        else some (
            EventPayload.add_order (record {
              order_id = order;
              side = if frame 6 == 1 then bid else ask;
              price = price;
              quantity = quantity;
            })))
    else if frame 5 == 2
    then (if not (frame 6 == 0) || (not (price == 0) || not (quantity == 0))
        then none
        else some (EventPayload.cancel_order (record { order_id = order })))
    else if frame 5 == 3
    then (if not (frame 6 == 0) || not (price == 0)
        then none
        else some (EventPayload.execute_order (record { order_id = order; quantity = quantity })))
    else none

abbrev pub with_payload : Frame → Option EventPayload → Option MarketEvent
with_payload frame none = none
with_payload frame (some payload) =
    some (record { sequence = get frame 8 8; instrument_id = get frame 16 8; payload = payload })

unfoldable pub decode_event : Frame → Option MarketEvent
decode_event frame =
    if not (valid_header frame)
    then none
    else with_payload frame (decode_payload frame (get frame 24 8))

unfoldable pub encode_received_ack : ℕ → Frame
encode_received_ack sequence = put (set header 5 128) 8 sequence 8

unfoldable pub decode_received_ack : Frame → Option ℕ
decode_received_ack frame =
    if not (valid_header frame) || (not (frame 5 == 128) || not (frame 6 == 0))
    then none
    else some (get frame 8 8)

pub record ApplyAck : Type 0 where
  pub sequence : ℕ
  pub result : ApplyResult

abbrev pub result_beq : ApplyResult → ApplyResult → Bool
result_beq ok ok = true
result_beq duplicate_order duplicate_order = true
result_beq unknown_order unknown_order = true
result_beq invalid_price invalid_price = true
result_beq invalid_quantity invalid_quantity = true
result_beq unknown_instrument unknown_instrument = true
result_beq quantity_exceeds_remaining quantity_exceeds_remaining = true
result_beq parse_error parse_error = true
result_beq not_implemented not_implemented = true
result_beq allocation_failed allocation_failed = true
result_beq _ _ = false

-- The stable wire mapping.
abbrev pub results : List ApplyResult
results =
    ok ∷ duplicate_order ∷ unknown_order ∷ invalid_price ∷ invalid_quantity ∷ unknown_instrument
    ∷ quantity_exceeds_remaining ∷ parse_error ∷ not_implemented ∷ allocation_failed ∷ []

-- The loop over `results`: the first index whose result is that of the acknowledgement.
abbrev pub index_from : List ApplyResult → ApplyResult → ℕ → Option ℕ
index_from [] r i = none
index_from (x ∷ xs) r i = if result_beq x r then some i else index_from xs r (suc i)

abbrev pub with_result : Frame → Option ℕ → Option Frame
with_result frame none = none
with_result frame (some i) = some (set frame 6 i)

unfoldable pub encode_apply_ack : ApplyAck → Option Frame
unfolding encode_received_ack
encode_apply_ack ack =
    with_result (set (encode_received_ack ack.sequence) 5 129) (index_from results ack.result 0)

abbrev pub ack_of : ℕ → Option ApplyResult → Option ApplyAck
ack_of sequence none = none
ack_of sequence (some r) = some (record { sequence = sequence; result = r })

unfoldable pub decode_apply_ack : Frame → Option ApplyAck
decode_apply_ack frame =
    if not (valid_header frame) || (not (frame 5 == 129) || leb 10 (frame 6))
    then none
    else ack_of (get frame 8 8) (get_elem? results (frame 6))
