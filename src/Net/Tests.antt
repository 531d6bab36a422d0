-- ===== src/Net/Tests.antt =====
-- The theorems of the event link at an order, and at two acknowledgements.
use limit_order_book.Base.{some, ◌≡◌, refl, arith}
use limit_order_book.Types.{bid, EventPayload, MarketEvent, ApplyResult}
use limit_order_book.Net.Protocol.{
  encode_event, decode_event, encode_received_ack, decode_received_ack, encode_apply_ack,
  decode_apply_ack,
}
use limit_order_book.Net.RoundTrip.{RoundTrips, apply_ack_round_trip, decode_received_ack-encode}
use limit_order_book.Net.Events.{EventFits, event_round_trip}

abbrev placed : MarketEvent
placed = record {
  sequence = 12;
  instrument_id = 3;
  payload =
      EventPayload.add_order
        (record { order_id = 1000000; side = bid; price = 4294967295; quantity = 300 });
}

abbrev placed-EventFits : EventFits placed
placed-EventFits = record {
  sequence_fits = omega arith;
  instrument_fits = omega arith;
  payload_fits = (refl, (omega arith, (omega arith, omega arith)));
}

event_round_trip_example : RoundTrips encode_event decode_event placed
event_round_trip_example = event_round_trip placed placed-EventFits

apply_ack_round_trip_example :
    RoundTrips encode_apply_ack decode_apply_ack
      (record { sequence = 12; result = ApplyResult.parse_error })
apply_ack_round_trip_example = apply_ack_round_trip 12 ApplyResult.parse_error (omega arith)

decode_received_ack-encode_example : decode_received_ack (encode_received_ack 70000) ≡ some 70000
decode_received_ack-encode_example = decode_received_ack-encode 70000 (omega arith)
