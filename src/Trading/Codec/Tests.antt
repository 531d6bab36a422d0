-- ===== src/Trading/Codec/Tests.antt =====
-- The codec of messages at an order.
use limit_order_book.Base.{refl, arith}
use limit_order_book.Types.{ask}
use limit_order_book.Trading.Messages.{Message, default_message}
use limit_order_book.Trading.Codec.{decode, encode}
use limit_order_book.Trading.Codec.RoundTrip.{MessageFits, message_round_trip}
use limit_order_book.Net.RoundTrip.{RoundTrips}

abbrev pub order : Message
order = record default_message {
  side = ask;
  client_id = 8;
  request_id = 1;
  order_id = 18446744073709551615;
  instrument_id = 1;
  price = 4294967295;
  quantity = 10;
}

abbrev pub order-MessageFits : MessageFits order
order-MessageFits = record {
  known = refl;
  epoch_fits = omega arith;
  sequence_fits = omega arith;
  client_id_fits = omega arith;
  price_fits = omega arith;
  request_id_fits = omega arith;
  order_id_fits = omega arith;
  exchange_id_fits = omega arith;
  instrument_id_fits = omega arith;
  quantity_fits = omega arith;
  remaining_fits = omega arith;
  trade_id_fits = omega arith;
}

message_round_trip_example : RoundTrips encode decode order
message_round_trip_example = message_round_trip order order-MessageFits
