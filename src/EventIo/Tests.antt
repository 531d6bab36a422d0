-- ===== src/EventIo/Tests.antt =====
-- An order in an event file, and lines that are refused.
use limit_order_book.Base.{none, some, [], ◌∷◌, ◌≡◌, refl, arith}
use limit_order_book.Types.{ask, MarketEvent, add_order}
use limit_order_book.EventIo.{
  failed, parse_event_line, parse_fields, parse_integer, write_event_csv, split_csv, trim_line,
}
use limit_order_book.Trading.Engine.Ensures.{Ensures}
use limit_order_book.EventIo.RoundTrip.{EventFits, write_event_round_trip}
use limit_order_book.EventIo.Ranges.{EventOf, parse_event_line-EventOf}

abbrev order_added : MarketEvent
order_added = record {
  sequence = 18446744073709551615;
  instrument_id = 1;
  payload = add_order (record { order_id = 7; side = ask; price = 105; quantity = 20 });
}

abbrev order_added-EventFits : EventFits order_added
order_added-EventFits = record {
  sequence_fits = omega arith;
  instrument_id_fits = omega arith;
  payload_fits = (omega arith, refl, omega arith, omega arith);
}

write_event_round_trip_example :
    parse_event_line (write_event_csv order_added) ≡ record { event = some order_added; error = "" }
write_event_round_trip_example = write_event_round_trip order_added order_added-EventFits

-- 1,2,B
too_short : parse_event_line (49 ∷ 44 ∷ 50 ∷ 44 ∷ 66 ∷ 10 ∷ []) ≡ failed "expected 7 CSV fields"
unfolding parse_event_line parse_fields trim_line split_csv
too_short = refl

-- An order id of 20 digits is out of range.
out_of_range :
    parse_integer 18446744073709551616 (
      49 ∷ 56 ∷ 52 ∷ 52 ∷ 54 ∷ 55 ∷ 52 ∷ 52 ∷ 48 ∷ 55 ∷ 51 ∷ 55 ∷ 48 ∷ 57 ∷ 53 ∷ 53 ∷ 49 ∷ 54 ∷ 49
      ∷ 54 ∷ [])
    ≡ none
unfolding parse_integer
out_of_range = refl

parse_event_line-EventOf_example :
    Ensures
      (EventOf (split_csv (trim_line (write_event_csv order_added))))
      ((parse_event_line (write_event_csv order_added)).event)
parse_event_line-EventOf_example = parse_event_line-EventOf (write_event_csv order_added)
