-- ===== src/Feed/Pitch/Tests.antt =====
-- A PITCH packet of a time and a deletion, and one out of turn.
use limit_order_book.Base.{ℕ, true, false, none, some, List, [], ◌∷◌, ◌≡◌, refl, arith}
use limit_order_book.Feed.Bytes.{integer, integer_from}
use limit_order_book.Feed.Books.{FeedEvent, EventType}
use limit_order_book.Feed.Pitch.{
  PitchDecoder, new_pitch, default_event, placed, set_unit, decode_pitch, pitch_packet,
  pitch_sequenced, pitch_messages, pitch_message, pitch_span, pitch_time, pitch_timed, pitch_event,
  pitch_delete,
}
use limit_order_book.Feed.Pitch.Packets.{UnitsOk, Accepted, decode_pitch-Accepted}

abbrev packet : List ℕ
packet =
    28 ∷ 0 ∷ 2 ∷ 1 ∷ 1 ∷ 0 ∷ 0 ∷ 0 ∷ 6 ∷ 0x20 ∷ 16 ∷ 14 ∷ 0 ∷ 0 ∷ 14 ∷ 0x29 ∷ 5 ∷ 0 ∷ 0 ∷ 0 ∷ 7 ∷ 0
    ∷ 0 ∷ 0 ∷ 0 ∷ 0 ∷ 0 ∷ 0 ∷ []

abbrev after : PitchDecoder
after = record {
  units =
      set_unit new_pitch.units 1 (record { next = 3; seconds = 3600; timed = true; ended = false });
  failed = false;
}

abbrev events : List FeedEvent
events =
    placed default_event 1 1 3600000000000
    ∷ placed (record default_event { type = EventType.delete; order_id = 7 }) 1 2 3600000000005
    ∷ []

decoded : decode_pitch new_pitch packet ≡ (after, some events)
unfolding decode_pitch pitch_packet pitch_sequenced pitch_messages pitch_message pitch_span
    pitch_time pitch_timed pitch_event pitch_delete integer integer_from
decoded = refl

new_pitch-UnitsOk : UnitsOk new_pitch
new_pitch-UnitsOk = λ c. record { timed = λ t. cc; bounded = omega arith }

decode_pitch-Accepted_example : Accepted new_pitch packet (events, after)
decode_pitch-Accepted_example =
    decode_pitch-Accepted new_pitch after packet events new_pitch-UnitsOk decoded

abbrev broken : PitchDecoder
broken = record after { failed = true }

-- The packet once more.
refused : decode_pitch after packet ≡ (broken, none)
unfolding decode_pitch pitch_packet pitch_sequenced integer integer_from
refused = refl
