-- ===== src/Feed/Itch/Tests.antt =====
-- The start of an ITCH archive, an entry of the directory and a deletion.
use limit_order_book.Base.{ℕ, true, false, none, some, List, [], ◌∷◌, ◌≡◌, refl}
use limit_order_book.Map.{lookup}
use limit_order_book.Feed.Bytes.{integer, integer_from}
use limit_order_book.Feed.Books.{FeedEvent, EventType}
use limit_order_book.Feed.Pitch.{default_event, placed}
use limit_order_book.Feed.Itch.{
  ItchDecoder, new_itch, decode_itch, itch_message, itch_event, itch_listed, itch_order,
  itch_change,
}
use limit_order_book.Feed.Itch.Session.{Accepted, decode_itch-Accepted}

-- Stock 9 is AB; the decoder has read two records.
abbrev started : ItchDecoder
started = record { records = 2; failed = false; complete = false; symbols = (9, 65 ∷ 66 ∷ []) ∷ [] }

-- D, the locate, the time 258 and the order 7.
abbrev deletion : List ℕ
deletion = 68 ∷ 0 ∷ 9 ∷ 0 ∷ 0 ∷ 0 ∷ 0 ∷ 0 ∷ 0 ∷ 1 ∷ 2 ∷ 0 ∷ 0 ∷ 0 ∷ 0 ∷ 0 ∷ 0 ∷ 0 ∷ 7 ∷ []

abbrev deleted : FeedEvent
deleted = record (placed default_event 0 3 258) {
  type = EventType.delete;
  order_id = 7;
  symbol = 65 ∷ 66 ∷ [];
}

abbrev after : ItchDecoder
after = record started { records = 3 }

decoded : decode_itch started deletion ≡ (after, some deleted)
unfolding decode_itch itch_message itch_event itch_listed itch_order itch_change integer
    integer_from lookup
decoded = refl

decode_itch-Accepted_example : Accepted started deletion deleted after
decode_itch-Accepted_example = decode_itch-Accepted started after deletion deleted decoded

abbrev broken : ItchDecoder
broken = record new_itch { failed = true }

-- An archive must not start with an order.
refused : decode_itch new_itch deletion ≡ (broken, none)
unfolding decode_itch itch_message lookup
refused = refl
