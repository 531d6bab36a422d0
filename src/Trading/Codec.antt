-- ===== src/Trading/Codec.antt =====
-- The frames of src/trading/messages.cpp: 96 bytes for a message. `none` of `encode` is its
-- `std::invalid_argument`.
pub mod Words
pub mod RoundTrip
pub mod Tests
use limit_order_book.Base.{
  ℕ, zero, suc, ◌+◌, Bool, true, false, not, ◌&&◌, ◌||◌, Option, none, some, List, [], ◌∷◌, leb,
  ◌==◌, nat_eq, if◌then◌else◌, is_some,
}
use limit_order_book.Types.{Side, bid, ask, is_known, side_eq}
use limit_order_book.Net.Frames.{Frame, zeros, set, put, get}
use limit_order_book.Trading.Messages.{Message}
use limit_order_book.Trading.Messages.Bytes.{
  kind_byte, action_byte, order_type_byte, tif_byte, report_byte, reject_byte, update_byte, kind_of,
  action_of, order_type_of, tif_of, report_of, reject_of, update_of, bool_byte,
}

-- LTR1
abbrev pub frame_magic : ℕ
frame_magic = 1280594481

pub record Word : Type 0 where
  pub at : ℕ
  pub value : ℕ
  pub width : ℕ

-- The writes of a sequence of words, in order.
abbrev pub put_all : Frame → List Word → Frame
put_all f [] = f
put_all f (w ∷ ws) = put_all (put f w.at w.value w.width) ws

-- m.side == Side::Bid ? 0 : 1
abbrev pub side_bit : Side → ℕ
side_bit s = if s == bid then 0 else 1

abbrev pub words : Message → List Word
words m =
    record { at = 16; value = m.epoch; width = 8 }
    ∷ record { at = 24; value = m.sequence; width = 8 }
    ∷ record { at = 32; value = m.client_id; width = 4 }
    ∷ record { at = 36; value = m.price; width = 4 }
    ∷ record { at = 40; value = m.request_id; width = 8 }
    ∷ record { at = 48; value = m.order_id; width = 8 }
    ∷ record { at = 56; value = m.exchange_id; width = 8 }
    ∷ record { at = 64; value = m.instrument_id; width = 8 }
    ∷ record { at = 72; value = m.quantity; width = 4 }
    ∷ record { at = 76; value = m.remaining; width = 4 }
    ∷ record { at = 80; value = m.trade_id; width = 8 }
    ∷ []

unfoldable pub small_fields : Message → Frame
unfolding kind_byte action_byte order_type_byte tif_byte report_byte reject_byte update_byte
    bool_byte
small_fields m =
    set
      (set
        (set
          (set
            (set
              (set
                (set
                  (set (set (set (put zeros 0 frame_magic 4) 4 1) 5 (kind_byte m.kind)) 6
                    (action_byte m.action))
                  7 (side_bit m.side))
                8 (order_type_byte m.order_type))
              9 (tif_byte m.tif))
            10 (report_byte m.report))
          11 (reject_byte m.reject))
        12 (bool_byte m.post_only))
      13 (update_byte m.update)

unfoldable pub frame_of : Message → Frame
unfolding small_fields
frame_of m = put_all (small_fields m) (words m)

abbrev pub in_range : ℕ → ℕ → ℕ → Bool
in_range low high b = leb low b && leb b high

-- The bytes from `at` on, `n` of them, are zero.
abbrev pub all_zero : Frame → ℕ → ℕ → Bool
all_zero b at zero = true
all_zero b at (suc n) = (b at == 0) && all_zero b (at + 1) n

unfoldable pub valid_frame : Frame → Bool
valid_frame b =
    (get b 0 4 == frame_magic)
    && ((b 4 == 1)
        && (in_range 1 7 (b 5)
            && (in_range 1 6 (b 6)
                && (leb (b 7) 1
                    && (in_range 1 2 (b 8)
                        && (in_range 1 3 (b 9)
                            && (in_range 1 7 (b 10)
                                && (leb (b 11) 17
                                    && (leb (b 12) 1
                                        && (in_range 1 5 (b 13)
                                            && ((b 14 == 0)
                                                && ((b 15 == 0) && all_zero b 88 8))))))))))))

unfoldable pub message_of : Frame → Message
message_of b = record {
  kind = kind_of (b 5);
  action = action_of (b 6);
  side = if b 7 == 0 then bid else ask;
  order_type = order_type_of (b 8);
  tif = tif_of (b 9);
  report = report_of (b 10);
  reject = reject_of (b 11);
  update = update_of (b 13);
  post_only = not (b 12 == 0);
  epoch = get b 16 8;
  sequence = get b 24 8;
  client_id = get b 32 4;
  price = get b 36 4;
  request_id = get b 40 8;
  order_id = get b 48 8;
  exchange_id = get b 56 8;
  instrument_id = get b 64 8;
  quantity = get b 72 4;
  remaining = get b 76 4;
  trade_id = get b 80 8;
}

unfoldable pub decode : Frame → Option Message
unfolding valid_frame message_of
decode b = if not (valid_frame b) then none else some (message_of b)

unfoldable pub encode : Message → Option Frame
unfolding frame_of decode
encode m =
    if not (is_some (decode (frame_of m))) || not (is_known m.side) then none else some (frame_of m)
