-- ===== src/Trading/Codec/RoundTrip.antt =====
-- What the codec of messages writes, it reads back.
use limit_order_book.Base.{
  ◌<◌, Bool, true, false, not, some, ◌≡◌, refl, arith, leb, ◌==◌, nat_eq, if◌then◌else◌, drop, take,
}
use limit_order_book.Types.{Side, bid, ask, other, is_known, side_eq, u32_mod, u64_mod}
use limit_order_book.Net.Frames.{put, get}
use limit_order_book.Trading.Messages.{
  Message, Kind, Action, OrderType, TimeInForce, ReportType, Reject, UpdateType,
}
use limit_order_book.Trading.Messages.Bytes.{
  kind_byte, action_byte, order_type_byte, tif_byte, report_byte, reject_byte, update_byte,
  bool_byte, kind_of-byte, action_of-byte, order_type_of-byte, tif_of-byte, report_of-byte,
  reject_of-byte, update_of-byte,
}
use limit_order_book.Trading.Codec.{
  words, side_bit, small_fields, frame_of, in_range, valid_frame, message_of, decode, encode,
}
use limit_order_book.Trading.Codec.Words.{get-put_all_at}
use limit_order_book.Net.RoundTrip.{RoundTrips}

-- The side is known, and the numbers fit their words.
pub record MessageFits (m : Message) : Type 0 where
  pub known : is_known m.side ≡ true
  pub epoch_fits : m.epoch < u64_mod
  pub sequence_fits : m.sequence < u64_mod
  pub client_id_fits : m.client_id < u32_mod
  pub price_fits : m.price < u32_mod
  pub request_id_fits : m.request_id < u64_mod
  pub order_id_fits : m.order_id < u64_mod
  pub exchange_id_fits : m.exchange_id < u64_mod
  pub instrument_id_fits : m.instrument_id < u64_mod
  pub quantity_fits : m.quantity < u32_mod
  pub remaining_fits : m.remaining < u32_mod
  pub trade_id_fits : m.trade_id < u64_mod

kind_range : (x : Kind) → in_range 1 7 (kind_byte x) ≡ true
unfolding kind_byte
kind_range Kind.command = refl
kind_range Kind.report = refl
kind_range Kind.delta = refl
kind_range Kind.heartbeat = refl
kind_range Kind.snapshot_begin = refl
kind_range Kind.snapshot_order = refl
kind_range Kind.snapshot_end = refl

action_range : (x : Action) → in_range 1 6 (action_byte x) ≡ true
unfolding action_byte
action_range Action.new = refl
action_range Action.cancel = refl
action_range Action.replace = refl
action_range Action.cancel_all = refl
action_range Action.snapshot = refl
action_range Action.status = refl

order_type_range : (x : OrderType) → in_range 1 2 (order_type_byte x) ≡ true
unfolding order_type_byte
order_type_range OrderType.limit = refl
order_type_range OrderType.market = refl

tif_range : (x : TimeInForce) → in_range 1 3 (tif_byte x) ≡ true
unfolding tif_byte
tif_range TimeInForce.gtc = refl
tif_range TimeInForce.ioc = refl
tif_range TimeInForce.fok = refl

report_range : (x : ReportType) → in_range 1 7 (report_byte x) ≡ true
unfolding report_byte
report_range ReportType.accepted = refl
report_range ReportType.rejected = refl
report_range ReportType.fill = refl
report_range ReportType.cancelled = refl
report_range ReportType.replaced = refl
report_range ReportType.complete = refl
report_range ReportType.status = refl

reject_range : (x : Reject) → leb (reject_byte x) 17 ≡ true
unfolding reject_byte
reject_range Reject.no_reason = refl
reject_range Reject.invalid_command = refl
reject_range Reject.unknown_instrument = refl
reject_range Reject.invalid_price = refl
reject_range Reject.invalid_quantity = refl
reject_range Reject.duplicate_order = refl
reject_range Reject.unknown_order = refl
reject_range Reject.sequence = refl
reject_range Reject.post_only = refl
reject_range Reject.fok = refl
reject_range Reject.self_trade = refl
reject_range Reject.risk_quantity = refl
reject_range Reject.risk_notional = refl
reject_range Reject.risk_position = refl
reject_range Reject.risk_open_orders = refl
reject_range Reject.capacity = refl
reject_range Reject.session_busy = refl
reject_range Reject.kill_switch = refl

update_range : (x : UpdateType) → in_range 1 5 (update_byte x) ≡ true
unfolding update_byte
update_range UpdateType.add = refl
update_range UpdateType.cancel = refl
update_range UpdateType.execute = refl
update_range UpdateType.reduce = refl
update_range UpdateType.trade = refl

side_of_bit :
    (s : Side)
    → is_known s ≡ true
    → (leb (side_bit s) 1 ≡ true) × ((if (side_bit s == 0) then bid else ask) ≡ s)
side_of_bit bid h = (refl, refl)
side_of_bit ask h = (refl, refl)
side_of_bit other h = cc

flag_range : (b : Bool) → (leb (bool_byte b) 1 ≡ true) × (not (bool_byte b == 0) ≡ b)
unfolding bool_byte
flag_range true = (refl, refl)
flag_range false = (refl, refl)

module _ (m : Message) (fits : MessageFits m) where
  epoch-read : get (frame_of m) 16 8 ≡ m.epoch
  unfolding frame_of
  epoch-read =
      get-put_all_at (small_fields m) (take 0 (words m))
        (record { at = 16; value = m.epoch; width = 8 }) (drop 1 (words m)) refl
        (omega (arith, fits.epoch_fits)) (omega (arith, fits.epoch_fits))

  sequence-read : get (frame_of m) 24 8 ≡ m.sequence
  unfolding frame_of
  sequence-read =
      get-put_all_at (small_fields m) (take 1 (words m))
        (record { at = 24; value = m.sequence; width = 8 }) (drop 2 (words m)) refl
        (omega (arith, fits.sequence_fits)) (omega (arith, fits.sequence_fits))

  client_id-read : get (frame_of m) 32 4 ≡ m.client_id
  unfolding frame_of
  client_id-read =
      get-put_all_at (small_fields m) (take 2 (words m))
        (record { at = 32; value = m.client_id; width = 4 }) (drop 3 (words m)) refl
        (omega (arith, fits.client_id_fits)) (omega (arith, fits.client_id_fits))

  price-read : get (frame_of m) 36 4 ≡ m.price
  unfolding frame_of
  price-read =
      get-put_all_at (small_fields m) (take 3 (words m))
        (record { at = 36; value = m.price; width = 4 }) (drop 4 (words m)) refl
        (omega (arith, fits.price_fits)) (omega (arith, fits.price_fits))

  request_id-read : get (frame_of m) 40 8 ≡ m.request_id
  unfolding frame_of
  request_id-read =
      get-put_all_at (small_fields m) (take 4 (words m))
        (record { at = 40; value = m.request_id; width = 8 }) (drop 5 (words m)) refl
        (omega (arith, fits.request_id_fits)) (omega (arith, fits.request_id_fits))

  order_id-read : get (frame_of m) 48 8 ≡ m.order_id
  unfolding frame_of
  order_id-read =
      get-put_all_at (small_fields m) (take 5 (words m))
        (record { at = 48; value = m.order_id; width = 8 }) (drop 6 (words m)) refl
        (omega (arith, fits.order_id_fits)) (omega (arith, fits.order_id_fits))

  exchange_id-read : get (frame_of m) 56 8 ≡ m.exchange_id
  unfolding frame_of
  exchange_id-read =
      get-put_all_at (small_fields m) (take 6 (words m))
        (record { at = 56; value = m.exchange_id; width = 8 }) (drop 7 (words m)) refl
        (omega (arith, fits.exchange_id_fits)) (omega (arith, fits.exchange_id_fits))

  instrument_id-read : get (frame_of m) 64 8 ≡ m.instrument_id
  unfolding frame_of
  instrument_id-read =
      get-put_all_at (small_fields m) (take 7 (words m))
        (record { at = 64; value = m.instrument_id; width = 8 }) (drop 8 (words m)) refl
        (omega (arith, fits.instrument_id_fits)) (omega (arith, fits.instrument_id_fits))

  quantity-read : get (frame_of m) 72 4 ≡ m.quantity
  unfolding frame_of
  quantity-read =
      get-put_all_at (small_fields m) (take 8 (words m))
        (record { at = 72; value = m.quantity; width = 4 }) (drop 9 (words m)) refl
        (omega (arith, fits.quantity_fits)) (omega (arith, fits.quantity_fits))

  remaining-read : get (frame_of m) 76 4 ≡ m.remaining
  unfolding frame_of
  remaining-read =
      get-put_all_at (small_fields m) (take 9 (words m))
        (record { at = 76; value = m.remaining; width = 4 }) (drop 10 (words m)) refl
        (omega (arith, fits.remaining_fits)) (omega (arith, fits.remaining_fits))

  trade_id-read : get (frame_of m) 80 8 ≡ m.trade_id
  unfolding frame_of
  trade_id-read =
      get-put_all_at (small_fields m) (take 10 (words m))
        (record { at = 80; value = m.trade_id; width = 8 }) (drop 11 (words m)) refl
        (omega (arith, fits.trade_id_fits)) (omega (arith, fits.trade_id_fits))

  bytes :
      (frame_of m 5 ≡ kind_byte m.kind)
      × ((frame_of m 6 ≡ action_byte m.action)
          × ((frame_of m 7 ≡ side_bit m.side)
              × ((frame_of m 8 ≡ order_type_byte m.order_type)
                  × ((frame_of m 9 ≡ tif_byte m.tif)
                      × ((frame_of m 10 ≡ report_byte m.report)
                          × ((frame_of m 11 ≡ reject_byte m.reject)
                              × ((frame_of m 12 ≡ bool_byte m.post_only)
                                  × (frame_of m 13 ≡ update_byte m.update))))))))
  unfolding frame_of small_fields put
  bytes = (refl, (refl, (refl, (refl, (refl, (refl, (refl, (refl, refl))))))))

  frame_is_valid : valid_frame (frame_of m) ≡ true
  unfolding valid_frame frame_of small_fields put get
  frame_is_valid =
      rw
        (
          kind_range m.kind,
          action_range m.action,
          (side_of_bit m.side fits.known).0,
          order_type_range m.order_type,
          tif_range m.tif,
          report_range m.report,
          reject_range m.reject,
          (flag_range m.post_only).0,
          update_range m.update,
        )
        refl

  message_read : message_of (frame_of m) ≡ m
  unfolding message_of
  message_read =
      rw
        (
          bytes.0,
          bytes.1.0,
          bytes.1.1.0,
          bytes.1.1.1.0,
          bytes.1.1.1.1.0,
          bytes.1.1.1.1.1.0,
          bytes.1.1.1.1.1.1.0,
          bytes.1.1.1.1.1.1.1.0,
          bytes.1.1.1.1.1.1.1.1,
          kind_of-byte m.kind,
          action_of-byte m.action,
          (side_of_bit m.side fits.known).1,
          order_type_of-byte m.order_type,
          tif_of-byte m.tif,
          report_of-byte m.report,
          reject_of-byte m.reject,
          (flag_range m.post_only).1,
          update_of-byte m.update,
          epoch-read,
          sequence-read,
          client_id-read,
          price-read,
          request_id-read,
          order_id-read,
          exchange_id-read,
          instrument_id-read,
          quantity-read,
          remaining-read,
          trade_id-read,
        )
        refl

  pub decode-frame_of : decode (frame_of m) ≡ some m
  unfolding decode
  decode-frame_of = rw (frame_is_valid, message_read) refl

-- Every message whose side is known and whose numbers fit their words comes back as it was.
pub message_round_trip : (m : Message) → MessageFits m → RoundTrips encode decode m
unfolding encode
message_round_trip m fits =
    (frame_of m, (rw (decode-frame_of m fits, fits.known) refl, decode-frame_of m fits))
