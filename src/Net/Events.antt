-- ===== src/Net/Events.antt =====
-- What the codec of events writes, it reads back.
use limit_order_book.Base.{
  ℕ, ◌<◌, not, ◌&&◌, true, false, some, ◌≡◌, refl, arith, ◌==◌, nat_eq, if◌then◌else◌,
}
use limit_order_book.Types.{
  side_eq, Side, bid, ask, other, is_known, AddOrder, CancelOrder, ExecuteOrder, EventPayload,
  MarketEvent, u32_mod, u64_mod,
}
use limit_order_book.Net.Frames.{Frame, set, put, get, get-put, past_set, past_put}
use limit_order_book.Net.Protocol.{valid_header, header, side_code, encode_event, decode_event}
use limit_order_book.Net.RoundTrip.{RoundTrips}

-- The fields of an event fit their words.
abbrev pub PayloadFits : EventPayload → Type 0
PayloadFits (EventPayload.add_order a) =
    (is_known a.side ≡ true)
    × ((a.order_id < u64_mod) × ((a.price < u32_mod) × (a.quantity < u32_mod)))
PayloadFits (EventPayload.cancel_order c) = c.order_id < u64_mod
PayloadFits (EventPayload.execute_order x) = (x.order_id < u64_mod) × (x.quantity < u32_mod)

pub record EventFits (e : MarketEvent) : Type 0 where
  pub sequence_fits : e.sequence < u64_mod
  pub instrument_fits : e.instrument_id < u64_mod
  pub payload_fits : PayloadFits e.payload

-- The byte of a side, and the side of that byte.
side_byte :
    (s : Side)
    → is_known s ≡ true
    → ((not (side_code s == 1) && not (side_code s == 2)) ≡ false)
      × ((if (side_code s == 1) then bid else ask) ≡ s)
side_byte bid h = (refl, refl)
side_byte ask h = (refl, refl)
side_byte other h = cc

module _ (sequence instrument : ℕ) (fits : sequence < u64_mod) (fits' : instrument < u64_mod) where
  start : Frame
  start = put (put header 8 sequence 8) 16 instrument 8

  add_frame : AddOrder → ℕ → Frame
  add_frame a side =
      put (put (put (set (set start 5 1) 6 side) 24 a.order_id 8) 32 a.price 4) 36 a.quantity 4

  add_header : (a : AddOrder) (side : ℕ) → valid_header (add_frame a side) ≡ true
  unfolding start add_frame valid_header put get
  add_header a side = refl

  add_kind : (a : AddOrder) (side : ℕ) → (add_frame a side 5 ≡ 1) × (add_frame a side 6 ≡ side)
  unfolding start add_frame put
  add_kind a side = (refl, refl)

  module _ (a : AddOrder) (side : ℕ) (p : PayloadFits (EventPayload.add_order a)) where
    add_quantity : get (add_frame a side) 36 4 ≡ a.quantity
    unfolding add_frame
    add_quantity = get-put _ 36 a.quantity 4 (omega (arith, p.1.1.1)) (omega (arith, p.1.1.1))

    add_price : get (add_frame a side) 32 4 ≡ a.price
    unfolding add_frame
    add_price =
        past_put _ 32 4 a.price 36 a.quantity 4 refl
          (get-put _ 32 a.price 4 (omega (arith, p.1.1.0)) (omega (arith, p.1.1.0)))

    add_order_id : get (add_frame a side) 24 8 ≡ a.order_id
    unfolding add_frame
    add_order_id = past_put _ 24 8 a.order_id 36 a.quantity 4 refl (
        past_put _ 24 8 a.order_id 32 a.price 4 refl
          (get-put _ 24 a.order_id 8 (omega (arith, p.1.0)) (omega (arith, p.1.0))))

    add_instrument : get (add_frame a side) 16 8 ≡ instrument
    unfolding add_frame start
    add_instrument = past_put _ 16 8 instrument 36 a.quantity 4 refl (
        past_put _ 16 8 instrument 32 a.price 4 refl (
          past_put _ 16 8 instrument 24 a.order_id 8 refl (
            past_set _ 16 8 instrument 6 side refl (
              past_set _ 16 8 instrument 5 1 refl
                (get-put _ 16 instrument 8 (omega (arith, fits')) (omega (arith, fits')))))))

    add_sequence : get (add_frame a side) 8 8 ≡ sequence
    unfolding add_frame start
    add_sequence = past_put _ 8 8 sequence 36 a.quantity 4 refl (
        past_put _ 8 8 sequence 32 a.price 4 refl (
          past_put _ 8 8 sequence 24 a.order_id 8 refl (
            past_set _ 8 8 sequence 6 side refl (
              past_set _ 8 8 sequence 5 1 refl (
                past_put _ 8 8 sequence 16 instrument 8 refl
                  (get-put _ 8 sequence 8 (omega (arith, fits)) (omega (arith, fits))))))))

  cancel_frame : CancelOrder → Frame
  cancel_frame c = put (set start 5 2) 24 c.order_id 8

  cancel_header : (c : CancelOrder) → valid_header (cancel_frame c) ≡ true
  unfolding start cancel_frame valid_header put get
  cancel_header c = refl

  cancel_fixed :
      (c : CancelOrder)
      → (cancel_frame c 5 ≡ 2)
        × ((cancel_frame c 6 ≡ 0)
            × ((get (cancel_frame c) 32 4 ≡ 0) × (get (cancel_frame c) 36 4 ≡ 0)))
  unfolding start cancel_frame put get
  cancel_fixed c = (refl, (refl, (refl, refl)))

  cancel_words :
      (c : CancelOrder)
      → c.order_id < u64_mod
      → (get (cancel_frame c) 24 8 ≡ c.order_id)
        × ((get (cancel_frame c) 16 8 ≡ instrument) × (get (cancel_frame c) 8 8 ≡ sequence))
  unfolding start cancel_frame
  cancel_words c p = (
    get-put _ 24 c.order_id 8 (omega (arith, p)) (omega (arith, p)),
    (
      past_put _ 16 8 instrument 24 c.order_id 8 refl (
          past_set _ 16 8 instrument 5 2 refl
            (get-put _ 16 instrument 8 (omega (arith, fits')) (omega (arith, fits')))),
      past_put _ 8 8 sequence 24 c.order_id 8 refl (
          past_set _ 8 8 sequence 5 2 refl (
            past_put _ 8 8 sequence 16 instrument 8 refl
              (get-put _ 8 sequence 8 (omega (arith, fits)) (omega (arith, fits))))),
    ),
  )

  execute_frame : ExecuteOrder → Frame
  execute_frame x = put (put (set start 5 3) 24 x.order_id 8) 36 x.quantity 4

  execute_header : (x : ExecuteOrder) → valid_header (execute_frame x) ≡ true
  unfolding start execute_frame valid_header put get
  execute_header x = refl

  execute_fixed :
      (x : ExecuteOrder)
      → (execute_frame x 5 ≡ 3) × ((execute_frame x 6 ≡ 0) × (get (execute_frame x) 32 4 ≡ 0))
  unfolding start execute_frame put get
  execute_fixed x = (refl, (refl, refl))

  execute_words :
      (x : ExecuteOrder)
      → PayloadFits (EventPayload.execute_order x)
      → ((get (execute_frame x) 24 8 ≡ x.order_id) × (get (execute_frame x) 36 4 ≡ x.quantity))
        × ((get (execute_frame x) 16 8 ≡ instrument) × (get (execute_frame x) 8 8 ≡ sequence))
  unfolding start execute_frame
  execute_words x p = (
    (
      past_put _ 24 8 x.order_id 36 x.quantity 4 refl
          (get-put _ 24 x.order_id 8 (omega (arith, p.0)) (omega (arith, p.0))),
      get-put _ 36 x.quantity 4 (omega (arith, p.1)) (omega (arith, p.1)),
    ),
    (
      past_put _ 16 8 instrument 36 x.quantity 4 refl (
          past_put _ 16 8 instrument 24 x.order_id 8 refl (
            past_set _ 16 8 instrument 5 3 refl
              (get-put _ 16 instrument 8 (omega (arith, fits')) (omega (arith, fits'))))),
      past_put _ 8 8 sequence 36 x.quantity 4 refl (
          past_put _ 8 8 sequence 24 x.order_id 8 refl (
            past_set _ 8 8 sequence 5 3 refl (
              past_put _ 8 8 sequence 16 instrument 8 refl
                (get-put _ 8 sequence 8 (omega (arith, fits)) (omega (arith, fits)))))),
    ),
  )

  abbrev event : EventPayload → MarketEvent
  event payload = record { sequence = sequence; instrument_id = instrument; payload = payload }

  decode_add_frame :
      (a : AddOrder) (side : ℕ)
      → PayloadFits (EventPayload.add_order a)
      → (not (side == 1) && not (side == 2)) ≡ false
      → (if side == 1 then bid else ask) ≡ a.side
      → decode_event (add_frame a side) ≡ some (event (EventPayload.add_order a))
  unfolding decode_event
  decode_add_frame a side p h k =
      rw
        (
          add_header a side,
          (add_kind a side).0,
          (add_kind a side).1,
          add_quantity a side p,
          add_price a side p,
          add_order_id a side p,
          h,
          k,
          add_instrument a side p,
          add_sequence a side p,
        )
        refl

  decode_cancel_frame :
      (c : CancelOrder)
      → c.order_id < u64_mod
      → decode_event (cancel_frame c) ≡ some (event (EventPayload.cancel_order c))
  unfolding decode_event
  decode_cancel_frame c p =
      let fixed = cancel_fixed c in
      let words = cancel_words c p in
      rw
        (
          cancel_header c,
          fixed.0,
          fixed.1.0,
          fixed.1.1.0,
          fixed.1.1.1,
          words.0,
          words.1.0,
          words.1.1,
        )
        refl

  decode_execute_frame :
      (x : ExecuteOrder)
      → PayloadFits (EventPayload.execute_order x)
      → decode_event (execute_frame x) ≡ some (event (EventPayload.execute_order x))
  unfolding decode_event
  decode_execute_frame x p =
      let fixed = execute_fixed x in
      let words = execute_words x p in
      rw
        (
          execute_header x,
          fixed.0,
          fixed.1.0,
          fixed.1.1,
          words.0.0,
          words.0.1,
          words.1.0,
          words.1.1,
        )
        refl

  add_round_trip :
      (a : AddOrder)
      → PayloadFits (EventPayload.add_order a)
      → RoundTrips encode_event decode_event (event (EventPayload.add_order a))
  unfolding encode_event add_frame start
  add_round_trip a p = (
    add_frame a (side_code a.side),
    (
      rw p.0 refl,
      decode_add_frame a (side_code a.side) p (side_byte a.side p.0).0 (side_byte a.side p.0).1,
    ),
  )

  event_round_trip_of :
      (payload : EventPayload)
      → PayloadFits payload
      → RoundTrips encode_event decode_event (event payload)
  unfolding encode_event cancel_frame execute_frame start
  event_round_trip_of (EventPayload.add_order a) p = add_round_trip a p
  event_round_trip_of (EventPayload.cancel_order c) p =
      (cancel_frame c, (refl, decode_cancel_frame c p))
  event_round_trip_of (EventPayload.execute_order x) p =
      (execute_frame x, (refl, decode_execute_frame x p))

-- Every event whose fields fit their words, and whose side is known, comes back as it was.
pub event_round_trip : (e : MarketEvent) → EventFits e → RoundTrips encode_event decode_event e
event_round_trip e fits =
    event_round_trip_of e.sequence e.instrument_id fits.sequence_fits fits.instrument_fits e.payload
      fits.payload_fits
