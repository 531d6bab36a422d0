-- ===== src/Net/RoundTrip.antt =====
-- What the codec of acknowledgements writes, it reads back.
use limit_order_book.Base.{
  ℕ, ◌<◌, true, false, Option, some, ◌≡◌, refl, ap, leb, get_elem?, arith, nat_eq,
}
use limit_order_book.Types.{ApplyResult, u64_mod}
use limit_order_book.Net.Frames.{Frame, set, put, get, get-put, past_set}
use limit_order_book.Net.Protocol.{
  valid_header, header, encode_received_ack, decode_received_ack, results, index_from, with_result,
  encode_apply_ack, decode_apply_ack,
}

received_header : (sequence : ℕ) → valid_header (encode_received_ack sequence) ≡ true
unfolding valid_header encode_received_ack put get
received_header sequence = refl

-- A received acknowledgement is decoded to the sequence that it was made of.
pub decode_received_ack-encode :
    (sequence : ℕ)
    → sequence < u64_mod
    → decode_received_ack (encode_received_ack sequence) ≡ some sequence
unfolding encode_received_ack decode_received_ack put
decode_received_ack-encode sequence fits =
    rw
      (
        received_header sequence,
        get-put (set header 5 128) 8 sequence 8 (omega (arith, fits)) (omega (arith, fits)),
      )
      refl

apply_frame : ℕ → ℕ → Frame
apply_frame sequence i = set (set (encode_received_ack sequence) 5 129) 6 i

apply_header : (sequence i : ℕ) → valid_header (apply_frame sequence i) ≡ true
unfolding apply_frame valid_header encode_received_ack put get
apply_header sequence i = refl

decode_apply_frame :
    (sequence i : ℕ) (r : ApplyResult)
    → sequence < u64_mod
    → leb 10 i ≡ false
    → get_elem? results i ≡ some r
    → decode_apply_ack (apply_frame sequence i) ≡ some (record { sequence = sequence; result = r })
unfolding decode_apply_ack apply_frame encode_received_ack put
decode_apply_frame sequence i r fits low at =
    rw
      (
        apply_header sequence i,
        past_set _ 8 8 sequence 6 i refl (
            past_set _ 8 8 sequence 5 129 refl (
              get-put (set header 5 128) 8 sequence 8 (omega (arith, fits)) (omega (arith, fits)))),
        low,
        at,
      )
      refl

-- An encoder and its decoder agree on a value.
abbrev pub RoundTrips {ℓ} : {A : Type ℓ} → (A → Option Frame) → (Frame → Option A) → A → Type ℓ
RoundTrips encode decode a = (frame : Frame) × ((encode a ≡ some frame) × (decode frame ≡ some a))

apply_ack_at :
    (sequence i : ℕ) (r : ApplyResult)
    → sequence < u64_mod
    → index_from results r 0 ≡ some i
    → leb 10 i ≡ false
    → get_elem? results i ≡ some r
    → RoundTrips encode_apply_ack decode_apply_ack (record { sequence = sequence; result = r })
unfolding encode_apply_ack apply_frame
apply_ack_at sequence i r fits from low at = (
  apply_frame sequence i,
  (
    ap (with_result (set (encode_received_ack sequence) 5 129)) from,
    decode_apply_frame sequence i r fits low at,
  ),
)

-- The result of every acknowledgement comes back, and its sequence.
pub apply_ack_round_trip :
    (sequence : ℕ) (r : ApplyResult)
    → sequence < u64_mod
    → RoundTrips encode_apply_ack decode_apply_ack (record { sequence = sequence; result = r })
apply_ack_round_trip sequence ApplyResult.ok fits =
    apply_ack_at sequence 0 ApplyResult.ok fits refl refl refl
apply_ack_round_trip sequence ApplyResult.duplicate_order fits =
    apply_ack_at sequence 1 ApplyResult.duplicate_order fits refl refl refl
apply_ack_round_trip sequence ApplyResult.unknown_order fits =
    apply_ack_at sequence 2 ApplyResult.unknown_order fits refl refl refl
apply_ack_round_trip sequence ApplyResult.invalid_price fits =
    apply_ack_at sequence 3 ApplyResult.invalid_price fits refl refl refl
apply_ack_round_trip sequence ApplyResult.invalid_quantity fits =
    apply_ack_at sequence 4 ApplyResult.invalid_quantity fits refl refl refl
apply_ack_round_trip sequence ApplyResult.unknown_instrument fits =
    apply_ack_at sequence 5 ApplyResult.unknown_instrument fits refl refl refl
apply_ack_round_trip sequence ApplyResult.quantity_exceeds_remaining fits =
    apply_ack_at sequence 6 ApplyResult.quantity_exceeds_remaining fits refl refl refl
apply_ack_round_trip sequence ApplyResult.parse_error fits =
    apply_ack_at sequence 7 ApplyResult.parse_error fits refl refl refl
apply_ack_round_trip sequence ApplyResult.not_implemented fits =
    apply_ack_at sequence 8 ApplyResult.not_implemented fits refl refl refl
apply_ack_round_trip sequence ApplyResult.allocation_failed fits =
    apply_ack_at sequence 9 ApplyResult.allocation_failed fits refl refl refl
