-- ===== src/Net/Frames.antt =====
-- Big-endian words in a frame: `put` and `get` of src/net/protocol.cpp. A frame, which the code
-- keeps in a `std::array` of bytes, is a function from the offset.
use limit_order_book.Base.{
  ℕ, zero, suc, ◌+◌, ◌*◌, ◌/◌, ◌%◌, ◌^◌, ◌≤◌, ◌<◌, Bool, true, ◌||◌, ◌≡◌, refl, ◌∙◌, arith, leb,
  ◌==◌, nat_eq, if◌then◌else◌,
}
use native.Mathlib.Omega.{pow_step}
use limit_order_book.Types.{u64_mod}

abbrev pub Frame : Type 0
Frame = ℕ → ℕ

abbrev pub zeros : Frame
zeros i = 0

abbrev pub set : Frame → ℕ → ℕ → Frame
set f i b j = if j == i then b else f j

-- The loop from the last byte to the first.
unfoldable pub put : Frame → ℕ → ℕ → ℕ → Frame
put f at value zero = f
put f at value (suc w) = put (set f (at + w) (value % 256)) at (value / 256) w

-- The value after `w` rounds of the loop.
unfoldable pub get : Frame → ℕ → ℕ → ℕ
get f at zero = 0
get f at (suc w) = (get f at w * 256) % u64_mod + f (at + w)

-- The bytes from `at` on, `w` of them, lie before or behind those from `to` on, `v` of them.
abbrev pub apart : ℕ → ℕ → ℕ → ℕ → Bool
apart at w to v = leb (at + w) to || leb (to + v) at

get-set : (f : Frame) (i b at w : ℕ) → apart at w i 1 ≡ true → get (set f i b) at w ≡ get f at w
unfolding get
get-set f i b at zero h = refl
get-set f i b at (suc w) h = rw (get-set f i b at w (ground arith)) (ground arith)

get-put-apart :
    (f : Frame) (to value v at w : ℕ)
    → apart at w to v ≡ true
    → get (put f to value v) at w ≡ get f at w
unfolding put
get-put-apart f to value zero at w h = refl
get-put-apart f to value (suc v) at w h =
    get-put-apart (set f (to + v) (value % 256)) to (value / 256) v at w (ground arith)
    ∙ get-set f (to + v) (value % 256) at w (ground arith)

pub put_beyond : (f : Frame) (at value w i : ℕ) → at + w ≤ i → put f at value w i ≡ f i
unfolding put
put_beyond f at value zero i h = refl
put_beyond f at value (suc w) i h =
    put_beyond (set f (at + w) (value % 256)) at (value / 256) w i (omega arith) ∙ ground arith

-- A word that fits its bytes is read back as it was written.
pub get-put :
    (f : Frame) (at value w : ℕ)
    → value < 256 ^ w
    → value < u64_mod
    → get (put f at value w) at w ≡ value
unfolding put get
get-put f at value zero h k = omega (arith, h)
get-put f at value (suc w) h k =
    let inner = set f (at + w) (value % 256) in
    let fits : value / 256 < 256 ^ w = omega (arith, h, pow_step 256 w) in
    rw
      (
        get-put inner at (value / 256) w fits (omega (arith, k)),
        put_beyond inner at (value / 256) w (at + w) (omega arith),
      )
      (ground (arith, k))

-- The reads of one field through the writes of the others.
module _ (f : Frame) (at w x : ℕ) where
  pub past_set : (i b : ℕ) → apart at w i 1 ≡ true → get f at w ≡ x → get (set f i b) at w ≡ x
  past_set i b h k = get-set f i b at w h ∙ k

  pub past_put :
      (to value v : ℕ) → apart at w to v ≡ true → get f at w ≡ x → get (put f to value v) at w ≡ x
  past_put to value v h k = get-put-apart f to value v at w h ∙ k
