-- ===== src/Trading/Codec/Words.antt =====
-- Words written one after the other are read back, if they fit and do not overlap.
use limit_order_book.Base.{
  both_true, ℕ, ◌<◌, ◌^◌, Bool, true, ◌&&◌, List, [], ◌∷◌, ◌++◌, ◌≡◌, refl, ◌∙◌,
}
use limit_order_book.Types.{u64_mod}
use limit_order_book.Net.Frames.{Frame, put, get, get-put, past_put, apart}
use limit_order_book.Trading.Codec.{Word, put_all}

abbrev pub all_apart : ℕ → ℕ → List Word → Bool
all_apart at width [] = true
all_apart at width (w ∷ ws) = apart at width w.at w.width && all_apart at width ws

pub get-put_all :
    (f : Frame) (at width : ℕ) (ws : List Word)
    → all_apart at width ws ≡ true
    → get (put_all f ws) at width ≡ get f at width
get-put_all f at width [] h = refl
get-put_all f at width (w ∷ ws) h =
    let b = both_true (apart at width w.at w.width) (all_apart at width ws) h in
    get-put_all (put f w.at w.value w.width) at width ws b.1
    ∙ past_put f at width (get f at width) w.at w.value w.width b.0 refl

-- A word among others, which the later ones do not touch.
pub get-put_all_at :
    (f : Frame) (ws : List Word) (w : Word) (later : List Word)
    → all_apart w.at w.width later ≡ true
    → w.value < 256 ^ w.width
    → w.value < u64_mod
    → get (put_all f (ws ++ w ∷ later)) w.at w.width ≡ w.value
get-put_all_at f [] w later h fits fits' =
    get-put_all (put f w.at w.value w.width) w.at w.width later h
    ∙ get-put f w.at w.value w.width fits fits'
get-put_all_at f (x ∷ xs) w later h fits fits' =
    get-put_all_at (put f x.at x.value x.width) xs w later h fits fits'
