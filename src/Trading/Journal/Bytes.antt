-- ===== src/Trading/Journal/Bytes.antt =====
-- The bytes of the records of src/trading/journal.cpp: what is written is what is read.
use limit_order_book.Base.{
  both_true, ℕ, zero, suc, ◌+◌, ◌*◌, ◌%◌, ◌≤◌, ◌<◌, Bool, true, false, ◌&&◌, List, [], ◌∷◌, ◌++◌,
  length, take, drop, ltb, leb, ◌==◌, nat_eq, ◌≡◌, refl, sym, ◌∙◌, ap, arith, fun_ext,
  length-append,
}
use Prim.Native.Nat.{bit_xor}
use limit_order_book.Types.{u32_mod}
use limit_order_book.Net.Frames.{Frame, put, put_beyond, zeros}
use limit_order_book.Trading.Messages.{Message}
use limit_order_book.Trading.Codec.{Word, put_all, words, small_fields, frame_of, frame_magic}
use limit_order_book.Trading.Journal.{
  frame_size, bytes_from, frame_from, checksum_from, checksum, big_endian, word_from, got, read_all,
}

take-append {ℓ} : {A : Type ℓ} (xs ys : List A) → take (length xs) (xs ++ ys) ≡ xs
take-append [] ys = refl
take-append (x ∷ xs) ys = ap (λ l. x ∷ l) (take-append xs ys)

drop-append {ℓ} : {A : Type ℓ} (xs ys : List A) → drop (length xs) (xs ++ ys) ≡ ys
drop-append [] ys = refl
drop-append (x ∷ xs) ys = drop-append xs ys

-- A read of as many bytes as were written gets them.
pub read_all-append :
    (size : ℕ) (xs ys : List ℕ) → length xs ≡ size → 0 < size → read_all size (xs ++ ys) ≡ got xs ys
unfolding read_all
read_all-append size xs ys same pos =
    let some_left : length (xs ++ ys) == 0 ≡ false =
      ground (arith, length-append xs ys, same, pos) in
    let enough : ltb (length (xs ++ ys)) size ≡ false = ground (arith, length-append xs ys, same) in
    rw (some_left, enough, sym same)
      (ap (λ t. got t (drop (length xs) (xs ++ ys))) (take-append xs ys)
        ∙ ap (got xs) (drop-append xs ys))

pub length-bytes_from : (f : Frame) (at n : ℕ) → length (bytes_from f at n) ≡ n
length-bytes_from f at zero = refl
length-bytes_from f at (suc n) = ap suc (length-bytes_from f (at + 1) n)

pub length-big_endian : (w value : ℕ) → length (big_endian w value) ≡ w
length-big_endian zero value = refl
length-big_endian (suc w) value = ap suc (length-big_endian w value)

pub word_from-big_endian : (value : ℕ) → value < u32_mod → word_from (big_endian 4 value) 0 ≡ value
word_from-big_endian value small = omega (arith, small)

frame_from-bytes_from :
    (f : Frame) (n at i : ℕ)
    → ((j : ℕ) → at + n ≤ j → f j ≡ 0)
    → frame_from (bytes_from f at n) i ≡ f (at + i)
frame_from-bytes_from f zero at i beyond = sym (beyond (at + i) (omega arith))
frame_from-bytes_from f (suc n) at zero beyond = ap f (omega arith)
frame_from-bytes_from f (suc n) at (suc i) beyond =
    frame_from-bytes_from f n (at + 1) i (λ j h. beyond j (omega (arith, h))) ∙ ap f (omega arith)

all_before : List Word → ℕ → Bool
all_before [] i = true
all_before (w ∷ ws) i = leb (w.at + w.width) i && all_before ws i

put_all-beyond :
    (f : Frame) (ws : List Word) (i : ℕ) → all_before ws i ≡ true → put_all f ws i ≡ f i
unfolding all_before
put_all-beyond f [] i h = refl
put_all-beyond f (w ∷ ws) i h =
    let b = both_true (leb (w.at + w.width) i) (all_before ws i) h in
    put_all-beyond (put f w.at w.value w.width) ws i b.1
    ∙ put_beyond f w.at w.value w.width i (ground (arith, b.0))

small_fields-beyond : (m : Message) (i : ℕ) → frame_size ≤ i → small_fields m i ≡ 0
unfolding small_fields
small_fields-beyond m i h =
    let past : (k : ℕ) → k < 96 → i == k ≡ false = λ k small. ground (arith, h, small) in
    rw
      (
        past 13 (omega arith),
        past 12 (omega arith),
        past 11 (omega arith),
        past 10 (omega arith),
        past 9 (omega arith),
        past 8 (omega arith),
        past 7 (omega arith),
        past 6 (omega arith),
        past 5 (omega arith),
        past 4 (omega arith),
      )
      (put_beyond zeros 0 frame_magic 4 i (omega (arith, h)))

frame_of-beyond : (m : Message) (i : ℕ) → frame_size ≤ i → frame_of m i ≡ 0
unfolding frame_of all_before
frame_of-beyond m i h =
    put_all-beyond (small_fields m) (words m) i (ground (arith, h)) ∙ small_fields-beyond m i h

-- The bytes of a message's frame are the whole frame.
pub frame_from-frame_of :
    (m : Message) → frame_from (bytes_from (frame_of m) 0 frame_size) ≡ frame_of m
frame_from-frame_of m = fun_ext λ i.
    frame_from-bytes_from (frame_of m) frame_size 0 i (λ j h. frame_of-beyond m j h)
    ∙ ap (frame_of m) (omega arith)

checksum_from-lt : (bytes : List ℕ) (hash : ℕ) → hash < u32_mod → checksum_from bytes hash < u32_mod
unfolding checksum_from
checksum_from-lt [] hash h = h
checksum_from-lt (b ∷ bs) hash h =
    checksum_from-lt bs ((bit_xor hash b * 16777619) % u32_mod) (omega arith)

pub checksum-lt : (bytes : List ℕ) → checksum bytes < u32_mod
unfolding checksum
checksum-lt bytes = checksum_from-lt bytes 2166136261 (omega arith)
