-- ===== src/Trading/Journal.antt =====
-- The journal of src/trading/journal.cpp. A file is the list of its bytes; `none` is an exception.
-- Locks, calls of the system that fail and the order in which a disk keeps bytes are not modelled.
pub mod Bytes
pub mod Recovery
pub mod Whole
mod Tests
use limit_order_book.Base.{
  ℕ, zero, suc, ◌+◌, ◌*◌, ◌/◌, ◌%◌, ◌^◌, Bool, true, false, not, ◌&&◌, ◌||◌, Option, none, some,
  List, [], ◌∷◌, ◌++◌, length, take, drop, get_elem?, ltb, ◌==◌, nat_eq, if◌then◌else◌,
}
use Prim.Native.Nat.{bit_xor}
use limit_order_book.Types.{u32_mod}
use limit_order_book.Feed.Keys.{text_eq}
use limit_order_book.Net.Frames.{Frame}
use limit_order_book.Trading.Messages.{Message, Kind, Action}
use limit_order_book.Trading.Codec.{decode, encode}
use limit_order_book.Trading.Engine.State.{◌>>=◌}

abbrev pub frame_size : ℕ
frame_size = 96

-- The bytes of a frame from an offset, and a frame from its bytes.
abbrev pub bytes_from : Frame → ℕ → ℕ → List ℕ
bytes_from f at zero = []
bytes_from f at (suc n) = f at ∷ bytes_from f (at + 1) n

abbrev pub frame_from : List ℕ → Frame
frame_from [] i = 0
frame_from (b ∷ bs) zero = b
frame_from (b ∷ bs) (suc i) = frame_from bs i

-- The loop of `checksum` over the bytes.
unfoldable pub checksum_from : List ℕ → ℕ → ℕ
checksum_from [] hash = hash
checksum_from (b ∷ bs) hash = checksum_from bs ((bit_xor hash b * 16777619) % u32_mod)

unfoldable pub checksum : List ℕ → ℕ
unfolding checksum_from
checksum bytes = checksum_from bytes 2166136261

-- A number in `w` bytes, the highest first, and the number of such bytes.
abbrev pub big_endian : ℕ → ℕ → List ℕ
big_endian zero value = []
big_endian (suc w) value = value / 256 ^ w % 256 ∷ big_endian w value

abbrev pub word_from : List ℕ → ℕ → ℕ
word_from [] stored = stored
word_from (b ∷ bs) stored = word_from bs ((stored * 256) % u32_mod + b)

-- What `read_all` does: the end of the file, an exception, or the bytes and the rest of the file.
pub data Read : Type 0 where
  ended : Read
  torn : Read
  got : List ℕ → List ℕ → Read

unfoldable pub read_all : ℕ → List ℕ → Read
read_all size file =
    if length file == 0
    then ended
    else if ltb (length file) size
    then torn
    else got (take size file) (drop size file)

-- LJR1, the version and the hash of the configuration.
abbrev pub header : ℕ → List ℕ
header config_hash = 76 ∷ 74 ∷ 82 ∷ 49 ∷ 1 ∷ 0 ∷ 0 ∷ 0 ∷ big_endian 8 config_hash

-- Kinds and actions that a journal may hold.
abbrev pub is_command : Kind → Bool
is_command Kind.command = true
is_command _ = false

abbrev pub is_journaled : Action → Bool
is_journaled Action.status = false
is_journaled Action.snapshot = false
is_journaled _ = true

-- One record of the file.
unfoldable pub record_of : List ℕ → List ℕ → Option Message
unfolding checksum
record_of bytes crc = decode (frame_from bytes) >>= λ m.
    if (word_from crc 0 == checksum bytes) && (is_command m.kind && is_journaled m.action)
    then some m
    else none

-- The loop of the constructor, with the rounds it may take.
unfoldable pub recover_records : ℕ → List ℕ → Option (List Message)
unfolding read_all record_of
recover_records zero file = none
recover_records (suc fuel) file = elim (read_all frame_size file) [
  | ended ↦ some []
  | torn ↦ none
  | got bytes rest ↦ elim (read_all 4 rest) [
    | ended ↦ none
    | torn ↦ none
    | got crc later ↦
        (record_of bytes crc >>= λ m. recover_records fuel later >>= λ ms. some (m ∷ ms))
  ]
]

-- Journal::Journal: the commands that were found, and the file afterwards.
unfoldable pub open_journal : ℕ → List ℕ → Option (List Message × List ℕ)
unfolding read_all recover_records
open_journal config_hash file = elim (read_all 16 file) [
  | ended ↦ some ([], header config_hash)
  | torn ↦ none
  | got found rest ↦
      if not (found == header config_hash)
      then none
      else (recover_records (suc (length rest)) rest >>= λ ms. some (ms, file))
]

abbrev pub appended : Frame → List ℕ
appended f = bytes_from f 0 frame_size ++ big_endian 4 (checksum (bytes_from f 0 frame_size))

-- Journal::append
unfoldable pub append : List ℕ → Message → Option (List ℕ)
unfolding encode checksum
append file command = encode command >>= λ f. some (file ++ appended f)
