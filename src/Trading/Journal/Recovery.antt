-- ===== src/Trading/Journal/Recovery.antt =====
-- What src/trading/journal.cpp recovers from the file that it wrote, and from other files.
use limit_order_book.Base.{
  ℕ, zero, suc, ◌≤◌, ◌<◌, true, Option, some, List, [], ◌∷◌, ◌++◌, append_assoc, append-nil, length,
  ◌==◌, nat_eq, ◌≡◌, refl, sym, ◌∙◌, ap, arith, length-append, nat_beq_iff,
}
use limit_order_book.Types.{side_eq}
use limit_order_book.Feed.Keys.{text_eq, text_beq_iff}
use limit_order_book.Trading.Messages.{Message}
use limit_order_book.Trading.Codec.{frame_of, decode, encode}
use limit_order_book.Trading.Codec.RoundTrip.{MessageFits, decode-frame_of}
use limit_order_book.Trading.Engine.State.{◌>>=◌}
use limit_order_book.Trading.Journal.{
  frame_size, bytes_from, frame_from, checksum, big_endian, word_from, got, read_all, header,
  is_command, is_journaled, record_of, recover_records, open_journal, appended, append,
}
use limit_order_book.Trading.Journal.Bytes.{
  read_all-append, length-bytes_from, length-big_endian, word_from-big_endian, frame_from-frame_of,
  checksum-lt,
}

-- A command that the host writes to the journal.
pub record IsJournaled (m : Message) : Type 0 where
  pub fits : MessageFits m
  pub a_command : is_command m.kind ≡ true
  pub an_action : is_journaled m.action ≡ true

abbrev pub AllJournaled : List Message → Type 0
AllJournaled [] = Unit
AllJournaled (m ∷ ms) = IsJournaled m × AllJournaled ms

-- The calls of `append` for a sequence of commands.
abbrev pub append_all : List ℕ → List Message → Option (List ℕ)
append_all file [] = some file
append_all file (m ∷ ms) = append file m >>= λ longer. append_all longer ms

records : List Message → List ℕ
records [] = []
records (m ∷ ms) = appended (frame_of m) ++ records ms

encode-frame_of : (m : Message) → MessageFits m → encode m ≡ some (frame_of m)
unfolding encode
encode-frame_of m fits = rw (decode-frame_of m fits, fits.known) refl

append_all-records :
    (file : List ℕ) (ms : List Message)
    → AllJournaled ms
    → append_all file ms ≡ some (file ++ records ms)
unfolding append records
append_all-records file [] h = ap some (sym (append-nil file))
append_all-records file (m ∷ ms) (h, hs) = rw (encode-frame_of m h.fits) (
    append_all-records (file ++ appended (frame_of m)) ms hs
    ∙ ap some (append_assoc file (appended (frame_of m)) (records ms)))

checked :
    (bytes crc : List ℕ) (m : Message)
    → decode (frame_from bytes) ≡ some m
    → word_from crc 0 ≡ checksum bytes
    → is_command m.kind ≡ true
    → is_journaled m.action ≡ true
    → record_of bytes crc ≡ some m
unfolding record_of
checked bytes crc m decoded same a_command an_action =
    rw (decoded, (nat_beq_iff (word_from crc 0) (checksum bytes)).1 same, a_command, an_action) refl

record_read :
    (m : Message)
    → IsJournaled m
    → record_of
        (bytes_from (frame_of m) 0 frame_size)
        (big_endian 4 (checksum (bytes_from (frame_of m) 0 frame_size)))
      ≡ some m
record_read m h =
    let bytes = bytes_from (frame_of m) 0 frame_size in
    checked bytes (big_endian 4 (checksum bytes)) m
      (ap decode (frame_from-frame_of m) ∙ decode-frame_of m h.fits)
      (word_from-big_endian (checksum bytes) (checksum-lt bytes)) h.a_command h.an_action

-- One round of the loop over a whole record.
round_read :
    (fuel : ℕ) (file bytes crc rest later : List ℕ) (m : Message)
    → read_all frame_size file ≡ got bytes rest
    → read_all 4 rest ≡ got crc later
    → record_of bytes crc ≡ some m
    → recover_records (suc fuel) file ≡ (recover_records fuel later >>= λ ms. some (m ∷ ms))
unfolding recover_records
round_read fuel file bytes crc rest later m first second read =
    rw (recover_records, first, second, read) refl

recover_round :
    (fuel : ℕ) (bytes crc later : List ℕ) (m : Message)
    → length bytes ≡ frame_size
    → length crc ≡ 4
    → record_of bytes crc ≡ some m
    → recover_records (suc fuel) ((bytes ++ crc) ++ later)
      ≡ (recover_records fuel later >>= λ ms. some (m ∷ ms))
recover_round fuel bytes crc later m whole whole_crc read =
    round_read fuel ((bytes ++ crc) ++ later) bytes crc (crc ++ later) later m
      (ap (read_all frame_size) (append_assoc bytes crc later)
        ∙ read_all-append frame_size bytes (crc ++ later) whole (omega arith))
      (read_all-append 4 crc later whole_crc (omega arith)) read

recover_end : (fuel : ℕ) → recover_records (suc fuel) [] ≡ some []
unfolding recover_records read_all
recover_end fuel = refl

recover-records :
    (fuel : ℕ) (ms : List Message)
    → AllJournaled ms
    → length ms < fuel
    → recover_records fuel (records ms) ≡ some ms
unfolding records
recover-records zero ms h few = absurd (omega (arith, few))
recover-records (suc fuel) [] h few = recover_end fuel
recover-records (suc fuel) (m ∷ ms) (h, hs) few =
    let bytes = bytes_from (frame_of m) 0 frame_size in
    recover_round fuel bytes (big_endian 4 (checksum bytes)) (records ms) m
      (length-bytes_from (frame_of m) 0 frame_size) (length-big_endian 4 (checksum bytes))
      (record_read m h)
    ∙ ap (λ o. o >>= λ ns. some (m ∷ ns)) (recover-records fuel ms hs (omega (arith, few)))

length-records : (ms : List Message) → length ms ≤ length (records ms)
unfolding records
length-records [] = omega arith
length-records (m ∷ ms) =
    let bytes = bytes_from (frame_of m) 0 frame_size in
    omega (
      arith,
      length-records ms,
      length-append (appended (frame_of m)) (records ms),
      length-append bytes (big_endian 4 (checksum bytes)),
      length-bytes_from (frame_of m) 0 frame_size,
    )

opened :
    (config_hash : ℕ) (file found rest : List ℕ) (ms : List Message)
    → read_all 16 file ≡ got found rest
    → found == header config_hash ≡ true
    → recover_records (suc (length rest)) rest ≡ some ms
    → open_journal config_hash file ≡ some (ms, file)
unfolding open_journal
opened config_hash file found rest ms read same recovered =
    rw (open_journal, read, same, recovered) refl

pub first_opened : (config_hash : ℕ) → open_journal config_hash [] ≡ some ([], header config_hash)
unfolding open_journal read_all
first_opened config_hash = refl

-- A journal that is opened for the first time, and to which commands are appended, recovers exactly
-- those commands in their order when it is opened again with the same configuration, if each is a
-- command of an order whose numbers fit.
pub journal_round_trip :
    (config_hash : ℕ) (ms : List Message)
    → AllJournaled ms
    → (open_journal config_hash [] ≡ some ([], header config_hash))
      × (file : List ℕ) × (append_all (header config_hash) ms ≡ some file)
      × (open_journal config_hash file ≡ some (ms, file))
journal_round_trip config_hash ms h = (
  first_opened config_hash,
  header config_hash ++ records ms,
  append_all-records (header config_hash) ms h,
  opened config_hash (header config_hash ++ records ms) (header config_hash) (records ms) ms
      (read_all-append 16 (header config_hash) (records ms) refl (omega arith))
      ((text_beq_iff (header config_hash) (header config_hash)).1 refl)
      (recover-records (suc (length (records ms))) ms h (omega (arith, length-records ms))),
)
