-- ===== src/Trading/Journal/Whole.antt =====
-- Which files src/trading/journal.cpp accepts.
use limit_order_book.Base.{
  ℕ, zero, suc, ◌+◌, ◌*◌, ◌≤◌, Bool, true, false, ◌&&◌, none, some, List, [], ◌∷◌, length, take,
  drop, ltb, ◌==◌, nat_eq, if◌then◌else◌, ◌≡◌, ◌≢◌, refl, sym, ◌∙◌, subst, arith, nat_beq_iff,
  Bool-cases, inl, inr, ◌⊎◌,
}
use limit_order_book.Feed.Keys.{text_eq, text_beq_iff}
use limit_order_book.Trading.Messages.{Message}
use limit_order_book.Trading.Codec.{decode}
use limit_order_book.Trading.Engine.Ensures.{Ensures, Ensures-bind, Ensures-elim}
use limit_order_book.Trading.Journal.{
  frame_size, frame_from, checksum, word_from, Read, ended, torn, got, read_all, header, is_command,
  is_journaled, record_of, recover_records, open_journal,
}

length-drop {ℓ} :
    {A : Type ℓ} (n : ℕ) (xs : List A) → n ≤ length xs → n + length (drop n xs) ≡ length xs
length-drop zero xs h = omega arith
length-drop (suc n) [] h = absurd (omega (arith, h))
length-drop (suc n) (x ∷ xs) h = omega (arith, length-drop n xs (omega (arith, h)))

-- What each result of a read says of the file.
abbrev ReadOf : ℕ → List ℕ → Read → Type 0
ReadOf size file ended = length file ≡ 0
ReadOf size file torn = Unit
ReadOf size file (got bytes rest) = size + length rest ≡ length file

read_all-ReadOf : (size : ℕ) (file : List ℕ) → ReadOf size file (read_all size file)
unfolding read_all
read_all-ReadOf size file = elim (Bool-cases (length file == 0)) [
  | inl nothing ↦ rw nothing ((nat_beq_iff (length file) 0).0 nothing)
  | inr something ↦ elim (Bool-cases (ltb (length file) size)) [
    | inl short ↦ rw (something, short) tt
    | inr enough ↦ rw (something, enough) (length-drop size file (ground (arith, enough)))
  ]
]

Read-cases :
    (r : Read)
    → (r ≡ ended) ⊎ ((r ≡ torn) ⊎ ((bytes : List ℕ) × (rest : List ℕ) × (r ≡ got bytes rest)))
Read-cases ended = inl refl
Read-cases torn = inr (inl refl)
Read-cases (got bytes rest) = inr (inr (bytes, rest, refl))

pub record Recorded (m : Message) : Type 0 where
  pub a_command : is_command m.kind ≡ true
  pub an_action : is_journaled m.action ≡ true

abbrev pub AllRecorded : List Message → Type 0
AllRecorded [] = Unit
AllRecorded (m ∷ ms) = Recorded m × AllRecorded ms

record_of-Recorded : (bytes crc : List ℕ) → Ensures Recorded (record_of bytes crc)
unfolding record_of
record_of-Recorded bytes crc =
    Ensures-bind Recorded (decode (frame_from bytes)) _
      λ m h. passes m (word_from crc 0 == checksum bytes)
  where
    passes :
        (m : Message) (same : Bool)
        → Ensures Recorded
            (if same && (is_command m.kind && is_journaled m.action) then some m else none)
    passes m false = tt
    passes m true = elim (Bool-cases (is_command m.kind)) [
      | inr other ↦ rw other tt
      | inl a_command ↦ elim (Bool-cases (is_journaled m.action)) [
        | inr other ↦ rw (a_command, other) tt
        | inl an_action ↦
            rw (a_command, an_action) (record { a_command = a_command; an_action = an_action })
      ]
    ]

-- A hundred bytes for each command.
pub record Whole (file : List ℕ) (ms : List Message) : Type 0 where
  pub sized : length file ≡ 100 * length ms
  pub recorded : AllRecorded ms

at_end : (file : List ℕ) → length file ≡ 0 → length file ≡ 100 * length {A = Message} []
at_end file h = omega (arith, h)

recover-Whole : (fuel : ℕ) (file : List ℕ) → Ensures (Whole file) (recover_records fuel file)
unfolding recover_records
recover-Whole zero file = tt
recover-Whole (suc fuel) file = elim (Read-cases (read_all frame_size file)) [
  | inl nothing ↦
      rw (recover_records, nothing)
        (record {
          sized =
              at_end file
                (subst (ReadOf frame_size file) nothing (read_all-ReadOf frame_size file));
          recorded = tt;
        })
  | inr (inl short) ↦ rw (recover_records, short) tt
  | inr (inr (bytes, rest, first)) ↦ elim (Read-cases (read_all 4 rest)) [
    | inl nothing ↦ rw (recover_records, first, nothing) tt
    | inr (inl short) ↦ rw (recover_records, first, short) tt
    | inr (inr (crc, later, second)) ↦
        rw (recover_records, first, second)
          (Ensures-bind (Whole file) (record_of bytes crc) _ λ m h.
            Ensures-bind (Whole file) (recover_records fuel later) _ λ ms k.
              let w = Ensures-elim (Whole later) _ ms (recover-Whole fuel later) k in
              record {
                sized = omega (
                  arith,
                  subst (ReadOf frame_size file) first (read_all-ReadOf frame_size file),
                  subst (ReadOf 4 rest) second (read_all-ReadOf 4 rest),
                  w.sized,
                );
                recorded = (Ensures-elim Recorded _ m (record_of-Recorded bytes crc) h, w.recorded);
              })
  ]
]

-- What a journal is after it was opened.
pub record Opened (config_hash : ℕ) (file : List ℕ) (r : List Message × List ℕ) : Type 0 where
  pub sized : length r.1 ≡ 16 + 100 * length r.0
  pub recorded : AllRecorded r.0
  pub configured : take 16 r.1 ≡ header config_hash
  pub kept : (length file ≡ 0) ⊎ (r.1 ≡ file)

got_bytes :
    (size : ℕ) (file bytes rest : List ℕ)
    → read_all size file ≡ got bytes rest
    → take size file ≡ bytes
unfolding read_all
got_bytes size file bytes rest h = elim (Bool-cases (length file == 0)) [
  | inl nothing ↦ absurd (ended≢got (sym (is_ended nothing) ∙ h))
  | inr something ↦ elim (Bool-cases (ltb (length file) size)) [
    | inl short ↦ absurd (torn≢got (sym (is_torn something short) ∙ h))
    | inr enough ↦ first_equal (sym (is_got something enough) ∙ h)
  ]
]
  where
    ended≢got : {b r : List ℕ} → ended ≢ got b r
    ended≢got e = cc

    torn≢got : {b r : List ℕ} → torn ≢ got b r
    torn≢got e = cc

    first_equal : {a b r t : List ℕ} → got a r ≡ got b t → a ≡ b
    first_equal e = cc

    is_ended : length file == 0 ≡ true → read_all size file ≡ ended
    is_ended n = rw n refl

    is_torn : length file == 0 ≡ false → ltb (length file) size ≡ true → read_all size file ≡ torn
    is_torn n k = rw (n, k) refl

    is_got :
        length file == 0 ≡ false
        → ltb (length file) size ≡ false
        → read_all size file ≡ got (take size file) (drop size file)
    is_got n k = rw (n, k) refl

open_journal-Ensures :
    (config_hash : ℕ) (file : List ℕ)
    → Ensures (Opened config_hash file) (open_journal config_hash file)
unfolding open_journal
open_journal-Ensures config_hash file = elim (Read-cases (read_all 16 file)) [
  | inl nothing ↦
      rw (open_journal, nothing)
        (record {
          sized = refl;
          recorded = tt;
          configured = refl;
          kept = inl (subst (ReadOf 16 file) nothing (read_all-ReadOf 16 file));
        })
  | inr (inl short) ↦ rw (open_journal, short) tt
  | inr (inr (found, rest, read)) ↦ elim (Bool-cases (found == header config_hash)) [
    | inr other ↦ rw (open_journal, read, other) tt
    | inl same ↦
        rw (open_journal, read, same)
          (Ensures-bind (Opened config_hash file) (recover_records (suc (length rest)) rest) _
            λ ms h.
              let w = Ensures-elim (Whole rest) _ ms (recover-Whole (suc (length rest)) rest) h in
              record {
                sized =
                    omega (arith, subst (ReadOf 16 file) read (read_all-ReadOf 16 file), w.sized);
                recorded = w.recorded;
                configured =
                    got_bytes 16 file found rest read
                    ∙ (text_beq_iff found (header config_hash)).0 same;
                kept = inr refl;
              })
  ]
]

-- A file that is opened as a journal is the header of its configuration and exactly a hundred bytes
-- for each command that is recovered, each of which is a command that a host journals; a torn tail
-- is never accepted. Only an empty file is written to.
pub open_journal-Opened :
    (config_hash : ℕ) (file after : List ℕ) (ms : List Message)
    → open_journal config_hash file ≡ some (ms, after)
    → Opened config_hash file (ms, after)
open_journal-Opened config_hash file after ms h =
    Ensures-elim (Opened config_hash file) (open_journal config_hash file) (ms, after)
      (open_journal-Ensures config_hash file) h
