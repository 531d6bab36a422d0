-- ===== src/Feed/Itch/Session.antt =====
-- What an ITCH archive becomes in src/feed/itch.cpp: the order of its records and the directory of
-- its stocks.
use limit_order_book.Base.{
  ◌↔◌, not-true, both_true, none≢some, ℕ, ◌+◌, ◌%◌, ◌<◌, Bool, true, false, not, ◌&&◌, none, some,
  List, [], ◌∷◌, length, get_elem?, ltb, ◌==◌, nat_eq, ◌≡◌, ◌≢◌, refl, sym, ◌∙◌, ap, subst, ltb→lt,
  nat_beq_iff, Bool-cases, inl, inr, Option-cases, second-none≢some, both_equal, first_equal,
}
use limit_order_book.Map.{lookup, insert}
use limit_order_book.Map.Laws.{lookup-insert}
use limit_order_book.Types.{u64_mod}
use limit_order_book.Feed.Keys.{Text, text_eq}
use limit_order_book.Feed.Bytes.{symbol}
use limit_order_book.Feed.Books.{FeedEvent, EventType}
use limit_order_book.Feed.Pitch.{require, required, default_event}
use limit_order_book.Feed.Itch.{
  ItchDecoder, itch_lengths, field, is_one_of, itch_system, emplaced, itch_directory, itch_order,
  itch_listed, itch_event, starts_well, itch_message, decode_itch, or_failed,
}
use limit_order_book.Trading.Engine.Ensures.{Ensures, Ensures-bind, Ensures-elim}
use limit_order_book.Feed.Itch.Ending.{EndsMessages, itch_event-ended}

-- The events that concern the stock of one order or trade.
abbrev pub is_listed_type : EventType → Bool
is_listed_type EventType.metadata = false
is_listed_type EventType.directory = false
is_listed_type EventType.clear = false
is_listed_type EventType.add = true
is_listed_type EventType.reduce = true
is_listed_type EventType.execute = true
is_listed_type EventType.delete = true
is_listed_type EventType.replace = true
is_listed_type EventType.execute_remaining = true
is_listed_type EventType.trade = true

-- What a message makes of the decoder's directory.
pub record DirectoryOk (d : ItchDecoder) (e : FeedEvent) (d' : ItchDecoder) : Type 0 where
  pub listed :
      is_listed_type e.type ≡ true → (locate : ℕ) × (lookup locate d.symbols ≡ some e.symbol)
  pub kept :
      e.type ≢ EventType.clear
      → (locate : ℕ) (name : Text) → lookup locate d.symbols ≡ some name
      → lookup locate d'.symbols ≡ some name

record EventOk (d : ItchDecoder) (r : FeedEvent × ItchDecoder) : Type 0 where
  directory : DirectoryOk d r.0 r.1
  count_kept : r.1.records ≡ d.records
  unfailed : r.1.failed ≡ d.failed

itch_system-Ensures : (d : ItchDecoder) (m : List ℕ) → Ensures (EventOk d) (itch_system d m)
unfolding itch_system
itch_system-Ensures d m =
    let codes : List ℕ = 79 ∷ 83 ∷ 81 ∷ 77 ∷ 69 ∷ 67 ∷ [] in
    Ensures-bind (EventOk d) (get_elem? m 11) _ λ code h.
      Ensures-bind (EventOk d) (require (is_one_of code codes)) _ λ b i.
        elim (Bool-cases (code == 79)) [
          | inl starts ↦ rw starts (record {
            directory = record { listed = λ k. cc; kept = λ other l n k. absurd (other refl) };
            count_kept = refl;
            unfailed = refl;
          })
          | inr goes_on ↦ rw goes_on (record {
            directory = record { listed = λ k. cc; kept = λ other l n k. k };
            count_kept = refl;
            unfailed = refl;
          })
        ]

stays_listed :
    (d : ItchDecoder) (locate l : ℕ) (name n : Text)
    → lookup locate d.symbols ≡ none
    → lookup l d.symbols ≡ some n
    → lookup l (insert ltb locate name d.symbols) ≡ some n
stays_listed d locate l name n new k = elim (Bool-cases (locate == l)) [
  | inl same ↦
      absurd
        (none≢some (sym new ∙ ap (λ i. lookup i d.symbols) ((nat_beq_iff locate l).0 same) ∙ k))
  | inr other ↦ lookup-insert ltb locate name d.symbols l ∙ rw other k
]

emplaced-Ensures :
    (d : ItchDecoder) (locate : ℕ) (name : Text)
    → Ensures
        (λ d'. (EventOk d (record default_event { type = EventType.directory; symbol = name }, d')))
        (emplaced d locate name)
emplaced-Ensures d locate name = elim (Option-cases (lookup locate d.symbols)) [
  | inl new ↦
      rw (emplaced, new)
        (record {
          directory = record {
            listed = λ k. cc;
            kept = λ other l n k. stays_listed d locate l name n new k;
          };
          count_kept = refl;
          unfailed = refl;
        })
  | inr (old, found) ↦
      rw (emplaced, found)
        (Ensures-bind
          (λ d'.
            (EventOk d (record default_event { type = EventType.directory; symbol = name }, d')))
          (require (old == name)) _
          (λ b same. record {
            directory = record { listed = λ k. cc; kept = λ other l n k. k };
            count_kept = refl;
            unfailed = refl;
          }))
]

itch_directory-Ensures :
    (d : ItchDecoder) (m : List ℕ) (locate : ℕ) → Ensures (EventOk d) (itch_directory d m locate)
unfolding itch_directory
itch_directory-Ensures d m locate = Ensures-bind (EventOk d) (require (not (locate == 0))) _ λ b h.
    Ensures-bind (EventOk d) (symbol m 11 8) _ λ name i.
      Ensures-bind (EventOk d) (emplaced d locate name) _ λ d' j.
        Ensures-elim
          (λ r. EventOk d (record default_event { type = EventType.directory; symbol = name }, r))
          (emplaced d locate name) d' (emplaced-Ensures d locate name) j

itch_listed-Ensures :
    (d : ItchDecoder) (m : List ℕ) (c locate : ℕ) → Ensures (EventOk d) (itch_listed d m c locate)
unfolding itch_listed
itch_listed-Ensures d m c locate = Ensures-bind (EventOk d) (lookup locate d.symbols) _ λ name h.
    Ensures-bind (EventOk d) (itch_order m c name) _ λ e i. record {
      directory = record { listed = λ k. (locate, h); kept = λ other l n k. k };
      count_kept = refl;
      unfailed = refl;
    }

itch_event-Ensures :
    (d : ItchDecoder) (m : List ℕ) (c locate : ℕ) → Ensures (EventOk d) (itch_event d m c locate)
unfolding itch_event
itch_event-Ensures d m c locate = elim (Bool-cases (c == 83)) [
  | inl system ↦ rw system (itch_system-Ensures d m)
  | inr h ↦ elim (Bool-cases (c == 82)) [
    | inl directory ↦ rw (h, directory) (itch_directory-Ensures d m locate)
    | inr i ↦ elim (Bool-cases (is_one_of c (65 ∷ 70 ∷ 69 ∷ 67 ∷ 88 ∷ 68 ∷ 85 ∷ 80 ∷ 81 ∷ []))) [
      | inl listed ↦ rw (h, i, is_one_of, listed) (itch_listed-Ensures d m c locate)
      | inr other ↦
          rw (h, i, is_one_of, other)
            (record {
              directory = record { listed = λ k. cc; kept = λ o l n k. k };
              count_kept = refl;
              unfailed = refl;
            })
    ]
  ]
]

-- The record that a decoder accepts, and the decoder after it.
pub record Accepted (d : ItchDecoder) (m : List ℕ) (e : FeedEvent) (d' : ItchDecoder) : Type 0 where
  pub numbered : e.sequence ≡ (d.records + 1) % u64_mod
  pub counted : d'.records ≡ (d.records + 1) % u64_mod
  pub in_day : e.timestamp_ns < 86400000000000
  pub starts : d.records ≡ 0 → e.type ≡ EventType.clear
  pub was_open : d.complete ≡ false
  pub ended : (d'.complete ≡ true) ↔ EndsMessages m
  pub healthy : d'.failed ≡ d.failed
  pub directory : DirectoryOk d e d'

start-clears :
    (d : ItchDecoder) (m : List ℕ) (c locate : ℕ) (b : Bool)
    → d.records ≡ 0
    → starts_well d m c ≡ some b
    → Ensures (λ r. r.0.type ≡ EventType.clear) (itch_event d m c locate)
unfolding itch_event itch_system
start-clears d m c locate b first h = elim (Option-cases (get_elem? m 11)) [
  | inl short ↦
      let stuck : starts_well d m c ≡ none = rw (starts_well, first, short) refl in
      absurd (none≢some (sym stuck ∙ h))
  | inr (code, at) ↦
      let opened : starts_well d m c ≡ require ((c == 83) && (code == 79)) =
        rw (starts_well, first, at) refl in
      let (is_s, is_o) = both_true (c == 83) (code == 79) (required _ b (sym opened ∙ h)) in
      rw (is_s, at, (nat_beq_iff code 79).0 is_o) refl
]

itch_message-Ensures :
    (d : ItchDecoder) (m : List ℕ) → Ensures (λ (e, d'). Accepted d m e d') (itch_message d m)
unfolding itch_message
itch_message-Ensures d m =
    let Q : FeedEvent × ItchDecoder → Type 0 = λ (e, d'). Accepted d m e d' in
    Ensures-bind Q (require (not d.complete)) _ λ a was_open.
      Ensures-bind Q (get_elem? m 0) _ λ c i. Ensures-bind Q (lookup c itch_lengths) _ λ size j.
        Ensures-bind Q (require (length m == size)) _ λ b exact.
          Ensures-bind Q (starts_well d m c) _ λ s starts.
            Ensures-bind Q (field m 5 6) _ λ timestamp k.
              Ensures-bind Q (require (ltb timestamp 86400000000000)) _ λ t in_day.
                Ensures-bind Q (field m 1 2) _ λ locate l.
                  Ensures-bind Q (itch_event d m c (locate % 65536)) _ λ (e, d') found.
                    let ok =
                      Ensures-elim (EventOk d) _ (e, d') (itch_event-Ensures d m c (locate % 65536))
                        found in
                    record {
                      numbered = refl;
                      counted = ap (λ n. (n + 1) % u64_mod) ok.count_kept;
                      in_day = ltb→lt _ _ (required _ t in_day);
                      starts = λ first.
                          Ensures-elim (λ r. r.0.type ≡ EventType.clear) _ (e, d')
                            (start-clears d m c (locate % 65536) s first starts) found;
                      was_open = not-true d.complete (required _ a was_open);
                      ended =
                          itch_event-ended d m c (locate % 65536) i
                            (not-true d.complete (required _ a was_open)) (e, d') found;
                      healthy = ok.unfailed;
                      directory = record { listed = ok.directory.listed; kept = ok.directory.kept };
                    }

when_failed : (d : ItchDecoder) (m : List ℕ) → d.failed ≡ true → decode_itch d m ≡ (d, none)
unfolding decode_itch
when_failed d m failed = rw failed refl

when_healthy :
    (d : ItchDecoder) (m : List ℕ)
    → d.failed ≡ false
    → decode_itch d m ≡ or_failed d (itch_message d m)
unfolding decode_itch
when_healthy d m healthy = rw healthy refl

-- A message that a decoder accepts becomes one event with the next record number and a time within
-- the day. The first of a session is the system event that clears the books. The decoder has not
-- seen the end of messages, and has seen it afterwards if and only if this message is it, so that
-- none is accepted behind it. An event of an order or a trade carries the symbol that the directory
-- has at some stock locate, and the directory forgets a symbol only when the books are cleared.
pub decode_itch-Accepted :
    (d d' : ItchDecoder) (m : List ℕ) (e : FeedEvent)
    → decode_itch d m ≡ (d', some e)
    → Accepted d m e d'
decode_itch-Accepted d d' m e h = elim (Bool-cases d.failed) [
  | inl failed ↦ absurd (second-none≢some (sym (when_failed d m failed) ∙ h))
  | inr healthy ↦ elim (Option-cases (itch_message d m)) [
    | inl thrown ↦
        absurd (second-none≢some (sym (when_healthy d m healthy ∙ ap (or_failed d) thrown) ∙ h))
    | inr ((e', d''), read) ↦
        subst (λ (f, g). Accepted d m f g)
          (both_equal (sym (when_healthy d m healthy ∙ ap (or_failed d) read) ∙ h))
          (Ensures-elim (λ (f, g). Accepted d m f g) (itch_message d m) (e', d'')
            (itch_message-Ensures d m) read)
  ]
]

abbrev Refusing : ItchDecoder → List ℕ → ItchDecoder → Type 0
Refusing d n d' =
    (d'.symbols ≡ d.symbols) × (d'.records ≡ d.records) × (decode_itch d' n ≡ (d', none))

-- A message that a decoder refuses leaves its directory and its record number as they were, and from
-- then on it refuses every message and stays as it is.
pub decode_itch_refused :
    (d d' : ItchDecoder) (m n : List ℕ)
    → decode_itch d m ≡ (d', none)
    → (d'.symbols ≡ d.symbols) × (d'.records ≡ d.records) × (decode_itch d' n ≡ (d', none))
decode_itch_refused d d' m n h = elim (Bool-cases d.failed) [
  | inl failed ↦
      subst (Refusing d n) (first_equal (sym (when_failed d m failed) ∙ h))
        (refl, refl, when_failed d n failed)
  | inr healthy ↦ elim (Option-cases (itch_message d m)) [
    | inl thrown ↦
        subst (Refusing d n)
          (first_equal (sym (when_healthy d m healthy ∙ ap (or_failed d) thrown) ∙ h))
          (refl, refl, when_failed (record d { failed = true }) n refl)
    | inr ((e, d''), read) ↦
        absurd (second-none≢some (sym h ∙ (when_healthy d m healthy ∙ ap (or_failed d) read)))
  ]
]
