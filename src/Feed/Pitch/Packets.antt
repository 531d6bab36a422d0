-- ===== src/Feed/Pitch/Packets.antt =====
-- What a packet of src/feed/pitch.cpp becomes: all of its messages or nothing.
use limit_order_book.Base.{
  ℕ, zero, suc, ◌+◌, ◌-◌, ◌≤◌, ◌<◌, true, false, not, ◌&&◌, ◌||◌, none, some, List, [], ◌∷◌, length,
  get_elem?, ltb, leb, ◌==◌, nat_eq, ◌≡◌, ◌≢◌, refl, sym, ◌∙◌, ap, subst, arith, ltb→lt, leb→le,
  nat_beq_iff, Bool-cases, inl, inr, Option-cases, second-none≢some, both_equal, first_equal,
}
use limit_order_book.Feed.Books.{FeedEvent}
use limit_order_book.Trading.Engine.Ensures.{Ensures, Ensures-bind, Ensures-elim}
use limit_order_book.Feed.Pitch.{
  PitchUnit, PitchDecoder, require, required, number, pitch_event, pitch_time, pitch_timed,
  pitch_message, pitch_span, pitch_messages, set_unit, pitch_sequenced, pitch_packet, decode_pitch,
  or_failed,
}

-- The nanoseconds of a day.
abbrev pub day_ns : ℕ
day_ns = 86400000000000

abbrev pub TimedOk : PitchUnit → Type 0
TimedOk u = u.timed ≡ true → u.seconds < 86400

pub record EventOk (channel sequence : ℕ) (e : FeedEvent) : Type 0 where
  pub in_channel : e.channel ≡ channel
  pub numbered : e.sequence ≡ sequence
  pub in_day : e.timestamp_ns < day_ns

abbrev pub EventsOk : ℕ → ℕ → List FeedEvent → Type 0
EventsOk channel n [] = Unit
EventsOk channel n (e ∷ es) = EventOk channel n e × EventsOk channel (n + 1) es

record MessageOk (channel sequence : ℕ) (r : FeedEvent × PitchUnit) : Type 0 where
  event : EventOk channel sequence r.0
  timed : TimedOk r.1

pitch_time-Ensures :
    (channel sequence : ℕ) (m : List ℕ) (u : PitchUnit)
    → Ensures (MessageOk channel sequence) (pitch_time channel sequence m u)
unfolding pitch_time
pitch_time-Ensures channel sequence m u =
    let Q = MessageOk channel sequence in
    Ensures-bind Q (require (length m == 6 || length m == 10)) _ λ _ h.
      Ensures-bind Q (number m 2 4) _ λ seconds i.
        Ensures-bind Q (require (ltb seconds 86400)) _ λ c j.
          let small = ltb→lt _ _ (required _ c j) in
          record {
            event = record { in_channel = refl; numbered = refl; in_day = omega (arith, small) };
            timed = λ k. small;
          }

pitch_timed-Ensures :
    (channel sequence : ℕ) (m : List ℕ) (type : ℕ) (u : PitchUnit)
    → TimedOk u
    → Ensures (MessageOk channel sequence) (pitch_timed channel sequence m type u)
unfolding pitch_timed
pitch_timed-Ensures channel sequence m type u ok =
    let Q = MessageOk channel sequence in
    Ensures-bind Q (require u.timed) _ λ c h. Ensures-bind Q (number m 2 4) _ λ nanos i.
      Ensures-bind Q (require (ltb nanos 1000000000)) _ λ d j.
        Ensures-bind Q (pitch_event m type) _ λ e k.
          let small = ltb→lt _ _ (required _ d j) in
          let seconds = ok (required _ c h) in
          record {
            event = record {
              in_channel = refl;
              numbered = refl;
              in_day = omega (arith, small, seconds);
            };
            timed = λ t. seconds;
          }

pitch_message-Ensures :
    (channel sequence : ℕ) (m : List ℕ) (u : PitchUnit)
    → TimedOk u
    → Ensures (MessageOk channel sequence) (pitch_message channel sequence m u)
unfolding pitch_message
pitch_message-Ensures channel sequence m u ok =
    Ensures-bind (MessageOk channel sequence) (get_elem? m 1) _ (λ type h.
      elim (Bool-cases (type == 0x20)) [
        | inl time ↦ rw time (pitch_time-Ensures channel sequence m u)
        | inr other ↦ rw other (pitch_timed-Ensures channel sequence m type u ok)
      ])

record MessagesOk (n channel sequence : ℕ) (r : List FeedEvent × PitchUnit) : Type 0 where
  events : EventsOk channel sequence r.0
  all_read : length r.0 ≡ n
  timed : TimedOk r.1

pitch_messages-Ensures :
    (n channel sequence : ℕ) (p : List ℕ) (offset : ℕ) (u : PitchUnit)
    → TimedOk u
    → Ensures (MessagesOk n channel sequence) (pitch_messages n channel sequence p offset u)
unfolding pitch_messages
pitch_messages-Ensures zero channel sequence p offset u ok =
    Ensures-bind (MessagesOk 0 channel sequence) (require (offset == length p)) _
      (λ c h. record { events = tt; all_read = refl; timed = ok })
pitch_messages-Ensures (suc n) channel sequence p offset u ok =
    let Q = MessagesOk (suc n) channel sequence in
    Ensures-bind Q (require (not u.ended)) _ λ c h. Ensures-bind Q (pitch_span p offset) _ λ m i.
      Ensures-bind Q (pitch_message channel sequence m u) _ λ (e, u') j.
        let first =
          Ensures-elim (MessageOk channel sequence) _ (e, u')
            (pitch_message-Ensures channel sequence m u ok) j in
        Ensures-bind Q (pitch_messages n channel (sequence + 1) p (offset + length m) u') _
          λ (es, u'') k.
            let rest =
              Ensures-elim (MessagesOk n channel (sequence + 1)) _ (es, u'')
                (pitch_messages-Ensures n channel (sequence + 1) p (offset + length m) u'
                  first.timed)
                k in
            record {
              events = (first.event, rest.events);
              all_read = ap suc rest.all_read;
              timed = rest.timed;
            }

-- A unit's clock is set within a day, and its next sequence number is at most one past 32 bits.
pub record UnitOk (u : PitchUnit) : Type 0 where
  pub timed : TimedOk u
  pub bounded : u.next ≤ 4294967296

abbrev pub UnitsOk : PitchDecoder → Type 0
UnitsOk d = (c : ℕ) → UnitOk (d.units c)

-- The events of a packet, and the decoder after it. The third byte of the packet is the number of its
-- messages, the fourth its channel, and the next four bytes are the number of the first message.
pub record Accepted (d : PitchDecoder) (p : List ℕ) (r : List FeedEvent × PitchDecoder)
    : Type 0 where
  pub channel : ℕ
  pub channel_at : get_elem? p 3 ≡ some channel
  pub count_at : get_elem? p 2 ≡ some (length r.0)
  pub in_turn : 0 < length r.0 → number p 4 4 ≡ some (d.units channel).next
  pub events : EventsOk channel (d.units channel).next r.0
  pub moved : (r.1.units channel).next ≡ (d.units channel).next + length r.0
  pub others : (c : ℕ) → c ≢ channel → r.1.units c ≡ d.units c
  pub healthy : r.1.failed ≡ false
  pub units : UnitsOk r.1

unit_at :
    (units : ℕ → PitchUnit) (channel : ℕ) (u : PitchUnit) → set_unit units channel u channel ≡ u
unit_at units channel u = rw ((nat_beq_iff channel channel).1 refl) refl

unit_off :
    (units : ℕ → PitchUnit) (channel : ℕ) (u : PitchUnit) (c : ℕ)
    → c ≢ channel
    → set_unit units channel u c ≡ units c
unit_off units channel u c other = elim (Bool-cases (c == channel)) [
  | inl same ↦ absurd (other ((nat_beq_iff c channel).0 same))
  | inr k ↦ rw k refl
]

module _ (d : PitchDecoder) (ok : UnitsOk d) (healthy : d.failed ≡ false) where
  units_kept :
      (channel : ℕ) (u : PitchUnit) → UnitOk u → (c : ℕ) → UnitOk (set_unit d.units channel u c)
  units_kept channel u fine c = elim (Bool-cases (c == channel)) [
    | inl same ↦ rw same fine
    | inr other ↦ rw other (ok c)
  ]

  pitch_sequenced-Ensures :
      (p : List ℕ) (count channel sequence : ℕ)
      → get_elem? p 2 ≡ some count
      → get_elem? p 3 ≡ some channel
      → number p 4 4 ≡ some sequence
      → Ensures (Accepted d p) (pitch_sequenced d p count channel sequence)
  unfolding pitch_sequenced
  pitch_sequenced-Ensures p count channel sequence count_at channel_at number_at =
      let Q = Accepted d p in
      let u = d.units channel in
      Ensures-bind Q (require (sequence == u.next)) _ λ a in_turn.
        Ensures-bind Q (require (not u.ended)) _ λ b open_still.
          Ensures-bind Q (require (leb (sequence + count - 1) 4294967295)) _ λ c small.
            Ensures-bind Q (pitch_messages count channel sequence p 8 u) _ λ (es, u') read.
              let all =
                Ensures-elim (MessagesOk count channel sequence) _ (es, u')
                  (pitch_messages-Ensures count channel sequence p 8 u (ok channel).timed) read in
              let turn = (nat_beq_iff sequence u.next).0 (required _ a in_turn) in
              let last = leb→le _ _ (required _ c small) in
              let after : PitchUnit = record u' { next = sequence + count } in
              let fine : UnitOk after = record {
                timed = all.timed;
                bounded = omega (arith, last);
              } in
              record {
                channel = channel;
                channel_at = channel_at;
                count_at = count_at ∙ ap some (sym all.all_read);
                in_turn = λ pos. number_at ∙ ap some turn;
                events = subst (λ n. EventsOk channel n es) turn all.events;
                moved =
                    ap (λ v. v.next) (unit_at d.units channel after)
                    ∙ omega (arith, turn, all.all_read);
                others = unit_off d.units channel after;
                healthy = healthy;
                units = units_kept channel after fine;
              }

  heartbeat :
      (p : List ℕ) (channel : ℕ)
      → get_elem? p 2 ≡ some 0
      → get_elem? p 3 ≡ some channel
      → Accepted d p ([], d)
  heartbeat p channel count_at channel_at = record {
    channel = channel;
    channel_at = channel_at;
    count_at = count_at;
    in_turn = λ pos. absurd (omega (arith, pos));
    events = tt;
    moved = omega arith;
    others = λ c other. refl;
    healthy = healthy;
    units = ok;
  }

  pitch_packet-Ensures : (p : List ℕ) → Ensures (Accepted d p) (pitch_packet d p)
  unfolding pitch_packet
  pitch_packet-Ensures p =
      let Q = Accepted d p in
      Ensures-bind Q (require (leb 8 (length p))) _ λ a long.
        Ensures-bind Q (number p 0 2) _ λ size h.
          Ensures-bind Q (require (size == length p)) _ λ b exact.
            Ensures-bind Q (get_elem? p 2) _ λ count i.
              Ensures-bind Q (get_elem? p 3) _ λ channel j.
                Ensures-bind Q (number p 4 4) _ λ sequence k. elim (Bool-cases (count == 0)) [
                  | inl none_follow ↦ rw none_follow (
                      Ensures-bind Q
                        (require (
                          (length p == 8)
                          && ((sequence == (d.units channel).next) || (sequence == 0))))
                        _
                        (λ c l.
                          heartbeat p channel (i ∙ ap some ((nat_beq_iff count 0).0 none_follow))
                            j))
                  | inr some_follow ↦
                      rw some_follow (pitch_sequenced-Ensures p count channel sequence i j k)
                ]

when_failed : (d : PitchDecoder) (p : List ℕ) → d.failed ≡ true → decode_pitch d p ≡ (d, none)
unfolding decode_pitch
when_failed d p failed = rw failed refl

when_healthy :
    (d : PitchDecoder) (p : List ℕ)
    → d.failed ≡ false
    → decode_pitch d p ≡ or_failed d (pitch_packet d p)
unfolding decode_pitch
when_healthy d p healthy = rw healthy refl

-- A packet that a decoder accepts becomes as many events as its third byte says. They are of the
-- channel in its fourth byte, numbered without a gap from the number in its next four bytes, which is
-- the next of the channel's unit, and have times within the day. The unit's number moves on by as
-- many, so a packet of no messages moves nothing; the other units stay as they were, and the clocks
-- and numbers of all stay in their bounds.
pub decode_pitch-Accepted :
    (d d' : PitchDecoder) (p : List ℕ) (es : List FeedEvent)
    → UnitsOk d
    → decode_pitch d p ≡ (d', some es)
    → Accepted d p (es, d')
decode_pitch-Accepted d d' p es ok e = elim (Bool-cases d.failed) [
  | inl failed ↦ absurd (second-none≢some (sym (when_failed d p failed) ∙ e))
  | inr healthy ↦ elim (Option-cases (pitch_packet d p)) [
    | inl thrown ↦
        absurd (second-none≢some (sym (when_healthy d p healthy ∙ ap (or_failed d) thrown) ∙ e))
    | inr (r, read) ↦
        subst (Accepted d p)
          (both_equal (sym (when_healthy d p healthy ∙ ap (or_failed d) read) ∙ e))
          (Ensures-elim (Accepted d p) (pitch_packet d p) r (pitch_packet-Ensures d ok healthy p)
            read)
  ]
]

abbrev Refusing : PitchDecoder → List ℕ → PitchDecoder → Type 0
Refusing d q d' = (d'.units ≡ d.units) × (decode_pitch d' q ≡ (d', none))

-- A packet that a decoder refuses leaves all units as they were, and from then on it refuses every
-- packet and stays as it is.
pub decode_pitch_refused :
    (d d' : PitchDecoder) (p q : List ℕ)
    → decode_pitch d p ≡ (d', none)
    → (d'.units ≡ d.units) × (decode_pitch d' q ≡ (d', none))
decode_pitch_refused d d' p q e = elim (Bool-cases d.failed) [
  | inl failed ↦
      subst (Refusing d q) (first_equal (sym (when_failed d p failed) ∙ e))
        (refl, when_failed d q failed)
  | inr healthy ↦ elim (Option-cases (pitch_packet d p)) [
    | inl thrown ↦
        subst (Refusing d q)
          (first_equal (sym (when_healthy d p healthy ∙ ap (or_failed d) thrown) ∙ e))
          (refl, when_failed (record d { failed = true }) q refl)
    | inr (r, read) ↦
        absurd (second-none≢some (sym e ∙ (when_healthy d p healthy ∙ ap (or_failed d) read)))
  ]
]
