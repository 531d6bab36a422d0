-- ===== src/Trading/Strategy/Replays.antt =====
-- Reports that reach the order manager of src/trading/strategy.cpp more than once.
use limit_order_book.Base.{
  le→leb, ◌≤◌, Bool, true, false, not, ◌&&◌, ◌||◌, List, [], ◌∷◌, leb, leb→le, ◌==◌, nat_eq, ◌≡◌,
  refl, ◌∙◌, ap, arith, Bool-cases, inl, inr,
}
use limit_order_book.Trading.Messages.{Message, ReportType}
use limit_order_book.Trading.Strategy.{
  OrderManager, is_report, is_status, is_ignored, is_no_reason, apply_report, consume_report,
}

-- A sequence of messages, consumed one after the other.
abbrev pub consume_all : OrderManager → List Message → OrderManager
consume_all c [] = c
consume_all c (m ∷ ms) = consume_all (consume_report c m).1 ms

apply_report-last :
    (c : OrderManager) (m : Message) (r : ReportType)
    → (apply_report c m r).last_report ≡ c.last_report
unfolding apply_report
apply_report-last c m ReportType.accepted = refl
apply_report-last c m ReportType.replaced = refl
apply_report-last c m ReportType.fill = refl
apply_report-last c m ReportType.cancelled = refl
apply_report-last c m ReportType.complete =
    elim (Bool-cases (is_no_reason m.reject && not (m.order_id == 0))) [
      | inl left ↦ rw left refl
      | inr none_left ↦ rw none_left refl
    ]
apply_report-last c m ReportType.rejected = refl
apply_report-last c m ReportType.status = refl

when_ignored :
    (c : OrderManager) (m : Message) → is_ignored c m ≡ true → consume_report c m ≡ (false, c)
unfolding consume_report
when_ignored c m h = rw (is_ignored, h) refl

when_fresh :
    (c : OrderManager) (m : Message)
    → is_ignored c m ≡ false
    → consume_report c m ≡ (true, apply_report (record c { last_report = m.sequence }) m m.report)
unfolding consume_report
when_fresh c m h = rw (is_ignored, h) refl

last_after :
    (c : OrderManager) (m : Message)
    → is_ignored c m ≡ false
    → (consume_report c m).1.last_report ≡ m.sequence
last_after c m fresh =
    ap (λ r. r.1.last_report) (when_fresh c m fresh)
    ∙ apply_report-last (record c { last_report = m.sequence }) m m.report

newer : (c : OrderManager) (m : Message) → is_ignored c m ≡ false → c.last_report ≤ m.sequence
newer c m fresh = ground (arith, fresh)

last-le : (c : OrderManager) (m : Message) → c.last_report ≤ (consume_report c m).1.last_report
last-le c m = elim (Bool-cases (is_ignored c m)) [
  | inl ignored ↦ omega (arith, ap (λ r. r.1.last_report) (when_ignored c m ignored))
  | inr fresh ↦ omega (arith, newer c m fresh, last_after c m fresh)
]

last-le-all :
    (c : OrderManager) (ms : List Message) → c.last_report ≤ (consume_all c ms).last_report
last-le-all c [] = omega arith
last-le-all c (m ∷ ms) = omega (arith, last-le c m, last-le-all (consume_report c m).1 ms)

-- What is ignored at some time is ignored later.
still_ignored :
    (c d : OrderManager) (m : Message)
    → c.last_report ≤ d.last_report
    → is_ignored c m ≡ true
    → is_ignored d m ≡ true
still_ignored c d m le h =
    older (not (is_report m.kind)) (is_status m.report) (leb m.sequence c.last_report)
      (leb m.sequence d.last_report)
      (λ k. le→leb m.sequence d.last_report (omega (arith, le, leb→le _ _ k))) h
  where
    older : (a b e f : Bool) → (e ≡ true → f ≡ true) → a || (b || e) ≡ true → a || (b || f) ≡ true
    older true b e f k l = refl
    older false true e f k l = refl
    older false false e f k l = k l

at_most : (a b : Bool) {e : Bool} → e ≡ true → a || (b || e) ≡ true
at_most true b h = refl
at_most false true h = refl
at_most false false h = h

ignored_next : (c : OrderManager) (m : Message) → is_ignored (consume_report c m).1 m ≡ true
ignored_next c m = elim (Bool-cases (is_ignored c m)) [
  | inl ignored ↦ still_ignored c (consume_report c m).1 m (last-le c m) ignored
  | inr fresh ↦
      at_most (not (is_report m.kind)) (is_status m.report)
        (le→leb m.sequence (consume_report c m).1.last_report (omega (arith, last_after c m fresh)))
]

AllIgnored : OrderManager → List Message → Type 0
AllIgnored d [] = Unit
AllIgnored d (m ∷ ms) = (is_ignored d m ≡ true) × AllIgnored d ms

consumed-ignored : (c : OrderManager) (ms : List Message) → AllIgnored (consume_all c ms) ms
unfolding AllIgnored
consumed-ignored c [] = tt
consumed-ignored c (m ∷ ms) =
    let c' = (consume_report c m).1 in
    (
      still_ignored c' (consume_all c' ms) m (last-le-all c' ms) (ignored_next c m),
      consumed-ignored c' ms,
    )

ignored-same : (d : OrderManager) (ms : List Message) → AllIgnored d ms → consume_all d ms ≡ d
unfolding AllIgnored
ignored-same d [] h = refl
ignored-same d (m ∷ ms) (h, hs) =
    ap (λ r. consume_all r.1 ms) (when_ignored d m h) ∙ ignored-same d ms hs

-- Messages that were consumed once change nothing when all of them come again.
pub consume_all_again :
    (c : OrderManager) (ms : List Message) → consume_all (consume_all c ms) ms ≡ consume_all c ms
consume_all_again c ms = ignored-same (consume_all c ms) ms (consumed-ignored c ms)
