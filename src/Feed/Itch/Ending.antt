-- ===== src/Feed/Itch/Ending.antt =====
-- Which record of an ITCH archive ends it, in src/feed/itch.cpp.
use limit_order_book.Base.{
  ◌↔◌, ◌||◌, true≢false, ℕ, Bool, true, false, not, some, List, [], ◌∷◌, get_elem?, ◌==◌, nat_eq,
  ◌≡◌, refl, sym, ◌∙◌, ap, nat_beq_iff, Bool-cases, inl, inr, Option-cases,
}
use mathlib.Core.Option.{some-injective}
use limit_order_book.Map.{lookup}
use limit_order_book.Feed.Keys.{Text, text_eq}
use limit_order_book.Feed.Bytes.{symbol}
use limit_order_book.Feed.Books.{FeedEvent}
use limit_order_book.Feed.Pitch.{require}
use limit_order_book.Feed.Itch.{
  ItchDecoder, is_one_of, itch_system, emplaced, itch_directory, itch_order, itch_listed,
  itch_event,
}
use limit_order_book.Trading.Engine.Ensures.{Ensures, Ensures-bind, Ensures-then, Ensures-elim}

-- The end of messages: a system event, S, of the code C.
abbrev pub EndsMessages : List ℕ → Type 0
EndsMessages m = (get_elem? m 0 ≡ some 83) × (get_elem? m 11 ≡ some 67)

-- What an event makes of the flag.
record Ends (m : List ℕ) (b : Bool) : Type 0 where
  true_at : b ≡ true → EndsMessages m
  at_end : EndsMessages m → b ≡ true

goes_on :
    (m : List ℕ) (c : ℕ) (b : Bool)
    → get_elem? m 0 ≡ some c
    → c == 83 ≡ false
    → b ≡ false
    → Ends m b
goes_on m c b at other open_still = record {
  true_at = λ k. absurd (true≢false (sym k ∙ open_still));
  at_end = λ (s, e).
      absurd (true≢false (sym ((nat_beq_iff c 83).1 (some-injective _ _ (sym at ∙ s))) ∙ other));
}

system-Ends :
    (d : ItchDecoder) (m : List ℕ)
    → get_elem? m 0 ≡ some 83
    → d.complete ≡ false
    → Ensures (λ r. Ends m r.1.complete) (itch_system d m)
unfolding itch_system
system-Ends d m at open_still =
    let Q : FeedEvent × ItchDecoder → Type 0 = λ r. Ends m r.1.complete in
    let codes : List ℕ = 79 ∷ 83 ∷ 81 ∷ 77 ∷ 69 ∷ 67 ∷ [] in
    Ensures-bind Q (get_elem? m 11) _
      λ code h. Ensures-bind Q (require (is_one_of code codes)) _ λ b i. with_code code h
  where
    first_true : (a b : Bool) → (a || b) ≡ true → b ≡ false → a ≡ true
    first_true true b k l = refl
    first_true false b k l = absurd (true≢false (sym k ∙ l))

    with_code : (code : ℕ) → get_elem? m 11 ≡ some code → Ends m ((code == 67) || d.complete)
    with_code code h = record {
      true_at = λ k. (
        at,
        h ∙ ap some ((nat_beq_iff code 67).0 (first_true (code == 67) d.complete k open_still)),
      );
      at_end = λ (s, e).
          let is_end = (nat_beq_iff code 67).1 (some-injective _ _ (sym h ∙ e)) in rw is_end refl;
    }

emplaced-complete :
    (d : ItchDecoder) (locate : ℕ) (name : Text)
    → Ensures (λ d'. d'.complete ≡ d.complete) (emplaced d locate name)
emplaced-complete d locate name = elim (Option-cases (lookup locate d.symbols)) [
  | inl new ↦ rw (emplaced, new) refl
  | inr (old, found) ↦
      rw (emplaced, found)
        (Ensures-bind (λ d'. d'.complete ≡ d.complete) (require (old == name)) _ (λ b same. refl))
]

itch_event-Ends :
    (d : ItchDecoder) (m : List ℕ) (c locate : ℕ)
    → get_elem? m 0 ≡ some c
    → d.complete ≡ false
    → Ensures (λ r. Ends m r.1.complete) (itch_event d m c locate)
unfolding itch_event itch_directory itch_listed
itch_event-Ends d m c locate at open_still =
    let Q : FeedEvent × ItchDecoder → Type 0 = λ r. Ends m r.1.complete in
    elim (Bool-cases (c == 83)) [
      | inl system ↦
          rw system (system-Ends d m (at ∙ ap some ((nat_beq_iff c 83).0 system)) open_still)
      | inr h ↦
          let on : (b : Bool) → b ≡ d.complete → Ends m b =
            λ b same. goes_on m c b at h (same ∙ open_still) in
          elim (Bool-cases (c == 82)) [
            | inl directory ↦
                rw (h, directory)
                  (Ensures-bind Q (require (not (locate == 0))) _ λ b i.
                    Ensures-bind Q (symbol m 11 8) _ λ name j.
                      Ensures-then (λ d'. d'.complete ≡ d.complete) Q (emplaced d locate name) _
                        (emplaced-complete d locate name) λ d' same. on d'.complete same)
            | inr i ↦
                elim (Bool-cases (is_one_of c (65 ∷ 70 ∷ 69 ∷ 67 ∷ 88 ∷ 68 ∷ 85 ∷ 80 ∷ 81 ∷ []))) [
                  | inl listed ↦
                      rw (h, i, is_one_of, listed)
                        (Ensures-bind Q (lookup locate d.symbols) _ λ name j.
                          Ensures-bind Q (itch_order m c name) _ λ e k. on d.complete refl)
                  | inr rest ↦ rw (h, i, is_one_of, rest) (on d.complete refl)
                ]
          ]
    ]

pub itch_event-ended :
    (d : ItchDecoder) (m : List ℕ) (c locate : ℕ)
    → get_elem? m 0 ≡ some c
    → d.complete ≡ false
    → (r : FeedEvent × ItchDecoder) → itch_event d m c locate ≡ some r
    → (r.1.complete ≡ true) ↔ EndsMessages m
itch_event-ended d m c locate at open_still r found =
    let ends =
      Ensures-elim (λ r. Ends m r.1.complete) _ r (itch_event-Ends d m c locate at open_still)
        found in
    (ends.true_at, ends.at_end)
