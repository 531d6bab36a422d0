-- ===== src/EventIo/RoundTrip.antt =====
-- Every event that src/io/event_io.cpp writes is read back.
use limit_order_book.Base.{
  ℕ, ◌<◌, true, false, some, List, [], ◌∷◌, ◌++◌, ◌==◌, nat_eq, ◌≡◌, refl, ◌∙◌, ap, arith,
}
use limit_order_book.Types.{
  Side, bid, ask, other, side_eq, is_known, EventPayload, add_order, cancel_order, execute_order,
  MarketEvent, u32_mod, u64_mod,
}
use limit_order_book.Feed.Keys.{Text, text_eq}
use limit_order_book.EventIo.{
  found, parse_side, side_word, parse_add, parse_cancel, parse_execute, parse_typed, parse_fields,
  parse_event_line, is_skipped, split_csv, trim_line, print, payload_csv, write_event_csv, add_word,
  cancel_word, execute_word,
}
use limit_order_book.EventIo.Numbers.{
  all_plain, starts_digit, parse_integer-print, print-plain, print-starts,
}
use limit_order_book.EventIo.Fields.{
  split_csv-field, split_csv-last, trim_line-field, trim_line-last,
}

-- The numbers of a payload fit their types and the side is one of the two.
abbrev pub PayloadFits : EventPayload → Type 0
PayloadFits (add_order o) =
    (o.order_id < u64_mod) × (is_known o.side ≡ true) × (o.price < u32_mod) × (o.quantity < u32_mod)
PayloadFits (cancel_order o) = o.order_id < u64_mod
PayloadFits (execute_order o) = (o.order_id < u64_mod) × (o.quantity < u32_mod)

pub record EventFits (e : MarketEvent) : Type 0 where
  pub sequence_fits : e.sequence < u64_mod
  pub instrument_id_fits : e.instrument_id < u64_mod
  pub payload_fits : PayloadFits e.payload

parse_side-word : (s : Side) → is_known s ≡ true → parse_side (side_word s) ≡ some s
unfolding parse_side
parse_side-word bid h = refl
parse_side-word ask h = refl
parse_side-word other h = cc

side_word-plain : (s : Side) → all_plain (side_word s) ≡ true
side_word-plain bid = refl
side_word-plain ask = refl
side_word-plain other = refl

-- The text of a payload without its newline.
abbrev payload_text : EventPayload → Text
payload_text (add_order o) =
    add_word
    ++ 44
      ∷ (print o.order_id
          ++ 44 ∷ (side_word o.side ++ 44 ∷ (print o.price ++ 44 ∷ print o.quantity)))
payload_text (cancel_order o) = cancel_word ++ 44 ∷ (print o.order_id ++ 44 ∷ 44 ∷ 44 ∷ [])
payload_text (execute_order o) =
    execute_word ++ 44 ∷ (print o.order_id ++ 44 ∷ 44 ∷ 44 ∷ print o.quantity)

-- The fields of a payload behind the two numbers of the event.
abbrev payload_fields : EventPayload → List Text
payload_fields (add_order o) =
    add_word ∷ print o.order_id ∷ side_word o.side ∷ print o.price ∷ print o.quantity ∷ []
payload_fields (cancel_order o) = cancel_word ∷ print o.order_id ∷ [] ∷ [] ∷ [] ∷ []
payload_fields (execute_order o) = execute_word ∷ print o.order_id ∷ [] ∷ [] ∷ print o.quantity ∷ []

trim-payload_csv : (p : EventPayload) → trim_line (payload_csv p) ≡ payload_text p
unfolding payload_csv
trim-payload_csv (add_order o) =
    rw
      (
        trim_line-field add_word (
            print o.order_id
            ++ 44
              ∷ (side_word o.side ++ 44 ∷ (print o.price ++ 44 ∷ (print o.quantity ++ 10 ∷ [])))),
        trim_line-field (print o.order_id)
            (side_word o.side ++ 44 ∷ (print o.price ++ 44 ∷ (print o.quantity ++ 10 ∷ []))),
        trim_line-field (side_word o.side) (print o.price ++ 44 ∷ (print o.quantity ++ 10 ∷ [])),
        trim_line-field (print o.price) (print o.quantity ++ 10 ∷ []),
        trim_line-last (print o.quantity) (print-plain o.quantity),
      )
      refl
trim-payload_csv (cancel_order o) =
    rw
      (
        trim_line-field cancel_word (print o.order_id ++ 44 ∷ 44 ∷ 44 ∷ 10 ∷ []),
        trim_line-field (print o.order_id) (44 ∷ 44 ∷ 10 ∷ []),
        trim_line-field [] (44 ∷ 10 ∷ []),
        trim_line-field [] (10 ∷ []),
        trim_line-last [] refl,
      )
      refl
trim-payload_csv (execute_order o) =
    rw
      (
        trim_line-field execute_word
            (print o.order_id ++ 44 ∷ 44 ∷ 44 ∷ (print o.quantity ++ 10 ∷ [])),
        trim_line-field (print o.order_id) (44 ∷ 44 ∷ (print o.quantity ++ 10 ∷ [])),
        trim_line-field [] (44 ∷ (print o.quantity ++ 10 ∷ [])),
        trim_line-field [] (print o.quantity ++ 10 ∷ []),
        trim_line-last (print o.quantity) (print-plain o.quantity),
      )
      refl

split-payload_text : (p : EventPayload) → split_csv (payload_text p) ≡ payload_fields p
split-payload_text (add_order o) =
    split_csv-field add_word _ refl
    ∙ ap (λ l. add_word ∷ l)
        (split_csv-field (print o.order_id) _ (print-plain o.order_id)
          ∙ ap (λ l. print o.order_id ∷ l)
              (split_csv-field (side_word o.side) _ (side_word-plain o.side)
                ∙ ap (λ l. side_word o.side ∷ l)
                    (split_csv-field (print o.price) _ (print-plain o.price)
                      ∙ ap (λ l. print o.price ∷ l)
                          (split_csv-last (print o.quantity) (print-plain o.quantity)))))
split-payload_text (cancel_order o) =
    split_csv-field cancel_word _ refl
    ∙ ap (λ l. cancel_word ∷ l)
        (split_csv-field (print o.order_id) _ (print-plain o.order_id)
          ∙ ap (λ l. print o.order_id ∷ l)
              (split_csv-field [] (44 ∷ []) refl
                ∙ ap (λ l. [] ∷ l)
                    (split_csv-field [] [] refl ∙ ap (λ l. [] ∷ l) (split_csv-last [] refl))))
split-payload_text (execute_order o) =
    split_csv-field execute_word _ refl
    ∙ ap (λ l. execute_word ∷ l)
        (split_csv-field (print o.order_id) _ (print-plain o.order_id)
          ∙ ap (λ l. print o.order_id ∷ l)
              (split_csv-field [] (44 ∷ print o.quantity) refl
                ∙ ap (λ l. [] ∷ l)
                    (split_csv-field [] (print o.quantity) refl
                      ∙ ap (λ l. [] ∷ l)
                          (split_csv-last (print o.quantity) (print-plain o.quantity)))))

module _ (sequence instrument_id : ℕ) (fits : sequence < u64_mod)
    (fits' : instrument_id < u64_mod) where
  fields_read :
      (p : EventPayload)
      → PayloadFits p
      → parse_fields (print sequence ∷ print instrument_id ∷ payload_fields p)
        ≡ found sequence instrument_id p
  unfolding parse_fields parse_typed parse_add parse_cancel parse_execute
  fields_read (add_order o) (id_fits, known, price_fits, quantity_fits) =
      rw
        (
          parse_integer-print u64_mod sequence fits fits,
          parse_integer-print u64_mod instrument_id fits' fits',
          parse_integer-print u64_mod o.order_id id_fits id_fits,
          parse_side-word o.side known,
          parse_integer-print u32_mod o.price price_fits (omega (arith, price_fits)),
          parse_integer-print u32_mod o.quantity quantity_fits (omega (arith, quantity_fits)),
        )
        refl
  fields_read (cancel_order o) id_fits =
      rw
        (
          parse_integer-print u64_mod sequence fits fits,
          parse_integer-print u64_mod instrument_id fits' fits',
          parse_integer-print u64_mod o.order_id id_fits id_fits,
        )
        refl
  fields_read (execute_order o) (id_fits, quantity_fits) =
      rw
        (
          parse_integer-print u64_mod sequence fits fits,
          parse_integer-print u64_mod instrument_id fits' fits',
          parse_integer-print u64_mod o.order_id id_fits id_fits,
          parse_integer-print u32_mod o.quantity quantity_fits (omega (arith, quantity_fits)),
        )
        refl

-- A text that starts with a digit is no comment and no header.
not_skipped : (f rest : Text) → starts_digit f ≡ true → is_skipped (f ++ rest) ≡ false
not_skipped [] rest h = cc
not_skipped (c ∷ cs) rest h =
    let no_hash : c == 35 ≡ false = ground (arith, h) in
    let no_s : c == 115 ≡ false = ground (arith, h) in rw (is_skipped, no_hash, no_s) refl

-- Every event whose numbers fit their types and whose side is known is read back from the line that
-- is written for it.
pub write_event_round_trip :
    (e : MarketEvent)
    → EventFits e
    → parse_event_line (write_event_csv e) ≡ record { event = some e; error = "" }
unfolding write_event_csv parse_event_line
write_event_round_trip e fits =
    let rest = print e.instrument_id ++ 44 ∷ payload_text e.payload in
    let trimmed : trim_line (write_event_csv e) ≡ print e.sequence ++ 44 ∷ rest =
      trim_line-field (print e.sequence) _
      ∙ ap (λ t. print e.sequence ++ 44 ∷ t)
          (trim_line-field (print e.instrument_id) _
            ∙ ap (λ t. print e.instrument_id ++ 44 ∷ t) (trim-payload_csv e.payload)) in
    let cut : split_csv (print e.sequence ++ 44 ∷ rest)
        ≡ print e.sequence ∷ print e.instrument_id ∷ payload_fields e.payload =
      split_csv-field (print e.sequence) _ (print-plain e.sequence)
      ∙ ap (λ l. print e.sequence ∷ l)
          (split_csv-field (print e.instrument_id) _ (print-plain e.instrument_id)
            ∙ ap (λ l. print e.instrument_id ∷ l) (split-payload_text e.payload)) in
    rw
      (
        trimmed,
        is_skipped,
        not_skipped (print e.sequence) (44 ∷ rest) (print-starts e.sequence fits.sequence_fits),
        cut,
      )
      (fields_read e.sequence e.instrument_id fits.sequence_fits fits.instrument_id_fits e.payload
        fits.payload_fits)
