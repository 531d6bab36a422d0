-- ===== src/EventIo/Fields.antt =====
-- A line of src/io/event_io.cpp cut into the fields that were written to it.
use limit_order_book.Base.{
  both_true, not-true, true, not, [], ◌∷◌, ◌++◌, ◌==◌, nat_eq, if◌then◌else◌, ◌≡◌, refl,
}
use limit_order_book.Feed.Keys.{Text}
use limit_order_book.EventIo.{split_csv, trim_line, is_newline}
use limit_order_book.EventIo.Numbers.{is_plain, all_plain}

pub split_csv-field :
    (f rest : Text) → all_plain f ≡ true → split_csv (f ++ 44 ∷ rest) ≡ f ∷ split_csv rest
unfolding split_csv
split_csv-field [] rest h = refl
split_csv-field (c ∷ cs) rest h =
    let (plain, others) = both_true (is_plain c) (all_plain cs) h in
    let no_comma = not-true (c == 44) (both_true (not (c == 44)) (not (is_newline c)) plain).0 in
    rw (no_comma, split_csv-field cs rest others) refl

pub split_csv-last : (f : Text) → all_plain f ≡ true → split_csv f ≡ f ∷ []
unfolding split_csv
split_csv-last [] h = refl
split_csv-last (c ∷ cs) h =
    let (plain, others) = both_true (is_plain c) (all_plain cs) h in
    let no_comma = not-true (c == 44) (both_true (not (c == 44)) (not (is_newline c)) plain).0 in
    rw (no_comma, split_csv-last cs others) refl

-- A comma keeps what is in front of it.
pub trim_line-field : (f rest : Text) → trim_line (f ++ 44 ∷ rest) ≡ f ++ 44 ∷ trim_line rest
unfolding trim_line
trim_line-field [] rest = kept (trim_line rest)
  where
    kept :
        (t : Text)
        → elim t [ [] ↦ if is_newline 44 then [] else 44 ∷ [] | d ∷ ds ↦ 44 ∷ d ∷ ds ] ≡ 44 ∷ t
    kept [] = refl
    kept (d ∷ ds) = refl
trim_line-field (c ∷ []) rest = rw (trim_line-field [] rest) refl
trim_line-field (c ∷ d ∷ ds) rest = rw (trim_line-field (d ∷ ds) rest) refl

pub trim_line-last : (f : Text) → all_plain f ≡ true → trim_line (f ++ 10 ∷ []) ≡ f
unfolding trim_line
trim_line-last [] h = refl
trim_line-last (c ∷ []) h =
    let (plain, others) = both_true (is_plain c) true h in
    let no_newline =
      not-true (is_newline c) (both_true (not (c == 44)) (not (is_newline c)) plain).1 in
    rw (is_newline, no_newline) refl
trim_line-last (c ∷ d ∷ ds) h =
    rw (trim_line-last (d ∷ ds) (both_true (is_plain c) (all_plain (d ∷ ds)) h).1) refl
