-- ===== src/Trading/Journal/Tests.antt =====
-- A journal of one order.
use limit_order_book.Base.{ℕ, some, none, [], ◌∷◌, ◌≡◌, refl, List}
use limit_order_book.Trading.Codec.Tests.{order, order-MessageFits}
use limit_order_book.Trading.Journal.{open_journal, header, read_all, recover_records}
use limit_order_book.Trading.Journal.Recovery.{IsJournaled, append_all, journal_round_trip}
use limit_order_book.Trading.Journal.Whole.{Opened, open_journal-Opened}

abbrev order-IsJournaled : IsJournaled order
order-IsJournaled = record { fits = order-MessageFits; a_command = refl; an_action = refl }

journal_round_trip_example :
    (open_journal 77 [] ≡ some ([], header 77))
    × (file : List ℕ) × (append_all (header 77) (order ∷ []) ≡ some file)
    × (open_journal 77 file ≡ some (order ∷ [], file))
journal_round_trip_example = journal_round_trip 77 (order ∷ []) (order-IsJournaled, tt)

reopened : open_journal 77 (header 77) ≡ some ([], header 77)
unfolding open_journal read_all recover_records
reopened = refl

open_journal-Opened_example : Opened 77 (header 77) ([], header 77)
open_journal-Opened_example = open_journal-Opened 77 (header 77) (header 77) [] reopened

-- A header that is torn.
refused : open_journal 77 (76 ∷ 74 ∷ []) ≡ none
unfolding open_journal read_all
refused = refl
