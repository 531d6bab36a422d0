-- ===== src/Feed/Bytes.antt =====
-- The readers of src/feed/bytes.hpp. `none` is the exception of `require`.
use limit_order_book.Base.{
  ℕ, ◌+◌, ◌-◌, ◌*◌, ◌%◌, Bool, true, false, not, ◌&&◌, ◌||◌, Option, none, some, List, [], ◌∷◌,
  length, take, drop, leb, ◌==◌, nat_eq, if◌then◌else◌,
}
use limit_order_book.Types.{Side, bid, ask, u64_mod}
use limit_order_book.Feed.Keys.{Text}

-- The loop from the first byte to the last; `value` is the number so far.
unfoldable pub integer_from : List ℕ → ℕ → ℕ
integer_from [] value = value
integer_from (b ∷ bs) value = integer_from bs ((value * 256) % u64_mod + b)

abbrev pub reversed : List ℕ → List ℕ → List ℕ
reversed [] acc = acc
reversed (b ∷ bs) acc = reversed bs (b ∷ acc)

unfoldable pub integer : List ℕ → ℕ → ℕ → Bool → Option ℕ
unfolding integer_from
integer b pos size little =
    let bytes = take size (drop pos b) in
    if leb size 8 && (leb pos (length b) && leb size (length b - pos))
    then some (integer_from (if little then reversed bytes [] else bytes) 0)
    else none

abbrev pub all_printable : List ℕ → Bool
all_printable [] = true
all_printable (b ∷ bs) = (leb 32 b && leb b 126) && all_printable bs

-- The text without its spaces at the end.
abbrev pub trim_end : List ℕ → List ℕ
trim_end [] = []
trim_end (b ∷ bs) = elim (trim_end bs) [ [] ↦ if b == 32 then [] else b ∷ [] | c ∷ cs ↦ b ∷ c ∷ cs ]

abbrev pub has_space : List ℕ → Bool
has_space [] = false
has_space (b ∷ bs) = (b == 32) || has_space bs

abbrev pub is_blank : List ℕ → Bool
is_blank [] = true
is_blank (b ∷ bs) = false

unfoldable pub symbol : List ℕ → ℕ → ℕ → Option Text
symbol b pos size =
    let bytes = take size (drop pos b) in
    let result = trim_end bytes in
    if not (leb pos (length b) && leb size (length b - pos))
    then none
    else if not (all_printable bytes)
    then none
    else if is_blank result || has_space result
    then none
    else some result

-- 'B' is 66 and 'S' is 83.
unfoldable pub side_of_char : ℕ → Option Side
side_of_char c = if c == 66 then some bid else if c == 83 then some ask else none
