-- ===== src/Feed/Valid.antt =====
-- The books of a feed stay valid, and an error poisons them.
use limit_order_book.Base.{
  ◌+◌, ◌%◌, ℕ, ◌-◌, ◌<◌, Bool, true, not, ◌&&◌, ◌||◌, Option, none, some, [], ◌∷◌, ltb, leb, ◌==◌,
  nat_eq, if◌then◌else◌, ◌≡◌, refl, sym, ap, ◌∙◌, subst, arith, Bool-cases, Option-cases, inl, inr,
}
use limit_order_book.Map.{Map, lookup, contains, insert, modify}
use limit_order_book.Map.Laws.{lookup-insert, lookup-modify}
use limit_order_book.Types.{Side, ApplyResult, is_ok, AddOrder, u32_mod, u64_mod}
use limit_order_book.Book.State.{OrderBook, Allocation, empty_book}
use limit_order_book.Book.Apply.{apply_add}
use limit_order_book.Book.Invariant.{IsValid}
use limit_order_book.Book.Invariant.Add.{apply_add-IsValid}
use limit_order_book.Book.Invariant.Remove.{apply_cancel-IsValid, apply_execute-IsValid}
use limit_order_book.Book.Invariant.Replaced.{replace-IsValid}
use limit_order_book.Book.Reachable.{created, Reachable-IsValid}
use limit_order_book.Feed.Keys.{
  Text, text_eq, BookKey, OrderKey, book_key_eq, order_key_eq, book_key_beq_iff, book_key_before,
}
use limit_order_book.Feed.Books.{
  EventType, FeedEvent, Tracked, FeedBooks, selected, is_empty_text, applied_book, feed_add, key_of,
  book_of, is_cleared, clear_books, book_or_empty, add_selected, add_event, on_book, track_left,
  cancel_on, execute_on, replace_on, remaining_on, delete_event, decrease_event, remaining_event,
  replace_event, move_tracked, change_tracked, follow_up, apply_typed, apply_feed,
}
use limit_order_book.Trading.Engine.Ensures.{Ensures, Ensures-bind, Ensures-then}

abbrev pub BooksValid : FeedBooks → Type 0
BooksValid b = (k : BookKey) (book : OrderBook) → lookup k b.books ≡ some book → IsValid book

abbrev Small : AddOrder → Type 0
Small o = o.quantity < u32_mod

feed_add-Small :
    (id : ℕ) (side : Side) (price quantity : ℕ) → Ensures Small (feed_add id side price quantity)
feed_add-Small id side price quantity =
    elim (Bool-cases
      ((ltb 0 price && ltb price u32_mod) && (ltb 0 quantity && ltb quantity u32_mod))) [
        | inl h ↦ rw h (ground (arith, h))
        | inr h ↦ rw h tt
      ]

applied_book-IsValid :
    (p : ApplyResult × OrderBook) → IsValid p.1 → Ensures IsValid (applied_book p)
applied_book-IsValid (r, book) v = elim (Bool-cases (is_ok r)) [ inl h ↦ rw h v | inr h ↦ rw h tt ]

module _ (b : FeedBooks) (all : BooksValid b) where
  BooksValid-modify :
      (k : BookKey) (book : OrderBook) (n : ℕ)
      → IsValid book
      → BooksValid (record b { books = modify k (λ _. book) b.books; updates = n })
  BooksValid-modify k book n v j found h = elim (Bool-cases (k == j)) [
    | inr apart ↦ all j found (ground (arith, lookup-modify k (λ _. book) b.books j, apart, h))
    | inl same ↦ elim (Option-cases (lookup j b.books)) [
      | inl missing ↦
          absurd (ground (arith, lookup-modify k (λ _. book) b.books j, same, missing, h))
      | inr (old, there) ↦
          subst IsValid (ground (arith, lookup-modify k (λ _. book) b.books j, same, there, h)) v
    ]
  ]

  pub BooksValid-insert :
      (k : BookKey) (book : OrderBook) (n : ℕ)
      → IsValid book
      → BooksValid (record b { books = insert book_key_before k book b.books; updates = n })
  BooksValid-insert k book n v j found h = elim (Bool-cases (k == j)) [
    | inl same ↦
        subst IsValid (ground (arith, lookup-insert book_key_before k book b.books j, same, h)) v
    | inr apart ↦
        all j found (ground (arith, lookup-insert book_key_before k book b.books j, apart, h))
  ]

  on_book-BooksValid :
      (f : OrderBook → Option OrderBook) (k : BookKey)
      → ((book : OrderBook) → IsValid book → Ensures IsValid (f book))
      → Ensures BooksValid (on_book f b k (lookup k b.books))
  on_book-BooksValid f k keeps = elim (Option-cases (lookup k b.books)) [
    | inl h ↦ rw h all
    | inr (book, h) ↦ rw h (
        Ensures-then IsValid BooksValid (f book) _ (keeps book (all k book h))
          λ book' v. BooksValid-modify k book' ((b.updates + 1) % u64_mod) v)
  ]

cancel_on-IsValid :
    (e : FeedEvent) (book : OrderBook) → IsValid book → Ensures IsValid (cancel_on e book)
cancel_on-IsValid e book v = applied_book-IsValid _ (apply_cancel-IsValid book _ v)

execute_on-IsValid :
    (e : FeedEvent) (book : OrderBook) → IsValid book → Ensures IsValid (execute_on e book)
execute_on-IsValid e book v = applied_book-IsValid _ (apply_execute-IsValid book _ v)

replace_on-IsValid :
    (alloc : Allocation) (e : FeedEvent) (id : ℕ) (side : Side) (price quantity : ℕ)
    (maintain : Bool) (book : OrderBook)
    → IsValid book
    → Ensures IsValid (replace_on alloc e (feed_add id side price quantity) maintain book)
replace_on-IsValid alloc e id side price quantity maintain book v =
    Ensures-then Small IsValid (feed_add id side price quantity) _
      (feed_add-Small id side price quantity)
      λ o small. applied_book-IsValid _ (replace-IsValid alloc book e.order_id o maintain small v)

remaining_on-IsValid :
    (alloc : Allocation) (e : FeedEvent) (old : Tracked) (book : OrderBook)
    → IsValid book
    → Ensures IsValid (remaining_on alloc e old book)
remaining_on-IsValid alloc e old book v = elim (Bool-cases (e.remaining == 0)) [
  | inl h ↦ rw h (cancel_on-IsValid e book v)
  | inr h ↦ rw h (replace_on-IsValid alloc e e.order_id old.side old.price e.remaining true book v)
]

book_or_empty-IsValid :
    (b : FeedBooks) (k : BookKey) → BooksValid b → IsValid (book_or_empty b.books k)
book_or_empty-IsValid b k all = elim (Option-cases (lookup k b.books)) [
  | inl h ↦ rw (book_or_empty, h) (Reachable-IsValid empty_book (created true))
  | inr (book, h) ↦ rw (book_or_empty, h) (all k book h)
]

track_left-BooksValid :
    (b : FeedBooks) (key : OrderKey) (left : ℕ) → BooksValid b → BooksValid (track_left b key left)
track_left-BooksValid b key left all = elim (Bool-cases (left == 0)) [
  | inl h ↦ rw h all
  | inr h ↦ rw h all
]

move_tracked-BooksValid :
    (b : FeedBooks) (key next : OrderKey) (t : Tracked)
    → BooksValid b
    → BooksValid (move_tracked b key next t)
move_tracked-BooksValid b key next t all = elim (Bool-cases (next == key)) [
  | inl h ↦ rw h all
  | inr h ↦ rw h all
]

-- A cleared key is gone, and the others are as they were.
lookup-clear_books :
    (venue : Text) (channel : ℕ) (k : BookKey) (m : Map BookKey OrderBook)
    → lookup k (clear_books venue channel m)
      ≡ (if is_cleared venue channel k then none else lookup k m)
unfolding clear_books lookup
lookup-clear_books venue channel k [] = ground arith
lookup-clear_books venue channel k ((j, book) ∷ rest) =
    let ih = lookup-clear_books venue channel k rest in
    elim (Bool-cases (j == k)) [
      | inl same ↦
          let e = (book_key_beq_iff j k).0 same in
          elim (Bool-cases (is_cleared venue channel j)) [
            | inl c ↦
                let here = ap (is_cleared venue channel) (sym e) ∙ c in
                rw (c, here) (ih ∙ rw here refl)
            | inr c ↦
                let here = ap (is_cleared venue channel) (sym e) ∙ c in rw (c, here, same) refl
          ]
      | inr apart ↦ elim (Bool-cases (is_cleared venue channel j)) [
        | inl c ↦ rw (c, apart) ih
        | inr c ↦ rw (c, apart) ih
      ]
    ]

module _ (alloc : Allocation) (b : FeedBooks) (all : BooksValid b) (venue : Text)
    (e : FeedEvent) where
  add_selected-BooksValid : (k : BookKey) → Ensures BooksValid (add_selected alloc b k e)
  add_selected-BooksValid k =
      Ensures-then Small BooksValid (feed_add e.order_id e.side e.price e.quantity) _
        (feed_add-Small e.order_id e.side e.price e.quantity)
        λ o small.
          Ensures-then IsValid BooksValid
            (applied_book (apply_add alloc (book_or_empty b.books k) o)) _
            (applied_book-IsValid _ (
              apply_add-IsValid alloc (book_or_empty b.books k) o small
                (book_or_empty-IsValid b k all)))
            λ book v. BooksValid-insert b all k book ((b.updates + 1) % u64_mod) v

  add_event-BooksValid : Ensures BooksValid (add_event alloc b venue e)
  unfolding add_event
  add_event-BooksValid =
      elim (Bool-cases (is_empty_text e.symbol || contains (key_of venue e e.order_id) b.orders)) [
        | inl h ↦ rw h tt
        | inr h ↦ elim (Bool-cases ((e.price == 0) || (e.quantity == 0))) [
          | inl k ↦ rw (h, k) tt
          | inr k ↦
              rw (h, k)
                (Ensures-then BooksValid BooksValid
                  (if selected b e.symbol then add_selected alloc b (book_of venue e) e else some b)
                  _
                  (elim (Bool-cases (selected b e.symbol)) [
                    | inl l ↦ rw l (add_selected-BooksValid (book_of venue e))
                    | inr l ↦ rw l all
                  ])
                  λ b' all'. all')
        ]
      ]

  decrease-BooksValid :
      (old : Tracked) → Ensures BooksValid (decrease_event b (key_of venue e e.order_id) e old)
  unfolding decrease_event
  decrease-BooksValid old = elim (Bool-cases ((e.quantity == 0) || ltb old.quantity e.quantity)) [
    | inl h ↦ rw h tt
    | inr h ↦ rw h (
        Ensures-then BooksValid BooksValid
          (on_book (execute_on e) b old.book (lookup old.book b.books)) _
          (on_book-BooksValid b all (execute_on e) old.book (execute_on-IsValid e))
          λ b' all'.
            track_left-BooksValid b' (key_of venue e e.order_id) (old.quantity - e.quantity) all')
  ]

  replace-BooksValid :
      (old : Tracked)
      → Ensures BooksValid
          (replace_event alloc b (key_of venue e e.order_id) (key_of venue e e.new_order_id) e old)
  unfolding replace_event
  replace-BooksValid old =
      let key = key_of venue e e.order_id in
      let next = key_of venue e e.new_order_id in
      let change =
        replace_on alloc e (feed_add e.new_order_id old.side e.price e.quantity)
          e.maintain_priority in
      elim (Bool-cases (not (next == key) && contains next b.orders)) [
        | inl h ↦ rw h tt
        | inr h ↦ elim (Bool-cases ((e.price == 0) || (e.quantity == 0))) [
          | inl k ↦ rw (h, k) tt
          | inr k ↦
              elim (Bool-cases
                (e.maintain_priority && (not (next == key) || not (e.price == old.price)))) [
                  | inl l ↦ rw (h, k, l) tt
                  | inr l ↦
                      rw (h, k, l)
                        (Ensures-then BooksValid BooksValid
                          (on_book change b old.book (lookup old.book b.books)) _
                          (on_book-BooksValid b all change old.book (
                            replace_on-IsValid alloc e e.new_order_id old.side e.price e.quantity
                              e.maintain_priority))
                          λ b' all'.
                            move_tracked-BooksValid b' key next
                              (record old { price = e.price; quantity = e.quantity }) all')
                ]
        ]
      ]

  change_tracked-BooksValid :
      (t : EventType) (old : Tracked) → Ensures BooksValid (change_tracked alloc b venue e t old)
  unfolding delete_event decrease_event remaining_event replace_event
  change_tracked-BooksValid EventType.delete old =
      Ensures-then BooksValid BooksValid
        (on_book (cancel_on e) b old.book (lookup old.book b.books)) _
        (on_book-BooksValid b all (cancel_on e) old.book (cancel_on-IsValid e)) λ b' all'. all'
  change_tracked-BooksValid EventType.reduce old = decrease-BooksValid old
  change_tracked-BooksValid EventType.execute old = decrease-BooksValid old
  change_tracked-BooksValid EventType.execute_remaining old =
      elim (Bool-cases ((e.quantity == 0) || leb u32_mod e.remaining)) [
        | inl h ↦ rw h tt
        | inr h ↦ rw h (
            Ensures-then BooksValid BooksValid
              (on_book (remaining_on alloc e old) b old.book (lookup old.book b.books)) _
              (on_book-BooksValid b all (remaining_on alloc e old) old.book
                (remaining_on-IsValid alloc e old))
              λ b' all'. track_left-BooksValid b' (key_of venue e e.order_id) e.remaining all')
      ]
  change_tracked-BooksValid EventType.replace old = replace-BooksValid old
  change_tracked-BooksValid EventType.metadata old = tt
  change_tracked-BooksValid EventType.directory old = tt
  change_tracked-BooksValid EventType.add old = tt
  change_tracked-BooksValid EventType.trade old = tt
  change_tracked-BooksValid EventType.clear old = tt

  follow_up-BooksValid : Ensures BooksValid (follow_up alloc b venue e)
  unfolding follow_up
  follow_up-BooksValid =
      Ensures-bind BooksValid (lookup (key_of venue e e.order_id) b.orders) _ λ old h.
        elim (Bool-cases (is_empty_text e.symbol || (old.book.symbol == e.symbol))) [
          | inl k ↦ rw k (change_tracked-BooksValid e.type old)
          | inr k ↦ rw k tt
        ]

  cleared-BooksValid :
      (k : BookKey) (book : OrderBook)
      → lookup k (clear_books venue e.channel b.books) ≡ some book
      → IsValid book
  cleared-BooksValid k book h =
      let there = lookup-clear_books venue e.channel k b.books in
      elim (Bool-cases (is_cleared venue e.channel k)) [
        | inl c ↦ absurd (ground (arith, there, c, h))
        | inr c ↦ all k book (ground (arith, there, c, h))
      ]

  apply_typed-BooksValid : (t : EventType) → Ensures BooksValid (apply_typed alloc b venue e t)
  unfolding apply_typed
  apply_typed-BooksValid EventType.metadata = all
  apply_typed-BooksValid EventType.directory = all
  apply_typed-BooksValid EventType.trade = all
  apply_typed-BooksValid EventType.clear = cleared-BooksValid
  apply_typed-BooksValid EventType.add = add_event-BooksValid
  apply_typed-BooksValid EventType.delete = follow_up-BooksValid
  apply_typed-BooksValid EventType.reduce = follow_up-BooksValid
  apply_typed-BooksValid EventType.execute = follow_up-BooksValid
  apply_typed-BooksValid EventType.execute_remaining = follow_up-BooksValid
  apply_typed-BooksValid EventType.replace = follow_up-BooksValid

  pub apply_feed-BooksValid : Ensures BooksValid (apply_feed alloc b venue e)
  unfolding apply_feed
  apply_feed-BooksValid = elim (Bool-cases (is_empty_text venue)) [
    | inl h ↦ rw h tt
    | inr h ↦ rw h (apply_typed-BooksValid e.type)
  ]
