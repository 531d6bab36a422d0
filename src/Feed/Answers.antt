-- ===== src/Feed/Answers.antt =====
-- What `Books::consume` of src/feed/books.cpp leaves of a feed, also where it throws.
use limit_order_book.Base.{Bool, false, some, nat_eq, ◌≡◌}
use limit_order_book.Map.{lookup}
use limit_order_book.Book.State.{OrderBook}
use limit_order_book.Feed.Keys.{text_eq, BookKey, book_key_eq, order_key_eq}
use limit_order_book.Feed.Books.{FeedBooks}
use limit_order_book.Trading.Engine.Ensures.{Ensures}
use limit_order_book.Feed.Valid.{BooksValid}

-- What `consume` leaves of a feed: valid books, and after an exception an invalid feed with all its
-- orders and with all its books as they were.
pub record Answered (b : FeedBooks) (p : Bool × FeedBooks) : Type 0 where
  pub books_valid : BooksValid p.1
  pub invalid : p.0 ≡ false → p.1.valid ≡ false
  pub orders_kept : p.0 ≡ false → p.1.orders ≡ b.orders
  pub books_kept :
      p.0 ≡ false
      → (k : BookKey) (book : OrderBook) → lookup k b.books ≡ some book
      → lookup k p.1.books ≡ some book
