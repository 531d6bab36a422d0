-- ===== src/Trading/Engine/Numbering.antt =====
-- Every step of the engine keeps its books valid, and numbers the updates of its batch one after
-- the other from the number that the engine had before.
pub mod Submit
pub mod Process
use limit_order_book.Base.{
  ℕ, zero, suc, ltb, ◌+◌, ◌%◌, ◌-◌, ◌≤◌, ◌<◌, Bool, true, false, not, ◌&&◌, Option, none, some,
  List, [], ◌∷◌, ◌++◌, ◌≡◌, ◌≢◌, refl, sym, ap, ◌∙◌, arith, ◌==◌, nat_eq, pair_eq, nat_beq_iff,
  length, length-append, subst, if◌then◌else◌, Bool-cases, inl, inr, map_option,
}
use limit_order_book.Map.{Map, lookup, modify, insert, contains}
use limit_order_book.Map.Laws.{lookup-modify, lookup-insert}
use limit_order_book.Types.{Side, ApplyResult, ok, is_ok, u32_mod, u64_mod}
use limit_order_book.Book.State.{OrderBook, Allocation}
use limit_order_book.Book.Apply.{apply_add, apply_cancel, apply_execute}
use limit_order_book.Book.Invariant.{IsValid}
use limit_order_book.Trading.Messages.{Message, Reject, ReportType, UpdateType}
use limit_order_book.Trading.Engine.State.{
  Engine, Batch, Run, ClientState, ◌>>=◌, report, update, reject, published,
}
use limit_order_book.Trading.Engine.Submit.{put_book, require_ok}

abbrev pub BooksOk : Map ℕ OrderBook → Type 0
BooksOk books = (i : ℕ) (b : OrderBook) → lookup i books ≡ some b → IsValid b

-- The messages carry the numbers from `n` on, as 64-bit words.
abbrev pub Consecutive : ℕ → List Message → Type 0
Consecutive n [] = Unit
Consecutive n (m ∷ ms) = (m.sequence ≡ n % u64_mod) × Consecutive (suc n) ms

-- The number after `k` updates: a 64-bit word once there was one.
abbrev pub after : ℕ → ℕ → ℕ
after n zero = n
after n (suc k) = (n + suc k) % u64_mod

after_next : (n k : ℕ) → (after n k + 1) % u64_mod ≡ after n (suc k)
after_next n zero = refl
after_next n (suc k) = omega arith

-- No client is forgotten.
abbrev pub Kept : Engine → Engine → Type 0
Kept e e' = (i : ℕ) → contains i e.clients ≡ true → contains i e'.clients ≡ true

pub record RunOk (start : Engine) (r : Run) : Type 0 where
  pub books_ok : BooksOk r.0.books
  pub numbered : r.0.sequence ≡ after start.sequence (length r.1.updates)
  pub consecutive : Consecutive (suc start.sequence) r.1.updates
  pub kept : Kept start r.0

Consecutive-append :
    (n : ℕ) (ms : List Message) (m : Message)
    → m.sequence ≡ (n + length ms) % u64_mod
    → Consecutive n ms
    → Consecutive n (ms ++ m ∷ [])
Consecutive-append n [] m h c = (omega arith, tt)
Consecutive-append n (x ∷ xs) m h c = (c.0, Consecutive-append (suc n) xs m (omega arith) c.1)

replaced_book :
    (book b : OrderBook) (o : Option OrderBook)
    → map_option (λ (_ : OrderBook). book) o ≡ some b
    → book ≡ b
replaced_book book b none h = cc
replaced_book book b (some x) h = cc

module _ {start : Engine} {r : Run} (ok : RunOk start r) where
  pub update-RunOk : (m : Message) (type : UpdateType) → RunOk start (update r m type)
  unfolding update
  update-RunOk m type =
      let next : (r.0.sequence + 1) % u64_mod ≡ after start.sequence (suc (length r.1.updates)) =
        ap (λ n. (n + 1) % u64_mod) ok.numbered ∙ after_next start.sequence (length r.1.updates) in
      let one_more : suc (length r.1.updates) ≡ length (r.1.updates ++ published r.0 m type ∷ []) =
        omega (arith, length-append r.1.updates (published r.0 m type ∷ [])) in
      record {
        books_ok = ok.books_ok;
        numbered = next ∙ ap (after start.sequence) one_more;
        consecutive =
            Consecutive-append (suc start.sequence) r.1.updates _
              (next ∙ ap (λ n. n % u64_mod) (omega arith)) ok.consecutive;
        kept = ok.kept;
      }

  pub report-RunOk :
      (m : Message) (type : ReportType) (why : Reject) → RunOk start (report r m type why)
  unfolding report
  report-RunOk m type why = record {
    books_ok = ok.books_ok;
    numbered = ok.numbered;
    consecutive = ok.consecutive;
    kept = ok.kept;
  }

  pub reject-RunOk : (m : Message) (why : Reject) → RunOk start (reject r m why)
  unfolding reject
  reject-RunOk m why = record {
    books_ok = ok.books_ok;
    numbered = ok.numbered;
    consecutive = ok.consecutive;
    kept = ok.kept;
  }

  -- A step that leaves the books and the numbers alone.
  pub frame-RunOk :
      (e : Engine)
      → e.books ≡ r.0.books
      → e.sequence ≡ r.0.sequence
      → Kept r.0 e
      → RunOk start (e, r.1)
  frame-RunOk e h k l = record {
    books_ok = subst BooksOk (sym h) ok.books_ok;
    numbered = k ∙ ok.numbered;
    consecutive = ok.consecutive;
    kept = λ i m. l i (ok.kept i m);
  }

  pub put_book-RunOk :
      (i : ℕ) (book : OrderBook) → IsValid book → RunOk start (put_book r.0 i book, r.1)
  put_book-RunOk i book v = record {
    books_ok = λ j b h. elim (Bool-cases (i == j)) [
      | inl same ↦
          subst IsValid
            (replaced_book book b (lookup j r.0.books)
              (ground (arith, lookup-modify i (λ _. book) r.0.books j)))
            v
      | inr apart ↦ ok.books_ok j b (ground (arith, lookup-modify i (λ _. book) r.0.books j))
    ];
    numbered = ok.numbered;
    consecutive = ok.consecutive;
    kept = ok.kept;
  }

pub require_ok-IsValid :
    (p : ApplyResult × OrderBook) (book : OrderBook)
    → IsValid p.1
    → require_ok p ≡ some book
    → IsValid book
require_ok-IsValid (res, b) book v h = subst IsValid (ground arith) v

pub contains-modify :
    (k i : ℕ) (f : ClientState → ClientState) (m : Map ℕ ClientState)
    → contains i m ≡ true
    → contains i (modify k f m) ≡ true
contains-modify k i f m h = elim (Bool-cases (k == i)) [
  | inl e ↦ ground (arith, lookup-modify k f m i, e)
  | inr e ↦ ground (arith, lookup-modify k f m i, e)
]

pub contains-insert :
    (k i : ℕ) (s : ClientState) (m : Map ℕ ClientState)
    → contains i m ≡ true
    → contains i (insert ltb k s m) ≡ true
contains-insert k i s m h = ground (arith, lookup-insert ltb k s m i)
