-- ===== src/Book/Levels/Steps.antt =====
-- The steps of the operations on the levels of one side: opening a level and queueing an order,
-- settling a level, changing a level in place.
use limit_order_book.Base.{
  ℕ, suc, ◌≤◌, ◌<◌, Bool, true, false, not, Option, none, some, [], ◌∷◌, ◌++◌, ◌≡◌, refl, ap, arith,
  ◌==◌, nat_eq, nat_beq_iff, Bool-cases, Option-cases, inl, inr, map_option, if◌then◌else◌, subst,
}
use limit_order_book.Map.{Map, lookup, contains, modify}
use limit_order_book.Map.Laws.{lookup-insert, lookup-erase, lookup-modify}
use limit_order_book.Map.Order.{Sorted, Sorted-insert, Sorted-erase, Sorted-modify}
use limit_order_book.Types.{Side, u32_mod}
use limit_order_book.Book.State.{
  OrderEntry, PriceLevel, Levels, before, empty_level, emplace_back, grow, is_empty, settle,
  erase_if_empty,
}
use limit_order_book.Book.Apply.{open_level}
use limit_order_book.Book.Levels.{
  QueueOk, LevelOk, LevelsOk, before-StrictOrder, empty_level-QueueOk, QueueOk-mono, QueueOk-push,
}

abbrev pub level_or_empty : Option PriceLevel → PriceLevel
level_or_empty none = empty_level
level_or_empty (some l) = l

-- try_emplace, emplace_back and the growth of the aggregate.
abbrev pub pushed : Side → ℕ → ℕ → OrderEntry → Levels → Levels
pushed s p n e ls =
    modify p (grow e.remaining_quantity)
      (modify p (emplace_back n e) (open_level s p (not (contains p ls)) ls))

lookup-open_level :
    (s : Side) (p : ℕ) (ls : Levels) (q : ℕ)
    → lookup q (open_level s p (not (contains p ls)) ls)
      ≡ (if p == q then some (level_or_empty (lookup p ls)) else lookup q ls)
unfolding open_level
lookup-open_level s p ls q = elim (Option-cases (lookup p ls)) [
  | inl e ↦ rw e (lookup-insert (before s) p empty_level ls q)
  | inr (l, e) ↦ rw e (ground (arith, nat_beq_iff p q, same q l e))
]
  where
    same : (q : ℕ) (l : PriceLevel) → lookup p ls ≡ some l → p ≡ q → lookup q ls ≡ some l
    same q l e h = subst (λ x. lookup x ls ≡ some l) h e

pub lookup-pushed :
    (s : Side) (p n : ℕ) (e : OrderEntry) (ls : Levels) (q : ℕ)
    → lookup q (pushed s p n e ls) ≡ (
        if p == q
        then some (grow e.remaining_quantity (emplace_back n e (level_or_empty (lookup p ls))))
        else lookup q ls)
lookup-pushed s p n e ls q = ground (
  arith,
  lookup-modify p (grow e.remaining_quantity)
      (modify p (emplace_back n e) (open_level s p (not (contains p ls)) ls)) q,
  lookup-modify p (emplace_back n e) (open_level s p (not (contains p ls)) ls) q,
  lookup-open_level s p ls q,
)

-- `modify` at the key itself.
lookup-modify_self :
    (p : ℕ) (f : PriceLevel → PriceLevel) (l : PriceLevel) (ls : Levels)
    → lookup p ls ≡ some l
    → lookup p (modify p f ls) ≡ some (f l)
lookup-modify_self p f l ls h = ground (arith, lookup-modify p f ls p, ap (map_option f) h)

pub lookup-settle :
    (p : ℕ) (f : PriceLevel → PriceLevel) (l : PriceLevel) (ls : Levels) (q : ℕ)
    → lookup p ls ≡ some l
    → lookup q (settle p f ls)
      ≡ (if p == q then (if is_empty (f l).orders then none else some (f l)) else lookup q ls)
unfolding erase_if_empty
lookup-settle p f l ls q h = rw (lookup-modify_self p f l ls h) (
    ground (
      arith,
      nat_beq_iff p q,
      lookup-erase p (modify p f ls) q,
      lookup-modify p f ls q,
      lookup-modify_self p f l ls h,
    ))

Sorted-open_level :
    (s : Side) (p : ℕ) (c : Bool) (ls : Levels)
    → Sorted (before s) ls
    → Sorted (before s) (open_level s p c ls)
unfolding open_level
Sorted-open_level s p true ls h = Sorted-insert (before s) (before-StrictOrder s) p empty_level ls h
Sorted-open_level s p false ls h = h

is_empty-append : (os : Map ℕ OrderEntry) (x : ℕ × OrderEntry) → is_empty (os ++ x ∷ []) ≡ false
is_empty-append [] x = refl
is_empty-append (o ∷ os) x = refl

module _ (s : Side) (next : ℕ) (ls : Levels) (ok : LevelsOk s next ls) where
  -- The queue of the level at `p`, which is empty if there is no level.
  pub queue_of : (p : ℕ) → QueueOk next (level_or_empty (lookup p ls))
  queue_of p = elim (Option-cases (lookup p ls)) [
    | inl h ↦ rw h (empty_level-QueueOk next)
    | inr (l, h) ↦ rw h (ok.each p l h).queue
  ]

  pub LevelsOk-mono : (m : ℕ) → next ≤ m → LevelsOk s m ls
  LevelsOk-mono m h = record {
    sorted = ok.sorted;
    each = λ p l e.
        let w = ok.each p l e in
        record { priced = w.priced; filled = w.filled; queue = QueueOk-mono next m l h w.queue };
  }

  -- The levels after a change of the level at `p` only.
  pub LevelsOk-at :
      (p : ℕ) (l' : PriceLevel) (ls' : Levels) (m : ℕ)
      → next ≤ m
      → Sorted (before s) ls'
      → LevelOk m p l'
      → ((q : ℕ) → lookup q ls' ≡ (if p == q then some l' else lookup q ls))
      → LevelsOk s m ls'
  LevelsOk-at p l' ls' m up sorted' new law = record {
    sorted = sorted';
    each = λ q l h. elim (Bool-cases (p == q)) [
      | inl same ↦
          let found : some l' ≡ some l = ground (arith, law q) in
          subst (λ x. LevelOk m x l) ((nat_beq_iff p q).0 same)
            (subst (LevelOk m p) (ground arith) new)
      | inr apart ↦ (LevelsOk-mono m up).each q l (ground (arith, law q))
    ];
  }

  pub LevelsOk-pushed :
      (p : ℕ) (e : OrderEntry)
      → 0 < p
      → 0 < e.remaining_quantity
      → e.remaining_quantity < u32_mod
      → LevelsOk s (suc next) (pushed s p next e ls)
  LevelsOk-pushed p e priced pos small =
      LevelsOk-at p _ (pushed s p next e ls) (suc next) (omega arith)
        (Sorted-modify (before s) (before-StrictOrder s) p (grow e.remaining_quantity) _ (
          Sorted-modify (before s) (before-StrictOrder s) p (emplace_back next e) _
            (Sorted-open_level s p (not (contains p ls)) ls ok.sorted)))
        (record {
          priced = priced;
          filled = is_empty-append (level_or_empty (lookup p ls)).orders (next, e);
          queue = QueueOk-push next e (level_or_empty (lookup p ls)) pos small (queue_of p);
        })
        (lookup-pushed s p next e ls)

  -- A level that is changed in place.
  pub LevelsOk-change :
      (p : ℕ) (l : PriceLevel) (f : PriceLevel → PriceLevel)
      → lookup p ls ≡ some l
      → QueueOk next (f l)
      → is_empty (f l).orders ≡ false
      → LevelsOk s next (modify p f ls)
  LevelsOk-change p l f h q kept =
      LevelsOk-at p (f l) (modify p f ls) next (omega arith)
        (Sorted-modify (before s) (before-StrictOrder s) p f ls ok.sorted)
        (record { priced = (ok.each p l h).priced; filled = kept; queue = q })
        (λ r. ground (arith, nat_beq_iff p r, lookup-modify p f ls r, ap (map_option f) h))

  -- A level that is changed in place and goes when it is empty.
  pub LevelsOk-settle :
      (p : ℕ) (f : PriceLevel → PriceLevel) (l : PriceLevel)
      → lookup p ls ≡ some l
      → QueueOk next (f l)
      → LevelsOk s next (settle p f ls)
  unfolding erase_if_empty
  LevelsOk-settle p f l h q = elim (Bool-cases (is_empty (f l).orders)) [
    | inl gone ↦
        rw (lookup-modify_self p f l ls h, gone)
          (record {
            sorted =
                Sorted-erase (before s) (before-StrictOrder s) p (modify p f ls)
                  (Sorted-modify (before s) (before-StrictOrder s) p f ls ok.sorted);
            each = λ r k e.
                ok.each r k
                  (ground (arith, lookup-erase p (modify p f ls) r, lookup-modify p f ls r));
          })
    | inr kept ↦ rw (lookup-modify_self p f l ls h, kept) (LevelsOk-change p l f h q kept)
  ]
