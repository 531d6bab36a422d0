-- ===== src/Book/Queue.antt =====
-- The queue of one price level: its nodes in order of arrival, and the sum of what is left of them.
use limit_order_book.Base.{
  ℕ, suc, ◌+◌, ◌≤◌, ◌<◌, ◌≡◌, refl, none, some, [], ◌∷◌, ◌++◌, arith, ◌==◌, nat_eq, if◌then◌else◌,
}
use limit_order_book.Map.{Map, lookup, erase, modify}
use limit_order_book.Types.{u32_mod}
use limit_order_book.Book.State.{OrderEntry, is_empty}

-- The nodes rise from `lo` to below `hi`, and each has something left that fits in 32 bits.
abbrev pub Chain : ℕ → ℕ → Map ℕ OrderEntry → Type 0
Chain lo hi [] = lo ≤ hi
Chain lo hi ((n, e) ∷ os) =
    (lo ≤ n) × (0 < e.remaining_quantity) × (e.remaining_quantity < u32_mod) × Chain (suc n) hi os

-- The sum of the remaining quantities, as an unbounded number.
unfoldable pub total : Map ℕ OrderEntry → ℕ
total [] = 0
total ((n, e) ∷ os) = e.remaining_quantity + total os

abbrev pub with_remaining : ℕ → OrderEntry → OrderEntry
with_remaining q e = record e { remaining_quantity = q }

pub Chain-le : (lo hi : ℕ) (os : Map ℕ OrderEntry) → Chain lo hi os → lo ≤ hi
Chain-le lo hi [] c = c
Chain-le lo hi ((n, e) ∷ os) c = omega (arith, Chain-le (suc n) hi os c.3)

pub Chain-mono_lo :
    (lo lo' hi : ℕ) (os : Map ℕ OrderEntry) → lo' ≤ lo → Chain lo hi os → Chain lo' hi os
Chain-mono_lo lo lo' hi [] h c = omega arith
Chain-mono_lo lo lo' hi ((n, e) ∷ os) h c = (omega arith, c.1, c.2, c.3)

pub Chain-mono_hi :
    (lo hi hi' : ℕ) (os : Map ℕ OrderEntry) → hi ≤ hi' → Chain lo hi os → Chain lo hi' os
Chain-mono_hi lo hi hi' [] h c = omega arith
Chain-mono_hi lo hi hi' ((n, e) ∷ os) h c = (c.0, c.1, c.2, Chain-mono_hi (suc n) hi hi' os h c.3)

pub Chain-append :
    (lo hi : ℕ) (os : Map ℕ OrderEntry) (e : OrderEntry)
    → 0 < e.remaining_quantity
    → e.remaining_quantity < u32_mod
    → Chain lo hi os
    → Chain lo (suc hi) (os ++ (hi, e) ∷ [])
Chain-append lo hi [] e p q c = (c, p, q, omega arith)
Chain-append lo hi ((n, d) ∷ os) e p q c = (c.0, c.1, c.2, Chain-append (suc n) hi os e p q c.3)

pub Chain-erase : (lo hi n : ℕ) (os : Map ℕ OrderEntry) → Chain lo hi os → Chain lo hi (erase n os)
unfolding erase
Chain-erase lo hi n [] c = c
Chain-erase lo hi n ((m, d) ∷ os) c =
    ground (arith, Chain-erase (suc m) hi n os c.3, Chain-mono_lo (suc m) lo hi (erase n os))

pub Chain-modify :
    (lo hi n q : ℕ) (os : Map ℕ OrderEntry)
    → 0 < q
    → q < u32_mod
    → Chain lo hi os
    → Chain lo hi (modify n (with_remaining q) os)
unfolding modify
Chain-modify lo hi n q [] p r c = c
Chain-modify lo hi n q ((m, d) ∷ os) p r c =
    (c.0, ground arith, ground arith, Chain-modify (suc m) hi n q os p r c.3)

-- No node of a chain stands outside its bounds.
pub lookup_below :
    (lo hi n : ℕ) (os : Map ℕ OrderEntry) → n < lo → Chain lo hi os → lookup n os ≡ none
unfolding lookup
lookup_below lo hi n [] h c = refl
lookup_below lo hi n ((m, d) ∷ os) h c = ground (arith, lookup_below (suc m) hi n os)

pub lookup_above :
    (lo hi n : ℕ) (os : Map ℕ OrderEntry) → hi ≤ n → Chain lo hi os → lookup n os ≡ none
unfolding lookup
lookup_above lo hi n [] h c = refl
lookup_above lo hi n ((m, d) ∷ os) h c =
    ground (arith, lookup_above (suc m) hi n os h c.3, Chain-le (suc m) hi os c.3)

pub lookup_positive :
    (lo hi n : ℕ) (os : Map ℕ OrderEntry) (e : OrderEntry)
    → Chain lo hi os
    → lookup n os ≡ some e
    → (0 < e.remaining_quantity) × (e.remaining_quantity < u32_mod)
unfolding lookup
lookup_positive lo hi n [] e c h = ground arith
lookup_positive lo hi n ((m, d) ∷ os) e c h = ground (arith, lookup_positive (suc m) hi n os e c.3)

pub lookup-append :
    (n m : ℕ) (os : Map ℕ OrderEntry) (e : OrderEntry)
    → lookup n os ≡ none
    → lookup m (os ++ (n, e) ∷ []) ≡ (if n == m then some e else lookup m os)
unfolding lookup
lookup-append n m [] e h = refl
lookup-append n m ((i, d) ∷ os) e h = ground (arith, lookup-append n m os e)

pub total-append :
    (os : Map ℕ OrderEntry) (n : ℕ) (e : OrderEntry)
    → total (os ++ (n, e) ∷ []) ≡ total os + e.remaining_quantity
unfolding total
total-append [] n e = omega arith
total-append ((m, d) ∷ os) n e = omega (arith, total-append os n e)

pub erase_below : (lo hi n : ℕ) (os : Map ℕ OrderEntry) → n < lo → Chain lo hi os → erase n os ≡ os
unfolding erase
erase_below lo hi n [] h c = refl
erase_below lo hi n ((m, d) ∷ os) h c = ground (arith, erase_below (suc m) hi n os)

pub modify_below :
    (lo hi n : ℕ) (f : OrderEntry → OrderEntry) (os : Map ℕ OrderEntry)
    → n < lo
    → Chain lo hi os
    → modify n f os ≡ os
unfolding modify
modify_below lo hi n f [] h c = refl
modify_below lo hi n f ((m, d) ∷ os) h c = ground (arith, modify_below (suc m) hi n f os)

pub total-erase :
    (lo hi n : ℕ) (os : Map ℕ OrderEntry) (e : OrderEntry)
    → Chain lo hi os
    → lookup n os ≡ some e
    → total (erase n os) + e.remaining_quantity ≡ total os
unfolding total erase lookup
total-erase lo hi n [] e c h = ground arith
total-erase lo hi n ((m, d) ∷ os) e c h =
    ground (arith, total-erase (suc m) hi n os e c.3, erase_below (suc m) hi n os)

pub total-modify :
    (lo hi n q : ℕ) (os : Map ℕ OrderEntry) (e : OrderEntry)
    → Chain lo hi os
    → lookup n os ≡ some e
    → total (modify n (with_remaining q) os) + e.remaining_quantity ≡ total os + q
unfolding total modify lookup
total-modify lo hi n q [] e c h = ground arith
total-modify lo hi n q ((m, d) ∷ os) e c h =
    ground
      (arith, total-modify (suc m) hi n q os e c.3, modify_below (suc m) hi n (with_remaining q) os)

pub lookup-le-total :
    (lo hi n : ℕ) (os : Map ℕ OrderEntry) (e : OrderEntry)
    → Chain lo hi os
    → lookup n os ≡ some e
    → e.remaining_quantity ≤ total os
lookup-le-total lo hi n os e c h = omega (arith, total-erase lo hi n os e c h)

pub is_empty-modify :
    (n : ℕ) (f : OrderEntry → OrderEntry) (os : Map ℕ OrderEntry)
    → is_empty (modify n f os) ≡ is_empty os
unfolding modify
is_empty-modify n f [] = refl
is_empty-modify n f (o ∷ os) = refl
