-- ===== src/Trading/Engine/Ensures.antt =====
-- Postconditions of steps that may throw: what holds of the result if there is one.
use limit_order_book.Base.{Option, none, some, ◌≡◌, refl, subst}
use limit_order_book.Trading.Engine.State.{◌>>=◌}

abbrev pub Ensures {ℓ κ} : {A : Type ℓ} → (A → Type κ) → Option A → Type κ
Ensures Q none = Unit
Ensures Q (some a) = Q a

module _ {ℓ κ ι} {A : Type ℓ} {B : Type κ} (Q : B → Type ι) where
  pub Ensures-bind :
      (m : Option A) (f : A → Option B)
      → ((a : A) → m ≡ some a → Ensures Q (f a))
      → Ensures Q (m >>= f)
  Ensures-bind none f h = tt
  Ensures-bind (some a) f h = h a refl

-- A step whose own postcondition is known.
module _ {ℓ κ ι ε} {A : Type ℓ} {B : Type κ} (P : A → Type ε) (Q : B → Type ι) where
  pub Ensures-then :
      (m : Option A) (f : A → Option B)
      → Ensures P m
      → ((a : A) → P a → Ensures Q (f a))
      → Ensures Q (m >>= f)
  Ensures-then none f p h = tt
  Ensures-then (some a) f p h = h a p

module _ {ℓ ι ε} {A : Type ℓ} (P : A → Type ε) (Q : A → Type ι) where
  pub Ensures-map : (m : Option A) → ((a : A) → P a → Q a) → Ensures P m → Ensures Q m
  Ensures-map none h p = tt
  Ensures-map (some a) h p = h a p

module _ {ℓ ι} {A : Type ℓ} (Q : A → Type ι) where
  pub Ensures-elim : (m : Option A) (a : A) → Ensures Q m → m ≡ some a → Q a
  Ensures-elim none a h e = cc
  Ensures-elim (some b) a h e = subst Q (some_injective e) h
    where
      some_injective : {x y : A} → some x ≡ some y → x ≡ y
      some_injective e = cc
