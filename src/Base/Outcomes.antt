-- ===== src/Base/Outcomes.antt =====
-- Pairs of a state and an optional result, taken apart.
use mathlib.Core.Path.{◌≡◌}
use mathlib.Core.Option.{Option, none, some}

pub second-none≢some {ℓ κ} :
    {A : Type ℓ} {B : Type κ} {a a' : A} {b : B} → ◌≡◌ {A = A × Option B} (a, none) (a', some b) → ⊥
second-none≢some e = cc

pub both_equal {ℓ κ} :
    {A : Type ℓ} {B : Type κ} {a a' : A} {b b' : B}
    → ◌≡◌ {A = A × Option B} (a, some b) (a', some b')
    → ◌≡◌ {A = B × A} (b, a) (b', a')
both_equal e = cc

pub first_equal {ℓ κ} :
    {A : Type ℓ} {B : Type κ} {a a' : A} → ◌≡◌ {A = A × Option B} (a, none) (a', none) → a ≡ a'
first_equal e = cc
