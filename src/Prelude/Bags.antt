-- ===== src/Prelude/Bags.antt =====
-- Lists of numbers, forgetting their order.
use Prim.Native.Nat.{ℕ, ◌+◌}
use mathlib.Core.Path.{◌≡◌, ap}
use mathlib.Core.List.{List, [], ◌∷◌}
use mathlib.Core.Quot
use mathlib.Core.Quot.{Quot, Quot-set}
use native.Mathlib.Nat.{ℕ_set}
use petalinux_driver.Prelude.Tests.{◌==◌, if◌then◌else◌}

-- The weight of one number.
abbrev pub only : ℕ → ℕ → ℕ
only a x = if x == a then 1 else 0

abbrev pub times : ℕ → List ℕ → ℕ
times a [] = 0
times a (x ∷ xs) = only a x + times a xs

abbrev pub HasSame : List ℕ → List ℕ → Type 0
HasSame xs ys = (a : ℕ) → times a xs ≡ times a ys

abbrev pub Bag : Type 0
Bag = Quot HasSame

abbrev pub bag : List ℕ → Bag
bag = Quot.mk

-- How often a number is in a bag.
times_in : ℕ → Bag → ℕ
times_in a = Quot.lift ℕ_set (times a) (λ xs ys h. h a)

-- The bags of two lists are the same exactly if the lists have the same numbers as often.
pub bag_exact : {xs ys : List ℕ} → bag xs ≡ bag ys → HasSame xs ys
unfolding times_in
bag_exact e a = ap (times_in a) e

pub bag-HasSame : {xs ys : List ℕ} → HasSame xs ys → bag xs ≡ bag ys
bag-HasSame h = Quot.sound h
