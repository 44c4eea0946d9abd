-- ===== src/Prelude/Bits.antt =====
-- `bit_and` and `bit_or` as arithmetic, for the masks and fields of the device registers.
use Prim.Native.Nat.{
  ℕ, zero, suc, ◌+◌, ◌-◌, ◌*◌, ◌/◌, ◌%◌, ◌^◌, ◌≤◌, ◌<◌, min, max, bit_and, bit_or, digits,
  bit_and-bitwise, bit_or-bitwise,
}
use mathlib.Core.Path.{◌≡◌, refl, ap}
use native.Mathlib.Nat.{pow-suc, one-le-pow}
use native.Mathlib.Omega.{arith}

-- An operation digit by digit: with `rest` for the digits of the second argument that lie above the
-- first one's, any two amounts of fuel that reach the first one's digits agree.
module _ (rest : ℕ → ℕ) (op : ℕ → ℕ → ℕ) where
  digits_agree :
      (x y fuel spare : ℕ)
      → x ≤ fuel
      → x ≤ spare
      → digits rest op fuel x y ≡ digits rest op spare x y
  digits_agree zero y zero zero h k = refl
  digits_agree zero y zero (suc spare) h k = refl
  digits_agree zero y (suc fuel) zero h k = refl
  digits_agree zero y (suc fuel) (suc spare) h k = refl
  digits_agree (suc x) y zero spare h k = absurd (omega arith)
  digits_agree (suc x) y (suc fuel) zero h k = absurd (omega arith)
  digits_agree (suc x) y (suc fuel) (suc spare) h k =
      let less = digits_agree (suc x / 2) (y / 2) fuel spare (omega arith) (omega arith) in
      omega (arith, less)

bit_and-none : (y : ℕ) → bit_and 0 y ≡ 0
bit_and-none y = bit_and-bitwise 0 y

pub bit_or-none : (y : ℕ) → bit_or 0 y ≡ y
bit_or-none y = bit_or-bitwise 0 y

-- The last digit apart from the others.
pub bit_and-halves : (x y : ℕ) → bit_and x y ≡ min (x % 2) (y % 2) + 2 * bit_and (x / 2) (y / 2)
bit_and-halves zero y = omega (arith, bit_and-none (y / 2), bit_and-none y)
bit_and-halves (suc x) y =
    let less =
      digits_agree (λ _. zero) min (suc x / 2) (y / 2) x (suc x / 2) (omega arith) (omega arith) in
    omega (arith, less, bit_and-bitwise (suc x / 2) (y / 2), bit_and-bitwise (suc x) y)

pub bit_or-halves : (x y : ℕ) → bit_or x y ≡ max (x % 2) (y % 2) + 2 * bit_or (x / 2) (y / 2)
bit_or-halves zero y = omega (arith, bit_or-none (y / 2), bit_or-none y)
bit_or-halves (suc x) y =
    let less =
      digits_agree (λ z. z) max (suc x / 2) (y / 2) x (suc x / 2) (omega arith) (omega arith) in
    omega (arith, less, bit_or-bitwise (suc x / 2) (y / 2), bit_or-bitwise (suc x) y)

double_pow : (q k : ℕ) → 2 * (q * 2 ^ k) ≡ q * 2 ^ suc k
double_pow q k = omega (arith, ap (λ (power : ℕ). q * power) (pow-suc 2 k))

-- Both operations work on the digits above place `k` and on those below it apart.
pub bit_and-parts :
    (k p q r s : ℕ)
    → r < 2 ^ k
    → s < 2 ^ k
    → bit_and (p * 2 ^ k + r) (q * 2 ^ k + s) ≡ bit_and p q * 2 ^ k + bit_and r s
bit_and-parts zero p q r s hr hs = ground (arith, bit_and-none 0)
bit_and-parts (suc k) p q r s hr hs =
    let above = double_pow p k in
    let beside = double_pow q k in
    ground (
      arith,
      above,
      beside,
      double_pow (bit_and p q) k,
      bit_and-halves r s,
      bit_and-halves (p * 2 ^ suc k + r) (q * 2 ^ suc k + s),
      bit_and-parts k p q (r / 2) (s / 2),
      pow-suc 2 k,
    )

pub bit_or-parts :
    (k p q r s : ℕ)
    → r < 2 ^ k
    → s < 2 ^ k
    → bit_or (p * 2 ^ k + r) (q * 2 ^ k + s) ≡ bit_or p q * 2 ^ k + bit_or r s
bit_or-parts zero p q r s hr hs = ground (arith, bit_or-none 0)
bit_or-parts (suc k) p q r s hr hs =
    let above = double_pow p k in
    let beside = double_pow q k in
    ground (
      arith,
      above,
      beside,
      double_pow (bit_or p q) k,
      bit_or-halves r s,
      bit_or-halves (p * 2 ^ suc k + r) (q * 2 ^ suc k + s),
      bit_or-parts k p q (r / 2) (s / 2),
      pow-suc 2 k,
    )

-- A mask of `k` ones keeps the `k` last digits, a mask of none keeps nothing.
pub bit_and-ones : (k x : ℕ) → x < 2 ^ k → bit_and x (2 ^ k - 1) ≡ x
bit_and-ones zero x h = ground (arith, bit_and-none 0)
bit_and-ones (suc k) x h =
    ground
      (arith, bit_and-halves x (2 ^ suc k - 1), bit_and-ones k (x / 2), pow-suc 2 k, one-le-pow k 2)

pub bit_and-no_ones : (k x : ℕ) → x < 2 ^ k → bit_and x 0 ≡ 0
bit_and-no_ones zero x h = ground (arith, bit_and-none 0)
bit_and-no_ones (suc k) x h =
    ground (arith, bit_and-halves x 0, bit_and-no_ones k (x / 2), pow-suc 2 k)

pub bit_or-no_ones : (k x : ℕ) → x < 2 ^ k → bit_or x 0 ≡ x
bit_or-no_ones zero x h = ground (arith, bit_or-none 0)
bit_or-no_ones (suc k) x h =
    ground (arith, bit_or-halves x 0, bit_or-no_ones k (x / 2), pow-suc 2 k)
