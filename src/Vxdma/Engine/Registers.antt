-- ===== src/Vxdma/Engine/Registers.antt =====
-- vxdma/vxdma.c, the control register as its fields: the run bit and the interrupt threshold.
use petalinux_driver.Prelude.{
  ℕ, zero, suc, ◌+◌, ◌*◌, ◌/◌, ◌%◌, ◌^◌, ◌≤◌, ◌<◌, ◌≡◌, refl, ap, ◌∙◌, bit_and, bit_or, arith,
}
use petalinux_driver.Prelude.Bits.{
  bit_and-parts, bit_or-parts, bit_and-ones, bit_and-no_ones, bit_or-no_ones, bit_or-none,
}
use petalinux_driver.Kernel.{Platform}
use petalinux_driver.Vxdma.Chan.{
  Chan, not32, cr_runstop_mask, cr_coalesce_mask, coalesce_max, dma_ctrl_write,
}
use petalinux_driver.Vxdma.Engine.{halt, start, set_coalesce}

clear_last : (n : ℕ) → n < 2 ^ 32 → bit_and n (not32 cr_runstop_mask) ≡ n / 2 * 2
clear_last n h =
    let apart : n ≡ n / 2 * 2 ^ 1 + n % 2 = omega arith in
    ap (λ (x : ℕ). bit_and x (not32 cr_runstop_mask)) apart
    ∙ bit_and-parts 1 (n / 2) 0x7fff_ffff (n % 2) 0 (omega arith) (omega arith)
    ∙ omega (arith, bit_and-ones 31 (n / 2) (omega arith), bit_and-no_ones 1 (n % 2) (omega arith))

set_last : (n : ℕ) → n < 2 ^ 32 → bit_or n cr_runstop_mask ≡ n / 2 * 2 + 1
set_last n h =
    let apart : n ≡ n / 2 * 2 ^ 1 + n % 2 = omega arith in
    ap (λ (x : ℕ). bit_or x cr_runstop_mask) apart
    ∙ bit_or-parts 1 (n / 2) 0 (n % 2) 1 (omega arith) (omega arith)
    ∙ omega (arith, bit_or-no_ones 31 (n / 2) (omega arith), last_one (n % 2) (omega arith))
  where
    last_one : (d : ℕ) → d < 2 → bit_or d 1 ≡ 1
    last_one zero k = refl
    last_one (suc zero) k = refl
    last_one (suc (suc d)) k = absurd (omega arith)

-- The threshold cleared, and set to a count.
clear_threshold :
    (n : ℕ) → n < 2 ^ 32 → bit_and n (not32 cr_coalesce_mask) ≡ n / 2 ^ 24 * 2 ^ 24 + n % 2 ^ 16
clear_threshold n h =
    let high = n / 2 ^ 16 in
    let apart : n ≡ high * 2 ^ 16 + n % 2 ^ 16 = omega arith in
    let top : bit_and high 0xff00 ≡ high / 2 ^ 8 * 2 ^ 8 =
      ap (λ (x : ℕ). bit_and x 0xff00) (omega arith)
      ∙ bit_and-parts 8 (high / 2 ^ 8) 0xff (high % 2 ^ 8) 0 (omega arith) (omega arith)
      ∙ omega (
        arith,
        bit_and-ones 8 (high / 2 ^ 8) (omega arith),
        bit_and-no_ones 8 (high % 2 ^ 8) (omega arith),
      ) in
    ap (λ (x : ℕ). bit_and x (not32 cr_coalesce_mask)) apart
    ∙ bit_and-parts 16 high 0xff00 (n % 2 ^ 16) 0xffff (omega arith) (omega arith)
    ∙ omega (arith, top, bit_and-ones 16 (n % 2 ^ 16) (omega arith))

set_threshold :
    (top low count : ℕ)
    → top < 2 ^ 8
    → low < 2 ^ 16
    → count < 2 ^ 8
    → bit_or (top * 2 ^ 24 + low) (count * 2 ^ 16) ≡ top * 2 ^ 24 + count * 2 ^ 16 + low
set_threshold top low count h k m =
    let upper : bit_or (top * 2 ^ 8 + 0) (0 * 2 ^ 8 + count) ≡ top * 2 ^ 8 + count =
      bit_or-parts 8 top 0 0 count (omega arith) m
      ∙ omega (arith, bit_or-no_ones 8 top h, bit_or-none count) in
    ap (λ (x : ℕ). bit_or x (count * 2 ^ 16)) (omega arith)
    ∙ ap (λ (x : ℕ). bit_or ((top * 2 ^ 8 + 0) * 2 ^ 16 + low) x) (omega arith)
    ∙ bit_or-parts 16 (top * 2 ^ 8 + 0) (0 * 2 ^ 8 + count) low 0 k (omega arith)
    ∙ omega (arith, upper, bit_or-no_ones 16 low k)

-- For a control register of 32 bits, a halt clears its run bit and a start sets it, and both keep
-- every other bit.
pub halt-start :
    (p : Platform) (c : Chan)
    → c.ctrl_reg < 2 ^ 32
    → ((halt p c).ctrl_reg ≡ c.ctrl_reg / 2 * 2) × ((start p c).ctrl_reg ≡ c.ctrl_reg / 2 * 2 + 1)
unfolding halt start
halt-start p c h = (ground (arith, clear_last c.ctrl_reg h), ground (arith, set_last c.ctrl_reg h))

-- For a control register of 32 bits and a count of pending descriptors of at most 255, the start
-- of a transfer sets the register's bits 16 to 23 to the count and keeps every other bit.
pub set_coalesce_lem :
    (c : Chan)
    → c.ctrl_reg < 2 ^ 32
    → c.desc_pendingcount ≤ coalesce_max
    → (set_coalesce c).ctrl_reg
      ≡ c.ctrl_reg / 2 ^ 24 * 2 ^ 24 + c.desc_pendingcount * 2 ^ 16 + c.ctrl_reg % 2 ^ 16
unfolding set_coalesce dma_ctrl_write
set_coalesce_lem c h k = ground (
  arith,
  clear_threshold c.ctrl_reg h,
  set_threshold (c.ctrl_reg / 2 ^ 24) (c.ctrl_reg % 2 ^ 16) c.desc_pendingcount (omega arith)
      (omega arith) (omega arith),
)
