-- ===== src/Vxdma/Prep/Cyclic.antt =====
-- vxdma/vxdma.c, `xilinx_dma_prep_dma_cyclic`: the end of its loops, and its faults.
use petalinux_driver.Prelude.{
  ℕ, zero, suc, ◌+◌, ◌*◌, ◌/◌, ◌<◌, ◌≡◌, refl, sym, ◌∙◌, subst, List, [], ◌∷◌, ◌⊎◌, inl, inr, true,
  false, ◌&&◌, ltb, is_empty, Bool-cases, arith, none,
}
use petalinux_driver.Kernel.{
  Direction, Platform, ok, allocated_desc, is_ok, is_ok-value, ok-injective, >>=-eq-ok,
}
use petalinux_driver.Vxdma.Chan.{u32, Segment, TxDesc, Chan}
use petalinux_driver.Vxdma.Segment.{blank_desc, alloc_tx_descriptor}
use petalinux_driver.Vxdma.Prep.{
  Request, Fill, filled, starved, fill, fill_fuel, fill_periods, give_up, finish_desc,
  finish_cyclic, close_cyclic, slave_request, prep_dma_cyclic,
}
use petalinux_driver.Vxdma.Prep.Tiling.{fill-Tiles}
use petalinux_driver.Vxdma.Prep.Total.{
  fill-is_ok, and_then-is_ok, HasFilled, Tiles-HasFilled, and_then-HasFilled,
}

fill_periods-is_ok :
    (n : ℕ) (r : Request) (addr period i : ℕ) (segments : List Segment) (c : Chan)
    → is_ok (fill_periods n r addr period i segments c) ≡ true
unfolding fill_periods
fill_periods-is_ok zero r addr period i segments c = refl
fill_periods-is_ok (suc n) r addr period i segments c =
    let (o, e) =
      is_ok-value (fill (fill_fuel c) r (addr + period * i) period 0 segments c)
        (fill-is_ok (fill_fuel c) r (addr + period * i) period 0 segments c (omega arith)) in
    ground (
      arith,
      and_then-is_ok o (λ ss c'. fill_periods n r addr period (i + 1) ss c')
          (λ ss c'. fill_periods-is_ok n r addr period (i + 1) ss c'),
    )

fill_periods-HasFilled :
    (n : ℕ) (r : Request) (addr period i : ℕ) (segments : List Segment) (c : Chan) (o : Fill)
    → (is_empty segments ≡ false) ⊎ (0 < n)
    → 0 < period
    → fill_periods n r addr period i segments c ≡ ok o
    → HasFilled o
unfolding fill_periods
fill_periods-HasFilled zero r addr period i segments c o (inl h) q e =
    subst HasFilled (ok-injective e) h
fill_periods-HasFilled zero r addr period i segments c o (inr h) q e = absurd (omega arith)
fill_periods-HasFilled (suc n) r addr period i segments c o h q e =
    let (o', one, more) =
      >>=-eq-ok (fill (fill_fuel c) r (addr + period * i) period 0 segments c) _ e in
    let here =
      Tiles-HasFilled (addr + period * i) period segments o'
        (fill-Tiles (fill_fuel c) r (addr + period * i) period 0 segments c o' (omega arith) one)
        (inr q) in
    and_then-HasFilled segments period 0 o' o (λ ss c'. fill_periods n r addr period (i + 1) ss c')
      (inr (omega arith)) (λ _. here)
      (λ ss c' h' e'.
        fill_periods-HasFilled n r addr period (i + 1) ss c' o (still_some ss h') q e')
      more
  where
    still_some :
        (ss : List Segment) → (is_empty ss ≡ false) ⊎ (0 < 0) → (is_empty ss ≡ false) ⊎ (0 < n)
    still_some ss (inl s) = inl s
    still_some ss (inr s) = absurd (omega arith)

close_cyclic-is_ok : (desc : TxDesc) (o : Fill) → HasFilled o → is_ok (close_cyclic desc o) ≡ true
unfolding close_cyclic finish_cyclic finish_desc give_up
close_cyclic-is_ok desc (filled [] c) h = cc
close_cyclic-is_ok desc (filled (s ∷ ss) c) h = refl
close_cyclic-is_ok desc (starved ss c) h = refl

-- The number of periods, an `unsigned int`.
abbrev pub periods : (buf_len period_len : ℕ) → ℕ
periods buf_len zero = 0
periods buf_len (suc period) = u32 (buf_len / suc period)

-- The preparation of a cyclic buffer whose periods have at least one byte, and whose number of
-- periods is not 0, has a result, whatever the state of the channel.
pub prep_dma_cyclic_total :
    (p : Platform) (buf_addr buf_len period_len : ℕ) (direction : Direction) (c : Chan)
    → 0 < period_len
    → 0 < periods buf_len period_len
    → is_ok (prep_dma_cyclic p buf_addr buf_len period_len direction c) ≡ true
unfolding prep_dma_cyclic alloc_tx_descriptor
prep_dma_cyclic_total p buf_addr buf_len zero direction c h q = absurd (omega arith)
prep_dma_cyclic_total p buf_addr buf_len (suc period) direction c h q =
    let c' = record c { trace = allocated_desc ∷ c.trace } in
    let r = slave_request p direction none in
    let n = u32 (buf_len / suc period) in
    let (o, e) =
      is_ok-value (fill_periods n r buf_addr (suc period) 0 [] c')
        (fill_periods-is_ok n r buf_addr (suc period) 0 [] c') in
    let some_filled = fill_periods-HasFilled n r buf_addr (suc period) 0 [] c' o (inr q) h e in
    ground (arith, close_cyclic-is_ok (blank_desc direction) o some_filled)

-- In a direction of slaves and with memory for the descriptor, the preparation of a cyclic buffer
-- has a result exactly if a period has at least one byte and the number of periods in the buffer,
-- as an unsigned int, is not 0.
pub prep_dma_cyclic-is_ok :
    (p : Platform) (buf_addr buf_len period_len : ℕ) (direction : Direction) (c : Chan)
    → p.is_slave_direction direction ≡ true
    → p.kzalloc_fails c.trace ≡ false
    → is_ok (prep_dma_cyclic p buf_addr buf_len period_len direction c)
      ≡ (ltb 0 period_len && ltb 0 (periods buf_len period_len))
unfolding prep_dma_cyclic alloc_tx_descriptor fill_periods close_cyclic finish_cyclic finish_desc
prep_dma_cyclic-is_ok p buf_addr buf_len zero direction c slave memory = refl
prep_dma_cyclic-is_ok p buf_addr buf_len (suc period) direction c slave memory =
    elim (Bool-cases (ltb 0 (u32 (buf_len / suc period)))) [
      | inl enough ↦
          let fits : (ltb 0 (suc period) && ltb 0 (u32 (buf_len / suc period))) ≡ true =
            ground arith in
          prep_dma_cyclic_total p buf_addr buf_len (suc period) direction c (omega arith)
            (ground arith)
          ∙ sym fits
      | inr short ↦
          let none_fit : u32 (buf_len / suc period) ≡ 0 = ground arith in ground (arith, none_fit)
    ]
