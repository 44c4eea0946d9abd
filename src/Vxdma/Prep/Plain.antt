-- ===== src/Vxdma/Prep/Plain.antt =====
-- vxdma/vxdma.c, `xilinx_dma_prep_slave_sg` makes no cyclic descriptors.
use petalinux_driver.Prelude.{
  ℕ, ◌≡◌, refl, subst, List, [], ◌∷◌, false, Option, none, some, inl, inr, Bool-cases, arith,
}
use petalinux_driver.Kernel.{
  Direction, Platform, ok, >>=-eq-ok, ok-injective, allocated_desc, ◌>>=◌,
}
use petalinux_driver.Vxdma.Chan.{TxDesc, Chan}
use petalinux_driver.Vxdma.Segment.{blank_desc, alloc_tx_descriptor}
use petalinux_driver.Vxdma.Prep.{
  Fill, filled, starved, fill_all, close_slave, finish_desc, give_up, slave_request, prep_slave_sg,
}

abbrev pub IsPlainHeld : Option TxDesc → Type 0
IsPlainHeld none = Unit {0}
IsPlainHeld (some d) = d.cyclic ≡ false

ok-IsPlainHeld : (x y : Option TxDesc × Chan) → ok x ≡ ok y → IsPlainHeld x.0 → IsPlainHeld y.0
ok-IsPlainHeld x y e h = subst (λ (z : Option TxDesc × Chan). IsPlainHeld z.0) (ok-injective e) h

close_slave-IsPlainHeld :
    (direction : Direction) (o : Fill) (held : Option TxDesc) (c : Chan)
    → close_slave (blank_desc direction) o ≡ ok (held, c)
    → IsPlainHeld held
unfolding close_slave finish_desc give_up
close_slave-IsPlainHeld direction (starved ss c₁) held c h = ok-IsPlainHeld _ (held, c) h tt
close_slave-IsPlainHeld direction (filled [] c₁) held c h = cc
close_slave-IsPlainHeld direction (filled (s ∷ ss) c₁) held c h = ok-IsPlainHeld _ (held, c) h refl

-- A scatterlist makes a descriptor that is not cyclic.
pub prep_slave_sg-IsPlainHeld :
    (p : Platform) (sgl : List (ℕ × ℕ)) (direction : Direction) (context : Option (List ℕ))
    (c c' : Chan) (held : Option TxDesc)
    → prep_slave_sg p sgl direction context c ≡ ok (held, c')
    → IsPlainHeld held
unfolding prep_slave_sg alloc_tx_descriptor
prep_slave_sg-IsPlainHeld p sgl direction context c c' held h =
    elim (Bool-cases (p.is_slave_direction direction)) [
      | inr no_slave ↦ ok-IsPlainHeld (none, c) (held, c') (ground arith) tt
      | inl slave ↦ elim (Bool-cases (p.kzalloc_fails c.trace)) [
        | inl no_memory ↦ ok-IsPlainHeld (none, c) (held, c') (ground arith) tt
        | inr enough ↦
            let c₁ = record c { trace = allocated_desc ∷ c.trace } in
            let loops = fill_all (slave_request p direction context) sgl [] c₁ in
            let h' : (loops >>= λ done. close_slave (blank_desc direction) done) ≡ ok (held, c') =
              ground arith in
            let (o, e, rest) = >>=-eq-ok loops _ h' in
            close_slave-IsPlainHeld direction o held c' rest
      ]
    ]
