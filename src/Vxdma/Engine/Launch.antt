-- ===== src/Vxdma/Engine/Launch.antt =====
-- vxdma/vxdma.c, what `xilinx_dma_start_transfer` does to the lists of a channel.
use petalinux_driver.Prelude.{
  ℕ, ◌≡◌, ◌++◌, ◌⊎◌, [], ◌≢◌, arith, true, false, inl, inr, head?, last?,
}
use petalinux_driver.Kernel.{Platform, ok, entry, >>=-eq-ok, Result-cases}
use petalinux_driver.Vxdma.Chan.{TxDesc, Chan}
use petalinux_driver.Vxdma.Engine.{
  program_transfer, arm, launch, write_address, activate, begin_transfer, start_transfer,
  set_coalesce, start,
}

-- Only the registers, their history and the error mark may differ.
abbrev pub IsQuiet : Chan → Chan → Type 0
IsQuiet c c' = c' ≡ record c { ctrl_reg = c'.ctrl_reg; err = c'.err; trace = c'.trace }

-- The pending list has joined the active list, and the channel is busy.
abbrev pub IsLaunched : Chan → Chan → Type 0
IsLaunched c c' = c' ≡ record c {
  ctrl_reg = c'.ctrl_reg;
  err = c'.err;
  trace = c'.trace;
  active_list = c.active_list ++ c.pending_list;
  pending_list = [];
  desc_pendingcount = 0;
  idle = false;
}

write_address_frame :
    (p : Platform) (reg value : ℕ) (c : Chan)
    → write_address p reg value c ≡ record c { trace = (write_address p reg value c).trace }
unfolding write_address
write_address_frame p reg value c = ground arith

program_transfer_frame :
    (p : Platform) (head_desc tail_desc : TxDesc) (c c' : Chan)
    → program_transfer p head_desc tail_desc c ≡ ok c'
    → c' ≡ record c { trace = c'.trace }
unfolding program_transfer
program_transfer_frame p head_desc tail_desc c c' h = ground arith

arm_frame : (p : Platform) (head_desc : TxDesc) (c : Chan) → IsQuiet c (arm p head_desc c)
unfolding set_coalesce write_address start arm
arm_frame p head_desc c = ground arith

launch_cases :
    (p : Platform) (head_desc tail_desc : TxDesc) (c c' : Chan)
    → launch p head_desc tail_desc c ≡ ok c'
    → IsQuiet c c' ⊎ IsLaunched c c'
unfolding launch activate
launch_cases p head_desc tail_desc c c' h =
    elim (Result-cases (program_transfer p head_desc tail_desc c)) [
      | inl (x, done) ↦ ground (arith, program_transfer_frame p head_desc tail_desc c x done)
      | inr (e, bad) ↦ ground arith
    ]

-- Both relations compose with a change of the registers.
IsQuiet-first :
    (c c₁ c' : Chan)
    → IsQuiet c c₁
    → IsQuiet c₁ c' ⊎ IsLaunched c₁ c'
    → IsQuiet c c' ⊎ IsLaunched c c'
IsQuiet-first c c₁ c' h k = ground arith

pub begin_transfer_cases :
    (p : Platform) (c c' : Chan) → begin_transfer p c ≡ ok c' → IsQuiet c c' ⊎ IsLaunched c c'
unfolding begin_transfer
begin_transfer_cases p c c' h =
    let (head_desc, _, rest) = >>=-eq-ok (entry (head? c.pending_list)) _ h in
    let (tail_desc, _, launched) = >>=-eq-ok (entry (last? c.pending_list)) _ rest in
    IsQuiet-first c (arm p head_desc c) c' (arm_frame p head_desc c)
      (launch_cases p head_desc tail_desc (arm p head_desc c) c' launched)

-- If the start of a transfer has a result, then either only the control register, the error mark
-- and the history change, or also all that was pending is moved behind what was active, the
-- counter of pending descriptors is 0 and the channel busy. The second happens only to an idle
-- channel without an error that had something pending.
pub start_transfer_cases :
    (p : Platform) (c c' : Chan)
    → start_transfer p c ≡ ok c'
    → IsQuiet c c' ⊎ (IsLaunched c c' × (c.err ≡ false) × (c.idle ≡ true) × (c.pending_list ≢ []))
unfolding start_transfer
start_transfer_cases p c c' h = ground (arith, begin_transfer_cases p c c')
