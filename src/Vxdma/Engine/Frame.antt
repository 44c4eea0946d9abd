-- ===== src/Vxdma/Engine/Frame.antt =====
-- vxdma/vxdma.c, the frames of the start, the stop and the reset of the engine.
use petalinux_driver.Prelude.{◌≡◌, arith}
use petalinux_driver.Kernel.{Platform}
use petalinux_driver.Vxdma.Chan.{Chan}
use petalinux_driver.Vxdma.Engine.{halt, start, set_coalesce, chan_reset}

module _ (p : Platform) (c : Chan) where
  pub halt_frame :
      halt p c
      ≡ record c { ctrl_reg = (halt p c).ctrl_reg; err = (halt p c).err; trace = (halt p c).trace }
  unfolding halt
  halt_frame = ground arith

  pub start_frame : start p c ≡ record c {
    ctrl_reg = (start p c).ctrl_reg;
    err = (start p c).err;
    trace = (start p c).trace;
  }
  unfolding start
  start_frame = ground arith

  pub chan_reset_frame : (chan_reset p c).1 ≡ record c {
    ctrl_reg = (chan_reset p c).1.ctrl_reg;
    err = (chan_reset p c).1.err;
    trace = (chan_reset p c).1.trace;
  }
  unfolding chan_reset
  chan_reset_frame = ground arith

pub set_coalesce_frame :
    (c : Chan)
    → set_coalesce c
      ≡ record c { ctrl_reg = (set_coalesce c).ctrl_reg; trace = (set_coalesce c).trace }
unfolding set_coalesce
set_coalesce_frame c = ground arith
