-- ===== src/Tests/Fixtures.antt =====
-- A device and channels, on which the operations run and the theorems are applied.
use petalinux_driver.Prelude.{ℕ, ◌+◌, List, [], ◌∷◌, Bool, true, false, some, leb, if◌then◌else◌}
use petalinux_driver.Kernel.{
  Direction, dma_mem_to_dev, dma_dev_to_mem, other_direction, Platform, dma_complete,
  dma_in_progress,
}
use petalinux_driver.Vxdma.Chan.{Chan, TxDesc, Segment, HwDesc}
use petalinux_driver.VxdmaDev.Client.{Op, transfer, issue, interrupt, tasklet}

abbrev pub slave : Direction → Bool
slave dma_mem_to_dev = true
slave dma_dev_to_mem = true
slave other_direction = false

-- A device that answers at once, and always reports a completed transfer.
abbrev pub prompt_platform : Platform
prompt_platform = record {
  phys_addr_64 = false;
  ioread32 = λ trace reg. 0x1000;
  readl_poll_timeout = λ trace reg cond. false;
  kzalloc_fails = λ trace. false;
  dma_zalloc_coherent = λ trace. some 0x1000_0000;
  is_slave_direction = slave;
  dma_cookie_init = λ k. record { cookie = 1; completed_cookie = 1 };
  dma_cookie_assign =
      λ k. (k.cookie + 1, record { cookie = k.cookie + 1; completed_cookie = k.completed_cookie });
  dma_cookie_complete = λ cookie k. record { cookie = k.cookie; completed_cookie = cookie };
  dma_cookie_status =
      λ k cookie. if leb cookie k.completed_cookie then dma_complete else dma_in_progress;
}

-- A channel as the probe leaves it.
abbrev pub probed : Chan
probed = record {
  ctrl_offset = 0;
  ctrl_reg = 0;
  pending_list = [];
  done_list = [];
  active_list = [];
  free_seg_list = [];
  cookies = record { cookie = 1; completed_cookie = 1 };
  seg_p = 0;
  irq = 61;
  id = 1;
  has_sg = true;
  cyclic = false;
  err = false;
  idle = true;
  residue = 0;
  desc_pendingcount = 0;
  private = 0x10_0001;
  direction = dma_mem_to_dev;
  trace = [];
}

abbrev pub two_transfers : List Op
two_transfers =
    transfer 0x2000_0000 0x100 dma_mem_to_dev 7
    ∷ transfer 0x3000_0000 0x90_0000 dma_mem_to_dev 8
    ∷ issue
    ∷ interrupt
    ∷ tasklet
    ∷ []

abbrev pub plain_hw : HwDesc
plain_hw = record {
  next_desc = 0x1000_0080;
  next_desc_msb = 0;
  buf_addr = 0x2000_0000;
  buf_addr_msb = 0;
  pad1 = 0;
  pad2 = 0;
  control = 0xc00_0100;
  status = 0;
  app = 0 ∷ 0 ∷ 0 ∷ 0 ∷ 0 ∷ [];
}

abbrev pub segment_at : ℕ → Segment
segment_at phys = record { hw = plain_hw; phys = phys }

abbrev pub desc_at : (cookie phys : ℕ) → TxDesc
desc_at cookie phys = record {
  cookie = cookie;
  phys = phys;
  callback = some cookie;
  segments = segment_at phys ∷ [];
  direction = dma_mem_to_dev;
  cyclic = false;
}

-- A channel with a transfer done, one under way, one pending, and two free segments.
abbrev pub busy : Chan
busy = record probed {
  done_list = desc_at 2 0x1000_0000 ∷ [];
  active_list = desc_at 3 0x1000_0080 ∷ [];
  pending_list = desc_at 4 0x1000_0100 ∷ [];
  free_seg_list = segment_at 0x1000_0180 ∷ segment_at 0x1000_0200 ∷ [];
  desc_pendingcount = 1;
  idle = false;
}

-- The same without the one under way.
abbrev pub waiting : Chan
waiting = record busy { active_list = []; idle = true }
