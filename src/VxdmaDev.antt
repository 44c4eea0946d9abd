-- ===== src/VxdmaDev.antt =====
-- vxdma/vxdma_dev.c: the client of the DMA driver behind the character device `vxdma_dev`. The
-- kernel's `dmaengine_prep_slave_single`, `dmaengine_submit` and `dma_async_issue_pending` pass
-- their calls on to the driver's functions, a buffer as a scatterlist of one entry.
pub mod Client
pub mod Timeline
pub mod Run
pub mod Protocol
pub mod Refinement
pub mod Lifetime
pub mod Status
pub mod Machine
pub mod Filter
pub mod Transfer
pub mod Test
use petalinux_driver.Prelude.{
  ℕ, ◌+◌, Bool, true, false, List, [], ◌∷◌, Option, none, some, bit_and, bit_or, ◌==◌,
  if◌then◌else◌,
}
use petalinux_driver.Kernel.{
  Direction, dma_mem_to_dev, dma_dev_to_mem, other_direction, Platform, Code, code, neg, ebusy,
  eperm, Result, ok, ◌>>=◌,
}
use petalinux_driver.Vxdma.Chan.{TxDesc, Chan}
use petalinux_driver.Vxdma.Queue.{tx_submit}
use petalinux_driver.Vxdma.Prep.{prep_slave_sg}

-- A prepared descriptor gets the client's completion as its callback, and is submitted.
unfoldable pub submit_buffer : Platform → ℕ → Option TxDesc → Chan → Result (Code × Chan)
submit_buffer p cmp none c = ok (neg ebusy, c)
submit_buffer p cmp (some d) c = tx_submit p (record d { callback = some cmp }) c

pub prep_buffer : Platform → (buf len : ℕ) → Direction → (cmp : ℕ) → Chan → Result (Code × Chan)
prep_buffer p buf len dir cmp c = do
  (chan_desc, c') ← prep_slave_sg p ((buf, len) ∷ []) dir none c
  submit_buffer p cmp chan_desc c'

-- A channel as the filter sees it: NULL, one with no private word, or one with its word.
pub data FilterChan : Type 0 where
  no_chan no_private : FilterChan
  private_word : ℕ → FilterChan

pub xdma_filter : FilterChan → Option ℕ → Bool
xdma_filter no_chan param = false
xdma_filter no_private param = false
xdma_filter (private_word word) none = true
xdma_filter (private_word word) (some param) = word == param
