-- ===== src/Axidma.antt =====
-- axidma/axidma.c: the loop-back test of vxdma/vxdma_dev.c as a module of its own, which runs it when
-- it is loaded. The helpers are the text of vxdma_dev.c; the start differs in its result.
use petalinux_driver.Prelude.{ℕ, Bool, not, List, Option, if◌then◌else◌}
use petalinux_driver.Kernel.{
  Direction, dma_mem_to_dev, dma_dev_to_mem, Platform, Code, code, neg, eperm, Result, ok, ◌>>=◌,
}
use petalinux_driver.Kernel.Ledger.{dma_channel, release}
use petalinux_driver.Vxdma.Chan.{Chan}
use petalinux_driver.VxdmaDev.{FilterChan, xdma_filter, prep_buffer}
use petalinux_driver.VxdmaDev.Transfer.{Wake, Report}
use petalinux_driver.VxdmaDev.Transfer
use petalinux_driver.VxdmaDev.Test.{Trial, Bench, acquire}
use petalinux_driver.VxdmaDev.Test
pub mod Start

abbrev pub axidma_prep_buffer :
    Platform → (buf len : ℕ) → Direction → (cmp : ℕ) → Chan → Result (Code × Chan)
axidma_prep_buffer = prep_buffer

abbrev pub axidma_start_transfer :
    Platform → (cmp cookie : ℕ) → (wait : Bool) → List Wake → Chan → Result (Report × Chan)
axidma_start_transfer = Transfer.axidma_start_transfer

abbrev pub axidma_test_transfer : Trial → Bench → Result Bench
axidma_test_transfer = Test.axidma_test_transfer

abbrev pub xdma_filter_2 : FilterChan → Option ℕ → Bool
xdma_filter_2 = xdma_filter

-- A channel that was found stays requested where the other was not.
pub axidma_init : Trial → Bench → Result (Code × Bench)
axidma_init t b =
    let held =
      acquire (not t.rx_found) (dma_channel dma_dev_to_mem)
        (acquire (not t.tx_found) (dma_channel dma_mem_to_dev) b.held) in
    let b' = record b { held = held } in
    if t.rx_found
    then (if t.tx_found
        then (do
          b₁ ← axidma_test_transfer t b'
          held₁ ← release (dma_channel dma_mem_to_dev) b₁.held
          held₂ ← release (dma_channel dma_dev_to_mem) held₁
          ok (code 0, record b₁ { held = held₂ }))
        else ok (neg eperm, b'))
    else ok (neg eperm, b')

-- The end only prints.
unfoldable pub axidma_exit : Bench → Bench
axidma_exit b = b
