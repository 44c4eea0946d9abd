-- ===== src/VxdmaDev/Test/Ends.antt =====
-- vxdma/vxdma_dev.c, the test of the ioctl: that it ends, and where it does not.
use petalinux_driver.Prelude.{ℕ, ◌≡◌, true, false}
use petalinux_driver.Kernel.{
  dma_mem_to_dev, dma_dev_to_mem, Code, code, neg, Fault, Result, ok, fault, neg,
}
use petalinux_driver.Vxdma.Chan.{Chan}
use petalinux_driver.VxdmaDev.{prep_buffer}
use petalinux_driver.VxdmaDev.Transfer.Ends.{Unanswered, Ends}
use petalinux_driver.VxdmaDev.Test.{Bench, Trial, dma_length}
use petalinux_driver.VxdmaDev.Test.Balance.{Left}

-- The one reason for which the test does not end: it has both channels and both buffers, both
-- transfers were submitted, and the wait for the cookie of the transmit side cannot be answered.
pub record Stuck (t : Trial) (b : Bench) : Type 0 where
  pub rx_found : t.rx_found ≡ true
  pub tx_found : t.tx_found ≡ true
  pub src : t.no_src ≡ false
  pub dest : t.no_dest ≡ false
  pub rx_cookie : ℕ
  pub tx_cookie : ℕ
  pub rx : Chan
  pub tx : Chan
  pub rx_submitted :
      prep_buffer t.rx_platform t.rx_handle dma_length dma_dev_to_mem 1 b.rx
      ≡ ok (code rx_cookie, rx)
  pub tx_submitted :
      prep_buffer t.tx_platform t.tx_handle dma_length dma_mem_to_dev 0 b.tx
      ≡ ok (code tx_cookie, tx)
  pub wait : Unanswered t.tx_platform tx_cookie t.tx_wakes tx

module _ (t : Trial) (R : Type 0) where
  -- How the wait of the two submitted transfers ends the test.
  abbrev WhyStuck : Bench → Type 0
  WhyStuck b =
      (m n : ℕ) (rx tx : Chan)
      → prep_buffer t.rx_platform t.rx_handle dma_length dma_dev_to_mem 1 b.rx ≡ ok (code m, rx)
      → prep_buffer t.tx_platform t.tx_handle dma_length dma_mem_to_dev 0 b.tx ≡ ok (code n, tx)
      → Unanswered t.tx_platform n t.tx_wakes tx
      → R

-- What the ioctl comes to.
pub data IoctlCase (t : Trial) (cmd : ℕ) (b : Bench) (m : Result (Code × Bench)) : Type 0 where
  done : (r : Code) (b' : Bench) → m ≡ ok (r, b') → Left t cmd b r b' → IoctlCase t cmd b m
  unended : cmd ≡ 0 → Stuck t b → m ≡ fault Fault.wild_access → IoctlCase t cmd b m
