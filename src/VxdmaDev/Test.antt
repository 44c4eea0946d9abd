-- ===== src/VxdmaDev/Test.antt =====
-- vxdma/vxdma_dev.c, the loop-back test behind the ioctl: a buffer out of one channel and into the
-- other. Buffer and mapping 0 are those of the transmit side, 1 those of the receive side. The contents of
-- the buffers, which the test compares and prints, are left out.
pub mod Buffers
pub mod Balance
pub mod Ends
use petalinux_driver.Prelude.{
  ℕ, Bool, true, false, not, ◌||◌, List, [], ◌∷◌, map, ◌==◌, if◌then◌else◌,
}
use petalinux_driver.Kernel.{
  dma_mem_to_dev, dma_dev_to_mem, Platform, Code, code, neg, eperm, Result, ok, ◌>>=◌,
}
use petalinux_driver.Kernel.Ledger.{Resource, buffer, mapping, dma_channel, release}
use petalinux_driver.Vxdma.Chan.{Chan}
use petalinux_driver.VxdmaDev.{prep_buffer}
use petalinux_driver.VxdmaDev.Client.{Outcome, run}
use petalinux_driver.VxdmaDev.Transfer.{Wake, wake_op, axidma_start_transfer}

-- The two channels, and what the module holds.
pub record Bench : Type 0 where
  pub rx : Chan
  pub tx : Chan
  pub held : List Resource

-- The answers to one test: the two sides of the device, whether the channels are found and the
-- allocations fail, the bus addresses, and what happens to the channels during the wait.
pub record Trial : Type 0 where
  pub rx_platform : Platform
  pub tx_platform : Platform
  pub rx_found : Bool
  pub tx_found : Bool
  pub no_src : Bool
  pub no_dest : Bool
  pub rx_handle : ℕ
  pub tx_handle : ℕ
  pub rx_wakes : List Wake
  pub tx_wakes : List Wake

abbrev pub dma_length : ℕ
dma_length = 512

abbrev pub acquire : (failed : Bool) → Resource → List Resource → List Resource
acquire failed r held = if failed then held else r ∷ held

-- The end of a test that went through.
pub give_back : List Resource → Result (List Resource)
give_back held = do
  held₁ ← release (mapping 1) held
  held₂ ← release (mapping 0) held₁
  held₃ ← release (buffer 0) held₂
  release (buffer 1) held₃

-- Both transfers, the receive side without a wait.
pub start_both : Trial → (rx_cookie tx_cookie : ℕ) → Bench → Result Bench
start_both t rx_cookie tx_cookie b = do
  (_, rx) ← axidma_start_transfer t.rx_platform 1 rx_cookie false [] b.rx
  o ← run t.rx_platform (map wake_op t.rx_wakes) rx
  (_, tx) ← axidma_start_transfer t.tx_platform 0 tx_cookie true t.tx_wakes b.tx
  held ← give_back b.held
  ok (record { rx = o.chan; tx = tx; held = held })

pub after_submit : Trial → (rx_cookie tx_cookie : Code) → Bench → Result Bench
after_submit t (neg e) k b = ok b
after_submit t (code rx_cookie) (neg e) b = ok b
after_submit t (code rx_cookie) (code tx_cookie) b = start_both t rx_cookie tx_cookie b

pub with_buffers : Trial → Bench → Result Bench
with_buffers t b = do
  (rx_cookie, rx) ← prep_buffer t.rx_platform t.rx_handle dma_length dma_dev_to_mem 1 b.rx
  (tx_cookie, tx) ← prep_buffer t.tx_platform t.tx_handle dma_length dma_mem_to_dev 0 b.tx
  after_submit t rx_cookie tx_cookie
      (record { rx = rx; tx = tx; held = mapping 1 ∷ mapping 0 ∷ b.held })

pub axidma_test_transfer : Trial → Bench → Result Bench
axidma_test_transfer t b =
    let held = acquire t.no_dest (buffer 1) (acquire t.no_src (buffer 0) b.held) in
    let b' = record b { held = held } in if t.no_src || t.no_dest then ok b' else with_buffers t b'

unfoldable pub vxaxidma_test : Trial → Bench → Result (Code × Bench)
vxaxidma_test t b =
    let held =
      acquire (not t.rx_found) (dma_channel dma_dev_to_mem)
        (acquire (not t.tx_found) (dma_channel dma_mem_to_dev) b.held) in
    let b' = record b { held = held } in
    if t.rx_found
    then (if t.tx_found
        then (do
          b₁ ← axidma_test_transfer t b'
          held₁ ← release (dma_channel dma_mem_to_dev) b₁.held
          held₂ ← release (dma_channel dma_dev_to_mem) held₁
          ok (code 1, record b₁ { held = held₂ }))
        else ok (neg eperm, b'))
    else ok (neg eperm, b')

-- RX_TRANSFER runs the test and drops its result, TX_TRANSFER does nothing.
pub vxdma_dev_ioctl : Trial → (cmd : ℕ) → Bench → Result (Code × Bench)
vxdma_dev_ioctl t cmd b =
    if cmd == 0
    then (do (_, b') ← vxaxidma_test t b; ok (code 0, b'))
    else if cmd == 1
    then ok (code 0, b)
    else ok (neg eperm, b)
