-- ===== src/Vxhls/Dev.antt =====
-- vxhls/vxhls_dev.c: the start of the accelerator, and the test that sends it two matrices and waits
-- for a third. The helpers of the transfers are the text of vxdma/vxdma_dev.c. Buffers 0 and 1 are the
-- inputs and 2 is the output; mapping 0 is the transmit side's, 1 the receive side's. The numbers in
-- the buffers, which are printed, are left out.
pub mod Step
pub mod Balance
pub mod Ends
use petalinux_driver.Prelude.{
  ℕ, Bool, true, false, not, ◌||◌, List, [], ◌∷◌, map, Option, bit_and, bit_or, ◌==◌, if◌then◌else◌,
}
use petalinux_driver.Kernel.{
  Direction, dma_mem_to_dev, dma_dev_to_mem, Platform, Errno, Code, code, neg, eperm, Fault, Result,
  ok, fault, ◌>>=◌,
}
use petalinux_driver.Kernel.Ledger.{Resource, buffer, mapping, dma_channel, release}
use petalinux_driver.Vxdma.Chan.{Chan, has_bit}
use petalinux_driver.VxdmaDev.{FilterChan, xdma_filter, prep_buffer}
use petalinux_driver.VxdmaDev.Transfer.{Wake, Report}
use petalinux_driver.VxdmaDev.Transfer
use petalinux_driver.VxdmaDev.Test.{Bench, acquire}
use petalinux_driver.Vxhls.{Accel, Device, vxhls_read_reg, vxhls_write_reg}

abbrev pub ap_ctrl : ℕ
ap_ctrl = 0x0

abbrev pub ier : ℕ
ier = 0x2

abbrev pub ap_start_bit : ℕ
ap_start_bit = 0x1

abbrev pub ap_ready_bit : ℕ
ap_ready_bit = 0x8

pub xhls_setup_accel : Device → Accel → Result (Code × Accel)
xhls_setup_accel p a = do
  a₁ ← vxhls_write_reg ap_ctrl 0x80 a
  (_, a₂) ← vxhls_read_reg p ier a₁
  a₃ ← vxhls_write_reg ier 0 a₂
  (data_, a₄) ← vxhls_read_reg p ap_ctrl a₃
  a₅ ← vxhls_write_reg ap_ctrl (bit_or (bit_and data_ 0x80) ap_start_bit) a₄
  (_, a₆) ← vxhls_read_reg p ap_ctrl a₅
  (ready, a₇) ← vxhls_read_reg p ap_ctrl a₆
  ok (if has_bit ready ap_ready_bit then code 1 else neg eperm, a₇)

abbrev pub axidma_prep_buffer :
    Platform → (buf len : ℕ) → Direction → (cmp : ℕ) → Chan → Result (Code × Chan)
axidma_prep_buffer = prep_buffer

abbrev pub axidma_start_transfer :
    Platform → (cmp cookie : ℕ) → (wait : Bool) → List Wake → Chan → Result (Report × Chan)
axidma_start_transfer = Transfer.axidma_start_transfer

abbrev pub xdma_filter_2 : FilterChan → Option ℕ → Bool
xdma_filter_2 = xdma_filter

abbrev pub matrix_length : ℕ
matrix_length = 4096

-- One side's part of the test: its device, its bus address, and what happens during the wait.
pub record Side : Type 0 where
  pub platform : Platform
  pub handle : ℕ
  pub wakes : List Wake

pub submitted_side :
    Side → (side : ℕ) → Code → Chan → List Resource → Result (Code × Chan × List Resource)
submitted_side t side (neg e) c held = ok (neg eperm, c, held)
submitted_side t side (code cookie) c held = do
  (_, c') ← axidma_start_transfer t.platform side cookie true t.wakes c
  held' ← release (mapping side) held
  ok (code 1, c', held')

-- Map, submit, wait and unmap; a refused submission keeps the mapping.
pub one_way :
    Side → (side : ℕ) → Direction → Chan → List Resource → Result (Code × Chan × List Resource)
one_way t side dir c held = do
  (cookie, c') ← axidma_prep_buffer t.platform t.handle matrix_length dir side c
  submitted_side t side cookie c' (mapping side ∷ held)

-- The input is never NULL here: the test has looked.
pub xhls_load_input : Side → Bench → Result (Code × Bench)
xhls_load_input t b = do
  (r, tx, held) ← one_way t 0 dma_mem_to_dev b.tx b.held
  ok (r, record b { tx = tx; held = held })

pub xhls_wait_output : Side → Bench → Result (Code × Bench)
xhls_wait_output t b = do
  (r, rx, held) ← one_way t 1 dma_dev_to_mem b.rx b.held
  ok (r, record b { rx = rx; held = held })

-- The answers to one test.
pub record HlsTrial : Type 0 where
  pub no_input_a : Bool
  pub no_input_b : Bool
  pub no_output : Bool
  pub tx_found : Bool
  pub rx_found : Bool
  pub input_a : Side
  pub input_b : Side
  pub output : Side

pub setup_dma : HlsTrial → Bench → Code × Bench
setup_dma t b =
    let held =
      acquire (not t.rx_found) (dma_channel dma_dev_to_mem)
        (acquire (not t.tx_found) (dma_channel dma_mem_to_dev) b.held) in
    (
      if t.rx_found then (if t.tx_found then code 1 else neg eperm) else neg eperm,
      record b { held = held },
    )

abbrev release_if : Bool → Resource → List Resource → Result (List Resource)
release_if present r held = if present then release r held else ok held

-- The channels that were found, and the three buffers; `kfree` of NULL does nothing.
pub release_all : (tx rx no_output : Bool) → List Resource → Result (List Resource)
release_all tx rx no_output held = do
  held₁ ← release_if tx (dma_channel dma_mem_to_dev) held
  held₂ ← release_if rx (dma_channel dma_dev_to_mem) held₁
  held₃ ← release (buffer 0) held₂
  held₄ ← release (buffer 1) held₃
  release_if (not no_output) (buffer 2) held₄

-- The end at both labels.
pub free_all : HlsTrial → (result : Code) → Bench → Result (Code × Bench)
free_all t result b = do
  held ← release_all t.tx_found t.rx_found t.no_output b.held
  ok (result, record b { held = held })

-- The output, which is read whatever the wait for it came to.
pub read_output : HlsTrial → Bench → Result (Code × Bench)
read_output t b = do
  (_, b') ← xhls_wait_output t.output b
  if t.no_output then fault Fault.wild_access else free_all t (code 1) b'

pub after_input_b : HlsTrial → Code × Bench → Result (Code × Bench)
after_input_b t (neg e, b) = free_all t (neg eperm) b
after_input_b t (code _, b) = read_output t b

pub after_input_a : HlsTrial → Code × Bench → Result (Code × Bench)
after_input_a t (neg e, b) = free_all t (neg eperm) b
after_input_a t (code _, b) = xhls_load_input t.input_b b >>= λ x. after_input_b t x

pub after_setup : HlsTrial → Code × Bench → Result (Code × Bench)
after_setup t (neg e, b) = free_all t (neg eperm) b
after_setup t (code _, b) = xhls_load_input t.input_a b >>= λ x. after_input_a t x

abbrev pub allocated : HlsTrial → Bench → Bench
allocated t b = record b {
  held =
      acquire t.no_output (buffer 2)
        (acquire t.no_input_b (buffer 1) (acquire t.no_input_a (buffer 0) b.held));
}

-- The result of the accelerator's set-up is printed only.
pub xhls_test : Device → HlsTrial → Bench → Accel → Result (Code × Bench × Accel)
xhls_test p t b a =
    let b' = allocated t b in
    if t.no_input_a || t.no_input_b then ok (neg eperm, b', a) else (do
      (_, a') ← xhls_setup_accel p a
      (r, b'') ← after_setup t (setup_dma t b')
      ok (r, b'', a'))

pub vxhls_ioctl : Device → HlsTrial → (cmd : ℕ) → Bench → Accel → Result (Code × Bench × Accel)
vxhls_ioctl p t cmd b a =
    if cmd == 0
    then (do (_, b', a') ← xhls_test p t b a; ok (code 0, b', a'))
    else ok (neg eperm, b, a)
