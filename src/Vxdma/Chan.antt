-- ===== src/Vxdma/Chan.antt =====
-- vxdma/vxdma.h and the head of vxdma/vxdma.c: the registers, the descriptors, the channel, and the
-- accessors of the device. A `u32` field is a number that the accessors keep below 2 ^ 32.
use petalinux_driver.Prelude.{
  ℕ, ◌+◌, ◌-◌, ◌%◌, ◌/◌, ◌^◌, Bool, true, false, List, ◌∷◌, Option, bit_and, ◌==◌, if◌then◌else◌,
}
use petalinux_driver.Kernel.{
  Direction, Cookies, Event, did_read, wrote, wrote_quad, polled, Platform,
}

-- Register offsets.
abbrev pub reg_control : ℕ
reg_control = 0x00

abbrev pub reg_status : ℕ
reg_status = 0x04

abbrev pub reg_curdesc : ℕ
reg_curdesc = 0x08

abbrev pub reg_curdescmsb : ℕ
reg_curdescmsb = 0x0c

abbrev pub reg_taildesc : ℕ
reg_taildesc = 0x10

abbrev pub reg_taildescmsb : ℕ
reg_taildescmsb = 0x14

abbrev pub reg_srcdstaddr : ℕ
reg_srcdstaddr = 0x18

abbrev pub reg_btt : ℕ
reg_btt = 0x28

abbrev pub mm2s_ctrl_offset : ℕ
mm2s_ctrl_offset = 0x00

abbrev pub s2mm_ctrl_offset : ℕ
s2mm_ctrl_offset = 0x30

-- Register bits and fields.
abbrev pub cr_runstop_mask : ℕ
cr_runstop_mask = 0x1

abbrev pub cr_reset_mask : ℕ
cr_reset_mask = 0x4

abbrev pub cr_cyclic_bd_en_mask : ℕ
cr_cyclic_bd_en_mask = 0x10

abbrev pub cr_coalesce_mask : ℕ
cr_coalesce_mask = 0xff_0000

abbrev pub cr_coalesce_unit : ℕ
cr_coalesce_unit = 2 ^ 16

abbrev pub sr_halted_mask : ℕ
sr_halted_mask = 0x1

abbrev pub irq_ioc_mask : ℕ
irq_ioc_mask = 0x1000

abbrev pub irq_delay_mask : ℕ
irq_delay_mask = 0x2000

abbrev pub irq_error_mask : ℕ
irq_error_mask = 0x4000

abbrev pub irq_all_mask : ℕ
irq_all_mask = 0x7000

abbrev pub bd_sop : ℕ
bd_sop = 0x800_0000

abbrev pub bd_eop : ℕ
bd_eop = 0x400_0000

abbrev pub max_chans_per_device : ℕ
max_chans_per_device = 2

abbrev pub max_trans_len : ℕ
max_trans_len = 0x7f_ffff

abbrev pub num_descs : ℕ
num_descs = 255

abbrev pub coalesce_max : ℕ
coalesce_max = 255

-- `u32` arithmetic wraps; `~m` has 32 digits.
abbrev pub u32 : ℕ → ℕ
u32 n = n % 2 ^ 32

abbrev pub not32 : ℕ → ℕ
not32 m = 0xffff_ffff - m

abbrev pub upper_32_bits : ℕ → ℕ
upper_32_bits n = u32 (n / 2 ^ 32)

-- struct xilinx_dma_desc_hw
pub record HwDesc : Type 0 where
  pub next_desc : ℕ
  pub next_desc_msb : ℕ
  pub buf_addr : ℕ
  pub buf_addr_msb : ℕ
  pub pad1 : ℕ
  pub pad2 : ℕ
  pub control : ℕ
  pub status : ℕ
  pub app : List ℕ

-- struct xilinx_dma_tx_segment; `node` is the segment's place in the one list that holds it.
pub record Segment : Type 0 where
  pub hw : HwDesc
  pub phys : ℕ

-- struct xilinx_dma_tx_descriptor, with the fields of `async_tx` that the driver uses. A callback
-- with its parameter is a number.
pub record TxDesc : Type 0 where
  pub cookie : ℕ
  pub phys : ℕ
  pub callback : Option ℕ
  pub segments : List Segment
  pub direction : Direction
  pub cyclic : Bool

-- struct xilinx_dma_chan. `cookies` are the counters of `common`, `trace` is the history of the
-- channel's accesses and calls; the lock, which every operation takes and gives back, is left out.
pub record Chan : Type 0 where
  pub ctrl_offset : ℕ
  pub ctrl_reg : ℕ
  pub pending_list : List TxDesc
  pub done_list : List TxDesc
  pub active_list : List TxDesc
  pub free_seg_list : List Segment
  pub cookies : Cookies
  pub seg_p : ℕ
  pub irq : ℕ
  pub id : ℕ
  pub has_sg : Bool
  pub cyclic : Bool
  pub err : Bool
  pub idle : Bool
  pub residue : ℕ
  pub desc_pendingcount : ℕ
  pub private : ℕ
  pub direction : Direction
  pub trace : List Event

-- iowrite32, writeq and ioread32 at an offset from the device's registers.
pub dma_write : ℕ → ℕ → Chan → Chan
dma_write reg value c = record c { trace = wrote reg (u32 value) ∷ c.trace }

pub dma_writeq : ℕ → ℕ → Chan → Chan
dma_writeq reg value c = record c { trace = wrote_quad reg value ∷ c.trace }

pub dma_read : Platform → ℕ → Chan → ℕ × Chan
dma_read p reg c = (p.ioread32 c.trace reg, record c { trace = did_read reg ∷ c.trace })

unfoldable pub dma_ctrl_read : Platform → ℕ → Chan → ℕ × Chan
unfolding dma_read
dma_ctrl_read p reg c = dma_read p (u32 (c.ctrl_offset + reg)) c

unfoldable pub dma_ctrl_write : ℕ → ℕ → Chan → Chan
unfolding dma_write
dma_ctrl_write reg value c = dma_write (u32 (c.ctrl_offset + reg)) value c

unfoldable pub dma_ctrl_writeq : ℕ → ℕ → Chan → Chan
unfolding dma_writeq
dma_ctrl_writeq reg value c = dma_writeq (u32 (c.ctrl_offset + reg)) value c

-- The poll of a register until a condition holds; true when it timed out.
unfoldable pub dma_poll_timeout : Platform → ℕ → (ℕ → Bool) → Chan → Bool × Chan
dma_poll_timeout p reg cond c =
    let at = c.ctrl_offset + reg in
    (p.readl_poll_timeout c.trace at cond, record c { trace = polled at ∷ c.trace })

-- `x & mask` as a condition.
abbrev pub has_bit : ℕ → ℕ → Bool
has_bit x mask = if bit_and x mask == 0 then false else true
