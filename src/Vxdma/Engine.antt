-- ===== src/Vxdma/Engine.antt =====
-- vxdma/vxdma.c, the start, stop and reset of a channel's engine, and the start of a transfer.
pub mod Frame
pub mod Launch
pub mod Total
pub mod Registers
use petalinux_driver.Prelude.{
  ℕ, ◌*◌, true, false, not, [], ◌++◌, bit_and, bit_or, leb, if◌then◌else◌, is_empty, head?, last?,
}
use petalinux_driver.Kernel.{Platform, Code, code, neg, ebusy, Result, ok, ◌>>=◌, entry}
use petalinux_driver.Vxdma.Chan.{
  TxDesc, Chan, not32, u32, has_bit, reg_control, reg_status, reg_curdesc, reg_taildesc,
  reg_srcdstaddr, reg_btt, cr_runstop_mask, cr_reset_mask, cr_coalesce_mask, cr_coalesce_unit,
  sr_halted_mask, max_trans_len, coalesce_max, dma_ctrl_read, dma_ctrl_write, dma_ctrl_writeq,
  dma_poll_timeout,
}

-- A poll that timed out: the message reads the status, and the channel is marked.
fail_channel : Platform → Chan → Chan
unfolding dma_ctrl_read
fail_channel p c = let (_, c') = dma_ctrl_read p reg_status c in record c' { err = true }

unfoldable pub halt : Platform → Chan → Chan
unfolding fail_channel dma_ctrl_write dma_poll_timeout
halt p c =
    let c₁ = record c { ctrl_reg = bit_and c.ctrl_reg (not32 cr_runstop_mask) } in
    let c₂ = dma_ctrl_write reg_control c₁.ctrl_reg c₁ in
    let (timeout, c₃) = dma_poll_timeout p reg_status (λ val. has_bit val sr_halted_mask) c₂ in
    if timeout then fail_channel p c₃ else c₃

pub start : Platform → Chan → Chan
unfolding fail_channel dma_ctrl_write dma_poll_timeout
start p c =
    let c₁ = record c { ctrl_reg = bit_or c.ctrl_reg cr_runstop_mask } in
    let c₂ = dma_ctrl_write reg_control c₁.ctrl_reg c₁ in
    let (timeout, c₃) =
      dma_poll_timeout p reg_status (λ val. not (has_bit val sr_halted_mask)) c₂ in
    if timeout then fail_channel p c₃ else c₃

unfoldable pub chan_reset : Platform → Chan → Code × Chan
unfolding dma_ctrl_read dma_ctrl_write dma_poll_timeout
chan_reset p c =
    let (control, c₁) = dma_ctrl_read p reg_control c in
    let c₂ = record c₁ { ctrl_reg = control } in
    let c₃ = dma_ctrl_write reg_control (bit_or control cr_reset_mask) c₂ in
    let (timeout, c₄) =
      dma_poll_timeout p reg_control (λ val. not (has_bit val cr_reset_mask)) c₃ in
    let (_, c₅) = dma_ctrl_read p reg_control c₄ in
    let (_, c₆) = dma_ctrl_read p reg_status c₅ in
    if timeout then (neg ebusy, c₆) else (code 0, record c₄ { err = false })

-- The count of pending descriptors, as the interrupt threshold.
pub set_coalesce : Chan → Chan
unfolding dma_ctrl_write
set_coalesce c =
    let cleared = bit_and c.ctrl_reg (not32 cr_coalesce_mask) in
    let c' = record c {
      ctrl_reg = bit_or cleared (u32 (c.desc_pendingcount * cr_coalesce_unit));
    } in
    if leb c.desc_pendingcount coalesce_max then dma_ctrl_write reg_control c'.ctrl_reg c' else c

-- An address register, in one access of 64 bits or of 32.
pub write_address : Platform → ℕ → ℕ → Chan → Chan
unfolding dma_ctrl_write dma_ctrl_writeq
write_address p reg value c =
    if p.phys_addr_64 then dma_ctrl_writeq reg value c else dma_ctrl_write reg value c

-- With scatter-gather the tail descriptor starts the engine; without, the first segment of the
-- first descriptor is all that the registers are given.
pub program_transfer : Platform → TxDesc → TxDesc → Chan → Result Chan
unfolding write_address dma_ctrl_write
program_transfer p head_desc tail_desc c =
    if c.has_sg
    then (do
      tail_segment ← entry (last? tail_desc.segments)
      ok (write_address p reg_taildesc tail_segment.phys c))
    else (do
      segment ← entry (head? head_desc.segments)
      let c' = write_address p reg_srcdstaddr segment.hw.buf_addr c
      ok (dma_ctrl_write reg_btt (bit_and segment.hw.control max_trans_len) c'))

-- list_splice_tail_init, and the channel is busy.
pub activate : Chan → Chan
activate c = record c {
  active_list = c.active_list ++ c.pending_list;
  pending_list = [];
  desc_pendingcount = 0;
  idle = false;
}

-- The interrupt threshold, the head descriptor, and the engine started.
pub arm : Platform → TxDesc → Chan → Chan
unfolding set_coalesce write_address start
arm p head_desc c =
    let c' = set_coalesce c in
    start p (if c'.has_sg then write_address p reg_curdesc head_desc.phys c' else c')

-- A channel whose engine did not start keeps its lists.
pub launch : Platform → TxDesc → TxDesc → Chan → Result Chan
unfolding activate
launch p head_desc tail_desc c =
    let programmed = program_transfer p head_desc tail_desc c in
    if c.err then ok c else (programmed >>= λ c'. ok (activate c'))

-- What `xilinx_dma_start_transfer` does behind its first three tests.
pub begin_transfer : Platform → Chan → Result Chan
begin_transfer p c = do
  head_desc ← entry (head? c.pending_list)
  tail_desc ← entry (last? c.pending_list)
  launch p head_desc tail_desc (arm p head_desc c)

unfoldable pub start_transfer : Platform → Chan → Result Chan
start_transfer p c =
    if c.err
    then ok c
    else if is_empty c.pending_list
    then ok c
    else if c.idle
    then begin_transfer p c
    else ok c

unfoldable pub issue_pending : Platform → Chan → Result Chan
issue_pending p c = start_transfer p c
