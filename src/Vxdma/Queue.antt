-- ===== src/Vxdma/Queue.antt =====
-- vxdma/vxdma.c, the descriptors on their way through a channel: submitted to the pending list,
-- moved to the done list by the interrupt, and cleaned up by the tasklet.
pub mod Complete
pub mod Cleanup
use petalinux_driver.Prelude.{
  ℕ, ◌+◌, ◌-◌, ◌^◌, Bool, true, false, List, [], ◌∷◌, ◌++◌, Option, none, some, bit_and, ltb, ◌||◌,
  not, if◌then◌else◌, last?, map_last,
}
use petalinux_driver.Kernel.{
  Platform, Code, code, neg, ebusy, Result, ok, fault, Fault, ◌>>=◌, entry, DmaStatus, dma_complete,
  dma_in_progress, dma_error, Event, called_back, ran_dependencies, scheduled_tasklet,
}
use petalinux_driver.Vxdma.Chan.{
  Segment, TxDesc, Chan, not32, u32, has_bit, reg_control, reg_status, reg_curdesc, reg_curdescmsb,
  reg_taildesc, reg_taildescmsb, cr_cyclic_bd_en_mask, irq_all_mask, irq_error_mask, irq_ioc_mask,
  max_trans_len, coalesce_max, dma_ctrl_read, dma_ctrl_write,
}
use petalinux_driver.Vxdma.Segment.{free_tx_descriptor, free_descriptors}
use petalinux_driver.Vxdma.Engine.{halt, chan_reset, start_transfer}

-- The loop of `xilinx_dma_complete_descriptor` over the active list.
pub complete_each : Platform → Chan → List TxDesc → Chan
complete_each p c [] = c
complete_each p c (desc ∷ rest) =
    complete_each p
      (record c {
        active_list = rest;
        cookies = if desc.cyclic then c.cookies else p.dma_cookie_complete desc.cookie c.cookies;
        done_list = c.done_list ++ desc ∷ [];
      })
      rest

pub complete_descriptor : Platform → Chan → Chan
complete_descriptor p c = complete_each p c c.active_list

pub data IrqReturn : Type 0 where
  irq_none irq_handled : IrqReturn

-- The registers that the error message prints.
pub report_errors : Platform → Chan → Chan
unfolding dma_ctrl_read
report_errors p c =
    let (_, c₁) = dma_ctrl_read p reg_status c in
    let (_, c₂) = dma_ctrl_read p reg_curdesc c₁ in
    let (_, c₃) = dma_ctrl_read p reg_curdescmsb c₂ in
    let (_, c₄) = dma_ctrl_read p reg_taildesc c₃ in
    let (_, c₅) = dma_ctrl_read p reg_taildescmsb c₄ in record c₅ { err = true }

-- An interrupt on completion: all that is active is done, and the next transfer starts.
unfoldable pub on_completion : Platform → Chan → Result Chan
on_completion p c = start_transfer p (record (complete_descriptor p c) { idle = true })

-- The channel that the handler goes on with once the interrupt is acknowledged.
pub acknowledge : Platform → ℕ → Chan → Chan
unfolding dma_ctrl_write
acknowledge p status c =
    let c' = dma_ctrl_write reg_status (bit_and status irq_all_mask) c in
    if has_bit status irq_error_mask then report_errors p c' else c'

-- The part of the handler that a status with an interrupt bit reaches.
unfoldable pub handle_status : Platform → ℕ → Chan → Result (IrqReturn × Chan)
handle_status p status c = do
  let c₁ = acknowledge p status c
  c₂ ← if has_bit status irq_ioc_mask then on_completion p c₁ else ok c₁
  ok (irq_handled, record c₂ { trace = scheduled_tasklet ∷ c₂.trace })

unfoldable pub irq_handler : Platform → Chan → Result (IrqReturn × Chan)
irq_handler p c =
    let (status, c₁) = dma_ctrl_read p reg_status c in
    if has_bit status irq_all_mask then handle_status p status c₁ else ok (irq_none, c₁)

-- The client's callback, which the driver runs with its lock given back, if there is one.
abbrev pub note_callback : Option ℕ → List Event → List Event
note_callback none trace = trace
note_callback (some callback) trace = called_back callback ∷ trace

abbrev pub run_callback : Option ℕ → Chan → Chan
run_callback callback c = record c { trace = note_callback callback c.trace }

pub handle_cyclic : Chan → TxDesc → Chan
handle_cyclic c desc = run_callback desc.callback c

-- One round of the loop of `xilinx_dma_chan_desc_cleanup`, for a descriptor that is not cyclic.
pub cleanup_desc : Chan → TxDesc → List TxDesc → Chan
cleanup_desc c desc rest =
    let c₁ = run_callback desc.callback (record c { done_list = rest }) in
    let c₂ = record c₁ { trace = ran_dependencies desc.cookie ∷ c₁.trace } in
    free_tx_descriptor c₂ (some desc)

pub cleanup_each : Chan → List TxDesc → Chan
cleanup_each c [] = c
cleanup_each c (desc ∷ rest) =
    let next = cleanup_each (cleanup_desc c desc rest) rest in
    if desc.cyclic then handle_cyclic c desc else next

pub desc_cleanup : Chan → Chan
desc_cleanup c = cleanup_each c c.done_list

unfoldable pub do_tasklet : Chan → Chan
do_tasklet c = desc_cleanup c

-- `tail_segment->hw.next_desc = ...` of the last pending descriptor.
abbrev pub link_segment : ℕ → Segment → Segment
link_segment next s = record s { hw = record (s.hw) { next_desc = next } }

abbrev pub link_desc : ℕ → TxDesc → TxDesc
link_desc next d = record d { segments = map_last (link_segment next) d.segments }

-- The list of pending descriptors with its last segment linked to the new descriptor.
unfoldable pub link_tail : ℕ → List TxDesc → Result (List TxDesc)
link_tail next [] = ok []
link_tail next (d ∷ ds) = do
  tail_desc ← entry (last? (d ∷ ds))
  tail_segment ← entry (last? tail_desc.segments)
  ok (map_last (link_desc next) (d ∷ ds))

unfoldable pub append_desc_queue : Chan → TxDesc → Result Chan
append_desc_queue c desc = do
  linked ← link_tail (u32 desc.phys) c.pending_list
  let c' = record c {
    pending_list = linked ++ desc ∷ [];
    desc_pendingcount = u32 (c.desc_pendingcount + 1);
  }
  if ltb coalesce_max c'.desc_pendingcount then fault Fault.bug else ok c'

-- The part of `xilinx_dma_tx_submit` under the lock.
unfoldable pub enqueue : Platform → TxDesc → Chan → Result (Code × Chan)
enqueue p desc c = do
  let (cookie, cookies) = p.dma_cookie_assign c.cookies
  c' ← append_desc_queue (record c { cookies = cookies }) (record desc { cookie = cookie })
  ok (code cookie, if desc.cyclic then record c' { cyclic = true } else c')

unfoldable pub submit_after_reset : Platform → TxDesc → Code × Chan → Result (Code × Chan)
submit_after_reset p desc (neg e, c) = ok (neg e, c)
submit_after_reset p desc (code _, c) = enqueue p desc c

-- A channel with an error is reset first; a reset that fails is the result.
unfoldable pub tx_submit : Platform → TxDesc → Chan → Result (Code × Chan)
tx_submit p desc c =
    if c.cyclic
    then ok (neg ebusy, free_tx_descriptor c (some desc))
    else if c.err
    then submit_after_reset p desc (chan_reset p c)
    else enqueue p desc c

-- What a transfer has still to do: the loop over the segments of a descriptor.
unfoldable pub add_residue : ℕ → List Segment → ℕ
add_residue residue [] = residue
add_residue residue (segment ∷ rest) =
    let left = bit_and (u32 (segment.hw.control + 2 ^ 32 - segment.hw.status)) max_trans_len in
    add_residue (u32 (residue + left)) rest

-- The residue of the descriptor that was activated last.
unfoldable pub active_residue : Chan → Result ℕ
unfolding add_residue
active_residue c =
    if c.has_sg
    then (do desc ← entry (last? c.active_list); ok (add_residue 0 desc.segments))
    else ok 0

unfoldable pub is_complete : DmaStatus → Bool
is_complete dma_complete = true
is_complete dma_in_progress = false
is_complete dma_error = false

-- `wanted` says that the caller gave a `txstate`; the second part of the result is its residue, if
-- it was set.
unfoldable pub tx_status :
    Platform → (cookie : ℕ) → (wanted : Bool) → Chan → Result (DmaStatus × Option ℕ × Chan)
tx_status p cookie wanted c =
    let status = p.dma_cookie_status c.cookies cookie in
    if is_complete status || not wanted
    then ok (status, none, c)
    else (do residue ← active_residue c; ok (status, some residue, record c { residue = residue }))

unfoldable pub terminate_all : Platform → Chan → Code × Chan
terminate_all p c =
    let c₁ = free_descriptors (halt p c) in
    let c₂ = record c₁ { ctrl_reg = bit_and c₁.ctrl_reg (not32 cr_cyclic_bd_en_mask) } in
    let c₃ = record (dma_ctrl_write reg_control c₂.ctrl_reg c₂) { cyclic = false } in
    (code 0, if c₁.cyclic then c₃ else c₁)
