-- ===== src/Vxdma/Invariant/Outcome.antt =====
-- vxdma/vxdma.c, the start of a transfer and the interrupt on a channel that satisfies the invariant.
use petalinux_driver.Prelude.{◌≡◌, ◌⊎◌, ◌≢◌, true, false, []}
use petalinux_driver.Kernel.{Platform, ok, is_ok-value}
use petalinux_driver.Vxdma.Chan.{Chan, reg_status, dma_ctrl_read}
use petalinux_driver.Vxdma.Engine.{start_transfer}
use petalinux_driver.Vxdma.Engine.Launch.{IsQuiet, IsLaunched, start_transfer_cases}
use petalinux_driver.Vxdma.Engine.Total.{start_transfer_total}
use petalinux_driver.Vxdma.Queue.{IrqReturn, irq_handler}
use petalinux_driver.Vxdma.Queue.Complete.{IrqCase, irq_handler_cases}
use petalinux_driver.Vxdma.Invariant.{Inv}
use petalinux_driver.Vxdma.Invariant.Transfer.{
  irq_handler-Inv, irq_handler_total, start_transfer-Inv,
}

-- On a channel that satisfies the invariant, the start of a transfer has a result, whatever the
-- device answers, and the invariant holds after it. Either only the control register, the error
-- mark and the history change, or also all that was pending is moved behind what was active, the
-- counter of pending descriptors is 0 and the channel busy. The second happens only to an idle
-- channel without an error that had something pending.
pub start_transfer_outcome :
    (p : Platform) (c : Chan)
    → Inv c
    → (c' : Chan) × (start_transfer p c ≡ ok c')
      × Inv c'
      × (IsQuiet c c'
          ⊎ (IsLaunched c c' × (c.err ≡ false) × (c.idle ≡ true) × (c.pending_list ≢ [])))
start_transfer_outcome p c v =
    let (c', e) = is_ok-value (start_transfer p c) (start_transfer_total p c v.held) in
    (c', e, start_transfer-Inv p c c' v e, start_transfer_cases p c c' e)

-- On a channel that satisfies the invariant, the interrupt handler has a result, whatever the
-- device answers, and the invariant holds after it. Without an interrupt bit in the status
-- register that it reads, it answers that the interrupt is not its own, and changes only the
-- history. With one but without the completion bit, it is handled, and only the error mark
-- changes, which is set by the error bit. With the completion bit, all that was active goes to the
-- end of the done list in order, its cookies are completed in that order but for cyclic
-- descriptors, and either nothing new is active and the channel is idle, or all that was pending
-- is active, which happens only on a channel that had pending descriptors and no error.
pub irq_handler-IrqCase :
    (p : Platform) (c : Chan)
    → Inv c
    → (r : IrqReturn) × (c' : Chan) × (irq_handler p c ≡ ok (r, c'))
      × Inv c'
      × IrqCase p (dma_ctrl_read p reg_status c).0 c r c'
irq_handler-IrqCase p c v =
    let ((r, c'), e) = is_ok-value (irq_handler p c) (irq_handler_total p c v.held) in
    (r, c', e, irq_handler-Inv p c c' r v e, irq_handler_cases p c c' r e)
