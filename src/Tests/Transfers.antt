-- ===== src/Tests/Transfers.antt =====
-- vxdma/vxdma_dev.c and the preparation, submission and completion of transfers, at concrete channels.
use petalinux_driver.Prelude.{
  ◌+◌, ℕ, ◌≡◌, refl, List, [], ◌∷◌, true, false, Option, none, arith, ◌++◌, ◌⊎◌, ◌≢◌,
}
use petalinux_driver.Kernel.{dma_mem_to_dev, Code, ok, fault, Fault, is_ok, is_ok-value}
use petalinux_driver.Vxdma.Chan.{Chan, TxDesc, dma_ctrl_read, reg_status, Segment}
use petalinux_driver.Vxdma.Engine.{start_transfer}
use petalinux_driver.Vxdma.Queue.{irq_handler, tx_submit, add_residue, IrqReturn, desc_cleanup}
use petalinux_driver.Vxdma.Prep.{
  prep_slave_sg, prep_dma_cyclic, fill_periods, close_cyclic, finish_cyclic, finish_desc, fill,
  slave_request, filled, mark_packet,
}
use petalinux_driver.Vxdma.Segment.{alloc_tx_segment, alloc_tx_descriptor}
use petalinux_driver.Vxdma.Invariant.{Inv}
use petalinux_driver.Vxdma.Prep.Residue.{add_residue-fill}
use petalinux_driver.Vxdma.Prep.Balance.{
  Prepared, weigh_held, HeldSegments, prep_slave_sg-keeps, prep_dma_cyclic-Prepared,
}
use petalinux_driver.Vxdma.Prep.Cyclic.{prep_dma_cyclic-is_ok}
use petalinux_driver.Vxdma.Prep.Total.{prep_slave_sg_total, prep_slave_sg_no_bytes}
use petalinux_driver.Vxdma.Queue.Complete.{IrqCase}
use petalinux_driver.Vxdma.Queue.Cleanup.{called, notified, called-desc_cleanup}
use petalinux_driver.Vxdma.Invariant.Submit.{SubmitCase, tx_submit_cases}
use petalinux_driver.Vxdma.Engine.Launch.{IsQuiet, IsLaunched}
use petalinux_driver.Vxdma.Pool.{weigh, weigh_chan}
use petalinux_driver.Vxdma.Invariant.Outcome.{irq_handler-IrqCase, start_transfer_outcome}
use petalinux_driver.Tests.Fixtures.{prompt_platform, desc_at, busy, waiting}

pub busy-Inv : Inv busy
unfolding weigh_chan
busy-Inv = record { held = (refl, tt); counted = refl; pool = omega arith; resting = λ i. cc }

pub waiting-Inv : Inv waiting
unfolding weigh_chan
waiting-Inv = record { held = (refl, tt); counted = refl; pool = omega arith; resting = λ i. refl }

abbrev one_buffer : List (ℕ × ℕ)
one_buffer = (0x2000_0000, 0x90_0000) ∷ []

prepared :
    (x : Option TxDesc × Chan) × (prep_slave_sg prompt_platform one_buffer dma_mem_to_dev none busy
      ≡ ok x)
prepared =
    is_ok-value (prep_slave_sg prompt_platform one_buffer dma_mem_to_dev none busy)
      (prep_slave_sg_total prompt_platform one_buffer dma_mem_to_dev none busy (omega arith))

prep_slave_sg-keeps_example :
    (prepared.0.1
      ≡ record busy { free_seg_list = prepared.0.1.free_seg_list; trace = prepared.0.1.trace })
    × (weigh_held (λ _. 1) prepared.0.0 + weigh (λ _. 1) prepared.0.1.free_seg_list
        ≡ weigh (λ _. 1) busy.free_seg_list)
    × HeldSegments prepared.0.0
prep_slave_sg-keeps_example =
    prep_slave_sg-keeps (λ _. 1) busy prompt_platform one_buffer dma_mem_to_dev none prepared.0.0
      prepared.0.1 prepared.1

prep_slave_sg_total_example :
    is_ok (prep_slave_sg prompt_platform one_buffer dma_mem_to_dev none busy) ≡ true
prep_slave_sg_total_example =
    prep_slave_sg_total prompt_platform one_buffer dma_mem_to_dev none busy (omega arith)

prep_slave_sg_no_bytes_example :
    prep_slave_sg prompt_platform ((0x2000_0000, 0) ∷ []) dma_mem_to_dev none busy
    ≡ fault Fault.wild_access
prep_slave_sg_no_bytes_example =
    prep_slave_sg_no_bytes prompt_platform ((0x2000_0000, 0) ∷ []) dma_mem_to_dev none busy refl
      refl refl

called-desc_cleanup_example :
    called (desc_cleanup busy).trace ≡ called busy.trace ++ notified busy.done_list
called-desc_cleanup_example = called-desc_cleanup busy

tx_submit_cases_example :
    (r : Code) × (c' : Chan) × (tx_submit prompt_platform (desc_at 0 0x1000_0180) busy ≡ ok (r, c'))
    × SubmitCase prompt_platform (desc_at 0 0x1000_0180) busy r c'
tx_submit_cases_example =
    tx_submit_cases prompt_platform (desc_at 0 0x1000_0180) busy (refl, tt) (omega arith)

after_submit :
    (r : Code) × (c' : Chan) × SubmitCase prompt_platform (desc_at 0 0x1000_0180) busy r c'
after_submit =
    let (r, c', e, k) =
      tx_submit_cases prompt_platform (desc_at 0 0x1000_0180) busy (refl, tt) (omega arith) in
    (r, c', k)

looped :
    (x : Option TxDesc × Chan) × (prep_dma_cyclic prompt_platform 0x2000_0000 0x200 0x100
        dma_mem_to_dev busy
      ≡ ok x)
unfolding prep_dma_cyclic alloc_tx_descriptor fill_periods fill alloc_tx_segment close_cyclic
    finish_cyclic finish_desc
looped = (_, refl)

prep_dma_cyclic-Prepared_example : Prepared (λ _. 1) busy looped.0.0 looped.0.1
prep_dma_cyclic-Prepared_example =
    prep_dma_cyclic-Prepared (λ _. 1) busy prompt_platform 0x2000_0000 0x200 0x100 dma_mem_to_dev
      looped.0.0 looped.0.1 looped.1

prep_dma_cyclic-is_ok_example :
    is_ok (prep_dma_cyclic prompt_platform 0x2000_0000 0x200 0x400 dma_mem_to_dev busy) ≡ false
prep_dma_cyclic-is_ok_example =
    prep_dma_cyclic-is_ok prompt_platform 0x2000_0000 0x200 0x400 dma_mem_to_dev busy refl refl

cut :
    (ss : List Segment) × (c : Chan) × (fill 4
        (slave_request prompt_platform dma_mem_to_dev none)
        0x2000_0000
        0x90_0000
        0
        []
        busy
      ≡ ok (filled ss c))
unfolding fill alloc_tx_segment
cut = (_, _, refl)

add_residue-fill_example : add_residue 0 (mark_packet dma_mem_to_dev cut.0) ≡ 0x90_0000
add_residue-fill_example =
    add_residue-fill 4 (slave_request prompt_platform dma_mem_to_dev none) 0x2000_0000 0x90_0000
      cut.0 busy cut.1 dma_mem_to_dev (refl, (refl, tt)) (omega arith) cut.2

irq_handler-IrqCase_example :
    (r : IrqReturn) × (c' : Chan) × (irq_handler prompt_platform busy ≡ ok (r, c'))
    × Inv c'
    × IrqCase prompt_platform (dma_ctrl_read prompt_platform reg_status busy).0 busy r c'
irq_handler-IrqCase_example = irq_handler-IrqCase prompt_platform busy busy-Inv

start_transfer_outcome_example :
    (c : Chan) × (start_transfer prompt_platform waiting ≡ ok c)
    × Inv c
    × (IsQuiet waiting c
        ⊎ (IsLaunched waiting c
            × (waiting.err ≡ false)
            × (waiting.idle ≡ true)
            × (waiting.pending_list ≢ [])))
start_transfer_outcome_example = start_transfer_outcome prompt_platform waiting waiting-Inv
