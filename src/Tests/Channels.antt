-- ===== src/Tests/Channels.antt =====
-- The allocation, the end and the reset of channels, at concrete ones.
use petalinux_driver.Prelude.{◌+◌, ◌≡◌, refl, some, All, arith, ◌*◌, sym, subst, get_elem?}
use petalinux_driver.Kernel.{Code, ok, fault, Fault}
use petalinux_driver.Vxdma.Chan.{Chan, Segment, u32}
use petalinux_driver.Vxdma.Segment.{alloc_chan_resources, segment_size}
use petalinux_driver.Vxdma.Engine.{issue_pending, set_coalesce}
use petalinux_driver.Vxdma.Queue.{tx_submit, terminate_all}
use petalinux_driver.Vxdma.Ring.{alloc_chan_resources_ring, successor}
use petalinux_driver.Vxdma.Engine.Registers.{set_coalesce_lem}
use petalinux_driver.Vxdma.Terminate.{
  cancel_rounds, cancel_rounds_bug, terminate_all_stuck, terminate_all_lem,
}
use petalinux_driver.Vxdma.Engine.Total.{HasSegments}
use petalinux_driver.Vxdma.Invariant.Submit.{tx_submit_cases}
use petalinux_driver.Tests.Fixtures.{prompt_platform, probed, desc_at, busy}

alloc_chan_resources_ring_example :
    let pool = (alloc_chan_resources prompt_platform probed).1.free_seg_list in
    (s : Segment) × (t : Segment) × (get_elem? pool 254 ≡ some s)
    × (get_elem? pool (successor 254) ≡ some t)
    × (s.phys ≡ 0x1000_0000 + segment_size * 254)
    × (s.hw.next_desc ≡ u32 t.phys)
alloc_chan_resources_ring_example =
    alloc_chan_resources_ring prompt_platform probed 0x1000_0000 254 refl refl (omega arith)

abbrev cancelled : Chan
cancelled = (terminate_all prompt_platform busy).1

resubmitted :
    (r : Code) × (c' : Chan) × (tx_submit prompt_platform (desc_at 0 0x1000_0000) cancelled
      ≡ ok (r, c'))
resubmitted =
    let k = terminate_all_lem prompt_platform busy in
    let (r, c', e, _) =
      tx_submit_cases prompt_platform (desc_at 0 0x1000_0000) cancelled
        (subst (All HasSegments) (sym k.pending) tt) (omega (arith, k.count)) in
    (r, c', e)

terminate_all_stuck_example : issue_pending prompt_platform resubmitted.1 ≡ ok resubmitted.1
terminate_all_stuck_example =
    terminate_all_stuck prompt_platform busy resubmitted.1 (desc_at 0 0x1000_0000) resubmitted.0
      refl resubmitted.2

cancel_rounds_bug_example :
    cancel_rounds prompt_platform (desc_at 0 0x1000_0000) 256 probed ≡ fault Fault.bug
cancel_rounds_bug_example =
    cancel_rounds_bug prompt_platform (desc_at 0 0x1000_0000) 255 probed (λ t reg cond. refl)
      (record { pending = refl; plain = refl; good = refl }) refl

set_coalesce_lem_example : (set_coalesce (record busy { ctrl_reg = 0x5_7003 })).ctrl_reg ≡ 0x1_7003
set_coalesce_lem_example =
    set_coalesce_lem (record busy { ctrl_reg = 0x5_7003 }) (omega arith) (omega arith)
