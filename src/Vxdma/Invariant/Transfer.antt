-- ===== src/Vxdma/Invariant/Transfer.antt =====
-- vxdma/vxdma.c, the invariant and the start of a transfer, the interrupt and the tasklet.
use petalinux_driver.Prelude.{
  ℕ, ◌+◌, ◌≡◌, refl, ap, sym, subst, List, [], ◌∷◌, map, true, inl, inr, All, arith,
}
use petalinux_driver.Kernel.{Platform, ok, is_ok}
use petalinux_driver.Vxdma.Chan.{TxDesc, Chan, reg_status, dma_ctrl_read}
use petalinux_driver.Vxdma.Pool.{
  weigh_descs, weigh_chan, weigh-append, weigh_descs-append, weigh-map-clean, weigh-segments_of,
  clean_segment, segments_of,
}
use petalinux_driver.Vxdma.Engine.{start_transfer}
use petalinux_driver.Vxdma.Engine.Launch.{IsQuiet, IsLaunched, start_transfer_cases}
use petalinux_driver.Vxdma.Engine.Total.{HasSegments, start_transfer_total}
use petalinux_driver.Vxdma.Queue.{
  IrqReturn, complete_descriptor, on_completion, acknowledge, handle_status, irq_handler,
  desc_cleanup,
}
use petalinux_driver.Vxdma.Queue.Complete.{
  Completed, IsUnmoved, not_ours, acknowledged, completed, irq_handler_cases,
  complete_descriptor_lem, acknowledge_frame,
}
use petalinux_driver.Vxdma.Queue.Cleanup.{retired, remaining, desc_cleanup_lem}
use petalinux_driver.Vxdma.Invariant.{Inv}

module _ (f : ℕ → ℕ) (c c' : Chan) where
  pub weigh-unmoved : IsUnmoved c c' → weigh_chan f c' ≡ weigh_chan f c
  unfolding weigh_chan
  weigh-unmoved u = ground arith

  pub weigh-quiet : IsQuiet c c' → weigh_chan f c' ≡ weigh_chan f c
  unfolding weigh_chan
  weigh-quiet u = ground arith

  pub weigh-launched : IsLaunched c c' → weigh_chan f c' ≡ weigh_chan f c
  unfolding weigh_chan
  weigh-launched u = ground (arith, weigh_descs-append f c.active_list c.pending_list)

  pub weigh-Completed : (p : Platform) → Completed p c c' → weigh_chan f c' ≡ weigh_chan f c
  unfolding weigh_chan
  weigh-Completed p d = ground (arith, weigh_descs-append f c.done_list c.active_list)

pub quiet-Inv : (c c' : Chan) → Inv c → IsQuiet c c' → Inv c'
quiet-Inv c c' v u =
    let w = weigh-quiet (λ _. 1) c c' u in
    record {
      held = subst (All HasSegments) (ap (λ (x : Chan). x.pending_list) (sym u)) v.held;
      counted = ground arith;
      pool = ground arith;
      resting = λ e. ground arith;
    }

launched-Inv : (c c' : Chan) → Inv c → IsLaunched c c' → Inv c'
launched-Inv c c' v u =
    let w = weigh-launched (λ _. 1) c c' u in
    record {
      held = subst (All HasSegments) (ap (λ (x : Chan). x.pending_list) (sym u)) tt;
      counted = ground arith;
      pool = ground arith;
      resting = λ e. ground arith;
    }

-- The start of a transfer keeps the invariant, whether the engine starts or not.
pub start_transfer-Inv : (p : Platform) (c c' : Chan) → Inv c → start_transfer p c ≡ ok c' → Inv c'
start_transfer-Inv p c c' v h = elim (start_transfer_cases p c c' h) [
  | inl u ↦ quiet-Inv c c' v u
  | inr (u, _, _, _) ↦ launched-Inv c c' v u
]

pub Completed-Inv : (p : Platform) (c c' : Chan) → Inv c → Completed p c c' → Inv c'
Completed-Inv p c c' v d =
    let w = weigh-Completed (λ _. 1) c c' p d in
    elim (d.next) [
      | inl (a, b, i, n) ↦ record {
        held = subst (All HasSegments) (sym b) v.held;
        counted = ground arith;
        pool = ground arith;
        resting = λ e. a;
      }
      | inr (a, b, i, n, _, _) ↦ record {
        held = subst (All HasSegments) (sym b) tt;
        counted = ground arith;
        pool = ground arith;
        resting = λ e. ground arith;
      }
    ]

pub unmoved-Inv : (c c' : Chan) → Inv c → IsUnmoved c c' → Inv c'
unmoved-Inv c c' v u =
    let w = weigh-unmoved (λ _. 1) c c' u in
    record {
      held = subst (All HasSegments) (ap (λ (x : Chan). x.pending_list) (sym u)) v.held;
      counted = ground arith;
      pool = ground arith;
      resting = λ e. ground arith;
    }

-- If the interrupt handler has a result on a channel that satisfies the invariant, the channel
-- after it satisfies it too.
pub irq_handler-Inv :
    (p : Platform) (c c' : Chan) (r : IrqReturn) → Inv c → irq_handler p c ≡ ok (r, c') → Inv c'
irq_handler-Inv p c c' r v h = elim (irq_handler_cases p c c' r h) [
  | not_ours off k u e ↦ unmoved-Inv c c' v u
  | acknowledged off k u e ↦ unmoved-Inv c c' v u
  | completed on k d ↦ Completed-Inv p c c' v d
]

pub on_completion_total :
    (p : Platform) (c : Chan) → All HasSegments c.pending_list → is_ok (on_completion p c) ≡ true
unfolding on_completion
on_completion_total p c h =
    start_transfer_total p (record (complete_descriptor p c) { idle = true })
      (subst (All HasSegments)
        (ap (λ (x : Chan). x.pending_list) (sym (complete_descriptor_lem p c))) h)

-- The interrupt handler has a result on every channel whose pending descriptors each hold a
-- segment, whatever the device answers.
pub irq_handler_total :
    (p : Platform) (c : Chan) → All HasSegments c.pending_list → is_ok (irq_handler p c) ≡ true
unfolding irq_handler handle_status dma_ctrl_read
irq_handler_total p c h =
    let (status, c₁) = dma_ctrl_read p reg_status c in
    let (u, _) = acknowledge_frame p status c₁ in
    let kept : All HasSegments (acknowledge p status c₁).pending_list =
      subst (All HasSegments) (ap (λ (x : Chan). x.pending_list) (sym u)) h in
    ground (arith, on_completion_total p (acknowledge p status c₁) kept)

weigh-retired :
    (f : ℕ → ℕ) (ds : List TxDesc)
    → weigh_descs f (retired ds) + weigh_descs f (remaining ds) ≡ weigh_descs f ds
weigh-retired f [] = refl
weigh-retired f (d ∷ ds) = ground (arith, weigh-retired f ds)

-- A run of the tasklet keeps the total weight of the segments in the free list and in the three
-- lists of descriptors, for every weight that depends on a segment's address: no segment is lost
-- and none is made up.
pub weigh-desc_cleanup : (f : ℕ → ℕ) (c : Chan) → weigh_chan f (desc_cleanup c) ≡ weigh_chan f c
unfolding weigh_chan
weigh-desc_cleanup f c =
    let ss = segments_of (retired c.done_list) in
    ground (
      arith,
      desc_cleanup_lem c,
      weigh-append f c.free_seg_list (map clean_segment ss),
      weigh-map-clean f ss,
      weigh-segments_of f (retired c.done_list),
      weigh-retired f c.done_list,
    )

pub desc_cleanup-Inv : (c : Chan) → Inv c → Inv (desc_cleanup c)
desc_cleanup-Inv c v =
    let e = desc_cleanup_lem c in
    record {
      held = subst (All HasSegments) (ap (λ (x : Chan). x.pending_list) (sym e)) v.held;
      counted = ground arith;
      pool = omega (arith, weigh-desc_cleanup (λ _. 1) c, v.pool);
      resting = λ i. ground arith;
    }
