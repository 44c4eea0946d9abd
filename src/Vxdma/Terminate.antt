-- ===== src/Vxdma/Terminate.antt =====
-- vxdma/vxdma.c, `xilinx_dma_terminate_all`, and the transfers that come after it.
use petalinux_driver.Prelude.{
  ℕ, zero, suc, ◌+◌, ◌<◌, ◌≡◌, ap, sym, ◌∙◌, subst, List, [], ◌++◌, map, Bool, false, inl, inr,
  Bool-cases, All, arith,
}
use petalinux_driver.Kernel.{
  Platform, Code, code, neg, Result, ok, fault, Fault, ◌>>=◌, >>=-eq-ok, Event,
}
use petalinux_driver.Vxdma.Chan.{TxDesc, Chan, u32, num_descs, dma_ctrl_write}
use petalinux_driver.Vxdma.Pool.{free_descriptors_lem, clean_segment, segments_of}
use petalinux_driver.Vxdma.Engine.{halt, chan_reset, start_transfer, issue_pending}
use petalinux_driver.Vxdma.Engine.Frame.{halt_frame, chan_reset_frame}
use petalinux_driver.Vxdma.Queue.{
  tx_submit, submit_after_reset, enqueue, append_desc_queue, link_tail, terminate_all,
}
use petalinux_driver.Vxdma.Engine.Total.{HasSegments}
use petalinux_driver.Vxdma.Invariant.Submit.{freed_lem}
use petalinux_driver.Vxdma.Invariant.Enqueue.{enqueued, enqueue_lem}

-- What is left of a channel: its lists are empty, every segment is free again and none is lost, the
-- cyclic mark is off; the counter of pending descriptors and the idle mark stay as they were.
pub record Terminated (c c' : Chan) : Type 0 where
  pub pending : c'.pending_list ≡ []
  pub active : c'.active_list ≡ []
  pub done : c'.done_list ≡ []
  pub free :
      c'.free_seg_list
      ≡ c.free_seg_list
        ++ map clean_segment (segments_of (c.pending_list ++ c.done_list ++ c.active_list))
  pub cyclic : c'.cyclic ≡ false
  pub count : c'.desc_pendingcount ≡ c.desc_pendingcount
  pub idle : c'.idle ≡ c.idle
  pub cookies : c'.cookies ≡ c.cookies

-- Termination empties the three lists of descriptors, gives every segment of theirs back to the
-- free list, cleaned and in the order of the lists, and takes off the cyclic mark; the counter of
-- pending descriptors, the idle mark and the cookies stay as they were.
pub terminate_all_lem : (p : Platform) (c : Chan) → Terminated c (terminate_all p c).1
unfolding terminate_all dma_ctrl_write
terminate_all_lem p c = ground (arith, free_descriptors_lem (halt p c), halt_frame p c)

append_desc_queue_idle :
    (c c' : Chan) (d : TxDesc) → append_desc_queue c d ≡ ok c' → c'.idle ≡ c.idle
unfolding append_desc_queue
append_desc_queue_idle c c' d h =
    let (l, e, k) = >>=-eq-ok (link_tail (u32 d.phys) c.pending_list) _ h in ground arith

enqueue_idle :
    (p : Platform) (d : TxDesc) (c c' : Chan) (r : Code)
    → enqueue p d c ≡ ok (r, c')
    → c'.idle ≡ c.idle
unfolding enqueue
enqueue_idle p d c c' r h =
    let (cookie, cookies) = p.dma_cookie_assign c.cookies in
    let d' : TxDesc = record d { cookie = cookie } in
    let (c₁, e, k) = >>=-eq-ok (append_desc_queue (record c { cookies = cookies }) d') _ h in
    ground (arith, append_desc_queue_idle (record c { cookies = cookies }) c₁ d' e)

submit_after_reset_idle :
    (p : Platform) (d : TxDesc) (c c' : Chan) (reset : Code × Chan) (r : Code)
    → reset.1.idle ≡ c.idle
    → submit_after_reset p d reset ≡ ok (r, c')
    → c'.idle ≡ c.idle
unfolding submit_after_reset
submit_after_reset_idle p d c c' (neg e, c₁) r i h = ground arith
submit_after_reset_idle p d c c' (code n, c₁) r i h = enqueue_idle p d c₁ c' r h ∙ i

tx_submit_idle :
    (p : Platform) (d : TxDesc) (c c' : Chan) (r : Code)
    → tx_submit p d c ≡ ok (r, c')
    → c'.idle ≡ c.idle
unfolding tx_submit
tx_submit_idle p d c c' r h = elim (Bool-cases c.cyclic) [
  | inl is_cyclic ↦ ground (arith, freed_lem c d)
  | inr plain ↦ elim (Bool-cases c.err) [
    | inl bad ↦
        submit_after_reset_idle p d c c' (chan_reset p c) r
          (ap (λ (x : Chan). x.idle) (chan_reset_frame p c)) (ground arith)
    | inr good ↦ enqueue_idle p d c c' r (ground arith)
  ]
]

-- If a channel is terminated while it is busy, and a submission to it then has a result, the issue
-- of what is pending changes nothing.
pub terminate_all_stuck :
    (p : Platform) (c c' : Chan) (d : TxDesc) (r : Code)
    → c.idle ≡ false
    → tx_submit p d (terminate_all p c).1 ≡ ok (r, c')
    → issue_pending p c' ≡ ok c'
unfolding issue_pending start_transfer
terminate_all_stuck p c c' d r busy h =
    ground (arith, terminate_all_lem p c, tx_submit_idle p d (terminate_all p c).1 c' r h)

-- `n` transfers that are each submitted and then cancelled.
pub cancel_rounds : Platform → TxDesc → ℕ → Chan → Result Chan
cancel_rounds p d zero c = ok c
cancel_rounds p d (suc n) c = do
  (_, c') ← tx_submit p d c
  cancel_rounds p d n (terminate_all p c').1

-- The device does what it is told in time.
abbrev pub IsPrompt : Platform → Type 0
IsPrompt p = (t : List Event) (reg : ℕ) (cond : ℕ → Bool) → p.readl_poll_timeout t reg cond ≡ false

halt_err : (p : Platform) (c : Chan) → IsPrompt p → (halt p c).err ≡ c.err
unfolding halt
halt_err p c prompt = simp prompt

terminate_all_err : (p : Platform) (c : Chan) → IsPrompt p → (terminate_all p c).1.err ≡ c.err
unfolding terminate_all dma_ctrl_write
terminate_all_err p c prompt = ground (arith, free_descriptors_lem (halt p c), halt_err p c prompt)

-- A channel that is between two transfers.
pub record IsRested (c : Chan) : Type 0 where
  pub pending : c.pending_list ≡ []
  pub plain : c.cyclic ≡ false
  pub good : c.err ≡ false

submit_full :
    (p : Platform) (d : TxDesc) (c : Chan)
    → IsRested c
    → c.desc_pendingcount ≡ num_descs
    → tx_submit p d c ≡ fault Fault.bug
unfolding tx_submit enqueue append_desc_queue link_tail
submit_full p d c v e = ground arith

submit_rested :
    (p : Platform) (d : TxDesc) (c : Chan)
    → IsRested c
    → c.desc_pendingcount < num_descs
    → tx_submit p d c ≡ ok (code (p.dma_cookie_assign c.cookies).0, enqueued p d c)
unfolding tx_submit
submit_rested p d c v h =
    ground (arith, enqueue_lem p d c (subst (All HasSegments) (sym v.pending) tt) h)

cancelled-IsRested :
    (p : Platform) (d : TxDesc) (c : Chan)
    → IsPrompt p
    → IsRested c
    → IsRested (terminate_all p (enqueued p d c)).1
cancelled-IsRested p d c prompt v =
    let k = terminate_all_lem p (enqueued p d c) in
    record {
      pending = k.pending;
      plain = k.cyclic;
      good = terminate_all_err p (enqueued p d c) prompt ∙ v.good;
    }

-- On a device that answers every poll in time, and a channel with nothing pending, not cyclic and
-- without an error, whose counter of pending descriptors is `n` below the limit: after `n` rounds
-- of a submission and a termination, the next submission runs into `BUG()`.
pub cancel_rounds_bug :
    (p : Platform) (d : TxDesc) (n : ℕ) (c : Chan)
    → IsPrompt p
    → IsRested c
    → c.desc_pendingcount + n ≡ num_descs
    → cancel_rounds p d (suc n) c ≡ fault Fault.bug
unfolding cancel_rounds
cancel_rounds_bug p d zero c prompt v e = rw (submit_full p d c v (omega arith))
cancel_rounds_bug p d (suc n) c prompt v e = rw (submit_rested p d c v (omega arith)) (
    cancel_rounds_bug p d n (terminate_all p (enqueued p d c)).1 prompt
      (cancelled-IsRested p d c prompt v)
      (omega (arith, (terminate_all_lem p (enqueued p d c)).count)))
