-- ===== src/Vxdma/Queue/Complete.antt =====
-- vxdma/vxdma.c, the interrupt handler: what an interrupt does to the lists of a channel.
use petalinux_driver.Prelude.{
  ℕ, ◌≡◌, refl, ap, ◌∙◌, List, [], ◌∷◌, ◌++◌, append_assoc, append-nil, ◌⊎◌, inl, inr, true, false,
  subst, bit_and, if◌then◌else◌, Bool-cases, ◌≢◌, arith,
}
use petalinux_driver.Kernel.{Platform, Cookies, ok, >>=-eq-ok, scheduled_tasklet}
use petalinux_driver.Vxdma.Chan.{
  TxDesc, Chan, has_bit, irq_error_mask, irq_ioc_mask, irq_all_mask, reg_status, dma_ctrl_write,
  dma_ctrl_read,
}
use petalinux_driver.Vxdma.Engine.Launch.{start_transfer_cases}
use petalinux_driver.Vxdma.Queue.{
  IrqReturn, irq_none, irq_handled, complete_each, complete_descriptor, on_completion,
  report_errors, handle_status, irq_handler, acknowledge,
}

-- The cookie counters after the completion of a list of descriptors.
abbrev pub complete_cookies : Platform → List TxDesc → Cookies → Cookies
complete_cookies p [] k = k
complete_cookies p (d ∷ ds) k =
    complete_cookies p ds (if d.cyclic then k else p.dma_cookie_complete d.cookie k)

complete_each_lem :
    (p : Platform) (c : Chan) (ds : List TxDesc)
    → c.active_list ≡ ds
    → complete_each p c ds ≡ record c {
      active_list = [];
      done_list = c.done_list ++ ds;
      cookies = complete_cookies p ds c.cookies;
    }
unfolding complete_each
complete_each_lem p c [] e = ground (arith, append-nil c.done_list)
complete_each_lem p c (d ∷ ds) e =
    complete_each_lem p _ ds refl
    ∙ ap
        (λ l. record c {
          active_list = [];
          done_list = l;
          cookies = complete_cookies p (d ∷ ds) c.cookies;
        })
        (append_assoc c.done_list (d ∷ []) ds)

-- The whole active list goes to the end of the done list, in order.
pub complete_descriptor_lem :
    (p : Platform) (c : Chan)
    → complete_descriptor p c ≡ record c {
      active_list = [];
      done_list = c.done_list ++ c.active_list;
      cookies = complete_cookies p c.active_list c.cookies;
    }
unfolding complete_descriptor
complete_descriptor_lem p c = complete_each_lem p c c.active_list refl

-- The lists of a channel that has completed its transfer: either nothing new was started, or all
-- that was pending is now active.
pub record Completed (p : Platform) (c c' : Chan) : Type 0 where
  pub done : c'.done_list ≡ c.done_list ++ c.active_list
  pub next :
      ((c'.active_list ≡ [])
        × (c'.pending_list ≡ c.pending_list)
        × (c'.idle ≡ true)
        × (c'.desc_pendingcount ≡ c.desc_pendingcount))
      ⊎ ((c'.active_list ≡ c.pending_list)
          × (c'.pending_list ≡ [])
          × (c'.idle ≡ false)
          × (c'.desc_pendingcount ≡ 0)
          × (c.err ≡ false)
          × (c.pending_list ≢ []))
  pub free : c'.free_seg_list ≡ c.free_seg_list
  pub cookies : c'.cookies ≡ complete_cookies p c.active_list c.cookies
  pub cyclic : c'.cyclic ≡ c.cyclic

pub on_completion-Completed :
    (p : Platform) (c c' : Chan) → on_completion p c ≡ ok c' → Completed p c c'
unfolding on_completion
on_completion-Completed p c c' h =
    let cases = start_transfer_cases p (record (complete_descriptor p c) { idle = true }) c' h in
    ground (arith, complete_descriptor_lem p c, cases)

-- The lists, the counters and the marks of a channel are as they were, but for an error.
abbrev pub IsUnmoved : Chan → Chan → Type 0
IsUnmoved c c' = c' ≡ record c { err = c'.err; trace = c'.trace }

report_errors_frame : (p : Platform) (c : Chan) → IsUnmoved c (report_errors p c)
unfolding report_errors
report_errors_frame p c = ground arith

report_errors_err : (p : Platform) (c : Chan) → (report_errors p c).err ≡ true
unfolding report_errors
report_errors_err p c = refl

-- What one interrupt does, by the status register that the handler reads.
pub data IrqCase (p : Platform) (status : ℕ) (c : Chan) (r : IrqReturn) (c' : Chan) : Type 0 where
  not_ours :
      has_bit status irq_all_mask ≡ false
      → r ≡ irq_none
      → IsUnmoved c c'
      → c'.err ≡ c.err
      → IrqCase p status c r c'
  acknowledged :
      (has_bit status irq_all_mask ≡ true) × (has_bit status irq_ioc_mask ≡ false)
      → r ≡ irq_handled
      → IsUnmoved c c'
      → c'.err ≡ (if has_bit status irq_error_mask then true else c.err)
      → IrqCase p status c r c'
  completed :
      has_bit status irq_ioc_mask ≡ true
      → r ≡ irq_handled
      → Completed p c c'
      → IrqCase p status c r c'

Completed-unmoved :
    (p : Platform) (c c₁ c' : Chan)
    → IsUnmoved c c₁
    → (c₁.err ≡ false → c.err ≡ false)
    → Completed p c₁ c'
    → Completed p c c'
Completed-unmoved p c c₁ c' u e h = ground arith

pub Completed-trace :
    (p : Platform) (c c' : Chan)
    → Completed p c c'
    → Completed p c (record c' { trace = scheduled_tasklet ∷ c'.trace })
Completed-trace p c c' h = record {
  done = h.done;
  next = h.next;
  free = h.free;
  cookies = h.cookies;
  cyclic = h.cyclic;
}

pub acknowledge_frame :
    (p : Platform) (status : ℕ) (c : Chan)
    → IsUnmoved c (acknowledge p status c)
      × ((acknowledge p status c).err ≡ (if has_bit status irq_error_mask then true else c.err))
unfolding acknowledge
acknowledge_frame p status c = ground (
  arith,
  report_errors_frame p (dma_ctrl_write reg_status (bit_and status irq_all_mask) c),
  report_errors_err p (dma_ctrl_write reg_status (bit_and status irq_all_mask) c),
)

handle_status_cases :
    (p : Platform) (status : ℕ) (c c' : Chan) (r : IrqReturn)
    → has_bit status irq_all_mask ≡ true
    → handle_status p status c ≡ ok (r, c')
    → IrqCase p status c r c'
unfolding handle_status
handle_status_cases p status c c' r ours h =
    let c₁ = acknowledge p status c in
    let (u, e) = acknowledge_frame p status c in
    elim (Bool-cases (has_bit status irq_ioc_mask)) [
      | inr off ↦
          acknowledged (ours, off) (ground arith) (ground (arith, acknowledge_frame p status c))
            (ground (arith, acknowledge_frame p status c))
      | inl on ↦
          let (c₂, taken, last) =
            >>=-eq-ok (if has_bit status irq_ioc_mask then on_completion p c₁ else ok c₁) _ h in
          let done : Completed p c₁ c₂ = on_completion-Completed p c₁ c₂ (ground arith) in
          completed on (ground arith) (
            subst (Completed p c) (ground arith)
              (Completed-trace p c c₂ (Completed-unmoved p c c₁ c₂ u (ground arith) done)))
    ]

IrqCase-unmoved :
    (p : Platform) (status : ℕ) (c c₁ c' : Chan) (r : IrqReturn)
    → IsUnmoved c c₁
    → c₁.err ≡ c.err
    → IrqCase p status c₁ r c'
    → IrqCase p status c r c'
IrqCase-unmoved p status c c₁ c' r u e (not_ours off k w f) =
    not_ours off k (ground arith) (ground arith)
IrqCase-unmoved p status c c₁ c' r u e (acknowledged off k w f) =
    acknowledged off k (ground arith) (ground arith)
IrqCase-unmoved p status c c₁ c' r u e (completed on k d) =
    completed on k (Completed-unmoved p c c₁ c' u (ground arith) d)

-- If the interrupt handler has a result, it goes by the status register that it reads. Without an
-- interrupt bit, it answers that the interrupt is not its own, and changes only the history. With
-- one but without the completion bit, it is handled, and only the error mark changes, which is set
-- by the error bit. With the completion bit, all that was active goes to the end of the done list
-- in order, its cookies are completed in that order but for cyclic descriptors, and either nothing
-- new is active and the channel is idle, or all that was pending is active, which happens only on
-- a channel that had pending descriptors and no error.
pub irq_handler_cases :
    (p : Platform) (c c' : Chan) (r : IrqReturn)
    → irq_handler p c ≡ ok (r, c')
    → IrqCase p (dma_ctrl_read p reg_status c).0 c r c'
unfolding irq_handler dma_ctrl_read
irq_handler_cases p c c' r h =
    let (status, c₁) = dma_ctrl_read p reg_status c in
    elim (Bool-cases (has_bit status irq_all_mask)) [
      | inr off ↦ not_ours off (ground arith) (ground arith) (ground arith)
      | inl on ↦
          IrqCase-unmoved p status c c₁ c' r refl refl
            (handle_status_cases p status c₁ c' r on (ground arith))
    ]
