-- ===== src/VxdmaDev/Machine/Split.antt =====
-- vxdma/vxdma.c: calls that come before the interrupt handler or a submission takes the lock.
use petalinux_driver.Prelude.{
  refl, ap, inl, inr, arith, ℕ, ◌≡◌, List, ◌∷◌, true, false, All, Bool-cases,
}
use petalinux_driver.Kernel.{Platform, ok, scheduled_tasklet, is_ok-value}
use petalinux_driver.Vxdma.Chan.{
  Chan, has_bit, irq_all_mask, irq_ioc_mask, reg_status, dma_ctrl_read,
}
use petalinux_driver.Vxdma.Queue.{acknowledge, on_completion}
use petalinux_driver.Vxdma.Queue.Complete.{
  IsUnmoved, acknowledge_frame, on_completion-Completed, Completed-trace,
}
use petalinux_driver.Vxdma.Invariant.Transfer.{
  weigh-unmoved, unmoved-Inv, Completed-Inv, on_completion_total,
}
use petalinux_driver.VxdmaDev.Refinement.{Follows-same, stages, Completed-Follows}
use petalinux_driver.VxdmaDev.Machine.Submit.{Tidy}
use petalinux_driver.VxdmaDev.Machine.{Desk, Call, Effect, nothing, followed_by}
use petalinux_driver.VxdmaDev.Machine.Phases.{complete_after, split_handler}
use petalinux_driver.VxdmaDev.Machine.Steps.{Sound, Sound-Tidy, moved, Sound-moved, Completed-Sound}
use petalinux_driver.VxdmaDev.Machine.Window.{IsPlain, Sound-trans, calls-Sound}

-- A handler's completion, behind the calls that came before it took the lock.
complete_after-Sound :
    (p : Platform) (status : ℕ) (k : Desk) (e : Effect)
    → Tidy k
    → Sound k e
    → (e' : Effect) × (complete_after p status e ≡ ok e') × Sound k e'
unfolding complete_after
complete_after-Sound p status k e v a =
    let tidy = Sound-Tidy k e v a in
    let c = e.desk.chan in
    elim (Bool-cases (has_bit status irq_ioc_mask)) [
      | inr off ↦
          let c₃ : Chan = record c { trace = scheduled_tasklet ∷ c.trace } in
          (
            followed_by e (moved (e.desk) true c₃),
            simp off,
            Sound-trans k e (moved (e.desk) true c₃) a (
                Sound-moved (e.desk) true c₃ tidy (unmoved-Inv c c₃ tidy.inv refl)
                  (λ f. weigh-unmoved f c c₃ refl) (Follows-same c c₃ refl) refl),
          )
      | inl on ↦
          let (c₂, one) = is_ok-value (on_completion p c) (on_completion_total p c tidy.inv.held) in
          let c₃ : Chan = record c₂ { trace = scheduled_tasklet ∷ c₂.trace } in
          let done = Completed-trace p c c₂ (on_completion-Completed p c c₂ one) in
          (
            followed_by e (moved (e.desk) true c₃),
            ground arith,
            Sound-trans k e (moved (e.desk) true c₃) a (
                Completed-Sound p (e.desk) c₃ tidy (Completed-Inv p c c₃ tidy.inv done)
                  (Completed-Follows p c c₃ done) done),
          )
    ]

-- A change of the error mark and the history.
Sound-unmoved :
    (k : Desk) (c' : Chan)
    → Tidy k
    → IsUnmoved (k.chan) c'
    → Sound k (nothing (record k { chan = c' }))
Sound-unmoved k c' v u =
    Sound-moved k false c' v (unmoved-Inv (k.chan) c' v.inv u) (λ f. weigh-unmoved f (k.chan) c' u)
      (Follows-same (k.chan) c' (ap stages u)) (ap (λ (x : Chan). x.done_list) u)

acknowledge-IsUnmoved :
    (p : Platform) (status : ℕ) (c c₁ : Chan)
    → IsUnmoved c c₁
    → IsUnmoved c (acknowledge p status c₁)
acknowledge-IsUnmoved p status c c₁ u = let (a, _) = acknowledge_frame p status c₁ in ground arith

-- The interrupt handler has a result, with calls between its acknowledgement and its completion.
pub split_handler-Sound :
    (p : Platform) (xs : List Call) (k : Desk)
    → All IsPlain xs
    → Tidy k
    → (e : Effect) × (split_handler p xs k ≡ ok e) × Sound k e
unfolding split_handler dma_ctrl_read
split_handler-Sound p xs k h v =
    let (status, c₁) = dma_ctrl_read p reg_status k.chan in
    let k₂ : Desk = record k { chan = acknowledge p status c₁ } in
    let first =
      Sound-unmoved k (acknowledge p status c₁) v
        (acknowledge-IsUnmoved p status (k.chan) c₁ refl) in
    elim (Bool-cases (has_bit status irq_all_mask)) [
      | inr none_ours ↦
          (nothing (record k { chan = c₁ }), simp none_ours, Sound-unmoved k c₁ v refl)
      | inl ours ↦
          let (e, one, a) = calls-Sound p xs k₂ h (Sound-Tidy k (nothing k₂) v first) in
          let (e', two, b) =
            complete_after-Sound p status k e v (Sound-trans k (nothing k₂) e first a) in
          (e', simp (ours, one, two), b)
    ]
