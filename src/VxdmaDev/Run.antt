-- ===== src/VxdmaDev/Run.antt =====
-- vxdma/vxdma_dev.c with vxdma/vxdma.c: the runs of a client, step by step.
use petalinux_driver.Prelude.{
  ℕ, ◌+◌, ◌≤◌, ◌<◌, ◌≡◌, refl, sym, ap, ◌∙◌, subst, List, [], ◌∷◌, ◌++◌, append_assoc, append-nil,
  Option, none, some, All, arith,
}
use petalinux_driver.Kernel.{Direction, Platform, Code, neg, ebusy, ok, is_ok-value}
use petalinux_driver.Vxdma.Chan.{TxDesc, Chan, num_descs}
use petalinux_driver.Vxdma.Pool.{weigh, weigh_chan}
use petalinux_driver.Vxdma.Prep.{prep_slave_sg}
use petalinux_driver.Vxdma.Prep.Balance.{Prepared, weigh_held, prep_slave_sg-Prepared}
use petalinux_driver.Vxdma.Prep.Total.{prep_slave_sg_total}
use petalinux_driver.Vxdma.Engine.Total.{HasSegments, start_transfer_total}
use petalinux_driver.Vxdma.Engine.{start_transfer, issue_pending}
use petalinux_driver.Vxdma.Queue.{irq_handler, desc_cleanup, do_tasklet}
use petalinux_driver.Vxdma.Queue.Cleanup.{retired}
use petalinux_driver.Vxdma.Invariant.{Inv}
use petalinux_driver.Vxdma.Invariant.Transfer.{
  start_transfer-Inv, irq_handler-Inv, irq_handler_total, desc_cleanup-Inv,
}
use petalinux_driver.Vxdma.Invariant.Submit.{tx_submit_cases, Inv-room, SubmitCase-Inv}
use petalinux_driver.VxdmaDev.{submit_buffer, prep_buffer}
use petalinux_driver.VxdmaDev.Client.{
  Op, transfer, issue, interrupt, tasklet, IsProper, cookies_of, timeline, accepted, Outcome, step,
  run,
}
use petalinux_driver.VxdmaDev.Timeline.{
  timeline-SubmitCase, timeline-start, timeline-irq, timeline-cleanup,
}

pub weigh-Prepared :
    (f : ℕ → ℕ) (c c₁ : Chan) (held : Option TxDesc)
    → Prepared f c held c₁
    → weigh_chan f c₁ + weigh_held f held ≡ weigh_chan f c
unfolding weigh_chan
weigh-Prepared f c c₁ held q = ground (arith, q.frame, q.weight)

pub Prepared-Inv :
    (c c₁ : Chan) (held : Option TxDesc) → Inv c → Prepared (λ _. 1) c held c₁ → Inv c₁
Prepared-Inv c c₁ held v q = record {
  held = subst (All HasSegments) (ap (λ (x : Chan). x.pending_list) (sym q.frame)) v.held;
  counted = ground (arith, q.frame);
  pool = omega (arith, weigh-Prepared (λ _. 1) c c₁ held q, v.pool);
  resting = λ i. ground (arith, q.frame);
}

-- What one call of a client comes to: the invariant, and the cookies in order.
pub record Advances (c : Chan) (o : Outcome) : Type 0 where
  pub inv : Inv (o.chan)
  pub order : timeline c ++ o.submitted ≡ o.finished ++ timeline (o.chan)

pub submit_buffer_lem :
    (p : Platform) (cmp : ℕ) (c c₁ : Chan) (held : Option TxDesc)
    → Inv c
    → Prepared (λ _. 1) c held c₁
    → (r : Code) × (c' : Chan) × (submit_buffer p cmp held c₁ ≡ ok (r, c'))
      × Inv c'
      × (timeline c ++ accepted r ≡ timeline c')
unfolding submit_buffer
submit_buffer_lem p cmp c c₁ none v q = (
  neg ebusy,
  c₁,
  refl,
  Prepared-Inv c c₁ none v q,
  append-nil (timeline c) ∙ sym (ap timeline q.frame),
)
submit_buffer_lem p cmp c c₁ (some d) v q =
    let d' : TxDesc = record d { callback = some cmp } in
    let v₁ = Prepared-Inv c c₁ (some d) v q in
    let fits : weigh_chan (λ _. 1) c₁ + weigh (λ _. 1) d'.segments ≤ num_descs =
      omega (arith, v.pool, weigh-Prepared (λ _. 1) c c₁ (some d) q) in
    let (r, c', e, k) = tx_submit_cases p d' c₁ v₁.held (Inv-room c₁ d' v₁ q.nonempty fits) in
    (
      r,
      c',
      e,
      SubmitCase-Inv p d' c₁ c' r v₁ q.nonempty fits k,
      ap (λ (l : List ℕ). l ++ accepted r) (sym (ap timeline q.frame))
          ∙ timeline-SubmitCase p d' c₁ c' r k,
    )

-- A transfer that is refused leaves the order as it was, and one that is accepted joins at the end.
pub prep_buffer_lem :
    (p : Platform) (buf len : ℕ) (dir : Direction) (cmp : ℕ) (c : Chan)
    → Inv c
    → 0 < len
    → (r : Code) × (c' : Chan) × (prep_buffer p buf len dir cmp c ≡ ok (r, c'))
      × Inv c'
      × (timeline c ++ accepted r ≡ timeline c')
unfolding prep_buffer
prep_buffer_lem p buf len dir cmp c v h =
    let ((held, c₁), e) =
      is_ok-value (prep_slave_sg p ((buf, len) ∷ []) dir none c)
        (prep_slave_sg_total p ((buf, len) ∷ []) dir none c (omega arith)) in
    let q = prep_slave_sg-Prepared (λ _. 1) c p ((buf, len) ∷ []) dir none held c₁ e in
    let (r, c', e', v', t) = submit_buffer_lem p cmp c c₁ held v q in (r, c', ground arith, v', t)

-- One call of a client or of the kernel does not fault, keeps the invariant and the order.
pub step_lem :
    (p : Platform) (op : Op) (c : Chan)
    → IsProper op
    → Inv c
    → (o : Outcome) × (step p op c ≡ ok o) × Advances c o
unfolding step issue_pending do_tasklet
step_lem p (transfer buf len dir cmp) c h v =
    let (r, c', e, v', t) = prep_buffer_lem p buf len dir cmp c v h in
    (
      record { submitted = accepted r; finished = []; chan = c' },
      ground arith,
      record { inv = v'; order = t },
    )
step_lem p issue c h v =
    let (c', e) = is_ok-value (start_transfer p c) (start_transfer_total p c v.held) in
    (
      record { submitted = []; finished = []; chan = c' },
      ground arith,
      record {
        inv = start_transfer-Inv p c c' v e;
        order = append-nil (timeline c) ∙ timeline-start p c c' e;
      },
    )
step_lem p interrupt c h v =
    let ((r, c'), e) = is_ok-value (irq_handler p c) (irq_handler_total p c v.held) in
    (
      record { submitted = []; finished = []; chan = c' },
      ground arith,
      record {
        inv = irq_handler-Inv p c c' r v e;
        order = append-nil (timeline c) ∙ timeline-irq p c c' r e;
      },
    )
step_lem p tasklet c h v = (
  record { submitted = []; finished = cookies_of (retired c.done_list); chan = desc_cleanup c },
  refl,
  record { inv = desc_cleanup-Inv c v; order = append-nil (timeline c) ∙ timeline-cleanup c },
)

Advances-trans :
    (c : Chan) (o o' : Outcome)
    → Advances c o
    → Advances o.chan o'
    → Advances c (record {
      submitted = o.submitted ++ o'.submitted;
      finished = o.finished ++ o'.finished;
      chan = o'.chan;
    })
Advances-trans c o o' a b = record {
  inv = b.inv;
  order = ground (
    arith,
    a.order,
    b.order,
    append_assoc (timeline c) o.submitted o'.submitted,
    append_assoc o.finished (timeline o.chan) o'.submitted,
    append_assoc o.finished o'.finished (timeline o'.chan),
  );
}

-- From a channel that satisfies the invariant, a run of transfers of at least one byte, issues,
-- interrupts and tasklet runs, in any order and whatever the device answers, has a result. The
-- invariant holds after it, and the cookies of the channel's descriptors before it followed by
-- those it accepted are those it finished followed by the cookies of the channel's descriptors
-- after it.
pub run_lem :
    (p : Platform) (ops : List Op) (c : Chan)
    → All IsProper ops
    → Inv c
    → (o : Outcome) × (run p ops c ≡ ok o) × Advances c o
unfolding run
run_lem p [] c h v = (
  record { submitted = []; finished = []; chan = c },
  refl,
  record { inv = v; order = append-nil (timeline c) },
)
run_lem p (op ∷ ops) c h v =
    let (o, e, a) = step_lem p op c h.0 v in
    let (o', e', b) = run_lem p ops (o.chan) h.1 a.inv in
    (
      record {
        submitted = o.submitted ++ o'.submitted;
        finished = o.finished ++ o'.finished;
        chan = o'.chan;
      },
      ground arith,
      Advances-trans c o o' a b,
    )
