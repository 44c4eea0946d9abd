-- ===== src/VxdmaDev/Refinement.antt =====
-- vxdma/vxdma.c and vxdma/vxdma_dev.c against the stages of the protocol: what each operation does to
-- the cookies of the three lists.
use mathlib.Core.List.{map-append}
use petalinux_driver.Prelude.{
  ℕ, ◌+◌, ◌≤◌, ◌≡◌, ◌≢◌, refl, sym, ap, ◌∙◌, subst, List, [], ◌∷◌, ◌++◌, true, Option, none, some,
  All, inl, inr, arith,
}
use petalinux_driver.Kernel.{Direction, Platform, Code, ok, >>=-eq-ok, ok-injective}
use petalinux_driver.Vxdma.Chan.{TxDesc, Chan, num_descs}
use petalinux_driver.Vxdma.Pool.{weigh, weigh_chan}
use petalinux_driver.Vxdma.Prep.{prep_slave_sg}
use petalinux_driver.Vxdma.Prep.Balance.{Prepared, prep_slave_sg-Prepared}
use petalinux_driver.Vxdma.Engine.{start_transfer, issue_pending}
use petalinux_driver.Vxdma.Engine.Launch.{IsLaunched, start_transfer_cases}
use petalinux_driver.Vxdma.Queue.{IrqReturn, irq_handler, desc_cleanup, do_tasklet}
use petalinux_driver.Vxdma.Queue.Complete.{
  Completed, not_ours, acknowledged, completed, irq_handler_cases,
}
use petalinux_driver.Vxdma.Queue.Cleanup.{retired, remaining, desc_cleanup_lem}
use petalinux_driver.Vxdma.Invariant.{Inv}
use petalinux_driver.Vxdma.Invariant.Enqueue.{enqueued, map-cookie-linked}
use petalinux_driver.Vxdma.Invariant.Submit.{
  SubmitCase, refused, lost, queued, freed_lem, tx_submit_cases, Inv-room,
}
use petalinux_driver.VxdmaDev.{submit_buffer, prep_buffer}
use petalinux_driver.VxdmaDev.Client.{
  Op, transfer, issue, interrupt, tasklet, IsProper, cookies_of, accepted, Outcome, step, run,
}
use petalinux_driver.VxdmaDev.Run.{weigh-Prepared, Prepared-Inv, step_lem}
use petalinux_driver.VxdmaDev.Timeline.{cookies-retired}
use petalinux_driver.VxdmaDev.Protocol.{
  Stages, accept, launch, complete, retire, Moves, still, before_quiet, once, Moves-trans,
}

-- The stages of a channel: its three lists.
abbrev pub stages : Chan → Stages
stages c = record {
  waiting = cookies_of c.pending_list;
  running = cookies_of c.active_list;
  finished = cookies_of c.done_list;
}

-- A run of moves between the stages of two channels.
abbrev pub Follows : Chan → List ℕ → List ℕ → Chan → Type 0
Follows c taken back c' = Moves (stages c) taken back (stages c')

pub Follows-same : (c c' : Chan) → stages c' ≡ stages c → Follows c [] [] c'
Follows-same c c' e = subst (Moves (stages c) [] []) (sym e) still

cookies_of-nonempty : (ds : List TxDesc) → ds ≢ [] → cookies_of ds ≢ []
cookies_of-nonempty [] h e = h refl
cookies_of-nonempty (d ∷ ds) h e = cc

Follows-launched :
    (c c' : Chan)
    → Inv c
    → IsLaunched c c'
    → c.idle ≡ true
    → c.pending_list ≢ []
    → Follows c [] [] c'
Follows-launched c c' v u i h =
    let rest = v.resting i in
    subst (Moves (stages c) [] []) (ground arith)
      (once (stages c) (launch (ground arith) (cookies_of-nonempty c.pending_list h)))

pub start_transfer-Follows :
    (p : Platform) (c c' : Chan) → Inv c → start_transfer p c ≡ ok c' → Follows c [] [] c'
start_transfer-Follows p c c' v h = elim (start_transfer_cases p c c' h) [
  | inl u ↦ Follows-same c c' (ap stages u)
  | inr (u, _, i, more) ↦ Follows-launched c c' v u i more
]

pub Completed-Follows : (p : Platform) (c c' : Chan) → Completed p c c' → Follows c [] [] c'
Completed-Follows p c c' d =
    let over : Stages = record {
      waiting = cookies_of c.pending_list;
      running = [];
      finished = cookies_of c.done_list ++ cookies_of c.active_list;
    } in
    let done : cookies_of c'.done_list ≡ cookies_of c.done_list ++ cookies_of c.active_list =
      ap cookies_of d.done ∙ map-append (λ (x : TxDesc). x.cookie) c.done_list c.active_list in
    elim d.next [
      | inl (a, w, _, _) ↦ subst (Moves (stages c) [] []) (ground arith) (once (stages c) complete)
      | inr (a, w, _, _, _, more) ↦ subst (Moves (stages c) [] []) (ground arith) (
          before_quiet (stages c) over complete
            (once over (launch refl (cookies_of-nonempty c.pending_list more))))
    ]

pub irq_handler-Follows :
    (p : Platform) (c c' : Chan) (r : IrqReturn) → irq_handler p c ≡ ok (r, c') → Follows c [] [] c'
irq_handler-Follows p c c' r h = elim (irq_handler_cases p c c' r h) [
  | not_ours off k u e ↦ Follows-same c c' (ap stages u)
  | acknowledged off k u e ↦ Follows-same c c' (ap stages u)
  | completed on k d ↦ Completed-Follows p c c' d
]

pub cleanup-Follows : (c : Chan) → Follows c [] (cookies_of (retired c.done_list)) (desc_cleanup c)
cleanup-Follows c =
    subst (Moves (stages c) [] (cookies_of (retired c.done_list)))
      (sym (ap stages (desc_cleanup_lem c)))
      (once (stages c) (
        retire (cookies_of (retired c.done_list)) (cookies_of (remaining c.done_list))
          (sym (cookies-retired c.done_list))))

pub enqueued-Follows :
    (p : Platform) (d : TxDesc) (c : Chan)
    → Follows c ((p.dma_cookie_assign c.cookies).0 ∷ []) [] (enqueued p d c)
enqueued-Follows p d c =
    let k = (p.dma_cookie_assign c.cookies).0 in
    subst (Moves (stages c) (k ∷ []) []) (simp (map-append, map-cookie-linked))
      (once (stages c) (accept k))

pub SubmitCase-Follows :
    (p : Platform) (d : TxDesc) (c c' : Chan) (r : Code)
    → SubmitCase p d c r c'
    → Follows c (accepted r) [] c'
SubmitCase-Follows p d c c' r (refused a k e) =
    rw k (Follows-same c c' (ap stages (e ∙ freed_lem c d)))
SubmitCase-Follows p d c c' r (lost x q a k u) = rw k (Follows-same c c' (ap stages u))
SubmitCase-Follows p d c c' r (queued c₁ a u k e) =
    let before = Follows-same c c₁ (ap stages u) in
    let same : c₁.cookies ≡ c.cookies = ap (λ (x : Chan). x.cookies) u in
    rw (k, e, ← same) (Moves-trans before (enqueued-Follows p d c₁))

submit_buffer-Follows :
    (p : Platform) (cmp : ℕ) (c c₁ c' : Chan) (held : Option TxDesc) (r : Code)
    → Inv c
    → Prepared (λ _. 1) c held c₁
    → submit_buffer p cmp held c₁ ≡ ok (r, c')
    → Follows c (accepted r) [] c'
unfolding submit_buffer
submit_buffer-Follows p cmp c c₁ c' none r v q h =
    subst (λ (x : Code × Chan). Follows c (accepted x.0) [] x.1) (ok-injective h)
      (Follows-same c c₁ (ap stages q.frame))
submit_buffer-Follows p cmp c c₁ c' (some d) r v q h =
    let d' : TxDesc = record d { callback = some cmp } in
    let v₁ = Prepared-Inv c c₁ (some d) v q in
    let fits : weigh_chan (λ _. 1) c₁ + weigh (λ _. 1) d'.segments ≤ num_descs =
      omega (arith, v.pool, weigh-Prepared (λ _. 1) c c₁ (some d) q) in
    let (r₂, c₂, e, k) = tx_submit_cases p d' c₁ v₁.held (Inv-room c₁ d' v₁ q.nonempty fits) in
    subst (λ (x : Code × Chan). Follows c (accepted x.0) [] x.1) (ok-injective (sym e ∙ h))
      (Moves-trans (Follows-same c c₁ (ap stages q.frame)) (SubmitCase-Follows p d' c₁ c₂ r₂ k))

pub prep_buffer-Follows :
    (p : Platform) (buf len : ℕ) (dir : Direction) (cmp : ℕ) (c c' : Chan) (r : Code)
    → Inv c
    → prep_buffer p buf len dir cmp c ≡ ok (r, c')
    → Follows c (accepted r) [] c'
unfolding prep_buffer
prep_buffer-Follows p buf len dir cmp c c' r v h =
    let ((held, c₁), e, more) = >>=-eq-ok (prep_slave_sg p ((buf, len) ∷ []) dir none c) _ h in
    submit_buffer-Follows p cmp c c₁ c' held r v
      (prep_slave_sg-Prepared (λ _. 1) c p ((buf, len) ∷ []) dir none held c₁ e) more

-- One operation is a run of moves.
step-Follows :
    (p : Platform) (op : Op) (c : Chan) (o : Outcome)
    → Inv c
    → step p op c ≡ ok o
    → Follows c o.submitted o.finished (o.chan)
unfolding step issue_pending do_tasklet
step-Follows p (transfer buf len dir cmp) c o v h =
    let ((r, c'), e, more) = >>=-eq-ok (prep_buffer p buf len dir cmp c) _ h in
    subst (λ (x : Outcome). Follows c x.submitted x.finished x.chan) (ok-injective more)
      (prep_buffer-Follows p buf len dir cmp c c' r v e)
step-Follows p issue c o v h =
    let (c', e, more) = >>=-eq-ok (start_transfer p c) _ h in
    subst (λ (x : Outcome). Follows c x.submitted x.finished x.chan) (ok-injective more)
      (start_transfer-Follows p c c' v e)
step-Follows p interrupt c o v h =
    let ((r, c'), e, more) = >>=-eq-ok (irq_handler p c) _ h in
    subst (λ (x : Outcome). Follows c x.submitted x.finished x.chan) (ok-injective more)
      (irq_handler-Follows p c c' r e)
step-Follows p tasklet c o v h =
    subst (λ (x : Outcome). Follows c x.submitted x.finished x.chan) (ok-injective h)
      (cleanup-Follows c)

-- From a channel that satisfies the invariant, a run of transfers of at least one byte, issues,
-- interrupts and tasklet runs, in any order and whatever the device answers, has a result, and is
-- a run of the protocol: the cookies move from the pending list to the active list as a whole
-- batch and only when no batch is active, from the active list to the end of the done list as a
-- whole batch, and from the front of the done list to the client, with the cookies taken in and
-- handed back by the protocol those that the run accepted and finished.
pub run-Moves :
    (p : Platform) (ops : List Op) (c : Chan)
    → All IsProper ops
    → Inv c
    → (o : Outcome) × (run p ops c ≡ ok o) × Moves (stages c) o.submitted o.finished (stages o.chan)
unfolding run
run-Moves p [] c h v = (record { submitted = []; finished = []; chan = c }, refl, still)
run-Moves p (op ∷ ops) c h v =
    let (o, e, a) = step_lem p op c h.0 v in
    let (o', e', more) = run-Moves p ops (o.chan) h.1 a.inv in
    (
      record {
        submitted = o.submitted ++ o'.submitted;
        finished = o.finished ++ o'.finished;
        chan = o'.chan;
      },
      ground arith,
      Moves-trans (step-Follows p op c o v e) more,
    )
