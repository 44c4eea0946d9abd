-- ===== src/VxdmaDev/Status/Calls.antt =====
-- vxdma/vxdma.c with vxdma/vxdma_dev.c: what each operation of a client does to the cookies.
use petalinux_driver.Prelude.{
  ℕ, suc, ◌+◌, ◌≤◌, ◌<◌, ◌≡◌, refl, sym, ap, ◌∙◌, subst, List, [], ◌∷◌, length, Option, none, some,
  inl, inr, All, arith,
}
use petalinux_driver.Kernel.{Direction, Platform, Code, ok, >>=-eq-ok, ok-injective}
use petalinux_driver.Vxdma.Chan.{TxDesc, Chan, num_descs}
use petalinux_driver.Vxdma.Pool.{weigh, weigh_chan}
use petalinux_driver.Vxdma.Prep.{prep_slave_sg}
use petalinux_driver.Vxdma.Prep.Balance.{Prepared, prep_slave_sg-Prepared}
use petalinux_driver.Vxdma.Engine.{start_transfer, issue_pending}
use petalinux_driver.Vxdma.Engine.Launch.{start_transfer_cases}
use petalinux_driver.Vxdma.Queue.{IrqReturn, irq_handler, desc_cleanup, do_tasklet}
use petalinux_driver.Vxdma.Queue.Complete.{not_ours, acknowledged, completed, irq_handler_cases}
use petalinux_driver.Vxdma.Invariant.{Inv}
use petalinux_driver.Vxdma.Invariant.Submit.{
  SubmitCase, refused, lost, queued, freed_lem, tx_submit_cases, Inv-room,
}
use petalinux_driver.VxdmaDev.{submit_buffer, prep_buffer}
use petalinux_driver.VxdmaDev.Client.{
  Op, transfer, issue, interrupt, tasklet, accepted, Outcome, step,
}
use petalinux_driver.VxdmaDev.Run.{weigh-Prepared, Prepared-Inv}
use petalinux_driver.VxdmaDev.Status.{
  KeepsCookies, max_cookie, upto, IsPlainDesc, IsOver, Told, IsOver-mono,
}
use petalinux_driver.VxdmaDev.Status.Steps.{
  Completed-Told, launched-Told, cleanup-Told, enqueued-Told,
}
use petalinux_driver.Vxdma.Prep.Plain.{IsPlainHeld, prep_slave_sg-IsPlainHeld}

-- What a step comes to, for the cookies: at most one is given out, and those that the client got
-- back are over.
pub record Tells (c : Chan) (o : Outcome) : Type 0 where
  pub told : Told (o.chan)
  pub forward : c.cookies.completed_cookie ≤ o.chan.cookies.completed_cookie
  pub back : All (IsOver (o.chan.cookies)) o.finished
  pub given : o.submitted ≡ upto c.cookies.cookie (length o.submitted)
  pub pace : o.chan.cookies.cookie ≡ c.cookies.cookie + length o.submitted
  pub few : length o.submitted ≤ 1

quiet-Tells :
    (c c' : Chan) (given : List ℕ)
    → given ≡ []
    → Told c'
    → c'.cookies ≡ c.cookies
    → Tells c (record { submitted = given; finished = []; chan = c' })
quiet-Tells c c' given none_given t e = record {
  told = t;
  forward = ground arith;
  back = tt;
  given = rw none_given refl;
  pace = ground arith;
  few = ground arith;
}

SubmitCase-Tells :
    (p : Platform) (d : TxDesc) (c c' : Chan) (r : Code)
    → KeepsCookies p
    → IsPlainDesc d
    → c.cookies.cookie < max_cookie
    → Told c
    → SubmitCase p d c r c'
    → Tells c (record { submitted = accepted r; finished = []; chan = c' })
SubmitCase-Tells p d c c' r q h room t (refused a k e) =
    let u = e ∙ freed_lem c d in
    quiet-Tells c c' (accepted r) (ap accepted k) (subst Told (sym u) t)
      (ap (λ (x : Chan). x.cookies) u)
SubmitCase-Tells p d c c' r q h room t (lost x s a k u) =
    quiet-Tells c c' (accepted r) (ap accepted k) (subst Told (sym u) t)
      (ap (λ (x : Chan). x.cookies) u)
SubmitCase-Tells p d c c' r q h room t (queued c₁ a u k e) =
    let same : c₁.cookies ≡ c.cookies = ap (λ (x : Chan). x.cookies) u in
    let t₁ : Told c₁ = subst Told (sym u) t in
    let room₁ : c₁.cookies.cookie < max_cookie = ground arith in
    let next = q.assign (c₁.cookies) room₁ in
    let one : accepted r ≡ (c.cookies.cookie + 1) ∷ [] = simp (k, q.assign (c.cookies) room) in
    let following : c.cookies.cookie + 1 ≡ suc c.cookies.cookie = omega arith in
    record {
      told = subst Told (sym e) (enqueued-Told p d c₁ q h room₁ t₁);
      forward = ground arith;
      back = tt;
      given = rw one (ap (λ x. x ∷ []) following);
      pace = ground arith;
      few = ground arith;
    }

submit_buffer-Tells :
    (p : Platform) (cmp : ℕ) (c c₁ c' : Chan) (held : Option TxDesc) (r : Code)
    → KeepsCookies p
    → c.cookies.cookie < max_cookie
    → Inv c
    → Told c
    → Prepared (λ _. 1) c held c₁
    → IsPlainHeld held
    → submit_buffer p cmp held c₁ ≡ ok (r, c')
    → Tells c (record { submitted = accepted r; finished = []; chan = c' })
unfolding submit_buffer
submit_buffer-Tells p cmp c c₁ c' none r q room v t w h e =
    subst
      (λ (x : Code × Chan).
        Tells c (record { submitted = accepted x.0; finished = []; chan = x.1 }))
      (ok-injective e)
      (quiet-Tells c c₁ [] refl (subst Told (sym w.frame) t) (ap (λ (x : Chan). x.cookies) w.frame))
submit_buffer-Tells p cmp c c₁ c' (some d) r q room v t w h e =
    let d' : TxDesc = record d { callback = some cmp } in
    let v₁ = Prepared-Inv c c₁ (some d) v w in
    let same : c₁.cookies ≡ c.cookies = ap (λ (x : Chan). x.cookies) w.frame in
    let fits : weigh_chan (λ _. 1) c₁ + weigh (λ _. 1) d'.segments ≤ num_descs =
      omega (arith, v.pool, weigh-Prepared (λ _. 1) c c₁ (some d) w) in
    let (r₂, c₂, e₂, k) = tx_submit_cases p d' c₁ v₁.held (Inv-room c₁ d' v₁ w.nonempty fits) in
    let s = SubmitCase-Tells p d' c₁ c₂ r₂ q h (ground arith) (subst Told (sym w.frame) t) k in
    subst
      (λ (x : Code × Chan).
        Tells c (record { submitted = accepted x.0; finished = []; chan = x.1 }))
      (ok-injective (sym e₂ ∙ e))
      (record {
        told = s.told;
        forward = ground (arith, s.forward);
        back = tt;
        given = s.given ∙ ap (λ x. upto x.cookie (length (accepted r₂))) same;
        pace = ground (arith, s.pace);
        few = s.few;
      })

prep_buffer-Tells :
    (p : Platform) (buf len : ℕ) (dir : Direction) (cmp : ℕ) (c c' : Chan) (r : Code)
    → KeepsCookies p
    → c.cookies.cookie < max_cookie
    → Inv c
    → Told c
    → prep_buffer p buf len dir cmp c ≡ ok (r, c')
    → Tells c (record { submitted = accepted r; finished = []; chan = c' })
unfolding prep_buffer
prep_buffer-Tells p buf len dir cmp c c' r q room v t e =
    let sgl = (buf, len) ∷ [] in
    let ((held, c₁), one, more) = >>=-eq-ok (prep_slave_sg p sgl dir none c) _ e in
    submit_buffer-Tells p cmp c c₁ c' held r q room v t
      (prep_slave_sg-Prepared (λ _. 1) c p sgl dir none held c₁ one)
      (prep_slave_sg-IsPlainHeld p sgl dir none c c₁ held one) more

start_transfer-Tells :
    (p : Platform) (c c' : Chan)
    → Told c
    → start_transfer p c ≡ ok c'
    → Tells c (record { submitted = []; finished = []; chan = c' })
start_transfer-Tells p c c' t h = elim (start_transfer_cases p c c' h) [
  | inl u ↦ quiet-Tells c c' [] refl (subst Told (sym u) t) (ap (λ (x : Chan). x.cookies) u)
  | inr (u, _, _, _) ↦
      quiet-Tells c c' [] refl (launched-Told c c' t u) (ap (λ (x : Chan). x.cookies) u)
]

irq_handler-Tells :
    (p : Platform) (c c' : Chan) (r : IrqReturn)
    → KeepsCookies p
    → Told c
    → irq_handler p c ≡ ok (r, c')
    → Tells c (record { submitted = []; finished = []; chan = c' })
irq_handler-Tells p c c' r q t h = elim (irq_handler_cases p c c' r h) [
  | not_ours off k u e ↦
      quiet-Tells c c' [] refl (subst Told (sym u) t) (ap (λ (x : Chan). x.cookies) u)
  | acknowledged off k u e ↦
      quiet-Tells c c' [] refl (subst Told (sym u) t) (ap (λ (x : Chan). x.cookies) u)
  | completed on k d ↦
      let (told, forward, same) = Completed-Told p c c' q t d in
      record {
        told = told;
        forward = forward;
        back = tt;
        given = refl;
        pace = omega (arith, same);
        few = omega arith;
      }
]

pub step-Tells :
    (p : Platform) (op : Op) (c : Chan) (o : Outcome)
    → KeepsCookies p
    → c.cookies.cookie < max_cookie
    → Inv c
    → Told c
    → step p op c ≡ ok o
    → Tells c o
unfolding step issue_pending do_tasklet
step-Tells p (transfer buf len dir cmp) c o q room v t h =
    let ((r, c'), e, more) = >>=-eq-ok (prep_buffer p buf len dir cmp c) _ h in
    subst (Tells c) (ok-injective more) (prep_buffer-Tells p buf len dir cmp c c' r q room v t e)
step-Tells p issue c o q room v t h =
    let (c', e, more) = >>=-eq-ok (start_transfer p c) _ h in
    subst (Tells c) (ok-injective more) (start_transfer-Tells p c c' t e)
step-Tells p interrupt c o q room v t h =
    let ((r, c'), e, more) = >>=-eq-ok (irq_handler p c) _ h in
    subst (Tells c) (ok-injective more) (irq_handler-Tells p c c' r q t e)
step-Tells p tasklet c o q room v t h =
    let (told, back, same) = cleanup-Told c t in
    subst (Tells c) (ok-injective h) (record {
      told = told;
      forward = ground (arith, same);
      back = IsOver-mono (c.cookies) ((desc_cleanup c).cookies) _ (ground (arith, same)) back;
      given = refl;
      pace = ground (arith, same);
      few = omega arith;
    })
