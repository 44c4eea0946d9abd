-- ===== src/VxdmaDev/Machine/Steps.antt =====
-- vxdma/vxdma.c: what one step of a call does to a channel and its descriptors.
use petalinux_driver.Prelude.{
  ℕ, ◌≡◌, refl, sym, ap, ◌∙◌, List, [], ◌++◌, append-nil, Bool, true, false, Option, none, some,
  All, All-append, arith, inl, inr,
}
use petalinux_driver.Kernel.{Platform, ok}
use petalinux_driver.Vxdma.Chan.{TxDesc, Chan}
use petalinux_driver.Vxdma.Pool.{weigh_chan, weigh_descs-append}
use petalinux_driver.Vxdma.Prep.Balance.{Prepared}
use petalinux_driver.Vxdma.Engine.{start_transfer}
use petalinux_driver.Vxdma.Engine.Launch.{start_transfer_cases}
use petalinux_driver.Vxdma.Engine.Total.{HasSegments}
use petalinux_driver.Vxdma.Queue.{IrqReturn, irq_handler}
use petalinux_driver.Vxdma.Queue.Complete.{
  Completed, not_ours, acknowledged, completed, irq_handler_cases,
}
use petalinux_driver.Vxdma.Invariant.{Inv}
use petalinux_driver.Vxdma.Invariant.Transfer.{
  start_transfer-Inv, irq_handler-Inv, weigh-quiet, weigh-unmoved, weigh-launched, weigh-Completed,
}
use petalinux_driver.VxdmaDev.Client.{accepted}
use petalinux_driver.VxdmaDev.Run.{weigh-Prepared, Prepared-Inv}
use petalinux_driver.VxdmaDev.Refinement.{
  Follows, Follows-same, stages, start_transfer-Follows, irq_handler-Follows,
}
use petalinux_driver.VxdmaDev.Machine.{
  Desk, Effect, nothing, is_handled, prepared, lost_by, submit_taken,
}
use petalinux_driver.VxdmaDev.Machine.Submit.{
  weigh_desk, Tidy, TakenFrom, submit_taken_lem, weigh-prepared, prepared-All,
}

-- What calls came to: the channel is well-formed and every descriptor that clients hold has a
-- segment, no segment was lost or made up, the cookies made moves of the protocol,
-- and the done list grew at its end, only by an interrupt that scheduled the tasklet.
pub record Sound (k : Desk) (e : Effect) : Type 0 where
  pub inv : Inv (e.desk.chan)
  pub held : All HasSegments e.desk.held
  pub weight : (f : ℕ → ℕ) → weigh_desk f (e.desk) ≡ weigh_desk f k
  pub moves : Follows (k.chan) e.submitted e.finished (e.desk.chan)
  pub more : List TxDesc
  pub grown : e.desk.chan.done_list ≡ k.chan.done_list ++ more
  pub awake : e.woken ≡ false → more ≡ []

-- A desk that calls leave behind.
pub Sound-Tidy : (k : Desk) (e : Effect) → Tidy k → Sound k e → Tidy (e.desk)
Sound-Tidy k e v a = record {
  inv = a.inv;
  held = a.held;
  fits = omega (arith, v.fits, a.weight (λ _. 1));
}

-- The channel is all that a step changes.
abbrev pub moved : Desk → Bool → Chan → Effect
moved k woken c' = record (nothing (record k { chan = c' })) { woken = woken }

weigh-moved :
    (k : Desk) (c' : Chan) (f : ℕ → ℕ)
    → weigh_chan f c' ≡ weigh_chan f (k.chan)
    → weigh_desk f (record k { chan = c' }) ≡ weigh_desk f k
unfolding weigh_desk
weigh-moved k c' f w = omega (arith, w)

-- The done list stays as it is.
pub Sound-moved :
    (k : Desk) (woken : Bool) (c' : Chan)
    → Tidy k
    → Inv c'
    → ((f : ℕ → ℕ) → weigh_chan f c' ≡ weigh_chan f (k.chan))
    → Follows (k.chan) [] [] c'
    → c'.done_list ≡ k.chan.done_list
    → Sound k (moved k woken c')
Sound-moved k woken c' v i w m d = record {
  inv = i;
  held = v.held;
  weight = λ f. weigh-moved k c' f (w f);
  moves = m;
  more = [];
  grown = d ∙ sym (append-nil k.chan.done_list);
  awake = λ _. refl;
}

-- What was active is done.
pub Completed-Sound :
    (p : Platform) (k : Desk) (c' : Chan)
    → Tidy k
    → Inv c'
    → Follows (k.chan) [] [] c'
    → Completed p (k.chan) c'
    → Sound k (moved k true c')
Completed-Sound p k c' v i m d = record {
  inv = i;
  held = v.held;
  weight = λ f. weigh-moved k c' f (weigh-Completed f (k.chan) c' p d);
  moves = m;
  more = k.chan.active_list;
  grown = d.done;
  awake = λ asleep. absurd (ground arith);
}

pub irq_handler-Sound :
    (p : Platform) (k : Desk) (c' : Chan) (r : IrqReturn)
    → Tidy k
    → irq_handler p k.chan ≡ ok (r, c')
    → Sound k (moved k (is_handled r) c')
irq_handler-Sound p k c' r v h =
    let i = irq_handler-Inv p (k.chan) c' r v.inv h in
    let m = irq_handler-Follows p (k.chan) c' r h in
    elim (irq_handler_cases p (k.chan) c' r h) [
      | not_ours off a u e ↦
          Sound-moved k (is_handled r) c' v i (λ f. weigh-unmoved f (k.chan) c' u) m
            (ap (λ (x : Chan). x.done_list) u)
      | acknowledged off a u e ↦
          Sound-moved k (is_handled r) c' v i (λ f. weigh-unmoved f (k.chan) c' u) m
            (ap (λ (x : Chan). x.done_list) u)
      | completed on a d ↦ rw a (Completed-Sound p k c' v i m d)
    ]

pub start_transfer-Sound :
    (p : Platform) (k : Desk) (c' : Chan)
    → Tidy k
    → start_transfer p k.chan ≡ ok c'
    → Sound k (nothing (record k { chan = c' }))
start_transfer-Sound p k c' v h =
    let i = start_transfer-Inv p (k.chan) c' v.inv h in
    let m = start_transfer-Follows p (k.chan) c' v.inv h in
    elim (start_transfer_cases p (k.chan) c' h) [
      | inl u ↦
          Sound-moved k false c' v i (λ f. weigh-quiet f (k.chan) c' u) m
            (ap (λ (x : Chan). x.done_list) u)
      | inr (u, _, _, _) ↦
          Sound-moved k false c' v i (λ f. weigh-launched f (k.chan) c' u) m
            (ap (λ (x : Chan). x.done_list) u)
    ]

pub Prepared-Sound :
    (k : Desk) (c' : Chan) (o : Option TxDesc)
    → Tidy k
    → ((f : ℕ → ℕ) → Prepared f (k.chan) o c')
    → Sound k (nothing (record k { chan = c'; held = k.held ++ prepared o }))
unfolding weigh_desk
Prepared-Sound k c' o v q = record {
  inv = Prepared-Inv (k.chan) c' o v.inv (q (λ _. 1));
  held = All-append HasSegments k.held (prepared o) v.held (prepared-All o (q (λ _. 1)).nonempty);
  weight = λ f. omega (
    arith,
    weigh-Prepared f (k.chan) c' o (q f),
    weigh_descs-append f k.held (prepared o),
    weigh-prepared f o,
  );
  moves = Follows-same (k.chan) c' (ap stages (q (λ _. 1)).frame);
  more = [];
  grown = ap (λ (x : Chan). x.done_list) (q (λ _. 1)).frame ∙ sym (append-nil k.chan.done_list);
  awake = λ _. refl;
}

pub submit_taken-Sound :
    (p : Platform) (callback : Option ℕ) (o : Option (TxDesc × List TxDesc)) (k : Desk)
    → Tidy k
    → TakenFrom k.held o
    → (e : Effect) × (submit_taken p callback o k ≡ ok e) × Sound k e
unfolding submit_taken
submit_taken-Sound p callback none k v t = (
  nothing k,
  refl,
  Sound-moved k false (k.chan) v v.inv (λ f. refl) (Follows-same (k.chan) (k.chan) refl) refl,
)
submit_taken-Sound p callback (some (d, rest)) k v t =
    let (r, c', e, i, w, m, same) = submit_taken_lem p callback k d rest v t in
    let k' : Desk = record {
      chan = c';
      held = rest;
      lost = k.lost ++ lost_by r k.chan.cyclic (record d { callback = callback });
    } in
    (
      record (nothing k') { submitted = accepted r },
      simp e,
      record {
        inv = i;
        held = (t.held v.held).1;
        weight = w;
        moves = m;
        more = [];
        grown = same ∙ sym (append-nil k.chan.done_list);
        awake = λ _. refl;
      },
    )
