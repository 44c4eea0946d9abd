-- ===== src/VxdmaDev/Machine/Joined.antt =====
-- vxdma/vxdma.c: a submission with calls that come before it takes the lock.
use petalinux_driver.Prelude.{
  refl, sym, ap, ◌∙◌, inl, inr, arith, Option, none, some, append-nil, ℕ, ◌+◌, ◌≤◌, ◌≡◌, List, [],
  ◌∷◌, ◌++◌, true, false, All, Bool-cases,
}
use petalinux_driver.Kernel.{Platform, ok, Code, code, neg}
use petalinux_driver.Vxdma.Chan.{TxDesc, num_descs, Chan}
use petalinux_driver.Vxdma.Pool.{weigh, weigh_chan, weigh_descs-append}
use petalinux_driver.Vxdma.Engine.Launch.{IsQuiet}
use petalinux_driver.Vxdma.Engine.Total.{HasSegments}
use petalinux_driver.Vxdma.Invariant.{Inv}
use petalinux_driver.Vxdma.Invariant.Transfer.{weigh-quiet, quiet-Inv}
use petalinux_driver.Vxdma.Engine.{chan_reset}
use petalinux_driver.Vxdma.Engine.Frame.{chan_reset_frame}
use petalinux_driver.Vxdma.Queue.{tx_submit}
use petalinux_driver.Vxdma.Invariant.Enqueue.{enqueued, enqueue_lem}
use petalinux_driver.Vxdma.Invariant.Submit.{weigh-enqueued, enqueued-Inv, Inv-room}
use petalinux_driver.VxdmaDev.Protocol.{Moves-trans}
use petalinux_driver.VxdmaDev.Refinement.{Follows, Follows-same, stages, enqueued-Follows}
use petalinux_driver.VxdmaDev.Machine.Submit.{weigh_desk, weigh_chan_le, Tidy, TakenFrom, Taken}
use petalinux_driver.VxdmaDev.Machine.Window.{both_asleep, IsPlain, Sound-nothing, calls-Sound}
use petalinux_driver.VxdmaDev.Machine.{Desk, Call, submit_taken, Effect, nothing, followed_by}
use petalinux_driver.VxdmaDev.Machine.Steps.{Sound, Sound-Tidy, submit_taken-Sound}
use petalinux_driver.VxdmaDev.Machine.Phases.{queue_after, queue_after_reset, split_submit}

-- What a submission comes to, on a desk that the descriptor was taken from already.
record Joined (k : Desk) (d : TxDesc) (e : Effect) : Type 0 where
  inv : Inv (e.desk.chan)
  held : All HasSegments e.desk.held
  weight : (f : ℕ → ℕ) → weigh_desk f (e.desk) ≡ weigh_desk f k + weigh f d.segments
  moves : Follows (k.chan) e.submitted e.finished (e.desk.chan)
  more : List TxDesc
  grown : e.desk.chan.done_list ≡ k.chan.done_list ++ more
  awake : e.woken ≡ false → more ≡ []

weigh_desk-enqueued :
    (f : ℕ → ℕ) (p : Platform) (d : TxDesc) (k : Desk)
    → weigh_desk f (record k { chan = enqueued p d (k.chan) }) ≡ weigh_desk f k + weigh f d.segments
unfolding weigh_desk
weigh_desk-enqueued f p d k = omega (arith, weigh-enqueued f p d (k.chan))

Taken-weight :
    (f : ℕ → ℕ) (k : Desk) (c₁ : Chan) (d d' : TxDesc) (rest : List TxDesc)
    → Taken k.held d rest
    → IsQuiet (k.chan) c₁
    → d'.segments ≡ d.segments
    → weigh_desk f (record k { chan = c₁; held = rest }) + weigh f d'.segments ≡ weigh_desk f k
unfolding weigh_desk
Taken-weight f k c₁ d d' rest t u same =
    rw same (omega (arith, t.weight f, weigh-quiet f (k.chan) c₁ u))

-- A descriptor joins the pending list behind the calls that came before the lock was taken.
queue_after_lem :
    (p : Platform) (d : TxDesc) (xs : List Call) (k : Desk)
    → All IsPlain xs
    → Tidy k
    → HasSegments d
    → weigh_desk (λ _. 1) k + weigh (λ _. 1) d.segments ≤ num_descs
    → (e : Effect) × (queue_after p d xs k ≡ ok e) × Joined k d e
unfolding queue_after
queue_after_lem p d xs k h v own fits =
    let (e, one, a) = calls-Sound p xs k h v in
    let tidy = Sound-Tidy k e v a in
    let c = e.desk.chan in
    let room : weigh_chan (λ _. 1) c + weigh (λ _. 1) d.segments ≤ num_descs =
      omega (arith, weigh_chan_le (e.desk), a.weight (λ _. 1), fits) in
    let two = enqueue_lem p d c tidy.inv.held (Inv-room c d tidy.inv own room) in
    let joined : Desk = record e.desk { chan = enqueued p d c } in
    let last : Effect = record (nothing joined) {
      submitted = (p.dma_cookie_assign c.cookies).0 ∷ [];
    } in
    (
      followed_by e last,
      simp (one, two),
      record {
        inv = enqueued-Inv p c c d tidy.inv own room refl;
        held = a.held;
        weight =
            λ f. weigh_desk-enqueued f p d (e.desk) ∙ ap (λ x. x + weigh f d.segments) (a.weight f);
        moves = Moves-trans a.moves (enqueued-Follows p d c);
        more = a.more;
        grown = a.grown;
        awake = λ asleep. let (first, _) = both_asleep e.woken false asleep in a.awake first;
      },
    )

-- The descriptor was one that a client held.
Joined-Sound :
    (k : Desk) (c₁ : Chan) (d d' : TxDesc) (rest : List TxDesc) (e : Effect)
    → Taken k.held d rest
    → IsQuiet (k.chan) c₁
    → d'.segments ≡ d.segments
    → Joined (record k { chan = c₁; held = rest }) d' e
    → Sound k e
Joined-Sound k c₁ d d' rest e t u same j = record {
  inv = j.inv;
  held = j.held;
  weight = λ f. j.weight f ∙ Taken-weight f k c₁ d d' rest t u same;
  moves = Moves-trans (Follows-same (k.chan) c₁ (ap stages u)) j.moves;
  more = j.more;
  grown = j.grown ∙ ap (λ (x : Chan). x.done_list ++ j.more) u;
  awake = j.awake;
}

chan_reset-IsQuiet : (p : Platform) (c : Chan) → IsQuiet c ((chan_reset p c).1)
chan_reset-IsQuiet p c = chan_reset_frame p c

-- The descriptor is one that a client held.
queue_after-Taken :
    (p : Platform) (callback : Option ℕ) (xs : List Call) (k : Desk) (c₁ : Chan) (d : TxDesc)
    (rest : List TxDesc)
    → All IsPlain xs
    → Tidy k
    → Taken k.held d rest
    → IsQuiet (k.chan) c₁
    → (e : Effect) × (queue_after p
          (record d { callback = callback })
          xs
          (record k { chan = c₁; held = rest })
        ≡ ok e)
      × Sound k e
queue_after-Taken p callback xs k c₁ d rest h v t u =
    let d' : TxDesc = record d { callback = callback } in
    let k₁ : Desk = record k { chan = c₁; held = rest } in
    let own = t.held v.held in
    let w = Taken-weight (λ _. 1) k c₁ d d' rest t u refl in
    let tidy : Tidy k₁ = record {
      inv = quiet-Inv (k.chan) c₁ v.inv u;
      held = own.1;
      fits = omega (arith, w, v.fits);
    } in
    let (e, one, j) = queue_after_lem p d' xs k₁ h tidy own.0 (omega (arith, w, v.fits)) in
    (e, one, Joined-Sound k c₁ d d' rest e t u refl j)

Taken-weight_dropped :
    (f : ℕ → ℕ) (k : Desk) (c₁ : Chan) (d d' : TxDesc) (rest : List TxDesc)
    → Taken k.held d rest
    → IsQuiet (k.chan) c₁
    → d'.segments ≡ d.segments
    → weigh_desk f (record k { chan = c₁; held = rest; lost = k.lost ++ d' ∷ [] }) ≡ weigh_desk f k
unfolding weigh_desk
Taken-weight_dropped f k c₁ d d' rest t u same =
    let last = ap (weigh f) same in
    omega
      (arith, t.weight f, weigh-quiet f (k.chan) c₁ u, weigh_descs-append f k.lost (d' ∷ []), last)

-- A reset that fails drops the descriptor.
queue_after_reset-Sound :
    (p : Platform) (callback : Option ℕ) (xs : List Call) (q : Code × Chan) (k : Desk) (d : TxDesc)
    (rest : List TxDesc)
    → All IsPlain xs
    → Tidy k
    → Taken k.held d rest
    → IsQuiet (k.chan) (q.1)
    → (e : Effect) × (queue_after_reset p
          (record d { callback = callback })
          xs
          q
          (record k { held = rest })
        ≡ ok e)
      × Sound k e
unfolding queue_after_reset
queue_after_reset-Sound p callback xs (code x, c₁) k d rest h v t u =
    queue_after-Taken p callback xs k c₁ d rest h v t u
queue_after_reset-Sound p callback xs (neg x, c₁) k d rest h v t u =
    let d' : TxDesc = record d { callback = callback } in
    (
      nothing (record k { chan = c₁; held = rest; lost = k.lost ++ d' ∷ [] }),
      refl,
      record {
        inv = quiet-Inv (k.chan) c₁ v.inv u;
        held = (t.held v.held).1;
        weight = λ f. Taken-weight_dropped f k c₁ d d' rest t u refl;
        moves = Follows-same (k.chan) c₁ (ap stages u);
        more = [];
        grown = ap (λ (x : Chan). x.done_list) u ∙ sym (append-nil k.chan.done_list);
        awake = λ _. refl;
      },
    )

-- A channel in cyclic mode refuses the descriptor, as in one step.
refused_lem :
    (p : Platform) (callback : Option ℕ) (xs : List Call) (d : TxDesc) (rest : List TxDesc)
    (k : Desk)
    → k.chan.cyclic ≡ true
    → split_submit p callback xs (some (d, rest)) k ≡ submit_taken p callback (some (d, rest)) k
unfolding split_submit submit_taken tx_submit
refused_lem p callback xs d rest k is_cyclic = simp (is_cyclic, append-nil k.lost)

-- A submission has a result, with calls between its tests and the lock.
pub split_submit-Sound :
    (p : Platform) (callback : Option ℕ) (xs : List Call) (o : Option (TxDesc × List TxDesc))
    (k : Desk)
    → All IsPlain xs
    → Tidy k
    → TakenFrom k.held o
    → (e : Effect) × (split_submit p callback xs o k ≡ ok e) × Sound k e
unfolding split_submit
split_submit-Sound p callback xs none k h v t = (nothing k, refl, Sound-nothing k v)
split_submit-Sound p callback xs (some (d, rest)) k h v t = elim (Bool-cases k.chan.cyclic) [
  | inl is_cyclic ↦
      let (e, one, a) = submit_taken-Sound p callback (some (d, rest)) k v t in
      (e, refused_lem p callback xs d rest k is_cyclic ∙ one, a)
  | inr plain ↦ elim (Bool-cases k.chan.err) [
    | inl bad ↦
        let (e, one, a) =
          queue_after_reset-Sound p callback xs (chan_reset p k.chan) k d rest h v t
            (chan_reset-IsQuiet p k.chan) in
        (e, simp (plain, bad, one), a)
    | inr good ↦
        let (e, one, a) = queue_after-Taken p callback xs k (k.chan) d rest h v t refl in
        (e, simp (plain, good, one), a)
  ]
]
