-- ===== src/VxdmaDev/Machine/Submit.antt =====
-- vxdma/vxdma.c: the preparation and the submission of descriptors, by clients that hold some.
use petalinux_driver.Prelude.{
  ℕ, zero, suc, ◌+◌, ◌≤◌, ◌≡◌, refl, ap, List, [], ◌∷◌, ◌++◌, Option, none, some, All, arith,
}
use petalinux_driver.Kernel.{Platform, Code, ok}
use petalinux_driver.Vxdma.Chan.{TxDesc, Chan, num_descs}
use petalinux_driver.Vxdma.Pool.{weigh, weigh_descs, weigh_chan, weigh_descs-append}
use petalinux_driver.Vxdma.Prep.Balance.{HeldSegments, weigh_held}
use petalinux_driver.Vxdma.Engine.Total.{HasSegments}
use petalinux_driver.Vxdma.Queue.{tx_submit}
use petalinux_driver.Vxdma.Invariant.{Inv}
use petalinux_driver.Vxdma.Invariant.Transfer.{weigh-quiet}
use petalinux_driver.Vxdma.Invariant.Submit.{
  tx_submit_cases, Inv-room, SubmitCase, SubmitCase-Inv, refused, lost, queued, freed_lem,
  weigh-free_tx_descriptor, weigh-enqueued,
}
use petalinux_driver.VxdmaDev.Client.{accepted}
use petalinux_driver.VxdmaDev.Refinement.{Follows, SubmitCase-Follows}
use petalinux_driver.VxdmaDev.Machine.{Desk, prepared, take_out, lost_by}

-- The segments of a channel, of the descriptors that clients hold, and of those that were lost.
unfoldable pub weigh_desk : (ℕ → ℕ) → Desk → ℕ
weigh_desk f k = weigh_chan f k.chan + weigh_descs f k.held + weigh_descs f k.lost

pub weigh_chan_le : (k : Desk) → weigh_chan (λ _. 1) (k.chan) ≤ weigh_desk (λ _. 1) k
unfolding weigh_desk
weigh_chan_le k = omega arith

-- The channel is well-formed, the descriptors that clients hold each have a segment, and all segments
-- together are no more than were allocated.
pub record Tidy (k : Desk) : Type 0 where
  pub inv : Inv (k.chan)
  pub held : All HasSegments k.held
  pub fits : weigh_desk (λ _. 1) k ≤ num_descs

-- A descriptor taken out of a list, and the others.
pub record Taken (ds : List TxDesc) (d : TxDesc) (rest : List TxDesc) : Type 0 where
  pub weight : (f : ℕ → ℕ) → weigh_descs f ds ≡ weigh f d.segments + weigh_descs f rest
  pub held : All HasSegments ds → HasSegments d × All HasSegments rest

abbrev pub TakenFrom : List TxDesc → Option (TxDesc × List TxDesc) → Type 0
TakenFrom ds none = Unit {0}
TakenFrom ds (some (d, rest)) = Taken ds d rest

TakenFrom-behind :
    (x : TxDesc) (ds : List TxDesc) (o : Option (TxDesc × List TxDesc))
    → TakenFrom ds o
    → TakenFrom (x ∷ ds) (elim o [ none ↦ none | some (d, left) ↦ some (d, x ∷ left) ])
TakenFrom-behind x ds none t = tt
TakenFrom-behind x ds (some (d, rest)) t = record {
  weight = λ f. omega (arith, t.weight f);
  held = λ h. let (one, others) = t.held h.1 in (one, (h.0, others));
}

pub take_out-TakenFrom : (i : ℕ) (ds : List TxDesc) → TakenFrom ds (take_out i ds)
take_out-TakenFrom zero [] = tt
take_out-TakenFrom (suc i) [] = tt
take_out-TakenFrom zero (x ∷ ds) = record { weight = λ f. refl; held = λ h. h }
take_out-TakenFrom (suc i) (x ∷ ds) =
    TakenFrom-behind x ds (take_out i ds) (take_out-TakenFrom i ds)

pub weigh-prepared : (f : ℕ → ℕ) (o : Option TxDesc) → weigh_descs f (prepared o) ≡ weigh_held f o
weigh-prepared f none = refl
weigh-prepared f (some d) = omega arith

pub prepared-All : (o : Option TxDesc) → HeldSegments o → All HasSegments (prepared o)
prepared-All none h = tt
prepared-All (some d) h = (h, tt)

-- What a submission leaves: a descriptor that neither the channel nor its pool has is lost, and the
-- done list is as it was.
SubmitCase-weight :
    (f : ℕ → ℕ) (p : Platform) (d : TxDesc) (c c' : Chan) (r : Code)
    → SubmitCase p d c r c'
    → weigh_chan f c' + weigh_descs f (lost_by r c.cyclic d) ≡ weigh_chan f c + weigh f d.segments
SubmitCase-weight f p d c c' r (refused a k e) = ground (arith, weigh-free_tx_descriptor f c d)
SubmitCase-weight f p d c c' r (lost x q a k u) =
    let dropped : lost_by r c.cyclic d ≡ d ∷ [] = simp (k, q) in
    rw dropped (omega (arith, weigh-quiet f c c' u))
SubmitCase-weight f p d c c' r (queued c₁ a u k e) =
    ground (arith, weigh-enqueued f p d c₁, weigh-quiet f c c₁ u)

SubmitCase-done :
    (p : Platform) (d : TxDesc) (c c' : Chan) (r : Code)
    → SubmitCase p d c r c'
    → c'.done_list ≡ c.done_list
SubmitCase-done p d c c' r (refused a k e) = ground (arith, freed_lem c d)
SubmitCase-done p d c c' r (lost x q a k u) = ap (λ (x : Chan). x.done_list) u
SubmitCase-done p d c c' r (queued c₁ a u k e) = ground arith

-- A descriptor goes from its client to the channel.
pub submit_taken_lem :
    (p : Platform) (callback : Option ℕ) (k : Desk) (d : TxDesc) (rest : List TxDesc)
    → Tidy k
    → Taken k.held d rest
    → (r : Code) × (c' : Chan) × (tx_submit p (record d { callback = callback }) k.chan
        ≡ ok (r, c'))
      × Inv c'
      × ((f : ℕ → ℕ)
          → weigh_desk f (record {
            chan = c';
            held = rest;
            lost = k.lost ++ lost_by r k.chan.cyclic (record d { callback = callback });
          })
            ≡ weigh_desk f k)
      × Follows (k.chan) (accepted r) [] c'
      × (c'.done_list ≡ k.chan.done_list)
unfolding weigh_desk
submit_taken_lem p callback k d rest v t =
    let d' : TxDesc = record d { callback = callback } in
    let own = t.held v.held in
    let fits : weigh_chan (λ _. 1) (k.chan) + weigh (λ _. 1) d'.segments ≤ num_descs =
      omega (arith, v.fits, t.weight (λ _. 1)) in
    let (r, c', e, s) =
      tx_submit_cases p d' (k.chan) v.inv.held (Inv-room (k.chan) d' v.inv own.0 fits) in
    (
      r,
      c',
      e,
      SubmitCase-Inv p d' (k.chan) c' r v.inv own.0 fits s,
      λ f. omega (
        arith,
        SubmitCase-weight f p d' (k.chan) c' r s,
        weigh_descs-append f k.lost (lost_by r k.chan.cyclic d'),
        t.weight f,
      ),
      SubmitCase-Follows p d' (k.chan) c' r s,
      SubmitCase-done p d' (k.chan) c' r s,
    )
