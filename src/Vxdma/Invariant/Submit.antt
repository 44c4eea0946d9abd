-- ===== src/Vxdma/Invariant/Submit.antt =====
-- vxdma/vxdma.c, `xilinx_dma_tx_submit`: its outcomes, and the invariant.
use petalinux_driver.Prelude.{
  ℕ, ◌+◌, ◌≤◌, ◌<◌, ◌≡◌, refl, ap, sym, subst, [], ◌∷◌, ◌++◌, map, true, false, some, ◌⊎◌, inl, inr,
  length-append, length-map_last, All, All-append, Bool-cases, arith,
}
use petalinux_driver.Kernel.{Platform, Code, code, neg, Errno, ebusy, ok, freed_desc}
use petalinux_driver.Vxdma.Chan.{TxDesc, Chan, u32, num_descs}
use petalinux_driver.Vxdma.Segment.{free_tx_descriptor}
use petalinux_driver.Vxdma.Pool.{
  weigh, weigh_chan, weigh-append, weigh_descs-append, weigh-map-clean, clean_segment,
  free_segments_lem,
}
use petalinux_driver.Vxdma.Engine.{chan_reset}
use petalinux_driver.Vxdma.Engine.Frame.{chan_reset_frame}
use petalinux_driver.Vxdma.Engine.Launch.{IsQuiet}
use petalinux_driver.Vxdma.Engine.Total.{HasSegments}
use petalinux_driver.Vxdma.Queue.{link_desc, enqueue, submit_after_reset, tx_submit}
use petalinux_driver.Vxdma.Invariant.{Inv}
use petalinux_driver.Vxdma.Invariant.Transfer.{weigh-quiet, quiet-Inv}
use petalinux_driver.Vxdma.Invariant.Enqueue.{
  enqueued, enqueue_lem, linked, linked-All, weigh-linked, length-le-weigh,
}

-- A channel without an error as it is, or one with an error after a reset that went well.
abbrev pub Readied : Platform → Chan → Chan → Type 0
Readied p c c₁ =
    ((c.err ≡ false) × (c₁ ≡ c)) ⊎ ((n : ℕ) × (c.err ≡ true) × (chan_reset p c ≡ (code n, c₁)))

-- What a submission comes to. `lost` is a failed reset: the descriptor is neither queued nor freed.
pub data SubmitCase (p : Platform) (d : TxDesc) (c : Chan) (r : Code) (c' : Chan) : Type 0 where
  refused :
      c.cyclic ≡ true → r ≡ neg ebusy → c' ≡ free_tx_descriptor c (some d) → SubmitCase p d c r c'
  lost :
      (e : Errno)
      → c.cyclic ≡ false
      → (c.err ≡ true) × (chan_reset p c ≡ (neg e, c'))
      → r ≡ neg e
      → IsQuiet c c'
      → SubmitCase p d c r c'
  queued :
      (c₁ : Chan)
      → (c.cyclic ≡ false) × Readied p c c₁
      → IsQuiet c c₁
      → r ≡ code (p.dma_cookie_assign c.cookies).0
      → c' ≡ enqueued p d c₁
      → SubmitCase p d c r c'

module _ (p : Platform) (d : TxDesc) (c : Chan) (held : All HasSegments c.pending_list)
    (room : c.desc_pendingcount < num_descs) where
  enqueue_quiet :
      (c₁ : Chan)
      → IsQuiet c c₁
      → enqueue p d c₁ ≡ ok (code (p.dma_cookie_assign c.cookies).0, enqueued p d c₁)
  enqueue_quiet c₁ u =
      let e =
        enqueue_lem p d c₁
          (subst (All HasSegments) (ap (λ (x : Chan). x.pending_list) (sym u)) held)
          (ground arith) in
      ground arith

  submit_after_reset_cases :
      (reset : Code × Chan)
      → chan_reset p c ≡ reset
      → IsQuiet c reset.1
      → c.cyclic ≡ false
      → c.err ≡ true
      → (r : Code) × (c' : Chan) × (submit_after_reset p d reset ≡ ok (r, c'))
        × SubmitCase p d c r c'
  unfolding submit_after_reset
  submit_after_reset_cases (neg e, c₁) same u plain bad =
      (neg e, c₁, refl, lost e plain (bad, same) refl u)
  submit_after_reset_cases (code n, c₁) same u plain bad = (
    code (p.dma_cookie_assign c.cookies).0,
    enqueued p d c₁,
    enqueue_quiet c₁ u,
    queued c₁ (plain, inr (n, bad, same)) u refl refl,
  )

  -- On a channel whose pending descriptors each hold a segment and whose counter of pending
  -- descriptors is below the limit, a submission has a result, of one of three kinds: a cyclic
  -- channel refuses and frees the descriptor; a channel that is not cyclic, has an error and whose
  -- reset fails returns the reset's error and neither queues nor frees the descriptor; otherwise
  -- the descriptor is at the end of the pending list, of a channel without an error as it was or of
  -- one with an error as its reset left it, under a new cookie, with the last segment before it
  -- linked to it, and the counter is one more.
  pub tx_submit_cases :
      (r : Code) × (c' : Chan) × (tx_submit p d c ≡ ok (r, c')) × SubmitCase p d c r c'
  unfolding tx_submit
  tx_submit_cases = elim (Bool-cases c.cyclic) [
    | inl is_cyclic ↦
        (neg ebusy, free_tx_descriptor c (some d), ground arith, refused is_cyclic refl refl)
    | inr plain ↦ elim (Bool-cases c.err) [
      | inl bad ↦
          let (r, c', e, k) =
            submit_after_reset_cases (chan_reset p c) refl (chan_reset_frame p c) plain bad in
          (r, c', ground arith, k)
      | inr good ↦ (
        code (p.dma_cookie_assign c.cookies).0,
        enqueued p d c,
        let e = enqueue_quiet c refl in ground arith,
        queued c (plain, inl (good, refl)) refl refl refl,
      )
    ]
  ]

pub freed_lem :
    (c : Chan) (d : TxDesc)
    → free_tx_descriptor c (some d) ≡ record c {
      free_seg_list = c.free_seg_list ++ map clean_segment d.segments;
      trace = freed_desc ∷ c.trace;
    }
unfolding free_tx_descriptor
freed_lem c d = simp free_segments_lem

pub weigh-free_tx_descriptor :
    (f : ℕ → ℕ) (c : Chan) (d : TxDesc)
    → weigh_chan f (free_tx_descriptor c (some d)) ≡ weigh_chan f c + weigh f d.segments
unfolding weigh_chan free_tx_descriptor
weigh-free_tx_descriptor f c d = ground (
  arith,
  free_segments_lem c d.segments,
  weigh-append f c.free_seg_list (map clean_segment d.segments),
  weigh-map-clean f d.segments,
)

pub weigh-enqueued :
    (f : ℕ → ℕ) (p : Platform) (d : TxDesc) (c : Chan)
    → weigh_chan f (enqueued p d c) ≡ weigh_chan f c + weigh f d.segments
unfolding weigh_chan
weigh-enqueued f p d c = ground (
  arith,
  weigh_descs-append f (linked (u32 d.phys) c.pending_list)
      (record d { cookie = (p.dma_cookie_assign c.cookies).0 } ∷ []),
  weigh-linked f (u32 d.phys) c.pending_list,
)

-- The counter has room for a descriptor whose segments are of the pool.
pub Inv-room :
    (c : Chan) (d : TxDesc)
    → Inv c
    → HasSegments d
    → weigh_chan (λ _. 1) c + weigh (λ _. 1) d.segments ≤ num_descs
    → c.desc_pendingcount < num_descs
unfolding weigh_chan
Inv-room c d v h w =
    omega
      (arith, v.counted, length-le-weigh c.pending_list v.held, length-le-weigh (d ∷ []) (h, tt))

pub enqueued-Inv :
    (p : Platform) (c c₁ : Chan) (d : TxDesc)
    → Inv c
    → HasSegments d
    → weigh_chan (λ _. 1) c + weigh (λ _. 1) d.segments ≤ num_descs
    → IsQuiet c c₁
    → Inv (enqueued p d c₁)
enqueued-Inv p c c₁ d v h w u =
    let same : c₁.pending_list ≡ c.pending_list = ap (λ (x : Chan). x.pending_list) u in
    let last : TxDesc = record d { cookie = (p.dma_cookie_assign c₁.cookies).0 } in
    record {
      held =
          All-append HasSegments (linked (u32 d.phys) c₁.pending_list) (last ∷ [])
            (linked-All (u32 d.phys) c₁.pending_list (subst (All HasSegments) (sym same) v.held))
            (h, tt);
      counted = ground (
        arith,
        length-append (linked (u32 d.phys) c₁.pending_list) (last ∷ []),
        length-map_last (link_desc (u32 d.phys)) c₁.pending_list,
        v.counted,
      );
      pool = ground (arith, weigh-enqueued (λ _. 1) p d c₁, weigh-quiet (λ _. 1) c c₁ u);
      resting = λ i. ground arith;
    }

-- Each of the three outcomes of a submission keeps the invariant, for a descriptor that holds a
-- segment, and whose segments together with those of the channel are no more than were allocated.
pub SubmitCase-Inv :
    (p : Platform) (d : TxDesc) (c c' : Chan) (r : Code)
    → Inv c
    → HasSegments d
    → weigh_chan (λ _. 1) c + weigh (λ _. 1) d.segments ≤ num_descs
    → SubmitCase p d c r c'
    → Inv c'
SubmitCase-Inv p d c c' r v h w (refused a k e) = subst Inv (sym e) (record {
  held = subst (All HasSegments) (ap (λ (x : Chan). x.pending_list) (sym (freed_lem c d))) v.held;
  counted = ground (arith, freed_lem c d);
  pool = omega (arith, weigh-free_tx_descriptor (λ _. 1) c d);
  resting = λ i. ground (arith, freed_lem c d);
})
SubmitCase-Inv p d c c' r v h w (lost x q a k u) = quiet-Inv c c' v u
SubmitCase-Inv p d c c' r v h w (queued c₁ a u k e) =
    subst Inv (sym e) (enqueued-Inv p c c₁ d v h w u)
