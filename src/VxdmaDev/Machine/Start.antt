-- ===== src/VxdmaDev/Machine/Start.antt =====
-- vxdma/vxdma.c, from the allocation of a channel to the release of its segments.
use petalinux_driver.Prelude.{
  ℕ, ◌≡◌, refl, sym, ◌∙◌, List, [], ◌∷◌, ◌++◌, map, some, inr, false, All, arith,
}
use petalinux_driver.Prelude.Bags.{only, times, bag, bag-HasSame}
use petalinux_driver.Kernel.{Platform, ok}
use petalinux_driver.Vxdma.Chan.{Segment, Chan}
use petalinux_driver.Vxdma.Segment.{alloc_chan_resources, free_descriptors}
use petalinux_driver.Vxdma.Pool.{
  weigh, weigh_chan, weigh-append, weigh-segments_of, segments_of, weigh-free_descriptors,
}
use petalinux_driver.Vxdma.Ring.{alloc_chan_resources-Inv, alloc_chan_resources_frame}
use petalinux_driver.Vxdma.Probe.Lookup.{IsUnused}
use petalinux_driver.VxdmaDev.Client.{timeline}
use petalinux_driver.VxdmaDev.Machine.{Desk}
use petalinux_driver.VxdmaDev.Machine.Phases.{Machine, Phase, execute}
use petalinux_driver.VxdmaDev.Machine.Submit.{weigh_desk}
use petalinux_driver.VxdmaDev.Machine.Upright.{IsPlainPhase, Upright}
use petalinux_driver.VxdmaDev.Machine.Run.{execute-Upright}

-- A machine on a channel that has just been allocated.
abbrev pub started : Chan → Machine
started c = record {
  desk = record { chan = c; held = []; lost = [] };
  scheduled = false;
  submitted = [];
  finished = [];
}

pub started-Upright :
    (p : Platform) (c : Chan) (seg_p : ℕ)
    → p.dma_zalloc_coherent c.trace ≡ some seg_p
    → IsUnused c
    → Upright (started (alloc_chan_resources p c).1)
started-Upright p c seg_p memory u =
    let v = alloc_chan_resources-Inv p c seg_p memory u.free u.pending u.active u.done u.count in
    let (pending, active, done) = alloc_chan_resources_frame p c seg_p memory in
    let empty : timeline (alloc_chan_resources p c).1 ≡ [] =
      simp (pending, active, done, u.done, u.active, u.pending) in
    record {
      tidy = record { inv = v; held = tt; fits = unfold weigh_desk in omega (arith, v.pool) };
      order = sym empty;
      awake = inr (simp (done, u.done));
    }

-- The addresses of segments.
abbrev pub addresses : List Segment → List ℕ
addresses = map (λ s. s.phys)

-- The free list once the descriptors of the channel are freed, as its release does first, and the
-- segments of the descriptors that are not in the channel.
abbrev pub returned : Desk → List Segment
returned k = (free_descriptors (k.chan)).free_seg_list ++ (segments_of k.held ++ segments_of k.lost)

times-addresses : (a : ℕ) (ss : List Segment) → times a (addresses ss) ≡ weigh (only a) ss
times-addresses a [] = refl
times-addresses a (s ∷ ss) = omega (arith, times-addresses a ss)

weigh-returned : (f : ℕ → ℕ) (k : Desk) → weigh f (returned k) ≡ weigh_desk f k
unfolding weigh_desk
weigh-returned f k = omega (
  arith,
  weigh-append f (free_descriptors (k.chan)).free_seg_list
      (segments_of k.held ++ segments_of k.lost),
  weigh-append f (segments_of k.held) (segments_of k.lost),
  weigh-segments_of f k.held,
  weigh-segments_of f k.lost,
  weigh-free_descriptors f (k.chan),
)

-- A desk with an empty channel but for its free list.
weigh-started :
    (f : ℕ → ℕ) (p : Platform) (c : Chan) (seg_p : ℕ)
    → p.dma_zalloc_coherent c.trace ≡ some seg_p
    → IsUnused c
    → weigh_desk f (started (alloc_chan_resources p c).1).desk
      ≡ weigh f (alloc_chan_resources p c).1.free_seg_list
unfolding weigh_desk weigh_chan
weigh-started f p c seg_p memory u =
    let (pending, active, done) = alloc_chan_resources_frame p c seg_p memory in
    ground (arith, u.pending, u.active, u.done)

-- Take calls that terminate nothing, and prepare only scatterlists of at least one byte and cyclic
-- buffers whose periods have at least one byte and whose number of periods, as an unsigned int, is
-- not 0. If there is memory for the segments of a channel that nobody has used yet, then every run
-- from its allocation of such calls, of interrupt handlers and submissions with such calls before
-- they take the lock, and of tasklet runs with such calls while their callbacks run, has a result,
-- whatever the device answers. If the descriptors of the channel are freed after it, as the release
-- of the channel does first, then the free list together with the segments of the descriptors that
-- clients hold and of those that a failed reset lost is, but for the order, the free list after the
-- allocation, by the addresses of the segments.
pub execute-alloc_chan_resources :
    (p : Platform) (c : Chan) (seg_p : ℕ) (phases : List Phase)
    → p.dma_zalloc_coherent c.trace ≡ some seg_p
    → IsUnused c
    → All IsPlainPhase phases
    → (m' : Machine) × (execute p phases (started (alloc_chan_resources p c).1) ≡ ok m')
      × (bag (addresses (returned (m'.desk)))
          ≡ bag (addresses (alloc_chan_resources p c).1.free_seg_list))
execute-alloc_chan_resources p c seg_p phases memory u plain =
    let start = started (alloc_chan_resources p c).1 in
    let (m', e, _, f) = execute-Upright p phases start plain (started-Upright p c seg_p memory u) in
    (
      m',
      e,
      bag-HasSame λ a.
          times-addresses a (returned (m'.desk))
          ∙ weigh-returned (only a) (m'.desk)
          ∙ f.weight (only a)
          ∙ weigh-started (only a) p c seg_p memory u
          ∙ sym (times-addresses a (alloc_chan_resources p c).1.free_seg_list),
    )
