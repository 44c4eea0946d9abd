-- ===== src/Vxdma/Invariant/Enqueue.antt =====
-- vxdma/vxdma.c, `append_desc_queue`: the link of the last pending segment, and the new last
-- descriptor.
use petalinux_driver.Prelude.{
  ℕ, ◌+◌, ◌≤◌, ◌<◌, ◌≡◌, refl, ap, List, [], ◌∷◌, ◌++◌, map, true, false, if◌then◌else◌, length,
  All, map_last, is_empty, inl, inr, Bool-cases, arith,
}
use petalinux_driver.Kernel.{Platform, code, ok}
use petalinux_driver.Vxdma.Chan.{Segment, TxDesc, Chan, u32, num_descs}
use petalinux_driver.Vxdma.Pool.{weigh, weigh_descs}
use petalinux_driver.Vxdma.Engine.Total.{HasSegments, last?-some, last?-All}
use petalinux_driver.Vxdma.Queue.{link_segment, link_desc, link_tail, append_desc_queue, enqueue}

-- The pending list with its last segment linked to the descriptor at `next`.
abbrev pub linked : ℕ → List TxDesc → List TxDesc
linked next = map_last (link_desc next)

linked_last :
    (next : ℕ) (d : TxDesc) (ds : List TxDesc)
    → All HasSegments (d ∷ ds)
    → link_tail next (d ∷ ds) ≡ ok (linked next (d ∷ ds))
unfolding link_tail
linked_last next d ds h =
    let (tail_desc, e, held) = last?-All HasSegments d ds h in
    let (tail_segment, e') = last?-some tail_desc.segments held in ground arith

-- The link is written without a fault where each pending descriptor has a segment.
link_tail_lem :
    (next : ℕ) (ds : List TxDesc) → All HasSegments ds → link_tail next ds ≡ ok (linked next ds)
unfolding link_tail
link_tail_lem next [] h = refl
link_tail_lem next (d ∷ ds) h = linked_last next d ds h

map_last-nonempty :
    (f : Segment → Segment) (ss : List Segment)
    → is_empty ss ≡ false
    → is_empty (map_last f ss) ≡ false
map_last-nonempty f [] h = h
map_last-nonempty f (s ∷ []) h = h
map_last-nonempty f (s ∷ t ∷ ss) h = refl

pub linked-All :
    (next : ℕ) (ds : List TxDesc) → All HasSegments ds → All HasSegments (linked next ds)
linked-All next [] h = h
linked-All next (d ∷ []) h = (map_last-nonempty (link_segment next) d.segments h.0, tt)
linked-All next (d ∷ e ∷ ds) h = (h.0, linked-All next (e ∷ ds) h.1)

pub map-cookie-linked :
    (next : ℕ) (ds : List TxDesc) → map (λ d. d.cookie) (linked next ds) ≡ map (λ d. d.cookie) ds
map-cookie-linked next [] = refl
map-cookie-linked next (d ∷ []) = refl
map-cookie-linked next (d ∷ e ∷ ds) =
    ap (λ (l : List ℕ). d.cookie ∷ l) (map-cookie-linked next (e ∷ ds))

module _ (f : ℕ → ℕ) where
  weigh-link_segment :
      (next : ℕ) (ss : List Segment) → weigh f (map_last (link_segment next) ss) ≡ weigh f ss
  weigh-link_segment next [] = refl
  weigh-link_segment next (s ∷ []) = refl
  weigh-link_segment next (s ∷ t ∷ ss) = omega (arith, weigh-link_segment next (t ∷ ss))

  pub weigh-linked :
      (next : ℕ) (ds : List TxDesc) → weigh_descs f (linked next ds) ≡ weigh_descs f ds
  weigh-linked next [] = refl
  weigh-linked next (d ∷ []) = omega (arith, weigh-link_segment next d.segments)
  weigh-linked next (d ∷ e ∷ ds) = omega (arith, weigh-linked next (e ∷ ds))

-- The length of a list of descriptors that each hold a segment is at most their segments' number.
pub length-le-weigh : (ds : List TxDesc) → All HasSegments ds → length ds ≤ weigh_descs (λ _. 1) ds
length-le-weigh [] h = omega arith
length-le-weigh (d ∷ ds) h = omega (arith, length-le-weigh ds h.1, weigh_pos d.segments h.0)
  where
    weigh_pos : (ss : List Segment) → is_empty ss ≡ false → 1 ≤ weigh (λ _. 1) ss
    weigh_pos [] e = cc
    weigh_pos (s ∷ ss) e = omega arith

-- The channel with a descriptor under its new cookie at the end of the pending list.
abbrev pub enqueued : Platform → TxDesc → Chan → Chan
enqueued p d c = record c {
  cookies = (p.dma_cookie_assign c.cookies).1;
  pending_list =
      linked (u32 d.phys) c.pending_list
      ++ record d { cookie = (p.dma_cookie_assign c.cookies).0 } ∷ [];
  desc_pendingcount = c.desc_pendingcount + 1;
  cyclic = if d.cyclic then true else c.cyclic;
}

-- With room in the counter, a submission succeeds.
pub enqueue_lem :
    (p : Platform) (d : TxDesc) (c : Chan)
    → All HasSegments c.pending_list
    → c.desc_pendingcount < num_descs
    → enqueue p d c ≡ ok (code (p.dma_cookie_assign c.cookies).0, enqueued p d c)
unfolding enqueue append_desc_queue
enqueue_lem p d c h room = elim (Bool-cases d.cyclic) [
  | inl is_cyclic ↦ ground (arith, link_tail_lem (u32 d.phys) c.pending_list h)
  | inr plain ↦ ground (arith, link_tail_lem (u32 d.phys) c.pending_list h)
]
