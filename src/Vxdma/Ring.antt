-- ===== src/Vxdma/Ring.antt =====
-- vxdma/vxdma.c, `xilinx_dma_alloc_chan_resources`: the array of segments as the hardware walks it,
-- and the channel that the client starts with.
use petalinux_driver.Prelude.{
  ℕ, zero, suc, ◌+◌, ◌*◌, ◌%◌, ◌<◌, ◌≡◌, refl, ap, sym, ◌∙◌, subst, List, [], ◌∷◌, ◌++◌,
  append_assoc, append-nil, get_elem?, All, some, bit_or, arith,
}
use petalinux_driver.Kernel.{Platform, Code, code, allocated_segments}
use petalinux_driver.Vxdma.Chan.{
  Segment, Chan, u32, num_descs, irq_all_mask, reg_control, dma_ctrl_write,
}
use petalinux_driver.Vxdma.Segment.{segment_size, init_segment, init_segments, alloc_chan_resources}
use petalinux_driver.Vxdma.Pool.{weigh, weigh_chan}
use petalinux_driver.Vxdma.Engine.Total.{HasSegments}
use petalinux_driver.Vxdma.Invariant.{Inv}

-- `n` segments of the array from `i`.
ring : Platform → ℕ → ℕ → ℕ → List Segment
ring p seg_p zero i = []
ring p seg_p (suc n) i = init_segment p seg_p i ∷ ring p seg_p n (i + 1)

init_segments_lem :
    (p : Platform) (seg_p n i : ℕ) (c : Chan)
    → init_segments p seg_p n i c ≡ record c { free_seg_list = c.free_seg_list ++ ring p seg_p n i }
unfolding init_segments ring
init_segments_lem p seg_p zero i c = ground (arith, append-nil c.free_seg_list)
init_segments_lem p seg_p (suc n) i c =
    init_segments_lem p seg_p n (i + 1)
      (record c { free_seg_list = c.free_seg_list ++ init_segment p seg_p i ∷ [] })
    ∙ ap (λ l. record c { free_seg_list = l })
        (append_assoc c.free_seg_list (init_segment p seg_p i ∷ []) (ring p seg_p n (i + 1)))

get_elem?-ring :
    (p : Platform) (seg_p n i k : ℕ)
    → k < n
    → get_elem? (ring p seg_p n i) k ≡ some (init_segment p seg_p (i + k))
unfolding ring
get_elem?-ring p seg_p zero i k h = absurd (omega arith)
get_elem?-ring p seg_p (suc n) i zero h =
    ap (λ (x : ℕ). some (init_segment p seg_p x)) (omega arith)
get_elem?-ring p seg_p (suc n) i (suc k) h =
    get_elem?-ring p seg_p n (i + 1) k (omega arith)
    ∙ ap (λ (x : ℕ). some (init_segment p seg_p x)) (omega arith)

weigh-ring : (p : Platform) (seg_p n i : ℕ) → weigh (λ _. 1) (ring p seg_p n i) ≡ n
unfolding ring
weigh-ring p seg_p zero i = refl
weigh-ring p seg_p (suc n) i = omega (arith, weigh-ring p seg_p n (i + 1))

-- The segment behind segment `k` of the array, round the end.
abbrev pub successor : ℕ → ℕ
successor k = (k + 1) % num_descs

abbrev allocated : Platform → ℕ → Chan → Chan
allocated p seg_p c =
    let c' = record c {
      seg_p = seg_p;
      free_seg_list = c.free_seg_list ++ ring p seg_p num_descs 0;
      cookies = p.dma_cookie_init c.cookies;
      ctrl_reg = bit_or c.ctrl_reg irq_all_mask;
      trace = allocated_segments ∷ c.trace;
    } in
    dma_ctrl_write reg_control c'.ctrl_reg c'

alloc_chan_resources_lem :
    (p : Platform) (c : Chan) (seg_p : ℕ)
    → p.dma_zalloc_coherent c.trace ≡ some seg_p
    → alloc_chan_resources p c ≡ (code 0, allocated p seg_p c)
unfolding alloc_chan_resources
alloc_chan_resources_lem p c seg_p e =
    rw (e, alloc_chan_resources)
      (ap
        (λ (x : Chan). (
          code 0,
          dma_ctrl_write reg_control (bit_or x.ctrl_reg irq_all_mask) (record x {
            cookies = p.dma_cookie_init x.cookies;
            ctrl_reg = bit_or x.ctrl_reg irq_all_mask;
          }),
        ))
        (init_segments_lem p seg_p num_descs 0
          (record c { seg_p = seg_p; trace = allocated_segments ∷ c.trace })))

-- The allocation leaves the lists of descriptors as they are.
pub alloc_chan_resources_frame :
    (p : Platform) (c : Chan) (seg_p : ℕ)
    → p.dma_zalloc_coherent c.trace ≡ some seg_p
    → let c' = (alloc_chan_resources p c).1 in
      (c'.pending_list ≡ c.pending_list)
      × (c'.active_list ≡ c.active_list)
      × (c'.done_list ≡ c.done_list)
unfolding dma_ctrl_write
alloc_chan_resources_frame p c seg_p e =
    let h = alloc_chan_resources_lem p c seg_p e in
    (
      ap (λ (x : Code × Chan). x.1.pending_list) h,
      ap (λ (x : Code × Chan). x.1.active_list) h,
      ap (λ (x : Code × Chan). x.1.done_list) h,
    )

-- If the memory for the array is there, and the channel had no free segment, then after the
-- allocation the free list holds at each place a segment with its address in the array, whose link
-- is the address, modulo 2 ^ 32, of the segment behind it, and of the first for the last.
pub alloc_chan_resources_ring :
    (p : Platform) (c : Chan) (seg_p k : ℕ)
    → p.dma_zalloc_coherent c.trace ≡ some seg_p
    → c.free_seg_list ≡ []
    → k < num_descs
    → let pool = (alloc_chan_resources p c).1.free_seg_list in
      (s : Segment) × (t : Segment) × (get_elem? pool k ≡ some s)
      × (get_elem? pool (successor k) ≡ some t)
      × (s.phys ≡ seg_p + segment_size * k)
      × (s.hw.next_desc ≡ u32 t.phys)
unfolding init_segment dma_ctrl_write
alloc_chan_resources_ring p c seg_p k e empty h =
    let pool : (alloc_chan_resources p c).1.free_seg_list ≡ ring p seg_p num_descs 0 =
      ap (λ (x : Code × Chan). x.1.free_seg_list) (alloc_chan_resources_lem p c seg_p e)
      ∙ ap (λ (l : List Segment). l ++ ring p seg_p num_descs 0) empty in
    (
      init_segment p seg_p k,
      init_segment p seg_p (successor k),
      ap (λ (l : List Segment). get_elem? l k) pool
          ∙ get_elem?-ring p seg_p num_descs 0 k h
          ∙ ap (λ (x : ℕ). some (init_segment p seg_p x)) (omega arith),
      ap (λ (l : List Segment). get_elem? l (successor k)) pool
          ∙ get_elem?-ring p seg_p num_descs 0 (successor k) (omega arith)
          ∙ ap (λ (x : ℕ). some (init_segment p seg_p x)) (omega arith),
      refl,
      refl,
    )

-- If the memory for the array is there, the allocation of a channel with empty lists and a counter
-- of pending descriptors of 0 gives a channel that satisfies the invariant.
pub alloc_chan_resources-Inv :
    (p : Platform) (c : Chan) (seg_p : ℕ)
    → p.dma_zalloc_coherent c.trace ≡ some seg_p
    → c.free_seg_list ≡ []
    → c.pending_list ≡ []
    → c.active_list ≡ []
    → c.done_list ≡ []
    → c.desc_pendingcount ≡ 0
    → Inv (alloc_chan_resources p c).1
unfolding weigh_chan dma_ctrl_write
alloc_chan_resources-Inv p c seg_p e f pe ac dn n =
    subst Inv (ap (λ (x : Code × Chan). x.1) (sym (alloc_chan_resources_lem p c seg_p e))) (record {
      held = subst (All HasSegments) (sym pe) tt;
      counted = ground arith;
      pool = ground (arith, weigh-ring p seg_p num_descs 0);
      resting = λ i. ac;
    })
