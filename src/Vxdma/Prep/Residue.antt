-- ===== src/Vxdma/Prep/Residue.antt =====
-- vxdma/vxdma.c, `xilinx_dma_tx_status` on a descriptor that the engine has not touched.
use petalinux_driver.Prelude.{
  ℕ, zero, suc, ◌+◌, ◌-◌, ◌*◌, ◌/◌, ◌%◌, ◌^◌, ◌≤◌, ◌<◌, ◌≡◌, refl, sym, ap, ◌∙◌, subst, List, [],
  ◌∷◌, ◌++◌, All, All-append, map_head, map_last, bit_and, bit_or, arith,
}
use petalinux_driver.Prelude.Bits.{
  bit_and-parts, bit_or-parts, bit_and-ones, bit_and-no_ones, bit_or-no_ones,
}
use petalinux_driver.Kernel.{Direction, dma_mem_to_dev, dma_dev_to_mem, other_direction, ok}
use petalinux_driver.Vxdma.Chan.{Segment, Chan, u32, max_trans_len, bd_sop, bd_eop}
use petalinux_driver.Vxdma.Queue.{add_residue}
use petalinux_driver.Vxdma.Prep.{
  Request, filled, fill, fill_segment, set_control, mark_packet, is_mem_to_dev,
}
use petalinux_driver.Vxdma.Prep.Draw.{ended, dry, round, fill_cases, piece}
use petalinux_driver.Vxdma.Prep.Tiling.{Covers, fill-Tiles}

-- The engine has reported nothing on a segment.
abbrev pub IsClean : Segment → Type 0
IsClean s = s.hw.status ≡ 0

bit_and-length : (n : ℕ) → bit_and (u32 n) max_trans_len ≡ n % 2 ^ 23
bit_and-length n =
    let low = n % 2 ^ 23 in
    let high = u32 n / 2 ^ 23 in
    ap (λ (x : ℕ). bit_and x max_trans_len) (omega arith)
    ∙ bit_and-parts 23 high 0 low (2 ^ 23 - 1) (omega arith) (omega arith)
    ∙ omega (arith, bit_and-no_ones 9 high (omega arith), bit_and-ones 23 low (omega arith))

left_lem :
    (s : Segment)
    → IsClean s
    → bit_and (u32 (s.hw.control + 2 ^ 32 - s.hw.status)) max_trans_len ≡ s.hw.control % 2 ^ 23
left_lem s h = bit_and-length (s.hw.control + 2 ^ 32 - s.hw.status) ∙ omega arith

bit_or-mask : (n m : ℕ) → bit_or n (m * 2 ^ 23) % 2 ^ 23 ≡ n % 2 ^ 23
bit_or-mask n m =
    let low = n % 2 ^ 23 in
    let apart : bit_or n (m * 2 ^ 23) ≡ bit_or (n / 2 ^ 23 * 2 ^ 23 + low) (m * 2 ^ 23 + 0) =
      ap (λ (x : ℕ). bit_or x (m * 2 ^ 23)) (omega arith)
      ∙ ap (λ (x : ℕ). bit_or (n / 2 ^ 23 * 2 ^ 23 + low) x) (omega arith) in
    let parts = bit_or-parts 23 (n / 2 ^ 23) m low 0 (omega arith) (omega arith) in
    omega (arith, apart, parts, bit_or-no_ones 23 low (omega arith))

-- The residue by the lengths alone.
lengths : ℕ → List Segment → ℕ
lengths residue [] = residue
lengths residue (s ∷ ss) = lengths (u32 (residue + s.hw.control % 2 ^ 23)) ss

add_residue-lengths :
    (residue : ℕ) (ss : List Segment) → All IsClean ss → add_residue residue ss ≡ lengths residue ss
unfolding add_residue lengths
add_residue-lengths residue [] h = refl
add_residue-lengths residue (s ∷ ss) h =
    ap (λ (x : ℕ). add_residue (u32 (residue + x)) ss) (left_lem s h.0)
    ∙ add_residue-lengths (u32 (residue + s.hw.control % 2 ^ 23)) ss h.1

lengths-map_head :
    (m residue : ℕ) (ss : List Segment)
    → lengths residue (map_head (set_control (m * 2 ^ 23)) ss) ≡ lengths residue ss
unfolding lengths
lengths-map_head m residue [] = refl
lengths-map_head m residue (s ∷ ss) =
    ap (λ (x : ℕ). lengths (u32 (residue + x)) ss) (bit_or-mask s.hw.control m)

lengths-map_last :
    (m residue : ℕ) (ss : List Segment)
    → lengths residue (map_last (set_control (m * 2 ^ 23)) ss) ≡ lengths residue ss
unfolding lengths
lengths-map_last m residue [] = refl
lengths-map_last m residue (s ∷ []) = ap (λ (x : ℕ). u32 (residue + x)) (bit_or-mask s.hw.control m)
lengths-map_last m residue (s ∷ t ∷ ss) =
    lengths-map_last m (u32 (residue + s.hw.control % 2 ^ 23)) (t ∷ ss)

lengths-mark_packet :
    (d : Direction) (residue : ℕ) (ss : List Segment)
    → lengths residue (mark_packet d ss) ≡ lengths residue ss
unfolding mark_packet is_mem_to_dev
lengths-mark_packet dma_mem_to_dev residue ss =
    lengths-map_last 8 residue (map_head (set_control bd_sop) ss) ∙ lengths-map_head 16 residue ss
lengths-mark_packet dma_dev_to_mem residue ss = refl
lengths-mark_packet other_direction residue ss = refl

mark_packet-IsClean :
    (d : Direction) (ss : List Segment) → All IsClean ss → All IsClean (mark_packet d ss)
unfolding mark_packet is_mem_to_dev
mark_packet-IsClean dma_dev_to_mem ss h = h
mark_packet-IsClean other_direction ss h = h
mark_packet-IsClean dma_mem_to_dev [] h = h
mark_packet-IsClean dma_mem_to_dev (s ∷ ss) h = tail_clean (set_control bd_sop s ∷ ss) (h.0, h.1)
  where
    tail_clean : (l : List Segment) → All IsClean l → All IsClean (map_last (set_control bd_eop) l)
    tail_clean [] k = k
    tail_clean (x ∷ []) k = k
    tail_clean (x ∷ y ∷ l) k = (k.0, tail_clean (y ∷ l) k.1)

lengths-Covers :
    (addr len used residue : ℕ) (ss : List Segment)
    → Covers addr len used ss
    → residue + len < 2 ^ 32 + used
    → used ≤ len
    → lengths residue ss ≡ residue + (len - used)
unfolding lengths
lengths-Covers addr len used residue [] h k l = omega (arith, h)
lengths-Covers addr len used residue (s ∷ ss) (_, pos, top, fits, rest) k l =
    let more : u32 (residue + s.hw.control % 2 ^ 23) ≡ residue + s.hw.control = omega arith in
    ap (λ (x : ℕ). lengths x ss) more
    ∙ lengths-Covers addr len (used + s.hw.control) (residue + s.hw.control) ss rest (omega arith)
        fits
    ∙ omega arith

fill-IsClean :
    (fuel : ℕ) (r : Request) (addr len used : ℕ) (segments ss : List Segment) (c c' : Chan)
    → All IsClean c.free_seg_list
    → All IsClean segments
    → fill fuel r addr len used segments c ≡ ok (filled ss c')
    → All IsClean ss
unfolding fill fill_segment
fill-IsClean zero r addr len used segments ss c c' h k e = cc
fill-IsClean (suc fuel) r addr len used segments ss c c' h k e =
    elim (fill_cases fuel r addr len used segments c (filled ss c') e) [
      | ended over q ↦ let same : segments ≡ ss = cc in subst (All IsClean) same k
      | dry more empty q ↦ cc
      | round s rest more q next ↦
          let pool : All IsClean (s ∷ rest) = subst (All IsClean) q h in
          let x = fill_segment r (addr + used) (piece len used) s in
          fill-IsClean fuel r addr len (used + piece len used) (segments ++ x ∷ []) ss
            (record c { free_seg_list = rest }) c' pool.1
            (All-append IsClean segments (x ∷ []) k (pool.0, tt)) next
    ]

-- If the engine has reported nothing on the free segments, and a stretch of less than 2 ^ 32 bytes
-- is filled with segments of the pool, then the residue that is computed from these segments, with
-- the marks of start and end of packet where the direction asks for them, is the length of the
-- stretch.
pub add_residue-fill :
    (fuel : ℕ) (r : Request) (addr len : ℕ) (ss : List Segment) (c c' : Chan) (d : Direction)
    → All IsClean c.free_seg_list
    → len < 2 ^ 32
    → fill fuel r addr len 0 [] c ≡ ok (filled ss c')
    → add_residue 0 (mark_packet d ss) ≡ len
add_residue-fill fuel r addr len ss c c' d h k e =
    let (new, same, covers) = fill-Tiles fuel r addr len 0 [] c (filled ss c') (omega arith) e in
    add_residue-lengths 0 (mark_packet d ss)
      (mark_packet-IsClean d ss (fill-IsClean fuel r addr len 0 [] ss c c' h tt e))
    ∙ lengths-mark_packet d 0 ss
    ∙ lengths-Covers addr len 0 0 ss (subst (Covers addr len 0) (sym same) covers) (omega arith)
        (omega arith)
    ∙ omega arith
