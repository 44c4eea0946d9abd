-- ===== src/Vxdma/Segment.antt =====
-- vxdma/vxdma.c, descriptors and segments alloc and free: the pool of hardware segments, and the
-- transaction descriptors that hold segments of it.
use petalinux_driver.Prelude.{
  ℕ, zero, suc, ◌+◌, ◌*◌, ◌%◌, false, List, [], ◌∷◌, ◌++◌, Option, none, some, bit_or,
  if◌then◌else◌,
}
use petalinux_driver.Kernel.{
  Direction, allocated_desc, freed_desc, allocated_segments, freed_segments, Platform, Code, code,
  neg, enomem,
}
use petalinux_driver.Vxdma.Chan.{
  HwDesc, Segment, TxDesc, Chan, u32, upper_32_bits, num_descs, irq_all_mask, reg_control,
  dma_ctrl_write,
}

-- `none` is the NULL of an empty free list.
unfoldable pub alloc_tx_segment : Chan → Option (Segment × Chan)
alloc_tx_segment c = elim c.free_seg_list [
  | [] ↦ none
  | segment ∷ rest ↦ some (segment, record c { free_seg_list = rest })
]

-- The memset, with the two links put back.
pub clean_hw_desc : HwDesc → HwDesc
clean_hw_desc hw = record {
  next_desc = hw.next_desc;
  next_desc_msb = hw.next_desc_msb;
  buf_addr = 0;
  buf_addr_msb = 0;
  pad1 = 0;
  pad2 = 0;
  control = 0;
  status = 0;
  app = 0 ∷ 0 ∷ 0 ∷ 0 ∷ 0 ∷ [];
}

unfoldable pub free_tx_segment : Chan → Segment → Chan
unfolding clean_hw_desc
free_tx_segment c segment = record c {
  free_seg_list = c.free_seg_list ++ record segment { hw = clean_hw_desc segment.hw } ∷ [];
}

-- A zeroed descriptor; `direction` is what every caller sets first.
abbrev pub blank_desc : Direction → TxDesc
blank_desc direction = record {
  cookie = 0;
  phys = 0;
  callback = none;
  segments = [];
  direction = direction;
  cyclic = false;
}

-- kzalloc of the descriptor.
unfoldable pub alloc_tx_descriptor : Platform → Direction → Chan → Option (TxDesc × Chan)
alloc_tx_descriptor p direction c =
    if p.kzalloc_fails c.trace
    then none
    else some (blank_desc direction, record c { trace = allocated_desc ∷ c.trace })

-- The loop over `desc->segments`.
unfoldable pub free_segments : Chan → List Segment → Chan
free_segments c [] = c
free_segments c (segment ∷ rest) = free_segments (free_tx_segment c segment) rest

unfoldable pub free_tx_descriptor : Chan → Option TxDesc → Chan
free_tx_descriptor c none = c
free_tx_descriptor c (some desc) =
    let c' = free_segments c desc.segments in record c' { trace = freed_desc ∷ c'.trace }

-- sizeof(struct xilinx_dma_tx_segment): a 64-byte hardware part, a list node and an address, in a
-- structure aligned to 64 bytes.
abbrev pub segment_size : ℕ
segment_size = 128

-- Segment `i` of the array, linked to the one behind it and the last to the first. The array is
-- zeroed memory.
unfoldable pub init_segment : Platform → ℕ → ℕ → Segment
init_segment p seg_p i =
    let next = seg_p + segment_size * ((i + 1) % num_descs) in
    record {
      hw = record {
        next_desc = u32 next;
        next_desc_msb = if p.phys_addr_64 then upper_32_bits next else 0;
        buf_addr = 0;
        buf_addr_msb = 0;
        pad1 = 0;
        pad2 = 0;
        control = 0;
        status = 0;
        app = 0 ∷ 0 ∷ 0 ∷ 0 ∷ 0 ∷ [];
      };
      phys = seg_p + segment_size * i;
    }

-- The loop over the array: `n` rounds from `i`.
unfoldable pub init_segments : Platform → ℕ → ℕ → ℕ → Chan → Chan
init_segments p seg_p zero i c = c
init_segments p seg_p (suc n) i c =
    init_segments p seg_p n (i + 1)
      (record c { free_seg_list = c.free_seg_list ++ init_segment p seg_p i ∷ [] })

unfoldable pub alloc_chan_resources : Platform → Chan → Code × Chan
alloc_chan_resources p c = elim (p.dma_zalloc_coherent c.trace) [
  | none ↦ (neg enomem, c)
  | some seg_p ↦
      let c₁ = record c { seg_p = seg_p; trace = allocated_segments ∷ c.trace } in
      let c₂ = init_segments p seg_p num_descs 0 c₁ in
      let c₃ = record c₂ {
        cookies = p.dma_cookie_init c₂.cookies;
        ctrl_reg = bit_or c₂.ctrl_reg irq_all_mask;
      } in
      (code 0, dma_ctrl_write reg_control c₃.ctrl_reg c₃)
]

-- The loop over one of the channel's lists, which the caller empties. Each descriptor is unlinked
-- before it is freed.
unfoldable pub free_descs : Chan → List TxDesc → Chan
free_descs c [] = c
free_descs c (desc ∷ rest) = free_descs (free_tx_descriptor c (some desc)) rest

unfoldable pub free_descriptors : Chan → Chan
free_descriptors c =
    let c₁ = free_descs (record c { pending_list = [] }) c.pending_list in
    let c₂ = free_descs (record c₁ { done_list = [] }) c₁.done_list in
    free_descs (record c₂ { active_list = [] }) c₂.active_list

unfoldable pub free_chan_resources : Chan → Chan
free_chan_resources c =
    let c' = free_descriptors c in
    record c' { free_seg_list = []; trace = freed_segments ∷ c'.trace }
