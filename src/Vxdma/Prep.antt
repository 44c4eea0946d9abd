-- ===== src/Vxdma/Prep.antt =====
-- vxdma/vxdma.c, the descriptors of a scatterlist and of a cyclic buffer, cut to the size that one
-- segment can hold. `size_t` arithmetic does not wrap here: a length is below 2 ^ 32.
pub mod Draw
pub mod Balance
pub mod Tiling
pub mod Total
pub mod Cyclic
pub mod Plain
pub mod Residue
pub mod Reference
pub mod Fits
use petalinux_driver.Prelude.{
  ℕ, zero, suc, ◌+◌, ◌-◌, ◌*◌, ◌/◌, Bool, true, false, List, [], ◌∷◌, ◌++◌, Option, none, some,
  bit_or, min, ltb, if◌then◌else◌, head?, map_head, map_last, length,
}
use petalinux_driver.Kernel.{
  Direction, dma_mem_to_dev, dma_dev_to_mem, other_direction, Platform, Result, ok, fault, Fault,
  ◌>>=◌, entry,
}
use petalinux_driver.Vxdma.Chan.{
  Segment, TxDesc, Chan, u32, upper_32_bits, reg_control, cr_cyclic_bd_en_mask, bd_sop, bd_eop,
  max_trans_len, dma_ctrl_write,
}
use petalinux_driver.Vxdma.Segment.{alloc_tx_segment, alloc_tx_descriptor, free_tx_descriptor}

-- What fills the segments of one stretch of memory: the app words are NULL or the client's.
pub record Request : Type 0 where
  pub phys_addr_64 : Bool
  pub direction : Direction
  pub app_w : Option (List ℕ)

is_mem_to_dev : Direction → Bool
is_mem_to_dev dma_mem_to_dev = true
is_mem_to_dev dma_dev_to_mem = false
is_mem_to_dev other_direction = false

app_words : Request → List ℕ → List ℕ
unfolding is_mem_to_dev
app_words r old = elim r.app_w [
  | none ↦ old
  | some words ↦ if is_mem_to_dev r.direction then words else old
]

-- The descriptor's buffer and length.
pub fill_segment : Request → (addr copy : ℕ) → Segment → Segment
unfolding app_words
fill_segment r addr copy s = record s {
  hw = record (s.hw) {
    buf_addr = u32 addr;
    buf_addr_msb = if r.phys_addr_64 then upper_32_bits addr else s.hw.buf_addr_msb;
    control = copy;
    app = app_words r s.hw.app;
  };
}

-- A stretch is filled, or the pool ran out; the segments taken so far are kept in both cases.
pub data Fill : Type 0 where
  filled starved : List Segment → Chan → Fill

-- The `while` loop over one stretch `(addr, len)`, of which `used` bytes are done.
unfoldable pub fill : ℕ → Request → (addr len used : ℕ) → List Segment → Chan → Result Fill
fill zero r addr len used segments c = fault Fault.out_of_fuel
fill (suc fuel) r addr len used segments c = elim (ltb used len) [
  | false ↦ ok (filled segments c)
  | true ↦ elim (alloc_tx_segment c) [
    | none ↦ ok (starved segments c)
    | some (segment, c') ↦
        fill fuel r addr len (used + min (len - used) max_trans_len)
          (segments ++ fill_segment r (addr + used) (min (len - used) max_trans_len) segment ∷ [])
          c'
  ]
]

-- Each round but the last takes a segment of the pool.
abbrev pub fill_fuel : Chan → ℕ
fill_fuel c = suc (suc (length c.free_seg_list))

-- A pool that ran out ends the loops outside too.
abbrev pub and_then : Fill → (List Segment → Chan → Result Fill) → Result Fill
and_then (starved taken c) next = ok (starved taken c)
and_then (filled taken c) next = next taken c

-- The loop over the scatterlist, of pairs of an address and a length.
pub fill_all : Request → List (ℕ × ℕ) → List Segment → Chan → Result Fill
fill_all r [] segments c = ok (filled segments c)
fill_all r ((addr, len) ∷ rest) segments c = fill (fill_fuel c) r addr len 0 segments c >>= λ done.
    and_then done (λ taken c'. fill_all r rest taken c')

abbrev pub set_control : ℕ → Segment → Segment
set_control mask s = record s { hw = record (s.hw) { control = bit_or (s.hw.control) mask } }

-- Start and end of packet, on the first and the last segment.
pub mark_packet : Direction → List Segment → List Segment
unfolding is_mem_to_dev
mark_packet direction segments =
    if is_mem_to_dev direction
    then map_last (set_control bd_eop) (map_head (set_control bd_sop) segments)
    else segments

-- The end of both functions; the first segment is taken without a test that there is one.
unfoldable pub finish_desc : TxDesc → List Segment → Chan → Result (Option TxDesc × Chan)
finish_desc desc segments c = do
  first ← entry (head? segments)
  ok (some (record desc { segments = mark_packet desc.direction segments; phys = first.phys }), c)

-- The label `error`.
pub give_up : TxDesc → List Segment → Chan → Result (Option TxDesc × Chan)
give_up desc segments c =
    ok (none, free_tx_descriptor c (some (record desc { segments = segments })))

-- The end of the loops of a scatterlist.
pub close_slave : TxDesc → Fill → Result (Option TxDesc × Chan)
close_slave desc (starved segments c) = give_up desc segments c
close_slave desc (filled segments c) = finish_desc desc segments c

abbrev pub slave_request : Platform → Direction → Option (List ℕ) → Request
slave_request p direction context = record {
  phys_addr_64 = p.phys_addr_64;
  direction = direction;
  app_w = context;
}

pub prep_slave_sg :
    Platform → List (ℕ × ℕ) → Direction → Option (List ℕ) → Chan → Result (Option TxDesc × Chan)
prep_slave_sg p sgl direction context c =
    if p.is_slave_direction direction
    then elim (alloc_tx_descriptor p direction c) [
      | none ↦ ok (none, c)
      | some (desc, c') ↦ do
        done ← fill_all (slave_request p direction context) sgl [] c'
        close_slave desc done
    ]
    else ok (none, c)

-- Period `i` and those behind it, `n` of them.
unfoldable pub fill_periods :
    ℕ → Request → (buf_addr period_len i : ℕ) → List Segment → Chan → Result Fill
fill_periods zero r buf_addr period_len i segments c = ok (filled segments c)
fill_periods (suc n) r buf_addr period_len i segments c =
    fill (fill_fuel c) r (buf_addr + period_len * i) period_len 0 segments c >>= λ done.
    and_then done (λ taken c'. fill_periods n r buf_addr period_len (i + 1) taken c')

-- A cyclic descriptor turns the engine's cyclic mode on when it is prepared.
unfoldable pub finish_cyclic : TxDesc → List Segment → Chan → Result (Option TxDesc × Chan)
finish_cyclic desc segments c =
    let c' = record c { ctrl_reg = bit_or c.ctrl_reg cr_cyclic_bd_en_mask } in
    finish_desc (record desc { cyclic = true }) segments (dma_ctrl_write reg_control c'.ctrl_reg c')

-- The end of the loops of a cyclic buffer.
unfoldable pub close_cyclic : TxDesc → Fill → Result (Option TxDesc × Chan)
close_cyclic desc (starved segments c) = give_up desc segments c
close_cyclic desc (filled segments c) = finish_cyclic desc segments c

-- The division comes before any test. A cyclic buffer has no app words.
unfoldable pub prep_dma_cyclic :
    Platform → (buf_addr buf_len period_len : ℕ) → Direction → Chan → Result (Option TxDesc × Chan)
prep_dma_cyclic p buf_addr buf_len zero direction c = fault Fault.div_by_zero
prep_dma_cyclic p buf_addr buf_len (suc period) direction c =
    if p.is_slave_direction direction
    then elim (alloc_tx_descriptor p direction c) [
      | none ↦ ok (none, c)
      | some (desc, c') ↦ do
        done ←
            fill_periods (u32 (buf_len / suc period)) (slave_request p direction none) buf_addr
              (suc period) 0 [] c'
        close_cyclic desc done
    ]
    else ok (none, c)
