-- ===== src/Vxdma/Prep/Balance.antt =====
-- vxdma/vxdma.c, the balance of the two preparations: the segments of the new descriptor and those
-- that are free.
use petalinux_driver.Prelude.{
  ℕ, zero, suc, ◌+◌, ◌/◌, ◌≡◌, refl, sym, subst, List, [], ◌∷◌, map, false, Option, none, some,
  is_empty, map_head, map_last, Bool-cases, inl, inr, arith,
}
use petalinux_driver.Kernel.{
  Direction, Platform, ok, allocated_desc, ◌>>=◌, >>=-eq-ok, ok-injective,
}
use petalinux_driver.Vxdma.Chan.{u32, Segment, TxDesc, Chan, bd_sop, bd_eop, dma_ctrl_write}
use petalinux_driver.Vxdma.Segment.{alloc_tx_descriptor, blank_desc, free_tx_descriptor}
use petalinux_driver.Vxdma.Pool.{
  weigh, weigh-append, weigh-map-clean, clean_segment, free_segments_lem,
}
use petalinux_driver.Vxdma.Engine.Total.{HasSegments}
use petalinux_driver.Vxdma.Prep.{
  Fill, filled, starved, fill_all, fill_periods, set_control, mark_packet, finish_desc,
  finish_cyclic, give_up, close_slave, close_cyclic, slave_request, prep_slave_sg, prep_dma_cyclic,
}
use petalinux_driver.Vxdma.Prep.Draw.{Draws, fill_all-Draws, fill_periods-Draws}

module _ (f : ℕ → ℕ) where
  weigh-map_head : (m : ℕ) (ss : List Segment) → weigh f (map_head (set_control m) ss) ≡ weigh f ss
  weigh-map_head m [] = refl
  weigh-map_head m (s ∷ ss) = refl

  weigh-map_last : (m : ℕ) (ss : List Segment) → weigh f (map_last (set_control m) ss) ≡ weigh f ss
  weigh-map_last m [] = refl
  weigh-map_last m (s ∷ []) = refl
  weigh-map_last m (s ∷ t ∷ ss) = omega (arith, weigh-map_last m (t ∷ ss))

  weigh-mark_packet : (d : Direction) (ss : List Segment) → weigh f (mark_packet d ss) ≡ weigh f ss
  unfolding mark_packet
  weigh-mark_packet d ss =
      ground
        (arith, weigh-map_last bd_eop (map_head (set_control bd_sop) ss), weigh-map_head bd_sop ss)

-- A descriptor that is handed out, weighed by its segments.
abbrev pub weigh_held : (ℕ → ℕ) → Option TxDesc → ℕ
weigh_held f none = 0
weigh_held f (some d) = weigh f d.segments

abbrev pub HeldSegments : Option TxDesc → Type 0
HeldSegments none = Unit {0}
HeldSegments (some d) = HasSegments d

-- The outcome of a preparation from channel `c`: what is held and what is free weigh what was free,
-- and only the pool, the control register and the history differ.
pub record Prepared (f : ℕ → ℕ) (c : Chan) (held : Option TxDesc) (c' : Chan) : Type 0 where
  pub frame :
      c' ≡ record c { ctrl_reg = c'.ctrl_reg; free_seg_list = c'.free_seg_list; trace = c'.trace }
  pub weight : weigh_held f held + weigh f c'.free_seg_list ≡ weigh f c.free_seg_list
  pub nonempty : HeldSegments held

mark_packet-nonempty :
    (d : Direction) (ss : List Segment) → is_empty ss ≡ false → is_empty (mark_packet d ss) ≡ false
unfolding mark_packet
mark_packet-nonempty d [] h = cc
mark_packet-nonempty d (s ∷ []) h = ground arith
mark_packet-nonempty d (s ∷ t ∷ ss) h = ground arith

module _ (f : ℕ → ℕ) (c : Chan) where
  finish_desc-Prepared :
      (desc : TxDesc) (ss : List Segment) (c₁ c' : Chan) (held : Option TxDesc)
      → c₁ ≡ record c { ctrl_reg = c₁.ctrl_reg; free_seg_list = c₁.free_seg_list; trace = c₁.trace }
      → weigh f ss + weigh f c₁.free_seg_list ≡ weigh f c.free_seg_list
      → finish_desc desc ss c₁ ≡ ok (held, c')
      → Prepared f c held c'
  unfolding finish_desc
  finish_desc-Prepared desc [] c₁ c' held u w h = cc
  finish_desc-Prepared desc (s ∷ ss) c₁ c' held u w h =
      let marked = mark_packet desc.direction (s ∷ ss) in
      let d : TxDesc = record desc { segments = marked; phys = s.phys } in
      subst (λ (r : Option TxDesc × Chan). Prepared f c r.0 r.1) (ok-injective h)
        (record {
          frame = u;
          weight = omega (arith, weigh-mark_packet f desc.direction (s ∷ ss));
          nonempty = mark_packet-nonempty desc.direction (s ∷ ss) refl;
        })

  give_up-Prepared :
      (desc : TxDesc) (ss : List Segment) (c₁ c' : Chan) (held : Option TxDesc)
      → c₁ ≡ record c { free_seg_list = c₁.free_seg_list; trace = c₁.trace }
      → weigh f ss + weigh f c₁.free_seg_list ≡ weigh f c.free_seg_list
      → give_up desc ss c₁ ≡ ok (held, c')
      → Prepared f c held c'
  unfolding give_up free_tx_descriptor
  give_up-Prepared desc ss c₁ c' held u w h =
      subst (λ (r : Option TxDesc × Chan). Prepared f c r.0 r.1) (ok-injective h)
        (record {
          frame = ground (arith, free_segments_lem c₁ ss);
          weight = ground (
            arith,
            free_segments_lem c₁ ss,
            weigh-append f c₁.free_seg_list (map clean_segment ss),
            weigh-map-clean f ss,
          );
          nonempty = tt;
        })

  close_slave-Prepared :
      (desc : TxDesc) (c₁ c' : Chan) (o : Fill) (held : Option TxDesc)
      → c₁ ≡ record c { trace = c₁.trace }
      → Draws f [] c₁ o
      → close_slave desc o ≡ ok (held, c')
      → Prepared f c held c'
  unfolding close_slave
  close_slave-Prepared desc c₁ c' (filled ss c₂) held u d h =
      finish_desc-Prepared desc ss c₂ c' held (ground arith) (ground arith) h
  close_slave-Prepared desc c₁ c' (starved ss c₂) held u d h =
      give_up-Prepared desc ss c₂ c' held (ground arith) (ground arith) h

  close_cyclic-Prepared :
      (desc : TxDesc) (c₁ c' : Chan) (o : Fill) (held : Option TxDesc)
      → c₁ ≡ record c { trace = c₁.trace }
      → Draws f [] c₁ o
      → close_cyclic desc o ≡ ok (held, c')
      → Prepared f c held c'
  unfolding close_cyclic finish_cyclic dma_ctrl_write
  close_cyclic-Prepared desc c₁ c' (filled ss c₂) held u d h =
      finish_desc-Prepared _ ss _ c' held (ground arith) (ground arith) h
  close_cyclic-Prepared desc c₁ c' (starved ss c₂) held u d h =
      give_up-Prepared desc ss c₂ c' held (ground arith) (ground arith) h

  -- A preparation that gives no descriptor and touches nothing.
  none-Prepared : (r : Option TxDesc × Chan) → r ≡ (none, c) → Prepared f c r.0 r.1
  none-Prepared r e =
      subst (λ (x : Option TxDesc × Chan). Prepared f c x.0 x.1) (sym e)
        (record { frame = refl; weight = omega arith; nonempty = tt })

  pub prep_slave_sg-Prepared :
      (p : Platform) (sgl : List (ℕ × ℕ)) (direction : Direction) (context : Option (List ℕ))
      (held : Option TxDesc) (c' : Chan)
      → prep_slave_sg p sgl direction context c ≡ ok (held, c')
      → Prepared f c held c'
  unfolding prep_slave_sg alloc_tx_descriptor
  prep_slave_sg-Prepared p sgl direction context held c' h =
      elim (Bool-cases (p.is_slave_direction direction)) [
        | inr refused ↦ none-Prepared (held, c') (ground arith)
        | inl slave ↦ elim (Bool-cases (p.kzalloc_fails c.trace)) [
          | inl no_memory ↦ none-Prepared (held, c') (ground arith)
          | inr enough ↦
              let c₁ = record c { trace = allocated_desc ∷ c.trace } in
              let loops = fill_all (slave_request p direction context) sgl [] c₁ in
              let h' : (loops >>= λ done. close_slave (blank_desc direction) done) ≡ ok (held, c') =
                ground arith in
              let (o, e, rest) = >>=-eq-ok loops _ h' in
              close_slave-Prepared (blank_desc direction) c₁ c' o held refl
                (fill_all-Draws f (slave_request p direction context) sgl [] c₁ o e) rest
        ]
      ]

  -- For the preparation of a cyclic buffer: if it has a result, it changes the channel
  -- only in the free list, the control register and the history, no segment is lost or made up,
  -- and a descriptor that is given holds a segment.
  pub prep_dma_cyclic-Prepared :
      (p : Platform) (buf_addr buf_len period_len : ℕ) (direction : Direction)
      (held : Option TxDesc) (c' : Chan)
      → prep_dma_cyclic p buf_addr buf_len period_len direction c ≡ ok (held, c')
      → Prepared f c held c'
  unfolding prep_dma_cyclic alloc_tx_descriptor
  prep_dma_cyclic-Prepared p buf_addr buf_len zero direction held c' h = cc
  prep_dma_cyclic-Prepared p buf_addr buf_len (suc period) direction held c' h =
      elim (Bool-cases (p.is_slave_direction direction)) [
        | inr refused ↦ none-Prepared (held, c') (ground arith)
        | inl slave ↦ elim (Bool-cases (p.kzalloc_fails c.trace)) [
          | inl no_memory ↦ none-Prepared (held, c') (ground arith)
          | inr enough ↦
              let c₁ = record c { trace = allocated_desc ∷ c.trace } in
              let r = slave_request p direction none in
              let loops =
                fill_periods (u32 (buf_len / suc period)) r buf_addr (suc period) 0 [] c₁ in
              let h' : (loops >>= λ done. close_cyclic (blank_desc direction) done)
                  ≡ ok (held, c') =
                ground arith in
              let (o, e, rest) = >>=-eq-ok loops _ h' in
              close_cyclic-Prepared (blank_desc direction) c₁ c' o held refl
                (fill_periods-Draws f (u32 (buf_len / suc period)) r buf_addr (suc period) 0 [] c₁ o
                  e)
                rest
        ]
      ]

-- The preparation of a scatterlist leaves the control register.
close_slave-ctrl_reg :
    (f : ℕ → ℕ) (c c' : Chan) (desc : TxDesc) (o : Fill) (held : Option TxDesc)
    → Draws f [] c o
    → close_slave desc o ≡ ok (held, c')
    → c'.ctrl_reg ≡ c.ctrl_reg
unfolding close_slave finish_desc give_up free_tx_descriptor
close_slave-ctrl_reg f c c' desc (filled [] c₂) held d h = cc
close_slave-ctrl_reg f c c' desc (filled (s ∷ ss) c₂) held d h = ground arith
close_slave-ctrl_reg f c c' desc (starved ss c₂) held d h = ground (arith, free_segments_lem c₂ ss)

prep_slave_sg-ctrl_reg :
    (c : Chan) (p : Platform) (sgl : List (ℕ × ℕ)) (direction : Direction)
    (context : Option (List ℕ)) (held : Option TxDesc) (c' : Chan)
    → prep_slave_sg p sgl direction context c ≡ ok (held, c')
    → c'.ctrl_reg ≡ c.ctrl_reg
unfolding prep_slave_sg alloc_tx_descriptor
prep_slave_sg-ctrl_reg c p sgl direction context held c' h =
    elim (Bool-cases (p.is_slave_direction direction)) [
      | inr refused ↦ ground arith
      | inl slave ↦ elim (Bool-cases (p.kzalloc_fails c.trace)) [
        | inl no_memory ↦ ground arith
        | inr enough ↦
            let c₁ = record c { trace = allocated_desc ∷ c.trace } in
            let loops = fill_all (slave_request p direction context) sgl [] c₁ in
            let h' : (loops >>= λ done. close_slave (blank_desc direction) done) ≡ ok (held, c') =
              ground arith in
            let (o, e, rest) = >>=-eq-ok loops _ h' in
            close_slave-ctrl_reg (λ _. 1) c₁ c' (blank_desc direction) o held
              (fill_all-Draws (λ _. 1) (slave_request p direction context) sgl [] c₁ o e) rest
      ]
    ]

-- If the preparation of a scatterlist has a result, with or without a descriptor, then it changes
-- the channel only in the free list and the history; the descriptor's segments and the free ones
-- weigh together what the free ones weighed before, for every weight that depends on a segment's
-- address; and a descriptor that is given holds a segment.
pub prep_slave_sg-keeps :
    (f : ℕ → ℕ) (c : Chan) (p : Platform) (sgl : List (ℕ × ℕ)) (direction : Direction)
    (context : Option (List ℕ)) (held : Option TxDesc) (c' : Chan)
    → prep_slave_sg p sgl direction context c ≡ ok (held, c')
    → (c' ≡ record c { free_seg_list = c'.free_seg_list; trace = c'.trace })
      × (weigh_held f held + weigh f c'.free_seg_list ≡ weigh f c.free_seg_list)
      × HeldSegments held
prep_slave_sg-keeps f c p sgl direction context held c' h =
    let q = prep_slave_sg-Prepared f c p sgl direction context held c' h in
    let same = prep_slave_sg-ctrl_reg c p sgl direction context held c' h in
    (ground (arith, q.frame, same), q.weight, q.nonempty)
