-- ===== src/Vxdma/Prep/Fits.antt =====
-- vxdma/vxdma.c, `xilinx_dma_prep_slave_sg` for one buffer: when the pool has enough segments.
use petalinux_driver.Prelude.{
  ℕ, zero, suc, ◌+◌, ◌-◌, ◌/◌, ◌%◌, ◌<◌, ◌≡◌, refl, sym, subst, ap, ◌∙◌, ◌⊎◌, is_empty, Bool, true,
  false, List, [], ◌∷◌, ◌++◌, Option, none, some, inl, inr, ltb, leb, length, if◌then◌else◌, ◌==◌,
  Bool-cases, arith,
}
use petalinux_driver.Kernel.{Direction, Platform, Result, ok, ◌>>=◌, allocated_desc}
use petalinux_driver.Vxdma.Chan.{Segment, TxDesc, Chan, max_trans_len}
use petalinux_driver.Vxdma.Segment.{alloc_tx_descriptor, blank_desc}
use petalinux_driver.Vxdma.Prep.{
  Request, Fill, filled, starved, fill_all, finish_desc, give_up, close_slave, slave_request,
  and_then, prep_slave_sg,
}
use petalinux_driver.Vxdma.Prep.Reference.{
  sizes, repeated, remainder, sizes_step, chopped, fill-sizes,
}

abbrev pub is_held : Option TxDesc → Bool
is_held none = false
is_held (some d) = true

length-repeated : (n size : ℕ) (rest : List ℕ) → length (repeated n size ++ rest) ≡ n + length rest
length-repeated zero size rest = omega arith
length-repeated (suc n) size rest = omega (arith, length-repeated n size rest)

length-remainder :
    (n : ℕ) → n < max_trans_len → length (remainder n) ≡ (n + (max_trans_len - 1)) / max_trans_len
length-remainder n h = elim (Bool-cases (n == 0)) [
  | inl none_left ↦ let e : n ≡ 0 = ground arith in rw e
  | inr more ↦
      let pos : 0 < n = ground arith in
      let q : (n + (max_trans_len - 1)) / max_trans_len ≡ 1 = omega arith in rw q (ground arith)
]

-- The number of pieces is the quotient, rounded up.
length-sizes : (len : ℕ) → length (sizes len) ≡ (len + (max_trans_len - 1)) / max_trans_len
length-sizes len =
    let one =
      length-repeated (len / max_trans_len) max_trans_len (remainder (len % max_trans_len)) in
    let two = length-remainder (len % max_trans_len) (omega arith) in omega (arith, one, two)

-- The end of the preparation, by the free list.
pub Outcome : (desc : TxDesc) → Fill → Bool → Type 0
Outcome desc o enough =
    (held : Option TxDesc) × (c' : Chan) × (close_slave desc o ≡ ok (held, c'))
    × (is_held held ≡ enough)

starved-Outcome : (desc : TxDesc) (ss : List Segment) (c : Chan) → Outcome desc (starved ss c) false
unfolding Outcome close_slave give_up
starved-Outcome desc ss c = (_, _, refl, refl)

filled-Outcome :
    (desc : TxDesc) (s : Segment) (ss : List Segment) (c : Chan)
    → Outcome desc (filled (s ∷ ss) c) true
unfolding Outcome close_slave finish_desc
filled-Outcome desc s ss c = (_, _, refl, refl)

either-Outcome :
    (desc : TxDesc) (short enough : Bool) (ss : List Segment) (c : Chan)
    → ((short ≡ true) × (enough ≡ false))
      ⊎ ((short ≡ false) × (enough ≡ true) × (is_empty ss ≡ false))
    → Outcome desc (if short then starved ss c else filled ss c) enough
either-Outcome desc short enough ss c (inl (h, k)) = rw (h, k) (starved-Outcome desc ss c)
either-Outcome desc short enough [] c (inr (h, k, l)) = cc
either-Outcome desc short enough (s ∷ ss) c (inr (h, k, l)) = rw (h, k) (filled-Outcome desc s ss c)

chopped-Outcome :
    (desc : TxDesc) (r : Request) (addr n : ℕ) (ns : List ℕ) (free : List Segment) (c : Chan)
    → c.free_seg_list ≡ free
    → Outcome desc (chopped r addr 0 (n ∷ ns) [] c) (leb (length (n ∷ ns)) (length c.free_seg_list))
chopped-Outcome desc r addr n ns [] c e =
    either-Outcome desc _ _ _ _ (inl (ground arith, ground arith))
chopped-Outcome desc r addr n ns (s ∷ free) c e =
    elim (Bool-cases (ltb (length c.free_seg_list) (length (n ∷ ns)))) [
      | inl few ↦ either-Outcome desc _ _ _ _ (inl (few, ground arith))
      | inr enough ↦ either-Outcome desc _ _ _ _ (inr (enough, ground arith, ground arith))
    ]

and_then-filled : (o : Fill) → and_then o (λ taken c. ok (filled taken c)) ≡ ok o
and_then-filled (filled ss c) = refl
and_then-filled (starved ss c) = refl

-- A list of one buffer.
fill_all-sizes :
    (r : Request) (addr len : ℕ) (c : Chan)
    → fill_all r ((addr, len) ∷ []) [] c ≡ ok (chopped r addr 0 (sizes len) [] c)
unfolding fill_all
fill_all-sizes r addr len c =
    ap (λ (x : Result Fill). x >>= λ o. and_then o (λ taken c'. ok (filled taken c')))
      (fill-sizes r addr len [] c)
    ∙ and_then-filled (chopped r addr 0 (sizes len) [] c)

-- The preparation of one buffer of at least one byte, in a direction of slaves and with memory for
-- the descriptor, has a result, and that is a descriptor exactly if the free list has as many
-- segments as the length divided by the engine's limit, rounded up.
pub prep_slave_sg-is_held :
    (p : Platform) (addr len : ℕ) (direction : Direction) (context : Option (List ℕ)) (c : Chan)
    → 0 < len
    → p.is_slave_direction direction ≡ true
    → p.kzalloc_fails c.trace ≡ false
    → (held : Option TxDesc) × (c' : Chan) × (prep_slave_sg p ((addr, len) ∷ []) direction context c
        ≡ ok (held, c'))
      × (is_held held ≡ leb ((len + (max_trans_len - 1)) / max_trans_len) (length c.free_seg_list))
unfolding prep_slave_sg alloc_tx_descriptor Outcome
prep_slave_sg-is_held p addr len direction context c pos slave memory =
    let c₁ : Chan = record c { trace = allocated_desc ∷ c.trace } in
    let r = slave_request p direction context in
    let e = fill_all-sizes r addr len c₁ in
    let (held, c', k, h) =
      subst
        (λ ns.
          Outcome (blank_desc direction) (chopped r addr 0 ns [] c₁)
            (leb (length ns) (length c.free_seg_list)))
        (sym (sizes_step len pos))
        (chopped-Outcome (blank_desc direction) r addr _ _ c.free_seg_list c₁ refl) in
    let same : prep_slave_sg p ((addr, len) ∷ []) direction context c
        ≡ close_slave (blank_desc direction) (chopped r addr 0 (sizes len) [] c₁) =
      simp (slave, memory)
        (ap (λ (x : Result Fill). x >>= λ o. close_slave (blank_desc direction) o) e) in
    (held, c', same ∙ k, rw (← length-sizes len) h)
