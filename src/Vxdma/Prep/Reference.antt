-- ===== src/Vxdma/Prep/Reference.antt =====
-- vxdma/vxdma.c, the loop of `xilinx_dma_prep_slave_sg` and `xilinx_dma_prep_dma_cyclic` over one
-- stretch of memory, against the sizes that division gives.
use petalinux_driver.Prelude.{
  ℕ, zero, suc, ◌+◌, ◌-◌, ◌/◌, ◌%◌, ◌≤◌, ◌<◌, ◌≡◌, subst, ap, ◌∙◌, List, [], ◌∷◌, ◌++◌,
  append_assoc, append-nil, inl, inr, min, ltb, ◌==◌, if◌then◌else◌, length, Bool-cases, arith,
}
use petalinux_driver.Kernel.{ok}
use petalinux_driver.Vxdma.Chan.{Segment, Chan, max_trans_len}
use petalinux_driver.Vxdma.Prep.{Request, Fill, filled, starved, fill, fill_fuel, fill_segment}
use petalinux_driver.Vxdma.Prep.Draw.{alloc_tx_segment_cases, piece}

-- As many full segments as fit, and one for what is left over.
abbrev pub repeated : (n size : ℕ) → List ℕ
repeated zero size = []
repeated (suc n) size = size ∷ repeated n size

abbrev pub remainder : ℕ → List ℕ
remainder n = if n == 0 then [] else n ∷ []

abbrev pub sizes : ℕ → List ℕ
sizes len = repeated (len / max_trans_len) max_trans_len ++ remainder (len % max_trans_len)

-- Free segments, filled one behind the other, as long as there are any.
abbrev pub lay : Request → (addr used : ℕ) → List ℕ → List Segment → List Segment
lay r addr used [] free = []
lay r addr used (n ∷ ns) [] = []
lay r addr used (n ∷ ns) (s ∷ free) =
    fill_segment r (addr + used) n s ∷ lay r addr (used + n) ns free

abbrev pub unused : List ℕ → List Segment → List Segment
unused [] free = free
unused (n ∷ ns) [] = []
unused (n ∷ ns) (s ∷ free) = unused ns free

abbrev pub chopped : Request → (addr used : ℕ) → List ℕ → List Segment → Chan → Fill
chopped r addr used ns segments c =
    let taken = segments ++ lay r addr used ns c.free_seg_list in
    let c' = record c { free_seg_list = unused ns c.free_seg_list } in
    if ltb (length c.free_seg_list) (length ns) then starved taken c' else filled taken c'

remainder_pos : (n : ℕ) → 0 < n → remainder n ≡ n ∷ []
remainder_pos n h = ground arith

pub sizes_step : (n : ℕ) → 0 < n → sizes n ≡ min n max_trans_len ∷ sizes (n - min n max_trans_len)
sizes_step n h = elim (Bool-cases (ltb n max_trans_len)) [
  | inl small ↦
      let lt : n < max_trans_len = ground arith in
      let q : n / max_trans_len ≡ 0 = omega (arith, lt) in
      let m : n % max_trans_len ≡ n = omega (arith, lt) in
      let e : min n max_trans_len ≡ n = omega (arith, lt) in
      let z : n - min n max_trans_len ≡ 0 = omega (arith, lt) in rw (z, e, q, m) (remainder_pos n h)
  | inr large ↦
      let ge : max_trans_len ≤ n = ground arith in
      let q : n / max_trans_len ≡ suc ((n - max_trans_len) / max_trans_len) = omega (arith, ge) in
      let m : n % max_trans_len ≡ (n - max_trans_len) % max_trans_len = omega (arith, ge) in
      let e : min n max_trans_len ≡ max_trans_len = omega (arith, ge) in rw (e, q, m)
]

-- One round of the loop is one size.
chopped_round :
    (r : Request) (addr used n : ℕ) (ns : List ℕ) (segments rest : List Segment) (s : Segment)
    (c : Chan)
    → c.free_seg_list ≡ s ∷ rest
    → chopped r addr
        (used + n)
        ns
        (segments ++ fill_segment r (addr + used) n s ∷ [])
        (record c { free_seg_list = rest })
      ≡ chopped r addr used (n ∷ ns) segments c
chopped_round r addr used n ns segments rest s c e = ground (
  arith,
  append_assoc segments (fill_segment r (addr + used) n s ∷ []) (lay r addr (used + n) ns rest),
)

fill-sizes_from :
    (fuel : ℕ) (r : Request) (addr len used : ℕ) (segments : List Segment) (c : Chan)
    → length c.free_seg_list < fuel
    → fill fuel r addr len used segments c
      ≡ ok (chopped r addr used (sizes (len - used)) segments c)
unfolding fill
fill-sizes_from zero r addr len used segments c f = ground arith
fill-sizes_from (suc fuel) r addr len used segments c f = elim (Bool-cases (ltb used len)) [
  | inr over ↦ let z : len - used ≡ 0 = ground arith in rw z (ground (arith, append-nil segments))
  | inl more ↦
      let pos : 0 < len - used = ground arith in
      rw (sizes_step (len - used) pos) (elim (alloc_tx_segment_cases c) [
        | inl (e, none_left) ↦ ground (arith, append-nil segments)
        | inr (s, rest, e, got) ↦
            let n = piece len used in
            let x = fill_segment r (addr + used) n s in
            let c' : Chan = record c { free_seg_list = rest } in
            let less : length rest < fuel = ground arith in
            let next = fill-sizes_from fuel r addr len (used + n) (segments ++ x ∷ []) c' less in
            let same : len - (used + n) ≡ len - used - n = omega arith in
            let last = chopped_round r addr used n (sizes (len - used - n)) segments rest s c e in
            let now : fill (suc fuel) r addr len used segments c
                ≡ fill fuel r addr len (used + n) (segments ++ x ∷ []) c' =
              ground arith in
            now
            ∙ next
            ∙ ap (λ k. ok (chopped r addr (used + n) (sizes k) (segments ++ x ∷ []) c')) same
            ∙ ap ok last
      ])
]

-- The loop that cuts a stretch of memory of `len` bytes into segments always has a result, and it
-- is the one that division gives: segments of the free list, in order, filled with `len /
-- max_trans_len` full pieces and then with the remainder if there is one, as long as there are
-- free segments; it is filled if they are enough, and starved if not.
pub fill-sizes :
    (r : Request) (addr len : ℕ) (segments : List Segment) (c : Chan)
    → fill (fill_fuel c) r addr len 0 segments c ≡ ok (chopped r addr 0 (sizes len) segments c)
fill-sizes r addr len segments c =
    let all : len - 0 ≡ len = omega arith in
    subst
      (λ n. fill (fill_fuel c) r addr len 0 segments c ≡ ok (chopped r addr 0 (sizes n) segments c))
      all (fill-sizes_from (fill_fuel c) r addr len 0 segments c (omega arith))
