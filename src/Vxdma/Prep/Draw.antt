-- ===== src/Vxdma/Prep/Draw.antt =====
-- vxdma/vxdma.c, what the loops of a preparation take from the pool.
use petalinux_driver.Prelude.{
  ℕ, zero, suc, ◌+◌, ◌-◌, ◌*◌, ◌≤◌, ◌<◌, ◌≡◌, refl, subst, List, [], ◌∷◌, ◌++◌, ◌⊎◌, inl, inr, none,
  some, min, ltb, Bool-cases, arith,
}
use petalinux_driver.Kernel.{Result, ok, >>=-eq-ok, ok-injective}
use petalinux_driver.Vxdma.Chan.{Segment, Chan, max_trans_len}
use petalinux_driver.Vxdma.Segment.{alloc_tx_segment}
use petalinux_driver.Vxdma.Pool.{weigh, weigh-append}
use petalinux_driver.Vxdma.Prep.{
  Request, Fill, filled, starved, fill, fill_fuel, fill_all, fill_segment, fill_periods, and_then,
}

abbrev pub taken : Fill → List Segment
taken (filled segments c) = segments
taken (starved segments c) = segments

abbrev pub left : Fill → Chan
left (filled segments c) = c
left (starved segments c) = c

-- The free list has a first segment, which is taken off, or it is empty.
pub alloc_tx_segment_cases :
    (c : Chan)
    → ((c.free_seg_list ≡ []) × (alloc_tx_segment c ≡ none))
      ⊎ ((s : Segment) × (rest : List Segment) × (c.free_seg_list ≡ s ∷ rest)
          × (alloc_tx_segment c ≡ some (s, record c { free_seg_list = rest })))
unfolding alloc_tx_segment
alloc_tx_segment_cases c = go c.free_seg_list refl
  where
    go :
        (l : List Segment)
        → c.free_seg_list ≡ l
        → ((c.free_seg_list ≡ []) × (alloc_tx_segment c ≡ none))
          ⊎ ((s : Segment) × (rest : List Segment) × (c.free_seg_list ≡ s ∷ rest)
              × (alloc_tx_segment c ≡ some (s, record c { free_seg_list = rest })))
    go [] e = inl (e, ground arith)
    go (s ∷ rest) e = inr (s, rest, e, ground arith)

-- The size of the next piece.
abbrev pub piece : (len used : ℕ) → ℕ
piece len used = min (len - used) max_trans_len

-- The three ways of one round of the loop.
pub data FillCase (fuel : ℕ) (r : Request) (addr len used : ℕ) (segments : List Segment) (c : Chan)
    (o : Fill) : Type 0 where
  ended : len ≤ used → o ≡ filled segments c → FillCase fuel r addr len used segments c o
  dry :
      used < len
      → c.free_seg_list ≡ []
      → o ≡ starved segments c
      → FillCase fuel r addr len used segments c o
  round :
      (s : Segment) (rest : List Segment)
      → used < len
      → c.free_seg_list ≡ s ∷ rest
      → fill fuel r addr len
          (used + piece len used)
          (segments ++ fill_segment r (addr + used) (piece len used) s ∷ [])
          (record c { free_seg_list = rest })
        ≡ ok o
      → FillCase fuel r addr len used segments c o

pub fill_cases :
    (fuel : ℕ) (r : Request) (addr len used : ℕ) (segments : List Segment) (c : Chan) (o : Fill)
    → fill (suc fuel) r addr len used segments c ≡ ok o
    → FillCase fuel r addr len used segments c o
unfolding fill
fill_cases fuel r addr len used segments c o h = elim (Bool-cases (ltb used len)) [
  | inr over ↦ ended (ground arith) (ground arith)
  | inl more ↦ elim (alloc_tx_segment_cases c) [
    | inl (e, none_left) ↦ dry (ground arith) e (ground arith)
    | inr (s, rest, e, got) ↦ round s rest (ground arith) e (ground arith)
  ]
]

fill_segment_phys :
    (r : Request) (addr copy : ℕ) (s : Segment) → (fill_segment r addr copy s).phys ≡ s.phys
unfolding fill_segment
fill_segment_phys r addr copy s = refl

module _ (f : ℕ → ℕ) where
  pub record Draws (segments : List Segment) (c : Chan) (o : Fill) : Type 0 where
    pub pool_only : left o ≡ record c { free_seg_list = (left o).free_seg_list }
    pub weight :
        weigh f (taken o) + weigh f (left o).free_seg_list
        ≡ weigh f segments + weigh f c.free_seg_list

  Draws-trans :
      (segments segments' : List Segment) (c c' : Chan) (o : Fill)
      → Draws segments c (filled segments' c')
      → Draws segments' c' o
      → Draws segments c o
  Draws-trans segments segments' c c' o d e = record {
    pool_only = ground arith;
    weight = omega arith;
  }

  fill-Draws :
      (fuel : ℕ) (r : Request) (addr len used : ℕ) (segments : List Segment) (c : Chan) (o : Fill)
      → fill fuel r addr len used segments c ≡ ok o
      → Draws segments c o
  unfolding fill
  fill-Draws zero r addr len used segments c o h = cc
  fill-Draws (suc fuel) r addr len used segments c o h =
      elim (fill_cases fuel r addr len used segments c o h) [
        | ended over e ↦ record { pool_only = ground arith; weight = ground arith }
        | dry more empty e ↦ record { pool_only = ground arith; weight = ground arith }
        | round s rest more e next ↦
            let x = fill_segment r (addr + used) (piece len used) s in
            let c' = record c { free_seg_list = rest } in
            let drawn : Draws segments c (filled (segments ++ x ∷ []) c') = record {
              pool_only = refl;
              weight = ground (
                arith,
                weigh-append f segments (x ∷ []),
                fill_segment_phys r (addr + used) (piece len used) s,
              );
            } in
            Draws-trans segments (segments ++ x ∷ []) c c' o drawn
              (fill-Draws fuel r addr len (used + piece len used) (segments ++ x ∷ []) c' o next)
      ]

  Draws-nothing : (segments : List Segment) (c : Chan) → Draws segments c (filled segments c)
  Draws-nothing segments c = record { pool_only = refl; weight = refl }

  Draws-and_then :
      (segments : List Segment) (c : Chan) (o' o : Fill) (next : List Segment → Chan → Result Fill)
      → Draws segments c o'
      → ((taken' : List Segment) (c' : Chan) → next taken' c' ≡ ok o → Draws taken' c' o)
      → and_then o' next ≡ ok o
      → Draws segments c o
  Draws-and_then segments c (starved taken' c') o next d k e =
      subst (Draws segments c) (ok-injective e) d
  Draws-and_then segments c (filled taken' c') o next d k e =
      Draws-trans segments taken' c c' o d (k taken' c' e)

  pub fill_all-Draws :
      (r : Request) (sgl : List (ℕ × ℕ)) (segments : List Segment) (c : Chan) (o : Fill)
      → fill_all r sgl segments c ≡ ok o
      → Draws segments c o
  unfolding fill_all
  fill_all-Draws r [] segments c o h =
      subst (Draws segments c) (ok-injective h) (Draws-nothing segments c)
  fill_all-Draws r ((addr, len) ∷ rest) segments c o h =
      let (o', one, more) = >>=-eq-ok (fill (fill_fuel c) r addr len 0 segments c) _ h in
      Draws-and_then segments c o' o (λ taken' c'. fill_all r rest taken' c')
        (fill-Draws (fill_fuel c) r addr len 0 segments c o' one)
        (λ taken' c' e. fill_all-Draws r rest taken' c' o e) more

  pub fill_periods-Draws :
      (n : ℕ) (r : Request) (buf_addr period_len i : ℕ) (segments : List Segment) (c : Chan)
      (o : Fill)
      → fill_periods n r buf_addr period_len i segments c ≡ ok o
      → Draws segments c o
  unfolding fill_periods
  fill_periods-Draws zero r buf_addr period_len i segments c o h =
      subst (Draws segments c) (ok-injective h) (Draws-nothing segments c)
  fill_periods-Draws (suc n) r buf_addr period_len i segments c o h =
      let at = buf_addr + period_len * i in
      let (o', one, more) = >>=-eq-ok (fill (fill_fuel c) r at period_len 0 segments c) _ h in
      Draws-and_then segments c o' o
        (λ taken' c'. fill_periods n r buf_addr period_len (i + 1) taken' c')
        (fill-Draws (fill_fuel c) r at period_len 0 segments c o' one)
        (λ taken' c' e. fill_periods-Draws n r buf_addr period_len (i + 1) taken' c' o e) more
