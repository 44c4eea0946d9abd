-- ===== src/Vxdma/Prep/Total.antt =====
-- vxdma/vxdma.c, `xilinx_dma_prep_slave_sg`: the end of its loops, and its faults.
use petalinux_driver.Prelude.{
  ℕ, zero, suc, ◌+◌, ◌<◌, ◌≡◌, refl, ap, subst, ◌∙◌, List, [], ◌∷◌, ◌++◌, ◌⊎◌, inl, inr, true,
  false, Option, ltb, length, total, is_empty, Bool-cases, arith,
}
use petalinux_driver.Kernel.{
  Direction, Platform, Result, ok, allocated_desc, is_ok, is_ok-value, ok-injective, fault, Fault,
  >>=-eq-ok,
}
use petalinux_driver.Vxdma.Chan.{Segment, TxDesc, Chan}
use petalinux_driver.Vxdma.Segment.{blank_desc, alloc_tx_descriptor}
use petalinux_driver.Vxdma.Prep.{
  Request, Fill, filled, starved, fill, fill_fuel, fill_segment, fill_all, and_then, give_up,
  finish_desc, close_slave, slave_request, prep_slave_sg,
}
use petalinux_driver.Vxdma.Prep.Draw.{alloc_tx_segment_cases, piece}
use petalinux_driver.Vxdma.Prep.Tiling.{Covers, Tiles, fill-Tiles}

pub fill-is_ok :
    (fuel : ℕ) (r : Request) (addr len used : ℕ) (segments : List Segment) (c : Chan)
    → length c.free_seg_list < fuel
    → is_ok (fill fuel r addr len used segments c) ≡ true
unfolding fill
fill-is_ok zero r addr len used segments c h = absurd (omega arith)
fill-is_ok (suc fuel) r addr len used segments c h = elim (Bool-cases (ltb used len)) [
  | inr over ↦ ground arith
  | inl more ↦ elim (alloc_tx_segment_cases c) [
    | inl (_, none_left) ↦ ground arith
    | inr (s, rest, e, got) ↦
        let shorter : length rest < fuel = ground arith in
        ground (
          arith,
          fill-is_ok fuel r addr len (used + piece len used)
              (segments ++ fill_segment r (addr + used) (piece len used) s ∷ [])
              (record c { free_seg_list = rest }) shorter,
        )
  ]
]

pub and_then-is_ok :
    (o : Fill) (next : List Segment → Chan → Result Fill)
    → ((ss : List Segment) (c : Chan) → is_ok (next ss c) ≡ true)
    → is_ok (and_then o next) ≡ true
and_then-is_ok (filled ss c) next h = h ss c
and_then-is_ok (starved ss c) next h = refl

pub fill_all-is_ok :
    (r : Request) (sgl : List (ℕ × ℕ)) (segments : List Segment) (c : Chan)
    → is_ok (fill_all r sgl segments c) ≡ true
unfolding fill_all
fill_all-is_ok r [] segments c = refl
fill_all-is_ok r ((addr, len) ∷ rest) segments c =
    let (o, e) =
      is_ok-value (fill (fill_fuel c) r addr len 0 segments c)
        (fill-is_ok (fill_fuel c) r addr len 0 segments c (omega arith)) in
    ground (
      arith,
      and_then-is_ok o (λ ss c'. fill_all r rest ss c') (λ ss c'. fill_all-is_ok r rest ss c'),
    )

-- The bytes of a scatterlist.
abbrev pub bytes : List (ℕ × ℕ) → ℕ
bytes = total (λ x. x.1)

-- A filled outcome has a segment.
abbrev pub HasFilled : Fill → Type 0
HasFilled (filled ss c) = is_empty ss ≡ false
HasFilled (starved ss c) = Unit {0}

append-nonempty :
    (xs ys : List Segment) (addr len : ℕ)
    → Covers addr len 0 ys
    → (is_empty xs ≡ false) ⊎ (0 < len)
    → is_empty (xs ++ ys) ≡ false
append-nonempty (x ∷ xs) ys addr len v h = refl
append-nonempty [] (y ∷ ys) addr len v h = refl
append-nonempty [] [] addr len v (inl h) = h
append-nonempty [] [] addr len v (inr h) = absurd (omega arith)

pub Tiles-HasFilled :
    (addr len : ℕ) (segments : List Segment) (o : Fill)
    → Tiles addr len 0 segments o
    → (is_empty segments ≡ false) ⊎ (0 < len)
    → HasFilled o
Tiles-HasFilled addr len segments (filled ss c) (new, e, v) h =
    ap is_empty e ∙ append-nonempty segments new addr len v h
Tiles-HasFilled addr len segments (starved ss c) t h = tt

pub and_then-HasFilled :
    (segments : List Segment) (len rest : ℕ) (o o' : Fill)
    (next : List Segment → Chan → Result Fill)
    → (is_empty segments ≡ false) ⊎ (0 < len + rest)
    → ((is_empty segments ≡ false) ⊎ (0 < len) → HasFilled o)
    → ((ss : List Segment) (c : Chan)
        → (is_empty ss ≡ false) ⊎ (0 < rest)
        → next ss c ≡ ok o'
        → HasFilled o')
    → and_then o next ≡ ok o'
    → HasFilled o'
and_then-HasFilled segments len rest (starved ss c) o' next h a k e =
    subst HasFilled (ok-injective e) tt
and_then-HasFilled segments len rest (filled ss c) o' next (inl h) a k e =
    k ss c (inl (a (inl h))) e
and_then-HasFilled segments len rest (filled ss c) o' next (inr h) a k e =
    elim (Bool-cases (ltb 0 len)) [
      | inl some_here ↦ k ss c (inl (a (inr (ground arith)))) e
      | inr none_here ↦ k ss c (inr (ground arith)) e
    ]

fill_all-HasFilled :
    (r : Request) (sgl : List (ℕ × ℕ)) (segments : List Segment) (c : Chan) (o : Fill)
    → (is_empty segments ≡ false) ⊎ (0 < bytes sgl)
    → fill_all r sgl segments c ≡ ok o
    → HasFilled o
unfolding fill_all
fill_all-HasFilled r [] segments c o (inl h) e = subst HasFilled (ok-injective e) h
fill_all-HasFilled r [] segments c o (inr h) e = absurd (omega arith)
fill_all-HasFilled r ((addr, len) ∷ rest) segments c o h e =
    let (o', one, more) = >>=-eq-ok (fill (fill_fuel c) r addr len 0 segments c) _ e in
    and_then-HasFilled segments len (bytes rest) o' o (λ ss c'. fill_all r rest ss c') h
      (Tiles-HasFilled addr len segments o'
        (fill-Tiles (fill_fuel c) r addr len 0 segments c o' (omega arith) one))
      (λ ss c' h' e'. fill_all-HasFilled r rest ss c' o h' e') more

close_slave-is_ok : (desc : TxDesc) (o : Fill) → HasFilled o → is_ok (close_slave desc o) ≡ true
unfolding close_slave finish_desc give_up
close_slave-is_ok desc (filled [] c) h = cc
close_slave-is_ok desc (filled (s ∷ ss) c) h = refl
close_slave-is_ok desc (starved ss c) h = refl

-- The preparation of a scatterlist whose lengths add up to at least one byte has a result,
-- whatever the state of the channel.
pub prep_slave_sg_total :
    (p : Platform) (sgl : List (ℕ × ℕ)) (direction : Direction) (context : Option (List ℕ))
    (c : Chan)
    → 0 < bytes sgl
    → is_ok (prep_slave_sg p sgl direction context c) ≡ true
unfolding prep_slave_sg alloc_tx_descriptor
prep_slave_sg_total p sgl direction context c h =
    let c' = record c { trace = allocated_desc ∷ c.trace } in
    let r = slave_request p direction context in
    let (o, e) = is_ok-value (fill_all r sgl [] c') (fill_all-is_ok r sgl [] c') in
    ground (
      arith,
      close_slave-is_ok (blank_desc direction) o (fill_all-HasFilled r sgl [] c' o (inr h) e),
    )

fill_all_no_bytes :
    (r : Request) (sgl : List (ℕ × ℕ)) (c : Chan)
    → bytes sgl ≡ 0
    → fill_all r sgl [] c ≡ ok (filled [] c)
unfolding fill_all fill
fill_all_no_bytes r [] c h = refl
fill_all_no_bytes r ((addr, zero) ∷ rest) c h = fill_all_no_bytes r rest c (omega arith)
fill_all_no_bytes r ((addr, suc len) ∷ rest) c h = absurd (omega arith)

-- The preparation of a scatterlist whose lengths are all 0, in a direction of slaves and with
-- memory for the descriptor, takes the first segment of an empty list.
pub prep_slave_sg_no_bytes :
    (p : Platform) (sgl : List (ℕ × ℕ)) (direction : Direction) (context : Option (List ℕ))
    (c : Chan)
    → bytes sgl ≡ 0
    → p.is_slave_direction direction ≡ true
    → p.kzalloc_fails c.trace ≡ false
    → prep_slave_sg p sgl direction context c ≡ fault Fault.wild_access
unfolding prep_slave_sg alloc_tx_descriptor close_slave finish_desc
prep_slave_sg_no_bytes p sgl direction context c h slave memory = ground (
  arith,
  fill_all_no_bytes (slave_request p direction context) sgl
      (record c { trace = allocated_desc ∷ c.trace }) h,
)
