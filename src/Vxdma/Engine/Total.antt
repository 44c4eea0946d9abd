-- ===== src/Vxdma/Engine/Total.antt =====
-- vxdma/vxdma.c, the accesses of `xilinx_dma_start_transfer` to the ends of lists.
use petalinux_driver.Prelude.{
  ◌≡◌, refl, List, [], ◌∷◌, true, false, some, last?, is_empty, All, arith,
}
use petalinux_driver.Kernel.{Platform, is_ok}
use petalinux_driver.Vxdma.Chan.{TxDesc, Chan}
use petalinux_driver.Vxdma.Engine.{program_transfer, arm, launch, begin_transfer, start_transfer}

-- A descriptor holds a segment.
abbrev pub HasSegments : TxDesc → Type 0
HasSegments d = is_empty d.segments ≡ false

pub last?-some {ℓ} :
    {A : Type ℓ} (xs : List A) → is_empty xs ≡ false → (y : A) × (last? xs ≡ some y)
last?-some [] h = cc
last?-some (x ∷ []) h = (x, refl)
last?-some (x ∷ y ∷ ys) h = last?-some (y ∷ ys) refl

pub last?-All {ℓ κ} :
    {A : Type ℓ} (P : A → Type κ) (x : A) (xs : List A)
    → All P (x ∷ xs)
    → (y : A) × (last? (x ∷ xs) ≡ some y) × P y
last?-All P x [] h = (x, refl, h.0)
last?-All P x (y ∷ ys) h = last?-All P y ys h.1

program_transfer_total :
    (p : Platform) (head_desc tail_desc : TxDesc) (c : Chan)
    → HasSegments head_desc
    → HasSegments tail_desc
    → is_ok (program_transfer p head_desc tail_desc c) ≡ true
unfolding program_transfer
program_transfer_total p head_desc tail_desc c hh ht =
    ground (arith, last?-some tail_desc.segments ht)

launch_total :
    (p : Platform) (head_desc tail_desc : TxDesc) (c : Chan)
    → HasSegments head_desc
    → HasSegments tail_desc
    → is_ok (launch p head_desc tail_desc c) ≡ true
unfolding launch
launch_total p head_desc tail_desc c hh ht =
    ground (arith, program_transfer_total p head_desc tail_desc c hh ht)

begin_transfer_total :
    (p : Platform) (c : Chan) (d : TxDesc) (ds : List TxDesc)
    → c.pending_list ≡ d ∷ ds
    → All HasSegments (d ∷ ds)
    → is_ok (begin_transfer p c) ≡ true
unfolding begin_transfer
begin_transfer_total p c d ds e h =
    let (tail_desc, last, ht) = last?-All HasSegments d ds h in
    ground (arith, launch_total p d tail_desc (arm p d c) h.0 ht)

start_transfer_from :
    (p : Platform) (c : Chan) (ds : List TxDesc)
    → c.pending_list ≡ ds
    → All HasSegments ds
    → is_ok (start_transfer p c) ≡ true
unfolding start_transfer
start_transfer_from p c [] e h = ground arith
start_transfer_from p c (d ∷ ds) e h = ground (arith, begin_transfer_total p c d ds e h)

pub start_transfer_total :
    (p : Platform) (c : Chan) → All HasSegments c.pending_list → is_ok (start_transfer p c) ≡ true
start_transfer_total p c h = start_transfer_from p c c.pending_list refl h
