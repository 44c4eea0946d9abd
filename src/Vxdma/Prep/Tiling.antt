-- ===== src/Vxdma/Prep/Tiling.antt =====
-- vxdma/vxdma.c, the pieces that a stretch of memory is cut into.
use petalinux_driver.Prelude.{
  ℕ, zero, suc, ◌+◌, ◌<◌, ◌≤◌, ◌≡◌, refl, ◌∙◌, sym, subst, List, [], ◌∷◌, ◌++◌, append_assoc,
  append-nil, arith,
}
use petalinux_driver.Kernel.{ok}
use petalinux_driver.Vxdma.Chan.{Segment, Chan, u32, max_trans_len}
use petalinux_driver.Vxdma.Prep.{Request, Fill, filled, starved, fill, fill_segment}
use petalinux_driver.Vxdma.Prep.Draw.{ended, dry, round, fill_cases, piece}

-- The segments carry the bytes from `used` up to `len` of the stretch at `addr`.
abbrev pub Covers : (addr len used : ℕ) → List Segment → Type 0
Covers addr len used [] = used ≡ len
Covers addr len used (s ∷ ss) =
    (s.hw.buf_addr ≡ u32 (addr + used))
    × (0 < s.hw.control)
    × (s.hw.control ≤ max_trans_len)
    × (used + s.hw.control ≤ len)
    × Covers addr len (used + s.hw.control) ss

-- The outcome of the loop: with the stretch covered if it is filled, and with the pool empty if not.
abbrev pub Tiles : (addr len used : ℕ) → List Segment → Fill → Type 0
Tiles addr len used segments (filled ss c) =
    (new : List Segment) × (ss ≡ segments ++ new) × Covers addr len used new
Tiles addr len used segments (starved ss c) = c.free_seg_list ≡ []

Tiles-round :
    (addr len used : ℕ) (segments : List Segment) (x : Segment) (o : Fill)
    → x.hw.buf_addr ≡ u32 (addr + used)
    → 0 < x.hw.control
    → x.hw.control ≤ max_trans_len
    → used + x.hw.control ≤ len
    → Tiles addr len (used + x.hw.control) (segments ++ x ∷ []) o
    → Tiles addr len used segments o
Tiles-round addr len used segments x (filled ss c) a b d e (new, q, v) =
    (x ∷ new, q ∙ append_assoc segments (x ∷ []) new, (a, b, d, e, v))
Tiles-round addr len used segments x (starved ss c) a b d e h = h

-- If the loop that cuts a stretch of memory into segments has a result, it is one of two. Either
-- the stretch is filled: the segments added lie one behind the other from the bytes done before,
-- modulo 2 ^ 32, each carries at least one byte and at most the engine's limit, and together they
-- end where the stretch ends. Or the pool of segments is empty.
pub fill-Tiles :
    (fuel : ℕ) (r : Request) (addr len used : ℕ) (segments : List Segment) (c : Chan) (o : Fill)
    → used ≤ len
    → fill fuel r addr len used segments c ≡ ok o
    → Tiles addr len used segments o
unfolding fill fill_segment
fill-Tiles zero r addr len used segments c o le h = cc
fill-Tiles (suc fuel) r addr len used segments c o le h =
    elim (fill_cases fuel r addr len used segments c o h) [
      | ended over e ↦
          subst (Tiles addr len used segments) (sym e) ([], sym (append-nil segments), omega arith)
      | dry more empty e ↦ subst (Tiles addr len used segments) (sym e) empty
      | round s rest more e next ↦
          let x = fill_segment r (addr + used) (piece len used) s in
          Tiles-round addr len used segments x o refl (omega arith) (omega arith) (omega arith) (
            fill-Tiles fuel r addr len (used + piece len used) (segments ++ x ∷ [])
              (record c { free_seg_list = rest }) o (omega arith) next)
    ]
