-- ===== src/Vxdma/Queue/Cleanup.antt =====
-- vxdma/vxdma.c, `xilinx_dma_chan_desc_cleanup`: what a run of the tasklet does to the done list, the
-- free list and the clients.
use petalinux_driver.Prelude.{
  ℕ, ◌≡◌, refl, sym, ap, List, [], ◌∷◌, ◌++◌, map, append_assoc, append-nil, Option, none, some,
  if◌then◌else◌, Bool-cases, inl, inr, arith,
}
use mathlib.Core.List.{map-append}
use petalinux_driver.Kernel.{Event, called_back, ran_dependencies, freed_desc}
use petalinux_driver.Vxdma.Chan.{TxDesc, Chan}
use petalinux_driver.Vxdma.Segment.{free_tx_descriptor}
use petalinux_driver.Vxdma.Pool.{clean_segment, segments_of, free_segments_lem}
use petalinux_driver.Vxdma.Queue.{
  note_callback, handle_cyclic, cleanup_desc, cleanup_each, desc_cleanup,
}

-- The descriptors in front of the first cyclic one, and those from it on.
abbrev pub retired : List TxDesc → List TxDesc
retired [] = []
retired (d ∷ ds) = if d.cyclic then [] else d ∷ retired ds

abbrev pub remaining : List TxDesc → List TxDesc
remaining [] = []
remaining (d ∷ ds) = if d.cyclic then d ∷ ds else remaining ds

abbrev callback_of : Option ℕ → List ℕ
callback_of none = []
callback_of (some k) = k ∷ []

-- The callbacks that one run of the tasklet makes, in order.
abbrev pub notified : List TxDesc → List ℕ
notified [] = []
notified (d ∷ ds) = callback_of d.callback ++ (if d.cyclic then [] else notified ds)

-- The callbacks of a history, oldest first.
abbrev pub called : List Event → List ℕ
called [] = []
called (called_back k ∷ t) = called t ++ k ∷ []
called (_ ∷ t) = called t

cleanup_desc_lem :
    (c : Chan) (d : TxDesc) (rest : List TxDesc)
    → cleanup_desc c d rest ≡ record c {
      done_list = rest;
      free_seg_list = c.free_seg_list ++ map clean_segment d.segments;
      trace = freed_desc ∷ ran_dependencies d.cookie ∷ note_callback d.callback c.trace;
    }
unfolding cleanup_desc free_tx_descriptor
cleanup_desc_lem c d rest = simp free_segments_lem

-- The history of a run of the tasklet.
abbrev cleanup_trace : List TxDesc → List Event → List Event
cleanup_trace [] t = t
cleanup_trace (d ∷ ds) t =
    if d.cyclic
    then note_callback d.callback t
    else cleanup_trace ds (freed_desc ∷ ran_dependencies d.cookie ∷ note_callback d.callback t)

cleanup_each_lem :
    (c : Chan) (ds : List TxDesc)
    → c.done_list ≡ ds
    → cleanup_each c ds ≡ record c {
      done_list = remaining ds;
      free_seg_list = c.free_seg_list ++ map clean_segment (segments_of (retired ds));
      trace = cleanup_trace ds c.trace;
    }
unfolding cleanup_each handle_cyclic
cleanup_each_lem c [] e = ground (arith, append-nil c.free_seg_list)
cleanup_each_lem c (d ∷ ds) e = elim (Bool-cases d.cyclic) [
  | inl yes_cyclic ↦ ground (arith, append-nil c.free_seg_list)
  | inr plain ↦ ground (
    arith,
    cleanup_desc_lem c d ds,
    cleanup_each_lem (cleanup_desc c d ds) ds
        (ap (λ (x : Chan). x.done_list) (cleanup_desc_lem c d ds)),
    map-append clean_segment d.segments (segments_of (retired ds)),
    append_assoc c.free_seg_list (map clean_segment d.segments)
        (map clean_segment (segments_of (retired ds))),
  )
]

called-note_callback :
    (o : Option ℕ) (t : List Event) → called (note_callback o t) ≡ called t ++ callback_of o
called-note_callback none t = sym (append-nil (called t))
called-note_callback (some k) t = refl

called-cleanup_trace :
    (ds : List TxDesc) (t : List Event) → called (cleanup_trace ds t) ≡ called t ++ notified ds
called-cleanup_trace [] t = ground (arith, append-nil (called t))
called-cleanup_trace (d ∷ ds) t = ground (
  arith,
  called-cleanup_trace ds (freed_desc ∷ ran_dependencies d.cookie ∷ note_callback d.callback t),
  called-note_callback d.callback t,
  append_assoc (called t) (callback_of d.callback) (notified ds),
  append-nil (callback_of d.callback),
)

pub desc_cleanup_lem :
    (c : Chan)
    → desc_cleanup c ≡ record c {
      done_list = remaining c.done_list;
      free_seg_list = c.free_seg_list ++ map clean_segment (segments_of (retired c.done_list));
      trace = (desc_cleanup c).trace;
    }
unfolding desc_cleanup
desc_cleanup_lem c = simp (cleanup_each_lem c c.done_list refl)

-- A run of the tasklet calls back the clients of the done descriptors that have a callback, once
-- each and in the order of the list, up to the first cyclic one and with it; what had been called
-- before stays as it was.
pub called-desc_cleanup :
    (c : Chan) → called (desc_cleanup c).trace ≡ called c.trace ++ notified c.done_list
unfolding desc_cleanup
called-desc_cleanup c =
    rw (cleanup_each_lem c c.done_list refl) (called-cleanup_trace c.done_list c.trace)

pub desc_cleanup_bare : (c : Chan) → c.done_list ≡ [] → desc_cleanup c ≡ c
unfolding desc_cleanup cleanup_each
desc_cleanup_bare c h = rw h refl
