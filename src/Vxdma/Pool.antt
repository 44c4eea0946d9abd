-- ===== src/Vxdma/Pool.antt =====
-- vxdma/vxdma.c, who holds the hardware segments: the free list of the channel and the descriptors
-- of its three lists. A weight of addresses counts segments: the constant 1 counts them all, and
-- the test for one address counts how often that segment is held.
use petalinux_driver.Prelude.{
  ℕ, ◌+◌, ◌≡◌, ap, List, [], ◌∷◌, ◌++◌, map, append_assoc, append-nil, refl, ◌∙◌, total,
  total-append, arith,
}
use mathlib.Core.List.{map-append}
use petalinux_driver.Kernel.{Event, freed_desc}
use petalinux_driver.Vxdma.Chan.{Segment, TxDesc, Chan}
use petalinux_driver.Vxdma.Segment.{
  clean_hw_desc, free_tx_segment, free_segments, free_tx_descriptor, free_descs, free_descriptors,
}

abbrev pub weigh : (ℕ → ℕ) → List Segment → ℕ
weigh f = total (λ s. f s.phys)

abbrev pub weigh_descs : (ℕ → ℕ) → List TxDesc → ℕ
weigh_descs f = total (λ d. weigh f d.segments)

-- The segments that a channel holds, weighed by their addresses.
unfoldable pub weigh_chan : (ℕ → ℕ) → Chan → ℕ
weigh_chan f c =
    weigh f c.free_seg_list
    + weigh_descs f c.pending_list
    + weigh_descs f c.active_list
    + weigh_descs f c.done_list

module _ (f : ℕ → ℕ) where
  pub weigh-append : (xs ys : List Segment) → weigh f (xs ++ ys) ≡ weigh f xs + weigh f ys
  weigh-append xs ys = total-append (λ s. f s.phys) xs ys

  pub weigh_descs-append :
      (xs ys : List TxDesc) → weigh_descs f (xs ++ ys) ≡ weigh_descs f xs + weigh_descs f ys
  weigh_descs-append xs ys = total-append (λ d. weigh f d.segments) xs ys

-- A segment as it goes back to the pool.
abbrev pub clean_segment : Segment → Segment
clean_segment s = record s { hw = clean_hw_desc s.hw }

abbrev pub segments_of : List TxDesc → List Segment
segments_of [] = []
segments_of (d ∷ ds) = d.segments ++ segments_of ds

-- The frees of `n` descriptors.
abbrev pub trace_freed : List TxDesc → List Event → List Event
trace_freed [] t = t
trace_freed (d ∷ ds) t = trace_freed ds (freed_desc ∷ t)

pub segments_of-append :
    (xs ys : List TxDesc) → segments_of (xs ++ ys) ≡ segments_of xs ++ segments_of ys
segments_of-append [] ys = refl
segments_of-append (x ∷ xs) ys = simp (segments_of-append xs ys, append_assoc)

trace_freed-append :
    (xs ys : List TxDesc) (t : List Event)
    → trace_freed (xs ++ ys) t ≡ trace_freed ys (trace_freed xs t)
trace_freed-append [] ys t = refl
trace_freed-append (x ∷ xs) ys t = trace_freed-append xs ys (freed_desc ∷ t)

pub free_segments_lem :
    (c : Chan) (ss : List Segment)
    → free_segments c ss ≡ record c { free_seg_list = c.free_seg_list ++ map clean_segment ss }
unfolding free_segments
free_segments_lem c [] = ground (arith, append-nil c.free_seg_list)
free_segments_lem c (s ∷ ss) = rw (free_segments_lem (free_tx_segment c s) ss) (
    unfold free_tx_segment in
    ap (λ l. record c { free_seg_list = l })
      (append_assoc c.free_seg_list (clean_segment s ∷ []) (map clean_segment ss)))

pub free_descs_lem :
    (c : Chan) (ds : List TxDesc)
    → free_descs c ds ≡ record c {
      free_seg_list = c.free_seg_list ++ map clean_segment (segments_of ds);
      trace = trace_freed ds c.trace;
    }
unfolding free_descs free_tx_descriptor
free_descs_lem c [] = ground (arith, append-nil c.free_seg_list)
free_descs_lem c (d ∷ ds) = rw (free_segments_lem c d.segments) (
    free_descs_lem
      (record c {
        free_seg_list = c.free_seg_list ++ map clean_segment d.segments;
        trace = freed_desc ∷ c.trace;
      })
      ds
    ∙ ap (λ l. record c { free_seg_list = l; trace = trace_freed (d ∷ ds) c.trace })
        (simp (map-append, append_assoc)))

-- Freeing the three lists empties them and gives every segment back, cleaned, behind those that
-- were free; nothing else of the channel changes.
pub free_descriptors_lem :
    (c : Chan)
    → free_descriptors c ≡ record c {
      pending_list = [];
      done_list = [];
      active_list = [];
      free_seg_list =
          c.free_seg_list
          ++ map clean_segment (segments_of (c.pending_list ++ c.done_list ++ c.active_list));
      trace = trace_freed (c.pending_list ++ c.done_list ++ c.active_list) c.trace;
    }
unfolding free_descriptors
free_descriptors_lem c =
    simp (free_descs_lem, segments_of-append, trace_freed-append, map-append, append_assoc)

module _ (f : ℕ → ℕ) where
  pub weigh-map-clean : (ss : List Segment) → weigh f (map clean_segment ss) ≡ weigh f ss
  weigh-map-clean [] = refl
  weigh-map-clean (s ∷ ss) = omega (arith, weigh-map-clean ss)

  pub weigh-segments_of : (ds : List TxDesc) → weigh f (segments_of ds) ≡ weigh_descs f ds
  weigh-segments_of [] = refl
  weigh-segments_of (d ∷ ds) =
      omega (arith, weigh-segments_of ds, weigh-append f d.segments (segments_of ds))

  -- Once the three lists of descriptors are freed, the free list alone weighs what the free list
  -- and the three lists weighed before, for every weight that depends on a segment's address.
  pub weigh-free_descriptors :
      (c : Chan) → weigh f (free_descriptors c).free_seg_list ≡ weigh_chan f c
  unfolding weigh_chan
  weigh-free_descriptors c = rw (free_descriptors_lem c) (
      omega (
        arith,
        weigh-append f c.free_seg_list
            (map clean_segment (segments_of (c.pending_list ++ c.done_list ++ c.active_list))),
        weigh-map-clean (segments_of (c.pending_list ++ c.done_list ++ c.active_list)),
        weigh-segments_of (c.pending_list ++ c.done_list ++ c.active_list),
        weigh_descs-append f (c.pending_list ++ c.done_list) c.active_list,
        weigh_descs-append f c.pending_list c.done_list,
      ))
