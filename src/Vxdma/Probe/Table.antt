-- ===== src/Vxdma/Probe/Table.antt =====
-- vxdma/vxdma.c, the table of channels: which entry a channel gets, and what a failed probe does to it.
use petalinux_driver.Prelude.{
  ℕ, ◌≡◌, refl, sym, subst, ◌⊎◌, inl, inr, Bool, true, false, List, [], ◌∷◌, Option, none, some,
  length, Option-cases, arith,
}
use petalinux_driver.Kernel.{
  Direction, Errno, Code, code, neg, Fault, Result, ok, fault, ◌>>=◌, Platform, Event,
}
use petalinux_driver.Vxdma.Chan.{Chan}
use petalinux_driver.Vxdma.Engine.{chan_reset}
use petalinux_driver.Vxdma.Probe.{
  Property, number, missing, mm2s, s2mm, Node, Headers, Slot, XilinxDevice, empty_table, set_slot,
  set_copy_align, blank_chan, channel_place, channel_word, store, finish_probe, place_channel,
  chan_probe, chan_remove, remove_all, probe_children, register_controller, DeviceNode,
  blank_device, device_probe,
}

pub Property-cases : (m : Property) → ((n : ℕ) × (m ≡ number n)) ⊎ ((e : Errno) × (m ≡ missing e))
Property-cases (number n) = inl (n, refl)
Property-cases (missing e) = inr (e, refl)

store-beyond :
    (x : XilinxDevice) (s : Slot) → length x.slots ≡ 2 → store x 2 s ≡ fault Fault.out_of_bounds
unfolding set_slot
store-beyond x s h = go x.slots h
  where
    go :
        (l : List (Option Slot))
        → length l ≡ 2
        → set_slot 2 s l >>= (λ slots. ok (record x { slots = slots })) ≡ fault Fault.out_of_bounds
    go [] k = ground arith
    go (a ∷ []) k = ground arith
    go (a ∷ b ∷ []) k = refl
    go (a ∷ b ∷ c ∷ l) k = absurd (omega arith)

-- The store fails whatever the reset and the interrupt come to.
finish_probe-beyond :
    (n : Node) (r : Code × Chan) (x : XilinxDevice)
    → length x.slots ≡ 2
    → finish_probe n 2 r x ≡ fault Fault.out_of_bounds
unfolding finish_probe
finish_probe-beyond n (neg e, c) x h =
    ground (arith, store-beyond x (record { chan = c; listed = false }) h)
finish_probe-beyond n (code k, c) x h = elim (Option-cases n.irq_error) [
  | inl fine ↦ ground (
    arith,
    store-beyond x (record { chan = record c { irq = n.irq; idle = true }; listed = true }) h,
  )
  | inr (e, bad) ↦
      ground (arith, store-beyond x (record { chan = record c { irq = n.irq }; listed = false }) h)
]

-- The probe of a channel from the device to memory writes outside a table of two channels, once
-- there is memory for it and its width and device number are read.
pub chan_probe-s2mm :
    (p : Platform) (k : Headers) (n : Node) (x : XilinxDevice) (width device_id : ℕ)
    → length x.slots ≡ 2
    → n.kind ≡ s2mm
    → n.no_memory ≡ false
    → n.datawidth ≡ number width
    → n.device_id ≡ number device_id
    → chan_probe p k n x ≡ fault Fault.out_of_bounds
unfolding chan_probe channel_place place_channel set_copy_align
chan_probe-s2mm p k n x width device_id h kind memory dw did =
    let x' = set_copy_align k n.include_dre width x in
    let same : length x'.slots ≡ 2 = ground arith in
    ground (
      arith,
      finish_probe-beyond n
          (chan_reset p (
            blank_chan p x'.has_sg 2 0x30 Direction.dma_dev_to_mem
              (channel_word k Direction.dma_dev_to_mem device_id)))
          x' same,
    )

-- A device that never answers a poll in time.
abbrev pub IsDead : Platform → Type 0
IsDead p = (t : List Event) (reg : ℕ) (cond : ℕ → Bool) → p.readl_poll_timeout t reg cond ≡ true

chan_reset-IsDead : (p : Platform) (c : Chan) → IsDead p → (chan_reset p c).0 ≡ neg Errno.ebusy
unfolding chan_reset
chan_reset-IsDead p c dead = simp dead

remove_all-unlisted :
    (c : Chan)
    → remove_all (none ∷ some (record { chan = c; listed = false }) ∷ []) ≡ fault Fault.wild_access
unfolding remove_all chan_remove
remove_all-unlisted c = refl

-- The table of a device whose first channel was stored and then failed.
data IsHalfProbed (r : Result (Code × XilinxDevice)) : Type 0 where
  half_probed :
      (e : Errno) (c : Chan) (x : XilinxDevice)
      → r ≡ ok (neg e, x)
      → x.slots ≡ none ∷ some (record { chan = c; listed = false }) ∷ []
      → IsHalfProbed r

finish_probe-IsHalfProbed :
    (n : Node) (r : Code × Chan) (x : XilinxDevice)
    → x.slots ≡ empty_table
    → ((e : Errno) × (r.0 ≡ neg e)) ⊎ ((e : Errno) × (n.irq_error ≡ some e))
    → IsHalfProbed (finish_probe n 1 r x)
unfolding finish_probe set_slot
finish_probe-IsHalfProbed n (neg e, c) x h bad =
    half_probed e c (record x { slots = none ∷ some (record { chan = c; listed = false }) ∷ [] })
      (ground arith) refl
finish_probe-IsHalfProbed n (code k, c) x h (inl (e, q)) = cc
finish_probe-IsHalfProbed n (code k, c) x h (inr (e, q)) =
    half_probed e (record c { irq = n.irq })
      (record x {
        slots = none ∷ some (record { chan = record c { irq = n.irq }; listed = false }) ∷ [];
      })
      (ground arith) refl

module _ (p : Platform) (k : Headers) (d : DeviceNode) (n : Node) (width device_id : ℕ)
    (memory : d.no_memory ≡ false) (mapped : d.ioremap_error ≡ none) (only : d.children ≡ n ∷ [])
    (kind : n.kind ≡ mm2s) (room : n.no_memory ≡ false) (dw : n.datawidth ≡ number width)
    (did : n.device_id ≡ number device_id) where
  half_probed-fault :
      IsHalfProbed (chan_probe p k n (blank_device d.include_sg))
      → device_probe p k d ≡ fault Fault.wild_access
  unfolding device_probe probe_children register_controller
  half_probed-fault (half_probed e c x q s) = ground (arith, remove_all-unlisted c)

  -- A device with memory, registers and one channel, from memory to the device, with its memory,
  -- width and device number: if no poll of the device is answered in time, or the interrupt is
  -- refused, the clean-up of the failed probe makes a wild access.
  pub device_probe-wild_access :
      IsDead p ⊎ ((e : Errno) × (n.irq_error ≡ some e))
      → device_probe p k d ≡ fault Fault.wild_access
  unfolding chan_probe channel_place place_channel set_copy_align
  device_probe-wild_access bad =
      let x = set_copy_align k n.include_dre width (blank_device d.include_sg) in
      let c =
        blank_chan p x.has_sg 1 0 Direction.dma_mem_to_dev
          (channel_word k Direction.dma_mem_to_dev device_id) in
      let why : ((e : Errno) × ((chan_reset p c).0 ≡ neg e))
          ⊎ ((e : Errno) × (n.irq_error ≡ some e)) =
        elim bad [ inl dead ↦ inl (Errno.ebusy, chan_reset-IsDead p c dead) | inr e ↦ inr e ] in
      let next : chan_probe p k n (blank_device d.include_sg)
          ≡ finish_probe n 1 (chan_reset p c) x =
        ground arith in
      half_probed-fault (
        subst IsHalfProbed (sym next)
          (finish_probe-IsHalfProbed n (chan_reset p c) x (ground arith) why))
