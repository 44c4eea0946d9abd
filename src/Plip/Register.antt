-- ===== src/Plip/Register.antt =====
-- plIpcore/plIpcore.c and commonIp.c: what the probe of a core and its removal do to the list and
-- to the memory.
use petalinux_driver.Prelude.{
  ℕ, ◌⊎◌, ◌≡◌, refl, sym, ap, ◌∙◌, subst, inl, inr, true, false, List, [], ◌∷◌, ◌++◌, Option, none,
  some, ◌==◌, Bool-cases, Option-cases, eq_refl, arith,
}
use petalinux_driver.Kernel.{ok, ok-injective}
use petalinux_driver.Plip.{
  plip_remove, Mapping, Device, Board, Host, Compatible, PlatformDevice, kfree, blank_device,
  device_alloc, alloc_private, device_free, free_private, device_register, device_remove,
  find_device, Probe, probed, no_device, failed, set_methods, plip_probe, match_data, private_size,
  device_size, ip_core_method,
}
use petalinux_driver.Plip.Heap.{
  is_live, IsFresh, AreLive, live-IsAbsent, update_at-append, find_at-append, delete_at-append,
}

-- One of the allocations of a device with private data of some size fails.
abbrev pub IsShort : Host → (size : ℕ) → Board → Type 0
IsShort h size b =
    (h.kzalloc b.heap device_size ≡ none)
    ⊎ ((a : ℕ) × (h.kzalloc b.heap device_size ≡ some a)
        × ((size == 0) ≡ false)
        × (h.kzalloc (a ∷ b.heap) size ≡ none))

-- What an allocation comes to: nothing, or a device whose release gives the heap back as it was.
data AllocCase (h : Host) (size : ℕ) (b : Board) (held : Option Device) (b' : Board) : Type 0 where
  refused : IsShort h size b → held ≡ none → b' ≡ b → AllocCase h size b held b'
  allocated :
      (a : ℕ) (priv : Option ℕ)
      → is_live a b.heap ≡ false
      → held ≡ some (blank_device a priv)
      → b' ≡ record b { heap = b'.heap }
      → kfree a (free_private priv b'.heap) ≡ b.heap
      → AllocCase h size b held b'

alloc_private-AllocCase :
    (h : Host) (size a : ℕ) (b : Board)
    → is_live a b.heap ≡ false
    → h.kzalloc b.heap device_size ≡ some a
    → (size == 0) ≡ false
    → let r = alloc_private h size a (record b { heap = a ∷ b.heap }) in AllocCase h size b r.0 r.1
unfolding alloc_private
alloc_private-AllocCase h size a b fresh got more =
    elim (Option-cases (h.kzalloc (a ∷ b.heap) size)) [
      | inl e ↦ refused (inr (a, got, more, e)) (ground arith) (ground (arith, eq_refl a))
      | inr (priv, e) ↦
          allocated a (some priv) fresh (ground arith) (ground arith)
            (ground (arith, eq_refl a, eq_refl priv))
    ]

device_alloc-AllocCase :
    (h : Host) (size : ℕ) (b : Board)
    → IsFresh h
    → let r = device_alloc h size b in AllocCase h size b r.0 r.1
unfolding device_alloc
device_alloc-AllocCase h size b fresh = elim (Option-cases (h.kzalloc b.heap device_size)) [
  | inl e ↦ refused (inl e) (ground arith) (ground arith)
  | inr (a, e) ↦
      let new = fresh b.heap device_size a e in
      elim (Bool-cases (size == 0)) [
        | inl bare ↦ allocated a none new (ground arith) (ground arith) (ground (arith, eq_refl a))
        | inr more ↦
            let next : device_alloc h size b
                ≡ alloc_private h size a (record b { heap = a ∷ b.heap }) =
              ground arith in
            subst (λ (r : Option Device × Board). AllocCase h size b r.0 r.1) (sym next)
              (alloc_private-AllocCase h size a b new e more)
      ]
]

-- The device of a core that is probed.
abbrev pub core_device : (a : ℕ) → Option ℕ → Compatible → Mapping → Device
core_device a priv c resource = record {
  address = a;
  id = match_data c;
  data_ = resource;
  priv_data = priv;
  read = some ip_core_method;
  write = some ip_core_method;
}

-- What a probe comes to.
pub data ProbeCase (h : Host) (pdev : PlatformDevice) (b : Board) (r : Probe)
    (pdev' : PlatformDevice) (b' : Board) : Type 0 where
  unmatched :
      pdev.compatible ≡ none → r ≡ no_device → pdev' ≡ pdev → b' ≡ b → ProbeCase h pdev b r pdev' b'
  out_of_memory :
      (c : Compatible)
      → pdev.compatible ≡ some c
      → IsShort h private_size b
      → r ≡ failed
      → pdev' ≡ pdev
      → b' ≡ b
      → ProbeCase h pdev b r pdev' b'
  registered :
      (a : ℕ) (priv : Option ℕ) (c : Compatible)
      → pdev.compatible ≡ some c
      → is_live a b.heap ≡ false
      → r ≡ probed
      → pdev' ≡ record pdev { drvdata = some a }
      → b' ≡ record b {
        devices = b.devices ++ core_device a priv c pdev.resource ∷ [];
        heap = b'.heap;
      }
      → kfree a (free_private priv b'.heap) ≡ b.heap
      → ProbeCase h pdev b r pdev' b'

module _ (h : Host) (pdev : PlatformDevice) (b : Board) (ready : b.ready ≡ true)
    (live : AreLive b) where
  probe_allocated :
      (c : Compatible) (held : Option Device) (b₁ : Board)
      → pdev.compatible ≡ some c
      → device_alloc h private_size b ≡ (held, b₁)
      → AllocCase h private_size b held b₁
      → (r : Probe) × (pdev' : PlatformDevice) × (b' : Board) × (plip_probe h pdev b
          ≡ ok (r, pdev', b'))
        × ProbeCase h pdev b r pdev' b'
  unfolding plip_probe device_register
  probe_allocated c held b₁ match e (refused short none_left same) =
      (failed, pdev, b, ground arith, out_of_memory c match short refl refl refl)
  probe_allocated c held b₁ match e (allocated a priv new got frame back) =
      let plain = record (blank_device a priv) { id = match_data c; data_ = pdev.resource } in
      let absent = live-IsAbsent a b.heap b.devices new live in
      (
        probed,
        record pdev { drvdata = some a },
        record b { devices = b.devices ++ core_device a priv c pdev.resource ∷ []; heap = b₁.heap },
        ground (arith, update_at-append a set_methods b.devices plain absent (eq_refl a)),
        registered a priv c match new refl refl refl back,
      )

  -- With an allocator that gives only addresses not in use, on a board whose list is initialised
  -- and holds only devices that are not freed, the probe of a core has a result, of one of three
  -- kinds: without a match it is -ENODEV and nothing is changed; with a match and one of its two
  -- allocations refused it is -1 and nothing is changed, so that the first allocation is given back
  -- when the second fails; otherwise the list has at its end a device at an address that was not in
  -- use, with the core's number, its registers and both methods, and the release of the device's
  -- memory gives the memory in use as it was.
  pub plip_probe_cases :
      IsFresh h
      → (r : Probe) × (pdev' : PlatformDevice) × (b' : Board) × (plip_probe h pdev b
          ≡ ok (r, pdev', b'))
        × ProbeCase h pdev b r pdev' b'
  unfolding plip_probe
  plip_probe_cases fresh = elim (Option-cases pdev.compatible) [
    | inl e ↦ (no_device, pdev, b, ground arith, unmatched e refl refl refl)
    | inr (c, e) ↦
        let (held, b₁) = device_alloc h private_size b in
        probe_allocated c held b₁ e refl (device_alloc-AllocCase h private_size b fresh)
  ]

  undone :
      (r : Probe) (pdev' : PlatformDevice) (b' : Board)
      → r ≡ probed
      → ProbeCase h pdev b r pdev' b'
      → device_remove pdev' b' ≡ ok b
  unfolding device_remove device_free
  undone r pdev' b' e (unmatched _ k _ _) = cc
  undone r pdev' b' e (out_of_memory _ _ _ k _ _) = cc
  undone r pdev' b' e (registered a priv c match new k moved frame back) =
      let d = core_device a priv c pdev.resource in
      let absent = live-IsAbsent a b.heap b.devices new live in
      ground (
        arith,
        find_at-append a b.devices d absent (eq_refl a),
        delete_at-append a b.devices d absent (eq_refl a),
      )

  device_remove-plip_probe :
      (pdev' : PlatformDevice) (b' : Board)
      → IsFresh h
      → plip_probe h pdev b ≡ ok (probed, pdev', b')
      → device_remove pdev' b' ≡ ok b
  device_remove-plip_probe pdev' b' fresh e =
      let (r, pdev₁, b₁, e₁, k) = plip_probe_cases fresh in
      let same : (r, pdev₁, b₁) ≡ (probed, pdev', b') = ok-injective (sym e₁ ∙ e) in
      subst (λ (x : Probe × PlatformDevice × Board). device_remove x.1 x.2 ≡ ok b) same
        (undone r pdev₁ b₁ (ap (λ (x : Probe × PlatformDevice × Board). x.0) same) k)

  -- With an allocator that gives only addresses not in use, on a board whose list is initialised
  -- and holds only devices that are not freed: the removal of a core that was just probed has a
  -- result, 0 and the board as it was before the probe.
  pub plip_remove-plip_probe :
      (pdev' : PlatformDevice) (b' : Board)
      → IsFresh h
      → plip_probe h pdev b ≡ ok (probed, pdev', b')
      → plip_remove pdev' b' ≡ ok (0, b)
  unfolding plip_remove
  plip_remove-plip_probe pdev' b' fresh e = simp (device_remove-plip_probe pdev' b' fresh e)

pub find_device-append :
    (id : ℕ) (ds : List Device) (d : Device)
    → find_device id ds ≡ none
    → (d.id == id) ≡ true
    → find_device id (ds ++ d ∷ []) ≡ some d
unfolding find_device
find_device-append id [] d h k = ground arith
find_device-append id (x ∷ ds) d h k = ground (arith, find_device-append id ds d)

pub find_device-shadowed :
    (id : ℕ) (ds : List Device) (d x : Device)
    → find_device id ds ≡ some x
    → find_device id (ds ++ d ∷ []) ≡ some x
unfolding find_device
find_device-shadowed id [] d x h = cc
find_device-shadowed id (y ∷ ds) d x h = ground (arith, find_device-shadowed id ds d x)
