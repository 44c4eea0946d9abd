-- ===== src/Plip/Ioctl.antt =====
-- plIpcore/plIpcore_dev.c, `plipdev_ioctl` with the access functions of plIpcore_utils.c.
use petalinux_driver.Prelude.{
  ℕ, ◌+◌, ◌*◌, ◌≡◌, refl, sym, ap, ◌∙◌, subst, ◌⊎◌, inl, inr, Bool, true, [], ◌∷◌, ◌++◌, none, some,
  ◌==◌, Bool-cases, Option-cases, ==_iff, arith,
}
use petalinux_driver.Kernel.{ok, ok-injective, did_read, wrote, Event}
use petalinux_driver.Plip.{
  Mapping, mapped, error_pointer, Device, Board, Host, Compatible, PlatformDevice, find_device,
  lookup_device, Probe, probed, plip_probe, ip_core_read, ip_core_write, match_data, ip_core_method,
}
use petalinux_driver.Plip.Dev.{
  IocReg, Reply, ioc_reg_read, ioc_reg_write, read_register, write_register, ioctl_read,
  ioctl_write, plipdev_ioctl,
}
use petalinux_driver.Plip.Heap.{IsFresh, AreLive}
use petalinux_driver.Plip.Register.{
  ProbeCase, unmatched, out_of_memory, registered, core_device, plip_probe_cases,
  find_device-append,
}

-- An access to a register of the device that the request names, by the code's own search.
pub data Accessed (r : IocReg) (b : Board) (event : Event) : Type 0 where
  accessed :
      (d : Device) (base : ℕ)
      → find_device r.id b.devices ≡ some d
      → d.data_ ≡ mapped base
      → (event ≡ did_read (base + 4 * r.addr)) ⊎ (event ≡ wrote (base + 4 * r.addr) r.value)
      → Accessed r b event

-- What a request leaves of the board: nothing is changed, or one access is added to the history.
abbrev pub IsAccess : IocReg → Board → Board → Type 0
IsAccess r b b' =
    (b' ≡ b) ⊎ ((event : Event) × (b' ≡ record b { trace = event ∷ b.trace }) × Accessed r b event)

Mapping-cases : (m : Mapping) → ((base : ℕ) × (m ≡ mapped base)) ⊎ (m ≡ error_pointer)
Mapping-cases (mapped base) = inl (base, refl)
Mapping-cases error_pointer = inr refl

read_register-IsAccess :
    (h : Host) (copied : Bool) (r : IocReg) (d : Device) (b : Board) (reply : Reply)
    → find_device r.id b.devices ≡ some d
    → read_register h copied r d b ≡ ok reply
    → IsAccess r b reply.board
unfolding read_register ip_core_read
read_register-IsAccess h copied r d b reply f e = elim (Option-cases d.read) [
  | inl no_method ↦ inl (ground arith)
  | inr (m, has_method) ↦ elim (Mapping-cases d.data_) [
    | inr bad ↦ ground arith
    | inl (base, q) ↦
        inr (did_read (base + 4 * r.addr), ground arith, accessed d base f q (inl refl))
  ]
]

write_register-IsAccess :
    (r : IocReg) (d : Device) (b : Board) (reply : Reply)
    → find_device r.id b.devices ≡ some d
    → write_register r d b ≡ ok reply
    → IsAccess r b reply.board
unfolding write_register ip_core_write
write_register-IsAccess r d b reply f e = elim (Option-cases d.write) [
  | inl no_method ↦ inl (ground arith)
  | inr (m, has_method) ↦ elim (Mapping-cases d.data_) [
    | inr bad ↦ ground arith
    | inl (base, q) ↦
        inr (wrote (base + 4 * r.addr) r.value, ground arith, accessed d base f q (inr refl))
  ]
]

ioctl_read-IsAccess :
    (h : Host) (copied : Bool) (r : IocReg) (b : Board) (reply : Reply)
    → ioctl_read h copied r b ≡ ok reply
    → IsAccess r b reply.board
unfolding ioctl_read lookup_device
ioctl_read-IsAccess h copied r b reply e = elim (Option-cases (find_device r.id b.devices)) [
  | inl none_found ↦ inl (ground arith)
  | inr (d, f) ↦ read_register-IsAccess h copied r d b reply f (ground arith)
]

ioctl_write-IsAccess :
    (r : IocReg) (b : Board) (reply : Reply) → ioctl_write r b ≡ ok reply → IsAccess r b reply.board
unfolding ioctl_write lookup_device
ioctl_write-IsAccess r b reply e = elim (Option-cases (find_device r.id b.devices)) [
  | inl none_found ↦ inl (ground arith)
  | inr (d, f) ↦ write_register-IsAccess r d b reply f (ground arith)
]

-- If a request has a result, whatever its command, then the board is as it was, or one access was
-- made, to the register that the request names of the first device of the list with its number, by
-- a read or by a write of its value.
pub plipdev_ioctl-IsAccess :
    (h : Host) (copied : Bool) (cmd : ℕ) (r : IocReg) (b : Board) (reply : Reply)
    → plipdev_ioctl h copied cmd r b ≡ ok reply
    → IsAccess r b reply.board
unfolding plipdev_ioctl
plipdev_ioctl-IsAccess h copied cmd r b reply e = elim (Bool-cases (cmd == ioc_reg_read)) [
  | inl reads ↦ ioctl_read-IsAccess h copied r b reply (ground arith)
  | inr other ↦ elim (Bool-cases (cmd == ioc_reg_write)) [
    | inl writes ↦ ioctl_write-IsAccess r b reply (ground arith)
    | inr unknown ↦ inl (ground arith)
  ]
]

-- The register that a request names on a core with its registers at `base`.
abbrev pub register_of : (base : ℕ) → IocReg → ℕ
register_of base r = base + 4 * r.addr

-- Both requests are served, with one access each.
pub record Served (h : Host) (r : IocReg) (b : Board) (base : ℕ) : Type 0 where
  pub reads :
      plipdev_ioctl h true ioc_reg_read r b
      ≡ ok (record {
        ret = h.ioread32 b.trace (register_of base r);
        stored = some (record r { value = h.ioread32 b.trace (register_of base r) });
        board = record b { trace = did_read (register_of base r) ∷ b.trace };
      })
  pub writes :
      plipdev_ioctl h true ioc_reg_write r b
      ≡ ok (record {
        ret = 0;
        stored = none;
        board = record b { trace = wrote (register_of base r) r.value ∷ b.trace };
      })

complete-Served :
    (h : Host) (r : IocReg) (b : Board) (d : Device) (base : ℕ)
    → b.ready ≡ true
    → find_device r.id b.devices ≡ some d
    → d.data_ ≡ mapped base
    → d.read ≡ some ip_core_method
    → d.write ≡ some ip_core_method
    → Served h r b base
unfolding plipdev_ioctl ioctl_read ioctl_write lookup_device read_register write_register
    ip_core_read ip_core_write
complete-Served h r b d base ready f q rd wr = record {
  reads = ground arith;
  writes = ground arith;
}

module _ (h : Host) (pdev : PlatformDevice) (b : Board) (c : Compatible) (base : ℕ) (r : IocReg)
    (ready : b.ready ≡ true) (match : pdev.compatible ≡ some c) (res : pdev.resource ≡ mapped base)
    (new : find_device (match_data c) b.devices ≡ none) (named : r.id ≡ match_data c) where
  ProbeCase-Served :
      (x : Probe) (pdev' : PlatformDevice) (b' : Board)
      → x ≡ probed
      → ProbeCase h pdev b x pdev' b'
      → Served h r b' base
  ProbeCase-Served x pdev' b' e (unmatched _ k _ _) = cc
  ProbeCase-Served x pdev' b' e (out_of_memory _ _ _ k _ _) = cc
  ProbeCase-Served x pdev' b' e (registered a priv c' match' live k moved frame back) =
      let d = core_device a priv c' pdev.resource in
      let same : c' ≡ c = ground arith in
      let found : find_device (match_data c) (b.devices ++ d ∷ []) ≡ some d =
        find_device-append (match_data c) b.devices d new
          ((==_iff (match_data c') (match_data c)).1 (ap match_data same)) in
      complete-Served h r b' d base (ground arith) (ground arith) res refl refl

  -- With an allocator that gives only addresses not in use, on a board whose list is initialised
  -- and holds only devices that are not freed and none with the core's number: after a probe of
  -- the core that succeeds, a request with its number reads the register at the core's address and
  -- four times the request's offset, answers with the value and stores it in the caller's
  -- structure, if that can be written; and a write stores the request's value in that register and
  -- answers 0. Each makes this one access.
  pub plip_probe-Served :
      (pdev' : PlatformDevice) (b' : Board)
      → IsFresh h
      → AreLive b
      → plip_probe h pdev b ≡ ok (probed, pdev', b')
      → Served h r b' base
  plip_probe-Served pdev' b' fresh live e =
      let (x, pdev₁, b₁, e₁, k) = plip_probe_cases h pdev b ready live fresh in
      let same : (x, pdev₁, b₁) ≡ (probed, pdev', b') = ok-injective (sym e₁ ∙ e) in
      subst (λ (y : Probe × PlatformDevice × Board). Served h r y.2 base) same
        (ProbeCase-Served x pdev₁ b₁ (ap (λ (y : Probe × PlatformDevice × Board). y.0) same) k)
