-- ===== src/Plip.antt =====
-- plIpcore/: the list of the board's IP cores (plIpcore.c), the probe and removal of a core
-- (commonIp.c) and the access to its registers (plIpcore_utils.c, plIpcore_dev.c). A device is an
-- object of the list, found by its address; the platform device keeps that address. `char` is
-- unsigned, and an `int` result is its pattern of 32 digits.
pub mod Heap
pub mod Register
pub mod Dev
pub mod Ioctl
pub mod Module
use petalinux_driver.Prelude.{
  ℕ, ◌+◌, ◌*◌, ◌-◌, ◌^◌, Bool, true, false, List, [], ◌∷◌, ◌++◌, Option, none, some, ◌==◌,
  if◌then◌else◌,
}
use petalinux_driver.Kernel.{Event, did_read, wrote, Result, ok, fault, Fault, ◌>>=◌, entry}

-- What `devm_ioremap_resource` gives: an address, or an error pointer, which no caller tests.
pub data Mapping : Type 0 where
  mapped : ℕ → Mapping
  error_pointer : Mapping

-- The one function that each of the method pointers is ever set to.
pub data Method : Type 0 where
  ip_core_method : Method

-- struct plipcore_device, with its address.
pub record Device : Type 0 where
  pub address : ℕ
  pub id : ℕ
  pub data_ : Mapping
  pub priv_data : Option ℕ
  pub read : Option Method
  pub write : Option Method

-- The state of the drivers: whether the list's head is initialised, the list, the addresses that
-- kzalloc gave and that are not freed yet, and the accesses to registers, newest first.
pub record Board : Type 0 where
  pub ready : Bool
  pub devices : List Device
  pub heap : List ℕ
  pub trace : List Event

-- The answers of the kernel and of the registers.
pub record Host : Type 0 where
  pub kzalloc : (heap : List ℕ) → (size : ℕ) → Option ℕ
  pub ioread32 : (trace : List Event) → ℕ → ℕ

-- The entries of the match table, with `enum rru_device_id`.
pub data Compatible : Type 0 where
  cap_ctl fpga_release_note led_controller : Compatible

-- struct platform_device, as far as the drivers use it.
pub record PlatformDevice : Type 0 where
  pub compatible : Option Compatible
  pub resource : Mapping
  pub drvdata : Option ℕ

unfoldable pub match_data : Compatible → ℕ
match_data led_controller = 0
match_data cap_ctl = 1
match_data fpga_release_note = 2

abbrev pub private_size : ℕ
private_size = 8

pub plip_init : Board → Board
plip_init b = record b { ready = true; devices = [] }

-- The free of one address.
abbrev pub kfree : ℕ → List ℕ → List ℕ
kfree a [] = []
kfree a (x ∷ xs) = if x == a then xs else x ∷ kfree a xs

abbrev pub blank_device : ℕ → Option ℕ → Device
blank_device address priv = record {
  address = address;
  id = 0;
  data_ = mapped 0;
  priv_data = priv;
  read = none;
  write = none;
}

-- The second allocation, which gives the first one back if it fails.
unfoldable pub alloc_private : Host → (size : ℕ) → (address : ℕ) → Board → Option Device × Board
alloc_private h size address b = elim (h.kzalloc b.heap size) [
  | none ↦ (none, record b { heap = kfree address b.heap })
  | some priv ↦ (some (blank_device address (some priv)), record b { heap = priv ∷ b.heap })
]

abbrev pub device_size : ℕ
device_size = 28

unfoldable pub device_alloc : Host → (priv_size : ℕ) → Board → Option Device × Board
device_alloc h priv_size b = elim (h.kzalloc b.heap device_size) [
  | none ↦ (none, b)
  | some address ↦
      let b' = record b { heap = address ∷ b.heap } in
      if priv_size == 0
      then (some (blank_device address none), b')
      else alloc_private h priv_size address b'
]

abbrev pub free_private : Option ℕ → List ℕ → List ℕ
free_private none heap = heap
free_private (some priv) heap = kfree priv heap

pub device_free : Device → Board → Board
device_free d b = record b { heap = kfree d.address (free_private d.priv_data b.heap) }

-- list_add_tail; a list head that is not initialised is zero memory.
unfoldable pub add_device : Device → Board → Result Board
add_device d b =
    if b.ready then ok (record b { devices = b.devices ++ d ∷ [] }) else fault Fault.wild_access

unfoldable pub device_register :
    Host → PlatformDevice → (id priv_size : ℕ) → Board → Result (Option ℕ × PlatformDevice × Board)
unfolding add_device
device_register h pdev id priv_size b =
    let (held, b') = device_alloc h priv_size b in
    elim held [
      | none ↦ ok (none, pdev, b')
      | some d ↦ do
        b'' ← add_device (record d { id = id; data_ = pdev.resource }) b'
        ok (some d.address, record pdev { drvdata = some d.address }, b'')
    ]

-- The object at an address, for a change of its fields.
abbrev pub update_at : ℕ → (Device → Device) → List Device → List Device
update_at a f [] = []
update_at a f (d ∷ ds) = if d.address == a then f d ∷ ds else d ∷ update_at a f ds

abbrev pub find_at : ℕ → List Device → Option Device
find_at a [] = none
find_at a (d ∷ ds) = if d.address == a then some d else find_at a ds

abbrev pub delete_at : ℕ → List Device → List Device
delete_at a [] = []
delete_at a (d ∷ ds) = if d.address == a then ds else d ∷ delete_at a ds

pub device_remove : PlatformDevice → Board → Result Board
unfolding device_free
device_remove pdev b = elim pdev.drvdata [
  | none ↦ ok b
  | some a ↦ do
    d ← entry (find_at a b.devices)
    ok (device_free d (record b { devices = delete_at a b.devices }))
]

unfoldable pub find_device : ℕ → List Device → Option Device
find_device id [] = none
find_device id (d ∷ ds) = if d.id == id then some d else find_device id ds

-- The walk of the list; a list head that is not initialised is zero memory.
unfoldable pub lookup_device : ℕ → Board → Result (Option Device)
lookup_device id b = if b.ready then ok (find_device id b.devices) else fault Fault.wild_access

-- The results of the probe: 0, -ENODEV and -1.
pub data Probe : Type 0 where
  probed no_device failed : Probe

abbrev pub set_methods : Device → Device
set_methods d = record d { read = some ip_core_method; write = some ip_core_method }

unfoldable pub plip_probe : Host → PlatformDevice → Board → Result (Probe × PlatformDevice × Board)
plip_probe h pdev b = elim pdev.compatible [
  | none ↦ ok (no_device, pdev, b)
  | some c ↦ do
    (held, pdev', b') ← device_register h pdev (match_data c) private_size b
    elim held [
      | none ↦ ok (failed, pdev', b')
      | some a ↦ ok (probed, pdev', record b' { devices = update_at a set_methods b'.devices })
    ]
]

-- The removal of a core that the kernel asks for, which always answers 0.
pub plip_remove : PlatformDevice → Board → Result (ℕ × Board)
plip_remove pdev b = do b' ← device_remove pdev b; ok (0, b')

-- `(u32 *) dev->data + addr`: `addr` counts words.
pub ip_core_read : Host → Device → ℕ → Board → Result (ℕ × Board)
ip_core_read h d addr b = elim d.data_ [
  | error_pointer ↦ fault Fault.wild_access
  | mapped base ↦
      let at = base + 4 * addr in
      ok (h.ioread32 b.trace at, record b { trace = did_read at ∷ b.trace })
]

unfoldable pub ip_core_write : Device → ℕ → ℕ → Board → Result (ℕ × Board)
ip_core_write d addr val b = elim d.data_ [
  | error_pointer ↦ fault Fault.wild_access
  | mapped base ↦ ok (0, record b { trace = wrote (base + 4 * addr) val ∷ b.trace })
]
