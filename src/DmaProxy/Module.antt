-- ===== src/DmaProxy/Module.antt =====
-- vdmaproxy/dma_proxy.c, the start and the end of the module: two channels, each with a character
-- device and memory for its interface, and one class for both devices.
pub mod Channel
pub mod Start
use petalinux_driver.Prelude.{
  ℕ, ◌≡◌, refl, Bool, true, false, not, ◌&&◌, Option, none, some, if◌then◌else◌,
}
use petalinux_driver.VxdmaDev.{FilterChan, xdma_filter}
use petalinux_driver.Kernel.{Errno, eperm, Code, code, neg, Result, ok, fault, Fault, ◌>>=◌}

-- A pointer that a service of the kernel returned: `bad` is an error in the place of an address.
pub data Pointer : Type 0 where
  null bad valid : Pointer

-- The filter of the request is the text of vxdma/vxdma_dev.c.
abbrev pub xdma_filter_1 : FilterChan → Option ℕ → Bool
xdma_filter_1 = xdma_filter

-- struct dma_proxy_channel: its pointers, and what the channel holds of the kernel. `node` is the
-- device behind `proxy_device_p`.
pub record Link : Type 0 where
  pub channel_p : Bool
  pub region : Bool
  pub cdev : Bool
  pub class_p : Pointer
  pub proxy_device_p : Pointer
  pub node : Bool
  pub interface_p : Bool

-- The static `local_class_p` of `cdevice_init`, and whether the class it points to is there.
pub record Class : Type 0 where
  pub local_class_p : Pointer
  pub alive : Bool

-- The answers to the start of one channel. `class_made` tells whether `class_create` returns a
-- class; `parent_bad` whether the class of the DMA device is an error, which the source tests.
pub record Opening : Type 0 where
  pub found : Bool
  pub region_error : Option Errno
  pub cdev_error : Option Errno
  pub class_made : Bool
  pub parent_bad : Bool
  pub node_made : Bool
  pub allocated : Bool

pub pointer : Bool → Pointer
pointer true = valid
pointer false = bad

-- The class of a device must be there; an error in its place is the kernel's to refuse.
pub use_class : Pointer → Class → Result Class
use_class null s = fault Fault.wild_access
use_class bad s = ok s
use_class valid s = if s.alive then ok s else fault Fault.wild_access

-- `class_destroy` does nothing on NULL and on an error.
pub class_destroy : Pointer → Class → Result Class
class_destroy null s = ok s
class_destroy bad s = ok s
class_destroy valid s = if s.alive then ok (record s { alive = false }) else fault Fault.wild_access

-- The class is created once for both channels.
pub create_class : Opening → Class → Class
create_class q s = elim s.local_class_p [
  | null ↦ record { local_class_p = pointer q.class_made; alive = q.class_made }
  | bad ↦ s
  | valid ↦ s
]

abbrev pub is_null : Pointer → Bool
is_null null = true
is_null bad = false
is_null valid = false

-- The device node, and the way back when there is none, which returns 0.
pub create_node : Opening → Link → Class → Result (Code × Link × Class)
create_node q x s =
    let x' = record x { class_p = s.local_class_p; proxy_device_p = pointer q.node_made } in
    use_class s.local_class_p s >>= λ s₁.
    if q.node_made
    then ok (code 0, record x' { node = true }, s₁)
    else (class_destroy s.local_class_p s₁ >>= λ s₂.
        ok (code 0, record x' { cdev = false; region = false }, s₂))

pub cdevice_init : Opening → Link → Class → Result (Code × Link × Class)
cdevice_init q x s = elim q.region_error [
  | some e ↦ ok (neg e, x, s)
  | none ↦ elim q.cdev_error [
    | some e ↦ ok (neg e, record x { region = false }, s)
    | none ↦
        let s' = create_class q s in
        if is_null s.local_class_p && q.parent_bad
        then ok (neg eperm, record x { cdev = false; region = false }, s')
        else create_node q (record x { region = true; cdev = true }) s'
  ]
]

-- `dma_set_coherent_mask` writes to the device.
pub reach_device : Pointer → Result Bool
reach_device null = fault Fault.wild_access
reach_device bad = fault Fault.wild_access
reach_device valid = ok true

pub allocate_interface :
    (cached_buffers : Bool) → Opening → Code × Link × Class → Result (Code × Link × Class)
allocate_interface cached_buffers q (neg e, x, s) = ok (neg e, x, s)
allocate_interface cached_buffers q (code n, x, s) = do
  _ ← if cached_buffers then ok true else reach_device x.proxy_device_p
  ok (if q.allocated then code 0 else neg eperm, record x { interface_p = q.allocated }, s)

pub create_channel : (cached_buffers : Bool) → Opening → Link → Class → Result (Code × Link × Class)
create_channel cached_buffers q x s =
    if q.found
    then (cdevice_init q (record x { channel_p = true }) s >>= allocate_interface cached_buffers q)
    else ok (neg eperm, record x { channel_p = false }, s)

-- The module: the transmit channel, the receive channel and the class.
pub record Proxies : Type 0 where
  pub tx : Link
  pub rx : Link
  pub class_ : Class

-- The receive channel, after the transmit channel.
pub after_tx : Bool → Opening → Link → Code × Link × Class → Result (Code × Proxies)
after_tx cached_buffers q_rx rx (neg e, tx, s) = ok (neg e, record { tx = tx; rx = rx; class_ = s })
after_tx cached_buffers q_rx rx (code n, tx, s) = do
  (r, rx', s') ← create_channel cached_buffers q_rx rx s
  ok (r, record { tx = tx; rx = rx'; class_ = s' })

pub dma_proxy_init :
    (cached_buffers : Bool) → (q_tx q_rx : Opening) → Proxies → Result (Code × Proxies)
dma_proxy_init cached_buffers q_tx q_rx m =
    create_channel cached_buffers q_tx m.tx m.class_ >>= λ r. after_tx cached_buffers q_rx m.rx r

-- The region and the character device must still be held; memory that the device manages goes with
-- the device.
take_down : (cached_buffers last : Bool) → Link → Class → Result (Link × Class)
unfolding use_class class_destroy
take_down cached_buffers last x s = do
  s₁ ← use_class x.class_p s
  s₂ ← if last then class_destroy x.class_p s₁ else ok s₁
  if x.cdev && x.region
      then ok (
        record x {
          node = false;
          interface_p = cached_buffers && x.interface_p;
          cdev = false;
          region = false;
        },
        s₂,
      )
      else fault Fault.wild_access

pub cdevice_exit : (cached_buffers last : Bool) → Link → Class → Result (Link × Class)
unfolding take_down
cdevice_exit cached_buffers last x s =
    if is_null x.proxy_device_p then ok (x, s) else take_down cached_buffers last x s

-- What is left of a channel is released: the channel, and memory that no device manages.
pub release_link : (cached_buffers : Bool) → Link → Link
release_link cached_buffers x = record x {
  channel_p = false;
  interface_p = x.interface_p && not cached_buffers;
}

pub dma_proxy_exit : (cached_buffers : Bool) → Proxies → Result Proxies
dma_proxy_exit cached_buffers m = do
  (tx, s) ← cdevice_exit cached_buffers false m.tx m.class_
  (rx, s') ← cdevice_exit cached_buffers true m.rx s
  ok (record {
    tx = release_link cached_buffers tx;
    rx = release_link cached_buffers rx;
    class_ = s';
  })
