-- ===== src/DmaProxy/Module/Channel.antt =====
-- vdmaproxy/dma_proxy.c: what one channel of the module holds after its start.
use petalinux_driver.Prelude.{◌≡◌, refl, subst, Bool, true, false, Option, none, some}
use petalinux_driver.Kernel.{Errno, eperm, Code, code, neg, ok}
use petalinux_driver.DmaProxy.Module.{
  Pointer, null, valid, pointer, Link, Class, Opening, use_class, create_class, create_node,
  cdevice_init, reach_device, allocate_interface, create_channel, Proxies,
}

-- The state of a module that was just loaded.
abbrev pub unopened : Link
unopened = record {
  channel_p = false;
  region = false;
  cdev = false;
  class_p = null;
  proxy_device_p = null;
  node = false;
  interface_p = false;
}

abbrev pub no_class : Class
no_class = record { local_class_p = null; alive = false }

abbrev pub loaded : Proxies
loaded = record { tx = unopened; rx = unopened; class_ = no_class }

-- A channel that started.
abbrev pub open_link : Pointer → Link
open_link p = record {
  channel_p = true;
  region = true;
  cdev = true;
  class_p = p;
  proxy_device_p = valid;
  node = true;
  interface_p = true;
}

-- A channel that failed to start keeps nothing, or its DMA channel alone, or all but its memory.
pub data Kept (x : Link) : Type 0 where
  not_found : x ≡ unopened → Kept x
  channel_only : x ≡ record unopened { channel_p = true } → Kept x
  no_memory : (p : Pointer) → x ≡ record (open_link p) { interface_p = false } → Kept x

-- The start of one channel whose device node can be made.
pub data Created (p : Pointer) (r : Code) (x : Link) (s : Class) : Type 0 where
  up :
      r ≡ code 0
      → x ≡ open_link p
      → s ≡ record { local_class_p = p; alive = true }
      → Created p r x s
  down : (e : Errno) → r ≡ neg e → Kept x → Created p r x s

abbrev pub opening :
    (found : Bool) (region_error cdev_error : Option Errno) (parent_bad allocated : Bool) → Opening
opening f re ce b a = record {
  found = f;
  region_error = re;
  cdev_error = ce;
  class_made = true;
  parent_bad = b;
  node_made = true;
  allocated = a;
}

first_each :
    (c f : Bool) (re ce : Option Errno) (b a : Bool)
    → (r : Code) × (x : Link) × (s : Class) × (create_channel c
          (opening f re ce b a)
          unopened
          no_class
        ≡ ok (r, x, s))
      × Created valid r x s
unfolding create_channel cdevice_init create_class create_node use_class allocate_interface
    reach_device pointer
first_each c false re ce b a =
    (neg eperm, unopened, no_class, refl, down eperm refl (not_found refl))
first_each c true (some e) ce b a =
    (neg e, record unopened { channel_p = true }, no_class, refl, down e refl (channel_only refl))
first_each c true none (some e) b a =
    (neg e, record unopened { channel_p = true }, no_class, refl, down e refl (channel_only refl))
first_each c true none none true a = (
  neg eperm,
  record unopened { channel_p = true },
  record { local_class_p = valid; alive = true },
  refl,
  down eperm refl (channel_only refl),
)
first_each true true none none false true = (
  code 0,
  open_link valid,
  record { local_class_p = valid; alive = true },
  refl,
  up refl refl refl,
)
first_each false true none none false true = (
  code 0,
  open_link valid,
  record { local_class_p = valid; alive = true },
  refl,
  up refl refl refl,
)
first_each true true none none false false = (
  neg eperm,
  record (open_link valid) { interface_p = false },
  record { local_class_p = valid; alive = true },
  refl,
  down eperm refl (no_memory valid refl),
)
first_each false true none none false false = (
  neg eperm,
  record (open_link valid) { interface_p = false },
  record { local_class_p = valid; alive = true },
  refl,
  down eperm refl (no_memory valid refl),
)

abbrev pub with_class : Class
with_class = record { local_class_p = valid; alive = true }

next_each :
    (c k f : Bool) (re ce : Option Errno) (b a : Bool)
    → (r : Code) × (x : Link) × (s : Class) × (create_channel c
          (record (opening f re ce b a) { class_made = k })
          unopened
          with_class
        ≡ ok (r, x, s))
      × Created valid r x s
unfolding create_channel cdevice_init create_class create_node use_class allocate_interface
    reach_device pointer
next_each c k false re ce b a =
    (neg eperm, unopened, with_class, refl, down eperm refl (not_found refl))
next_each c k true (some e) ce b a =
    (neg e, record unopened { channel_p = true }, with_class, refl, down e refl (channel_only refl))
next_each c k true none (some e) b a =
    (neg e, record unopened { channel_p = true }, with_class, refl, down e refl (channel_only refl))
next_each true k true none none b true =
    (code 0, open_link valid, with_class, refl, up refl refl refl)
next_each false k true none none b true =
    (code 0, open_link valid, with_class, refl, up refl refl refl)
next_each true k true none none b false = (
  neg eperm,
  record (open_link valid) { interface_p = false },
  with_class,
  refl,
  down eperm refl (no_memory valid refl),
)
next_each false k true none none b false = (
  neg eperm,
  record (open_link valid) { interface_p = false },
  with_class,
  refl,
  down eperm refl (no_memory valid refl),
)

-- The transmit channel of a start.
pub first :
    (c : Bool) (q : Opening)
    → q.class_made ≡ true
    → q.node_made ≡ true
    → (r : Code) × (x : Link) × (s : Class) × (create_channel c q unopened no_class ≡ ok (r, x, s))
      × Created valid r x s
first c q k n =
    let e : opening q.found q.region_error q.cdev_error q.parent_bad q.allocated ≡ q = rw (k, n) in
    subst
      (λ q'.
        (r : Code) × (x : Link) × (s : Class) × (create_channel c q' unopened no_class
          ≡ ok (r, x, s))
        × Created valid r x s)
      e (first_each c q.found q.region_error q.cdev_error q.parent_bad q.allocated)

-- The receive channel, whose class is there.
pub next :
    (c : Bool) (q : Opening)
    → q.node_made ≡ true
    → (r : Code) × (x : Link) × (s : Class) × (create_channel c q unopened with_class
        ≡ ok (r, x, s))
      × Created valid r x s
next c q n =
    let e : record (opening q.found q.region_error q.cdev_error q.parent_bad q.allocated) {
      class_made = q.class_made;
    }
        ≡ q =
      rw (← n) in
    subst
      (λ q'.
        (r : Code) × (x : Link) × (s : Class) × (create_channel c q' unopened with_class
          ≡ ok (r, x, s))
        × Created valid r x s)
      e (next_each c q.class_made q.found q.region_error q.cdev_error q.parent_bad q.allocated)
