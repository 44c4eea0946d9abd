-- ===== src/CharDev.antt =====
-- The character devices of vxdma/vxdma_dev.c, vxhls/vxhls_dev.c, intrDemo/intrDemo.c and
-- plIpcore/plIpcore_dev.c: their start takes the same steps, each with its own end.
use petalinux_driver.Prelude.{◌≡◌, refl, Bool, true, false, Option, none, some, if◌then◌else◌}
use petalinux_driver.Kernel.{Errno, enomem, eperm, Code, code, neg}

-- The memory of the module, its device number, its class, its device node and its character device.
pub record Holding : Type 0 where
  pub memory : Bool
  pub region : Bool
  pub class_ : Bool
  pub node : Bool
  pub cdev : Bool

abbrev pub nothing : Holding
nothing = record { memory = false; region = false; class_ = false; node = false; cdev = false }

abbrev pub everything : Holding
everything = record { memory = true; region = true; class_ = true; node = true; cdev = true }

-- The kernel's answers: whether there is memory, the error of the device number if there is one,
-- and whether the class and the node are not NULL.
pub record Answers : Type 0 where
  pub has_memory : Bool
  pub region_error : Option Errno
  pub has_class : Bool
  pub has_node : Bool

-- The steps up to `cdev_add`, whose result no module tests.
pub open_chardev : Answers → Holding → Code × Holding
open_chardev q m =
    if q.has_memory
    then (let m₁ = record m { memory = true } in
        elim q.region_error [
          | some e ↦ (neg e, m₁)
          | none ↦
              let m₂ = record m₁ { region = true } in
              if q.has_class
              then (let m₃ = record m₂ { class_ = true } in
                  if q.has_node
                  then (code 0, record m₃ { node = true; cdev = true })
                  else (neg eperm, record m₃ { class_ = false; region = false }))
              else (neg eperm, record m₂ { region = false })
        ])
    else (neg enomem, m)

-- The start of vxdma_dev.c and of vxhls_dev.c.
unfoldable pub vxdma_dev_init : Answers → Holding → Code × Holding
vxdma_dev_init = open_chardev

unfoldable pub vxhls_dev_init : Answers → Holding → Code × Holding
vxhls_dev_init = open_chardev

-- Their ends take down all but the memory of the module.
unfoldable pub vxdma_dev_exit : Holding → Holding
vxdma_dev_exit m = record m { cdev = false; node = false; class_ = false; region = false }

unfoldable pub vxhls_dev_exit : Holding → Holding
vxhls_dev_exit m = record m { cdev = false; node = false; class_ = false; region = false }

-- A start from nothing: a failure keeps at most the memory.
pub data OpenCase (r : Code) (m : Holding) : Type 0 where
  not_opened :
      (e : Errno) (memory : Bool)
      → r ≡ neg e
      → m ≡ record nothing { memory = memory }
      → OpenCase r m
  opened : r ≡ code 0 → m ≡ everything → OpenCase r m

OpenCase-each :
    (memory : Bool) (region : Option Errno) (class_ node : Bool)
    → let (r, m) =
        open_chardev
          (record {
            has_memory = memory;
            region_error = region;
            has_class = class_;
            has_node = node;
          })
          nothing in
      OpenCase r m
unfolding open_chardev
OpenCase-each false e x y = not_opened enomem false refl refl
OpenCase-each true (some e) x y = not_opened e true refl refl
OpenCase-each true none false y = not_opened eperm true refl refl
OpenCase-each true none true false = not_opened eperm true refl refl
OpenCase-each true none true true = opened refl refl

pub open_chardev-OpenCase : (q : Answers) → let (r, m) = open_chardev q nothing in OpenCase r m
open_chardev-OpenCase q = OpenCase-each q.has_memory q.region_error q.has_class q.has_node
