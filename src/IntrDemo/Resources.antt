-- ===== src/IntrDemo/Resources.antt =====
-- intrDemo/intrDemo.c, what the probe and the removal of its device hold, and what is left of them.
use petalinux_driver.Prelude.{
  ℕ, ◌+◌, ◌≡◌, refl, Bool, true, false, List, [], ◌∷◌, ◌&&◌, not, ◌⊎◌, inl, inr, Option, none, some,
  if◌then◌else◌,
}
use petalinux_driver.Kernel.{Errno, enodev, enomem, ebusy, eio, code, neg, ok}
use petalinux_driver.Kernel.Ledger.{Resource, io_mapping, release, same}
use petalinux_driver.IntrDemo.{
  Probing, Local, take, put_back, free_irq, error1, error2, error3, request_irq, eg_module_probe,
  eg_module_remove,
}

-- A device without data, with what is left held and how often the kernel has warned.
abbrev pub idle_device : List Resource → ℕ → Local
idle_device held warnings = record { drvdata = false; held = held; warnings = warnings }

-- The probe gets as far as the request of the interrupt.
abbrev pub maps_registers : Probing → Bool
maps_registers q = q.has_memory_resource && not q.no_memory && q.region_granted && q.is_mapped

-- What a probe comes to for a device that holds nothing, and the removal after it.
pub data ProbeCase (q : Probing) (n : ℕ) : Type 0 where
  refused :
      (e : Errno)
      → maps_registers q ≡ false
      → eg_module_probe q (idle_device [] n) ≡ ok (neg e, idle_device [] n)
      → ProbeCase q n
  irq_refused :
      (e : Errno)
      → maps_registers q ≡ true
      → q.has_irq ≡ true
      → q.irq_error ≡ some e
      → eg_module_probe q (idle_device [] n) ≡ ok (neg e, idle_device (io_mapping ∷ []) (n + 1))
      → ProbeCase q n
  probed :
      (l : Local)
      → maps_registers q ≡ true
      → (q.has_irq ≡ false) ⊎ (q.irq_error ≡ none)
      → eg_module_probe q (idle_device [] n) ≡ ok (code 0, l)
      → eg_module_remove l
        ≡ ok (code 0, idle_device (io_mapping ∷ []) (if q.has_irq then n else n + 1))
      → ProbeCase q n

ProbeCase-each :
    (resource no_memory region mapped irq : Bool) (error : Option Errno) (n : ℕ)
    → ProbeCase
        (record {
          has_memory_resource = resource;
          no_memory = no_memory;
          region_granted = region;
          is_mapped = mapped;
          has_irq = irq;
          irq_error = error;
        })
        n
unfolding eg_module_probe eg_module_remove request_irq error1 error2 error3 take put_back free_irq
    release same
ProbeCase-each false m g i q e n = refused enodev refl refl
ProbeCase-each true true g i q e n = refused enomem refl refl
ProbeCase-each true false false i q e n = refused ebusy refl refl
ProbeCase-each true false true false q e n = refused eio refl refl
ProbeCase-each true false true true false e n = probed _ refl (inl refl) refl refl
ProbeCase-each true false true true true none n = probed _ refl (inr refl) refl refl
ProbeCase-each true false true true true (some e) n = irq_refused e refl refl refl refl

-- A probe of a device that holds nothing has a result. Unless it finds its memory resource, has
-- memory and gets the region and its mapping, it fails and leaves nothing held. If it does and the
-- device has an interrupt that is refused, the error is that of the request, and it keeps the
-- mapping of the registers, and the kernel warns once because an interrupt is freed that was not
-- requested. In all other cases it succeeds, and the removal leaves the mapping of the registers,
-- and the kernel warns at the removal exactly if no interrupt had been requested.
pub eg_module_probe-ProbeCase : (q : Probing) (n : ℕ) → ProbeCase q n
eg_module_probe-ProbeCase q n =
    ProbeCase-each q.has_memory_resource q.no_memory q.region_granted q.is_mapped q.has_irq
      q.irq_error n
