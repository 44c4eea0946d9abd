-- ===== src/Vxhls/Registers.antt =====
-- vxhls/vxhls.c and the set-up of vxhls_dev.c: which registers a read and a write of one number reach.
use petalinux_driver.Prelude.{ℕ, ◌+◌, ◌*◌, ◌≡◌, List, ◌∷◌, ◌==◌, if◌then◌else◌, arith}
use petalinux_driver.Kernel.{Event, did_read, wrote, ok, ◌>>=◌}
use petalinux_driver.Vxhls.{regs_at, Accel, Device, vxhls_read_reg, vxhls_write_reg}

-- A device that keeps what is written to each of its addresses.
abbrev pub IsMemory : Device → Type 0
IsMemory p =
    ((t : List Event) (at v reg : ℕ) → p (wrote at v ∷ t) reg ≡ (if reg == at then v else p t reg))

-- On a device that keeps what is written to each of its addresses, and after a successful probe, a
-- write followed by a read of the same register number writes at four times the number and reads
-- at the number itself: the value comes back for register 0 only, and for every other register the
-- read gives what it gave before the write.
pub vxhls_read_reg-vxhls_write_reg :
    (p : Device) (a : Accel) (base reg value : ℕ)
    → IsMemory p
    → a.st ≡ regs_at base
    → (vxhls_write_reg reg value a >>= λ a'. vxhls_read_reg p reg a') ≡ (
        vxhls_read_reg p reg a >>= λ r. ok (
          if reg == 0 then value else r.0,
          record a { trace = did_read (base + reg) ∷ wrote (base + 4 * reg) value ∷ a.trace },
        ))
unfolding vxhls_read_reg vxhls_write_reg
vxhls_read_reg-vxhls_write_reg p a base reg value m st =
    ground (arith, m a.trace (base + 4 * reg) value (base + reg))
