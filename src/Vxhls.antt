-- ===== src/Vxhls.antt =====
-- vxhls/vxhls.c: the registers of the accelerator, its probe and its removal. `st` is the module's
-- pointer to its state.
pub mod Registers
pub mod Dev
use petalinux_driver.Prelude.{
  ℕ, ◌+◌, ◌*◌, Bool, true, false, List, [], ◌∷◌, Option, none, some, bit_and, bit_or, ◌==◌,
  if◌then◌else◌,
}
use petalinux_driver.IntrDemo.{Local, eg_module_remove}
use petalinux_driver.Kernel.{
  Event, did_read, wrote, Errno, enodev, eperm, Code, code, neg, Fault, Result, ok, fault, ◌>>=◌,
}

-- What `st` leads to: nothing before the probe, the error pointer of a failed mapping, or registers.
pub data State : Type 0 where
  no_state bad_regs : State
  regs_at : ℕ → State

pub record Accel : Type 0 where
  pub st : State
  pub trace : List Event

-- The registers answer by the history of their accesses.
abbrev pub Device : Type 0
Device = List Event → ℕ → ℕ

pub regs_of : State → Result ℕ
regs_of no_state = fault Fault.wild_access
regs_of bad_regs = fault Fault.wild_access
regs_of (regs_at base) = ok base

-- A read counts bytes.
pub vxhls_read_reg : Device → (reg : ℕ) → Accel → Result (ℕ × Accel)
unfolding regs_of
vxhls_read_reg p reg a = do
  base ← regs_of a.st
  ok (p a.trace (base + reg), record a { trace = did_read (base + reg) ∷ a.trace })

-- A write counts words.
pub vxhls_write_reg : (reg value : ℕ) → Accel → Result Accel
unfolding regs_of
vxhls_write_reg reg value a = do
  base ← regs_of a.st
  ok (record a { trace = wrote (base + 4 * reg) value ∷ a.trace })

-- The answers to the probe: a match, memory, the mapping or its error, and what the uninitialised
-- result holds.
pub record Probing : Type 0 where
  pub matches : Bool
  pub no_memory : Bool
  pub ioremap : Option ℕ
  pub ioremap_error : Errno
  pub garbage : Code

pub probe_mapped : Probing → Option ℕ → Accel → Result (Code × Accel)
probe_mapped q none a = ok (neg q.ioremap_error, record a { st = bad_regs })
probe_mapped q (some base) a = do
  a' ← vxhls_write_reg 0 1 (record a { st = regs_at base })
  ok (q.garbage, a')

-- The memory is not tested before its field is written.
pub vxhls_probe : Probing → Accel → Result (Code × Accel)
vxhls_probe q a =
    let mapped = probe_mapped q q.ioremap a in
    if q.matches
    then (if q.no_memory then fault Fault.wild_access else mapped)
    else ok (neg enodev, a)

-- The removal is that of intrDemo/intrDemo.c, by the device's data, which this probe never sets.
abbrev pub vxhls_remove : Local → Result (Code × Local)
vxhls_remove = eg_module_remove
