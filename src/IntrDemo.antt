-- ===== src/IntrDemo.antt =====
-- intrDemo/intrDemo.c: an interrupt that is passed on to a process as a signal, and the resources of
-- its device. The task found for the owner is kept until the next owner is set.
pub mod Signals
pub mod Resources
use petalinux_driver.Prelude.{
  ℕ, ◌+◌, Bool, true, false, List, [], ◌∷◌, Option, none, some, ◌==◌, if◌then◌else◌,
}
use petalinux_driver.Kernel.{
  Errno, enodev, enomem, ebusy, eio, efault, Code, code, neg, Fault, Result, ok, fault, ◌>>=◌,
}
use petalinux_driver.Kernel.Ledger.{
  Resource, buffer, io_region, io_mapping, irq_line, release, same,
}
use petalinux_driver.CharDev.{Holding, Answers, open_chardev}

-- The process table at one moment: `find_vpid` and `pid_task`, NULL as `none`.
pub record Processes : Type 0 where
  pub find_vpid : ℕ → Option ℕ
  pub pid_task : ℕ → Option ℕ

-- struct siginfo as the driver fills it, and the task it goes to.
pub record Signal : Type 0 where
  pub task : ℕ
  pub si_signo : ℕ
  pub si_code : ℕ
  pub si_int : ℕ

-- `pidOwner`, `current_task` and the signals sent, newest first.
pub record Demo : Type 0 where
  pub owner : ℕ
  pub current_task : Option ℕ
  pub sent : List Signal

abbrev pub signal_to : (signum task : ℕ) → Signal
signal_to signum task = record { task = task; si_signo = signum; si_code = 0; si_int = 1234 }

pub send_to : (signum task : ℕ) → Demo → Demo
send_to signum task s = record s { current_task = some task; sent = signal_to signum task ∷ s.sent }

unfoldable pub look_up : Processes → (owner : ℕ) → Option ℕ
look_up q owner = elim (q.find_vpid owner) [ none ↦ none | some pid ↦ q.pid_task pid ]

pub send_signal : Processes → (signum : ℕ) → Demo → Demo
send_signal q signum s = if s.owner == 0 then s else elim s.current_task [
  | some task ↦ send_to signum task s
  | none ↦ elim (look_up q s.owner) [ none ↦ s | some task ↦ send_to signum task s ]
]

-- `sigusr1` is the kernel's SIGUSR1.
pub eg_module_irq : (sigusr1 : ℕ) → Processes → Demo → Demo
eg_module_irq sigusr1 q s = send_signal q sigusr1 s

-- `left` is what the copy leaves in `pidOwner`, also when it fails.
pub intr_demo_ioctl : (copied : Bool) → (left : ℕ) → Demo → Code × Demo
intr_demo_ioctl copied left s =
    if copied
    then (code 1, record s { owner = left; current_task = none })
    else (neg efault, record s { owner = left })

-- The device's memory and interrupt, as the answers to its probe.
pub record Probing : Type 0 where
  pub has_memory_resource : Bool
  pub no_memory : Bool
  pub region_granted : Bool
  pub is_mapped : Bool
  pub has_irq : Bool
  pub irq_error : Option Errno

-- Whether the device's data is set, what is held, and how often an interrupt was freed that was not
-- held, which the kernel warns of.
pub record Local : Type 0 where
  pub drvdata : Bool
  pub held : List Resource
  pub warnings : ℕ

pub take : Resource → Local → Local
take r l = record l { held = r ∷ l.held }

pub put_back : Resource → Local → Result Local
put_back r l = do held ← release r l.held; ok (record l { held = held })

abbrev warned : Local → Result (List Resource) → Local
warned l (ok held) = record l { held = held }
warned l (fault e) = record l { warnings = l.warnings + 1 }

pub free_irq : Local → Local
free_irq l = warned l (release irq_line l.held)

-- The labels at the end of the probe.
pub error1 : Errno → Local → Result (Code × Local)
error1 e l = do l' ← put_back (buffer 0) l; ok (neg e, record l' { drvdata = false })

pub error2 : Errno → Local → Result (Code × Local)
error2 e l = do l' ← put_back io_region l; error1 e l'

pub error3 : Errno → Local → Result (Code × Local)
error3 e l = error2 e (free_irq l)

pub request_irq : Probing → Local → Result (Code × Local)
request_irq q l =
    if q.has_irq
    then elim q.irq_error [ none ↦ ok (code 0, take irq_line l) | some e ↦ error3 e l ]
    else ok (code 0, l)

pub eg_module_probe : Probing → Local → Result (Code × Local)
eg_module_probe q l =
    if q.has_memory_resource
    then (if q.no_memory
        then ok (neg enomem, l)
        else (let l₁ = take (buffer 0) (record l { drvdata = true }) in
            if q.region_granted
            then (let l₂ = take io_region l₁ in
                if q.is_mapped then request_irq q (take io_mapping l₂) else error2 eio l₂)
            else error1 ebusy l₁))
    else ok (neg enodev, l)

pub eg_module_remove : Local → Result (Code × Local)
eg_module_remove l =
    if l.drvdata
    then (do
      l₁ ← put_back io_region (free_irq l)
      l₂ ← put_back (buffer 0) l₁
      ok (code 0, record l₂ { drvdata = false }))
    else fault Fault.wild_access

-- The start of the module ends with the registration of its driver, which is not undone with it.
pub register_driver : (driver : Code) → Code × Holding → Code × Holding
register_driver driver (neg e, m) = (neg e, m)
register_driver driver (code _, m) = (driver, m)

pub eg_module_init : Answers → (driver : Code) → Holding → Code × Holding
eg_module_init q driver m = register_driver driver (open_chardev q m)

-- The end unregisters the driver only.
pub eg_module_exit : Holding → Holding
eg_module_exit m = m
