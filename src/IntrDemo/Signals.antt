-- ===== src/IntrDemo/Signals.antt =====
-- intrDemo/intrDemo.c, who gets the signals.
use petalinux_driver.Prelude.{ℕ, ◌≡◌, refl, ap, true, false, List, [], ◌∷◌, ◌++◌, some, ◌==◌, arith}
use petalinux_driver.IntrDemo.{
  Processes, Signal, Demo, signal_to, send_to, look_up, send_signal, eg_module_irq, intr_demo_ioctl,
}

-- Interrupts, each with the process table of its moment.
pub interrupts : (sigusr1 : ℕ) → List Processes → Demo → Demo
interrupts sigusr1 [] s = s
interrupts sigusr1 (q ∷ qs) s = interrupts sigusr1 qs (eg_module_irq sigusr1 q s)

abbrev pub copies : List Processes → Signal → List Signal
copies [] x = []
copies (q ∷ qs) x = x ∷ copies qs x

copies-shift :
    (qs : List Processes) (x : Signal) (l : List Signal)
    → copies qs x ++ x ∷ l ≡ x ∷ (copies qs x ++ l)
copies-shift [] x l = refl
copies-shift (q ∷ qs) x l = ap (λ (y : List Signal). x ∷ y) (copies-shift qs x l)

interrupts_cached :
    (sigusr1 task : ℕ) (qs : List Processes) (s : Demo)
    → (s.owner == 0) ≡ false
    → s.current_task ≡ some task
    → (interrupts sigusr1 qs s).sent ≡ copies qs (signal_to sigusr1 task) ++ s.sent
unfolding interrupts eg_module_irq send_signal send_to
interrupts_cached sigusr1 task [] s h k = refl
interrupts_cached sigusr1 task (q ∷ qs) s h k = ground (
  arith,
  interrupts_cached sigusr1 task qs (eg_module_irq sigusr1 q s) (ground arith) (ground arith),
  copies-shift qs (signal_to sigusr1 task) s.sent,
)

-- After an ioctl that sets a nonzero owner whose task is found at the first interrupt, every
-- interrupt sends one signal to that task, whatever the process table says of the owner at the
-- later ones.
pub interrupts-intr_demo_ioctl :
    (sigusr1 owner task : ℕ) (q : Processes) (qs : List Processes) (s : Demo)
    → (owner == 0) ≡ false
    → look_up q owner ≡ some task
    → (interrupts sigusr1 (q ∷ qs) (intr_demo_ioctl true owner s).1).sent
      ≡ copies (q ∷ qs) (signal_to sigusr1 task) ++ s.sent
unfolding interrupts eg_module_irq send_signal send_to intr_demo_ioctl
interrupts-intr_demo_ioctl sigusr1 owner task q qs s h k =
    let s' = eg_module_irq sigusr1 q (intr_demo_ioctl true owner s).1 in
    ground (
      arith,
      interrupts_cached sigusr1 task qs s' (ground arith) (ground arith),
      copies-shift qs (signal_to sigusr1 task) s.sent,
    )
