-- ===== src/Vxhls/Dev/Ends.antt =====
-- vxhls/vxhls_dev.c, the test of the accelerator: that it ends, and where it does not.
use petalinux_driver.Prelude.{
  ℕ, ◌≡◌, refl, sym, ap, ◌∙◌, subst, Bool, true, false, ◌||◌, List, [], ◌∷◌, ◌++◌, inl, inr, ◌==◌,
  Bool-cases, arith,
}
use petalinux_driver.Kernel.{
  Direction, dma_mem_to_dev, dma_dev_to_mem, Code, code, neg, eperm, Fault, Result, ok, fault,
}
use petalinux_driver.Kernel.Ledger.{Resource, mapping, release, same}
use petalinux_driver.Vxdma.Chan.{Chan}
use petalinux_driver.Vxdma.Invariant.{Inv}
use petalinux_driver.VxdmaDev.{prep_buffer}
use petalinux_driver.VxdmaDev.Run.{prep_buffer_lem}
use petalinux_driver.VxdmaDev.Test.{Bench}
use petalinux_driver.VxdmaDev.Test.Buffers.{AreSound}
use petalinux_driver.VxdmaDev.Transfer.Ends.{
  Unanswered, Ends, ended, stuck, Ends-bind, start_transfer-Ends,
}
use petalinux_driver.Vxhls.{regs_of, regs_at, Accel, Device, vxhls_read_reg, vxhls_write_reg}
use petalinux_driver.Vxhls.Dev.{
  matrix_length, Side, submitted_side, one_way, xhls_load_input, xhls_wait_output, HlsTrial,
  setup_dma, release_all, free_all, read_output, after_input_b, after_input_a, after_setup,
  allocated, xhls_setup_accel, xhls_test,
}
use petalinux_driver.Vxhls.Dev.Step.{
  Kept, all_back, kept_mapping, StepCase, stepped, stopped, load_input-StepCase,
  wait_output-StepCase,
}
use petalinux_driver.Vxhls.Dev.Balance.{set_up, release_all-set_up, HlsLeft, xhls_test-HlsLeft}

-- The transfer of one side is submitted, and the wait for its cookie cannot be answered.
pub record Unwaited (s : Side) (side : ℕ) (dir : Direction) (c : Chan) : Type 0 where
  pub cookie : ℕ
  pub submitted : Chan
  pub submit :
      prep_buffer s.platform s.handle matrix_length dir side c ≡ ok (code cookie, submitted)
  pub wait : Unanswered s.platform cookie s.wakes submitted

-- The test up to the input of the second matrix, and up to the wait for the output.
pub record FirstIn (t : HlsTrial) (b b₁ : Bench) : Type 0 where
  pub result : ℕ
  pub load : xhls_load_input t.input_a b ≡ ok (code result, b₁)

pub record BothIn (t : HlsTrial) (b b₂ : Bench) : Type 0 where
  pub bench : Bench
  pub first : FirstIn t b bench
  pub result : ℕ
  pub load : xhls_load_input t.input_b bench ≡ ok (code result, b₂)

-- Why a test does not end: a wait of its own whose query cannot be answered, or an output that is
-- not there once the test has waited for it.
pub data HlsStuck (t : HlsTrial) (b : Bench) : Type 0 where
  in_input_a : Unwaited (t.input_a) 0 dma_mem_to_dev (b.tx) → HlsStuck t b
  in_input_b :
      (b₁ : Bench) → FirstIn t b b₁ → Unwaited (t.input_b) 0 dma_mem_to_dev (b₁.tx) → HlsStuck t b
  in_output :
      (b₂ : Bench) → BothIn t b b₂ → Unwaited (t.output) 1 dma_dev_to_mem (b₂.rx) → HlsStuck t b
  without_output :
      (b₂ b₃ : Bench) (r : Code)
      → BothIn t b b₂
      → xhls_wait_output t.output b₂ ≡ ok (r, b₃)
      → t.no_output ≡ true
      → HlsStuck t b

module _ (R : Type 0) where
  submitted_side-Ends :
      (s : Side) (side : ℕ) (r : Code) (c : Chan) (held : List Resource)
      → Inv c
      → ((k : ℕ) → r ≡ code k → Unanswered s.platform k s.wakes c → R)
      → Ends R (submitted_side s side r c (mapping side ∷ held))
  unfolding submitted_side release same
  submitted_side-Ends s side (neg e) c held v why = ended (neg eperm, c, mapping side ∷ held) refl
  submitted_side-Ends s side (code k) c held v why =
      Ends-bind R _ _ (start_transfer-Ends R s.platform side k s.wakes c v (why k refl)) (λ x _.
        let own : (side == side) ≡ true = ground arith in
        Ends-bind R (release (mapping side) (mapping side ∷ held)) _ (ended held (simp own))
          (λ held' _. ended (code 1, x.1, held') refl))

  one_way-Ends :
      (s : Side) (side : ℕ) (dir : Direction) (c : Chan) (held : List Resource)
      → Inv c
      → (Unwaited s side dir c → R)
      → Ends R (one_way s side dir c held)
  unfolding one_way
  one_way-Ends s side dir c held v why =
      let (k, c', e, v₁, _) =
        prep_buffer_lem s.platform s.handle matrix_length dir side c v (omega arith) in
      simp e (
        submitted_side-Ends s side k c' held v₁ (λ n one u.
          why (record {
            cookie = n;
            submitted = c';
            submit = e ∙ ap (λ x. ok (x, c')) one;
            wait = u;
          })))

  load_input-Ends :
      (s : Side) (b : Bench)
      → AreSound b
      → (Unwaited s 0 dma_mem_to_dev (b.tx) → R)
      → Ends R (xhls_load_input s b)
  unfolding xhls_load_input
  load_input-Ends s b v why =
      Ends-bind R _ _ (one_way-Ends s 0 dma_mem_to_dev b.tx b.held v.tx why) (λ x _. ended _ refl)

  wait_output-Ends :
      (s : Side) (b : Bench)
      → AreSound b
      → (Unwaited s 1 dma_dev_to_mem (b.rx) → R)
      → Ends R (xhls_wait_output s b)
  unfolding xhls_wait_output
  wait_output-Ends s b v why =
      Ends-bind R _ _ (one_way-Ends s 1 dma_dev_to_mem b.rx b.held v.rx why) (λ x _. ended _ refl)

module _ (t : HlsTrial) (b₀ : Bench) (before : List Resource) where
  free_all-Ends :
      (result : Code) (b : Bench) (l : List Resource)
      → Kept l
      → b.held ≡ l ++ set_up t.tx_found t.rx_found t.no_output before
      → Ends (HlsStuck t b₀) (free_all t result b)
  unfolding free_all
  free_all-Ends result b l k q =
      let back =
        ap (release_all t.tx_found t.rx_found t.no_output) q
        ∙ release_all-set_up t.tx_found t.rx_found t.no_output l before k in
      Ends-bind (HlsStuck t b₀) (release_all t.tx_found t.rx_found t.no_output b.held) _
        (ended (l ++ before) back) (λ held _. ended _ refl)

  -- What a step of the test leaves can be given back.
  step-Ends :
      (result : Code) (b b₁ : Bench) (r : Code)
      → b.held ≡ set_up t.tx_found t.rx_found t.no_output before
      → StepCase b.held r b₁
      → Ends (HlsStuck t b₀) (free_all t result b₁)
  step-Ends result b b₁ r q (stepped w k p) = free_all-Ends result b₁ [] all_back (p ∙ q)
  step-Ends result b b₁ r q (stopped n w k p) =
      free_all-Ends result b₁ (mapping n ∷ []) (kept_mapping n)
        (p ∙ ap (λ (l : List Resource). mapping n ∷ l) q)

  read_output-Ends :
      (b : Bench)
      → BothIn t b₀ b
      → AreSound b
      → b.held ≡ set_up t.tx_found t.rx_found t.no_output before
      → Ends (HlsStuck t b₀) (read_output t b)
  unfolding read_output
  read_output-Ends b i v q =
      Ends-bind (HlsStuck t b₀) (xhls_wait_output t.output b) _
        (wait_output-Ends (HlsStuck t b₀) t.output b v (in_output b i))
        (λ x e. elim (Bool-cases t.no_output) [
          | inl missing ↦ stuck (without_output b x.1 x.0 i e missing) (simp missing)
          | inr there ↦
              simp there
                (step-Ends (code 1) b x.1 x.0 q (wait_output-StepCase t.output b x.1 x.0 v e))
        ])

  after_input_b-Ends :
      (r : Code) (b b₁ : Bench)
      → FirstIn t b₀ b
      → xhls_load_input t.input_b b ≡ ok (r, b₁)
      → b.held ≡ set_up t.tx_found t.rx_found t.no_output before
      → StepCase b.held r b₁
      → Ends (HlsStuck t b₀) (after_input_b t (r, b₁))
  unfolding after_input_b
  after_input_b-Ends (neg e) b b₁ i l q s = step-Ends (neg eperm) b b₁ (neg e) q s
  after_input_b-Ends (code j) b b₁ i l q (stepped w k p) =
      read_output-Ends b₁ (record { bench = b; first = i; result = j; load = l }) w (p ∙ q)
  after_input_b-Ends (code j) b b₁ i l q (stopped n w k p) = cc

  after_input_a-Ends :
      (r : Code) (b b₁ : Bench)
      → xhls_load_input t.input_a b₀ ≡ ok (r, b₁)
      → b.held ≡ set_up t.tx_found t.rx_found t.no_output before
      → StepCase b.held r b₁
      → Ends (HlsStuck t b₀) (after_input_a t (r, b₁))
  unfolding after_input_a
  after_input_a-Ends (neg e) b b₁ l q s = step-Ends (neg eperm) b b₁ (neg e) q s
  after_input_a-Ends (code j) b b₁ l q (stepped w k p) =
      let i : FirstIn t b₀ b₁ = record { result = j; load = l } in
      Ends-bind (HlsStuck t b₀) (xhls_load_input t.input_b b₁) _
        (load_input-Ends (HlsStuck t b₀) t.input_b b₁ w (in_input_b b₁ i))
        (λ x e.
          after_input_b-Ends x.0 b₁ x.1 i e (p ∙ q) (load_input-StepCase t.input_b b₁ x.1 x.0 w e))
  after_input_a-Ends (code j) b b₁ l q (stopped n w k p) = cc

  after_setup-Ends :
      (r : Code)
      → AreSound b₀
      → b₀.held ≡ set_up t.tx_found t.rx_found t.no_output before
      → Ends (HlsStuck t b₀) (after_setup t (r, b₀))
  unfolding after_setup
  after_setup-Ends (neg e) v q = free_all-Ends (neg eperm) b₀ [] all_back q
  after_setup-Ends (code j) v q =
      Ends-bind (HlsStuck t b₀) (xhls_load_input t.input_a b₀) _
        (load_input-Ends (HlsStuck t b₀) t.input_a b₀ v in_input_a)
        (λ x e. after_input_a-Ends x.0 b₀ x.1 e q (load_input-StepCase t.input_a b₀ x.1 x.0 v e))

-- What the test comes to.
pub data HlsCase (t : HlsTrial) (b : Bench) (m : Result (Code × Bench × Accel)) : Type 0 where
  done : (r : Code) (b' : Bench) (a' : Accel) → m ≡ ok (r, b', a') → HlsLeft t b b' → HlsCase t b m
  unended :
      t.no_input_a ≡ false
      → t.no_input_b ≡ false
      → HlsStuck t (setup_dma t (allocated t b)).1
      → m ≡ fault Fault.wild_access
      → HlsCase t b m

-- The registers are there.
setup_accel-is_ok :
    (p : Device) (base : ℕ) (a : Accel)
    → a.st ≡ regs_at base
    → (x : Code × Accel) × (xhls_setup_accel p a ≡ ok x)
unfolding xhls_setup_accel vxhls_read_reg vxhls_write_reg regs_of
setup_accel-is_ok p base a h =
    subst (λ st. (x : Code × Accel) × (xhls_setup_accel p (record a { st = st }) ≡ ok x)) (sym h)
      (_, refl)

neither : (a b : Bool) → (a || b) ≡ false → (a ≡ false) × (b ≡ false)
neither a b h = (ground arith, ground arith)

-- On two channels that satisfy the invariant, and with the registers of the accelerator mapped, the
-- test has a result, whatever the devices answer, unless the query behind one of its three waits
-- cannot be answered, for the cookie that the submission before it gave, or it reads, after the
-- last wait, an output buffer that could not be allocated. Then it is a wild access. With a result,
-- it either found an input buffer missing, and then leaves the channels as they were and keeps the
-- buffers that were allocated, or it keeps at most one mapping on top of what was held before, and
-- both channels satisfy the invariant after it.
pub xhls_test-HlsCase :
    (p : Device) (t : HlsTrial) (base : ℕ) (b : Bench) (a : Accel)
    → AreSound b
    → a.st ≡ regs_at base
    → HlsCase t b (xhls_test p t b a)
unfolding xhls_test setup_dma
xhls_test-HlsCase p t base b a v h =
    let finish : (r : Code) (b' : Bench) (a' : Accel)
        → xhls_test p t b a ≡ ok (r, b', a')
        → HlsCase t b (xhls_test p t b a) =
      λ r b' a' e. done r b' a' e (xhls_test-HlsLeft p t b b' a a' r v e) in
    elim (Bool-cases (t.no_input_a || t.no_input_b)) [
      | inl missing ↦ finish (neg eperm) (allocated t b) a (simp missing)
      | inr there ↦
          let ((r₁, a₁), e) = setup_accel-is_ok p base a h in
          let (s, b₁) = setup_dma t (allocated t b) in
          let held : b₁.held ≡ set_up t.tx_found t.rx_found t.no_output b.held = ground arith in
          elim (after_setup-Ends t b₁ b.held s (record { rx = v.rx; tx = v.tx }) held) [
            | ended (r, b') f ↦ finish r b' a₁ (simp (there, e, f))
            | stuck why bad ↦
                let (none_a, none_b) = neither t.no_input_a t.no_input_b there in
                unended none_a none_b why (simp (there, e, bad))
          ]
    ]
