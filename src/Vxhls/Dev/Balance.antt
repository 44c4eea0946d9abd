-- ===== src/Vxhls/Dev/Balance.antt =====
-- vxhls/vxhls_dev.c, what the test of the ioctl leaves behind.
use petalinux_driver.Prelude.{
  ◌≡◌, refl, sym, ap, ◌∙◌, subst, Bool, true, false, not, ◌||◌, List, [], ◌∷◌, ◌++◌, inl, inr,
  Bool-cases, arith,
}
use petalinux_driver.Kernel.{
  dma_mem_to_dev, dma_dev_to_mem, Code, code, neg, eperm, Result, ok, ◌>>=◌, >>=-eq-ok,
  ok-injective,
}
use petalinux_driver.Kernel.Ledger.{Resource, buffer, mapping, dma_channel, release, same}
use petalinux_driver.VxdmaDev.Test.{Bench, acquire}
use petalinux_driver.VxdmaDev.Test.Buffers.{AreSound}
use petalinux_driver.Vxhls.{Accel, Device}
use petalinux_driver.Vxhls.Dev.{
  xhls_load_input, xhls_wait_output, HlsTrial, setup_dma, release_all, free_all, read_output,
  after_input_b, after_input_a, after_setup, allocated, xhls_setup_accel, xhls_test,
}
use petalinux_driver.Vxhls.Dev.Step.{
  Kept, all_back, kept_mapping, StepCase, stepped, stopped, load_input-StepCase,
  wait_output-StepCase,
}

-- What the test holds once its buffers and channels are asked for.
abbrev pub set_up : (tx rx no_output : Bool) → List Resource → List Resource
set_up tx rx no_output before = acquire (not rx) (dma_channel dma_dev_to_mem) (
    acquire (not tx) (dma_channel dma_mem_to_dev)
      (acquire no_output (buffer 2) (buffer 1 ∷ buffer 0 ∷ before)))

pub release_all-set_up :
    (tx rx no_output : Bool) (l before : List Resource)
    → Kept l
    → release_all tx rx no_output (l ++ set_up tx rx no_output before) ≡ ok (l ++ before)
unfolding release_all release same
release_all-set_up true true true _ before all_back = refl
release_all-set_up true true true _ before (kept_mapping k) = refl
release_all-set_up true true false _ before all_back = refl
release_all-set_up true true false _ before (kept_mapping k) = refl
release_all-set_up true false true _ before all_back = refl
release_all-set_up true false true _ before (kept_mapping k) = refl
release_all-set_up true false false _ before all_back = refl
release_all-set_up true false false _ before (kept_mapping k) = refl
release_all-set_up false true true _ before all_back = refl
release_all-set_up false true true _ before (kept_mapping k) = refl
release_all-set_up false true false _ before all_back = refl
release_all-set_up false true false _ before (kept_mapping k) = refl
release_all-set_up false false true _ before all_back = refl
release_all-set_up false false true _ before (kept_mapping k) = refl
release_all-set_up false false false _ before all_back = refl
release_all-set_up false false false _ before (kept_mapping k) = refl

-- The end of a test: what it adds to what was held, and its result.
pub data EndCase (before : List Resource) (r : Code) (b' : Bench) : Type 0 where
  ended_with :
      (l : List Resource) → Kept l → AreSound b' → b'.held ≡ l ++ before → EndCase before r b'

free_all-EndCase :
    (t : HlsTrial) (result r : Code) (b b' : Bench) (l before : List Resource)
    → AreSound b
    → Kept l
    → b.held ≡ l ++ set_up t.tx_found t.rx_found t.no_output before
    → free_all t result b ≡ ok (r, b')
    → EndCase before r b'
unfolding free_all
free_all-EndCase t result r b b' l before v k q h =
    let (held, e, n) = >>=-eq-ok (release_all t.tx_found t.rx_found t.no_output b.held) _ h in
    let back =
      ap (release_all t.tx_found t.rx_found t.no_output) q
      ∙ release_all-set_up t.tx_found t.rx_found t.no_output l before k in
    subst (λ (x : Code × Bench). EndCase before x.0 x.1) (ok-injective n)
      (ended_with l k (record { rx = v.rx; tx = v.tx }) (ok-injective (sym e ∙ back)))

module _ (t : HlsTrial) (before : List Resource) where
  abbrev IsSetUp : Bench → Type 0
  IsSetUp b = b.held ≡ set_up t.tx_found t.rx_found t.no_output before

  abbrev IsSetUpWith : List Resource → Bench → Type 0
  IsSetUpWith l b = b.held ≡ l ++ set_up t.tx_found t.rx_found t.no_output before

  read_output-EndCase :
      (b b' : Bench) (r : Code)
      → AreSound b
      → IsSetUp b
      → read_output t b ≡ ok (r, b')
      → EndCase before r b'
  unfolding read_output
  read_output-EndCase b b' r v q h =
      let ((x, b₁), e, h₁) = >>=-eq-ok (xhls_wait_output t.output b) _ h in
      let h₂ : free_all t (code 1) b₁ ≡ ok (r, b') = ground arith in
      elim (wait_output-StepCase t.output b b₁ x v e) [
        | stepped w k p ↦ free_all-EndCase t (code 1) r b₁ b' [] before w all_back (p ∙ q) h₂
        | stopped n w k p ↦
            free_all-EndCase t (code 1) r b₁ b' (mapping n ∷ []) before w (kept_mapping n)
              (p ∙ ap (λ (l : List Resource). mapping n ∷ l) q) h₂
      ]

  after_input_b-EndCase :
      (x r : Code) (b₀ b b' : Bench)
      → IsSetUp b₀
      → StepCase b₀.held x b
      → after_input_b t (x, b) ≡ ok (r, b')
      → EndCase before r b'
  unfolding after_input_b
  after_input_b-EndCase (neg e) r b₀ b b' q (stepped v k p) h = cc
  after_input_b-EndCase (neg e) r b₀ b b' q (stopped n v k p) h =
      free_all-EndCase t (neg eperm) r b b' (mapping n ∷ []) before v (kept_mapping n)
        (p ∙ ap (λ (l : List Resource). mapping n ∷ l) q) h
  after_input_b-EndCase (code j) r b₀ b b' q (stepped v k p) h =
      read_output-EndCase b b' r v (p ∙ q) h
  after_input_b-EndCase (code j) r b₀ b b' q (stopped n v k p) h = cc

  after_input_a-EndCase :
      (x r : Code) (b₀ b b' : Bench)
      → IsSetUp b₀
      → StepCase b₀.held x b
      → after_input_a t (x, b) ≡ ok (r, b')
      → EndCase before r b'
  unfolding after_input_a
  after_input_a-EndCase (neg e) r b₀ b b' q (stepped v k p) h = cc
  after_input_a-EndCase (neg e) r b₀ b b' q (stopped n v k p) h =
      free_all-EndCase t (neg eperm) r b b' (mapping n ∷ []) before v (kept_mapping n)
        (p ∙ ap (λ (l : List Resource). mapping n ∷ l) q) h
  after_input_a-EndCase (code j) r b₀ b b' q (stopped n v k p) h = cc
  after_input_a-EndCase (code j) r b₀ b b' q (stepped v k p) h =
      let ((x, b₁), e, h₁) = >>=-eq-ok (xhls_load_input t.input_b b) _ h in
      after_input_b-EndCase x r b b₁ b' (p ∙ q) (load_input-StepCase t.input_b b b₁ x v e) h₁

  after_setup-EndCase :
      (x r : Code) (b b' : Bench)
      → AreSound b
      → IsSetUp b
      → after_setup t (x, b) ≡ ok (r, b')
      → EndCase before r b'
  unfolding after_setup
  after_setup-EndCase (neg e) r b b' v q h =
      free_all-EndCase t (neg eperm) r b b' [] before v all_back q h
  after_setup-EndCase (code j) r b b' v q h =
      let ((x, b₁), e, h₁) = >>=-eq-ok (xhls_load_input t.input_a b) _ h in
      after_input_a-EndCase x r b b₁ b' q (load_input-StepCase t.input_a b b₁ x v e) h₁

-- What the ioctl's test leaves.
pub data HlsLeft (t : HlsTrial) (b b' : Bench) : Type 0 where
  no_input : (t.no_input_a || t.no_input_b) ≡ true → b' ≡ allocated t b → HlsLeft t b b'
  tested :
      (l : List Resource)
      → (t.no_input_a || t.no_input_b) ≡ false
      → Kept l
      → AreSound b'
      → b'.held ≡ l ++ b.held
      → HlsLeft t b b'

-- If the test of the accelerator has a result on two channels that satisfy the invariant, it
-- either found an input buffer missing, and then leaves the channels as they were and keeps the
-- buffers that were allocated, or it keeps at most one mapping on top of what was held before, and
-- both channels satisfy the invariant after it.
pub xhls_test-HlsLeft :
    (p : Device) (t : HlsTrial) (b b' : Bench) (a a' : Accel) (r : Code)
    → AreSound b
    → xhls_test p t b a ≡ ok (r, b', a')
    → HlsLeft t b b'
unfolding xhls_test setup_dma
xhls_test-HlsLeft p t b b' a a' r v h = elim (Bool-cases (t.no_input_a || t.no_input_b)) [
  | inl missing ↦ no_input missing (ground arith)
  | inr there ↦
      let b₀ = allocated t b in
      let finish : Accel → Code × Bench → Result (Code × Bench × Accel) =
        λ a₁ y. ok (y.0, y.1, a₁) in
      let rest : Code × Accel → Result (Code × Bench × Accel) =
        λ x. after_setup t (setup_dma t b₀) >>= λ y. finish x.1 y in
      let more : (xhls_setup_accel p a >>= rest) ≡ ok (r, b', a') = ground arith in
      let ((x, a₁), e, h₁) = >>=-eq-ok (xhls_setup_accel p a) rest more in
      let ((y, b₂), f, h₂) = >>=-eq-ok (after_setup t (setup_dma t b₀)) (finish a₁) h₁ in
      let (s, b₁) = setup_dma t b₀ in
      let same_end : b₂ ≡ b' = ap (λ (z : Code × Bench × Accel). z.1) (ok-injective h₂) in
      let held : b₁.held ≡ set_up t.tx_found t.rx_found t.no_output b.held = ground arith in
      elim (after_setup-EndCase t b.held s y b₁ b₂ (record { rx = v.rx; tx = v.tx }) held f) [
        | ended_with l k w q ↦ subst (HlsLeft t b) same_end (tested l there k w q)
      ]
]
