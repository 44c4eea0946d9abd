-- ===== src/Vxhls/Dev/Step.antt =====
-- vxhls/vxhls_dev.c, what one transfer of the test leaves behind.
use petalinux_driver.Prelude.{ℕ, ◌≡◌, refl, subst, true, List, [], ◌∷◌, eq_refl, arith}
use petalinux_driver.Kernel.{
  Direction, dma_mem_to_dev, dma_dev_to_mem, Code, code, neg, eperm, ok, >>=-eq-ok, ok-injective,
}
use petalinux_driver.Kernel.Ledger.{Resource, mapping, release, same}
use petalinux_driver.Vxdma.Chan.{Chan}
use petalinux_driver.Vxdma.Invariant.{Inv}
use petalinux_driver.VxdmaDev.Run.{prep_buffer_lem}
use petalinux_driver.VxdmaDev.Transfer.{axidma_start_transfer}
use petalinux_driver.VxdmaDev.Transfer.Wait.{axidma_start_transfer-Inv}
use petalinux_driver.VxdmaDev.Test.{Bench}
use petalinux_driver.VxdmaDev.Test.Buffers.{AreSound}
use petalinux_driver.Vxhls.Dev.{
  Side, matrix_length, submitted_side, one_way, xhls_load_input, xhls_wait_output,
}

-- What a refused submission keeps.
pub data Kept : List Resource → Type 0 where
  all_back : Kept []
  kept_mapping : (k : ℕ) → Kept (mapping k ∷ [])

-- One transfer adds at most its mapping to what was held.
data WayCase (held : List Resource) (c' : Chan) (r : Code) (held' : List Resource) : Type 0 where
  went : Inv c' → r ≡ code 1 → held' ≡ held → WayCase held c' r held'
  stuck : (k : ℕ) → Inv c' → r ≡ neg eperm → held' ≡ mapping k ∷ held → WayCase held c' r held'

submitted_side-WayCase :
    (t : Side) (side : ℕ) (k r : Code) (c c' : Chan) (held held' : List Resource)
    → Inv c
    → submitted_side t side k c (mapping side ∷ held) ≡ ok (r, c', held')
    → WayCase held c' r held'
unfolding submitted_side release same
submitted_side-WayCase t side (neg e) r c c' held held' v h =
    subst (λ (x : Code × Chan × List Resource). WayCase held x.1 x.0 x.2) (ok-injective h)
      (stuck side v refl refl)
submitted_side-WayCase t side (code cookie) r c c' held held' v h =
    let ((x, c₁), e, h₁) =
      >>=-eq-ok (axidma_start_transfer t.platform side cookie true t.wakes c) _ h in
    let (back, f, h₂) = >>=-eq-ok (release (mapping side) (mapping side ∷ held)) _ h₁ in
    let kept : back ≡ held = ground (arith, eq_refl side) in
    subst (λ (y : Code × Chan × List Resource). WayCase held y.1 y.0 y.2) (ok-injective h₂)
      (went (axidma_start_transfer-Inv t.platform side cookie true t.wakes c c₁ x v e) refl kept)

one_way-WayCase :
    (t : Side) (side : ℕ) (dir : Direction) (c c' : Chan) (held held' : List Resource) (r : Code)
    → Inv c
    → one_way t side dir c held ≡ ok (r, c', held')
    → WayCase held c' r held'
unfolding one_way
one_way-WayCase t side dir c c' held held' r v h =
    let (k, c₁, e, v₁, _) =
      prep_buffer_lem t.platform t.handle matrix_length dir side c v (omega arith) in
    submitted_side-WayCase t side k r c₁ c' held held' v₁ (ground arith)

-- A step of the test: with the channels sound, and at most a mapping kept.
pub data StepCase (held : List Resource) (r : Code) (b' : Bench) : Type 0 where
  stepped : AreSound b' → r ≡ code 1 → b'.held ≡ held → StepCase held r b'
  stopped : (k : ℕ) → AreSound b' → r ≡ neg eperm → b'.held ≡ mapping k ∷ held → StepCase held r b'

pub load_input-StepCase :
    (t : Side) (b b' : Bench) (r : Code)
    → AreSound b
    → xhls_load_input t b ≡ ok (r, b')
    → StepCase b.held r b'
unfolding xhls_load_input
load_input-StepCase t b b' r v h =
    let ((x, c₁, held), e, h₁) = >>=-eq-ok (one_way t 0 dma_mem_to_dev b.tx b.held) _ h in
    subst (λ (y : Code × Bench). StepCase b.held y.0 y.1) (ok-injective h₁)
      (elim (one_way-WayCase t 0 dma_mem_to_dev b.tx c₁ b.held held x v.tx e) [
        | went w k q ↦ stepped (record { rx = v.rx; tx = w }) k q
        | stuck n w k q ↦ stopped n (record { rx = v.rx; tx = w }) k q
      ])

pub wait_output-StepCase :
    (t : Side) (b b' : Bench) (r : Code)
    → AreSound b
    → xhls_wait_output t b ≡ ok (r, b')
    → StepCase b.held r b'
unfolding xhls_wait_output
wait_output-StepCase t b b' r v h =
    let ((x, c₁, held), e, h₁) = >>=-eq-ok (one_way t 1 dma_dev_to_mem b.rx b.held) _ h in
    subst (λ (y : Code × Bench). StepCase b.held y.0 y.1) (ok-injective h₁)
      (elim (one_way-WayCase t 1 dma_dev_to_mem b.rx c₁ b.held held x v.rx e) [
        | went w k q ↦ stepped (record { rx = w; tx = v.tx }) k q
        | stuck n w k q ↦ stopped n (record { rx = w; tx = v.tx }) k q
      ])
