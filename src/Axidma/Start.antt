-- ===== src/Axidma/Start.antt =====
-- axidma/axidma.c, the start of the module against the test of vxdma/vxdma_dev.c.
use petalinux_driver.Prelude.{◌≡◌, refl, sym, ap, ◌∙◌, subst, inl, inr, Bool-cases}
use petalinux_driver.Kernel.{
  dma_mem_to_dev, dma_dev_to_mem, Code, code, neg, Result, ok, fault, ◌>>=◌, >>=-eq-ok,
  ok-injective,
}
use petalinux_driver.Kernel.Ledger.{release, dma_channel}
use petalinux_driver.VxdmaDev.Test.{Trial, Bench, vxaxidma_test, axidma_test_transfer}
use petalinux_driver.VxdmaDev.Test.Buffers.{AreSound, TestCase}
use petalinux_driver.VxdmaDev.Test.Balance.{vxaxidma_test-TestCase}
use petalinux_driver.Axidma.{axidma_init}

-- The result of the test as the module gives it.
pub module_code : Code → Code
module_code (code n) = code 0
module_code (neg e) = neg e

pub rename : Code × Bench → Result (Code × Bench)
rename (r, b) = ok (module_code r, b)

bind-rename {ℓ} :
    {A : Type ℓ} (m : Result A) (k k' : A → Result (Code × Bench))
    → ((a : A) → k a ≡ (k' a >>= rename))
    → (m >>= k) ≡ ((m >>= k') >>= rename)
bind-rename (ok a) k k' h = h a
bind-rename (fault e) k k' h = refl

-- The end of a test, with each of the two results.
closed : Code → Bench → Result (Code × Bench)
closed r b = do
  held₁ ← release (dma_channel dma_mem_to_dev) b.held
  held₂ ← release (dma_channel dma_dev_to_mem) held₁
  ok (r, record b { held = held₂ })

closed-rename : (b : Bench) → closed (code 0) b ≡ (closed (code 1) b >>= rename)
unfolding closed rename module_code
closed-rename b =
    bind-rename (release (dma_channel dma_mem_to_dev) b.held) _ _
      (λ held₁. bind-rename (release (dma_channel dma_dev_to_mem) held₁) _ _ (λ held₂. refl))

-- The start of the module is the test of vxdma_dev.c, step by step and whatever it comes to; only a
-- success is 0 instead of 1.
pub axidma_init-vxaxidma_test :
    (t : Trial) (b : Bench) → axidma_init t b ≡ (vxaxidma_test t b >>= rename)
unfolding axidma_init vxaxidma_test rename module_code closed
axidma_init-vxaxidma_test t b = elim (Bool-cases t.rx_found) [
  | inr lost ↦ rw lost refl
  | inl got ↦ elim (Bool-cases t.tx_found) [
    | inr lost ↦ rw (got, lost) refl
    | inl got' ↦
        rw (got, got')
          (bind-rename (axidma_test_transfer _ _) (closed (code 0)) (closed (code 1)) closed-rename)
  ]
]

-- What the start of the module leaves.
pub axidma_init-TestCase :
    (t : Trial) (b b' : Bench) (r : Code)
    → AreSound b
    → axidma_init t b ≡ ok (r, b')
    → TestCase t b.held b'
unfolding rename
axidma_init-TestCase t b b' r v h =
    let ((r', b₁), e, same) =
      >>=-eq-ok (vxaxidma_test t b) rename (sym (axidma_init-vxaxidma_test t b) ∙ h) in
    subst (TestCase t b.held) (ap (λ (x : Code × Bench). x.1) (ok-injective same))
      (vxaxidma_test-TestCase t b b₁ r' v e)
