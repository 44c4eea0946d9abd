-- ===== src/VxdmaDev/Test/Balance.antt =====
-- vxdma/vxdma_dev.c, what the test of the ioctl leaves behind.
use petalinux_driver.Prelude.{
  ℕ, ◌≡◌, refl, sym, ap, ◌∙◌, subst, true, List, [], ◌∷◌, ◌++◌, inl, inr, ◌==◌, leb, Bool-cases,
  if◌then◌else◌, arith,
}
use petalinux_driver.Kernel.{
  dma_mem_to_dev, dma_dev_to_mem, Code, code, neg, eperm, Result, ok, ◌>>=◌, >>=-eq-ok,
  ok-injective,
}
use petalinux_driver.Kernel.Ledger.{Resource, dma_channel, release, same}
use petalinux_driver.VxdmaDev.Test.{
  Bench, Trial, axidma_test_transfer, vxaxidma_test, vxdma_dev_ioctl,
}
use petalinux_driver.VxdmaDev.Test.Buffers.{
  AreSound, Leak, clean, only_tx, only_rx, only_src, only_dest, not_submitted, TestCase, left,
  test_transfer-TestCase,
}

abbrev pub channels_of : List Resource → List Resource
channels_of held = dma_channel dma_dev_to_mem ∷ dma_channel dma_mem_to_dev ∷ held

-- The end of the test, where both channels are released.
abbrev pub released : Bench → Result (Code × Bench)
released b₁ = release (dma_channel dma_mem_to_dev) b₁.held >>= λ held₁.
    release (dma_channel dma_dev_to_mem) held₁ >>= λ held₂. ok (code 1, record b₁ { held = held₂ })

-- Both channels can be released from under whatever a test left.
pub release_channels :
    (t : Trial) (l before : List Resource)
    → Leak t l
    → t.rx_found ≡ true
    → t.tx_found ≡ true
    → (release (dma_channel dma_mem_to_dev) (l ++ channels_of before) >>= λ held.
        release (dma_channel dma_dev_to_mem) held)
      ≡ ok (l ++ before)
unfolding release same
release_channels t _ before clean r x = refl
release_channels t _ before (only_tx a b) r x = cc
release_channels t _ before (only_rx a b) r x = cc
release_channels t _ before (only_src a b) r x = refl
release_channels t _ before (only_dest a b) r x = refl
release_channels t _ before (not_submitted a b) r x = refl

released-TestCase :
    (t : Trial) (b : Bench) (held₁ held₂ before : List Resource)
    → TestCase t (channels_of before) b
    → t.rx_found ≡ true
    → t.tx_found ≡ true
    → release (dma_channel dma_mem_to_dev) b.held ≡ ok held₁
    → release (dma_channel dma_dev_to_mem) held₁ ≡ ok held₂
    → TestCase t before (record b { held = held₂ })
released-TestCase t b held₁ held₂ before (left l k v q) rx tx e₁ e₂ =
    let back = release_channels t l before k rx tx in
    left l k (record { rx = v.rx; tx = v.tx }) (ground (arith, back))

-- What the ioctl leaves: the result, and what it adds to what was held.
pub record Left (t : Trial) (cmd : ℕ) (b : Bench) (r : Code) (b' : Bench) : Type 0 where
  pub added : List Resource
  pub leak : Leak t added
  pub sound : AreSound b'
  pub held : b'.held ≡ added ++ b.held
  pub result : r ≡ (if leb cmd 1 then code 0 else neg eperm)

pub vxaxidma_test-TestCase :
    (t : Trial) (b b' : Bench) (r : Code)
    → AreSound b
    → vxaxidma_test t b ≡ ok (r, b')
    → TestCase t b.held b'
unfolding vxaxidma_test
vxaxidma_test-TestCase t b b' r v h =
    let sound : (l : List Resource) → AreSound (record b { held = l }) =
      λ l. record { rx = v.rx; tx = v.tx } in
    elim (Bool-cases t.rx_found) [
      | inr lost ↦ elim (Bool-cases t.tx_found) [
        | inr lost' ↦ subst (TestCase t b.held) (ground arith) (left [] clean (sound b.held) refl)
        | inl got ↦ subst (TestCase t b.held) (ground arith) (
            left (dma_channel dma_mem_to_dev ∷ []) (only_tx lost got)
              (sound (dma_channel dma_mem_to_dev ∷ b.held)) refl)
      ]
      | inl got ↦ elim (Bool-cases t.tx_found) [
        | inr lost ↦ subst (TestCase t b.held) (ground arith) (
            left (dma_channel dma_dev_to_mem ∷ []) (only_rx got lost)
              (sound (dma_channel dma_dev_to_mem ∷ b.held)) refl)
        | inl got' ↦
            let b₀ = record b { held = channels_of b.held } in
            let h' : (axidma_test_transfer t b₀ >>= released) ≡ ok (r, b') = ground arith in
            let (b₁, e, h₁) = >>=-eq-ok (axidma_test_transfer t b₀) released h' in
            let (held₁, e₁, h₂) = >>=-eq-ok (release (dma_channel dma_mem_to_dev) b₁.held) _ h₁ in
            let (held₂, e₂, h₃) = >>=-eq-ok (release (dma_channel dma_dev_to_mem) held₁) _ h₂ in
            subst (TestCase t b.held) (ap (λ (x : Code × Bench). x.1) (ok-injective h₃)) (
              released-TestCase t b₁ held₁ held₂ b.held
                (test_transfer-TestCase t b₀ b₁ (sound (channels_of b.held)) e) got got' e₁ e₂)
      ]
    ]

TestCase-Left :
    (t : Trial) (cmd : ℕ) (b b' : Bench) (r : Code)
    → r ≡ (if leb cmd 1 then code 0 else neg eperm)
    → TestCase t b.held b'
    → Left t cmd b r b'
TestCase-Left t cmd b b' r e (left l k v q) = record {
  added = l;
  leak = k;
  sound = v;
  held = q;
  result = e;
}

-- If the ioctl has a result on two channels that satisfy the invariant, both satisfy it after it.
-- What the module holds has grown by nothing, or by the one channel that was found where the other
-- was not, or by the one buffer that was allocated where the other was not, or by both buffers and
-- both mappings. The result is 0 for both commands, whatever the test came to, and an error for
-- every other command.
pub vxdma_dev_ioctl-Left :
    (t : Trial) (cmd : ℕ) (b b' : Bench) (r : Code)
    → AreSound b
    → vxdma_dev_ioctl t cmd b ≡ ok (r, b')
    → Left t cmd b r b'
unfolding vxdma_dev_ioctl
vxdma_dev_ioctl-Left t cmd b b' r v h = elim (Bool-cases (cmd == 0)) [
  | inr other ↦
      TestCase-Left t cmd b b' r (ground arith)
        (subst (TestCase t b.held) (ground arith) (left [] clean v refl))
  | inl test ↦
      let small : (if leb cmd 1 then code 0 else neg eperm) ≡ code 0 = ground arith in
      let h' : (vxaxidma_test t b >>= λ (x : Code × Bench). ok (code 0, x.1)) ≡ ok (r, b') =
        ground arith in
      let ((r₁, b₁), e, h₁) = >>=-eq-ok (vxaxidma_test t b) _ h' in
      TestCase-Left t cmd b b' r
        (sym (ap (λ (x : Code × Bench). x.0) (ok-injective h₁)) ∙ sym small)
        (subst (TestCase t b.held) (ap (λ (x : Code × Bench). x.1) (ok-injective h₁))
          (vxaxidma_test-TestCase t b b₁ r₁ v e))
]
