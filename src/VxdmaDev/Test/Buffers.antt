-- ===== src/VxdmaDev/Test/Buffers.antt =====
-- vxdma/vxdma_dev.c, what the transfer between the two buffers of the test leaves behind.
use petalinux_driver.Prelude.{
  ℕ, ◌≡◌, refl, sym, ap, ◌∙◌, subst, true, false, List, [], ◌∷◌, ◌++◌, map, inl, inr, Bool-cases,
  arith,
}
use petalinux_driver.Kernel.{
  dma_mem_to_dev, dma_dev_to_mem, Platform, Code, code, neg, ok, >>=-eq-ok, ok-injective,
}
use petalinux_driver.Kernel.Ledger.{Resource, buffer, mapping, dma_channel, release, same}
use petalinux_driver.Vxdma.Chan.{Chan}
use petalinux_driver.Vxdma.Invariant.{Inv}
use petalinux_driver.VxdmaDev.Client.{Outcome, run}
use petalinux_driver.VxdmaDev.Run.{run_lem, prep_buffer_lem}
use petalinux_driver.VxdmaDev.Transfer.{Wake, wake_op, axidma_start_transfer}
use petalinux_driver.VxdmaDev.Transfer.Wait.{axidma_start_transfer-Inv, wakes-IsProper}
use petalinux_driver.VxdmaDev.Test.{
  Bench, Trial, dma_length, give_back, start_both, after_submit, with_buffers, axidma_test_transfer,
}

pub record AreSound (b : Bench) : Type 0 where
  pub rx : Inv (b.rx)
  pub tx : Inv (b.tx)

-- What a test adds to what the module held, newest first: nothing, the one channel that was found,
-- the one buffer that was allocated, or all that a refused submission had set up.
pub data Leak (t : Trial) : List Resource → Type 0 where
  clean : Leak t []
  only_tx : t.rx_found ≡ false → t.tx_found ≡ true → Leak t (dma_channel dma_mem_to_dev ∷ [])
  only_rx : t.rx_found ≡ true → t.tx_found ≡ false → Leak t (dma_channel dma_dev_to_mem ∷ [])
  only_src : t.no_src ≡ false → t.no_dest ≡ true → Leak t (buffer 0 ∷ [])
  only_dest : t.no_src ≡ true → t.no_dest ≡ false → Leak t (buffer 1 ∷ [])
  not_submitted :
      t.no_src ≡ false
      → t.no_dest ≡ false
      → Leak t (mapping 1 ∷ mapping 0 ∷ buffer 1 ∷ buffer 0 ∷ [])

run-Inv :
    (p : Platform) (ws : List Wake) (c : Chan) (o : Outcome)
    → Inv c
    → run p (map wake_op ws) c ≡ ok o
    → Inv (o.chan)
run-Inv p ws c o v e =
    let (o', f, a) = run_lem p (map wake_op ws) c (wakes-IsProper ws) v in
    subst (λ (x : Outcome). Inv (x.chan)) (ok-injective (sym f ∙ e)) a.inv

start_both-AreSound :
    (t : Trial) (j k : ℕ) (b b' : Bench) (rest : List Resource)
    → AreSound b
    → give_back b.held ≡ ok rest
    → start_both t j k b ≡ ok b'
    → AreSound b' × (b'.held ≡ rest)
unfolding start_both
start_both-AreSound t j k b b' rest v g h =
    let ((r₁, c₁), e₁, h₁) =
      >>=-eq-ok (axidma_start_transfer t.rx_platform 1 j false [] b.rx) _ h in
    let (o, e₂, h₂) = >>=-eq-ok (run t.rx_platform (map wake_op t.rx_wakes) c₁) _ h₁ in
    let ((r₂, c₂), e₃, h₃) =
      >>=-eq-ok (axidma_start_transfer t.tx_platform 0 k true t.tx_wakes b.tx) _ h₂ in
    let (held, e₄, h₄) = >>=-eq-ok (give_back b.held) _ h₃ in
    let v₁ = axidma_start_transfer-Inv t.rx_platform 1 j false [] b.rx c₁ r₁ v.rx e₁ in
    let v₂ = axidma_start_transfer-Inv t.tx_platform 0 k true t.tx_wakes b.tx c₂ r₂ v.tx e₃ in
    let v₃ = run-Inv t.rx_platform t.rx_wakes c₁ o v₁ e₂ in
    let same_bench : record { rx = o.chan; tx = c₂; held = held } ≡ b' = ok-injective h₄ in
    (
      subst AreSound same_bench (record { rx = v₃; tx = v₂ }),
      sym (ap (λ (x : Bench). x.held) same_bench) ∙ ok-injective (sym e₄ ∙ g),
    )

-- What the test of two buffers leaves on top of what was held before it.
pub data TestCase (t : Trial) (before : List Resource) (b' : Bench) : Type 0 where
  left : (l : List Resource) → Leak t l → AreSound b' → b'.held ≡ l ++ before → TestCase t before b'

module _ (t : Trial) (src : t.no_src ≡ false) (dest : t.no_dest ≡ false) where
  after_submit-TestCase :
      (j k : Code) (b b' : Bench) (before : List Resource)
      → AreSound b
      → b.held ≡ mapping 1 ∷ mapping 0 ∷ buffer 1 ∷ buffer 0 ∷ before
      → after_submit t j k b ≡ ok b'
      → TestCase t before b'
  unfolding after_submit give_back release same
  after_submit-TestCase (neg e) k b b' before v q h =
      subst (TestCase t before) (ok-injective h) (left _ (not_submitted src dest) v q)
  after_submit-TestCase (code j) (neg e) b b' before v q h =
      subst (TestCase t before) (ok-injective h) (left _ (not_submitted src dest) v q)
  after_submit-TestCase (code j) (code k) b b' before v q h =
      let back : give_back b.held ≡ ok before = ap give_back q in
      let (s, held) = start_both-AreSound t j k b b' before v back h in left [] clean s held

  with_buffers-TestCase :
      (b b' : Bench) (before : List Resource)
      → AreSound b
      → b.held ≡ buffer 1 ∷ buffer 0 ∷ before
      → with_buffers t b ≡ ok b'
      → TestCase t before b'
  unfolding with_buffers
  with_buffers-TestCase b b' before v q h =
      let (j, rx, e, v₁, _) =
        prep_buffer_lem t.rx_platform t.rx_handle dma_length dma_dev_to_mem 1 b.rx v.rx
          (omega arith) in
      let (k, tx, f, v₂, _) =
        prep_buffer_lem t.tx_platform t.tx_handle dma_length dma_mem_to_dev 0 b.tx v.tx
          (omega arith) in
      after_submit-TestCase j k (record { rx = rx; tx = tx; held = mapping 1 ∷ mapping 0 ∷ b.held })
        b' before (record { rx = v₁; tx = v₂ })
        (ap (λ (l : List Resource). mapping 1 ∷ mapping 0 ∷ l) q) (ground arith)

pub test_transfer-TestCase :
    (t : Trial) (b b' : Bench)
    → AreSound b
    → axidma_test_transfer t b ≡ ok b'
    → TestCase t b.held b'
unfolding axidma_test_transfer
test_transfer-TestCase t b b' v h =
    let sound : (l : List Resource) → AreSound (record b { held = l }) =
      λ l. record { rx = v.rx; tx = v.tx } in
    elim (Bool-cases t.no_src) [
      | inl lost ↦ elim (Bool-cases t.no_dest) [
        | inl lost' ↦ subst (TestCase t b.held) (ground arith) (left [] clean (sound b.held) refl)
        | inr got ↦
            subst (TestCase t b.held) (ground arith)
              (left (buffer 1 ∷ []) (only_dest lost got) (sound (buffer 1 ∷ b.held)) refl)
      ]
      | inr got ↦ elim (Bool-cases t.no_dest) [
        | inl lost ↦
            subst (TestCase t b.held) (ground arith)
              (left (buffer 0 ∷ []) (only_src got lost) (sound (buffer 0 ∷ b.held)) refl)
        | inr got' ↦
            with_buffers-TestCase t got got' (record b { held = buffer 1 ∷ buffer 0 ∷ b.held }) b'
              b.held (sound (buffer 1 ∷ buffer 0 ∷ b.held)) refl (ground arith)
      ]
    ]
