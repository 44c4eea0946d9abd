-- ===== src/Kernel/Ledger.antt =====
-- What a driver holds of the kernel: memory, mappings, channels and device objects, as a list that
-- grows with each service that succeeds and shrinks with each that gives something back.
use petalinux_driver.Prelude.{ℕ, Bool, true, false, List, [], ◌∷◌, ◌==◌, if◌then◌else◌}
use petalinux_driver.Kernel.{
  Direction, dma_mem_to_dev, dma_dev_to_mem, other_direction, Fault, Result, ok, fault, ◌>>=◌,
}

-- A buffer or a mapping has a number of its own; a channel goes by the direction it serves.
pub data Resource : Type 0 where
  buffer mapping : ℕ → Resource
  dma_channel : Direction → Resource
  io_region io_mapping irq_line : Resource

same_direction : Direction → Direction → Bool
same_direction dma_mem_to_dev dma_mem_to_dev = true
same_direction dma_dev_to_mem dma_dev_to_mem = true
same_direction other_direction other_direction = true
same_direction _ _ = false

unfoldable pub same : Resource → Resource → Bool
unfolding same_direction
same (buffer a) (buffer b) = a == b
same (mapping a) (mapping b) = a == b
same (dma_channel a) (dma_channel b) = same_direction a b
same io_region io_region = true
same io_mapping io_mapping = true
same irq_line irq_line = true
same _ _ = false

-- What is given back must be held.
unfoldable pub release : Resource → List Resource → Result (List Resource)
unfolding same
release r [] = fault Fault.wild_access
release r (x ∷ xs) =
    let rest = release r xs in if same r x then ok xs else (rest >>= λ ys. ok (x ∷ ys))
