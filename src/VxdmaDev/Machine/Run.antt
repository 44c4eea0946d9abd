-- ===== src/VxdmaDev/Machine/Run.antt =====
-- vxdma/vxdma.c with vxdma/vxdma_dev.c: the runs of a channel with its tasklet, under calls that
-- come at any time.
use petalinux_driver.Prelude.{◌≡◌, refl, List, [], ◌∷◌, All, arith}
use petalinux_driver.Kernel.{Platform, ok}
use petalinux_driver.VxdmaDev.Machine.Phases.{Machine, Phase, execute}
use petalinux_driver.VxdmaDev.Machine.Upright.{
  IsPlainPhase, Upright, Follow, Follow-refl, Follow-trans, phase-Upright,
}

-- Take calls that terminate nothing, and prepare only scatterlists of at least one byte and cyclic
-- buffers whose periods have at least one byte and whose number of periods, as an unsigned int, is
-- not 0. A run of such calls, of interrupt handlers and submissions with such calls before they
-- take the lock, and of tasklet runs with such calls while their callbacks run, has a result on an
-- upright machine, whatever the device answers and in whatever order all this comes. The machine
-- after it is upright: the channel is well-formed, every descriptor that clients hold has a
-- segment, all segments together are no more than were allocated, the cookies that were given out
-- are those that were finished followed by those still in the channel, in order, and unless the
-- tasklet is scheduled, the done list is empty or starts with a cyclic descriptor. The run makes
-- moves of the protocol, which take in the cookies that were given out in it and hand back those
-- that were finished, and every segment is as often as before in the free list, the lists of the
-- channel, the descriptors that clients hold and those that a failed reset lost, taken together.
pub execute-Upright :
    (p : Platform) (xs : List Phase) (m : Machine)
    → All IsPlainPhase xs
    → Upright m
    → (m' : Machine) × (execute p xs m ≡ ok m') × Upright m' × Follow m m'
unfolding execute
execute-Upright p [] m h v = (m, refl, v, Follow-refl m)
execute-Upright p (x ∷ xs) m h v =
    let (m₁, one, v₁, f₁) = phase-Upright p x m h.0 v in
    let (m₂, two, v₂, f₂) = execute-Upright p xs m₁ h.1 v₁ in
    (m₂, ground arith, v₂, Follow-trans m m₁ m₂ f₁ f₂)
