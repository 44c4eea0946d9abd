-- ===== src/VxdmaDev/Machine/Window.antt =====
-- vxdma/vxdma.c: what calls do to a channel and its descriptors, one after the other.
use petalinux_driver.Prelude.{
  ◌<◌, ◌≡◌, refl, ap, ◌∙◌, List, [], ◌∷◌, ◌++◌, append_assoc, ◌||◌, Bool, false, All, arith,
}
use petalinux_driver.Kernel.{Platform, ok, is_ok-value}
use petalinux_driver.Vxdma.Prep.{prep_slave_sg, prep_dma_cyclic}
use petalinux_driver.Vxdma.Prep.Balance.{prep_slave_sg-Prepared, prep_dma_cyclic-Prepared}
use petalinux_driver.Vxdma.Prep.Total.{bytes, prep_slave_sg_total}
use petalinux_driver.Vxdma.Prep.Cyclic.{periods, prep_dma_cyclic_total}
use petalinux_driver.Vxdma.Engine.{start_transfer, issue_pending}
use petalinux_driver.Vxdma.Engine.Total.{start_transfer_total}
use petalinux_driver.Vxdma.Queue.{irq_handler}
use petalinux_driver.Vxdma.Invariant.Transfer.{irq_handler_total}
use petalinux_driver.VxdmaDev.Protocol.{Moves-trans}
use petalinux_driver.VxdmaDev.Refinement.{Follows-same}
use petalinux_driver.VxdmaDev.Machine.{
  Desk, Call, prepare, prepare_cyclic, submit, issue, interrupt, terminate, Effect, nothing,
  followed_by, is_handled, prepared, take_out, call, calls,
}
use petalinux_driver.VxdmaDev.Machine.Submit.{Tidy, take_out-TakenFrom}
use petalinux_driver.VxdmaDev.Machine.Steps.{
  Sound, Sound-Tidy, Sound-moved, irq_handler-Sound, start_transfer-Sound, Prepared-Sound,
  submit_taken-Sound,
}

-- Calls that do not terminate the channel, prepare a scatterlist of at least one byte, and cyclic
-- buffers whose periods have at least one byte and whose number of periods, as an unsigned int, is
-- not 0.
abbrev pub IsPlain : Call → Type 0
IsPlain (prepare sgl direction context) = 0 < bytes sgl
IsPlain (prepare_cyclic buf_addr buf_len period_len direction) =
    (0 < period_len) × (0 < periods buf_len period_len)
IsPlain (submit place callback) = Unit {0}
IsPlain issue = Unit {0}
IsPlain interrupt = Unit {0}
IsPlain terminate = ⊥

-- A call that does not terminate the channel has a result.
pub call-Sound :
    (p : Platform) (x : Call) (k : Desk)
    → IsPlain x
    → Tidy k
    → (e : Effect) × (call p x k ≡ ok e) × Sound k e
unfolding call issue_pending
call-Sound p (prepare sgl direction context) k h v =
    let ((o, c'), e) =
      is_ok-value (prep_slave_sg p sgl direction context k.chan)
        (prep_slave_sg_total p sgl direction context (k.chan) h) in
    (
      nothing (record k { chan = c'; held = k.held ++ prepared o }),
      ground arith,
      Prepared-Sound k c' o v
          (λ f. prep_slave_sg-Prepared f (k.chan) p sgl direction context o c' e),
    )
call-Sound p (prepare_cyclic buf_addr buf_len period_len direction) k h v =
    let ((o, c'), e) =
      is_ok-value (prep_dma_cyclic p buf_addr buf_len period_len direction k.chan)
        (prep_dma_cyclic_total p buf_addr buf_len period_len direction (k.chan) h.0 h.1) in
    (
      nothing (record k { chan = c'; held = k.held ++ prepared o }),
      ground arith,
      Prepared-Sound k c' o v
          (λ f. prep_dma_cyclic-Prepared f (k.chan) p buf_addr buf_len period_len direction o c' e),
    )
call-Sound p (submit place callback) k h v =
    submit_taken-Sound p callback (take_out place k.held) k v (take_out-TakenFrom place k.held)
call-Sound p issue k h v =
    let (c', e) =
      is_ok-value (start_transfer p k.chan) (start_transfer_total p (k.chan) v.inv.held) in
    (nothing (record k { chan = c' }), ground arith, start_transfer-Sound p k c' v e)
call-Sound p interrupt k h v =
    let ((r, c'), e) =
      is_ok-value (irq_handler p k.chan) (irq_handler_total p (k.chan) v.inv.held) in
    (
      record (nothing (record k { chan = c' })) { woken = is_handled r },
      ground arith,
      irq_handler-Sound p k c' r v e,
    )
call-Sound p terminate k h v = absurd h

pub both_asleep : (a b : Bool) → (a || b) ≡ false → (a ≡ false) × (b ≡ false)
both_asleep a b h = (ground arith, ground arith)

pub Sound-trans :
    (k : Desk) (e e' : Effect) → Sound k e → Sound (e.desk) e' → Sound k (followed_by e e')
Sound-trans k e e' a b = record {
  inv = b.inv;
  held = b.held;
  weight = λ f. b.weight f ∙ a.weight f;
  moves = Moves-trans a.moves b.moves;
  more = a.more ++ b.more;
  grown = b.grown ∙ ap (λ l. l ++ b.more) a.grown ∙ append_assoc k.chan.done_list a.more b.more;
  awake = λ asleep.
      let (one, two) = both_asleep e.woken e'.woken asleep in simp (a.awake one, b.awake two);
}

pub Sound-nothing : (k : Desk) → Tidy k → Sound k (nothing k)
Sound-nothing k v =
    Sound-moved k false (k.chan) v v.inv (λ f. refl) (Follows-same (k.chan) (k.chan) refl) refl

-- Calls that come one after the other have a result.
pub calls-Sound :
    (p : Platform) (xs : List Call) (k : Desk)
    → All IsPlain xs
    → Tidy k
    → (e : Effect) × (calls p xs k ≡ ok e) × Sound k e
unfolding calls
calls-Sound p [] k h v = (nothing k, refl, Sound-nothing k v)
calls-Sound p (x ∷ xs) k h v =
    let (e, one, a) = call-Sound p x k h.0 v in
    let (e', two, b) = calls-Sound p xs (e.desk) h.1 (Sound-Tidy k e v a) in
    (followed_by e e', ground arith, Sound-trans k e e' a b)
