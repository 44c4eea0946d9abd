-- ===== src/VxdmaDev/Machine/Phases.antt =====
-- vxdma/vxdma.c: what takes the lock only after a first part, with the calls that come in between, and
-- the runs of a channel with its tasklet.
use petalinux_driver.Prelude.{
  ℕ, List, [], ◌∷◌, ◌++◌, Bool, true, false, ◌||◌, Option, none, some, if◌then◌else◌,
}
use petalinux_driver.Kernel.{Platform, Code, code, neg, Result, ok, ◌>>=◌, scheduled_tasklet}
use petalinux_driver.Vxdma.Chan.{
  TxDesc, Chan, has_bit, irq_all_mask, irq_ioc_mask, reg_status, dma_ctrl_read,
}
use petalinux_driver.Vxdma.Segment.{free_tx_descriptor}
use petalinux_driver.Vxdma.Queue.{acknowledge, on_completion, enqueue}
use petalinux_driver.Vxdma.Engine.{chan_reset}
use petalinux_driver.VxdmaDev.Client.{accepted}
use petalinux_driver.VxdmaDev.Machine.{
  Desk, Call, Effect, nothing, followed_by, calls, call, take_out, tasklet_run,
}

-- The handler takes the lock only for the completion: calls may come between the acknowledgement of
-- the interrupt and the completion.
unfoldable pub complete_after : Platform → (status : ℕ) → Effect → Result Effect
complete_after p status e = do
  c₂ ← if has_bit status irq_ioc_mask then on_completion p e.desk.chan else ok e.desk.chan
  let c₃ : Chan = record c₂ { trace = scheduled_tasklet ∷ c₂.trace }
  ok (followed_by e (record (nothing (record e.desk { chan = c₃ })) { woken = true }))

unfoldable pub split_handler : Platform → List Call → Desk → Result Effect
split_handler p xs k =
    let (status, c₁) = dma_ctrl_read p reg_status k.chan in
    let handled =
      calls p xs (record k { chan = acknowledge p status c₁ }) >>= complete_after p status in
    if has_bit status irq_all_mask then handled else ok (nothing (record k { chan = c₁ }))

-- A submission tests the channel and resets it before it takes the lock.
unfoldable pub queue_after : Platform → TxDesc → List Call → Desk → Result Effect
queue_after p desc xs k = do
  e ← calls p xs k
  (result, c') ← enqueue p desc e.desk.chan
  ok (
      followed_by e
        (record (nothing (record e.desk { chan = c' })) { submitted = accepted result }))

unfoldable pub queue_after_reset :
    Platform → TxDesc → List Call → Code × Chan → Desk → Result Effect
queue_after_reset p desc xs (neg e, c) k =
    ok (nothing (record k { chan = c; lost = k.lost ++ desc ∷ [] }))
queue_after_reset p desc xs (code _, c) k = queue_after p desc xs (record k { chan = c })

unfoldable pub split_submit :
    Platform → Option ℕ → List Call → Option (TxDesc × List TxDesc) → Desk → Result Effect
split_submit p callback xs none k = ok (nothing k)
split_submit p callback xs (some (desc, rest)) k =
    let desc' : TxDesc = record desc { callback = callback } in
    let k' : Desk = record k { held = rest } in
    if k.chan.cyclic
    then ok (nothing (record k' { chan = free_tx_descriptor k.chan (some desc') }))
    else if k.chan.err
    then queue_after_reset p desc' xs (chan_reset p k.chan) k'
    else queue_after p desc' xs k'

-- A desk, whether the tasklet of the channel is scheduled, and the cookies that were given out and
-- that were finished up to now.
pub record Machine : Type 0 where
  pub desk : Desk
  pub scheduled : Bool
  pub submitted : List ℕ
  pub finished : List ℕ

pub data Phase : Type 0 where
  arrival : Call → Phase
  handler : List Call → Phase
  submission : (place : ℕ) (callback : Option ℕ) → List Call → Phase
  tasklet : List (List Call) → Phase

-- The kernel takes the mark of a scheduled tasklet off before it runs it.
abbrev pub after : Machine → Bool → Effect → Machine
after m scheduled e = record {
  desk = e.desk;
  scheduled = scheduled || e.woken;
  submitted = m.submitted ++ e.submitted;
  finished = m.finished ++ e.finished;
}

unfoldable pub phase : Platform → Phase → Machine → Result Machine
phase p (arrival x) m = do e ← call p x m.desk; ok (after m m.scheduled e)
phase p (handler xs) m = do e ← split_handler p xs m.desk; ok (after m m.scheduled e)
phase p (submission place callback xs) m = do
  e ← split_submit p callback xs (take_out place m.desk.held) m.desk
  ok (after m m.scheduled e)
phase p (tasklet windows) m = do
  let run = tasklet_run p windows m.desk
  if m.scheduled then (do e ← run; ok (after m false e)) else ok m

unfoldable pub execute : Platform → List Phase → Machine → Result Machine
execute p [] m = ok m
execute p (x ∷ xs) m = do m' ← phase p x m; execute p xs m'
