-- ===== src/VxdmaDev/Machine.antt =====
-- vxdma/vxdma.c, a channel with its tasklet under the calls of any clients, which come at any time:
-- between the runs of the tasklet, while one of its callbacks has the lock given back, and before the
-- interrupt handler takes the lock.
pub mod Phases
pub mod Submit
pub mod Steps
pub mod Window
pub mod Split
pub mod Joined
pub mod Retire
pub mod Cleanup
pub mod Upright
pub mod Run
pub mod Cancel
pub mod Start
use petalinux_driver.Prelude.{
  ℕ, zero, suc, List, [], ◌∷◌, ◌++◌, Bool, true, false, ◌||◌, Option, none, some, if◌then◌else◌,
}
use petalinux_driver.Kernel.{
  Direction, Platform, Code, code, neg, Result, ok, fault, Fault, ◌>>=◌, ran_dependencies,
  scheduled_tasklet,
}
use petalinux_driver.Vxdma.Chan.{
  TxDesc, Chan, has_bit, irq_all_mask, irq_ioc_mask, reg_status, dma_ctrl_read,
}
use petalinux_driver.Vxdma.Segment.{free_tx_descriptor}
use petalinux_driver.Vxdma.Engine.{issue_pending}
use petalinux_driver.Vxdma.Prep.{prep_slave_sg, prep_dma_cyclic}
use petalinux_driver.Vxdma.Queue.{
  IrqReturn, irq_none, irq_handled, irq_handler, acknowledge, on_completion, run_callback,
  do_tasklet, tx_submit, terminate_all,
}
use petalinux_driver.Vxdma.Queue.Cleanup.{retired}
use petalinux_driver.VxdmaDev.Client.{cookies_of, accepted}

-- A channel, the descriptors that its clients have prepared and not submitted yet, and those that a
-- submission neither queued nor freed.
pub record Desk : Type 0 where
  pub chan : Chan
  pub held : List TxDesc
  pub lost : List TxDesc

-- What may come in at any time that the lock is free: the clients' calls and the interrupt. A client
-- submits the descriptor at some place of those that are prepared, with a callback or without.
pub data Call : Type 0 where
  prepare : (sgl : List (ℕ × ℕ)) → Direction → (context : Option (List ℕ)) → Call
  prepare_cyclic : (buf_addr buf_len period_len : ℕ) → Direction → Call
  submit : (place : ℕ) (callback : Option ℕ) → Call
  issue interrupt terminate : Call

-- What calls came to: the cookies that were given out and those of the descriptors that the tasklet
-- freed, whether the interrupt handler scheduled the tasklet, and the desk.
pub record Effect : Type 0 where
  pub submitted : List ℕ
  pub finished : List ℕ
  pub woken : Bool
  pub desk : Desk

abbrev pub nothing : Desk → Effect
nothing k = record { submitted = []; finished = []; woken = false; desk = k }

abbrev pub followed_by : Effect → Effect → Effect
followed_by e e' = record {
  submitted = e.submitted ++ e'.submitted;
  finished = e.finished ++ e'.finished;
  woken = e.woken || e'.woken;
  desk = e'.desk;
}

abbrev pub is_handled : IrqReturn → Bool
is_handled irq_none = false
is_handled irq_handled = true

abbrev pub prepared : Option TxDesc → List TxDesc
prepared none = []
prepared (some desc) = desc ∷ []

abbrev pub take_out : ℕ → List TxDesc → Option (TxDesc × List TxDesc)
take_out place [] = none
take_out zero (desc ∷ rest) = some (desc, rest)
take_out (suc place) (desc ∷ rest) = elim (take_out place rest) [
  | none ↦ none
  | some (d, left) ↦ some (d, desc ∷ left)
]

-- A channel that is cyclic frees what it refuses; a reset that fails does not.
abbrev pub lost_by : Code → (cyclic : Bool) → TxDesc → List TxDesc
lost_by (code cookie) cyclic desc = []
lost_by (neg e) true desc = []
lost_by (neg e) false desc = desc ∷ []

pub submit_taken : Platform → Option ℕ → Option (TxDesc × List TxDesc) → Desk → Result Effect
submit_taken p callback none k = ok (nothing k)
submit_taken p callback (some (desc, rest)) k = do
  let desc' : TxDesc = record desc { callback = callback }
  (result, c') ← tx_submit p desc' k.chan
  let k' : Desk = record {
    chan = c';
    held = rest;
    lost = k.lost ++ lost_by result k.chan.cyclic desc';
  }
  ok (record (nothing k') { submitted = accepted result })

pub call : Platform → Call → Desk → Result Effect
call p (prepare sgl direction context) k = do
  (desc, c') ← prep_slave_sg p sgl direction context k.chan
  ok (nothing (record k { chan = c'; held = k.held ++ prepared desc }))
call p (prepare_cyclic buf_addr buf_len period_len direction) k = do
  (desc, c') ← prep_dma_cyclic p buf_addr buf_len period_len direction k.chan
  ok (nothing (record k { chan = c'; held = k.held ++ prepared desc }))
call p (submit place callback) k = submit_taken p callback (take_out place k.held) k
call p issue k = do c' ← issue_pending p k.chan; ok (nothing (record k { chan = c' }))
call p interrupt k = do
  (result, c') ← irq_handler p k.chan
  ok (record (nothing (record k { chan = c' })) { woken = is_handled result })
call p terminate k = ok (nothing (record k { chan = (terminate_all p k.chan).1 }))

pub calls : Platform → List Call → Desk → Result Effect
calls p [] k = ok (nothing k)
calls p (x ∷ xs) k = do e ← call p x k; e' ← calls p xs e.desk; ok (followed_by e e')

-- The lock is given back for a callback, and only if there is one.
pub in_callback : Platform → Option ℕ → List Call → Desk → Result Effect
in_callback p none xs k = ok (nothing k)
in_callback p (some callback) xs k =
    calls p xs (record k { chan = run_callback (some callback) k.chan })

-- `dma_run_dependencies`, and the descriptor goes.
pub retire_desc : TxDesc → Effect → Effect
retire_desc desc e = record e {
  finished = desc.cookie ∷ e.finished;
  desk = record e.desk {
    chan =
        free_tx_descriptor
          (record e.desk.chan { trace = ran_dependencies desc.cookie ∷ e.desk.chan.trace })
          (some desc);
  };
}

pub finish_round : (Desk → Result Effect) → TxDesc → Effect → Result Effect
finish_round loop desc e = do
  let retired_one = retire_desc desc e
  r ← loop retired_one.desk
  ok (followed_by retired_one r)

-- One round of the loop of `xilinx_dma_chan_desc_cleanup`, with the calls that come while the lock is
-- given back. The rounds behind it read the done list again: what the calls added is there.
pub cleanup_round :
    Platform → List Call → (Desk → Result Effect) → List TxDesc → Desk → Result Effect
cleanup_round p xs loop [] k = ok (nothing k)
cleanup_round p xs loop (desc ∷ rest) k = do
  let over = in_callback p desc.callback xs k
  let removed = record k { chan = record k.chan { done_list = rest } }
  let under_way = in_callback p desc.callback xs removed
  let finish = under_way >>= finish_round loop desc
  if desc.cyclic then over else finish

-- The tasklet, with a list of calls for each round in turn; in the rounds behind the last of these,
-- no call comes.
pub tasklet_run : Platform → List (List Call) → Desk → Result Effect
tasklet_run p [] k = ok (record (nothing (record k { chan = do_tasklet k.chan })) {
  finished = cookies_of (retired k.chan.done_list);
})
tasklet_run p (xs ∷ more) k = cleanup_round p xs (tasklet_run p more) k.chan.done_list k
