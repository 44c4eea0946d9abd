-- ===== src/VxdmaDev/Transfer.antt =====
-- vxdma/vxdma_dev.c, `axidma_start_transfer`: the issue of what is pending, and the wait for its
-- completion. The interrupts and tasklet runs during a wait are a list, in their order; the wait is
-- over in time if one of them calls the client's completion. `dma_async_is_tx_complete` is the
-- kernel's call of the driver's `device_tx_status` with a state to fill in.
pub mod Wait
pub mod Ends
use petalinux_driver.Prelude.{
  ℕ, ◌+◌, Bool, true, false, not, ◌||◌, List, [], ◌∷◌, map, Option, none, some, ltb, ◌==◌,
  if◌then◌else◌,
}
use petalinux_driver.Kernel.{Event, called_back, DmaStatus, Platform, Result, ok, ◌>>=◌}
use petalinux_driver.Vxdma.Chan.{Chan}
use petalinux_driver.Vxdma.Engine.{issue_pending}
use petalinux_driver.Vxdma.Queue.{tx_status, is_complete}
use petalinux_driver.VxdmaDev.Client.{Op, interrupt, tasklet, Outcome, run}

-- What can happen to a channel while its client sleeps.
pub data Wake : Type 0 where
  on_interrupt on_tasklet : Wake

abbrev pub wake_op : Wake → Op
wake_op on_interrupt = interrupt
wake_op on_tasklet = tasklet

-- How often a history calls a completion.
abbrev pub completions : ℕ → List Event → ℕ
completions cmp [] = 0
completions cmp (called_back k ∷ t) = if k == cmp then completions cmp t + 1 else completions cmp t
completions cmp (_ ∷ t) = completions cmp t

-- What the messages tell of a wait.
pub data Report : Type 0 where
  not_waited timed_out finished : Report
  ended_with : DmaStatus → Report

pub report : (in_time : Bool) → DmaStatus → Report
report false status = timed_out
report true status = if is_complete status then finished else ended_with status

pub wait_for : Platform → (cmp cookie before : ℕ) → List Wake → Chan → Result (Report × Chan)
wait_for p cmp cookie before wakes c = do
  o ← run p (map wake_op wakes) c
  (status, _, c') ← tx_status p cookie true o.chan
  ok (report (ltb before (completions cmp o.chan.trace)) status, c')

-- The completion is initialised before the issue: what was called before does not count.
unfoldable pub axidma_start_transfer :
    Platform → (cmp cookie : ℕ) → (wait : Bool) → List Wake → Chan → Result (Report × Chan)
axidma_start_transfer p cmp cookie wait wakes c = do
  c' ← issue_pending p c
  if wait then wait_for p cmp cookie (completions cmp c.trace) wakes c' else ok (not_waited, c')
