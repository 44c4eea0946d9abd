-- ===== src/Tests/Machines.antt =====
-- A channel with its tasklet, under calls that come while its callbacks run.
use petalinux_driver.Prelude.{
  ℕ, ◌≡◌, refl, true, List, [], ◌∷◌, ◌++◌, inl, All, length, ◌<◌, ◌≤◌, arith, none, some,
}
use petalinux_driver.Prelude.Bags.{bag}
use petalinux_driver.Kernel.{dma_mem_to_dev, dma_in_progress, ok}
use petalinux_driver.Vxdma.Invariant.{Inv}
use petalinux_driver.Vxdma.Chan.{Chan}
use petalinux_driver.Vxdma.Pool.{weigh_chan}
use petalinux_driver.Vxdma.Segment.{alloc_chan_resources}
use petalinux_driver.Vxdma.Probe.Lookup.{IsUnused}
use petalinux_driver.VxdmaDev.Client.{cookies_of, Outcome, run}
use petalinux_driver.VxdmaDev.Status.{KeepsCookies, Told, upto, max_cookie}
use petalinux_driver.VxdmaDev.Status.Runs.{IsComplete, Answers, run-tx_status, run_cookies}
use petalinux_driver.VxdmaDev.Machine.{
  Desk, Effect, prepare, prepare_cyclic, submit, issue, interrupt, terminate, tasklet_run,
}
use petalinux_driver.VxdmaDev.Machine.Phases.{
  Machine, Phase, arrival, handler, submission, tasklet, execute,
}
use petalinux_driver.VxdmaDev.Machine.Submit.{weigh_desk}
use petalinux_driver.VxdmaDev.Machine.Upright.{IsPlainPhase, Upright, Follow}
use petalinux_driver.VxdmaDev.Machine.Run.{execute-Upright}
use petalinux_driver.VxdmaDev.Machine.Start.{
  started, addresses, returned, execute-alloc_chan_resources,
}
use petalinux_driver.VxdmaDev.Machine.Cancel.{IsBare, tasklet_run-terminate}
use petalinux_driver.Tests.Fixtures.{prompt_platform, two_transfers, busy, probed, desc_at}
use petalinux_driver.Tests.Transfers.{busy-Inv}

-- Two transfers, submitted the other way round, the first of them with an interrupt before its
-- submission takes the lock and the second of them while the interrupt handler is
-- about to take the lock; while the first callback of the tasklet runs, an interrupt comes and a
-- cyclic buffer is prepared.
abbrev pub crossed : List Phase
crossed =
    arrival (prepare ((0x2000_0000, 0x100) ∷ []) dma_mem_to_dev none)
    ∷ arrival (prepare ((0x3000_0000, 0x80) ∷ []) dma_mem_to_dev none)
    ∷ submission 1 (some 8) (interrupt ∷ [])
    ∷ arrival issue
    ∷ handler (submit 0 (some 7) ∷ [])
    ∷ tasklet ((interrupt ∷ prepare_cyclic 0x4000_0000 0x200 0x100 dma_mem_to_dev ∷ []) ∷ [])
    ∷ arrival interrupt
    ∷ []

pub crossed-IsPlain : All IsPlainPhase crossed
crossed-IsPlain = omega arith

abbrev at_desk : Chan → Desk
at_desk c = record { chan = c; held = []; lost = [] }

abbrev busy_machine : Machine
busy_machine = record {
  desk = at_desk busy;
  scheduled = true;
  submitted = 2 ∷ 3 ∷ 4 ∷ [];
  finished = [];
}

busy_machine-Upright : Upright busy_machine
unfolding weigh_desk weigh_chan
busy_machine-Upright = record {
  tidy = record { inv = busy-Inv; held = tt; fits = omega arith };
  order = refl;
  awake = inl refl;
}

execute-Upright_example :
    (m' : Machine) × (execute prompt_platform crossed busy_machine ≡ ok m')
    × Upright m'
    × Follow busy_machine m'
execute-Upright_example =
    execute-Upright prompt_platform crossed busy_machine crossed-IsPlain busy_machine-Upright

-- Two done descriptors, and the callback of the first terminates the channel.
abbrev cancelled : Desk
cancelled = at_desk (record busy { done_list = desc_at 2 0x1000_0000 ∷ desc_at 5 0x1000_0100 ∷ [] })

tasklet_run-terminate_example :
    (e : Effect) × (tasklet_run prompt_platform ((terminate ∷ []) ∷ []) cancelled ≡ ok e)
    × IsBare e.desk.chan
    × (e.finished ≡ 2 ∷ [])
    × ((f : ℕ → ℕ) → weigh_chan f e.desk.chan ≡ weigh_chan f cancelled.chan)
tasklet_run-terminate_example =
    tasklet_run-terminate prompt_platform [] cancelled (desc_at 2 0x1000_0000)
      (desc_at 5 0x1000_0100 ∷ []) 2 refl refl refl

probed-IsUnused : IsUnused probed
probed-IsUnused = record {
  free = refl;
  pending = refl;
  active = refl;
  done = refl;
  count = refl;
  idle = refl;
  plain = refl;
}

execute-alloc_chan_resources_example :
    (m' : Machine) × (execute prompt_platform crossed
        (started (alloc_chan_resources prompt_platform probed).1)
      ≡ ok m')
    × (bag (addresses (returned m'.desk))
        ≡ bag (addresses (alloc_chan_resources prompt_platform probed).1.free_seg_list))
execute-alloc_chan_resources_example =
    execute-alloc_chan_resources prompt_platform probed 0x1000_0000 crossed refl probed-IsUnused
      crossed-IsPlain

-- The cookies of the busy channel, of which the first is over.
abbrev counted : Chan
counted = record busy { cookies = record { cookie = 4; completed_cookie = 2 } }

counted-Inv : Inv counted
unfolding weigh_chan
counted-Inv = record { held = (refl, tt); counted = refl; pool = omega arith; resting = λ i. cc }

counted-Told : Told counted
counted-Told = record {
  plain_pending = (refl, tt);
  plain_active = (refl, tt);
  running = refl;
  waiting = refl;
  last = refl;
  behind = (omega arith, tt);
}

prompt-KeepsCookies : KeepsCookies prompt_platform
prompt-KeepsCookies = record {
  assign = λ k h. refl;
  complete = λ i k. refl;
  over = λ i k h n. ground arith;
  under_way = λ i k h n. ground arith;
}

run-tx_status_example :
    (o : Outcome) × (run prompt_platform two_transfers counted ≡ ok o)
    × All (IsComplete prompt_platform o.chan) (o.finished ++ cookies_of o.chan.done_list)
    × All
        (Answers prompt_platform o.chan dma_in_progress)
        (cookies_of o.chan.active_list ++ cookies_of o.chan.pending_list)
run-tx_status_example =
    run-tx_status prompt_platform two_transfers counted prompt-KeepsCookies (omega arith)
      (omega arith) counted-Inv counted-Told

run_cookies_example :
    (o : Outcome) × (run prompt_platform two_transfers counted ≡ ok o)
    × (o.submitted ≡ upto 4 (length o.submitted))
    × All (λ k. (0 < k) × (k ≤ max_cookie)) o.submitted
run_cookies_example =
    run_cookies prompt_platform two_transfers counted prompt-KeepsCookies (omega arith)
      (omega arith) counted-Inv counted-Told
