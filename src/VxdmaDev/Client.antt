-- ===== src/VxdmaDev/Client.antt =====
-- vxdma/vxdma_dev.c, a client that drives a channel: transfers of one buffer, the issue of what is
-- pending, and the interrupts and tasklet runs of the driver, in any order.
use petalinux_driver.Prelude.{ℕ, ◌<◌, List, [], ◌∷◌, ◌++◌, map}
use petalinux_driver.Kernel.{Direction, Platform, Code, code, neg, Result, ok, ◌>>=◌}
use petalinux_driver.Vxdma.Chan.{TxDesc, Chan}
use petalinux_driver.Vxdma.Engine.{issue_pending}
use petalinux_driver.Vxdma.Queue.{irq_handler, do_tasklet}
use petalinux_driver.Vxdma.Queue.Cleanup.{retired}
use petalinux_driver.VxdmaDev.{prep_buffer}

pub data Op : Type 0 where
  transfer : (buf len : ℕ) → Direction → (cmp : ℕ) → Op
  issue interrupt tasklet : Op

-- A transfer has at least one byte.
abbrev pub IsProper : Op → Type 0
IsProper (transfer buf len dir cmp) = 0 < len
IsProper issue = Unit {0}
IsProper interrupt = Unit {0}
IsProper tasklet = Unit {0}

abbrev pub cookies_of : List TxDesc → List ℕ
cookies_of = map (λ d. d.cookie)

-- The cookies of all that a channel has been given and has not yet cleaned up, oldest first.
abbrev pub timeline : Chan → List ℕ
timeline c = cookies_of c.done_list ++ (cookies_of c.active_list ++ cookies_of c.pending_list)

abbrev pub accepted : Code → List ℕ
accepted (code cookie) = cookie ∷ []
accepted (neg e) = []

-- The cookies that a run was given, those that it finished, and the channel after it.
pub record Outcome : Type 0 where
  pub submitted : List ℕ
  pub finished : List ℕ
  pub chan : Chan

unfoldable pub step : Platform → Op → Chan → Result Outcome
step p (transfer buf len dir cmp) c = do
  (result, c') ← prep_buffer p buf len dir cmp c
  ok (record { submitted = accepted result; finished = []; chan = c' })
step p issue c = do c' ← issue_pending p c; ok (record { submitted = []; finished = []; chan = c' })
step p interrupt c = do
  (_, c') ← irq_handler p c
  ok (record { submitted = []; finished = []; chan = c' })
step p tasklet c =
    ok (record { submitted = []; finished = cookies_of (retired c.done_list); chan = do_tasklet c })

unfoldable pub run : Platform → List Op → Chan → Result Outcome
run p [] c = ok (record { submitted = []; finished = []; chan = c })
run p (op ∷ ops) c = do
  o ← step p op c
  o' ← run p ops o.chan
  ok (record {
    submitted = o.submitted ++ o'.submitted;
    finished = o.finished ++ o'.finished;
    chan = o'.chan;
  })
