-- ===== src/Vxdma/Invariant.antt =====
-- vxdma/vxdma.c, the invariant of a channel that the client drives through preparation, submission,
-- issue, interrupt and tasklet.
pub mod Enqueue
pub mod Transfer
pub mod Submit
pub mod Outcome
use petalinux_driver.Prelude.{ℕ, ◌≤◌, ◌≡◌, Bool, true, [], length, All}
use petalinux_driver.Vxdma.Chan.{Chan, num_descs}
use petalinux_driver.Vxdma.Pool.{weigh_chan}
use petalinux_driver.Vxdma.Engine.Total.{HasSegments}

-- Every pending descriptor has a segment, the counter of pending descriptors is exact, the channel
-- holds no more segments than were allocated, and an idle channel has nothing active.
pub record Inv (c : Chan) : Type 0 where
  pub held : All HasSegments c.pending_list
  pub counted : c.desc_pendingcount ≡ length c.pending_list
  pub pool : weigh_chan (λ _. 1) c ≤ num_descs
  pub resting : c.idle ≡ true → c.active_list ≡ []
