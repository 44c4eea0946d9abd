-- ===== src/VxdmaDev/Machine/Cleanup.antt =====
-- vxdma/vxdma.c, `xilinx_dma_chan_desc_cleanup`: its loop, with the calls that come while callbacks
-- run.
use petalinux_driver.Prelude.{
  ℕ, ◌≡◌, refl, ap, ◌∙◌, List, [], ◌∷◌, true, inl, inr, All, arith, Bool-cases,
}
use petalinux_driver.Kernel.{Platform, Result, ok}
use petalinux_driver.Vxdma.Chan.{TxDesc, Chan}
use petalinux_driver.Vxdma.Engine.Total.{HasSegments}
use petalinux_driver.Vxdma.Queue.{desc_cleanup, do_tasklet}
use petalinux_driver.Vxdma.Queue.Cleanup.{retired, remaining, desc_cleanup_lem}
use petalinux_driver.Vxdma.Invariant.{Inv}
use petalinux_driver.Vxdma.Invariant.Transfer.{desc_cleanup-Inv, weigh-desc_cleanup}
use petalinux_driver.VxdmaDev.Client.{cookies_of}
use petalinux_driver.VxdmaDev.Protocol.{Moves-trans}
use petalinux_driver.VxdmaDev.Refinement.{Follows, Follows-same, cleanup-Follows}
use petalinux_driver.VxdmaDev.Machine.{
  Desk, Call, Effect, nothing, followed_by, retire_desc, finish_round, cleanup_round, tasklet_run,
}
use petalinux_driver.VxdmaDev.Machine.Submit.{weigh_desk, Tidy}
use petalinux_driver.VxdmaDev.Machine.Steps.{Sound}
use petalinux_driver.VxdmaDev.Machine.Window.{IsPlain}
use petalinux_driver.VxdmaDev.Machine.Retire.{
  in_callback-Sound, without_first, without_first-Tidy, Finished, retire_desc-Finished,
}

-- What a run of the tasklet came to: the channel is well-formed and every descriptor that clients
-- hold has a segment, no segment was lost or made up, the cookies made moves of the protocol, and
-- what the run left of the done list is empty or starts with a cyclic descriptor.
pub record Cleaned (k : Desk) (e : Effect) : Type 0 where
  pub inv : Inv (e.desk.chan)
  pub held : All HasSegments e.desk.held
  pub weight : (f : ℕ → ℕ) → weigh_desk f (e.desk) ≡ weigh_desk f k
  pub moves : Follows (k.chan) e.submitted e.finished (e.desk.chan)
  pub clean : retired e.desk.chan.done_list ≡ []

retired-remaining : (ds : List TxDesc) → retired (remaining ds) ≡ []
retired-remaining [] = refl
retired-remaining (d ∷ ds) = ground (arith, retired-remaining ds)

-- Without calls.
abbrev pub quiet_run : Desk → Effect
quiet_run k = record (nothing (record k { chan = desc_cleanup (k.chan) })) {
  finished = cookies_of (retired k.chan.done_list);
}

pub quiet_run-Cleaned : (k : Desk) → Tidy k → Cleaned k (quiet_run k)
quiet_run-Cleaned k v = record {
  inv = desc_cleanup-Inv (k.chan) v.inv;
  held = v.held;
  weight = λ f. unfold weigh_desk in omega (arith, weigh-desc_cleanup f (k.chan));
  moves = cleanup-Follows (k.chan);
  clean =
      ap (λ (x : Chan). retired x.done_list) (desc_cleanup_lem (k.chan))
      ∙ retired-remaining k.chan.done_list;
}

-- A loop that has a result on every tidy desk.
abbrev Cleans : (Desk → Result Effect) → Type 0
Cleans loop = (k : Desk) → Tidy k → (e : Effect) × (loop k ≡ ok e) × Cleaned k e

Cleaned-trans :
    (k : Desk) (e e' e₀ : Effect)
    → Finished k e₀ e
    → Cleaned (e.desk) e'
    → Cleaned k (followed_by e e')
Cleaned-trans k e e' e₀ a b = record {
  inv = b.inv;
  held = b.held;
  weight = λ f. b.weight f ∙ a.weight f;
  moves = Moves-trans a.moves b.moves;
  clean = b.clean;
}

finish_round-Cleaned :
    (loop : Desk → Result Effect) (k : Desk) (d : TxDesc) (e : Effect)
    → Tidy k
    → Cleans loop
    → Finished k e (retire_desc d e)
    → (r : Effect) × (finish_round loop d e ≡ ok r) × Cleaned k r
unfolding finish_round
finish_round-Cleaned loop k d e v l q =
    let e' = retire_desc d e in
    let tidy : Tidy (e'.desk) = record {
      inv = q.inv;
      held = q.held;
      fits = omega (arith, q.weight (λ _. 1), v.fits);
    } in
    let (r, one, b) = l (e'.desk) tidy in (followed_by e' r, simp one, Cleaned-trans k e' r e q b)

cyclic-Cleaned :
    (k : Desk) (d : TxDesc) (next : List TxDesc) (e : Effect)
    → k.chan.done_list ≡ d ∷ next
    → d.cyclic ≡ true
    → Sound k e
    → Cleaned k e
cyclic-Cleaned k d next e h y a = record {
  inv = a.inv;
  held = a.held;
  weight = a.weight;
  moves = a.moves;
  clean = ground (arith, a.grown);
}

-- A round of the loop, in front of a loop that has a result.
cleanup_round-Cleaned :
    (p : Platform) (xs : List Call) (loop : Desk → Result Effect) (k : Desk) (ds : List TxDesc)
    → k.chan.done_list ≡ ds
    → All IsPlain xs
    → Cleans loop
    → Tidy k
    → (e : Effect) × (cleanup_round p xs loop ds k ≡ ok e) × Cleaned k e
unfolding cleanup_round
cleanup_round-Cleaned p xs loop k [] h q l v = (
  nothing k,
  refl,
  record {
    inv = v.inv;
    held = v.held;
    weight = λ f. refl;
    moves = Follows-same (k.chan) (k.chan) refl;
    clean = ap retired h;
  },
)
cleanup_round-Cleaned p xs loop k (d ∷ next) h q l v = elim (Bool-cases d.cyclic) [
  | inl yes_cyclic ↦
      let (e, one, a) = in_callback-Sound p d.callback xs k q v in
      (e, ground arith, cyclic-Cleaned k d next e h yes_cyclic a)
  | inr plain ↦
      let k' = without_first k next in
      let (e, one, a) = in_callback-Sound p d.callback xs k' q (without_first-Tidy k d next h v) in
      let f = retire_desc-Finished k d next e h v a in
      let (r, two, b) = finish_round-Cleaned loop k d e v l f in (r, simp (plain, one, two), b)
]

-- A run of the tasklet has a result on a tidy desk, whatever the device answers, with plain calls
-- while its callbacks run.
pub tasklet_run-Cleaned :
    (p : Platform) (windows : List (List Call)) (k : Desk)
    → All (All IsPlain) windows
    → Tidy k
    → (e : Effect) × (tasklet_run p windows k ≡ ok e) × Cleaned k e
unfolding tasklet_run do_tasklet
tasklet_run-Cleaned p [] k h v = (quiet_run k, refl, quiet_run-Cleaned k v)
tasklet_run-Cleaned p (xs ∷ more) k h v =
    cleanup_round-Cleaned p xs (tasklet_run p more) k k.chan.done_list refl h.0
      (λ k'. tasklet_run-Cleaned p more k' h.1) v
