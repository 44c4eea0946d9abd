-- ===== src/VxdmaDev/Machine/Cancel.antt =====
-- vxdma/vxdma.c, `xilinx_dma_terminate_all` while the tasklet of the channel runs a callback.
use petalinux_driver.Prelude.{
  ℕ, ◌+◌, ◌≡◌, Option, refl, sym, ap, ◌∙◌, subst, List, [], ◌∷◌, ◌++◌, false, some, map, arith,
}
use petalinux_driver.Kernel.{Platform, ok, ran_dependencies}
use petalinux_driver.Vxdma.Chan.{TxDesc, Chan}
use petalinux_driver.Vxdma.Pool.{
  weigh, weigh_chan, weigh_descs, weigh_descs-append, weigh-append, weigh-map-clean, segments_of,
  weigh-segments_of, clean_segment,
}
use petalinux_driver.Vxdma.Queue.{terminate_all, run_callback, do_tasklet}
use petalinux_driver.Vxdma.Terminate.{terminate_all_lem}
use petalinux_driver.Vxdma.Invariant.Submit.{freed_lem, weigh-free_tx_descriptor}
use petalinux_driver.Vxdma.Queue.Cleanup.{desc_cleanup_bare}
use petalinux_driver.VxdmaDev.Machine.{
  Desk, Call, terminate, Effect, nothing, followed_by, call, calls, in_callback, retire_desc,
  finish_round, cleanup_round, tasklet_run,
}

-- A channel whose three lists are empty.
pub record IsBare (c : Chan) : Type 0 where
  pub pending : c.pending_list ≡ []
  pub active : c.active_list ≡ []
  pub done : c.done_list ≡ []

retire-IsBare :
    (d : TxDesc) (e : Effect) → IsBare (e.desk.chan) → IsBare (retire_desc d e).desk.chan
unfolding retire_desc
retire-IsBare d e b =
    let noted : Chan = record e.desk.chan {
      trace = ran_dependencies d.cookie ∷ e.desk.chan.trace;
    } in
    subst IsBare (sym (freed_lem noted d))
      (record { pending = b.pending; active = b.active; done = b.done })

-- The rounds behind a termination find nothing done.
tasklet_run_bare :
    (p : Platform) (more : List (List Call)) (k : Desk)
    → k.chan.done_list ≡ []
    → (e : Effect) × (tasklet_run p more k ≡ ok e) × (e.desk ≡ k) × (e.finished ≡ [])
unfolding tasklet_run cleanup_round do_tasklet
tasklet_run_bare p [] k h =
    let same : do_tasklet (k.chan) ≡ k.chan = unfold do_tasklet in desc_cleanup_bare (k.chan) h in
    (nothing k, simp (same, h), refl, refl)
tasklet_run_bare p (xs ∷ more) k h = (nothing k, simp h, refl, refl)

weigh-terminate_all :
    (f : ℕ → ℕ) (p : Platform) (c : Chan) → weigh_chan f (terminate_all p c).1 ≡ weigh_chan f c
unfolding weigh_chan
weigh-terminate_all f p c =
    let t = terminate_all_lem p c in
    let ds = c.pending_list ++ c.done_list ++ c.active_list in
    let w : weigh f (terminate_all p c).1.free_seg_list
        ≡ weigh f c.free_seg_list + weigh_descs f ds =
      ap (weigh f) t.free
      ∙ weigh-append f c.free_seg_list (map clean_segment (segments_of ds))
      ∙ ap (λ x. weigh f c.free_seg_list + x)
          (weigh-map-clean f (segments_of ds) ∙ weigh-segments_of f ds) in
    let parts = weigh_descs-append f (c.pending_list ++ c.done_list) c.active_list in
    let parts' = weigh_descs-append f c.pending_list c.done_list in
    rw (t.pending, t.active, t.done) (omega (arith, w, parts, parts'))

weigh_chan-retire :
    (f : ℕ → ℕ) (d : TxDesc) (e : Effect)
    → weigh_chan f (retire_desc d e).desk.chan ≡ weigh_chan f (e.desk.chan) + weigh f d.segments
unfolding retire_desc
weigh_chan-retire f d e =
    let noted : Chan = record e.desk.chan {
      trace = ran_dependencies d.cookie ∷ e.desk.chan.trace;
    } in
    let same : weigh_chan f noted ≡ weigh_chan f (e.desk.chan) = unfold weigh_chan in refl in
    weigh-free_tx_descriptor f noted d ∙ ap (λ x. x + weigh f d.segments) same

weigh_chan-without_first :
    (f : ℕ → ℕ) (c : Chan) (d : TxDesc) (next : List TxDesc) (callback : Option ℕ)
    → c.done_list ≡ d ∷ next
    → weigh_chan f (run_callback callback (record c { done_list = next })) + weigh f d.segments
      ≡ weigh_chan f c
unfolding weigh_chan
weigh_chan-without_first f c d next callback h = ground arith

retire_cut_weight :
    (f : ℕ → ℕ) (p : Platform) (k : Desk) (d : TxDesc) (next : List TxDesc) (callback : ℕ)
    → k.chan.done_list ≡ d ∷ next
    → let c₁ = run_callback (some callback) (record k.chan { done_list = next }) in
      weigh_chan f (retire_desc d (nothing (record k { chan = (terminate_all p c₁).1 }))).desk.chan
      ≡ weigh_chan f (k.chan)
retire_cut_weight f p k d next callback h =
    let c₁ = run_callback (some callback) (record k.chan { done_list = next }) in
    let cut : Effect = nothing (record k { chan = (terminate_all p c₁).1 }) in
    weigh_chan-retire f d cut
    ∙ ap (λ x. x + weigh f d.segments) (weigh-terminate_all f p c₁)
    ∙ weigh_chan-without_first f (k.chan) d next (some callback) h

-- If the first done descriptor is not cyclic and has a callback, and a call terminates the channel
-- while this callback runs, then the run of the tasklet has a result, whatever would come in its
-- later rounds. It finishes this descriptor and no other, frees it after the termination, and ends
-- with the pending, the active and the done list empty. Every segment of the channel is as often as
-- before in the free list and the lists together.
pub tasklet_run-terminate :
    (p : Platform) (more : List (List Call)) (k : Desk) (d : TxDesc) (next : List TxDesc)
    (callback : ℕ)
    → k.chan.done_list ≡ d ∷ next
    → d.cyclic ≡ false
    → d.callback ≡ some callback
    → (e : Effect) × (tasklet_run p ((terminate ∷ []) ∷ more) k ≡ ok e)
      × IsBare (e.desk.chan)
      × (e.finished ≡ d.cookie ∷ [])
      × ((f : ℕ → ℕ) → weigh_chan f (e.desk.chan) ≡ weigh_chan f (k.chan))
unfolding tasklet_run cleanup_round finish_round in_callback calls call retire_desc
tasklet_run-terminate p more k d next callback h plain own =
    let c₁ = run_callback (some callback) (record k.chan { done_list = next }) in
    let t = terminate_all_lem p c₁ in
    let cut : Effect = nothing (record k { chan = (terminate_all p c₁).1 }) in
    let b : IsBare (cut.desk.chan) = record {
      pending = t.pending;
      active = t.active;
      done = t.done;
    } in
    let last = retire_desc d cut in
    let bare = retire-IsBare d cut b in
    let (e, one, stays, none_more) = tasklet_run_bare p more (last.desk) bare.done in
    (
      followed_by last e,
      simp (h, plain, own, one),
      subst (λ (x : Desk). IsBare (x.chan)) (sym stays) bare,
      ap (λ l. d.cookie ∷ l) none_more,
      λ f.
          ap (λ (x : Desk). weigh_chan f (x.chan)) stays
          ∙ retire_cut_weight f p k d next callback h,
    )
