-- ===== src/VxdmaDev/Machine/Retire.antt =====
-- vxdma/vxdma.c, `xilinx_dma_chan_desc_cleanup`: one descriptor, with the calls that come while its
-- callback runs.
use petalinux_driver.Prelude.{
  ℕ, ◌+◌, ◌≤◌, ◌≡◌, refl, sym, ap, ◌∙◌, subst, List, [], ◌∷◌, Option, none, some, All, arith,
}
use petalinux_driver.Kernel.{Platform, ok, ran_dependencies}
use petalinux_driver.Vxdma.Chan.{TxDesc, Chan, num_descs}
use petalinux_driver.Vxdma.Pool.{weigh, weigh_chan}
use petalinux_driver.Vxdma.Segment.{free_tx_descriptor}
use petalinux_driver.Vxdma.Engine.Total.{HasSegments}
use petalinux_driver.Vxdma.Queue.{run_callback}
use petalinux_driver.Vxdma.Invariant.{Inv}
use petalinux_driver.Vxdma.Invariant.Submit.{freed_lem, weigh-free_tx_descriptor}
use petalinux_driver.VxdmaDev.Client.{cookies_of}
use petalinux_driver.VxdmaDev.Protocol.{retire, once, Moves, Moves-trans}
use petalinux_driver.VxdmaDev.Refinement.{Follows, stages}
use petalinux_driver.VxdmaDev.Machine.{Desk, Call, Effect, nothing, in_callback, retire_desc}
use petalinux_driver.VxdmaDev.Machine.Submit.{weigh_chan_le, weigh_desk, Tidy}
use petalinux_driver.VxdmaDev.Machine.Steps.{Sound}
use petalinux_driver.VxdmaDev.Machine.Window.{IsPlain, Sound-nothing, calls-Sound}

-- The done list, the free list and the history are no matter to the invariant, as long as there are
-- not too many segments.
redone-Inv :
    (c c' : Chan)
    → Inv c
    → c' ≡ record c { done_list = c'.done_list; free_seg_list = c'.free_seg_list; trace = c'.trace }
    → weigh_chan (λ _. 1) c' ≤ num_descs
    → Inv c'
redone-Inv c c' v u w = record {
  held = subst (All HasSegments) (ap (λ (x : Chan). x.pending_list) (sym u)) v.held;
  counted = ground (arith, v.counted);
  pool = w;
  resting = λ i. ground (arith, v.resting);
}

-- The desk with the client called back.
abbrev called_back_desk : Option ℕ → Desk → Desk
called_back_desk callback k = record k { chan = run_callback callback k.chan }

weigh-run_callback :
    (f : ℕ → ℕ) (callback : Option ℕ) (k : Desk)
    → weigh_desk f (called_back_desk callback k) ≡ weigh_desk f k
unfolding weigh_desk weigh_chan
weigh-run_callback f callback k = refl

pub in_callback-Sound :
    (p : Platform) (callback : Option ℕ) (xs : List Call) (k : Desk)
    → All IsPlain xs
    → Tidy k
    → (e : Effect) × (in_callback p callback xs k ≡ ok e) × Sound k e
unfolding in_callback
in_callback-Sound p none xs k h v = (nothing k, refl, Sound-nothing k v)
in_callback-Sound p (some callback) xs k h v =
    let k' = called_back_desk (some callback) k in
    let w = weigh-run_callback (λ _. 1) (some callback) k in
    let fits : weigh_desk (λ _. 1) k' ≤ num_descs = omega (arith, w, v.fits) in
    let inv = redone-Inv (k.chan) (k'.chan) v.inv refl (omega (arith, weigh_chan_le k', fits)) in
    let (e, one, a) = calls-Sound p xs k' h (record { inv = inv; held = v.held; fits = fits }) in
    (
      e,
      one,
      record {
        inv = a.inv;
        held = a.held;
        weight = λ f. a.weight f ∙ weigh-run_callback f (some callback) k;
        moves = a.moves;
        more = a.more;
        grown = a.grown;
        awake = a.awake;
      },
    )

-- The first of the done list is taken off.
abbrev pub without_first : Desk → List TxDesc → Desk
without_first k next = record k { chan = record k.chan { done_list = next } }

weigh-without_first :
    (f : ℕ → ℕ) (k : Desk) (d : TxDesc) (next : List TxDesc)
    → k.chan.done_list ≡ d ∷ next
    → weigh_desk f (without_first k next) + weigh f d.segments ≡ weigh_desk f k
unfolding weigh_desk weigh_chan
weigh-without_first f k d next h = ground arith

pub without_first-Tidy :
    (k : Desk) (d : TxDesc) (next : List TxDesc)
    → k.chan.done_list ≡ d ∷ next
    → Tidy k
    → Tidy (without_first k next)
without_first-Tidy k d next h v =
    let k' = without_first k next in
    let fits : weigh_desk (λ _. 1) k' ≤ num_descs =
      omega (arith, weigh-without_first (λ _. 1) k d next h, v.fits) in
    record {
      inv = redone-Inv (k.chan) (k'.chan) v.inv refl (omega (arith, weigh_chan_le k', fits));
      held = v.held;
      fits = fits;
    }

-- A descriptor that is finished behind the calls of its callback.
pub record Finished (k : Desk) (e e' : Effect) : Type 0 where
  pub inv : Inv (e'.desk.chan)
  pub held : All HasSegments e'.desk.held
  pub weight : (f : ℕ → ℕ) → weigh_desk f (e'.desk) ≡ weigh_desk f k
  pub moves : Follows (k.chan) e'.submitted e'.finished (e'.desk.chan)
  pub done : e'.desk.chan.done_list ≡ e.desk.chan.done_list

first-Follows :
    (c : Chan) (d : TxDesc) (next : List TxDesc)
    → c.done_list ≡ d ∷ next
    → Follows c [] (d.cookie ∷ []) (record c { done_list = next })
first-Follows c d next h =
    once (stages c) (retire (d.cookie ∷ []) (cookies_of next) (ap cookies_of h))

-- The segments of a descriptor that is finished are free again.
weigh-retire_desc :
    (f : ℕ → ℕ) (d : TxDesc) (e : Effect)
    → weigh_desk f (retire_desc d e).desk ≡ weigh_desk f (e.desk) + weigh f d.segments
unfolding retire_desc weigh_desk
weigh-retire_desc f d e =
    let noted : Chan = record e.desk.chan {
      trace = ran_dependencies d.cookie ∷ e.desk.chan.trace;
    } in
    let same : weigh_chan f noted ≡ weigh_chan f (e.desk.chan) = unfold weigh_chan in refl in
    omega (arith, weigh-free_tx_descriptor f noted d, same)

pub retire_desc-Finished :
    (k : Desk) (d : TxDesc) (next : List TxDesc) (e : Effect)
    → k.chan.done_list ≡ d ∷ next
    → Tidy k
    → Sound (without_first k next) e
    → Finished k e (retire_desc d e)
unfolding retire_desc
retire_desc-Finished k d next e h v a =
    let noted : Chan = record e.desk.chan {
      trace = ran_dependencies d.cookie ∷ e.desk.chan.trace;
    } in
    let freed = freed_lem noted d in
    let same : (f : ℕ → ℕ) → weigh_desk f (retire_desc d e).desk ≡ weigh_desk f k =
      λ f. omega (arith, weigh-retire_desc f d e, a.weight f, weigh-without_first f k d next h) in
    let fits : weigh_chan (λ _. 1) (free_tx_descriptor noted (some d)) ≤ num_descs =
      omega (arith, weigh_chan_le (retire_desc d e).desk, same (λ _. 1), v.fits) in
    record {
      inv = subst Inv (sym freed) (
          redone-Inv (e.desk.chan) _ a.inv refl
            (subst (λ x. weigh_chan (λ _. 1) x ≤ num_descs) freed fits));
      held = a.held;
      weight = same;
      moves =
          subst (Moves (stages (k.chan)) e.submitted (d.cookie ∷ e.finished))
            (sym (ap stages freed)) (Moves-trans (first-Follows (k.chan) d next h) a.moves);
      done = ap (λ (x : Chan). x.done_list) freed;
    }
