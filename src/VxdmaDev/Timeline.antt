-- ===== src/VxdmaDev/Timeline.antt =====
-- vxdma/vxdma_dev.c with vxdma/vxdma.c: what each operation does to the order of the cookies.
use mathlib.Core.List.{map-append}
use petalinux_driver.Prelude.{
  ℕ, ◌≡◌, refl, sym, ap, ◌∙◌, subst, List, [], ◌∷◌, ◌++◌, append_assoc, append-nil, inl, inr, arith,
}
use petalinux_driver.Kernel.{Platform, Code, ok}
use petalinux_driver.Vxdma.Chan.{TxDesc, Chan}
use petalinux_driver.Vxdma.Engine.Launch.{IsQuiet, IsLaunched, start_transfer_cases}
use petalinux_driver.Vxdma.Engine.{start_transfer}
use petalinux_driver.Vxdma.Queue.{IrqReturn, irq_handler, desc_cleanup}
use petalinux_driver.Vxdma.Queue.Complete.{
  Completed, not_ours, acknowledged, completed, irq_handler_cases,
}
use petalinux_driver.Vxdma.Queue.Cleanup.{retired, remaining, desc_cleanup_lem}
use petalinux_driver.Vxdma.Invariant.Enqueue.{enqueued, map-cookie-linked}
use petalinux_driver.Vxdma.Invariant.Submit.{SubmitCase, refused, lost, queued, freed_lem}
use petalinux_driver.VxdmaDev.Client.{cookies_of, timeline, accepted}

pub timeline-enqueued :
    (p : Platform) (d : TxDesc) (c : Chan)
    → timeline c ++ (p.dma_cookie_assign c.cookies).0 ∷ [] ≡ timeline (enqueued p d c)
timeline-enqueued p d c = simp (map-append, append_assoc, map-cookie-linked)

pub timeline-quiet : (c c' : Chan) → IsQuiet c c' → timeline c ≡ timeline c'
timeline-quiet c c' u = sym (ap timeline u)

pub timeline-launched : (c c' : Chan) → IsLaunched c c' → timeline c ≡ timeline c'
timeline-launched c c' u =
    subst (λ x. timeline c ≡ timeline x) (sym u) (simp (map-append, append-nil))

pub timeline-Completed : (p : Platform) (c c' : Chan) → Completed p c c' → timeline c ≡ timeline c'
timeline-Completed p c c' d = ground (
  arith,
  d.next,
  map-append (λ (x : TxDesc). x.cookie) c.done_list c.active_list,
  append_assoc (cookies_of c.done_list) (cookies_of c.active_list) (cookies_of c.pending_list),
  append-nil (cookies_of c.pending_list),
)

pub timeline-SubmitCase :
    (p : Platform) (d : TxDesc) (c c' : Chan) (r : Code)
    → SubmitCase p d c r c'
    → timeline c ++ accepted r ≡ timeline c'
timeline-SubmitCase p d c c' r (refused a k e) =
    rw k (append-nil (timeline c) ∙ sym (ap timeline (e ∙ freed_lem c d)))
timeline-SubmitCase p d c c' r (lost x q a k u) =
    rw k (append-nil (timeline c) ∙ timeline-quiet c c' u)
timeline-SubmitCase p d c c' r (queued c₁ a u k e) =
    let same : c₁.cookies ≡ c.cookies = ap (λ (x : Chan). x.cookies) u in
    rw k (
      ap (λ (l : List ℕ). l ++ (p.dma_cookie_assign c.cookies).0 ∷ []) (timeline-quiet c c₁ u)
      ∙ subst (λ z. timeline c₁ ++ (p.dma_cookie_assign z).0 ∷ [] ≡ timeline c') same
          (subst (λ x. timeline c₁ ++ (p.dma_cookie_assign c₁.cookies).0 ∷ [] ≡ timeline x) (sym e)
            (timeline-enqueued p d c₁)))

pub cookies-retired :
    (ds : List TxDesc) → cookies_of (retired ds) ++ cookies_of (remaining ds) ≡ cookies_of ds
cookies-retired [] = refl
cookies-retired (d ∷ ds) = ground (arith, cookies-retired ds)

pub timeline-start :
    (p : Platform) (c c' : Chan) → start_transfer p c ≡ ok c' → timeline c ≡ timeline c'
timeline-start p c c' h = elim (start_transfer_cases p c c' h) [
  | inl u ↦ timeline-quiet c c' u
  | inr (u, _, _, _) ↦ timeline-launched c c' u
]

pub timeline-irq :
    (p : Platform) (c c' : Chan) (r : IrqReturn)
    → irq_handler p c ≡ ok (r, c')
    → timeline c ≡ timeline c'
timeline-irq p c c' r h = elim (irq_handler_cases p c c' r h) [
  | not_ours off k u e ↦ sym (ap timeline u)
  | acknowledged off k u e ↦ sym (ap timeline u)
  | completed on k d ↦ timeline-Completed p c c' d
]

pub timeline-cleanup :
    (c : Chan) → timeline c ≡ cookies_of (retired c.done_list) ++ timeline (desc_cleanup c)
timeline-cleanup c = ground (
  arith,
  desc_cleanup_lem c,
  cookies-retired c.done_list,
  append_assoc (cookies_of (retired c.done_list)) (cookies_of (remaining c.done_list))
      (cookies_of c.active_list ++ cookies_of c.pending_list),
)
