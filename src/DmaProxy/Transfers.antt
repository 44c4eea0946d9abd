-- ===== src/DmaProxy/Transfers.antt =====
-- vdmaproxy/dma_proxy.c, a transfer that user space asks for: how it is reported, and what it
-- keeps.
use petalinux_driver.Prelude.{
  map, ℕ, ◌<◌, ◌≡◌, refl, sym, ap, subst, true, false, [], ◌∷◌, Option, none, some, if◌then◌else◌,
  arith,
}
use petalinux_driver.Kernel.{
  Result, ebusy, Errno, Code, code, neg, ok, fault, wild_access, ok-injective, is_ok-value,
}
use petalinux_driver.Kernel.Ledger.{mapping, release, same}
use petalinux_driver.VxdmaDev.Client.{Outcome, run}
use petalinux_driver.Vxdma.Chan.{TxDesc, Chan}
use petalinux_driver.Vxdma.Prep.{prep_slave_sg}
use petalinux_driver.Vxdma.Prep.Balance.{Prepared, prep_slave_sg-Prepared}
use petalinux_driver.Vxdma.Prep.Total.{prep_slave_sg_total, prep_slave_sg_no_bytes}
use petalinux_driver.Vxdma.Invariant.{Inv}
use petalinux_driver.VxdmaDev.{submit_buffer}
use petalinux_driver.VxdmaDev.Run.{submit_buffer_lem}
use petalinux_driver.VxdmaDev.Transfer.{wake_op, Report, completions, wait_for}
use petalinux_driver.VxdmaDev.Transfer.Wait.{
  can_answer, WaitCase, answered, unanswered, wait_for_cases, issued_Inv,
}
use petalinux_driver.DmaProxy.{
  Proxy, Call, submit_and_issue, proxy_start, status_of, unmap, wait_for_transfer, prepare_buffer,
  after_start, transfer, proxy_ioctl,
}

submit_and_issue_lem :
    (q : Call) (held : Option TxDesc) (c c₁ : Chan)
    → Inv c
    → Prepared (λ _. 1) c held c₁
    → (r : Code) × (c' : Chan) × (submit_and_issue q held c₁ ≡ ok (r, c')) × Inv c'
unfolding submit_and_issue submit_buffer
submit_and_issue_lem q none c c₁ v k =
    let (r, c₂, e, w, _) = submit_buffer_lem q.platform q.cmp c c₁ none v k in
    (neg ebusy, c₁, refl, subst Inv (ap (λ (x : Code × Chan). x.1) (sym (ok-injective e))) w)
submit_and_issue_lem q (some d) c c₁ v k =
    let (r, c₂, e, w, _) = submit_buffer_lem q.platform q.cmp c c₁ (some d) v k in
    let (c₃, f, w') = issued_Inv q.platform c₂ w in (r, c₃, ground arith, w')

-- The start of a transfer of at least one byte has a result.
proxy_start_lem :
    (q : Call) (x : Proxy)
    → Inv (x.chan)
    → 0 < x.length
    → (r : Code) × (c' : Chan) × (proxy_start q x ≡ ok (r, c')) × Inv c'
unfolding proxy_start
proxy_start_lem q x v h =
    let ((held, c₁), e) =
      is_ok-value (prep_slave_sg q.platform ((x.dma_handle, x.length) ∷ []) x.direction none x.chan)
        (prep_slave_sg_total q.platform ((x.dma_handle, x.length) ∷ []) x.direction none x.chan
          (omega arith)) in
    let k =
      prep_slave_sg-Prepared (λ _. 1) x.chan q.platform ((x.dma_handle, x.length) ∷ []) x.direction
        none held c₁ e in
    let (r, c', f, w) = submit_and_issue_lem q held x.chan c₁ v k in (r, c', ground arith, w)

-- What a transfer comes to: what it leaves for user space and what it keeps, or the query of a
-- state that cannot be answered.
pub data TransferCase (q : Call) (x : Proxy) (m : Result Proxy) : Type 0 where
  refused :
      (e : Errno) (x' : Proxy)
      → proxy_start q (prepare_buffer q x) ≡ ok (neg e, x'.chan)
      → m ≡ ok x'
      → Inv (x'.chan)
      → x'.cookie ≡ neg e
      → x'.status ≡ x.status
      → x'.held ≡ (if q.cached_buffers then mapping 0 ∷ x.held else x.held)
      → TransferCase q x m
  waited :
      (k : ℕ) (r : Report) (c : Chan) (x' : Proxy)
      → proxy_start q (prepare_buffer q x) ≡ ok (code k, c)
      → m ≡ ok x'
      → Inv (x'.chan)
      → x'.cookie ≡ code k
      → wait_for q.platform q.cmp k (completions q.cmp x.chan.trace) q.wakes c ≡ ok (r, x'.chan)
      → x'.status ≡ status_of r
      → x'.held ≡ x.held
      → TransferCase q x m
  stuck :
      (k : ℕ) (c : Chan) (o : Outcome)
      → proxy_start q (prepare_buffer q x) ≡ ok (code k, c)
      → m ≡ fault wild_access
      → run q.platform (map wake_op q.wakes) c ≡ ok o
      → Inv (o.chan)
      → can_answer q.platform k o.chan ≡ false
      → TransferCase q x m

unmap_lem : (q : Call) (x : Proxy) → unmap q (prepare_buffer q x).held ≡ ok x.held
unfolding unmap prepare_buffer release same
unmap_lem q x = ground arith

after_wait-TransferCase :
    (q : Call) (k : ℕ) (c : Chan) (x : Proxy)
    → proxy_start q (prepare_buffer q x) ≡ ok (code k, c)
    → WaitCase q.platform k q.wakes c
        (wait_for q.platform q.cmp k (completions q.cmp x.chan.trace) q.wakes c)
    → TransferCase q x
        (after_start q (completions q.cmp x.chan.trace) (code k, c) (prepare_buffer q x))
unfolding after_start wait_for_transfer
after_wait-TransferCase q k c x f (answered r c' e w) =
    let y = prepare_buffer q x in
    let back = unmap_lem q x in
    waited k r c (record y { chan = c'; cookie = code k; status = status_of r; held = x.held }) f
      (simp (e, back)) w refl e refl refl
after_wait-TransferCase q k c x s (unanswered o f g w n) = stuck k c o s (simp f) g w n

after_start-TransferCase :
    (q : Call) (r : Code) (c : Chan) (x : Proxy)
    → proxy_start q (prepare_buffer q x) ≡ ok (r, c)
    → Inv c
    → TransferCase q x (after_start q (completions q.cmp x.chan.trace) (r, c) (prepare_buffer q x))
unfolding after_start prepare_buffer
after_start-TransferCase q (neg e) c x f v =
    refused e (record (prepare_buffer q x) { chan = c; cookie = neg e }) f refl v refl
      (ground arith) (ground arith)
after_start-TransferCase q (code k) c x f v =
    after_wait-TransferCase q k c x f
      (wait_for_cases q.platform q.cmp k (completions q.cmp x.chan.trace) q.wakes c v)

-- A transfer of at least one byte on a channel that satisfies the invariant comes to one of three
-- ends, by what its own preparation, submission and issue give. They give an error, and it is
-- refused: the cookie is that error, the status that user space sees is the one from before, and
-- with cached buffers the mapping is kept. Or they give a cookie, and it is waited for: the cookie
-- is the one given out, the status is the report of the wait, and what is held is what was held
-- before. The invariant holds after both. Or they give a cookie, and the wait for it is a wild
-- access: after the events of the wait this cookie is not complete, and nothing is active on a
-- channel with scatter-gather.
pub transfer-TransferCase :
    (q : Call) (x : Proxy) → Inv (x.chan) → 0 < x.length → TransferCase q x (transfer q x)
unfolding transfer prepare_buffer
transfer-TransferCase q x v h =
    let (r, c, f, w) = proxy_start_lem q (prepare_buffer q x) (ground arith) (ground arith) in
    simp f (after_start-TransferCase q r c x f w)

-- An ioctl with a length of 0 in the interface that user space writes, on a channel with a
-- direction of slaves and with memory for the descriptor, is a wild access.
pub proxy_ioctl_no_bytes :
    (q : Call) (x : Proxy)
    → x.length ≡ 0
    → q.platform.is_slave_direction x.direction ≡ true
    → q.platform.kzalloc_fails x.chan.trace ≡ false
    → proxy_ioctl q x ≡ fault wild_access
unfolding proxy_ioctl transfer proxy_start prepare_buffer
proxy_ioctl_no_bytes q x h slave memory =
    let y = prepare_buffer q x in
    let e : prep_slave_sg q.platform ((y.dma_handle, y.length) ∷ []) y.direction none y.chan
        ≡ fault wild_access =
      prep_slave_sg_no_bytes q.platform ((y.dma_handle, y.length) ∷ []) y.direction none y.chan
        (ground arith) (ground arith) (ground arith) in
    ground arith
