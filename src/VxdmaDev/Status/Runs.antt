-- ===== src/VxdmaDev/Status/Runs.antt =====
-- vxdma/vxdma.c with vxdma/vxdma_dev.c: the status of every cookie, over the runs of a client.
use petalinux_driver.Prelude.{
  ℕ, zero, suc, ◌+◌, ◌≤◌, ◌<◌, ◌≡◌, refl, sym, ap, ◌∙◌, subst, List, [], ◌∷◌, ◌++◌, length, Bool,
  false, none, All, length-append, All-append, arith,
}
use petalinux_driver.Kernel.{Platform, ok, DmaStatus, dma_complete, dma_in_progress}
use petalinux_driver.Vxdma.Chan.{Chan}
use petalinux_driver.Vxdma.Queue.{is_complete, tx_status}
use petalinux_driver.Vxdma.Invariant.{Inv}
use petalinux_driver.VxdmaDev.Client.{Op, IsProper, cookies_of, Outcome, run}
use petalinux_driver.VxdmaDev.Run.{step_lem}
use petalinux_driver.VxdmaDev.Status.{
  KeepsCookies, max_cookie, upto, upto-append, IsOver, Told, IsOver-mono,
}
use petalinux_driver.VxdmaDev.Status.Calls.{step-Tells}

-- The same of a run that gives out no cookie beyond the last one.
run-Tells :
    (p : Platform) (ops : List Op) (c : Chan)
    → KeepsCookies p
    → All IsProper ops
    → c.cookies.cookie + length ops ≤ max_cookie
    → Inv c
    → Told c
    → (o : Outcome) × (run p ops c ≡ ok o)
      × Told (o.chan)
      × (c.cookies.completed_cookie ≤ o.chan.cookies.completed_cookie)
      × All (IsOver (o.chan.cookies)) o.finished
      × (o.submitted ≡ upto c.cookies.cookie (length o.submitted))
      × (o.chan.cookies.cookie ≡ c.cookies.cookie + length o.submitted)
      × (length o.submitted ≤ length ops)
unfolding run
run-Tells p [] c q h room v t = (
  record { submitted = []; finished = []; chan = c },
  refl,
  t,
  omega arith,
  tt,
  refl,
  omega arith,
  omega arith,
)
run-Tells p (op ∷ ops) c q h room v t =
    let (o, one, a) = step_lem p op c h.0 v in
    let s = step-Tells p op c o q (omega (arith, room)) v t one in
    let (o', two, told, forward, back, given, pace, few) =
      run-Tells p ops (o.chan) q h.1 (omega (arith, room, s.pace, s.few)) a.inv s.told in
    let n = length o.submitted in
    let n' = length o'.submitted in
    let sum : length (o.submitted ++ o'.submitted) ≡ n + n' =
      length-append o.submitted o'.submitted in
    (
      record {
        submitted = o.submitted ++ o'.submitted;
        finished = o.finished ++ o'.finished;
        chan = o'.chan;
      },
      ground arith,
      told,
      omega (arith, forward, s.forward),
      All-append (IsOver (o'.chan.cookies)) o.finished o'.finished
          (IsOver-mono (o.chan.cookies) (o'.chan.cookies) o.finished forward s.back) back,
      ap (λ l. l ++ o'.submitted) s.given
          ∙ ap (λ l. upto c.cookies.cookie n ++ l) (given ∙ ap (λ x. upto x n') s.pace)
          ∙ upto-append c.cookies.cookie n n'
          ∙ ap (upto c.cookies.cookie) (sym sum),
      omega (arith, pace, s.pace, sum),
      omega (arith, few, s.few, sum),
    )

-- A client that asks for the status of a cookie, and for no more, gets this answer.
abbrev pub Answers : Platform → Chan → DmaStatus → ℕ → Type 0
Answers p c status cookie = tx_status p cookie false c ≡ ok (status, none, c)

tx_status_lem :
    (p : Platform) (c : Chan) (cookie : ℕ)
    → Answers p c (p.dma_cookie_status c.cookies cookie) cookie
unfolding tx_status
tx_status_lem p c cookie = ground arith

-- A cookie that is complete, with the residue asked for or not.
abbrev pub IsComplete : Platform → Chan → ℕ → Type 0
IsComplete p c cookie = (wanted : Bool) → tx_status p cookie wanted c ≡ ok (dma_complete, none, c)

tx_status-IsComplete :
    (p : Platform) (c : Chan) (cookie : ℕ)
    → p.dma_cookie_status c.cookies cookie ≡ dma_complete
    → IsComplete p c cookie
unfolding tx_status is_complete
tx_status-IsComplete p c cookie h wanted = simp h

over-IsComplete :
    (p : Platform) (c : Chan) (l : List ℕ)
    → KeepsCookies p
    → c.cookies.completed_cookie ≤ c.cookies.cookie
    → All (IsOver (c.cookies)) l
    → All (IsComplete p c) l
over-IsComplete p c [] q h v = tt
over-IsComplete p c (i ∷ l) q h v =
    (tx_status-IsComplete p c i (q.over i (c.cookies) v.0 h), over-IsComplete p c l q h v.1)

upto-Answers :
    (p : Platform) (c : Chan) (s n : ℕ)
    → KeepsCookies p
    → c.cookies.completed_cookie ≤ s
    → s + n ≤ c.cookies.cookie
    → All (Answers p c dma_in_progress) (upto s n)
upto-Answers p c s zero q h k = tt
upto-Answers p c s (suc n) q h k = (
  subst (λ x. Answers p c x (suc s))
      (q.under_way (suc s) (c.cookies) (omega (arith, h)) (omega (arith, k)))
      (tx_status_lem p c (suc s)),
  upto-Answers p c (suc s) n q (omega (arith, h)) (omega (arith, k)),
)

-- The kernel's cookie helpers count cookies from one to the next below the wrap, note the cookie
-- of a completion, and call a cookie complete if it is at most the one noted. On a channel that
-- satisfies the invariant, whose descriptors are not cyclic, with the cookies under way those
-- behind the one noted, in order, and those of the done list not beyond it, a run of transfers of
-- at least one byte, issues, interrupts and tasklet runs, in any order and whatever the device
-- answers, and too short for a wrap, has a result. A client that then asks for the status of a
-- cookie is told that it is complete, whether it asks for the residue or not, for each that the
-- run finished and each of the done list, and is told that it is in progress, if it does not ask
-- for the residue, for each that is active or pending.
pub run-tx_status :
    (p : Platform) (ops : List Op) (c : Chan)
    → KeepsCookies p
    → All IsProper ops
    → c.cookies.cookie + length ops ≤ max_cookie
    → Inv c
    → Told c
    → (o : Outcome) × (run p ops c ≡ ok o)
      × All (IsComplete p (o.chan)) (o.finished ++ cookies_of o.chan.done_list)
      × All
          (Answers p (o.chan) dma_in_progress)
          (cookies_of o.chan.active_list ++ cookies_of o.chan.pending_list)
run-tx_status p ops c q h room v t =
    let (o, one, told, _, back, _, _, _) = run-Tells p ops c q h room v t in
    let k = o.chan.cookies in
    let s = k.completed_cookie + length o.chan.active_list in
    (
      o,
      one,
      over-IsComplete p (o.chan) _ q (omega (arith, told.last))
          (All-append (IsOver k) o.finished (cookies_of o.chan.done_list) back told.behind),
      All-append (Answers p (o.chan) dma_in_progress) (cookies_of o.chan.active_list)
          (cookies_of o.chan.pending_list)
          (rw told.running (
            upto-Answers p (o.chan) k.completed_cookie (length o.chan.active_list) q (omega arith)
              (omega (arith, told.last))))
          (rw told.waiting (
            upto-Answers p (o.chan) s (length o.chan.pending_list) q (omega arith)
              (omega (arith, told.last)))),
    )

upto-bounds : (s n : ℕ) → s + n ≤ max_cookie → All (λ k. (0 < k) × (k ≤ max_cookie)) (upto s n)
upto-bounds s zero h = tt
upto-bounds s (suc n) h =
    ((omega arith, omega (arith, h)), upto-bounds (suc s) n (omega (arith, h)))

-- The kernel's cookie helpers count cookies from one to the next below the wrap, note the cookie
-- of a completion, and call a cookie complete if it is at most the one noted. On a channel that
-- satisfies the invariant, whose descriptors are not cyclic, with the cookies under way those
-- behind the one noted, in order, and those of the done list not beyond it, a run of transfers of
-- at least one byte, issues, interrupts and tasklet runs, in any order and whatever the device
-- answers, and too short for a wrap, has a result. The cookies that it gave out are the numbers
-- behind the last one given out before it, one after the other, so that no two are the same, and
-- each is a positive number of the type of cookies, so that none reads as an error.
pub run_cookies :
    (p : Platform) (ops : List Op) (c : Chan)
    → KeepsCookies p
    → All IsProper ops
    → c.cookies.cookie + length ops ≤ max_cookie
    → Inv c
    → Told c
    → (o : Outcome) × (run p ops c ≡ ok o)
      × (o.submitted ≡ upto c.cookies.cookie (length o.submitted))
      × All (λ k. (0 < k) × (k ≤ max_cookie)) o.submitted
run_cookies p ops c q h room v t =
    let (o, one, _, _, _, given, _, few) = run-Tells p ops c q h room v t in
    (
      o,
      one,
      given,
      subst (All (λ k. (0 < k) × (k ≤ max_cookie))) (sym given)
          (upto-bounds c.cookies.cookie (length o.submitted) (omega (arith, few, room))),
    )
