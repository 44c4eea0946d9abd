-- ===== src/VxdmaDev/Transfer/Wait.antt =====
-- vxdma/vxdma_dev.c, `axidma_start_transfer`: when the query behind the wait can be answered.
use petalinux_driver.Prelude.{
  ◌∙◌, inl, inr, ℕ, ◌≡◌, refl, sym, ap, subst, Bool, true, false, not, ◌||◌, List, [], ◌∷◌, map,
  Option, last?, is_empty, All, ltb, arith,
}
use petalinux_driver.Kernel.{
  Result-cases, Fault, fault, Platform, DmaStatus, Result, ok, ◌>>=◌, is_ok, is_ok-value, >>=-eq-ok,
  ok-injective, entry,
}
use petalinux_driver.Vxdma.Chan.{Chan, TxDesc}
use petalinux_driver.Vxdma.Engine.{issue_pending, start_transfer}
use petalinux_driver.Vxdma.Engine.Total.{HasSegments, start_transfer_total}
use petalinux_driver.Vxdma.Queue.{tx_status, is_complete, active_residue}
use petalinux_driver.Vxdma.Invariant.{Inv}
use petalinux_driver.Vxdma.Invariant.Transfer.{start_transfer-Inv}
use petalinux_driver.Vxdma.Pool.{weigh_chan}
use petalinux_driver.VxdmaDev.Client.{IsProper, Outcome, run}
use petalinux_driver.VxdmaDev.Run.{run_lem}
use petalinux_driver.VxdmaDev.Transfer.{
  Wake, on_interrupt, on_tasklet, wake_op, completions, Report, report, wait_for,
  axidma_start_transfer,
}

pub wakes-IsProper : (ws : List Wake) → All IsProper (map wake_op ws)
wakes-IsProper [] = tt
wakes-IsProper (on_interrupt ∷ ws) = (tt, wakes-IsProper ws)
wakes-IsProper (on_tasklet ∷ ws) = (tt, wakes-IsProper ws)

-- The query needs the end of the active list of a channel with scatter-gather, unless the transfer
-- is complete.
abbrev pub can_answer : Platform → (cookie : ℕ) → Chan → Bool
can_answer p cookie c =
    is_complete (p.dma_cookie_status c.cookies cookie)
    || not c.has_sg
    || not (is_empty c.active_list)

last?-is_ok : (ds : List TxDesc) → is_ok (entry (last? ds)) ≡ not (is_empty ds)
last?-is_ok [] = refl
last?-is_ok (d ∷ []) = refl
last?-is_ok (d ∷ e ∷ ds) = last?-is_ok (e ∷ ds)

active_residue-is_ok :
    (c : Chan) → is_ok (active_residue c) ≡ (not c.has_sg || not (is_empty c.active_list))
unfolding active_residue
active_residue-is_ok c = ground (arith, last?-is_ok c.active_list)

tx_status-is_ok :
    (p : Platform) (cookie : ℕ) (c : Chan)
    → is_ok (tx_status p cookie true c) ≡ can_answer p cookie c
unfolding tx_status
tx_status-is_ok p cookie c = ground (arith, active_residue-is_ok c)

last?_fault : (ds : List TxDesc) (e : Fault) → entry (last? ds) ≡ fault e → e ≡ Fault.wild_access
last?_fault [] e h = cc
last?_fault (d ∷ []) e h = cc
last?_fault (d ∷ x ∷ ds) e h = last?_fault (x ∷ ds) e h

tx_status_fault :
    (p : Platform) (cookie : ℕ) (c : Chan) (e : Fault)
    → tx_status p cookie true c ≡ fault e
    → e ≡ Fault.wild_access
unfolding tx_status active_residue
tx_status_fault p cookie c e h = ground (arith, last?_fault c.active_list)

tx_status-residue :
    (p : Platform) (cookie : ℕ) (c c' : Chan) (s : DmaStatus) (r : Option ℕ)
    → tx_status p cookie true c ≡ ok (s, r, c')
    → c' ≡ record c { residue = c'.residue }
unfolding tx_status
tx_status-residue p cookie c c' s r h = ground arith

residue-Inv : (c c' : Chan) → Inv c → c' ≡ record c { residue = c'.residue } → Inv c'
unfolding weigh_chan
residue-Inv c c' v u = record {
  held = subst (All HasSegments) (ap (λ (x : Chan). x.pending_list) (sym u)) v.held;
  counted = ground (arith, v.counted);
  pool = ground (arith, v.pool);
  resting = λ i. ground (arith, v.resting);
}

-- A wait on a channel that satisfies the invariant: what the channel comes to, and whether the wait
-- has a result.
pub record Waited (p : Platform) (cookie : ℕ) (ws : List Wake) (c : Chan) (answered : Bool)
    : Type 0 where
  pub issued : Chan
  pub outcome : Outcome
  pub issue : issue_pending p c ≡ ok issued
  pub events : run p (map wake_op ws) issued ≡ ok outcome
  pub inv : Inv (outcome.chan)
  pub answer : answered ≡ can_answer p cookie (outcome.chan)

pub issued_Inv :
    (p : Platform) (c : Chan) → Inv c → (c' : Chan) × (issue_pending p c ≡ ok c') × Inv c'
unfolding issue_pending
issued_Inv p c v =
    let (c', e) = is_ok-value (start_transfer p c) (start_transfer_total p c v.held) in
    (c', e, start_transfer-Inv p c c' v e)

-- From a channel that satisfies the invariant, the issue and the interrupts and tasklet runs
-- during the wait have results, whatever the device answers, and the channel after them satisfies
-- the invariant. The transfer then has a result exactly if its cookie is complete, or the channel
-- has no scatter-gather, or something is still active: otherwise the query of its state reads the
-- last entry of an empty list.
pub axidma_start_transfer-Waited :
    (p : Platform) (cmp cookie : ℕ) (ws : List Wake) (c : Chan)
    → Inv c
    → Waited p cookie ws c (is_ok (axidma_start_transfer p cmp cookie true ws c))
unfolding axidma_start_transfer wait_for
axidma_start_transfer-Waited p cmp cookie ws c v =
    let (c₁, e, v₁) = issued_Inv p c v in
    let (o, f, a) = run_lem p (map wake_op ws) c₁ (wakes-IsProper ws) v₁ in
    record {
      issued = c₁;
      outcome = o;
      issue = e;
      events = f;
      inv = a.inv;
      answer = ground (arith, tx_status-is_ok p cookie o.chan);
    }

pub wait_for-Inv :
    (p : Platform) (cmp cookie before : ℕ) (ws : List Wake) (c c' : Chan) (r : Report)
    → Inv c
    → wait_for p cmp cookie before ws c ≡ ok (r, c')
    → Inv c'
unfolding wait_for
wait_for-Inv p cmp cookie before ws c c' r v h =
    let (o, f, a) = run_lem p (map wake_op ws) c (wakes-IsProper ws) v in
    let told : DmaStatus × Option ℕ × Chan → Result (Report × Chan) =
      λ s. ok (report (ltb before (completions cmp o.chan.trace)) s.0, s.2) in
    let h' : (tx_status p cookie true o.chan >>= told) ≡ ok (r, c') = ground arith in
    let ((s, res, c₂), q, last) = >>=-eq-ok (tx_status p cookie true o.chan) told h' in
    subst Inv (ap (λ (x : Report × Chan). x.1) (ok-injective last))
      (residue-Inv o.chan c₂ a.inv (tx_status-residue p cookie o.chan c₂ s res q))

-- Whatever its report, a transfer that has a result keeps the invariant.
pub axidma_start_transfer-Inv :
    (p : Platform) (cmp cookie : ℕ) (wait : Bool) (ws : List Wake) (c c' : Chan) (r : Report)
    → Inv c
    → axidma_start_transfer p cmp cookie wait ws c ≡ ok (r, c')
    → Inv c'
unfolding axidma_start_transfer
axidma_start_transfer-Inv p cmp cookie false ws c c' r v h =
    let (c₁, e, v₁) = issued_Inv p c v in subst Inv (ground arith) v₁
axidma_start_transfer-Inv p cmp cookie true ws c c' r v h =
    let (c₁, e, v₁) = issued_Inv p c v in
    wait_for-Inv p cmp cookie (completions cmp c.trace) ws c₁ c' r v₁ (ground arith)

-- A wait has a result, or its query cannot be answered.
pub data WaitCase (p : Platform) (cookie : ℕ) (ws : List Wake) (c : Chan)
    (m : Result (Report × Chan)) : Type 0 where
  answered : (r : Report) (c' : Chan) → m ≡ ok (r, c') → Inv c' → WaitCase p cookie ws c m
  unanswered :
      (o : Outcome)
      → m ≡ fault Fault.wild_access
      → run p (map wake_op ws) c ≡ ok o
      → Inv (o.chan)
      → can_answer p cookie o.chan ≡ false
      → WaitCase p cookie ws c m

pub wait_for_cases :
    (p : Platform) (cmp cookie before : ℕ) (ws : List Wake) (c : Chan)
    → Inv c
    → WaitCase p cookie ws c (wait_for p cmp cookie before ws c)
unfolding wait_for
wait_for_cases p cmp cookie before ws c v =
    let (o, f, a) = run_lem p (map wake_op ws) c (wakes-IsProper ws) v in
    let q = tx_status-is_ok p cookie o.chan in
    elim (Result-cases (tx_status p cookie true o.chan)) [
      | inl ((s, res, c'), e) ↦
          answered (report (ltb before (completions cmp o.chan.trace)) s) c' (ground arith)
            (residue-Inv o.chan c' a.inv (tx_status-residue p cookie o.chan c' s res e))
      | inr (e, bad) ↦
          unanswered o (ground (arith, tx_status_fault p cookie o.chan e bad)) f a.inv
            (sym q ∙ ap is_ok bad)
    ]
