-- ===== src/VxdmaDev/Transfer/Ends.antt =====
-- vxdma/vxdma_dev.c, `axidma_start_transfer`: operations that have a result, or stop for a reason.
use petalinux_driver.Prelude.{ℕ, ◌≡◌, sym, ap, subst, true, false, List, map}
use petalinux_driver.Kernel.{Platform, Fault, Result, ok, fault, ◌>>=◌}
use petalinux_driver.Vxdma.Chan.{Chan}
use petalinux_driver.Vxdma.Engine.{issue_pending}
use petalinux_driver.Vxdma.Invariant.{Inv}
use petalinux_driver.VxdmaDev.Client.{Outcome, run}
use petalinux_driver.VxdmaDev.Transfer.{Wake, wake_op, completions, axidma_start_transfer}
use petalinux_driver.VxdmaDev.Transfer.Wait.{
  can_answer, issued_Inv, answered, unanswered, wait_for_cases,
}

-- The wait for a cookie that was submitted, whose query cannot be answered after its events.
pub record Unanswered (p : Platform) (cookie : ℕ) (ws : List Wake) (c : Chan) : Type 0 where
  pub issued : Chan
  pub outcome : Outcome
  pub issue : issue_pending p c ≡ ok issued
  pub events : run p (map wake_op ws) issued ≡ ok outcome
  pub inv : Inv (outcome.chan)
  pub query : can_answer p cookie (outcome.chan) ≡ false

-- A result, or a reason for a fault.
pub data Ends (R : Type 0) {A : Type 0} (m : Result A) : Type 0 where
  ended : (x : A) → m ≡ ok x → Ends R m
  stuck : R → m ≡ fault Fault.wild_access → Ends R m

pub Ends-bind :
    {A B : Type 0} (R : Type 0) (m : Result A) (k : A → Result B)
    → Ends R m
    → ((x : A) → m ≡ ok x → Ends R (k x))
    → Ends R (m >>= k)
Ends-bind R m k (ended x e) h = subst (λ n. Ends R (n >>= k)) (sym e) (h x e)
Ends-bind R m k (stuck why bad) h = stuck why (ap (λ n. n >>= k) bad)

pub start_transfer-Ends :
    (R : Type 0) (p : Platform) (cmp cookie : ℕ) (ws : List Wake) (c : Chan)
    → Inv c
    → (Unanswered p cookie ws c → R)
    → Ends R (axidma_start_transfer p cmp cookie true ws c)
unfolding axidma_start_transfer
start_transfer-Ends R p cmp cookie ws c v why =
    let (c₁, e, v₁) = issued_Inv p c v in
    elim (wait_for_cases p cmp cookie (completions cmp c.trace) ws c₁ v₁) [
      | answered r c' f w ↦ ended (r, c') (simp (e, f))
      | unanswered o f g w n ↦
          stuck
            (why (record { issued = c₁; outcome = o; issue = e; events = g; inv = w; query = n }))
            (simp (e, f))
    ]
