-- ===== src/VxdmaDev/Machine/Upright.antt =====
-- vxdma/vxdma.c with vxdma/vxdma_dev.c: the invariant of a channel with its tasklet, kept by each phase
-- of a run.
use petalinux_driver.Prelude.{
  ℕ, ◌≡◌, refl, sym, ap, ◌∙◌, List, [], ◌++◌, append_assoc, append-nil, Bool, true, false, ◌⊎◌, inl,
  inr, All, arith, Bool-cases,
}
use petalinux_driver.Kernel.{Platform, ok}
use petalinux_driver.Vxdma.Queue.Cleanup.{retired}
use petalinux_driver.VxdmaDev.Client.{timeline}
use petalinux_driver.VxdmaDev.Protocol.{still, Moves-trans, Moves-flow}
use petalinux_driver.VxdmaDev.Refinement.{Follows}
use petalinux_driver.VxdmaDev.Machine.{Desk, Effect, take_out}
use petalinux_driver.VxdmaDev.Machine.Phases.{
  Machine, after, Phase, arrival, handler, submission, tasklet, phase,
}
use petalinux_driver.VxdmaDev.Machine.Submit.{weigh_desk, Tidy, take_out-TakenFrom}
use petalinux_driver.VxdmaDev.Machine.Steps.{Sound, Sound-Tidy}
use petalinux_driver.VxdmaDev.Machine.Window.{IsPlain, call-Sound}
use petalinux_driver.VxdmaDev.Machine.Split.{split_handler-Sound}
use petalinux_driver.VxdmaDev.Machine.Joined.{split_submit-Sound}
use petalinux_driver.VxdmaDev.Machine.Cleanup.{Cleaned, tasklet_run-Cleaned}

-- No call terminates the channel, and every transfer has at least one byte.
abbrev pub IsPlainPhase : Phase → Type 0
IsPlainPhase (arrival x) = IsPlain x
IsPlainPhase (handler xs) = All IsPlain xs
IsPlainPhase (submission place callback xs) = All IsPlain xs
IsPlainPhase (tasklet windows) = All (All IsPlain) windows

-- The desk is tidy, the cookies that were given out are those that were finished and then those in the
-- channel, in order, and what the tasklet could retire is there only while it is scheduled.
pub record Upright (m : Machine) : Type 0 where
  pub tidy : Tidy (m.desk)
  pub order : m.submitted ≡ m.finished ++ timeline (m.desk.chan)
  pub awake : (m.scheduled ≡ true) ⊎ (retired m.desk.chan.done_list ≡ [])

-- From one state of a machine to another by moves of the protocol, with every segment still there as
-- often as before.
pub record Follow (m m' : Machine) : Type 0 where
  pub taken : List ℕ
  pub back : List ℕ
  pub moves : Follows (m.desk.chan) taken back (m'.desk.chan)
  pub submitted : m'.submitted ≡ m.submitted ++ taken
  pub finished : m'.finished ≡ m.finished ++ back
  pub weight : (f : ℕ → ℕ) → weigh_desk f (m'.desk) ≡ weigh_desk f (m.desk)

order_after :
    (sub fin t u taken back : List ℕ)
    → sub ≡ fin ++ t
    → t ++ taken ≡ back ++ u
    → sub ++ taken ≡ (fin ++ back) ++ u
order_after sub fin t u taken back e f =
    ap (λ l. l ++ taken) e
    ∙ append_assoc fin t taken
    ∙ ap (λ l. fin ++ l) f
    ∙ sym (append_assoc fin back u)

pub Upright-order :
    (m : Machine) (e : Effect)
    → Upright m
    → Follows (m.desk.chan) e.submitted e.finished (e.desk.chan)
    → m.submitted ++ e.submitted ≡ (m.finished ++ e.finished) ++ timeline (e.desk.chan)
Upright-order m e v f =
    order_after m.submitted m.finished (timeline (m.desk.chan)) (timeline (e.desk.chan)) e.submitted
      e.finished v.order (Moves-flow f)

Follow-after :
    (m : Machine) (scheduled : Bool) (e : Effect)
    → Follows (m.desk.chan) e.submitted e.finished (e.desk.chan)
    → ((f : ℕ → ℕ) → weigh_desk f (e.desk) ≡ weigh_desk f (m.desk))
    → Follow m (after m scheduled e)
Follow-after m scheduled e f w = record {
  taken = e.submitted;
  back = e.finished;
  moves = f;
  submitted = refl;
  finished = refl;
  weight = w;
}

pub Follow-refl : (m : Machine) → Follow m m
Follow-refl m = record {
  taken = [];
  back = [];
  moves = still;
  submitted = sym (append-nil m.submitted);
  finished = sym (append-nil m.finished);
  weight = λ f. refl;
}

pub Follow-trans : (m m' m'' : Machine) → Follow m m' → Follow m' m'' → Follow m m''
Follow-trans m m' m'' a b = record {
  taken = a.taken ++ b.taken;
  back = a.back ++ b.back;
  moves = Moves-trans a.moves b.moves;
  submitted =
      b.submitted ∙ ap (λ l. l ++ b.taken) a.submitted ∙ append_assoc m.submitted a.taken b.taken;
  finished = b.finished ∙ ap (λ l. l ++ b.back) a.finished ∙ append_assoc m.finished a.back b.back;
  weight = λ f. b.weight f ∙ a.weight f;
}

Sound-awake :
    (m : Machine) (e : Effect)
    → Upright m
    → Sound (m.desk) e
    → ((after m m.scheduled e).scheduled ≡ true) ⊎ (retired e.desk.chan.done_list ≡ [])
Sound-awake m e v a = elim (Bool-cases e.woken) [
  | inl woken ↦ inl (ground arith)
  | inr asleep ↦ elim (v.awake) [
    | inl scheduled ↦ inl (ground arith)
    | inr clean ↦ inr (ground (arith, a.grown, a.awake asleep, append-nil m.desk.chan.done_list))
  ]
]

-- The calls and the handler leave the mark of a scheduled tasklet.
Sound-Upright :
    (m : Machine) (e : Effect)
    → Upright m
    → Sound (m.desk) e
    → Upright (after m m.scheduled e) × Follow m (after m m.scheduled e)
Sound-Upright m e v a = (
  record {
    tidy = Sound-Tidy (m.desk) e v.tidy a;
    order = Upright-order m e v a.moves;
    awake = Sound-awake m e v a;
  },
  Follow-after m m.scheduled e a.moves a.weight,
)

Cleaned-Tidy : (k : Desk) (e : Effect) → Tidy k → Cleaned k e → Tidy (e.desk)
Cleaned-Tidy k e v a = record {
  inv = a.inv;
  held = a.held;
  fits = omega (arith, v.fits, a.weight (λ _. 1));
}

pub phase-Upright :
    (p : Platform) (x : Phase) (m : Machine)
    → IsPlainPhase x
    → Upright m
    → (m' : Machine) × (phase p x m ≡ ok m') × Upright m' × Follow m m'
unfolding phase
phase-Upright p (arrival x) m h v =
    let (e, one, a) = call-Sound p x (m.desk) h v.tidy in
    let (u, f) = Sound-Upright m e v a in (after m m.scheduled e, ground arith, u, f)
phase-Upright p (handler xs) m h v =
    let (e, one, a) = split_handler-Sound p xs (m.desk) h v.tidy in
    let (u, f) = Sound-Upright m e v a in (after m m.scheduled e, ground arith, u, f)
phase-Upright p (submission place callback xs) m h v =
    let (e, one, a) =
      split_submit-Sound p callback xs (take_out place m.desk.held) (m.desk) h v.tidy
        (take_out-TakenFrom place m.desk.held) in
    let (u, f) = Sound-Upright m e v a in (after m m.scheduled e, ground arith, u, f)
phase-Upright p (tasklet windows) m h v = elim (Bool-cases m.scheduled) [
  | inl scheduled ↦
      let (e, one, a) = tasklet_run-Cleaned p windows (m.desk) h v.tidy in
      (
        after m false e,
        ground arith,
        record {
          tidy = Cleaned-Tidy (m.desk) e v.tidy a;
          order = Upright-order m e v a.moves;
          awake = inr a.clean;
        },
        Follow-after m false e a.moves a.weight,
      )
  | inr asleep ↦ (m, ground arith, v, Follow-refl m)
]
