-- ===== src/VxdmaDev/Protocol.antt =====
-- What vxdma/vxdma.c promises the clients of a channel, without registers, segments or errors:
-- transfers go through three stages, and none overtakes another.
use petalinux_driver.Prelude.{
  sym, ap, ◌∙◌, ℕ, ◌≡◌, ◌≢◌, List, [], ◌∷◌, ◌++◌, append_assoc, append-nil,
}

-- The cookies of each stage, oldest first.
pub record Stages : Type 0 where
  pub waiting : List ℕ
  pub running : List ℕ
  pub finished : List ℕ

-- One move, with the cookies that it takes in and those that it hands back. A batch is launched only
-- when the one before it is over, and takes all that waits.
pub data Move (v : Stages) : List ℕ → List ℕ → Stages → Type 0 where
  accept : (k : ℕ) → Move v (k ∷ []) [] (record v { waiting = v.waiting ++ k ∷ [] })
  launch :
      v.running ≡ []
      → v.waiting ≢ []
      → Move v [] [] (record v { waiting = []; running = v.waiting })
  complete : Move v [] [] (record v { running = []; finished = v.finished ++ v.running })
  retire :
      (first rest : List ℕ)
      → v.finished ≡ first ++ rest
      → Move v [] first (record v { finished = rest })

pub data Moves : Stages → List ℕ → List ℕ → Stages → Type 0 where
  still : {v : Stages} → Moves v [] [] v
  onward :
      {v w u : Stages} {taken back taken' back' : List ℕ}
      → Move v taken back w
      → Moves w taken' back' u
      → Moves v (taken ++ taken') (back ++ back') u

pub Moves-trans :
    {v w u : Stages} {taken back taken' back' : List ℕ}
    → Moves v taken back w
    → Moves w taken' back' u
    → Moves v (taken ++ taken') (back ++ back') u
Moves-trans still n = n
Moves-trans (onward {taken = t} {back = b} {taken' = t₁} {back' = b₁} m more) n =
    rw (append_assoc t t₁ _, append_assoc b b₁ _) (onward m (Moves-trans more n))

pub once :
    (v : Stages) {w : Stages} {taken back : List ℕ} → Move v taken back w → Moves v taken back w
once v {w = w} {taken = t} {back = b} m =
    let moved : Moves v (t ++ []) (b ++ []) w = onward m still in
    rw (append-nil t, append-nil b) at moved

-- One move more, in front of moves that take and hand back nothing.
pub before_quiet : (v w : Stages) {u : Stages} → Move v [] [] w → Moves w [] [] u → Moves v [] [] u
before_quiet v w m more = onward m more

-- All that has been taken in and not handed back, oldest first.
abbrev pub flow : Stages → List ℕ
flow v = v.finished ++ (v.running ++ v.waiting)

Move-flow :
    {v w : Stages} {taken back : List ℕ} → Move v taken back w → flow v ++ taken ≡ back ++ flow w
Move-flow {v = v} (accept k) = simp append_assoc
Move-flow {v = v} (launch idle some_wait) = simp (idle, append-nil)
Move-flow {v = v} complete = simp (append_assoc, append-nil)
Move-flow {v = v} (retire first rest e) = simp (e, append_assoc, append-nil)

flow_trans :
    (a b c d t t' b' : List ℕ)
    → a ++ t ≡ b ++ c
    → c ++ t' ≡ b' ++ d
    → a ++ (t ++ t') ≡ (b ++ b') ++ d
flow_trans a b c d t t' b' one two =
    sym (append_assoc a t t')
    ∙ ap (λ l. l ++ t') one
    ∙ append_assoc b c t'
    ∙ ap (λ l. b ++ l) two
    ∙ sym (append_assoc b b' d)

-- What the protocol took in comes out of it in the same order.
pub Moves-flow :
    {v w : Stages} {taken back : List ℕ} → Moves v taken back w → flow v ++ taken ≡ back ++ flow w
Moves-flow {v = v} still = append-nil (flow v)
Moves-flow {v = v} {w = u}
      (onward {w = w} {taken = t} {back = b} {taken' = t'} {back' = b'} m more) =
    flow_trans (flow v) b (flow w) (flow u) t t' b' (Move-flow m) (Moves-flow more)
