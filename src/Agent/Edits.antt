-- ===== src/Agent/Edits.antt =====
-- What the loop does about edits that the harness does not allow.
use coding_agent_support.Base.{true, false, ◌≡◌, ◌⊎◌, Option, some, codes, ◌++◌}
use coding_agent_support.Effects.{Result, ok, err}
use coding_agent_support.Harness.{HarnessStateMachine, reject, value}
use coding_agent_support.Agent.Loop.{Surroundings, Next, go_on, stop}

abbrev pub machine_of : Next → Option HarnessStateMachine
machine_of (go_on t) = t.machine
machine_of (stop e) = e.turns.machine

-- the machine with the rejected edit on record
abbrev pub edit_rejected : HarnessStateMachine → HarnessStateMachine
edit_rejected m = (reject (codes "edit") (codes "edits not allowed in " ++ value m.state) m).1

module _ {W : Type 0} (around : Surroundings W) where
  -- From the world `w` behind the commands, the workspace was asked whether it is dirty, and either it
  -- said no and nothing else happened, or it said yes, was reverted, and the edit was rejected.
  abbrev pub IsGuarded : HarnessStateMachine → W → Result Next × W → Type 0
  IsGuarded m w (err e, v) = Unit
  IsGuarded m w (ok next, v) =
      ((around.is_dirty w ≡ (ok false, v)) × (machine_of next ≡ some m))
      ⊎ ((u : W) × (around.is_dirty w ≡ (ok true, u))
          × (around.revert_all u ≡ (ok tt, v))
          × (machine_of next ≡ some (edit_rejected m)))
