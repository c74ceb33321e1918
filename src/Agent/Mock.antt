-- ===== src/Agent/Mock.antt =====
-- se_support/agents/mock_agent.py: the scripted agent. The time that a run takes is left out.
use coding_agent_support.Base.{
  Bool, true, Option, none, some, [], ◌∷◌, ◌++◌, Text, codes, if◌then◌else◌, ◌==◌, list_eq, nat_eq,
}
use coding_agent_support.Effects.{Result, ok, err, value_error, Eff, pure, ◌>>=◌, ◌>>◌}
use coding_agent_support.Task.{TaskSpec}
use coding_agent_support.RunDir.{TranscriptEvent}
use coding_agent_support.Agent.Records.{bool_text}

pub data MockMode : Type 0 where
  gold empty broken patch : MockMode

abbrev pub mode_text : MockMode → Text
mode_text gold = codes "gold"
mode_text empty = codes "empty"
mode_text broken = codes "broken"
mode_text patch = codes "patch"

-- `MockAgent(mode)`, which refuses an unknown mode
unfoldable pub mock_agent : Text → Result MockMode
unfolding codes
mock_agent mode =
    if mode == codes "gold"
    then ok gold
    else if mode == codes "empty"
    then ok empty
    else if mode == codes "broken"
    then ok broken
    else if mode == codes "patch"
    then ok patch
    else err value_error

-- The workspace and the run directory. `apply_patch` does not check, and `read_gold` reads the file
-- of a path, from the root of the repository if it is relative.
pub record MockStage (W : Type 0) : Type 0 where
  pub apply_patch : Text → Eff W Bool
  pub write_marker : Text → Eff W (Unit {0})
  pub read_gold : Text → Eff W Text
  pub append_transcript : TranscriptEvent → Eff W (Unit {0})
  pub write_final_message : Text → Eff W (Unit {0})

module _ {W : Type 0} (stage : MockStage W) where
  unfoldable pub load_gold : TaskSpec → Eff W Text
  load_gold task = elim task.gold_patch_path [
    | none ↦ pure []
    | some [] ↦ pure []
    | some (c ∷ path) ↦ stage.read_gold (c ∷ path)
  ]

  -- whether the patch applied, and the note
  unfoldable pub play : MockMode → Option Text → TaskSpec → Eff W (Bool × Text)
  unfolding load_gold codes
  play gold patch_text task = do
    diff ← load_gold task
    applied_ok ← stage.apply_patch diff
    pure (applied_ok, codes "applied gold patch")
  play patch patch_text task = do
    applied_ok ← stage.apply_patch (elim patch_text [ none ↦ [] | some text ↦ text ])
    pure (applied_ok, codes "applied provided patch")
  play broken patch_text task = do
    stage.write_marker (codes "noop edit by mock agent\n")
    pure (true, codes "made a no-op unrelated edit")
  play empty patch_text task = pure (true, codes "made no changes")

  -- the run completes if no call raises
  unfoldable pub mock_run : MockMode → Option Text → TaskSpec → Text → Eff W (Unit {0})
  unfolding play codes
  mock_run mode patch_text task condition = do
    stage.append_transcript (record {
      role = codes "system";
      content =
          codes "MockAgent mode="
          ++ mode_text mode
          ++ codes " condition="
          ++ condition
          ++ codes " task="
          ++ task.task_id;
    })
    (applied_ok, note) ← play mode patch_text task
    stage.append_transcript (record { role = codes "assistant"; content = note })
    stage.write_final_message (
        codes "# Mock agent ("
        ++ mode_text mode
        ++ codes ")\n\n"
        ++ note
        ++ codes ". patch_applied="
        ++ bool_text applied_ok
        ++ codes ".\n")
