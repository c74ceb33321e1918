-- ===== src/Prompt.antt =====
-- se_support/support/prompts.py: the system prompt of the agent.
pub mod Frozen
mod Tests
use coding_agent_support.Base.{
  Bool, true, false, not, ◌&&◌, Option, none, some, List, [], ◌∷◌, ◌++◌, map, Text, codes, join,
  is_empty, if◌then◌else◌,
}
use coding_agent_support.Effects.{Eff, pure, ◌>>=◌}
use coding_agent_support.Task.{TaskSpec}
use coding_agent_support.Condition.{SupportCondition}
use coding_agent_support.Bundle.{
  SupportArtifact, SupportBundle, Layer, artifact, is_present, context, tests, memory,
}

-- `_BASE`
unfoldable pub base_prompt : Text
base_prompt = join (codes "\n") (
    map codes (
      "You are a software engineering agent fixing a bug in a repository." ∷ ""
      ∷ "You interact by emitting shell commands inside fenced bash blocks:" ∷ "" ∷ "```bash"
      ∷ "<your command>" ∷ "```" ∷ ""
      ∷ "You may include one or more bash blocks in a message; they run in order and you"
      ∷ "receive their combined output before your next message. Work iteratively: inspect"
      ∷ "the code, then actually EDIT the source files to fix the bug, then verify. Do not"
      ∷ "just plan — you must make real edits to the repository's source files." ∷ ""
      ∷ "You are in the repository root. The target package is already importable; you do"
      ∷ "NOT have network access, so do not try to pip install, create virtualenvs, or"
      ∷ "fetch anything. Fix the bug by editing the repository's source files directly."
      ∷ "You can run the repository's existing test suite with pytest (for example"
      ∷ "`python -m pytest <path/to/test_file.py>`) to check your work — this operational"
      ∷ "access is available regardless of what other support you are given."
      ∷ "Use only NON-INTERACTIVE commands (e.g. a `python - <<'PY' ... PY` heredoc,"
      ∷ "`sed -i`, or redirecting into a file). Do NOT use interactive editors such as"
      ∷ "nano, vim, or less. Inspect files, make the edit, and verify it." ∷ ""
      ∷ "Only when the fix is truly complete and you have made your edits, reply with a"
      ∷ "message whose LAST line is exactly the single word:" ∷ "" ∷ "SUBMIT" ∷ ""
      ∷ "Do NOT write SUBMIT while you still have commands to run or before you have edited"
      ∷ "the source — a message containing bash blocks is treated as work, not submission." ∷ []))

-- `_HARNESS_RULES`
unfoldable pub harness_rules : Text
harness_rules = join (codes "\n") (
    map codes (
      "" ∷ "" ∷ "ENFORCED WORKFLOW (C4). You move through states in order:"
      ∷ "DISCOVER → DIAGNOSE → PATCH → VALIDATE → SUBMIT." ∷ ""
      ∷ "Rules (the runner enforces these):"
      ∷ "1. Code edits are ONLY allowed in PATCH and VALIDATE. Edits attempted in"
      ∷ "   DISCOVER or DIAGNOSE are automatically reverted."
      ∷ "2. To advance one state, output a line exactly: `NEXT_STATE: <STATE>`."
      ∷ "3. To leave DISCOVER you must first output a line `LOCALIZATION: <where the fault is>`."
      ∷ "4. To leave DIAGNOSE you must first output a line `DIAGNOSIS: <root cause>`."
      ∷ "5. To SUBMIT you must be in the SUBMIT state; to leave VALIDATE you must first"
      ∷ "   output a line `VALIDATION: <how you verified the fix>`."
      ∷ "Do not edit code before NEXT_STATE: PATCH. Do not SUBMIT before validating." ∷ []))

unfoldable pub issue_part : TaskSpec → Text
issue_part task = codes "\n## Issue\nTitle: " ++ task.issue_title ++ codes "\n\n" ++ task.issue_body

unfoldable pub tests_part : Text → Text
tests_part content =
    codes "\n## Reproduction test (helper)\n"
    ++ codes "A reproduction test for this issue is available (read-only) at "
    ++ codes "`.se_support/helper_test.py`. Run it with "
    ++ codes "`python -m pytest .se_support/helper_test.py` to check your fix. "
    ++ codes "It should FAIL before your fix and PASS after. It is a read-only "
    ++ codes "helper, not the grader; you cannot and must not edit it, and it is "
    ++ codes "not part of your submission.\n\n```python\n"
    ++ content
    ++ codes "\n```"

-- `bundle.artifact(layer)` of a bundle that may be None
unfoldable pub found_in : Layer → Option SupportBundle → Option SupportArtifact
unfolding artifact
found_in layer none = none
found_in layer (some b) = artifact layer b

-- the parts that the test artifact adds
unfoldable pub test_parts : Option SupportArtifact → List Text
unfolding tests_part
test_parts none = []
test_parts (some a) =
    if is_present a.status && not (is_empty a.content) then tests_part a.content ∷ [] else []

-- The context pack and the memory that are made where no bundle has them.
pub record Inline (W : Type 0) : Type 0 where
  pub build_context_pack : TaskSpec → Eff W Text
  pub build_memory : TaskSpec → Eff W Text

unfoldable pub content_or : {W : Type 0} → Eff W Text → Option SupportArtifact → Eff W (List Text)
content_or make none = make >>= λ text. pure ((codes "\n" ++ text) ∷ [])
content_or make (some a) = pure ((codes "\n" ++ a.content) ∷ [])

abbrev pub parts_if : {W : Type 0} → Bool → Eff W (List Text) → Eff W (List Text)
parts_if true m = m
parts_if false m = pure []

unfoldable pub build_system_prompt :
    {W : Type 0} → Inline W → TaskSpec → SupportCondition → Option SupportBundle → Eff W Text
unfolding issue_part found_in test_parts content_or
build_system_prompt inline task c bundle = do
  context_parts ←
      parts_if c.context (content_or (inline.build_context_pack task) (found_in context bundle))
  memory_parts ← parts_if c.memory (content_or (inline.build_memory task) (found_in memory bundle))
  pure (
      join (codes "\n") (
        (base_prompt ∷ issue_part task ∷ [])
        ++ (context_parts
            ++ (memory_parts
                ++ ((if c.tests then test_parts (found_in tests bundle) else [])
                    ++ (if c.harness then harness_rules ∷ [] else []))))))
