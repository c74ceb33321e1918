-- ===== src/Agent.antt =====
-- se_support/agents/llm_agent.py: the loop of the language model's agent. `Directives` reads a reply,
-- `Loop` acts on it, `Workflow` is about the machine that the directives make, `Submission` about the
-- submissions that the loop lets pass, `Edits` about the edits that it takes back, and `Records` holds
-- what it leaves in the run directory.
pub mod Directives
pub mod Loop
pub mod Workflow
pub mod Submission
pub mod Edits
pub mod Records
pub mod Mock
mod Tests
