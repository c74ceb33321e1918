-- ===== src/Lib.antt =====
-- A verification library for CodingAgentSupport, an experiment that runs one coding agent under
-- different support conditions and measures what the supports change.
--
-- The program. A run (src/se_support/runner/run_manager.py) takes a task and a condition
-- (src/se_support/support/condition.py), builds the condition's frozen support bundle
-- (src/se_support/support/bundle.py), lets the agent work in the task's container, takes its patch
-- (src/se_support/runner/container_workspace.py) and evaluates it. The supports are a context pack,
-- a helper test (src/se_support/support/repro_tests/), validation gates
-- (src/se_support/support/gate_policy.py), an enforced workflow (src/se_support/support/harness.py)
-- and a memory. The analysis (src/se_support/analysis/aggregate.py) reads the directories of the
-- runs and compares the conditions.
--
-- The files.
--   Base, with its children: Python's texts as lists of code points, dicts in insertion order, lists
--     measured by native numbers, equality as an interface, integers, and their lemmas.
--   Effects: exceptions, results, and calls into an abstract world as state passing; Effects/Stateless:
--     calls that answer alike in every world, Effects/Partial and Effects/Total postconditions. Json:
--     what a JSON reader returns.
--   Harness: the class HarnessStateMachine, method by method; Harness/Requests what one request does,
--     Harness/Walk when it succeeds, Harness/Invariant what every reachable machine allows.
--   Patch: src/se_support/runner/patch_utils.py, diff_metrics and changed_files; Patch/Counts and
--     Patch/Files its counts and its list of files.
--   Gates/Policy, Gates/Files, Gates/Runners, Gates/Run: gate_policy.py, from the policies over the
--     configured tools and the single gates to the baseline and the run; Gates/Outcomes the results,
--     Gates/Delta the warnings that are new.
--   Condition: condition.py, the table CONDITIONS and get_condition.
--   Helper: schema.py, validator.py, injector.py and audit.py of repro_tests; Helper/Provenance
--     provenance.py, Helper/Candidates generator.py, Helper/Build select_candidate and
--     build_helper_test, Helper/Container pregen_container.py; Helper/Offers, Helper/Select,
--     Helper/Blind and Helper/Classes what they guarantee, Helper/Parity that both pipelines agree.
--   Bundle: bundle.py; Bundle/Search and Bundle/Layers the layers of a bundle, Bundle/Union the
--     bundles of single layers against that of the full stack, Bundle/Hash what its hash identifies.
--   Integrity: the pure part of container_workspace.py; Integrity/Trees when a tree is clean.
--   Run: the data of run_manager.py, _write_manipulation_check and _resolve_mode; Run/Body _run_body
--     and _infrastructure_failure, as calls and as entries of the run directory in their order, with
--     the start of the agent as one more entry; Run/Log and Run/Trust what the entries say of a run,
--     Run/Treatment the manipulation check over a bundle.
--   Agent/Directives and Agent/Loop: src/se_support/agents/llm_agent.py, the reading of a reply and
--     LLMAgent.run turn by turn; Agent/Workflow the harness machine of the loop, Agent/Submission the
--     submissions that pass, Agent/Edits what is left of edits that are not allowed. Agent/Mock:
--     src/se_support/agents/mock_agent.py.
--   Task: the schema of a task. Workspace: src/se_support/runner/workspace.py, commands and patches in
--     a git workspace; Workspace/Clones real repositories and sandboxed commands, Workspace/Counts the
--     reading of a test run.
--   Evaluation: src/se_support/evaluation/local_eval.py; Evaluation/Verdict what a verdict says,
--     Evaluation/Total when there is one; Evaluation/Report and Evaluation/Docker swebench_eval.py.
--   Quality: src/se_support/quality/quality_card.py; Quality/Overlap the overlap with the gold patch,
--     Quality/Level the level of an evaluation.
--   Datasets: src/se_support/datasets/swebench_importer.py, Datasets/Sampler task_sampler.py, with
--     Datasets/Sampler/Fill and Datasets/Sampler/Sample what a sample holds, Datasets/Import what an
--     imported task keeps.
--   Experiment: src/se_support/experiment/scheduler.py; Experiment/Schedule the order of the cells,
--     Experiment/Rows the results, Experiment/Attempts the number of runs.
--   Isolation: src/se_support/isolation/scrub.py, policy.py and sandbox.py (Isolation/Scrub,
--     Isolation/Sandbox) and _apply_isolation of run_manager.py; Isolation/Blind what they keep from
--     the agent.
--   Prompt: src/se_support/support/prompts.py; Prompt/Frozen the prompt over a built bundle.
--   ContextPack: src/se_support/support/context_pack.py, with the query terms in ContextPack/Terms;
--     ContextPack/Budget the size of a pack, ContextPack/Control the random control.
--   RunDir: src/se_support/runner/run_dir.py, the streams of JSON lines; RunDir/Streams what is read
--     back of them. Agent/Records what the agent leaves there, Quality/Trajectory
--     src/se_support/quality/trajectory.py, the metrics that are computed again; its children Signals,
--     Kept and Metrics set them beside the loop.
--   Audit: scripts/audit_support_contamination.py; Audit/Parts the blocks of a patch, Audit/Partition
--     what the sanitised patch keeps.
--   Analysis: aggregate.py; Analysis/Loading the refusal of mixed cohorts, Analysis/Pairs the counts,
--     Analysis/Keys the tasks that are counted.
-- Definitions have the names of the functions, methods and fields that they model. A method that
-- changes an object returns the changed object; a function that calls the world has the type Eff.
--
-- What stands outside. Commands in the container or on the host, git, pytest, the file system, the
-- chat service, hashing, the JSON reader and the literals that Python's ast finds are arguments
-- (records of calls such as Lab, Bench, Zones, Writers, Ops and Surroundings). Nothing is assumed of
-- them but where a result says so. Case mapping is that of ASCII letters.
--
-- Loops run over lists, and the agent's turns, the search of the harness and the generation of
-- candidates over the number of their rounds, which the source has beforehand. The sampler's round
-- robin has a round of fuel for each task that it selects and one more, which is enough since every
-- round but the last selects a task; no other bound is chosen.
--
-- Not modelled: the text of the memory, which enters a bundle as a call, as the context pack does;
-- the layout of the run directory, the thread pool of the scheduler, the floating-point statistics
-- of the analysis, the scripts but the audit, and the command line with its output.
pub mod Agent
pub mod Analysis
pub mod Audit
pub mod Base
pub mod Bundle
pub mod Condition
pub mod ContextPack
pub mod Datasets
pub mod Effects
pub mod Evaluation
pub mod Experiment
pub mod Gates
pub mod Harness
pub mod Helper
pub mod Integrity
pub mod Isolation
pub mod Json
pub mod Patch
pub mod Prompt
pub mod Quality
pub mod Run
pub mod RunDir
pub mod Task
pub mod Workspace
