-- ===== src/ContextPack/Tests.antt =====
-- The query terms of a small issue, and its pack.
use coding_agent_support.Base.{
  ◌≡◌, refl, false, [], ◌∷◌, map, codes, list_beq, list_eq, nat_eq, text_ltb,
}
use coding_agent_support.Effects.{pure}
use coding_agent_support.Effects.Partial.{Ensures}
use coding_agent_support.Task.{TaskSpec}
use coding_agent_support.Task.Samples.{sample}
use coding_agent_support.ContextPack.{Reader, best_snippet, build_context_pack_v2, pack_text}
use coding_agent_support.ContextPack.Control.{
  build_random_context_pack, control_header, random_block,
}
use coding_agent_support.ContextPack.Terms.{issue_query_terms, symbols_from}
use coding_agent_support.ContextPack.Budget.{FitsBudget, build_context_pack_v2-FitsBudget}

abbrev task : TaskSpec
task = record sample {
  issue_title = codes "Fix `foo.bar`";
  issue_body = codes "in util.parse_date. See foo";
}

symbols :
    symbols_from false 0 (codes "`a` b.c.d. x.y") ≡ codes "a" ∷ codes "b.c.d" ∷ codes "x.y" ∷ []
unfolding symbols_from codes
symbols = refl

terms :
    issue_query_terms task 12
    ≡ map codes ("foo" ∷ "bar" ∷ "parse_date" ∷ "util" ∷ "Fix" ∷ "See" ∷ [])
unfolding issue_query_terms codes list_beq text_ltb
terms = refl

snippet :
    best_snippet (codes "x = 1\nfoo\n") (codes "foo" ∷ [])
    ≡ (1, codes "x = 1") ∷ (2, codes "foo") ∷ []
unfolding best_snippet codes
snippet = refl

abbrev reader : Reader (Unit {0})
reader = record {
  list_repo_files = λ n. pure (codes "util.py" ∷ []);
  grep_files = λ words. pure (codes "util.py" ∷ codes "tests/test_util.py" ∷ []);
  read_file = λ path n. pure (codes "def foo():\n    pass\n");
}

build_context_pack_v2-FitsBudget_example :
    Ensures
      (FitsBudget task 100 5 (issue_query_terms task 12))
      (build_context_pack_v2 reader task 100 5)
build_context_pack_v2-FitsBudget_example = build_context_pack_v2-FitsBudget reader task 100 5

-- The file that is listed has too few lines for a block.
random_control :
    build_random_context_pack reader (λ rng files. (files, rng)) (λ rng n. (0, rng)) tt task 100 tt
    ≡ pure (pack_text (control_header task)) tt
unfolding build_random_context_pack pack_text control_header codes
random_control = refl

random_text :
    random_block (codes "a.py") (codes "x" ∷ codes "y" ∷ codes "z" ∷ codes "w" ∷ []) 2
    ≡ codes "### a.py (lines 3-4)\n```python\n    3  z\n    4  w\n```"
unfolding random_block codes
random_text = refl
