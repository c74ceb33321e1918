-- ===== src/Helper/Tests.antt =====
-- A small laboratory, and the theorems at it.
use coding_agent_support.Base.{
  is_empty, ◌≡◌, refl, true, false, none, some, [], ◌∷◌, Text, codes, list_beq, ◌==◌, list_eq,
  nat_eq, IsDistinct, map, length, find, or_else, if◌then◌else◌, ◌≤◌,
}
use coding_agent_support.Effects.{ok, OnOk, Agree}
use coding_agent_support.Helper.{Lab, TestRunOutcome, outcome_of, run_test_in_workspace}
use coding_agent_support.Helper.Candidates.{extract_code, generate_candidates}
use coding_agent_support.Helper.Provenance.{suspicious_literals}
use coding_agent_support.Helper.Build.{build_helper_test, select_candidate, helper_name}
use coding_agent_support.Helper.Blind.{blind_part, build_helper_test-IsGoldBlind}
use coding_agent_support.Helper.Parity.{choose_in_container-select}
use coding_agent_support.Helper.Classes.{IsBuilt, build_helper_test-IsBuilt}
use coding_agent_support.Helper.Select.{is_good, select_candidate-choice}
use coding_agent_support.Helper.Container.{choose_in_container, Zones, run_candidate_in_container}
use coding_agent_support.Helper.Offers.{generate_candidates-IsDistinct}

-- tests pass in the directory "gold" alone, and the model gives one answer
abbrev lab : Lab Unit
lab = record {
  write_text = λ dir name text w. (ok tt, w);
  unlink = λ dir name w. (ok tt, w);
  pytest = λ dir name w. (
    ok (record { returncode = if dir == codes "gold" then 0 else 1; stdout = []; stderr = [] }),
    w,
  );
  complete = λ system user w. (ok (codes "```python\ndef test_f():\n    assert f() == 1\n```"), w);
  hash_text = λ t. t;
  literals_in_asserts = λ t. codes "1" ∷ [];
}

abbrev test_source : Text
test_source = codes "def test_f():\n    assert f() == 1"

extract_code_fenced :
    extract_code (codes "Here: ```python\n\n x = 1\n``` done") ≡ some (codes "x = 1")
unfolding extract_code codes
extract_code_fenced = refl

suspicious_long :
    suspicious_literals (codes "no such column a" ∷ codes "short one" ∷ []) (codes "It  fails")
    ≡ codes "no such column a" ∷ []
unfolding suspicious_literals codes
suspicious_long = refl

build_helper_test-IsGoldBlind_example :
    Agree
      (λ a b. blind_part a ≡ blind_part b)
      (build_helper_test lab (codes "t") (codes "f fails") [] (codes "base") none [] none 2 tt).0
      (build_helper_test lab
        (codes "t")
        (codes "f fails")
        []
        (codes "base")
        (some (codes "gold"))
        []
        none
        2
        tt).0
build_helper_test-IsGoldBlind_example =
    build_helper_test-IsGoldBlind lab (codes "t") (codes "f fails") [] (codes "base") none
      (some (codes "gold")) [] none 2 tt

build_helper_test-IsBuilt_example :
    OnOk
      (IsBuilt lab (codes "f fails") [] (codes "base") (some (codes "gold")) [] 2 tt)
      (build_helper_test lab
        (codes "t")
        (codes "f fails")
        []
        (codes "base")
        (some (codes "gold"))
        []
        none
        2
        tt).0
build_helper_test-IsBuilt_example =
    build_helper_test-IsBuilt lab (codes "t") (codes "f fails") [] (codes "base")
      (some (codes "gold")) [] none 2 tt

abbrev base_outcome : Text → TestRunOutcome
base_outcome s = record { collected = true; passed = false; output = [] }

answers :
    (s : Text) (w : Unit {0})
    → run_test_in_workspace lab (codes "base") s helper_name w ≡ (ok (base_outcome s), w)
unfolding run_test_in_workspace outcome_of codes list_beq
answers s w = refl

select_candidate-choice_example :
    select_candidate lab (test_source ∷ []) (codes "base") (codes "f fails") [] tt ≡ (
      ok (
          or_else
            (find (is_good lab (codes "f fails") [] base_outcome) (test_source ∷ []))
            (find (λ s. (base_outcome s).collected) (test_source ∷ []))),
      tt,
    )
select_candidate-choice_example =
    select_candidate-choice lab (codes "base") (codes "f fails") [] base_outcome answers
      (test_source ∷ []) tt

generate_candidates-IsDistinct_example :
    OnOk
      (λ cs. IsDistinct (map lab.hash_text cs) × (length cs ≤ 3))
      (generate_candidates lab (codes "f fails") [] 3 tt).0
generate_candidates-IsDistinct_example =
    generate_candidates-IsDistinct lab (codes "f fails") [] 3 tt

-- a container in which every candidate fails
abbrev zones : Zones Unit
zones = record {
  start = λ w. (ok tt, w);
  close = λ w. (ok tt, w);
  inject = λ source w. (ok tt, w);
  pytest = λ w. (ok 1, w);
  remove = λ w. (ok tt, w);
  context_pack = λ w. (ok (codes "context"), w);
  inject_patch = λ patch w. (ok tt, w);
  applied = λ w. (ok true, w);
}

agrees :
    (s : Text) (w : Unit {0})
    → run_candidate_in_container lab zones s w
      ≡ (ok ((base_outcome s).collected, (base_outcome s).passed), w)
unfolding run_candidate_in_container
agrees s w = refl

not_empty : is_empty test_source ≡ false
unfolding codes
not_empty = refl

choose_in_container-select_example :
    choose_in_container lab zones (codes "f fails") [] (test_source ∷ []) tt
    ≡ select_candidate lab (test_source ∷ []) (codes "base") (codes "f fails") [] tt
choose_in_container-select_example =
    choose_in_container-select lab zones (codes "base") (codes "f fails") [] base_outcome answers
      agrees (test_source ∷ []) tt (not_empty, tt)
