-- ===== src/ContextPack/Control.antt =====
-- The control for the retrieved pack of se_support/support/context_pack.py: snippets at random, of the
-- same budget. The generator, with its `shuffle` and `randint(0, n)`, is a parameter.
use coding_agent_support.Base.{
  ℕ, ◌+◌, ◌-◌, ◌*◌, true, false, ltb, none, some, List, [], ◌∷◌, ◌++◌, Text, codes, take, drop,
  length, filter, ends_with, split_lines, join,
}
use coding_agent_support.Effects.{Eff, pure, ◌>>=◌}
use coding_agent_support.Task.{TaskSpec}
use coding_agent_support.ContextPack.{
  Reader, Pack, hint_lines, numbered, block_text, add_block, pack_text,
}

unfoldable pub control_header : TaskSpec → List Text
unfolding hint_lines codes
control_header task =
    (codes "## Repository context (random control, C1 v2-random)"
      ∷ []
      ∷ (codes "Repository: " ++ task.repo)
      ∷ [])
    ++ (hint_lines task.test_command ++ ([] ∷ []))

-- at most 14 lines behind the first `start`
unfoldable pub random_block : Text → List Text → ℕ → Text
unfolding numbered block_text
random_block rel b_lines start =
    block_text rel (start + 1) (numbered (start + 1) (take 14 (drop start b_lines)))

module _ {W Rng : Type 0} (reader : Reader W) (shuffle : Rng → List Text → List Text × Rng)
    (randint : Rng → ℕ → ℕ × Rng) where
  -- the loop over the shuffled files, which a block that does not fit ends
  unfoldable pub random_blocks : Rng → ℕ → List Text → Pack → Eff W Pack
  unfolding add_block random_block split_lines
  random_blocks rng budget [] p = pure p
  random_blocks rng budget (rel ∷ files) p = reader.read_file rel 20000 >>= λ body.
      let b_lines = split_lines body in
      elim (ltb (length b_lines) 4) [
        | true ↦ random_blocks rng budget files p
        | false ↦
            let (start, rng') = randint rng (length b_lines - 14) in
            elim (add_block budget (random_block rel b_lines start) p) [
              | none ↦ pure p
              | some q ↦ random_blocks rng' budget files q
            ]
      ]

  -- `rng` is `random.Random(seed)`.
  unfoldable pub build_random_context_pack : Rng → TaskSpec → ℕ → Eff W Text
  unfolding random_blocks control_header pack_text ends_with codes join
  build_random_context_pack rng task token_budget = do
    listed ← reader.list_repo_files 200
    let (files, rng') = shuffle rng (filter (λ f. ends_with f (codes ".py")) listed)
    let header = control_header task
    p ←
        random_blocks rng' (token_budget * 4) files
          (record { lines = header; used = length (join (codes "\n") header) })
    pure (pack_text p.lines)
