-- ===== src/RunDir.antt =====
-- se_support/runner/run_dir.py: the streams of JSON lines in a run directory. The printer and the
-- parser of a line, `model_dump_json` and `json.loads`, are parameters; so is the file system, of
-- which a stream is what one of its files holds.
pub mod Streams
mod Tests
use coding_agent_support.Base.{
  Option, none, some, List, [], ◌∷◌, ◌++◌, Text, codes, strip, split_lines, is_empty,
}
use coding_agent_support.Effects.{Result, ok, err}

-- the written part of `TranscriptEvent`, without its time, tokens and extras
pub record TranscriptEvent : Type 0 where
  pub role : Text
  pub content : Text

module _ {A : Type 0} (dump : A → Text) where
  -- `_append_jsonl`, to the text of the file
  unfoldable pub append_jsonl : Text → A → Text
  unfolding codes
  append_jsonl file model = file ++ dump model ++ codes "\n"

  -- one behind the other
  unfoldable pub append_all : Text → List A → Text
  unfolding append_jsonl
  append_all file [] = file
  append_all file (model ∷ models) = append_all (append_jsonl file model) models

module _ {A : Type 0} (loads : Text → Result A) where
  -- `out.append(o)` for what the rest of the loop gives
  abbrev pub kept : A → Result (List A) → Result (List A)
  kept o (ok out) = ok (o ∷ out)
  kept o (err e) = err e

  abbrev pub loaded : Result A → Result (List A) → Result (List A)
  loaded (ok o) rest = kept o rest
  loaded (err e) rest = err e

  -- the line is stripped, and left out if it is blank
  abbrev pub read_line : Text → Result (List A) → Result (List A)
  read_line [] rest = rest
  read_line (c ∷ line) rest = loaded (loads (c ∷ line)) rest

  unfoldable pub read_lines : List Text → Result (List A)
  read_lines [] = ok []
  read_lines (line ∷ lines) = read_line (strip line) (read_lines lines)

  -- `_read_jsonl`; none if there is no file
  unfoldable pub read_jsonl : Option Text → Result (List A)
  unfolding read_lines
  read_jsonl none = ok []
  read_jsonl (some text) = read_lines (split_lines text)
