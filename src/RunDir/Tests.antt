-- ===== src/RunDir/Tests.antt =====
-- A stream of quoted texts, written and read back.
use coding_agent_support.Base.{
  ◌≡◌, refl, some, [], ◌∷◌, ◌++◌, Text, codes, ends_with, drop_last, is_break, strip, if◌then◌else◌,
  list_eq, nat_eq,
}
use coding_agent_support.Effects.{Result, ok, err, value_error}
use coding_agent_support.RunDir.{append_all, read_jsonl}
use coding_agent_support.RunDir.Streams.{read_jsonl-append_all, read_jsonl-cut}

abbrev quote : Text → Text
quote s = codes "'" ++ s ++ codes "'"

abbrev unquote : Text → Result Text
unquote [] = err value_error
unquote (c ∷ s) = if ends_with s (codes "'") then ok (drop_last 1 s) else err value_error

read_jsonl-append_all_example :
    read_jsonl unquote (some (append_all quote [] (codes "ls -l" ∷ codes "" ∷ [])))
    ≡ ok (codes "ls -l" ∷ codes "" ∷ [])
unfolding codes ends_with is_break strip
read_jsonl-append_all_example =
    read_jsonl-append_all quote unquote (codes "ls -l" ∷ codes "" ∷ []) (
      record {
        one_line = (refl, (refl, (refl, (refl, (refl, (refl, (refl, tt)))))));
        stripped = refl;
        is_given = refl;
        parsed = refl;
      },
      (
        record { one_line = (refl, (refl, tt)); stripped = refl; is_given = refl; parsed = refl },
        tt,
      ),
    )

-- A line separator stands between the two letters.
read_jsonl-cut_example :
    read_jsonl unquote (some (append_all quote [] ((b'a' ∷ 0x2028 ∷ b'b' ∷ []) ∷ codes "ls" ∷ [])))
    ≡ err value_error
unfolding codes ends_with is_break strip
read_jsonl-cut_example =
    read_jsonl-cut quote unquote (b'a' ∷ 0x2028 ∷ b'b' ∷ []) (codes "ls" ∷ []) (codes "'a") 0x2028
      (codes "b'") value_error refl (refl, (refl, tt)) refl refl refl refl
