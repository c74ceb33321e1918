-- ===== src/RunDir/Streams.antt =====
-- What is read back of a stream that was written line by line.
use coding_agent_support.Base.{
  ℕ, true, false, ◌≡◌, refl, sym, ap, ◌∙◌, some, List, [], ◌∷◌, ◌++◌, append_assoc, append-nil,
  reverse, Text, codes, strip, split_lines, lines_from, is_break, is_empty, All, ◌==◌, nat_eq,
}
use mathlib.Core.List.{reverse-cons}
use coding_agent_support.Effects.{Error, Result, ok, err}
use coding_agent_support.RunDir.{append_jsonl, append_all, read_line, read_lines, read_jsonl}

-- no character of the text ends a line
abbrev pub IsOneLine : Text → Type 0
IsOneLine = All (λ c. is_break c ≡ false)

-- a piece of a line is read up to the character that ends it
lines_from-piece :
    (cur piece : Text) (c : ℕ) (rest : Text)
    → IsOneLine piece
    → is_break c ≡ true
    → lines_from false cur (piece ++ c ∷ rest)
      ≡ (reverse cur ++ piece) ∷ lines_from (c == 13) [] rest
unfolding lines_from
lines_from-piece cur [] c rest h e = rw (e, lines_from, append-nil (reverse cur)) refl
lines_from-piece cur (d ∷ piece) c rest h e =
    rw (h.0, lines_from)
      (lines_from-piece (d ∷ cur) piece c rest h.1 e
        ∙ ap (λ line. line ∷ lines_from (c == 13) [] rest)
            (ap (λ r. r ++ piece) (reverse-cons d cur) ∙ append_assoc (reverse cur) (d ∷ []) piece))

-- the first line of a text and what is left
split_lines-piece :
    (piece : Text) (c : ℕ) (rest : Text)
    → IsOneLine piece
    → is_break c ≡ true
    → (c == 13) ≡ false
    → split_lines (piece ++ c ∷ rest) ≡ piece ∷ split_lines rest
unfolding split_lines
split_lines-piece piece c rest h e n =
    lines_from-piece [] piece c rest h e ∙ ap (λ cr. piece ∷ lines_from cr [] rest) n

module _ {A : Type 0} (dump : A → Text) where
  -- the text of the lines
  written : List A → Text
  written [] = []
  written (x ∷ xs) = dump x ++ 10 ∷ written xs

  append_jsonl_lem : (file : Text) (x : A) → append_jsonl dump file x ≡ file ++ dump x ++ 10 ∷ []
  unfolding append_jsonl codes
  append_jsonl_lem file x = refl

  append_all-written : (file : Text) (xs : List A) → append_all dump file xs ≡ file ++ written xs
  unfolding append_all written
  append_all-written file [] = sym (append-nil file)
  append_all-written file (x ∷ xs) =
      append_all-written (append_jsonl dump file x) xs
      ∙ ap (λ f. f ++ written xs) (append_jsonl_lem file x)
      ∙ append_assoc (file ++ dump x) (10 ∷ []) (written xs)
      ∙ append_assoc file (dump x) (10 ∷ written xs)

  module _ (loads : Text → Result A) where
    -- The line of a value is one line, is not blank, begins and ends with no space, and is parsed as
    -- the value.
    pub record IsLine (x : A) : Type 0 where
      pub one_line : IsOneLine (dump x)
      pub stripped : strip (dump x) ≡ dump x
      pub is_given : is_empty (dump x) ≡ false
      pub parsed : loads (dump x) ≡ ok x

    read_line-given :
        (line : Text) (x : A) (xs : List A)
        → is_empty line ≡ false
        → loads line ≡ ok x
        → read_line loads line (ok xs) ≡ ok (x ∷ xs)
    read_line-given [] x xs g p = cc
    read_line-given (c ∷ line) x xs g p = rw p refl

    read_written :
        (xs : List A) → All IsLine xs → read_lines loads (split_lines (written xs)) ≡ ok xs
    unfolding read_lines written split_lines lines_from
    read_written [] h = refl
    read_written (x ∷ xs) h =
        rw
          (
            split_lines-piece (dump x) 10 (written xs) h.0.one_line refl refl,
            read_lines,
            h.0.stripped,
            read_written xs h.1,
          )
          (read_line-given (dump x) x xs h.0.is_given h.0.parsed)

    -- If the printed line of each value is a single line that is not blank, has no space around it and
    -- is parsed as the value, then a stream to which the values are appended is read back as them.
    pub read_jsonl-append_all :
        (xs : List A) → All IsLine xs → read_jsonl loads (some (append_all dump [] xs)) ≡ ok xs
    unfolding read_jsonl
    read_jsonl-append_all xs h =
        ap (λ t. read_lines loads (split_lines t)) (append_all-written [] xs) ∙ read_written xs h

    read_line-refused :
        (line : Text) (out : Result (List A)) (e : Error)
        → is_empty line ≡ false
        → loads line ≡ err e
        → read_line loads line out ≡ err e
    read_line-refused [] out e g p = cc
    read_line-refused (c ∷ line) out e g p = rw p refl

    read_lines-refused :
        (line : Text) (lines : List Text) (e : Error)
        → is_empty (strip line) ≡ false
        → loads (strip line) ≡ err e
        → read_lines loads (line ∷ lines) ≡ err e
    unfolding read_lines
    read_lines-refused line lines e g p = read_line-refused (strip line) _ e g p

    -- If the printed line of a value holds a character, not a carriage return, at which `splitlines`
    -- ends a line, and the parser refuses what stands before the first of them, then reading the stream
    -- fails, whatever is appended behind the value.
    pub read_jsonl-cut :
        (x : A) (xs : List A) (piece : Text) (c : ℕ) (rest : Text) (e : Error)
        → dump x ≡ piece ++ c ∷ rest
        → IsOneLine piece
        → is_break c ≡ true
        → (c == 13) ≡ false
        → is_empty (strip piece) ≡ false
        → loads (strip piece) ≡ err e
        → read_jsonl loads (some (append_all dump [] (x ∷ xs))) ≡ err e
    unfolding read_jsonl written
    read_jsonl-cut x xs piece c rest e d h b n g p =
        ap (λ t. read_lines loads (split_lines t))
          (append_all-written [] (x ∷ xs)
            ∙ ap (λ line. line ++ 10 ∷ written xs) d
            ∙ append_assoc piece (c ∷ rest) (10 ∷ written xs))
        ∙ ap (read_lines loads) (split_lines-piece piece c (rest ++ 10 ∷ written xs) h b n)
        ∙ read_lines-refused piece (split_lines (rest ++ 10 ∷ written xs)) e g p
