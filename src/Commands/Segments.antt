-- ===== src/Commands/Segments.antt =====
-- parser.py: the splitting of tokens into commands, and the reading of a `tk` command. The lexer,
-- `shlex` with `posix` and `punctuation_chars`, is a parameter: it gives the tokens, or none where it
-- raises. So is the test of `_ENV_ASSIGN` for a character of a word, which reads the Unicode tables.
use plain_text_gtd.Prelude.{
  ℕ, Bool, true, false, not, ◌&&◌, ◌||◌, List, [], ◌∷◌, ◌++◌, Option, none, some, ◌==◌, nat_eq,
  text_eq, contains, if◌then◌else◌, leb, drop, length,
}
use plain_text_gtd.Text.{Text, lit, starts_with, has_infix, is_empty, strip}
use plain_text_gtd.Text.Lines.{split}
use plain_text_gtd.Commands.Newlines.{punctuation, newlines_to_semicolons}

-- `all(ch in _PUNCT for ch in tok)`
unfoldable pub all_punctuation : Text → Bool
unfolding nat_eq
all_punctuation [] = true
all_punctuation (ch ∷ tok) = contains punctuation ch && all_punctuation tok

-- `_is_punct`
unfoldable pub is_punct : Text → Bool
unfolding all_punctuation
is_punct tok = not (is_empty tok) && all_punctuation tok

-- `_is_redirect`
unfoldable pub is_redirect : Text → Bool
unfolding is_punct nat_eq
is_redirect tok = is_punct tok && (contains tok 60 || contains tok 62)

-- `_is_control`
unfoldable pub is_control : Text → Bool
unfolding is_punct is_redirect
is_control tok = is_punct tok && not (is_redirect tok)

-- `CommandSegment`
pub record CommandSegment : Type 0 where
  pub words : List Text
  pub has_redirect : Bool
  pub tk_verb : Option Text
  pub tk_args : List Text

-- `flag_values`
unfoldable pub flag_values : List Text → Text → List Text
unfolding text_eq starts_with
flag_values [] flag = []
flag_values (tok ∷ []) flag =
    if tok == flag
    then []
    else if starts_with tok (flag ++ lit "=")
    then drop (length (flag ++ lit "=")) tok ∷ []
    else []
flag_values (tok ∷ next ∷ args) flag =
    let behind = flag_values args flag in
    let rest = flag_values (next ∷ args) flag in
    if tok == flag
    then next ∷ behind
    else if starts_with tok (flag ++ lit "=")
    then drop (length (flag ++ lit "=")) tok ∷ rest
    else rest

-- The part of a text after its last slash: `rsplit("/", 1)[-1]`.
last_part : List Text → Text
last_part [] = []
last_part (t ∷ []) = t
last_part (t ∷ u ∷ ts) = last_part (u ∷ ts)

unfoldable pub base_name : Text → Text
unfolding last_part split
base_name t = last_part (split 47 t)

-- `base in _TK_BASENAMES`
unfoldable pub is_tk : Text → Bool
unfolding base_name text_eq
is_tk word = contains (lit "tk" ∷ lit "ticket" ∷ []) (base_name word)

-- The verb and its arguments, after the name of the tool.
abbrev verb_after : List Text → Option (Text × List Text)
verb_after [] = none
verb_after (verb ∷ args) = some (verb, args)

-- `super` before the verb is passed over.
unfoldable pub verb_of : List Text → Option (Text × List Text)
unfolding text_eq
verb_of [] = none
verb_of (word ∷ words) = if word == lit "super" then verb_after words else some (word, words)

module _ (is_word : ℕ → Bool) where
  -- `\w*=`
  unfoldable pub assigns_after : Text → Bool
  unfolding nat_eq
  assigns_after [] = false
  assigns_after (c ∷ s) = if c == 61 then true else is_word c && assigns_after s

  -- `_ENV_ASSIGN.match`: a letter or an underscore comes first.
  unfoldable pub is_assignment : Text → Bool
  unfolding assigns_after nat_eq
  is_assignment [] = false
  is_assignment (c ∷ s) =
      ((leb 65 c && leb c 90) || (leb 97 c && leb c 122) || c == 95) && assigns_after s

  -- The words behind the leading assignments.
  unfoldable pub skip_assignments : List Text → List Text
  unfolding is_assignment
  skip_assignments [] = []
  skip_assignments (word ∷ words) =
      let rest = skip_assignments words in if is_assignment word then rest else word ∷ words

  abbrev tk_of : List Text → Option (Text × List Text)
  tk_of [] = none
  tk_of (word ∷ words) = if is_tk word then verb_of words else none

  abbrev pub segment_of : List Text → Bool → Option (Text × List Text) → CommandSegment
  segment_of words has_redirect none = record {
    words = words;
    has_redirect = has_redirect;
    tk_verb = none;
    tk_args = [];
  }
  segment_of words has_redirect (some (verb, args)) = record {
    words = words;
    has_redirect = has_redirect;
    tk_verb = some verb;
    tk_args = args;
  }

  -- `_classify_segment`
  unfoldable pub classify_segment : List Text → Bool → CommandSegment
  unfolding skip_assignments is_tk verb_of
  classify_segment words has_redirect =
      segment_of words has_redirect (tk_of (skip_assignments words))

  -- The loop over the tokens, with the words and the flag of the segment at hand.
  unfoldable pub segments_from : List Text → Bool → List Text → List CommandSegment
  unfolding classify_segment is_control is_redirect
  segments_from words has_redirect [] = classify_segment words has_redirect ∷ []
  segments_from words has_redirect (tok ∷ tokens) =
      let ended = segments_from [] false tokens in
      let decorated = segments_from words true tokens in
      let longer = segments_from (words ++ (tok ∷ [])) has_redirect tokens in
      if is_control tok
      then classify_segment words has_redirect ∷ ended
      else if is_redirect tok
      then decorated
      else longer

  module _ (tokenize : Text → Option (List Text)) where
    abbrev parsed : Option (List Text) → Option (List CommandSegment)
    parsed none = none
    parsed (some tokens) = some (segments_from [] false tokens)

    -- `parse_command`
    unfoldable pub parse_command : Text → Option (List CommandSegment)
    unfolding segments_from newlines_to_semicolons strip
    parse_command command = parsed (tokenize (newlines_to_semicolons (strip command)))

    abbrev titles_of_segment : CommandSegment → Option Text → List Text
    titles_of_segment segment none = []
    titles_of_segment segment (some verb) =
        if verb == lit "create" then flag_values segment.tk_args (lit "--step") else []

    unfoldable pub titles_of_segments : List CommandSegment → List Text
    unfolding flag_values text_eq
    titles_of_segments [] = []
    titles_of_segments (segment ∷ segments) =
        titles_of_segment segment segment.tk_verb ++ titles_of_segments segments

    abbrev titles_of_parsed : Option (List CommandSegment) → List Text
    titles_of_parsed none = []
    titles_of_parsed (some segments) = titles_of_segments segments

    -- `extract_create_titles`
    unfoldable pub extract_create_titles : Text → List Text
    unfolding parse_command titles_of_segments has_infix
    extract_create_titles command =
        if not (has_infix (lit "--step") command)
        then []
        else titles_of_parsed (parse_command command)
