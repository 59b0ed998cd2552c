-- ===== src/Shell/Terminals.antt =====
-- layout_ops.py: the terminals of the user among the sessions of tmux.
use plain_text_gtd.Prelude.{
  ℕ, Bool, not, ◌&&◌, List, [], ◌∷◌, ◌++◌, Option, none, some, select, ◌==◌, nat_eq, text_eq,
  if◌then◌else◌, ◌≡◌, refl,
}
use mathlib.Core.List.{append_cancel_left}
use plain_text_gtd.Text.{Text, lit, strip, is_empty, starts_with}
use plain_text_gtd.Text.Lines.{splitlines}
use plain_text_gtd.Text.Decimal.{decimal_text, decimal_text_injective}
use plain_text_gtd.Text.Unused.{first_unused, first_unused_total, IsFirstUnused}

-- `TerminalSessionInfo`
pub record TerminalSessionInfo : Type 0 where
  pub session_name : Text
  pub session_id : Text
  pub cwd : Text

-- The text before the first tab and the text behind it.
unfoldable pub before_tab : Text → Text → Option (Text × Text)
unfolding nat_eq
before_tab read [] = none
before_tab read (c ∷ s) =
    let rest = before_tab (read ++ (c ∷ [])) s in if c == 9 then some (read, s) else rest

abbrev id_and_path : Text → Option (Text × Text) → Option TerminalSessionInfo
id_and_path name none = none
id_and_path name (some (id, path)) =
    some (record { session_name = name; session_id = id; cwd = path })

abbrev name_and_rest : Option (Text × Text) → Option TerminalSessionInfo
name_and_rest none = none
name_and_rest (some (name, rest)) = id_and_path name (before_tab [] rest)

-- `line.split("\t", 2)`, where it has three fields
unfoldable pub session_of : Text → Option TerminalSessionInfo
unfolding before_tab
session_of line = name_and_rest (before_tab [] line)

abbrev with_session :
    Option TerminalSessionInfo → List TerminalSessionInfo → List TerminalSessionInfo
with_session none sessions = sessions
with_session (some session) sessions = session ∷ sessions

unfoldable pub sessions_of : List Text → List TerminalSessionInfo
unfolding session_of strip
sessions_of [] = []
sessions_of (line ∷ lines) =
    let rest = sessions_of lines in
    if is_empty (strip line) then rest else with_session (session_of line) rest

-- `parse_tmux_sessions_output`
unfoldable pub parse_tmux_sessions_output : Text → List TerminalSessionInfo
unfolding sessions_of splitlines
parse_tmux_sessions_output output = sessions_of (splitlines output)

-- `_is_agent_session`
unfoldable pub is_agent_session : Text → Text → Bool
unfolding starts_with
is_agent_session session_name prefix = not (is_empty prefix) && starts_with session_name prefix

-- `filter_user_terminal_sessions`
unfoldable pub filter_user_terminal_sessions :
    List TerminalSessionInfo → Text → List TerminalSessionInfo
unfolding is_agent_session
filter_user_terminal_sessions sessions prefix =
    select (λ session. not (is_agent_session session.session_name prefix)) sessions

-- `is_destroyable_terminal_session`
unfoldable pub is_destroyable_terminal_session : Text → Text → Bool
unfolding is_agent_session
is_destroyable_terminal_session session_name prefix =
    not (is_empty session_name) && not (is_agent_session session_name prefix)

-- `f"{_TERMINAL_NAME_PREFIX}{index}"`
abbrev pub terminal_name : ℕ → Text
terminal_name index = lit "terminal-" ++ decimal_text index

abbrev name_for : Option ℕ → Option Text
name_for none = none
name_for (some n) = some (terminal_name n)

-- `allocate_next_terminal_name`; the names in use are a list, where the code has a set
unfoldable pub allocate_next_terminal_name : List Text → Text → Option Text
unfolding first_unused
allocate_next_terminal_name existing_names prefix =
    name_for (first_unused terminal_name existing_names)

-- Whatever names are in use, a name is allocated: that of the least number from 1 on whose name is not
-- in use.
pub allocate_next_terminal_name_least :
    (existing_names : List Text) (prefix : Text)
    → (n : ℕ) × (allocate_next_terminal_name existing_names prefix ≡ some (terminal_name n))
      × IsFirstUnused terminal_name existing_names n
unfolding allocate_next_terminal_name
allocate_next_terminal_name_least existing_names prefix =
    let (n, e, h) = first_unused_total terminal_name injective existing_names in (n, rw e refl, h)
  where
    injective : (i j : ℕ) → terminal_name i ≡ terminal_name j → i ≡ j
    injective i j e = decimal_text_injective i j (append_cancel_left (lit "terminal-") _ _ e)
