-- ===== src/Text/Json.antt =====
-- What `json.loads` makes of the line of a log: a dict, of whose values the code reads texts, and others
-- by `str` alone.
use plain_text_gtd.Prelude.{Bool, false, [], Option, none, some, Assoc, lookup, text_eq, ◌==◌}
use plain_text_gtd.Text.{Text}

-- A value, and of one that is no text, what `str` makes of it.
pub data JsonValue : Type 0 where
  json_text : Text → JsonValue
  json_other : Text → JsonValue

abbrev pub JsonDict : Type 0
JsonDict = Assoc Text JsonValue

abbrev str_or_empty : Option JsonValue → Text
str_or_empty none = []
str_or_empty (some (json_text t)) = t
str_or_empty (some (json_other t)) = t

-- `str(event.get(key, ""))`
unfoldable pub str_of : Text → JsonDict → Text
unfolding lookup text_eq
str_of key event = str_or_empty (lookup key event)

abbrev is_that_text : Text → Option JsonValue → Bool
is_that_text t none = false
is_that_text t (some (json_text u)) = ◌==◌ ⦃e = text_eq⦄ u t
is_that_text t (some (json_other u)) = false

-- `event.get(key) == t`
unfoldable pub has_text : Text → Text → JsonDict → Bool
unfolding lookup text_eq
has_text key t event = is_that_text t (lookup key event)
