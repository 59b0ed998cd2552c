-- ===== src/Host.antt =====
-- What the interpreter takes from its surroundings: the tables of the Unicode database behind
-- `str.lower`, `str.isdigit`, `int` and `\d`, and the time zone behind `datetime.timestamp`.
use plain_text_gtd.Prelude.{ℕ, ◌-◌, Bool, ◌&&◌, Option, none, some, map, leb, if◌then◌else◌, ◌+◌}
use plain_text_gtd.Text.{Text}
use plain_text_gtd.Dates.{DateTime}

pub record Host : Type 0 where
  -- `s.lower()`
  pub lower : Text → Text
  -- the value of a decimal digit, `none` for any other character
  pub decimal : ℕ → Option ℕ
  -- `c.isdigit()` for one character; true for some characters that are no decimal digits
  pub is_digit : ℕ → Bool
  -- `t.timestamp()`, on any scale that keeps the order of the results
  pub timestamp : DateTime → ℕ

-- A host that knows ASCII alone and whose local time is UTC.
abbrev pub ascii_host : Host
ascii_host = record {
  lower = map (λ c. if leb 65 c && leb c 90 then c + 32 else c);
  decimal = λ c. if leb 48 c && leb c 57 then some (c - 48) else none;
  is_digit = λ c. leb 48 c && leb c 57;
  timestamp = λ t. t;
}
