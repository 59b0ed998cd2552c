-- ===== src/Tests/Items.antt =====
-- The items and files of the runs.
use plain_text_gtd.Prelude.{
  ℕ, ◌+◌, ◌*◌, ◌≡◌, ◌≢◌, refl, true, false, List, [], ◌∷◌, none, some, Assoc, text_eq, option_eq,
  arith, ◌==◌, nat_eq,
}
use plain_text_gtd.Text.{Text, lit, strip}
use plain_text_gtd.Dates.{DateTime, day_length, IsDate}
use plain_text_gtd.DataTypes.{Item, new_item, status_eq, next, waiting, int_eq}
use plain_text_gtd.Frontmatter.{Post, IsClean}
use plain_text_gtd.World.{World}
use plain_text_gtd.Storage.Memory.{memory_frontmatter}
use plain_text_gtd.Storage.Posts.{post_of}
use plain_text_gtd.Storage.Files.{file_name}
use plain_text_gtd.Storage.RoundTrip.{HasDates}

pub not_feed : {c : ℕ} → (c == 10) ≡ false → c ≢ 10
not_feed h e = ground arith

pub decided : {a b : Text} → (a == b) ≡ false → a ≢ b
decided h e = ground arith

abbrev pub noon : DateTime
noon = 700000 * day_length + 43200000000

abbrev pub project : Item
project = record (new_item (lit "gtd-a1") (lit "Move house") next noon) { is_project = true }

abbrev pub child : Item
child = record (new_item (lit "gtd-b2") (lit "Call the bank") waiting noon) {
  parent = some (lit "gtd-a1");
}

abbrev pub world_of : List Item → World memory_frontmatter
world_of items = record {
  disk = record {
    items = some (stored items);
    instructions = none;
    weekly_review = none;
    projects_and_goals = none;
    intentions = none;
  };
  clock = λ n. noon + n;
  ticks = 0;
  random = λ n. 11259375;
  draws = 0;
}
  where
    stored : List Item → Assoc Text Post
    stored [] = []
    stored (it ∷ rest) = (file_name it.id, post_of it) ∷ stored rest

abbrev pub two_items : World memory_frontmatter
two_items = world_of (project ∷ child ∷ [])

pub noon-IsDate : IsDate 700000
noon-IsDate = record { low = omega arith; high = omega arith }

pub project-HasDates : HasDates project
project-HasDates = record { created = noon-IsDate; updated = noon-IsDate; due = tt; start = tt }

pub child-HasDates : HasDates child
child-HasDates = record { created = noon-IsDate; updated = noon-IsDate; due = tt; start = tt }

pub empty-IsClean : IsClean []
unfolding strip
empty-IsClean = record { trimmed = refl; no_returns = refl }
