-- ===== src/Frontmatter.antt =====
-- The python-frontmatter package, which the storage calls and the repository does not hold: posts,
-- and their reading and writing as a parameter. Files whose metadata has floats, mappings or lists
-- inside lists are outside the model.
use plain_text_gtd.Prelude.{
  ◌≡◌, Bool, List, Option, some, Assoc, lookup, text_eq, contains, nat_eq, false,
}
use plain_text_gtd.Text.{Text, strip}
use plain_text_gtd.Dates.{Date, DateTime}
use plain_text_gtd.DataTypes.{ℤ}

-- The YAML values that stand in no list.
pub data Scalar : Type 0 where
  null : Scalar
  flag : Bool → Scalar
  number : ℤ → Scalar
  text : Text → Scalar
  date : Date → Scalar
  datetime : DateTime → Scalar

pub data Value : Type 0 where
  scalar : Scalar → Value
  sequence : List Scalar → Value

abbrev pub Metadata : Type 0
Metadata = Assoc Text Value

-- `frontmatter.Post`
pub record Post : Type 0 where
  pub metadata : Metadata
  pub content : Text

-- A file is what the package makes of it: `loads` is `frontmatter.load` of the opened file, `none`
-- if it raises, and `dumps` is `frontmatter.dumps(post) + "\n"` as the file's text.
pub record Frontmatter : Type 1 where
  pub File : Type 0
  pub loads : File → Option Post
  pub dumps : Post → File

-- A post whose content the package trims, or whose line ends reading changes, comes back changed.
pub record IsClean (content : Text) : Type 0 where
  pub trimmed : strip content ≡ content
  pub no_returns : contains content 13 ≡ false

-- What the storage relies on: a written post is read back, with the same value for every key.
pub record IsLawful (fm : Frontmatter) : Type 0 where
  pub loads-dumps :
      (p : Post)
      → IsClean p.content
      → (q : Post) × (fm.loads (fm.dumps p) ≡ some q)
        × (q.content ≡ p.content)
        × ((k : Text) → lookup k q.metadata ≡ lookup k p.metadata)
