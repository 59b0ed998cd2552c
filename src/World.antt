-- ===== src/World.antt =====
-- What a request reads and changes: the files under the GTD root, the clock and the source of random
-- ids; and the actions on it, which return a value or raise. What was written before an exception
-- stays written.
use plain_text_gtd.Prelude.{◌≡◌, refl, ℕ, ◌+◌, Option, none, some, Assoc}
use plain_text_gtd.Text.{Text}
use plain_text_gtd.Dates.{DateTime}
use plain_text_gtd.DataTypes.{Failure}
use plain_text_gtd.Frontmatter.{Frontmatter}

pub data Result {ℓ} (A : Type ℓ) : Type ℓ where
  ok : A → Result A
  err : Failure → Result A

-- The files under the root: the item files by their name once `items/` exists, and the four texts.
pub record Disk (fm : Frontmatter) : Type 0 where
  pub items : Option (Assoc Text fm.File)
  pub instructions : Option Text
  pub weekly_review : Option Text
  pub projects_and_goals : Option Text
  pub intentions : Option Text

pub record World (fm : Frontmatter) : Type 0 where
  pub disk : Disk fm
  -- what the successive calls of `datetime.now` return, and how many were made
  pub clock : ℕ → DateTime
  pub ticks : ℕ
  -- the successive random numbers of `secrets`, and how many were drawn
  pub random : ℕ → ℕ
  pub draws : ℕ

abbrev pub M : Frontmatter → Type 0 → Type 0
M fm A = World fm → Result A × World fm

module _ {fm : Frontmatter} {A : Type 0} where
  abbrev pub pure : A → M fm A
  pure a w = (ok a, w)

  abbrev pub raise : Failure → M fm A
  raise e w = (err e, w)

  abbrev pub lift : Result A → M fm A
  lift r w = (r, w)

  -- a call that gives `none` where Python raises the exception
  abbrev pub or_raise : Failure → Option A → M fm A
  or_raise e none w = (err e, w)
  or_raise e (some a) w = (ok a, w)

module _ {fm : Frontmatter} {A B : Type 0} where
  infixl 5 ◌>>=◌ ◌>>◌
  abbrev pub continue : Result A → (A → M fm B) → M fm B
  continue (ok a) f w = f a w
  continue (err e) f w = (err e, w)

  unfoldable pub ◌>>=◌ : M fm A → (A → M fm B) → M fm B
  ◌>>=◌ m f w = let r = m w in continue r.0 f r.1

  abbrev pub ◌>>◌ : M fm A → M fm B → M fm B
  m >> n = m >>= λ _. n

module _ {fm : Frontmatter} where
  -- `datetime.now()`
  unfoldable pub now : M fm DateTime
  now w = (ok (w.clock w.ticks), record w { ticks = w.ticks + 1 })

module _ {fm : Frontmatter} where
  pub now_lem : (w : World fm) → now w ≡ (ok (w.clock w.ticks), record w { ticks = w.ticks + 1 })
  unfolding now
  now_lem w = refl

module _ {fm : Frontmatter} {A B : Type 0} where
  -- An action that returns hands its value to the rest of the block.
  pub then_ok :
      (m : M fm A) (f : A → M fm B) {w w' : World fm} {a : A} {r : Result B × World fm}
      → m w ≡ (ok a, w')
      → f a w' ≡ r
      → (m >>= f) w ≡ r
  unfolding ◌>>=◌
  then_ok m f e k = rw e k

  -- An action that raises ends the block.
  pub then_err :
      (m : M fm A) (f : A → M fm B) {w w' : World fm} {e : Failure}
      → m w ≡ (err e, w')
      → (m >>= f) w ≡ (err e, w')
  unfolding ◌>>=◌
  then_err m f e = rw e

  -- So does a part that computes without the world.
  pub then_lift :
      (x : Result A) (f : A → M fm B) {w : World fm} {a : A} {r : Result B × World fm}
      → x ≡ ok a
      → f a w ≡ r
      → (lift x >>= f) w ≡ r
  unfolding ◌>>=◌
  then_lift x f e k = rw e k
