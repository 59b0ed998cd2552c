-- ===== src/Storage/ReadOnly.antt =====
-- storage.py: the files when items are read, in `all_items` and `children_of`.
use plain_text_gtd.Prelude.{◌≡◌, refl, ◌∙◌, [], ◌∷◌, Option, none, some, Assoc, text_eq, option_eq}
use plain_text_gtd.Text.{Text}
use plain_text_gtd.DataTypes.{Failure, status_eq}
use plain_text_gtd.Host.{Host}
use plain_text_gtd.Frontmatter.{
  Frontmatter, Value, scalar, sequence, null, flag, number, text, date, datetime,
}
use plain_text_gtd.World.{
  M, World, Result, ok, err, pure, raise, lift, or_raise, continue, now, ◌>>=◌,
}
use plain_text_gtd.Storage.Coerce.{coerce_datetime}
use plain_text_gtd.Storage.Posts.{Get, item_from}
use plain_text_gtd.Storage.Files.{load_item, load_all, item_files, all_items, children_of}

pub record KeepsDisk {fm : Frontmatter} {A : Type 0} (m : M fm A) : Type 0 where
  pub at : (w : World fm) → (m w).1.disk ≡ w.disk

module _ {fm : Frontmatter} {A : Type 0} where
  KeepsDisk-pure : (a : A) → KeepsDisk {fm = fm} (pure a)
  KeepsDisk-pure a = record { at = λ w. refl }

  KeepsDisk-raise : (e : Failure) → KeepsDisk {fm = fm} {A = A} (raise e)
  KeepsDisk-raise e = record { at = λ w. refl }

  KeepsDisk-lift : (r : Result A) → KeepsDisk {fm = fm} (lift r)
  KeepsDisk-lift r = record { at = λ w. refl }

  KeepsDisk-or_raise : (e : Failure) (o : Option A) → KeepsDisk {fm = fm} (or_raise e o)
  KeepsDisk-or_raise e none = record { at = λ w. refl }
  KeepsDisk-or_raise e (some a) = record { at = λ w. refl }

module _ {fm : Frontmatter} where
  KeepsDisk-now : KeepsDisk {fm = fm} now
  unfolding now
  KeepsDisk-now = record { at = λ w. refl }

module _ {fm : Frontmatter} {A B : Type 0} where
  continue-disk :
      (r : Result A) (f : A → M fm B) (w : World fm)
      → ((a : A) → KeepsDisk (f a))
      → (continue r f w).1.disk ≡ w.disk
  continue-disk (ok a) f w h = (h a).at w
  continue-disk (err e) f w h = refl

  KeepsDisk-bind :
      (m : M fm A) (f : A → M fm B)
      → KeepsDisk m
      → ((a : A) → KeepsDisk (f a))
      → KeepsDisk (m >>= f)
  unfolding ◌>>=◌
  KeepsDisk-bind m f hm hf = record { at = λ w. continue-disk (m w).0 f (m w).1 hf ∙ hm.at w }

ruleset reading = (
  KeepsDisk-pure, KeepsDisk-raise, KeepsDisk-lift, KeepsDisk-or_raise, KeepsDisk-now,
  KeepsDisk-bind,
)

module _ {fm : Frontmatter} where
  coerce_datetime-KeepsDisk : (v : Value) → KeepsDisk {fm = fm} (coerce_datetime v)
  unfolding coerce_datetime
  coerce_datetime-KeepsDisk (scalar null) = search reading
  coerce_datetime-KeepsDisk (scalar (flag b)) = search reading
  coerce_datetime-KeepsDisk (scalar (number n)) = search reading
  coerce_datetime-KeepsDisk (scalar (text s)) = search reading
  coerce_datetime-KeepsDisk (scalar (date d)) = search reading
  coerce_datetime-KeepsDisk (scalar (datetime t)) = search reading
  coerce_datetime-KeepsDisk (sequence l) = search reading

module _ {fm : Frontmatter} (h : Host) where
  item_from-KeepsDisk :
      (name : Text) (get : Get) (content : Text)
      → KeepsDisk {fm = fm} (item_from h name get content)
  unfolding item_from
  item_from-KeepsDisk name get content = search (reading, coerce_datetime-KeepsDisk) depth 24

  load_item-KeepsDisk : (name : Text) (f : fm.File) → KeepsDisk {fm = fm} (load_item h name f)
  unfolding load_item
  load_item-KeepsDisk name f =
      KeepsDisk-bind _ _ (KeepsDisk-or_raise _ _) (λ post. item_from-KeepsDisk name _ post.content)

  load_all-KeepsDisk : (d : Assoc Text fm.File) → KeepsDisk {fm = fm} (load_all h d)
  unfolding load_all
  load_all-KeepsDisk [] = search reading
  load_all-KeepsDisk ((name, f) ∷ rest) =
      KeepsDisk-bind _ _ (load_item-KeepsDisk _ f)
        (λ item. KeepsDisk-bind _ _ (load_all-KeepsDisk rest) (λ items. KeepsDisk-pure _))

  pub all_items-KeepsDisk : KeepsDisk {fm = fm} (all_items h)
  unfolding all_items
  all_items-KeepsDisk = record { at = λ w. (load_all-KeepsDisk (item_files w)).at w }

  pub children_of-KeepsDisk : (id : Text) → KeepsDisk {fm = fm} (children_of h id)
  unfolding children_of
  children_of-KeepsDisk id = KeepsDisk-bind _ _ all_items-KeepsDisk (λ items. KeepsDisk-pure _)
