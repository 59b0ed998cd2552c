-- ===== src/Storage/Keys.antt =====
-- storage.py: the entries that `write_item` gives the metadata, one lemma for each key.
use plain_text_gtd.Prelude.{
  ◌≡◌, refl, true, not, [], ◌∷◌, Option, none, some, arith, ◌==◌, text_eq, lookup, if◌then◌else◌,
}
use plain_text_gtd.Text.{Text, lit}
use plain_text_gtd.Dates.Iso.{date_iso, datetime_iso}
use plain_text_gtd.DataTypes.{Item, normal, priority_eq, status_value, priority_value}
use plain_text_gtd.Frontmatter.{Metadata, Value, scalar, flag}
use plain_text_gtd.Storage.Posts.{
  Get, text_value, entry, metadata_of, mapped, when, texts_value, numbers_value,
}

abbrev or_else : {A : Type 0} → Option A → Option A → Option A
or_else none o = o
or_else (some a) o = some a

or_else-none : {A : Type 0} (o : Option A) → or_else o none ≡ o
or_else-none none = refl
or_else-none (some a) = refl

lookup-nil : (j : Text) → lookup {V = Value} j [] ≡ none
unfolding lookup
lookup-nil j = refl

lookup-cons :
    (j k : Text) (v : Value) (rest : Metadata)
    → lookup j ((k, v) ∷ rest) ≡ (if j == k then some v else lookup j rest)
unfolding lookup
lookup-cons j k v rest = refl

lookup-entry :
    (j k : Text) (o : Option Value) (rest : Metadata)
    → lookup j (entry k o rest) ≡ (if j == k then or_else o (lookup j rest) else lookup j rest)
unfolding lookup entry
lookup-entry j k none rest = ground arith
lookup-entry j k (some v) rest = ground arith

ruleset entry_laws = (lookup-nil, lookup-cons, lookup-entry, or_else-none)

module _ (item : Item) where
  pub written : Get
  written k = lookup k (metadata_of item)

  pub written_lem : (k : Text) → lookup k (metadata_of item) ≡ written k
  unfolding written
  written_lem k = refl

  pub key_id : written (lit "id") ≡ some (text_value item.id)
  unfolding written metadata_of text_eq
  key_id = simp entry_laws

  pub key_title : written (lit "title") ≡ some (text_value item.title)
  unfolding written metadata_of text_eq
  key_title = simp entry_laws

  pub key_status : written (lit "status") ≡ some (text_value (status_value item.status))
  unfolding written metadata_of text_eq
  key_status = simp entry_laws

  pub key_created_at : written (lit "created_at") ≡ some (text_value (datetime_iso item.created_at))
  unfolding written metadata_of text_eq
  key_created_at = simp entry_laws

  pub key_updated_at : written (lit "updated_at") ≡ some (text_value (datetime_iso item.updated_at))
  unfolding written metadata_of text_eq
  key_updated_at = simp entry_laws

  pub key_due_date : written (lit "due_date") ≡ mapped (λ d. text_value (date_iso d)) item.due_date
  unfolding written metadata_of text_eq
  key_due_date = simp entry_laws

  pub key_start_date :
      written (lit "start_date") ≡ mapped (λ d. text_value (date_iso d)) item.start_date
  unfolding written metadata_of text_eq
  key_start_date = simp entry_laws

  pub key_tickler_date : written (lit "tickler_date") ≡ none
  unfolding written metadata_of text_eq
  key_tickler_date = simp entry_laws

  pub key_parent : written (lit "parent") ≡ mapped text_value item.parent
  unfolding written metadata_of text_eq
  key_parent = simp entry_laws

  pub key_waiting_for : written (lit "waiting_for") ≡ mapped text_value item.waiting_for
  unfolding written metadata_of text_eq
  key_waiting_for = simp entry_laws

  pub key_contexts : written (lit "contexts") ≡ texts_value item.contexts
  unfolding written metadata_of text_eq
  key_contexts = simp entry_laws

  pub key_tags : written (lit "tags") ≡ texts_value item.tags
  unfolding written metadata_of text_eq
  key_tags = simp entry_laws

  pub key_quick : written (lit "quick") ≡ when item.quick (scalar (flag true))
  unfolding written metadata_of text_eq
  key_quick = simp entry_laws

  pub key_is_project : written (lit "is_project") ≡ when item.is_project (scalar (flag true))
  unfolding written metadata_of text_eq
  key_is_project = simp entry_laws

  pub key_priority :
      written (lit "priority")
      ≡ when (not (item.priority == normal)) (text_value (priority_value item.priority))
  unfolding written metadata_of text_eq
  key_priority = simp entry_laws

  pub key_prev_status :
      written (lit "prev_status") ≡ mapped (λ s. text_value (status_value s)) item.prev_status
  unfolding written metadata_of text_eq
  key_prev_status = simp entry_laws

  pub key_recur_weekdays : written (lit "recur_weekdays") ≡ numbers_value item.recur_weekdays
  unfolding written metadata_of text_eq
  key_recur_weekdays = simp entry_laws
