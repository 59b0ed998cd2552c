-- ===== src/Tests/Store.antt =====
-- Runs of the store.
use plain_text_gtd.Prelude.{
  ◌≡◌, ◌≢◌, refl, false, [], some, lookup, contains, text_eq, option_eq, arith, nat_eq,
}
use plain_text_gtd.Text.{Text, lit, rstrip}
use plain_text_gtd.DataTypes.{status_eq, int_eq, file_not_found}
use plain_text_gtd.Host.{ascii_host}
use plain_text_gtd.World.{World, ok, err}
use plain_text_gtd.Storage.Memory.{memory_frontmatter, memory_frontmatter-IsLawful}
use plain_text_gtd.Storage.Files.{is_item_id, files, read_item, write_item, delete_item}
use plain_text_gtd.Storage.RoundTrip.{in_whole_seconds}
use plain_text_gtd.Storage.Writes.{read-write_item, read_item-delete_item}
use plain_text_gtd.Storage.Ids.{is_item_id_safe}
use plain_text_gtd.Tests.Items.{child, two_items, child-HasDates, empty-IsClean}

read-write_item_example :
    read_item ascii_host (lit "gtd-b2") (write_item child two_items).1
    ≡ (ok (in_whole_seconds child []), (write_item child two_items).1)
unfolding is_item_id rstrip
read-write_item_example =
    read-write_item ascii_host memory_frontmatter-IsLawful child two_items refl child-HasDates
      empty-IsClean

is_item_id_safe_example : contains (lit "gtd-a1") 47 ≡ false
unfolding is_item_id
is_item_id_safe_example =
    is_item_id_safe (lit "gtd-a1") 47 refl refl (λ e. absurd (omega arith))
      (λ e. absurd (omega arith))

read_item-delete_item_example :
    let (r, t) = delete_item (lit "gtd-b2") two_items in
    (r ≡ ok tt)
    × (read_item ascii_host (lit "gtd-b2") t ≡ (err file_not_found, t))
    × ((name : Text)
        → name ≢ lit "gtd-b2.md"
        → lookup name (files t) ≡ lookup name (files two_items))
unfolding is_item_id
read_item-delete_item_example = read_item-delete_item ascii_host (lit "gtd-b2") two_items refl

abbrev own_rules : World memory_frontmatter
own_rules = record two_items { disk = record two_items.disk { instructions = some (lit "mine") } }
