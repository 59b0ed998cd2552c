-- ===== src/Views/Listing.antt =====
-- `sorted(… for … in … if …)`: the items that such a list has.
use mathlib.Core.List.Perm.{mem_iff}
use plain_text_gtd.Prelude.{
  ◌≡◌, Bool, true, List, Component, Mem, mem-select, mem-select_of_mem, select, sort-perm, key_le,
}
use plain_text_gtd.DataTypes.{Item}
use plain_text_gtd.Views.Keys.{sort_by}

module _ {a : Item} (key : List (Component Item)) (p : Item → Bool) (items : List Item) where
  pub mem-listed_of_mem : Mem a items → p a ≡ true → Mem a (sort_by key (select p items))
  mem-listed_of_mem m e =
      (mem_iff (sort-perm (key_le key) (select p items))).1 (mem-select_of_mem p items m e)

  pub mem-listed : Mem a (sort_by key (select p items)) → ∥ Mem a items × (p a ≡ true) ∥₁
  mem-listed m = mem-select p items ((mem_iff (sort-perm (key_le key) (select p items))).0 m)
