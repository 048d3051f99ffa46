-- ===== src/Json/Access/Laws.antt =====
-- About the changes of arrays and objects of rte_json.c, and what is read behind them.
use vsecplat.Common.{ℕ, zero, suc, Bool, Option, none, some}
use vsecplat.Common.{if◌then◌else◌, ltb, ◌==◌, ◌≡◌, refl, arith, Bool-cases, inl, inr}
use vsecplat.Common.Run.{Run, ok, ◌>>=◌}
use vsecplat.Policy.Text.{Str}
use vsecplat.Json.{Json, Members, object, array, nil, member}
use vsecplat.Json.Access.{
  str_eq, find_member, item_at, count_members, add_last, remove_at, rte_object_get_item,
  rte_object_add_item, rte_array_get_item, rte_array_add_item, rte_array_del_item,
  rte_array_get_size,
}

module _ {F : Type 0} where
  -- A value that was there before goes first.
  abbrev pub or_added : Bool → Json F → Option (Json F) → Run (Option (Json F))
  or_added same v (some w) = ok (some w)
  or_added same v none = ok (if same then some v else none)

  find-add_last :
      (m : Members F) (name q : Str) (v : Json F)
      → find_member (add_last m (some name) v) q ≡ (find_member m q >>= or_added (str_eq name q) v)
  unfolding find_member add_last
  find-add_last nil name q v = ground arith
  find-add_last (member none w m) name q v = refl
  find-add_last (member (some k) w m) name q v = elim (Bool-cases (str_eq k q)) [
    | inl e ↦ rw e
    | inr e ↦ rw e (find-add_last m name q v)
  ]

  item_at-add_last :
      (m : Members F) (k : Option Str) (v : Json F) (i : ℕ)
      → item_at (add_last m k v) i ≡ (if i == count_members m then some v else item_at m i)
  unfolding item_at add_last count_members
  item_at-add_last nil k v zero = ground arith
  item_at-add_last nil k v (suc i) = ground arith
  item_at-add_last (member j w m) k v zero = ground arith
  item_at-add_last (member j w m) k v (suc i) = ground (arith, item_at-add_last m k v i)

  item_at-remove_at :
      (m : Members F) (i j : ℕ)
      → item_at (remove_at m i) j ≡ (if ltb j i then item_at m j else item_at m (suc j))
  unfolding item_at remove_at
  item_at-remove_at nil i j = ground arith
  item_at-remove_at (member k v m) zero j = ground arith
  item_at-remove_at (member k v m) (suc i) zero = ground arith
  item_at-remove_at (member k v m) (suc i) (suc j) = ground (arith, item_at-remove_at m i j)

  -- Behind adding a value under a name, a name reads as what it read as before, if it was there,
  -- and otherwise as the value exactly if it is the name that was added; a name that is the null
  -- pointer on the way is a fault before and behind.
  pub rte_object_get_item-rte_object_add_item :
      (m : Members F) (name q : Str) (v : Json F)
      → rte_object_get_item (rte_object_add_item (object m) name v) q
        ≡ (rte_object_get_item (object m) q >>= or_added (str_eq name q) v)
  unfolding rte_object_get_item rte_object_add_item
  rte_object_get_item-rte_object_add_item m name q v = find-add_last m name q v

  -- Behind adding a value to an array, the index that was its size reads as the value, and every
  -- other index as before.
  pub rte_array_get_item-rte_array_add_item :
      (m : Members F) (k : Option Str) (v : Json F) (i : ℕ)
      → rte_array_get_item (rte_array_add_item (array m) k v) i
        ≡ (if i == rte_array_get_size (array m) then some v else rte_array_get_item (array m) i)
  unfolding rte_array_get_item rte_array_add_item rte_array_get_size
  rte_array_get_item-rte_array_add_item m k v i = item_at-add_last m k v i

  -- Behind deleting an index of an array, the indices below it read as before, and each other one
  -- as the index above it did.
  pub rte_array_get_item-rte_array_del_item :
      (m : Members F) (i j : ℕ)
      → rte_array_get_item (rte_array_del_item (array m) i) j
        ≡ (if ltb j i then rte_array_get_item (array m) j else rte_array_get_item (array m) (suc j))
  unfolding rte_array_get_item rte_array_del_item
  rte_array_get_item-rte_array_del_item m i j = item_at-remove_at m i j
