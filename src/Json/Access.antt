-- ===== src/Json/Access.antt =====
-- Reading and changing arrays and objects: rte_json.c, lines 765-873.
pub mod Laws
use vsecplat.Common.{ℕ, zero, suc, Bool, true, false, [], ◌∷◌, Option}
use vsecplat.Common.{none, some, ◌==◌, if◌then◌else◌, ◌&&◌}
use vsecplat.Common.Run.{Run, ok, fault, ◌>>=◌}
use vsecplat.Policy.Text.{Str}
use vsecplat.Json.{Json, Members, object, array, nil, member}

-- `strcmp` as a test for equality.
unfoldable pub str_eq : Str → Str → Bool
str_eq [] [] = true
str_eq (a ∷ s) (b ∷ t) = a == b && str_eq s t
str_eq [] (b ∷ t) = false
str_eq (a ∷ s) [] = false

module _ {F : Type 0} where
  -- The list that `member` heads: only arrays and objects have one.
  abbrev pub members : Json F → Members F
  members (object m) = m
  members (array m) = m
  members _ = nil

  unfoldable pub count_members : Members F → ℕ
  count_members nil = 0
  count_members (member k v m) = suc (count_members m)

  unfoldable pub rte_array_get_size : Json F → ℕ
  unfolding count_members
  rte_array_get_size j = count_members (members j)

  unfoldable pub item_at : Members F → ℕ → Option (Json F)
  item_at nil i = none
  item_at (member k v m) zero = some v
  item_at (member k v m) (suc i) = item_at m i

  unfoldable pub rte_array_get_item : Json F → ℕ → Option (Json F)
  unfolding item_at
  rte_array_get_item j i = item_at (members j) i

  -- `strcmp` on a name that is the null pointer is a fault.
  unfoldable pub find_member : Members F → Str → Run (Option (Json F))
  unfolding str_eq
  find_member nil name = ok none
  find_member (member none v m) name = fault
  find_member (member (some k) v m) name = if str_eq k name then ok (some v) else find_member m name

  unfoldable pub rte_object_get_item : Json F → Str → Run (Option (Json F))
  unfolding find_member
  rte_object_get_item j name = find_member (members j) name

  -- The item goes behind the last member, with the name that it has.
  unfoldable pub add_last : Members F → Option Str → Json F → Members F
  add_last nil k item = member k item nil
  add_last (member j v m) k item = member j v (add_last m k item)

  -- Where `json` is neither an array nor an object the code would give it members; its callers
  -- pass arrays and objects.
  unfoldable pub rte_array_add_item : Json F → Option Str → Json F → Json F
  unfolding add_last
  rte_array_add_item (array m) k item = array (add_last m k item)
  rte_array_add_item (object m) k item = object (add_last m k item)
  rte_array_add_item j k item = j

  unfoldable pub rte_object_add_item : Json F → Str → Json F → Json F
  unfolding rte_array_add_item
  rte_object_add_item j name item = rte_array_add_item j (some name) item

  unfoldable pub remove_at : Members F → ℕ → Members F
  remove_at nil i = nil
  remove_at (member k v m) zero = m
  remove_at (member k v m) (suc i) = member k v (remove_at m i)

  unfoldable pub rte_array_del_item : Json F → ℕ → Json F
  unfolding remove_at
  rte_array_del_item (array m) i = array (remove_at m i)
  rte_array_del_item (object m) i = object (remove_at m i)
  rte_array_del_item j i = j

  -- The position of the first member of the name.
  unfoldable pub index_of : Members F → Str → Run (Option ℕ)
  unfolding str_eq
  index_of nil name = ok none
  index_of (member none v m) name = fault
  index_of (member (some k) v m) name =
      let rest = index_of m name in
      if str_eq k name
      then ok (some 0)
      else rest >>= λ i. ok (elim i [ none ↦ none | some n ↦ some (suc n) ])

  unfoldable pub rte_object_del_item : Json F → Str → Run (Json F)
  unfolding index_of rte_array_del_item
  rte_object_del_item j name =
      index_of (members j) name >>= λ i. ok (elim i [ none ↦ j | some n ↦ rte_array_del_item j n ])
