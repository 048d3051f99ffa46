-- ===== src/Tests/Values.antt =====
-- JSON values at samples.
use vsecplat.Common.{ℕ, [], ◌∷◌, none, some, pos}
use vsecplat.Common.{if◌then◌else◌, ltb, ◌≡◌}
use vsecplat.Common.Run.{◌>>=◌}
use vsecplat.Policy.Rules.{key_id, key_sip}
use vsecplat.Json.{Json, Members, integer, string, object, array, nil, member}
use vsecplat.Json.Access.{
  str_eq, rte_object_get_item, rte_object_add_item, rte_array_get_item, rte_array_del_item,
}
use vsecplat.Json.Access.Laws.{
  or_added, rte_object_get_item-rte_object_add_item, rte_array_get_item-rte_array_del_item,
}

abbrev fields : Members ℕ
fields = member (some key_id) (integer (pos 7)) nil

abbrev any_text : Json ℕ
any_text = string (b'a' ∷ [])

rte_object_get_item-rte_object_add_item_example :
    rte_object_get_item (rte_object_add_item (object fields) key_sip any_text) key_sip
    ≡ (rte_object_get_item (object fields) key_sip >>= or_added (str_eq key_sip key_sip) any_text)
rte_object_get_item-rte_object_add_item_example =
    rte_object_get_item-rte_object_add_item fields key_sip key_sip any_text

abbrev elements : Members ℕ
elements = member none (integer (pos 1)) (member none (integer (pos 2)) nil)

rte_array_get_item-rte_array_del_item_example :
    rte_array_get_item (rte_array_del_item (array elements) 0) 0 ≡ (
      if ltb 0 0
      then rte_array_get_item (array elements) 0
      else rte_array_get_item (array elements) 1)
rte_array_get_item-rte_array_del_item_example = rte_array_get_item-rte_array_del_item elements 0 0
