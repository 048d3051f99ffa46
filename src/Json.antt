-- ===== src/Json.antt =====
-- The JSON values of userspace/daemon/rte_json.c. A value is a node without its links to the
-- siblings; the members of an array or object are the list that `member` heads, each with the
-- name that `rte_object_add_item` or the parser gave it (`none` is the null pointer).
pub mod Access
pub mod Persist
pub mod Parse
use vsecplat.Common.{ℕ, List, Option, ℤ}
use vsecplat.Policy.Text.{Str}

-- `Flt` is the type of `val_flt`, which the daemon never computes with.
mutual
  pub data Json (Flt : Type 0) : Type 0 where
    null : Json Flt
    false_value : Json Flt
    true_value : Json Flt
    integer : ℤ → Json Flt
    float : Flt → Json Flt
    string : Str → Json Flt
    object : Members Flt → Json Flt
    array : Members Flt → Json Flt

  pub data Members (Flt : Type 0) : Type 0 where
    nil : Members Flt
    member : Option Str → Json Flt → Members Flt → Members Flt
