-- ===== src/Policy/Store.antt =====
-- The rules in force, and the list of the addresses that they convert to: vsecplat_policy.c,
-- lines 748-939 and 1226-1242. The mutexes are held over the whole of each operation, so each is
-- one step; allocation succeeds.
pub mod Linked
pub mod Deletion
use vsecplat.Common.{ℕ, zero, suc, ◌+◌, Bool, true, false, not, List, [], ◌∷◌, ◌++◌, Option, none}
use vsecplat.Common.{some, if◌then◌else◌, ◌==◌, ◌&&◌, ℤ, pos, eqb_ℤ, ◌≡◌, refl, take}
use vsecplat.Common.Run.{Run, ok, fault, ◌>>=◌}
use vsecplat.Policy.Text.{Str, nm_mac_len}
use vsecplat.Policy.Rules.{RuleEntry, nm_pkt_forward, nm_pkt_discard}
use vsecplat.Json.Access.{str_eq}

-- A node of the list of converted addresses: its address in memory, by which a rule points to
-- it, and its `dst_mac`.
pub record Node : Type 0 where
  pub handle : ℕ
  pub dst_mac : List ℕ

-- `fw_policy_list`, `recurs_dstmac_head` and the file of rules. `next` is an address that no
-- node had yet.
pub record Policies : Type 0 where
  pub rules : List RuleEntry
  pub recurs : List Node
  pub next : ℕ
  pub policy_file : Option Str

abbrev pub converts : RuleEntry → Bool
converts r = not (eqb_ℤ r.conversion (pos 0))

-- The new rule points to the new node.
unfoldable pub add_recurs_dst_mac : RuleEntry → Policies → RuleEntry × Policies
add_recurs_dst_mac r s =
    if converts r
    then (
      record r { recurs_dstmac = some s.next },
      record s {
        recurs = s.recurs ++ record { handle = s.next; dst_mac = r.dst_mac } ∷ [];
        next = suc s.next;
      },
    )
    else (r, s)

unfoldable pub vsecplat_add_policy : List RuleEntry → Policies → Policies
unfolding add_recurs_dst_mac
vsecplat_add_policy [] s = s
vsecplat_add_policy (r ∷ rs) s =
    let (r', s') = add_recurs_dst_mac r s in
    vsecplat_add_policy rs (record s' { rules = s'.rules ++ r' ∷ [] })

unfoldable pub list_del : ℕ → List Node → List Node
list_del h [] = []
list_del h (n ∷ ns) = if h == n.handle then ns else n ∷ list_del h ns

-- A rule that converts is taken to have a node.
unfoldable pub del_recurs_dst_mac : RuleEntry → List Node → Run (List Node)
unfolding list_del
del_recurs_dst_mac r recurs =
    if converts r
    then elim r.recurs_dstmac [ none ↦ fault | some h ↦ ok (list_del h recurs) ]
    else ok recurs

-- The inner loop of `vsecplat_del_policy`, for one rule of the request.
unfoldable pub del_loop : ℤ → List RuleEntry → List Node → Run (List RuleEntry × List Node)
unfolding del_recurs_dst_mac
del_loop id [] recurs = ok ([], recurs)
del_loop id (r ∷ rs) recurs =
    let removed = del_recurs_dst_mac r recurs >>= del_loop id rs in
    let kept = del_loop id rs recurs >>= λ (rs', recurs'). ok (r ∷ rs', recurs') in
    if eqb_ℤ id r.id then removed else kept

unfoldable pub vsecplat_del_policy : List RuleEntry → Policies → Run Policies
unfolding del_loop
vsecplat_del_policy [] s = ok s
vsecplat_del_policy (r ∷ rs) s = del_loop r.id s.rules s.recurs >>= λ (rules', recurs').
    vsecplat_del_policy rs (record s { rules = rules'; recurs = recurs' })

-- `fprintf` writes `(null)` for a null pointer.
abbrev pub text_of : Option Str → Str
text_of none = b'(' ∷ b'n' ∷ b'u' ∷ b'l' ∷ b'l' ∷ b')' ∷ []
text_of (some s) = s

unfoldable pub store_rules : List RuleEntry → Str
store_rules [] = []
store_rules (r ∷ []) = text_of r.json_txt
store_rules (r ∷ r' ∷ rs) = text_of r.json_txt ++ b',' ∷ store_rules (r' ∷ rs)

abbrev pub store_head : Str
store_head =
    b'{' ∷ b'"' ∷ b'a' ∷ b'c' ∷ b't' ∷ b'i' ∷ b'o' ∷ b'n' ∷ b'"' ∷ b':' ∷ b'1' ∷ b',' ∷ b'"' ∷ b'f'
    ∷ b'o' ∷ b'r' ∷ b'w' ∷ b'a' ∷ b'r' ∷ b'd' ∷ b'_' ∷ b'r' ∷ b'u' ∷ b'l' ∷ b'e' ∷ b's' ∷ b'"'
    ∷ b':' ∷ b'[' ∷ []

-- The file is opened and written in full.
unfoldable pub vsecplat_store_policy : Policies → Policies
unfolding store_rules
vsecplat_store_policy s = record s {
  policy_file = some (store_head ++ (store_rules s.rules ++ b']' ∷ b'}' ∷ []));
}

-- `memcmp` of `NM_MAC_LEN` bytes at the packet's start.
unfoldable pub check_recursive : List Node → List ℕ → ℕ
unfolding str_eq
check_recursive [] raw = nm_pkt_forward
check_recursive (n ∷ ns) raw =
    if str_eq n.dst_mac (take nm_mac_len raw) then nm_pkt_discard else check_recursive ns raw
