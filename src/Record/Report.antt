-- ===== src/Record/Report.antt =====
-- The report of the table of flows: userspace/daemon/vsecplat_record.c, lines 121-347. Allocation
-- succeeds; `now` gives the seconds that the calls of `gettimeofday` return, in their order.
pub mod Entry
pub mod Complete
pub mod Batches
use vsecplat.Common.{
  ℕ, zero, suc, ◌+◌, ◌-◌, ◌^◌, Bool, true, false, List, [], ◌∷◌, ◌++◌, Option, none, some,
}
use vsecplat.Common.{if◌then◌else◌, ltb, leb, ◌==◌, ntohs, ℤ, pos, negsuc}
use vsecplat.Policy.Text.{Str}
use vsecplat.Policy.Rules.{key_sip, key_dip, key_sport, key_dport, key_proto, key_vlanid}
use vsecplat.Json.{Json, Members, integer, string, object, array, nil, member}
use vsecplat.Json.Access.{rte_array_add_item, rte_object_add_item}
use vsecplat.Record.Table.{RecordEntry, Buckets}

abbrev pub key_count : Str
key_count = b'c' ∷ b'o' ∷ b'u' ∷ b'n' ∷ b't' ∷ []

abbrev pub key_packetsize : Str
key_packetsize = b'p' ∷ b'a' ∷ b'c' ∷ b'k' ∷ b'e' ∷ b't' ∷ b's' ∷ b'i' ∷ b'z' ∷ b'e' ∷ []

abbrev pub key_starttime : Str
key_starttime = b's' ∷ b't' ∷ b'a' ∷ b'r' ∷ b't' ∷ b't' ∷ b'i' ∷ b'm' ∷ b'e' ∷ []

abbrev pub key_endtime : Str
key_endtime = b'e' ∷ b'n' ∷ b'd' ∷ b't' ∷ b'i' ∷ b'm' ∷ b'e' ∷ []

abbrev pub key_record_list : Str
key_record_list = b'r' ∷ b'e' ∷ b'c' ∷ b'o' ∷ b'r' ∷ b'd' ∷ b'_' ∷ b'l' ∷ b'i' ∷ b's' ∷ b't' ∷ []

abbrev pub max_report_item : ℕ
max_report_item = 10

-- The conversion of a `u64` to `long`.
abbrev pub to_long : ℕ → ℤ
to_long n = if ltb n (2 ^ 63) then pos n else negsuc (2 ^ 64 - 1 - n)

-- `struct record_json_item`; its `json_str` stays null.
pub record RecordJsonItem (F : Type 0) : Type 0 where
  pub root : Json F
  pub items : Json F

-- What `vsecplat_persist_record` has done: the item that it fills and the number of its entries,
-- `global_record_json_list`, the roots of whose items are `sent`, and the calls of the clock.
pub record Pass (F : Type 0) : Type 0 where
  pub current : RecordJsonItem F
  pub item_count : ℕ
  pub sent : List (Json F)
  pub calls : ℕ

-- The module's global variables.
pub record Records (F : Type 0) : Type 0 where
  pub buckets : Buckets
  pub global_list : List (Json F)
  pub last_report_time : ℕ
  pub calls : ℕ

unfoldable pub reset : RecordEntry → RecordEntry
reset entry = record entry { count = 0; packetsize = 0 }

abbrev pub is_empty {ℓ} : {A : Type ℓ} → List A → Bool
is_empty [] = true
is_empty (x ∷ xs) = false

-- An entry that has counted nothing since the last report is taken out.
unfoldable pub kept : RecordEntry → List RecordEntry
kept entry = if entry.count == 0 then [] else reset entry ∷ []

module _ {F : Type 0} (inet_ntoa : ℕ → Str) (now : ℕ → ℕ) where
  unfoldable pub record_entry_to_json : RecordEntry → Json F
  unfolding rte_object_add_item
  record_entry_to_json entry =
      let obj = rte_object_add_item (object nil) key_sip (string (inet_ntoa entry.sip)) in
      let obj = rte_object_add_item obj key_dip (string (inet_ntoa entry.dip)) in
      let obj = rte_object_add_item obj key_sport (integer (pos (ntohs entry.sport))) in
      let obj = rte_object_add_item obj key_dport (integer (pos (ntohs entry.dport))) in
      let obj = rte_object_add_item obj key_proto (integer (pos entry.proto)) in
      let obj = rte_object_add_item obj key_vlanid (integer (pos entry.vlanid)) in
      let obj = rte_object_add_item obj key_count (integer (to_long entry.count)) in
      rte_object_add_item obj key_packetsize (integer (to_long entry.packetsize))

  unfoldable pub new_record_json_item : ℕ → ℕ → RecordJsonItem F
  unfolding rte_object_add_item
  new_record_json_item start_time end_time =
      let root = rte_object_add_item (object nil) key_starttime (integer (pos start_time)) in
      record {
        root = rte_object_add_item root key_endtime (integer (pos end_time));
        items = array nil;
      }

  -- The body of the loop for an entry that has counted something; a full item goes to the list.
  unfoldable pub report_entry : ℕ → RecordEntry → Pass F → Pass F
  report_entry last entry p =
      let items = rte_array_add_item p.current.items none (record_entry_to_json entry) in
      let item_count = p.item_count + 1 in
      if leb max_report_item item_count
      then record {
        current = new_record_json_item last (now p.calls);
        item_count = 0;
        sent = p.sent ++ rte_object_add_item p.current.root key_record_list items ∷ [];
        calls = suc p.calls;
      }
      else record p {
        current = record { root = p.current.root; items = items };
        item_count = item_count;
      }

  unfoldable pub visit : ℕ → RecordEntry → Pass F → Pass F
  visit last entry p = if entry.count == 0 then p else report_entry last entry p

  unfoldable pub persist_bucket : ℕ → List RecordEntry → Pass F → List RecordEntry × Pass F
  persist_bucket last [] p = ([], p)
  persist_bucket last (entry ∷ list) p =
      let (list', p') = persist_bucket last list (visit last entry p) in (kept entry ++ list', p')

  unfoldable pub persist_buckets : ℕ → Buckets → Pass F → Buckets × Pass F
  persist_buckets last [] p = ([], p)
  persist_buckets last (bucket ∷ buckets) p =
      let (bucket', p') = persist_bucket last bucket p in
      let (buckets', p'') = persist_buckets last buckets p' in (bucket' ∷ buckets', p'')

  -- The item that is left goes to the list if it has entries, and also if the list is empty.
  unfoldable pub close : Pass F → List (Json F)
  close p =
      let root = rte_object_add_item p.current.root key_record_list p.current.items in
      if ltb 0 p.item_count
      then p.sent ++ root ∷ []
      else if is_empty p.sent
      then root ∷ []
      else p.sent

  unfoldable pub vsecplat_persist_record : Records F → Records F
  vsecplat_persist_record s =
      let first : Pass F = record {
        current = new_record_json_item s.last_report_time (now s.calls);
        item_count = 0;
        sent = s.global_list;
        calls = suc s.calls;
      } in
      let (buckets', p) = persist_buckets s.last_report_time s.buckets first in
      record {
        buckets = buckets';
        global_list = close p;
        last_report_time = now p.calls;
        calls = suc p.calls;
      }
