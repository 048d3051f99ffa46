-- ===== src/Record/Table.antt =====
-- The table of flows: userspace/daemon/vsecplat_record.c, lines 57-119, with the structs of
-- vsecplat_record.h. `malloc` succeeds, and a bucket is changed under its mutex in one step.
pub mod Flow
pub mod Tally
use vsecplat.Common.{ℕ, zero, suc, ◌+◌, ◌*◌, ◌%◌, ◌^◌, Bool, true, false, List, [], ◌∷◌, ◌++◌}
use vsecplat.Common.{if◌then◌else◌, ◌==◌, ◌!=◌, ◌&&◌, get_or, set, replicate, ntohs, bit_or, ◌<<<◌}
use vsecplat.Packet.Buffer.{Skb}
use vsecplat.Packet.Handle.{headers_of, eth_p_ip}
use vsecplat.Common.Run.{Run, ok, ◌>>=◌}
use vsecplat.Record.Jhash.{jhash_3words}

pub record RecordEntry : Type 0 where
  pub sip : ℕ
  pub dip : ℕ
  pub sport : ℕ
  pub dport : ℕ
  pub proto : ℕ
  pub vlanid : ℕ
  pub count : ℕ
  pub packetsize : ℕ

abbrev pub vsecplat_record_hash_size : ℕ
vsecplat_record_hash_size = 1024

-- `record_bucket_hash`: the list of each bucket.
abbrev pub Buckets : Type 0
Buckets = List (List RecordEntry)

unfoldable pub vsecplat_init_record_bucket : Buckets
vsecplat_init_record_bucket = replicate vsecplat_record_hash_size []

unfoldable pub record_hash : RecordEntry → ℕ
record_hash tmp =
    jhash_3words tmp.sip tmp.dip (bit_or tmp.sport (tmp.dport <<< 16)) 0 % vsecplat_record_hash_size

unfoldable pub test_record_match : RecordEntry → RecordEntry → Bool
test_record_match entry tmp =
    (entry.sip == tmp.sip)
    && (entry.dip == tmp.dip)
    && (entry.sport == tmp.sport)
    && (entry.dport == tmp.dport)

-- The entry on the stack that the packet's headers fill in; the ports of other protocols than UDP and
-- TCP stay 0.
unfoldable pub entry_of : Skb → Run RecordEntry
entry_of skb = headers_of skb >>= λ h. ok (record {
  sip = h.saddr;
  dip = h.daddr;
  sport = h.source;
  dport = h.dest;
  proto = h.protocol;
  vlanid = h.vlanid;
  count = 0;
  packetsize = 0;
})

-- The first entry that matches is raised; where there is none, a new one goes to the tail.
unfoldable pub tally : RecordEntry → ℕ → List RecordEntry → List RecordEntry
tally entry size [] = record entry { count = 1; packetsize = size } ∷ []
tally entry size (tmp ∷ list) =
    if test_record_match tmp entry
    then record tmp {
      count = (tmp.count + 1) % 2 ^ 64;
      packetsize = (tmp.packetsize + size) % 2 ^ 64;
    }
      ∷ list
    else tmp ∷ tally entry size list

unfoldable pub vsecplat_record_pkt : Skb → Buckets → Run Buckets
unfolding entry_of
vsecplat_record_pkt skb buckets =
    if ntohs skb.protocol != eth_p_ip
    then ok buckets
    else (entry_of skb >>= λ entry.
        let hash = record_hash entry in
        ok (set buckets hash (tally entry skb.len (get_or buckets hash []))))
