-- ===== src/Record/Table/Tally.antt =====
-- About `vsecplat_record_pkt` of vsecplat_record.c: what a packet adds to the table of flows.
use vsecplat.Common.{ℕ, ◌+◌, ◌%◌, ◌^◌, ◌<◌, true, false, List, [], ◌∷◌, ◌≡◌, refl}
use vsecplat.Common.{if◌then◌else◌, ◌==◌, ◌!=◌, get_or, set, length, get_or-set}
use vsecplat.Common.{ap, ◌≢◌, arith, ntohs, ==_iff}
use vsecplat.Common.Run.{ok, Returns}
use vsecplat.Packet.Buffer.{Skb}
use vsecplat.Packet.Handle.{eth_p_ip}
use vsecplat.Record.Table.Flow.{HasHeaders, flow_of, entry_of-flow_of}
use vsecplat.Record.Table.{
  RecordEntry, Buckets, record_hash, test_record_match, tally, vsecplat_record_pkt,
  vsecplat_record_hash_size,
}

-- What the table knows of a flow; a flow without an entry has seen nothing.
pub record Totals : Type 0 where
  pub packets : ℕ
  pub bytes : ℕ

pub totals_in : RecordEntry → List RecordEntry → Totals
totals_in q [] = record { packets = 0; bytes = 0 }
totals_in q (t ∷ list) =
    if test_record_match t q
    then record { packets = t.count; bytes = t.packetsize }
    else totals_in q list

pub totals : RecordEntry → Buckets → Totals
totals q buckets = totals_in q (get_or buckets (record_hash q) [])

abbrev pub add_packet : ℕ → Totals → Totals
add_packet size t = record { packets = (t.packets + 1) % 2 ^ 64; bytes = (t.bytes + size) % 2 ^ 64 }

record SameFlow (a b : RecordEntry) : Type 0 where
  sip : a.sip ≡ b.sip
  dip : a.dip ≡ b.dip
  sport : a.sport ≡ b.sport
  dport : a.dport ≡ b.dport

match-SameFlow : (a b : RecordEntry) → test_record_match a b ≡ true → SameFlow a b
unfolding test_record_match
match-SameFlow a b e = record {
  sip = ground arith;
  dip = ground arith;
  sport = ground arith;
  dport = ground arith;
}

match_left :
    (a b q : RecordEntry)
    → test_record_match a b ≡ true
    → test_record_match a q ≡ test_record_match b q
match_left a b q e =
    let s = match-SameFlow a b e in unfold test_record_match in rw (s.sip, s.dip, s.sport, s.dport)

hash_same : (a b : RecordEntry) → test_record_match a b ≡ true → record_hash a ≡ record_hash b
hash_same a b e =
    let s = match-SameFlow a b e in unfold record_hash in rw (s.sip, s.dip, s.sport, s.dport)

record_hash-lt : (e : RecordEntry) → record_hash e < vsecplat_record_hash_size
unfolding record_hash
record_hash-lt e = omega arith

match_self : (e : RecordEntry) → test_record_match e e ≡ true
unfolding test_record_match
match_self e = ground arith

match_right :
    (a b t : RecordEntry)
    → test_record_match a b ≡ true
    → test_record_match t a ≡ test_record_match t b
match_right a b t e =
    let s = match-SameFlow a b e in unfold test_record_match in rw (s.sip, s.dip, s.sport, s.dport)

first_packet :
    (size : ℕ)
    → size < 2 ^ 64
    → record { packets = 1; bytes = size } ≡ add_packet size (record { packets = 0; bytes = 0 })
first_packet size h = ap (λ n. record { packets = 1; bytes = n }) (omega arith)

-- Only the four fields of the flow decide.
match_counts :
    (t q : RecordEntry) (n m : ℕ)
    → test_record_match (record t { count = n; packetsize = m }) q ≡ test_record_match t q
unfolding test_record_match
match_counts t q n m = refl

totals_tally_same :
    (entry q : RecordEntry) (size : ℕ) (list : List RecordEntry)
    → size < 2 ^ 64
    → test_record_match entry q ≡ true
    → totals_in q (tally entry size list) ≡ add_packet size (totals_in q list)
unfolding totals_in tally
totals_tally_same entry q size [] h e = rw (match_counts entry q 1 size, e) (first_packet size h)
totals_tally_same entry q size (t ∷ list) h e =
    let counted = match_counts t q ((t.count + 1) % 2 ^ 64) ((t.packetsize + size) % 2 ^ 64) in
    ground (arith, totals_tally_same entry q size list h e, match_right entry q t e, counted)

totals_tally_other :
    (entry q : RecordEntry) (size : ℕ) (list : List RecordEntry)
    → test_record_match entry q ≡ false
    → totals_in q (tally entry size list) ≡ totals_in q list
unfolding totals_in tally
totals_tally_other entry q size [] e = rw (match_counts entry q 1 size, e)
totals_tally_other entry q size (t ∷ list) e =
    let counted = match_counts t q ((t.count + 1) % 2 ^ 64) ((t.packetsize + size) % 2 ^ 64) in
    ground (arith, totals_tally_other entry q size list e, match_left t entry q, counted)

module _ (entry q : RecordEntry) (size : ℕ) (buckets : Buckets)
    (full : length buckets ≡ vsecplat_record_hash_size) (fits : size < 2 ^ 64) where
  counted : Buckets
  counted =
      set buckets (record_hash entry) (tally entry size (get_or buckets (record_hash entry) []))

  bucket_counted : get_or counted (record_hash q) [] ≡ (
      if record_hash entry == record_hash q
      then tally entry size (get_or buckets (record_hash entry) [])
      else get_or buckets (record_hash q) [])
  unfolding counted
  bucket_counted =
      get_or-set buckets (record_hash entry) (record_hash q) _ []
        (omega (arith, full, record_hash-lt entry))

  counted_same :
      test_record_match entry q ≡ true → totals q counted ≡ add_packet size (totals q buckets)
  unfolding totals
  counted_same e =
      rw (bucket_counted, hash_same entry q e, (==_iff (record_hash q) (record_hash q)).1 refl)
        (totals_tally_same entry q size _ fits e)

  counted_other : test_record_match entry q ≡ false → totals q counted ≡ totals q buckets
  unfolding totals
  counted_other e = ground (
    arith,
    bucket_counted,
    totals_tally_other entry q size (get_or buckets (record_hash entry) []) e,
    ==_iff (record_hash entry) (record_hash q),
  )

  totals-counted :
      totals q counted
      ≡ (if test_record_match entry q then add_packet size (totals q buckets) else totals q buckets)
  totals-counted = ground (arith, counted_same, counted_other)

off_ip : (skb : Skb) → ntohs skb.protocol ≡ eth_p_ip → (ntohs skb.protocol != eth_p_ip) ≡ false
off_ip skb e = ground arith

-- An IP packet whose headers lie in its buffer, in a table with all its buckets, is counted without a
-- fault: it adds one packet and its length, on 64 bits, to what the table knows of each flow with the
-- addresses and ports that stand in the packet's bytes, and nothing to any other. The length is below
-- 2^32.
pub vsecplat_record_pkt-totals :
    (skb : Skb) (buckets : Buckets) (q : RecordEntry)
    → length buckets ≡ vsecplat_record_hash_size
    → ntohs skb.protocol ≡ eth_p_ip
    → skb.len < 2 ^ 32
    → HasHeaders skb
    → Returns (vsecplat_record_pkt skb buckets) (λ buckets'. totals q buckets' ≡ (
        if test_record_match (flow_of skb) q
        then add_packet skb.len (totals q buckets)
        else totals q buckets))
unfolding vsecplat_record_pkt counted
vsecplat_record_pkt-totals skb buckets q full ip short read = (
  _,
  rw (off_ip skb ip) (rw (entry_of-flow_of skb read) refl),
  totals-counted (flow_of skb) q skb.len buckets full (omega arith),
)

-- A packet that is no IP packet is not counted.
pub vsecplat_record_pkt_other :
    (skb : Skb) (buckets : Buckets)
    → ntohs skb.protocol ≢ eth_p_ip
    → vsecplat_record_pkt skb buckets ≡ ok buckets
unfolding vsecplat_record_pkt
vsecplat_record_pkt_other skb buckets h = ground arith
