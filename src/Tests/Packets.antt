-- ===== src/Tests/Packets.antt =====
-- Frames, the statistics, the hash and the ciphers at samples.
use vsecplat.Common.{ℕ, ◌≤◌, ◌%◌, List, [], ◌∷◌, some}
use vsecplat.Common.{if◌then◌else◌, ◌≡◌, refl, arith, ntohs, length-replicate}
use vsecplat.Common.Run.{ok, Returns}
use vsecplat.Packet.Buffer.{u32_at}
use vsecplat.Packet.Handle.{packet_handle, headers_of}
use vsecplat.Packet.Handle.Frame.{admitted, IsFrame}
use vsecplat.Packet.Handle.Verdict.{is_some, packet_handle-admitted}
use vsecplat.Record.Jhash.{Words, jhash_mix}
use vsecplat.Record.Jhash.Reversal.{jhash_unmix, jhash_unmix-jhash_mix}
use vsecplat.Record.Table.{
  RecordEntry, entry_of, test_record_match, vsecplat_record_pkt, vsecplat_init_record_bucket,
}
use vsecplat.Record.Table.Flow.{HasHeaders, flow_of}
use vsecplat.Record.Table.Tally.{totals, add_packet, vsecplat_record_pkt-totals}
use vsecplat.Common.{map, ◌++◌}
use vsecplat.Policy.Text.{Str}
use vsecplat.Record.Report.{Records, reset, record_entry_to_json, vsecplat_persist_record}
use vsecplat.Record.Report.Entry.{reported}
use vsecplat.Record.Report.Complete.{busy, all_busy, vsecplat_persist_record_complete}
use vsecplat.Record.Report.Batches.{AllSmall, vsecplat_persist_record-AllSmall}
use vsecplat.Crypt.{nm_encrypt_tea, nm_decrypt_tea}
use vsecplat.Crypt.Inverse.{nm_decrypt_tea-nm_encrypt_tea}
use vsecplat.Tests.Samples.{udp_skb, tagged_skb, engine, own_mac}

tagged-IsFrame : IsFrame tagged_skb
tagged-IsFrame = record {
  long = omega arith;
  fits = omega arith;
  inside = omega arith;
  bytes = omega arith;
  whole = (omega arith, omega arith);
}

packet_handle-admitted_example :
    Returns
      (packet_handle engine 1 own_mac (some tagged_skb))
      (λ r. is_some r.sent ≡ admitted engine tagged_skb)
packet_handle-admitted_example = packet_handle-admitted engine 1 own_mac tagged_skb tagged-IsFrame

abbrev udp_entry : RecordEntry
udp_entry = record {
  sip = 0x0100000a;
  dip = 0x0200000a;
  sport = 0x3500;
  dport = 0x3500;
  proto = 17;
  vlanid = 0;
  count = 0;
  packetsize = 0;
}

udp-HasHeaders : HasHeaders udp_skb
udp-HasHeaders = record { network = omega arith; transport = λ ports. omega arith }

vsecplat_record_pkt-totals_example :
    Returns (vsecplat_record_pkt udp_skb vsecplat_init_record_bucket) (λ buckets.
      totals udp_entry buckets ≡ (
        if test_record_match (flow_of udp_skb) udp_entry
        then add_packet 42 (totals udp_entry vsecplat_init_record_bucket)
        else totals udp_entry vsecplat_init_record_bucket))
unfolding vsecplat_init_record_bucket ntohs
vsecplat_record_pkt-totals_example =
    vsecplat_record_pkt-totals udp_skb vsecplat_init_record_bucket udp_entry
      (length-replicate {A = List RecordEntry} 1024 []) refl (omega arith) udp-HasHeaders

-- The entry that the code fills in.
udp_entry_lem : entry_of udp_skb ≡ ok udp_entry
unfolding entry_of headers_of u32_at
udp_entry_lem = refl

abbrev words : Words
words = record { a = 1; b = 0xffffffff; c = 12345 }

jhash_unmix-jhash_mix_example : jhash_unmix (jhash_mix words) ≡ words
jhash_unmix-jhash_mix_example =
    jhash_unmix-jhash_mix words
      (record { fits_a = omega arith; fits_b = omega arith; fits_c = omega arith })

-- Ten bytes of text in a buffer of four words.
abbrev buffer : List ℕ
buffer = 0x01234567 ∷ 0x89abcdef ∷ 0x1234 ∷ 0 ∷ []

nm_decrypt_tea-nm_encrypt_tea_example :
    let sent = nm_encrypt_tea buffer 10 in
    (nm_decrypt_tea sent.0 sent.1 ≡ (buffer, sent.1)) × (sent.1 % 8 ≡ 0) × (10 ≤ sent.1)
nm_decrypt_tea-nm_encrypt_tea_example =
    nm_decrypt_tea-nm_encrypt_tea buffer 10
      (omega arith, (omega arith, (omega arith, (omega arith, tt))))

abbrev text : List ℕ
text = 0x7b ∷ 0xff ∷ 0x80 ∷ []

-- A flow that has counted two packets, and one that has counted none.
abbrev counting : RecordEntry
counting = record udp_entry { count = 2; packetsize = 84 }

abbrev records : Records ℕ
records = record {
  buckets = (udp_entry ∷ counting ∷ []) ∷ [];
  global_list = [];
  last_report_time = 1000;
  calls = 0;
}

abbrev ntoa_sample : ℕ → Str
ntoa_sample a = b'0' ∷ []

abbrev clock : ℕ → ℕ
clock n = 1060

vsecplat_persist_record_complete_example :
    (reported (vsecplat_persist_record ntoa_sample clock records).global_list
      ≡ reported records.global_list
        ++ map (record_entry_to_json ntoa_sample clock) (all_busy records.buckets))
    × ((vsecplat_persist_record ntoa_sample clock records).buckets
        ≡ map (λ b. map reset (busy b)) records.buckets)
vsecplat_persist_record_complete_example =
    vsecplat_persist_record_complete ntoa_sample clock records

vsecplat_persist_record-AllSmall_example :
    AllSmall (vsecplat_persist_record ntoa_sample clock records).global_list
vsecplat_persist_record-AllSmall_example =
    vsecplat_persist_record-AllSmall ntoa_sample clock records tt
