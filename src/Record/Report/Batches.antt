-- ===== src/Record/Report/Batches.antt =====
-- About `vsecplat_persist_record` of vsecplat_record.c: the sizes of its items.
use vsecplat.Common.{ℕ, ◌+◌, ◌≤◌, List, [], ◌∷◌, none, All, All-append}
use vsecplat.Common.{if◌then◌else◌, ltb, leb, ◌==◌, arith, length, length-append}
use vsecplat.Common.{Bool-cases, inl, inr}
use vsecplat.Policy.Text.{Str}
use vsecplat.Json.{Json}
use vsecplat.Json.Access.{members, rte_array_add_item, rte_object_add_item}
use vsecplat.Record.Table.{RecordEntry, Buckets}
use vsecplat.Record.Report.{
  Pass, Records, record_entry_to_json, report_entry, visit, persist_bucket, persist_buckets,
  is_empty, close, vsecplat_persist_record, max_report_item, key_record_list,
}
use vsecplat.Record.Report.Entry.{values, records_of, IsPass, IsArray-add}
use vsecplat.Record.Report.Complete.{
  Covers-visit, persist_bucket-Covers, persist_buckets-Covers, start, start-IsPass,
}

abbrev pub AllSmall : {F : Type 0} → List (Json F) → Type 0
AllSmall roots = All (λ root. length (records_of root) ≤ max_report_item) roots

module _ {F : Type 0} (inet_ntoa : ℕ → Str) (now : ℕ → ℕ) where
  report_entry-AllSmall :
      (last : ℕ) (entry : RecordEntry) (p : Pass F)
      → IsPass p
      → AllSmall p.sent
      → AllSmall (report_entry inet_ntoa now last entry p).sent
  unfolding report_entry
  report_entry-AllSmall last entry p inv small =
      let v = record_entry_to_json inet_ntoa now entry in
      let more = IsArray-add p.current.items v inv.items_open in
      elim (Bool-cases (leb max_report_item (p.item_count + 1))) [
        | inl e ↦ rw e (
            All-append (λ root. length (records_of root) ≤ max_report_item) p.sent _ small
              (
                rw (inv.root_open (rte_array_add_item p.current.items none v), more.1)
                    (omega (
                      arith,
                      inv.counted,
                      inv.small,
                      length-append (values (members p.current.items)) (v ∷ []),
                    )),
                tt,
              ))
        | inr e ↦ rw e small
      ]

  visit-AllSmall :
      (last : ℕ) (entry : RecordEntry) (p : Pass F)
      → IsPass p
      → AllSmall p.sent
      → AllSmall (visit inet_ntoa now last entry p).sent
  unfolding visit
  visit-AllSmall last entry p inv small = elim (Bool-cases (entry.count == 0)) [
    | inl e ↦ rw e small
    | inr e ↦ rw e (report_entry-AllSmall last entry p inv small)
  ]

  persist_bucket-AllSmall :
      (last : ℕ) (list : List RecordEntry) (p : Pass F)
      → IsPass p
      → AllSmall p.sent
      → AllSmall (persist_bucket inet_ntoa now last list p).1.sent
  unfolding persist_bucket
  persist_bucket-AllSmall last [] p inv small = small
  persist_bucket-AllSmall last (entry ∷ list) p inv small =
      persist_bucket-AllSmall last list (visit inet_ntoa now last entry p)
        (Covers-visit inet_ntoa now last entry p inv).is_pass
        (visit-AllSmall last entry p inv small)

  persist_buckets-AllSmall :
      (last : ℕ) (buckets : Buckets) (p : Pass F)
      → IsPass p
      → AllSmall p.sent
      → AllSmall (persist_buckets inet_ntoa now last buckets p).1.sent
  unfolding persist_buckets
  persist_buckets-AllSmall last [] p inv small = small
  persist_buckets-AllSmall last (bucket ∷ buckets) p inv small =
      persist_buckets-AllSmall last buckets _
        (persist_bucket-Covers inet_ntoa now last bucket p inv).0.is_pass
        (persist_bucket-AllSmall last bucket p inv small)

  -- What is left over goes into one item, or is dropped.
  left_over :
      (root : Json F) (roots : List (Json F))
      → length (records_of root) ≤ max_report_item
      → AllSmall roots
      → AllSmall (if is_empty roots then root ∷ [] else roots)
  left_over root [] h small = (h, tt)
  left_over root (r ∷ roots) h small = small

  close-AllSmall : (p : Pass F) → IsPass p → AllSmall p.sent → AllSmall (close inet_ntoa now p)
  unfolding close
  close-AllSmall p inv small =
      let root_small : length
            (records_of (rte_object_add_item p.current.root key_record_list p.current.items))
          ≤ max_report_item =
        rw (inv.root_open p.current.items) (omega (arith, inv.counted, inv.small)) in
      elim (Bool-cases (ltb 0 p.item_count)) [
        | inl e ↦ rw e (
            All-append (λ root. length (records_of root) ≤ max_report_item) p.sent _ small
              (root_small, tt))
        | inr e ↦ rw e (left_over _ p.sent root_small small)
      ]

  -- Where no item that waits has more than ten entries, none has behind a report.
  pub vsecplat_persist_record-AllSmall :
      (s : Records F)
      → AllSmall s.global_list
      → AllSmall (vsecplat_persist_record inet_ntoa now s).global_list
  unfolding vsecplat_persist_record start
  vsecplat_persist_record-AllSmall s small =
      let opened = start-IsPass inet_ntoa now s.last_report_time s.calls s.global_list in
      close-AllSmall _
        (persist_buckets-Covers inet_ntoa now s.last_report_time s.buckets _ opened).0
        (persist_buckets-AllSmall s.last_report_time s.buckets _ opened small)
