-- ===== src/Record/Report/Complete.antt =====
-- About `vsecplat_persist_record` of vsecplat_record.c: the entries and the table behind it.
use vsecplat.Common.{ℕ, suc, List, [], ◌∷◌, ◌++◌}
use vsecplat.Common.{if◌then◌else◌, ltb, ◌==◌, ◌≡◌, refl, sym, ◌∙◌, ap, ap₂, arith, length}
use vsecplat.Common.{map, append_assoc, append-nil, Bool-cases, inl, inr}
use vsecplat.Policy.Text.{Str}
use vsecplat.Json.{Json, Members, nil, member}
use vsecplat.Json.Access.{members}
use vsecplat.Record.Table.{RecordEntry, Buckets}
use vsecplat.Record.Report.{
  Pass, Records, reset, record_entry_to_json, new_record_json_item, visit, kept, persist_bucket,
  persist_buckets, is_empty, close, vsecplat_persist_record,
}
use vsecplat.Record.Report.Entry.{
  values, records_of, reported, reported-append, IsPass, IsArray, written, new_root,
  report_entry-IsPass, report_entry-written,
}
use mathlib.Core.List.{map-append}

abbrev pub busy : List RecordEntry → List RecordEntry
busy [] = []
busy (entry ∷ list) = if entry.count == 0 then busy list else entry ∷ busy list

abbrev pub all_busy : Buckets → List RecordEntry
all_busy [] = []
all_busy (bucket ∷ buckets) = busy bucket ++ all_busy buckets

busy-append : (xs ys : List RecordEntry) → busy (xs ++ ys) ≡ busy xs ++ busy ys
busy-append [] ys = refl
busy-append (entry ∷ xs) ys = ground (arith, busy-append xs ys)

kept-busy :
    (entry : RecordEntry) (list : List RecordEntry)
    → kept entry ++ map reset (busy list) ≡ map reset (busy (entry ∷ list))
unfolding kept
kept-busy entry list = elim (Bool-cases (entry.count == 0)) [ inl e ↦ rw e | inr e ↦ rw e ]

module _ {F : Type 0} (inet_ntoa : ℕ → Str) (now : ℕ → ℕ) where
  abbrev json_of : RecordEntry → Json F
  json_of entry = record_entry_to_json inet_ntoa now entry

  -- What a stretch of the loop over `list` does, from the pass before it to the one behind it.
  pub record Covers (list : List RecordEntry) (p q : Pass F) : Type 0 where
    pub is_pass : IsPass q
    pub adds : written q ≡ written p ++ map json_of (busy list)

  pub Covers-visit :
      (last : ℕ) (entry : RecordEntry) (p : Pass F)
      → IsPass p
      → Covers (entry ∷ []) p (visit inet_ntoa now last entry p)
  unfolding visit
  Covers-visit last entry p inv = elim (Bool-cases (entry.count == 0)) [
    | inl e ↦ rw e (record { is_pass = inv; adds = rw e (sym (append-nil (written p))) })
    | inr e ↦ rw e (record {
      is_pass = report_entry-IsPass inet_ntoa now last entry p inv;
      adds = rw e (report_entry-written inet_ntoa now last entry p inv);
    })
  ]

  Covers-append :
      (xs ys : List RecordEntry) (p q r : Pass F)
      → Covers xs p q
      → Covers ys q r
      → Covers (xs ++ ys) p r
  Covers-append xs ys p q r one two = record {
    is_pass = two.is_pass;
    adds =
        two.adds
        ∙ rw (one.adds, busy-append xs ys, map-append json_of (busy xs) (busy ys))
            (append_assoc (written p) (map json_of (busy xs)) (map json_of (busy ys)));
  }

  pub persist_bucket-Covers :
      (last : ℕ) (list : List RecordEntry) (p : Pass F)
      → IsPass p
      → Covers list p (persist_bucket inet_ntoa now last list p).1
        × ((persist_bucket inet_ntoa now last list p).0 ≡ map reset (busy list))
  unfolding persist_bucket
  persist_bucket-Covers last [] p inv =
      (record { is_pass = inv; adds = sym (append-nil (written p)) }, refl)
  persist_bucket-Covers last (entry ∷ list) p inv =
      let one = Covers-visit last entry p inv in
      let rest = persist_bucket-Covers last list (visit inet_ntoa now last entry p) one.is_pass in
      (
        Covers-append (entry ∷ []) list _ _ _ one rest.0,
        ap (λ es. kept entry ++ es) rest.1 ∙ kept-busy entry list,
      )

  pub persist_buckets-Covers :
      (last : ℕ) (buckets : Buckets) (p : Pass F)
      → IsPass p
      → IsPass (persist_buckets inet_ntoa now last buckets p).1
        × (written (persist_buckets inet_ntoa now last buckets p).1
            ≡ written p ++ map json_of (all_busy buckets))
        × ((persist_buckets inet_ntoa now last buckets p).0 ≡ map (λ b. map reset (busy b)) buckets)
  unfolding persist_buckets
  persist_buckets-Covers last [] p inv = (inv, sym (append-nil (written p)), refl)
  persist_buckets-Covers last (bucket ∷ buckets) p inv =
      let (one, aged) = persist_bucket-Covers last bucket p inv in
      let rest = persist_buckets-Covers last buckets _ one.is_pass in
      (
        rest.0,
        rest.1
            ∙ rw (one.adds, map-append json_of (busy bucket) (all_busy buckets))
                (append_assoc (written p) (map json_of (busy bucket))
                  (map json_of (all_busy buckets))),
        ap₂ (λ b bs. b ∷ bs) aged rest.2,
      )

  no_values : (m : Members F) → length (values m) ≡ 0 → values m ≡ []
  unfolding values
  no_values nil e = refl
  no_values (member k v m) e = absurd (omega arith)

  empty_root :
      (root : Json F) (roots : List (Json F))
      → records_of root ≡ []
      → reported (if is_empty roots then root ∷ [] else roots) ≡ reported roots
  unfolding reported
  empty_root root [] h = rw h
  empty_root root (r ∷ roots) h = refl

  close-written : (p : Pass F) → IsPass p → reported (close inet_ntoa now p) ≡ written p
  unfolding close reported written
  close-written p inv = elim (Bool-cases (ltb 0 p.item_count)) [
    | inl e ↦ rw (e, reported-append p.sent, inv.root_open p.current.items, append-nil)
    | inr e ↦
        let none_left = no_values (members p.current.items) (ground (arith, inv.counted)) in
        rw (e, none_left, append-nil)
          (empty_root _ p.sent (inv.root_open p.current.items ∙ none_left))
  ]

  unfoldable pub start : ℕ → ℕ → List (Json F) → Pass F
  start last calls sent = record {
    current = new_record_json_item inet_ntoa now last (now calls);
    item_count = 0;
    sent = sent;
    calls = suc calls;
  }

  pub start-IsPass : (last calls : ℕ) (sent : List (Json F)) → IsPass (start last calls sent)
  unfolding start new_record_json_item IsArray values
  start-IsPass last calls sent = record {
    root_open = new_root inet_ntoa now last (now calls);
    items_open = tt;
    counted = refl;
    small = omega arith;
  }

  start-written :
      (last calls : ℕ) (sent : List (Json F)) → written (start last calls sent) ≡ reported sent
  unfolding start new_record_json_item written values
  start-written last calls sent = append-nil (reported sent)

  -- A report adds to the items that wait for the platform one entry for each flow that has counted a
  -- packet, in the order of the table, and no other; behind it these flows stand at 0 in their
  -- order, and those that have counted nothing are taken out.
  pub vsecplat_persist_record_complete :
      (s : Records F)
      → (reported (vsecplat_persist_record inet_ntoa now s).global_list
          ≡ reported s.global_list ++ map json_of (all_busy s.buckets))
        × ((vsecplat_persist_record inet_ntoa now s).buckets
            ≡ map (λ b. map reset (busy b)) s.buckets)
  unfolding vsecplat_persist_record start
  vsecplat_persist_record_complete s =
      let opened = start-IsPass s.last_report_time s.calls s.global_list in
      let through = persist_buckets-Covers s.last_report_time s.buckets _ opened in
      (
        close-written _ through.0
            ∙ (through.1
                ∙ ap (λ js. js ++ map json_of (all_busy s.buckets))
                    (start-written s.last_report_time s.calls s.global_list)),
        through.2,
      )
