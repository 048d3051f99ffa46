-- ===== src/Record/Report/Entry.antt =====
-- About the body of the loop of `vsecplat_persist_record` of vsecplat_record.c.
use vsecplat.Common.{ℕ, ◌+◌, ◌<◌, List, [], ◌∷◌, ◌++◌, Option, none, some}
use vsecplat.Common.{leb, ◌≡◌, refl, sym, ◌∙◌, ap, arith, length}
use vsecplat.Common.{append_assoc, append-nil, Bool-cases, inl, inr, length-append}
use vsecplat.Common.Run.{Run, ok, fault}
use vsecplat.Policy.Text.{Str}
use vsecplat.Json.{
  Json, Members, null, false_value, true_value, integer, float, string, object, array, nil, member,
}
use vsecplat.Json.Access.{
  rte_array_add_item, rte_object_add_item, rte_object_get_item, add_last, members,
}
use vsecplat.Record.Table.{RecordEntry}
use vsecplat.Record.Report.{
  Pass, key_record_list, record_entry_to_json, new_record_json_item, report_entry, max_report_item,
}

module _ {F : Type 0} where
  unfoldable pub values : Members F → List (Json F)
  values nil = []
  values (member k v m) = v ∷ values m

  pub listed : Run (Option (Json F)) → List (Json F)
  unfolding values
  listed (ok (some a)) = values (members a)
  listed (ok none) = []
  listed fault = []

  -- The entries of one item of the report.
  pub records_of : Json F → List (Json F)
  unfolding listed
  records_of root = listed (rte_object_get_item root key_record_list)

  -- The entries of all the items.
  unfoldable pub reported : List (Json F) → List (Json F)
  reported [] = []
  reported (root ∷ roots) = records_of root ++ reported roots

  pub values-add_last :
      (m : Members F) (k : Option Str) (v : Json F) → values (add_last m k v) ≡ values m ++ v ∷ []
  unfolding values add_last
  values-add_last nil k v = refl
  values-add_last (member j w m) k v = ap (λ vs. w ∷ vs) (values-add_last m k v)

  pub reported-append :
      (roots more : List (Json F)) → reported (roots ++ more) ≡ reported roots ++ reported more
  unfolding reported
  reported-append [] more = refl
  reported-append (root ∷ roots) more =
      ap (λ js. records_of root ++ js) (reported-append roots more)
      ∙ sym (append_assoc (records_of root) (reported roots) (reported more))

  unfoldable pub IsArray : Json F → Type 0
  IsArray (array m) = Unit
  IsArray _ = ⊥

  pub IsArray-add :
      (j v : Json F)
      → IsArray j
      → IsArray (rte_array_add_item j none v)
        × (values (members (rte_array_add_item j none v)) ≡ values (members j) ++ v ∷ [])
  unfolding rte_array_add_item IsArray
  IsArray-add (array m) v h = (tt, values-add_last m none v)
  IsArray-add null v h = elim h [ ]
  IsArray-add false_value v h = elim h [ ]
  IsArray-add true_value v h = elim h [ ]
  IsArray-add (integer _) v h = elim h [ ]
  IsArray-add (float _) v h = elim h [ ]
  IsArray-add (string _) v h = elim h [ ]
  IsArray-add (object _) v h = elim h [ ]

  -- The root takes a list of entries, and the items are as many as were counted.
  pub record IsPass (p : Pass F) : Type 0 where
    pub root_open :
        (a : Json F)
        → records_of (rte_object_add_item p.current.root key_record_list a) ≡ values (members a)
    pub items_open : IsArray p.current.items
    pub counted : p.item_count ≡ length (values (members p.current.items))
    pub small : p.item_count < max_report_item

  -- The entries that were written so far.
  unfoldable pub written : Pass F → List (Json F)
  written p = reported p.sent ++ values (members p.current.items)

module _ {F : Type 0} (inet_ntoa : ℕ → Str) (now : ℕ → ℕ) where
  pub new_root :
      (s e : ℕ) (a : Json F)
      → records_of
          (rte_object_add_item (new_record_json_item inet_ntoa now s e).root key_record_list a)
        ≡ values (members a)
  unfolding records_of new_record_json_item rte_object_add_item rte_object_get_item
  new_root s e a = refl

  pub report_entry-IsPass :
      (last : ℕ) (entry : RecordEntry) (p : Pass F)
      → IsPass p
      → IsPass (report_entry inet_ntoa now last entry p)
  unfolding report_entry IsArray values new_record_json_item
  report_entry-IsPass last entry p inv =
      let more =
        IsArray-add p.current.items (record_entry_to_json inet_ntoa now entry) inv.items_open in
      elim (Bool-cases (leb max_report_item (p.item_count + 1))) [
        | inl e ↦ rw e (record {
          root_open = new_root last (now p.calls);
          items_open = tt;
          counted = refl;
          small = omega arith;
        })
        | inr e ↦ rw e (record {
          root_open = inv.root_open;
          items_open = more.0;
          counted = omega (
            arith,
            inv.counted,
            ap length more.1,
            length-append (values (members p.current.items))
                (record_entry_to_json inet_ntoa now entry ∷ []),
          );
          small = ground arith;
        })
      ]

  pub report_entry-written :
      (last : ℕ) (entry : RecordEntry) (p : Pass F)
      → IsPass p
      → written (report_entry inet_ntoa now last entry p)
        ≡ written p ++ record_entry_to_json inet_ntoa now entry ∷ []
  unfolding report_entry written reported values new_record_json_item
  report_entry-written last entry p inv =
      let v = record_entry_to_json inet_ntoa now entry in
      let items' = rte_array_add_item p.current.items none v in
      let more = IsArray-add p.current.items v inv.items_open in
      let regroup = append_assoc (reported p.sent) (values (members p.current.items)) (v ∷ []) in
      elim (Bool-cases (leb max_report_item (p.item_count + 1))) [
        | inl e ↦
            rw (e, append-nil, reported-append p.sent, inv.root_open items', append-nil, more.1)
              (sym regroup)
        | inr e ↦ rw (e, more.1) (sym regroup)
      ]
