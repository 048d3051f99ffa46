-- ===== src/Policy/Duplicates.antt =====
-- The rule against duplicate packets: vsecplat_policy.c, lines 376-489.
use vsecplat.Common.{ℕ, ◌-◌, List, [], ◌∷◌, ◌++◌, Option, none, some}
use vsecplat.Common.{if◌then◌else◌, ltb, length, replicate}
use vsecplat.Common.Run.{Run, ok, fault, ◌>>=◌}
use vsecplat.Policy.Text.{Str}
use vsecplat.Policy.Objects.{AddrObj, blank_addr}
use vsecplat.Policy.Objects.Parse.{get_addr_obj_from_str}
use vsecplat.Policy.Rules.{persist_json_entry}
use vsecplat.Policy.Forward.{DuplicateRule, TextPtr, null_text, live, freed}
use vsecplat.Json.{Json, Members, string, object, array, nil, member}
use vsecplat.Json.Access.{rte_object_get_item, rte_array_get_size}

abbrev pub duplicate_ip_max_num : ℕ
duplicate_ip_max_num = 128

abbrev pub blank_ips : List AddrObj
blank_ips = replicate duplicate_ip_max_num blank_addr

abbrev pub key_duplicate_rules : Str
key_duplicate_rules =
    b'd' ∷ b'u' ∷ b'p' ∷ b'l' ∷ b'i' ∷ b'c' ∷ b'a' ∷ b't' ∷ b'e' ∷ b'_' ∷ b'r' ∷ b'u' ∷ b'l' ∷ b'e'
    ∷ b's' ∷ []

abbrev pub key_src_ips : Str
key_src_ips = b's' ∷ b'r' ∷ b'c' ∷ b'_' ∷ b'i' ∷ b'p' ∷ b's' ∷ []

abbrev pub key_dst_ips : Str
key_dst_ips = b'd' ∷ b's' ∷ b't' ∷ b'_' ∷ b'i' ∷ b'p' ∷ b's' ∷ []

-- The global rule with the file that it is kept in.
pub record Duplicates : Type 0 where
  pub rule : DuplicateRule
  pub file : Option Str

abbrev pub no_duplicates : DuplicateRule
no_duplicates = record { src_ip = blank_ips; dst_ip = blank_ips; json_txt = null_text }

-- `free`: giving memory back twice is undefined.
unfoldable pub free_text : TextPtr → Run TextPtr
free_text null_text = ok null_text
free_text (live s) = ok freed
free_text freed = fault

module _ {F : Type 0} (show_float : F → Str) (inet_aton : Str → Option ℕ) (addr : ℕ) where
  -- `val_str` of a value that is no string is no pointer to a text.
  unfoldable pub parse_ips : Members F → Run (List AddrObj)
  parse_ips nil = ok []
  parse_ips (member k v m) = elim v [
    | string s ↦ get_addr_obj_from_str inet_aton addr blank_addr s >>= λ (o, ret).
        parse_ips m >>= λ os. ok (o ∷ os)
    | _ ↦ fault
  ]

  -- The array of 128 entries; the rest of it stays empty. The size of a missing entry is read
  -- through the null pointer.
  unfoldable pub ips_entry : Json F → Str → Run (Option (List AddrObj))
  unfolding parse_ips
  ips_entry item key = rte_object_get_item item key >>= λ entry. elim entry [
    | none ↦ fault
    | some (array m) ↦
        if ltb duplicate_ip_max_num (rte_array_get_size (array m))
        then fault
        else parse_ips m >>= λ os.
            ok (some (os ++ replicate (duplicate_ip_max_num - length os) blank_addr))
    | some _ ↦ ok none
  ]

  abbrev pub text_ptr : Option Str → TextPtr
  text_ptr none = null_text
  text_ptr (some s) = live s

  -- `none` is the result -1.
  unfoldable pub parse_duplicate_rule : Json F → Run (Option DuplicateRule)
  unfolding ips_entry
  parse_duplicate_rule json = persist_json_entry show_float inet_aton addr json >>= λ txt.
      rte_object_get_item json key_duplicate_rules >>= λ item. elim item [
        | some (object m) ↦ ips_entry (object m) key_src_ips >>= λ src. elim src [
          | none ↦ ok none
          | some src_ip ↦ ips_entry (object m) key_dst_ips >>= λ dst. elim dst [
            | none ↦ ok none
            | some dst_ip ↦
                ok (some (record { src_ip = src_ip; dst_ip = dst_ip; json_txt = text_ptr txt }))
          ]
        ]
        | _ ↦ ok none
      ]

-- The file is opened and written in full; the text is kept only if there is one.
unfoldable pub add_duplicate_rule : DuplicateRule → Duplicates → Duplicates
add_duplicate_rule d s = elim d.json_txt [
  | live txt ↦ record {
    rule = record { src_ip = d.src_ip; dst_ip = d.dst_ip; json_txt = live txt };
    file = some txt;
  }
  | _ ↦ record {
    rule = record { src_ip = d.src_ip; dst_ip = d.dst_ip; json_txt = s.rule.json_txt };
    file = s.file;
  }
]

-- The pointer is not reset after `free`.
unfoldable pub del_duplicate_rule : Duplicates → Run Duplicates
unfolding free_text
del_duplicate_rule s = free_text s.rule.json_txt >>= λ txt. ok (record {
  rule = record { src_ip = blank_ips; dst_ip = blank_ips; json_txt = txt };
  file = none;
})
