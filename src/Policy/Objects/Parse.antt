-- ===== src/Policy/Objects/Parse.antt =====
-- Criteria from text. A list is cut at each `|`; a criterion holds a range behind `-`, a network
-- behind `/`, and stars that stand for 0 octets.
use vsecplat.Common.{ℕ, zero, ◌+◌, ◌-◌, ◌*◌, Bool, true, false, List, [], ◌∷◌, ◌++◌}
use vsecplat.Common.{Option, none, some, ◌==◌, leb, if◌then◌else◌, bit_or, not32}
use vsecplat.Common.{ℤ, pos, negsuc, to_u32}
use vsecplat.Common.Run.{Run, ok, fault, ◌>>=◌}
use vsecplat.Policy.Text.{Str, atoi, bad_ip_address, masklen2ip}
use vsecplat.Policy.Objects.{AddrObj, AddrType, NumObj, blank_addr, blank_num, all_ones}
use vsecplat.Policy.Objects.AddrType.{ip_null, ip_host, ip_net_mask, ip_range}
use vsecplat.Policy.Objects.NumType.{num_null, num_single, num_range}

-- The loop of `get_num_obj_from_str`: `seen` stands before `pos`.
unfoldable pub num_loop : NumObj → Str → Str → NumObj
num_loop obj seen [] =
    let val = to_u32 (atoi seen) in
    let mask = if val == 0 then all_ones else obj.num_mask in
    record {
      type = elim obj.type [
        | num_null ↦ num_single
        | num_single ↦ num_single
        | num_range ↦ num_range
      ];
      num_mask = bit_or mask val;
      word0 = val;
      word1 = obj.word1;
    }
num_loop obj seen (c ∷ rest) =
    let next = num_loop obj (seen ++ c ∷ []) rest in
    let range = record obj {
      type = num_range;
      word0 = to_u32 (atoi seen);
      word1 = to_u32 (atoi rest);
    } in
    if c == b'-' then range else next

unfoldable pub get_num_obj_from_str : NumObj → Str → NumObj
unfolding num_loop atoi
get_num_obj_from_str obj str = num_loop obj [] str

-- The loop of `parse_num_objs` from `pos` on; `seen` is the text of the criterion at hand.
unfoldable pub num_objs_loop : Str → Str → List NumObj
unfolding get_num_obj_from_str
num_objs_loop seen [] = get_num_obj_from_str blank_num seen ∷ []
num_objs_loop seen (c ∷ rest) =
    let next = num_objs_loop (seen ++ c ∷ []) rest in
    let cut = get_num_obj_from_str blank_num seen ∷ num_objs_loop [] rest in
    if c == b'|' then cut else next

abbrev pub starts_with_not : Str → Bool
starts_with_not [] = false
starts_with_not (c ∷ s) = c == b'!'

-- `str + 2` behind a `!`: the loop runs up to the end found before, so a text that is only `!`
-- gives no criterion at all.
unfoldable pub parse_num_objs : Str → List NumObj × ℕ
unfolding num_objs_loop
parse_num_objs [] = (num_objs_loop [] [], 0)
parse_num_objs (c ∷ []) = if c == b'!' then ([], 1) else (num_objs_loop [] (c ∷ []), 0)
parse_num_objs (c ∷ d ∷ s) =
    if c == b'!' then (num_objs_loop [] s, 1) else (num_objs_loop [] (c ∷ d ∷ s), 0)

abbrev pub is_negative : ℤ → Bool
is_negative (pos n) = false
is_negative (negsuc n) = true

abbrev pub returning {ℓ} : {A : Type ℓ} → ℤ → Run A → Run (A × ℤ)
returning ret r = r >>= λ o. ok (o, ret)

-- `ret` and `str` in front of the loop of `parse_addr_objs`: `str + 2` behind a `!`, and `none` where
-- that lies behind the end found before, so that the loop does not run.
unfoldable pub skip_not : Str → ℤ × Option Str
skip_not [] = (pos 0, some [])
skip_not (c ∷ []) = if c == b'!' then (pos 1, none) else (pos 0, some (c ∷ []))
skip_not (c ∷ d ∷ s) = if c == b'!' then (pos 1, some s) else (pos 0, some (c ∷ d ∷ s))

-- `inet_aton` of the C library: the address in network byte order, or failure, which leaves the
-- caller's `addr` as it was.
module _ (inet_aton : Str → Option ℕ) where
  abbrev pub aton_or : Str → ℕ → ℕ
  aton_or s addr = elim (inet_aton s) [ none ↦ addr | some a ↦ a ]

  -- The call of `bad_ip_address` only logs, but the text that `inet_aton` reads next is the one
  -- that it leaves.
  unfoldable pub aton_checked : Str → ℕ → ℕ
  aton_checked s addr = aton_or (bad_ip_address s).1 addr

  -- The branch at `/`.
  unfoldable pub net_obj : AddrObj → ℕ → Str → Run AddrObj
  net_obj obj a rest =
      if a == 0
      then ok (record obj { type = ip_net_mask; addr_mask = all_ones; word0 = a })
      else elim (atoi rest) [
        | pos zero ↦ ok (record obj { type = ip_net_mask; addr_mask = all_ones; word0 = a })
        | val ↦ masklen2ip val >>= λ len. ok (record {
          type = ip_net_mask;
          addr_mask = bit_or a (not32 len);
          word0 = a;
          word1 = len;
        })
      ]

  -- The branch at the NUL, with the count of stars.
  unfoldable pub end_obj : AddrObj → ℕ → ℕ → Run AddrObj
  end_obj obj star_num a =
      let mask = bit_or (if a == 0 then all_ones else obj.addr_mask) a in
      let type : AddrType = elim obj.type [
        | ip_null ↦ ip_host
        | ip_host ↦ ip_host
        | ip_net_mask ↦ ip_net_mask
        | ip_range ↦ ip_range
      ] in
      if star_num == 0
      then ok (record { type = type; addr_mask = mask; word0 = a; word1 = obj.word1 })
      else if leb star_num 4
      then (masklen2ip (pos ((4 - star_num) * 8)) >>= λ len. ok (record {
        type = type;
        addr_mask = if star_num == 4 then all_ones else mask;
        word0 = a;
        word1 = len;
      }))
      else fault

  -- The loop of `get_addr_obj_from_str`. `addr` is the local variable, which is not
  -- initialised; stars in `seen` are already overwritten by `0`.
  unfoldable pub addr_loop : ℕ → AddrObj → ℕ → Str → Str → Run AddrObj
  unfolding end_obj net_obj aton_checked
  addr_loop addr obj star_num seen [] = end_obj obj star_num (aton_checked seen addr)
  addr_loop addr obj star_num seen (c ∷ rest) =
      let low = aton_checked seen addr in
      let range = ok (record obj { type = ip_range; word0 = low; word1 = aton_or rest low }) in
      let starred =
        addr_loop addr (record obj { type = ip_net_mask }) (star_num + 1) (seen ++ b'0' ∷ [])
          rest in
      let next = addr_loop addr obj star_num (seen ++ c ∷ []) rest in
      if c == b'-'
      then range
      else if c == b'/'
      then net_obj obj low rest
      else if c == b'*'
      then starred
      else next

  -- The entry that is filled in, and `ret`, to which nothing is assigned.
  unfoldable pub get_addr_obj_from_str : ℕ → AddrObj → Str → Run (AddrObj × ℤ)
  unfolding addr_loop atoi bad_ip_address masklen2ip
  get_addr_obj_from_str addr obj str = returning (pos 0) (addr_loop addr obj 0 [] str)

  -- The loop of `parse_addr_objs` from `pos` on, with the entries that it adds and `ret` behind it; a
  -- negative `ret` ends it.
  unfoldable pub addr_objs_loop : ℕ → Str → Str → Run (List AddrObj × ℤ)
  unfolding get_addr_obj_from_str
  addr_objs_loop addr seen [] = get_addr_obj_from_str addr blank_addr seen >>= λ (obj, ret).
      ok (if is_negative ret then [] else obj ∷ [], ret)
  addr_objs_loop addr seen (c ∷ rest) =
      let next = addr_objs_loop addr (seen ++ c ∷ []) rest in
      let others = addr_objs_loop addr [] rest in
      let cut = get_addr_obj_from_str addr blank_addr seen >>= λ (obj, ret).
      if is_negative ret
      then ok ([], ret)
      else (others >>= λ (objs, last). ok (obj ∷ objs, last)) in
      if c == b'|' then cut else next

  abbrev from_pos : ℕ → ℤ → Option Str → Run (List AddrObj × ℤ)
  from_pos addr ret none = ok ([], ret)
  from_pos addr ret (some str) = addr_objs_loop addr [] str

  -- `ret` is 1 behind a `!`, up to the first entry; what is returned is `format`.
  unfoldable pub parse_addr_objs : ℕ → Str → Run (List AddrObj × ℤ)
  unfolding addr_objs_loop skip_not
  parse_addr_objs addr str =
      let format = pos 0 in
      let (ret, start) = skip_not str in
      from_pos addr ret start >>= λ (objs, last).
      ok (objs, if is_negative last then negsuc 0 else format)
