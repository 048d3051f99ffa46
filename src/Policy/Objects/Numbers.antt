-- ===== src/Policy/Objects/Numbers.antt =====
-- Lists of numbers and ranges, as a rule writes ports, protocols and VLANs.
use vsecplat.Common.{ℕ, ◌≤◌, true, List, [], ◌∷◌, ◌++◌, map, any, All}
use vsecplat.Common.{◌==◌, ◌||◌, to_u32, ◌≡◌, ◌≢◌, ◌↔◌, refl, sym, ◌∙◌, ap, arith}
use vsecplat.Common.{append_assoc, append-nil, bit_and_self, zero-bit_or}
use vsecplat.Policy.Text.{Str, atoi}
use vsecplat.Policy.Objects.{NumObj, blank_num, all_ones}
use vsecplat.Policy.Objects.Match.{test_match_num_obj, check_num_obj_list}
use vsecplat.Policy.Objects.Parse.{num_loop, get_num_obj_from_str, num_objs_loop, parse_num_objs}
use vsecplat.Policy.Objects.NumType.{num_range}

-- A text without `-`, and a text without `|`.
abbrev pub IsNumeral : Str → Type 0
IsNumeral s = All (λ c. c ≢ b'-') s

abbrev pub IsItem : Str → Type 0
IsItem s = All (λ c. c ≢ b'|') s

num_loop_plain :
    (obj : NumObj) (seen p rest : Str)
    → IsNumeral p
    → num_loop obj seen (p ++ rest) ≡ num_loop obj (seen ++ p) rest
num_loop_plain obj seen [] rest h = rw append-nil
num_loop_plain obj seen (c ∷ p) rest h =
    one_step
    ∙ num_loop_plain obj (seen ++ c ∷ []) p rest h.1
    ∙ ap (λ s. num_loop obj s rest) (append_assoc seen (c ∷ []) p)
  where
    one_step : num_loop obj seen (c ∷ (p ++ rest)) ≡ num_loop obj (seen ++ c ∷ []) (p ++ rest)
    one_step = unfold num_loop in ground arith

single_read : (p : Str) → IsNumeral p → get_num_obj_from_str blank_num p ≡ num_loop blank_num p []
unfolding get_num_obj_from_str
single_read p h =
    ap (num_loop blank_num []) (sym (append-nil p)) ∙ num_loop_plain blank_num [] p [] h

range_read :
    (p q : Str)
    → IsNumeral p
    → get_num_obj_from_str blank_num (p ++ b'-' ∷ q)
      ≡ record { type = num_range; num_mask = 0; word0 = to_u32 (atoi p); word1 = to_u32 (atoi q) }
unfolding get_num_obj_from_str
range_read p q h = num_loop_plain blank_num [] p (b'-' ∷ q) h ∙ (unfold num_loop in refl)

-- A written number other than 2^32 - 1 matches itself and, where it is 0, every number.
pub number_matches :
    (p : Str) (num : ℕ)
    → IsNumeral p
    → to_u32 (atoi p) ≢ all_ones
    → test_match_num_obj (get_num_obj_from_str blank_num p) num
      ≡ (to_u32 (atoi p) == 0 || to_u32 (atoi p) == num)
number_matches p num h not_all = rw (single_read p h) matches
  where
    matches :
        test_match_num_obj (num_loop blank_num p []) num
        ≡ (to_u32 (atoi p) == 0 || to_u32 (atoi p) == num)
    matches =
        unfold test_match_num_obj num_loop in
        ground (arith, bit_and_self (to_u32 (atoi p)), zero-bit_or (to_u32 (atoi p)))

-- A written range matches the numbers between its ends, both included.
pub number_range_matches :
    (p q : Str) (num : ℕ)
    → IsNumeral p
    → (test_match_num_obj (get_num_obj_from_str blank_num (p ++ b'-' ∷ q)) num ≡ true)
      ↔ ((to_u32 (atoi p) ≤ num) × (num ≤ to_u32 (atoi q)))
unfolding test_match_num_obj
number_range_matches p q num h = rw (range_read p q h) (ground arith)

-- The texts of a list, joined as a rule joins them.
abbrev pub join : Str → List Str → Str
join t [] = t
join t (u ∷ us) = t ++ b'|' ∷ join u us

objs_loop_plain :
    (seen p rest : Str) → IsItem p → num_objs_loop seen (p ++ rest) ≡ num_objs_loop (seen ++ p) rest
objs_loop_plain seen [] rest h = rw append-nil
objs_loop_plain seen (c ∷ p) rest h =
    one_step
    ∙ objs_loop_plain (seen ++ c ∷ []) p rest h.1
    ∙ ap (λ s. num_objs_loop s rest) (append_assoc seen (c ∷ []) p)
  where
    one_step : num_objs_loop seen (c ∷ (p ++ rest)) ≡ num_objs_loop (seen ++ c ∷ []) (p ++ rest)
    one_step = unfold num_objs_loop in ground arith

-- A list is cut at its bars into its texts, in their order.
pub num_objs_loop-join :
    (t : Str) (us : List Str)
    → All IsItem (t ∷ us)
    → num_objs_loop [] (join t us) ≡ map (get_num_obj_from_str blank_num) (t ∷ us)
num_objs_loop-join t [] h =
    ap (num_objs_loop []) (sym (append-nil t))
    ∙ objs_loop_plain [] t [] h.0
    ∙ (unfold num_objs_loop in refl)
num_objs_loop-join t (u ∷ us) h =
    objs_loop_plain [] t (b'|' ∷ join u us) h.0
    ∙ at_bar
    ∙ ap (λ l. get_num_obj_from_str blank_num t ∷ l) (num_objs_loop-join u us h.1)
  where
    at_bar :
        num_objs_loop t (b'|' ∷ join u us)
        ≡ get_num_obj_from_str blank_num t ∷ num_objs_loop [] (join u us)
    at_bar = unfold num_objs_loop in refl

check-map :
    (num : ℕ) (ts : List Str)
    → check_num_obj_list (map (get_num_obj_from_str blank_num) ts) num
      ≡ any (λ t. test_match_num_obj (get_num_obj_from_str blank_num t) num) ts
unfolding check_num_obj_list
check-map num [] = refl
check-map num (t ∷ ts) = rw (check-map num ts)

-- A list behind `!(` is marked as negated, and matches a number exactly when one of its texts
-- does, whatever closes it.
pub negated_numbers :
    (t : Str) (us : List Str) (num : ℕ)
    → All IsItem (t ∷ us)
    → ((parse_num_objs (b'!' ∷ b'(' ∷ join t us)).1 ≡ 1)
      × (check_num_obj_list (parse_num_objs (b'!' ∷ b'(' ∷ join t us)).0 num
          ≡ any (λ t. test_match_num_obj (get_num_obj_from_str blank_num t) num) (t ∷ us))
unfolding parse_num_objs
negated_numbers t us num h = (refl, rw (num_objs_loop-join t us h) (check-map num (t ∷ us)))
