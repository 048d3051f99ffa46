-- ===== src/Json/Parse/Shown/Size.antt =====
-- About the text that `rte_persist_json` of rte_json.c writes: its bytes and their number.
use vsecplat.Common.{ℕ, zero, suc, ◌+◌, ◌*◌, ◌≤◌, ◌<◌, Bool, true, false, [], ◌∷◌, ◌++◌}
use vsecplat.Common.{
  Option, none, some, ◌≡◌, refl, sym, ◌∙◌, ap, arith, length, replicate, All-append,
}
use vsecplat.Common.{length-append, append-nil, ℤ}
use vsecplat.Policy.Text.{Str}
use vsecplat.Json.{
  Json, Members, null, false_value, true_value, integer, float, string, object, array, nil, member,
}
use vsecplat.Json.Persist.{print_long, persist_string_ptr, fmt_bytes, c_string, escape_all}
use vsecplat.Json.Parse.Text.Written.{IsBytes, HasNoNul, HasNoNul-escape_all}
use vsecplat.Json.Parse.Number.Written.{IsSmall, HasNoNul-print_long, starts_number-print_long}
use vsecplat.Json.Parse.{starts_number}
use vsecplat.Json.Parse.Shown.{
  IsStorable, AreItems, AreFields, shown, shown_items, shown_fields, comma, gap,
}

pub c_string-append : (s r : Str) → HasNoNul s → c_string (s ++ r) ≡ s ++ c_string r
unfolding c_string
c_string-append [] r h = refl
c_string-append (c ∷ s) r h = let first = h.0 in ground (arith, c_string-append s r h.1)

HasNoNul-persist_string_ptr : (s : Str) → IsBytes s → HasNoNul (persist_string_ptr (some s))
unfolding persist_string_ptr
HasNoNul-persist_string_ptr s h = (
  omega arith,
  All-append (λ c. 0 < c) (escape_all s) (b'"' ∷ []) (HasNoNul-escape_all s h) (omega arith),
)

HasNoNul-fmt_bytes : (fmt : Bool) (bs : Str) → HasNoNul bs → HasNoNul (fmt_bytes fmt bs)
HasNoNul-fmt_bytes true bs h = h
HasNoNul-fmt_bytes false bs h = tt

HasNoNul-append : (s r : Str) → HasNoNul s → HasNoNul r → HasNoNul (s ++ r)
HasNoNul-append s r h g = All-append (λ c. 0 < c) s r h g

HasNoNul-replicate : (n : ℕ) → HasNoNul (replicate n 9)
HasNoNul-replicate zero = tt
HasNoNul-replicate (suc n) = (omega arith, HasNoNul-replicate n)

HasNoNul-gap : (fmt : Bool) (bs r : Str) → HasNoNul bs → HasNoNul r → HasNoNul (gap fmt bs r)
HasNoNul-gap true bs r h g = HasNoNul-append bs r h g
HasNoNul-gap false bs r h g = g

HasNoNul-comma :
    {F : Type 0} (bs : Str) (m : Members F) (r : Str)
    → HasNoNul bs
    → HasNoNul r
    → HasNoNul (comma bs m r)
HasNoNul-comma bs nil r h g = g
HasNoNul-comma bs (member k v m) r h g = (omega arith, HasNoNul-append bs r h g)

mutual
  pub HasNoNul-shown :
      {F : Type 0} (fmt : Bool) (d : ℕ) (v : Json F) (r : Str)
      → IsStorable v
      → HasNoNul r
      → HasNoNul (shown fmt d v r)
  HasNoNul-shown fmt d (integer z) r h g =
      HasNoNul-append (print_long z) r (HasNoNul-print_long z) g
  HasNoNul-shown fmt d (string s) r h g =
      HasNoNul-append (persist_string_ptr (some s)) r (HasNoNul-persist_string_ptr s h) g
  HasNoNul-shown fmt d null r h g = elim h [ ]
  HasNoNul-shown fmt d false_value r h g = elim h [ ]
  HasNoNul-shown fmt d true_value r h g = elim h [ ]
  HasNoNul-shown fmt d (float x) r h g = elim h [ ]
  HasNoNul-shown fmt d (object nil) r h g = elim h [ ]
  HasNoNul-shown fmt d (array nil) r h g = (omega arith, (omega arith, g))
  HasNoNul-shown fmt d (array (member k v m)) r h g =
      (omega arith, HasNoNul-shown_items fmt (d + 1) (member k v m) (b']' ∷ r) h (omega arith, g))
  HasNoNul-shown fmt d (object (member k v m)) r h g =
      let close =
        HasNoNul-gap fmt (replicate d 9) (b'}' ∷ r) (HasNoNul-replicate d) (omega arith, g) in
      (
        omega arith,
        HasNoNul-gap fmt (10 ∷ []) _ (omega arith) (
            HasNoNul-shown_fields fmt (d + 1) (member k v m) (gap fmt (replicate d 9) (b'}' ∷ r)) h
              close),
      )

  HasNoNul-shown_items :
      {F : Type 0} (fmt : Bool) (d : ℕ) (m : Members F) (r : Str)
      → AreItems m
      → HasNoNul r
      → HasNoNul (shown_items fmt d m r)
  HasNoNul-shown_items fmt d nil r h g = g
  HasNoNul-shown_items fmt d (member (some k) v m) r h g = elim h [ ]
  HasNoNul-shown_items fmt d (member none v m) r h g =
      let rest = shown_items fmt d m r in
      let bs = fmt_bytes fmt (32 ∷ []) in
      HasNoNul-shown fmt d v (comma bs m rest) h.0 (
        HasNoNul-comma bs m rest (HasNoNul-fmt_bytes fmt (32 ∷ []) (omega arith))
          (HasNoNul-shown_items fmt d m r h.1 g))

  HasNoNul-shown_fields :
      {F : Type 0} (fmt : Bool) (d : ℕ) (m : Members F) (r : Str)
      → AreFields m
      → HasNoNul r
      → HasNoNul (shown_fields fmt d m r)
  HasNoNul-shown_fields fmt d nil r h g = g
  HasNoNul-shown_fields fmt d (member none v m) r h g = elim h [ ]
  HasNoNul-shown_fields fmt d (member (some k) v m) r h g =
      let more = gap fmt (10 ∷ []) (shown_fields fmt d m r) in
      let value = HasNoNul-shown fmt d v (comma [] m more) h.1 (
        HasNoNul-comma [] m more tt
          (HasNoNul-gap fmt (10 ∷ []) _ (omega arith) (HasNoNul-shown_fields fmt d m r h.2 g))) in
      HasNoNul-gap fmt (replicate d 9) _ (HasNoNul-replicate d) (
        HasNoNul-append (persist_string_ptr (some k)) _ (HasNoNul-persist_string_ptr k h.0)
          (omega arith, HasNoNul-gap fmt (9 ∷ []) _ (omega arith) value))

-- The calls that reading a value nests.
abbrev mutual
  pub need : {F : Type 0} → Json F → ℕ
  need null = 1
  need false_value = 1
  need true_value = 1
  need (float x) = 1
  need (integer z) = 1
  need (string s) = 1
  need (object m) = 2 + needs m
  need (array m) = 2 + needs m

  pub needs : {F : Type 0} → Members F → ℕ
  needs nil = 0
  needs (member k v m) = 1 + need v + needs m

length-gap : (fmt : Bool) (bs r : Str) → length r ≤ length (gap fmt bs r)
length-gap true bs r = omega (arith, length-append bs r)
length-gap false bs r = omega arith

length-starts : (s : Str) → starts_number s ≡ true → 0 < length s
length-starts [] h = cc
length-starts (c ∷ s) h = omega arith

length-print_long : (z : ℤ) → IsSmall z → 0 < length (print_long z)
length-print_long z h =
    let s = print_long z in
    length-starts s (ap starts_number (sym (append-nil s)) ∙ starts_number-print_long z [] h)

length-persist_string_ptr : (s : Option Str) → 0 < length (persist_string_ptr s)
unfolding persist_string_ptr
length-persist_string_ptr none = omega arith
length-persist_string_ptr (some s) = omega arith

length-comma : {F : Type 0} (m : Members F) (r : Str) → length r ≤ length (comma [] m r)
length-comma nil r = omega arith
length-comma (member k v m) r = omega arith

mutual
  pub need-shown :
      {F : Type 0} (fmt : Bool) (d : ℕ) (v : Json F) (r : Str)
      → IsStorable v
      → need v + 3 * length r ≤ 3 * length (shown fmt d v r)
  need-shown fmt d (integer z) r h =
      omega (arith, length-append (print_long z) r, length-print_long z h)
  need-shown fmt d (string s) r h =
      let text = persist_string_ptr (some s) in
      omega (arith, length-append text r, length-persist_string_ptr (some s))
  need-shown fmt d null r h = elim h [ ]
  need-shown fmt d false_value r h = elim h [ ]
  need-shown fmt d true_value r h = elim h [ ]
  need-shown fmt d (float x) r h = elim h [ ]
  need-shown fmt d (object nil) r h = elim h [ ]
  need-shown fmt d (array nil) r h = omega arith
  need-shown fmt d (array (member k v m)) r h =
      omega (arith, needs-shown_items fmt (d + 1) (member k v m) (b']' ∷ r) h)
  need-shown fmt d (object (member k v m)) r h =
      let close = gap fmt (replicate d 9) (b'}' ∷ r) in
      let fields = shown_fields fmt (d + 1) (member k v m) close in
      omega (
        arith,
        length-gap fmt (replicate d 9) (b'}' ∷ r),
        length-gap fmt (10 ∷ []) fields,
        needs-shown_fields fmt (d + 1) (member k v m) close h,
      )

  needs-shown_items :
      {F : Type 0} (fmt : Bool) (d : ℕ) (m : Members F) (r : Str)
      → AreItems m
      → needs m + 3 * length r ≤ 3 * length (shown_items fmt d m r) + 1
  needs-shown_items fmt d nil r h = omega arith
  needs-shown_items fmt d (member (some k) v m) r h = elim h [ ]
  needs-shown_items fmt d (member none v nil) r h = omega (arith, need-shown fmt d v r h.0)
  needs-shown_items fmt d (member none v (member k w m)) r h =
      let rest = shown_items fmt d (member k w m) r in
      omega (
        arith,
        length-gap fmt (32 ∷ []) rest,
        need-shown fmt d v (b',' ∷ gap fmt (32 ∷ []) rest) h.0,
        needs-shown_items fmt d (member k w m) r h.1,
      )

  needs-shown_fields :
      {F : Type 0} (fmt : Bool) (d : ℕ) (m : Members F) (r : Str)
      → AreFields m
      → needs m + 3 * length r ≤ 3 * length (shown_fields fmt d m r) + 1
  needs-shown_fields fmt d nil r h = omega arith
  needs-shown_fields fmt d (member none v m) r h = elim h [ ]
  needs-shown_fields fmt d (member (some k) v m) r h =
      let rest = shown_fields fmt d m r in
      let more = comma [] m (gap fmt (10 ∷ []) rest) in
      let value = b':' ∷ gap fmt (9 ∷ []) (shown fmt d v more) in
      let name = persist_string_ptr (some k) in
      omega (
        arith,
        length-gap fmt (replicate d 9) (name ++ value),
        length-append name value,
        length-gap fmt (9 ∷ []) (shown fmt d v more),
        need-shown fmt d v more h.1,
        length-comma m (gap fmt (10 ∷ []) rest),
        length-gap fmt (10 ∷ []) rest,
        needs-shown_fields fmt d m r h.2,
      )
