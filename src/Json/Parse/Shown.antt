-- ===== src/Json/Parse/Shown.antt =====
-- The text that `rte_persist_json` of rte_json.c writes for a value, in front of what follows it.
pub mod Size
use vsecplat.Common.{ℕ, zero, suc, ◌+◌, ◌*◌, ◌≤◌, ◌<◌, Bool, true, false, List, [], ◌∷◌, ◌++◌}
use vsecplat.Common.{
  Option, none, some, All, ◌≡◌, ◌≢◌, refl, sym, ◌∙◌, ap, arith, length, replicate, if◌then◌else◌,
}
use vsecplat.Common.{append_assoc, append-nil, length-append}
use vsecplat.Common.Run.{Run, ok, fault, ◌>>=◌, Returns}
use vsecplat.Policy.Text.{Str}
use vsecplat.Json.{
  Json, Members, null, false_value, true_value, integer, float, string, object, array, nil, member,
}
use vsecplat.Json.Persist.{
  print_long, persist_string_ptr, fmt_bytes, ends, persist_inner, persist_items, persist_fields,
}
use vsecplat.Json.Parse.Text.Written.{IsBytes}
use vsecplat.Json.Parse.Number.Written.{IsSmall}

-- The values that survive being written: integers that a `float` holds, strings of bytes other than
-- NUL, arrays whose items have no name, objects with a field, all of whose fields have one.
abbrev mutual
  pub IsStorable : {F : Type 0} → Json F → Type 0
  IsStorable null = ⊥
  IsStorable false_value = ⊥
  IsStorable true_value = ⊥
  IsStorable (float x) = ⊥
  IsStorable (integer z) = IsSmall z
  IsStorable (string s) = IsBytes s
  IsStorable (object nil) = ⊥
  IsStorable (object (member k v m)) = AreFields (member k v m)
  IsStorable (array m) = AreItems m

  pub AreItems : {F : Type 0} → Members F → Type 0
  AreItems nil = Unit
  AreItems (member none v m) = IsStorable v × AreItems m
  AreItems (member (some k) v m) = ⊥

  pub AreFields : {F : Type 0} → Members F → Type 0
  AreFields nil = Unit
  AreFields (member none v m) = ⊥
  AreFields (member (some k) v m) = IsBytes k × IsStorable v × AreFields m

-- White space where the text is formatted.
abbrev pub gap : Bool → List ℕ → Str → Str
gap fmt bs r = fmt_bytes fmt bs ++ r

abbrev pub comma : {F : Type 0} → List ℕ → Members F → Str → Str
comma bs nil r = r
comma bs (member k v m) r = b',' ∷ bs ++ r

abbrev mutual
  pub shown : {F : Type 0} → Bool → ℕ → Json F → Str → Str
  shown fmt d null r = r
  shown fmt d false_value r = r
  shown fmt d true_value r = r
  shown fmt d (float x) r = r
  shown fmt d (integer z) r = print_long z ++ r
  shown fmt d (string s) r = persist_string_ptr (some s) ++ r
  shown fmt d (object nil) r = r
  shown fmt d (object (member k v m)) r =
      b'{'
      ∷ gap fmt (10 ∷ [])
          (shown_fields fmt (d + 1) (member k v m) (gap fmt (replicate d 9) (b'}' ∷ r)))
  shown fmt d (array nil) r = b'[' ∷ b']' ∷ r
  shown fmt d (array (member k v m)) r = b'[' ∷ shown_items fmt (d + 1) (member k v m) (b']' ∷ r)

  pub shown_items : {F : Type 0} → Bool → ℕ → Members F → Str → Str
  shown_items fmt d nil r = r
  shown_items fmt d (member k v m) r =
      shown fmt d v (comma (fmt_bytes fmt (32 ∷ [])) m (shown_items fmt d m r))

  pub shown_fields : {F : Type 0} → Bool → ℕ → Members F → Str → Str
  shown_fields fmt d nil r = r
  shown_fields fmt d (member k v m) r = gap fmt (replicate d 9) (
      persist_string_ptr k
      ++ b':'
        ∷ gap fmt (9 ∷ [])
            (shown fmt d v (comma [] m (gap fmt (10 ∷ []) (shown_fields fmt d m r)))))

-- The bytes written stand in front of what follows them.
abbrev pub Shows : (Str → Str) → Run (List ℕ) → Type 0
Shows text m = Returns m (λ bs. (r : Str) → bs ++ r ≡ text r)

Shows-bind :
    (text whole : Str → Str) (m : Run (List ℕ)) (next : List ℕ → Run (List ℕ))
    → Shows text m
    → ((bs : List ℕ) → ((r : Str) → bs ++ r ≡ text r) → Shows whole (next bs))
    → Shows whole (m >>= next)
Shows-bind text whole m next h go = rw h.1 (go h.0 h.2)

comma-append :
    {F : Type 0} (show_float : F → Str) (bs : List ℕ) (m : Members F) (r : Str)
    → (if ends show_float m then [] else (b',' ∷ bs)) ++ r ≡ comma bs m r
comma-append show_float bs nil r = refl
comma-append show_float bs (member k v m) r = refl

regroup :
    (g p c b s n rest r : Str)
    → (g ++ (p ++ (c ++ (b ++ (s ++ (n ++ rest)))))) ++ r
      ≡ g ++ (p ++ (c ++ (b ++ (s ++ (n ++ (rest ++ r))))))
regroup g p c b s n rest r = simp append_assoc

module _ {F : Type 0} (show_float : F → Str) where
  mutual
    unfolding persist_inner

    pub persist_inner-Shows :
        (fmt : Bool) (d : ℕ) (v : Json F)
        → IsStorable v
        → Shows (shown fmt d v) (persist_inner show_float fmt d v)
    persist_inner-Shows fmt d (integer z) h = (_, refl, λ r. refl)
    persist_inner-Shows fmt d (string s) h = (_, refl, λ r. refl)
    persist_inner-Shows fmt d null h = elim h [ ]
    persist_inner-Shows fmt d false_value h = elim h [ ]
    persist_inner-Shows fmt d true_value h = elim h [ ]
    persist_inner-Shows fmt d (float x) h = elim h [ ]
    persist_inner-Shows fmt d (object nil) h = elim h [ ]
    persist_inner-Shows fmt d (array nil) h = (_, refl, λ r. refl)
    persist_inner-Shows fmt d (array (member k v m)) h =
        Shows-bind (shown_items fmt (d + 1) (member k v m)) (shown fmt d (array (member k v m)))
          (persist_items show_float fmt (d + 1) (member k v m)) _
          (persist_items-Shows fmt (d + 1) (member k v m) h)
          (λ bs text. (_, refl, λ r. rw (append_assoc, text)))
    persist_inner-Shows fmt d (object (member k v m)) h =
        Shows-bind (shown_fields fmt (d + 1) (member k v m)) (shown fmt d (object (member k v m)))
          (persist_fields show_float fmt (d + 1) (member k v m)) _
          (persist_fields-Shows fmt (d + 1) (member k v m) h)
          (λ bs text. (_, refl, λ r. simp append_assoc (rw text refl)))

    persist_items-Shows :
        (fmt : Bool) (d : ℕ) (m : Members F)
        → AreItems m
        → Shows (shown_items fmt d m) (persist_items show_float fmt d m)
    persist_items-Shows fmt d nil h = (_, refl, λ r. refl)
    persist_items-Shows fmt d (member none v m) h =
        Shows-bind (shown fmt d v) (shown_items fmt d (member none v m))
          (persist_inner show_float fmt d v) _ (persist_inner-Shows fmt d v h.0)
          (λ bs first.
            Shows-bind (shown_items fmt d m) (shown_items fmt d (member none v m))
              (persist_items show_float fmt d m) _ (persist_items-Shows fmt d m h.1)
              (λ rest more. (
                _,
                refl,
                λ r.
                    simp append_assoc
                      (rw (more, comma-append show_float (fmt_bytes fmt (32 ∷ [])) m, first) refl),
              )))
    persist_items-Shows fmt d (member (some k) v m) h = elim h [ ]

    persist_fields-Shows :
        (fmt : Bool) (d : ℕ) (m : Members F)
        → AreFields m
        → Shows (shown_fields fmt d m) (persist_fields show_float fmt d m)
    persist_fields-Shows fmt d nil h = (_, refl, λ r. refl)
    persist_fields-Shows fmt d (member none v m) h = elim h [ ]
    persist_fields-Shows fmt d (member (some k) v m) h =
        Shows-bind (shown fmt d v) (shown_fields fmt d (member (some k) v m))
          (persist_inner show_float fmt d v) _ (persist_inner-Shows fmt d v h.1)
          (λ bs first.
            Shows-bind (shown_fields fmt d m) (shown_fields fmt d (member (some k) v m))
              (persist_fields show_float fmt d m) _ (persist_fields-Shows fmt d m h.2)
              (λ rest more. (
                _,
                refl,
                λ r.
                    regroup (fmt_bytes fmt (replicate d 9)) (persist_string_ptr (some k))
                      (b':' ∷ fmt_bytes fmt (9 ∷ [])) bs
                      (if ends show_float m then [] else (b',' ∷ [])) (fmt_bytes fmt (10 ∷ [])) rest
                      r
                    ∙ rw (more r, comma-append show_float [] m, first) refl,
              )))

-- Without format the depth does not show.
mutual
  pub shown-depth :
      {F : Type 0} (d e : ℕ) (v : Json F) (r : Str) → shown false d v r ≡ shown false e v r
  shown-depth d e null r = refl
  shown-depth d e false_value r = refl
  shown-depth d e true_value r = refl
  shown-depth d e (float x) r = refl
  shown-depth d e (integer z) r = refl
  shown-depth d e (string s) r = refl
  shown-depth d e (object nil) r = refl
  shown-depth d e (object (member k v m)) r =
      ap (λ s. b'{' ∷ s) (fields-depth (d + 1) (e + 1) (member k v m) (b'}' ∷ r))
  shown-depth d e (array nil) r = refl
  shown-depth d e (array (member k v m)) r =
      ap (λ s. b'[' ∷ s) (items-depth (d + 1) (e + 1) (member k v m) (b']' ∷ r))

  items-depth :
      {F : Type 0} (d e : ℕ) (m : Members F) (r : Str)
      → shown_items false d m r ≡ shown_items false e m r
  items-depth d e nil r = refl
  items-depth d e (member k v m) r =
      shown-depth d e v (comma [] m (shown_items false d m r))
      ∙ ap (λ s. shown false e v (comma [] m s)) (items-depth d e m r)

  fields-depth :
      {F : Type 0} (d e : ℕ) (m : Members F) (r : Str)
      → shown_fields false d m r ≡ shown_fields false e m r
  fields-depth d e nil r = refl
  fields-depth d e (member k v m) r =
      ap (λ s. persist_string_ptr k ++ b':' ∷ s)
        (shown-depth d e v (comma [] m (shown_fields false d m r))
          ∙ ap (λ s. shown false e v (comma [] m s)) (fields-depth d e m r))

-- The text of a value, in front of what follows it.
pub shown-append :
    {F : Type 0} (show_float : F → Str) (d : ℕ) (v : Json F) (r : Str)
    → IsStorable v
    → shown false d v [] ++ r ≡ shown false d v r
shown-append show_float d v r h =
    let shows = persist_inner-Shows show_float false d v h in
    ap (λ s. s ++ r) (sym (shows.2 []) ∙ append-nil shows.0) ∙ shows.2 r
