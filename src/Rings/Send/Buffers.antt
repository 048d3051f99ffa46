-- ===== src/Rings/Send/Buffers.antt =====
-- About the buffers behind the slots, which `nm_send` of nm_skb.c swaps.
use vsecplat.Common.{ℕ, zero, suc, ◌+◌, Bool, true, false, List, [], ◌∷◌, Option, none, some}
use vsecplat.Common.{
  subst, Bool-cases, inl, inr, not, ◌==◌, if◌then◌else◌, ◌≡◌, refl, ◌∙◌, ap, arith, get_elem?, set,
}
use vsecplat.Common.Run.{ok, ◌>>=◌, Returns}
use vsecplat.Rings.{Slot, Ring, Dev}
use vsecplat.Rings.Receive.{must}
use vsecplat.Rings.Send.{rings_of, with_rings, ring_at, change_ring}

-- The sum over a list, and what a write changes in it.
abbrev pub sum_by {ℓ} : {A : Type ℓ} → (A → ℕ) → List A → ℕ
sum_by f [] = 0
sum_by f (x ∷ xs) = f x + sum_by f xs

pub sum_by-set {ℓ} :
    {A : Type ℓ} (f : A → ℕ) (xs : List A) (i : ℕ) (x y : A)
    → get_elem? xs i ≡ some x
    → sum_by f (set xs i y) + f x ≡ sum_by f xs + f y
sum_by-set f [] i x y h = cc
sum_by-set f (z ∷ xs) zero x y h = let same : z ≡ x = cc in omega (arith, ap f same)
sum_by-set f (z ∷ xs) (suc i) x y h = omega (arith, sum_by-set f xs i x y h)

-- How many slots hold the buffer.
abbrev pub slot_holds : ℕ → Slot → ℕ
slot_holds b slot = if slot.buf_idx == b then 1 else 0

abbrev pub ring_holds : ℕ → Ring → ℕ
ring_holds b ring = sum_by (slot_holds b) ring.slots

abbrev pub dev_holds : ℕ → Dev → ℕ
dev_holds b dev = sum_by (ring_holds b) dev.rx_rings + sum_by (ring_holds b) dev.tx_rings

unfoldable pub holds : ℕ → List Dev → ℕ
holds b devs = sum_by (dev_holds b) devs

must-some {ℓ} : {A : Type ℓ} (o : Option A) (a : A) → must o ≡ ok a → o ≡ some a
must-some none a h = cc
must-some (some b) a h = cc

pub get_elem?-set {ℓ} :
    {A : Type ℓ} (xs : List A) (i j : ℕ) (x y : A)
    → get_elem? xs i ≡ some x
    → get_elem? (set xs i y) j ≡ (if i == j then some y else get_elem? xs j)
get_elem?-set [] i j x y h = cc
get_elem?-set (z ∷ xs) zero zero x y h = ground arith
get_elem?-set (z ∷ xs) zero (suc j) x y h = ground arith
get_elem?-set (z ∷ xs) (suc i) zero x y h = ground arith
get_elem?-set (z ∷ xs) (suc i) (suc j) x y h = ground (arith, get_elem?-set xs i j x y h)

-- The device that a ring stands in.
ring_at_dev :
    (rx : Bool) (i j : ℕ) (ring : Ring) (devs : List Dev)
    → ring_at rx i j devs ≡ ok ring
    → (dev : Dev) × (get_elem? devs i ≡ some dev) × (get_elem? (rings_of rx dev) j ≡ some ring)
unfolding ring_at
ring_at_dev rx i j ring devs h = of_dev (get_elem? devs i) h
  where
    of_dev :
        (o : Option Dev)
        → (must o >>= λ dev. must (get_elem? (rings_of rx dev) j)) ≡ ok ring
        → (dev : Dev) × (o ≡ some dev) × (get_elem? (rings_of rx dev) j ≡ some ring)
    of_dev none h = cc
    of_dev (some dev) h = (dev, refl, must-some _ ring h)

rings_of-with_rings :
    (rx other : Bool) (rings : List Ring) (dev : Dev)
    → rings_of rx (with_rings other rings dev) ≡ (
        if rx
        then (if other then rings else dev.rx_rings)
        else (if other then dev.tx_rings else rings))
unfolding rings_of with_rings
rings_of-with_rings true true rings dev = refl
rings_of-with_rings true false rings dev = refl
rings_of-with_rings false true rings dev = refl
rings_of-with_rings false false rings dev = refl

with_rings-holds :
    (b : ℕ) (rx : Bool) (j : ℕ) (old new : Ring) (dev : Dev)
    → get_elem? (rings_of rx dev) j ≡ some old
    → dev_holds b (with_rings rx (set (rings_of rx dev) j new) dev) + ring_holds b old
      ≡ dev_holds b dev + ring_holds b new
unfolding rings_of with_rings
with_rings-holds b true j old new dev h =
    omega (arith, sum_by-set (ring_holds b) dev.rx_rings j old new h)
with_rings-holds b false j old new dev h =
    omega (arith, sum_by-set (ring_holds b) dev.tx_rings j old new h)

-- A change of a ring that is there: its buffers, the ring itself, and the rings on the other side.
pub record Changed (rx : Bool) (i j : ℕ) (old new : Ring) (devs devs' : List Dev) : Type 0 where
  pub buffers : (b : ℕ) → holds b devs' + ring_holds b old ≡ holds b devs + ring_holds b new
  pub same_ring : ring_at rx i j devs' ≡ ok new
  pub other_side :
      (k l : ℕ) (ring : Ring)
      → ring_at (not rx) k l devs ≡ ok ring
      → ring_at (not rx) k l devs' ≡ ok ring

-- The rings of one side stay where a device keeps its rings of that side.
ring_at-set :
    (rx : Bool) (i k l : ℕ) (dev dev' : Dev) (devs : List Dev)
    → get_elem? devs i ≡ some dev
    → rings_of rx dev' ≡ rings_of rx dev
    → ring_at rx k l (set devs i dev') ≡ ring_at rx k l devs
unfolding ring_at
ring_at-set rx i k l dev dev' devs at_i same = elim (Bool-cases (i == k)) [
  | inl here ↦
      let e : i ≡ k = ground (arith, here) in
      let at_k : get_elem? devs k ≡ some dev = subst (λ n. get_elem? devs n ≡ some dev) e at_i in
      rw (get_elem?-set devs i k dev dev' at_i) (rw (here, at_k) (rw same refl))
  | inr there ↦ rw (get_elem?-set devs i k dev dev' at_i) (rw there refl)
]

ring_at_new :
    (rx : Bool) (i j : ℕ) (dev : Dev) (old new : Ring) (devs : List Dev)
    → get_elem? devs i ≡ some dev
    → get_elem? (rings_of rx dev) j ≡ some old
    → ring_at rx i j (set devs i (with_rings rx (set (rings_of rx dev) j new) dev)) ≡ ok new
unfolding ring_at
ring_at_new rx i j dev old new devs at_i at_j =
    let dev' = with_rings rx (set (rings_of rx dev) j new) dev in
    let same : (i == i) ≡ true = ground arith in
    let same' : (j == j) ≡ true = ground arith in
    let back : rings_of rx dev' ≡ set (rings_of rx dev) j new = rings_back rx _ dev in
    rw (get_elem?-set devs i i dev dev' at_i)
      (rw same (rw back (rw (get_elem?-set (rings_of rx dev) j j old new at_j) (rw same' refl))))
  where
    rings_back :
        (rx : Bool) (rings : List Ring) (dev : Dev) → rings_of rx (with_rings rx rings dev) ≡ rings
    rings_back true rings dev = rings_of-with_rings true true rings dev
    rings_back false rings dev = rings_of-with_rings false false rings dev

other_rings :
    (rx : Bool) (rings : List Ring) (dev : Dev)
    → rings_of (not rx) (with_rings rx rings dev) ≡ rings_of (not rx) dev
unfolding rings_of with_rings
other_rings true rings dev = refl
other_rings false rings dev = refl

set-Changed :
    (rx : Bool) (i j : ℕ) (dev : Dev) (old new : Ring) (devs : List Dev)
    → get_elem? devs i ≡ some dev
    → get_elem? (rings_of rx dev) j ≡ some old
    → Changed rx i j old new devs (set devs i (with_rings rx (set (rings_of rx dev) j new) dev))
set-Changed rx i j dev old new devs at_i at_j =
    let dev' = with_rings rx (set (rings_of rx dev) j new) dev in
    record {
      buffers = λ b.
          unfold holds in
          omega (
            arith,
            sum_by-set (dev_holds b) devs i dev dev' at_i,
            with_rings-holds b rx j old new dev at_j,
          );
      same_ring = ring_at_new rx i j dev old new devs at_i at_j;
      other_side =
          λ k l ring h. ring_at-set (not rx) i k l dev dev' devs at_i (other_rings rx _ dev) ∙ h;
    }

pub change_ring-Changed :
    (rx : Bool) (i j : ℕ) (f : Ring → Ring) (ring : Ring) (devs : List Dev)
    → ring_at rx i j devs ≡ ok ring
    → Returns (change_ring rx i j f devs) (Changed rx i j ring (f ring) devs)
unfolding change_ring
change_ring-Changed rx i j f ring devs h =
    let (dev, at_i, at_j) = ring_at_dev rx i j ring devs h in
    (_, rw at_i (rw at_j refl), set-Changed rx i j dev ring (f ring) devs at_i at_j)
