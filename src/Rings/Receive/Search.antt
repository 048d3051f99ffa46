-- ===== src/Rings/Receive/Search.antt =====
-- About `nm_recv` of nm_skb.c: where it looks for a packet, and that it stops looking.
use vsecplat.Common.{
  ℕ, zero, suc, ◌+◌, ◌-◌, ◌≤◌, ◌<◌, Bool, true, false, List, [], ◌∷◌, Option, none, some,
}
use vsecplat.Common.{
  ◌==◌, ltb, if◌then◌else◌, ◌≡◌, ◌≢◌, refl, sym, ◌∙◌, ap, subst, arith, length, get_elem?, set,
  drop, All,
}
use vsecplat.Common.{Bool-cases, inl, inr}
use vsecplat.Common.Run.{Returns}
use vsecplat.Rings.{Ring, RingOps, Dev, Desc}
use vsecplat.Rings.Send.Whole.{get_elem?-All, IsRing}
use vsecplat.Rings.Receive.{if_loop, get_next_if_idx, ring_loop, get_next_ring_idx}

-- The descriptor has `POLLIN`.
abbrev pub IsReady : List Bool → ℕ → Type 0
IsReady revents i = get_elem? revents i ≡ some true

abbrev pub ready_count : List Bool → ℕ
ready_count [] = 0
ready_count (b ∷ bs) = (if b then 1 else 0) + ready_count bs

pub ready_count-length : (bs : List Bool) → ready_count bs ≤ length bs
ready_count-length [] = omega arith
ready_count-length (true ∷ bs) = omega (arith, ready_count-length bs)
ready_count-length (false ∷ bs) = omega (arith, ready_count-length bs)

pub ready_count-set :
    (bs : List Bool) (i : ℕ) → IsReady bs i → ready_count (set bs i false) < ready_count bs
ready_count-set [] i h = cc
ready_count-set (true ∷ bs) zero h = omega arith
ready_count-set (false ∷ bs) zero h = cc
ready_count-set (true ∷ bs) (suc i) h = omega (arith, ready_count-set bs i h)
ready_count-set (false ∷ bs) (suc i) h = omega (arith, ready_count-set bs i h)

get_elem?-drop {ℓ} :
    {A : Type ℓ} (xs : List A) (n i : ℕ) → get_elem? (drop n xs) i ≡ get_elem? xs (n + i)
get_elem?-drop xs zero i = ap (get_elem? xs) (omega arith)
get_elem?-drop [] (suc n) i = refl
get_elem?-drop (x ∷ xs) (suc n) i =
    let e : suc n + i ≡ suc (n + i) = omega arith in rw e (get_elem?-drop xs n i)

-- The first descriptor that is ready, `i` places behind the front of the list.
abbrev First : List Bool → ℕ → Option ℕ → Type 0
First bs i none = (k : ℕ) → ¬ IsReady bs k
First bs i (some j) = (k : ℕ) × (j ≡ i + k) × IsReady bs k × ((l : ℕ) → l < k → ¬ IsReady bs l)

none-IsReady : (bs : List Bool) → ((k : ℕ) → ¬ IsReady bs k) → (k : ℕ) → ¬ IsReady (false ∷ bs) k
none-IsReady bs h zero r = cc
none-IsReady bs h (suc k) r = h k r

none_earlier :
    (bs : List Bool) (k : ℕ)
    → ((l : ℕ) → l < k → ¬ IsReady bs l)
    → (l : ℕ) → l < suc k
    → ¬ IsReady (false ∷ bs) l
none_earlier bs k before zero low r = cc
none_earlier bs k before (suc l) low r = before l (omega arith) r

First-suc : (bs : List Bool) (i : ℕ) (o : Option ℕ) → First bs (suc i) o → First (false ∷ bs) i o
First-suc bs i none h = none-IsReady bs h
First-suc bs i (some j) (k, same, r, before) = (suc k, omega arith, r, none_earlier bs k before)

if_loop-First : (bs : List Bool) (i : ℕ) → First bs i (if_loop bs i)
unfolding if_loop
if_loop-First [] i = λ k r. cc
if_loop-First (true ∷ bs) i = (0, omega arith, refl, λ l low r. absurd (omega arith))
if_loop-First (false ∷ bs) i = First-suc bs i (if_loop bs (suc i)) (if_loop-First bs (suc i))

-- The first descriptor from `start` on that is ready.
abbrev pub Next : List Bool → ℕ → Option ℕ → Type 0
Next bs start none = (k : ℕ) → start ≤ k → ¬ IsReady bs k
Next bs start (some i) = (start ≤ i) × IsReady bs i × ((k : ℕ) → start ≤ k → k < i → ¬ IsReady bs k)

pub get_next_if_idx-Next :
    (bs : List Bool) (start : ℕ) → start ≤ length bs → Next bs start (get_next_if_idx bs start)
unfolding get_next_if_idx
get_next_if_idx-Next bs start h =
    let inside : ltb (length bs) start ≡ false = ground arith in
    rw inside (from_start (if_loop (drop start bs) start) (if_loop-First (drop start bs) start))
  where
    at : (k : ℕ) → start ≤ k → IsReady bs k → IsReady (drop start bs) (k - start)
    at k low r = get_elem?-drop bs start (k - start) ∙ ap (get_elem? bs) (omega arith) ∙ r

    from_start : (o : Option ℕ) → First (drop start bs) start o → Next bs start o
    from_start none h = λ k low r. h (k - start) (at k low r)
    from_start (some j) (k, same, r, before) = (
      omega arith,
      ap (get_elem? bs) same ∙ sym (get_elem?-drop bs start k) ∙ r,
      λ l low below q. before (l - start) (omega arith) (at l low q),
    )

module _ (ops : RingOps) where
  -- A ring that was found is there and has packets.
  abbrev pub HasPacket : List Ring → ℕ → Type 0
  HasPacket rings j = (ring : Ring) × (get_elem? rings j ≡ some ring) × (ops.ring_space ring ≢ 0)

  abbrev pub IsEmpty : List Ring → ℕ → Type 0
  IsEmpty rings j = (ring : Ring) → get_elem? rings j ≡ some ring → ops.ring_space ring ≡ 0

  -- The first of the rings from `idx` to `last` that has packets, or none of them has.
  abbrev pub FirstRing : List Ring → ℕ → ℕ → Option ℕ → Type 0
  FirstRing rings idx last none = (k : ℕ) → idx ≤ k → k ≤ last → IsEmpty rings k
  FirstRing rings idx last (some j) =
      HasPacket rings j × (idx ≤ j) × (j ≤ last) × ((k : ℕ) → idx ≤ k → k < j → IsEmpty rings k)

  -- An empty ring in front of those that are looked at.
  FirstRing-step :
      (rings : List Ring) (idx last : ℕ) (ring : Ring) (o : Option ℕ)
      → get_elem? rings idx ≡ some ring
      → ops.ring_space ring ≡ 0
      → FirstRing rings (suc idx) last o
      → FirstRing rings idx last o
  FirstRing-step rings idx last ring o at_idx empty h = by_result o h
    where
      here : (k : ℕ) → idx ≡ k → IsEmpty rings k
      here k same other at_k =
          let same_ring : ring ≡ other =
            let at_idx' : get_elem? rings idx ≡ some other = rw same at_k in cc in
          subst (λ r. ops.ring_space r ≡ 0) same_ring empty

      by_result : (o : Option ℕ) → FirstRing rings (suc idx) last o → FirstRing rings idx last o
      by_result none h = λ k low high. elim (Bool-cases (idx == k)) [
        | inl same ↦ here k (ground (arith, same))
        | inr other ↦ h k (ground (arith, other)) high
      ]
      by_result (some j) (has, low, high, before) = (
        has,
        omega arith,
        high,
        λ k from below. elim (Bool-cases (idx == k)) [
          | inl same ↦ here k (ground (arith, same))
          | inr other ↦ before k (ground (arith, other)) below
        ],
      )

  ring_loop-Returns :
      (rings : List Ring) (n idx last : ℕ)
      → All IsRing rings
      → last < length rings
      → n ≡ last + 1 - idx
      → Returns (ring_loop ops rings n idx) (FirstRing rings idx last)
  unfolding ring_loop
  ring_loop-Returns rings zero idx last h below count =
      (none, refl, λ k low high. absurd (omega arith))
  ring_loop-Returns rings (suc n) idx last h below count =
      let (ring, at_idx, inside) = get_elem?-All IsRing rings idx h (omega arith) in
      elim (Bool-cases (ops.ring_space ring == 0)) [
        | inl empty ↦
            let rest = ring_loop-Returns rings n (suc idx) last h below (omega arith) in
            (
              rest.0,
              rw at_idx (rw empty rest.1),
              FirstRing-step rings idx last ring rest.0 at_idx (ground (arith, empty)) rest.2,
            )
        | inr some_packets ↦ (
          some idx,
          rw at_idx (rw some_packets refl),
          (
            (ring, at_idx, λ z. ground (arith, some_packets, z)),
            omega arith,
            omega arith,
            λ k low high. absurd (omega arith),
          ),
        )
      ]

  -- The receiving rings that a device names are there, and point at one of their slots.
  abbrev pub IsRxSound : Dev → Type 0
  IsRxSound dev = (dev.last_rx_ring < length dev.rx_rings) × All IsRing dev.rx_rings

  -- The ring that a search of the device starts from: its first one, or the one of the last packet.
  abbrev pub start_ring : Dev → ℕ → ℕ
  start_ring dev start = if start == 0 then dev.first_rx_ring else start

  abbrev pub Found : Dev → ℕ → Option ℕ → Type 0
  Found dev start = FirstRing dev.rx_rings (start_ring dev start) dev.last_rx_ring

  pub get_next_ring_idx-Returns :
      (dev : Dev) (start : ℕ)
      → IsRxSound dev
      → Returns (get_next_ring_idx ops dev start) (Found dev start)
  unfolding get_next_ring_idx
  get_next_ring_idx-Returns dev start h =
      ring_loop-Returns dev.rx_rings (dev.last_rx_ring + 1 - start_ring dev start)
        (start_ring dev start) dev.last_rx_ring h.1 h.0 refl

  pub record IsSound (d : Desc) : Type 0 where
    pub rx_sound : All IsRxSound d.devs
    pub each_dev : length d.devs ≡ length d.revents
    pub in_range : d.rx_if_idx ≤ length d.revents
