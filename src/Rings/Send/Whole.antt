-- ===== src/Rings/Send/Whole.antt =====
-- About `nm_send` of nm_skb.c: what becomes of the buffers of the card.
use vsecplat.Common.{ℕ, zero, suc, ◌+◌, ◌≤◌, ◌<◌, true, false, List, [], ◌∷◌, Option, none, some}
use vsecplat.Common.{
  ◌==◌, ◌≡◌, ◌≢◌, refl, subst, ◌∙◌, ap, arith, length, get_elem?, ℤ, pos, negsuc, All, Bool-cases,
  inl, inr,
}
use vsecplat.Common.Run.{ok, ◌>>=◌, Returns}
use vsecplat.Rings.{Slot, Ring, RingOps, Dev, Parcel, Desc, BufType, netmap_buf, memory_buf}
use vsecplat.Rings.Receive.{must}
use vsecplat.Rings.Send.{
  nm_tx_skb_push, ring_at, put_slot, advance, swap_slots, tx_loop, get_tx_ring, nm_send, send_buf,
}
use vsecplat.Rings.Send.Buffers.{change_ring-Changed, holds, slot_holds, sum_by-set}

-- An index inside a list, with what holds of the list's elements.
pub get_elem?-All {ℓ} :
    {A : Type ℓ} (P : A → Type 0) (xs : List A) (i : ℕ)
    → All P xs
    → i < length xs
    → (x : A) × (get_elem? xs i ≡ some x) × P x
get_elem?-All P [] i h below = absurd (omega arith)
get_elem?-All P (x ∷ xs) zero h below = (x, refl, h.0)
get_elem?-All P (x ∷ xs) (suc i) h below = get_elem?-All P xs i h.1 (omega arith)

pub All-units : (slots : List Slot) → All (λ s. Unit {0}) slots
All-units [] = tt
All-units (s ∷ slots) = (tt, All-units slots)

abbrev pub IsRing : Ring → Type 0
IsRing ring = ring.cur < length ring.slots

pub ring_inside :
    (rings : List Ring) (j : ℕ) (ring : Ring)
    → All IsRing rings
    → get_elem? rings j ≡ some ring
    → ring.cur < length ring.slots
ring_inside [] j ring h e = cc
ring_inside (r ∷ rings) zero ring h e = let same : r ≡ ring = cc in subst IsRing same h.0
ring_inside (r ∷ rings) (suc j) ring h e = ring_inside rings j ring h.1 e

-- The sending rings that a device names are there, and point at one of their slots.
abbrev pub IsTxSound : Dev → Type 0
IsTxSound dev =
    (dev.last_tx_ring < length dev.tx_rings)
    × (dev.first_tx_ring ≤ dev.last_tx_ring)
    × All IsRing dev.tx_rings

-- The slot that a packet came in is there.
pub record IsThere (skb : Parcel) (devs : List Dev) : Type 0 where
  pub rx_ring : Ring
  pub rx_slot : Slot
  pub ring_there : ring_at true skb.i_dev skb.rx_ring_idx devs ≡ ok rx_ring
  pub slot_there : get_elem? rx_ring.slots skb.rx_slot_idx ≡ some rx_slot

module _ (ops : RingOps) (txsync : ℕ → List Dev → List Dev) where
  swap_slots-holds :
      (skb : Parcel) (o j : ℕ) (devs : List Dev) (tx_ring : Ring) (tx_slot : Slot)
      → IsThere skb devs
      → ring_at false o j devs ≡ ok tx_ring
      → get_elem? tx_ring.slots tx_ring.cur ≡ some tx_slot
      → Returns
          (swap_slots ops txsync skb o j devs)
          (λ devs'. (b : ℕ) → holds b devs' ≡ holds b devs)
  unfolding swap_slots
  swap_slots-holds skb o j devs tx_ring tx_slot there at_j at_cur =
      let sent : Slot = record {
        buf_idx = there.rx_slot.buf_idx;
        len = there.rx_slot.len;
        changed = true;
      } in
      let freed : Slot = record {
        buf_idx = tx_slot.buf_idx;
        len = there.rx_slot.len;
        changed = true;
      } in
      let put = put_slot tx_ring.cur sent in
      let give = put_slot skb.rx_slot_idx freed in
      let (devs1, run1, c1) = change_ring-Changed false o j put tx_ring devs at_j in
      let there1 = c1.other_side skb.i_dev skb.rx_ring_idx there.rx_ring there.ring_there in
      let (devs2, run2, c2) =
        change_ring-Changed true skb.i_dev skb.rx_ring_idx give there.rx_ring devs1 there1 in
      let moved = c2.other_side o j (put tx_ring) c1.same_ring in
      let (devs3, run3, c3) =
        change_ring-Changed false o j (advance ops txsync) (put tx_ring) devs2 moved in
      (
        devs3,
        rw (there.ring_there, there.slot_there) (rw (at_j, at_cur) (rw run1 (rw run2 run3))),
        λ b. omega (
          arith,
          c1.buffers b,
          c2.buffers b,
          c3.buffers b,
          sum_by-set (slot_holds b) tx_ring.slots tx_ring.cur tx_slot sent at_cur,
          sum_by-set (slot_holds b) there.rx_ring.slots skb.rx_slot_idx there.rx_slot freed
              there.slot_there,
        ),
      )

  -- A ring that was found is there and has room.
  abbrev Found : List Ring → Option ℕ → Type 0
  Found rings none = Unit
  Found rings (some j) =
      (j < length rings) × ((ring : Ring) → get_elem? rings j ≡ some ring → ops.ring_space ring ≢ 0)

  tx_loop-Returns :
      (rings : List Ring) (n idx : ℕ)
      → All IsRing rings
      → idx + n ≤ length rings
      → Returns (tx_loop ops txsync rings n idx) (Found rings)
  unfolding tx_loop
  tx_loop-Returns rings zero idx h below = (none, refl, tt)
  tx_loop-Returns rings (suc n) idx h below =
      let (ring, at_idx, inside) = get_elem?-All IsRing rings idx h (omega arith) in
      elim (Bool-cases (ops.ring_space ring == 0)) [
        | inl full ↦
            let rest = tx_loop-Returns rings n (suc idx) h (omega arith) in
            (rest.0, rw at_idx (rw full rest.1), rest.2)
        | inr room ↦ (
          some idx,
          rw at_idx (rw room refl),
          (
            omega arith,
            λ other e.
                let same : ring ≡ other = cc in
                λ z. ground (arith, room, z, ap (λ r. ops.ring_space r) same),
          ),
        )
      ]

  get_tx_ring-Returns :
      (dev : Dev) → IsTxSound dev → Returns (get_tx_ring ops txsync dev) (Found dev.tx_rings)
  unfolding get_tx_ring
  get_tx_ring-Returns dev h =
      let last = h.0 in
      let first = h.1 in tx_loop-Returns dev.tx_rings _ dev.first_tx_ring h.2 (omega arith)

  -- Every buffer stands in as many slots as before.
  abbrev Whole : Desc → Desc × ℤ → Type 0
  Whole d (d', code) = (b : ℕ) → holds b d'.devs ≡ holds b d.devs

  pub ring_at_found :
      (o j : ℕ) (dev : Dev) (devs : List Dev) (ring : Ring)
      → get_elem? devs o ≡ some dev
      → get_elem? dev.tx_rings j ≡ some ring
      → ring_at false o j devs ≡ ok ring
  unfolding ring_at
  ring_at_found o j dev devs ring at_o at_j = rw at_o (rw at_j refl)

  send_buf-Whole :
      (kept : (o : ℕ) (devs : List Dev) (b : ℕ) → holds b (txsync o devs) ≡ holds b devs)
      (buf : BufType) (skb : Parcel) (o : ℕ) (d : Desc)
      → All IsTxSound d.devs
      → IsThere skb d.devs
      → o < length d.devs
      → Returns (send_buf ops txsync buf skb o d) (Whole d)
  unfolding send_buf nm_tx_skb_push
  send_buf-Whole kept memory_buf skb o d sound there below = (_, refl, λ b. kept o d.devs b)
  send_buf-Whole kept netmap_buf skb o d sound there below =
      let (dev, at_o, tx) = get_elem?-All IsTxSound d.devs o sound below in
      let (found, run, room) = get_tx_ring-Returns dev tx in send_found dev at_o tx found run room
    where
      send_found :
          (dev : Dev)
          → get_elem? d.devs o ≡ some dev
          → IsTxSound dev
          → (found : Option ℕ) → get_tx_ring ops txsync dev ≡ ok found
          → Found dev.tx_rings found
          → Returns
              (must (get_elem? d.devs o) >>= λ tx_dev. get_tx_ring ops txsync tx_dev >>= λ found.
                elim found [
                  | none ↦ ok (nm_tx_skb_push skb (record d { devs = txsync o d.devs }), pos 0)
                  | some j ↦ swap_slots ops txsync skb o j d.devs >>= λ devs.
                      ok (record d { devs = txsync o devs }, pos 0)
                ])
              (Whole d)
      send_found dev at_o tx none run room =
          let end : Desc × ℤ = (nm_tx_skb_push skb (record d { devs = txsync o d.devs }), pos 0) in
          (end, rw at_o (rw run refl), λ b. kept o d.devs b)
      send_found dev at_o tx (some j) run room =
          let (ring, at_j, inside) = get_elem?-All IsRing dev.tx_rings j tx.2 room.0 in
          let (slot, at_cur, u) =
            get_elem?-All (λ s. Unit {0}) ring.slots ring.cur (All-units ring.slots) inside in
          let (devs', swapped, same) =
            swap_slots-holds skb o j d.devs ring slot there
              (ring_at_found o j dev d.devs ring at_o at_j) at_cur in
          let end : Desc × ℤ = (record d { devs = txsync o devs' }, pos 0) in
          (end, rw at_o (rw run (rw swapped refl)), λ b. kept o devs' b ∙ same b)

  -- Sending a packet ends, and leaves every buffer of the card in as many slots as it was in, so that
  -- none is lost and none is shared: with a device to send to or none, from the card's memory or not,
  -- with room in a ring or none. The slot that the packet came in is there, the rings that devices name
  -- are there, and `NIOCTXSYNC` moves no buffers between slots.
  pub nm_send-Whole :
      (kept : (o : ℕ) (devs : List Dev) (b : ℕ) → holds b (txsync o devs) ≡ holds b devs)
      (skb : Parcel) (d : Desc)
      → All IsTxSound d.devs
      → IsThere skb d.devs
      → ((o : ℕ) → skb.o_dev ≡ some o → o < length d.devs)
      → Returns (nm_send ops txsync skb d) (Whole d)
  unfolding nm_send
  nm_send-Whole kept skb d sound there below =
      elim skb.o_dev
          as (λ x.
            skb.o_dev ≡ x
            → Returns
                (elim x [
                  | none ↦ ok (d, negsuc 0)
                  | some o ↦ send_buf ops txsync skb.buf_type skb o d
                ])
                (Whole d)) [
                  | none ↦ λ e. (_, refl, λ b. refl)
                  | some o ↦ λ e. send_buf-Whole kept skb.buf_type skb o d sound there (below o e)
                ]
        refl
