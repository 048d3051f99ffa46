-- ===== src/Rings/Receive/Outcome.antt =====
-- What a call of `nm_recv` of nm_skb.c can end in.
use vsecplat.Common.{ℕ, ◌≤◌, ◌<◌, Bool, true, false, List, none, some}
use vsecplat.Common.{ltb, ltb→lt, ◌==◌, ◌≡◌, ◌≢◌, refl, sym, ◌∙◌, subst, arith, get_elem?, set}
use vsecplat.Common.{Bool-cases, inl, inr}
use vsecplat.Common.Run.{ok, Returns}
use vsecplat.Rings.{Slot, Ring, RingOps, Dev, Parcel, Desc, netmap_buf}
use vsecplat.Rings.Send.{ring_at, rings_of}
use vsecplat.Rings.Send.Buffers.{get_elem?-set}
use vsecplat.Rings.Send.Whole.{get_elem?-All, All-units, ring_inside}
use vsecplat.Rings.Receive.{Received, packet, no_packet, spent, take_slot}
use vsecplat.Rings.Receive.Search.{IsReady, Found, IsRxSound}

module _ (ops : RingOps) where
  -- No ring of the device that is looked at has a packet.
  abbrev pub IsPassed : Desc → ℕ → Type 0
  IsPassed d k = (dev : Dev) → get_elem? d.devs k ≡ some dev → Found ops dev d.rx_ring_idx none

  abbrev pub PassedFrom : Desc → Type 0
  PassedFrom d = (k : ℕ) → d.rx_if_idx ≤ k → IsReady d.revents k → IsPassed d k

  abbrev pub PassedUpto : Desc → ℕ → Type 0
  PassedUpto d i = (k : ℕ) → d.rx_if_idx ≤ k → k < i → IsReady d.revents k → IsPassed d k

  -- The packet is the slot at `cur` of the first ring with packets, at the first device that has one, and
  -- the ring has moved on by this slot.
  pub record Taken (d : Desc) (skb : Parcel) (d' : Desc) : Type 0 where
    pub dev : Dev
    pub ring : Ring
    pub dev_there : get_elem? d.devs skb.i_dev ≡ some dev
    pub there : ring_at true skb.i_dev skb.rx_ring_idx d.devs ≡ ok ring
    pub filled : ops.ring_space ring ≢ 0
    pub at_cur : skb.rx_slot_idx ≡ ring.cur
    pub event : IsReady d.revents skb.i_dev
    pub not_before : d.rx_if_idx ≤ skb.i_dev
    pub first : PassedUpto d skb.i_dev
    pub first_ring : Found ops dev d.rx_ring_idx (some skb.rx_ring_idx)
    pub moved :
        d'.devs
        ≡ set d.devs skb.i_dev (record dev {
          rx_rings = set dev.rx_rings skb.rx_ring_idx (record ring {
            head = ops.ring_next ring ring.cur;
            cur = ops.ring_next ring ring.cur;
          });
        })
    pub next_if : d'.rx_if_idx ≡ skb.i_dev
    pub next_ring : d'.rx_ring_idx ≡ skb.rx_ring_idx

  abbrev pub Outcome : Desc → Received × Desc → Type 0
  Outcome d (packet skb, d') = Taken d skb d'
  Outcome d (no_packet, d') = (d'.need_poll ≡ true) × PassedFrom d
  Outcome d (spent, d') = ⊥

  -- The loop goes on with the events of one device cleared.
  abbrev pub go_on : ℕ → Desc → Desc
  go_on i d = record d { rx_if_idx = i; need_poll = false; revents = set d.revents i false }

  pub IsReady-set :
      (bs : List Bool) (i k : ℕ) → IsReady bs i → i ≢ k → IsReady bs k → IsReady (set bs i false) k
  IsReady-set bs i k h other r =
      let no : (i == k) ≡ false = ground (arith, other) in
      get_elem?-set bs i k true false h ∙ rw no r

  -- No device before `i` is ready.
  abbrev pub NoneUpto : Desc → ℕ → Type 0
  NoneUpto d i = (k : ℕ) → d.rx_if_idx ≤ k → k < i → ¬ IsReady d.revents k

  IsPassed-at :
      (d : Desc) (i k : ℕ)
      → NoneUpto d i
      → IsPassed d i
      → d.rx_if_idx ≤ k
      → IsReady d.revents k
      → (i ≤ k → i ≢ k → IsPassed d k)
      → IsPassed d k
  IsPassed-at d i k before here low r later = elim (Bool-cases (ltb k i)) [
    | inl earlier ↦ absurd (before k low (ltb→lt k i earlier) r)
    | inr not_earlier ↦ elim (Bool-cases (i == k)) [
      | inl same ↦ let e : i ≡ k = ground (arith, same) in subst (IsPassed d) e here
      | inr other ↦ later (ground (arith, not_earlier)) (λ e. ground (arith, other, e))
    ]
  ]

  pub Outcome-go_on :
      (d : Desc) (i : ℕ) (p : Received × Desc)
      → d.rx_if_idx ≤ i
      → IsReady d.revents i
      → NoneUpto d i
      → IsPassed d i
      → Outcome (go_on i d) p
      → Outcome d p
  Outcome-go_on d i (packet skb, d') low event before here h = record {
    dev = h.dev;
    ring = h.ring;
    dev_there = h.dev_there;
    there = h.there;
    filled = h.filled;
    at_cur = h.at_cur;
    event = ready_before skb.i_dev h.event;
    not_before = let later = h.not_before in omega arith;
    first = λ k from below r.
        IsPassed-at d i k before here from r
          (λ le other. h.first k le below (IsReady-set d.revents i k event other r));
    first_ring = h.first_ring;
    moved = h.moved;
    next_if = h.next_if;
    next_ring = h.next_ring;
  }
    where
      ready_before : (k : ℕ) → IsReady (set d.revents i false) k → IsReady d.revents k
      ready_before k r = elim (Bool-cases (i == k)) [
        | inl same ↦
            let set_here : get_elem? (set d.revents i false) k ≡ some false =
              get_elem?-set d.revents i k true false event ∙ (rw same refl) in
            cc
        | inr other ↦
            let kept : get_elem? (set d.revents i false) k ≡ get_elem? d.revents k =
              get_elem?-set d.revents i k true false event ∙ (rw other refl) in
            sym kept ∙ r
      ]
  Outcome-go_on d i (no_packet, d') low event before here h = (
    h.0,
    λ k from r.
        IsPassed-at d i k before here from r
          (λ le other. h.1 k le (IsReady-set d.revents i k event other r)),
  )
  Outcome-go_on d i (spent, d') low event before here h = h

  pub take_slot-Taken :
      (d : Desc) (i j : ℕ) (dev : Dev)
      → get_elem? d.devs i ≡ some dev
      → IsRxSound ops dev
      → Found ops dev d.rx_ring_idx (some j)
      → d.rx_if_idx ≤ i
      → IsReady d.revents i
      → NoneUpto d i
      → Returns (take_slot ops i j (record d { rx_if_idx = i; need_poll = false })) (Outcome d)
  take_slot-Taken d i j dev at_i sound ((ring, at_j, space), from, upto, empty) low event before =
      let inside = ring_inside dev.rx_rings j ring sound.1 at_j in
      let (slot, at_cur, u) =
        get_elem?-All (λ s. Unit {0}) ring.slots ring.cur (All-units ring.slots) inside in
      (
        _,
        taken slot at_cur,
        record {
          dev = dev;
          ring = ring;
          dev_there = at_i;
          there = unfold ring_at rings_of in rw at_i (rw at_j refl);
          filled = space;
          at_cur = refl;
          event = event;
          not_before = low;
          first = λ k from below r. absurd (before k from below r);
          first_ring = ((ring, at_j, space), from, upto, empty);
          moved = refl;
          next_if = refl;
          next_ring = refl;
        },
      )
    where
      taken :
          (slot : Slot)
          → get_elem? ring.slots ring.cur ≡ some slot
          → take_slot ops i j (record d { rx_if_idx = i; need_poll = false })
            ≡ ok (
              packet (record {
                buf_type = netmap_buf;
                i_dev = i;
                o_dev = none;
                rx_ring_idx = j;
                rx_slot_idx = ring.cur;
                len = slot.len;
              }),
              record d {
                rx_if_idx = i;
                need_poll = false;
                devs = set d.devs i (record dev {
                  rx_rings = set dev.rx_rings j (record ring {
                    head = ops.ring_next ring ring.cur;
                    cur = ops.ring_next ring ring.cur;
                  });
                });
                rx_ring_idx = j;
              },
            )
      taken slot at_cur = unfold take_slot in rw at_i (rw at_j (rw at_cur refl))
