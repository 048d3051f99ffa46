-- ===== src/Rings/Receive/Loop.antt =====
-- About the jumps of `nm_recv` of nm_skb.c back to `get_next_if`.
use vsecplat.Common.{ℕ, zero, suc, ◌+◌, ◌<◌, Bool, true, false, List, [], ◌∷◌, Option, none, some}
use vsecplat.Common.{if◌then◌else◌, ◌≡◌, refl, sym, ◌∙◌, subst, arith, length, get_elem?}
use vsecplat.Common.{length-set}
use vsecplat.Common.Run.{ok, Returns}
use vsecplat.Rings.{RingOps, Dev, Desc}
use vsecplat.Rings.Send.Whole.{get_elem?-All}
use vsecplat.Rings.Receive.{
  get_next_if_idx, Received, no_packet, ready, timed_out, poll_failed, Polled, get_next_ring_idx,
  recv_loop, nm_recv,
}
use vsecplat.Rings.Receive.Search.{
  IsReady, ready_count, ready_count-length, ready_count-set, Next, get_next_if_idx-Next, IsRxSound,
  IsSound, Found, get_next_ring_idx-Returns,
}
use vsecplat.Rings.Receive.Outcome.{Outcome, go_on, Outcome-go_on, take_slot-Taken}

module _ (ops : RingOps) where
  ready_inside : (bs : List Bool) (i : ℕ) → IsReady bs i → i < length bs
  ready_inside [] i r = cc
  ready_inside (b ∷ bs) zero r = omega arith
  ready_inside (b ∷ bs) (suc i) r = omega (arith, ready_inside bs i r)

  go_on-IsSound :
      (d : Desc) (i : ℕ) → IsSound ops d → i < length d.revents → IsSound ops (go_on ops i d)
  go_on-IsSound d i sound below = record {
    rx_sound = sound.rx_sound;
    each_dev = sound.each_dev ∙ sym (length-set d.revents i false);
    in_range = omega (arith, length-set d.revents i false);
  }

  -- From a sound state the loop ends, with an outcome.
  recv_loop-Returns :
      (f : ℕ) (d : Desc)
      → IsSound ops d
      → ready_count d.revents < f
      → Returns (recv_loop ops f d) (Outcome ops d)
  unfolding recv_loop
  recv_loop-Returns zero d sound enough = absurd (omega arith)
  recv_loop-Returns (suc f) d sound enough =
      at_if (get_next_if_idx d.revents d.rx_if_idx) refl
        (get_next_if_idx-Next d.revents d.rx_if_idx sound.in_range)
        (λ i below event.
          recv_loop-Returns f (go_on ops i d) (go_on-IsSound d i sound below)
            (omega (arith, ready_count-set d.revents i event)))
    where
      at_ring :
          (i : ℕ) (dev : Dev)
          → get_elem? d.devs i ≡ some dev
          → IsRxSound ops dev
          → get_next_if_idx d.revents d.rx_if_idx ≡ some i
          → Next d.revents d.rx_if_idx (some i)
          → Returns (recv_loop ops f (go_on ops i d)) (Outcome ops (go_on ops i d))
          → Returns (get_next_ring_idx ops dev d.rx_ring_idx) (Found ops dev d.rx_ring_idx)
          → Returns (recv_loop ops (suc f) d) (Outcome ops d)
      at_ring i dev at_i rx e (low, event, before) rest (none, run, has) =
          let here = λ (other : Dev) (at : get_elem? d.devs i ≡ some other).
            let same : dev ≡ other = cc in
            subst (λ dev. Found ops dev d.rx_ring_idx none) same has in
          (
            rest.0,
            rw (e, recv_loop) (rw at_i (rw run rest.1)),
            Outcome-go_on ops d i rest.0 low event before here rest.2,
          )
      at_ring i dev at_i rx e (low, event, before) rest (some j, run, has) =
          let taken = take_slot-Taken ops d i j dev at_i rx has low event before in
          (taken.0, rw (e, recv_loop) (rw at_i (rw run taken.1)), taken.2)

      at_if :
          (o : Option ℕ)
          → get_next_if_idx d.revents d.rx_if_idx ≡ o
          → Next d.revents d.rx_if_idx o
          → ((i : ℕ)
              → i < length d.revents
              → IsReady d.revents i
              → Returns (recv_loop ops f (go_on ops i d)) (Outcome ops (go_on ops i d)))
          → Returns (recv_loop ops (suc f) d) (Outcome ops d)
      at_if none e next rest =
          let end : Received × Desc =
            (no_packet, record d { rx_if_idx = 0; rx_ring_idx = 0; need_poll = true }) in
          (end, rw (e, recv_loop) refl, (refl, λ k low r. absurd (next k low r)))
      at_if (some i) e next rest =
          let below = ready_inside d.revents i next.1 in
          let (dev, at_i, rx) =
            get_elem?-All (IsRxSound ops) d.devs i sound.rx_sound (omega (arith, sound.each_dev)) in
          at_ring i dev at_i rx e next (rest i below next.1)
            (get_next_ring_idx-Returns ops dev d.rx_ring_idx rx)

  -- The state that the search starts from, where there is one.
  abbrev searched_if : Bool → Polled → Desc → Option Desc
  searched_if false polled d = some d
  searched_if true (ready revents devs) d = some (record d { revents = revents; devs = devs })
  searched_if true timed_out d = none
  searched_if true poll_failed d = none

  abbrev pub searched : Polled → Desc → Option Desc
  searched polled d = searched_if d.need_poll polled d

  abbrev pub Answer : Option Desc → Received × Desc → Type 0
  Answer none (no_packet, d') = Unit
  Answer none _ = ⊥
  Answer (some d) p = Outcome ops d p

  search-Outcome :
      (d : Desc) → IsSound ops d → Returns (recv_loop ops (length d.revents + 1) d) (Outcome ops d)
  search-Outcome d sound =
      recv_loop-Returns (length d.revents + 1) d sound (omega (arith, ready_count-length d.revents))

  nm_recv_if :
      (b : Bool) (polled : Polled) (d : Desc)
      → ((start : Desc) → searched_if b polled d ≡ some start → IsSound ops start)
      → Returns
          (if b
            then elim polled [
              | timed_out ↦ ok (no_packet, d)
              | poll_failed ↦ ok (no_packet, d)
              | ready revents devs ↦
                  recv_loop ops (length revents + 1) (record d { revents = revents; devs = devs })
            ]
            else recv_loop ops (length d.revents + 1) d)
          (Answer (searched_if b polled d))
  nm_recv_if false polled d sound = search-Outcome d (sound d refl)
  nm_recv_if true timed_out d sound = ((no_packet, d), refl, tt)
  nm_recv_if true poll_failed d sound = ((no_packet, d), refl, tt)
  nm_recv_if true (ready revents devs) d sound = search-Outcome _ (sound _ refl)

  -- A call ends: with no packet where polling failed or timed out; and else, from a sound state, with
  -- the slot at `cur` of the first ring with packets, of the first device that is ready and has one, from
  -- the device where the last call stopped on; the ring has moved on by this slot, and the next call
  -- starts from this device and ring. Where no such device has a ring with packets it ends with no packet
  -- and the wish to poll. The rings of a device are those from its first one, or from the ring of the last
  -- packet where that is not 0, to its last one.
  pub nm_recv-Outcome :
      (polled : Polled) (d : Desc)
      → ((start : Desc) → searched polled d ≡ some start → IsSound ops start)
      → Returns (nm_recv ops polled d) (Answer (searched polled d))
  unfolding nm_recv
  nm_recv-Outcome polled d sound = nm_recv_if d.need_poll polled d sound
