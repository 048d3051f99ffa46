-- ===== src/Rings/Send.antt =====
-- Sending: userspace/lib/nm_skb.c, lines 9-28 and 187-267, without the messages.
pub mod Buffers
pub mod Whole
use vsecplat.Common.{
  ℕ, zero, suc, ◌+◌, ◌-◌, Bool, true, false, List, [], ◌∷◌, ◌++◌, Option, none, some,
}
use vsecplat.Common.{◌==◌, if◌then◌else◌, get_elem?, set, ℤ, pos, negsuc}
use vsecplat.Common.Run.{Run, ok, fault, ◌>>=◌}
use vsecplat.Rings.{BufType, Slot, Ring, RingOps, Dev, Parcel, Desc, netmap_buf, memory_buf}
use vsecplat.Rings.Receive.{must}

unfoldable pub nm_tx_skb_push : Parcel → Desc → Desc
nm_tx_skb_push skb d = record d { pool = d.pool ++ skb ∷ []; count = suc d.count }

-- `ioctl` with `NIOCTXSYNC` on a device moves rings of the card: `txsync`.
module _ (ops : RingOps) (txsync : ℕ → List Dev → List Dev) where
  unfoldable pub tx_loop : List Ring → ℕ → ℕ → Run (Option ℕ)
  tx_loop rings zero idx = ok none
  tx_loop rings (suc n) idx =
      let rest = tx_loop rings n (suc idx) in
      must (get_elem? rings idx) >>= λ ring.
      if ops.ring_space ring == 0 then rest else ok (some idx)

  -- The number of the ring; `none` is the null pointer.
  unfoldable pub get_tx_ring : Dev → Run (Option ℕ)
  unfolding tx_loop
  get_tx_ring dev =
      tx_loop dev.tx_rings (dev.last_tx_ring + 1 - dev.first_tx_ring) dev.first_tx_ring

unfoldable pub rings_of : Bool → Dev → List Ring
rings_of rx dev = if rx then dev.rx_rings else dev.tx_rings

unfoldable pub with_rings : Bool → List Ring → Dev → Dev
with_rings rx rings dev =
    if rx then record dev { rx_rings = rings } else record dev { tx_rings = rings }

-- A ring of a device, read and changed in place; `rx` chooses the receiving ones.
unfoldable pub ring_at : Bool → ℕ → ℕ → List Dev → Run Ring
unfolding rings_of
ring_at rx i j devs = must (get_elem? devs i) >>= λ dev. must (get_elem? (rings_of rx dev) j)

unfoldable pub change_ring : Bool → ℕ → ℕ → (Ring → Ring) → List Dev → Run (List Dev)
unfolding rings_of with_rings
change_ring rx i j f devs = must (get_elem? devs i) >>= λ dev.
    must (get_elem? (rings_of rx dev) j) >>= λ ring.
    ok (set devs i (with_rings rx (set (rings_of rx dev) j (f ring)) dev))

abbrev pub put_slot : ℕ → Slot → Ring → Ring
put_slot k slot ring = record ring { slots = set ring.slots k slot }

module _ (ops : RingOps) (txsync : ℕ → List Dev → List Dev) where
  abbrev pub advance : Ring → Ring
  advance ring = let next = ops.ring_next ring ring.cur in record ring { head = next; cur = next }

  -- The two slots swap their buffers; the length goes along.
  unfoldable pub swap_slots : Parcel → ℕ → ℕ → List Dev → Run (List Dev)
  unfolding ring_at change_ring
  swap_slots skb o j devs = do
    rx_ring ← ring_at true skb.i_dev skb.rx_ring_idx devs
    rx_slot ← must (get_elem? rx_ring.slots skb.rx_slot_idx)
    tx_ring ← ring_at false o j devs
    tx_slot ← must (get_elem? tx_ring.slots tx_ring.cur)
    let sent : Slot = record { buf_idx = rx_slot.buf_idx; len = rx_slot.len; changed = true }
    let freed : Slot = record { buf_idx = tx_slot.buf_idx; len = rx_slot.len; changed = true }
    devs1 ← change_ring false o j (put_slot tx_ring.cur sent) devs
    devs2 ← change_ring true skb.i_dev skb.rx_ring_idx (put_slot skb.rx_slot_idx freed) devs1
    change_ring false o j advance devs2

  -- A packet of the card is sent, or waits in the pool where there is no room.
  unfoldable pub send_buf : BufType → Parcel → ℕ → Desc → Run (Desc × ℤ)
  unfolding get_tx_ring swap_slots nm_tx_skb_push
  send_buf memory_buf skb o d = ok (record d { devs = txsync o d.devs }, pos 0)
  send_buf netmap_buf skb o d = must (get_elem? d.devs o) >>= λ tx_dev.
      get_tx_ring ops txsync tx_dev >>= λ found. elim found [
        | none ↦ ok (nm_tx_skb_push skb (record d { devs = txsync o d.devs }), pos 0)
        | some j ↦
            swap_slots skb o j d.devs >>= λ devs. ok (record d { devs = txsync o devs }, pos 0)
      ]

  -- The result is -1 where there is no device to send to.
  unfoldable pub nm_send : Parcel → Desc → Run (Desc × ℤ)
  unfolding send_buf
  nm_send skb d = elim skb.o_dev [
    | none ↦ ok (d, negsuc 0)
    | some o ↦ send_buf skb.buf_type skb o d
  ]

  unfoldable pub send_each : List Parcel → Desc → Run Desc
  unfolding nm_send
  send_each [] d = ok d
  send_each (skb ∷ send_list) d = nm_send skb d >>= λ (d', code). send_each send_list d'

  -- What finds no room goes back to the pool.
  unfoldable pub nm_tx_skb_pop : Desc → Run Desc
  unfolding send_each
  nm_tx_skb_pop d = send_each d.pool (record d { pool = []; count = 0 })
