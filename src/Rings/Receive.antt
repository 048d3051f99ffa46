-- ===== src/Rings/Receive.antt =====
-- Receiving: userspace/lib/nm_skb.c, lines 30-73 and 97-185, without the messages.
pub mod Search
pub mod Outcome
pub mod Loop
use vsecplat.Common.{ℕ, zero, suc, ◌+◌, ◌-◌, Bool, true, false, List, [], ◌∷◌, Option, none, some}
use vsecplat.Common.{◌==◌, ltb, if◌then◌else◌, length, get_elem?, set, drop}
use vsecplat.Common.Run.{Run, ok, fault, ◌>>=◌}
use vsecplat.Rings.{Slot, Ring, RingOps, Dev, Parcel, Desc, netmap_buf}

-- The first descriptor with `POLLIN` from `i` on; `none` is -1.
unfoldable pub if_loop : List Bool → ℕ → Option ℕ
if_loop [] i = none
if_loop (b ∷ bs) i = let rest = if_loop bs (suc i) in if b then some i else rest

unfoldable pub get_next_if_idx : List Bool → ℕ → Option ℕ
unfolding if_loop
get_next_if_idx revents start =
    if ltb (length revents) start then some start else if_loop (drop start revents) start

-- A pointer or an index that leads nowhere.
abbrev pub must {ℓ} : {A : Type ℓ} → Option A → Run A
must none = fault
must (some a) = ok a

-- What `poll` brought, where it was called: new events, and the rings as the card has moved them.
pub data Polled : Type 0 where
  timed_out poll_failed : Polled
  ready : List Bool → List Dev → Polled

-- `no_packet` is the null pointer, and `spent` the lack of fuel.
pub data Received : Type 0 where
  packet : Parcel → Received
  no_packet spent : Received

module _ (ops : RingOps) where
  -- The ring `idx` and the `n` behind it.
  unfoldable pub ring_loop : List Ring → ℕ → ℕ → Run (Option ℕ)
  ring_loop rings zero idx = ok none
  ring_loop rings (suc n) idx =
      let rest = ring_loop rings n (suc idx) in
      must (get_elem? rings idx) >>= λ ring.
      if ops.ring_space ring == 0 then rest else ok (some idx)

  unfoldable pub get_next_ring_idx : Dev → ℕ → Run (Option ℕ)
  unfolding ring_loop
  get_next_ring_idx dev start =
      let idx = if start == 0 then dev.first_rx_ring else start in
      ring_loop dev.rx_rings (dev.last_rx_ring + 1 - idx) idx

  -- The slot at `cur` of a ring goes out as a packet, and the ring moves on.
  unfoldable pub take_slot : ℕ → ℕ → Desc → Run (Received × Desc)
  take_slot i j d = must (get_elem? d.devs i) >>= λ dev. must (get_elem? dev.rx_rings j) >>= λ ring.
      must (get_elem? ring.slots ring.cur) >>= λ slot.
      let next = ops.ring_next ring ring.cur in
      let ring' = record ring { head = next; cur = next } in
      let dev' = record dev { rx_rings = set dev.rx_rings j ring' } in
      let parcel : Parcel = record {
        buf_type = netmap_buf;
        i_dev = i;
        o_dev = none;
        rx_ring_idx = j;
        rx_slot_idx = ring.cur;
        len = slot.len;
      } in
      ok (packet parcel, record d { devs = set d.devs i dev'; rx_ring_idx = j })

  -- From the label `get_next_if` on, with a unit of fuel for each jump back to it.
  unfoldable pub recv_loop : ℕ → Desc → Run (Received × Desc)
  unfolding get_next_if_idx get_next_ring_idx take_slot
  recv_loop zero d = ok (spent, d)
  recv_loop (suc f) d = elim (get_next_if_idx d.revents d.rx_if_idx) [
    | none ↦ ok (no_packet, record d { rx_if_idx = 0; rx_ring_idx = 0; need_poll = true })
    | some i ↦
        let here = record d { rx_if_idx = i; need_poll = false } in
        let cleared = recv_loop f (record here { revents = set here.revents i false }) in
        must (get_elem? here.devs i) >>= λ dev. get_next_ring_idx dev here.rx_ring_idx >>= λ found.
        elim found [ none ↦ cleared | some j ↦ take_slot i j here ]
  ]

  unfoldable pub nm_recv : Polled → Desc → Run (Received × Desc)
  unfolding recv_loop
  nm_recv polled d =
      let go = λ (d : Desc). recv_loop (length d.revents + 1) d in
      if d.need_poll
      then elim polled [
        | timed_out ↦ ok (no_packet, d)
        | poll_failed ↦ ok (no_packet, d)
        | ready revents devs ↦ go (record d { revents = revents; devs = devs })
      ]
      else go d
