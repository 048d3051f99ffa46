-- ===== src/Tests/Cards.antt =====
-- A card with one device at samples.
use vsecplat.Common.{ℕ, zero, suc, ◌+◌, ◌-◌, ◌%◌, ◌<◌, true, false, List, [], ◌∷◌, some}
use vsecplat.Common.{◌==◌, if◌then◌else◌, ◌≡◌, refl, arith, length, subst}
use vsecplat.Common.Run.{Returns}
use vsecplat.Rings.{Slot, Ring, RingOps, Dev, Parcel, Desc, netmap_buf}
use vsecplat.Rings.Receive.{nm_recv, timed_out}
use vsecplat.Rings.Receive.Search.{IsSound}
use vsecplat.Rings.Receive.Loop.{searched, Answer, nm_recv-Outcome}
use vsecplat.Rings.Send.{nm_send, ring_at}
use vsecplat.Rings.Send.Buffers.{holds}
use vsecplat.Rings.Send.Whole.{IsThere, nm_send-Whole}

abbrev sample_ops : RingOps
sample_ops = record {
  ring_space = λ r. (r.tail + length r.slots - r.cur) % length r.slots;
  ring_next = λ r i. if i + 1 == length r.slots then 0 else i + 1;
}

abbrev sample_slot : ℕ → Slot
sample_slot b = record { buf_idx = b; len = 60; changed = false }

abbrev sample_ring : ℕ → Ring
sample_ring b = record {
  slots = sample_slot b ∷ sample_slot (b + 1) ∷ [];
  head = 0;
  cur = 0;
  tail = 1;
}

abbrev sample_dev : Dev
sample_dev = record {
  rx_rings = sample_ring 10 ∷ [];
  tx_rings = sample_ring 20 ∷ [];
  first_rx_ring = 0;
  last_rx_ring = 0;
  first_tx_ring = 0;
  last_tx_ring = 0;
}

abbrev sample_desc : Desc
sample_desc = record {
  need_poll = false;
  rx_if_idx = 0;
  rx_ring_idx = 0;
  revents = true ∷ [];
  devs = sample_dev ∷ [];
  pool = [];
  count = 0;
}

sample_desc-IsSound : IsSound sample_ops sample_desc
sample_desc-IsSound = record {
  rx_sound = (omega arith, omega arith);
  each_dev = refl;
  in_range = omega arith;
}

only_start : (start : Desc) → some sample_desc ≡ some start → IsSound sample_ops start
only_start start e =
    let same : sample_desc ≡ start = cc in subst (IsSound sample_ops) same sample_desc-IsSound

nm_recv-Outcome_example :
    Returns
      (nm_recv sample_ops timed_out sample_desc)
      (Answer sample_ops (searched sample_ops timed_out sample_desc))
nm_recv-Outcome_example = nm_recv-Outcome sample_ops timed_out sample_desc only_start

abbrev sample_skb : Parcel
sample_skb = record {
  buf_type = netmap_buf;
  i_dev = 0;
  o_dev = some 0;
  rx_ring_idx = 0;
  rx_slot_idx = 1;
  len = 60;
}

sample-IsThere : IsThere sample_skb sample_desc.devs
unfolding ring_at
sample-IsThere = record {
  rx_ring = sample_ring 10;
  rx_slot = sample_slot 11;
  ring_there = refl;
  slot_there = refl;
}

abbrev no_sync : ℕ → List Dev → List Dev
no_sync o devs = devs

to_the_dev : (o : ℕ) → some 0 ≡ some o → o < 1
to_the_dev zero e = omega arith
to_the_dev (suc o) e = cc

nm_send-Whole_example :
    Returns
      (nm_send sample_ops no_sync sample_skb sample_desc)
      (λ p. (b : ℕ) → holds b p.0.devs ≡ holds b sample_desc.devs)
nm_send-Whole_example =
    nm_send-Whole sample_ops no_sync (λ o devs b. refl) sample_skb sample_desc (omega arith, tt)
      sample-IsThere to_the_dev
