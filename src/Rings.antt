-- ===== src/Rings.antt =====
-- The rings of the network card: userspace/include/nm_dev.h, nm_desc.h and nm_skb.h, with the
-- structs of netmap that userspace/lib/nm_skb.c reads and writes.
pub mod Receive
pub mod Send
use vsecplat.Common.{ℕ, ◌<◌, Bool, List, Option, length}

-- A slot with its buffer; `changed` is `NS_BUF_CHANGED`.
pub record Slot : Type 0 where
  pub buf_idx : ℕ
  pub len : ℕ
  pub changed : Bool

pub record Ring : Type 0 where
  pub slots : List Slot
  pub head : ℕ
  pub cur : ℕ
  pub tail : ℕ

-- `nm_ring_space` and `nm_ring_next` of netmap's header.
pub record RingOps : Type 0 where
  pub ring_space : Ring → ℕ
  pub ring_next : Ring → ℕ → ℕ

-- What netmap promises: the slot behind one of the ring's slots is one of them.
pub record RingLaws (ops : RingOps) : Type 0 where
  pub next_inside : (r : Ring) (i : ℕ) → i < length r.slots → ops.ring_next r i < length r.slots

-- `struct nm_dev` with the rings of its `netmap_if`.
pub record Dev : Type 0 where
  pub rx_rings : List Ring
  pub tx_rings : List Ring
  pub first_rx_ring : ℕ
  pub last_rx_ring : ℕ
  pub first_tx_ring : ℕ
  pub last_tx_ring : ℕ

pub data BufType : Type 0 where
  netmap_buf memory_buf : BufType

-- The fields of `struct nm_skb` that name where the packet came from and goes to; a device is its
-- number, and `none` the null pointer.
pub record Parcel : Type 0 where
  pub buf_type : BufType
  pub i_dev : ℕ
  pub o_dev : Option ℕ
  pub rx_ring_idx : ℕ
  pub rx_slot_idx : ℕ
  pub len : ℕ

-- `global_nm_desc`: `revents` holds `POLLIN` for each of the `fds_num` descriptors, and `pool` and
-- `count` are `tx_pool`.
pub record Desc : Type 0 where
  pub need_poll : Bool
  pub rx_if_idx : ℕ
  pub rx_ring_idx : ℕ
  pub revents : List Bool
  pub devs : List Dev
  pub pool : List Parcel
  pub count : ℕ
