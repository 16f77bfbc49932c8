-- ===== src/Rtable/Wire.antt =====
-- Routing tables on the wire: `rtable_serialize`, `rtable_unserialize` and the entries of
-- tcp_branch/rtable.c.
use tcp_archive.Prelude.{ℕ, ◌<◌, ◌≡◌, refl, some, List, ◌++◌, drop}
use tcp_archive.Packet.Bytes.{u32_bytes}
use tcp_archive.Rtable.{Entry, entry_serialize, entry_unserialize, entry_size}

-- The fields are 32-bit patterns.
pub record IsEntry (e : Entry) : Type 0 where
  pub addr : e.addr < 4294967296
  pub iface : e.iface < 4294967296
  pub next_hop : e.next_hop < 4294967296
  pub type : e.type < 4294967296
  pub cost : e.cost < 4294967296

-- An entry of 32-bit fields is read back from its bytes, whatever follows them, and its bytes are
-- 20.
pub entry_unserialize-serialize :
    (e : Entry) (rest : List ℕ)
    → IsEntry e
    → (entry_unserialize (entry_serialize e ++ rest) ≡ some e)
      × (drop entry_size (entry_serialize e ++ rest) ≡ rest)
unfolding entry_unserialize entry_serialize
entry_unserialize-serialize e rest h = (
  rw (
    u32_bytes e.addr h.addr,
    u32_bytes e.iface h.iface,
    u32_bytes e.next_hop h.next_hop,
    u32_bytes e.type h.type,
    u32_bytes e.cost h.cost,
  ),
  refl,
)
