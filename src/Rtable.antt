-- ===== src/Rtable.antt =====
-- tcp_branch/rtable.h and tcp_branch/rtable.c: the routing table. A C `int` is kept as its 32-bit
-- pattern. Every entry is owned by the table under one key, so a pointer to an entry is that key,
-- and a write through the pointer is a `put` at it. The locks are left out: each operation is one
-- step.
mod Tests
pub mod Merge
pub mod Lookup
pub mod Wire
pub mod Message
use tcp_archive.Prelude.{
  ℕ, zero, suc, ◌+◌, ◌-◌, ◌*◌, ◌/◌, ◌%◌, Option, none, some, Bool, true, false, not, ◌&&◌, ◌||◌,
  List, [], ◌∷◌, ◌++◌, length, drop, ltb, leb, ◌==◌, if◌then◌else◌, add32, int_leb, ◌>>=◌, ◌>>◌,
  assert,
}
use tcp_archive.External.{HTable}
use tcp_archive.Packet.{get_u32}

-- INFINITY
abbrev pub infinity : ℕ
infinity = 16

-- `rtable_entry_t`
pub record Entry : Type 0 where
  pub addr : ℕ
  pub iface : ℕ
  pub next_hop : ℕ
  pub type : ℕ
  pub cost : ℕ

-- `rtable_entry_serialize`: the five fields as they lie in memory.
abbrev pub u32_list : ℕ → List ℕ
u32_list v = (v % 256) ∷ (v / 256 % 256) ∷ (v / 65536 % 256) ∷ (v / 16777216 % 256) ∷ []

pub entry_serialize : Entry → List ℕ
entry_serialize e =
    u32_list e.addr
    ++ (u32_list e.iface ++ (u32_list e.next_hop ++ (u32_list e.type ++ u32_list e.cost)))

-- `rtable_entry_unserialize`, at the front of the bytes.
pub entry_unserialize : List ℕ → Option Entry
entry_unserialize bytes = do
  addr ← get_u32 bytes 0
  iface ← get_u32 bytes 4
  next_hop ← get_u32 bytes 8
  type ← get_u32 bytes 12
  cost ← get_u32 bytes 16
  some (record { addr = addr; iface = iface; next_hop = next_hop; type = type; cost = cost })

abbrev pub entry_size : ℕ
entry_size = 20

-- `cost >= INFINITY ? INFINITY : cost`
abbrev pub cap_cost : ℕ → ℕ
cap_cost cost = if int_leb infinity cost then infinity else cost

module _ (H : HTable) where
  abbrev pub Rtable : Type 0
  Rtable = H.Table Entry

  unfoldable pub rtable_new : Rtable
  rtable_new = H.empty

  pub rtable_put : Rtable → Entry → Rtable
  rtable_put rt entry = H.put rt entry.addr entry

  pub rtable_remove : Rtable → ℕ → Rtable
  rtable_remove rt addr = H.remove rt addr

  -- The loop of `rtable_poison_iface`, over the keys of the table.
  pub poison_keys : ℕ → List ℕ → Rtable → Rtable
  poison_keys iface [] rt = rt
  poison_keys iface (k ∷ ks) rt = poison_keys iface ks (elim (H.get rt k) [
    | none ↦ rt
    | some e ↦ if e.iface == iface then H.put rt k (record e { cost = infinity }) else rt
  ])

  pub rtable_poison_iface : Rtable → ℕ → Rtable
  unfolding poison_keys
  rtable_poison_iface rt iface = poison_keys iface (H.keys rt) rt

  -- The loop of `rtable_serialize`: what it writes for the keys that it still has to visit, into
  -- memory with room for `left` bytes.
  pub serialize_keys : Rtable → ℕ → ℕ → List ℕ → Option (List ℕ)
  unfolding entry_serialize
  serialize_keys rt filter_addr left [] = some []
  serialize_keys rt filter_addr left (k ∷ ks) = elim (H.get rt k) [
    | none ↦ none
    | some e ↦
        (if e.next_hop == filter_addr
          then assert (ltb 0 left) >> serialize_keys rt filter_addr left ks
          else assert (ltb 0 left)
            >> (serialize_keys rt filter_addr (left - entry_size) ks >>= λ rest.
                some (entry_serialize e ++ rest)))
  ]

  -- `rtable_serialize`: the bytes sent, `*len` of them. What the loop does not fill is left as
  -- `malloc` gave it, `heap`.
  pub rtable_serialize : (ℕ → List ℕ) → Rtable → ℕ → Option (List ℕ)
  unfolding serialize_keys
  rtable_serialize heap rt filter_addr = do
    let len = entry_size * H.ht_size rt
    bytes ← serialize_keys rt filter_addr len (H.keys rt)
    some (bytes ++ drop (length bytes) (heap len))

  -- `rtable_unserialize`; `left` is `len - (bptr - bytes)` and the fuel is at least that. A read past
  -- the end of the bytes is `none`.
  pub unserialize_loop : ℕ → List ℕ → ℕ → Rtable → Option Rtable
  unfolding entry_unserialize rtable_put
  unserialize_loop zero bytes left rt = some rt
  unserialize_loop (suc fuel) bytes left rt = elim (left == 0) [
    | true ↦ some rt
    | false ↦ entry_unserialize bytes >>= λ e.
        unserialize_loop fuel (drop entry_size bytes) (left - entry_size) (rtable_put rt e)
  ]

  pub rtable_unserialize : List ℕ → ℕ → Option Rtable
  unfolding unserialize_loop rtable_new
  rtable_unserialize bytes len = unserialize_loop len bytes len rtable_new

module _ (H : HTable) (default_route : ℕ) where
  -- `rtable_get`: the pointer that it returns, which may be to the default route.
  unfoldable pub rtable_get : Rtable H → ℕ → Option ℕ
  rtable_get rt addr = elim (H.get rt addr) [
    | some e ↦ some addr
    | none ↦ elim (H.get rt default_route) [ some e ↦ some default_route | none ↦ none ]
  ]

  -- `rtable_set_cost`; a null pointer from `rtable_get` is written through, `none`.
  pub rtable_set_cost : Rtable H → ℕ → ℕ → Option (Rtable H)
  unfolding rtable_get rtable_remove rtable_put
  rtable_set_cost rt addr cost = do
    k ← rtable_get rt addr
    old ← H.get rt k
    let new = record old { cost = cost }
    some (rtable_put H (rtable_remove H (H.put rt k new) addr) new)

  -- `lookup_route` of van_driver.c: a pointer, or null for a route of infinite cost too.
  unfoldable pub lookup_route : Rtable H → ℕ → Option ℕ
  unfolding rtable_get
  lookup_route rt addr = elim (rtable_get rt addr) [
    | none ↦ none
    | some k ↦ elim (H.get rt k) [
      | none ↦ none
      | some e ↦ if int_leb infinity e.cost then none else some k
    ]
  ]

  -- `add_route` of van_driver.c, with `malloc` succeeding; `if_type` is VAN_IO_IFTYPE.
  pub add_route : (ℕ → ℕ) → Rtable H → ℕ → ℕ → ℕ → ℕ → Rtable H
  unfolding rtable_put
  add_route if_type rt addr iface cost next_hop = rtable_put H rt (record {
    addr = addr;
    iface = iface;
    next_hop = next_hop;
    type = if_type iface;
    cost = cost;
  })

  -- `update_route` of van_driver.c: the table and whether it says that it changed.
  pub update_route : (ℕ → ℕ) → Rtable H → ℕ → ℕ → ℕ → ℕ → Rtable H × Bool
  unfolding lookup_route add_route
  update_route if_type rt addr iface cost next_hop = elim (lookup_route rt addr) [
    | none ↦ (add_route if_type rt addr iface cost next_hop, true)
    | some k ↦ elim (H.get rt k) [
      | none ↦ (rt, false)
      | some e ↦ (
        H.put rt k (record e { iface = iface; cost = cost; next_hop = next_hop }),
        not (e.iface == iface) || not (e.cost == cost) || not (e.next_hop == next_hop),
      )
    ]
  ]

  -- The end of one round of `rtable_merge`: the entry at `k`, now `l`, is compared with what the
  -- conduit `c` offers and overwritten by it.
  pub take_route : Rtable H → ℕ → Entry → Entry → ℕ → Rtable H × Bool
  take_route loc k l c cost = (
    H.put loc k (record l { iface = c.iface; next_hop = c.addr; type = c.type; cost = cost }),
    not (l.iface == c.iface && l.next_hop == c.addr && l.type == c.type && l.cost == cost),
  )

  -- What a round of `rtable_merge` does with a route that is neither to this node nor the default:
  -- a new entry, an entry that is left, or one that is overwritten. `fresh` is what the memory of a
  -- new entry holds.
  pub merge_route : Entry → Entry → Entry → ℕ → Rtable H × Bool → Option (Rtable H × Bool)
  unfolding rtable_get rtable_put take_route
  merge_route fresh r c cost (loc, modify) = elim (rtable_get loc r.addr) [
    | none ↦
        (let new = record fresh { addr = r.addr } in
          some (take_route (rtable_put H loc new) r.addr new c cost))
    | some k ↦ H.get loc k >>= λ l.
        if int_leb l.cost cost && not (l.next_hop == c.addr)
        then some (loc, modify)
        else some (take_route loc k l c cost)
  ]

  -- One round of `rtable_merge`, for the remote entry `r`: the local table and `modify`.
  -- `conduit` is a pointer into the local table, read anew in each round, since the table's entry
  -- for it may just have been overwritten.
  pub merge_entry : ℕ → Entry → ℕ → Entry → Rtable H × Bool → Option (Rtable H × Bool)
  unfolding merge_route
  merge_entry self fresh conduit r (loc, modify) = H.get loc conduit >>= λ c.
      if self == r.addr || default_route == r.addr
      then some (loc, modify)
      else merge_route fresh r c (cap_cost (add32 c.cost r.cost)) (loc, modify)

  -- The loop of `rtable_merge` over the keys of the remote table.
  pub merge_keys : ℕ → Entry → ℕ → Rtable H → List ℕ → Rtable H × Bool → Option (Rtable H × Bool)
  unfolding merge_entry
  merge_keys self fresh conduit remote [] s = some s
  merge_keys self fresh conduit remote (k ∷ ks) s = H.get remote k >>= λ r.
      merge_entry self fresh conduit r s >>= λ s'. merge_keys self fresh conduit remote ks s'

  pub rtable_merge : ℕ → Entry → Rtable H → Rtable H → ℕ → Option (Rtable H × Bool)
  unfolding merge_keys
  rtable_merge self fresh loc remote conduit =
      merge_keys self fresh conduit remote (H.keys remote) (loc, false)
