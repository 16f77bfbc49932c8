-- ===== src/Rtable/Tests.antt =====
-- Runs of the routing table of tcp_branch/rtable.c, and the theorems about it at concrete inputs.
use mathlib.Core.Option as Option
use tcp_archive.Prelude.{
  add32, ◌≤◌, ℕ, ◌*◌, ◌≢◌, sym, ◌∙◌, ap, subst, length, replicate, length-replicate, Bool-cases,
  inl, inr, some_injective, ==_iff, ◌≡◌, refl, true, false, Bool, some, List, [], ◌∷◌, ◌++◌, drop,
  ◌==◌, if◌then◌else◌, arith, ◌||◌,
}
use tcp_archive.External.Concrete.{assoc_table}
use tcp_archive.Rtable.{
  cap_cost, Entry, Rtable, rtable_merge, update_route, lookup_route, rtable_poison_iface,
  rtable_serialize, rtable_unserialize,
}
use tcp_archive.Rtable.Merge.{Keyed, CostsOk, Merged, rtable_merge_lem, rtable_merge_unreported}
use tcp_archive.Rtable.Lookup.{poisoned, lookup_route-update_route, get-poison_iface}
use tcp_archive.Rtable.Wire.{IsEntry}
use tcp_archive.Rtable.Message.{
  entries, message, rtable_serialize_lem, rtable_unserialize-serialize,
}

-- Node 3 hears from node 5, over interface 1, that node 7 is 2 hops away.
abbrev to_5 : Entry
to_5 = record { addr = 5; iface = 1; next_hop = 5; type = 3; cost = 1 }

abbrev to_7 : Entry
to_7 = record { addr = 7; iface = 0; next_hop = 9; type = 3; cost = 2 }

abbrev raw : Entry
raw = record { addr = 0; iface = 0; next_hop = 0; type = 0; cost = 0 }

abbrev local : List (ℕ × Entry)
local = (5, to_5) ∷ []

abbrev offered : List (ℕ × Entry)
offered = (7, to_7) ∷ []

abbrev learned : Entry
learned = record { addr = 7; iface = 1; next_hop = 5; type = 3; cost = 3 }

offered-Keyed : Keyed assoc_table offered
offered-Keyed k l e = ground (arith, e)

offered-CostsOk : CostsOk assoc_table offered
offered-CostsOk k l e = ground (arith, e)

local-CostsOk : CostsOk assoc_table local
local-CostsOk k l e = ground (arith, e)

merges :
    rtable_merge assoc_table 255 3 raw local offered 5
    ≡ some ((7, learned) ∷ (7, record raw { addr = 7 }) ∷ local, true)
unfolding rtable_merge
merges = refl

rtable_merge_lem_example :
    (loc' : Rtable assoc_table) × (flag : Bool) × (rtable_merge assoc_table 255 3 raw local offered
        5
      ≡ some (loc', flag))
    × ((k : ℕ)
        → Merged to_5
            (assoc_table.get local k)
            (assoc_table.get offered k)
            (k == 3 || k == 255)
            (assoc_table.get loc' k))
    × CostsOk assoc_table loc'
rtable_merge_lem_example =
    rtable_merge_lem assoc_table 255 3 local offered raw to_5 5 offered-Keyed offered-CostsOk
      local-CostsOk refl refl refl

-- Node 5 offers node 8, which is new, and behind it node 7, which node 3 has from it already.
abbrev to_8 : Entry
to_8 = record { addr = 8; iface = 0; next_hop = 9; type = 3; cost = 1 }

abbrev both_offered : List (ℕ × Entry)
both_offered = (8, to_8) ∷ offered

both_offered-Keyed : Keyed assoc_table both_offered
both_offered-Keyed k l e = ground (arith, e)

both_offered-CostsOk : CostsOk assoc_table both_offered
both_offered-CostsOk k l e = ground (arith, e)

learned-CostsOk : CostsOk assoc_table ((7, learned) ∷ local)
learned-CostsOk k l e = ground (arith, e)

rtable_merge_unreported_example :
    (loc' : Rtable assoc_table) × (rtable_merge assoc_table 255 3 raw
        ((7, learned) ∷ local)
        both_offered
        5
      ≡ some (loc', false))
    × (e : Entry) × (assoc_table.get loc' 8 ≡ some e)
    × (e.cost ≤ cap_cost (add32 1 1))
rtable_merge_unreported_example =
    rtable_merge_unreported assoc_table 255 3 ((7, learned) ∷ local) both_offered raw to_5 to_7
      learned to_8 5 7 8 (8 ∷ []) both_offered-Keyed both_offered-CostsOk learned-CostsOk refl refl
      refl refl refl refl (λ e. omega (arith, e)) (λ e. omega (arith, e)) (refl, refl, refl) refl
      refl refl (λ e. omega (arith, e)) (λ e. omega (arith, e))

lookup_route-update_route_example :
    let rt' = (update_route assoc_table 255 (λ i. 3) local 8 0 1 8).0 in
    (lookup_route assoc_table 255 rt' 8 ≡ some 8)
    × ((e : Entry) × (assoc_table.get rt' 8 ≡ some e)
        × (e.iface ≡ 0)
        × (e.cost ≡ 1)
        × (e.next_hop ≡ 8))
    × ((j : ℕ)
        → assoc_table.get rt' j
          ≡ (if j == 8 then assoc_table.get rt' 8 else assoc_table.get local j))
lookup_route-update_route_example =
    lookup_route-update_route assoc_table 255 (λ i. 3) local 8 0 1 8 refl (omega arith)

get-poison_iface_example :
    assoc_table.get (rtable_poison_iface assoc_table ((7, to_7) ∷ local) 1) 5
    ≡ Option.map (poisoned 1) (assoc_table.get ((7, to_7) ∷ local) 5)
get-poison_iface_example = get-poison_iface assoc_table ((7, to_7) ∷ local) 1 5

-- The table with one route goes out whole to a node that is not known.
-- Memory that holds zeros.
abbrev zeroed : ℕ → List ℕ
zeroed n = replicate n 0

Keyed-local : Keyed assoc_table local
Keyed-local k e p = elim (Bool-cases (5 == k)) [
  | inl q ↦ (let at = rw q at p in ap (λ r. r.addr) (sym (some_injective at)) ∙ (==_iff 5 k).0 q)
  | inr q ↦ (let no = rw q at p in cc)
]

IsEntry-local : (k : ℕ) (e : Entry) → assoc_table.get local k ≡ some e → IsEntry e
IsEntry-local k e p = elim (Bool-cases (5 == k)) [
  | inl q ↦
      (let at = rw q at p in
        subst IsEntry (some_injective at) (record {
          addr = omega arith;
          iface = omega arith;
          next_hop = omega arith;
          type = omega arith;
          cost = omega arith;
        }))
  | inr q ↦ (let no = rw q at p in cc)
]

next_hop_local : (k : ℕ) (e : Entry) → assoc_table.get local k ≡ some e → e.next_hop ≢ 4294967295
next_hop_local k e p same = elim (Bool-cases (5 == k)) [
  | inl q ↦
      (let at = rw q at p in
        let z = ap (λ r. r.next_hop) (some_injective at) in absurd (omega (arith, z, same)))
  | inr q ↦ (let no = rw q at p in cc)
]

rtable_unserialize-serialize_example :
    (bytes : List ℕ) × (rtable_serialize assoc_table zeroed local 4294967295 ≡ some bytes)
    × (length bytes ≡ 20 * assoc_table.ht_size local)
    × (rt' : Rtable assoc_table) × (rtable_unserialize assoc_table bytes (length bytes) ≡ some rt')
    × ((j : ℕ) → assoc_table.get rt' j ≡ assoc_table.get local j)
rtable_unserialize-serialize_example =
    rtable_unserialize-serialize assoc_table zeroed local 4294967295 (λ n. length-replicate n 0)
      Keyed-local IsEntry-local next_hop_local

rtable_serialize_lem_example :
    let sent = message (entries assoc_table local 5 (assoc_table.keys local)) in
    rtable_serialize assoc_table zeroed local 5
    ≡ some (sent ++ drop (length sent) (zeroed (20 * length (assoc_table.keys local))))
rtable_serialize_lem_example = rtable_serialize_lem assoc_table zeroed local 5
