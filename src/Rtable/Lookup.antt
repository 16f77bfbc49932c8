-- ===== src/Rtable/Lookup.antt =====
-- Lookups, updates and poisoning of routes: tcp_branch/rtable.c, and `lookup_route`, `add_route` and
-- `update_route` of tcp_branch/van_driver.c.
use mathlib.Core.Option
use tcp_archive.Prelude.{
  ℕ, ◌<◌, none, some, List, [], ◌∷◌, ◌==◌, if◌then◌else◌, contains, is_some, ◌≡◌, refl, arith,
  Option-cases, Bool-cases, inl, inr, int_leb,
}
use tcp_archive.External.{HTable}
use tcp_archive.Rtable.{
  Entry, Rtable, infinity, poison_keys, rtable_poison_iface, rtable_get, lookup_route, add_route,
  update_route, rtable_put,
}

-- An entry after its interface, maybe, went down.
abbrev pub poisoned : ℕ → Entry → Entry
poisoned iface e = if e.iface == iface then record e { cost = infinity } else e

module _ (H : HTable) where
  poison_one : ℕ → ℕ → Rtable H → Rtable H
  poison_one iface k rt = elim (H.get rt k) [
    | none ↦ rt
    | some e ↦ if e.iface == iface then H.put rt k (record e { cost = infinity }) else rt
  ]

  get-poison_one :
      (iface k j : ℕ) (rt : Rtable H)
      → H.get (poison_one iface k rt) j
        ≡ (if k == j then Option.map (poisoned iface) (H.get rt j) else H.get rt j)
  unfolding poison_one
  get-poison_one iface k j rt = elim (Option-cases (H.get rt k)) [
    | inl p ↦ ground arith
    | inr (e, p) ↦ ground (arith, H.get-put rt k (record e { cost = infinity }) j)
  ]

  get-poison_keys :
      (iface : ℕ) (ks : List ℕ) (j : ℕ) (rt : Rtable H)
      → H.get (poison_keys H iface ks rt) j
        ≡ (if contains ks j then Option.map (poisoned iface) (H.get rt j) else H.get rt j)
  unfolding poison_keys poison_one
  get-poison_keys iface [] j rt = refl
  get-poison_keys iface (k ∷ ks) j rt =
      ground
        (arith, get-poison_keys iface ks j (poison_one iface k rt), get-poison_one iface k j rt)

  -- After `rtable_poison_iface` every route over the interface has infinite cost, and all else of
  -- the table is as it was.
  pub get-poison_iface :
      (rt : Rtable H) (iface j : ℕ)
      → H.get (rtable_poison_iface H rt iface) j ≡ Option.map (poisoned iface) (H.get rt j)
  unfolding rtable_poison_iface
  get-poison_iface rt iface j =
      ground (arith, get-poison_keys iface (H.keys rt) j rt, H.contains-keys rt j)

module _ (H : HTable) (default_route : ℕ) where
  -- `rtable_get` finds the entry of the address itself, and only without one the default route's.
  pub rtable_get_cases :
      (rt : Rtable H) (addr : ℕ)
      → rtable_get H default_route rt addr ≡ (
          if is_some (H.get rt addr)
          then some addr
          else (if is_some (H.get rt default_route) then some default_route else none))
  unfolding rtable_get
  rtable_get_cases rt addr = ground arith

  lookup_route_finite :
      (rt : Rtable H) (addr : ℕ) (e : Entry)
      → H.get rt addr ≡ some e
      → e.cost < infinity
      → lookup_route H default_route rt addr ≡ some addr
  unfolding lookup_route rtable_get
  lookup_route_finite rt addr e p small = ground arith

  -- Without a default route `update_route` is a write at the address, whichever way it goes.
  update_route_put :
      (if_type : ℕ → ℕ) (rt : Rtable H) (addr iface cost next_hop : ℕ)
      → H.get rt default_route ≡ none
      → (e : Entry) × ((update_route H default_route if_type rt addr iface cost next_hop).0
          ≡ H.put rt addr e)
        × (e.iface ≡ iface)
        × (e.cost ≡ cost)
        × (e.next_hop ≡ next_hop)
  unfolding update_route lookup_route rtable_get add_route rtable_put
  update_route_put if_type rt addr iface cost next_hop nd = elim (Option-cases (H.get rt addr)) [
    | inl p ↦ (fresh_entry, ground arith, refl, refl, refl)
    | inr (e, p) ↦ elim (Bool-cases (int_leb infinity e.cost)) [
      | inl q ↦ (fresh_entry, ground arith, refl, refl, refl)
      | inr q ↦ (
        record e { iface = iface; cost = cost; next_hop = next_hop },
        ground arith,
        refl,
        refl,
        refl,
      )
    ]
  ]
    where
      fresh_entry : Entry
      fresh_entry = record {
        addr = addr;
        iface = iface;
        next_hop = next_hop;
        type = if_type iface;
        cost = cost;
      }

  -- Without a default route, `update_route` with a finite cost leaves the address with the route
  -- given, and the lookup finds it; every other address keeps its entry.
  pub lookup_route-update_route :
      (if_type : ℕ → ℕ) (rt : Rtable H) (addr iface cost next_hop : ℕ)
      → H.get rt default_route ≡ none
      → cost < infinity
      → let rt' = (update_route H default_route if_type rt addr iface cost next_hop).0 in
        (lookup_route H default_route rt' addr ≡ some addr)
        × ((e : Entry) × (H.get rt' addr ≡ some e)
            × (e.iface ≡ iface)
            × (e.cost ≡ cost)
            × (e.next_hop ≡ next_hop))
        × ((j : ℕ) → H.get rt' j ≡ (if j == addr then H.get rt' addr else H.get rt j))
  unfolding update_route
  lookup_route-update_route if_type rt addr iface cost next_hop nd small =
      let (e, p, a, b, d) = update_route_put if_type rt addr iface cost next_hop nd in
      rw p (
        lookup_route_finite (H.put rt addr e) addr e get_self (rw b small),
        (e, get_self, a, b, d),
        λ j. ground (arith, H.get-put rt addr e j, H.get-put rt addr e addr),
      )
    where
      get_self :
          H.get (H.put rt addr (update_route_put if_type rt addr iface cost next_hop nd).0) addr
          ≡ some (update_route_put if_type rt addr iface cost next_hop nd).0
      get_self = ground (
        arith,
        H.get-put rt addr (update_route_put if_type rt addr iface cost next_hop nd).0 addr,
      )
