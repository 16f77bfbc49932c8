-- ===== src/Rtable/Merge/Route.antt =====
-- One route of `rtable_merge` of tcp_branch/rtable.c: what happens to the local entry.
use tcp_archive.Prelude.{
  ℕ, ◌≤◌, Option, none, some, Bool, not, ◌&&◌, ◌==◌, if◌then◌else◌, ◌≡◌, refl, ◌∙◌, arith,
  Option-cases, Bool-cases, inl, inr, int_leb, ◌⊎◌, sym, some_injective,
}
use tcp_archive.External.{HTable}
use tcp_archive.Rtable.{Entry, Rtable, infinity, rtable_get, rtable_put, take_route, merge_route}

-- What a round for the remote entry `r` may do to the local entry of its address, through the
-- conduit `c`, at the capped cost.
pub record Relaxed (before : Option Entry) (after c : Entry) (cost : ℕ) : Type 0 where
  pub offered : after.cost ≤ cost
  pub kept_better : (l : Entry) → before ≡ some l → (l.next_hop ≡ c.addr) ⊎ (after.cost ≤ l.cost)
  pub follows_conduit : (l : Entry) → before ≡ some l → l.next_hop ≡ c.addr → after.cost ≡ cost
  pub changed_through :
      (before ≡ some after)
      ⊎ ((after.next_hop ≡ c.addr) × (after.iface ≡ c.iface) × (after.cost ≡ cost))

-- Every cost of the table lies between 0 and INFINITY.
abbrev pub CostsOk : (H : HTable) → Rtable H → Type 0
CostsOk H t = (k : ℕ) (l : Entry) → H.get t k ≡ some l → l.cost ≤ infinity

module _ (H : HTable) (default_route : ℕ) where
  -- What a round leaves: one entry written or kept, all others as they were.
  pub record RoundDone (loc : Rtable H) (addr : ℕ) (c : Entry) (cost : ℕ) (loc' : Rtable H)
      : Type 0 where
    pub entry : Entry
    pub at : (j : ℕ) → H.get loc' j ≡ (if addr == j then some entry else H.get loc j)
    pub relaxed : Relaxed (H.get loc addr) entry c cost

  pub merge_route_total :
      (fresh r c : Entry) (cost : ℕ) (loc : Rtable H) (modify : Bool)
      → H.get loc default_route ≡ none
      → CostsOk H loc
      → cost ≤ infinity
      → (loc' : Rtable H) × (flag : Bool) × (merge_route H default_route fresh r c cost
            (loc, modify)
          ≡ some (loc', flag))
        × RoundDone loc r.addr c cost loc'
  unfolding merge_route take_route rtable_get rtable_put
  merge_route_total fresh r c cost loc modify nd ok small = elim (Option-cases (H.get loc r.addr)) [
    | inl p ↦
        (let new = record fresh { addr = r.addr } in
          let e : Entry = record new {
            iface = c.iface;
            next_hop = c.addr;
            type = c.type;
            cost = cost;
          } in
          let loc₁ = H.put loc r.addr new in
          (
            H.put loc₁ r.addr e,
            (take_route H default_route loc₁ r.addr new c cost).1,
            ground arith,
            record {
              entry = e;
              at = λ j. ground (arith, H.get-put loc₁ r.addr e j, H.get-put loc r.addr new j);
              relaxed = record {
                offered = omega arith;
                kept_better = λ l q. ground arith;
                follows_conduit = λ l q n. refl;
                changed_through = inr (refl, refl, refl);
              };
            },
          ))
    | inr (l, p) ↦ elim (Bool-cases (int_leb l.cost cost && not (l.next_hop == c.addr))) [
      | inl q ↦ (
        loc,
        modify,
        ground arith,
        record {
          entry = l;
          at = λ j. ground arith;
          relaxed = record {
            offered = ground (arith, ok r.addr l p);
            kept_better = λ l' q'. ground arith;
            follows_conduit = λ l' q' n. ground (arith, some_injective (sym p ∙ q'));
            changed_through = inl p;
          };
        },
      )
      | inr q ↦
          (let e : Entry = record l {
            iface = c.iface;
            next_hop = c.addr;
            type = c.type;
            cost = cost;
          } in
            (
              H.put loc r.addr e,
              (take_route H default_route loc r.addr l c cost).1,
              ground arith,
              record {
                entry = e;
                at = λ j. H.get-put loc r.addr e j;
                relaxed = record {
                  offered = omega arith;
                  kept_better = λ l' q'. ground (arith, ok r.addr l p);
                  follows_conduit = λ l' q' n. refl;
                  changed_through = inr (refl, refl, refl);
                };
              },
            ))
    ]
  ]
