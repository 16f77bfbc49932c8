-- ===== src/Rtable/Merge.antt =====
-- `rtable_merge` of tcp_branch/rtable.c: one round of distance-vector routing with a neighbour's
-- table, through the route to that neighbour, the conduit.
mod Route
mod Rounds
use tcp_archive.Prelude.{
  List, [], ◌∷◌, ◌++◌, contains, Distinct, true, false, refl, sym, ap, ◌∙◌, subst, some_injective,
  >>=-eq-some, ℕ, ◌≤◌, Option, none, some, Bool, not, ◌&&◌, ◌==◌, if◌then◌else◌, is_some, ◌||◌, ◌≡◌,
  ◌≢◌, arith, Option-cases, Bool-cases, inl, inr, int_leb, ==_iff, add32, ◌⊎◌, ◌>>=◌,
}
use tcp_archive.External.{HTable}
use tcp_archive.Rtable.{
  Entry, Rtable, infinity, cap_cost, rtable_get, rtable_put, take_route, merge_route, merge_entry,
  merge_keys, rtable_merge,
}
pub use tcp_archive.Rtable.Merge.Route.{Relaxed, CostsOk}
pub use tcp_archive.Rtable.Merge.Rounds.{Keyed}
use tcp_archive.Rtable.Merge.Rounds.{rtable_merge_rounds, merge_keys_total}

-- The entry after the merge for an address with the local entry `before` and the neighbour's entry
-- `offered`; `skipped` says that the merge passes over the address.
abbrev pub Merged :
    (c : Entry) (before offered : Option Entry) (skipped : Bool) (after : Option Entry) → Type 0
Merged c before none skipped after = after ≡ before
Merged c before (some r) true after = after ≡ before
Merged c before (some r) false after =
    (e : Entry) × (after ≡ some e) × Relaxed before e c (cap_cost (add32 c.cost r.cost))

-- `rtable_merge` with a neighbour's table, whose entries stand under their own addresses, cost 0
-- to 16 each and do not name the neighbour; the local table has an entry for the neighbour, costs
-- of 0 to 16 and no default route. It never ends the process. Each address of the neighbour's
-- table but this node's own and the default ends with an entry that costs at most what the
-- neighbour offers, and just that if the old entry went through the neighbour; else it is not
-- dearer than the old one. It is the old entry or goes through the neighbour at the offered cost.
-- Every other address keeps its entry, and all costs stay between 0 and 16.
pub rtable_merge_lem :
    (H : HTable) (default_route self : ℕ) (loc remote : Rtable H) (fresh c : Entry) (conduit : ℕ)
    → Keyed H remote
    → CostsOk H remote
    → CostsOk H loc
    → H.get remote conduit ≡ none
    → H.get loc default_route ≡ none
    → H.get loc conduit ≡ some c
    → (loc' : Rtable H) × (flag : Bool) × (rtable_merge H default_route self fresh loc remote
          conduit
        ≡ some (loc', flag))
      × ((k : ℕ)
          → Merged c
              (H.get loc k)
              (H.get remote k)
              (k == self || k == default_route)
              (H.get loc' k))
      × CostsOk H loc'
rtable_merge_lem H default_route self loc remote fresh c conduit keyed ok okl nc nd hc =
    let (loc', flag, e, taken, others, costs) =
      rtable_merge_rounds H default_route self loc remote fresh c conduit keyed ok okl nc nd hc in
    (loc', flag, e, (λ k. merged k loc' (taken k) (others k)), costs)
  where
    merged :
        (k : ℕ) (loc' : Rtable H)
        → ((r : Entry)
            → H.get remote k ≡ some r
            → ¬ ((k ≡ self) ⊎ (k ≡ default_route))
            → (e : Entry) × (H.get loc' k ≡ some e)
              × Relaxed (H.get loc k) e c (cap_cost (add32 c.cost r.cost)))
        → ((H.get remote k ≡ none) ⊎ ((k ≡ self) ⊎ (k ≡ default_route))
            → H.get loc' k ≡ H.get loc k)
        → Merged c (H.get loc k) (H.get remote k) (k == self || k == default_route) (H.get loc' k)
    merged k loc' taken others = elim (Option-cases (H.get remote k)) [
      | inl p ↦ rw p (others (inl p))
      | inr (r, p) ↦ elim (Bool-cases (k == self || k == default_route)) [
        | inl b ↦ rw (p, b) (others (inr (ground (arith, b))))
        | inr b ↦ rw (p, b) (taken r p (λ o. ground (arith, b, o)))
      ]
    ]

-- A round for a route that the local table has as the neighbour offers it reports no change.
merge_entry_forgets :
    (H : HTable) (default_route self : ℕ) (loc : Rtable H) (fresh c r l : Entry) (conduit : ℕ)
    (modify : Bool)
    → H.get loc conduit ≡ some c
    → H.get loc r.addr ≡ some l
    → r.addr ≢ self
    → r.addr ≢ default_route
    → l.iface ≡ c.iface
    → l.next_hop ≡ c.addr
    → l.type ≡ c.type
    → l.cost ≡ cap_cost (add32 c.cost r.cost)
    → (merge_entry H default_route self fresh conduit r (loc, modify) >>= λ s. some s.1)
      ≡ some false
unfolding merge_entry merge_route take_route rtable_get
merge_entry_forgets H default_route self loc fresh c r l conduit modify hc hl ns nd a b d e =
    rw (hc, not_skipped) (ground arith)
  where
    not_skipped : (self == r.addr || default_route == r.addr) ≡ false
    not_skipped = ground arith

contains-snoc :
    (ks : List ℕ) (last k : ℕ)
    → contains (ks ++ (last ∷ [])) k ≡ false
    → (contains ks k ≡ false) × ((last == k) ≡ false)
contains-snoc [] last k h = (refl, ground (arith, h))
contains-snoc (x ∷ ks) last k h =
    let (a, b) = contains-snoc ks last k (ground (arith, h)) in (ground (arith, h, a), b)

Distinct-snoc :
    (ks : List ℕ) (last : ℕ)
    → Distinct (ks ++ (last ∷ []))
    → Distinct ks × (contains ks last ≡ false)
Distinct-snoc [] last d = (tt, refl)
Distinct-snoc (x ∷ ks) last d =
    let (a, b) = Distinct-snoc ks last d.1 in
    let (c, e) = contains-snoc ks last x d.0 in ((c, a), ground (arith, b, e))

contains-front :
    (ks : List ℕ) (last k : ℕ) → contains ks k ≡ true → contains (ks ++ (last ∷ [])) k ≡ true
contains-front [] last k h = cc
contains-front (x ∷ ks) last k h = ground (arith, h, contains-front ks last k)

module _ (H : HTable) (default_route self : ℕ) where
  merge_keys-snoc :
      (fresh : Entry) (conduit : ℕ) (remote : Rtable H) (ks : List ℕ) (last : ℕ)
      (s s' : Rtable H × Bool)
      → merge_keys H default_route self fresh conduit remote ks s ≡ some s'
      → merge_keys H default_route self fresh conduit remote (ks ++ (last ∷ [])) s
        ≡ merge_keys H default_route self fresh conduit remote (last ∷ []) s'
  unfolding merge_keys
  merge_keys-snoc fresh conduit remote [] last s s' e =
      ap (merge_keys H default_route self fresh conduit remote (last ∷ [])) (some_injective e)
  merge_keys-snoc fresh conduit remote (k ∷ ks) last s s' e =
      let (r, p, e₁) = >>=-eq-some (H.get remote k) _ e in
      let (t, q, e₂) = >>=-eq-some (merge_entry H default_route self fresh conduit r s) _ e₁ in
      rw p (rw q (merge_keys-snoc fresh conduit remote ks last t s' e₂))

  last_forgets :
      (loc remote : Rtable H) (fresh c r l : Entry) (conduit last : ℕ) (front : List ℕ)
      → Keyed H remote
      → CostsOk H remote
      → CostsOk H loc
      → H.get remote conduit ≡ none
      → H.get loc default_route ≡ none
      → H.get loc conduit ≡ some c
      → H.keys remote ≡ front ++ (last ∷ [])
      → H.get remote last ≡ some r
      → H.get loc last ≡ some l
      → last ≢ self
      → last ≢ default_route
      → (l.iface ≡ c.iface) × (l.next_hop ≡ c.addr) × (l.type ≡ c.type)
      → l.cost ≡ cap_cost (add32 c.cost r.cost)
      → (rtable_merge H default_route self fresh loc remote conduit >>= λ s. some s.1) ≡ some false
  unfolding rtable_merge merge_keys
  last_forgets loc remote fresh c r l conduit last front keyed ok okl nc nd hc order hr hl ns ndl
        (a, b, d) cost =
      let (distinct, absent) =
        Distinct-snoc front last (subst Distinct order (H.Distinct-keys remote)) in
      let (loc₁, flag₁, run, done, ready) =
        merge_keys_total H default_route self remote keyed fresh conduit c front loc false ok nc
          distinct
          (λ k q.
            sym (H.contains-keys remote k)
            ∙ ap (λ ks. contains ks k) order
            ∙ contains-front front last k q)
          (record { no_default = nd; costs = okl; conduit_entry = hc }) in
      let addr : r.addr ≡ last = keyed last r hr in
      let kept : H.get loc₁ r.addr ≡ some l =
        ap (H.get loc₁) addr ∙ done.others last (inl absent) ∙ hl in
      let forgets =
        merge_entry_forgets H default_route self loc₁ fresh c r l conduit flag₁ ready.conduit_entry
          kept (λ e. ns (sym addr ∙ e)) (λ e. ndl (sym addr ∙ e)) a b d cost in
      let (t, q, e) =
        >>=-eq-some (merge_entry H default_route self fresh conduit r (loc₁, flag₁)) _ forgets in
      let whole : merge_keys H default_route self fresh conduit remote (last ∷ []) (loc₁, flag₁)
          ≡ some t =
        rw (hr, merge_keys) (rw q refl) in
      ap
        (λ ks.
          merge_keys H default_route self fresh conduit remote ks (loc, false) >>= λ s. some s.1)
        order
      ∙ ap (λ o. o >>= λ s. some s.1)
          (merge_keys-snoc fresh conduit remote front last (loc, false) (loc₁, flag₁) run ∙ whole)
      ∙ e

  -- `rtable_merge` may change the table and say that it did not: where the neighbour's table has a route that is new,
  -- neither to this node nor the default, and the last route that it lists, neither of these either, is one that the
  -- local table has through the neighbour as it is offered, it puts the new route into the table, at no more than the cost offered, and returns 0. The two
  -- tables are as for the merge: entries of the neighbour stand under their own addresses and do not name it, costs are
  -- 0 to 16, and the local table has an entry for the neighbour and no default route.
  pub rtable_merge_unreported :
      (loc remote : Rtable H) (fresh c r l offered : Entry) (conduit last new : ℕ) (front : List ℕ)
      → Keyed H remote
      → CostsOk H remote
      → CostsOk H loc
      → H.get remote conduit ≡ none
      → H.get loc default_route ≡ none
      → H.get loc conduit ≡ some c
      → H.keys remote ≡ front ++ (last ∷ [])
      → H.get remote last ≡ some r
      → H.get loc last ≡ some l
      → last ≢ self
      → last ≢ default_route
      → (l.iface ≡ c.iface) × (l.next_hop ≡ c.addr) × (l.type ≡ c.type)
      → l.cost ≡ cap_cost (add32 c.cost r.cost)
      → H.get remote new ≡ some offered
      → H.get loc new ≡ none
      → new ≢ self
      → new ≢ default_route
      → (loc' : Rtable H) × (rtable_merge H default_route self fresh loc remote conduit
          ≡ some (loc', false))
        × (e : Entry) × (H.get loc' new ≡ some e)
        × (e.cost ≤ cap_cost (add32 c.cost offered.cost))
  rtable_merge_unreported loc remote fresh c r l offered conduit last new front keyed ok okl nc nd
        hc order hr hl ns ndl same cost found absent nself ndefault =
      let (loc', flag, run, taken, _, _) =
        rtable_merge_rounds H default_route self loc remote fresh c conduit keyed ok okl nc nd hc in
      let silent : some flag ≡ some false =
        sym (ap (λ o. o >>= λ s. some s.1) run)
        ∙ last_forgets loc remote fresh c r l conduit last front keyed ok okl nc nd hc order hr hl
            ns ndl same cost in
      let (e, here, relaxed) =
        taken new offered found (λ o. elim o [ inl p ↦ nself p | inr p ↦ ndefault p ]) in
      (loc', run ∙ ap (λ z. some (loc', z)) (some_injective silent), e, here, relaxed.offered)
