-- ===== src/Rtable/Merge/Rounds.antt =====
-- The rounds of `rtable_merge` of tcp_branch/rtable.c over the neighbour's entries.
use tcp_archive.Prelude.{
  ℕ, ◌≤◌, none, some, Bool, true, false, List, [], ◌∷◌, ◌==◌, contains, is_some, ◌||◌, ◌≡◌, ◌≢◌,
  refl, ◌∙◌, arith, Option-cases, Bool-cases, inl, inr, ==_iff, Distinct, add32, ◌⊎◌, subst, sym,
  ap, some_injective,
}
use tcp_archive.External.{HTable}
use tcp_archive.Rtable.{Entry, Rtable, infinity, cap_cost, merge_entry, merge_keys, rtable_merge}
use tcp_archive.Rtable.Merge.Route.{Relaxed, CostsOk, RoundDone, merge_route_total}

-- The neighbour's table as it comes in: an entry stands under its own address.
abbrev pub Keyed : (H : HTable) → Rtable H → Type 0
Keyed H t = (k : ℕ) (r : Entry) → H.get t k ≡ some r → r.addr ≡ k

module _ (H : HTable) (default_route self : ℕ) (remote : Rtable H) (keyed : Keyed H remote) where
  -- The routes that a merge leaves alone: to this node, and the default.
  abbrev pub Skipped : ℕ → Type 0
  Skipped k = (k ≡ self) ⊎ (k ≡ default_route)

  -- What the merge of the remote entries under `ks` has done.
  pub record MergeDone (loc : Rtable H) (c : Entry) (ks : List ℕ) (loc' : Rtable H) : Type 0 where
    pub taken :
        (k : ℕ) (r : Entry)
        → contains ks k ≡ true
        → H.get remote k ≡ some r
        → ¬ Skipped k
        → (e : Entry) × (H.get loc' k ≡ some e)
          × Relaxed (H.get loc k) e c (cap_cost (add32 c.cost r.cost))
    pub others : (k : ℕ) → (contains ks k ≡ false) ⊎ Skipped k → H.get loc' k ≡ H.get loc k

  -- The table that a round starts from.
  pub record Ready (loc : Rtable H) (conduit : ℕ) (c : Entry) : Type 0 where
    pub no_default : H.get loc default_route ≡ none
    pub costs : CostsOk H loc
    pub conduit_entry : H.get loc conduit ≡ some c

  merge_entry_total :
      (fresh r c : Entry) (conduit : ℕ) (loc : Rtable H) (modify : Bool)
      → Ready loc conduit c
      → r.addr ≢ conduit
      → cap_cost (add32 c.cost r.cost) ≤ infinity
      → (loc' : Rtable H) × (flag : Bool) × (merge_entry H default_route self fresh conduit r
            (loc, modify)
          ≡ some (loc', flag))
        × Ready loc' conduit c
        × ((Skipped r.addr × (loc' ≡ loc))
            ⊎ ((¬ Skipped r.addr)
                × RoundDone H default_route loc r.addr c (cap_cost (add32 c.cost r.cost)) loc'))
  unfolding merge_entry
  merge_entry_total fresh r c conduit loc modify h ne small =
      elim (Bool-cases (self == r.addr || default_route == r.addr)) [
        | inl p ↦ (loc, modify, rw (h.conduit_entry, p), h, inl (ground arith, refl))
        | inr p ↦
            (let (loc', flag, e, d) =
                merge_route_total H default_route fresh r c (cap_cost (add32 c.cost r.cost)) loc
                  modify h.no_default h.costs small in
              (
                loc',
                flag,
                rw (h.conduit_entry, p) e,
                record {
                  no_default = ground (arith, d.at default_route, h.no_default);
                  costs = λ k l q. ground (arith, d.at k, h.costs k l, d.relaxed.offered);
                  conduit_entry = ground (arith, d.at conduit, h.conduit_entry);
                },
                inr (λ k. ground arith, d),
              ))
      ]

  taken_now :
      (loc loc₁ loc' : Rtable H) (c r r' : Entry) (k : ℕ)
      → r.addr ≡ k
      → r ≡ r'
      → RoundDone H default_route loc r.addr c (cap_cost (add32 c.cost r.cost)) loc₁
      → H.get loc' k ≡ H.get loc₁ k
      → (e : Entry) × (H.get loc' k ≡ some e)
        × Relaxed (H.get loc k) e c (cap_cost (add32 c.cost r'.cost))
  taken_now loc loc₁ loc' c r r' k at_k same d frame = (
    d.entry,
    frame ∙ ground (arith, d.at k),
    subst (λ a. Relaxed (H.get loc a) d.entry c (cap_cost (add32 c.cost r'.cost))) at_k
        (subst (λ t. Relaxed (H.get loc r.addr) d.entry c (cap_cost (add32 c.cost t.cost))) same
          d.relaxed),
  )

  -- A round and then the rest of the loop.
  MergeDone-cons :
      (loc loc₁ loc' : Rtable H) (c r : Entry) (k₀ : ℕ) (ks : List ℕ)
      → H.get remote k₀ ≡ some r
      → contains ks k₀ ≡ false
      → ((Skipped r.addr × (loc₁ ≡ loc))
          ⊎ ((¬ Skipped r.addr)
              × RoundDone H default_route loc r.addr c (cap_cost (add32 c.cost r.cost)) loc₁))
      → MergeDone loc₁ c ks loc'
      → MergeDone loc c (k₀ ∷ ks) loc'
  MergeDone-cons loc loc₁ loc' c r k₀ ks p fresh_key (inl (s, e)) d = record {
    taken = λ k r' q q' ns. elim (Bool-cases (k₀ == k)) [
      | inl same ↦ absurd (ns (subst (λ a. Skipped a) (keyed k₀ r p ∙ (==_iff k₀ k).0 same) s))
      | inr ne ↦
          (let (x, a, b) = d.taken k r' (ground arith) q' ns in
            (x, a, subst (λ t. Relaxed (H.get t k) x c (cap_cost (add32 c.cost r'.cost))) e b))
    ];
    others = λ k o. d.others k (not_in k o) ∙ ap (λ t. H.get t k) e;
  }
    where
      not_in :
          (k : ℕ) → (contains (k₀ ∷ ks) k ≡ false) ⊎ Skipped k → (contains ks k ≡ false) ⊎ Skipped k
      not_in k (inl o) = inl (ground arith)
      not_in k (inr o) = inr o
  MergeDone-cons loc loc₁ loc' c r k₀ ks p fresh_key (inr (s, e)) d = record {
    taken = λ k r' q q' ns. elim (Bool-cases (k₀ == k)) [
      | inl same ↦
          (let here : k₀ ≡ k = (==_iff k₀ k).0 same in
            taken_now loc loc₁ loc' c r r' k (keyed k₀ r p ∙ here)
              (some_injective (sym (subst (λ t. H.get remote t ≡ some r) here p) ∙ q')) e
              (d.others k (inl (subst (λ t. contains ks t ≡ false) here fresh_key))))
      | inr ne ↦
          (let (x, a, b) = d.taken k r' (ground arith) q' ns in
            (x, a, subst (λ t. Relaxed t x c (cap_cost (add32 c.cost r'.cost))) (elsewhere k ne) b))
    ];
    others = λ k o. elim (Bool-cases (k₀ == k)) [
      | inl same ↦ absurd (
          s (subst (λ t. Skipped t) (sym (keyed k₀ r p ∙ (==_iff k₀ k).0 same)) (skipped k same o)))
      | inr ne ↦ d.others k (not_in k o) ∙ elsewhere k ne
    ];
  }
    where
      elsewhere : (k : ℕ) → (k₀ == k) ≡ false → H.get loc₁ k ≡ H.get loc k
      elsewhere k ne = ground (arith, e.at k, keyed k₀ r p)

      skipped : (k : ℕ) → (k₀ == k) ≡ true → (contains (k₀ ∷ ks) k ≡ false) ⊎ Skipped k → Skipped k
      skipped k same (inl o) = absurd (ground arith)
      skipped k same (inr o) = o

      not_in :
          (k : ℕ) → (contains (k₀ ∷ ks) k ≡ false) ⊎ Skipped k → (contains ks k ≡ false) ⊎ Skipped k
      not_in k (inl o) = inl (ground arith)
      not_in k (inr o) = inr o

  pub merge_keys_total :
      (fresh : Entry) (conduit : ℕ) (c : Entry) (ks : List ℕ) (loc : Rtable H) (modify : Bool)
      → CostsOk H remote
      → H.get remote conduit ≡ none
      → Distinct ks
      → ((k : ℕ) → contains ks k ≡ true → is_some (H.get remote k) ≡ true)
      → Ready loc conduit c
      → (loc' : Rtable H) × (flag : Bool) × (merge_keys H default_route self fresh conduit remote ks
            (loc, modify)
          ≡ some (loc', flag))
        × MergeDone loc c ks loc'
        × Ready loc' conduit c
  unfolding merge_keys
  merge_keys_total fresh conduit c [] loc modify ok nc ds all h =
      (loc, modify, refl, record { taken = λ k r q q' ns. cc; others = λ k o. refl }, h)
  merge_keys_total fresh conduit c (k ∷ ks) loc modify ok nc ds all h =
      elim (Option-cases (H.get remote k)) [
        | inl p ↦ absurd (ground (arith, all k))
        | inr (r, p) ↦
            (let (loc₁, flag₁, e₁, h₁, done) =
                merge_entry_total fresh r c conduit loc modify h (λ e. ground (arith, keyed k r p))
                  (ground (arith, ok k r p, h.costs conduit c h.conduit_entry)) in
              let (loc', flag, e, d, h') =
                merge_keys_total fresh conduit c ks loc₁ flag₁ ok nc ds.1
                  (λ j q. all j (ground arith)) h₁ in
              (loc', flag, rw (p, e₁) e, MergeDone-cons loc loc₁ loc' c r k ks p ds.0 done d, h'))
      ]

pub rtable_merge_rounds :
    (H : HTable) (default_route self : ℕ) (loc remote : Rtable H) (fresh c : Entry) (conduit : ℕ)
    → Keyed H remote
    → CostsOk H remote
    → CostsOk H loc
    → H.get remote conduit ≡ none
    → H.get loc default_route ≡ none
    → H.get loc conduit ≡ some c
    → (loc' : Rtable H) × (flag : Bool) × (rtable_merge H default_route self fresh loc remote
          conduit
        ≡ some (loc', flag))
      × ((k : ℕ) (r : Entry)
          → H.get remote k ≡ some r
          → ¬ ((k ≡ self) ⊎ (k ≡ default_route))
          → (e : Entry) × (H.get loc' k ≡ some e)
            × Relaxed (H.get loc k) e c (cap_cost (add32 c.cost r.cost)))
      × ((k : ℕ)
          → (H.get remote k ≡ none) ⊎ ((k ≡ self) ⊎ (k ≡ default_route))
          → H.get loc' k ≡ H.get loc k)
      × CostsOk H loc'
unfolding rtable_merge
rtable_merge_rounds H default_route self loc remote fresh c conduit keyed ok okl nc nd hc =
    let (loc', flag, e, d, h) =
      merge_keys_total H default_route self remote keyed fresh conduit c (H.keys remote) loc false
        ok nc (H.Distinct-keys remote) (λ k q. ground (arith, H.contains-keys remote k))
        (record { no_default = nd; costs = okl; conduit_entry = hc }) in
    (
      loc',
      flag,
      e,
      λ k r q ns. d.taken k r (ground (arith, H.contains-keys remote k)) q ns,
      λ k o. d.others k (listed k o),
      h.costs,
    )
  where
    listed :
        (k : ℕ)
        → (H.get remote k ≡ none) ⊎ ((k ≡ self) ⊎ (k ≡ default_route))
        → (contains (H.keys remote) k ≡ false) ⊎ ((k ≡ self) ⊎ (k ≡ default_route))
    listed k (inl p) = inl (ground (arith, H.contains-keys remote k))
    listed k (inr s) = inr s
