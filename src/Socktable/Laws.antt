-- ===== src/Socktable/Laws.antt =====
-- Lookups after stores in tcp_branch/socktable.c.
use tcp_archive.Prelude.{
  ℕ, Option, none, some, true, false, ◌&&◌, if◌then◌else◌, ◌>>=◌, ◌==◌, ◌≡◌, refl, ◌∙◌, ap, ap₂,
  arith, Bool-cases, inl, inr, ==_iff, ==_refl,
}
use tcp_archive.External.{HTable}
use tcp_archive.Socktable.{
  Tuple, Split, Socktable, alloc_ssplit, table_or_new, put_full, socktable_get, socktable_put,
}

module _ (H : HTable) where
  -- A lookup through two tables.
  abbrev pub get₂ : {A : Type 0} → H.Table (H.Table A) → ℕ → ℕ → Option A
  get₂ t k j = H.get t k >>= λ u. H.get u j

  get-table_or_new :
      {A : Type 0} (o : Option (H.Table A)) (j : ℕ)
      → H.get (table_or_new H o) j ≡ (o >>= λ u. H.get u j)
  get-table_or_new none j = H.get-empty j
  get-table_or_new (some u) j = refl

  -- A store through two tables, the inner one made if it is not there.
  pub get₂-put :
      {A : Type 0} (t : H.Table (H.Table A)) (k j : ℕ) (v : A) (k' j' : ℕ)
      → get₂ (H.put t k (H.put (table_or_new H (H.get t k)) j v)) k' j'
        ≡ (if k == k' && j == j' then some v else get₂ t k' j')
  get₂-put {A} t k j v k' j' = elim (Bool-cases (k == k')) [
    | inl p ↦ rw (H.get-put, p, H.get-put, get-table_or_new) (rw ((==_iff k k').0 p))
    | inr p ↦ rw (H.get-put, p)
  ]

  -- A full socket's lookup, in a split.
  unfoldable pub find_in : Split H → ℕ → ℕ → Option ℕ
  find_in s rnode rport = s.full >>= λ rnode_h. get₂ rnode_h rnode rport

  get₂-table_or_new :
      {A : Type 0} (o : Option (H.Table (H.Table A))) (k j : ℕ)
      → get₂ (table_or_new H o) k j ≡ (o >>= λ u. get₂ u k j)
  get₂-table_or_new none k j = rw (H.get-empty k)
  get₂-table_or_new (some u) k j = refl

  find_in-put_full :
      (s : Split H) (t : Tuple) (sock rnode rport : ℕ)
      → find_in (put_full H s t sock).0 rnode rport
        ≡ (if t.rnode == rnode && t.rport == rport then some sock else find_in s rnode rport)
  unfolding find_in put_full
  find_in-put_full s t sock rnode rport =
      get₂-put (table_or_new H s.full) t.rnode t.rport sock rnode rport
      ∙ ap (λ o. if t.rnode == rnode && t.rport == rport then some sock else o)
          (get₂-table_or_new s.full rnode rport)

  -- The split that a store of a full socket leaves for its local port: that of the port, or a new
  -- one, with the socket in it.
  stored_split : Option (Split H) → Tuple → ℕ → Split H
  unfolding put_full alloc_ssplit
  stored_split (some rsplit) t sock = (put_full H rsplit t sock).0
  stored_split none t sock = (put_full H (alloc_ssplit H none) t sock).0

  put_full_eq :
      (st : Socktable H) (t : Tuple) (sock : ℕ)
      → (socktable_put H st t sock true).0
        ≡ H.put st t.lnode (
            H.put
              (table_or_new H (H.get st t.lnode))
              t.lport
              (stored_split (get₂ st t.lnode t.lport) t sock))
  unfolding socktable_put stored_split
  put_full_eq st t sock =
      first
      ∙ ap (λ o. H.put st t.lnode (H.put lport_h t.lport (stored_split o t sock)))
          (get-table_or_new (H.get st t.lnode) t.lport)
    where
      lport_h : H.Table (Split H)
      lport_h = table_or_new H (H.get st t.lnode)

      first :
          (socktable_put H st t sock true).0
          ≡ H.put st t.lnode (H.put lport_h t.lport (stored_split (H.get lport_h t.lport) t sock))
      first = ground arith

  pub socktable_get_full :
      (st : Socktable H) (lnode lport rnode rport : ℕ)
      → socktable_get H st lnode lport rnode rport true
        ≡ (get₂ st lnode lport >>= λ s. find_in s rnode rport)
  unfolding socktable_get find_in
  socktable_get_full st lnode lport rnode rport = ground arith

  pub socktable_get_half :
      (st : Socktable H) (lnode lport rnode rport : ℕ)
      → socktable_get H st lnode lport rnode rport false ≡ (get₂ st lnode lport >>= λ s. s.half)
  unfolding socktable_get
  socktable_get_half st lnode lport rnode rport = ground arith

  find_in-stored_split :
      (o : Option (Split H)) (t : Tuple) (sock rnode rport : ℕ)
      → find_in (stored_split o t sock) rnode rport ≡ (
          if t.rnode == rnode && t.rport == rport
          then some sock
          else (o >>= λ s. find_in s rnode rport))
  unfolding stored_split
  find_in-stored_split (some s) t sock rnode rport = find_in-put_full s t sock rnode rport
  find_in-stored_split none t sock rnode rport =
      find_in-put_full (alloc_ssplit H none) t sock rnode rport
      ∙ ap (λ o. if t.rnode == rnode && t.rport == rport then some sock else o)
          (unfold find_in alloc_ssplit in rw (H.get-empty rnode))

  half-stored_split :
      (o : Option (Split H)) (t : Tuple) (sock : ℕ)
      → (stored_split o t sock).half ≡ (o >>= λ s. s.half)
  unfolding stored_split
  half-stored_split (some s) t sock = refl
  half-stored_split none t sock = refl

  -- A store of a full socket is found by its own four-tuple, changes the lookup of no other one, and
  -- leaves the half sockets.
  pub socktable_get-put :
      (st : Socktable H) (t : Tuple) (sock lnode lport rnode rport : ℕ)
      → let st' = (socktable_put H st t sock true).0 in
        (socktable_get H st' lnode lport rnode rport true ≡ (
          if (t.lnode == lnode && t.lport == lport) && (t.rnode == rnode && t.rport == rport)
          then some sock
          else socktable_get H st lnode lport rnode rport true))
        × (socktable_get H st' lnode lport rnode rport false
            ≡ socktable_get H st lnode lport rnode rport false)
  socktable_get-put st t sock lnode lport rnode rport =
      rw (put_full_eq, socktable_get_full, socktable_get_half, get₂-put)
        (elim (Bool-cases (t.lnode == lnode && t.lport == lport)) [
          | inl p ↦
              rw (p, same_place p)
                (
                  rw (find_in-stored_split, socktable_get_full st lnode lport rnode rport),
                  rw (half-stored_split, socktable_get_half st lnode lport rnode rport),
                )
          | inr p ↦ rw p (
            rw (socktable_get_full st lnode lport rnode rport),
            rw (socktable_get_half st lnode lport rnode rport),
          )
        ])
    where
      same_place :
          (t.lnode == lnode && t.lport == lport) ≡ true
          → get₂ st t.lnode t.lport ≡ get₂ st lnode lport
      same_place p =
          ap₂ (λ a b. get₂ st a b) (ground (arith, ==_iff t.lnode lnode))
            (ground (arith, ==_iff t.lport lport))

  put_half_new :
      (st : Socktable H) (t : Tuple) (sock : ℕ)
      → H.get (table_or_new H (H.get st t.lnode)) t.lport ≡ none
      → (socktable_put H st t sock false).0
        ≡ H.put st t.lnode
            (H.put (table_or_new H (H.get st t.lnode)) t.lport (alloc_ssplit H (some sock)))
  unfolding socktable_put
  put_half_new st t sock p = ground arith

  put_half_used :
      (st : Socktable H) (t : Tuple) (sock : ℕ) (s : Split H)
      → H.get (table_or_new H (H.get st t.lnode)) t.lport ≡ some s
      → (socktable_put H st t sock false).0 ≡ (socktable_put H st t sock true).0
  unfolding socktable_put
  put_half_used st t sock s p = ground arith

  -- At a local port that the table does not know yet, a half socket is found by its port.
  pub socktable_put_half_new :
      (st : Socktable H) (t : Tuple) (sock : ℕ)
      → get₂ st t.lnode t.lport ≡ none
      → socktable_get H (socktable_put H st t sock false).0 t.lnode t.lport 0 0 false ≡ some sock
  socktable_put_half_new st t sock p =
      rw
        (
          put_half_new st t sock (get-table_or_new (H.get st t.lnode) t.lport ∙ p),
          socktable_get_half,
          get₂-put,
          ==_refl,
          ==_refl,
        )
        (unfold alloc_ssplit in refl)

  -- At a local port that has been used, even one whose half socket is gone, `socktable_put` of a half
  -- socket leaves the half socket there as it was, and files the new one as a full socket.
  pub socktable_put_half :
      (st : Socktable H) (t : Tuple) (sock : ℕ) (s : Split H)
      → get₂ st t.lnode t.lport ≡ some s
      → let st' = (socktable_put H st t sock false).0 in
        (socktable_get H st' t.lnode t.lport 0 0 false ≡ s.half)
        × (socktable_get H st' t.lnode t.lport t.rnode t.rport true ≡ some sock)
  socktable_put_half st t sock s p =
      rw (put_half_used st t sock s (get-table_or_new (H.get st t.lnode) t.lport ∙ p)) (
        (socktable_get-put st t sock t.lnode t.lport 0 0).1
            ∙ socktable_get_half st t.lnode t.lport 0 0
            ∙ ap (λ o. o >>= λ s. s.half) p,
        (socktable_get-put st t sock t.lnode t.lport t.rnode t.rport).0
            ∙ rw (==_refl, ==_refl, ==_refl, ==_refl),
      )
