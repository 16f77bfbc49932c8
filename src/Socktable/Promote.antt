-- ===== src/Socktable/Promote.antt =====
-- A half socket that becomes a full one: `socktable_remove` and `socktable_promote` of tcp_branch/socktable.c.
use tcp_archive.Prelude.{
  ℕ, Option, none, some, true, false, ◌&&◌, if◌then◌else◌, ◌==◌, ◌≡◌, sym, ◌∙◌, ap₂, arith,
  Bool-cases, inl, inr, ==_iff, >>=-eq-some,
}
use tcp_archive.External.{HTable}
use tcp_archive.Socktable.{
  Tuple, Split, Socktable, socktable_get, socktable_put, socktable_remove, socktable_promote,
  table_or_new,
}
use tcp_archive.Socktable.Laws.{
  get₂, get₂-put, find_in, socktable_get_full, socktable_get_half, socktable_get-put,
}

module _ (H : HTable) where
  -- The table with the half socket of a local port taken out.
  without_half : Socktable H → ℕ → ℕ → Split H → Socktable H
  without_half st lnode lport s =
      H.put st lnode (H.put (table_or_new H (H.get st lnode)) lport (record s { half = none }))

  remove_half :
      (st : Socktable H) (lnode lport rnode rport : ℕ) (t : H.Table (Split H)) (s : Split H)
      → H.get st lnode ≡ some t
      → H.get t lport ≡ some s
      → socktable_remove H st lnode lport rnode rport false
        ≡ some (without_half st lnode lport s, s.half)
  unfolding socktable_remove without_half
  remove_half st lnode lport rnode rport t s e e' = rw (e, e', socktable_remove, without_half)

  half-without_half :
      (st : Socktable H) (lnode lport : ℕ) (s : Split H) (n p : ℕ)
      → socktable_get H (without_half st lnode lport s) n p 0 0 false
        ≡ (if lnode == n && lport == p then none else socktable_get H st n p 0 0 false)
  unfolding without_half
  half-without_half st lnode lport s n p =
      rw (socktable_get_half, get₂-put)
        (elim (Bool-cases (lnode == n && lport == p)) [
          | inl q ↦ rw q
          | inr q ↦ rw (q, socktable_get_half H st n p 0 0)
        ])

  full-without_half :
      (st : Socktable H) (lnode lport : ℕ) (s : Split H) (n p m q : ℕ)
      → get₂ H st lnode lport ≡ some s
      → socktable_get H (without_half st lnode lport s) n p m q true
        ≡ socktable_get H st n p m q true
  unfolding without_half find_in
  full-without_half st lnode lport s n p m q e =
      rw (socktable_get_full, get₂-put)
        (elim (Bool-cases (lnode == n && lport == p)) [
          | inl z ↦
              (let here : get₂ H st n p ≡ some s =
                  sym (
                    ap₂ (λ a b. get₂ H st a b) (ground (arith, z, ==_iff lnode n))
                      (ground (arith, z, ==_iff lport p)))
                  ∙ e in
                rw (z, socktable_get_full H st n p m q, here))
          | inr z ↦ rw (z, socktable_get_full H st n p m q)
        ])

  -- `socktable_promote` of a socket whose local port has a half socket goes through: the half socket
  -- is gone and the socket is found by its four-tuple. The lookups of all other half and full sockets are as before.
  pub socktable_promote_lem :
      (st : Socktable H) (t : Tuple) (sock old : ℕ) (n p m q : ℕ)
      → socktable_get H st t.lnode t.lport 0 0 false ≡ some old
      → (st' : Socktable H) × (r : Option ℕ) × (socktable_promote H st t sock ≡ some (st', r))
        × (socktable_get H st' n p 0 0 false
            ≡ (if t.lnode == n && t.lport == p then none else socktable_get H st n p 0 0 false))
        × (socktable_get H st' n p m q true ≡ (
            if (t.lnode == n && t.lport == p) && (t.rnode == m && t.rport == q)
            then some sock
            else socktable_get H st n p m q true))
  unfolding socktable_promote
  socktable_promote_lem st t sock old n p m q e =
      let (s, a, b) =
        >>=-eq-some (get₂ H st t.lnode t.lport) _
          (sym (socktable_get_half H st t.lnode t.lport 0 0) ∙ e) in
      let (u, c, d) = >>=-eq-some (H.get st t.lnode) _ a in
      let st₁ = without_half st t.lnode t.lport s in
      let halves = (socktable_get-put H st₁ t sock n p 0 0).1 in
      let fulls = (socktable_get-put H st₁ t sock n p m q).0 in
      (
        (socktable_put H st₁ t sock true).0,
        (socktable_put H st₁ t sock true).1,
        rw (remove_half st t.lnode t.lport t.rnode t.rport u s c d) (rw b),
        halves ∙ half-without_half st t.lnode t.lport s n p,
        fulls ∙ rw (full-without_half st t.lnode t.lport s n p m q a),
      )
