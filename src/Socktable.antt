-- ===== src/Socktable.antt =====
-- tcp_branch/socktable.h and tcp_branch/socktable.c: the table of sockets by their four-tuple. It is a
-- hash table by local node, of hash tables by local port, of splits that hold a half socket and a
-- table of the full sockets by remote node and remote port. A socket is pointed to by its number, and
-- `alloc_htable` and `alloc_ssplit` succeed.
mod Tests
pub mod Laws
pub mod Promote
use tcp_archive.Prelude.{
  ℕ, Option, none, some, Bool, true, false, ◌||◌, not, is_some, if◌then◌else◌, ◌>>=◌,
}
use tcp_archive.External.{HTable}

-- The four-tuple of a socket.
pub record Tuple : Type 0 where
  pub lnode : ℕ
  pub lport : ℕ
  pub rnode : ℕ
  pub rport : ℕ

module _ (H : HTable) where
  -- `socksplit_t`; the null pointer `full` is `none`.
  pub record Split : Type 0 where
    pub full : Option (H.Table (H.Table ℕ))
    pub half : Option ℕ

  -- `socktable_t`
  abbrev pub Socktable : Type 0
  Socktable = H.Table (H.Table Split)

  unfoldable pub socktable_init : Socktable
  socktable_init = H.empty

  -- `alloc_ssplit`: the split for a half socket has no table of full sockets.
  unfoldable pub alloc_ssplit : Option ℕ → Split
  alloc_ssplit sock = record { half = sock; full = if is_some sock then none else some H.empty }

  unfoldable pub socktable_get : Socktable → ℕ → ℕ → ℕ → ℕ → Bool → Option ℕ
  socktable_get st lnode lport rnode rport full = H.get st lnode >>= λ lport_h.
      H.get lport_h lport >>= λ rsplit.
      if full
      then (rsplit.full >>= λ rnode_h. H.get rnode_h rnode >>= λ rport_h. H.get rport_h rport)
      else rsplit.half

  -- A table that the code finds, or makes and stores.
  abbrev table_or_new : {A : Type 0} → Option (H.Table A) → H.Table A
  table_or_new none = H.empty
  table_or_new (some t) = t

  -- The end of `socktable_put`: the socket into the split's table of full sockets, which is made if
  -- it is not there, and so is the table of the remote node.
  unfoldable pub put_full : Split → Tuple → ℕ → Split × Option ℕ
  put_full rsplit t sock =
      let rnode_h = table_or_new rsplit.full in
      let rport_h = table_or_new (H.get rnode_h t.rnode) in
      (
        record rsplit { full = some (H.put rnode_h t.rnode (H.put rport_h t.rport sock)) },
        H.get rport_h t.rport,
      )

  -- `socktable_put`, by the tuple of the socket `sock`: the table and what it returns. For a half
  -- socket it returns early only if it has made the split; at a split that is there it goes on and
  -- stores the socket as a full one.
  unfoldable pub socktable_put : Socktable → Tuple → ℕ → Bool → Socktable × Option ℕ
  unfolding alloc_ssplit put_full
  socktable_put st t sock full =
      let lport_h = table_or_new (H.get st t.lnode) in
      let store : Split → Socktable = λ s. H.put st t.lnode (H.put lport_h t.lport s) in
      elim (H.get lport_h t.lport) [
        | some rsplit ↦ (let (s, old) = put_full rsplit t sock in (store s, old))
        | none ↦
            (let fresh = alloc_ssplit (if full then none else some sock) in
              let (s, old) = put_full fresh t sock in
              if full then (store s, old) else (store fresh, none))
      ]

  -- `socktable_remove`. Through a split with no table of full sockets `htable_get` gets a null
  -- pointer: the outer `none`.
  pub socktable_remove : Socktable → ℕ → ℕ → ℕ → ℕ → Bool → Option (Socktable × Option ℕ)
  socktable_remove st lnode lport rnode rport full = elim (H.get st lnode) [
    | none ↦ some (st, none)
    | some lport_h ↦ elim (H.get lport_h lport) [
      | none ↦ some (st, none)
      | some rsplit ↦
          (let store : Split → Socktable = λ s. H.put st lnode (H.put lport_h lport s) in
            if full
            then (rsplit.full >>= λ rnode_h. elim (H.get rnode_h rnode) [
              | none ↦ some (st, none)
              | some rport_h ↦ some (
                store
                    (record rsplit { full = some (H.put rnode_h rnode (H.remove rport_h rport)) }),
                H.get rport_h rport,
              )
            ])
            else some (store (record rsplit { half = none }), rsplit.half))
    ]
  ]

  -- `socktable_promote`
  pub socktable_promote : Socktable → Tuple → ℕ → Option (Socktable × Option ℕ)
  unfolding socktable_remove socktable_put
  socktable_promote st t sock = socktable_remove st t.lnode t.lport t.rnode t.rport false >>= λ r.
      elim r.1 [ none ↦ some (r.0, none) | some _ ↦ some (socktable_put r.0 t sock true) ]
