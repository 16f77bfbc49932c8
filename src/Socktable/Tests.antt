-- ===== src/Socktable/Tests.antt =====
-- The theorems about tcp_branch/socktable.c at concrete tables.
use tcp_archive.Prelude.{
  ℕ, Option, ◌≡◌, refl, true, false, some, none, List, [], ◌∷◌, ◌==◌, ◌&&◌, if◌then◌else◌,
}
use tcp_archive.External.Concrete.{assoc_table}
use tcp_archive.Socktable.{Tuple, Split, Socktable, socktable_put, socktable_get, socktable_promote}
use tcp_archive.Socktable.Promote.{socktable_promote_lem}
use tcp_archive.Socktable.Laws.{socktable_get-put, socktable_put_half}

abbrev connection : Tuple
connection = record { lnode = 3; lport = 80; rnode = 5; rport = 90 }

-- A listening socket, number 1, at port 80 of node 3.
abbrev table : List (ℕ × List (ℕ × Split assoc_table))
table = (3, (80, record { full = none; half = some 1 }) ∷ []) ∷ []

socktable_get-put_example :
    let st' = (socktable_put assoc_table table connection 2 true).0 in
    (socktable_get assoc_table st' 3 80 5 90 true ≡ (
      if (connection.lnode == 3 && connection.lport == 80)
        && (connection.rnode == 5 && connection.rport == 90)
      then some 2
      else socktable_get assoc_table table 3 80 5 90 true))
    × (socktable_get assoc_table st' 3 80 5 90 false
        ≡ socktable_get assoc_table table 3 80 5 90 false)
socktable_get-put_example = socktable_get-put assoc_table table connection 2 3 80 5 90

socktable_put_half_example :
    let st' = (socktable_put assoc_table table connection 2 false).0 in
    (socktable_get assoc_table st' connection.lnode connection.lport 0 0 false ≡ some 1)
    × (socktable_get assoc_table st' connection.lnode connection.lport connection.rnode
          connection.rport true
        ≡ some 2)
socktable_put_half_example =
    socktable_put_half assoc_table table connection 2 (record { full = none; half = some 1 }) refl

-- The half socket 1 of port 80 becomes the connection.
table_half : socktable_get assoc_table table 3 80 0 0 false ≡ some 1
unfolding socktable_get
table_half = refl

socktable_promote_lem_example :
    (st' : Socktable assoc_table) × (r : Option ℕ) × (socktable_promote assoc_table table connection
        2
      ≡ some (st', r))
    × (socktable_get assoc_table st' 3 80 0 0 false ≡ (
        if connection.lnode == 3 && connection.lport == 80
        then none
        else socktable_get assoc_table table 3 80 0 0 false))
    × (socktable_get assoc_table st' 3 80 5 90 true ≡ (
        if (connection.lnode == 3 && connection.lport == 80)
          && (connection.rnode == 5 && connection.rport == 90)
        then some 2
        else socktable_get assoc_table table 3 80 5 90 true))
socktable_promote_lem_example =
    socktable_promote_lem assoc_table table connection 2 1 3 80 5 90 table_half
