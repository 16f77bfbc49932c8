-- ===== src/External.antt =====
-- What the program uses and does not define: the hash tables and the blocking queues of the course's
-- utility library (htable.h, bqueue.h), its checksums (checksum.h) and the network below (van.h).
-- Each is a record of operations with the laws that the code relies on.
pub mod Concrete
pub mod Queues
use tcp_archive.Prelude.{
  ℕ, Option, some, none, List, [], ◌∷◌, ◌++◌, ◌≡◌, ◌<◌, ◌==◌, if◌then◌else◌, contains, Distinct,
  is_some, length, take, ◌*◌,
}

-- htable.h. `htable_put` and `htable_remove` return the value that the key had, which is what `get`
-- finds before the call; an iteration meets each key's value once, in an order that the code does
-- not know. `ht_size` is the number of keys.
pub record HTable : Type 1 where
  pub Table : Type 0 → Type 0
  pub empty : {A : Type 0} → Table A
  pub get : {A : Type 0} → Table A → ℕ → Option A
  pub put : {A : Type 0} → Table A → ℕ → A → Table A
  pub remove : {A : Type 0} → Table A → ℕ → Table A
  pub keys : {A : Type 0} → Table A → List ℕ
  pub ht_size : {A : Type 0} → Table A → ℕ
  pub get-empty : {A : Type 0} (k : ℕ) → get (empty {A = A}) k ≡ none
  pub get-put :
      {A : Type 0} (t : Table A) (k : ℕ) (v : A) (j : ℕ)
      → get (put t k v) j ≡ (if k == j then some v else get t j)
  pub get-remove :
      {A : Type 0} (t : Table A) (k j : ℕ) → get (remove t k) j ≡ (if k == j then none else get t j)
  pub contains-keys : {A : Type 0} (t : Table A) (k : ℕ) → contains (keys t) k ≡ is_some (get t k)
  pub Distinct-keys : {A : Type 0} (t : Table A) → Distinct (keys t)
  pub ht_size-keys : {A : Type 0} (t : Table A) → ht_size t ≡ length (keys t)

-- bqueue.h: first in, first out. `dequeue` at an empty queue blocks, which is `none`.
pub record Bqueue : Type 1 where
  pub Queue : Type 0 → Type 0
  pub empty : {A : Type 0} → Queue A
  pub enqueue : {A : Type 0} → Queue A → A → Queue A
  pub dequeue : {A : Type 0} → Queue A → Option (A × Queue A)
  pub contents : {A : Type 0} → Queue A → List A
  pub contents-empty : {A : Type 0} → contents (empty {A = A}) ≡ []
  pub contents-enqueue :
      {A : Type 0} (q : Queue A) (a : A) → contents (enqueue q a) ≡ contents q ++ (a ∷ [])
  pub dequeue_none : {A : Type 0} (q : Queue A) → contents q ≡ [] → dequeue q ≡ none
  pub dequeue_some :
      {A : Type 0} (q : Queue A) (a : A) (as' : List A)
      → contents q ≡ a ∷ as'
      → (q' : Queue A) × (dequeue q ≡ some (a, q')) × (contents q' ≡ as')

-- checksum.h and van.h, for one node: its number `vn_num`, VAN_MAXNODES, the number of interfaces
-- and the options VAN_IO_MTU and VAN_IO_IFTYPE of each. Bytes come as a list with its length.
-- Of the C library's allocator: `heap n` is what the memory holds that `malloc n` returns, `heap_next n`
-- that of a second call behind it, and `after_byte` what stands in the three bytes behind a block of one byte, as a number.
pub record Host : Type 0 where
  pub ip_fast_csum : List ℕ → ℕ → ℕ
  pub csum_partial : List ℕ → ℕ → ℕ → ℕ
  pub csum_tcpudp_magic : ℕ → ℕ → ℕ → ℕ → ℕ → ℕ
  pub vn_num : ℕ
  pub van_maxnodes : ℕ
  pub nifs : ℕ
  pub mtu : ℕ → ℕ
  pub if_type : ℕ → ℕ
  pub heap : ℕ → List ℕ
  pub heap_next : ℕ → List ℕ
  pub after_byte : ℕ

-- The checksums are of type `uint16_t`, `ip_fast_csum` reads as many words of four bytes as it is told,
-- memory has the size that was asked for, and a node's number fits the byte that a header has for it.
pub record IsHost (h : Host) : Type 0 where
  pub ip_csum_words :
      (p q : List ℕ) (n : ℕ)
      → take (4 * n) p ≡ take (4 * n) q
      → h.ip_fast_csum p n ≡ h.ip_fast_csum q n
  pub ip_csum_small : (p : List ℕ) (n : ℕ) → h.ip_fast_csum p n < 65536
  pub tcp_csum_small : (a b c d e : ℕ) → h.csum_tcpudp_magic a b c d e < 65536
  pub num_small : h.vn_num < 256
  pub heap_size : (n : ℕ) → length (h.heap n) ≡ n
  pub heap_next_size : (n : ℕ) → length (h.heap_next n) ≡ n
