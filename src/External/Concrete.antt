-- ===== src/External/Concrete.antt =====
-- Concrete tables, queues and hosts that meet the interfaces: association lists, lists, and sums of
-- bytes for checksums. They show that the laws can hold, and let the tests run.
use tcp_archive.Prelude.{
  take, ap, ◌*◌, ℕ, ◌+◌, ◌%◌, Option, some, none, List, [], ◌∷◌, ◌++◌, ◌≡◌, refl, ◌==◌,
  if◌then◌else◌, contains, Distinct, is_some, erase_all, contains-erase_all, Distinct-erase_all,
  arith, length, replicate, length-replicate,
}
use tcp_archive.External.{HTable, Bqueue, Host, IsHost}

module _ {A : Type 0} where
  abbrev pub find : List (ℕ × A) → ℕ → Option A
  find [] k = none
  find ((j, v) ∷ t) k = if j == k then some v else find t k

  abbrev pub remove : List (ℕ × A) → ℕ → List (ℕ × A)
  remove [] k = []
  remove ((j, v) ∷ t) k = if j == k then remove t k else (j, v) ∷ remove t k

  abbrev pub keys : List (ℕ × A) → List ℕ
  keys [] = []
  keys ((k, v) ∷ t) = k ∷ erase_all k (keys t)

  pub find-remove :
      (t : List (ℕ × A)) (k j : ℕ) → find (remove t k) j ≡ (if k == j then none else find t j)
  find-remove [] k j = ground arith
  find-remove ((i, v) ∷ t) k j = ground (arith, find-remove t k j)

  pub contains-keys : (t : List (ℕ × A)) (k : ℕ) → contains (keys t) k ≡ is_some (find t k)
  contains-keys [] k = refl
  contains-keys ((i, v) ∷ t) k = ground (arith, contains-keys t k, contains-erase_all i k (keys t))

  pub Distinct-keys : (t : List (ℕ × A)) → Distinct (keys t)
  Distinct-keys [] = tt
  Distinct-keys ((i, v) ∷ t) = (
    ground (arith, contains-erase_all i i (keys t)),
    Distinct-erase_all i (keys t) (Distinct-keys t),
  )

abbrev pub assoc_table : HTable
assoc_table = record {
  Table = λ A. List (ℕ × A);
  empty = [];
  get = find;
  put = λ t k v. (k, v) ∷ t;
  remove = remove;
  keys = keys;
  ht_size = λ t. length (keys t);
  get-empty = λ k. refl;
  get-put = λ t k v j. refl;
  get-remove = find-remove;
  contains-keys = contains-keys;
  Distinct-keys = Distinct-keys;
  ht_size-keys = λ t. refl;
}

abbrev pub list_dequeue : {A : Type 0} → List A → Option (A × List A)
list_dequeue [] = none
list_dequeue (a ∷ l) = some (a, l)

pub list_dequeue-none : {A : Type 0} (l : List A) → l ≡ [] → list_dequeue l ≡ none
list_dequeue-none l e = rw e

pub list_dequeue-some :
    {A : Type 0} (l : List A) (a : A) (r : List A)
    → l ≡ a ∷ r
    → (l' : List A) × (list_dequeue l ≡ some (a, l')) × (l' ≡ r)
list_dequeue-some l a r e = (r, rw e, refl)

abbrev pub list_queue : Bqueue
list_queue = record {
  Queue = List;
  empty = [];
  enqueue = λ q a. q ++ (a ∷ []);
  dequeue = list_dequeue;
  contents = λ q. q;
  contents-empty = refl;
  contents-enqueue = λ q a. refl;
  dequeue_none = list_dequeue-none;
  dequeue_some = list_dequeue-some;
}

abbrev sum_bytes : List ℕ → ℕ
sum_bytes [] = 0
sum_bytes (b ∷ p) = b + sum_bytes p

-- Node 3, with two interfaces and an MTU of 1400.
abbrev pub sample_host : Host
sample_host = record {
  ip_fast_csum = λ p n. sum_bytes (take (4 * n) p) % 65536;
  csum_partial = λ p n s. sum_bytes p + s;
  csum_tcpudp_magic = λ a b c d e. (a + b + c + d + e) % 65536;
  vn_num = 3;
  van_maxnodes = 255;
  nifs = 2;
  mtu = λ i. 1400;
  if_type = λ i. 3;
  heap = λ n. replicate n 0;
  heap_next = λ n. replicate n 0;
  after_byte = 0;
}

pub sample_host-IsHost : IsHost sample_host
sample_host-IsHost = record {
  ip_csum_words = λ p q n e. ap (λ t. sum_bytes t % 65536) e;
  ip_csum_small = λ p n. omega arith;
  tcp_csum_small = λ a b c d e. omega arith;
  num_small = omega arith;
  heap_size = λ n. length-replicate n 0;
  heap_next_size = λ n. length-replicate n 0;
}
