-- ===== src/Router/Header.antt =====
-- `listener` of tcp_branch/van_driver.c on a packet with a right IP checksum.
use tcp_archive.Prelude.{
  ℕ, ◌+◌, ◌-◌, ◌*◌, ◌/◌, ◌%◌, ◌<◌, ◌≡◌, refl, ap, some, false, List, [], ◌∷◌, ◌++◌, bit_and, arith,
  ==_refl, ◌≤◌, length, take, zero, suc, ltb, le→leb, le→ltb, ltb→lt, inl, inr, Bool-cases,
}
use tcp_archive.External.{HTable, Bqueue, Host}
use tcp_archive.Node.{Node}
use tcp_archive.Packet.{proto_data}
use tcp_archive.Router.{set_iface, listener_step, dispatch, van_driver_recvfrom}

-- The eight bytes of an IP header.
abbrev pub header : (b l₀ l₁ t c₀ c₁ s d : ℕ) → List ℕ
header b l₀ l₁ t c₀ c₁ s d = b ∷ l₀ ∷ l₁ ∷ t ∷ c₀ ∷ c₁ ∷ s ∷ d ∷ []

-- The node that has the number `dst`.
abbrev pub peer : Host → ℕ → Host
peer h dst = record h { vn_num = dst }

-- A node that has noted that a packet came in on an interface.
abbrev pub arrived : {H : HTable} {B : Bqueue} → Node H B → ℕ → Node H B
arrived node i = set_iface node i (record (node.ifaces i) { age = node.now; timed_out = false })

two_bytes :
    (c₀ c₁ : ℕ)
    → c₀ < 256
    → c₁ < 256
    → ((c₀ + 256 * c₁) % 256 ≡ c₀) × ((c₀ + 256 * c₁) / 256 % 256 ≡ c₁)
two_bytes c₀ c₁ h₀ h₁ = (omega arith, omega arith)

pub listener_accepts :
    {H : HTable} {B : Bqueue} (h : Host) (node : Node H B) (i b l₀ l₁ t c₀ c₁ s d : ℕ)
    (rest : List ℕ)
    → c₀ < 256
    → c₁ < 256
    → h.ip_fast_csum (header b l₀ l₁ t 0 0 s d ++ rest) 2 ≡ c₀ + 256 * c₁
    → listener_step h node i (header b l₀ l₁ t c₀ c₁ s d ++ rest)
      ≡ dispatch h
          (arrived node i)
          i
          (header b l₀ l₁ t c₀ c₁ s d ++ rest)
          (l₀ + 256 * l₁)
          (bit_and b 0x0f)
unfolding listener_step
listener_accepts h node i b l₀ l₁ t c₀ c₁ s d rest h₀ h₁ e =
    let (p, q) = two_bytes c₀ c₁ h₀ h₁ in rw e (rw (==_refl (c₀ + 256 * c₁)) (rw (p, q)))

pub take_all : {A : Type 0} (l : List A) (n : ℕ) → length l ≤ n → take n l ≡ l
take_all [] zero h = refl
take_all [] (suc n) h = refl
take_all (x ∷ l) zero h = absurd (omega (arith, h))
take_all (x ∷ l) (suc n) h = ap (◌∷◌ x) (take_all l n (omega (arith, h)))

-- A datagram for this node is handed up whole.
pub dispatch-header :
    {H : HTable} {B : Bqueue} (h : Host) (node : Node H B) (i b l₀ l₁ t c₀ c₁ s : ℕ)
    (payload : List ℕ)
    → length payload + 8 ≤ h.mtu i
    → let p = header b l₀ l₁ t c₀ c₁ s h.vn_num ++ payload in
      dispatch h node i p (8 + length payload) proto_data
      ≡ some (record node { receiving_q = B.enqueue node.receiving_q p })
unfolding dispatch
dispatch-header h node i b l₀ l₁ t c₀ c₁ s payload fits =
    let n = 8 + length payload in
    let p = header b l₀ l₁ t c₀ c₁ s h.vn_num ++ payload in
    rw
      (
        le→ltb n (h.mtu i) (omega (arith, fits)),
        ==_refl h.vn_num,
        le→leb n (length p) (omega arith),
      )
      (rw (take_all p n (omega arith)))

-- Reading what was handed up: its payload, as much of it as the caller has room for.
pub recvfrom-header :
    {H : HTable} {B : Bqueue} (node : Node H B) (q : B.Queue (List ℕ)) (b l₀ l₁ t c₀ c₁ s d : ℕ)
    (payload : List ℕ) (size : ℕ)
    → l₀ + 256 * l₁ ≡ 8 + length payload
    → B.dequeue node.receiving_q ≡ some (header b l₀ l₁ t c₀ c₁ s d ++ payload, q)
    → van_driver_recvfrom node size
      ≡ some (record node { receiving_q = q }, some (take size payload))
unfolding van_driver_recvfrom
recvfrom-header node q b l₀ l₁ t c₀ c₁ s d payload size total e =
    let n = length payload in
    let p = header b l₀ l₁ t c₀ c₁ s d ++ payload in
    let back : 8 + n - 8 ≡ n = omega arith in
    rw (van_driver_recvfrom, e)
      (rw (total, back, le→leb 8 (8 + n) (omega arith))
        (elim (Bool-cases (ltb size n)) [
          | inl b' ↦
              (let less = ltb→lt size n b' in
                rw (b', le→leb (size + 8) (length p) (omega (arith, less))))
          | inr b' ↦
              (let more : n ≤ size = ground (arith, b') in
                rw (
                  b',
                  le→leb (n + 8) (length p) (omega arith),
                  take_all payload n (omega arith),
                  take_all payload size more,
                ))
        ]))
