-- ===== src/Packet/Bytes.antt =====
-- Bytes of a header under the macros of tcp_branch/ippacket.h and tcp_branch/tcppacket.h.
use tcp_archive.Prelude.{
  ℕ, zero, suc, ◌+◌, ◌*◌, ◌/◌, ◌%◌, ◌<◌, ◌≡◌, refl, ◌∙◌, ap, bit_and, bit_or, Bool, true, false,
  ◌&&◌, if◌then◌else◌, Bool-cases, inl, inr, ==_iff, List, [], ◌∷◌, ◌++◌, length, replicate, set,
  ◌==◌, u8, arith,
}
use native.Mathlib.Nat.{add-zero, add-suc}
use tcp_archive.Packet.{copy_at}

copy_at-cons : (x : ℕ) (p bs : List ℕ) (i : ℕ) → copy_at (x ∷ p) (suc i) bs ≡ x ∷ copy_at p i bs
copy_at-cons x p [] i = refl
copy_at-cons x p (b ∷ bs) i = copy_at-cons x (set p i b) bs (suc i)

copy_at_whole : (p bs : List ℕ) → length p ≡ length bs → copy_at p 0 bs ≡ bs
copy_at_whole [] [] e = refl
copy_at_whole [] (b ∷ bs) e = absurd (omega arith)
copy_at_whole (x ∷ p) [] e = absurd (omega arith)
copy_at_whole (x ∷ p) (b ∷ bs) e =
    copy_at-cons b p bs 0 ∙ ap (◌∷◌ b) (copy_at_whole p bs (omega arith))

-- A copy of as many bytes as there is room for, behind a header.
pub copy_at-append :
    (hs p bs : List ℕ) → length p ≡ length bs → copy_at (hs ++ p) (length hs) bs ≡ hs ++ bs
copy_at-append [] p bs e = copy_at_whole p bs e
copy_at-append (x ∷ hs) p bs e =
    copy_at-cons x (hs ++ p) bs (length hs) ∙ ap (◌∷◌ x) (copy_at-append hs p bs e)

pub replicate-add {ℓ} :
    {A : Type ℓ} (m n : ℕ) (a : A) → replicate (n + m) a ≡ replicate m a ++ replicate n a
replicate-add zero n a = ap (λ k. replicate k a) (add-zero n)
replicate-add (suc m) n a = ap (λ k. replicate k a) (add-suc n m) ∙ ap (◌∷◌ a) (replicate-add m n a)

-- The first byte with version 1 and the protocol `v` gives both back; and so for all protocols under
-- a bound.
halves_agree : ℕ → Bool
halves_agree v = let b = u8 (bit_or 16 v) in (bit_and b 0x0f == v) && (bit_and b 0xf0 / 16 == 1)

halves_agree_under : ℕ → Bool
halves_agree_under zero = true
halves_agree_under (suc n) = if halves_agree n then halves_agree_under n else false

halves_agree_at :
    (v bound : ℕ) → v < bound → halves_agree_under bound ≡ true → halves_agree v ≡ true
unfolding halves_agree_under
halves_agree_at v zero small all = absurd (omega (arith, small))
halves_agree_at v (suc n) small all = elim (Bool-cases (halves_agree n)) [
  | inr bad ↦ (let e = rw bad at all in cc)
  | inl good ↦ elim (Bool-cases (v == n)) [
    | inl last ↦ ap halves_agree ((==_iff v n).0 last) ∙ good
    | inr other ↦ halves_agree_at v n (ground (arith, other)) (rw good at all)
  ]
]

all_halves_agree : halves_agree_under 16 ≡ true
unfolding halves_agree_under halves_agree
all_halves_agree = refl

-- The first byte of an IP header of version 1 gives both of its halves back.
pub first_byte :
    (v : ℕ)
    → v < 16
    → (bit_and (u8 (bit_or 16 v)) 0x0f ≡ v) × (bit_and (u8 (bit_or 16 v)) 0xf0 / 16 ≡ 1)
unfolding halves_agree
first_byte v h = let e = halves_agree_at v 16 h all_halves_agree in ground arith

-- The bytes of a `uint16_t` and of a `uint32_t` put together again.
pub u16_bytes : (v : ℕ) → v < 65536 → v % 256 + 256 * (v / 256 % 256) ≡ v
u16_bytes v h = omega arith

pub u32_bytes :
    (v : ℕ)
    → v < 4294967296
    → v % 256 + 256 * (v / 256 % 256) + 65536 * (v / 65536 % 256) + 16777216 * (v / 16777216 % 256)
      ≡ v
u32_bytes v h = omega arith
