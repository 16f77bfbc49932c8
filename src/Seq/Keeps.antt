-- ===== src/Seq/Keeps.antt =====
-- The operations of tcp_branch/seq.c leave a socket's number and the registers of its machine alone.
use tcp_archive.Prelude.{
  ℕ, zero, suc, ◌≡◌, refl, sym, ◌∙◌, ap, some, List, ltb, leb, ◌==◌, ℤ, pos, pos_part, ltb_ℤ, min_ℤ,
  not, inl, inr, Bool-cases, Option-cases, >>=-eq-some, some_injective, assert, bit_and, add32,
  sub32,
}
use tcp_archive.Cbuffer.{cbuf_get_range, cbuf_put_range}
use tcp_archive.Packet.{get_flags, get_acknum, ip_to_tcp, flag_ack}
use tcp_archive.Socket.{Socket}
use tcp_archive.Tcpm.Keeps.{regs}
use tcp_archive.Seq.{
  ack_data, update_from_window_announce, take_ack, process_packet_for_ack, recv_end,
  can_accept_data_to_send, data_from_network_to_buffer, copy_data_from_user, get_data_from_buffer,
  amount_of_data_to_read,
}

pub ack_data-regs : (s : Socket) (n : ℕ) → regs (ack_data s n) ≡ regs s
unfolding ack_data
ack_data-regs s n = refl

pub update_from_window_announce-regs :
    (s : Socket) (n : ℕ) → regs (update_from_window_announce s n) ≡ regs s
unfolding update_from_window_announce
update_from_window_announce-regs s n = refl

take_ack-regs : (s : Socket) (flags ack : ℕ) → regs (take_ack s flags ack) ≡ regs s
unfolding take_ack
take_ack-regs s flags ack = elim (Bool-cases (bit_and flags flag_ack == flag_ack)) [
  | inr p ↦ rw p
  | inl p ↦ elim (Bool-cases (ltb s.send_una ack)) [ inl q ↦ rw (p, q) | inr q ↦ rw (p, q) ]
]

pub process_packet_for_ack-regs :
    (s s' : Socket) (p : List ℕ) → process_packet_for_ack s p ≡ some s' → regs s' ≡ regs s
unfolding process_packet_for_ack
process_packet_for_ack-regs s s' p e =
    let (f, _, e₁) = >>=-eq-some (get_flags (ip_to_tcp p)) _ e in
    let (a, _, e₂) = >>=-eq-some (get_acknum (ip_to_tcp p)) _ e₁ in
    sym (ap regs (some_injective e₂)) ∙ take_ack-regs s f a

pub data_from_network_to_buffer-regs :
    (s s' : Socket) (p : List ℕ) (n : ℕ)
    → data_from_network_to_buffer s p n ≡ some s'
    → regs s' ≡ regs s
unfolding data_from_network_to_buffer
data_from_network_to_buffer-regs s s' p n e =
    let (_, _, e₁) = >>=-eq-some (assert (leb n (sub32 (recv_end s) s.recv_next))) _ e in
    let (_, _, e₂) = >>=-eq-some (cbuf_put_range s.r_buf p s.recv_next n) _ e₁ in
    sym (ap regs (some_injective e₂))

pub copy_data_from_user-regs :
    (s s' : Socket) (p : List ℕ) (n : ℕ) → copy_data_from_user s p n ≡ some s' → regs s' ≡ regs s
unfolding copy_data_from_user
copy_data_from_user-regs s s' p n e =
    let (_, _, e₁) = >>=-eq-some (assert (can_accept_data_to_send s)) _ e in
    let (_, _, e₂) = >>=-eq-some (assert (leb s.send_next s.send_written)) _ e₁ in
    let (_, _, e₃) =
      >>=-eq-some (assert (leb (add32 s.send_written n) (add32 s.send_una s.send_window))) _ e₂ in
    let (_, _, e₄) = >>=-eq-some (cbuf_put_range s.s_buf p s.send_written n) _ e₃ in
    sym (ap regs (some_injective e₄))

pub get_data_from_buffer-regs :
    (fuel : ℕ) (s : Socket) (n : ℤ) (v : Socket × ℤ × List ℕ)
    → get_data_from_buffer fuel s n ≡ some v
    → regs v.0 ≡ regs s
unfolding get_data_from_buffer
get_data_from_buffer-regs zero s n v e = cc
get_data_from_buffer-regs (suc fuel) s n v e =
    let (readable, _, e₁) = >>=-eq-some (amount_of_data_to_read s) _ e in
    let amount = min_ℤ n readable in
    let (_, _, e₂) = >>=-eq-some (assert (not (ltb_ℤ amount (pos 0)))) _ e₁ in
    elim (Bool-cases (pos_part amount == 0)) [
      | inl p ↦ sym (ap (λ t. regs t.0) (some_injective (rw p at e₂)))
      | inr p ↦
          (let ((r, d), _, e₃) =
              >>=-eq-some (cbuf_get_range s.r_buf s.recv_read (pos_part amount)) _ (rw p at e₂) in
            elim (Bool-cases (ltb_ℤ r (pos 0))) [
              | inl q ↦
                  get_data_from_buffer-regs fuel (record s { recv_read = add32 s.recv_read 1 }) n v
                    (rw q at e₃)
              | inr q ↦ elim (Option-cases d) [
                | inl z ↦ sym (ap (λ t. regs t.0) (some_injective (rw (q, z) at e₃)))
                | inr (b, z) ↦
                    (let (_, _, e₄) =
                        >>=-eq-some (assert (leb (add32 s.recv_read (pos_part r)) s.recv_next)) _
                          (rw (q, z) at e₃) in
                      sym (ap (λ t. regs t.0) (some_injective e₄)))
              ]
            ])
    ]
