-- ===== src/Tcp/Follows.antt =====
-- The sends of tcp_branch/tcp.c that reset the machine when there is no route leave it in order.
use tcp_archive.Prelude.{
  ℕ, ◌≡◌, refl, ap, Option, none, some, Bool, List, ◌==◌, ℤ, pos, ltb_ℤ, inl, inr, Bool-cases,
  >>=-eq-some, some_injective, length, ◌>>=◌, if◌then◌else◌,
}
use tcp_archive.External.{HTable, Bqueue, Host}
use tcp_archive.Packet.{get_acknum, ip_to_tcp, build_tcp_packet, flag_ack, flag_rst, proto_tcp}
use tcp_archive.Node.{van_driver_sendto}
use tcp_archive.Tcpm.{Ctx, tcpm_reset}
use tcp_archive.Tcpm.Follows.{
  Follows, Follows-refl, Follows-trans, Keeps-Follows, Follows-some, tcpm_reset-Follows,
}
use tcp_archive.Tcp.{tcp_sendto_raw, send_dumb_packet, after_send}
use tcp_archive.Tcp.Keeps.{sent-Keeps}

module _ {H : HTable} {B : Bqueue} (h : Host) where
  tcp_sendto_raw-Follows :
      (w : Ctx H B) (d : Option (List ℕ)) (n f seq ack : ℕ) (v : Ctx H B × ℤ)
      → tcp_sendto_raw h w d n f seq ack ≡ some v
      → Follows w v.0
  unfolding tcp_sendto_raw after_send
  tcp_sendto_raw-Follows w d n f seq ack v e =
      let (p, a, b) =
        >>=-eq-some
          (build_tcp_packet h d n w.sock.local_port w.sock.remote_port seq ack f w.sock.send_window
            w.sock.remote_node)
          _ e in
      let r = van_driver_sendto H B h w.node p (length p) w.sock.remote_node proto_tcp in
      elim (Bool-cases (ltb_ℤ r.1 (pos 0))) [
        | inl z ↦
            (let (u, a', b') =
                >>=-eq-some (tcpm_reset H B h (record w { node = r.0 })) _ (rw z at b) in
              Follows-some (ap (λ t. some t.0) (some_injective b')) (
                Follows-trans (Keeps-Follows (sent-Keeps h w p w.sock refl))
                  (tcpm_reset-Follows h _ u a')))
        | inr z ↦
            Follows-some (ap (λ t. some t.0) (some_injective (rw z at b)))
              (Keeps-Follows (sent-Keeps h w p _ refl))
      ]

  sent_if :
      (w w' : Ctx H B) (test : Bool) (f seq ack : ℕ)
      → (if test then (tcp_sendto_raw h w none 0 f seq ack >>= λ r. some r.0) else some w) ≡ some w'
      → Follows w w'
  sent_if w w' test f seq ack e = elim (Bool-cases test) [
    | inl p ↦
        (let (v, a, b) = >>=-eq-some (tcp_sendto_raw h w none 0 f seq ack) _ (rw p at e) in
          Follows-some b (tcp_sendto_raw-Follows w none 0 f seq ack v a))
    | inr p ↦ Follows-some (rw p at e) (Follows-refl w)
  ]

  pub send_dumb_packet-Follows :
      (w w' : Ctx H B) (p : List ℕ) (f : ℕ) → send_dumb_packet h w p f ≡ some w' → Follows w w'
  unfolding send_dumb_packet
  send_dumb_packet-Follows w w' p f e =
      let (ack, a, e₁) = >>=-eq-some (get_acknum (ip_to_tcp p)) _ e in
      let (v, a', e₂) =
        >>=-eq-some
          (if f == flag_ack
            then (tcp_sendto_raw h w none 0 flag_ack ack w.sock.recv_ack >>= λ r. some r.0)
            else some w)
          _ e₁ in
      Follows-trans (sent_if w v _ flag_ack ack w.sock.recv_ack a')
        (sent_if v w' _ flag_rst ack v.sock.recv_ack e₂)
