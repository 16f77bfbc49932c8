-- ===== src/Statefunc/Keeps.antt =====
-- The TCP machine's functions, by the interface of the generic machine.
use tcp_archive.Prelude.{
  ℕ, ℤ, ◌≡◌, refl, ap, Option, none, some, ◌==◌, inl, inr, Bool-cases, >>=-eq-some, some_injective,
}
use tcp_archive.External.{HTable, Bqueue, Host}
use tcp_archive.Machine.{IsClient}
use tcp_archive.Packet.{get_seqnum, ip_to_tcp}
use tcp_archive.Socket.{notify}
use tcp_archive.Tcpm.{Ctx, TransFn, do_send_flags, do_connect, do_listen, do_close, queue_eof}
use tcp_archive.Tcpm.Names.{close_error, close_ok, close_eof}
use tcp_archive.Tcpm.Keeps.{
  call_action-Keeps, queue_eof-keeps, Keeps, Keeps-some, Keeps-sock, Keeps-trans,
}
use tcp_archive.Tcp.Keeps.{send_packet_with_flags-Keeps}
use tcp_archive.Statefunc.{
  TArg, node_arg, packet_arg, null_arg, read_int, call_do_close, call_do_connect, call_do_listen,
  transition_call, call_transition, tcp_client,
}

module _ {H : HTable} {B : Bqueue} (h : Host) where
  call_do_close-Keeps : (b : ℕ) (w w' : Ctx H B) → call_do_close h b w ≡ some w' → Keeps w w'
  unfolding call_do_close notify
  call_do_close-Keeps b w w' e = elim (Bool-cases (read_int h b == close_error)) [
    | inl p ↦ Keeps-some (rw p at e) (Keeps-sock _ refl)
    | inr p ↦ elim (Bool-cases (read_int h b == close_ok)) [
      | inl q ↦ Keeps-some (rw (p, q) at e) (Keeps-sock _ refl)
      | inr q ↦ elim (Bool-cases (read_int h b == close_eof)) [
        | inl r ↦
            (let (s, a, c) = >>=-eq-some (queue_eof w.sock) _ (rw (p, q, r) at e) in
              Keeps-some c (Keeps-sock s (queue_eof-keeps w.sock s a)))
        | inr r ↦ Keeps-some (rw (p, q, r) at e) (Keeps-sock _ refl)
      ]
    ]
  ]

  pub transition_call-Keeps :
      (f : TransFn) (d : Option ℕ) (a : TArg) (w w' : Ctx H B)
      → transition_call h f d a w ≡ some w'
      → Keeps w w'
  unfolding transition_call call_do_connect call_do_listen
  transition_call-Keeps do_send_flags (some b) a w w' e = send_packet_with_flags-Keeps h w w' b e
  transition_call-Keeps do_connect (some b) (packet_arg p) w w' e =
      let (s, q, r) = >>=-eq-some (get_seqnum (ip_to_tcp p)) _ e in
      Keeps-trans (Keeps-sock _ refl) (send_packet_with_flags-Keeps h _ w' b r)
  transition_call-Keeps do_close (some b) a w w' e = call_do_close-Keeps b w w' e
  transition_call-Keeps do_listen d node_arg w w' e =
      Keeps-some e (record { focus = refl; table = λ i. refl })
  transition_call-Keeps do_send_flags none a w w' e = cc
  transition_call-Keeps do_close none a w w' e = cc
  transition_call-Keeps do_connect none a w w' e = cc
  transition_call-Keeps do_connect (some b) node_arg w w' e = cc
  transition_call-Keeps do_connect (some b) null_arg w w' e = cc
  transition_call-Keeps do_listen d (packet_arg p) w w' e = cc
  transition_call-Keeps do_listen d null_arg w w' e = cc

  pub call_transition-Keeps :
      (f : TransFn) (p n : ℕ) (d : Option ℕ) (a : TArg) (w : Ctx H B) (v : Ctx H B × ℤ)
      → call_transition h f p n d a w ≡ some v
      → Keeps w v.0
  unfolding call_transition
  call_transition-Keeps f p n d a w v e =
      let (u, x, y) = >>=-eq-some (transition_call h f d a w) _ e in
      Keeps-some (ap (λ z. some z.0) (some_injective y)) (transition_call-Keeps f d a w u x)

pub tcp_client-IsClient : (H : HTable) (B : Bqueue) (h : Host) → IsClient (tcp_client H B h)
tcp_client-IsClient H B h = record {
  machine-set_machine = λ m w. refl;
  action_keeps = λ f id d a w w' e. ap (λ r. r.2) (call_action-Keeps h f id d a w w' e).focus;
  transition_keeps =
      λ f p n d a w w' r e. ap (λ r. r.2) (call_transition-Keeps h f p n d a w (w', r) e).focus;
}
