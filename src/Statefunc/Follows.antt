-- ===== src/Statefunc/Follows.antt =====
-- A step of the TCP machine of tcp_branch/tcpstate.c leaves the sockets' numbers and the machines' registers
-- in order.
use tcp_archive.Prelude.{ℕ, ◌≡◌, refl, ap, some, Bool, >>=-eq-some, some_injective, assert}
use tcp_archive.External.{HTable, Bqueue, Host}
use tcp_archive.Machine.{machine_step}
use tcp_archive.Machine.Respects.{Respects, machine_step-respects}
use tcp_archive.Packet.{flag_rst}
use tcp_archive.Tcpm.{Ctx, Arg, reason, packet, null, ErrorFn, fail_with_reset}
use tcp_archive.Tcpm.Keeps.{call_action-Keeps}
use tcp_archive.Tcpm.Follows.{
  Follows, Follows-refl, Follows-trans, Keeps-Follows, Follows-some, rooted-Follows,
}
use tcp_archive.Tcp.{send_dumb_packet}
use tcp_archive.Tcp.Follows.{send_dumb_packet-Follows}
use tcp_archive.Tcpm.Table.{get-tcp_states}
use tcp_archive.Statefunc.{TArg, call_error, tcp_client, tcpm_event}
use tcp_archive.Statefunc.Keeps.{call_transition-Keeps}

module _ {H : HTable} {B : Bqueue} (h : Host) where
  call_error-Follows :
      (f : ErrorFn) (id : ℕ) (a : Arg) (w w' : Ctx H B)
      → call_error h f id a w ≡ some w'
      → Follows w w'
  unfolding call_error
  call_error-Follows fail_with_reset id (packet p) w w' e =
      let (v, a, b) = >>=-eq-some (send_dumb_packet h w p flag_rst) _ e in
      let k = send_dumb_packet-Follows h w v p flag_rst a in
      Follows-some b (record { fd = k.fd; set = k.set; range = k.range; table = k.table })
  call_error-Follows fail_with_reset id (reason r) w w' e = cc
  call_error-Follows fail_with_reset id null w w' e = cc

module _ (H : HTable) (B : Bqueue) (h : Host) where
  tcp_client-Respects : Respects (tcp_client H B h) 11 Follows
  tcp_client-Respects = record {
    refl' = Follows-refl;
    trans = λ u v w a b. Follows-trans a b;
    reset = λ w. rooted-Follows h w;
    move = λ w next less. record {
      fd = refl;
      set = refl;
      range = λ v. record { root = v.root; current = less; prev = v.current };
      table = λ i. refl;
    };
    action = λ f id d a w w' e. Keeps-Follows (call_action-Keeps h f id d a w w' e);
    error = λ f id a w w' e. call_error-Follows h f id a w w' e;
    transition = λ f p n d a w v e. Keeps-Follows (call_transition-Keeps h f p n d a w v e);
  }

  pub tcpm_event-Follows :
      (event : ℕ) (argt : TArg) (args : Arg) (w : Ctx H B) (v : Ctx H B × Bool)
      → tcpm_event H B h event argt args w ≡ some v
      → Follows w v.0
  unfolding tcpm_event
  tcpm_event-Follows event argt args w v e =
      let (arena, p, len, _, _) = get-tcp_states H in
      let (u, _, e₁) = >>=-eq-some (assert w.sock.machine_set) _ e in
      let (r, q, e₂) =
        >>=-eq-some (machine_step H (tcp_client H B h) arena event argt args w) _ (rw p at e₁) in
      Follows-some (ap (λ t. some t.0) (some_injective e₂)) (
        machine_step-respects H (tcp_client H B h) 11 Follows tcp_client-Respects arena event argt
          args w r len q)
