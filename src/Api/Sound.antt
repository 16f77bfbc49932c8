-- ===== src/Api/Sound.antt =====
-- The socket calls of tcp_branch/tcp.c leave the table of sockets in order.
mod Focus
mod Data
use tcp_archive.Prelude.{
  ℕ, ◌<◌, ◌+◌, lt→ltb, le→ltb, ==_refl, arith, suc, ◌≡◌, refl, sym, ◌∙◌, ap, Option, none, some,
  Bool, true, false, not, ◌&&◌, List, [], ltb, ◌==◌, if◌then◌else◌, ℤ, pos, pos_part, minus_one,
  ltb_ℤ, min_ℤ, ◌>>=◌, ◌>>◌, assert, inl, inr, Bool-cases, Option-cases, >>=-eq-some,
  some_injective, subst,
}
use tcp_archive.External.{HTable, Bqueue, Host}
use tcp_archive.Socket.{Socket, wait_for_event, has_status, max_sockets}
use tcp_archive.Socktable.{socktable_put}
use tcp_archive.Seq.{get_data_from_buffer, get_amount_able_to_accept, copy_data_from_user}
use tcp_archive.Seq.Keeps.{get_data_from_buffer-regs, copy_data_from_user-regs}
use tcp_archive.Node.{Node}
use tcp_archive.Tcpm.{
  Ctx, null, next_rand, tcpm_canbind, tcpm_canread, tcpm_cansend, tcpm_canaccept, tcpm_canclose,
}
use tcp_archive.Tcpm.Names.{on_active_open, on_passive_open, on_close}
use tcp_archive.Tcpm.Keeps.{regs, Keeps-sock}
use tcp_archive.Tcpm.Follows.{Follows, Follows-refl, Follows-trans, Keeps-Follows}
use tcp_archive.Tcp.{get_socket_from_int}
use tcp_archive.Statefunc.{node_arg, null_arg, tuple_of, tcpm_event}
use tcp_archive.Statefunc.Follows.{tcpm_event-Follows}
use tcp_archive.Driver.{sys_socket, store}
use tcp_archive.Driver.Sound.{
  IsSound, IsSoundCtx, Follows-IsSoundCtx, store-IsSound, focus-IsSoundCtx, sys_socket-IsSound,
}
use tcp_archive.Api.{
  focus, back, v_socket, v_bind, v_listen, v_connect, v_connect_end, v_accept, v_accept_end, v_read,
  v_write, v_close, v_close_end,
}
pub use tcp_archive.Api.Sound.Focus.{focus_at, focus-store}
pub use tcp_archive.Api.Sound.Data.{v_read-IsSound, v_write-IsSound}
use tcp_archive.Api.Sound.Focus.{focus-Sound, back-IsSound, ends, woken}

module _ {H : HTable} {B : Bqueue} (h : Host) where
  pub v_socket-IsSound :
      (raw : Socket) (node : Node H B) (v : Node H B × ℤ)
      → v_socket h raw node ≡ some v
      → IsSound node
      → IsSound v.0
  unfolding v_socket
  v_socket-IsSound raw node v e sound =
      let (r, a, e₁) = >>=-eq-some (sys_socket h raw false node) _ e in
      ends e₁ (sys_socket-IsSound h raw false node r a sound)

  pub v_bind-IsSound :
      (node : Node H B) (s : ℤ) (port : ℕ) (v : Node H B × ℤ)
      → v_bind h node s port ≡ some v
      → IsSound node
      → IsSound v.0
  unfolding v_bind
  v_bind-IsSound node s port v e sound =
      let (w, a, e₁) = >>=-eq-some (focus h node s) _ e in
      let z = focus-Sound h node s w a sound in
      elim (Bool-cases (tcpm_canbind w.sock)) [
        | inl p ↦ ends (rw p at e₁) (
            back-IsSound h (Keeps-Follows (Keeps-sock (record w.sock { local_port = port }) refl))
              z)
        | inr p ↦ ends (rw p at e₁) (back-IsSound h (Follows-refl w) z)
      ]

  drawn_Follows :
      (w : Ctx H B) (s : Socket)
      → regs s ≡ regs w.sock
      → Follows w (record { sock = s; node = (next_rand w.node).0 })
  drawn_Follows w s e = Keeps-Follows (record { focus = e; table = λ i. refl })

  pub v_listen-IsSound :
      (node : Node H B) (s : ℤ) (v : Node H B × ℤ)
      → v_listen h node s ≡ some v
      → IsSound node
      → IsSound v.0
  unfolding v_listen
  v_listen-IsSound node s v e sound =
      let (w, a, e₁) = >>=-eq-some (focus h node s) _ e in
      let z = focus-Sound h node s w a sound in
      elim (Bool-cases (tcpm_canbind w.sock)) [
        | inl p ↦
            (let sock = record w.sock { seq_num = (next_rand w.node).1 } in
              let w₁ : Ctx H B = record { sock = sock; node = (next_rand w.node).0 } in
              let (u, b, e₂) =
                >>=-eq-some (tcpm_event H B h on_passive_open node_arg null w₁) _ (rw p at e₁) in
              ends e₂ (
                back-IsSound h
                  (Follows-trans (drawn_Follows w sock refl)
                    (tcpm_event-Follows H B h on_passive_open _ _ w₁ u b))
                  z))
        | inr p ↦ ends (rw p at e₁) (back-IsSound h (Follows-refl w) z)
      ]

  pub v_connect-IsSound :
      (node : Node H B) (s : ℤ) (to port : ℕ) (v : Node H B × Option ℤ)
      → v_connect h node s to port ≡ some v
      → IsSound node
      → IsSound v.0
  unfolding v_connect
  v_connect-IsSound node s to port v e sound =
      let (w, a, e₁) = >>=-eq-some (focus h node s) _ e in
      let z = focus-Sound h node s w a sound in
      elim (Bool-cases (tcpm_canbind w.sock)) [
        | inl p ↦
            (let (node', r) = next_rand w.node in
              let sock = record w.sock {
                remote_node = to;
                remote_port = port;
                seq_num = r;
                ack_num = 0;
                can_handshake = true;
                send_una = r;
                send_next = r;
                send_written = r;
              } in
              let w₁ : Ctx H B = record {
                sock = sock;
                node = record node' {
                  tuple_table =
                      (socktable_put H node'.tuple_table (tuple_of h sock) sock.fd true).0;
                };
              } in
              let (u, b, e₂) =
                >>=-eq-some (tcpm_event H B h on_active_open null_arg null w₁) _ (rw p at e₁) in
              let k : Follows w w₁ = Keeps-Follows (record { focus = refl; table = λ i. refl }) in
              connecting w w₁ u v z k (tcpm_event-Follows H B h on_active_open _ _ w₁ u b) e₂)
        | inr p ↦ ends (rw p at e₁) (back-IsSound h (Follows-refl w) z)
      ]
    where
      connecting :
          (w w₁ : Ctx H B) (u : Ctx H B × Bool) (v : Node H B × Option ℤ)
          → IsSoundCtx w
          → Follows w w₁
          → Follows w₁ u.0
          → some (
              if u.1 then (back h u.0, some minus_one) else (
                back h (record u.0 { sock = record u.0.sock { ufunc_timeout = u.0.node.now } }),
                none,
              ))
            ≡ some v
          → IsSound v.0
      connecting w w₁ (u, true) v z k l e = ends e (back-IsSound h (Follows-trans k l) z)
      connecting w w₁ (u, false) v z k l e =
          ends e (
            back-IsSound h (Follows-trans k (Follows-trans l (Keeps-Follows (Keeps-sock _ refl))))
              z)

  pub v_connect_end-IsSound :
      (node : Node H B) (s : ℤ) (v : Node H B × Option ℤ)
      → v_connect_end h node s ≡ some v
      → IsSound node
      → IsSound v.0
  unfolding v_connect_end
  v_connect_end-IsSound node s v e sound =
      let (w, a, e₁) = >>=-eq-some (focus h node s) _ e in
      let z = focus-Sound h node s w a sound in
      woken node w _ _ v
        (λ status t k.
          back-IsSound h {w = w} (Keeps-Follows (Keeps-sock (record t { ufunc_timeout = 0 }) k)) z)
        sound e₁

  pub v_accept-IsSound :
      (node : Node H B) (s : ℤ) (v : Node H B × Option ℤ)
      → v_accept h node s ≡ some v
      → IsSound node
      → IsSound v.0
  unfolding v_accept
  v_accept-IsSound node s v e sound =
      let (w, a, e₁) = >>=-eq-some (focus h node s) _ e in
      let z = focus-Sound h node s w a sound in
      elim (Bool-cases (tcpm_canaccept w.sock)) [
        | inl p ↦ ends (rw p at e₁) (back-IsSound h {w = w} (Keeps-Follows (Keeps-sock _ refl)) z)
        | inr p ↦ ends (rw p at e₁) (back-IsSound h (Follows-refl w) z)
      ]

  pub v_accept_end-IsSound :
      (node : Node H B) (s : ℤ) (v : Node H B × Option ℤ)
      → v_accept_end h node s ≡ some v
      → IsSound node
      → IsSound v.0
  unfolding v_accept_end
  v_accept_end-IsSound node s v e sound =
      let (w, a, e₁) = >>=-eq-some (focus h node s) _ e in
      let z = focus-Sound h node s w a sound in
      woken node w _ _ v
        (λ status t k.
          back-IsSound h {w = w}
            (Keeps-Follows (Keeps-sock (record t { ufunc_timeout = 0; can_handshake = false }) k))
            z)
        sound e₁

  pub v_close-IsSound :
      (node : Node H B) (s : ℤ) (v : Node H B × Option ℤ)
      → v_close h node s ≡ some v
      → IsSound node
      → IsSound v.0
  unfolding v_close
  v_close-IsSound node s v e sound =
      let (w, a, e₁) = >>=-eq-some (focus h node s) _ e in
      let z = focus-Sound h node s w a sound in
      elim (Bool-cases (tcpm_canclose w.sock)) [
        | inl p ↦
            (let (u, b, e₂) =
                >>=-eq-some (tcpm_event H B h on_close null_arg null w) _ (rw p at e₁) in
              ends e₂ (back-IsSound h (tcpm_event-Follows H B h on_close _ _ w u b) z))
        | inr p ↦ ends (rw p at e₁) (back-IsSound h (Follows-refl w) z)
      ]

  pub v_close_end-IsSound :
      (node : Node H B) (s : ℤ) (v : Node H B × Option ℤ)
      → v_close_end h node s ≡ some v
      → IsSound node
      → IsSound v.0
  unfolding v_close_end
  v_close_end-IsSound node s v e sound =
      let (w, a, e₁) = >>=-eq-some (focus h node s) _ e in
      let z = focus-Sound h node s w a sound in
      woken node w _ _ v (λ status t k. back-IsSound h {w = w} (Keeps-Follows (Keeps-sock t k)) z)
        sound e₁
