-- ===== src/Driver/Follows.antt =====
-- A round of `do_recv_tcp`, of `tcp_watchdog` and of `tcp_send_thread` of tcp_branch/van_driver.c leaves the
-- sockets' numbers and the registers of their machines in order.
use tcp_archive.Prelude.{
  ℕ, ◌+◌, ◌≡◌, refl, sym, ◌∙◌, ap, none, some, Bool, true, false, List, ltb, leb, ◌==◌, pos,
  pos_part, ltb_ℤ, inl, inr, Bool-cases, >>=-eq-some, some_injective, assert, not, ◌&&◌,
  if◌then◌else◌, drop, add32, u8,
}
use tcp_archive.External.{HTable, Bqueue, Host}
use tcp_archive.Packet.{
  get_seqnum, get_window, get_data_len, ip_to_tcp, is_control, is_data, tcp_header_size, flag_ack,
  flag_rst,
}
use tcp_archive.Socket.{Socket}
use tcp_archive.Seq.{
  is_valid_seq_num, is_old_seq_num, update_from_window_announce, process_packet_for_ack, ack_data,
  have_room_to_receive, data_from_network_to_buffer, send_flag_next, get_flag_to_send,
  get_amount_able_to_send, data_from_buffer_to_network,
}
use tcp_archive.Seq.Keeps.{
  ack_data-regs, update_from_window_announce-regs, process_packet_for_ack-regs,
  data_from_network_to_buffer-regs,
}
use tcp_archive.Tcpm.{Ctx, packet, null, tcpm_state, tcpm_canrecv}
use tcp_archive.Tcpm.Names.{st_closed, st_syn_sent, st_syn_rcvd, st_time_wait, on_timeout}
use tcp_archive.Tcpm.Keeps.{regs, Keeps-sock}
use tcp_archive.Tcpm.Follows.{
  Follows, Follows-refl, Follows-trans, Keeps-Follows, Follows-some, tcpm_reset-Follows,
}
use tcp_archive.Tcp.{tcp_sendto}
use tcp_archive.Tcp.Keeps.{tcp_sendto-Keeps, send_packet_with_flags-Keeps}
use tcp_archive.Tcp.Follows.{send_dumb_packet-Follows}
use tcp_archive.Statefunc.{packet_arg, null_arg, tcpm_event, tcpm_packet_to_input}
use tcp_archive.Statefunc.Follows.{tcpm_event-Follows}
use tcp_archive.Driver.{
  take_segment, watch_packet, connect_timeout_time, ack_this_packet, take_data, repeat_ack,
  do_recv_tcp, watch_time_wait, watch_connect, tcp_watchdog, send_data, send_flag, tcp_send_step,
}

take_segment-regs : (s s' : Socket) (p : List ℕ) → take_segment s p ≡ some s' → regs s' ≡ regs s
unfolding take_segment
take_segment-regs s s' p e =
    let (n, _, e₁) = >>=-eq-some (get_window (ip_to_tcp p)) _ e in
    let (t, a, e₂) =
      >>=-eq-some (process_packet_for_ack (update_from_window_announce s n) p) _ e₁ in
    let (c, _, e₃) = >>=-eq-some (is_control p) _ e₂ in
    sym (ap regs (some_injective e₃))
    ∙ control c t
    ∙ process_packet_for_ack-regs (update_from_window_announce s n) t p a
    ∙ update_from_window_announce-regs s n
  where
    control : (c : Bool) (t : Socket) → regs (if c then ack_data t 1 else t) ≡ regs t
    control true t = ack_data-regs t 1
    control false t = refl

pub watch_packet-regs : (now : ℕ) (s : Socket) → regs (watch_packet now s) ≡ regs s
unfolding watch_packet
watch_packet-regs now s = elim (Bool-cases (ltb 0 s.last_packet && ltb (s.last_packet + 4) now)) [
  | inl p ↦ rw p
  | inr p ↦ rw p
]

module _ {H : HTable} {B : Bqueue} where
  sock_Follows :
      {w : Ctx H B} (s : Socket) → regs s ≡ regs w.sock → Follows w (record w { sock = s })
  sock_Follows s e = Keeps-Follows (Keeps-sock s e)

module _ {H : HTable} {B : Bqueue} (h : Host) where
  ack_this_packet-Follows :
      (w w' : Ctx H B) (n : ℕ) → ack_this_packet h w n ≡ some w' → Follows w w'
  unfolding ack_this_packet
  ack_this_packet-Follows w w' n e =
      Follows-trans (sock_Follows (ack_data w.sock n) (ack_data-regs w.sock n))
        (Keeps-Follows (send_packet_with_flags-Keeps h _ w' flag_ack e))

  take_data-Follows :
      (w w' : Ctx H B) (p : List ℕ) (n : ℕ) → take_data h w p n ≡ some w' → Follows w w'
  unfolding take_data
  take_data-Follows w w' p n e =
      let (d, _, e₁) = >>=-eq-some (is_data p) _ e in
      elim (Bool-cases (d && have_room_to_receive w.sock n && tcpm_canrecv w.sock)) [
        | inl z ↦
            (let (s, a, e₂) =
                >>=-eq-some
                  (data_from_network_to_buffer w.sock (drop tcp_header_size (ip_to_tcp p)) n) _
                  (rw z at e₁) in
              Follows-trans (sock_Follows s (data_from_network_to_buffer-regs w.sock s _ n a))
                (ack_this_packet-Follows _ w' n e₂))
        | inr z ↦ Follows-some (rw z at e₁) (Follows-refl w)
      ]

  repeat_ack-Follows : (w w' : Ctx H B) (p : List ℕ) → repeat_ack h w p ≡ some w' → Follows w w'
  unfolding repeat_ack
  repeat_ack-Follows w w' p e =
      let (n, _, e₁) = >>=-eq-some (get_window (ip_to_tcp p)) _ e in
      let s = update_from_window_announce w.sock n in
      let k = sock_Follows {w = w} s (update_from_window_announce-regs w.sock n) in
      elim (Bool-cases (tcpm_state s == st_syn_rcvd)) [
        | inl z ↦ Follows-some (rw z at e₁) k
        | inr z ↦ Follows-trans k (send_dumb_packet-Follows h _ w' p flag_ack (rw z at e₁))
      ]

  pub do_recv_tcp-Follows :
      (w w' : Ctx H B) (p : List ℕ) → do_recv_tcp h w p ≡ some w' → Follows w w'
  unfolding do_recv_tcp
  do_recv_tcp-Follows w w' p e =
      let (seq, _, e₁) = >>=-eq-some (get_seqnum (ip_to_tcp p)) _ e in
      let (n, _, e₂) = >>=-eq-some (get_data_len p) _ e₁ in
      elim (Bool-cases (is_valid_seq_num w.sock seq n)) [
        | inl z ↦
            (let (s, a, e₃) = >>=-eq-some (take_segment w.sock p) _ (rw z at e₂) in
              let (input, _, e₄) = >>=-eq-some (tcpm_packet_to_input (ip_to_tcp p)) _ e₃ in
              let (v, b, e₅) =
                >>=-eq-some
                  (tcpm_event H B h input (packet_arg p) (packet p) (record w { sock = s })) _ e₄ in
              Follows-trans (sock_Follows s (take_segment-regs w.sock s p a)) (
                Follows-trans (tcpm_event-Follows H B h input _ _ _ v b)
                  (take_data-Follows v.0 w' p n e₅)))
        | inr z ↦ elim (Bool-cases (is_old_seq_num w.sock seq)) [
          | inl y ↦ repeat_ack-Follows w w' p (rw (z, y) at e₂)
          | inr y ↦ send_dumb_packet-Follows h w w' p flag_rst (rw (z, y) at e₂)
        ]
      ]

  watch_time_wait-Follows : (w w' : Ctx H B) → watch_time_wait h w ≡ some w' → Follows w w'
  unfolding watch_time_wait
  watch_time_wait-Follows w w' e =
      elim (Bool-cases
        (tcpm_state w.sock == st_time_wait && ltb (w.sock.time_wait_time + 4) w.node.now)) [
          | inl z ↦
              (let (v, a, e₁) =
                  >>=-eq-some (tcpm_event H B h on_timeout null_arg null w) _ (rw z at e) in
                Follows-some e₁ (tcpm_event-Follows H B h on_timeout _ _ w v a))
          | inr z ↦ Follows-some (rw z at e) (Follows-refl w)
        ]

  watch_connect-Follows : (w w' : Ctx H B) → watch_connect h w ≡ some w' → Follows w w'
  unfolding watch_connect
  watch_connect-Follows w w' e =
      elim (Bool-cases (
        ltb 0 w.sock.ufunc_timeout
        && ltb (w.sock.ufunc_timeout + connect_timeout_time) w.node.now
        && tcpm_state w.sock == st_syn_sent)) [
          | inl z ↦ tcpm_reset-Follows h w w' (rw z at e)
          | inr z ↦ Follows-some (rw z at e) (Follows-refl w)
        ]

  pub tcp_watchdog-Follows : (w w' : Ctx H B) → tcp_watchdog h w ≡ some w' → Follows w w'
  unfolding tcp_watchdog
  tcp_watchdog-Follows w w' e =
      let s =
        if tcpm_state w.sock == st_closed then record w.sock { last_packet = 0 } else w.sock in
      let (v, a, e₁) = >>=-eq-some (watch_time_wait h (record w { sock = s })) _ e in
      Follows-trans (sock_Follows s (cleared (tcpm_state w.sock == st_closed) w.sock)) (
        Follows-trans (watch_time_wait-Follows _ v a) (
          Follows-trans
            (sock_Follows (watch_packet v.node.now v.sock) (watch_packet-regs v.node.now v.sock))
            (watch_connect-Follows _ w' e₁)))
    where
      cleared :
          (b : Bool) (s : Socket) → regs (if b then record s { last_packet = 0 } else s) ≡ regs s
      cleared true s = refl
      cleared false s = refl

  send_data-Follows : (w w' : Ctx H B) (n : ℕ) → send_data h w n ≡ some w' → Follows w w'
  unfolding send_data
  send_data-Follows w w' n e =
      let ((r, bytes), _, e₁) = >>=-eq-some (data_from_buffer_to_network w.sock n) _ e in
      let (_, _, e₂) = >>=-eq-some (assert (not (ltb_ℤ r (pos 0)) && pos_part r == n)) _ e₁ in
      let (v, a, e₃) = >>=-eq-some (tcp_sendto h w (some bytes) n 0) _ e₂ in
      let (_, _, e₄) =
        >>=-eq-some (assert (leb (add32 v.0.sock.send_next n) v.0.sock.send_written)) _ e₃ in
      Follows-trans (Keeps-Follows (tcp_sendto-Keeps h w (some bytes) n 0 v a))
        (Follows-some e₄ (sock_Follows _ refl))

  send_flag-Follows : (w w' : Ctx H B) → send_flag h w ≡ some w' → Follows w w'
  unfolding send_flag
  send_flag-Follows w w' e =
      let (f, _, e₁) = >>=-eq-some (get_flag_to_send w.sock) _ e in
      let (v, a, e₂) = >>=-eq-some (tcp_sendto h w none 0 (u8 f)) _ e₁ in
      Follows-trans (Keeps-Follows (tcp_sendto-Keeps h w none 0 (u8 f) v a))
        (Follows-some e₂ (sock_Follows _ refl))

  pub tcp_send_step-Follows : (w w' : Ctx H B) → tcp_send_step h w ≡ some w' → Follows w w'
  unfolding tcp_send_step
  tcp_send_step-Follows w w' e =
      let (n, _, e₁) = >>=-eq-some (get_amount_able_to_send w.sock) _ e in
      elim (Bool-cases (not (ltb_ℤ n (pos 0)) && pos_part n == 0)) [
        | inl z ↦ Follows-some (rw z at e₁) (Follows-refl w)
        | inr z ↦
            (let (flag, _, e₂) = >>=-eq-some (send_flag_next w.sock) _ (rw z at e₁) in
              elim (Bool-cases flag) [
                | inl y ↦ send_flag-Follows w w' (rw y at e₂)
                | inr y ↦ elim (Bool-cases (ltb_ℤ (pos 0) n)) [
                  | inl x ↦ send_data-Follows w w' (pos_part n) (rw (y, x) at e₂)
                  | inr x ↦ Follows-some (rw (y, x) at e₂) (Follows-refl w)
                ]
              ])
      ]
