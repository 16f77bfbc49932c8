-- ===== src/Tcpm/Reset.antt =====
-- What `tcpm_new` and `tcpm_reset` of tcp_branch/tcpstate.c make of a socket.
use tcp_archive.Prelude.{
  ℕ, ◌≡◌, ◌%◌, false, List, length, refl, sym, ◌∙◌, ap, Option, none, some, true, get_elem?, ◌>>=◌,
  arith, subst, some_injective, assert,
}
use tcp_archive.External.{HTable, Bqueue, Host, IsHost}
use tcp_archive.Cbuffer.{cbuf_new}
use tcp_archive.Cbuffer.Cells.{IsValid}
use tcp_archive.Machine.{State, machine_reset, restart_abort, run_action, state_new}
use tcp_archive.Socket.{Socket, notify, tcp_error}
use tcp_archive.Seq.Receive.{IsReceiving}
use tcp_archive.Seq.Send.{IsSending}
use tcp_archive.Tcpm.{
  Ctx, TcpArena, tcp_base, reason, ActionFn, ErrorFn, TransFn, in_closed, fail_with_reset,
  next_rand, clear_socket, call_in_closed, call_action, tcp_states, new_states, tcpm_reset,
}
use tcp_archive.Tcpm.Table.{get-tcp_states, get_elem?_total, made_of}

-- A socket as `in_closed` leaves it, with the random number `r`: both directions in order, nothing sent or received, and
-- no peer, no parent and no timer.
pub record IsCleared (r : ℕ) (s : Socket) : Type 0 where
  pub local_port : s.local_port ≡ r % 65535
  pub no_peer : (s.remote_node ≡ 0) × (s.remote_port ≡ 0)
  pub numbers : (s.seq_num ≡ 0) × (s.ack_num ≡ 0)
  pub no_timers : (s.last_packet ≡ 0) × (s.time_wait_time ≡ 0) × (s.ufunc_timeout ≡ 0)
  pub no_handshake : s.can_handshake ≡ false
  pub windows : (s.send_window ≡ 4096) × (s.recv_window ≡ 4096) × (s.remote_flow_window ≡ 4096)
  pub send_pointers : (s.send_una ≡ 0) × (s.send_next ≡ 0) × (s.send_written ≡ 0)
  pub recv_pointers : (s.recv_ack ≡ 0) × (s.recv_next ≡ 0) × (s.recv_read ≡ 0)
  pub receiving : IsReceiving s
  pub sending : IsSending s
  pub no_parent : s.parent ≡ none

pub bind_some {ℓ κ} :
    {A : Type ℓ} {B : Type κ} (m : Option A) (a : A) (f : A → Option B) {b : B}
    → m ≡ some a
    → f a ≡ some b
    → (m >>= f) ≡ some b
bind_some m a f e e' = rw e e'

-- What tells the user of an error, and what the user then takes, are no part of it.
pub told-IsCleared :
    {r : ℕ} (s : Socket) (status timeout : ℕ)
    → IsCleared r s
    → timeout ≡ 0
    → IsCleared r (record s { cond_status = status; ufunc_timeout = timeout })
told-IsCleared s status timeout v e = record {
  local_port = v.local_port;
  no_peer = v.no_peer;
  numbers = v.numbers;
  no_timers = (v.no_timers.0, v.no_timers.1, e);
  no_handshake = v.no_handshake;
  windows = v.windows;
  send_pointers = v.send_pointers;
  recv_pointers = v.recv_pointers;
  receiving = record {
    ring = v.receiving.ring;
    ring_size = v.receiving.ring_size;
    window_small = v.receiving.window_small;
    read_le_ack = v.receiving.read_le_ack;
    ack_le_next = v.receiving.ack_le_next;
    next_le_end = v.receiving.next_le_end;
    no_wrap = v.receiving.no_wrap;
  };
  sending = record {
    ring = v.sending.ring;
    ring_size = v.sending.ring_size;
    window_small = v.sending.window_small;
    una_le_written = v.sending.una_le_written;
    next_le_written = v.sending.next_le_written;
    written_le_end = v.sending.written_le_end;
    no_wrap = v.sending.no_wrap;
  };
  no_parent = v.no_parent;
}

module _ {H : HTable} {B : Bqueue} (h : Host) (host : IsHost h) where
  clear_socket_lem :
      (w : Ctx H B)
      → (w' : Ctx H B) × (clear_socket h w ≡ some w')
        × IsCleared (next_rand w.node).1 w'.sock
        × (w'.sock.machine ≡ w.sock.machine)
        × (w'.sock.cond_status ≡ w.sock.cond_status)
  unfolding clear_socket cbuf_new
  clear_socket_lem w =
      let ring : (bytes : List ℕ)
          → length bytes ≡ 16388
          → IsValid (record { bytes = bytes; size = 8194 }) =
        λ bytes room. record { pos_size = omega arith; int_size = omega arith; room = room } in
      (
        _,
        refl,
        record {
          receiving = record {
            ring = ring (h.heap 16388) (host.heap_size 16388);
            ring_size = refl;
            window_small = omega arith;
            read_le_ack = omega arith;
            ack_le_next = omega arith;
            next_le_end = omega arith;
            no_wrap = omega arith;
          };
          sending = record {
            ring = ring (h.heap_next 16388) (host.heap_next_size 16388);
            ring_size = refl;
            window_small = omega arith;
            una_le_written = omega arith;
            next_le_written = omega arith;
            written_le_end = omega arith;
            no_wrap = omega arith;
          };
          local_port = refl;
          no_peer = (refl, refl);
          numbers = (refl, refl);
          no_timers = (refl, refl, refl);
          no_handshake = refl;
          windows = (refl, refl, refl);
          send_pointers = (refl, refl, refl);
          recv_pointers = (refl, refl, refl);
          no_parent = refl;
        },
        refl,
        refl,
      )

  -- The machine's registers at the closed state.
  abbrev at_root : Ctx H B → Ctx H B
  at_root w = record w {
    sock = record w.sock { machine = record { current = 0; prev = 0; root = 0 } };
  }

  run_in_closed :
      (s : State H ActionFn ErrorFn TransFn (Option ℕ)) (w w' : Ctx H B)
      → s.action ≡ some in_closed
      → clear_socket h w ≡ some w'
      → run_action H (tcp_base H B h) {EA = ErrorFn} {TA = TransFn} s (reason restart_abort) w
        ≡ some (record w' { sock = notify w'.sock tcp_error })
  unfolding run_action call_action call_in_closed
  run_in_closed s w w' a e = rw (a, e)

  reset_run :
      (w v : Ctx H B) (arena : TcpArena H) (s : State H ActionFn ErrorFn TransFn (Option ℕ))
      (root : ℕ)
      → w.sock.machine_set ≡ true
      → tcp_states H ≡ some arena
      → get_elem? arena root ≡ some s
      → w.sock.machine.root ≡ root
      → run_action H (tcp_base H B h) s (reason restart_abort) (record w {
        sock = record w.sock { machine = record { current = root; prev = root; root = root } };
      })
        ≡ some v
      → tcpm_reset H B h w ≡ some v
  unfolding tcpm_reset machine_reset
  reset_run w v arena s root set p q r e = bind_some _ tt _ (ap assert set) (
      bind_some _ arena _ p (
        bind_some _ s _ (ap (get_elem? arena) r ∙ q) (
          subst
            (λ t.
              run_action H (tcp_base H B h) s (reason restart_abort) (record w {
                sock = record w.sock { machine = record { current = t; prev = t; root = t } };
              })
              ≡ some v)
            (sym r) e)))

  -- `tcpm_reset` of a machine that was set and has the closed state as its root never ends the
  -- process: the machine stands there with no history, and the user of the socket is told of
  -- an error. The socket is cleared: its local port is the random number drawn, by 65535; it has no
  -- peer and no parent, takes no handshake, and has no timer; its numbers and pointers are 0, its
  -- windows 4096, and both its rings have 8194 cells. Memory has the size that was asked for.
  pub tcpm_reset_lem :
      (w : Ctx H B)
      → w.sock.machine_set ≡ true
      → w.sock.machine.root ≡ 0
      → (w' : Ctx H B) × (tcpm_reset H B h w ≡ some w')
        × (w'.sock.machine ≡ record { current = 0; prev = 0; root = 0 })
        × IsCleared (next_rand w.node).1 w'.sock
        × (w'.sock.cond_status ≡ tcp_error)
  unfolding notify new_states state_new
  tcpm_reset_lem w set root =
      let (arena, p, len, act, got) = get-tcp_states H in
      let (s, q) = get_elem?_total H arena 0 (rw len (omega arith)) in
      let made : some (made_of H s) ≡ some (0, some in_closed, some fail_with_reset, none) =
        sym (rw q) ∙ act 0 in
      let a : s.action ≡ some in_closed = ap (λ z. z.1) (some_injective made) in
      let (w', e, clear, m, c) = clear_socket_lem (at_root w) in
      (
        record w' { sock = notify w'.sock tcp_error },
        reset_run w _ arena s 0 set p q root (run_in_closed s (at_root w) w' a e),
        m,
        told-IsCleared w'.sock tcp_error w'.sock.ufunc_timeout clear clear.no_timers.2,
        refl,
      )
