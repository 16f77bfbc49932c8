-- ===== src/Statefunc.antt =====
-- The transition and error functions of tcp_branch/statefunc.c, and the TCP machine of
-- tcp_branch/tcpstate.c that calls them.
mod Tests
pub mod Keeps
pub mod Event
pub mod Quiet
pub mod Follows
pub mod Flags
use tcp_archive.Prelude.{
  ℕ, suc, ◌+◌, ◌*◌, Option, none, some, Bool, true, false, not, bit_or, List, ltb, ◌==◌,
  if◌then◌else◌, ℤ, pos, ◌>>=◌, ◌>>◌, assert, add32,
}
use tcp_archive.External.{HTable, Bqueue, Host}
use tcp_archive.Machine.{Client, machine_step}
use tcp_archive.Packet.{get_seqnum, get_flags, ip_to_tcp, flag_fin, flag_syn, flag_rst, flag_ack}
use tcp_archive.Socket.{Socket, notify, tcp_ok, tcp_error}
use tcp_archive.Socktable.{socktable_put, Tuple}
use tcp_archive.Node.{Node}
use tcp_archive.Tcpm.{
  Ctx, Arg, reason, packet, null, ErrorFn, fail_with_reset, TransFn, do_send_flags, do_connect,
  do_listen, do_close, tcp_base, tcp_states, queue_eof,
}
use tcp_archive.Tcpm.Names.{
  close_error, close_ok, close_eof, on_recv_ack, on_recv_syn, on_recv_fin, on_recv_rst,
  on_recv_syn_ack, on_recv_fin_ack, on_none, on_invalid,
}
use tcp_archive.Tcp.{send_packet_with_flags, send_dumb_packet}

-- What the first argument of a transition's function is.
pub data TArg : Type 0 where
  node_arg : TArg
  packet_arg : List ℕ → TArg
  null_arg : TArg

-- The key under which the tuple table has a socket.
abbrev pub tuple_of : Host → Socket → Tuple
tuple_of h sock = record {
  lnode = h.vn_num;
  lport = sock.local_port;
  rnode = sock.remote_node;
  rport = sock.remote_port;
}

-- The `int` that `do_close` reads at a block of one byte.
abbrev pub read_int : Host → ℕ → ℕ
read_int h b = b + 256 * h.after_byte

module _ {H : HTable} {B : Bqueue} (h : Host) where
  -- `fail_with_reset`; `args` has to be a packet.
  pub call_error : ErrorFn → ℕ → Arg → Ctx H B → Option (Ctx H B)
  call_error fail_with_reset id (packet p) w = do
    w' ← send_dumb_packet h w p flag_rst
    some (record w' { sock = record w'.sock { last_packet = 0 } })
  call_error fail_with_reset id (reason r) w = none
  call_error fail_with_reset id null w = none

  unfoldable pub call_do_close : ℕ → Ctx H B → Option (Ctx H B)
  call_do_close b w =
      let close_type = read_int h b in
      if close_type == close_error
      then some (record w { sock = notify w.sock (bit_or tcp_error tcp_ok) })
      else (if close_type == close_ok
          then some (record w { sock = notify w.sock tcp_ok })
          else (if close_type == close_eof
              then (queue_eof w.sock >>= λ sock. some (record w { sock = sock }))
              else some w))

  unfoldable pub call_do_connect : ℕ → List ℕ → Ctx H B → Option (Ctx H B)
  call_do_connect flags p w = do
    seq ← get_seqnum (ip_to_tcp p)
    send_packet_with_flags h
        (record w {
          sock = record w.sock {
            recv_next = add32 w.sock.recv_next seq;
            recv_ack = add32 w.sock.recv_ack seq;
            recv_read = seq;
          };
        })
        flags

  unfoldable pub call_do_listen : Ctx H B → Ctx H B
  call_do_listen w = record w {
    node = record w.node {
      tuple_table = (socktable_put H w.node.tuple_table (tuple_of h w.sock) w.sock.fd false).0;
    };
  }

  -- A call of a transition's function, with its result: each returns 0.
  unfoldable pub transition_call : TransFn → Option ℕ → TArg → Ctx H B → Option (Ctx H B)
  unfolding call_do_close call_do_connect call_do_listen
  transition_call do_send_flags (some b) a w = send_packet_with_flags h w b
  transition_call do_connect (some b) (packet_arg p) w = call_do_connect b p w
  transition_call do_close (some b) a w = call_do_close b w
  transition_call do_listen d node_arg w = some (call_do_listen w)
  transition_call do_send_flags none a w = none
  transition_call do_close none a w = none
  transition_call do_connect d a w = none
  transition_call do_listen d a w = none

  unfoldable pub call_transition :
      TransFn → ℕ → ℕ → Option ℕ → TArg → Ctx H B → Option (Ctx H B × ℤ)
  unfolding transition_call
  call_transition f p n d a w = transition_call f d a w >>= λ w'. some (w', pos 0)

-- `tcpm_packet_to_input`, over a packet that begins with the TCP header.
abbrev pub input_of_flags : ℕ → ℕ
input_of_flags f =
    if f == flag_ack
    then on_recv_ack
    else (if f == flag_syn
        then on_recv_syn
        else (if f == flag_fin
            then on_recv_fin
            else (if f == flag_rst
                then on_recv_rst
                else (if f == bit_or flag_syn flag_ack
                    then on_recv_syn_ack
                    else (if f == bit_or flag_fin flag_ack
                        then on_recv_fin_ack
                        else (if f == 0 then on_none else on_invalid))))))

unfoldable pub tcpm_packet_to_input : List ℕ → Option ℕ
tcpm_packet_to_input p = get_flags p >>= λ f. some (input_of_flags f)

module _ (H : HTable) (B : Bqueue) (h : Host) where
  abbrev pub tcp_client : Client
  tcp_client = record {
    base = tcp_base H B h;
    TArg = TArg;
    EA = ErrorFn;
    TA = TransFn;
    call_error = call_error h;
    call_transition = call_transition h;
  }

  -- `tcpm_event`: whether the machine had no such transition, or it failed.
  unfoldable pub tcpm_event : ℕ → TArg → Arg → Ctx H B → Option (Ctx H B × Bool)
  tcpm_event event argt args w = do
    assert w.sock.machine_set
    arena ← tcp_states H
    r ← machine_step H tcp_client arena event argt args w
    some (r.0, elim r.1 [ none ↦ true | some _ ↦ false ])
