-- ===== src/Tcpm.antt =====
-- tcp_branch/tcpstate.h, the states and transitions of tcp_branch/tcpstate.c, and the state functions
-- of tcp_branch/statefunc.c. A state is pointed to by its position in the arena, which is its number.
-- What a function gets is the socket in focus and the node: the socket's entry in the node's table is
-- behind while it is in focus.
pub mod Names
pub mod Table
pub mod Keeps
pub mod Follows
pub mod Reset
use tcp_archive.Prelude.{
  ℕ, suc, ◌+◌, ◌%◌, Option, none, some, Bool, true, false, not, ◌&&◌, ◌||◌, List, [], ◌∷◌,
  get_elem?, ◌==◌, if◌then◌else◌, ℤ, ◌>>=◌, ◌>>◌, assert, add32, bit_or,
}
use tcp_archive.External.{HTable, Bqueue, Host}
use tcp_archive.Cbuffer.{cbuf_new, cbuf_put_eof}
use tcp_archive.Packet.{flag_fin, flag_syn, flag_rst, flag_ack}
use tcp_archive.Machine.{
  Machine, Base, Arena, state_new, state_transition, is_zero, machine_reset, machine_new,
  restart_ok, restart_abort, restart_init,
}
use tcp_archive.Socket.{Socket, notify, send_window_size, tcp_ok, tcp_error}
use tcp_archive.Node.{Node}
use tcp_archive.Tcpm.Names.{
  st_closed, st_syn_sent, st_syn_rcvd, st_listen, st_estab, st_fin_wait1, st_fin_wait2,
  st_time_wait, st_closing, st_close_wait, st_last_ack, on_active_open, on_close, on_none,
  on_passive_open, on_recv_ack, on_recv_fin, on_recv_fin_ack, on_recv_syn, on_recv_syn_ack,
  on_timeout, close_ok, close_eof,
}

-- The socket that the code works on, and its node.
pub record Ctx (H : HTable) (B : Bqueue) : Type 0 where
  pub sock : Socket
  pub node : Node H B

-- The functions of statefunc.c, by the types that the machine calls them at.
pub data ActionFn : Type 0 where
  in_closed in_estab in_timewait in_closewait : ActionFn

pub data ErrorFn : Type 0 where
  fail_with_reset : ErrorFn

pub data TransFn : Type 0 where
  do_send_flags do_connect do_listen do_close : TransFn

-- What the last argument of a state's or an error function is: a reason of `machine_reset`, a
-- packet, or null.
pub data Arg : Type 0 where
  reason : ℕ → Arg
  packet : List ℕ → Arg
  null : Arg

-- One call of `state_transition` in `tcpm_new`; the last argument is the byte of `alloc_byte`, if
-- there is one.
pub record Row : Type 0 where
  pub state : ℕ
  pub next : ℕ
  pub input : ℕ
  pub action : Option TransFn
  pub argd : Option ℕ

abbrev row : ℕ → ℕ → ℕ → Option TransFn → Option ℕ → Row
row state next input action argd = record {
  state = state;
  next = next;
  input = input;
  action = action;
  argd = argd;
}

-- The calls of `state_transition`, in the order of the code.
abbrev pub transitions : List Row
transitions =
    row st_closed st_syn_sent on_active_open (some do_send_flags) (some flag_syn)
    ∷ row st_closed st_listen on_passive_open (some do_listen) none
    ∷ row st_syn_sent st_closed on_close none none
    ∷ row st_syn_sent st_syn_rcvd on_recv_syn (some do_send_flags) (some flag_ack)
    ∷ row st_syn_sent st_estab on_recv_syn_ack (some do_connect) (some flag_ack)
    ∷ row st_listen st_closed on_close (some do_close) (some close_ok)
    ∷ row st_listen st_syn_rcvd on_recv_syn (some do_send_flags) (some (bit_or flag_syn flag_ack))
    ∷ row st_syn_rcvd st_estab on_recv_ack none none
    ∷ row st_estab st_fin_wait1 on_close (some do_send_flags) (some flag_fin)
    ∷ row st_estab st_close_wait on_recv_fin (some do_send_flags) (some flag_ack)
    ∷ row st_estab st_estab on_none none none
    ∷ row st_estab st_estab on_recv_ack none none
    ∷ row st_fin_wait1 st_closing on_recv_fin (some do_send_flags) (some flag_ack)
    ∷ row st_fin_wait1 st_time_wait on_recv_fin_ack (some do_send_flags) (some flag_ack)
    ∷ row st_fin_wait1 st_fin_wait2 on_recv_ack (some do_close) (some close_ok)
    ∷ row st_fin_wait1 st_fin_wait1 on_none none none
    ∷ row st_fin_wait2 st_time_wait on_recv_fin (some do_send_flags) (some flag_ack)
    ∷ row st_fin_wait2 st_fin_wait2 on_none none none
    ∷ row st_close_wait st_last_ack on_close (some do_send_flags) (some flag_fin)
    ∷ row st_close_wait st_close_wait on_recv_ack none none
    ∷ row st_closing st_time_wait on_recv_ack none none
    ∷ row st_time_wait st_closed on_timeout (some do_close) (some close_eof)
    ∷ row st_last_ack st_closed on_recv_ack (some do_close) (some close_ok)
    ∷ []

-- The calls of `state_new`: the number and the action. Each has `fail_with_reset` as error function
-- and no data.
abbrev pub states : List (ℕ × Option ActionFn)
states =
    (st_closed, some in_closed)
    ∷ (st_syn_sent, none)
    ∷ (st_syn_rcvd, none)
    ∷ (st_listen, none)
    ∷ (st_estab, some in_estab)
    ∷ (st_fin_wait1, none)
    ∷ (st_fin_wait2, none)
    ∷ (st_time_wait, some in_timewait)
    ∷ (st_closing, none)
    ∷ (st_close_wait, some in_closewait)
    ∷ (st_last_ack, none)
    ∷ []

module _ (H : HTable) where
  -- The states of a TCP machine.
  abbrev pub TcpArena : Type 0
  TcpArena = Arena H ActionFn ErrorFn TransFn (Option ℕ)

  abbrev pub add_states : TcpArena → List (ℕ × Option ActionFn) → TcpArena
  add_states arena [] = arena
  add_states arena ((id, action) ∷ l) =
      add_states (state_new H arena id action (some fail_with_reset) none).0 l

  -- Each call of `state_transition` is in an `assert` that its result is 0.
  abbrev pub add_transitions : TcpArena → List Row → Option TcpArena
  add_transitions arena [] = some arena
  add_transitions arena (r ∷ l) =
      let (arena', status) = state_transition H arena r.state r.next r.input r.action r.argd in
      assert (is_zero status) >> add_transitions arena' l

  -- The machine's states before and after the transitions are added.
  unfoldable pub new_states : TcpArena
  new_states = add_states [] states

  unfoldable pub tcp_states : Option TcpArena
  unfolding new_states
  tcp_states = add_transitions new_states transitions

-- `tcpm_prevstate` and `tcpm_state`, through the pointers.
unfoldable pub tcpm_state : Socket → ℕ
tcpm_state sock = sock.machine.current

unfoldable pub tcpm_prevstate : Socket → ℕ
tcpm_prevstate sock = sock.machine.prev

-- `tcpm_canbind`, `tcpm_canlisten` and `tcpm_canconnect`
unfoldable pub tcpm_canbind : Socket → Bool
unfolding tcpm_state
tcpm_canbind s = tcpm_state s == st_closed

unfoldable pub tcpm_canrecv : Socket → Bool
unfolding tcpm_state
tcpm_canrecv s =
    tcpm_state s == st_estab || tcpm_state s == st_fin_wait1 || tcpm_state s == st_fin_wait2

unfoldable pub tcpm_canread : Socket → Bool
unfolding tcpm_state
tcpm_canread s =
    not (tcpm_state s == st_closed)
    && not (tcpm_state s == st_syn_sent)
    && not (tcpm_state s == st_syn_rcvd)
    && not (tcpm_state s == st_listen)

unfoldable pub tcpm_cansend : Socket → Bool
unfolding tcpm_state
tcpm_cansend s = tcpm_state s == st_estab || tcpm_state s == st_close_wait

pub tcpm_canaccept : Socket → Bool
unfolding tcpm_state
tcpm_canaccept s = tcpm_state s == st_listen

pub tcpm_canclose : Socket → Bool
unfolding tcpm_state
tcpm_canclose s =
    tcpm_state s == st_listen || tcpm_state s == st_estab || tcpm_state s == st_close_wait

-- `queue_eof` of tcp.c
pub queue_eof : Socket → Option Socket
queue_eof sock = cbuf_put_eof sock.r_buf sock.recv_next >>= λ c.
    some (record sock { r_buf = c; recv_next = add32 sock.recv_next 1 })

module _ {H : HTable} {B : Bqueue} where
  -- `rand`
  abbrev pub next_rand : Node H B → Node H B × ℕ
  next_rand node = (record node { drawn = suc node.drawn }, node.rands node.drawn)

  -- `notify` of another socket, or of the one in focus if it is that.
  pub notify_other : ℕ → ℕ → Ctx H B → Option (Ctx H B)
  notify_other fd status w =
      if fd == w.sock.fd
      then some (record w { sock = notify w.sock status })
      else (w.node.socket_table fd >>= λ other. some (record w {
        node = record w.node {
          socket_table = λ i. if i == fd then some (notify other status) else w.node.socket_table i;
        };
      }))

  -- The switch of `in_closed` from `case RESTART_OK` on, up to the signal.
  unfoldable pub clear_socket : Host → Ctx H B → Option (Ctx H B)
  clear_socket h w =
      let (node, r) = next_rand w.node in
      cbuf_new (h.heap 16388) 8194 >>= λ r_buf. cbuf_new (h.heap_next 16388) 8194 >>= λ s_buf.
      some (record {
        node = node;
        sock = record w.sock {
          last_packet = 0;
          local_port = r % 65535;
          remote_port = 0;
          remote_node = 0;
          seq_num = 0;
          ack_num = 0;
          can_handshake = false;
          parent = none;
          send_window = send_window_size;
          recv_window = send_window_size;
          time_wait_time = 0;
          ufunc_timeout = 0;
          send_una = 0;
          send_next = 0;
          send_written = 0;
          remote_flow_window = send_window_size;
          recv_ack = 0;
          recv_next = 0;
          recv_read = 0;
          r_buf = r_buf;
          s_buf = s_buf;
        };
      })

  unfoldable pub call_in_closed : Host → Arg → Ctx H B → Option (Ctx H B)
  unfolding clear_socket
  call_in_closed h (reason r) w =
      if r == restart_init
      then clear_socket h (record w { sock = record w.sock { cond_status = 0 } })
      else (if r == restart_ok
          then clear_socket h w
          else (if r == restart_abort
              then (clear_socket h w >>= λ w'. some (record w' { sock = notify w'.sock tcp_error }))
              else none))
  call_in_closed h (packet p) w = none
  call_in_closed h null w = none

  unfoldable pub call_in_estab : ℕ → Ctx H B → Option (Ctx H B)
  unfolding notify_other tcpm_prevstate
  call_in_estab s w = if tcpm_prevstate w.sock == s then some w else (elim w.sock.parent [
    | some fd ↦ notify_other fd tcp_ok w
    | none ↦ some (record w { sock = notify w.sock tcp_ok })
  ])

  pub call_in_closewait : ℕ → Ctx H B → Option (Ctx H B)
  unfolding queue_eof tcpm_prevstate
  call_in_closewait s w =
      if tcpm_prevstate w.sock == s
      then some w
      else (queue_eof w.sock >>= λ sock. some (record w { sock = sock }))

  -- A call of a state's function.
  unfoldable pub call_action : Host → ActionFn → ℕ → Option ℕ → Arg → Ctx H B → Option (Ctx H B)
  unfolding call_in_closed call_in_estab call_in_closewait
  call_action h in_closed id d a w = call_in_closed h a w
  call_action h in_estab id d a w = call_in_estab id w
  call_action h in_timewait id d a w =
      some (record w { sock = record w.sock { time_wait_time = w.node.now } })
  call_action h in_closewait id d a w = call_in_closewait id w

module _ (H : HTable) (B : Bqueue) (h : Host) where
  abbrev pub tcp_base : Base
  tcp_base = record {
    Context = Ctx H B;
    Arg = Arg;
    D = Option ℕ;
    SA = ActionFn;
    machine = λ w. w.sock.machine;
    set_machine = λ m w. record w { sock = record w.sock { machine = m } };
    reason = reason;
    call_action = call_action h;
  }

  -- `tcpm_reset`; a machine that was never set is no pointer.
  pub tcpm_reset : Ctx H B → Option (Ctx H B)
  unfolding tcp_states
  tcpm_reset w = do
    assert w.sock.machine_set
    arena ← tcp_states H
    machine_reset H tcp_base arena restart_abort w

  -- `tcpm_new`, with the assignment of `sys_socket` that it is the result for.
  unfoldable pub tcpm_new : Bool → Ctx H B → Option (Ctx H B)
  unfolding new_states tcp_states
  tcpm_new clone w = do
    w' ← machine_new H tcp_base (new_states H) st_closed w
    arena ← tcp_states H
    let m = w'.sock.machine
    some (record w' {
      sock = record w'.sock {
        machine_set = true;
        machine = if clone then record m { current = st_listen } else m;
      };
    })
