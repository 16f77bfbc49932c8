-- ===== src/Statefunc/Tests.antt =====
-- The theorems about the TCP machine at a concrete node and socket.
use tcp_archive.Prelude.{
  ℕ, ◌≡◌, refl, false, some, none, [], ◌∷◌, replicate, ◌++◌, length, arith, length-replicate,
}
use tcp_archive.External.Concrete.{assoc_table, list_queue, sample_host, sample_host-IsHost}
use tcp_archive.Machine.{
  machine_step, run_transition, step_moves, run_action, state_new, state_transition,
}
use tcp_archive.Socket.{tcp_error}
use tcp_archive.Node.Sample.{sample_node, sample_sock, sample_ring}
use tcp_archive.Tcpm.{
  Ctx, next_rand, Row, do_send_flags, null, TcpArena, tcp_states, new_states, tcpm_reset,
  call_action, call_in_estab, tcpm_prevstate, transitions,
}
use tcp_archive.Tcpm.Names.{on_recv_ack, on_close, st_estab, st_fin_wait1}
use tcp_archive.Packet.{flag_fin}
use tcp_archive.Cbuffer.Cells.{IsValid}
use tcp_archive.Seq.{get_flag_to_send}
use tcp_archive.Statefunc.Flags.{get_flag_to_send-tcpm_event}
use tcp_archive.Tcpm.Table.{find_row, row_or, arena_get, made_at, get-tcp_states}
use tcp_archive.Tcpm.Reset.{IsCleared, tcpm_reset_lem}
use tcp_archive.Statefunc.{null_arg, tcpm_event, tcpm_packet_to_input}
use tcp_archive.Statefunc.Event.{EventOutcome, tcpm_event_outcome}

abbrev established : Ctx assoc_table list_queue
established = record { sock = sample_sock; node = sample_node }

acks :
    tcpm_event assoc_table list_queue sample_host on_recv_ack null_arg null established
    ≡ some (established, false)
unfolding tcpm_event tcp_states new_states state_new state_transition machine_step run_transition
    step_moves run_action call_action call_in_estab tcpm_prevstate
acks = refl

syn_ack : tcpm_packet_to_input (replicate 13 0 ++ (18 ∷ [])) ≡ some 8
unfolding tcpm_packet_to_input
syn_ack = refl

get-tcp_states_example :
    (arena : TcpArena assoc_table) × (tcp_states assoc_table ≡ some arena)
    × (length arena ≡ 11)
    × ((s : ℕ) → made_at assoc_table arena s ≡ made_at assoc_table (new_states assoc_table) s)
    × ((s i : ℕ) → arena_get assoc_table arena s i ≡ row_or (find_row transitions s i) none)
get-tcp_states_example = get-tcp_states assoc_table

tcpm_reset_lem_example :
    (w' : Ctx assoc_table list_queue) × (tcpm_reset assoc_table list_queue sample_host established
      ≡ some w')
    × (w'.sock.machine ≡ record { current = 0; prev = 0; root = 0 })
    × IsCleared (next_rand sample_node).1 w'.sock
    × (w'.sock.cond_status ≡ tcp_error)
tcpm_reset_lem_example = tcpm_reset_lem sample_host sample_host-IsHost established refl refl

tcpm_event_outcome_example : EventOutcome sample_sock.machine sample_sock.machine on_recv_ack false
tcpm_event_outcome_example =
    tcpm_event_outcome assoc_table list_queue sample_host on_recv_ack null_arg null established
      established false (omega arith) acks

abbrev close_row : Row
close_row = record {
  state = st_estab;
  next = st_fin_wait1;
  input = on_close;
  action = some do_send_flags;
  argd = some flag_fin;
}

sample_ring-IsValid : IsValid sample_ring
sample_ring-IsValid = record {
  pos_size = omega arith;
  int_size = omega arith;
  room = length-replicate {A = ℕ} 16388 0;
}

get_flag_to_send-tcpm_event_example :
    (w' : Ctx assoc_table list_queue) × (tcpm_event assoc_table list_queue sample_host on_close
        null_arg null established
      ≡ some (w', false))
    × (w'.sock.machine ≡ record { current = st_fin_wait1; prev = st_estab; root = 0 })
    × (get_flag_to_send w'.sock ≡ some flag_fin)
get_flag_to_send-tcpm_event_example =
    get_flag_to_send-tcpm_event assoc_table list_queue sample_host on_close null_arg null
      established close_row flag_fin refl (omega arith) refl refl refl (omega arith)
      sample_ring-IsValid (omega arith) refl
