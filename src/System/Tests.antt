-- ===== src/System/Tests.antt =====
-- The theorems about a running node at a concrete one.
use tcp_archive.Prelude.{◌≡◌, refl, is_some, true, some, none, Option, pos, minus_one, arith, ℤ}
use tcp_archive.External.Concrete.{assoc_table, list_queue, sample_host, sample_host-IsHost}
use tcp_archive.Cbuffer.{cbuf_new, cbuf_put_flag, put_cell}
use tcp_archive.Node.{Node}
use tcp_archive.Node.Sample.{sample_node, sample_sock}
use tcp_archive.Socket.{Socket}
use tcp_archive.Machine.{
  machine_new, machine_reset, run_action, state_new, state_transition, machine_step, run_transition,
  step_moves,
}
use tcp_archive.Tcpm.Reset.{IsCleared}
use tcp_archive.Tcpm.{
  next_rand, Ctx, tcpm_new, new_states, tcp_states, call_action, call_in_closed, clear_socket,
  tcpm_canbind,
}
use tcp_archive.Tcp.{get_socket_from_int, send_packet_with_flags, queue_up_flags}
use tcp_archive.Statefunc.{tcpm_event, call_transition, transition_call}
use tcp_archive.Driver.{sys_socket, store, tcp_watchdog}
use tcp_archive.Driver.Sound.{IsSound}
use tcp_archive.Api.{v_socket, v_connect, v_connect_end}
use tcp_archive.System.{
  van_driver_init, v_tcp_init, Reach, start, then_step, socket_call, connect_call, clock,
}
use tcp_archive.System.Invariant.{Reach-IsSound}
use tcp_archive.System.Timeout.{v_connect_end-tcp_watchdog}

-- The value of a call that gives one.
abbrev value {ℓ} : {A : Type ℓ} → Option A → A → A
value none d = d
value (some a) d = a

some-value {ℓ} : {A : Type ℓ} (o : Option A) (d : A) → is_some o ≡ true → o ≡ some (value o d)
some-value none d e = cc
some-value (some a) d e = refl

-- A node that makes a socket and asks node 5 for a connection at port 90; 100 seconds go by.
abbrev fresh : Node assoc_table list_queue
fresh = van_driver_init sample_node 1000 (λ i. i)

abbrev opened : Node assoc_table list_queue × ℤ
opened = value (v_socket sample_host sample_sock fresh) (fresh, minus_one)

abbrev asking : Node assoc_table list_queue × Option ℤ
asking = value (v_connect sample_host opened.0 (pos 0) 5 90) (fresh, none)

abbrev aged : Node assoc_table list_queue
aged = record asking.0 { now = 1100 }

abbrev waiting : Socket
waiting = value (aged.socket_table 0) sample_sock

opens : is_some (v_socket sample_host sample_sock fresh) ≡ true
unfolding v_socket sys_socket tcpm_new machine_new machine_reset new_states tcp_states state_new
    state_transition run_action call_action call_in_closed clear_socket cbuf_new van_driver_init
    v_tcp_init v_connect get_socket_from_int tcpm_canbind tcpm_event machine_step run_transition
    step_moves call_transition transition_call send_packet_with_flags queue_up_flags cbuf_put_flag
    put_cell
opens = refl

asks : is_some (v_connect sample_host opened.0 (pos 0) 5 90) ≡ true
unfolding v_socket sys_socket tcpm_new machine_new machine_reset new_states tcp_states state_new
    state_transition run_action call_action call_in_closed clear_socket cbuf_new van_driver_init
    v_tcp_init v_connect get_socket_from_int tcpm_canbind tcpm_event machine_step run_transition
    step_moves call_transition transition_call send_packet_with_flags queue_up_flags cbuf_put_flag
    put_cell
asks = refl

waits : is_some (aged.socket_table 0) ≡ true
unfolding v_socket sys_socket tcpm_new machine_new machine_reset new_states tcp_states state_new
    state_transition run_action call_action call_in_closed clear_socket cbuf_new van_driver_init
    v_tcp_init v_connect get_socket_from_int tcpm_canbind tcpm_event machine_step run_transition
    step_moves call_transition transition_call send_packet_with_flags queue_up_flags cbuf_put_flag
    put_cell
waits = refl

asked_at : (waiting.machine.current ≡ 1) × (waiting.ufunc_timeout ≡ 1000) × (asking.0.now ≡ 1000)
unfolding v_socket sys_socket tcpm_new machine_new machine_reset new_states tcp_states state_new
    state_transition run_action call_action call_in_closed clear_socket cbuf_new van_driver_init
    v_tcp_init v_connect get_socket_from_int tcpm_canbind tcpm_event machine_step run_transition
    step_moves call_transition transition_call send_packet_with_flags queue_up_flags cbuf_put_flag
    put_cell
asked_at = (refl, refl, refl)

reaches : Reach sample_host fresh aged
reaches =
    then_step
      (then_step (then_step (start refl) (socket_call sample_sock opened.1 (some-value _ _ opens)))
        (connect_call (pos 0) 5 90 asking.1 (some-value _ _ asks)))
      (clock 1100 (omega (arith, asked_at.2)) refl)

Reach-IsSound_example : IsSound aged
Reach-IsSound_example = Reach-IsSound sample_host sample_node 1000 (λ i. i) aged reaches

v_connect_end-tcp_watchdog_example :
    (w : Ctx assoc_table list_queue) × (tcp_watchdog sample_host
        (record { sock = waiting; node = aged })
      ≡ some w)
    × (node' : Node assoc_table list_queue) × (v_connect_end sample_host (store 0 w) (pos 0)
        ≡ some (node', some minus_one))
    × (closed : Socket) × (node'.socket_table 0 ≡ some closed)
    × (closed.machine ≡ record { current = 0; prev = 0; root = 0 })
    × IsCleared (next_rand aged).1 closed
v_connect_end-tcp_watchdog_example =
    v_connect_end-tcp_watchdog sample_host sample_host-IsHost sample_node 1000 (λ i. i) aged 0
      waiting reaches (some-value _ _ waits) asked_at.0 (omega (arith, asked_at.1))
      (omega (arith, asked_at.1))
