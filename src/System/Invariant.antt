-- ===== src/System/Invariant.antt =====
-- The table of sockets of a running node, whatever order its threads and calls act in.
use tcp_archive.Prelude.{ℕ, ◌≡◌, sym, ap, subst, some, ◌∙◌}
use tcp_archive.External.{HTable, Bqueue, Host}
use tcp_archive.Node.{Node}
use tcp_archive.Tcp.Keeps.{van_driver_sendto-keeps}
use tcp_archive.Tcpm.Keeps.{slot_regs}
use tcp_archive.Tcpm.Follows.{Follows}
use tcp_archive.Tcpm.{Ctx}
use tcp_archive.Socket.{Socket}
use tcp_archive.Driver.{store}
use tcp_archive.Driver.Follows.{tcp_watchdog-Follows, tcp_send_step-Follows}
use tcp_archive.Driver.Sound.{
  IsSound, SlotOk, Follows-IsSoundCtx, store-IsSound, focus-IsSoundCtx, tcp_step-IsSound, slot_fd,
}
use tcp_archive.Router.Keeps.{
  sender_step-sockets, van_driver_recvfrom-sockets, rip_step-sockets, link_state_step-sockets,
  listener_step-sockets,
}
use tcp_archive.Api.Sound.{
  v_socket-IsSound, v_bind-IsSound, v_listen-IsSound, v_connect-IsSound, v_connect_end-IsSound,
  v_accept-IsSound, v_accept_end-IsSound, v_read-IsSound, v_write-IsSound, v_close-IsSound,
  v_close_end-IsSound,
}
use tcp_archive.System.{
  van_driver_init, v_tcp_init, Step, clock, socket_call, bind_call, listen_call, connect_call,
  connect_end, accept_call, accept_end, read_call, write_call, close_call, close_end, sendto_call,
  recvfrom_call, tcp_thread, watchdog, send_thread, sender_thread, listener_thread, rip_thread,
  link_thread, Reach, start, then_step,
}

module _ {H : HTable} {B : Bqueue} where
  same_sockets :
      (node node' : Node H B)
      → node'.socket_table ≡ node.socket_table
      → IsSound node
      → IsSound node'
  same_sockets node node' e v = λ i. subst (λ t. SlotOk i (slot_regs (t i))) (sym e) (v i)

  -- A thread's round for the socket of a slot.
  round_IsSound :
      (node : Node H B) (i : ℕ) (sock : Socket) (w : Ctx H B)
      → node.socket_table i ≡ some sock
      → Follows (record { sock = sock; node = node }) w
      → IsSound node
      → IsSound (store i w)
  round_IsSound node i sock w e k v =
      store-IsSound i (k.fd ∙ slot_fd node i sock v e)
        (Follows-IsSoundCtx k (focus-IsSoundCtx node i sock v e))

-- One step of any thread or call keeps the table of sockets in order.
pub Step-IsSound :
    {H : HTable} {B : Bqueue} (h : Host) (node node' : Node H B)
    → Step h node node'
    → IsSound node
    → IsSound node'
Step-IsSound h node node' (clock t less e) v =
    same_sockets node node' (ap (λ n. n.socket_table) e) v
Step-IsSound h node node' (socket_call raw r e) v = v_socket-IsSound h raw node (node', r) e v
Step-IsSound h node node' (bind_call s port r e) v = v_bind-IsSound h node s port (node', r) e v
Step-IsSound h node node' (listen_call s r e) v = v_listen-IsSound h node s (node', r) e v
Step-IsSound h node node' (connect_call s to port r e) v =
    v_connect-IsSound h node s to port (node', r) e v
Step-IsSound h node node' (connect_end s r e) v = v_connect_end-IsSound h node s (node', r) e v
Step-IsSound h node node' (accept_call s r e) v = v_accept-IsSound h node s (node', r) e v
Step-IsSound h node node' (accept_end s r e) v = v_accept_end-IsSound h node s (node', r) e v
Step-IsSound h node node' (read_call s n r bytes e) v =
    v_read-IsSound h node s n (node', r, bytes) e v
Step-IsSound h node node' (write_call s bytes n r e) v =
    v_write-IsSound h node s bytes n (node', r) e v
Step-IsSound h node node' (close_call s r e) v = v_close-IsSound h node s (node', r) e v
Step-IsSound h node node' (close_end s r e) v = v_close_end-IsSound h node s (node', r) e v
Step-IsSound h node node' (sendto_call buf size to proto e) v =
    same_sockets node node'
      (ap (λ n. n.socket_table) e ∙ van_driver_sendto-keeps h node buf size to proto) v
Step-IsSound h node node' (recvfrom_call size r e) v =
    same_sockets node node' (van_driver_recvfrom-sockets node size (node', r) e) v
Step-IsSound h node node' (tcp_thread raw e) v = tcp_step-IsSound h raw node node' e v
Step-IsSound h node node' (watchdog i sock w a e q) v =
    subst IsSound (sym q) (round_IsSound node i sock w a (tcp_watchdog-Follows h _ w e) v)
Step-IsSound h node node' (send_thread i sock w a e q) v =
    subst IsSound (sym q) (round_IsSound node i sock w a (tcp_send_step-Follows h _ w e) v)
Step-IsSound h node node' (sender_thread e) v =
    same_sockets node node' (ap (λ n. n.socket_table) e ∙ sender_step-sockets node) v
Step-IsSound h node node' (listener_thread i buf e) v =
    same_sockets node node' (listener_step-sockets h node node' i buf e) v
Step-IsSound h node node' (rip_thread up fresh sent e) v =
    same_sockets node node' (rip_step-sockets h up fresh node (node', sent) e) v
Step-IsSound h node node' (link_thread up i sent e) v =
    same_sockets node node' (link_state_step-sockets h up node i (node', sent) e) v

-- At every node that `van_driver_init` and any sequence of steps lead to, in any order of the threads and
-- the calls, with anything in memory at the start and from the network: a socket of the table has the number of its slot, one of
-- the table's 256, and a machine that was set, which has the closed state as its root and stands at one of the 11
-- states, and stood at one before.
pub Reach-IsSound :
    {H : HTable} {B : Bqueue} (h : Host) (raw : Node H B) (now : ℕ) (rands : ℕ → ℕ)
    (node : Node H B)
    → Reach h (van_driver_init raw now rands) node
    → IsSound node
unfolding van_driver_init v_tcp_init
Reach-IsSound h raw now rands node (start e) =
    same_sockets (van_driver_init raw now rands) node (ap (λ n. n.socket_table) e) (λ i. tt)
Reach-IsSound h raw now rands node (then_step {node₁} r s) =
    Step-IsSound h node₁ node s (Reach-IsSound h raw now rands node₁ r)
