-- ===== src/System.antt =====
-- A running node: `van_driver_init` of tcp_branch/van_driver.c and `v_tcp_init` of tcp_branch/tcp.c make it,
-- and the threads of van_driver.c and the socket calls of tcp.c act on it in any order. What a thread or
-- a call does between two waits is one step: the locks of the code are taken to make it so. A step that
-- ends the process leads nowhere.
mod Tests
pub mod Invariant
pub mod Timeout
use tcp_archive.Prelude.{ℕ, ◌≤◌, ◌≡◌, Option, none, some, Bool, false, List, ℤ, minus_one}
use tcp_archive.External.{HTable, Bqueue, Host}
use tcp_archive.Rtable.{Entry, rtable_new}
use tcp_archive.Socktable.{socktable_init}
use tcp_archive.Socket.{Socket}
use tcp_archive.Node.{Node, van_driver_sendto}
use tcp_archive.Tcpm.{Ctx}
use tcp_archive.Driver.{store, tcp_step, tcp_watchdog, tcp_send_step}
use tcp_archive.Router.{
  Sent, sender_step, van_driver_recvfrom, rip_step, link_state_step, listener_step,
}
use tcp_archive.Api.{
  v_socket, v_bind, v_listen, v_connect, v_connect_end, v_accept, v_accept_end, v_read, v_write,
  v_close, v_close_end,
}

-- `v_tcp_init`
unfoldable pub v_tcp_init : {H : HTable} {B : Bqueue} → Node H B → Node H B
unfolding socktable_init
v_tcp_init {H} node = record node { socket_table = λ i. none; tuple_table = socktable_init H }

-- The node that `van_driver_init` returns at a time, when its threads have made their queues, with the
-- results of `rand` to come; `raw` is
-- what the memory of the node holds. Interfaces are down, their peers not known.
unfoldable pub van_driver_init : {H : HTable} {B : Bqueue} → Node H B → ℕ → (ℕ → ℕ) → Node H B
unfolding v_tcp_init rtable_new
van_driver_init {H} {B} raw now rands = v_tcp_init (record raw {
  route_table = rtable_new H;
  ifaces = λ i. record { cur_state = false; peer = minus_one; age = now; timed_out = false };
  sending_q = B.empty;
  receiving_q = B.empty;
  rip_q = B.empty;
  tcp_q = B.empty;
  now = now;
  rands = rands;
  drawn = 0;
})

-- One step. `raw` and `fresh` are what memory holds, `up` is the state of the interfaces, `buf` is what comes from the
-- network.
pub data Step {H : HTable} {B : Bqueue} (h : Host) (node node' : Node H B) : Type 0 where
  clock : (t : ℕ) → node.now ≤ t → node' ≡ record node { now = t } → Step h node node'
  socket_call : (raw : Socket) (r : ℤ) → v_socket h raw node ≡ some (node', r) → Step h node node'
  bind_call :
      (s : ℤ) (port : ℕ) (r : ℤ) → v_bind h node s port ≡ some (node', r) → Step h node node'
  listen_call : (s r : ℤ) → v_listen h node s ≡ some (node', r) → Step h node node'
  connect_call :
      (s : ℤ) (to port : ℕ) (r : Option ℤ)
      → v_connect h node s to port ≡ some (node', r)
      → Step h node node'
  connect_end :
      (s : ℤ) (r : Option ℤ) → v_connect_end h node s ≡ some (node', r) → Step h node node'
  accept_call : (s : ℤ) (r : Option ℤ) → v_accept h node s ≡ some (node', r) → Step h node node'
  accept_end : (s : ℤ) (r : Option ℤ) → v_accept_end h node s ≡ some (node', r) → Step h node node'
  read_call :
      (s n r : ℤ) (bytes : List ℕ) → v_read h node s n ≡ some (node', r, bytes) → Step h node node'
  write_call :
      (s : ℤ) (bytes : List ℕ) (n : ℕ) (r : ℤ)
      → v_write h node s bytes n ≡ some (node', r)
      → Step h node node'
  close_call : (s : ℤ) (r : Option ℤ) → v_close h node s ≡ some (node', r) → Step h node node'
  close_end : (s : ℤ) (r : Option ℤ) → v_close_end h node s ≡ some (node', r) → Step h node node'
  sendto_call :
      (buf : List ℕ) (size to proto : ℕ)
      → node' ≡ (van_driver_sendto H B h node buf size to proto).0
      → Step h node node'
  recvfrom_call :
      (size : ℕ) (r : Option (List ℕ))
      → van_driver_recvfrom node size ≡ some (node', r)
      → Step h node node'
  tcp_thread : (raw : Socket) → tcp_step h raw node ≡ some node' → Step h node node'
  watchdog :
      (i : ℕ) (sock : Socket) (w : Ctx H B)
      → node.socket_table i ≡ some sock
      → tcp_watchdog h (record { sock = sock; node = node }) ≡ some w
      → node' ≡ store i w
      → Step h node node'
  send_thread :
      (i : ℕ) (sock : Socket) (w : Ctx H B)
      → node.socket_table i ≡ some sock
      → tcp_send_step h (record { sock = sock; node = node }) ≡ some w
      → node' ≡ store i w
      → Step h node node'
  sender_thread : node' ≡ (sender_step node).0 → Step h node node'
  listener_thread :
      (i : ℕ) (buf : List ℕ) → listener_step h node i buf ≡ some node' → Step h node node'
  rip_thread :
      (up : ℕ → Bool) (fresh : Entry) (sent : Sent)
      → rip_step h up fresh node ≡ some (node', sent)
      → Step h node node'
  link_thread :
      (up : ℕ → Bool) (i : ℕ) (sent : Sent)
      → link_state_step h up node i ≡ some (node', sent)
      → Step h node node'

-- Any number of steps.
pub data Reach {H : HTable} {B : Bqueue} (h : Host) (node : Node H B) : Node H B → Type 0 where
  start : {node' : Node H B} → node' ≡ node → Reach h node node'
  then_step :
      {node₁ node₂ : Node H B} → Reach h node node₁ → Step h node₁ node₂ → Reach h node node₂
