-- ===== src/System/Timeout.antt =====
-- A connection that is asked for and not answered: `v_connect` of tcp_branch/tcp.c waits, `tcp_watchdog` of
-- tcp_branch/van_driver.c gives up, and the call returns.
use tcp_archive.Prelude.{
  ℕ, ◌+◌, ◌<◌, ◌≡◌, refl, sym, ◌∙◌, some, true, ==_iff, ◌==◌, subst, pos, minus_one,
}
use tcp_archive.External.{HTable, Bqueue, Host, IsHost}
use tcp_archive.Socket.{Socket, wait_for_event, has_status, tcp_error}
use tcp_archive.Node.{Node}
use tcp_archive.Tcpm.{Ctx, next_rand}
use tcp_archive.Tcpm.Reset.{IsCleared, told-IsCleared}
use tcp_archive.Tcpm.Names.{st_syn_sent}
use tcp_archive.Tcpm.Keeps.{regs, slot_regs}
use tcp_archive.Driver.{store, connect_timeout_time, tcp_watchdog}
use tcp_archive.Driver.Sound.{IsLive, SlotOk}
use tcp_archive.Driver.Timeout.{tcp_watchdog-IsTimedOut}
use tcp_archive.Api.Sound.{focus-store}
use tcp_archive.Api.{back, v_connect_end}
use tcp_archive.System.{van_driver_init, Reach}
use tcp_archive.System.Invariant.{Reach-IsSound}

module _ {H : HTable} {B : Bqueue} (h : Host) where
  -- A socket that was told of an error wakes its call, which fails.
  v_connect_end-error :
      (i : ℕ) (w : Ctx H B)
      → i < 256
      → w.sock.cond_status ≡ tcp_error
      → v_connect_end h (store i w) (pos i)
        ≡ some (
          back h (record {
            sock = record w.sock { cond_status = 0; ufunc_timeout = 0 };
            node = store i w;
          }),
          some minus_one,
        )
  unfolding v_connect_end wait_for_event has_status
  v_connect_end-error i w less told = rw (focus-store h i w less) (rw told)

module _ {H : HTable} {B : Bqueue} (h : Host) (host : IsHost h) where
  -- At every node that can be reached, a call of `v_connect` on the socket of slot `i` that has waited more than 30
  -- seconds in SYN_SENT comes to an end: a round of `tcp_watchdog` for that socket does not end the process, and then
  -- the call wakes, returns -1 and leaves the socket in its slot, closed and
  -- cleared: a random local port, no peer, no parent, no handshake and no timer, its numbers and
  -- pointers 0, its windows 4096, and rings of 8194 cells. Memory has the size that was asked for.
  pub v_connect_end-tcp_watchdog :
      (raw : Node H B) (now : ℕ) (rands : ℕ → ℕ) (node : Node H B) (i : ℕ) (sock : Socket)
      → Reach h (van_driver_init raw now rands) node
      → node.socket_table i ≡ some sock
      → sock.machine.current ≡ st_syn_sent
      → 0 < sock.ufunc_timeout
      → sock.ufunc_timeout + connect_timeout_time < node.now
      → (w : Ctx H B) × (tcp_watchdog h (record { sock = sock; node = node }) ≡ some w)
        × (node' : Node H B) × (v_connect_end h (store i w) (pos i) ≡ some (node', some minus_one))
        × (closed : Socket) × (node'.socket_table i ≡ some closed)
        × (closed.machine ≡ record { current = 0; prev = 0; root = 0 })
        × IsCleared (next_rand node).1 closed
  v_connect_end-tcp_watchdog raw now rands node i sock reach e asked waits late =
      let live : IsLive i (regs sock) =
        subst (λ o. SlotOk i (slot_regs o)) e (Reach-IsSound h raw now rands node reach i) in
      let (w, run, out) =
        tcp_watchdog-IsTimedOut h host (record { sock = sock; node = node })
          (record {
            asked = asked;
            set = live.set;
            root = live.range.root;
            waits = waits;
            late = late;
          }) in
      let same : (i == w.sock.fd) ≡ true = (==_iff i w.sock.fd).1 (sym (out.fd ∙ live.fd)) in
      (
        w,
        run,
        _,
        v_connect_end-error h i w live.bound out.told,
        record w.sock { cond_status = 0; ufunc_timeout = 0 },
        rw same,
        out.closed,
        told-IsCleared w.sock 0 0 out.cleared refl,
      )
