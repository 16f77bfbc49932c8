-- ===== src/Driver/Timeout.antt =====
-- `tcp_watchdog` of tcp_branch/van_driver.c on a socket whose connection was asked for too long ago.
use tcp_archive.Prelude.{
  ℕ, ◌+◌, ◌<◌, ◌≡◌, ◌∙◌, ap, some, true, false, ltb, lt→ltb, ◌&&◌, ◌==◌, Bool-cases, inl, inr,
}
use tcp_archive.External.{HTable, Bqueue, Host, IsHost}
use tcp_archive.Socket.{Socket, tcp_error}
use tcp_archive.Tcpm.{Ctx, tcpm_state, tcpm_reset, next_rand}
use tcp_archive.Tcpm.Names.{st_closed, st_syn_sent, st_time_wait}
use tcp_archive.Tcpm.Reset.{IsCleared, tcpm_reset_lem}
use tcp_archive.Tcpm.Follows.{tcpm_reset-Follows}
use tcp_archive.Driver.{
  connect_timeout_time, watch_packet, watch_time_wait, watch_connect, tcp_watchdog,
}
use tcp_archive.Driver.Follows.{watch_packet-regs}

-- A socket whose connection was asked for, and not answered in time.
pub record IsOverdue (now : ℕ) (s : Socket) : Type 0 where
  pub asked : s.machine.current ≡ st_syn_sent
  pub set : s.machine_set ≡ true
  pub root : s.machine.root ≡ 0
  pub waits : 0 < s.ufunc_timeout
  pub late : s.ufunc_timeout + connect_timeout_time < now

-- What the watchdog makes of it.
pub record IsTimedOut {H : HTable} {B : Bqueue} (w w' : Ctx H B) : Type 0 where
  pub fd : w'.sock.fd ≡ w.sock.fd
  pub closed : w'.sock.machine ≡ record { current = 0; prev = 0; root = 0 }
  pub cleared : IsCleared (next_rand w.node).1 w'.sock
  pub told : w'.sock.cond_status ≡ tcp_error

watch_packet-IsOverdue :
    (now : ℕ) (s : Socket) → IsOverdue now s → IsOverdue now (watch_packet now s)
unfolding watch_packet
watch_packet-IsOverdue now s v =
    elim (Bool-cases (ltb 0 s.last_packet && ltb (s.last_packet + 4) now)) [
      | inl p ↦
          rw p
            (record { asked = v.asked; set = v.set; root = v.root; waits = v.waits; late = v.late })
      | inr p ↦ rw p v
    ]

module _ {H : HTable} {B : Bqueue} (h : Host) (host : IsHost h) where
  watch_connect_resets :
      (w : Ctx H B) → IsOverdue w.node.now w.sock → watch_connect h w ≡ tcpm_reset H B h w
  unfolding watch_connect tcpm_state
  watch_connect_resets w v = rw (
    v.asked,
    lt→ltb 0 w.sock.ufunc_timeout v.waits,
    lt→ltb (w.sock.ufunc_timeout + connect_timeout_time) w.node.now v.late,
  )

  watch_time_wait_idle :
      (w : Ctx H B) → w.sock.machine.current ≡ st_syn_sent → watch_time_wait h w ≡ some w
  unfolding watch_time_wait tcpm_state
  watch_time_wait_idle w e =
      let no : (w.sock.machine.current == st_time_wait) ≡ false = ap (λ n. n == st_time_wait) e in
      rw no

  pub tcp_watchdog-IsTimedOut :
      (w : Ctx H B)
      → IsOverdue w.node.now w.sock
      → (w' : Ctx H B) × (tcp_watchdog h w ≡ some w') × IsTimedOut w w'
  unfolding tcp_watchdog tcpm_state
  tcp_watchdog-IsTimedOut w v =
      let no : (w.sock.machine.current == st_closed) ≡ false = ap (λ n. n == st_closed) v.asked in
      let s = watch_packet w.node.now w.sock in
      let u : Ctx H B = record w { sock = s } in
      let v' = watch_packet-IsOverdue w.node.now w.sock v in
      let (w', e, m, c, told) = tcpm_reset_lem h host u v'.set v'.root in
      let k = tcpm_reset-Follows h u w' e in
      (
        w',
        rw (no, watch_time_wait_idle w v.asked) (watch_connect_resets u v' ∙ e),
        record {
          fd = k.fd ∙ ap (λ r. r.0) (watch_packet-regs w.node.now w.sock);
          closed = m;
          cleared = c;
          told = told;
        },
      )
