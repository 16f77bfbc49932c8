-- ===== src/Statefunc/Flags.antt =====
-- Events of tcp_branch/tcpstate.c that send a flag other than an acknowledgement: the opening of a connection from either
-- side, and its closing.
use tcp_archive.Prelude.{
  ℕ, ◌+◌, ◌<◌, ◌≡◌, ◌≢◌, refl, sym, ◌∙◌, ap, Option, none, some, Bool, true, false, get_elem?, ◌==◌,
  ◌||◌, ◌&&◌, List, [], ◌∷◌, assert, arith, some_injective, inl, inr, Bool-cases, ==_iff, ==_ne,
  add32, minus_one, ltb→lt, ltb,
}
use tcp_archive.External.{HTable, Bqueue, Host}
use tcp_archive.Cbuffer.{cbuf_put_flag, cbuf_get_range, flag_cell}
use tcp_archive.Cbuffer.Cells.{IsValid, written, put_cell_lem}
use tcp_archive.Cbuffer.Ranges.{get_range-put_flag}
use tcp_archive.Machine.{State, machine_step, run_transition, step_moves, run_action, state_new}
use tcp_archive.Packet.{flag_ack}
use tcp_archive.Seq.{send_flag_next, get_flag_to_send}
use tcp_archive.Tcpm.{
  Ctx, Arg, Row, transitions, ActionFn, ErrorFn, TransFn, do_send_flags, fail_with_reset, TcpArena,
  new_states,
}
use tcp_archive.Tcpm.Table.{get-tcp_states, get_elem?_total, find_row, made_at, made_of}
use tcp_archive.Tcpm.Reset.{bind_some}
use tcp_archive.Tcp.{send_packet_with_flags, queue_up_flags}
use tcp_archive.Statefunc.{TArg, tcp_client, tcpm_event, transition_call, call_transition}

-- The states without an action of their own that such an event leads to: SYN_SENT, SYN_RCVD, FIN_WAIT1 and LAST_ACK.
abbrev is_quiet : ℕ → Bool
is_quiet n = n == 1 || n == 2 || n == 5 || n == 10

abbrev row_is_quiet : Row → Bool
row_is_quiet r = elim r.action [
  | some do_send_flags ↦ elim r.argd [ some b ↦ b == flag_ack || is_quiet r.next | none ↦ true ]
  | _ ↦ true
]

abbrev rows_are_quiet : List Row → Bool
rows_are_quiet [] = true
rows_are_quiet (r ∷ l) = row_is_quiet r && (ltb r.next 11 && rows_are_quiet l)

three : (a b c : Bool) → (a && (b && c)) ≡ true → (a ≡ true) × (b ≡ true) × (c ≡ true)
three true true true h = (refl, refl, refl)
three true true false h = cc
three true false c h = cc
three false b c h = cc

found_is_quiet :
    (l : List Row) (s i : ℕ) (r : Row)
    → rows_are_quiet l ≡ true
    → find_row l s i ≡ some r
    → (row_is_quiet r ≡ true) × (r.next < 11)
found_is_quiet [] s i r h e = cc
found_is_quiet (x ∷ l) s i r h e =
    let (a, b, c) = three (row_is_quiet x) (ltb x.next 11) (rows_are_quiet l) h in
    elim (Bool-cases (x.state == s && x.input == i)) [
      | inl p ↦
          (let same = some_injective (rw p at e) in
            (
              ap row_is_quiet (sym same) ∙ a,
              ltb→lt r.next 11 (ap (λ z. ltb z.next 11) (sym same) ∙ b),
            ))
      | inr p ↦ found_is_quiet l s i r c (rw p at e)
    ]

next_is_quiet :
    (r : Row) (b : ℕ)
    → row_is_quiet r ≡ true
    → r.action ≡ some do_send_flags
    → r.argd ≡ some b
    → b ≢ flag_ack
    → is_quiet r.next ≡ true
next_is_quiet r b h act arg ne = rw (act, arg, ==_ne b flag_ack ne) at h

-- A state without a function.
abbrev made_quiet : ℕ → Option (ℕ × Option ActionFn × Option ErrorFn × Option ℕ)
made_quiet n = some (n, none, some fail_with_reset, none)

no_action : (H : HTable) (n : ℕ) → is_quiet n ≡ true → made_at H (new_states H) n ≡ made_quiet n
unfolding new_states state_new
no_action H n h = elim (Bool-cases (n == 1)) [
  | inl p ↦ at 1 p refl
  | inr p ↦ elim (Bool-cases (n == 2)) [
    | inl q ↦ at 2 q refl
    | inr q ↦ elim (Bool-cases (n == 5)) [
      | inl u ↦ at 5 u refl
      | inr u ↦ at 10 (rw (p, q, u) at h) refl
    ]
  ]
]
  where
    at :
        (k : ℕ)
        → (n == k) ≡ true
        → made_at H (new_states H) k ≡ made_quiet k
        → made_at H (new_states H) n ≡ made_quiet n
    at k p e = rw ((==_iff n k).0 p) e

module _ (H : HTable) (B : Bqueue) (h : Host) where
  -- The flag behind all that was written.
  abbrev pub queued : Ctx H B → ℕ → Ctx H B
  queued w b = record w {
    sock = record w.sock {
      s_buf = written w.sock.s_buf w.sock.send_written b flag_cell;
      send_written = add32 w.sock.send_written 1;
    };
  }

  abbrev pub moved_to : Ctx H B → ℕ → Ctx H B
  moved_to w next = record w {
    sock = record w.sock {
      machine = record {
        current = next;
        prev = w.sock.machine.current;
        root = w.sock.machine.root;
      };
    };
  }

  queues :
      (b : ℕ) (argt : TArg) (w : Ctx H B)
      → b ≢ flag_ack
      → w.sock.send_written < 2147483648
      → transition_call h do_send_flags (some b) argt w ≡ some (queued w b)
  unfolding transition_call send_packet_with_flags queue_up_flags cbuf_put_flag
  queues b argt w ne small =
      rw (==_ne b flag_ack ne, put_cell_lem w.sock.s_buf w.sock.send_written b flag_cell small) refl

  steps :
      (arena : TcpArena H) (s n : State H ActionFn ErrorFn TransFn (Option ℕ)) (b next event : ℕ)
      (argt : TArg) (args : Arg) (w : Ctx H B)
      → get_elem? arena w.sock.machine.current ≡ some s
      → get_elem? arena next ≡ some n
      → n.action ≡ none
      → H.get s.transitions event
        ≡ some (record { action = some do_send_flags; argd = some b; next = next })
      → b ≢ flag_ack
      → w.sock.send_written < 2147483648
      → machine_step H (tcp_client H B h) arena event argt args w
        ≡ some (moved_to (queued w b) next, some next)
  unfolding machine_step run_transition step_moves call_transition run_action
  steps arena s n b next event argt args w here p e got ne small =
      rw (here, machine_step)
        (rw got (rw p (rw (queues b argt w ne small) (rw (e, run_action) refl))))

  flag_next :
      (w : Ctx H B) (next b : ℕ)
      → IsValid w.sock.s_buf
      → w.sock.send_written + 1 < 2147483648
      → w.sock.send_next ≡ w.sock.send_written
      → get_flag_to_send (moved_to (queued w b) next).sock ≡ some b
  unfolding get_flag_to_send send_flag_next cbuf_put_flag
  flag_next w next b v small same =
      let start = w.sock.send_written in
      let read : cbuf_get_range (written w.sock.s_buf start b flag_cell) start 1
          ≡ some (minus_one, some (b ∷ [])) =
        rw (cbuf_put_flag, put_cell_lem w.sock.s_buf start b flag_cell (omega arith)) at
          (get_range-put_flag w.sock.s_buf start b 0 v (omega arith) v.pos_size) in
      rw (same, ==_ne (add32 start 1) start (omega arith), read) refl

  -- An event in one of the 11 states for which the list of transitions has a row that sends a flag other than a lone
  -- acknowledgement (the opening from either side, or a close), with a valid send buffer and nothing left to send, and
  -- the send pointers below 2 ^ 31: it never ends the process and does not fail, the machine follows the row, and the
  -- flag of the row is what the socket sends next.
  pub get_flag_to_send-tcpm_event :
      (event : ℕ) (argt : TArg) (args : Arg) (w : Ctx H B) (r : Row) (b : ℕ)
      → w.sock.machine_set ≡ true
      → w.sock.machine.current < 11
      → find_row transitions w.sock.machine.current event ≡ some r
      → r.action ≡ some do_send_flags
      → r.argd ≡ some b
      → b ≢ flag_ack
      → IsValid w.sock.s_buf
      → w.sock.send_written + 1 < 2147483648
      → w.sock.send_next ≡ w.sock.send_written
      → (w' : Ctx H B) × (tcpm_event H B h event argt args w ≡ some (w', false))
        × (w'.sock.machine ≡ record {
          current = r.next;
          prev = w.sock.machine.current;
          root = w.sock.machine.root;
        })
        × (get_flag_to_send w'.sock ≡ some b)
  unfolding tcpm_event
  get_flag_to_send-tcpm_event event argt args w r b set less found act arg ne v small same =
      let (arena, p, len, made, got) = get-tcp_states H in
      let (s, here) = get_elem?_total H arena w.sock.machine.current (rw len less) in
      let (quiet, below) = found_is_quiet transitions w.sock.machine.current event r refl found in
      let (n, there) = get_elem?_total H arena r.next (rw len below) in
      let as_made : some (made_of H n) ≡ made_quiet r.next =
        sym (rw there) ∙ made r.next ∙ no_action H r.next (next_is_quiet r b quiet act arg ne) in
      let row : H.get s.transitions event
          ≡ some (record { action = some do_send_flags; argd = some b; next = r.next }) =
        sym (rw here) ∙ got w.sock.machine.current event ∙ rw (found, act, arg) refl in
      let run =
        steps arena s n b r.next event argt args w here there
          (ap (λ z. z.1) (some_injective as_made)) row ne (omega arith) in
      (
        moved_to (queued w b) r.next,
        bind_some _ tt _ (ap assert set) (
            bind_some _ arena _ p
              (bind_some _ (moved_to (queued w b) r.next, some r.next) _ run refl)),
        refl,
        flag_next w r.next b v small same,
      )
