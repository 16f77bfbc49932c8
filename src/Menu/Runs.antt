-- ===== src/Menu/Runs.antt =====
-- The user interface of tcp_branch/ip_driver.c drives a node: its keys are steps that a running node can take.
use tcp_archive.Prelude.{ℕ, none, some, Bool, false, List, ◌≡◌, refl, sym, subst}
use tcp_archive.External.{HTable, Bqueue, Host}
use tcp_archive.Socket.{Socket}
use tcp_archive.Node.{Node}
use tcp_archive.Driver.Sound.{IsSound}
use tcp_archive.System.{van_driver_init, Step, Reach, start, then_step}
use tcp_archive.System.Invariant.{Reach-IsSound}
use tcp_archive.Display.{Curses, Message, Key, init_display, tcp_table_new, update_tcp_table}
use tcp_archive.Display.Sockets.{
  IsConsistent, init_display-IsConsistent, tcp_table_new-IsConsistent,
  update_tcp_table-IsConsistent,
}
use tcp_archive.Menu.Moves.{Moves, stays, press-Moves, wake-Moves}
use tcp_archive.Menu.{Entered, Waiting, Session, press, wake}

module _ {H : HTable} {B : Bqueue} (h : Host) where
  then-Reach : {a b c : Node H B} → Reach h a b → Reach h b c → Reach h a c
  then-Reach {a} p (start e) = subst (Reach h a) (sym e) p
  then-Reach p (then_step q st) = then_step (then-Reach p q) st

module _ {C : Curses} {H : HTable} {B : Bqueue} (h : Host) where
  -- The user works on a node: `main` gets keys until `q`, or waits in a call; the node's threads take steps, and update the
  -- display.
  pub data Runs (first : Session C H B) : Session C H B → Type 0 where
    begin : {s : Session C H B} → s ≡ first → Runs first s
    on_key :
        {s s' : Session C H B} {m : List Message} (e : Entered) (key : Key)
        → Runs first s
        → s.waiting ≡ none
        → s.quit ≡ false
        → press h s e key ≡ some (s', m)
        → Runs first s'
    on_wake :
        {s s' : Session C H B} {m : List Message} (call : Waiting)
        → Runs first s
        → s.waiting ≡ some call
        → wake h s call ≡ some (s', m)
        → Runs first s'
    on_thread :
        {s s' : Session C H B} {node : Node H B}
        → Runs first s
        → Step h s.node node
        → s' ≡ record s { node = node }
        → Runs first s'
    on_update :
        {s s' : Session C H B} (sock : Socket)
        → Runs first s
        → s' ≡ record s { display = update_tcp_table s.display sock }
        → Runs first s'
    on_child :
        {s s' : Session C H B} (fd : ℕ)
        → Runs first s
        → s' ≡ record s { display = tcp_table_new s.display fd }
        → Runs first s'

  then-Moves : (a b c : Session C H B) → Moves h a b → Moves h b c → Moves h a c
  then-Moves a b c m m' = (then-Reach h m.0 m'.0, λ v. m'.1 (m.1 v))

  Runs-Moves : {first s : Session C H B} → Runs first s → Moves h first s
  Runs-Moves {first} (begin e) = subst (Moves h first) (sym e) (stays h first)
  Runs-Moves {first} (on_key {s} {s'} {m} e key r _ _ done) =
      then-Moves first s s' (Runs-Moves r) (press-Moves h s s' m e key done)
  Runs-Moves {first} (on_wake {s} {s'} {m} call r _ done) =
      then-Moves first s s' (Runs-Moves r) (wake-Moves h s s' m call done)
  Runs-Moves {first} (on_thread {s} {s'} r st e) =
      then-Moves first s s' (Runs-Moves r)
        (subst (Moves h s) (sym e) (then_step (start refl) st, λ v. v))
  Runs-Moves {first} (on_update {s} {s'} sock r e) =
      then-Moves first s s' (Runs-Moves r)
        (subst (Moves h s) (sym e) (start refl, update_tcp_table-IsConsistent s.display sock))
  Runs-Moves {first} (on_child {s} {s'} fd r e) =
      then-Moves first s s' (Runs-Moves r)
        (subst (Moves h s) (sym e) (start refl, tcp_table_new-IsConsistent s.display fd))

  -- From a display and a node that were just initialised, with anything in memory, whatever keys the user presses and
  -- enters in the forms, in any order with the threads: the table of sockets is sound, and the list on the screen
  -- has as many items as it counts and as its menu has. `set_menu_items` refuses a menu that is posted, and no other.
  pub Runs-IsSound :
      (raw : Node H B) (now : ℕ) (rands : ℕ → ℕ) (up : ℕ → Bool) (s : Session C H B)
      → Runs
          (record {
            display = init_display;
            node = van_driver_init raw now rands;
            up = up;
            waiting = none;
            quit = false;
          })
          s
      → IsSound s.node × IsConsistent s.display
  Runs-IsSound raw now rands up s r =
      let (reach, keeps) = Runs-Moves r in
      (Reach-IsSound h raw now rands s.node reach, keeps init_display-IsConsistent)
