-- ===== src/Menu/Tests.antt =====
-- The theorems about the user interface at concrete sessions.
use tcp_archive.Prelude.{
  ℕ, ◌-◌, ◌≡◌, refl, Option, some, none, true, false, List, [], ◌∷◌, ◌++◌, length, replicate, ℤ,
  pos, minus_one, pos_part, ltb_ℤ, is_some, if◌then◌else◌, ◌>>=◌, arith,
}
use tcp_archive.External.Concrete.{assoc_table, list_queue, sample_host}
use tcp_archive.Cbuffer.{cbuf_new}
use tcp_archive.Node.{Node}
use tcp_archive.Node.Sample.{sample_node, sample_sock}
use tcp_archive.Machine.{machine_new, machine_reset, run_action, state_new, state_transition}
use tcp_archive.Tcpm.{tcpm_new, new_states, tcp_states, call_action, call_in_closed, clear_socket}
use tcp_archive.Text.{codes}
use tcp_archive.Driver.{sys_socket}
use tcp_archive.Driver.Sound.{IsSound}
use tcp_archive.Api.{v_socket, v_write}
use tcp_archive.System.{van_driver_init, v_tcp_init}
use tcp_archive.Display.{char, entered, returned, init_display, tcp_table_new, get_fd_from_menu}
use tcp_archive.Display.Sample.{list_menu}
use tcp_archive.Display.Sockets.{IsConsistent}
use tcp_archive.Menu.{Entered, Session, press, press_socket}
use tcp_archive.Menu.Keys.{press-v_write}
use tcp_archive.Menu.Runs.{Runs, begin, on_key, Runs-IsSound}

abbrev hey : List ℕ
hey = codes "hey you"

-- The user types a text between spaces.
abbrev form : Entered
form = record {
  first = codes "   80";
  second = [];
  text = replicate 2 b' ' ++ (hey ++ replicate 243 b' ');
  raw_first = pos 0;
  raw_second = pos 0;
  raw_start = 7;
  raw_end = 9;
  raw = sample_sock;
}

abbrev Sample : Type 0
Sample = Session list_menu assoc_table list_queue

abbrev first : Sample
first = record {
  display = init_display;
  node = van_driver_init sample_node 1000 (λ i. i);
  up = λ i. false;
  waiting = none;
  quit = false;
}

abbrev value {ℓ} : {A : Type ℓ} → Option A → A → A
value none d = d
value (some a) d = a

some-value {ℓ} : {A : Type ℓ} (o : Option A) (d : A) → is_some o ≡ true → o ≡ some (value o d)
some-value none d e = cc
some-value (some a) d e = refl

abbrev opened : Node assoc_table list_queue × ℤ
opened = value (v_socket sample_host sample_sock first.node) (first.node, minus_one)

opens : is_some (v_socket sample_host sample_sock first.node) ≡ true
unfolding v_socket sys_socket tcpm_new machine_new machine_reset new_states tcp_states state_new
    state_transition run_action call_action call_in_closed clear_socket cbuf_new van_driver_init
    v_tcp_init
opens = refl

-- The session after the key `s`.
abbrev after : Sample
after = record first {
  node = opened.0;
  display =
      if ltb_ℤ opened.1 (pos 0)
      then first.display
      else tcp_table_new first.display (pos_part opened.1);
}

presses : press sample_host first form (char b's') ≡ some (after, returned opened.1 ∷ [])
unfolding press press_socket
presses =
    rw (some-value (v_socket sample_host sample_sock first.node) (first.node, minus_one) opens)

runs : Runs sample_host first after
runs = on_key form (char b's') (begin refl) refl refl presses

Runs-IsSound_example : IsSound after.node × IsConsistent after.display
Runs-IsSound_example = Runs-IsSound sample_host sample_node 1000 (λ i. i) (λ i. false) after runs

-- A socket in slot 0 is on the list.
abbrev chosen : Sample
chosen = record first {
  display = tcp_table_new init_display 0;
  node = record sample_node { socket_table = λ i. some sample_sock };
}

selects : get_fd_from_menu chosen.display ≡ some (pos 0)
unfolding get_fd_from_menu tcp_table_new init_display
selects = refl

press-v_write_example :
    let buf = hey ++ replicate (256 - length hey) 0 in
    press sample_host chosen form (char b'1') ≡ (
      v_write sample_host chosen.node (pos 0) buf (length hey) >>= λ (node, r).
      some (record chosen { node = node }, entered (pos (length hey)) buf ∷ returned r ∷ []))
press-v_write_example =
    press-v_write sample_host chosen form 0 2 243 b'h' b'u' hey (codes "ey you") (codes "hey yo")
      selects refl refl refl (omega arith) (omega arith) (omega arith)
