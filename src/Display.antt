-- ===== src/Display.antt =====
-- tcp_branch/fancy_display.c: the list of sockets on the screen, its tabs, and the forms that read a number or a text.
-- Drawing is left out. curses is a parameter, and what the user leaves in the field of a form is an argument.
mod Tests
pub mod Fields
pub mod Sample
pub mod Sockets
use tcp_archive.Prelude.{
  ℕ, zero, suc, ◌+◌, ◌-◌, Bool, true, false, not, ◌&&◌, ◌||◌, Option, none, some, List, [], ◌∷◌,
  ◌++◌, leb, ◌==◌, if◌then◌else◌, get_elem?, length, replicate, take, drop, map, ℤ, pos, negsuc,
  minus_one, ◌≡◌, ◌<◌, ◌>>=◌, ◌>>◌, assert, u32, int_of,
}
use tcp_archive.Socket.{Socket}
use tcp_archive.Tcpm.{tcpm_state}
use tcp_archive.Tcpm.Names.{
  st_closed, st_syn_sent, st_syn_rcvd, st_listen, st_estab, st_fin_wait1, st_fin_wait2,
  st_time_wait, st_closing, st_close_wait, st_last_ack,
}
use tcp_archive.Text.{codes, print_int, scan_int}

-- menu.h of curses. `current_item` is the place of the current item, null for a menu without items, of which
-- `item_userptr` gives null; the current item is one of the menu's. `set_menu_items` tells whether its status is `E_OK`:
-- a menu that is posted keeps its items, `E_POSTED`, and another one takes the new items, as there is memory.
pub record Curses : Type 1 where
  pub Menu : Type 0
  pub new_menu : Menu
  pub item_count : Menu → ℕ
  pub current_item : Menu → Option ℕ
  pub posted : Menu → Bool
  pub post_menu : Menu → Menu
  pub unpost_menu : Menu → Menu
  pub set_menu_items : Menu → ℕ → Menu × Bool
  pub down_item : Menu → Menu
  pub up_item : Menu → Menu
  pub item_count-new : item_count new_menu ≡ 0
  pub set_menu_items-posted : (m : Menu) (n : ℕ) → posted m ≡ true → set_menu_items m n ≡ (m, false)
  pub set_menu_items-unposted :
      (m : Menu) (n : ℕ) → posted m ≡ false → (set_menu_items m n).1 ≡ true
  pub item_count-set :
      (m : Menu) (n : ℕ) → (set_menu_items m n).1 ≡ true → item_count (set_menu_items m n).0 ≡ n
  pub posted-unpost : (m : Menu) → posted (unpost_menu m) ≡ false
  pub item_count-unpost : (m : Menu) → item_count (unpost_menu m) ≡ item_count m
  pub item_count-post : (m : Menu) → item_count (post_menu m) ≡ item_count m
  pub item_count-down : (m : Menu) → item_count (down_item m) ≡ item_count m
  pub item_count-up : (m : Menu) → item_count (up_item m) ≡ item_count m
  pub current_lt : (m : Menu) (i : ℕ) → current_item m ≡ some i → i < item_count m

-- `curses_out_t`: an item points to a socket, which is its number, and has a description.
pub record Item : Type 0 where
  pub sock : ℕ
  pub description : List ℕ

pub record Display (C : Curses) : Type 0 where
  pub tcp_items : List Item
  pub tcp_menu : C.Menu
  pub tcp_menu_num_items : ℕ
  pub toptab : ℕ

-- `tcpm_strstate` of tcpstate.c
pub tcpm_strstate : ℕ → List ℕ
tcpm_strstate state =
    if state == st_closed
    then codes "Closed"
    else if state == st_syn_sent
    then codes "SYN sent"
    else if state == st_syn_rcvd
    then codes "SYN received"
    else if state == st_listen
    then codes "Listen"
    else if state == st_estab
    then codes "Established"
    else if state == st_fin_wait1
    then codes "FIN wait (1)"
    else if state == st_fin_wait2
    then codes "FIN wait (2)"
    else if state == st_time_wait
    then codes "Time wait"
    else if state == st_closing
    then codes "Closing"
    else if state == st_close_wait
    then codes "Close wait"
    else if state == st_last_ack
    then codes "Last ACK"
    else codes "Invalid State"

-- The text that `update_tcp_table` makes of a socket, in a block of 128 bytes. The two pointers are `unsigned` and
-- printed as `int`.
pub socket_text : Socket → List ℕ
socket_text sock =
    codes "State: "
    ++ (tcpm_strstate (tcpm_state sock)
        ++ (codes " lport:"
            ++ (print_int (pos sock.local_port)
                ++ (codes " rport:"
                    ++ (print_int (pos sock.remote_port)
                        ++ (codes " peer:"
                            ++ (print_int (int_of sock.remote_node)
                                ++ (codes " seqnum:"
                                    ++ (print_int (int_of sock.send_next)
                                        ++ (codes " acknum:"
                                            ++ print_int (int_of sock.recv_next)))))))))))

-- The loop of `update_tcp_table`: the first item that points to the socket.
pub set_description : List Item → ℕ → List ℕ → List Item
set_description [] fd text = []
set_description (item ∷ items) fd text =
    let rest = set_description items fd text in
    if item.sock == fd then record item { description = text } ∷ items else item ∷ rest

abbrev pub lists : List Item → ℕ → Bool
lists [] fd = false
lists (item ∷ items) fd = item.sock == fd || lists items fd

-- What `display_msg` and the log show the user.
pub data Message : Type 0 where
  help select_first not_implemented about_to_accept : Message
  clicked : ℕ → Message
  returned : ℤ → Message
  entered : ℤ → List ℕ → Message
  was_read : ℤ → List ℕ → Message

-- A key as `get_key` returns it: a character, or one of the keys that curses has numbers for.
pub data Key : Type 0 where
  char : ℕ → Key
  key_down key_up key_npage key_ppage other_key : Key

module _ {C : Curses} where
  -- `init_display`, with curses
  unfoldable pub init_display : Display C
  init_display = record {
    tcp_items = [];
    tcp_menu = C.post_menu C.new_menu;
    tcp_menu_num_items = 0;
    toptab = 1;
  }

  -- `tcp_table_new`. Where `set_menu_items` fails, that is logged, and the list is the new one all the same.
  unfoldable pub tcp_table_new : Display C → ℕ → Display C
  tcp_table_new d fd =
      let n = d.tcp_menu_num_items + 1 in
      let item : Item = record {
        sock = fd;
        description = codes "This is a new socket" ++ replicate 82 b' ';
      } in
      let items = take (n - 1) d.tcp_items ++ (item ∷ []) in
      record d {
        tcp_items = items;
        tcp_menu = C.post_menu (C.set_menu_items (C.unpost_menu d.tcp_menu) (length items)).0;
        tcp_menu_num_items = n;
      }

  -- `update_tcp_table`; where it finds the socket it posts the menu again.
  pub update_tcp_table : Display C → Socket → Display C
  unfolding set_description socket_text
  update_tcp_table d sock = record d {
    tcp_items = set_description d.tcp_items sock.fd (socket_text sock);
    tcp_menu =
        if lists d.tcp_items sock.fd then C.post_menu (C.unpost_menu d.tcp_menu) else d.tcp_menu;
  }

  abbrev current : Display C → Option (Option ℕ)
  current d = elim (C.current_item d.tcp_menu) [
    | none ↦ some none
    | some i ↦ get_elem? d.tcp_items i >>= λ item. some (some item.sock)
  ]

  -- `get_fd_from_menu`: -1 where no socket is selected.
  unfoldable pub get_fd_from_menu : Display C → Option ℤ
  get_fd_from_menu d =
      current d >>= λ sock. some (elim sock [ none ↦ minus_one | some fd ↦ pos fd ])

  -- `handle_tcp_menu_input`
  pub handle_tcp_menu_input : Display C → Key → Option (Display C × List Message)
  handle_tcp_menu_input d c = if not (d.toptab == 1) then some (d, []) else (elim c [
    | key_down ↦ some (record d { tcp_menu = C.down_item d.tcp_menu }, [])
    | key_up ↦ some (record d { tcp_menu = C.up_item d.tcp_menu }, [])
    | char k ↦
        if k == b' '
        then (current d >>= λ sock. some (d, elim sock [ none ↦ [] | some fd ↦ clicked fd ∷ [] ]))
        else some (d, [])
    | key_npage ↦ some (d, [])
    | key_ppage ↦ some (d, [])
    | other_key ↦ some (d, [])
  ])

  -- `show_route_table` and `show_tcp_table`, by `switch_to_tab`
  pub show_route_table : Display C → Display C
  show_route_table d = record d { toptab = 0 }

  pub show_tcp_table : Display C → Display C
  show_tcp_table d = record d { toptab = 1 }

-- `get_number`: where the field holds no number, `num` is what its memory holds.
pub get_number : List ℕ → ℤ → ℤ
get_number field raw = elim (scan_int field) [ none ↦ raw | some n ↦ n ]

-- The two loops of `get_text`: where the text begins, and where it ends.
pub find_start : List ℕ → ℕ → Option ℕ
find_start [] i = none
find_start (c ∷ field) i = if c == b' ' then find_start field (suc i) else some i

pub find_end : List ℕ → ℕ → Option ℕ
find_end field zero = none
find_end field (suc i) =
    let rest = find_end field i in
    get_elem? field i >>= λ c. if c == b' ' then rest else some (suc i)

-- The end of `get_text`: `memset` and `memcpy` into the caller's `len` bytes.
pub copy_text : List ℕ → ℕ → ℕ → ℕ → Option (ℤ × List ℕ)
copy_text field len start stop = do
  let n = u32 (stop + 4294967296 - start)
  assert (leb n len && leb (start + n) (length field))
  some (int_of n, take n (drop start field) ++ replicate (len - n) 0)

-- `get_text`, with the 252 bytes of its field. In a field of spaces it finds neither a start nor an end: they are what
-- their memory holds, `raw_start` and `raw_end`.
pub get_text : List ℕ → ℕ → ℕ → ℕ → Option (ℤ × List ℕ)
get_text field len raw_start raw_end =
    let or_raw : Option ℕ → ℕ → ℕ = λ o raw. elim o [ none ↦ raw | some i ↦ i ] in
    copy_text field len (or_raw (find_start field 0) raw_start)
      (or_raw (find_end field 252) raw_end)
