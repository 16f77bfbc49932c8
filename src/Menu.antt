-- ===== src/Menu.antt =====
-- `main` of tcp_branch/ip_driver.c: what each key does to the display and to the node. A key whose socket call waits
-- leaves `main` in that call. Starting and stopping the node is left out, and so is the zero byte that each round writes
-- behind its buffer.
mod Tests
pub mod Moves
pub mod Runs
pub mod Keys
use tcp_archive.Prelude.{
  ℕ, suc, ◌-◌, ◌%◌, Option, none, some, Bool, true, false, not, List, [], ◌∷◌, ◌==◌, if◌then◌else◌,
  ℤ, pos, negsuc, minus_one, pos_part, ltb_ℤ, u16, u32, ◌>>=◌, ◌>>◌, assert, ◌≡◌,
}
use tcp_archive.External.{HTable, Bqueue, Host}
use tcp_archive.Socket.{Socket}
use tcp_archive.Node.{Node}
use tcp_archive.Api.{
  v_socket, v_bind, v_listen, v_connect, v_connect_end, v_accept, v_accept_end, v_read, v_write,
  v_close, v_close_end,
}
use tcp_archive.Display.{
  Curses, Display, Message, help, select_first, not_implemented, about_to_accept, returned, entered,
  was_read, Key, char, key_down, key_up, key_npage, key_ppage, other_key, get_fd_from_menu,
  handle_tcp_menu_input, show_route_table, show_tcp_table, tcp_table_new, get_number, get_text,
}

-- What the user leaves in the fields of the forms of one key, and what memory holds where a form reads nothing; `raw` is
-- what the memory of a new socket holds.
pub record Entered : Type 0 where
  pub first : List ℕ
  pub second : List ℕ
  pub text : List ℕ
  pub raw_first : ℤ
  pub raw_second : ℤ
  pub raw_start : ℕ
  pub raw_end : ℕ
  pub raw : Socket

-- The call that `main` waits in, with its socket.
pub data Waiting : Type 0 where
  connecting accepting closing : ℤ → Waiting

pub record Session (C : Curses) (H : HTable) (B : Bqueue) : Type 0 where
  pub display : Display C
  pub node : Node H B
  pub up : ℕ → Bool
  pub waiting : Option Waiting
  pub quit : Bool

-- An `int` as the `uint16_t` that it is converted to, and as its 32-bit pattern.
abbrev pub low16 : ℤ → ℕ
low16 (pos n) = u16 n
low16 (negsuc n) = 65535 - n % 65536

abbrev pub low32 : ℤ → ℕ
low32 (pos n) = u32 n
low32 (negsuc n) = 4294967295 - n % 4294967296

abbrev pub Turn : Curses → HTable → Bqueue → Type 0
Turn C H B = Option (Session C H B × List Message)

module _ {C : Curses} {H : HTable} {B : Bqueue} (h : Host) where
  -- A key that needs a socket: the selected one, or a message.
  abbrev pub with_socket : Session C H B → (ℤ → Turn C H B) → Turn C H B
  with_socket s run = get_fd_from_menu s.display >>= λ socket. elim (ltb_ℤ socket (pos 0)) [
    | true ↦ some (s, select_first ∷ [])
    | false ↦ run socket
  ]

  -- A call that may wait.
  abbrev pub may_wait : Session C H B → Waiting → Option (Node H B × Option ℤ) → Turn C H B
  may_wait s call result = result >>= λ (node, r). some (elim r [
    | none ↦ (record s { node = node; waiting = some call }, [])
    | some n ↦ (record s { node = node }, returned n ∷ [])
  ])

  -- `s`: a new socket, which `sys_socket` puts on the list.
  pub press_socket : Session C H B → Entered → Turn C H B
  press_socket s e = v_socket h e.raw s.node >>= λ (node, r). some (
    record s {
      node = node;
      display = if ltb_ℤ r (pos 0) then s.display else tcp_table_new s.display (pos_part r);
    },
    returned r ∷ [],
  )

  pub press_bind : Session C H B → Entered → ℤ → Turn C H B
  press_bind s e socket = do
    (node, r) ← v_bind h s.node socket (low16 (get_number e.first e.raw_first))
    some (record s { node = node }, returned r ∷ [])

  pub press_listen : Session C H B → ℤ → Turn C H B
  press_listen s socket = do
    (node, r) ← v_listen h s.node socket
    some (record s { node = node }, returned r ∷ [])

  pub press_connect : Session C H B → Entered → ℤ → Turn C H B
  press_connect s e socket = may_wait s (connecting socket) (
      v_connect h s.node socket (low32 (get_number e.first e.raw_first))
        (low16 (get_number e.second e.raw_second)))

  -- `a`: a message first.
  pub press_accept : Session C H B → ℤ → Turn C H B
  press_accept s socket = do
    (s', shown) ← may_wait s (accepting socket) (v_accept h s.node socket)
    some (s', about_to_accept ∷ shown)

  -- `2`: the zero byte behind what was read is out of bounds where the result is -1.
  pub press_read : Session C H B → Entered → ℤ → Turn C H B
  press_read s e socket = do
    (node, r, bytes) ← v_read h s.node socket (get_number e.first e.raw_first)
    assert (not (ltb_ℤ r (pos 0)))
    some (record s { node = node }, returned r ∷ was_read r bytes ∷ not_implemented ∷ [])

  -- `1`
  pub press_write : Session C H B → Entered → ℤ → Turn C H B
  press_write s e socket = do
    (len, buf) ← get_text e.text 256 e.raw_start e.raw_end
    (node, r) ← v_write h s.node socket buf (pos_part len)
    some (record s { node = node }, entered len buf ∷ returned r ∷ [])

  -- `3`: `get_if_state` and `set_if_state` of an interface.
  pub press_link : Session C H B → Entered → Turn C H B
  press_link s e =
      let i = low32 (get_number e.first e.raw_first) in
      some (record s { up = λ j. if j == i then not (s.up i) else s.up j }, [])

  pub press_char : Session C H B → Entered → ℕ → Turn C H B
  unfolding press_socket press_bind press_listen press_connect press_accept press_read press_write
      press_link
  press_char s e k =
      if k == b'q'
      then some (record s { quit = true }, [])
      else if k == b'h'
      then some (s, help ∷ [])
      else if k == b'r'
      then some (record s { display = show_route_table s.display }, [])
      else if k == b't'
      then some (record s { display = show_tcp_table s.display }, [])
      else if k == b's'
      then press_socket s e
      else if k == b'b'
      then with_socket s (press_bind s e)
      else if k == b'l'
      then with_socket s (press_listen s)
      else if k == b'c'
      then with_socket s (press_connect s e)
      else if k == b'x'
      then with_socket s (λ socket. may_wait s (closing socket) (v_close h s.node socket))
      else if k == b'a'
      then with_socket s (press_accept s)
      else if k == b'2'
      then with_socket s (press_read s e)
      else if k == b'1'
      then with_socket s (press_write s e)
      else if k == b'3'
      then press_link s e
      else some (s, [])

  abbrev pub move_in_list : Session C H B → Key → Turn C H B
  move_in_list s key =
      handle_tcp_menu_input s.display key >>= λ (d, shown). some (record s { display = d }, shown)

  -- One round of the loop of `main`.
  pub press : Session C H B → Entered → Key → Turn C H B
  unfolding press_char
  press s e (char k) = if k == b' ' then move_in_list s (char k) else press_char s e k
  press s e key_down = move_in_list s key_down
  press s e key_up = move_in_list s key_up
  press s e key_npage = some (s, [])
  press s e key_ppage = some (s, [])
  press s e other_key = some (s, [])

  abbrev pub after_wait : Session C H B → Option (Node H B × Option ℤ) → Turn C H B
  after_wait s result = result >>= λ (node, r). some (elim r [
    | none ↦ (record s { node = node }, [])
    | some n ↦ (record s { node = node; waiting = none }, returned n ∷ [])
  ])

  -- The end of the call that `main` waits in, if its event is there.
  pub wake : Session C H B → Waiting → Turn C H B
  wake s (connecting socket) = after_wait s (v_connect_end h s.node socket)
  wake s (accepting socket) = after_wait s (v_accept_end h s.node socket)
  wake s (closing socket) = after_wait s (v_close_end h s.node socket)
