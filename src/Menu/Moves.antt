-- ===== src/Menu/Moves.antt =====
-- Each key of tcp_branch/ip_driver.c is a step that a running node can take, or leaves the node alone.
use tcp_archive.Prelude.{
  ℕ, Option, none, some, Bool, true, false, List, ◌≡◌, refl, ap, subst, ℤ, pos, pos_part, ltb_ℤ,
  ◌==◌, if◌then◌else◌, >>=-eq-some, some_injective, Bool-cases, inl, inr, assert, not,
}
use tcp_archive.External.{HTable, Bqueue, Host}
use tcp_archive.Node.{Node}
use tcp_archive.Api.{v_write, v_accept}
use tcp_archive.System.{
  Step, Reach, start, then_step, socket_call, bind_call, listen_call, connect_call, connect_end,
  accept_call, accept_end, read_call, write_call, close_call, close_end,
}
use tcp_archive.Display.{
  Curses, Message, Key, char, key_down, key_up, key_npage, key_ppage, other_key, tcp_table_new,
  handle_tcp_menu_input, get_fd_from_menu, get_text,
}
use tcp_archive.Display.Sockets.{
  IsConsistent, tcp_table_new-IsConsistent, handle_tcp_menu_input-IsConsistent, show-IsConsistent,
}
use tcp_archive.Menu.{
  Entered, Waiting, connecting, accepting, closing, Session, Turn, with_socket, may_wait,
  after_wait, move_in_list, press_socket, press_bind, press_listen, press_connect, press_accept,
  press_read, press_write, press_link, press_char, press, wake,
}

module _ {C : Curses} {H : HTable} {B : Bqueue} (h : Host) where
  -- The node takes steps, and the display stays consistent.
  abbrev pub Moves : Session C H B → Session C H B → Type 0
  Moves s s' = Reach h s.node s'.node × (IsConsistent s.display → IsConsistent s'.display)

  pub stays : (s : Session C H B) → Moves s s
  stays s = (start refl, λ v. v)

  -- A turn that ends in a session that the first one moves to.
  ends :
      (s : Session C H B) {s'' s' : Session C H B} {m'' m : List Message}
      → Moves s s''
      → ◌≡◌ {A = Turn C H B} (some (s'', m'')) (some (s', m))
      → Moves s s'
  ends s moved e = subst (Moves s) (ap (λ t. t.0) (some_injective e)) moved

  either :
      {M : Type 0} (b : Bool) (x y : Turn C H B) {s' : Session C H B} {m : List Message}
      → (x ≡ some (s', m) → M)
      → (y ≡ some (s', m) → M)
      → (if b then x else y) ≡ some (s', m)
      → M
  either true x y f g e = f e
  either false x y f g e = g e

  with_socket-Moves :
      (s s' : Session C H B) (m : List Message) (run : ℤ → Turn C H B)
      → ((socket : ℤ) → run socket ≡ some (s', m) → Moves s s')
      → with_socket h s run ≡ some (s', m)
      → Moves s s'
  with_socket-Moves s s' m run each e =
      let (socket, _, e') = >>=-eq-some (get_fd_from_menu s.display) _ e in
      elim (Bool-cases (ltb_ℤ socket (pos 0))) [
        | inl t ↦ ends s (stays s) (rw t at e')
        | inr t ↦ each socket (rw t at e')
      ]

  may_wait-Moves :
      (s s' : Session C H B) (m : List Message) (call : Waiting)
      (result : Option (Node H B × Option ℤ))
      → ((node : Node H B) (r : Option ℤ) → result ≡ some (node, r) → Step h s.node node)
      → may_wait h s call result ≡ some (s', m)
      → Moves s s'
  may_wait-Moves s s' m call none steps e = cc
  may_wait-Moves s s' m call (some (node, none)) steps e =
      ends s (then_step (start refl) (steps node none refl), λ v. v) e
  may_wait-Moves s s' m call (some (node, some n)) steps e =
      ends s (then_step (start refl) (steps node (some n) refl), λ v. v) e

  after_wait-Moves :
      (s s' : Session C H B) (m : List Message) (result : Option (Node H B × Option ℤ))
      → ((node : Node H B) (r : Option ℤ) → result ≡ some (node, r) → Step h s.node node)
      → after_wait h s result ≡ some (s', m)
      → Moves s s'
  after_wait-Moves s s' m none steps e = cc
  after_wait-Moves s s' m (some (node, none)) steps e =
      ends s (then_step (start refl) (steps node none refl), λ v. v) e
  after_wait-Moves s s' m (some (node, some n)) steps e =
      ends s (then_step (start refl) (steps node (some n) refl), λ v. v) e

  press_socket-Moves :
      (s s' : Session C H B) (m : List Message) (e : Entered)
      → press_socket h s e ≡ some (s', m)
      → Moves s s'
  unfolding press_socket
  press_socket-Moves s s' m e done =
      let ((node, r), e₁, e₂) = >>=-eq-some _ _ done in
      ends s
        (
          then_step (start refl) (socket_call e.raw r e₁),
          λ v.
              elim (ltb_ℤ r (pos 0))
                as (λ b.
                  IsConsistent (if b then s.display else tcp_table_new s.display (pos_part r))) [
                    | true ↦ v
                    | false ↦ tcp_table_new-IsConsistent s.display (pos_part r) v
                  ],
        )
        e₂

  press_bind-Moves :
      (s s' : Session C H B) (m : List Message) (e : Entered) (socket : ℤ)
      → press_bind h s e socket ≡ some (s', m)
      → Moves s s'
  unfolding press_bind
  press_bind-Moves s s' m e socket done =
      let ((node, r), e₁, e₂) = >>=-eq-some _ _ done in
      ends s (then_step (start refl) (bind_call socket _ r e₁), λ v. v) e₂

  press_listen-Moves :
      (s s' : Session C H B) (m : List Message) (socket : ℤ)
      → press_listen h s socket ≡ some (s', m)
      → Moves s s'
  unfolding press_listen
  press_listen-Moves s s' m socket done =
      let ((node, r), e₁, e₂) = >>=-eq-some _ _ done in
      ends s (then_step (start refl) (listen_call socket r e₁), λ v. v) e₂

  press_connect-Moves :
      (s s' : Session C H B) (m : List Message) (e : Entered) (socket : ℤ)
      → press_connect h s e socket ≡ some (s', m)
      → Moves s s'
  unfolding press_connect
  press_connect-Moves s s' m e socket done =
      may_wait-Moves s s' m (connecting socket) _ (λ node r e₁. connect_call socket _ _ r e₁) done

  press_accept-Moves :
      (s s' : Session C H B) (m : List Message) (socket : ℤ)
      → press_accept h s socket ≡ some (s', m)
      → Moves s s'
  unfolding press_accept
  press_accept-Moves s s' m socket done =
      let ((s'', shown), e₁, e₂) =
        >>=-eq-some (may_wait h s (accepting socket) (v_accept h s.node socket)) _ done in
      ends s
        (may_wait-Moves s s'' shown (accepting socket) (v_accept h s.node socket)
          (λ node r e. accept_call socket r e) e₁)
        e₂

  press_read-Moves :
      (s s' : Session C H B) (m : List Message) (e : Entered) (socket : ℤ)
      → press_read h s e socket ≡ some (s', m)
      → Moves s s'
  unfolding press_read
  press_read-Moves s s' m e socket done =
      let ((node, r, bytes), e₁, e₂) = >>=-eq-some _ _ done in
      let (_, _, e₃) = >>=-eq-some (assert (not (ltb_ℤ r (pos 0)))) _ e₂ in
      ends s (then_step (start refl) (read_call socket _ r bytes e₁), λ v. v) e₃

  press_write-Moves :
      (s s' : Session C H B) (m : List Message) (e : Entered) (socket : ℤ)
      → press_write h s e socket ≡ some (s', m)
      → Moves s s'
  unfolding press_write
  press_write-Moves s s' m e socket done =
      let ((len, buf), e₁, e₂) = >>=-eq-some (get_text e.text 256 e.raw_start e.raw_end) _ done in
      let ((node, r), e₃, e₄) = >>=-eq-some (v_write h s.node socket buf (pos_part len)) _ e₂ in
      ends s (then_step (start refl) (write_call socket buf _ r e₃), λ v. v) e₄

  press_char-Moves :
      (s s' : Session C H B) (m : List Message) (e : Entered) (k : ℕ)
      → press_char h s e k ≡ some (s', m)
      → Moves s s'
  unfolding press_char press_link
  press_char-Moves s s' m e k = either (k == b'q') _ _ (ends s (start refl, λ v. v)) (
      either (k == b'h') _ _ (ends s (stays s)) (
        either (k == b'r') _ _ (ends s (start refl, λ v. (show-IsConsistent s.display v).0)) (
          either (k == b't') _ _ (ends s (start refl, λ v. (show-IsConsistent s.display v).1)) (
            either (k == b's') _ _ (press_socket-Moves s s' m e) (
              either (k == b'b') _ _ (with_socket-Moves s s' m _ (press_bind-Moves s s' m e)) (
                either (k == b'l') _ _ (with_socket-Moves s s' m _ (press_listen-Moves s s' m)) (
                  either (k == b'c') _ _ (with_socket-Moves s s' m _ (press_connect-Moves s s' m e))
                    (either (k == b'x') _ _
                      (with_socket-Moves s s' m _ (λ socket.
                        may_wait-Moves s s' m (closing socket) _
                          (λ node r e₁. close_call socket r e₁)))
                      (either (k == b'a') _ _
                        (with_socket-Moves s s' m _ (press_accept-Moves s s' m))
                        (either (k == b'2') _ _
                          (with_socket-Moves s s' m _ (press_read-Moves s s' m e))
                          (either (k == b'1') _ _
                            (with_socket-Moves s s' m _ (press_write-Moves s s' m e))
                            (either (k == b'3') _ _ (ends s (start refl, λ v. v))
                              (ends s (stays s))))))))))))))

  move_in_list-Moves :
      (s s' : Session C H B) (m : List Message) (key : Key)
      → move_in_list h s key ≡ some (s', m)
      → Moves s s'
  move_in_list-Moves s s' m key done =
      let ((d, shown), e₁, e₂) = >>=-eq-some (handle_tcp_menu_input s.display key) _ done in
      ends s (start refl, λ v. handle_tcp_menu_input-IsConsistent s.display d key shown v e₁) e₂

  pub press-Moves :
      (s s' : Session C H B) (m : List Message) (e : Entered) (key : Key)
      → press h s e key ≡ some (s', m)
      → Moves s s'
  unfolding press
  press-Moves s s' m e (char k) =
      either (k == b' ') _ _ (move_in_list-Moves s s' m (char k)) (press_char-Moves s s' m e k)
  press-Moves s s' m e key_down = move_in_list-Moves s s' m key_down
  press-Moves s s' m e key_up = move_in_list-Moves s s' m key_up
  press-Moves s s' m e key_npage = ends s (stays s)
  press-Moves s s' m e key_ppage = ends s (stays s)
  press-Moves s s' m e other_key = ends s (stays s)

  pub wake-Moves :
      (s s' : Session C H B) (m : List Message) (call : Waiting)
      → wake h s call ≡ some (s', m)
      → Moves s s'
  unfolding wake
  wake-Moves s s' m (connecting socket) =
      after_wait-Moves s s' m _ (λ node r e. connect_end socket r e)
  wake-Moves s s' m (accepting socket) =
      after_wait-Moves s s' m _ (λ node r e. accept_end socket r e)
  wake-Moves s s' m (closing socket) = after_wait-Moves s s' m _ (λ node r e. close_end socket r e)
