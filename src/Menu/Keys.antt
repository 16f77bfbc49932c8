-- ===== src/Menu/Keys.antt =====
-- What the keys of tcp_branch/ip_driver.c do: the text of the user goes to the socket that is selected.
use tcp_archive.Prelude.{
  ℕ, ◌+◌, ◌-◌, ◌≡◌, ◌≢◌, some, List, [], ◌∷◌, ◌++◌, length, replicate, ℤ, pos, minus_one, arith,
  ◌>>=◌, ltb_ℤ, le→ltb, false, true, Bool, ◌∙◌, ap,
}
use tcp_archive.External.{HTable, Bqueue, Host}
use tcp_archive.Api.{v_write}
use tcp_archive.Display.{Curses, char, get_fd_from_menu, entered, returned, select_first, get_text}
use tcp_archive.Display.Fields.{get_text_lem}
use tcp_archive.Menu.{with_socket, Turn, Session, Entered, press, press_write}

module _ {C : Curses} {H : HTable} {B : Bqueue} (h : Host) where
  -- Without a socket selected, the seven keys that need one ask for it and leave everything as it was.
  pub press_unselected :
      (s : Session C H B) (e : Entered)
      → get_fd_from_menu s.display ≡ some minus_one
      → let asks : Turn C H B = some (s, select_first ∷ []) in
        (press h s e (char b'b') ≡ asks)
        × (press h s e (char b'l') ≡ asks)
        × (press h s e (char b'c') ≡ asks)
        × (press h s e (char b'x') ≡ asks)
        × (press h s e (char b'a') ≡ asks)
        × (press h s e (char b'1') ≡ asks)
        × (press h s e (char b'2') ≡ asks)
  unfolding press
  press_unselected s e none' =
      (rw none', rw none', rw none', rw none', rw none', rw none', rw none')

  selected_socket :
      (s : Session C H B) (fd : ℕ) (run : ℤ → Turn C H B)
      → get_fd_from_menu s.display ≡ some (pos fd)
      → with_socket h s run ≡ run (pos fd)
  selected_socket s fd run selected =
      let nonneg : ltb_ℤ (pos fd) (pos 0) ≡ false = le→ltb 0 (fd + 0) (omega arith) in
      let branch : Bool → Turn C H B =
        λ b. elim b [ true ↦ some (s, select_first ∷ []) | false ↦ run (pos fd) ] in
      rw selected (ap branch nonneg)

  -- The key `1` with a socket selected, and in the field's 252 bytes a text that neither begins nor ends with a space,
  -- with spaces on both sides: `v_write` gets the text, with zero bytes behind it, and its length, on that socket.
  pub press-v_write :
      (s : Session C H B) (e : Entered) (fd k m c d : ℕ) (text rest front : List ℕ)
      → get_fd_from_menu s.display ≡ some (pos fd)
      → e.text ≡ replicate k b' ' ++ (text ++ replicate m b' ')
      → text ≡ c ∷ rest
      → text ≡ front ++ (d ∷ [])
      → c ≢ b' '
      → d ≢ b' '
      → k + length text + m ≡ 252
      → let buf = text ++ replicate (256 - length text) 0 in
        press h s e (char b'1') ≡ (
          v_write h s.node (pos fd) buf (length text) >>= λ (node, r).
          some (record s { node = node }, entered (pos (length text)) buf ∷ returned r ∷ []))
  unfolding press press_write
  press-v_write s e fd k m c d text rest front selected typed first last nc nd total =
      let got =
        get_text_lem k m 256 c d e.raw_start e.raw_end text rest front first last nc nd total
          (omega (arith, total)) in
      let text_of : get_text e.text 256 e.raw_start e.raw_end
          ≡ some (pos (length text), text ++ replicate (256 - length text) 0) =
        ap (λ l. get_text l 256 e.raw_start e.raw_end) typed ∙ got in
      selected_socket s fd (press_write h s e) selected ∙ rw text_of
