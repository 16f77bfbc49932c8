-- ===== src/Display/Sockets.antt =====
-- The list of sockets of tcp_branch/fancy_display.c: its items and its menu stay together, and a socket's text fits its
-- block of memory.
use tcp_archive.Prelude.{
  ℕ, Bool, true, false, if◌then◌else◌, ◌+◌, ◌-◌, ◌<◌, ◌≤◌, ◌≡◌, refl, sym, ◌∙◌, ap, some, List, [],
  ◌∷◌, ◌++◌, length, length-append, take, arith, pos, minus_one, ◌⊎◌, inl, inr, get_elem?,
  get_elem?-lt, Option-cases,
}
use tcp_archive.Socket.{Socket}
use tcp_archive.Text.Numbers.{length-print_int}
use tcp_archive.Router.Header.{take_all}
use tcp_archive.Display.{
  Curses, Display, Item, Key, Message, char, key_down, key_up, key_npage, key_ppage, other_key,
  init_display, tcp_table_new, update_tcp_table, set_description, lists, socket_text, tcpm_strstate,
  get_fd_from_menu, handle_tcp_menu_input, show_route_table, show_tcp_table,
}

length-tcpm_strstate : (state : ℕ) → length (tcpm_strstate state) ≤ 13
unfolding tcpm_strstate
length-tcpm_strstate state = ground arith

-- The text of any socket, with the zero byte at its end, fits the 128 bytes that `update_tcp_table` has for it.
pub length-socket_text : (sock : Socket) → length (socket_text sock) < 128
unfolding socket_text
length-socket_text sock = omega (arith, length-append {0}, length-print_int, length-tcpm_strstate)

-- The items, their count and the menu of a display belong together.
pub record IsConsistent {C : Curses} (d : Display C) : Type 0 where
  pub num_items : d.tcp_menu_num_items ≡ length d.tcp_items
  pub menu_items : C.item_count d.tcp_menu ≡ length d.tcp_items

length-take_snoc :
    (n : ℕ) (items : List Item) (item : Item)
    → length items ≡ n
    → length (take n items ++ (item ∷ [])) ≡ n + 1
length-take_snoc n items item e =
    length-append (take n items) (item ∷ [])
    ∙ omega (arith, ap length (take_all items n (omega (arith, e))), e)

length-set_description :
    (items : List Item) (fd : ℕ) (text : List ℕ)
    → length (set_description items fd text) ≡ length items
unfolding set_description
length-set_description [] fd text = refl
length-set_description (item ∷ items) fd text = ground (arith, length-set_description items fd text)

reposted :
    (C : Curses) (m : C.Menu) (b : Bool)
    → C.item_count (if b then C.post_menu (C.unpost_menu m) else m) ≡ C.item_count m
reposted C m true = C.item_count-post (C.unpost_menu m) ∙ C.item_count-unpost m
reposted C m false = refl

module _ {C : Curses} where
  pub init_display-IsConsistent : IsConsistent (init_display {C = C})
  unfolding init_display
  init_display-IsConsistent = record {
    num_items = refl;
    menu_items = C.item_count-post _ ∙ C.item_count-new;
  }

  pub tcp_table_new-IsConsistent :
      (d : Display C) (fd : ℕ) → IsConsistent d → IsConsistent (tcp_table_new d fd)
  unfolding tcp_table_new
  tcp_table_new-IsConsistent d fd v = record {
    num_items = sym (
        length-take_snoc (d.tcp_menu_num_items + 1 - 1) d.tcp_items _ (omega (arith, v))
        ∙ omega arith);
    menu_items =
        C.item_count-post _
        ∙ C.item_count-set _ _ (C.set_menu_items-unposted _ _ (C.posted-unpost d.tcp_menu));
  }

  pub update_tcp_table-IsConsistent :
      (d : Display C) (sock : Socket) → IsConsistent d → IsConsistent (update_tcp_table d sock)
  unfolding update_tcp_table
  update_tcp_table-IsConsistent d sock v = record {
    num_items = v.num_items ∙ sym (length-set_description d.tcp_items sock.fd (socket_text sock));
    menu_items =
        reposted C d.tcp_menu (lists d.tcp_items sock.fd)
        ∙ v.menu_items
        ∙ sym (length-set_description d.tcp_items sock.fd (socket_text sock));
  }

  pub handle_tcp_menu_input-IsConsistent :
      (d d' : Display C) (c : Key) (shown : List Message)
      → IsConsistent d
      → handle_tcp_menu_input d c ≡ some (d', shown)
      → IsConsistent d'
  unfolding handle_tcp_menu_input
  handle_tcp_menu_input-IsConsistent d d' key_down shown v e =
      ground (arith, C.item_count-down d.tcp_menu)
  handle_tcp_menu_input-IsConsistent d d' key_up shown v e =
      ground (arith, C.item_count-up d.tcp_menu)
  handle_tcp_menu_input-IsConsistent d d' (char k) shown v e = ground arith
  handle_tcp_menu_input-IsConsistent d d' key_npage shown v e = ground arith
  handle_tcp_menu_input-IsConsistent d d' key_ppage shown v e = ground arith
  handle_tcp_menu_input-IsConsistent d d' other_key shown v e = ground arith

  -- What is selected: nothing, for which the number is -1, or a socket of the list.
  pub get_fd_from_menu_lem :
      (d : Display C)
      → IsConsistent d
      → (get_fd_from_menu d ≡ some minus_one)
        ⊎ ((i : ℕ) × (item : Item) × (get_elem? d.tcp_items i ≡ some item)
            × (get_fd_from_menu d ≡ some (pos item.sock)))
  unfolding get_fd_from_menu
  get_fd_from_menu_lem d v = elim (Option-cases (C.current_item d.tcp_menu)) [
    | inl e ↦ inl (ground arith)
    | inr (i, e) ↦
        (let (item, e') =
            get_elem?-lt d.tcp_items i (omega (arith, v, C.current_lt d.tcp_menu i e)) in
          inr (i, item, e', ground (arith, e')))
  ]

  pub show-IsConsistent :
      (d : Display C)
      → IsConsistent d
      → IsConsistent (show_route_table d) × IsConsistent (show_tcp_table d)
  unfolding show_route_table show_tcp_table
  show-IsConsistent d v = (
    record { num_items = v.num_items; menu_items = v.menu_items },
    record { num_items = v.num_items; menu_items = v.menu_items },
  )
