-- ===== src/Older/Seq/Agree.antt =====
-- The sending half of the older seq.c, and its test of a segment, do what those of tcp_branch/seq.c do while the pointers
-- are in order.
use tcp_archive.Prelude.{
  ℕ, ◌+◌, ◌<◌, ◌≤◌, ◌≡◌, refl, ap, ap₂, Bool, true, false, Option, none, some, List, arith, ltb,
  leb, ltb_ℤ, int_leb, pos, ℤ, add32, sub32, ◌>>=◌, ◌>>◌, assert, is_some, if◌then◌else◌, ◌⊎◌, sym,
  ◌∙◌, ◌==◌, ◌||◌, ◌&&◌, ◌-◌, ◌/◌, ◌%◌, lt→ltb,
}
use tcp_archive.Cbuffer.{
  Cbuf, cbuf_mod, get_cell, data_cell, flag_cell, cbuf_put_range, cbuf_cmp, cbuf_btm_contains,
  is_nonneg, cbuf_lte, cbuf_gt, cbuf_lt, cbuf_eq, before, same, after,
}
use tcp_archive.Cbuffer.Cells.{IsValid}
use tcp_archive.Older.{get_range}
use tcp_archive.Older.Buffer.{as_newer, put_range_same, get_range_same}
use tcp_archive.Older.Seq.{
  Socket, int_ltb, int_mod, int_cmp, btm_contains, is_valid_seq_num, have_room_to_receive,
  send_flag_next, sendable, get_amount_able_to_send, copy_data_from_user, can_accept_data_to_send,
  get_amount_able_to_accept,
}
use tcp_archive.Socket as New
use tcp_archive.Seq as NewSeq

int_ltb_near : (a b : ℕ) → a < 2147483648 → b < 2147483648 → int_ltb a b ≡ ltb a b
int_ltb_near a b h k = ground arith

int_leb_near : (a b : ℕ) → a < 2147483648 → b < 2147483648 → int_leb a b ≡ leb a b
int_leb_near a b h k = ground arith

-- The newer socket with the buffers and the pointers of the older one. Its receive window begins at the data not yet read,
-- that of the older one at the data not yet received.
abbrev pub newer : New.Socket → Socket → New.Socket
newer rest o = record rest {
  last_ack = o.last_ack;
  r_buf = o.r_buf;
  s_buf = o.s_buf;
  send_una = o.send_una;
  send_next = o.send_next;
  send_written = o.send_written;
  remote_flow_window = o.remote_flow_window;
  recv_ack = o.recv_next;
  recv_next = o.recv_next;
  recv_read = o.recv_read;
  recv_window = sub32 (add32 o.recv_next o.recv_window) o.recv_read;
  send_window = o.send_window;
}

-- The send pointers are in order, and neither they nor the windows reach 2 ^ 31.
pub record IsInOrder (o : Socket) : Type 0 where
  pub s_ring : IsValid o.s_buf
  pub next_le_written : o.send_next ≤ o.send_written
  pub next_le_flow : o.send_next ≤ o.remote_flow_window
  pub written_le_end : o.send_written ≤ o.send_una + o.send_window
  pub end_small : o.send_una + o.send_window < 2147483648
  pub flow_small : o.remote_flow_window < 2147483648

checked {ℓ} :
    {A B C : Type ℓ} (a b c : Bool) (p : Option A) (f : A → B) (g : B → C)
    → ◌≡◌ {A = Option C}
        ((assert a >>= λ u. assert b >>= λ u. assert c >>= λ u. p >>= λ r. some (f r)) >>= λ o.
          some (g o))
        (assert a >>= λ u. assert b >>= λ u. assert c >>= λ u. p >>= λ r. some (g (f r)))
checked true true true none f g = refl
checked true true true (some x) f g = refl
checked true true false p f g = refl
checked true false c p f g = refl
checked false b c p f g = refl

copy_data_agree :
    (rest : New.Socket) (o : Socket) (bytes : List ℕ) (size : ℕ)
    → IsInOrder o
    → o.send_written + size < 2147483648
    → (copy_data_from_user o bytes size >>= λ o'. some (newer rest o'))
      ≡ NewSeq.copy_data_from_user (newer rest o) bytes size
unfolding copy_data_from_user can_accept_data_to_send get_amount_able_to_accept
    NewSeq.copy_data_from_user NewSeq.can_accept_data_to_send
copy_data_agree rest o bytes size v small =
    rw
      (
        int_ltb_near 0 (sub32 (add32 o.send_una o.send_window) o.send_written) (omega arith)
            (omega (arith, v)),
        int_leb_near o.send_next o.send_written (omega (arith, v)) (omega (arith, v)),
        int_leb_near (add32 o.send_written size) (add32 o.send_una o.send_window) (omega (arith, v))
            (omega (arith, v)),
        put_range_same o.s_buf bytes o.send_written size v.s_ring (omega (arith, v)),
      )
      (checked (ltb 0 (NewSeq.send_room (newer rest o))) (leb o.send_next o.send_written)
        (leb (add32 o.send_written size) (add32 o.send_una o.send_window))
        (cbuf_put_range o.s_buf bytes o.send_written size)
        (λ s_buf. record o { s_buf = s_buf; send_written = add32 o.send_written size })
        (newer rest))

-- The first cell that is not yet sent holds data or a flag.
abbrev pub SendsCell : Socket → Type 0
SendsCell o =
    (t x : ℕ) × (get_cell o.s_buf (cbuf_mod o.s_buf o.send_next) ≡ some (t, x))
    × ((t ≡ data_cell) ⊎ (t ≡ flag_cell))

abbrev amount_of : ℤ × Option (List ℕ) → Option ℤ
amount_of got = if ltb_ℤ got.0 (pos 0) then some got.0 else (assert (is_some got.1) >> some got.0)

abbrev flag_of : ℤ × Option (List ℕ) → Option Bool
flag_of got = if ltb_ℤ got.0 (pos 0) then some true else (assert (is_some got.1) >> some false)

either_way {ℓ} : {A : Type ℓ} (b : Bool) (x : A) → (if b then x else x) ≡ x
either_way true x = refl
either_way false x = refl

as_tested : (b : Bool) → ◌≡◌ {A = Option Bool} (if b then some true else some false) (some b)
as_tested true = refl
as_tested false = refl

older_amount :
    (o : Option (ℤ × List ℕ)) → (o >>= λ got. some got.0) ≡ ((o >>= as_newer) >>= amount_of)
older_amount none = refl
older_amount (some (n, values)) = sym (either_way (ltb_ℤ n (pos 0)) (some n))

older_flag :
    (o : Option (ℤ × List ℕ))
    → (o >>= λ got. some (ltb_ℤ got.0 (pos 0))) ≡ ((o >>= as_newer) >>= flag_of)
older_flag none = refl
older_flag (some (n, values)) = sym (as_tested (ltb_ℤ n (pos 0)))

sendable_agree :
    (rest : New.Socket) (o : Socket) → IsInOrder o → sendable o ≡ NewSeq.sendable (newer rest o)
sendable_agree rest o v =
    rw
      (int_ltb_near (sub32 o.send_written o.send_next) (sub32 o.remote_flow_window o.send_next)
        (omega (arith, v)) (omega (arith, v)))
      refl

amount_agree :
    (rest : New.Socket) (o : Socket)
    → IsInOrder o
    → SendsCell o
    → get_amount_able_to_send o ≡ NewSeq.get_amount_able_to_send (newer rest o)
unfolding get_amount_able_to_send NewSeq.get_amount_able_to_send
amount_agree rest o v (t, x, first, kind) =
    let m = NewSeq.sendable (newer rest o) in
    ap
      (λ k. assert (is_nonneg k) >> elim ((k == 0) || (o.send_next == o.send_written)) [
        | true ↦ some (pos 0)
        | false ↦ get_range o.s_buf o.send_next k >>= λ got. some got.0
      ])
      (sendable_agree rest o v)
    ∙ ap
        (λ q.
          assert (is_nonneg m)
          >> elim ((m == 0) || (o.send_next == o.send_written)) [ true ↦ some (pos 0) | false ↦ q ])
        (older_amount (get_range o.s_buf o.send_next m)
          ∙ ap (λ r. r >>= amount_of)
              (get_range_same o.s_buf o.send_next m t x v.s_ring (omega (arith, v)) first kind))

flag_agree :
    (rest : New.Socket) (o : Socket)
    → IsInOrder o
    → SendsCell o
    → send_flag_next o ≡ NewSeq.send_flag_next (newer rest o)
unfolding send_flag_next NewSeq.send_flag_next
flag_agree rest o v (t, x, first, kind) =
    ap (λ q. if o.send_written == o.send_next then some false else q)
      (older_flag (get_range o.s_buf o.send_next 1)
        ∙ ap (λ r. r >>= flag_of)
            (get_range_same o.s_buf o.send_next 1 t x v.s_ring (omega (arith, v)) first kind))

-- The sending half of the older seq.c agrees with the newer one, for a socket with a valid send buffer, whose `send_next`
-- is not past `send_written` and not past the end of the peer's window, whose `send_written` is not past the end of the
-- send window, where both ends lie below 2 ^ 31, and whose first cell not yet sent holds data or a flag: taking data from the user, of a size that does not reach
-- 2 ^ 31 either, ends the process in both or leaves the same socket, both tell the same amount of data that can be sent,
-- and both tell alike whether a flag is next.
pub sending_agrees :
    (rest : New.Socket) (o : Socket) (bytes : List ℕ) (size : ℕ)
    → IsInOrder o
    → SendsCell o
    → o.send_written + size < 2147483648
    → ((copy_data_from_user o bytes size >>= λ o'. some (newer rest o'))
        ≡ NewSeq.copy_data_from_user (newer rest o) bytes size)
      × (get_amount_able_to_send o ≡ NewSeq.get_amount_able_to_send (newer rest o))
      × (send_flag_next o ≡ NewSeq.send_flag_next (newer rest o))
sending_agrees rest o bytes size v first small = (
  copy_data_agree rest o bytes size v small,
  amount_agree rest o v first,
  flag_agree rest o v first,
)

mod_agree : (c : Cbuf) (a : ℕ) → a < 2147483648 → int_mod c a ≡ a % c.size
mod_agree c a h = rw (lt→ltb a 2147483648 h) refl

behind :
    (x y h : ℕ)
    → x < 2147483648
    → y < 2147483648
    → h < 2147483648
    → (int_ltb x y && int_ltb (sub32 y x) h) ≡ (ltb x y && ltb (y - x) h)
behind x y h p q r = ground arith

ahead :
    (x y h : ℕ)
    → x < 2147483648
    → y < 2147483648
    → h < 2147483648
    → (int_ltb y x && int_ltb h (sub32 x y)) ≡ (ltb y x && ltb h (x - y))
ahead x y h p q r = ground arith

cmp_agree :
    (c : Cbuf) (a b : ℕ)
    → IsValid c
    → a < 2147483648
    → b < 2147483648
    → int_cmp c a b ≡ cbuf_cmp c.size a b
unfolding int_cmp cbuf_cmp
cmp_agree c a b v h k =
    let x = a % c.size in
    let y = b % c.size in
    rw (mod_agree c a h, mod_agree c b k)
      (ap₂ (λ p q. if x == y then same else if p || q then before else after)
        (behind x y (c.size / 2) (omega (arith, v)) (omega (arith, v)) (omega (arith, v)))
        (ahead x y (c.size / 2) (omega (arith, v)) (omega (arith, v)) (omega (arith, v))))

contains_agree :
    (c : Cbuf) (a b n : ℕ)
    → IsValid c
    → a < 2147483648
    → b < 2147483648
    → n < 2147483648
    → btm_contains c a b n ≡ cbuf_btm_contains c a b n
unfolding btm_contains cbuf_btm_contains cbuf_lte cbuf_gt cbuf_lt cbuf_eq
contains_agree c a b n v h k l = rw (cmp_agree c a n v h l, cmp_agree c b n v k l) refl

-- While the receive pointers, the end of the window and that of the segment stay below 2 ^ 31, and the window does not end
-- before the data not yet read, the older code accepts the same segments as the newer one, and finds the same room.
pub segments_agree :
    (rest : New.Socket) (o : Socket) (num len size : ℕ)
    → IsValid o.r_buf
    → o.recv_read ≤ o.recv_next
    → o.recv_next + o.recv_window < 2147483648
    → num + len < 2147483648
    → size < 2147483648
    → (is_valid_seq_num o num len ≡ NewSeq.is_valid_seq_num (newer rest o) num len)
      × (have_room_to_receive o size ≡ NewSeq.have_room_to_receive (newer rest o) size)
unfolding is_valid_seq_num have_room_to_receive NewSeq.is_valid_seq_num NewSeq.have_room_to_receive
segments_agree rest o num len size v order small seg h =
    let window_end : NewSeq.recv_end (newer rest o) ≡ add32 o.recv_next o.recv_window =
      omega arith in
    (
      rw
          (
            window_end,
            contains_agree o.r_buf o.recv_next (add32 o.recv_next o.recv_window) num v (omega arith)
                (omega arith) (omega arith),
            contains_agree o.r_buf o.recv_next (add32 o.recv_next o.recv_window) (add32 num len) v
                (omega arith) (omega arith) (omega arith),
          )
          refl,
      rw window_end (int_leb_near size o.recv_window h (omega arith) ∙ ap (leb size) (omega arith)),
    )
