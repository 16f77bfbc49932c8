-- ===== src/Tcpm/Names.antt =====
-- `tsid_t` and `tinput_t` of tcp_branch/tcpstate.h and the kinds of `do_close` of
-- tcp_branch/statefunc.h.
use tcp_archive.Prelude.{ℕ}

-- The ST_ constants.
abbrev pub st_closed : ℕ
st_closed = 0

abbrev pub st_syn_sent : ℕ
st_syn_sent = 1

abbrev pub st_syn_rcvd : ℕ
st_syn_rcvd = 2

abbrev pub st_listen : ℕ
st_listen = 3

abbrev pub st_estab : ℕ
st_estab = 4

abbrev pub st_fin_wait1 : ℕ
st_fin_wait1 = 5

abbrev pub st_fin_wait2 : ℕ
st_fin_wait2 = 6

abbrev pub st_time_wait : ℕ
st_time_wait = 7

abbrev pub st_closing : ℕ
st_closing = 8

abbrev pub st_close_wait : ℕ
st_close_wait = 9

abbrev pub st_last_ack : ℕ
st_last_ack = 10

-- The ON_ constants.
abbrev pub on_active_open : ℕ
on_active_open = 0

abbrev pub on_passive_open : ℕ
on_passive_open = 1

abbrev pub on_close : ℕ
on_close = 2

abbrev pub on_timeout : ℕ
on_timeout = 3

abbrev pub on_recv_ack : ℕ
on_recv_ack = 4

abbrev pub on_recv_syn : ℕ
on_recv_syn = 5

abbrev pub on_recv_fin : ℕ
on_recv_fin = 6

abbrev pub on_recv_rst : ℕ
on_recv_rst = 7

abbrev pub on_recv_syn_ack : ℕ
on_recv_syn_ack = 8

abbrev pub on_recv_fin_ack : ℕ
on_recv_fin_ack = 9

abbrev pub on_invalid : ℕ
on_invalid = 10

abbrev pub on_none : ℕ
on_none = 11

-- CLOSE_ERROR, CLOSE_EOF, CLOSE_OK and CLOSE_NIL
abbrev pub close_error : ℕ
close_error = 1

abbrev pub close_eof : ℕ
close_eof = 2

abbrev pub close_ok : ℕ
close_ok = 4

abbrev pub close_nil : ℕ
close_nil = 8
