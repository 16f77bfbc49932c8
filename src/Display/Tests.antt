-- ===== src/Display/Tests.antt =====
-- The theorems about the display at concrete sockets and fields.
use tcp_archive.Prelude.{◌<◌, ◌≡◌, refl, ◌++◌, length, replicate, pos, negsuc, arith}
use tcp_archive.Node.Sample.{sample_sock}
use tcp_archive.Tcpm.{tcpm_state}
use tcp_archive.Text.{codes, decimal, digits, scan_int}
use tcp_archive.Display.{get_number, socket_text, tcpm_strstate}
use tcp_archive.Display.Fields.{get_number-decimal}
use tcp_archive.Display.Sockets.{length-socket_text}

shows :
    socket_text sample_sock
    ≡ codes "State: Established lport:80 rport:90 peer:5 seqnum:500 acknum:100"
unfolding socket_text tcpm_strstate digits tcpm_state
shows = refl

length-socket_text_example : length (socket_text sample_sock) < 128
length-socket_text_example = length-socket_text sample_sock

reads_none : get_number (codes "  x") (negsuc 6) ≡ negsuc 6
unfolding get_number scan_int
reads_none = refl

get_number-decimal_example :
    get_number (replicate 1 b' ' ++ (decimal 90 ++ replicate 2 b' ')) (negsuc 6) ≡ pos 90
get_number-decimal_example = get_number-decimal 1 90 2 (negsuc 6) (omega arith)
