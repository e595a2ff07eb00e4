-- ===== src/SrTcp.antt =====
-- The TCP connection tracker of cs144/router/sr_tcp.c. A state is the `uint8_t` that the code
-- stores; the names are those of <netinet/tcp.h>. `sent` says that the segment leaves the NAT.
pub mod Machine
pub mod Header
use stanford.Prelude.{ℕ, Bool, not, ◌&&◌, ◌==◌, if◌then◌else◌}
use stanford.SrProtocol.{TcpHdr}

abbrev pub tcp_established : ℕ
tcp_established = 1

abbrev pub tcp_syn_sent : ℕ
tcp_syn_sent = 2

abbrev pub tcp_syn_recv : ℕ
tcp_syn_recv = 3

abbrev pub tcp_fin_wait1 : ℕ
tcp_fin_wait1 = 4

abbrev pub tcp_fin_wait2 : ℕ
tcp_fin_wait2 = 5

abbrev pub tcp_time_wait : ℕ
tcp_time_wait = 6

abbrev pub tcp_close : ℕ
tcp_close = 7

abbrev pub tcp_close_wait : ℕ
tcp_close_wait = 8

abbrev pub tcp_last_ack : ℕ
tcp_last_ack = 9

abbrev pub tcp_listen : ℕ
tcp_listen = 10

abbrev pub tcp_closing : ℕ
tcp_closing = 11

pub get_tcp_transition_close : TcpHdr → Bool → ℕ
get_tcp_transition_close hdr sent = if hdr.syn && sent then tcp_syn_sent else tcp_close

pub get_tcp_transition_listen : TcpHdr → Bool → ℕ
get_tcp_transition_listen hdr sent =
    if hdr.syn && (hdr.ack && sent) then tcp_syn_recv else tcp_listen

pub get_tcp_transition_syn_sent : TcpHdr → Bool → ℕ
get_tcp_transition_syn_sent hdr sent =
    if hdr.syn && (not hdr.ack && not sent)
    then tcp_syn_recv
    else (if hdr.syn && (hdr.ack && not sent) then tcp_established else tcp_syn_sent)

pub get_tcp_transition_syn_recvd : TcpHdr → Bool → ℕ
get_tcp_transition_syn_recvd hdr sent =
    if hdr.ack && not sent then tcp_established else tcp_syn_recv

pub get_tcp_transition_established : TcpHdr → Bool → ℕ
get_tcp_transition_established hdr sent =
    if hdr.fin && sent
    then tcp_fin_wait1
    else (if hdr.fin && not sent then tcp_close_wait else tcp_established)

pub get_tcp_transition_close_wait : TcpHdr → Bool → ℕ
get_tcp_transition_close_wait hdr sent = if hdr.fin && sent then tcp_last_ack else tcp_close_wait

pub get_tcp_transition_last_ack : TcpHdr → Bool → ℕ
get_tcp_transition_last_ack hdr sent =
    if hdr.fin && (hdr.ack && not sent) then tcp_close else tcp_last_ack

pub get_tcp_transition_fin_wait_1 : TcpHdr → Bool → ℕ
get_tcp_transition_fin_wait_1 hdr sent =
    if hdr.fin && (hdr.ack && not sent)
    then tcp_fin_wait2
    else (if hdr.fin && (not hdr.ack && not sent) then tcp_closing else tcp_fin_wait1)

pub get_tcp_transition_fin_wait_2 : TcpHdr → Bool → ℕ
get_tcp_transition_fin_wait_2 hdr sent =
    if hdr.fin && not sent then tcp_time_wait else tcp_fin_wait2

pub get_tcp_transition_closing : TcpHdr → Bool → ℕ
get_tcp_transition_closing hdr sent =
    if hdr.fin && (hdr.ack && not sent) then tcp_time_wait else tcp_closing

pub get_tcp_transition_time_wait : TcpHdr → Bool → ℕ
get_tcp_transition_time_wait hdr sent = tcp_time_wait

-- `return -1` in a function of type `uint8_t` is 255.
unfoldable pub sr_get_tcp_transition : TcpHdr → ℕ → Bool → ℕ
unfolding get_tcp_transition_close get_tcp_transition_listen get_tcp_transition_syn_sent
    get_tcp_transition_syn_recvd get_tcp_transition_established get_tcp_transition_close_wait
    get_tcp_transition_last_ack get_tcp_transition_fin_wait_1 get_tcp_transition_fin_wait_2
    get_tcp_transition_closing get_tcp_transition_time_wait
sr_get_tcp_transition hdr curr_state sent =
    if curr_state == tcp_close
    then get_tcp_transition_close hdr sent
    else (if curr_state == tcp_listen
        then get_tcp_transition_listen hdr sent
        else (if curr_state == tcp_syn_sent
            then get_tcp_transition_syn_sent hdr sent
            else (if curr_state == tcp_syn_recv
                then get_tcp_transition_syn_recvd hdr sent
                else (if curr_state == tcp_established
                    then get_tcp_transition_established hdr sent
                    else (if curr_state == tcp_close_wait
                        then get_tcp_transition_close_wait hdr sent
                        else (if curr_state == tcp_last_ack
                            then get_tcp_transition_last_ack hdr sent
                            else (if curr_state == tcp_fin_wait1
                                then get_tcp_transition_fin_wait_1 hdr sent
                                else (if curr_state == tcp_fin_wait2
                                    then get_tcp_transition_fin_wait_2 hdr sent
                                    else (if curr_state == tcp_closing
                                        then get_tcp_transition_closing hdr sent
                                        else (if curr_state == tcp_time_wait
                                            then get_tcp_transition_time_wait hdr sent
                                            else 255))))))))))
