-- ===== src/SrVns/Server.antt =====
-- `sr_read_from_server_expect` of cs144/router/sr_vns_comm.c: a command is read from the socket, in
-- whatever pieces it comes, and handled. A read or write outside of the command's buffer is `none`;
-- the prints of the messages in a command are left out, and with them what these read.
pub mod Pieces
pub mod Framing
use stanford.Prelude.{
  ℕ, zero, suc, ◌+◌, ◌-◌, Bool, true, false, not, ◌&&◌, Option, none, some, List, [], ◌∷◌, ◌++◌,
  ◌==◌, ltb, if◌then◌else◌, ◌>>=◌, length, take, drop,
}
use stanford.Wire.{htonl, read32, le32}
use stanford.SrNat.Sessions.{Headers}
use stanford.SrIf.{Instance}
use stanford.SrVns.{c_string, recv_hwinfo, recv_packet}

-- What `recv` or `read` gives, at most as many bytes as were asked for at a time: none at all when
-- the server has closed. `interrupted` is EINTR.
pub data Recv : Type 0 where
  got : List ℕ → Recv
  interrupted failed : Recv

-- `waiting` is a call that does not return: no more comes, or the socket is closed and is read again
-- and again.
pub data Read : Type 0 where
  complete : List ℕ → List Recv → Read
  waiting error : Read

unfoldable pub read_piece : Recv → List Recv → ℕ → List ℕ → (ℕ → List ℕ → Read) → Read
read_piece interrupted rest n buf more = more n buf
read_piece Recv.failed rest n buf more = error
read_piece (got bytes) rest n buf more =
    if ltb n (length bytes)
    then complete (buf ++ take n bytes) (got (drop n bytes) ∷ rest)
    else more (n - length bytes) (buf ++ bytes)

-- The loop `while (bytes_read < …)`, `n` bytes being missing behind `buf`.
unfoldable pub read_exact : List Recv → ℕ → List ℕ → Read
read_exact [] n buf = if n == 0 then complete buf [] else waiting
read_exact (r ∷ rest) n buf =
    if n == 0
    then complete buf (r ∷ rest)
    else read_piece r rest n buf (λ m buf'. read_exact rest m buf')

-- The length that the first four bytes say.
unfoldable pub command_len : List ℕ → ℕ
unfolding read32
command_len (b0 ∷ b1 ∷ b2 ∷ b3 ∷ _) = htonl (read32 b0 b1 b2 b3)
command_len _ = 0

-- The body of the command whose first four bytes are there. A negative length is one above 10000.
unfoldable pub read_body : Read → Read
read_body waiting = waiting
read_body error = error
read_body (complete buf rest) =
    if ltb 10000 (command_len buf) then error else read_exact rest (command_len buf - 4) buf

unfoldable pub read_command : List Recv → Read
read_command s = read_body (read_exact s 4 [])

-- What the function returns: 0, -1 or 1.
pub data Reply : Type 0 where
  closed failed served : Reply

-- The router with its login, the commands that it sent and the files that it wrote.
pub record Link : Type 0 where
  pub inst : Instance
  pub user : List ℕ
  pub sent_commands : List (List ℕ)
  pub files : List (List ℕ × List ℕ)

-- The files, `send`, and SHA-1. `auth_key` is the buffer that `fgets` filled, and `sha1` gives the
-- digest in network order.
pub record Outside : Type 0 where
  pub auth_key : Option (List ℕ)
  pub sha1 : List ℕ → Option (List ℕ)
  pub rtable_opens : Bool
  pub send_takes : Bool

abbrev pub auth_reply : List ℕ → List ℕ → List ℕ
auth_reply user digest =
    le32 (htonl (12 + length user + 20))
    ++ (le32 (htonl 256) ++ (le32 (htonl (length user)) ++ (user ++ digest)))

unfoldable pub send_digest : Link → Outside → Option (List ℕ) → Link × Bool
send_digest l out none = (l, false)
send_digest l out (some digest) =
    if out.send_takes
    then (record l { sent_commands = auth_reply l.user digest ∷ l.sent_commands }, true)
    else (l, false)

unfoldable pub with_auth_key : Link → Outside → List ℕ → Option (List ℕ) → Link × Bool
with_auth_key l out salt none = (l, false)
with_auth_key l out salt (some key) = send_digest l out (out.sha1 (salt ++ take 64 key))

unfoldable pub sr_handle_auth_request : Link → Outside → List ℕ → Link × Bool
sr_handle_auth_request l out buf = with_auth_key l out (drop 8 buf) out.auth_key

unfoldable pub sr_handle_auth_status : List ℕ → Option Bool
sr_handle_auth_status (_ ∷ _ ∷ _ ∷ _ ∷ _ ∷ _ ∷ _ ∷ _ ∷ auth_ok ∷ _) = some (not (auth_ok == 0))
sr_handle_auth_status _ = none

-- The file "rtable." with the id of the router.
unfoldable pub sr_handle_rtable : Link → Outside → List ℕ → Option (Link × Bool)
sr_handle_rtable l out buf =
    if ltb (length buf) 40
    then none
    else (c_string 32 (drop 8 buf) >>= λ id.
        let fn = 114 ∷ 116 ∷ 97 ∷ 98 ∷ 108 ∷ 101 ∷ 46 ∷ id in
        if out.rtable_opens
        then some (record l { files = (fn, drop 40 buf) ∷ l.files }, true)
        else some (l, false))

abbrev pub command_reply : Link × Bool → Link × Reply
command_reply (l, true) = (l, served)
command_reply (l, false) = (l, Reply.failed)

-- The `switch`.
unfoldable pub handle_command :
    Outside → Headers → ℕ → ℕ → ℕ → Link → ℕ → List ℕ → Option (Link × Reply)
handle_command out mem ip_ptr fuel now l command buf =
    if command == 4
    then (recv_packet mem ip_ptr fuel now l.inst buf >>= λ sr.
        some (record l { inst = sr }, served))
    else (if command == 2
        then some (l, closed)
        else (if command == 16
            then (recv_hwinfo l.inst buf >>= λ r.
                some (command_reply (record l { inst = r.0 }, r.1)))
            else (if command == 32
                then (sr_handle_rtable l out buf >>= λ r. some (command_reply r))
                else (if command == 128
                    then some (command_reply (sr_handle_auth_request l out buf))
                    else (if command == 512
                        then (sr_handle_auth_status buf >>= λ ok. some (command_reply (l, ok)))
                        else some (l, served))))))

-- A command of fewer than eight bytes is written and read behind its buffer.
unfoldable pub expect_command :
    Outside → Headers → ℕ → ℕ → ℕ → Link → ℕ → List ℕ → Option (Link × Reply)
expect_command out mem ip_ptr fuel now l expected_cmd buf =
    if ltb (length buf) 8
    then none
    else (let command = command_len (drop 4 buf) in
        if not (expected_cmd == 0) && (not (command == expected_cmd) && not (command == 2))
        then some (l, Reply.failed)
        else handle_command out mem ip_ptr fuel now l command buf)

-- How the call ends: it returns, it does not, or it faults.
pub data Ending : Type 0 where
  returns : Link → Reply → List Recv → Ending
  blocks faults : Ending

unfoldable pub ending : List Recv → Option (Link × Reply) → Ending
ending s none = faults
ending s (some (l, r)) = returns l r s

unfoldable pub serve_read : Outside → Headers → ℕ → ℕ → ℕ → Link → ℕ → List Recv → Read → Ending
serve_read out mem ip_ptr fuel now l expected_cmd s waiting = blocks
serve_read out mem ip_ptr fuel now l expected_cmd s error = returns l Reply.failed []
serve_read out mem ip_ptr fuel now l expected_cmd s (complete buf rest) =
    ending rest (expect_command out mem ip_ptr fuel now l expected_cmd buf)

unfoldable pub sr_read_from_server_expect :
    Outside → Headers → ℕ → ℕ → ℕ → Link → ℕ → List Recv → Ending
sr_read_from_server_expect out mem ip_ptr fuel now l expected_cmd s =
    serve_read out mem ip_ptr fuel now l expected_cmd s (read_command s)
