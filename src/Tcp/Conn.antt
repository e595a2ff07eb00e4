-- ===== src/Tcp/Conn.antt =====
-- The connections of cs144/tcp/rlib.c, as far as reliable.c uses them. What the system calls `read`,
-- `write` and `sendto` do is a script of their results; past its end a call has no data, takes
-- nothing, or sends. A failed `assert` is `none`. The poll masks are
-- in Tcp/Conn/Poll.
pub mod Stream
pub mod Healthy
pub mod Poll
use stanford.Prelude.{
  ℕ, zero, suc, ◌+◌, ◌-◌, Bool, true, false, not, ◌&&◌, ◌||◌, Option, none, some, List, [], ◌∷◌,
  ◌++◌, ◌==◌, ltb, leb, if◌then◌else◌, take, drop, length,
}

-- `got []` is the end of the file; `blocked` is EAGAIN.
pub data OsRead : Type 0 where
  got : List ℕ → OsRead
  blocked failed : OsRead

pub data OsWrite : Type 0 where
  wrote : ℕ → OsWrite
  blocked failed : OsWrite

-- `dropped` is a packet that `conn_sendpkt` drops on purpose: it still returns the length.
pub data OsSend : Type 0 where
  sent dropped failed : OsSend

-- An `int` that is a count or -1.
pub data Ret : Type 0 where
  ret : ℕ → Ret
  minus_one : Ret

-- `chunk_t`; its `size` is the length of `buf`.
pub record Chunk : Type 0 where
  pub used : ℕ
  pub buf : List ℕ

-- `conn_t`, with what its descriptors did: the bytes that `write` took, whether `shutdown` was
-- called, and the packets that were sent.
pub record Conn : Type 0 where
  pub read_eof : Bool
  pub write_eof : Bool
  pub write_err : ℕ
  pub xoff : Bool
  pub delete_me : Bool
  pub outq : List Chunk
  pub reads : List OsRead
  pub writes : List OsWrite
  pub sends : List OsSend
  pub written : List ℕ
  pub is_shut : Bool
  pub network : List (List ℕ)

abbrev pub bufsize : ℕ
bufsize = 8192

abbrev pub queued : List Chunk → ℕ
queued [] = 0
queued (ch ∷ chs) = (length ch.buf - ch.used) + queued chs

unfoldable pub conn_bufspace : Conn → ℕ
conn_bufspace c = let used = queued c.outq in if ltb bufsize used then 0 else bufsize - used

abbrev pub is_nil : List Chunk → Bool
is_nil [] = true
is_nil (ch ∷ chs) = false

-- The result of `write(fd, buf, n)` at the head of the script, and what is left of the script.
unfoldable pub os_write : List OsWrite → OsWrite × List OsWrite
os_write [] = (OsWrite.blocked, [])
os_write (w ∷ ws) = (w, ws)

unfoldable pub append_chunk : Conn → List ℕ → Conn
append_chunk c [] = c
append_chunk c (b ∷ bs) = record c { outq = c.outq ++ (record { used = 0; buf = b ∷ bs } ∷ []) }

-- The direct write when nothing is queued. `none` is an error other than EAGAIN.
unfoldable pub write_now : Conn → List ℕ → OsWrite × List OsWrite → Option (Conn × List ℕ)
write_now c buf (OsWrite.wrote k, ws) =
    some (record c { writes = ws; written = c.written ++ take k buf }, drop k buf)
write_now c buf (OsWrite.blocked, ws) = some (record c { writes = ws }, buf)
write_now c buf (OsWrite.failed, ws) = none

unfoldable pub output_bytes : Conn → List ℕ → Conn × Ret
output_bytes c buf =
    if is_nil c.outq
    then elim (write_now c buf (os_write c.writes)) [
      | none ↦ (record c { writes = (os_write c.writes).1; write_err = 2 }, minus_one)
      | some (c', left) ↦ (append_chunk c' left, ret (length buf))
    ]
    else (append_chunk c buf, ret (length buf))

unfoldable pub conn_output : Conn → List ℕ → Option (Conn × Ret)
conn_output c buf =
    if c.delete_me || c.write_eof
    then none
    else (if length buf == 0
        then some (record c { write_eof = true; is_shut = c.is_shut || is_nil c.outq }, ret 0)
        else (if not (c.write_err == 0)
            then some (record c { write_err = 2 }, minus_one)
            else (if conn_bufspace c == 0 then some (c, ret 0) else some (output_bytes c buf))))

unfoldable pub os_read : List OsRead → OsRead × List OsRead
os_read [] = (OsRead.blocked, [])
os_read (r ∷ rs) = (r, rs)

-- The bytes that were read come with the count.
unfoldable pub take_input : Conn → ℕ → OsRead × List OsRead → Conn × Ret × List ℕ
take_input c n (OsRead.got [], rs) = (record c { reads = rs; read_eof = true }, minus_one, [])
take_input c n (OsRead.got (b ∷ bs), rs) =
    let buf = take n (b ∷ bs) in (record c { reads = rs; xoff = false }, ret (length buf), buf)
take_input c n (OsRead.blocked, rs) = (record c { reads = rs; xoff = false }, ret 0, [])
take_input c n (OsRead.failed, rs) = (record c { reads = rs; read_eof = true }, minus_one, [])

unfoldable pub conn_input : Conn → ℕ → Option (Conn × Ret × List ℕ)
unfolding take_input os_read
conn_input c n =
    if c.delete_me
    then none
    else (if c.read_eof then some (c, minus_one, []) else some (take_input c n (os_read c.reads)))

unfoldable pub os_send : List OsSend → OsSend × List OsSend
os_send [] = (sent, [])
os_send (s ∷ ss) = (s, ss)

unfoldable pub send_wire : Conn → List ℕ → OsSend × List OsSend → Conn × Ret
send_wire c wire (sent, ss) =
    (record c { sends = ss; network = c.network ++ (wire ∷ []) }, ret (length wire))
send_wire c wire (dropped, ss) = (record c { sends = ss }, ret (length wire))
send_wire c wire (OsSend.failed, ss) = (record c { sends = ss }, minus_one)

-- `wire` is the first `len` bytes of the packet.
unfoldable pub conn_sendpkt : Conn → List ℕ → Option (Conn × Ret)
unfolding send_wire os_send
conn_sendpkt c wire = if c.delete_me then none else some (send_wire c wire (os_send c.sends))

unfoldable pub conn_destroy : Conn → Conn
conn_destroy c = record c { delete_me = true }

-- The loop of `conn_drain`: what is left of the queue, the connection without it, and `didsome`.
unfoldable pub drain_chunk :
    Conn
    → Chunk
    → OsWrite × List OsWrite
    → (Conn → Bool → List Chunk × Conn × Bool)
    → Bool
    → List Chunk
    → List Chunk × Conn × Bool
drain_chunk c ch (OsWrite.failed, ws) next did rest =
    (ch ∷ rest, record c { writes = ws; write_err = 1 }, did)
drain_chunk c ch (OsWrite.blocked, ws) next did rest = (ch ∷ rest, record c { writes = ws }, did)
drain_chunk c ch (OsWrite.wrote k, ws) next did rest =
    let out = take k (drop ch.used ch.buf) in
    let ch' : Chunk = record ch { used = ch.used + length out } in
    let c' : Conn = record c { writes = ws; written = c.written ++ out } in
    if ltb ch'.used (length ch.buf) then (ch' ∷ rest, c', true) else next c' true

unfoldable pub drain_queue : List Chunk → Conn → Bool → List Chunk × Conn × Bool
unfolding os_write
drain_queue [] c did = ([], c, did)
drain_queue (ch ∷ rest) c did =
    drain_chunk c ch (os_write c.writes) (λ c' did'. drain_queue rest c' did') did rest

-- The flag says that the caller goes on to `rel_output`.
unfoldable pub conn_drain : Conn → Conn × Bool
conn_drain c =
    if not (c.write_err == 0)
    then (c, false)
    else (let (left, c', did) = drain_queue c.outq c false in
        let done : Conn = record c' { outq = left } in
        if done.write_eof && (done.write_err == 0 && is_nil left)
        then (record done { write_err = 1; is_shut = true }, did && not done.delete_me)
        else (done, did && not done.delete_me))
