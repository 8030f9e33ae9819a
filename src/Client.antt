-- ===== src/Client.antt =====
-- ocssd_client.cc: the test program that asks a server for channels, and that erases, writes and reads a
-- block of it.
pub mod Stream
pub mod Reading
pub mod Session
pub mod Plain
use light_nvm.Base.{
  ℕ, zero, suc, ◌+◌, ◌-◌, List, [], ◌∷◌, ◌++◌, length, take, drop, replicate, get_elem?, Bool, true,
  false, not, Option, none, some, leb, ltb, ◌==◌, if◌then◌else◌,
}
use light_nvm.Base.Int.{ℤ, pos, is_zero}
use light_nvm.Base.Partial.{◌>>=◌}
use light_nvm.Wire.Cursor.{Cursor, at}
use light_nvm.Request.{read_block_request, write_block_request, erase_block_request}
use light_nvm.Request.Io
use light_nvm.Request.Alloc
use light_nvm.Request.Alloc.{AllocRequest}
use light_nvm.Vssd.Member.{VirtualUnit, NvmGeo}
use light_nvm.Vssd.Ssd.{VirtualOcssd}
use light_nvm.Vssd.Ssd
use light_nvm.Conn.Receive.{ReadResult, received, failed}

abbrev pub buffer_size : ℕ
buffer_size = 1024

-- The connected socket: the bytes that it has taken, how many each further call of `send` takes (none of
-- them if it fails), and what each further call of `recv` gives.
pub record Sock : Type 0 where
  pub sent : List ℕ
  pub sends : List ℕ
  pub recvs : List ReadResult

-- `send(sock, bytes, size, 0)`, whose result the program only prints; `none` is that `sends` says nothing
-- more of the socket.
abbrev pub send : List ℕ → Sock → Option Sock
send bytes s = elim s.sends [
  | [] ↦ none
  | k ∷ ks ↦ some (record s { sent = s.sent ++ take k bytes; sends = ks })
]

-- A buffer after the bytes have been stored at an offset; `none` is a store behind its end.
abbrev pub store_at : ℕ → List ℕ → List ℕ → Option (List ℕ)
store_at offset bytes buffer =
    if leb (offset + length bytes) (length buffer)
    then some (take offset buffer ++ (bytes ++ drop (offset + length bytes) buffer))
    else none

-- `recv(sock, buffer, BUFFER_SIZE, 0)`: the buffer afterwards.
unfoldable pub recv_buffer : List ℕ → Sock → Option (List ℕ × Sock)
recv_buffer buffer s = elim s.recvs [
  | [] ↦ none
  | failed ∷ rest ↦ some (buffer, record s { recvs = rest })
  | received c ∷ rest ↦ do buffer' ← store_at 0 c buffer; some (buffer', record s { recvs = rest })
]

-- `size = request.serialize(buffer); send(sock, buffer, size, 0);`, and the buffer afterwards.
unfoldable pub send_request :
    (Cursor → Option (ℕ × Cursor)) → List ℕ → Sock → Option (List ℕ × Sock)
send_request serialize buffer s = do
  (size, p) ← serialize (at [] buffer)
  s' ← send (take size (p.past ++ p.rest)) s
  some (p.past ++ p.rest, s')

-- The request, the answer in a buffer, and `vssd.deserialize(buffer)`.
unfoldable pub ask : NvmGeo → AllocRequest → Sock → Option (VirtualOcssd × Sock)
unfolding send_request recv_buffer Alloc.serialize Ssd.deserialize Ssd.make
ask garbage request s = do
  (buffer, s') ← send_request (Alloc.serialize request) (replicate buffer_size 0) s
  (buffer', s'') ← recv_buffer buffer s'
  ((vssd, _), _) ← Ssd.deserialize garbage Ssd.make (at [] buffer')
  some (vssd, s'')

-- The unit whose channels and LUNs are printed; `get_unit(0)` of none is undefined behaviour.
unfoldable pub test_local_ocssd : NvmGeo → Sock → Option (VirtualUnit × Sock)
unfolding ask Alloc.make Ssd.get_unit
test_local_ocssd garbage s = do
  (vssd, s') ← ask garbage (Alloc.make 4 1024 1 0 0) s
  vunit ← Ssd.get_unit vssd 0
  some (vunit, s')

-- `buffer` is not initialised.
unfoldable pub test_erase_block : List ℕ → ℕ → Sock → Option Sock
unfolding send_request Io.serialize Io.make
test_erase_block buffer block_idx s = do
  (_, s') ← send_request (Io.serialize (Io.make erase_block_request block_idx 0 0)) buffer s
  some s'

-- `malloc` may give NULL, to which `memset` stores: undefined behaviour.
unfoldable pub test_write_block : (ℕ → Option (List ℕ)) → List ℕ → ℕ → ℕ → Sock → Option Sock
unfolding send_request Io.serialize Io.make
test_write_block malloc buffer block_idx count s = do
  (_, s') ← send_request (Io.serialize (Io.make write_block_request block_idx count 0)) buffer s
  data_buf ← malloc count
  send (replicate (length data_buf) b'a') s'

-- `while ((ret = recv(sock, data_buf + received, count - received, 0)) > 0)`: the buffer, the bytes
-- received and the results that are left.
unfoldable pub recv_loop : ℕ → List ℕ → ℕ → List ReadResult → Option (List ℕ × ℕ × List ReadResult)
recv_loop count data_buf got [] = none
recv_loop count data_buf got (failed ∷ rest) = some (data_buf, got, rest)
recv_loop count data_buf got (received [] ∷ rest) = some (data_buf, got, rest)
recv_loop count data_buf got (received (b ∷ bs) ∷ rest) =
    store_at got (b ∷ bs) data_buf >>= λ data_buf'.
    let got' = got + length (b ∷ bs) in
    let more = recv_loop count data_buf' got' rest in
    if leb count got' then some (data_buf', got', rest) else more

-- The data and how much of it was received. `data_buf[count - 1]` is printed: undefined behaviour where
-- `count` is 0.
unfoldable pub test_read_block :
    (ℕ → Option (List ℕ)) → List ℕ → ℕ → ℕ → ℕ → Sock → Option (List ℕ × ℕ × Sock)
unfolding send_request Io.serialize Io.make recv_loop
test_read_block malloc buffer block_idx count offset s = do
  (_, s') ← send_request (Io.serialize (Io.make read_block_request block_idx count offset)) buffer s
  data_buf ← malloc count
  (data_buf', got, recvs) ← recv_loop count (replicate (length data_buf) b'b') 0 s'.recvs
  if count == 0 then none else some (data_buf', got, record s' { recvs = recvs })

-- The size of the data that `test_remote_ocssd` writes and reads.
abbrev pub test_size : ℕ
test_size = 1048576

-- The data that was read.
unfoldable pub test_remote_ocssd :
    NvmGeo → (ℕ → Option (List ℕ)) → List ℕ → Sock → Option (List ℕ × ℕ × Sock)
unfolding ask Alloc.make test_erase_block test_write_block test_read_block
test_remote_ocssd garbage malloc buffer s = do
  (vssd, s1) ← ask garbage (Alloc.make 4 1024 1 0 1) s
  s2 ← test_erase_block buffer 0 s1
  s3 ← test_write_block malloc buffer 0 test_size s2
  test_read_block malloc buffer 0 test_size 0 s3

-- `main`: `remote` is `atoi` of the second argument, and `connected` says that `connect` succeeded, with
-- the socket `s`. The exit status, and the socket afterwards.
unfoldable pub main :
    NvmGeo → (ℕ → Option (List ℕ)) → List ℕ → ℕ → ℤ → Bool → Sock → Option (ℤ × Sock)
unfolding test_local_ocssd test_remote_ocssd
main garbage malloc buffer argc remote connected s =
    if leb argc 2
    then some (pos 1, s)
    else if not connected
    then some (pos 0, s)
    else if is_zero remote
    then test_local_ocssd garbage s >>= (λ r. some (pos 0, r.1))
    else test_remote_ocssd garbage malloc buffer s >>= (λ r. some (pos 0, r.2))
