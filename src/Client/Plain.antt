-- ===== src/Client/Plain.antt =====
-- client.cc: a program that sends a buffer of 'a' and reads once.
use light_nvm.Base.{ℕ, List, Bool, not, Option, some, leb, if◌then◌else◌, replicate}
use light_nvm.Base.Int.{ℤ, pos}
use light_nvm.Base.Partial.{◌>>=◌}
use light_nvm.Client.{Sock, buffer_size, send, recv_buffer}

-- `main`: `connected` says that `connect` succeeded, with the socket `s`; `buf2` is not initialised. The exit
-- status, and the socket afterwards.
unfoldable pub plain_main : List ℕ → ℕ → Bool → Sock → Option (ℤ × Sock)
unfolding recv_buffer
plain_main buf2 argc connected s =
    if leb argc 2 then some (pos 1, s) else if not connected then some (pos 0, s) else (do
      s' ← send (replicate buffer_size b'a') s
      (_, s'') ← recv_buffer buf2 s'
      some (pos 0, s''))
