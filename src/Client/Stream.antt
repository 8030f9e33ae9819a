-- ===== src/Client/Stream.antt =====
-- What the client puts on the socket, and what it finds in its buffer.
use light_nvm.Base.{
  le→leb, ℕ, ◌+◌, ◌≤◌, ◌≡◌, refl, ap, ◌∙◌, arith, List, [], ◌∷◌, ◌++◌, length, length-append, drop,
  take-all, take-front, split_at, some,
}
use light_nvm.Base.Partial.{◌>>=◌}
use light_nvm.Wire.Cursor.{M, at}
use light_nvm.Wire.Codec.{Codes, Reads}
use light_nvm.Client.{Sock, send_request, recv_buffer}
use light_nvm.Conn.Receive.{ReadResult, received}

-- A request that is sent: what the socket takes is what a server reads back.
pub record Sends {ℓ} {B : Type ℓ} (w : M ℕ) (r : M B) (b : B) (n : ℕ) (buffer : List ℕ) (s : Sock)
    (ks : List ℕ) : Type ℓ where
  pub out : List ℕ
  pub after : List ℕ
  pub len : length out ≡ n
  pub run : send_request w buffer s ≡ some (after, record s { sent = s.sent ++ out; sends = ks })
  pub same_size : length after ≡ length buffer
  pub read_back : Reads r b out

stored-sent :
    (w : M ℕ) (room back out : List ℕ) (n k : ℕ) (ks : List ℕ) (s : Sock)
    → w (at [] (room ++ back)) ≡ some (n, at out back)
    → length out ≡ n
    → s.sends ≡ k ∷ ks
    → n ≤ k
    → send_request w (room ++ back) s
      ≡ some (out ++ back, record s { sent = s.sent ++ out; sends = ks })
unfolding send_request
stored-sent w room back out n k ks s run l e le =
    rw (run, e, ◌>>=◌, take-front n out back l, take-all k out (omega (arith, l))) refl

pub send_request-Sends {ℓ} :
    {B : Type ℓ} {w : M ℕ} {r : M B} {b : B} {n : ℕ}
    → Codes w n r b n
    → (buffer : List ℕ) (s : Sock) (k : ℕ) (ks : List ℕ) → n ≤ length buffer
    → s.sends ≡ k ∷ ks
    → n ≤ k
    → Sends w r b n buffer s ks
send_request-Sends {w} {n} c buffer s k ks room e le =
    let (front, back, len, split) = split_at n buffer room in
    let (out, l, run, reads) = c.writes [] front back len in
    record {
      out = out;
      after = out ++ back;
      len = l;
      run = ap (λ b. send_request w b s) split ∙ stored-sent w front back out n k ks s run l e le;
      same_size =
          omega (arith, ap length split, length-append front back, length-append out back, l, len);
      read_back = reads;
    }

-- What is received into the buffer stands at its start.
pub recv_buffer-front :
    (buffer answer : List ℕ) (s : Sock) (rest : List ReadResult)
    → length answer ≤ length buffer
    → s.recvs ≡ received answer ∷ rest
    → recv_buffer buffer s ≡ some (answer ++ drop (length answer) buffer, record s { recvs = rest })
unfolding recv_buffer
recv_buffer-front buffer answer s rest le e =
    rw (e, le→leb (0 + length answer) (length buffer) (omega arith), ◌>>=◌)
      (ap (λ n. some (answer ++ drop n buffer, record s { recvs = rest })) (omega arith))
