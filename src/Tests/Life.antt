-- ===== src/Tests/Life.antt =====
-- A client that sends a message that stands for no request, and then leaves in the middle of another.
use light_nvm.Base.{
  ℕ, ◌<◌, ◌≡◌, ◌^◌, inl, inr, refl, arith, List, [], ◌∷◌, length, replicate, length-replicate,
  Option, none, some, false, ltb, ltb→lt, Bool-cases, if◌then◌else◌, ap, sym, ◌∙◌,
}
use light_nvm.Base.Int.{negsuc}
use light_nvm.Wire.Cursor.{of_bytes, load, cut, deserialize_data4, get_header}
use light_nvm.Conn.Receive.{received, receive}
use light_nvm.Conn.Handlers.{receiving_command, Conn, connect, process_command, dispatch}
use light_nvm.Conn.Handlers.Keeps.{Laws, IsConn}
use light_nvm.Conn.Handlers.Lifetime.{Lives, now, command, connect-IsConn}
use light_nvm.Tests.Conn.{nvm}
use light_nvm.Tests.Devices.{node, node-IsManager}

abbrev pub malloc : ℕ → Option (List ℕ)
malloc n = if ltb n (2 ^ 63) then some (replicate n 205) else none

given : (n : ℕ) (room : List ℕ) → malloc n ≡ some room → (n < 2 ^ 63) × (length room ≡ n)
given n room e = elim (Bool-cases (ltb n (2 ^ 63))) [
  | inl fits ↦
      let same : replicate n 205 ≡ room =
        cc (ap (λ b. if b then some (replicate n 205) else none) (sym fits) ∙ e) in
      (ltb→lt n (2 ^ 63) fits, ap length (sym same) ∙ length-replicate n 205)
  | inr large ↦ absurd (cc (ap (λ b. if b then some (replicate n 205) else none) (sym large) ∙ e))
]

pub laws : Laws nvm malloc
laws = record {
  size = λ n room e. (given n room e).1;
  small = λ n room e. (given n room e).0;
  stores = λ blk n offset d. length-replicate n 0;
}

abbrev left_early : Conn nvm malloc
left_early = record {
  manager = node;
  message = 1 ∷ 101 ∷ [];
  published = [];
  state = receiving_command;
  is_open = false;
  remote_vssd = 0;
  blocks = record { dev = 0; curr_blocks = []; blks_array = []; blk_size = 0; count = 0 };
  writer = record { writeq = []; armed = false; sent = [] };
}

abbrev pub unknown : List ℕ
unknown = 4 ∷ 100 ∷ replicate 22 0

short_life : Lives nvm malloc laws (connect nvm malloc node 0) left_early
unfolding process_command connect receive dispatch get_header deserialize_data4 load cut of_bytes
short_life =
    command (connect nvm malloc node 0) 0 (negsuc 0) (received unknown ∷ []) [] (omega arith, tt)
      refl
      (command left_early 0 (negsuc 0) (received (1 ∷ 101 ∷ []) ∷ received [] ∷ []) []
        (omega arith, (tt, tt)) refl now)

connect-IsConn_example : IsConn nvm malloc laws left_early
connect-IsConn_example = connect-IsConn nvm malloc laws node 0 left_early node-IsManager short_life
