-- ===== src/Conn/Handlers/Keeps.antt =====
-- What each handler leaves of a connection: a well-formed manager and a well-formed write queue.
use light_nvm.Base.{
  true, ◌∷◌, ℕ, ◌^◌, ◌<◌, ◌≡◌, inl, inr, refl, sym, subst, arith, List, [], length, All, Option,
  none, some, ltb, ◌==◌, ◌||◌, Bool-cases, Option-cases, Nat-cases,
}
use light_nvm.Base.Partial.{◌>>=◌}
use light_nvm.Request.{Parsed, parsed, threw}
use light_nvm.Request.Alloc.{AllocRequest}
use light_nvm.Request.Alloc
use light_nvm.Vssd.Ssd.{VirtualOcssd}
use light_nvm.Vssd.Ssd
use light_nvm.Vssd.RoundTrip.Whole.{IsVssd, vssd_size, serialize-overflow}
use light_nvm.Device.Manager.{OcssdManager, alloc_ocssd_resource}
use light_nvm.Vssd.Member.{VirtualUnit}
use light_nvm.Device.Manager.Grant.{IsManager, Serves, granted, alloc_ocssd_resource-Serves}
use light_nvm.Device.Manager.History.{Serves-IsVssd}
use light_nvm.Conn.Nvm.{Nvm}
use light_nvm.Conn.Blocks.{Blocks}
use light_nvm.Conn.Queue.{Bufferq, WriteResult, Writer, push, on_write}
use light_nvm.Conn.Queue
use light_nvm.Conn.Queue.Delivery.{IsWriter}
use light_nvm.Conn.Queue.Runs.{push-IsWriter}
use light_nvm.Conn.Receive.{ReadResult}
use light_nvm.Conn.Handlers.{
  publish, Conn, Handled, returned, raised, initialize_remote_vssd, set_remote, send_vssd, answer,
  process_alloc_request, and_reads,
}
use light_nvm.Conn.Handlers.Bytes.{IsByte, of_buffer-InRange}
use light_nvm.Conn.Handlers.Answers.{serialize-Carries}
use light_nvm.Conn.Handlers.Grants.{Grants, no_grant, refused, answered, given}

-- What is documented of `malloc`: a block has the size that was asked for, which is below 2 ^ 63; and of
-- `nvm_vblk_pread`: it stores into the buffer that it is handed.
pub record Laws (nvm : Nvm) (malloc : ℕ → Option (List ℕ)) : Type 0 where
  pub size : (n : ℕ) (room : List ℕ) → malloc n ≡ some room → length room ≡ n
  pub small : (n : ℕ) (room : List ℕ) → malloc n ≡ some room → n < 2 ^ 63
  pub stores :
      (blk : nvm.Vblk) (n offset : ℕ) (d : nvm.Device)
      → length (nvm.vblk_pread blk n offset d).1 ≡ n

module _ (nvm : Nvm) (malloc : ℕ → Option (List ℕ)) (laws : Laws nvm malloc) where
  open nvm use {vblk_pread}

  -- The manager and the write queue are well formed, and the message buffer holds bytes.
  pub record IsConn (c : Conn nvm malloc) : Type 0 where
    pub manager : IsManager c.manager
    pub writer : IsWriter c.writer
    pub message : All IsByte c.message

  -- A connection after a command, before which the manager and the write queue were these.
  pub record Kept (m : OcssdManager) (w : Writer) (c : Conn nvm malloc) : Type 0 where
    pub conn : IsConn c
    pub grants : (vs : List VirtualOcssd) × Grants m c.manager w c.writer vs

  -- What a handler leaves; undefined behaviour and an exception leave no connection.
  abbrev pub Keeps : OcssdManager → Writer → Option (Handled nvm malloc) → Type 0
  Keeps m w none = Unit
  Keeps m w (some raised) = Unit
  Keeps m w (some (returned n c)) = Kept m w c

  -- A command that leaves the manager as it is.
  pub quiet : (c : Conn nvm malloc) → IsConn c → {w : Writer} → Kept c.manager w c
  quiet c i = record { conn = i; grants = ([], no_grant refl) }

  send-Keeps :
      (m : OcssdManager) (us : List VirtualUnit) (room : List ℕ) (c : Conn nvm malloc)
      → IsVssd (given m us)
      → Serves m c.manager us
      → length room ≡ 1024
      → IsConn c
      → Keeps m c.writer
          (send_vssd nvm malloc (record { buf = room; len = 1024; offset = 0 }) (given m us) c)
  unfolding send_vssd publish
  send-Keeps m us room c v s len i = elim (Nat-cases 1024 (vssd_size (given m us))) [
    | inl long ↦ rw (serialize-overflow (given m us) room v (omega (arith, len))) tt
    | inr fits ↦
        let (out, rest, run, carried) =
          serialize-Carries (given m us) v room (omega (arith, len)) (omega arith) in
        rw run (record {
          conn = record {
            manager = i.manager;
            writer = push-IsWriter c.writer _ i.writer carried.buffer;
            message = i.message;
          };
          grants = (given m us ∷ [], answered us _ s carried refl);
        })
  ]

  -- Making the virtual blocks changes neither of the two.
  abbrev Same : Conn nvm malloc → Option (Parsed (Conn nvm malloc)) → Type 0
  Same c none = Unit
  Same c (some threw) = Unit
  Same c (some (parsed c')) =
      (c'.manager ≡ c.manager) × (c'.writer ≡ c.writer) × (c'.message ≡ c.message)

  set_remote-Same :
      (fuel remote : ℕ) (v : VirtualOcssd) (c : Conn nvm malloc)
      → Same c (set_remote nvm malloc fuel remote v c)
  unfolding set_remote
  set_remote-Same fuel remote v c = elim (Bool-cases (remote == 0)) [
    | inl local ↦ rw local (refl, refl, refl)
    | inr far ↦ rw far (go (initialize_remote_vssd nvm malloc fuel v c.blocks))
  ]
    where
      go :
          (o : Option (Parsed (Blocks nvm)))
          → Same c (
              o >>= λ p. elim p [
                | threw ↦ some threw
                | parsed b ↦ some (parsed (record c { remote_vssd = 1; blocks = b }))
              ])
      go none = tt
      go (some threw) = tt
      go (some (parsed b)) = (refl, refl, refl)

  Same-IsConn :
      (c c' : Conn nvm malloc)
      → IsConn c
      → (c'.manager ≡ c.manager) × (c'.writer ≡ c.writer) × (c'.message ≡ c.message)
      → IsConn c'
  Same-IsConn c c' i s = record {
    manager = subst IsManager (sym s.0) i.manager;
    writer = subst IsWriter (sym s.1) i.writer;
    message = subst (All IsByte) (sym s.2) i.message;
  }

  answer-Keeps :
      (fuel remote : ℕ) (m : OcssdManager) (us : List VirtualUnit) (c : Conn nvm malloc)
      → IsVssd (given m us)
      → Serves m c.manager us
      → IsConn c
      → Keeps m c.writer (answer nvm malloc fuel (given m us) remote (granted us) c)
  unfolding answer Queue.make
  answer-Keeps fuel remote m us c v s i =
      elim (Bool-cases ((granted us == 0) || ltb (length us) 1)) [
        | inl none_granted ↦ rw none_granted (record {
          conn = i;
          grants = (given m us ∷ [], refused us s (no_channel us none_granted) refl);
        })
        | inr some_granted ↦ elim (Option-cases (malloc 1024)) [
          | inl null ↦ rw (some_granted, null) tt
          | inr (room, e) ↦
              rw (some_granted, e)
                (go room (laws.size 1024 room e) (set_remote nvm malloc fuel remote (given m us) c)
                  (set_remote-Same fuel remote (given m us) c))
        ]
      ]
    where
      no_channel :
          (ms : List VirtualUnit) → ((granted ms == 0) || ltb (length ms) 1) ≡ true → granted ms ≡ 0
      no_channel [] h = refl
      no_channel (x ∷ xs) h = ground arith

      go :
          (room : List ℕ)
          → length room ≡ 1024
          → (o : Option (Parsed (Conn nvm malloc))) → Same c o
          → Keeps m c.writer (
              o >>= λ p. elim p [
                | threw ↦ some raised
                | parsed c' ↦
                    send_vssd nvm malloc
                      (record { buf = room; len = 1024; offset = 0 })
                      (given m us)
                      c'
              ])
      go room len none h = tt
      go room len (some threw) h = tt
      go room len (some (parsed c')) h =
          subst
            (λ w. Keeps m w (
              send_vssd nvm malloc (record { buf = room; len = 1024; offset = 0 }) (given m us) c'))
            h.1
            (send-Keeps m us room c' v (subst (λ m'. Serves m m' us) (sym h.0) s) len
              (Same-IsConn c c' i h))

  pub alloc-Keeps :
      (fuel : ℕ) (message : List ℕ) (c : Conn nvm malloc)
      → All IsByte message
      → IsConn c
      → Keeps c.manager c.writer (process_alloc_request nvm malloc fuel message c)
  unfolding process_alloc_request Ssd.make
  alloc-Keeps fuel message c bytes i = go (Alloc.of_buffer message) refl
    where
      go :
          (o : Option (Parsed AllocRequest))
          → Alloc.of_buffer message ≡ o
          → Keeps c.manager c.writer (
              o >>= λ p. elim p [
                | threw ↦ some raised
                | parsed request ↦
                    alloc_ocssd_resource c.manager Ssd.make request >>= λ (m, vssd, request', ret).
                    answer nvm malloc fuel vssd request'.remote ret (record c { manager = m })
              ])
      go none e = tt
      go (some threw) e = tt
      go (some (parsed r)) e =
          let (m', us, run, le, s) =
            alloc_ocssd_resource-Serves c.manager Ssd.make r i.manager
              (of_buffer-InRange message r bytes e) in
          rw run (
            answer-Keeps fuel r.remote c.manager us (record c { manager = m' })
              (Serves-IsVssd us i.manager s) s
              (record { manager = s.manager; writer = i.writer; message = i.message }))

  -- The same of a handler that reads from the socket.
  abbrev pub KeepsToo :
      OcssdManager → Writer → Option (Handled nvm malloc × List ReadResult) → Type 0
  KeepsToo m w none = Unit
  KeepsToo m w (some (h, reads)) = Keeps m w (some h)

  pub and_reads-Keeps :
      (m : OcssdManager) (w : Writer) (reads : List ReadResult) (o : Option (Handled nvm malloc))
      → Keeps m w o
      → KeepsToo m w (and_reads nvm malloc reads o)
  and_reads-Keeps m w reads none k = tt
  and_reads-Keeps m w reads (some h) k = k
