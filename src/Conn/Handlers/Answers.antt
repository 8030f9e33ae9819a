-- ===== src/Conn/Handlers/Answers.antt =====
-- What a client gets for an allocation request.
use light_nvm.Base.{
  take-front, ℕ, ◌-◌, ◌^◌, ◌<◌, ◌≤◌, ◌≡◌, inl, inr, refl, sym, subst, ap, ◌∙◌, arith, List, [], ◌∷◌,
  ◌++◌, length, length-append, Option, none, some, Nat-cases, le→ltb, ==_iff, ==_eq_false, split_at,
}
use light_nvm.Base.Int.{pos, negsuc}
use light_nvm.Base.Partial.{◌>>=◌}
use light_nvm.Wire.Cursor.{at}
use light_nvm.Wire.Codec.{Reads}
use light_nvm.Request.{parsed, request_magic}
use light_nvm.Request.Alloc.{AllocRequest}
use light_nvm.Request.Alloc
use light_nvm.Request.Alloc.RoundTrip.{InRange}
use light_nvm.Vssd.Member.{VirtualUnit, NvmGeo}
use light_nvm.Vssd.Ssd.{VirtualOcssd}
use light_nvm.Vssd.Ssd
use light_nvm.Vssd.RoundTrip.Whole.{IsVssd, vssd_size, Codes-vssd, serialize-overflow}
use light_nvm.Device.Manager.{OcssdManager, alloc_ocssd_resource}
use light_nvm.Device.Manager.Grant.{IsManager, Serves, granted, alloc_ocssd_resource-Serves}
use light_nvm.Device.Manager.History.{Serves-IsVssd}
use light_nvm.Conn.Nvm.{Nvm}
use light_nvm.Conn.Queue.{Bufferq, Writer, push}
use light_nvm.Conn.Queue
use light_nvm.Conn.Queue.Delivery.{IsBuffer, left}
use light_nvm.Conn.Receive.{ReadResult, arrives, joined, Nonempty}
use light_nvm.Conn.Handlers.{
  publish, Conn, Handled, returned, process_command, process_alloc_request, dispatch, answer,
  send_vssd, set_remote,
}
use light_nvm.Conn.Handlers.Headers.{alloc-header}
use light_nvm.Conn.Handlers.Commands.{command-arrives}

-- A buffer from which a client reads the virtual OCSSD, whatever comes behind it.
pub record Carries (q : Bufferq) (v : VirtualOcssd) : Type 0 where
  pub buffer : IsBuffer q
  pub size : length (left q) ≡ vssd_size v
  pub read_back :
      (garbage : NvmGeo) (rest : List ℕ)
      → Ssd.deserialize garbage Ssd.make (at [] (left q ++ rest))
        ≡ some ((v, vssd_size v), at (left q) rest)

abbrev zeros : NvmGeo
zeros = record {
  nchannels = 0;
  nluns = 0;
  nplanes = 0;
  nblocks = 0;
  npages = 0;
  nsectors = 0;
  page_nbytes = 0;
  sector_nbytes = 0;
  meta_nbytes = 0;
}

module _ (v : VirtualOcssd) (w : IsVssd v) where
  abbrev Saved : List ℕ → List ℕ → List ℕ → Type 0
  Saved room rest out =
      (length out ≡ vssd_size v)
      × (Ssd.serialize v (at [] (room ++ rest)) ≡ some (vssd_size v, at out rest))

  -- What is stored does not depend on the reader.
  same_output :
      (room rest out : List ℕ)
      → length room ≡ vssd_size v
      → Saved room rest out
      → (garbage : NvmGeo) → Reads (Ssd.deserialize garbage Ssd.make) (v, vssd_size v) out
  same_output room rest out e s garbage =
      let (out', l, run, reads) = (Codes-vssd v garbage w).writes [] room rest e in
      subst (Reads (Ssd.deserialize garbage Ssd.make) (v, vssd_size v)) (cc (run, s.1)) reads

  carries :
      (out rest : List ℕ)
      → length out ≡ vssd_size v
      → vssd_size v < 2 ^ 63
      → ((garbage : NvmGeo) → Reads (Ssd.deserialize garbage Ssd.make) (v, vssd_size v) out)
      → Carries (record { buf = out ++ rest; len = vssd_size v; offset = 0 }) v
  carries out rest l small reads = record {
    buffer = record {
      within = omega arith;
      filled = omega (arith, length-append out rest, l);
      small = small;
    };
    size = ap length (take-front (vssd_size v - 0) out rest (omega (arith, l))) ∙ l;
    read_back = λ garbage more.
        subst
          (λ bytes.
            Ssd.deserialize garbage Ssd.make (at [] (bytes ++ more))
            ≡ some ((v, vssd_size v), at bytes more))
          (sym (take-front (vssd_size v - 0) out rest (omega (arith, l)))) (reads garbage [] more);
  }

  pub serialize-Carries :
      (buffer : List ℕ)
      → vssd_size v ≤ length buffer
      → vssd_size v < 2 ^ 63
      → (out : List ℕ) × (rest : List ℕ) × (Ssd.serialize v (at [] buffer)
          ≡ some (vssd_size v, at out rest))
        × Carries (record { buf = out ++ rest; len = vssd_size v; offset = 0 }) v
  serialize-Carries buffer le small =
      let (room, rest, e, split) = split_at (vssd_size v) buffer le in
      let (out, l, run, reads) = (Codes-vssd v zeros w).writes [] room rest e in
      (out, rest, rw split run, carries out rest l small (same_output room rest out e (l, run)))

module _ (nvm : Nvm) (malloc : ℕ → Option (List ℕ)) (fuel : ℕ) where
  -- The answer to an allocation of the units `ms`: none, if nothing was granted; the virtual OCSSD, if
  -- its wire format takes no more than 1024 bytes, and the devices are published as they are then; and
  -- else a store behind the end of the buffer.
  pub data Answer (v : VirtualOcssd) (c : Conn nvm malloc) (o : Option (Handled nvm malloc))
      : Type 0 where
    refused : granted v.units ≡ 0 → o ≡ some (returned (negsuc 0) c) → Answer v c o
    sent :
        (q : Bufferq)
        → 0 < granted v.units
        → vssd_size v ≤ 1024
        → o ≡ some (returned (pos 0) (publish nvm malloc (record c { writer = push q c.writer })))
        → Carries q v
        → Answer v c o
    overflow : 0 < granted v.units → 1024 < vssd_size v → o ≡ none → Answer v c o

  has_unit : (us : List VirtualUnit) → 0 < granted us → 0 < length us
  has_unit [] h = absurd (omega arith)
  has_unit (u ∷ us) h = omega arith

  -- `answer` once the buffer is there.
  answer_lem :
      (v : VirtualOcssd) (c : Conn nvm malloc) (room : List ℕ)
      → malloc 1024 ≡ some room
      → 0 < granted v.units
      → 0 < length v.units
      → answer nvm malloc fuel v 0 (granted v.units) c
        ≡ send_vssd nvm malloc (record { buf = room; len = 1024; offset = 0 }) v c
  unfolding answer set_remote Queue.make Ssd.get_num_units
  answer_lem v c room m some_blocks some_units =
      rw (==_eq_false (granted v.units) 0 (omega arith), le→ltb (length v.units) 1 (omega arith), m)
        refl

  answer-Answer :
      (v : VirtualOcssd) (c : Conn nvm malloc) (room : List ℕ)
      → IsVssd v
      → malloc 1024 ≡ some room
      → length room ≡ 1024
      → Answer v c (answer nvm malloc fuel v 0 (granted v.units) c)
  unfolding answer send_vssd
  answer-Answer v c room w m len = elim (Nat-cases 0 (granted v.units)) [
    | inr none_granted ↦
        refused (omega arith) (rw ((==_iff (granted v.units) 0).1 (omega arith)) refl)
    | inl some_granted ↦
        let shown = answer_lem v c room m some_granted (has_unit v.units some_granted) in
        elim (Nat-cases 1024 (vssd_size v)) [
          | inl long ↦
              overflow some_granted long
                (shown ∙ rw (serialize-overflow v room w (omega (arith, len))) refl)
          | inr fits ↦
              let (out, rest, run, carried) =
                serialize-Carries v w room (omega (arith, len)) (omega arith) in
              sent (record { buf = out ++ rest; len = vssd_size v; offset = 0 }) some_granted fits
                (shown ∙ rw run refl) carried
        ]
  ]

  handler-answer :
      (message : List ℕ) (r : AllocRequest) (c : Conn nvm malloc) (m' : OcssdManager)
      (v : VirtualOcssd) (r' : AllocRequest) (n : ℕ)
      → Alloc.of_buffer message ≡ some (parsed r)
      → alloc_ocssd_resource c.manager Ssd.make r ≡ some (m', v, r', n)
      → process_alloc_request nvm malloc fuel message c
        ≡ answer nvm malloc fuel v r'.remote n (record c { manager = m' })
  unfolding process_alloc_request
  handler-answer message r c m' v r' n p run = rw (p, ◌>>=◌, run) refl

  -- A request for channels that are not remote, in whatever chunks its message arrives, on a node that is
  -- well formed: the manager allocates for it, and is well formed afterwards. If a channel was granted and
  -- the wire format of the virtual OCSSD takes at most 1024 bytes, the handler queues a buffer, publishes
  -- the devices and returns 0; from what is sent of the buffer the client's `deserialize` reads exactly the virtual
  -- OCSSD that was allocated. If it takes more, the handler stores behind the end of its buffer, and if
  -- nothing was granted it returns -1.
  pub process_command-alloc :
      (ms : List (List ℕ)) (r : AllocRequest) (reads : List ReadResult) (c : Conn nvm malloc)
      (room : List ℕ)
      → c.message ≡ []
      → Nonempty ms
      → length (joined ms) ≡ 24
      → Alloc.of_buffer (joined ms) ≡ some (parsed r)
      → InRange r
      → r.remote ≡ 0
      → IsManager c.manager
      → malloc 1024 ≡ some room
      → length room ≡ 1024
      → (m' : OcssdManager) × (us : List VirtualUnit) × (o : Option (Handled nvm malloc)) × Serves
          c.manager m' us
        × (process_command nvm malloc fuel (arrives ms reads) c ≡ (o >>= λ h. some (h, reads)))
        × Answer
            (record { id = c.manager.vssd_id; units = us })
            (record c { manager = m'; message = [] })
            o
  unfolding dispatch Ssd.make
  process_command-alloc ms r reads c room e ne len p w local i m size =
      let (m', us, run, le, s) = alloc_ocssd_resource-Serves c.manager Ssd.make r i w in
      let v : VirtualOcssd = record { id = c.manager.vssd_id; units = us } in
      let c' : Conn nvm malloc = record c { manager = m'; message = [] } in
      (
        m',
        us,
        answer nvm malloc fuel v 0 (granted us) c',
        s,
        command-arrives nvm malloc fuel ms reads c request_magic e ne len
              (alloc-header (joined ms) r p)
            ∙ ap (λ o. o >>= λ h. some (h, reads))
                (handler-answer (joined ms) r (record c { message = [] }) m' v _ (granted us) p run
                  ∙ ap (λ (n : ℕ). answer nvm malloc fuel v n (granted us) c') local),
        answer-Answer v c' room (Serves-IsVssd us i s) m size,
      )
