-- ===== src/Server/Events.antt =====
-- What happens to a server: the events of all clients in any order, and what they queue for the clients.
use light_nvm.Base.{
  ℕ, ◌≡◌, refl, sym, ap, subst, ◌∙◌, List, [], ◌∷◌, length, drop, get_elem?, drop-front, drop-all,
  All, Option, none, some, true,
}
use light_nvm.Vssd.Ssd.{VirtualOcssd}
use light_nvm.Device.Manager.{OcssdManager}
use light_nvm.Device.Manager.Grant.{IsManager, granted}
use light_nvm.Device.Manager.History.{Served, Serves-Served}
use light_nvm.Conn.Nvm.{Nvm}
use light_nvm.Conn.Queue.{Bufferq, Writer, push}
use light_nvm.Conn.Queue.Delivery.{Allowed, IsWriter, left}
use light_nvm.Conn.Handlers.{Conn}
use light_nvm.Conn.Handlers.Answers.{Carries}
use light_nvm.Conn.Handlers.Bytes.{IsByte, IsBytes}
use light_nvm.Conn.Handlers.Grants.{given, Grants, no_grant, refused, answered}
use light_nvm.Conn.Handlers.Keeps.{Laws}
use light_nvm.Server.{Server, Event, accept_ready, read_ready, write_ready, running, react}

module _ (nvm : Nvm) (malloc : ℕ → Option (List ℕ)) (laws : Laws nvm malloc) where
  abbrev pub IsClient : Conn nvm malloc → Type 0
  IsClient c = IsWriter c.writer × All IsByte c.message

  pub record IsServer (s : Server nvm malloc) : Type 0 where
    pub manager : IsManager s.manager
    pub clients : All IsClient s.clients

  -- When libevent may report an event: a socket is read from while it is open, bytes are read, and a
  -- buffer is written while the event is added, of which no more is written than it holds.
  abbrev pub Fires : Event nvm malloc → Server nvm malloc → Type 0
  Fires (accept_ready client_fd) s = Unit
  Fires (read_ready fuel i reads) s =
      (c : Conn nvm malloc) × (get_elem? s.clients i ≡ some c)
      × (c.is_open ≡ true)
      × All IsBytes reads
  Fires (write_ready i result) s =
      (c : Conn nvm malloc) × (q : Bufferq) × (qs : List Bufferq) × (get_elem? s.clients i ≡ some c)
      × (c.writer.armed ≡ true)
      × (c.writer.writeq ≡ q ∷ qs)
      × Allowed result (left q)

  -- What is on the queue of a client behind what was there before.
  abbrev pub new_buffers : Option (Conn nvm malloc) → Option (Conn nvm malloc) → List Bufferq
  new_buffers (some c) (some c') = drop (length c.writer.writeq) c'.writer.writeq
  new_buffers (some c) none = []
  new_buffers none c' = []

  -- What an event has queued for the client that it is reported for.
  abbrev pub queued : Event nvm malloc → Server nvm malloc → Server nvm malloc → List Bufferq
  queued (accept_ready client_fd) s s' = []
  queued (read_ready fuel i reads) s s' =
      new_buffers (get_elem? s.clients i) (get_elem? s'.clients i)
  queued (write_ready i result) s s' = []

  -- The events of a run, with what each has queued.
  pub data Serving : Server nvm malloc → List (List Bufferq) → Server nvm malloc → Type 0 where
    stopped : {s : Server nvm malloc} → Serving s [] s
    event :
        {s s' : Server nvm malloc} {bs : List (List Bufferq)} (e : Event nvm malloc)
        (s1 : Server nvm malloc)
        → Fires e s
        → react nvm malloc e s ≡ some (running s1)
        → Serving s1 bs s'
        → Serving s (queued e s s1 ∷ bs) s'

-- The virtual OCSSDs that are given out in a run, each with the event that tells a client of it: the event
-- queues one buffer, from which the client reads that virtual OCSSD, or none if it has no channel.
pub data Tells : List (List Bufferq) → List VirtualOcssd → Type 0 where
  finished : Tells [] []
  unasked :
      {bs : List (List Bufferq)} {vs : List VirtualOcssd} (b : List Bufferq)
      → Tells bs vs
      → Tells (b ∷ bs) vs
  empty :
      {bs : List (List Bufferq)} {vs : List VirtualOcssd} (v : VirtualOcssd)
      → granted v.units ≡ 0
      → Tells bs vs
      → Tells ([] ∷ bs) (v ∷ vs)
  told :
      {bs : List (List Bufferq)} {vs : List VirtualOcssd} (q : Bufferq) (v : VirtualOcssd)
      → Carries q v
      → Tells bs vs
      → Tells ((q ∷ []) ∷ bs) (v ∷ vs)

pub Tells-grants :
    {m m' m'' : OcssdManager} {w w' : Writer} {vs ws : List VirtualOcssd} {bs : List (List Bufferq)}
    → IsManager m
    → Grants m m' w w' vs
    → Served m' m'' ws
    → Tells bs ws
    → (us : List VirtualOcssd) × Served m m'' us × Tells (drop (length w.writeq) w'.writeq ∷ bs) us
unfolding push
Tells-grants {m'' = m''} {ws = ws} i (no_grant e) t h =
    (ws, subst (λ m. Served m m'' ws) e t, unasked _ h)
Tells-grants {m = m} {w = w} {ws = ws} {bs = bs} i (refused us s z e) t h = (
  _,
  Serves-Served us i s t,
  subst (λ b. Tells (b ∷ bs) (given m us ∷ ws))
      (sym (ap (λ x. drop (length w.writeq) x.writeq) e ∙ drop-all w.writeq))
      (empty (given m us) z h),
)
Tells-grants {m = m} {w = w} {ws = ws} {bs = bs} i (answered us q s carried e) t h = (
  _,
  Serves-Served us i s t,
  subst (λ b. Tells (b ∷ bs) (given m us ∷ ws))
      (sym (
        ap (λ x. drop (length w.writeq) x.writeq) e
        ∙ drop-front (length w.writeq) w.writeq (q ∷ []) refl))
      (told q (given m us) carried h),
)
