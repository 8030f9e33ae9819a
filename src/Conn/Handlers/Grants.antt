-- ===== src/Conn/Handlers/Grants.antt =====
-- What a command of a client does to the manager that all connections share, and what it queues for the
-- client.
use light_nvm.Base.{◌≡◌, List, [], ◌∷◌}
use light_nvm.Vssd.Member.{VirtualUnit}
use light_nvm.Vssd.Ssd.{VirtualOcssd}
use light_nvm.Device.Manager.{OcssdManager}
use light_nvm.Device.Manager.Grant.{Serves, granted}
use light_nvm.Conn.Queue.{Bufferq, Writer, push}
use light_nvm.Conn.Handlers.Answers.{Carries}

-- The virtual OCSSD of these units that a manager gives out.
abbrev pub given : OcssdManager → List VirtualUnit → VirtualOcssd
given m us = record { id = m.vssd_id; units = us }

-- The manager and the write queue of the client before and after a command, and the virtual OCSSDs that
-- the command has given out: none, or one, which the client is told of in a buffer on its queue if a
-- channel is in it.
pub data Grants (m m' : OcssdManager) (w w' : Writer) : List VirtualOcssd → Type 0 where
  no_grant : m' ≡ m → Grants m m' w w' []
  refused :
      (us : List VirtualUnit)
      → Serves m m' us
      → granted us ≡ 0
      → w' ≡ w
      → Grants m m' w w' (given m us ∷ [])
  answered :
      (us : List VirtualUnit) (q : Bufferq)
      → Serves m m' us
      → Carries q (given m us)
      → w' ≡ push q w
      → Grants m m' w w' (given m us ∷ [])
