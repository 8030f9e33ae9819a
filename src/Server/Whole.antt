-- ===== src/Server/Whole.antt =====
-- The server from its start on.
use light_nvm.Base.{ℕ, ◌≡◌, ◌↔◌, inl, inr, List, All, Any, Bool, Option, some}
use light_nvm.Base.Int.{ℤ}
use light_nvm.Vssd.Member.{NvmGeo}
use light_nvm.Vssd.Ssd.{VirtualOcssd}
use light_nvm.Vssd.RoundTrip.Whole.{IsVssd}
use light_nvm.Device.Manager.{OcssdManager}
use light_nvm.Device.Manager.Ledger.{UsedOn, OwnedOn}
use light_nvm.Device.Manager.History.{Apart}
use light_nvm.Conn.Nvm.{Nvm}
use light_nvm.Conn.Queue.{Bufferq}
use light_nvm.Conn.Handlers.Keeps.{Laws}
use light_nvm.Server.{Interface, Server, started, device_path, ready, Listening, main}
use light_nvm.Conn.Publish.{Entity}
use light_nvm.Server.Start.{Fits, main-IsNew}
use light_nvm.Server.Events.{Serving, Tells}
use light_nvm.Server.Runs.{Serving-Served}

-- What the clients of a server have been given: a block is in use if and only if it belongs to one
-- of the virtual OCSSDs, and no block belongs to two of them.
pub record Shares (m : OcssdManager) (vs : List VirtualOcssd) : Type 0 where
  pub well_formed : All IsVssd vs
  pub apart : Apart vs
  pub used :
      (name : List ℕ) (ch lun b : ℕ)
      → UsedOn m.ocssds name ch lun b ↔ Any (λ v. OwnedOn v.units name ch lun b) vs

module _ (nvm : Nvm) (malloc : ℕ → Option (List ℕ)) (laws : Laws nvm malloc)
    (exists : List ℕ → Bool) (opened : List ℕ → Option NvmGeo) (interfaces : List Interface)
    (fits : (geo : NvmGeo) → opened (device_path 1) ≡ some geo → Fits geo) where
  -- A server that has started, on a device whose sizes fit their types if there is one, shares it,
  -- where `malloc` and `nvm_vblk_pread` do what is documented of them: after any events of any
  -- clients, as long as the handlers return, no block belongs to two of the virtual OCSSDs that it
  -- has given out; a block is in use if and only if it belongs to one of them; and each that has a
  -- channel was queued for the client that asked for it, who reads it from the buffer.
  pub main-Shares :
      (nonblock : ℤ → ℤ) (base_given : Bool) (l : Listening) (m : OcssdManager)
      (published : List Entity) (d : nvm.Device) (s : Server nvm malloc) (bs : List (List Bufferq))
      → main nonblock base_given exists opened interfaces l ≡ ready m published
      → Serving nvm malloc laws (started nvm malloc m d) bs s
      → (vs : List VirtualOcssd) × Tells bs vs × Shares s.manager vs
  main-Shares nonblock base_given l m published d s bs run serving =
      let (new, listed) =
        main-IsNew exists opened interfaces fits nonblock base_given l m published run in
      let (vs, h, t, i) =
        Serving-Served nvm malloc laws (record { manager = new.manager; clients = tt }) serving in
      (
        vs,
        h,
        record {
          well_formed = t.well_formed;
          apart = t.apart;
          used = λ name ch lun b. (
            λ u. elim ((t.used name ch lun b).0 u) [
              | inl old ↦ absurd (new.unused name ch lun b old)
              | inr owned ↦ owned
            ],
            λ o. (t.used name ch lun b).1 (inr o),
          );
        },
      )
