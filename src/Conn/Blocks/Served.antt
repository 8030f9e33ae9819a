-- ===== src/Conn/Blocks/Served.antt =====
-- The virtual blocks that the server makes for a client are of the channels that the manager granted it.
use light_nvm.Base.{
  length, ℕ, ◌^◌, ◌<◌, ◌≡◌, ◌≢◌, inl, inr, refl, sym, subst, List, [], ◌∷◌, All, All-map, Any, none,
  some,
}
use light_nvm.Vssd.Member.{VirtualUnit, NvmGeo}
use light_nvm.Device.Channel.Virtual.{IsGranted}
use light_nvm.Device.Drive.Moves.{OwnedAt}
use light_nvm.Device.Manager.{OcssdManager}
use light_nvm.Device.Manager.Ledger.{UsedOn, OwnedOn, Hands-fresh, Hands-IsGranted}
use light_nvm.Device.Manager.Grant.{IsManager, Serves}
use light_nvm.Conn.Nvm.{Nvm, AllocLaw}
use light_nvm.Conn.Addresses.{NvmAddr}
use light_nvm.Conn.Addresses.Stripes.{runs}
use light_nvm.Conn.Blocks.{Blocks, initialize_vssd_blocks}
use light_nvm.Conn.Blocks.Picks.{Kept, longest, initialize_vssd_blocks-Kept}

member_of :
    (P : VirtualUnit → Type 0) (u : VirtualUnit) (us : List VirtualUnit)
    → Any (λ x. x ≡ u) us
    → All P us
    → P u
member_of P u [] m h = elim m [ ]
member_of P u (x ∷ us) (inl e) h = subst P e h.0
member_of P u (x ∷ us) (inr m) h = member_of P u us m h.1

owned_of :
    (u : VirtualUnit) (us : List VirtualUnit) (ch lun b : ℕ)
    → Any (λ x. x ≡ u) us
    → OwnedAt u.channels ch lun b
    → OwnedOn us u.dev_name ch lun b
owned_of u [] ch lun b m o = elim m [ ]
owned_of u (x ∷ us) ch lun b (inl e) o =
    inl (subst (λ y. (y.dev_name ≡ u.dev_name) × OwnedAt y.channels ch lun b) (sym e) (refl, o))
owned_of u (x ∷ us) ch lun b (inr m) o = inr (owned_of u us ch lun b m o)

-- A block of the device `name` that the units own, and that was not in use on the node `m`.
abbrev pub NewOn : OcssdManager → List VirtualUnit → List ℕ → NvmAddr → Type 0
NewOn m us name a = OwnedOn us name a.ch a.lun a.blk × (¬ UsedOn m.ocssds name a.ch a.lun a.blk)

module _ (nvm : Nvm) (law : AllocLaw nvm) where
  open nvm use {Vblk, Device, vblk_alloc}
  open law use {addrs_of}

  -- For each unit that a well-formed manager has granted to a client, whose runs an `int` can index and whose longest run it can count,
  -- where liblightnvm returns no NULL, and with a round more than the longest run has blocks:
  -- `initialize_vssd_blocks` ends without undefined
  -- behaviour, and every block of the virtual blocks that it keeps belongs to that client on that
  -- device, and nobody had it when the client was served.
  pub served-Kept :
      (m m' : OcssdManager) (us : List VirtualUnit) (u : VirtualUnit) (geo : NvmGeo) (fuel : ℕ)
      (b : Blocks nvm)
      → IsManager m
      → Serves m m' us
      → Any (λ x. x ≡ u) us
      → geo.nblocks < 2 ^ 32
      → ((addrs : List NvmAddr) (d : Device) → (vblk_alloc addrs d).0 ≢ none)
      → length (runs geo u.channels) < 2 ^ 31
      → longest (runs geo u.channels) < fuel
      → longest (runs geo u.channels) < 2 ^ 31
      → (b' : Blocks nvm) × (initialize_vssd_blocks nvm fuel geo u b ≡ some b')
        × (kept : Kept nvm law (runs geo u.channels) 0 (record b { count = 0 }) b') × All
            (λ blk. All (NewOn m us u.dev_name) (addrs_of blk))
            kept.new
  served-Kept m m' us u geo fuel b i s member blocks never_null few enough room =
      let granted =
        member_of (λ x. All IsGranted x.channels) u us member (Hands-IsGranted s.hands) in
      let (b', run, kept, owned) =
        initialize_vssd_blocks-Kept nvm law geo blocks u.channels granted few never_null fuel u b
          refl enough room in
      (b', run, kept, All-map (λ blk. All-map own_new (addrs_of blk)) kept.new owned)
    where
      own_new : (a : NvmAddr) → OwnedAt u.channels a.ch a.lun a.blk → NewOn m us u.dev_name a
      own_new a o =
          let mine = owned_of u us a.ch a.lun a.blk member o in
          (mine, Hands-fresh u.dev_name a.ch a.lun a.blk s.hands i.distinct mine)
