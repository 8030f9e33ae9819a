-- ===== src/Conn/Blocks/Picks.antt =====
-- Which virtual blocks `initialize_vssd_blocks` keeps.
use light_nvm.Base.{
  inc_int-small, ℕ, zero, suc, max, ◌+◌, ◌^◌, ◌<◌, ◌≤◌, ◌≡◌, ◌≢◌, inl, inr, refl, sym, ap, ◌∙◌,
  arith, List, [], ◌∷◌, ◌++◌, append-nil, append_assoc, length, All, none, some, true, false,
  Bool-cases, Option-cases, List-cases, Nat-cases, le→ltb,
}
use light_nvm.Base.Int.{ℤ, is_negative}
use light_nvm.Base.Partial.{◌>>=◌}
use light_nvm.Vssd.Channel.{VirtualChannel}
use light_nvm.Vssd.Member.{VirtualUnit, NvmGeo}
use light_nvm.Vssd.Member
use light_nvm.Device.Drive.Moves.{OwnedAt}
use light_nvm.Conn.Nvm.{Nvm, AllocLaw}
use light_nvm.Device.Channel.Virtual.{IsGranted}
use light_nvm.Conn.Addresses.{NvmAddr}
use light_nvm.Conn.Addresses.Stripes.{Run, runs, stripe, positions}
use light_nvm.Conn.Addresses.Rounds.{next_addrs-stripe, generate_units_of-positions}
use light_nvm.Conn.Addresses.Owned.{stripe-OwnedAt}
use light_nvm.Conn.Blocks.{
  Blocks, nvm_vblk_test, keep_block, add_block, init_loop, initialize_vssd_blocks,
}

-- The length of the longest run.
abbrev pub longest : List Run → ℕ
longest [] = 0
longest (r ∷ rs) = max r.count (longest rs)

stripe-nil : (k : ℕ) (rs : List Run) → longest rs ≤ k → stripe k rs ≡ []
stripe-nil k [] h = refl
stripe-nil k (r ∷ rs) h = rw (le→ltb k r.count (omega arith)) (stripe-nil k rs (omega arith))

module _ (nvm : Nvm) (law : AllocLaw nvm) where
  open nvm use {Vblk, Device, vblk_alloc, vblk_free, vblk_get_nbytes}
  open law use {addrs_of, made_of}

  -- The virtual block of a round, made and tested on the device `d`: what the test returns, and the
  -- device then.
  abbrev pub test_of : Vblk → List NvmAddr → Device → ℤ × Device
  unfolding nvm_vblk_test
  test_of blk addrs d = nvm_vblk_test nvm blk (vblk_alloc addrs d).1

  -- The rounds from `k` on up to the first that has no address, from one state of the device to
  -- another, and the virtual blocks that are kept: that of a round is made, tested and, if the test
  -- failed, freed, and otherwise kept.
  pub data Picks (rs : List Run) : ℕ → Device → List Vblk → Device → Type 0 where
    last : (k : ℕ) (d : Device) → stripe k rs ≡ [] → Picks rs k d [] d
    drop :
        (k : ℕ) (d d' : Device) (blk : Vblk) {blks : List Vblk}
        → stripe k rs ≢ []
        → (vblk_alloc (stripe k rs) d).0 ≡ some blk
        → is_negative (test_of blk (stripe k rs) d).0 ≡ true
        → Picks rs (suc k) (vblk_free blk (test_of blk (stripe k rs) d).1) blks d'
        → Picks rs k d blks d'
    keep :
        (k : ℕ) (d d' : Device) (blk : Vblk) {blks : List Vblk}
        → stripe k rs ≢ []
        → (vblk_alloc (stripe k rs) d).0 ≡ some blk
        → is_negative (test_of blk (stripe k rs) d).0 ≡ false
        → Picks rs (suc k) (test_of blk (stripe k rs) d).1 blks d'
        → Picks rs k d (blk ∷ blks) d'

  -- The addresses of the virtual blocks that are kept belong to the channels.
  pub Picks-OwnedAt :
      (geo : NvmGeo) (cs : List VirtualChannel) {k : ℕ} {d d' : Device} {blks : List Vblk}
      → Picks (runs geo cs) k d blks d'
      → All (λ blk. All (λ a. OwnedAt cs a.ch a.lun a.blk) (addrs_of blk)) blks
  Picks-OwnedAt geo cs (last k d done) = tt
  Picks-OwnedAt geo cs (drop k d d' blk ne given bad p) = Picks-OwnedAt geo cs p
  Picks-OwnedAt geo cs (keep k d d' blk ne given good p) = (
    rw (made_of (stripe k (runs geo cs)) d blk given) (stripe-OwnedAt geo cs k),
    Picks-OwnedAt geo cs p,
  )

  -- What the loop leaves from round `k` on.
  pub record Kept (rs : List Run) (k : ℕ) (b b' : Blocks nvm) : Type 0 where
    pub new : List Vblk
    pub blks : b'.blks_array ≡ b.blks_array ++ new
    pub count : b'.count ≡ b.count + length new
    pub picks : Picks rs k b.dev new b'.dev

  -- The two ways through the body of the loop.
  module _ (addrs : List NvmAddr) (b : Blocks nvm) (blk : Vblk)
      (e : (vblk_alloc addrs b.dev).0 ≡ some blk) where
    abbrev tested : Device
    tested = (test_of blk addrs b.dev).1

    add_block-drop :
        is_negative (test_of blk addrs b.dev).0 ≡ true
        → add_block nvm addrs b ≡ some (record b { dev = vblk_free blk tested })
    unfolding add_block
    add_block-drop bad = rw (e, bad)

    add_block-keep :
        is_negative (test_of blk addrs b.dev).0 ≡ false
        → b.count + 1 < 2 ^ 31
        → add_block nvm addrs b
          ≡ some (record b {
            dev = tested;
            blks_array = b.blks_array ++ blk ∷ [];
            blk_size = vblk_get_nbytes blk;
            count = b.count + 1;
          })
    unfolding add_block keep_block
    add_block-keep good room = rw (e, good, inc_int-small b.count room)

  module _ (geo : NvmGeo) (blocks : geo.nblocks < 2 ^ 32) (cs : List VirtualChannel)
      (granted : All IsGranted cs) (few : length (runs geo cs) < 2 ^ 31)
      (never_null : (addrs : List NvmAddr) (d : Device) → (vblk_alloc addrs d).0 ≢ none) where
    abbrev unit_runs : List Run
    unit_runs = runs geo cs

    abbrev Runs : ℕ → ℕ → Blocks nvm → Type 0
    Runs fuel k b =
        (b' : Blocks nvm) × (init_loop nvm fuel geo cs b ≡ some b') × Kept unit_runs k b b'

    loop-last :
        (fuel k : ℕ) (b : Blocks nvm)
        → b.curr_blocks ≡ positions k unit_runs
        → stripe k unit_runs ≡ []
        → init_loop nvm (suc fuel) geo cs b
          ≡ some (record b { curr_blocks = positions (suc k) unit_runs })
    unfolding init_loop
    loop-last fuel k b e done = rw (e, next_addrs-stripe geo blocks k cs granted few, ◌>>=◌, done)

    loop-more :
        (fuel k : ℕ) (b : Blocks nvm) (a : NvmAddr) (more : List NvmAddr)
        → b.curr_blocks ≡ positions k unit_runs
        → stripe k unit_runs ≡ a ∷ more
        → init_loop nvm (suc fuel) geo cs b ≡ (
            add_block nvm
              (stripe k unit_runs)
              (record b { curr_blocks = positions (suc k) unit_runs })
            >>= init_loop nvm fuel geo cs)
    unfolding init_loop
    loop-more fuel k b a more e s =
        rw (e, next_addrs-stripe geo blocks k cs granted few, ◌>>=◌, s) refl

    Kept-drop :
        (k : ℕ) (b b' : Blocks nvm) (blk : Vblk)
        → stripe k unit_runs ≢ []
        → (vblk_alloc (stripe k unit_runs) b.dev).0 ≡ some blk
        → is_negative (test_of blk (stripe k unit_runs) b.dev).0 ≡ true
        → Kept unit_runs
            (suc k)
            (record b {
              curr_blocks = positions (suc k) unit_runs;
              dev = vblk_free blk (test_of blk (stripe k unit_runs) b.dev).1;
            })
            b'
        → Kept unit_runs k b b'
    Kept-drop k b b' blk ne given bad p = record {
      new = p.new;
      blks = p.blks;
      count = p.count;
      picks = drop k b.dev b'.dev blk ne given bad p.picks;
    }

    Kept-keep :
        (k : ℕ) (b b' : Blocks nvm) (blk : Vblk)
        → stripe k unit_runs ≢ []
        → (vblk_alloc (stripe k unit_runs) b.dev).0 ≡ some blk
        → is_negative (test_of blk (stripe k unit_runs) b.dev).0 ≡ false
        → Kept unit_runs
            (suc k)
            (record b {
              curr_blocks = positions (suc k) unit_runs;
              dev = (test_of blk (stripe k unit_runs) b.dev).1;
              blks_array = b.blks_array ++ blk ∷ [];
              blk_size = vblk_get_nbytes blk;
              count = b.count + 1;
            })
            b'
        → Kept unit_runs k b b'
    Kept-keep k b b' blk ne given good p = record {
      new = blk ∷ p.new;
      blks = p.blks ∙ append_assoc b.blks_array (blk ∷ []) p.new;
      count = omega (arith, p.count);
      picks = keep k b.dev b'.dev blk ne given good p.picks;
    }

    -- With a round for each block of the longest run and one more the loop ends.
    init_loop-Kept :
        (fuel k : ℕ) (b : Blocks nvm)
        → b.curr_blocks ≡ positions k unit_runs
        → k ≤ longest unit_runs
        → longest unit_runs < k + fuel
        → b.count + longest unit_runs < k + 2 ^ 31
        → Runs fuel k b
    init_loop-Kept zero k b e le enough room = absurd (omega arith)
    init_loop-Kept (suc fuel) k b e le enough room = elim (List-cases (stripe k unit_runs)) [
      | inl none_left ↦ (
        _,
        loop-last fuel k b e none_left,
        record {
          new = [];
          blks = sym (append-nil b.blks_array);
          count = omega arith;
          picks = last k b.dev none_left;
        },
      )
      | inr (a, more, s) ↦
          let ne : stripe k unit_runs ≢ [] = λ n. cc (s, n) in
          let lt : k < longest unit_runs = elim (Nat-cases k (longest unit_runs)) [
            | inl lt ↦ lt
            | inr ge ↦ absurd (ne (stripe-nil k unit_runs ge))
          ] in
          let addrs = stripe k unit_runs in
          let b1 : Blocks nvm = record b { curr_blocks = positions (suc k) unit_runs } in
          elim (Option-cases (vblk_alloc addrs b.dev).0) [
            | inl null ↦ absurd (never_null addrs b.dev null)
            | inr (blk, given) ↦ elim (Bool-cases (is_negative (test_of blk addrs b.dev).0)) [
              | inl bad ↦
                  let (b', run, p) =
                    init_loop-Kept fuel (suc k)
                      (record b1 { dev = vblk_free blk (test_of blk addrs b.dev).1 }) refl lt
                      (omega arith) (omega arith) in
                  (
                    b',
                    loop-more fuel k b a more e s
                        ∙ ap (λ m. m >>= init_loop nvm fuel geo cs)
                            (add_block-drop addrs b1 blk given bad)
                        ∙ run,
                    Kept-drop k b b' blk ne given bad p,
                  )
              | inr good ↦
                  let (b', run, p) =
                    init_loop-Kept fuel (suc k)
                      (record b1 {
                        dev = (test_of blk addrs b.dev).1;
                        blks_array = b.blks_array ++ blk ∷ [];
                        blk_size = vblk_get_nbytes blk;
                        count = b.count + 1;
                      })
                      refl lt (omega arith) (omega arith) in
                  (
                    b',
                    loop-more fuel k b a more e s
                        ∙ ap (λ m. m >>= init_loop nvm fuel geo cs)
                            (add_block-keep addrs b1 blk given good (omega arith))
                        ∙ run,
                    Kept-keep k b b' blk ne given good p,
                  )
            ]
          ]
    ]

    -- For a virtual unit of granted channels whose runs an `int` can index and whose longest run it can
    -- count, where liblightnvm returns no NULL, and with a round more than that run has blocks, `initialize_vssd_blocks` ends
    -- without undefined behaviour: it goes through the rounds up to the first without an address, and
    -- makes and tests the virtual block of each. It frees those whose test returned a negative
    -- number, and appends exactly the others, in order, and counts them; the device goes through
    -- these calls and no other. All addresses that it keeps belong to the channels.
    pub initialize_vssd_blocks-Kept :
        (fuel : ℕ) (u : VirtualUnit) (b : Blocks nvm)
        → u.channels ≡ cs
        → longest (runs geo cs) < fuel
        → longest (runs geo cs) < 2 ^ 31
        → (b' : Blocks nvm) × (initialize_vssd_blocks nvm fuel geo u b ≡ some b')
          × (kept : Kept (runs geo cs) 0 (record b { count = 0 }) b') × All
              (λ blk. All (λ a. OwnedAt cs a.ch a.lun a.blk) (addrs_of blk))
              kept.new
    unfolding initialize_vssd_blocks Member.generate_units
    initialize_vssd_blocks-Kept fuel u b e enough room =
        let starts = generate_units_of-positions geo cs [] in
        let (b', run, p) =
          init_loop-Kept fuel 0 (record b { curr_blocks = positions 0 (runs geo cs); count = 0 })
            refl (omega arith) (omega arith) (omega arith) in
        (
          b',
          rw (e, starts) run,
          record { new = p.new; blks = p.blks; count = p.count; picks = p.picks },
          Picks-OwnedAt geo cs p.picks,
        )
