-- ===== src/Bench/Read/Rows.antt =====
-- vblk_readtest.cc: the output has a row for each size.
use light_nvm.Base.{
  is_same, le→leb, le→ltb, ℕ, ◌/◌, ◌%◌, ◌^◌, ◌<◌, ◌≤◌, ◌≡◌, refl, sym, ap, ◌∙◌, arith, List, [],
  ◌∷◌, ◌++◌, map, append_assoc, length, Option, some, append-nil,
}
use mathlib.Core.List.{map-append}
use light_nvm.Base.Int.{ℤ, pos}
use light_nvm.Base.Partial.{◌>>=◌}
use light_nvm.Vssd.Member.{NvmGeo}
use light_nvm.Conn.Nvm.{Nvm}
use light_nvm.Bench.{size_loop, size_fuel, units, first_size, Run}
use light_nvm.Bench.Sizes.{row, to_int-small, Tried, size_loop-Tried}
use light_nvm.Bench.Outcomes.{Tests, Gives}
use light_nvm.Bench.Read.{read_loop, read_size, test_sizes, test_vblk, main}
use light_nvm.Bench.Choice.{dev1, tested, test_more, loops-test_more, test_more-ends}

module _ (nvm : Nvm) (buf_alloc : ℕ → Option (List ℕ)) where
  open nvm use {vblk_get_nbytes, vblk_alloc}

  module _ (channels : List ℕ) (blk : nvm.Vblk) (rows : List (ℕ × ℤ)) (room : ℕ)
      (fits : room ≡ vblk_get_nbytes blk) where
    abbrev Rows : List ℕ → Run nvm → Type 0
    Rows done r = r.rows ≡ rows ++ map (row channels) done

    read_size-Rows :
        (n : ℕ) (done : List ℕ) (r : Run nvm)
        → 0 < n
        → n ≤ vblk_get_nbytes blk
        → vblk_get_nbytes blk % n ≡ 0
        → Rows done r
        → (r' : Run nvm) × (read_size nvm buf_alloc channels blk room
              (pos n)
              (vblk_get_nbytes blk / n)
              r
            ≡ some r')
          × Rows (done ++ n ∷ []) r'
    unfolding read_size
    read_size-Rows n done r p le d h = (
      record {
        dev =
            read_loop nvm buf_alloc (vblk_get_nbytes blk / n) blk n
              (nvm.vblk_set_pos_read blk 0 r.dev);
        rows = r.rows ++ row channels n ∷ [];
      },
      rw (le→leb n room (omega (arith, fits, le))) refl,
      ap (λ rs. rs ++ row channels n ∷ []) h
          ∙ append_assoc rows (map (row channels) done) (row channels n ∷ [])
          ∙ ap (λ rs. rows ++ rs) (sym (map-append (row channels) done (n ∷ []))),
    )

  module _ (channels : List ℕ) (blk : nvm.Vblk) (buf : List ℕ) (n : ℕ)
      (given : buf_alloc (vblk_get_nbytes blk) ≡ some buf) (fits : length buf ≡ vblk_get_nbytes blk)
      (some_bytes : 0 < vblk_get_nbytes blk) (small : vblk_get_nbytes blk < 2 ^ 30)
      (p : 0 < n) where
    abbrev body : ℤ → ℕ → Run nvm → Option (Run nvm)
    unfolding read_size
    body = read_size nvm buf_alloc channels blk (length buf)

    test_sizes-Tests :
        (r : Run nvm)
        → Tests nvm channels n
            (vblk_get_nbytes blk)
            r
            (test_sizes nvm buf_alloc channels blk (pos (vblk_get_nbytes blk)) (pos n) r)
    unfolding test_sizes
    test_sizes-Tests r = go (
        size_loop-Tried body (vblk_get_nbytes blk) (Rows channels blk r.rows (length buf) fits)
          small some_bytes (read_size-Rows channels blk r.rows (length buf) fits) 31 n [] r p
          (omega arith) (sym (append-nil r.rows)))
      where
        go :
            Tried body
              (vblk_get_nbytes blk)
              (Rows channels blk r.rows (length buf) fits)
              n
              []
              (size_loop body size_fuel (pos (vblk_get_nbytes blk)) (pos n) r)
            → Tests nvm channels n
                (vblk_get_nbytes blk)
                r
                (test_sizes nvm buf_alloc channels blk (pos (vblk_get_nbytes blk)) (pos n) r)
        go t = (
          record (t.result) { dev = nvm.vblk_free blk t.result.dev },
          t.count,
          rw (given, test_sizes, ◌>>=◌, t.ends) refl,
          t.holds,
          t.divide,
          t.last,
        )

    -- Of a device with a virtual block of more than 0 and less than 2^30 bytes for the LUNs of some
    -- channels, a buffer of its size, and a positive size of a read of each plane: the test of
    -- these channels ends, and adds a row for each of the sizes that are tried, which are the first
    -- one and its doubles as long as they divide the size of the virtual block.
    pub read_test-Tests :
        (geo : NvmGeo) (r : Run nvm)
        → (vblk_alloc (units geo channels) r.dev).0 ≡ some blk
        → first_size geo ≡ pos n
        → Tests nvm channels n (vblk_get_nbytes blk) r (test_vblk nvm buf_alloc geo channels r)
    unfolding test_vblk
    read_test-Tests geo r made first =
        rw (made, ◌>>=◌, first, to_int-small (vblk_get_nbytes blk) (omega (arith, small)))
          (test_sizes-Tests _)

  module _ (gives : Gives nvm buf_alloc) (geo : NvmGeo) (n : ℕ) (first : first_size geo ≡ pos n)
      (p : 0 < n) where
    read_test-ends :
        (channels : List ℕ) (r : Run nvm)
        → (r' : Run nvm) × (test_vblk nvm buf_alloc geo channels r ≡ some r')
    read_test-ends channels r =
        let (blk, made) = gives.made geo channels r.dev in
        let (buf, given, fits) = gives.given (vblk_get_nbytes blk) in
        let (r', k, run, rows, divide, last) =
          read_test-Tests channels blk buf n given fits (gives.some_bytes blk) (gives.small blk) p
            geo r made first in
        (r', run)

    -- On such a device the program, run with a device that opens and an output file, ends with the
    -- exit status 0, and has tested one channel more each time: on nvme0n1 those whose number is 0
    -- or 1 modulo 4, and on other devices all.
    pub read_main-ends :
        (argc : ℕ) (path : List ℕ) (d d' : nvm.Device)
        → 3 ≤ argc
        → nvm.dev_open path d ≡ some (geo, d')
        → (r : Run nvm) × (test_more
              (test_vblk nvm buf_alloc geo)
              []
              (tested (is_same path dev1) geo.nchannels)
              (record { dev = d'; rows = [] })
            ≡ some r)
          × (main nvm buf_alloc argc path d ≡ some (pos 0, record r { dev = nvm.dev_close r.dev }))
    unfolding main
    read_main-ends argc path d d' enough opened =
        let start : Run nvm = record { dev = d'; rows = [] } in
        let (r, run) =
          test_more-ends (test_vblk nvm buf_alloc geo) read_test-ends []
            (tested (is_same path dev1) geo.nchannels) start in
        (
          r,
          run,
          rw
              (
                le→ltb argc 3 enough,
                opened,
                loops-test_more (test_vblk nvm buf_alloc geo) (is_same path dev1) geo.nchannels
                    start,
                ◌>>=◌,
                run,
              )
              refl,
        )
