-- ===== src/Conn/Addresses/Stripes.antt =====
-- What the rounds of `initialize_vssd_blocks` make: the k-th takes the k-th block of each run.
use light_nvm.Base.{
  inc_int-small, ℕ, zero, suc, ◌+◌, ◌^◌, ◌<◌, ◌≡◌, inl, inr, refl, sym, ap, ap₂, ◌∙◌, arith, List,
  [], ◌∷◌, ◌++◌, append-nil, append_assoc, length, length-append, map, min, All, Option, some,
  get_elem?, set, ltb, lt→ltb, le→ltb, if◌then◌else◌, Nat-cases, ◌==◌,
}
use mathlib.Core.List.{map-append}
use light_nvm.Base.Partial.{◌>>=◌}
use light_nvm.Wire.Cursor.{u32}
use light_nvm.Vssd.Lun.{VirtualLun}
use light_nvm.Vssd.Channel.{VirtualChannel}
use light_nvm.Vssd.Member.{NvmGeo}
use light_nvm.Conn.Addresses.{NvmAddr, Round, generate_addr, visit_lun, visit_shared, visit_whole}

-- A run of blocks in one LUN.
pub record Run : Type 0 where
  pub ch : ℕ
  pub lun : ℕ
  pub start : ℕ
  pub count : ℕ

abbrev pub runs_shared : ℕ → List VirtualLun → List Run
runs_shared ch [] = []
runs_shared ch (l ∷ ls) =
    record { ch = ch; lun = l.lun_id; start = l.block_start; count = l.num_blocks }
    ∷ runs_shared ch ls

abbrev pub runs_whole : ℕ → ℕ → ℕ → ℕ → List Run
runs_whole nblocks ch zero lun = []
runs_whole nblocks ch (suc n) lun =
    record { ch = ch; lun = lun; start = 0; count = nblocks } ∷ runs_whole nblocks ch n (suc lun)

abbrev pub runs_of : NvmGeo → VirtualChannel → List Run
runs_of geo c =
    if c.shared == 1
    then runs_shared c.channel_id c.luns
    else runs_whole geo.nblocks c.channel_id c.num_luns 0

-- The runs of the channels of a virtual unit, in order.
abbrev pub runs : NvmGeo → List VirtualChannel → List Run
runs geo [] = []
runs geo (c ∷ cs) = runs_of geo c ++ runs geo cs

-- The k-th block of each run that has one.
abbrev pub stripe : ℕ → List Run → List NvmAddr
stripe k [] = []
stripe k (r ∷ rs) =
    if ltb k r.count
    then record { ch = r.ch; lun = r.lun; blk = r.start + k } ∷ stripe k rs
    else stripe k rs

-- `curr_blocks` before the k-th round.
abbrev pub positions : ℕ → List Run → List ℕ
positions k rs = map (λ (r : Run). r.start + min k r.count) rs

-- A run that ends below 2 ^ 32.
abbrev pub Fits : Run → Type 0
Fits r = r.start + r.count < 2 ^ 32

module _ {ℓ} {A : Type ℓ} where
  get_elem?-middle :
      (xs : List A) (y : A) (ys : List A) → get_elem? (xs ++ y ∷ ys) (length xs) ≡ some y
  get_elem?-middle [] y ys = refl
  get_elem?-middle (x ∷ xs) y ys = get_elem?-middle xs y ys

  set-middle :
      (xs : List A) (y z : A) (ys : List A) → set (xs ++ y ∷ ys) (length xs) z ≡ xs ++ z ∷ ys
  set-middle [] y z ys = refl
  set-middle (x ∷ xs) y z ys = ap (◌∷◌ x) (set-middle xs y z ys)

-- The loops in the k-th round, in front of the runs `rs`: the addresses `addrs` are made, and
-- `curr_blocks` is `done` for the runs that were visited.
abbrev pub before : ℕ → List NvmAddr → List ℕ → List Run → List ℕ → Round
before k addrs done rs rest = record {
  addrs = addrs;
  curr_blocks = done ++ (positions k rs ++ rest);
  i = length done;
}

abbrev pub behind : ℕ → List NvmAddr → List ℕ → List Run → List ℕ → Round
behind k addrs done rs rest = record {
  addrs = addrs ++ stripe k rs;
  curr_blocks = (done ++ positions (suc k) rs) ++ rest;
  i = length (done ++ positions (suc k) rs);
}

same_round :
    (addrs : List NvmAddr) (done rest : List ℕ) (p q : ℕ)
    → p ≡ q
    → ◌≡◌ {A = Option Round}
        (some (record { addrs = addrs; curr_blocks = done ++ p ∷ rest; i = length done + 1 }))
        (some (record {
          addrs = addrs;
          curr_blocks = (done ++ q ∷ []) ++ rest;
          i = length (done ++ q ∷ []);
        }))
same_round addrs done rest p q e =
    rw (e, append_assoc)
      (ap (λ (n : ℕ). some (record { addrs = addrs; curr_blocks = done ++ q ∷ rest; i = n }))
        (omega (arith, length-append done (q ∷ []))))

module _ (k : ℕ) (addrs : List NvmAddr) (done rest : List ℕ) (r : Run) (fits : Fits r)
    (room : length done + 1 < 2 ^ 31) where
  visit_lun-behind :
      visit_lun (r.start + r.count) r.ch r.lun (before k addrs done (r ∷ []) rest)
      ≡ some (behind k addrs done (r ∷ []) rest)
  unfolding visit_lun generate_addr
  visit_lun-behind = elim (Nat-cases k r.count) [
    | inl more ↦
        let here : r.start + min k r.count ≡ r.start + k = omega arith in
        rw
          (
            get_elem?-middle done (r.start + min k r.count) rest,
            here,
            lt→ltb (r.start + k) (r.start + r.count) (omega arith),
            lt→ltb k r.count more,
            set-middle done (r.start + k) (u32 (r.start + k + 1)) rest,
            inc_int-small (length done) room,
          )
          (same_round _ done rest _ _ (omega arith))
    | inr used_up ↦
        rw
          (
            get_elem?-middle done (r.start + min k r.count) rest,
            le→ltb (r.start + min k r.count) (r.start + r.count) (omega arith),
            le→ltb k r.count used_up,
            append-nil addrs,
            inc_int-small (length done) room,
          )
          (same_round addrs done rest _ _ (omega arith))
  ]

-- The loops visit one run after the other, as long as an `int` can index them.
abbrev pub Visits : (Round → Option Round) → ℕ → List Run → Type 0
Visits loop k rs =
    (addrs : List NvmAddr) (done rest : List ℕ)
    → length done + length rs < 2 ^ 31
    → loop (before k addrs done rs rest) ≡ some (behind k addrs done rs rest)

pub stripe-append : (k : ℕ) (rs ss : List Run) → stripe k (rs ++ ss) ≡ stripe k rs ++ stripe k ss
stripe-append k [] ss = refl
stripe-append k (r ∷ rs) ss = elim (Nat-cases k r.count) [
  | inl more ↦
      rw (lt→ltb k r.count more)
        (ap (◌∷◌ (record { ch = r.ch; lun = r.lun; blk = r.start + k })) (stripe-append k rs ss))
  | inr used_up ↦ rw (le→ltb k r.count used_up) (stripe-append k rs ss)
]

pub positions-append :
    (k : ℕ) (rs ss : List Run) → positions k (rs ++ ss) ≡ positions k rs ++ positions k ss
positions-append k rs ss = map-append (λ (r : Run). r.start + min k r.count) rs ss

before-append :
    (k : ℕ) (addrs : List NvmAddr) (done : List ℕ) (rs ss : List Run) (rest : List ℕ)
    → before k addrs done (rs ++ ss) rest ≡ before k addrs done rs (positions k ss ++ rest)
before-append k addrs done rs ss rest =
    ap (λ ps. record { addrs = addrs; curr_blocks = done ++ ps; i = length done })
      (ap (λ ps. ps ++ rest) (positions-append k rs ss)
        ∙ append_assoc (positions k rs) (positions k ss) rest)

behind-append :
    (k : ℕ) (addrs : List NvmAddr) (done : List ℕ) (rs ss : List Run) (rest : List ℕ)
    → behind k (addrs ++ stripe k rs) (done ++ positions (suc k) rs) ss rest
      ≡ behind k addrs done (rs ++ ss) rest
behind-append k addrs done rs ss rest =
    ap₂ (λ made ps. record { addrs = made; curr_blocks = ps ++ rest; i = length ps })
      (append_assoc addrs (stripe k rs) (stripe k ss)
        ∙ ap (◌++◌ addrs) (sym (stripe-append k rs ss)))
      (append_assoc done (positions (suc k) rs) (positions (suc k) ss)
        ∙ ap (◌++◌ done) (sym (positions-append (suc k) rs ss)))

length-positions : (k : ℕ) (rs : List Run) → length (positions k rs) ≡ length rs
length-positions k [] = refl
length-positions k (r ∷ rs) = ap suc (length-positions k rs)

pub Visits-append :
    (f g : Round → Option Round) (k : ℕ) (rs ss : List Run)
    → Visits f k rs
    → Visits g k ss
    → Visits (λ r. f r >>= g) k (rs ++ ss)
Visits-append f g k rs ss vf vg addrs done rest room =
    let both = length-append rs ss in
    ap (λ r. f r >>= g) (before-append k addrs done rs ss rest)
    ∙ ap (λ m. m >>= g) (vf addrs done (positions k ss ++ rest) (omega (arith, both)))
    ∙ vg (addrs ++ stripe k rs) (done ++ positions (suc k) rs) rest (
        omega (arith, both, length-append done (positions (suc k) rs), length-positions (suc k) rs))
    ∙ ap some (behind-append k addrs done rs ss rest)

pub Visits-nothing : (k : ℕ) → Visits some k []
Visits-nothing k addrs done rest room = rw (append-nil, append-nil)

visit_lun-Visits :
    (k block_end : ℕ) (r : Run)
    → Fits r
    → block_end ≡ r.start + r.count
    → Visits (visit_lun block_end r.ch r.lun) k (r ∷ [])
visit_lun-Visits k block_end r fits e addrs done rest room =
    rw e (visit_lun-behind k addrs done rest r fits room)

pub visit_shared-Visits :
    (k ch : ℕ) (ls : List VirtualLun)
    → All Fits (runs_shared ch ls)
    → Visits (visit_shared ch ls) k (runs_shared ch ls)
unfolding visit_shared
visit_shared-Visits k ch [] h = Visits-nothing k
visit_shared-Visits k ch (l ∷ ls) h =
    let r : Run = record { ch = ch; lun = l.lun_id; start = l.block_start; count = l.num_blocks } in
    Visits-append (visit_lun (u32 (l.block_start + l.num_blocks)) ch l.lun_id) (visit_shared ch ls)
      k (r ∷ []) (runs_shared ch ls) (visit_lun-Visits k _ r h.0 (omega (arith, h.0)))
      (visit_shared-Visits k ch ls h.1)

pub visit_whole-Visits :
    (k nblocks ch n lun lun' : ℕ)
    → nblocks < 2 ^ 32
    → lun ≡ lun'
    → Visits (visit_whole nblocks ch n lun) k (runs_whole nblocks ch n lun')
unfolding visit_whole
visit_whole-Visits k nblocks ch zero lun lun' h e = Visits-nothing k
visit_whole-Visits k nblocks ch (suc n) lun lun' h e =
    let r : Run = record { ch = ch; lun = lun'; start = 0; count = nblocks } in
    Visits-append (visit_lun (u32 nblocks) ch lun) (visit_whole nblocks ch n (lun + 1)) k (r ∷ [])
      (runs_whole nblocks ch n (suc lun'))
      (rw e (visit_lun-Visits k _ r (omega arith) (omega arith)))
      (visit_whole-Visits k nblocks ch n (lun + 1) (suc lun') h (omega (arith, e)))
