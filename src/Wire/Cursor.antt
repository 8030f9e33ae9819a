-- ===== src/Wire/Cursor.antt =====
-- A `char *` into a block of memory, and the helpers of ocssd_server.h that store and load words
-- through it.
use mathlib.Core.Option
use light_nvm.Base.{
  ℕ, zero, suc, ◌+◌, ◌-◌, ◌*◌, ◌/◌, ◌%◌, ◌^◌, List, [], ◌∷◌, ◌++◌, Option, none, some, length, ◌==◌,
  if◌then◌else◌,
}

-- The block is `past ++ rest`; the pointer stands between the two.
pub record Cursor : Type 0 where
  pub past : List ℕ
  pub rest : List ℕ

abbrev pub at : List ℕ → List ℕ → Cursor
at past rest = record { past = past; rest = rest }

-- Code that moves a pointer; `none` is an access outside of the block.
abbrev pub M {ℓ} : Type ℓ → Type ℓ
M A = Cursor → Option (A × Cursor)

abbrev pub pure {ℓ} : {A : Type ℓ} → A → M A
pure a c = some (a, c)

infixl 5 ◌>>=◌ ◌>>◌
abbrev pub ◌>>=◌ {ℓ κ} : {A : Type ℓ} {B : Type κ} → M A → (A → M B) → M B
◌>>=◌ m f c = elim (m c) [ none ↦ none | some (a, c') ↦ f a c' ]

abbrev pub ◌>>◌ {ℓ} : {B : Type ℓ} → M (Unit {0}) → M B → M B
m >> k = m >>= λ _. k

-- The next `n` bytes of the block and what follows them.
unfoldable pub cut : ℕ → List ℕ → Option (List ℕ × List ℕ)
cut zero xs = some ([], xs)
cut (suc n) [] = none
cut (suc n) (x ∷ xs) = Option.map (λ w. (x ∷ w.0, w.1)) (cut n xs)

-- The `n` low bytes of a number, the lowest first.
unfoldable pub to_bytes : ℕ → ℕ → List ℕ
to_bytes zero d = []
to_bytes (suc n) d = (d % 256) ∷ to_bytes n (d / 256)

unfoldable pub of_bytes : List ℕ → ℕ
of_bytes [] = 0
of_bytes (b ∷ bs) = b + 256 * of_bytes bs

-- Values of `uint32_t` and `uint64_t` (which is `size_t`).
abbrev pub u32 : ℕ → ℕ
u32 n = n % 2 ^ 32

abbrev pub u64 : ℕ → ℕ
u64 n = n % 2 ^ 64

-- `*(T *)p = …; p += sizeof(T)` for the bytes of the value.
unfoldable pub store : List ℕ → M (Unit {0})
store bs c = elim (cut (length bs) c.rest) [
  | none ↦ none
  | some (_, rest) ↦ some (tt, at (c.past ++ bs) rest)
]

-- `… = *(T *)p; p += sizeof(T)`, the value as its bytes.
unfoldable pub load : ℕ → M (List ℕ)
load n c = elim (cut n c.rest) [ none ↦ none | some (w, rest) ↦ some (w, at (c.past ++ w) rest) ]

unfoldable pub serialize_data4 : ℕ → M (Unit {0})
serialize_data4 d = store (to_bytes 4 (u32 d))

unfoldable pub serialize_data8 : ℕ → M (Unit {0})
serialize_data8 d = store (to_bytes 8 (u64 d))

unfoldable pub deserialize_data4 : M ℕ
deserialize_data4 = do w ← load 4; pure (of_bytes w)

unfoldable pub deserialize_data8 : M ℕ
deserialize_data8 = do w ← load 8; pure (of_bytes w)

-- `get_header` reads the first word of a message buffer, and moves no pointer.
unfoldable pub get_header : List ℕ → Option ℕ
unfolding deserialize_data4
get_header buffer = Option.map (λ r. r.0) (deserialize_data4 (at [] buffer))

-- `memcpy(p, src, n)`, which does not move `p`.
unfoldable pub memcpy : List ℕ → M (Unit {0})
memcpy src c = elim (cut (length src) c.rest) [
  | none ↦ none
  | some (_, rest) ↦ some (tt, at c.past (src ++ rest))
]

-- `p += n`.
unfoldable pub advance : ℕ → M (Unit {0})
advance n c = elim (cut n c.rest) [
  | none ↦ none
  | some (w, rest) ↦ some (tt, at (c.past ++ w) rest)
]

-- The characters up to the first NUL; none where the block has no NUL.
unfoldable pub c_string : List ℕ → Option (List ℕ)
c_string [] = none
c_string (b ∷ bs) = if b == 0 then some [] else Option.map (◌∷◌ b) (c_string bs)

-- `std::string s = p;`, which does not move `p`.
unfoldable pub load_string : M (List ℕ)
load_string c = Option.map (λ s. (s, c)) (c_string c.rest)

-- `p - start`, of a pointer into one block.
unfoldable pub position : M ℕ
position c = some (length c.past, c)

-- `char *start = buffer; …; return p - start;` around the body of a writer.
unfoldable pub sized : M (Unit {0}) → M ℕ
unfolding position
sized w = do start ← position; w; p ← position; pure (p - start)

-- The same around the body of a reader, with what it has read.
unfoldable pub counted {ℓ} : {A : Type ℓ} → M A → M (A × ℕ)
unfolding position
counted r = do start ← position; a ← r; p ← position; pure (a, p - start)
