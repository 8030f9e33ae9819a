-- ===== src/Conn/Handlers/Bytes.antt =====
-- What is read of a client is bytes, and they parse to a request whose members fit their types.
use light_nvm.Base.{
  subst, length, ltb, All-append, ℕ, ◌+◌, ◌*◌, ◌^◌, ◌<◌, ◌≡◌, ◌⊎◌, inl, inr, refl, arith, List, [],
  ◌∷◌, ◌++◌, All, Option, none, some, ◌==◌, Bool-cases,
}
use mathlib.Core.Option
use light_nvm.Wire.Cursor.{Cursor, at, ◌>>=◌, deserialize_data4, load, cut, of_bytes}
use light_nvm.Conn.Receive.{ReadResult, received, failed, Received, filled, closed, receive}
use light_nvm.Request.{Parsed, parsed, threw, request_magic}
use light_nvm.Request.Alloc.{AllocRequest, parse_fields, parse, of_buffer}
use light_nvm.Request.Alloc.RoundTrip.{InRange}

abbrev pub IsByte : ℕ → Type 0
IsByte b = b < 256

-- What `deserialize_data4` reads of bytes: nothing, where fewer than four are left, or a `uint32_t`.
record Word (past rest : List ℕ) : Type 0 where
  d : ℕ
  past' : List ℕ
  rest' : List ℕ
  run : deserialize_data4 (at past rest) ≡ some (d, at past' rest')
  small : d < 2 ^ 32
  bytes : All IsByte rest'

word :
    (past rest : List ℕ)
    → All IsByte rest
    → (deserialize_data4 (at past rest) ≡ none) ⊎ Word past rest
unfolding deserialize_data4 load cut of_bytes
word past [] h = inl refl
word past (a ∷ []) h = inl refl
word past (a ∷ b ∷ []) h = inl refl
word past (a ∷ b ∷ c ∷ []) h = inl refl
word past (a ∷ b ∷ c ∷ d ∷ rest) h = inr (record {
  d = a + 256 * (b + 256 * (c + 256 * (d + 256 * 0)));
  past' = past ++ a ∷ b ∷ c ∷ d ∷ [];
  rest' = rest;
  run = refl;
  small = omega (arith, h.0, h.1.0, h.1.1.0, h.1.1.1.0);
  bytes = h.1.1.1.1;
})

-- The outcome of parsing bytes.
abbrev Fits : Option (Parsed AllocRequest × Cursor) → Type 0
Fits none = Unit
Fits (some (threw, c)) = Unit
Fits (some (parsed r, c)) = InRange r

fields-Fits : (past rest : List ℕ) → All IsByte rest → Fits (parse_fields (at past rest))
unfolding parse_fields
fields-Fits past rest h = elim (word past rest h) [
  | inl e ↦ rw (◌>>=◌, e) tt
  | inr a ↦ elim (word a.past' a.rest' a.bytes) [
    | inl e ↦ rw (◌>>=◌, a.run, e) tt
    | inr b ↦ elim (word b.past' b.rest' b.bytes) [
      | inl e ↦ rw (◌>>=◌, a.run, b.run, e) tt
      | inr c ↦ elim (word c.past' c.rest' c.bytes) [
        | inl e ↦ rw (◌>>=◌, a.run, b.run, c.run, e) tt
        | inr d ↦ elim (word d.past' d.rest' d.bytes) [
          | inl e ↦ rw (◌>>=◌, a.run, b.run, c.run, d.run, e) tt
          | inr f ↦
              rw (◌>>=◌, a.run, b.run, c.run, d.run, f.run)
                (record {
                  channels = a.small;
                  blocks = b.small;
                  shared = c.small;
                  numa = d.small;
                  remote = f.small;
                })
        ]
      ]
    ]
  ]
]

parse-Fits : (message : List ℕ) → All IsByte message → Fits (parse (at [] message))
unfolding parse
parse-Fits message h = elim (word [] message h) [
  | inl e ↦ rw (◌>>=◌, e) tt
  | inr m ↦ elim (Bool-cases (m.d == request_magic)) [
    | inl magic ↦ rw (◌>>=◌, m.run, magic) (fields-Fits m.past' m.rest' m.bytes)
    | inr other ↦ rw (◌>>=◌, m.run, other) tt
  ]
]

-- Whatever bytes a client sends, the members of a request that they parse to are in range.
pub of_buffer-InRange :
    (message : List ℕ) (r : AllocRequest)
    → All IsByte message
    → of_buffer message ≡ some (parsed r)
    → InRange r
unfolding of_buffer
of_buffer-InRange message r h p = go (parse (at [] message)) (parse-Fits message h) p
  where
    go :
        (o : Option (Parsed AllocRequest × Cursor))
        → Fits o
        → Option.map (λ x. x.0) o ≡ some (parsed r)
        → InRange r
    go none f e = absurd (cc e)
    go (some (threw, c)) f e = absurd (cc e)
    go (some (parsed s, c)) f e = subst InRange (cc e) f

-- A read that gives bytes.
abbrev pub IsBytes : ReadResult → Type 0
IsBytes (received c) = All IsByte c
IsBytes failed = Unit

abbrev pub HasBytes : Option Received → Type 0
HasBytes none = Unit
HasBytes (some (filled got reads)) = All IsByte got
HasBytes (some (closed got reads)) = All IsByte got

pub receive-bytes :
    (size : ℕ) (got : List ℕ) (reads : List ReadResult)
    → All IsByte got
    → All IsBytes reads
    → HasBytes (receive size got reads)
unfolding receive
receive-bytes size got [] h k = elim (Bool-cases (ltb (length got) size)) [
  | inl e ↦ rw e tt
  | inr e ↦ rw e h
]
receive-bytes size got (failed ∷ reads) h k = elim (Bool-cases (ltb (length got) size)) [
  | inl e ↦ rw e h
  | inr e ↦ rw e h
]
receive-bytes size got (received [] ∷ reads) h k = elim (Bool-cases (ltb (length got) size)) [
  | inl e ↦ rw e h
  | inr e ↦ rw e h
]
receive-bytes size got (received (b ∷ bs) ∷ reads) h k = elim (Bool-cases (ltb (length got) size)) [
  | inl e ↦
      rw e (receive-bytes size (got ++ b ∷ bs) reads (All-append IsByte got (b ∷ bs) h k.0) k.1)
  | inr e ↦ rw e h
]
