-- ===== src/Wire/Fields.antt =====
-- The words and strings of the wire format: what `serialize_data4/8` and the `memcpy` of a name
-- store is what `deserialize_data4/8` and the reading of a C string take back.
use light_nvm.Base.{
  ℕ, zero, suc, ◌+◌, ◌/◌, ◌^◌, ◌<◌, ◌≡◌, refl, sym, ap, subst, ◌∙◌, List, [], ◌∷◌, ◌++◌,
  append_assoc, none, some, length, length-append, split_at, inl, inr, arith, ◌≢◌, Nat-cases,
}
use native.Mathlib.Nat.{pow-suc}
use light_nvm.Wire.Cursor.{
  at, M, pure, ◌>>=◌, ◌>>◌, store, load, to_bytes, of_bytes, u32, u64, serialize_data4,
  serialize_data8, deserialize_data4, deserialize_data8, memcpy, advance, c_string, load_string,
}
use light_nvm.Wire.Codec.{
  Codes, >>=-eq-some, >>=-eq-none, Reads, Codes-map, cut-append, cut-eq-none,
}

pub length-to_bytes : (n d : ℕ) → length (to_bytes n d) ≡ n
unfolding to_bytes
length-to_bytes zero d = refl
length-to_bytes (suc n) d = ap suc (length-to_bytes n (d / 256))

pub of_bytes-to_bytes : (n d : ℕ) → d < 256 ^ n → of_bytes (to_bytes n d) ≡ d
unfolding of_bytes to_bytes
of_bytes-to_bytes zero d h = omega arith
of_bytes-to_bytes (suc n) d h =
    omega (arith, of_bytes-to_bytes n (d / 256) (omega (arith, pow-suc 256 n)))

Codes-store : (bs : List ℕ) (n : ℕ) → length bs ≡ n → Codes (store bs) tt (load n) bs n
unfolding store load
Codes-store bs n e = record {
  writes = λ past room rest l. (
    bs,
    e,
    rw (cut-append room rest (length bs) (l ∙ sym e), store),
    λ past' rest'. rw (cut-append bs rest' n e, load),
  );
  faults = λ past rest h. rw (cut-eq-none (length bs) rest (omega arith), store);
}

-- A 4-byte field comes back as the value converted to `uint32_t`.
pub Codes-data4 : (d : ℕ) → Codes (serialize_data4 d) tt deserialize_data4 (u32 d) 4
unfolding serialize_data4 deserialize_data4
Codes-data4 d =
    subst (λ v. Codes (store (to_bytes 4 (u32 d))) tt deserialize_data4 v 4)
      (of_bytes-to_bytes 4 (u32 d) (omega arith))
      (Codes-map of_bytes (Codes-store (to_bytes 4 (u32 d)) 4 (length-to_bytes 4 (u32 d))))

-- An 8-byte field comes back as the value converted to `uint64_t`.
pub Codes-data8 : (d : ℕ) → Codes (serialize_data8 d) tt deserialize_data8 (u64 d) 8
unfolding serialize_data8 deserialize_data8
Codes-data8 d =
    subst (λ v. Codes (store (to_bytes 8 (u64 d))) tt deserialize_data8 v 8)
      (of_bytes-to_bytes 8 (u64 d) (omega arith))
      (Codes-map of_bytes (Codes-store (to_bytes 8 (u64 d)) 8 (length-to_bytes 8 (u64 d))))

-- A string without NUL characters.
abbrev pub IsText : List ℕ → Type 0
IsText [] = Unit
IsText (c ∷ cs) = (c ≢ 0) × IsText cs

c_string-terminated : (s rest : List ℕ) → IsText s → c_string (s ++ 0 ∷ rest) ≡ some s
unfolding c_string
c_string-terminated [] rest h = refl
c_string-terminated (c ∷ s) rest h = ground (arith, c_string-terminated s rest h.1)

memcpy-fits :
    (src x y past : List ℕ)
    → length x ≡ length src
    → memcpy src (at past (x ++ y)) ≡ some (tt, at past (src ++ y))
unfolding memcpy
memcpy-fits src x y past e = rw (cut-append x y (length src) e, memcpy)

memcpy-eq-none :
    (src past rest : List ℕ) → length rest < length src → memcpy src (at past rest) ≡ none
unfolding memcpy
memcpy-eq-none src past rest h = rw (cut-eq-none (length src) rest h, memcpy)

advance-fits :
    (k : ℕ) (x y past : List ℕ)
    → length x ≡ k
    → advance k (at past (x ++ y)) ≡ some (tt, at (past ++ x) y)
unfolding advance
advance-fits k x y past e = rw (cut-append x y k e, advance)

advance-eq-none : (k : ℕ) (past rest : List ℕ) → length rest < k → advance k (at past rest) ≡ none
unfolding advance
advance-eq-none k past rest h = rw (cut-eq-none k rest h, advance)

load_string-terminated :
    (s past rest : List ℕ)
    → IsText s
    → load_string (at past (s ++ 0 ∷ rest)) ≡ some (s, at past (s ++ 0 ∷ rest))
unfolding load_string
load_string-terminated s past rest h = rw (c_string-terminated s rest h)

-- `memcpy(p, s.c_str(), s.length() + 1); p += k;` against `s = p; p += k;`.
module _ (s : List ℕ) (k : ℕ) (text : IsText s) (fits : length s < k) where
  abbrev put_string : M (Unit {0})
  put_string = memcpy (s ++ 0 ∷ []) >> advance k

  abbrev get_string : M (List ℕ)
  get_string = load_string >>= λ t. advance k >> pure t

  length-terminated : length (s ++ 0 ∷ []) ≡ length s + 1
  length-terminated = length-append s (0 ∷ [])

  length-padded :
      (x y : List ℕ)
      → length x ≡ length s + 1
      → length (x ++ y) ≡ k
      → length ((s ++ 0 ∷ []) ++ y) ≡ k
  length-padded x y ex e =
      omega (arith, length-append x y, length-append (s ++ 0 ∷ []) y, length-terminated)

  -- The bytes `y` between the terminator and the next field stay as the block had them.
  put_string-padded :
      (past x y rest : List ℕ)
      → length x ≡ length s + 1
      → length (x ++ y) ≡ k
      → put_string (at past ((x ++ y) ++ rest)) ≡ some (tt, at (past ++ ((s ++ 0 ∷ []) ++ y)) rest)
  put_string-padded past x y rest ex e = rw append_assoc (
      >>=-eq-some (memcpy (s ++ 0 ∷ [])) (λ _. advance k)
        (memcpy-fits (s ++ 0 ∷ []) x (y ++ rest) past (ex ∙ sym length-terminated))
      ∙ ap (λ t. advance k (at past t)) (sym (append_assoc (s ++ 0 ∷ []) y rest))
      ∙ advance-fits k ((s ++ 0 ∷ []) ++ y) rest past (length-padded x y ex e))

  get_string-padded :
      (x y : List ℕ)
      → length x ≡ length s + 1
      → length (x ++ y) ≡ k
      → Reads get_string s ((s ++ 0 ∷ []) ++ y)
  get_string-padded x y ex e past rest =
      >>=-eq-some load_string (λ t. advance k >> pure t)
        (rw (regroup y rest) (load_string-terminated s past (y ++ rest) text))
      ∙ >>=-eq-some (advance k) (λ _. pure s)
          (advance-fits k ((s ++ 0 ∷ []) ++ y) rest past (length-padded x y ex e))
    where
      regroup : (y rest : List ℕ) → ((s ++ 0 ∷ []) ++ y) ++ rest ≡ s ++ 0 ∷ (y ++ rest)
      regroup y rest = simp append_assoc

  put_string-eq-none : (past rest : List ℕ) → length rest < k → put_string (at past rest) ≡ none
  put_string-eq-none past rest h = elim (Nat-cases (length rest) (length s + 1)) [
    | inl short ↦
        >>=-eq-none (memcpy (s ++ 0 ∷ [])) (λ _. advance k) _
          (memcpy-eq-none (s ++ 0 ∷ []) past rest (omega (arith, length-terminated)))
    | inr long ↦ beyond (split_at (length s + 1) rest long)
  ]
    where
      beyond :
          (x : List ℕ) × (y : List ℕ) × (length x ≡ length s + 1) × (rest ≡ x ++ y)
          → put_string (at past rest) ≡ none
      beyond (x, y, ex, er) = rw er (
          >>=-eq-some (memcpy (s ++ 0 ∷ [])) (λ _. advance k)
            (memcpy-fits (s ++ 0 ∷ []) x y past (ex ∙ sym length-terminated))
          ∙ advance-eq-none k past ((s ++ 0 ∷ []) ++ y) (
              omega (
                arith,
                ap length er,
                length-append x y,
                length-append (s ++ 0 ∷ []) y,
                length-terminated,
              )))

  pub Codes-string : Codes put_string tt get_string s k
  Codes-string = record {
    writes = λ past room rest e. padded past rest (split_at (length s + 1) room (omega arith)) e;
    faults = put_string-eq-none;
  }
    where
      padded :
          (past rest : List ℕ) {room : List ℕ}
          → (x : List ℕ) × (y : List ℕ) × (length x ≡ length s + 1) × (room ≡ x ++ y)
          → length room ≡ k
          → (out : List ℕ) × (length out ≡ k)
            × (put_string (at past (room ++ rest)) ≡ some (tt, at (past ++ out) rest))
            × Reads get_string s out
      padded past rest (x, y, ex, er) e =
          let e' = sym (ap length er) ∙ e in
          (
            (s ++ 0 ∷ []) ++ y,
            length-padded x y ex e',
            rw er (put_string-padded past x y rest ex e'),
            get_string-padded x y ex e',
          )
