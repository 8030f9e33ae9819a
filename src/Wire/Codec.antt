-- ===== src/Wire/Codec.antt =====
-- When a reader takes back what a writer has stored.
use light_nvm.Base.{
  take, drop, ◌≤◌, ℕ, zero, suc, ◌+◌, ◌-◌, ◌<◌, ◌≤◌, ◌≡◌, refl, ap, subst₂, ◌∙◌, List, [], ◌∷◌,
  ◌++◌, append_assoc, append-nil, none, some, length, Nat-cases, Option-cases, length-append,
  nil_of_length, split_at, inl, inr, arith,
}
use mathlib.Core.Path.{fun_ext}
use light_nvm.Wire.Cursor.{Cursor, at, M, pure, ◌>>=◌, cut, sized, counted, position}

pub cut-append : (xs ys : List ℕ) (n : ℕ) → length xs ≡ n → cut n (xs ++ ys) ≡ some (xs, ys)
unfolding cut
cut-append [] ys zero e = refl
cut-append [] ys (suc n) e = absurd (omega arith)
cut-append (x ∷ xs) ys zero e = absurd (omega arith)
cut-append (x ∷ xs) ys (suc n) e = rw (cut-append xs ys n (omega arith))

pub cut-eq-none : (n : ℕ) (xs : List ℕ) → length xs < n → cut n xs ≡ none
unfolding cut
cut-eq-none zero xs h = absurd (omega arith)
cut-eq-none (suc n) [] h = refl
cut-eq-none (suc n) (x ∷ xs) h = rw (cut-eq-none n xs (omega arith))

pub cut-take : (n : ℕ) (xs : List ℕ) → n ≤ length xs → cut n xs ≡ some (take n xs, drop n xs)
unfolding cut
cut-take zero xs h = refl
cut-take (suc n) [] h = absurd (omega arith)
cut-take (suc n) (x ∷ xs) h = rw (cut-take n xs (omega arith)) refl

-- The reader takes `b` from the bytes `out`, whatever follows, and moves behind them.
abbrev pub Reads {ℓ} : {B : Type ℓ} → M B → B → List ℕ → Type ℓ
Reads r b out = (past rest : List ℕ) → r (at past (out ++ rest)) ≡ some (b, at (past ++ out) rest)

-- The writer returns `a` and stores `n` bytes, from which the reader takes `b`.
pub record Codes {ℓ κ} {A : Type ℓ} {B : Type κ} (w : M A) (a : A) (r : M B) (b : B) (n : ℕ)
    : Type (ℓ ⊔ κ) where
  pub writes :
      (past room rest : List ℕ)
      → length room ≡ n
      → (out : List ℕ) × (length out ≡ n)
        × (w (at past (room ++ rest)) ≡ some (a, at (past ++ out) rest))
        × Reads r b out
  pub faults : (past rest : List ℕ) → length rest < n → w (at past rest) ≡ none

pub >>=-eq-none {ℓ κ} :
    {A : Type ℓ} {B : Type κ} (w : M A) (f : A → M B) (c : Cursor) → w c ≡ none → (w >>= f) c ≡ none
>>=-eq-none w f c e = rw (e, ◌>>=◌)

pub >>=-eq-some {ℓ κ} :
    {A : Type ℓ} {B : Type κ} (w : M A) (f : A → M B) {c c' : Cursor} {a : A}
    → w c ≡ some (a, c')
    → (w >>= f) c ≡ f a c'
>>=-eq-some w f e = rw (e, ◌>>=◌)

module _ {ℓ κ} {A : Type ℓ} {B : Type κ} {w : M A} {a : A} {r : M B} {b : B} {n : ℕ} where
  -- What both do next, with the values that the first parts return.
  pub Codes-bind {ℓ' κ'} :
      {A' : Type ℓ'} {B' : Type κ'} (f : A → M A') (k : B → M B') {a' : A'} {b' : B'} {m : ℕ}
      → Codes w a r b n
      → Codes (f a) a' (k b) b' m
      → Codes (w >>= f) a' (r >>= k) b' (n + m)
  Codes-bind f k {a'} {b'} {m} p q = record {
    writes = λ past room rest e. parts past rest (split_at n room (omega arith)) e;
    faults = λ past rest h. elim (Nat-cases (length rest) n) [
      | inl short ↦ >>=-eq-none w f _ (p.faults past rest short)
      | inr long ↦ too_short past rest h (split_at n rest long)
    ];
  }
    where
      parts :
          (past rest : List ℕ) {room : List ℕ}
          → (x : List ℕ) × (y : List ℕ) × (length x ≡ n) × (room ≡ x ++ y)
          → length room ≡ n + m
          → (out : List ℕ) × (length out ≡ n + m)
            × ((w >>= f) (at past (room ++ rest)) ≡ some (a', at (past ++ out) rest))
            × Reads (r >>= k) b' out
      parts past rest (x, y, ex, er) e =
          let (o, l, wo, ro) = p.writes past x (y ++ rest) ex in
          let (o', l', wo', ro') =
            q.writes (past ++ o) y rest (omega (arith, length-append x y, ap length er)) in
          (
            o ++ o',
            omega (arith, length-append o o'),
            rw (er, append_assoc) (>>=-eq-some w f wo ∙ wo' ∙ rw append_assoc),
            λ past' rest'. rw append_assoc (
                >>=-eq-some r k (ro past' (o' ++ rest'))
                ∙ ro' (past' ++ o) rest'
                ∙ rw append_assoc),
          )

      too_short :
          (past rest : List ℕ)
          → length rest < n + m
          → (x : List ℕ) × (y : List ℕ) × (length x ≡ n) × (rest ≡ x ++ y)
          → (w >>= f) (at past rest) ≡ none
      too_short past rest h (x, y, ex, er) =
          let (o, l, wo, ro) = p.writes past x y ex in
          rw er (
            >>=-eq-some w f wo
            ∙ q.faults (past ++ o) y (omega (arith, length-append x y, ap length er)))

  pub Codes-cast : {c : B} {m : ℕ} → b ≡ c → n ≡ m → Codes w a r b n → Codes w a r c m
  Codes-cast e f = subst₂ (λ x y. Codes w a r x y) e f

  -- The reader may end with `pure`.
  pub Codes-map {κ'} :
      {B' : Type κ'} (k : B → B') → Codes w a r b n → Codes w a (r >>= λ x. pure (k x)) (k b) n
  Codes-map k p = record {
    writes = λ past room rest e.
        let (o, l, wo, ro) = p.writes past room rest e in
        (o, l, wo, λ past' rest'. >>=-eq-some r _ (ro past' rest'));
    faults = p.faults;
  }

pub Codes-pure {ℓ κ} : {A : Type ℓ} {B : Type κ} (a : A) (b : B) → Codes (pure a) a (pure b) b 0
Codes-pure a b = record {
  writes = λ past room rest e.
      ([], refl, rw (nil_of_length room e, append-nil), λ past' rest'. rw append-nil);
  faults = λ past rest h. absurd (omega arith);
}

grown : (past o : List ℕ) (n : ℕ) → length o ≡ n → length (past ++ o) - length past ≡ n
grown past o n l = omega (arith, length-append past o)

-- The number of bytes that a writer reports as `p - start`.
pub Codes-sized {ℓ} :
    {B : Type ℓ} {w : M (Unit {0})} {r : M B} {b : B} {n : ℕ}
    → Codes w tt r b n
    → Codes (sized w) n r b n
unfolding sized position
Codes-sized {n} p = record {
  writes = λ past room rest e.
      let (o, l, wo, ro) = p.writes past room rest e in
      (o, l, rw (wo, ◌>>=◌) (ap (λ (k : ℕ). some (k, at (past ++ o) rest)) (grown past o n l)), ro);
  faults = λ past rest h. rw (p.faults past rest h, ◌>>=◌);
}

-- The same of a reader.
pub Codes-counted {ℓ κ} :
    {A : Type ℓ} {B : Type κ} {w : M A} {a : A} {r : M B} {b : B} {n : ℕ}
    → Codes w a r b n
    → Codes w a (counted r) (b, n) n
unfolding counted position
Codes-counted {b} {n} p = record {
  writes = λ past room rest e.
      let (o, l, wo, ro) = p.writes past room rest e in
      (
        o,
        l,
        wo,
        λ past' rest'.
            rw (ro past' rest', ◌>>=◌)
              (ap (λ (k : ℕ). some ((b, k), at (past' ++ o) rest')) (grown past' o n l)),
      );
  faults = p.faults;
}

-- A writer at the start of a buffer, and the reader at the start of what it has stored.
pub Codes-buffer {ℓ κ} :
    {A : Type ℓ} {B : Type κ} {w : M A} {a : A} {r : M B} {b : B} {n : ℕ}
    → Codes w a r b n
    → (buffer : List ℕ) → n ≤ length buffer
    → (out : List ℕ) × (rest : List ℕ) × (length out ≡ n)
      × (w (at [] buffer) ≡ some (a, at out rest))
      × (r (at [] (out ++ rest)) ≡ some (b, at out rest))
Codes-buffer {n} p buffer h =
    let (room, rest, e, split) = split_at n buffer h in
    let (out, l, wo, ro) = p.writes [] room rest e in (out, rest, l, rw split wo, ro [] rest)

-- A sequence in three parts, bracketed either way.
pub >>=-assoc {ℓ κ λ'} :
    {A : Type ℓ} {B : Type κ} {C : Type λ'} (m : M A) (f : A → M B) (g : B → M C)
    → ((m >>= f) >>= g) ≡ (m >>= λ a. f a >>= g)
>>=-assoc m f g =
    fun_ext
      λ c. elim (Option-cases (m c)) [ inl e ↦ rw (e, ◌>>=◌) | inr ((a, c'), e) ↦ rw (e, ◌>>=◌) ]
