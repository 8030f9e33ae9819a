-- ===== src/Bench/Sizes.antt =====
-- The loop over the sizes of a request: it ends, without an overflow, and tries each size that it should.
use native.Mathlib.Nat.{mod-eq_of_lt}
use light_nvm.Base.{
  length, ℕ, zero, suc, ◌*◌, ◌/◌, ◌%◌, ◌^◌, ◌<◌, ◌≤◌, ◌≡◌, ◌≢◌, inl, inr, ◌⊎◌, none, refl, arith,
  List, [], ◌∷◌, ◌++◌, All, append_assoc, append-nil, subst, sym, ==_eq_false, Option, some, true,
  false, Nat-cases, Bool-cases, ◌==◌, le→leb, lt→leb, lt→ltb,
}
use light_nvm.Base.Int.{ℤ, pos}
use light_nvm.Base.Partial.{◌>>=◌}
use light_nvm.Bench.{to_int, goes_on, rounds, twice, size_loop}

pub to_int-small : (n : ℕ) → n < 2 ^ 31 → to_int n ≡ pos n
to_int-small n h = let low : n % 2 ^ 32 ≡ n = omega arith in rw (low, lt→ltb n (2 ^ 31) h) refl

-- The row for one size.
abbrev pub row : List ℕ → ℕ → ℕ × ℤ
row channels n = (length channels, pos n)

-- `n`, doubled `k` times.
abbrev pub doubled : ℕ → ℕ → ℕ
doubled n zero = n
doubled n (suc k) = doubled (2 * n) k

-- The first `k` sizes from `n` on.
abbrev pub sizes : ℕ → ℕ → List ℕ
sizes n zero = []
sizes n (suc k) = n ∷ sizes (2 * n) k

-- Of a positive size, whether the loop goes on.
goes_on-yes : (n end : ℕ) → 0 < n → n ≤ end → end % n ≡ 0 → goes_on (pos n) (pos end) ≡ some true
unfolding goes_on
goes_on-yes n end p le d = rw (le→leb n end le, ==_eq_false n 0 (omega (arith, p)), d) refl

goes_on-large : (n end : ℕ) → end < n → goes_on (pos n) (pos end) ≡ some false
unfolding goes_on
goes_on-large n end h = rw (lt→leb n end h) refl

goes_on-rest : (n end : ℕ) → 0 < n → n ≤ end → end % n ≢ 0 → goes_on (pos n) (pos end) ≡ some false
unfolding goes_on
goes_on-rest n end p le d =
    rw (le→leb n end le, ==_eq_false n 0 (omega (arith, p)), ==_eq_false (end % n) 0 d) refl

twice-fits : (n : ℕ) → n < 2 ^ 30 → twice (pos n) ≡ some (pos (2 * n))
unfolding twice
twice-fits n h = rw (lt→ltb (2 * n) (2 ^ 31) (omega arith)) refl

module _ {ℓ κ} {S : Type ℓ} (body : ℤ → ℕ → S → Option S) (end : ℕ) (P : List ℕ → S → Type κ) where
  -- What the sizes from `n` on leave, after those that are done.
  pub record Tried (n : ℕ) (done : List ℕ) (outcome : Option S) : Type (ℓ ⊔ κ) where
    pub count : ℕ
    pub result : S
    pub ends : outcome ≡ some result
    pub holds : P (done ++ sizes n count) result
    pub divide : All (λ m. end % m ≡ 0) (sizes n count)
    pub last : end % doubled n count ≢ 0

  stops :
      (fuel n : ℕ) (done : List ℕ) (s : S)
      → goes_on (pos n) (pos end) ≡ some false
      → end % n ≢ 0
      → P done s
      → Tried n done (size_loop body (suc fuel) (pos end) (pos n) s)
  unfolding size_loop
  stops fuel n done s e last h = record {
    count = 0;
    result = s;
    ends = rw (size_loop, e) refl;
    holds = subst (λ xs. P xs s) (sym (append-nil done)) h;
    divide = tt;
    last = last;
  }

  module _ {κ'} (F : ℕ → S → Type κ') where
    -- The body of the loop failed for one of the sizes from `n` on, after it had passed those before.
    pub record Stopped (n : ℕ) (done : List ℕ) (outcome : Option S) : Type (ℓ ⊔ κ ⊔ κ') where
      pub count : ℕ
      pub state : S
      pub ends : outcome ≡ none
      pub holds : P (done ++ sizes n count) state
      pub divide : All (λ m. end % m ≡ 0) (sizes n (suc count))
      pub failed : F (doubled n count) state

    module _ (small : end < 2 ^ 30) (some_bytes : 0 < end)
        (step : (n : ℕ) (done : List ℕ) (s : S)
          → 0 < n
          → n ≤ end
          → end % n ≡ 0
          → P done s
          → ((s' : S) × (body (pos n) (end / n) s ≡ some s') × P (done ++ n ∷ []) s')
            ⊎ ((body (pos n) (end / n) s ≡ none) × F n s)) where
      -- The loop from a positive size on, if doubling that as often as there is fuel exceeds the
      -- end.
      pub size_loop-cases :
          (fuel n : ℕ) (done : List ℕ) (s : S)
          → 0 < n
          → end < doubled n fuel
          → P done s
          → Tried n done (size_loop body (suc fuel) (pos end) (pos n) s)
            ⊎ Stopped n done (size_loop body (suc fuel) (pos end) (pos n) s)
      unfolding size_loop rounds
      size_loop-cases zero n done s p enough h = inl (
          stops zero n done s (goes_on-large n end enough)
            (omega (arith, mod-eq_of_lt {n = end} {m = n} enough)) h)
      size_loop-cases (suc f) n done s p enough h = elim (Nat-cases end n) [
        | inl large ↦ inl (
            stops (suc f) n done s (goes_on-large n end large)
              (omega (arith, mod-eq_of_lt {n = end} {m = n} large)) h)
        | inr le ↦ elim (Bool-cases ((end % n) == 0)) [
          | inl divides ↦
              let d : end % n ≡ 0 = ground arith in
              elim (step n done s p le d h) [
                | inr (run, failed) ↦ inr (record {
                  count = 0;
                  state = s;
                  ends = rw (goes_on-yes n end p le d, ◌>>=◌, run) refl;
                  holds = subst (λ xs. P xs s) (sym (append-nil done)) h;
                  divide = (d, tt);
                  failed = failed;
                })
                | inl (s', run, h') ↦
                    elim (size_loop-cases f (2 * n) (done ++ n ∷ []) s' (omega arith) enough h') [
                      | inl t ↦ inl (record {
                        count = suc t.count;
                        result = t.result;
                        ends =
                            rw (goes_on-yes n end p le d, ◌>>=◌, run, twice-fits n (omega arith))
                              t.ends;
                        holds =
                            subst (λ xs. P xs t.result)
                              (append_assoc done (n ∷ []) (sizes (2 * n) t.count)) t.holds;
                        divide = (d, t.divide);
                        last = t.last;
                      })
                      | inr t ↦ inr (record {
                        count = suc t.count;
                        state = t.state;
                        ends =
                            rw (goes_on-yes n end p le d, ◌>>=◌, run, twice-fits n (omega arith))
                              t.ends;
                        holds =
                            subst (λ xs. P xs t.state)
                              (append_assoc done (n ∷ []) (sizes (2 * n) t.count)) t.holds;
                        divide = (d, t.divide);
                        failed = t.failed;
                      })
                    ]
              ]
          | inr rest ↦
              inl (stops (suc f) n done s (goes_on-rest n end p le (ground arith)) (ground arith) h)
        ]
      ]

  -- A loop whose body does not fail.
  pub size_loop-Tried :
      (small : end < 2 ^ 30) (some_bytes : 0 < end)
      (step : (n : ℕ) (done : List ℕ) (s : S)
        → 0 < n
        → n ≤ end
        → end % n ≡ 0
        → P done s
        → (s' : S) × (body (pos n) (end / n) s ≡ some s') × P (done ++ n ∷ []) s')
      (fuel n : ℕ) (done : List ℕ) (s : S)
      → 0 < n
      → end < doubled n fuel
      → P done s
      → Tried n done (size_loop body (suc fuel) (pos end) (pos n) s)
  size_loop-Tried small some_bytes step fuel n done s p enough h =
      elim (size_loop-cases (λ m x. ⊥) small some_bytes
        (λ m xs x q le d g. inl (step m xs x q le d g)) fuel n done s p enough h) [
          | inl t ↦ t
          | inr t ↦ absurd t.failed
        ]
