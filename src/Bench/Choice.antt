-- ===== src/Bench/Choice.antt =====
-- `main` of vblk_writetest.cc and vblk_readtest.cc: which channels are tested. One more channel is tested
-- each time.
use light_nvm.Base.{
  subst, append_assoc, ℕ, zero, suc, ◌+◌, ◌/◌, ◌%◌, ◌≡◌, inl, inr, ◌⊎◌, none, refl, ap, arith, List,
  [], ◌∷◌, ◌++◌, Bool, true, false, Option, some, ltb, ◌==◌, if◌then◌else◌, Bool-cases,
}
use mathlib.Core.Path.{fun_ext}
use light_nvm.Base.Partial.{◌>>=◌}

-- "/dev/nvme0n1"
abbrev pub dev1 : List ℕ
dev1 = b'/' ∷ b'd' ∷ b'e' ∷ b'v' ∷ b'/' ∷ b'n' ∷ b'v' ∷ b'm' ∷ b'e' ∷ b'0' ∷ b'n' ∷ b'1' ∷ []

module _ {ℓ} {S : Type ℓ} (test : List ℕ → S → Option S) where
  -- The `while` loop over the channels of nvme0n1, of which `n` rounds are left.
  unfoldable pub skip_loop : ℕ → ℕ → List ℕ → S → Option S
  skip_loop zero channel channels s = some s
  skip_loop (suc n) channel channels s =
      if ((channel / 2) % 2) == 1
      then skip_loop n (channel + 1) channels s
      else (test (channels ++ channel ∷ []) s
          >>= skip_loop n (channel + 1) (channels ++ channel ∷ []))

  -- The `for` loop over the channels of another device.
  unfoldable pub all_loop : ℕ → ℕ → List ℕ → S → Option S
  all_loop zero channel channels s = some s
  all_loop (suc n) channel channels s =
      test (channels ++ channel ∷ []) s >>= all_loop n (channel + 1) (channels ++ channel ∷ [])

  -- Some channels, tested one more at a time behind those that are tested already.
  abbrev pub test_more : List ℕ → List ℕ → S → Option S
  test_more channels [] s = some s
  test_more channels (c ∷ cs) s = test (channels ++ c ∷ []) s >>= test_more (channels ++ c ∷ []) cs

-- The numbers from `channel` on.
abbrev pub channels_from : ℕ → ℕ → List ℕ
channels_from channel zero = []
channels_from channel (suc n) = channel ∷ channels_from (channel + 1) n

-- Those of the channels that work on nvme0n1: the first two of each four.
abbrev pub working : List ℕ → List ℕ
working [] = []
working (c ∷ cs) = if ltb (c % 4) 2 then c ∷ working cs else working cs

-- The channels of a device that are tested.
abbrev pub tested : Bool → ℕ → List ℕ
tested is_dev1 n = if is_dev1 then working (channels_from 0 n) else channels_from 0 n

-- "nvme0n1 only has channel 0, 1, 4, 5, 8, 9, 12, 13 working"
working_of_16 : working (channels_from 0 16) ≡ 0 ∷ 1 ∷ 4 ∷ 5 ∷ 8 ∷ 9 ∷ 12 ∷ 13 ∷ []
working_of_16 = refl

skipped : (channel : ℕ) → ltb (channel % 4) 2 ≡ false → (((channel / 2) % 2) == 1) ≡ true
skipped channel h = ground arith

taken : (channel : ℕ) → ltb (channel % 4) 2 ≡ true → (((channel / 2) % 2) == 1) ≡ false
taken channel h = ground arith

module _ {ℓ} {S : Type ℓ} (test : List ℕ → S → Option S) where
  -- The loop for nvme0n1 tests the channels whose number is 0 or 1 modulo 4, and no other.
  pub skip_loop-working :
      (n channel : ℕ) (channels : List ℕ) (s : S)
      → skip_loop test n channel channels s
        ≡ test_more test channels (working (channels_from channel n)) s
  unfolding skip_loop
  skip_loop-working zero channel channels s = refl
  skip_loop-working (suc n) channel channels s = elim (Bool-cases (ltb (channel % 4) 2)) [
    | inl works ↦
        rw (works, taken channel works)
          (ap (λ f. test (channels ++ channel ∷ []) s >>= f)
            (fun_ext (skip_loop-working n (channel + 1) (channels ++ channel ∷ []))))
    | inr broken ↦
        rw (broken, skipped channel broken) (skip_loop-working n (channel + 1) channels s)
  ]

  all_loop-test_more :
      (n channel : ℕ) (channels : List ℕ) (s : S)
      → all_loop test n channel channels s ≡ test_more test channels (channels_from channel n) s
  unfolding all_loop
  all_loop-test_more zero channel channels s = refl
  all_loop-test_more (suc n) channel channels s =
      ap (λ f. test (channels ++ channel ∷ []) s >>= f)
        (fun_ext (all_loop-test_more n (channel + 1) (channels ++ channel ∷ [])))

  -- What `main` does with the channels of a device.
  pub loops-test_more :
      (is_dev1 : Bool) (n : ℕ) (s : S)
      → (if is_dev1 then skip_loop test n 0 [] s else all_loop test n 0 [] s)
        ≡ test_more test [] (tested is_dev1 n) s
  loops-test_more true n s = skip_loop-working n 0 [] s
  loops-test_more false n s = all_loop-test_more n 0 [] s

  -- Of the tests one after the other, those of `front` end, and the next one, of one channel more, fails.
  pub record Fails (F : List ℕ → S → Type 0) (channels cs : List ℕ) (s : S) : Type ℓ where
    pub fails : test_more test channels cs s ≡ none
    pub front : List ℕ
    pub channel : ℕ
    pub back : List ℕ
    pub state : S
    pub split : cs ≡ front ++ channel ∷ back
    pub reached : test_more test channels front s ≡ some state
    pub failed : F (channels ++ (front ++ channel ∷ [])) state

  -- Each test ends or fails, and so do the tests one after the other.
  pub test_more-cases :
      {F : List ℕ → S → Type 0}
      (each : (channels : List ℕ) (s : S)
        → ((s' : S) × (test channels s ≡ some s')) ⊎ ((test channels s ≡ none) × F channels s))
      (channels cs : List ℕ) (s : S)
      → ((s' : S) × (test_more test channels cs s ≡ some s')) ⊎ Fails F channels cs s
  test_more-cases each channels [] s = inl (s, refl)
  test_more-cases {F = F} each channels (c ∷ cs) s = elim (each (channels ++ c ∷ []) s) [
    | inr (run, failed) ↦ inr (record {
      fails = rw (◌>>=◌, run) refl;
      front = [];
      channel = c;
      back = cs;
      state = s;
      split = refl;
      reached = refl;
      failed = failed;
    })
    | inl (s1, run) ↦ elim (test_more-cases {F = F} each (channels ++ c ∷ []) cs s1) [
      | inl (s2, run2) ↦ inl (s2, rw (◌>>=◌, run) run2)
      | inr f ↦ inr (record {
        fails = rw (◌>>=◌, run) f.fails;
        front = c ∷ f.front;
        channel = f.channel;
        back = f.back;
        state = f.state;
        split = ap (◌∷◌ c) f.split;
        reached = rw (◌>>=◌, run) f.reached;
        failed =
            subst (λ xs. F xs f.state) (append_assoc channels (c ∷ []) (f.front ++ f.channel ∷ []))
              f.failed;
      })
    ]
  ]

  -- If each test ends, so do they one after the other.
  pub test_more-ends :
      (ends : (channels : List ℕ) (s : S) → (s' : S) × (test channels s ≡ some s'))
      (channels cs : List ℕ) (s : S)
      → (s' : S) × (test_more test channels cs s ≡ some s')
  test_more-ends ends channels cs s =
      elim (test_more-cases {F = λ xs x. ⊥} (λ xs x. inl (ends xs x)) channels cs s) [
        | inl done ↦ done
        | inr f ↦ absurd f.failed
      ]
