-- ===== src/Wire/Loops.antt =====
-- The loops over members: `for (x : xs) x->serialize(p)` and `for (i = 0; i < n; i++) … = read(p)`.
use light_nvm.Base.{ℕ, zero, suc, List, [], ◌∷◌, length, map, All, total}
use light_nvm.Wire.Cursor.{M, pure, ◌>>=◌}
use light_nvm.Wire.Codec.{Codes, Codes-pure, Codes-bind, Codes-map}

unfoldable pub for_each {ℓ κ} : {A : Type ℓ} {B : Type κ} → (A → M B) → List A → M (Unit {0})
for_each f [] = pure tt
for_each f (x ∷ xs) = f x >>= λ _. for_each f xs

unfoldable pub read_many {ℓ} : {A : Type ℓ} → ℕ → M A → M (List A)
read_many zero r = pure []
read_many (suc n) r = do x ← r; xs ← read_many n r; pure (x ∷ xs)

-- Where each member comes back, so does the list of them.
pub Codes-for_each {ℓ κ κ'} :
    {A : Type ℓ} {R : Type κ} {B : Type κ'} (f : A → M R) (g : M B) (ret : A → R) (seen : A → B)
    (size : A → ℕ) (xs : List A)
    → All (λ x. Codes (f x) (ret x) g (seen x) (size x)) xs
    → Codes (for_each f xs) tt (read_many (length xs) g) (map seen xs) (total size xs)
unfolding for_each read_many
Codes-for_each f g ret seen size [] h = Codes-pure tt []
Codes-for_each f g ret seen size (x ∷ xs) h =
    Codes-bind (λ _. for_each f xs) (λ b. read_many (length xs) g >>= λ bs. pure (b ∷ bs)) h.0
      (Codes-map (λ bs. seen x ∷ bs) (Codes-for_each f g ret seen size xs h.1))
