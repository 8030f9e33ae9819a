-- ===== src/Vssd/RoundTrip/Luns.antt =====
-- The wire format of LUNs and channels.
use light_nvm.Base.{
  All, All-map, total, ℕ, ◌+◌, ◌^◌, ◌<◌, ◌≡◌, ◌≢◌, arith, refl, ap, List, [], ◌∷◌, length, map,
  Bool-cases, inl, inr, if◌then◌else◌, ◌==◌, ==_iff, subst₂,
}
use light_nvm.Wire.Cursor.{M, pure, u32}
use light_nvm.Wire.Codec.{
  Codes, Codes-bind, Codes-map, Codes-sized, Codes-counted, Codes-cast, Codes-pure,
}
use light_nvm.Wire.Fields.{Codes-data4}
use light_nvm.Wire.Loops.{for_each, read_many, Codes-for_each}
use light_nvm.Vssd.Lun.{VirtualLun}
use light_nvm.Vssd.Lun
use light_nvm.Vssd.Channel.{VirtualChannel}
use light_nvm.Vssd.Channel
use light_nvm.Vssd.Member

-- Each member of the LUN fits its `uint32_t`.
pub record IsLun (l : VirtualLun) : Type 0 where
  pub id : l.lun_id < 2 ^ 32
  pub start : l.block_start < 2 ^ 32
  pub count : l.num_blocks < 2 ^ 32

abbrev narrowed : VirtualLun → VirtualLun
narrowed l = record {
  lun_id = u32 l.lun_id;
  block_start = u32 l.block_start;
  num_blocks = u32 l.num_blocks;
}

narrowed_lem : (l : VirtualLun) → IsLun l → narrowed l ≡ l
narrowed_lem l v = ground arith

pub Codes-lun : (l : VirtualLun) → IsLun l → Codes (Lun.serialize l) 12 Lun.of_buffer l 12
unfolding Lun.serialize Lun.of_buffer
Codes-lun l v = Codes-cast (narrowed_lem l v) refl (
    Codes-sized (
      Codes-bind _ _ (Codes-data4 l.lun_id)
        (Codes-bind _ _ (Codes-data4 l.block_start) (Codes-map _ (Codes-data4 l.num_blocks)))))

-- The members fit their types; a channel that is shared counts its LUNs, any other lists none.
pub record IsChannel (c : VirtualChannel) : Type 0 where
  pub id : c.channel_id < 2 ^ 32
  pub flag : c.shared < 2 ^ 32
  pub blocks : c.total_blocks < 2 ^ 32
  pub count : c.num_luns < 2 ^ 32
  pub listed : c.shared ≡ 1 → c.num_luns ≡ length c.luns
  pub whole : c.shared ≢ 1 → c.luns ≡ []
  pub luns_fit : All IsLun c.luns

-- The bytes that the channel takes.
abbrev pub channel_size : VirtualChannel → ℕ
channel_size c = 16 + total (λ _. 12) c.luns

map_id {ℓ} : {A : Type ℓ} (xs : List A) → map (λ x. x) xs ≡ xs
map_id [] = refl
map_id (x ∷ xs) = ap (◌∷◌ x) (map_id xs)

pub Codes-members {ℓ ℓ'} :
    {A : Type ℓ} {R : Type ℓ'} {P : A → Type 0} (f : A → M R) (g : M A) (ret : A → R) (size : A → ℕ)
    → ((x : A) → P x → Codes (f x) (ret x) g x (size x))
    → (xs : List A) → All P xs
    → Codes (for_each f xs) tt (read_many (length xs) g) xs (total size xs)
Codes-members f g ret size codes xs h =
    Codes-cast (map_id xs) refl (Codes-for_each f g ret (λ x. x) size xs (All-map codes xs h))

-- What follows the four words of a channel.
Codes-luns :
    (luns : List VirtualLun) (shared num_luns : ℕ)
    → (shared ≡ 1 → num_luns ≡ length luns)
    → (shared ≢ 1 → luns ≡ [])
    → All IsLun luns
    → Codes
        (if shared == 1 then for_each Lun.serialize luns else pure tt)
        tt
        (if shared == 1 then read_many num_luns Lun.of_buffer else pure [])
        luns
        (total (λ _. 12) luns)
Codes-luns luns shared num_luns listed whole fit = elim (Bool-cases (shared == 1)) [
  | inl e ↦
      rw (e, listed ((==_iff shared 1).0 e))
        (Codes-members Lun.serialize Lun.of_buffer (λ _. 12) (λ _. 12) Codes-lun luns fit)
  | inr e ↦ rw (e, whole (λ one. cc (e, (==_iff shared 1).1 one))) (Codes-pure tt [])
]

abbrev narrowed_channel : VirtualChannel → VirtualChannel
narrowed_channel c = record {
  channel_id = u32 c.channel_id;
  shared = u32 c.shared;
  total_blocks = u32 c.total_blocks;
  num_luns = u32 c.num_luns;
  luns = c.luns;
}

narrowed_channel_lem : (c : VirtualChannel) → IsChannel c → narrowed_channel c ≡ c
narrowed_channel_lem c v = ground arith

-- The tail again, as the reader meets it: with the words that it has read.
Codes-luns_read :
    (c : VirtualChannel)
    → IsChannel c
    → Codes
        (if c.shared == 1 then for_each Lun.serialize c.luns else pure tt)
        tt
        (if u32 c.shared == 1 then read_many (u32 c.num_luns) Lun.of_buffer else pure [])
        c.luns
        (total (λ _. 12) c.luns)
Codes-luns_read c v =
    subst₂
      (λ (s n : ℕ).
        Codes (if c.shared == 1 then for_each Lun.serialize c.luns else pure tt) tt
          (if s == 1 then read_many n Lun.of_buffer else pure []) c.luns (total (λ _. 12) c.luns))
      (omega (arith, v.flag)) (omega (arith, v.count))
      (Codes-luns c.luns c.shared c.num_luns v.listed v.whole v.luns_fit)

pub Codes-channel :
    (c : VirtualChannel)
    → IsChannel c
    → Codes
        (Channel.serialize c)
        (channel_size c)
        (Channel.deserialize (Channel.make 0 0 0 0))
        (c, channel_size c)
        (channel_size c)
unfolding Channel.serialize Channel.deserialize Channel.make
Codes-channel c v = Codes-counted (
    Codes-sized (
      Codes-cast (narrowed_channel_lem c v) (omega arith) (
        Codes-bind _ _ (Codes-data4 c.channel_id) (
          Codes-bind _ _ (Codes-data4 c.shared) (
            Codes-bind _ _ (Codes-data4 c.total_blocks)
              (Codes-bind _ _ (Codes-data4 c.num_luns) (Codes-map _ (Codes-luns_read c v))))))))

pub Codes-new_channel :
    (c : VirtualChannel)
    → IsChannel c
    → Codes (Channel.serialize c) (channel_size c) Member.new_channel c (channel_size c)
unfolding Member.new_channel
Codes-new_channel c v = Codes-map _ (Codes-channel c v)
