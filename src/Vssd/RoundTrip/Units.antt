-- ===== src/Vssd/RoundTrip/Units.antt =====
-- The wire format of units and of a whole virtual OCSSD.
use light_nvm.Base.{
  All, total, ℕ, ◌+◌, ◌^◌, ◌<◌, ◌≡◌, arith, refl, ap, ◌∙◌, subst, subst₂, List, [], ◌∷◌, ◌++◌,
  length,
}
use mathlib.Core.Path.{fun_ext}
use light_nvm.Wire.Cursor.{M, pure, ◌>>=◌, ◌>>◌, u32, u64, memcpy, advance, load_string}
use light_nvm.Wire.Codec.{
  Codes, Codes-bind, Codes-map, Codes-sized, Codes-counted, Codes-cast, >>=-assoc,
}
use light_nvm.Wire.Fields.{Codes-data4, Codes-data8, IsText, Codes-string}
use light_nvm.Wire.Loops.{for_each, read_many}
use light_nvm.Vssd.RoundTrip.Luns.{IsChannel, channel_size, Codes-members, Codes-new_channel}
use light_nvm.Vssd.Channel
use light_nvm.Vssd.Member.{VirtualUnit, NvmGeo, round_up4, round_up4_u32}
use light_nvm.Vssd.Member

-- Each member of the geometry fits its `size_t`.
pub record IsGeo (g : NvmGeo) : Type 0 where
  pub nchannels : g.nchannels < 2 ^ 64
  pub nluns : g.nluns < 2 ^ 64
  pub nplanes : g.nplanes < 2 ^ 64
  pub nblocks : g.nblocks < 2 ^ 64
  pub npages : g.npages < 2 ^ 64
  pub nsectors : g.nsectors < 2 ^ 64
  pub page_nbytes : g.page_nbytes < 2 ^ 64
  pub sector_nbytes : g.sector_nbytes < 2 ^ 64
  pub meta_nbytes : g.meta_nbytes < 2 ^ 64

abbrev narrowed_geo : NvmGeo → NvmGeo
narrowed_geo g = record {
  nchannels = u64 g.nchannels;
  nluns = u64 g.nluns;
  nplanes = u64 g.nplanes;
  nblocks = u64 g.nblocks;
  npages = u64 g.npages;
  nsectors = u64 g.nsectors;
  page_nbytes = u64 g.page_nbytes;
  sector_nbytes = u64 g.sector_nbytes;
  meta_nbytes = u64 g.meta_nbytes;
}

narrowed_geo_lem : (g : NvmGeo) → IsGeo g → narrowed_geo g ≡ g
narrowed_geo_lem g v = ground arith

pub Codes-geo :
    (g : NvmGeo) → IsGeo g → Codes (Member.serialize_geo g) 72 Member.deserialize_geo (g, 72) 72
unfolding Member.serialize_geo Member.deserialize_geo
Codes-geo g v = Codes-counted (
    Codes-sized (
      Codes-cast (narrowed_geo_lem g v) refl (
        Codes-bind _ _ (Codes-data8 g.nchannels) (
          Codes-bind _ _ (Codes-data8 g.nluns) (
            Codes-bind _ _ (Codes-data8 g.nplanes) (
              Codes-bind _ _ (Codes-data8 g.nblocks) (
                Codes-bind _ _ (Codes-data8 g.npages) (
                  Codes-bind _ _ (Codes-data8 g.nsectors) (
                    Codes-bind _ _ (Codes-data8 g.page_nbytes) (
                      Codes-bind _ _ (Codes-data8 g.sector_nbytes)
                        (Codes-map _ (Codes-data8 g.meta_nbytes))))))))))))

-- The name is a C string and short enough for its length to be rounded in 32 bits; the other
-- members fit their types.
pub record IsUnit (u : VirtualUnit) : Type 0 where
  pub text : IsText u.dev_name
  pub short : length u.dev_name + 4 < 2 ^ 32
  pub geo_fits : IsGeo u.geo
  pub count : length u.channels < 2 ^ 32
  pub channels_fit : All IsChannel u.channels

-- The bytes that the unit takes.
abbrev pub unit_size : VirtualUnit → ℕ
unit_size u = 80 + round_up4 (length u.dev_name + 1) + total channel_size u.channels

-- The name, and what follows it.
Codes-name {ℓ κ} :
    {A : Type ℓ} {B : Type κ} (s : List ℕ) (k : ℕ) (w : M A) (g : List ℕ → M B) {a : A} {b : B}
    {m : ℕ}
    → IsText s
    → length s < k
    → Codes w a (g s) b m
    → Codes
        (memcpy (s ++ 0 ∷ []) >> (advance k >> w))
        a
        (load_string >>= λ t. advance k >> g t)
        b
        (k + m)
Codes-name s k w g {a} {b} {m} text fits rest =
    subst₂ (λ v r. Codes v a r b (k + m))
      (>>=-assoc (memcpy (s ++ 0 ∷ [])) (λ _. advance k) (λ _. w))
      (>>=-assoc load_string (λ t. advance k >> pure t) g
        ∙ ap (λ f. load_string >>= f) (fun_ext λ t. >>=-assoc (advance k) (λ _. pure t) g))
      (Codes-bind (λ _. w) g (Codes-string s k text fits) rest)

-- The padding that the reader computes from the length that it has read.
Codes-name_read {ℓ κ} :
    {A : Type ℓ} {B : Type κ} (s : List ℕ) (w : M A) (g : List ℕ → M B) {a : A} {b : B} {m : ℕ}
    → IsText s
    → length s + 4 < 2 ^ 32
    → Codes w a (g s) b m
    → Codes
        (memcpy (s ++ 0 ∷ []) >> (advance (round_up4 (length s + 1)) >> w))
        a
        (load_string >>= λ t. advance (round_up4_u32 (u32 (length s + 1))) >> g t)
        b
        (round_up4 (length s + 1) + m)
Codes-name_read s w g {a} {b} {m} text short rest =
    subst
      (λ (k : ℕ).
        Codes (memcpy (s ++ 0 ∷ []) >> (advance (round_up4 (length s + 1)) >> w)) a
          (load_string >>= λ t. advance k >> g t) b (round_up4 (length s + 1) + m))
      (omega arith) (Codes-name s (round_up4 (length s + 1)) w g text (omega arith) rest)

abbrev narrowed_count : VirtualUnit → ℕ
narrowed_count u = u32 (length u.channels)

Codes-channels :
    (u : VirtualUnit)
    → IsUnit u
    → Codes
        (for_each Channel.serialize u.channels)
        tt
        (read_many (narrowed_count u) Member.new_channel)
        u.channels
        (total channel_size u.channels)
Codes-channels u v =
    subst
      (λ (n : ℕ).
        Codes (for_each Channel.serialize u.channels) tt (read_many n Member.new_channel) u.channels
          (total channel_size u.channels))
      (omega (arith, v.count))
      (Codes-members Channel.serialize Member.new_channel channel_size channel_size
        Codes-new_channel u.channels v.channels_fit)

pub Codes-unit :
    (u : VirtualUnit) (garbage : NvmGeo)
    → IsUnit u
    → Codes
        (Member.serialize u)
        (unit_size u)
        (Member.deserialize (Member.make [] garbage))
        (u, unit_size u)
        (unit_size u)
unfolding Member.serialize Member.deserialize Member.make
Codes-unit u garbage v = Codes-counted (
    Codes-sized (
      Codes-cast refl (omega arith) (
        Codes-bind _ _ (Codes-data4 (length u.dev_name + 1)) (
          Codes-name_read u.dev_name _ _ v.text v.short (
            Codes-bind _ _ (Codes-geo u.geo v.geo_fits) (
              Codes-bind _ _ (Codes-data4 (length u.channels))
                (Codes-map _ (Codes-channels u v))))))))
