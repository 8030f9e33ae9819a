-- ===== src/Device/Manager/History.antt =====
-- A node over time: devices are added, and clients are served one after the other.
use light_nvm.Base.{
  ℕ, ◌≡◌, ◌⊎◌, ◌↔◌, inl, inr, refl, arith, List, [], ◌∷◌, length, All, All-map, Any, Option, some,
}
use light_nvm.Base.Partial.{◌>>=◌}
use light_nvm.Request.Alloc.{AllocRequest}
use light_nvm.Request.Alloc.RoundTrip.{InRange}
use light_nvm.Vssd.Ssd.{VirtualOcssd}
use light_nvm.Vssd.Ssd
use light_nvm.Vssd.Member.{VirtualUnit}
use light_nvm.Vssd.RoundTrip.Whole.{IsVssd}
use light_nvm.Device.Manager.{OcssdManager, alloc_ocssd_resource}
use light_nvm.Device.Manager.Ledger.{
  UsedOn, OwnedOn, Hands-IsUnit, Hands-fresh, Hands-used, length-Hands,
}
use light_nvm.Device.Manager.Grant.{IsManager, Serves, alloc_ocssd_resource-Serves}

-- Clients that are served one after the other, each from an empty virtual OCSSD.
unfoldable pub serve : OcssdManager → List AllocRequest → Option (OcssdManager × List VirtualOcssd)
serve m [] = some (m, [])
serve m (r ∷ rs) = do
  (m', v, _, _) ← alloc_ocssd_resource m Ssd.make r
  (m'', vs) ← serve m' rs
  some (m'', v ∷ vs)

-- No block belongs to both.
abbrev pub Disjoint : VirtualOcssd → VirtualOcssd → Type 0
Disjoint v w =
    (name : List ℕ) (ch lun b : ℕ) → OwnedOn v.units name ch lun b → ¬ OwnedOn w.units name ch lun b

-- No block belongs to two of a list.
abbrev pub Apart : List VirtualOcssd → Type 0
Apart [] = Unit
Apart (v ∷ vs) = All (λ w. Disjoint v w) vs × Apart vs

-- None of its blocks is in use.
abbrev Fresh : OcssdManager → VirtualOcssd → Type 0
Fresh m v =
    (name : List ℕ) (ch lun b : ℕ) → OwnedOn v.units name ch lun b → ¬ UsedOn m.ocssds name ch lun b

-- A node before and after some clients were served, and what they have got.
pub record Served (m m' : OcssdManager) (vs : List VirtualOcssd) : Type 0 where
  pub manager : IsManager m'
  pub well_formed : All IsVssd vs
  pub apart : Apart vs
  pub fresh : All (Fresh m) vs
  pub used :
      (name : List ℕ) (ch lun b : ℕ)
      → UsedOn m'.ocssds name ch lun b
        ↔ (UsedOn m.ocssds name ch lun b ⊎ Any (λ v. OwnedOn v.units name ch lun b) vs)

pub Serves-IsVssd :
    {m m' : OcssdManager} (ms : List VirtualUnit)
    → IsManager m
    → Serves m m' ms
    → IsVssd (record { id = m.vssd_id; units = ms })
Serves-IsVssd ms i s = record {
  id_fits = i.id_fits;
  count = omega (arith, length-Hands s.hands, i.few);
  units_fit = Hands-IsUnit s.hands;
}

pub Serves-Served :
    {m m' m'' : OcssdManager} (ms : List VirtualUnit) {vs : List VirtualOcssd}
    → IsManager m
    → Serves m m' ms
    → Served m' m'' vs
    → Served m m'' (record { id = m.vssd_id; units = ms } ∷ vs)
Serves-Served {m} {m'} ms {vs} i s t = record {
  manager = t.manager;
  well_formed = (Serves-IsVssd ms i s, t.well_formed);
  apart = (
    All-map
        (λ w f name ch lun b o o'.
          f name ch lun b o' ((Hands-used name ch lun b s.hands).1 (inr o)))
        vs t.fresh,
    t.apart,
  );
  fresh = (
    λ name ch lun b. Hands-fresh name ch lun b s.hands i.distinct,
    All-map
        (λ w f name ch lun b o u. f name ch lun b o ((Hands-used name ch lun b s.hands).1 (inl u)))
        vs t.fresh,
  );
  used = λ name ch lun b. (
    λ u. elim ((t.used name ch lun b).0 u) [
      | inl u' ↦ elim ((Hands-used name ch lun b s.hands).0 u') [
        | inl old ↦ inl old
        | inr new ↦ inr (inl new)
      ]
      | inr later ↦ inr (inr later)
    ],
    λ o. (t.used name ch lun b).1 (elim o [
      | inl old ↦ inl ((Hands-used name ch lun b s.hands).1 (inl old))
      | inr v ↦ elim v [
        | inl new ↦ inl ((Hands-used name ch lun b s.hands).1 (inr new))
        | inr later ↦ inr later
      ]
    ]),
  );
}

pub Served-nothing : (m : OcssdManager) → IsManager m → Served m m []
Served-nothing m i = record {
  manager = i;
  well_formed = tt;
  apart = tt;
  fresh = tt;
  used = λ name ch lun b. (λ u. inl u, λ o. elim o [ inl u ↦ u | inr v ↦ elim v [ ] ]);
}

-- On a well-formed node, clients whose requests fit their types are all served with no undefined
-- behaviour. Each gets a virtual OCSSD that fits the wire format; no block belongs to two of them, and
-- none was in use before; afterwards the blocks in use are those that were and those of the clients;
-- and the node is well formed again.
pub serve-Served :
    (m : OcssdManager) (rs : List AllocRequest)
    → IsManager m
    → All InRange rs
    → (m' : OcssdManager) × (vs : List VirtualOcssd) × (serve m rs ≡ some (m', vs))
      × (length vs ≡ length rs)
      × Served m m' vs
unfolding serve Ssd.make
serve-Served m [] i h = (m, [], refl, refl, Served-nothing m i)
serve-Served m (r ∷ rs) i h =
    let (m', ms, e, le, s) = alloc_ocssd_resource-Serves m Ssd.make r i h.0 in
    let (m'', vs, run, len, t) = serve-Served m' rs s.manager h.1 in
    (
      m'',
      record { id = m.vssd_id; units = ms } ∷ vs,
      rw (e, serve, run),
      omega (arith, len),
      Serves-Served ms i s t,
    )
