-- ===== src/Device/Manager/Grant.antt =====
-- `ocssd_manager::alloc_ocssd_resource`: what the devices of a node grant to one request.
use mathlib.Core.Option
use light_nvm.Base.{
  ℕ, ◌+◌, ◌-◌, ◌%◌, ◌^◌, ◌<◌, ◌≤◌, ◌≡◌, inl, inr, refl, sym, ap, ◌∙◌, arith, List, [], ◌∷◌, ◌++◌,
  append-nil, append_assoc, length, total, All, Distinct, some, Bool-cases, true, false, add64,
  ◌==◌,
}
use native.Mathlib.Nat.{zero-add}
use light_nvm.Wire.Cursor.{u32}
use light_nvm.Request.Alloc.{AllocRequest, dec_channels}
use light_nvm.Request.Alloc.RoundTrip.{InRange}
use light_nvm.Vssd.Channel.{VirtualChannel}
use light_nvm.Vssd.Member.{VirtualUnit}
use light_nvm.Vssd.Ssd.{VirtualOcssd}
use light_nvm.Vssd.Ssd
use light_nvm.Device.Drive.{OcssdUnit}
use light_nvm.Device.Drive
use light_nvm.Device.Drive.Valid.{IsDevice, Gives}
use light_nvm.Device.Drive.Grant.{with_granted, alloc_channels-Gives}
use light_nvm.Device.Manager.{OcssdManager, Allocated, keep_unit, alloc_units, alloc_ocssd_resource}
use light_nvm.Device.Manager.Ledger.{
  Hands, stop, next, members, names_of, Hands-IsDevice, names_of-Hands, length-Hands,
}

-- The channels in some units.
abbrev pub granted : List VirtualUnit → ℕ
granted ms = total (λ m. length m.channels) ms

with_granted-members :
    (vssd : VirtualOcssd) (u : OcssdUnit) (vs : List VirtualChannel)
    → with_granted vssd u vs ≡ record vssd { units = vssd.units ++ members u vs }
with_granted-members vssd u [] = ap (λ ms. record vssd { units = ms }) (sym (append-nil vssd.units))
with_granted-members vssd u (v ∷ vs) = refl

granted-members :
    (u : OcssdUnit) (vs : List VirtualChannel) (ms : List VirtualUnit)
    → granted (members u vs ++ ms) ≡ length vs + granted ms
granted-members u [] ms = omega arith
granted-members u (v ∷ vs) ms = omega arith

abbrev rest_of : AllocRequest → ℕ → AllocRequest
rest_of r n = record r { num_channels = r.num_channels - n }

dec_channels-rest_of :
    (r : AllocRequest) (n : ℕ) → InRange r → n ≤ r.num_channels → dec_channels r n ≡ rest_of r n
unfolding dec_channels
dec_channels-rest_of r n v h =
    ap (λ (k : ℕ). record r { num_channels = k }) (omega (arith, v.channels))

rest_of-InRange : (r : AllocRequest) (n : ℕ) → InRange r → InRange (rest_of r n)
rest_of-InRange r n v = omega (arith, v)

-- What the loop over the devices leaves, for its devices and its variables.
pub record Handing (us : List OcssdUnit) (vssd : VirtualOcssd) (r : AllocRequest) (channels : ℕ)
    (a : Allocated) : Type 0 where
  pub new : List VirtualUnit
  pub hands : Hands us a.ocssds new
  pub vssd_lem : a.vssd ≡ record vssd { units = vssd.units ++ new }
  pub bounded : granted new ≤ r.num_channels
  pub count : a.channels ≡ channels + granted new
  pub left : a.request ≡ rest_of r (granted new)

-- The two ways through the body of the loop.
module _ (u : OcssdUnit) (us : List OcssdUnit) (vssd : VirtualOcssd) (r : AllocRequest)
    (channels : ℕ) {u' : OcssdUnit} {vssd' : VirtualOcssd} {n : ℕ}
    (e : Drive.alloc_channels u vssd r ≡ some (u', vssd', n)) where
  loop-stop :
      ((dec_channels r n).num_channels == 0) ≡ true
      → alloc_units (u ∷ us) vssd r channels
        ≡ some (record {
          ocssds = u' ∷ us;
          vssd = vssd';
          request = dec_channels r n;
          channels = add64 channels n;
        })
  unfolding alloc_units
  loop-stop done = rw (e, alloc_units, done)

  loop-continue :
      ((dec_channels r n).num_channels == 0) ≡ false
      → alloc_units (u ∷ us) vssd r channels
        ≡ Option.map (keep_unit u') (alloc_units us vssd' (dec_channels r n) (add64 channels n))
  unfolding alloc_units
  loop-continue more = rw (e, alloc_units, more)

  loop-continue_as :
      {r' : AllocRequest} {channels' : ℕ} {a : Allocated}
      → ((dec_channels r n).num_channels == 0) ≡ false
      → dec_channels r n ≡ r'
      → add64 channels n ≡ channels'
      → alloc_units us vssd' r' channels' ≡ some a
      → alloc_units (u ∷ us) vssd r channels ≡ some (keep_unit u' a)
  loop-continue_as more rest sum run =
      loop-continue more ∙ rw (rest, sum) (ap (Option.map (keep_unit u')) run)

module _ {u u' : OcssdUnit} {us : List OcssdUnit} {vs : List VirtualChannel} (d : IsDevice u)
    (gives : Gives u u' vs) (vssd : VirtualOcssd) (r : AllocRequest) (channels : ℕ) where
  Handing-stop :
      All IsDevice us
      → length vs < 2 ^ 32
      → length vs ≤ r.num_channels
      → Handing (u ∷ us) vssd r channels (record {
        ocssds = u' ∷ us;
        vssd = with_granted vssd u vs;
        request = rest_of r (length vs);
        channels = channels + length vs;
      })
  Handing-stop h few le =
      let here : granted (members u vs ++ []) ≡ length vs =
        omega (arith, granted-members u vs []) in
      record {
        new = members u vs ++ [];
        hands = next u u' vs d gives few (stop us h);
        vssd_lem = with_granted-members vssd u vs ∙ rw (append-nil (members u vs));
        bounded = omega (arith, here);
        count = omega (arith, here);
        left = rw here;
      }

  Handing-next :
      length vs < 2 ^ 32
      → length vs ≤ r.num_channels
      → (a : Allocated)
      → Handing us (with_granted vssd u vs) (rest_of r (length vs)) (channels + length vs) a
      → Handing (u ∷ us) vssd r channels (keep_unit u' a)
  Handing-next few le a p =
      let sum = granted-members u vs p.new in
      record {
        new = members u vs ++ p.new;
        hands = next u u' vs d gives few p.hands;
        vssd_lem =
            p.vssd_lem
            ∙ rw (with_granted-members vssd u vs) (
                ap (λ ms. record vssd { units = ms })
                  (append_assoc vssd.units (members u vs) p.new));
        bounded = omega (arith, sum, p.bounded);
        count = omega (arith, sum, p.count);
        left = p.left ∙ ap (λ (k : ℕ). record r { num_channels = k }) (omega (arith, sum));
      }

-- The result of the loop, and what it does to its devices.
abbrev Runs : List OcssdUnit → VirtualOcssd → AllocRequest → ℕ → Type 0
Runs us vssd r channels =
    (a : Allocated) × (alloc_units us vssd r channels ≡ some a) × Handing us vssd r channels a

alloc_units-nil : (vssd : VirtualOcssd) (r : AllocRequest) (channels : ℕ) → Runs [] vssd r channels
unfolding alloc_units
alloc_units-nil vssd r channels = (
  record { ocssds = []; vssd = vssd; request = r; channels = channels },
  refl,
  record {
    new = [];
    hands = stop [] tt;
    vssd_lem = ap (λ ms. record vssd { units = ms }) (sym (append-nil vssd.units));
    bounded = omega arith;
    count = omega arith;
    left = ap (λ (k : ℕ). record r { num_channels = k }) (omega arith);
  },
)

-- The loop meets no undefined behaviour; the devices together grant at most as many channels as are
-- asked for.
pub alloc_units-Handing :
    (us : List OcssdUnit) (vssd : VirtualOcssd) (r : AllocRequest) (channels : ℕ)
    → All IsDevice us
    → InRange r
    → channels + r.num_channels < 2 ^ 64
    → Runs us vssd r channels
alloc_units-Handing [] vssd r channels h v small = alloc_units-nil vssd r channels
alloc_units-Handing (u ∷ us) vssd r channels h v small =
    let (u', vs, e, le, gives) = alloc_channels-Gives u h.0 r v vssd in
    let rest = dec_channels-rest_of r (length vs) v le in
    let sum : add64 channels (length vs) ≡ channels + length vs = omega arith in
    let few : length vs < 2 ^ 32 = omega (arith, v.channels) in
    elim (Bool-cases ((dec_channels r (length vs)).num_channels == 0)) [
      | inl done ↦ (
        _,
        loop-stop u us vssd r channels e done ∙ rw (rest, sum),
        Handing-stop h.0 gives vssd r channels h.1 few le,
      )
      | inr more ↦
          let (a, run, p) =
            alloc_units-Handing us (with_granted vssd u vs) (rest_of r (length vs))
              (channels + length vs) h.1 (rest_of-InRange r (length vs) v) (omega arith) in
          (
            keep_unit u' a,
            loop-continue_as u us vssd r channels e more rest sum run,
            Handing-next h.0 gives vssd r channels few le a p,
          )
    ]

-- A node whose devices are well formed and have different names.
pub record IsManager (m : OcssdManager) : Type 0 where
  pub devices : All IsDevice m.ocssds
  pub distinct : Distinct (names_of m.ocssds)
  pub few : length m.ocssds < 2 ^ 32
  pub id_fits : m.vssd_id < 2 ^ 32

-- A manager before and after a request, the units that were granted and the number of channels.
pub record Serves (m m' : OcssdManager) (ms : List VirtualUnit) : Type 0 where
  pub manager : IsManager m'
  pub hands : Hands m.ocssds m'.ocssds ms
  pub next_id : m'.vssd_id ≡ (m.vssd_id + 1) % 2 ^ 32
  pub same_ip : m'.ip ≡ m.ip

-- On a well-formed manager and a request whose members fit their types, `alloc_ocssd_resource` meets
-- no undefined behaviour. It adds the granted units to the virtual OCSSD, which gets the manager's
-- next id; it returns the number of granted channels, which is at most what was asked for and which it
-- takes off the request; and the manager is well formed afterwards.
pub alloc_ocssd_resource-Serves :
    (m : OcssdManager) (vssd : VirtualOcssd) (r : AllocRequest)
    → IsManager m
    → InRange r
    → (m' : OcssdManager) × (ms : List VirtualUnit) × (alloc_ocssd_resource m vssd r
        ≡ some (
          m',
          record { id = m.vssd_id; units = vssd.units ++ ms },
          record r { num_channels = r.num_channels - granted ms },
          granted ms,
        ))
      × (granted ms ≤ r.num_channels)
      × Serves m m' ms
unfolding alloc_ocssd_resource Ssd.set_id
alloc_ocssd_resource-Serves m vssd r i v =
    let (a, run, p) =
      alloc_units-Handing m.ocssds vssd r 0 i.devices v (omega (arith, v.channels)) in
    let id : u32 m.vssd_id ≡ m.vssd_id = omega (arith, i.id_fits) in
    (
      record m { ocssds = a.ocssds; vssd_id = u32 (m.vssd_id + 1) },
      p.new,
      rw (run, alloc_ocssd_resource, p.vssd_lem, p.left, p.count, zero-add, id),
      p.bounded,
      record {
        manager = record {
          devices = Hands-IsDevice p.hands;
          distinct = rw (names_of-Hands p.hands) i.distinct;
          few = omega (arith, length-Hands p.hands, i.few);
          id_fits = omega arith;
        };
        hands = p.hands;
        next_id = refl;
        same_ip = refl;
      },
    )
