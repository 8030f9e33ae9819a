-- ===== src/Server/Start.antt =====
-- How the server starts: the devices that it finds, and what it publishes of them.
use light_nvm.Base.{
  ℕ, ◌^◌, ◌<◌, ◌≡◌, inl, inr, refl, sym, ap, ap₂, subst, ◌∙◌, arith, List, map, Bool, true, false,
  Option, none, some, Bool-cases, Option-cases, if◌then◌else◌,
}
use light_nvm.Base.Int.{ℤ, is_negative}
use light_nvm.Base.Partial.{◌>>=◌}
use light_nvm.Vssd.Member.{NvmGeo}
use light_nvm.Vssd.RoundTrip.Units.{IsGeo}
use light_nvm.Device.Drive
use light_nvm.Device.Drive.Counted.{make-counts}
use light_nvm.Device.Manager.{OcssdManager, make, add_ocssd}
use light_nvm.Device.Manager.Grant.{IsManager}
use light_nvm.Device.Manager.Ledger.{UsedOn}
use light_nvm.Device.Manager.Devices.{make-IsManager, add_ocssd-Adds}
use light_nvm.Server.{
  Interface, get_ip, publish_resource, device_path, add_devices, initialize_ocssd_manager, Started,
  ended, ready, Listening, listen_on, setnonblock, is_minus_one, main,
}
use light_nvm.Conn.Publish.{Entity, entity_of}

-- What a device may have for its sizes to fit the types that the program keeps them in.
pub record Fits (geo : NvmGeo) : Type 0 where
  pub geo_fits : IsGeo geo
  pub channels : geo.nchannels < 2 ^ 32
  pub luns : geo.nluns < 2 ^ 32
  pub blocks : geo.nblocks < 2 ^ 32

-- A well-formed node of which nothing is in use.
pub record IsNew (m : OcssdManager) : Type 0 where
  pub manager : IsManager m
  pub unused : (device : List ℕ) (ch lun b : ℕ) → ¬ UsedOn m.ocssds device ch lun b

make-IsNew : (ip : List ℕ) → IsNew (make ip)
unfolding make
make-IsNew ip = record { manager = make-IsManager ip; unused = λ device ch lun b u. elim u [ ] }

added-IsNew :
    (opened : List ℕ → Option NvmGeo) (ip : List ℕ) (m : OcssdManager)
    → ((geo : NvmGeo) → opened (device_path 1) ≡ some geo → Fits geo)
    → add_ocssd opened (make ip) (device_path 1) ≡ some m
    → IsNew m
unfolding make add_ocssd
added-IsNew opened ip m fits run = elim (Option-cases (opened (device_path 1))) [
  | inl closed ↦
      let failed : add_ocssd opened (make ip) (device_path 1) ≡ none =
        rw (closed, add_ocssd) refl in
      absurd (cc (failed, run))
  | inr (geo, e) ↦
      let f = fits geo e in
      let countable : geo.nchannels < 2 ^ 31 =
        elim (Option-cases (Drive.make ip (device_path 1) geo)) [
          | inl over ↦
              let failed : add_ocssd opened (make ip) (device_path 1) ≡ none =
                rw (e, add_ocssd, ◌>>=◌, over) refl in
              absurd (cc (failed, run))
          | inr (u, made) ↦ make-counts ip (device_path 1) geo u made
        ] in
      let (m', run', a) =
        add_ocssd-Adds opened (make ip) (device_path 1) geo (make-IsManager ip) e tt (omega arith)
          (omega arith) (omega arith) (omega arith) f.geo_fits countable f.luns f.blocks in
      let same : m' ≡ m = cc (run, run') in
      subst IsNew same (record {
        manager = a.manager;
        unused = λ device ch lun b u.
            (make-IsNew ip).unused device ch lun b ((a.used device ch lun b).0 u);
      })
]

-- A test that ends the process where it holds.
passed :
    (b : Bool) {next : Started} {m : OcssdManager} {published : List Entity}
    → (if b then ended else next) ≡ ready m published
    → next ≡ ready m published
passed true e = absurd (cc e)
passed false e = e

listen_on-ready :
    (nonblock : ℤ → ℤ) (l : Listening) (loop : Started) {m : OcssdManager} {published : List Entity}
    → listen_on nonblock l loop ≡ ready m published
    → loop ≡ ready m published
unfolding listen_on
listen_on-ready nonblock l loop e = passed (is_negative (setnonblock nonblock l.getfl l.setfl)) (
    passed (is_negative l.listen) (
      passed (is_negative l.bind)
        (passed (is_minus_one l.setsockopt) (passed (is_negative l.socket) e))))

module _ (exists : List ℕ → Bool) (opened : List ℕ → Option NvmGeo) (interfaces : List Interface)
    (fits : (geo : NvmGeo) → opened (device_path 1) ≡ some geo → Fits geo) where
  add_devices-IsNew :
      (m : OcssdManager)
      → add_devices exists opened 1 1 (make (get_ip interfaces)) ≡ some m
      → IsNew m
  unfolding add_devices
  add_devices-IsNew m run = elim (Bool-cases (exists (device_path 1))) [
    | inl found ↦
        let begun : add_devices exists opened 1 1 (make (get_ip interfaces))
            ≡ (add_ocssd opened (make (get_ip interfaces)) (device_path 1) >>= λ m'. some m') =
          rw (found, add_devices) refl in
        elim (Option-cases (add_ocssd opened (make (get_ip interfaces)) (device_path 1))) [
          | inl e ↦
              let failed : add_devices exists opened 1 1 (make (get_ip interfaces)) ≡ none =
                begun ∙ (rw e refl) in
              absurd (cc (failed, run))
          | inr (m', e) ↦
              let added : add_devices exists opened 1 1 (make (get_ip interfaces)) ≡ some m' =
                begun ∙ (rw e refl) in
              let same : m' ≡ m = cc (added, run) in
              subst IsNew same (added-IsNew opened (get_ip interfaces) m' fits e)
        ]
    | inr missing ↦
        let begun : add_devices exists opened 1 1 (make (get_ip interfaces))
            ≡ some (make (get_ip interfaces)) =
          rw (missing, add_devices) refl in
        let same : make (get_ip interfaces) ≡ m = cc (begun, run) in
        subst IsNew same (make-IsNew (get_ip interfaces))
  ]

  initialize-IsNew :
      (m : OcssdManager) (published : List Entity)
      → initialize_ocssd_manager exists opened interfaces ≡ some (m, published)
      → IsNew m × (published ≡ map entity_of m.ocssds)
  unfolding initialize_ocssd_manager publish_resource
  initialize-IsNew m published run =
      go (add_devices exists opened 1 1 (make (get_ip interfaces))) refl run
    where
      reply : OcssdManager → Option (OcssdManager × List Entity)
      reply x = some (x, map entity_of x.ocssds)

      go :
          (o : Option OcssdManager)
          → add_devices exists opened 1 1 (make (get_ip interfaces)) ≡ o
          → (o >>= reply) ≡ some (m, published)
          → IsNew m × (published ≡ map entity_of m.ocssds)
      go none e r = absurd (cc r)
      go (some x) e r =
          let same : x ≡ m = cc r in
          let listed : map entity_of x.ocssds ≡ published = cc r in
          (
            subst IsNew same (add_devices-IsNew x e),
            sym listed ∙ ap (λ (y : OcssdManager). map entity_of y.ocssds) same,
          )

  -- If the process gets to the event loop, its node is well formed, nothing of it is in use, and what has
  -- been published are the numbers of its devices.
  pub main-IsNew :
      (nonblock : ℤ → ℤ) (base_given : Bool) (l : Listening) (m : OcssdManager)
      (published : List Entity)
      → main nonblock base_given exists opened interfaces l ≡ ready m published
      → IsNew m × (published ≡ map entity_of m.ocssds)
  unfolding main listen_on
  main-IsNew nonblock false l m published run = absurd (cc run)
  main-IsNew nonblock true l m published run =
      go (initialize_ocssd_manager exists opened interfaces) refl run
    where
      next : Option (OcssdManager × List Entity) → Started
      next o = elim o [ none ↦ ended | some (x, p) ↦ listen_on nonblock l (ready x p) ]

      go :
          (o : Option (OcssdManager × List Entity))
          → initialize_ocssd_manager exists opened interfaces ≡ o
          → next o ≡ ready m published
          → IsNew m × (published ≡ map entity_of m.ocssds)
      go none e r = absurd (cc r)
      go (some (x, p)) e r =
          let loop : ready x p ≡ ready m published = listen_on-ready nonblock l (ready x p) r in
          let same : x ≡ m = cc loop in
          let same' : p ≡ published = cc loop in
          initialize-IsNew m published (e ∙ ap₂ (λ y z. some (y, z)) same same')
