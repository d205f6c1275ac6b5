-- ===== src/Relay/Config/Laws.antt =====
-- What New promises of the relays that it returns.
use influxdb_relay.Base.{
  ◌≡◌, ◌≢◌, refl, sym, ap, subst, ◌∙◌, ◌⊎◌, inl, inr, String, false, some, List, [], ◌∷◌, ◌++◌, All,
  arith, eq_iff, Bool-cases, Option-cases,
}
use influxdb_relay.Relay.Config.{
  HttpConfig, UdpConfig, Config, HttpRelay, UdpRelay, Relay, http, udp, Environment,
}
use influxdb_relay.Relay.Config.Make.{
  Service, Failure, Result, ok, err, name_of, is_taken, register, new_http, new_udp,
  add_http_relays, add_udp_relays, after_http, new,
}
use mathlib.Core.List.{append_assoc, append-nil}

abbrev pub NoName : String → Service → Type 0
NoName name = All λ p. p.0 ≢ name

-- No two relays have one name.
abbrev pub AreDistinct : Service → Type 0
AreDistinct [] = Unit
AreDistinct ((n, r) ∷ s) = NoName n s × AreDistinct s

NoName-snoc :
    (n name : String) (r : Relay) (s : Service)
    → NoName n s
    → name ≢ n
    → NoName n (s ++ ((name, r) ∷ []))
NoName-snoc n name r [] h ne = (ne, tt)
NoName-snoc n name r (p ∷ s) h ne = (h.0, NoName-snoc n name r s h.1 ne)

AreDistinct-snoc :
    (name : String) (r : Relay) (s : Service)
    → is_taken name s ≡ false
    → AreDistinct s
    → AreDistinct (s ++ ((name, r) ∷ []))
unfolding is_taken
AreDistinct-snoc name r [] free h = (tt, tt)
AreDistinct-snoc name r ((n, q) ∷ s) free h = (
  NoName-snoc n name r s h.0 (λ e. ground (arith, eq_iff n name)),
  AreDistinct-snoc name r s (ground arith) h.1,
)

register-ok :
    (s t : Service) (r : Relay)
    → register s r ≡ ok t
    → (t ≡ s ++ ((name_of r, r) ∷ [])) × (AreDistinct s → AreDistinct t)
unfolding register
register-ok s t r e = elim (Bool-cases (is_taken (name_of r) s)) [
  | inl taken ↦ ground arith
  | inr free ↦
      let same : t ≡ s ++ ((name_of r, r) ∷ []) = ground arith in
      (same, λ h. rw same (AreDistinct-snoc (name_of r) r s free h))
]

Result-cases : (r : Result) → ((s : Service) × (r ≡ ok s)) ⊎ ((f : Failure) × (r ≡ err f))
Result-cases (ok s) = inl (s, refl)
Result-cases (err f) = inr (f, refl)

-- The parts of a longer list that was put together in two steps.
regroup :
    (s t u hs : Service) (p : String × Relay) → t ≡ s ++ (p ∷ []) → u ≡ t ++ hs → u ≡ s ++ (p ∷ hs)
regroup s t u hs p e f = f ∙ ap (λ x. x ++ hs) e ∙ append_assoc s (p ∷ []) hs

module _ (sys : Environment) where
  -- One relay for each configuration, in order, under its own name.
  abbrev pub HttpMade : List HttpConfig → Service → Type 0
  HttpMade [] [] = Unit
  HttpMade (cfg ∷ cfgs) ((n, r) ∷ s) =
      ((h : HttpRelay) × (new_http sys cfg ≡ some h) × (r ≡ http h) × (n ≡ name_of r))
      × HttpMade cfgs s
  HttpMade cfgs s = ⊥

  abbrev pub UdpMade : List String → List UdpConfig → Service → Type 0
  UdpMade bound [] [] = Unit
  UdpMade bound (cfg ∷ cfgs) ((n, r) ∷ s) =
      ((u : UdpRelay) × (new_udp sys bound cfg ≡ some u) × (r ≡ udp u) × (n ≡ name_of r))
      × UdpMade (cfg.addr ∷ bound) cfgs s
  UdpMade bound cfgs s = ⊥

  -- One round of the loop.
  http_round :
      (cfg : HttpConfig) (cfgs : List HttpConfig) (s t : Service)
      → add_http_relays sys (cfg ∷ cfgs) s ≡ ok t
      → (h : HttpRelay) × (s' : Service) × (new_http sys cfg ≡ some h)
        × (register s (http h) ≡ ok s')
        × (add_http_relays sys cfgs s' ≡ ok t)
  unfolding add_http_relays
  http_round cfg cfgs s t e = elim (Option-cases (new_http sys cfg)) [
    | inl n ↦ ground arith
    | inr (h, made) ↦ elim (Result-cases (register s (http h))) [
      | inl (s', put) ↦ (h, s', made, put, ground arith)
      | inr (f, bad) ↦ ground arith
    ]
  ]

  udp_round :
      (bound : List String) (cfg : UdpConfig) (cfgs : List UdpConfig) (s t : Service)
      → add_udp_relays sys bound (cfg ∷ cfgs) s ≡ ok t
      → (u : UdpRelay) × (s' : Service) × (new_udp sys bound cfg ≡ some u)
        × (register s (udp u) ≡ ok s')
        × (add_udp_relays sys (cfg.addr ∷ bound) cfgs s' ≡ ok t)
  unfolding add_udp_relays
  udp_round bound cfg cfgs s t e = elim (Option-cases (new_udp sys bound cfg)) [
    | inl n ↦ ground arith
    | inr (u, made) ↦ elim (Result-cases (register s (udp u))) [
      | inl (s', put) ↦ (u, s', made, put, ground arith)
      | inr (f, bad) ↦ ground arith
    ]
  ]

  add_http_relays-made :
      (cfgs : List HttpConfig) (s t : Service)
      → add_http_relays sys cfgs s ≡ ok t
      → (hs : Service) × (t ≡ s ++ hs) × HttpMade cfgs hs × (AreDistinct s → AreDistinct t)
  unfolding add_http_relays
  add_http_relays-made [] s t e =
      let same : s ≡ t = ground arith in
      ([], sym same ∙ sym (append-nil s), tt, λ d. subst AreDistinct same d)
  add_http_relays-made (cfg ∷ cfgs) s t e =
      let (h, s', made, put, later) = http_round cfg cfgs s t e in
      let (at, distinct) = register-ok s s' (http h) put in
      let (hs, rest, all_made, keeps) = add_http_relays-made cfgs s' t later in
      (
        (name_of (http h), http h) ∷ hs,
        regroup s s' t hs (name_of (http h), http h) at rest,
        ((h, made, refl, refl), all_made),
        λ d. keeps (distinct d),
      )

  add_udp_relays-made :
      (bound : List String) (cfgs : List UdpConfig) (s t : Service)
      → add_udp_relays sys bound cfgs s ≡ ok t
      → (us : Service) × (t ≡ s ++ us) × UdpMade bound cfgs us × (AreDistinct s → AreDistinct t)
  unfolding add_udp_relays
  add_udp_relays-made bound [] s t e =
      let same : s ≡ t = ground arith in
      ([], sym same ∙ sym (append-nil s), tt, λ d. subst AreDistinct same d)
  add_udp_relays-made bound (cfg ∷ cfgs) s t e =
      let (u, s', made, put, later) = udp_round bound cfg cfgs s t e in
      let (at, distinct) = register-ok s s' (udp u) put in
      let (us, rest, all_made, keeps) = add_udp_relays-made (cfg.addr ∷ bound) cfgs s' t later in
      (
        (name_of (udp u), udp u) ∷ us,
        regroup s s' t us (name_of (udp u), udp u) at rest,
        ((u, made, refl, refl), all_made),
        λ d. keeps (distinct d),
      )

  -- Where New succeeds, no two relays have one name, and they are, in order, one for each HTTP and then
  -- for each UDP configuration, each made from it and under its own name.
  pub new-Made :
      (config : Config) (t : Service)
      → new sys config ≡ ok t
      → AreDistinct t
        × ((hs : Service) × (us : Service) × (t ≡ hs ++ us)
            × HttpMade config.http_relays hs
            × UdpMade [] config.udp_relays us)
  unfolding new after_http
  new-Made config t e = elim (Result-cases (add_http_relays sys config.http_relays [])) [
    | inr (f, bad) ↦ ground arith
    | inl (s, good) ↦
        let later : add_udp_relays sys [] config.udp_relays s ≡ ok t = ground arith in
        let (hs, at, http_made, distinct) = add_http_relays-made config.http_relays [] s good in
        let (us, rest, udp_made, keeps) = add_udp_relays-made [] config.udp_relays s t later in
        (keeps (distinct tt), (hs, us, rest ∙ ap (λ x. x ++ us) at, http_made, udp_made))
  ]
