-- ===== src/Client/Startup/Shutdown.antt =====
-- cmd/ghost-client/main.go: what is open when `main` ends.
use ghost_vpn.Base.{
  ℕ, ◌⊎◌, ◌≡◌, refl, sym, ap, ◌∙◌, subst, inl, inr, Bool, true, false, Option, none, some, List, [],
  ◌∷◌, ◌++◌, map, Bytes, length, ◌==◌, append-nil, if_both,
}
use ghost_vpn.Io.{Error, open_failed, Result, ok, err}
use ghost_vpn.Auth.Keys.{DhKey, keypair_from_private, decode_key}
use ghost_vpn.Auth.Noise.{HandshakeState}
use ghost_vpn.Config.{ClientConfig, load_client}
use ghost_vpn.Startup.{Main, ◌>>=◌, ◌>>◌, tell, or_exit}
use ghost_vpn.Startup.Ends.{after, Ends, bind-Ends, or_exit-Ends, or_refuse-Ends}
use ghost_vpn.Tun.Device.{Action, Device, DeviceConfig, new_device, is_open}
use ghost_vpn.Client.Establish.{
  Effect, Part, mux, TunnelSession, establish, left_open, Fits, establish-Fits,
}
use ghost_vpn.Client.Startup.{
  Act, prints_version, sets_path, device, tunnel, starts_reader, cancels_reader, Machine,
  load_profile, create_device, shut_down, connect, run_client, main,
}

-- Whether the device is open, the parts of sessions that are, and whether packets are read.
pub record Host : Type 0 where
  pub opened : Bool
  pub parts : List Part
  pub reading : Bool

abbrev pub do_act : Act → Host → Host
do_act prints_version h = h
do_act (sets_path p) h = h
do_act (device a) h = record h { opened = is_open h.opened (a ∷ []) }
do_act (tunnel e) h = record h { parts = left_open h.parts (e ∷ []) }
do_act starts_reader h = record h { reading = true }
do_act cancels_reader h = record h { reading = false }

is_open-cons :
    (b : Bool) (a : Action) (as_ : List Action)
    → is_open b (a ∷ as_) ≡ is_open (is_open b (a ∷ [])) as_
is_open-cons b Action.opens as_ = refl
is_open-cons b (Action.runs c) as_ = refl
is_open-cons b Action.closes as_ = refl

after-device :
    (actions : List Action) (h : Host)
    → after do_act (map device actions) h ≡ record h { opened = is_open h.opened actions }
after-device [] h = refl
after-device (a ∷ actions) h =
    after-device actions (do_act (device a) h)
    ∙ ap (λ b. record h { opened = b }) (sym (is_open-cons h.opened a actions))

after-tunnel :
    (effects : List Effect) (h : Host)
    → after do_act (map tunnel effects) h ≡ record h { parts = left_open h.parts effects }
after-tunnel [] h = refl
after-tunnel (e ∷ effects) h = after-tunnel effects (do_act (tunnel e) h)

-- A return leaves the device closed and reads no more packets; an exit leaves no part of a session
-- open, but for the mux.
abbrev pub Left : Host → Type 0
Left h = (h.opened ≡ false) × (h.reading ≡ false)

abbrev pub Stopped : ℕ → Host → Type 0
Stopped code h = (code ≡ 1) × (h.reading ≡ false) × ((h.parts ≡ []) ⊎ (h.parts ≡ mux ∷ []))

abbrev pub Never : {A : Type 0} → Host → A → Type 0
Never h a = ⊥

abbrev pub EndsMain : {A : Type 0} → (Host → A → Type 0) → Host → Main Act A → Type 0
EndsMain = Ends do_act Left Stopped

abbrev pub fresh : Host
fresh = record { opened = false; parts = []; reading = false }

-- No part of a session is open yet.
abbrev Unconnected : {A : Type 0} → Host → A → Type 0
Unconnected h a = (h.parts ≡ []) × (h.reading ≡ false)

abbrev Anything : {A : Type 0} → Host → A → Type 0
Anything h a = Unit

stopped : (h : Host) → (h.parts ≡ []) × (h.reading ≡ false) → Stopped 1 h
stopped h (none_open, quiet) = (refl, quiet, inl none_open)

exit_main :
    {A : Type 0} (h : Host) (got : Result A) (f : A → Main Act Unit)
    → (h.parts ≡ []) × (h.reading ≡ false)
    → ((a : A) → EndsMain Never h (f a))
    → EndsMain Never h (or_exit got >>= f)
exit_main h got f quiet works =
    or_exit-Ends do_act Left Stopped Never h got f (stopped h quiet) works

told :
    (actions : List Action) (h : Host)
    → after do_act (map device actions ++ []) h ≡ record h { opened = is_open h.opened actions }
told actions h = rw append-nil (after-device actions h)

created-Ends :
    (actions : List Action) (got : Result Device)
    → EndsMain Unconnected fresh (tell (map device actions) >> or_exit got)
created-Ends actions (ok d) =
    (ap (λ h. h.parts) (told actions fresh), ap (λ h. h.reading) (told actions fresh))
created-Ends actions (err e) =
    stopped (after do_act (map device actions ++ []) fresh)
      (ap (λ h. h.parts) (told actions fresh), ap (λ h. h.reading) (told actions fresh))

-- What is left of a session that could not be set up.
failed_parts :
    (A : Type 0) (effects : List Effect) (e : Error)
    → Fits {A = A} (effects, err e)
    → (left_open [] effects ≡ []) ⊎ (left_open [] effects ≡ mux ∷ [])
failed_parts A effects (open_failed e) fits = inr fits
failed_parts A effects _ fits = inl fits

told_tunnel :
    (effects : List Effect) (h : Host)
    → after do_act (map tunnel effects ++ []) h ≡ record h { parts = left_open h.parts effects }
told_tunnel effects h = rw append-nil (after-tunnel effects h)

-- Nothing of the state but the parts of the session changes while it is set up.
connected-Ends :
    {A : Type 0} (effects : List Effect) (got : Result A) (h : Host)
    → Unconnected h got
    → Fits {A = A} (effects, got)
    → EndsMain Anything h (tell (map tunnel effects) >> or_exit got)
connected-Ends effects (ok s) h quiet fits = tt
connected-Ends {A} effects (err e) h (none_open, quiet) fits =
    subst (Stopped 1) (sym (told_tunnel effects h)) (
      refl,
      quiet,
      subst (λ ps. (left_open ps effects ≡ []) ⊎ (left_open ps effects ≡ mux ∷ [])) (sym none_open)
          (failed_parts A effects e fits),
    )

shut_down-Left : (cur : Option TunnelSession) (h : Host) → EndsMain Never h (shut_down cur)
shut_down-Left none h = (refl, refl)
shut_down-Left (some s) h =
    if_both
      (λ acts.
        Left (after do_act (acts ++ device Action.closes ∷ []) (record h { reading = false })))
      s.closed (refl, refl) (refl, refl)

module _ {H K P : Type 0} (hs : HandshakeState H K) (m : Machine P) where
  -- From `tun.New` on.
  network_main :
      (c : ClientConfig) (keypair : DhKey) (server_public : Bytes)
      → EndsMain Never fresh (
          create_device m c >>= λ d. connect hs m keypair server_public >>= λ session.
          tell (starts_reader ∷ []) >> shut_down (m.at_end session.0))
  network_main c keypair server_public =
      let dc : DeviceConfig = record {
        name = c.tun.name;
        address = c.tun.address;
        mtu = c.tun.mtu;
      } in
      let (actions, got) = new_device m.system dc in
      let (effects, made) = establish hs m.dial m.exchange m.stream_error keypair server_public in
      bind-Ends do_act Left Stopped Unconnected Never fresh (create_device m c) _
        (created-Ends actions got)
        (λ h d quiet.
          bind-Ends do_act Left Stopped Anything Never h (connect hs m keypair server_public) _
            (connected-Ends effects made h quiet
              (establish-Fits hs m.dial m.exchange m.stream_error keypair server_public).0)
            (λ h' session known. shut_down-Left (m.at_end session.0) (do_act starts_reader h')))

  -- Before `tun.New` nothing of the host changes.
  exit_first :
      {A : Type 0} (got : Result A) (f : A → Main Act Unit)
      → ((a : A) → EndsMain Never fresh (f a))
      → EndsMain Never fresh (or_exit got >>= f)
  exit_first got f works = exit_main fresh got f (refl, refl) works

  profile_main :
      (path : Bytes) (f : P → Main Act Unit)
      → ((prof : P) → EndsMain Never fresh (f prof))
      → EndsMain Never fresh (load_profile m path >>= f)
  profile_main path f rest =
      if_both (λ step. EndsMain Never fresh (step >>= f)) (length path == 0)
        (rest m.default_profile) (exit_first (m.profile path) f rest)

  run_client-Ends : EndsMain Never fresh (run_client hs m)
  run_client-Ends =
      or_refuse-Ends do_act Left Stopped Never fresh (load_client m.parse m.file) _
        (stopped fresh (refl, refl))
        (λ c. profile_main c.profile_path _ (λ prof.
          exit_first (decode_key m.std m.raw_std m.url m.raw_url c.private_key) _ (λ private.
            exit_first (keypair_from_private m.derive private) _ (λ keypair.
              exit_first (decode_key m.std m.raw_std m.url m.raw_url c.server_public_key) _
                (λ public. network_main c keypair public)))))

  -- However `main` of the client ends: where it returns, the device is closed and packets are read no
  -- more; where it exits, the code is 1, no packets are read, and of the session that it tried to set up
  -- nothing is open but, at most, the mux.
  pub main-EndsMain : (show_version : Bool) → EndsMain Never fresh (main hs show_version m)
  unfolding main
  main-EndsMain true = (refl, refl)
  main-EndsMain false = run_client-Ends
