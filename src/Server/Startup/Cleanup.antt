-- ===== src/Server/Startup/Cleanup.antt =====
-- cmd/ghost-server/main.go: what `main` leaves behind on the host.
use ghost_vpn.Server.Startup.Host.{
  Never, Host, do_act, IsCounted, added, new_device-IsCounted, delete_rule,
}
use ghost_vpn.Base.{
  one_if, ◌==◌, ℕ, ◌+◌, ◌≤◌, ◌≡◌, refl, Bool, true, false, Option, none, some, List, [], ◌++◌, map,
  Bytes, arith, append-nil, ap, if_both, length,
}
use ghost_vpn.Io.{Error, Result, ok, err}
use ghost_vpn.Tun.Device.{Action, Device, DeviceConfig, add_nat, new_device}
use ghost_vpn.Server.Startup.{
  Act, device, Machine, main, after_serving, open_listener, run_network, run_server, create_device,
  load_profile, load_keypair, delete_nat,
}
use ghost_vpn.Startup.{Main, ◌>>=◌, ◌>>◌, tell, or_exit}
use ghost_vpn.Transport.Listener.{Listener}
use ghost_vpn.Auth.Keys.{DhKey, keypair_from_private, decode_key}
use ghost_vpn.Fallback.{Url, new_proxy}
use ghost_vpn.Config.{ServerConfig, load_server}
use ghost_vpn.Startup.Ends.{after, Ends, bind-Ends, or_exit-Ends, or_refuse-Ends}

-- A return leaves nothing open, and no rule that was not there, unless the command that deletes it
-- failed: then at most one. An exit leaves at most one rule more.
abbrev pub Left : ℕ → Host → Type 0
Left n h = (h.rules ≤ n + one_if h.stuck) × (h.opened ≡ false) × (h.listening ≡ false)

abbrev pub Stopped : ℕ → ℕ → Host → Type 0
Stopped n code h = (code ≡ 1) × (n ≤ h.rules) × (h.rules ≤ n + 1)

module _ {P : Type 0} (m : Machine P) (n : ℕ) where
  abbrev pub EndsMain : {A : Type 0} → (Host → A → Type 0) → Host → Main (Act P) A → Type 0
  EndsMain = Ends (do_act m.system) (Left n) (Stopped n)

  abbrev pub fresh : Host
  fresh = record { rules = n; opened = false; listening = false; stuck = false }

  abbrev Kept : {A : Type 0} → Host → A → Type 0
  Kept h a = h.rules ≡ n

  stopped : (h : Host) → h.rules ≡ n → Stopped n 1 h
  stopped h q = (refl, omega (arith, q), omega (arith, q))

  rules_kept :
      (actions : List Action) {b : Bool}
      → after (do_act {P = P} m.system) (map device actions) fresh
        ≡ record { rules = n; opened = b; listening = false; stuck = false }
      → (after (do_act {P = P} m.system) (map device actions ++ []) fresh).rules ≡ n
  rules_kept actions q = rw append-nil (ap (λ h. h.rules) q)

  created-Ends :
      (c : DeviceConfig) (actions : List Action) (got : Result Device)
      → IsCounted P m.system c n (actions, got)
      → EndsMain Kept fresh (tell (map device actions) >> or_exit got)
  created-Ends c actions (ok d) q = rules_kept actions q
  created-Ends c actions (err e) q =
      stopped (after (do_act {P = P} m.system) (map device actions ++ []) fresh)
        (rules_kept actions q)

  deleted-Left :
      (ended : Option Error) (h : Host)
      → h.rules ≤ n + 1
      → (delete_rule ended h).rules ≤ n + one_if (delete_rule ended h).stuck
  deleted-Left none h high = omega (arith, high)
  deleted-Left (some e) h high = high

  closed_after :
      (ended : Option Error) (h : Host)
      → ((delete_rule ended h).opened ≡ h.opened) × ((delete_rule ended h).listening ≡ h.listening)
  closed_after none h = (refl, refl)
  closed_after (some e) h = (refl, refl)

  after_serving-Ends :
      (subnet : Bytes) (ended : Option Error) (h : Host)
      → n ≤ h.rules
      → h.rules ≤ n + 1
      → EndsMain Never h (after_serving subnet ended)
  after_serving-Ends subnet none h low high =
      let deleting = m.system.running (delete_nat subnet) in
      let closed = record h { listening = false } in
      (deleted-Left deleting closed high, refl, (closed_after deleting closed).1)
  after_serving-Ends subnet (some e) h low high = (refl, low, high)

  abbrev Within : {A : Type 0} → Host → A → Type 0
  Within h a = (n ≤ h.rules) × (h.rules ≤ n + 1)

  open_listener-Ends :
      (got : Result Listener) (h : Host)
      → n ≤ h.rules
      → h.rules ≤ n + 1
      → EndsMain Within h (open_listener got)
  open_listener-Ends (err e) h low high = (refl, low, high)
  open_listener-Ends (ok ln) h low high = (low, high)

  added_bound : (e : Option Error) → added e ≤ 1
  added_bound none = omega arith
  added_bound (some e) = omega arith

  abbrev MainEnds : Host → Main (Act P) Unit → Type 0
  MainEnds = EndsMain Never

  then_main :
      {A : Type 0} (mid : Host → A → Type 0) (h : Host) (now : Main (Act P) A)
      (f : A → Main (Act P) Unit)
      → EndsMain mid h now
      → ((h' : Host) (a : A) → mid h' a → MainEnds h' (f a))
      → MainEnds h (now >>= f)
  then_main mid h now f done rest =
      bind-Ends (do_act m.system) (Left n) (Stopped n) mid Never h now f done rest

  exit_main :
      {A : Type 0} (h : Host) (got : Result A) (f : A → Main (Act P) Unit)
      → Stopped n 1 h
      → ((a : A) → MainEnds h (f a))
      → MainEnds h (or_exit got >>= f)
  exit_main h got f fails works =
      or_exit-Ends (do_act m.system) (Left n) (Stopped n) Never h got f fails works

  run_network-Ends :
      (c : ServerConfig) (prof : P) (keypair : DhKey) (target : Url)
      → EndsMain Never fresh (run_network m c prof keypair target)
  run_network-Ends c prof keypair target =
      let dc : DeviceConfig = record {
        name = c.tun.name;
        address = c.tun.address;
        mtu = c.tun.mtu;
      } in
      let (actions, got) = new_device m.system dc in
      then_main Kept fresh (create_device m c) _
        (created-Ends dc actions got (new_device-IsCounted P m.system dc n))
        (λ h d q. exit_main h (m.subnet_of c.tun.address) _ (stopped h q) (λ subnet.
          let few = added_bound (m.system.running (add_nat subnet)) in
          let low : n ≤ h.rules + added (m.system.running (add_nat subnet)) = omega (arith, q) in
          let high : h.rules + added (m.system.running (add_nat subnet)) ≤ n + 1 =
            omega (arith, q, few) in
          then_main Within
            (record h { rules = h.rules + added (m.system.running (add_nat subnet)) })
            (open_listener _) _ (open_listener-Ends _ _ low high)
            (λ h₂ ln b. after_serving-Ends subnet (m.serving ln) h₂ b.0 b.1)))

  profile_main :
      (path : Bytes) (f : P → Main (Act P) Unit)
      → ((prof : P) → EndsMain Never fresh (f prof))
      → EndsMain Never fresh (load_profile m path >>= f)
  profile_main path f rest =
      if_both (λ step. EndsMain Never fresh (step >>= f)) (length path == 0)
        (rest m.default_profile) (exit_main fresh (m.profile path) f (stopped fresh refl) rest)

  decoded_main :
      (f : DhKey → Main (Act P) Unit)
      → ((keypair : DhKey) → MainEnds fresh (f keypair))
      → (key : Result Bytes)
      → MainEnds fresh
          ((or_exit key >>= λ private. or_exit (keypair_from_private m.derive private)) >>= f)
  decoded_main f rest (err e) = stopped fresh refl
  decoded_main f rest (ok key) =
      exit_main fresh (keypair_from_private m.derive key) f (stopped fresh refl) rest

  keypair_main :
      (text : Bytes) (f : DhKey → Main (Act P) Unit)
      → ((keypair : DhKey) → EndsMain Never fresh (f keypair))
      → EndsMain Never fresh (load_keypair m text >>= f)
  keypair_main text f rest = decoded_main f rest (decode_key m.std m.raw_std m.url m.raw_url text)

  run_server-Ends : EndsMain Never fresh (run_server m)
  run_server-Ends =
      or_refuse-Ends (do_act m.system) (Left n) (Stopped n) Never fresh (load_server m.parse m.file)
        _ (stopped fresh refl)
        (λ c. profile_main c.profile_path _ (λ prof. keypair_main c.private_key _ (λ keypair.
          exit_main fresh (new_proxy m.parse_url c.fallback_target) _ (stopped fresh refl)
            (λ target. run_network-Ends c prof keypair target))))

  -- However `main` of the server ends: where it returns, the device and the listener are closed and no
  -- masquerading rule is left that was not there, or one at most where the command that deletes it has
  -- failed, which `main` ignores; where it exits, the code is 1, and at most one rule
  -- more is there than before.
  pub main-Ends : (show_version : Bool) → EndsMain Never fresh (main show_version m)
  unfolding main
  main-Ends true = (omega arith, refl, refl)
  main-Ends false = run_server-Ends
