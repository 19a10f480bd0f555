-- ===== src/Server/Startup/Leak.antt =====
-- cmd/ghost-server/main.go: a start that fails at its listener.
use ghost_vpn.Base.{
  ℕ, ◌+◌, ◌≡◌, refl, none, List, [], map, false, Bytes, subst, sym, append-nil, ap, ◌∙◌,
}
use ghost_vpn.Io.{ℤ, Error, Result, ok, err}
use ghost_vpn.Auth.Keys.{DhKey}
use ghost_vpn.Config.{ServerConfig}
use ghost_vpn.Fallback.{Url}
use ghost_vpn.Startup.{Main, ◌>>=◌, ◌>>◌, tell, or_exit}
use ghost_vpn.Startup.Ends.{Ends, bind-Ends}
use ghost_vpn.Transport.Listener.{Listener, listen}
use ghost_vpn.Tun.Device.{Action, Device, DeviceConfig, new_device, add_nat}
use ghost_vpn.Server.Startup.{Act, device, Machine, run_network, create_device, open_listener}
use ghost_vpn.Server.Startup.Host.{Never, added, Host, do_act, IsCounted, new_device-IsCounted}

module _ {P : Type 0} (m : Machine P) (n : ℕ) where
  abbrev OneMore : ℕ → Host → Type 0
  OneMore code h = (code ≡ 1) × (h.rules ≡ n + 1)

  abbrev pub Leaks : Host → Main (Act P) Unit → Type 0
  Leaks = Ends (do_act {P = P} m.system) (λ h. ⊥) OneMore Never

  or_exit-Leaks :
      {A : Type 0} (h : Host) {got : Result A} {a : A} (f : A → Main (Act P) Unit)
      → got ≡ ok a
      → Leaks h (f a)
      → Leaks h (or_exit got >>= f)
  or_exit-Leaks h f q leaks = subst (λ got. Leaks h (or_exit got >>= f)) (sym q) leaks

  created-Leaks :
      (c : DeviceConfig) (actions : List Action) {got : Result Device} {d : Device}
      → IsCounted P m.system c n (actions, got)
      → got ≡ ok d
      → Ends
          (do_act {P = P} m.system)
          (λ h. ⊥)
          OneMore
          (λ h d. h.rules ≡ n)
          (record { rules = n; opened = false; listening = false; stuck = false })
          (tell (map device actions) >> or_exit got)
  created-Leaks c actions q made =
      subst
        (λ got.
          Ends (do_act {P = P} m.system) (λ h. ⊥) OneMore (λ h d. h.rules ≡ n)
            (record { rules = n; opened = false; listening = false; stuck = false })
            (tell (map device actions) >> or_exit got))
        (sym made) (rw append-nil (ap (λ h. h.rules) q))

  listened-Leaks :
      (h : Host) {got : Result Listener} {e : Error} (f : Listener → Main (Act P) Unit)
      → got ≡ err e
      → h.rules ≡ n + 1
      → Leaks h (open_listener got >>= f)
  listened-Leaks h f q more = subst (λ got. Leaks h (open_listener got >>= f)) (sym q) (refl, more)

  -- Where the server's device is made, its subnet is read and the masquerading rule is added, and the
  -- listener then fails, `main` exits with code 1 and leaves the rule behind: there is one more than
  -- before.
  pub listen_failure-Leaks :
      (c : ServerConfig) (prof : P) (keypair : DhKey) (target : Url) {d : Device} {subnet : Bytes}
      {e : Error}
      → (new_device m.system
          (record { name = c.tun.name; address = c.tun.address; mtu = c.tun.mtu })).1
        ≡ ok d
      → m.subnet_of c.tun.address ≡ ok subnet
      → m.system.running (add_nat subnet) ≡ none
      → listen m.load m.bind (record {
        listen_addr = c.listen;
        cert_file = c.cert_file;
        key_file = c.key_file;
        certificates = [];
        next_protos = [];
        tcp_keep_alive = ℤ.pos 0;
      })
        ≡ err e
      → Leaks
          (record { rules = n; opened = false; listening = false; stuck = false })
          (run_network m c prof keypair target)
  listen_failure-Leaks c prof keypair target made read ran fails =
      let dc : DeviceConfig = record {
        name = c.tun.name;
        address = c.tun.address;
        mtu = c.tun.mtu;
      } in
      bind-Ends (do_act {P = P} m.system) (λ h. ⊥) OneMore (λ h d. h.rules ≡ n) Never _
        (create_device m c) _
        (created-Leaks dc (new_device m.system dc).0 (new_device-IsCounted P m.system dc n) made)
        (λ h d q.
          or_exit-Leaks h _ read
            (listened-Leaks _ _ fails (ap (λ e. h.rules + added e) ran ∙ ap (λ k. k + 1) q)))
