-- ===== src/Server/Valid.antt =====
-- cmd/ghost-server/main.go: what holds of the sessions, and why each operation keeps it.
use ghost_vpn.Base.{
  ℕ, ◌⊎◌, subst, ◌<◌, ◌≡◌, refl, ap, ◌∙◌, true, false, Bool-cases, inl, inr, Option, none, some,
  List, [], ◌∷◌, Bytes, Map, lookup, lookup-insert, same, same_lem, same_refl, ◌==◌, arith, ◌⊎◌,
}
use ghost_vpn.Auth.Session.{Session}
use ghost_vpn.Server.Sessions.{
  ServerSession, Server, close_order, close_session, active_of, remove_active, update, kick, admit,
  is_active, ended, ends, forget,
}

remove_active-other :
    (k key : Bytes) (m : List (Bytes × ℕ))
    → same k key ≡ false
    → active_of key (remove_active k m) ≡ active_of key m
remove_active-other k key [] h = refl
remove_active-other k key ((j, n) ∷ m) h = elim (Bool-cases (same j k)) [
  | inl q ↦
      let is_k : j ≡ k = same_lem j k q in
      ground (arith, ap (λ x. same x key) is_k, remove_active-other k key m)
  | inr q ↦ ground (arith, remove_active-other k key m)
]

module _ {K : Type 0} where
  -- All parts of a session are closed once and in order, or none is; its connection is done by then.
  pub record IsOrderly (s : ServerSession K) : Type 0 where
    pub all_closed : s.closed ≡ true → s.closes ≡ close_order
    pub none_closed : s.closed ≡ false → s.closes ≡ []
    pub over : s.closed ≡ true → s.done ≡ true

  pub record IsValid (server : Server K) : Type 0 where
    pub known : (n : ℕ) (s : ServerSession K) → lookup n server.sessions ≡ some s → n < server.next
    pub orderly : (n : ℕ) (s : ServerSession K) → lookup n server.sessions ≡ some s → IsOrderly s
    pub live :
        (n : ℕ) (s : ServerSession K)
        → lookup n server.sessions ≡ some s
        → s.done ≡ false
        → active_of s.client server.active ≡ some n

  close_session-done : (s : ServerSession K) → IsOrderly s → (close_session s).done ≡ true
  unfolding close_session
  close_session-done s o = ground (arith, o.over)

  close_session-IsOrderly : (s : ServerSession K) → IsOrderly s → IsOrderly (close_session s)
  unfolding close_session
  close_session-IsOrderly s o = record {
    all_closed = λ h. ground (arith, o.all_closed, o.none_closed);
    none_closed = λ h. absurd (ground arith);
    over = λ h. ground (arith, o.over);
  }

  -- A session after a kick: it was there and was not kicked, or it is done.
  Kept : ℕ → ServerSession K → Option ℕ → Map (ServerSession K) → Type 0
  Kept n s old m =
      ((lookup n m ≡ some s) × (old ≡ some n → ⊥))
      ⊎ ((s.done ≡ true) × IsOrderly s × (t : ServerSession K) × (lookup n m ≡ some t))

  AllOrderly : Map (ServerSession K) → Type 0
  AllOrderly m = (n : ℕ) (s : ServerSession K) → lookup n m ≡ some s → IsOrderly s

  update-Kept :
      (k : ℕ) (found : Option (ServerSession K)) (m : Map (ServerSession K)) (n : ℕ)
      (s : ServerSession K)
      → AllOrderly m
      → lookup k m ≡ found
      → lookup n (update k found m) ≡ some s
      → Kept n s (some k) m
  unfolding Kept AllOrderly
  update-Kept k none m n s o q h = inl (h, λ same. absurd (ground arith))
  update-Kept k (some t) m n s o q h = elim (Bool-cases (k == n)) [
    | inl same ↦
        let is_closed : close_session t ≡ s =
          ground (arith, lookup-insert k n (close_session t) m) in
        inr (
          subst (λ (x : ServerSession K). x.done ≡ true) is_closed (close_session-done t (o k t q)),
          subst IsOrderly is_closed (close_session-IsOrderly t (o k t q)),
          t,
          ground arith,
        )
    | inr other ↦
        inl (ground (arith, lookup-insert k n (close_session t) m), λ same. absurd (ground arith))
  ]

  kick-Kept :
      (old : Option ℕ) (m : Map (ServerSession K)) (n : ℕ) (s : ServerSession K)
      → AllOrderly m
      → lookup n (kick old m) ≡ some s
      → Kept n s old m
  unfolding Kept
  kick-Kept none m n s o h = inl (h, λ same. absurd (ground arith))
  kick-Kept (some k) m n s o h = update-Kept k (lookup k m) m n s o refl h

  abbrev fresh : Bytes → Option (Session K) → ServerSession K
  fresh client cipher = record {
    client = client;
    cipher = cipher;
    closed = false;
    done = false;
    closes = [];
  }

  fresh-IsOrderly : (client : Bytes) (cipher : Option (Session K)) → IsOrderly (fresh client cipher)
  fresh-IsOrderly client cipher = record {
    all_closed = λ h. absurd (ground arith);
    none_closed = λ h. refl;
    over = λ h. absurd (ground arith);
  }

  -- What a session is right after an admission: the new one, or one kept.
  admitted :
      (client : Bytes) (cipher : Option (Session K)) (server : Server K) (n : ℕ)
      (s : ServerSession K)
      → IsValid server
      → lookup n (admit client cipher server).sessions ≡ some s
      → ((n ≡ server.next) × (fresh client cipher ≡ s))
        ⊎ Kept n s (active_of client server.active) server.sessions
  unfolding admit AllOrderly
  admitted client cipher server n s v h =
      let m = kick (active_of client server.active) server.sessions in
      elim (Bool-cases (server.next == n)) [
        | inl same ↦
            inl (ground arith, ground (arith, lookup-insert server.next n (fresh client cipher) m))
        | inr other ↦ inr (
            kick-Kept (active_of client server.active) server.sessions n s v.orderly
              (ground (arith, lookup-insert server.next n (fresh client cipher) m)))
      ]

  live_kept :
      (client : Bytes) (server : Server K) (n : ℕ) (s : ServerSession K)
      → IsValid server
      → lookup n server.sessions ≡ some s
      → (active_of client server.active ≡ some n → ⊥)
      → s.done ≡ false
      → active_of s.client ((client, server.next) ∷ remove_active client server.active) ≡ some n
  live_kept client server n s v q unkicked up = elim (Bool-cases (same client s.client)) [
    | inl q' ↦ absurd (
        unkicked (
          ap (λ (x : Bytes). active_of x server.active) (same_lem client s.client q')
          ∙ v.live n s q up))
    | inr q' ↦ ground (arith, remove_active-other client s.client server.active, v.live n s q up)
  ]

  pub admit-IsValid :
      (client : Bytes) (cipher : Option (Session K)) (server : Server K)
      → IsValid server
      → IsValid (admit client cipher server)
  unfolding admit Kept
  admit-IsValid client cipher server v = record {
    known = λ n s h. elim (admitted client cipher server n s v h) [
      | inl (q, is_new) ↦ ground (arith, q)
      | inr (inl (q, unkicked)) ↦ let old = v.known n s q in omega (arith, old)
      | inr (inr (over, o, t, q)) ↦ let old = v.known n t q in omega (arith, old)
    ];
    orderly = λ n s h. elim (admitted client cipher server n s v h) [
      | inl (q, is_new) ↦ subst IsOrderly is_new (fresh-IsOrderly client cipher)
      | inr (inl (q, unkicked)) ↦ v.orderly n s q
      | inr (inr (over, o, t, q)) ↦ o
    ];
    live = λ n s h up. elim (admitted client cipher server n s v h) [
      | inl (q, is_new) ↦
          ground (arith, ap (λ (x : ServerSession K). x.client) is_new, same_refl client)
      | inr (inl (q, unkicked)) ↦ live_kept client server n s v q unkicked up
      | inr (inr (over, o, t, q)) ↦ absurd (ground arith)
    ];
  }

  pub ends-IsValid :
      (k : ℕ) (t : ServerSession K) (server : Server K)
      → lookup k server.sessions ≡ some t
      → IsValid server
      → IsValid (ends k t server)
  ends-IsValid k t server q v = record {
    known = λ n s h. elim (Bool-cases (k == n)) [
      | inl same ↦ ground (arith, v.known k t q)
      | inr other ↦ v.known n s (ground (arith, lookup-insert k n (ended t) server.sessions))
    ];
    orderly = λ n s h. elim (Bool-cases (k == n)) [
      | inl same ↦
          let o = v.orderly k t q in
          let is_t : ended t ≡ s = ground (arith, lookup-insert k n (ended t) server.sessions) in
          subst IsOrderly is_t
            (record { all_closed = o.all_closed; none_closed = o.none_closed; over = λ x. refl })
      | inr other ↦ v.orderly n s (ground (arith, lookup-insert k n (ended t) server.sessions))
    ];
    live = λ n s h up. elim (Bool-cases (k == n)) [
      | inl same ↦ absurd (ground (arith, lookup-insert k n (ended t) server.sessions))
      | inr other ↦ v.live n s (ground (arith, lookup-insert k n (ended t) server.sessions)) up
    ];
  }

  -- An entry that is removed was that of a session that is done.
  still_active :
      (k : ℕ) (t : ServerSession K) (server : Server K) (n : ℕ) (s : ServerSession K)
      → lookup k server.sessions ≡ some t
      → t.done ≡ true
      → is_active k (active_of t.client server.active) ≡ true
      → lookup n server.sessions ≡ some s
      → s.done ≡ false
      → active_of s.client server.active ≡ some n
      → active_of s.client (remove_active t.client server.active) ≡ some n
  still_active k t server n s qt over current qs up a = elim (Bool-cases (same t.client s.client)) [
    | inl q ↦
        let alike = ap (λ (x : Bytes). active_of x server.active) (same_lem t.client s.client q) in
        absurd (ground (arith, alike))
    | inr q ↦ remove_active-other t.client s.client server.active q ∙ a
  ]

  pub forget-IsValid :
      (k : ℕ) (t : ServerSession K) (server : Server K)
      → lookup k server.sessions ≡ some t
      → t.done ≡ true
      → IsValid server
      → IsValid (forget k t.client server)
  unfolding forget
  forget-IsValid k t server q over v =
      elim (Bool-cases (is_active k (active_of t.client server.active))) [
        | inl current ↦ rw current (record {
          known = v.known;
          orderly = v.orderly;
          live = λ n s h up. still_active k t server n s q over current h up (v.live n s h up);
        })
        | inr other ↦ rw other v
      ]
