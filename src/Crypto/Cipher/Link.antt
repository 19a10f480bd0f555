-- ===== src/Crypto/Cipher/Link.antt =====
-- internal/crypto/frame_cipher.go: what a write and a read do to the frames under way.
use ghost_vpn.Base.{
  ℕ, ◌+◌, ◌≤◌, ◌<◌, ◌≡◌, refl, sym, ap, ◌∙◌, Option, none, some, List, [], ◌∷◌, ◌++◌, Bytes, length,
  concat, take, drop, arith, append_assoc, append-nil, concat-append, take-append-drop, ap₂, true,
  ltb, length-take, length-append, take-length_append, drop-length_append, subst, ◌==◌, Bool-cases,
  inl, inr,
}
use ghost_vpn.Io.{Error, Result, ok, err, Writer, WriterLaws}
use ghost_vpn.Auth.Session.{CipherState, CipherLaws, Session, encrypt, decrypt}
use ghost_vpn.Crypto.Cipher.{FrameCipher, max_sealed_payload, sealed_frame, write, read}
use ghost_vpn.Crypto.Cipher.Link.UnderWay.{Frame, Carried, Carried-append, no_bytes}
pub use ghost_vpn.Crypto.Cipher.Link.UnderWay.{Linked}
pub mod UnderWay

module _ {K : Type 0} ⦃cs : CipherState K⦄ (Paired : K → K → Type 0) where
  module _ {W V : Type 0} ⦃wr : Writer W⦄ ⦃vr : Writer V⦄ {sent : W → Bytes}
      (laws : CipherLaws cs Paired) (out : WriterLaws wr sent) where
    -- The receiver, once these bytes have arrived.
    abbrev pub arrive : Bytes → FrameCipher K V → FrameCipher K V
    arrive new rx = record rx { reader = record rx.reader { pending = rx.reader.pending ++ new } }

    -- A write that reports no error has sent bytes that, once they arrive, add exactly what was
    -- written to what the other end has to read.
    pub write_links :
        (tx tx' : FrameCipher K W) (rx : FrameCipher K V) (unread p : Bytes) (n : ℕ)
        → Linked Paired tx rx unread
        → write tx p ≡ (tx', n, none)
        → (n ≡ length p)
          × (new : Bytes) × (sent tx'.inner ≡ sent tx.inner ++ new)
          × Linked Paired tx' (arrive new rx) (unread ++ p)
    unfolding write encrypt
    write_links tx tx' rx unread p n l h = elim (Bool-cases (length p == 0)) [
      | inl none_to_send ↦ (
        ground arith,
        [],
        ground (arith, append-nil (sent tx.inner)),
        let same : tx ≡ tx' = ground arith in
            subst (λ (x : FrameCipher K W). Linked Paired x (arrive [] rx) (unread ++ p)) same
              (record {
                sender = l.sender;
                receiver = l.receiver;
                sends = l.sends;
                receives = l.receives;
                k = l.k;
                j = l.j;
                send_key = l.send_key;
                recv_key = l.recv_key;
                messages = l.messages;
                carried = rw append-nil l.carried;
                unread_is =
                    ap (◌++◌ unread) (no_bytes p (ground arith))
                    ∙ (append-nil unread ∙ l.unread_is);
              }),
      )
      | inr some_to_send ↦ go (ground arith) (cs.seal l.k [] p) refl
    ]
      where
        go :
            0 < length p
            → (got : K × Result Bytes) → cs.seal l.k [] p ≡ got
            → (n ≡ length p)
              × (new : Bytes) × (sent tx'.inner ≡ sent tx.inner ++ new)
              × Linked Paired tx' (arrive new rx) (unread ++ p)
        go some_bytes (k', err e) q = absurd (ground (arith, l.sends, l.send_key))
        go some_bytes (k', ok text) q = (
          ground (arith, l.sends, l.send_key),
          sealed_frame text,
          ground (arith, l.sends, l.send_key, out.writes_all tx.inner (sealed_frame text)),
          record {
            sender = record l.sender { send = some k' };
            receiver = l.receiver;
            sends = ground (arith, l.sends, l.send_key);
            receives = l.receives;
            k = k';
            j = l.j;
            send_key = refl;
            recv_key = l.recv_key;
            messages = l.messages ++ p ∷ [];
            carried =
                Carried-append Paired laws l.j rx.reader.pending l.messages l.k k' p text
                  (ground arith) q l.carried;
            unread_is =
                ap (λ (x : Bytes). x ++ p) l.unread_is
                ∙ ground (
                  arith,
                  concat-append l.messages (p ∷ []),
                  append-nil p,
                  append_assoc rx.read_buf (concat l.messages) p,
                );
          },
        )

  module _ {V : Type 0} ⦃vr : Writer V⦄ where
    -- With nothing left over, a read opens the next frame.
    read_frame_lem :
        (rx : FrameCipher K V) (k : ℕ) (t : Session K) (j : K) (p : Bytes)
        → 0 < k
        → rx.session ≡ some t
        → t.recv ≡ some j
        → rx.read_buf ≡ []
        → (f : Frame Paired j rx.reader.pending p)
        → read rx k ≡ (
          record {
            inner = rx.inner;
            reader = record { pending = f.rest; last = rx.reader.last };
            session = some (record t { recv = some f.after });
            read_buf = drop k p;
          },
          take k p,
          none,
        )
    unfolding read decrypt
    read_frame_lem rx k t j p positive s r empty f =
        let c = f.text in
        ground (
          arith,
          f.wire,
          f.opened,
          f.size,
          f.message,
          length-append c f.rest,
          take-length_append c f.rest,
          drop-length_append c f.rest,
        )

    read_left_over :
        (rx : FrameCipher K V) (k : ℕ)
        → 0 < k
        → ltb 0 (length rx.read_buf) ≡ true
        → read rx k ≡ (record rx { read_buf = drop k rx.read_buf }, take k rx.read_buf, none)
    unfolding read
    read_left_over rx k positive left = ground arith

    abbrev Reads :
        {W : Type 0} → FrameCipher K W → Bytes → FrameCipher K V × Bytes × Option Error → Type 0
    Reads tx unread (rx', got, e) =
        (e ≡ none)
        × (0 < length got)
        × (rest : Bytes) × (unread ≡ got ++ rest)
        × Linked Paired tx rx' rest

    read_next :
        {W : Type 0} (tx : FrameCipher K W) (rx : FrameCipher K V) (unread : Bytes) (k : ℕ)
        → 0 < k
        → 0 < length unread
        → (l : Linked Paired tx rx unread) → rx.read_buf ≡ []
        → (messages : List Bytes) → l.messages ≡ messages
        → Reads tx unread (read rx k)
    read_next tx rx unread k positive some_left l empty [] q =
        absurd (ground (arith, l.unread_is, q))
    read_next tx rx unread k positive some_left l empty (p ∷ ps) q =
        let carried : Carried Paired l.j rx.reader.pending (p ∷ ps) l.k =
          subst (λ (ms : List Bytes). Carried Paired l.j rx.reader.pending ms l.k) q l.carried in
        let f = carried.0 in
        subst (Reads tx unread)
          (sym (read_frame_lem rx k l.receiver l.j p positive l.receives l.recv_key empty f))
          (
            refl,
            ground (arith, length-take k p, f.message),
            drop k p ++ concat ps,
            l.unread_is
                ∙ (ap₂ (λ (x : Bytes) (y : List Bytes). x ++ concat y) empty q
                    ∙ (ap (λ (x : Bytes). x ++ concat ps) (sym (take-append-drop k p))
                        ∙ append_assoc (take k p) (drop k p) (concat ps))),
            record {
              sender = l.sender;
              receiver = record l.receiver { recv = some f.after };
              sends = l.sends;
              receives = refl;
              k = l.k;
              j = f.after;
              send_key = l.send_key;
              recv_key = refl;
              messages = ps;
              carried = carried.1;
              unread_is = refl;
            },
          )

    -- While there are bytes to read, a read into a buffer that is not empty returns some of them, from
    -- the front, without an error, and the rest stay to be read: nothing is lost, repeated or moved,
    -- whatever the sizes of the writes and of the buffers.
    pub read_links :
        {W : Type 0} (tx : FrameCipher K W) (rx : FrameCipher K V) (unread : Bytes) (k : ℕ)
        → 0 < k
        → 0 < length unread
        → Linked Paired tx rx unread
        → let (rx', got, e) = read rx k in
          (e ≡ none)
          × (0 < length got)
          × (rest : Bytes) × (unread ≡ got ++ rest)
          × Linked Paired tx rx' rest
    unfolding read
    read_links tx rx unread k positive some_left l =
        elim (Bool-cases (ltb 0 (length rx.read_buf))) [
          | inl left_over ↦ rw (read_left_over rx k positive left_over) (
            refl,
            ground (arith, length-take k rx.read_buf),
            drop k rx.read_buf ++ concat l.messages,
            l.unread_is
                ∙ (ap (λ (x : Bytes). x ++ concat l.messages) (sym (take-append-drop k rx.read_buf))
                    ∙ append_assoc (take k rx.read_buf) (drop k rx.read_buf) (concat l.messages)),
            record {
              sender = l.sender;
              receiver = l.receiver;
              sends = l.sends;
              receives = l.receives;
              k = l.k;
              j = l.j;
              send_key = l.send_key;
              recv_key = l.recv_key;
              messages = l.messages;
              carried = l.carried;
              unread_is = refl;
            },
          )
          | inr nothing ↦
              read_next tx rx unread k positive some_left l (no_bytes rx.read_buf (ground arith))
                l.messages refl
        ]
