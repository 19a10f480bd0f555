-- ===== src/Crypto/Cipher/Link/UnderWay.antt =====
-- internal/crypto/frame_cipher.go: the frames under way between two ends, and the two ends.
use ghost_vpn.Base.{
  ◌+◌, ◌≤◌, ◌<◌, ◌≡◌, refl, sym, ap, ◌∙◌, some, List, [], ◌∷◌, ◌++◌, Bytes, length, concat, arith,
  append_assoc, append-nil,
}
use ghost_vpn.Io.{ok}
use ghost_vpn.Auth.Session.{CipherState, CipherLaws, Session}
use ghost_vpn.Crypto.Cipher.{FrameCipher, max_sealed_payload, sealed_frame}

pub no_bytes : (p : Bytes) → length p ≡ 0 → p ≡ []
no_bytes [] h = refl
no_bytes (b ∷ bs) h = absurd (omega arith)

module _ {K : Type 0} ⦃cs : CipherState K⦄ (Paired : K → K → Type 0) where
  abbrev pub IsMessage : Bytes → Type 0
  IsMessage p = (0 < length p) × (length p ≤ max_sealed_payload)

  -- A frame under way: what state `j` makes of it, and what follows.
  pub record Frame (j : K) (pending p : Bytes) : Type 0 where
    pub text : Bytes
    pub after : K
    pub rest : Bytes
    pub wire : pending ≡ sealed_frame text ++ rest
    pub opened : cs.unseal j [] text ≡ (after, ok p)
    pub size : length text ≡ length p + 16
    pub message : IsMessage p

  -- The bytes under way are the frames of these messages, sealed for the receiver's state `j`;
  -- after them the receiver is paired with the sender's state `k`.
  abbrev pub Carried : K → Bytes → List Bytes → K → Type 0
  Carried j pending [] k = (pending ≡ []) × Paired k j
  Carried j pending (p ∷ ps) k = (f : Frame j pending p) × Carried f.after f.rest ps k

  -- Two ends of a tunnel, the bytes between them, and the bytes that were written on one and are
  -- not yet read on the other.
  pub record Linked {W V : Type 0} (tx : FrameCipher K W) (rx : FrameCipher K V) (unread : Bytes)
      : Type 0 where
    pub sender : Session K
    pub receiver : Session K
    pub sends : tx.session ≡ some sender
    pub receives : rx.session ≡ some receiver
    pub k : K
    pub j : K
    pub send_key : sender.send ≡ some k
    pub recv_key : receiver.recv ≡ some j
    pub messages : List Bytes
    pub carried : Carried j rx.reader.pending messages k
    pub unread_is : unread ≡ rx.read_buf ++ concat messages

  pub Carried-append :
      (laws : CipherLaws cs Paired) (j : K) (pending : Bytes) (ps : List Bytes) (k k' : K)
      (p text : Bytes)
      → IsMessage p
      → cs.seal k [] p ≡ (k', ok text)
      → Carried j pending ps k
      → Carried j (pending ++ sealed_frame text) (ps ++ p ∷ []) k'
  Carried-append laws j pending [] k k' p text m q (empty, paired) =
      let (j', opened, paired') = laws.opens k j [] p text k' paired q in
      (
        record {
          text = text;
          after = j';
          rest = [];
          wire =
              ap (λ (x : Bytes). x ++ sealed_frame text) empty
              ∙ sym (append-nil (sealed_frame text));
          opened = opened;
          size = laws.expands k [] p text k' q;
          message = m;
        },
        (refl, paired'),
      )
  Carried-append laws j pending (x ∷ ps) k k' p text m q (f, more) = (
    record {
      text = f.text;
      after = f.after;
      rest = f.rest ++ sealed_frame text;
      wire =
          ap (λ (y : Bytes). y ++ sealed_frame text) f.wire
          ∙ append_assoc (sealed_frame f.text) f.rest (sealed_frame text);
      opened = f.opened;
      size = f.size;
      message = f.message;
    },
    Carried-append laws f.after f.rest ps k k' p text m q more,
  )
