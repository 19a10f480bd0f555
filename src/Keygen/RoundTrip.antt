-- ===== src/Keygen/RoundTrip.antt =====
-- cmd/ghost-tools/keygen.go: what is in the files that it writes.
use ghost_vpn.Base.{
  ℕ, ◌≡◌, ◌<◌, refl, ap, ◌∙◌, Bool-cases, inl, inr, false, Option, none, some, [], ◌∷◌, ◌++◌, Bytes,
  length, same, same_refl, same_lem, ◌==◌, if◌then◌else◌, arith,
}
use ghost_vpn.Io.{Error, Result, ok}
use ghost_vpn.Auth.Keys.{
  DhKey, key_size, decode_key, keypair_from_private, decode_key_standard, keypair_from_private_pair,
}
use ghost_vpn.Keygen.{
  File, Files, find, put, Disk, opened_as, line, written_to, after_opening, write_key_file, dot_pub,
  private_mode, public_mode, after_public, after_private, Flags, keygen_cmd,
}

find-put_self : (path : Bytes) (f : File) (fs : Files) → find path (put path f fs) ≡ some f
find-put_self path f [] = rw same_refl refl
find-put_self path f ((p, g) ∷ fs) = elim (Bool-cases (same p path)) [
  | inl here ↦ rw (here, here) refl
  | inr there ↦ rw (there, there) (find-put_self path f fs)
]

find-put_ne :
    (path other : Bytes) (f : File) (fs : Files)
    → same path other ≡ false
    → find other (put path f fs) ≡ find other fs
find-put_ne path other f [] ne = rw ne refl
find-put_ne path other f ((p, g) ∷ fs) ne = elim (Bool-cases (same p path)) [
  | inl here ↦ rw (here, ap (λ q. same q other) (same_lem p path here) ∙ ne) refl
  | inr there ↦
      rw there (ap (λ o. if same p other then some g else o) (find-put_ne path other f fs ne))
]

same_longer : (xs : Bytes) (b : ℕ) (ys : Bytes) → same (xs ++ b ∷ ys) xs ≡ false
same_longer [] b ys = refl
same_longer (x ∷ xs) b ys = ground (arith, same_longer xs b ys)

-- What a call of `writeKeyFile` without an error leaves.
abbrev Wrote : ℕ → Bytes → Bytes → Files → Files × Option Error → Type 0
Wrote mode path contents fs (fs', some e) = Unit
Wrote mode path contents fs (fs', none) =
    (find path fs' ≡ some (record (opened_as mode (find path fs)) { content = line contents }))
    × ((other : Bytes) → same path other ≡ false → find other fs' ≡ find other fs)

module _ (disk : Disk) (path contents : Bytes) (mode : ℕ) (fs : Files) where
  closed-Wrote :
      (ended : Option Error)
      → Wrote mode path contents fs
          (put path (record (opened_as mode (find path fs)) { content = line contents }) fs, ended)
  closed-Wrote (some e) = tt
  closed-Wrote none =
      let f : File = record (opened_as mode (find path fs)) { content = line contents } in
      (find-put_self path f fs, λ other ne. find-put_ne path other f fs ne)

  written-Wrote :
      (failing : Option (ℕ × Error))
      → Wrote mode path contents fs
          (written_to disk path (line contents) (opened_as mode (find path fs)) failing fs)
  written-Wrote (some (k, e)) = tt
  written-Wrote none = closed-Wrote (disk.closing path)

write_key_file-Wrote :
    (disk : Disk) (path contents : Bytes) (mode : ℕ) (fs : Files)
    → Wrote (disk.umasked mode) path contents fs (write_key_file disk path contents mode fs)
unfolding write_key_file
write_key_file-Wrote disk path contents mode fs = opened (disk.opening path)
  where
    opened :
        (ended : Option Error)
        → Wrote
            (disk.umasked mode)
            path
            contents
            fs
            (after_opening disk path contents mode ended fs)
    opened (some e) = tt
    opened none = written-Wrote disk path contents (disk.umasked mode) fs (disk.writing path)

-- The two files of a run that exits with 0.
abbrev pub KeyFiles : Disk → (Bytes → Bytes) → DhKey → Bytes → Files → Files → Type 0
KeyFiles disk encode kp path fs fs' =
    (find path fs'
      ≡ some (record (opened_as (disk.umasked private_mode) (find path fs)) {
        content = line (encode kp.private);
      }))
    × (public : File) × (find (path ++ dot_pub) fs' ≡ some public)
    × (public.content ≡ line (encode kp.public))

module _ (disk : Disk) (encode : Bytes → Bytes) (kp : DhKey) (path : Bytes) (fs : Files) where
  public-KeyFiles :
      (before : Files) (wrote : Files × Option Error)
      → find path before
        ≡ some (record (opened_as (disk.umasked private_mode) (find path fs)) {
          content = line (encode kp.private);
        })
      → Wrote (disk.umasked public_mode) (path ++ dot_pub) (encode kp.public) before wrote
      → (after_public wrote).code ≡ 0
      → KeyFiles disk encode kp path fs (after_public wrote).files
  public-KeyFiles before (fs', some e) there w q = absurd (omega (arith, q))
  public-KeyFiles before (fs', none) there w q = (
    w.1 path (same_longer path 46 (112 ∷ 117 ∷ 98 ∷ [])) ∙ there,
    record (opened_as (disk.umasked public_mode) (find (path ++ dot_pub) before)) {
      content = line (encode kp.public);
    },
    w.0,
    refl,
  )

  private-KeyFiles :
      (wrote : Files × Option Error)
      → Wrote (disk.umasked private_mode) path (encode kp.private) fs wrote
      → (after_private disk path (encode kp.public) wrote).code ≡ 0
      → KeyFiles disk encode kp path fs (after_private disk path (encode kp.public) wrote).files
  private-KeyFiles (fs', some e) w q = absurd (omega (arith, q))
  private-KeyFiles (fs', none) w q =
      public-KeyFiles fs' (write_key_file disk (path ++ dot_pub) (encode kp.public) public_mode fs')
        w.0 (write_key_file-Wrote disk (path ++ dot_pub) (encode kp.public) public_mode fs') q

-- Where keygen writes to files and exits with 0, whatever the disk answered on the way: the private key
-- is in the file that was asked for, the public key in the one beside it, and the private one has the
-- mode 0600, less the umask, only if it was not there before: a file that was keeps its mode.
pub keygen_cmd-KeyFiles :
    (disk : Disk) (encode : Bytes → Bytes) (kp : DhKey) (flags : Flags) (fs : Files)
    → (keygen_cmd disk encode (ok kp) (some flags) fs).code ≡ 0
    → 0 < length flags.out_path
    → KeyFiles disk encode kp flags.out_path fs
        (keygen_cmd disk encode (ok kp) (some flags) fs).files
unfolding keygen_cmd
keygen_cmd-KeyFiles disk encode kp flags fs q named = elim (Bool-cases (flags.left == 0)) [
  | inl all_read ↦
      let no_path : length flags.out_path == 0 ≡ false = ground arith in
      rw (all_read, no_path)
        (private-KeyFiles disk encode kp flags.out_path fs
          (write_key_file disk flags.out_path (encode kp.private) private_mode fs)
          (write_key_file-Wrote disk flags.out_path (encode kp.private) private_mode fs)
          (rw (all_read, no_path) at q))
  | inr some_left ↦ absurd (ground (arith, q, some_left))
]

-- Where keygen writes to files and exits with 0: the commands that are given the two files read them
-- back, the first one to the pair of keys that was generated, and the second one to its public key.
-- The standard encoding reads what it wrote, a line's end after it or not, and the generator gives a
-- private key of 32 bytes with its public key.
pub keygen_reads_back :
    (disk : Disk) (encode : Bytes → Bytes) (std raw_std url raw_url : Bytes → Result Bytes)
    (derive : Bytes → Result Bytes) (kp : DhKey) (flags : Flags) (fs : Files)
    → ((k : Bytes) → std (line (encode k)) ≡ ok k)
    → length kp.private ≡ key_size
    → length kp.public ≡ key_size
    → derive kp.private ≡ ok kp.public
    → (keygen_cmd disk encode (ok kp) (some flags) fs).code ≡ 0
    → 0 < length flags.out_path
    → let fs' = (keygen_cmd disk encode (ok kp) (some flags) fs).files in
      (private : File) × (public : File) × (find flags.out_path fs' ≡ some private)
      × (find (flags.out_path ++ dot_pub) fs' ≡ some public)
      × (decode_key std raw_std url raw_url private.content ≡ ok kp.private)
      × (keypair_from_private derive kp.private ≡ ok kp)
      × (decode_key std raw_std url raw_url public.content ≡ ok kp.public)
keygen_reads_back disk encode std raw_std url raw_url derive kp flags fs reads l₁ l₂ derives q
      named =
    let (there, public, beside, content) = keygen_cmd-KeyFiles disk encode kp flags fs q named in
    (
      _,
      public,
      there,
      beside,
      decode_key_standard std raw_std url raw_url (line (encode kp.private)) (reads kp.private) l₁,
      keypair_from_private_pair derive kp l₁ derives,
      decode_key_standard std raw_std url raw_url public.content (ap std content ∙ reads kp.public)
          l₂,
    )
