-- ===== src/Keygen.antt =====
-- cmd/ghost-tools/keygen.go, and the switch of main.go before it. The flag package, the generator of
-- keys and base64 are parameters; the file system is a list of files with their modes, and what its
-- calls answer is a parameter.
pub mod RoundTrip
mod Tests
use ghost_vpn.Base.{
  ℕ, Bool, true, false, Option, none, some, List, [], ◌∷◌, ◌++◌, Bytes, length, take, same, ◌==◌,
  if◌then◌else◌, ◌||◌,
}
use ghost_vpn.Io.{Error, Result, ok, err}
use ghost_vpn.Auth.Keys.{DhKey}

pub record File : Type 0 where
  pub content : Bytes
  pub mode : ℕ

abbrev pub Files : Type 0
Files = List (Bytes × File)

abbrev pub find : Bytes → Files → Option File
find path [] = none
find path ((p, f) ∷ fs) = let rest = find path fs in if same p path then some f else rest

abbrev pub put : Bytes → File → Files → Files
put path f [] = (path, f) ∷ []
put path f ((p, g) ∷ fs) =
    let rest = put path f fs in if same p path then (p, f) ∷ fs else (p, g) ∷ rest

-- What the calls on a path answer: a failed write has written as many bytes as it says. A file that is
-- created gets the mode that the umask leaves.
pub record Disk : Type 0 where
  pub opening : Bytes → Option Error
  pub writing : Bytes → Option (ℕ × Error)
  pub closing : Bytes → Option Error
  pub umasked : ℕ → ℕ

-- `os.OpenFile` with O_CREATE and O_TRUNC: the mode is for a file that is not there.
abbrev pub opened_as : ℕ → Option File → File
opened_as mode none = record { content = []; mode = mode }
opened_as mode (some f) = record f { content = [] }

-- 10 is the end of the line.
abbrev pub line : Bytes → Bytes
line text = text ++ 10 ∷ []

abbrev pub written_to :
    Disk → Bytes → Bytes → File → Option (ℕ × Error) → Files → Files × Option Error
written_to disk path text f (some (k, e)) fs =
    (put path (record f { content = take k text }) fs, some e)
written_to disk path text f none fs = (put path (record f { content = text }) fs, disk.closing path)

abbrev pub after_opening : Disk → Bytes → Bytes → ℕ → Option Error → Files → Files × Option Error
after_opening disk path contents mode (some e) fs = (fs, some e)
after_opening disk path contents mode none fs =
    written_to disk path (line contents) (opened_as (disk.umasked mode) (find path fs))
      (disk.writing path) fs

-- `writeKeyFile`
unfoldable pub write_key_file : Disk → Bytes → Bytes → ℕ → Files → Files × Option Error
write_key_file disk path contents mode fs =
    after_opening disk path contents mode (disk.opening path) fs

-- ".pub"
abbrev pub dot_pub : Bytes
dot_pub = 46 ∷ 112 ∷ 117 ∷ 98 ∷ []

-- "private: " and "public:  "
abbrev pub private_label : Bytes
private_label = 112 ∷ 114 ∷ 105 ∷ 118 ∷ 97 ∷ 116 ∷ 101 ∷ 58 ∷ 32 ∷ []

abbrev pub public_label : Bytes
public_label = 112 ∷ 117 ∷ 98 ∷ 108 ∷ 105 ∷ 99 ∷ 58 ∷ 32 ∷ 32 ∷ []

-- `printKeys`
unfoldable pub print_keys : Bytes → Bytes → Bool → Bytes
print_keys private public public_only =
    if public_only
    then line public
    else (private_label ++ line private) ++ (public_label ++ line public)

-- What `fs.Parse` gives: the flags, and how many arguments are left.
pub record Flags : Type 0 where
  pub out_path : Bytes
  pub public_only : Bool
  pub left : ℕ

-- The files, what is printed on the standard output, and the exit code.
pub record Outcome : Type 0 where
  pub files : Files
  pub printed : Bytes
  pub code : ℕ

abbrev pub failed : ℕ → Files → Outcome
failed code fs = record { files = fs; printed = []; code = code }

-- The two modes, 0600 and 0644 in base eight.
abbrev pub private_mode : ℕ
private_mode = 384

abbrev pub public_mode : ℕ
public_mode = 420

abbrev pub after_public : Files × Option Error → Outcome
after_public (fs, some e) = failed 1 fs
after_public (fs, none) = record { files = fs; printed = []; code = 0 }

abbrev pub after_private : Disk → Bytes → Bytes → Files × Option Error → Outcome
after_private disk path public (fs, some e) = failed 1 fs
after_private disk path public (fs, none) =
    after_public (write_key_file disk (path ++ dot_pub) public public_mode fs)

abbrev pub with_keypair : Disk → (Bytes → Bytes) → Flags → Files → Result DhKey → Outcome
with_keypair disk encode flags fs (err e) = failed 1 fs
with_keypair disk encode flags fs (ok kp) =
    if length flags.out_path == 0
    then record {
      files = fs;
      printed = print_keys (encode kp.private) (encode kp.public) flags.public_only;
      code = 0;
    }
    else after_private disk flags.out_path (encode kp.public)
        (write_key_file disk flags.out_path (encode kp.private) private_mode fs)

-- `keygenCmd`
unfoldable pub keygen_cmd : Disk → (Bytes → Bytes) → Result DhKey → Option Flags → Files → Outcome
keygen_cmd disk encode generated none fs = failed 2 fs
keygen_cmd disk encode generated (some flags) fs =
    if flags.left == 0 then with_keypair disk encode flags fs generated else failed 2 fs
