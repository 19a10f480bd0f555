-- ===== src/Keygen/Tests.antt =====
-- A run of keygen over a file that others may read.
use ghost_vpn.Base.{
  ◌≡◌, refl, ap, ◌-◌, false, none, some, [], ◌∷◌, ◌++◌, Bytes, length, take, take-length_append,
  length-append, arith, replicate, take_cast, ◌∙◌,
}
use ghost_vpn.Io.{Result, ok}
use ghost_vpn.Auth.Keys.{DhKey, decode_key, keypair_from_private}
use ghost_vpn.Keygen.{File, Files, find, Disk, Flags, keygen_cmd, write_key_file, line, dot_pub}
use ghost_vpn.Keygen.RoundTrip.{keygen_reads_back, keygen_cmd-KeyFiles, KeyFiles}

abbrev good_disk : Disk
good_disk = record {
  opening = λ path. none;
  writing = λ path. none;
  closing = λ path. none;
  umasked = λ mode. mode;
}

-- A key that stands for its own text.
abbrev as_is : Bytes → Bytes
as_is key = key

abbrev read_line : Bytes → Result Bytes
read_line text = ok (take (length text - 1) text)

read_line_lem : (k : Bytes) → read_line (line (as_is k)) ≡ ok k
read_line_lem k = ap ok (
    take_cast (k ++ 10 ∷ []) (omega (arith, length-append k (10 ∷ [])))
    ∙ take-length_append k (10 ∷ []))

abbrev pair : DhKey
pair = record { private = replicate 32 1; public = replicate 32 2 }

abbrev flags : Flags
flags = record { out_path = 107 ∷ []; public_only = false; left = 0 }

-- Mode 0644.
abbrev there : Files
there = (107 ∷ [], record { content = 1 ∷ []; mode = 420 }) ∷ []

abbrev derived : Bytes → Result Bytes
derived private = ok pair.public

ends_well : (keygen_cmd good_disk as_is (ok pair) (some flags) there).code ≡ 0
unfolding keygen_cmd write_key_file
ends_well = refl

keygen_cmd-KeyFiles_example :
    KeyFiles good_disk as_is pair
      (107 ∷ [])
      there
      (keygen_cmd good_disk as_is (ok pair) (some flags) there).files
keygen_cmd-KeyFiles_example =
    keygen_cmd-KeyFiles good_disk as_is pair flags there ends_well (omega arith)

keygen_reads_back_example :
    let fs' = (keygen_cmd good_disk as_is (ok pair) (some flags) there).files in
    (private : File) × (public : File) × (find (107 ∷ []) fs' ≡ some private)
    × (find (107 ∷ dot_pub) fs' ≡ some public)
    × (decode_key read_line ok ok ok private.content ≡ ok pair.private)
    × (keypair_from_private derived pair.private ≡ ok pair)
    × (decode_key read_line ok ok ok public.content ≡ ok pair.public)
keygen_reads_back_example =
    keygen_reads_back good_disk as_is read_line ok ok ok derived pair flags there read_line_lem refl
      refl refl ends_well (omega arith)
