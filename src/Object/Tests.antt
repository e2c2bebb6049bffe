-- ===== src/Object/Tests.antt =====
-- The parsing and printing of object IDs at concrete IDs.
use Prim.Native.Char.{code}
use gitility.Base.{ℕ, ◌≡◌, refl, List, [], ◌∷◌, ◌++◌, String, replicate, arith}
use gitility.Oid.{Oid, sha1}
use gitility.Error.{ok, err, new_text, invalid_oid}
use gitility.Object.{parse_hex, to_hex}
use gitility.Object.Hex.{IsValid, Reads, parse_hex-to_hex, parse_hex-Reads}

-- The bytes of an ASCII text.
abbrev codes : String → List ℕ
codes String.[] = []
codes (String.◌∷◌ c s) = code c ∷ codes s

abbrev digest : List ℕ
digest =
    0xda ∷ 0x39 ∷ 0xa3 ∷ 0xee ∷ 0x5e ∷ 0x6b ∷ 0x4b ∷ 0x0d ∷ 0x32 ∷ 0x55 ∷ 0xbf ∷ 0xef ∷ 0x95 ∷ 0x60
    ∷ 0x18 ∷ 0x90 ∷ 0xaf ∷ 0xd8 ∷ 0x07 ∷ 0x09 ∷ []

abbrev empty_sha1 : Oid
empty_sha1 = record { kind = sha1; bytes = digest ++ replicate 12 0 }

empty_sha1-IsValid : IsValid empty_sha1
empty_sha1-IsValid = record { digest = refl; padded = refl; bytes = omega arith }

parse_hex-to_hex_example : parse_hex (to_hex empty_sha1) ≡ ok empty_sha1
parse_hex-to_hex_example = parse_hex-to_hex empty_sha1 empty_sha1-IsValid

upper_parses : parse_hex (codes "DA39A3EE5E6B4B0D3255BFEF95601890AFD80709") ≡ ok empty_sha1
unfolding parse_hex gitility.Object.kind_of_length gitility.Object.hex_pairs gitility.Object.hex_val
    gitility.Object.new_oid
upper_parses = refl

parse_hex-Reads_example : Reads (codes "DA39A3EE5E6B4B0D3255BFEF95601890AFD80709") empty_sha1
parse_hex-Reads_example =
    parse_hex-Reads (codes "DA39A3EE5E6B4B0D3255BFEF95601890AFD80709") upper_parses

rejects_non_hex :
    parse_hex (replicate 40 b'z')
    ≡ err (new_text invalid_oid "object ID contains a non-hex character")
unfolding parse_hex gitility.Object.kind_of_length gitility.Object.hex_pairs gitility.Object.hex_val
rejects_non_hex = refl
