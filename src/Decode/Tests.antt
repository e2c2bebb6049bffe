-- ===== src/Decode/Tests.antt =====
-- An identity before the epoch.
use gitility.Base.{◌≡◌, refl, [], ◌∷◌, arith}
use gitility.Error.{ok}
use gitility.Decode.{negsuc, Identity, decode_identity}
use gitility.Decode.Identities.{print, IsPrintable, decode_identity-print}

abbrev someone : Identity
someone = record {
  name = b'A' ∷ b' ' ∷ b'B' ∷ [];
  email = b'a' ∷ b'@' ∷ b'b' ∷ [];
  time = negsuc 41;
  tz = b'+' ∷ b'0' ∷ b'1' ∷ b'0' ∷ b'0' ∷ [];
}

someone-IsPrintable : IsPrintable someone
unfolding gitility.Decode.name_end
someone-IsPrintable = record {
  opened = (refl, (refl, (refl, tt)));
  trimmed = refl;
  closed = (refl, (refl, (refl, tt)));
  time = omega arith;
  zone = omega arith;
  spaces = (refl, (refl, (refl, (refl, (refl, tt)))));
  tabs = (refl, (refl, (refl, (refl, (refl, tt)))));
}

printed :
    print someone
    ≡ b'A' ∷ b' ' ∷ b'B' ∷ b' ' ∷ b'<' ∷ b'a' ∷ b'@' ∷ b'b' ∷ b'>' ∷ b' ' ∷ b'-' ∷ b'4' ∷ b'2'
      ∷ b' ' ∷ b'+' ∷ b'0' ∷ b'1' ∷ b'0' ∷ b'0' ∷ []
unfolding gitility.Odb.Verify.decimal
printed = refl

decode_identity-print_example : decode_identity (print someone) ≡ ok someone
decode_identity-print_example = decode_identity-print someone someone-IsPrintable
