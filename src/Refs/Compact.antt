-- ===== src/Refs/Compact.antt =====
-- What the compact cursor positions of crates/gitility-core/src/refs.rs keep.
use gitility.Base.{
  ℕ, zero, suc, ◌+◌, ◌*◌, ◌/◌, ◌%◌, ◌≤◌, ◌<◌, ◌≡◌, refl, ap, sym, ◌∙◌, Bool, true, false, ◌&&◌, ltb,
  leb, ◌==◌, ==_iff, Option, none, some, List, [], ◌∷◌, ◌++◌, length, take, drop, replicate, any,
  All, AreBytes, All-take, All-drop, take-append, drop-append, take-append-drop, length-append,
  length-take, length-drop, to_le_bytes, from_le_bytes, length-to_le_bytes,
  from_le_bytes-to_le_bytes, holds_below, holds_below_at, arith,
}
use gitility.Error.{Error, Result, ok, ok-injective, ◌>>=◌, ok_or, >>=-eq-ok, ensure-eq-ok}
use gitility.Refs.{
  ref_name_alphabet_rank, ref_name_alphabet_byte, nth_allowed, mul_add, unpack, pack, zeros,
  encode_blocks, bytes_of, checked_block, decode_block, decode_blocks, encode_compact_ref_position,
  decode_compact_ref_position, cursor_error, max_ref_name_bytes,
}
use gitility.Refs.Blocks.{
  value_of, behind, grown, mul_all, IsRank, IsByte, length-mul_add, unpack-mul_all,
}

is_found : ℕ → Option ℕ → Bool
is_found c none = false
is_found c (some found) = found == c

finds : ℕ → Option ℕ → Bool
finds c none = true
finds c (some rank) = ltb rank 215 && is_found c (ref_name_alphabet_byte rank)

finds_table : holds_below (λ c. finds c (ref_name_alphabet_rank c)) 256 ≡ true
unfolding holds_below ref_name_alphabet_rank ref_name_alphabet_byte nth_allowed finds is_found
finds_table = refl

is_found-eq : (c : ℕ) (found : Option ℕ) → is_found c found ≡ true → found ≡ some c
unfolding is_found
is_found-eq c none h = absurd (cc)
is_found-eq c (some found) h = ap some ((==_iff found c).0 h)

finds-rank :
    (c rank : ℕ)
    → finds c (some rank) ≡ true
    → (rank < 215) × (ref_name_alphabet_byte rank ≡ some c)
unfolding finds
finds-rank c rank h = (ground arith, is_found-eq c (ref_name_alphabet_byte rank) (ground arith))

-- The rank of a byte, and the byte again.
rank-byte :
    (c rank : ℕ)
    → c < 256
    → ref_name_alphabet_rank c ≡ some rank
    → (rank < 215) × (ref_name_alphabet_byte rank ≡ some c)
rank-byte c rank small h =
    finds-rank c rank (ap (finds c) (sym h) ∙ holds_below_at _ 256 finds_table c small)

record Packed (block slots packed : List ℕ) : Type 0 where
  ranks : List ℕ
  are_ranks : All IsRank ranks
  size : length ranks ≡ length block
  packs : mul_all ranks slots ≡ packed
  bytes : bytes_of ranks ≡ ok block

ok_or-eq-ok {ℓ} :
    {A : Type ℓ} (found : Option A) (e : Error) {a : A} → ok_or found e ≡ ok a → found ≡ some a
ok_or-eq-ok none e h = absurd (cc)
ok_or-eq-ok (some a) e h = ap some (ok-injective h)

pack-Packed :
    (block slots : List ℕ) {packed : List ℕ}
    → AreBytes block
    → pack block slots ≡ ok packed
    → Packed block slots packed
unfolding pack mul_all bytes_of
pack-Packed [] slots b h = record {
  ranks = [];
  are_ranks = tt;
  size = refl;
  packs = ok-injective h;
  bytes = refl;
}
pack-Packed (c ∷ block) slots b h =
    let (rank, e, next) = >>=-eq-ok (ok_or (ref_name_alphabet_rank c) cursor_error) _ h in
    let (small, found) =
      rank-byte c rank b.0 (ok_or-eq-ok (ref_name_alphabet_rank c) cursor_error e) in
    let rest = pack-Packed block (mul_add slots rank).0 b.1 next in
    record {
      ranks = rank ∷ rest.ranks;
      are_ranks = (small, rest.are_ranks);
      size = ap suc rest.size;
      packs = rest.packs;
      bytes = rw (found, rest.bytes);
    }

length-mul_all : (ranks slots : List ℕ) → length (mul_all ranks slots) ≡ length slots
unfolding mul_all
length-mul_all [] slots = refl
length-mul_all (rank ∷ ranks) slots =
    length-mul_all ranks (mul_add slots rank).0 ∙ length-mul_add slots rank

-- 215 ^ 32 is at most 256 ^ 31.
capacity : grown 32 1 ≤ behind zeros 1
unfolding grown behind
capacity = omega arith

zero_value : value_of zeros < 1
unfolding value_of
zero_value = omega arith

are_small : (n : ℕ) → All IsByte (replicate n 0)
are_small zero = tt
are_small (suc n) = (omega arith, are_small n)

append_nil : (xs : List ℕ) → xs ++ [] ≡ xs
append_nil [] = refl
append_nil (x ∷ xs) = ap (◌∷◌ x) (append_nil xs)

module _ (block packed : List ℕ) (b : AreBytes block) (full : length block ≡ 32)
    (h : pack block zeros ≡ ok packed) where
  unpack-pack :
      (ranks : List ℕ) × (unpack 32 packed [] ≡ (zeros, ranks)) × (bytes_of ranks ≡ ok block)
  unfolding unpack
  unpack-pack =
      let p = pack-Packed block zeros b h in
      let size : length p.ranks ≡ 32 = p.size ∙ full in
      let fits : grown (length p.ranks) 1 ≤ behind zeros 1 =
        omega (arith, capacity, ap (λ n. grown n 1) size) in
      let are_zero : All IsByte zeros = are_small 31 in
      let count : 32 ≡ length p.ranks + 0 = omega (arith, size) in
      (
        p.ranks,
        ap (λ s. unpack 32 s []) (sym p.packs)
            ∙ ap (λ n. unpack n (mul_all p.ranks zeros) []) count
            ∙ unpack-mul_all p.ranks zeros 1 0 [] p.are_ranks are_zero zero_value fits
            ∙ ap (λ r. (zeros, r)) (append_nil p.ranks),
        p.bytes,
      )

  length-pack : length packed ≡ 31
  length-pack =
      let p = pack-Packed block zeros b h in ap length (sym p.packs) ∙ length-mul_all p.ranks zeros

checked_block-zeros : (ranks : List ℕ) → checked_block (zeros, ranks) ≡ bytes_of ranks
unfolding checked_block any
checked_block-zeros ranks = refl

decode_block-pack :
    (block packed : List ℕ)
    → AreBytes block
    → length block ≡ 32
    → pack block zeros ≡ ok packed
    → decode_block packed ≡ ok block
unfolding decode_block
decode_block-pack block packed b full h =
    let (ranks, unpacked, bytes) = unpack-pack block packed b full h in
    ap checked_block unpacked ∙ checked_block-zeros ranks ∙ bytes

joined_blocks : Result (List ℕ) → Result (List ℕ) → Result (List ℕ)
joined_blocks first rest = do block ← first; blocks ← rest; ok (block ++ blocks)

decode_blocks-suc :
    (blocks : ℕ) (encoded : List ℕ)
    → decode_blocks (suc blocks) encoded
      ≡ joined_blocks (decode_block (take 31 encoded)) (decode_blocks blocks (drop 31 encoded))
unfolding decode_blocks joined_blocks
decode_blocks-suc blocks encoded = refl

-- A block that was packed is read again, and what stands behind it next.
decode_blocks-next :
    (blocks : ℕ) (block packed rest encoded : List ℕ)
    → AreBytes block
    → length block ≡ 32
    → pack block zeros ≡ ok packed
    → decode_blocks blocks encoded ≡ ok rest
    → decode_blocks (suc blocks) (packed ++ encoded) ≡ ok (block ++ rest)
unfolding joined_blocks
decode_blocks-next blocks block packed rest encoded b full h next =
    let size = length-pack block packed b full h in
    decode_blocks-suc blocks (packed ++ encoded)
    ∙ rw (
      take-append 31 packed encoded size,
      drop-append 31 packed encoded size,
      decode_block-pack block packed b full h,
      next,
    )

decode_blocks-encode_blocks :
    (blocks : ℕ) (position encoded : List ℕ)
    → AreBytes position
    → blocks * 32 ≤ length position
    → encode_blocks blocks position ≡ ok encoded
    → (decode_blocks blocks encoded ≡ ok position) × (length encoded + blocks ≡ length position)
unfolding encode_blocks decode_blocks
decode_blocks-encode_blocks zero position encoded b room h =
    (sym h, omega (arith, ap length (ok-injective h)))
decode_blocks-encode_blocks (suc blocks) position encoded b room h =
    let block = take 32 position in
    let behind_it = drop 32 position in
    let (packed, packs, h₁) = >>=-eq-ok (pack block zeros) _ h in
    let (rest, encodes, h₂) = >>=-eq-ok (encode_blocks blocks behind_it) _ h₁ in
    let full : length block ≡ 32 = omega (arith, length-take 32 position, room) in
    let left = length-drop 32 position in
    let small = All-take (λ c. c < 256) 32 position b in
    let (decodes, size) =
      decode_blocks-encode_blocks blocks behind_it rest (All-drop (λ c. c < 256) 32 position b)
        (omega (arith, left, room)) encodes in
    let joined = ok-injective h₂ in
    (
      ap (decode_blocks (suc blocks)) (sym joined)
          ∙ decode_blocks-next blocks block packed behind_it rest small full packs decodes
          ∙ ap ok (take-append-drop 32 position),
      omega (
        arith,
        ap length joined,
        length-append packed rest,
        length-pack block packed small full packs,
        size,
        left,
        room,
      ),
    )

-- A position of bytes, no longer than a name may be, is read from its compact form as it was.
pub decode_compact_ref_position-encode_compact_ref_position :
    (position : List ℕ) {encoded : List ℕ}
    → AreBytes position
    → length position ≤ max_ref_name_bytes
    → encode_compact_ref_position position ≡ ok encoded
    → decode_compact_ref_position encoded ≡ ok position
unfolding encode_compact_ref_position decode_compact_ref_position
decode_compact_ref_position-encode_compact_ref_position position {encoded} b short h =
    let (_, h₁) = ensure-eq-ok (ltb (length position) 65536) _ _ h in
    let n = length position in
    let (blocks, encodes, h₂) = >>=-eq-ok (encode_blocks (n / 32) position) _ h₁ in
    let joined = ok-injective h₂ in
    let head = to_le_bytes 2 n in
    let (decodes, size) =
      decode_blocks-encode_blocks (n / 32) position blocks b (omega arith) encodes in
    let two = length-to_le_bytes 2 n in
    let cut : take 2 encoded ≡ head = ap (take 2) (sym joined) ∙ take-append 2 head blocks two in
    let behind_it : drop 2 encoded ≡ blocks =
      ap (drop 2) (sym joined) ∙ drop-append 2 head blocks two in
    let count : from_le_bytes (take 2 encoded) ≡ n =
      ap from_le_bytes cut ∙ from_le_bytes-to_le_bytes 2 n (omega (arith, short)) in
    let total : length encoded ≡ 2 + n / 32 * 31 + n % 32 =
      omega (arith, ap length joined, length-append head blocks, two, size) in
    let enough : leb 2 (length encoded) ≡ true = ground (arith, total) in
    let within : leb n max_ref_name_bytes ≡ true = ground (arith, short) in
    let exact : (length encoded == 2 + n / 32 * 31 + n % 32) ≡ true = ground (arith, total) in
    rw (enough, count, within, exact, behind_it, decodes)

pub length-encode_compact_ref_position :
    (position : List ℕ) {encoded : List ℕ}
    → AreBytes position
    → encode_compact_ref_position position ≡ ok encoded
    → length encoded + length position / 32 ≡ 2 + length position
unfolding encode_compact_ref_position
length-encode_compact_ref_position position b h =
    let n = length position in
    let (_, h₁) = ensure-eq-ok (ltb n 65536) _ _ h in
    let (blocks, encodes, h₂) = >>=-eq-ok (encode_blocks (n / 32) position) _ h₁ in
    let (_, size) = decode_blocks-encode_blocks (n / 32) position blocks b (omega arith) encodes in
    omega (
      arith,
      ap length (ok-injective h₂),
      length-append (to_le_bytes 2 n) blocks,
      length-to_le_bytes 2 n,
      size,
    )
