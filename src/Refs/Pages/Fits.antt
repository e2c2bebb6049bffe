-- ===== src/Refs/Pages/Fits.antt =====
-- Which positions the compact form of crates/gitility-core/src/refs.rs can hold.
use gitility.Base.{
  ℕ, zero, suc, ◌/◌, ◌≤◌, ◌<◌, ◌≡◌, ◌≢◌, refl, true, false, List, [], ◌∷◌, ◌++◌, some, length, take,
  drop, All, AreBytes, All-take, All-drop, ltb, to_le_bytes, inl, inr, arith,
}
use gitility.Base.{Option-cases}
use gitility.Error.{Result, ok}
use gitility.Refs.{
  is_forbidden_ref_byte, ref_name_alphabet_rank, mul_add, pack, zeros, encode_blocks,
  encode_compact_ref_position,
}

-- A byte that is no control character and no blank, and not forbidden.
abbrev pub IsAllowed : ℕ → Type 0
IsAllowed c = (c < 256) × (32 < c) × (c ≢ 127) × (is_forbidden_ref_byte c ≡ false)

abbrev Total {ℓ} : {A : Type ℓ} → Result A → Type ℓ
Total {A = A} r = (a : A) × (r ≡ ok a)

rank_allowed : (c : ℕ) → IsAllowed c → (rank : ℕ) × (ref_name_alphabet_rank c ≡ some rank)
unfolding ref_name_alphabet_rank
rank_allowed c h = elim (Option-cases (ref_name_alphabet_rank c)) [
  | inl e ↦ absurd (ground (arith, e, h))
  | inr e ↦ e
]

pack_allowed : (block slots : List ℕ) → All IsAllowed block → Total (pack block slots)
unfolding pack
pack_allowed [] slots h = (slots, refl)
pack_allowed (c ∷ block) slots h =
    let (rank, e) = rank_allowed c h.0 in
    let (packed, rest) = pack_allowed block (mul_add slots rank).0 h.1 in (packed, rw (e, rest))

encode_blocks_allowed :
    (blocks : ℕ) (position : List ℕ)
    → All IsAllowed position
    → Total (encode_blocks blocks position)
unfolding encode_blocks
encode_blocks_allowed zero position h = (position, refl)
encode_blocks_allowed (suc blocks) position h =
    let (packed, e) = pack_allowed (take 32 position) zeros (All-take IsAllowed 32 position h) in
    let (rest, r) =
      encode_blocks_allowed blocks (drop 32 position) (All-drop IsAllowed 32 position h) in
    (packed ++ rest, rw (e, r))

pub encode_compact_allowed :
    (position : List ℕ)
    → length position ≤ 4096
    → All IsAllowed position
    → (encoded : List ℕ) × (encode_compact_ref_position position ≡ ok encoded)
unfolding encode_compact_ref_position
encode_compact_allowed position short h =
    let (blocks, e) = encode_blocks_allowed (length position / 32) position h in
    let small : ltb (length position) 65536 ≡ true = ground (arith, short) in
    (to_le_bytes 2 (length position) ++ blocks, rw (small, e))

pub allowed-AreBytes : (position : List ℕ) → All IsAllowed position → AreBytes position
allowed-AreBytes [] h = tt
allowed-AreBytes (c ∷ position) h = (h.0.0, allowed-AreBytes position h.1)
