-- ===== src/Depth.antt =====
-- sedimentree_core/src/depth.rs. A `DepthMetric` is a function from identifiers to depths.
pub mod Radix
use subduction.Identity.{CommitId}
use subduction.Prelude.{
  ℕ, zero, suc, ◌+◌, ◌≡◌, refl, ap, ◌≢◌, Bool, true, false, [], ◌∷◌, ◌++◌, arith, ltb, ◌==◌, nat_eq,
  Bytes, bytes_eq, bytes_list_eq,
}

abbrev pub Depth : Type 0
Depth = ℕ

abbrev pub DepthMetric : Type 0
DepthMetric = CommitId → Depth

-- `Depth::is_boundary`
abbrev pub is_boundary : Depth → Bool
is_boundary d = ltb 0 d

-- The loop of `CountLeadingZeroBytes::to_depth`.
unfoldable pub count_zeros : ℕ → Bytes → ℕ
count_zeros acc [] = acc
count_zeros acc (byte ∷ bytes) = elim (byte == 0) [
  | true ↦ count_zeros (acc + 1) bytes
  | false ↦ acc
]

unfoldable pub count_leading_zero_bytes : DepthMetric
unfolding count_zeros
count_leading_zero_bytes id = count_zeros 0 id

abbrev pub zeros : ℕ → Bytes
zeros zero = []
zeros (suc n) = 0 ∷ zeros n

-- The bytes from the first one on that is not zero.
abbrev pub StartsNonzero : Bytes → Type 0
StartsNonzero [] = Unit
StartsNonzero (b ∷ bs) = b ≢ 0

count_zeros_lem :
    (bs : Bytes) (acc : ℕ)
    → (n : ℕ) × (rest : Bytes) × (count_zeros acc bs ≡ acc + n)
      × (bs ≡ zeros n ++ rest)
      × StartsNonzero rest
unfolding count_zeros
count_zeros_lem [] acc = (0, [], omega arith, refl, tt)
count_zeros_lem (zero ∷ bs) acc =
    let (n, rest, count, split, nonzero) = count_zeros_lem bs (acc + 1) in
    (suc n, rest, ground (arith, count), ap (◌∷◌ 0) split, nonzero)
count_zeros_lem (suc b ∷ bs) acc = (0, suc b ∷ bs, ground arith, refl, omega arith)

-- The depth of an identifier is the number of its leading zero bytes: that many come first, and
-- no zero byte follows them.
pub count_leading_zero_bytes_lem :
    (id : CommitId)
    → (rest : Bytes) × (id ≡ zeros (count_leading_zero_bytes id) ++ rest) × StartsNonzero rest
unfolding count_leading_zero_bytes
count_leading_zero_bytes_lem id =
    let (n, rest, count, split, nonzero) = count_zeros_lem id 0 in
    let e : count_zeros 0 id ≡ n = omega (arith, count) in (rest, rw e split, nonzero)
