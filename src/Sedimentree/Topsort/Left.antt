-- ===== src/Sedimentree/Topsort/Left.antt =====
-- `topsorted_blob_order`: lists of indices that a test picks, and the queue before the first round.
use subduction.Collections.Set.{contains}
use subduction.Collections.Index.{Distinct}
use subduction.Collections.Members.{In}
use subduction.Sedimentree.Topsort.Counting.{total, total-count, count-contains}
use subduction.Sedimentree.Topsort.Release.{count}
use subduction.Sedimentree.Topsort.{ready, Graph}
use subduction.Sedimentree.Topsort.Loop.{Edges, has_edge, Represents, Inv, contains-All}
use subduction.Prelude.{
  ℕ, zero, suc, ◌+◌, ◌<◌, ◌≡◌, sym, ap, ◌∙◌, subst, inl, inr, Bool, true, false, ◌&&◌, List, [],
  ◌∷◌, arith, ℕ_discrete, ltb, leb, not, length, if◌then◌else◌, ◌==◌, nat_eq, ==_iff, ==-refl,
  Bool-cases, All, bytes_eq, bytes_list_eq,
}

-- The numbers below a bound that pass.
abbrev pub picked : (ℕ → Bool) → ℕ → List ℕ
picked p zero = []
picked p (suc n) = if p n then n ∷ picked p n else picked p n

pub picked-none : (p : ℕ → Bool) (n : ℕ) → picked p n ≡ [] → (i : ℕ) → i < n → p i ≡ false
picked-none p zero h i lt = absurd (omega (arith, lt))
picked-none p (suc n) h i lt = elim (Bool-cases (p n)) [
  | inl hit ↦ absurd (ground (arith, hit, h))
  | inr miss ↦ elim (ℕ_discrete i n) [
    | yes same ↦ ap p same ∙ miss
    | no other ↦ picked-none p n (ground (arith, miss, h)) i (omega (arith, lt, other))
  ]
]

pub In-picked : (p : ℕ → Bool) (n : ℕ) (i : ℕ) → In i (picked p n) → (i < n) × (p i ≡ true)
In-picked p zero i m = absurd m
In-picked p (suc n) i m =
    let choose : Bool → List ℕ = λ b. if b then n ∷ picked p n else picked p n in
    let later : In i (picked p n) → (i < suc n) × (p i ≡ true) =
      λ rest. let (lt, q) = In-picked p n i rest in (omega (arith, lt), q) in
    elim (Bool-cases (p n)) [
      | inl hit ↦ elim (subst (λ b. In i (choose b)) hit m) [
        | inl e ↦ (omega (arith, e), ap p (sym e) ∙ hit)
        | inr rest ↦ later rest
      ]
      | inr miss ↦ later (subst (λ b. In i (choose b)) miss m)
    ]

pub picked-In : (p : ℕ → Bool) (n : ℕ) (i : ℕ) → i < n → p i ≡ true → In i (picked p n)
picked-In p zero i lt h = absurd (omega (arith, lt))
picked-In p (suc n) i lt h =
    let choose : Bool → List ℕ = λ b. if b then n ∷ picked p n else picked p n in
    elim (ℕ_discrete i n) [
      | yes same ↦ subst (λ b. In i (choose b)) (sym h ∙ ap p same) (inl (sym same))
      | no other ↦
          let rest = picked-In p n i (omega (arith, lt, other)) h in
          elim (Bool-cases (p n)) [
            | inl hit ↦ subst (λ b. In i (choose b)) (sym hit) (inr rest)
            | inr miss ↦ subst (λ b. In i (choose b)) (sym miss) rest
          ]
    ]

contains-ready :
    (deg : ℕ → ℕ) (i n j : ℕ)
    → contains (ready deg i n) j ≡ (leb i j && ltb j (i + n) && (deg j == 0))
unfolding ready contains
contains-ready deg i zero j = ground arith
contains-ready deg i (suc n) j = elim (Bool-cases (i == j)) [
  | inl same ↦ ground (arith, same, ap deg ((==_iff i j).0 same), contains-ready deg (suc i) n j)
  | inr other ↦ ground (arith, other, contains-ready deg (suc i) n j)
]

ready-Distinct : (deg : ℕ → ℕ) (i n : ℕ) → Distinct (ready deg i n)
unfolding ready
ready-Distinct deg i zero = tt
ready-Distinct deg i (suc n) = elim (Bool-cases (deg i == 0)) [
  | inl zeroed ↦
      rw (zeroed, ready)
        (ground (arith, contains-ready deg (suc i) n i), ready-Distinct deg (suc i) n)
  | inr waits ↦ rw (waits, ready) (ready-Distinct deg (suc i) n)
]

edges-All :
    (P : ℕ → ℕ → Type 0) (es : Edges)
    → ((s t : ℕ) → has_edge es s t ≡ true → P s t)
    → All (λ (e : ℕ × ℕ). P e.0 e.1) es
edges-All P [] h = tt
edges-All P ((s, t) ∷ es) h = (
  h s t (ground (arith, ==-refl s, ==-refl t)),
  edges-All P es (λ a b m. h a b (ground (arith, m))),
)

-- The vectors and the queue before the first round.
pub start-Inv :
    (n : ℕ) (es : Edges) (g : Graph)
    → Represents g es
    → (within : (s t : ℕ) → has_edge es s t ≡ true → (s < n) × (t < n))
    → (inside : All (λ (e : ℕ × ℕ). (e.0 < n) × (e.1 < n)) es) × Inv n es inside []
        (ready g.in_degree 0 n)
        g.in_degree
start-Inv n es g r within = (
  edges-All (λ s t. (s < n) × (t < n)) es within,
  record {
    degrees = r.degrees;
    once = ready-Distinct g.in_degree 0 n;
    below =
        contains-All _ (ready g.in_degree 0 n)
          (λ i m. ground (arith, m, contains-ready g.in_degree 0 n i));
    queued = λ i lt. ground (arith, lt, contains-ready g.in_degree 0 n i);
    ordered = tt;
  },
)

-- The numbers below a bound that are not in a list, and the list, counted.
picked-count :
    (xs : List ℕ) (n : ℕ)
    → Distinct xs
    → length (picked (λ i. not (contains xs i)) n) + total n (count xs) ≡ n
unfolding total
picked-count xs zero d = omega arith
picked-count xs (suc n) d = ground (arith, picked-count xs n d, count-contains xs n d)

pub picked-length :
    (xs : List ℕ) (n : ℕ)
    → Distinct xs
    → All (λ x. x < n) xs
    → length xs + length (picked (λ i. not (contains xs i)) n) ≡ n
picked-length xs n d below = omega (arith, picked-count xs n d, total-count n xs below)
