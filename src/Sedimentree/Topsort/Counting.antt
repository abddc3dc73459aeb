-- ===== src/Sedimentree/Topsort/Counting.antt =====
-- Lists of distinct numbers below a bound, counted.
use subduction.Collections.Set.{contains, contains-append}
use subduction.Collections.Index.{Distinct}
use subduction.Sedimentree.Topsort.Release.{count}
use subduction.Prelude.{
  ℕ, zero, suc, ◌+◌, ◌≤◌, ◌<◌, ◌≡◌, refl, sym, ap, ◌∙◌, inl, inr, true, false, List, [], ◌∷◌, ◌++◌,
  arith, ℕ_discrete, ltb, if◌then◌else◌, ◌==◌, nat_eq, ==_iff, Bool-cases, length, All, bytes_eq,
  ltb_of_lt, bytes_list_eq,
}

unfoldable pub total : ℕ → (ℕ → ℕ) → ℕ
total zero f = 0
total (suc n) f = f n + total n f

total-add : (n : ℕ) (f g : ℕ → ℕ) → total n (λ i. f i + g i) ≡ total n f + total n g
unfolding total
total-add zero f g = omega arith
total-add (suc n) f g = omega (arith, total-add n f g)

total-zero : (n : ℕ) → total n (λ i. 0) ≡ 0
unfolding total
total-zero zero = refl
total-zero (suc n) = omega (arith, total-zero n)

total-one : (n x : ℕ) → total n (λ i. if x == i then 1 else 0) ≡ (if ltb x n then 1 else 0)
unfolding total
total-one zero x = ground arith
total-one (suc n) x = ground (arith, total-one n x)

pub total-count : (n : ℕ) (xs : List ℕ) → All (λ x. x < n) xs → total n (count xs) ≡ length xs
total-count n [] h = total-zero n
total-count n (x ∷ xs) h = omega (
  arith,
  total-add n (λ i. if x == i then 1 else 0) (count xs),
  total-one n x ∙ ap (λ b. if b then 1 else 0) (ltb_of_lt x n h.0),
  total-count n xs h.1,
)

pub count-contains :
    (xs : List ℕ) (i : ℕ) → Distinct xs → count xs i ≡ (if contains xs i then 1 else 0)
unfolding contains
count-contains [] i d = refl
count-contains (x ∷ xs) i d = elim (Bool-cases (x == i)) [
  | inl hit ↦
      let gone : contains xs i ≡ false = ap (contains xs) (sym ((==_iff x i).0 hit)) ∙ d.0 in
      ground (arith, hit, gone, count-contains xs i d.1)
  | inr miss ↦ ground (arith, miss, count-contains xs i d.1)
]

total-le : (n : ℕ) (f : ℕ → ℕ) → ((i : ℕ) → f i ≤ 1) → total n f ≤ n
unfolding total
total-le zero f h = omega arith
total-le (suc n) f h = omega (arith, h n, total-le n f h)

total-full : (n : ℕ) (f : ℕ → ℕ) → ((i : ℕ) → f i ≤ 1) → total n f ≡ n → (i : ℕ) → i < n → f i ≡ 1
unfolding total
total-full zero f h e i lt = absurd (omega (arith, lt))
total-full (suc n) f h e i lt = elim (ℕ_discrete i n) [
  | yes same ↦ ap f same ∙ omega (arith, e, h n, total-le n f h)
  | no other ↦ total-full n f h (omega (arith, e, h n, total-le n f h)) i (omega (arith, lt, other))
]

total-all : (n : ℕ) (f : ℕ → ℕ) → ((i : ℕ) → i < n → f i ≡ 1) → total n f ≡ n
unfolding total
total-all zero f h = refl
total-all (suc n) f h =
    omega (arith, h n (omega arith), total-all n f (λ i lt. h i (omega (arith, lt))))

module _ (n : ℕ) (xs : List ℕ) (once : Distinct xs) (below : All (λ x. x < n) xs) where
  count-le : (i : ℕ) → count xs i ≤ 1
  count-le i = ground (arith, count-contains xs i once)

  pub length-le : length xs ≤ n
  length-le = omega (arith, total-count n xs below, total-le n (count xs) count-le)

  -- With as many elements as there are numbers below the bound, all are there.
  pub all_of_length : length xs ≡ n → (i : ℕ) → i < n → contains xs i ≡ true
  all_of_length full i lt =
      let one : count xs i ≡ 1 =
        total-full n (count xs) count-le (total-count n xs below ∙ full) i lt in
      ground (arith, one, count-contains xs i once)

  pub length_of_all : ((i : ℕ) → i < n → contains xs i ≡ true) → length xs ≡ n
  length_of_all all_in =
      sym (total-count n xs below)
      ∙ total-all n (count xs) (λ i lt. ground (arith, all_in i lt, count-contains xs i once))

pub Distinct-append :
    (xs ys : List ℕ)
    → Distinct xs
    → Distinct ys
    → ((i : ℕ) → contains ys i ≡ true → contains xs i ≡ false)
    → Distinct (xs ++ ys)
unfolding contains
Distinct-append [] ys d e apart = e
Distinct-append (x ∷ xs) ys d e apart = (
  elim (Bool-cases (contains ys x)) [
    | inl hit ↦ absurd (ground (arith, apart x hit))
    | inr miss ↦ ground (arith, contains-append xs ys x, d.0, miss)
  ],
  Distinct-append xs ys d.1 e (λ i m. ground (arith, apart i m)),
)
