-- ===== src/Sedimentree/Topsort/Loop.antt =====
-- `topsorted_blob_order`: Kahn's algorithm on a graph given by its list of edges.
use subduction.Collections.Set.{contains, contains-append}
use subduction.Collections.Index.{Distinct}
use subduction.Sedimentree.Topsort.{item, Graph, release, kahn}
use subduction.Sedimentree.Topsort.Release.{count, release_lem}
use subduction.Sedimentree.Topsort.Counting.{length-le, Distinct-append}
use mathlib.Core.List.{map-append}
use subduction.Prelude.{
  ℕ, zero, suc, ◌+◌, ◌≤◌, ◌<◌, ◌≡◌, refl, sym, ap, ◌∙◌, subst, inl, inr, Bool, true, false, not,
  ◌&&◌, ◌||◌, some, List, [], ◌∷◌, ◌++◌, map, append_assoc, arith, if◌then◌else◌, ◌==◌, nat_eq,
  ==_iff, ==-refl, Bool-cases, length, any, All, length-append, bytes_eq, All-append, bytes_list_eq,
  append-All,
}

-- Pairs of a dependency and what depends on it.
abbrev pub Edges : Type 0
Edges = List (ℕ × ℕ)

-- The edges to a number from outside a list, and those between two numbers, counted.
unfoldable pub open_in : Edges → List ℕ → ℕ → ℕ
open_in [] done i = 0
open_in ((s, t) ∷ es) done i =
    (if t == i && not (contains done s) then 1 else 0) + open_in es done i

unfoldable pub between : Edges → ℕ → ℕ → ℕ
between [] u i = 0
between ((s, t) ∷ es) u i = (if s == u && t == i then 1 else 0) + between es u i

abbrev pub has_edge : Edges → ℕ → ℕ → Bool
has_edge es s t = any (λ e. e.0 == s && e.1 == t) es

-- The vectors hold the edges.
pub record Represents (g : Graph) (es : Edges) : Type 0 where
  pub degrees : (i : ℕ) → g.in_degree i ≡ open_in es [] i
  pub lists : (u i : ℕ) → count (g.dependents u) i ≡ between es u i

open_in-snoc :
    (es : Edges) (done : List ℕ) (u i : ℕ)
    → contains done u ≡ false
    → open_in es (done ++ (u ∷ [])) i + between es u i ≡ open_in es done i
unfolding open_in between contains
open_in-snoc [] done u i new = omega arith
open_in-snoc ((s, t) ∷ es) done u i new =
    let ih = open_in-snoc es done u i new in
    elim (Bool-cases (s == u)) [
      | inl hit ↦
          let new' : contains done s ≡ false = ap (contains done) ((==_iff s u).0 hit) ∙ new in
          let eq' : (u == s) ≡ true = (==_iff u s).1 (sym ((==_iff s u).0 hit)) in
          ground (arith, hit, eq', new', contains-append done (u ∷ []) s, ih)
      | inr miss ↦ ground (arith, miss, contains-append done (u ∷ []) s, ih)
    ]

-- With no open edge to a number, all its dependencies are done.
open_in-none :
    (es : Edges) (done : List ℕ) (s t : ℕ)
    → open_in es done t ≡ 0
    → has_edge es s t ≡ true
    → contains done s ≡ true
unfolding open_in
open_in-none [] done s t none_open h = cc
open_in-none ((a, b) ∷ es) done s t none_open h = elim (Bool-cases (a == s && b == t)) [
  | inl hit ↦
      let same : a ≡ s = (==_iff a s).0 (ground (arith, hit)) in
      let found : contains done a ≡ true = ground (arith, hit, none_open) in
      ap (contains done) (sym same) ∙ found
  | inr miss ↦ open_in-none es done s t (ground (arith, none_open)) (ground (arith, h, miss))
]

pub open_in-some :
    (es : Edges) (done : List ℕ) (t : ℕ)
    → 0 < open_in es done t
    → (s : ℕ) × (has_edge es s t ≡ true) × (contains done s ≡ false)
unfolding open_in
open_in-some [] done t h = absurd (omega (arith, h))
open_in-some ((a, b) ∷ es) done t h = elim (Bool-cases (b == t && not (contains done a))) [
  | inl hit ↦ (a, ground (arith, hit, ==-refl a), ground (arith, hit))
  | inr miss ↦
      let (s, e, out) = open_in-some es done t (ground (arith, h, miss)) in
      (s, ground (arith, e), out)
]

between-within :
    (n : ℕ) (es : Edges) (u i : ℕ)
    → All (λ (e : ℕ × ℕ). (e.0 < n) × (e.1 < n)) es
    → 0 < between es u i
    → i < n
unfolding between
between-within n [] u i h pos = absurd (omega (arith, pos))
between-within n ((a, b) ∷ es) u i h pos = elim (Bool-cases (a == u && b == i)) [
  | inl hit ↦ subst (λ x. x < n) ((==_iff b i).0 (ground (arith, hit))) h.0.1
  | inr miss ↦ between-within n es u i h.1 (ground (arith, pos, miss))
]

-- Each number stands behind the sources of its edges.
abbrev pub IsOrdered : Edges → List ℕ → List ℕ → Type 0
IsOrdered es seen [] = Unit
IsOrdered es seen (x ∷ xs) =
    ((s : ℕ) → has_edge es s x ≡ true → contains seen s ≡ true) × IsOrdered es (x ∷ seen) xs

IsOrdered-snoc :
    (es : Edges) (seen xs : List ℕ) (u : ℕ)
    → IsOrdered es seen xs
    → ((s : ℕ) → has_edge es s u ≡ true → (contains seen s || contains xs s) ≡ true)
    → IsOrdered es seen (xs ++ (u ∷ []))
unfolding contains
IsOrdered-snoc es seen [] u h behind = (λ s e. ground (arith, behind s e), tt)
IsOrdered-snoc es seen (x ∷ xs) u h behind =
    (h.0, IsOrdered-snoc es (x ∷ seen) xs u h.1 (λ s e. ground (arith, behind s e)))

-- The middle of a list without repetition is not in its front.
Distinct-middle : (xs ys : List ℕ) (u : ℕ) → Distinct (xs ++ (u ∷ ys)) → contains xs u ≡ false
unfolding contains
Distinct-middle [] ys u d = refl
Distinct-middle (x ∷ xs) ys u d = elim (Bool-cases (x == u)) [
  | inl hit ↦
      let there : contains (xs ++ (u ∷ ys)) x ≡ true =
        ap (contains (xs ++ (u ∷ ys))) ((==_iff x u).0 hit)
        ∙ ground (arith, contains-append xs (u ∷ ys) u, ==-refl u) in
      absurd (cc (there, d.0))
  | inr miss ↦ ground (arith, miss, Distinct-middle xs ys u d.1)
]

pub contains-All :
    (P : ℕ → Type 0) (xs : List ℕ) → ((x : ℕ) → contains xs x ≡ true → P x) → All P xs
unfolding contains
contains-All P [] h = tt
contains-All P (x ∷ xs) h =
    (h x (ground (arith, ==-refl x)), contains-All P xs (λ y m. h y (ground (arith, m))))

module _ (n : ℕ) (es : Edges) (inside : All (λ (e : ℕ × ℕ). (e.0 < n) × (e.1 < n)) es) where
  pub record Inv (order queue : List ℕ) (deg : ℕ → ℕ) : Type 0 where
    pub degrees : (i : ℕ) → deg i ≡ open_in es order i
    pub once : Distinct (order ++ queue)
    pub below : All (λ i. i < n) (order ++ queue)
    pub queued : (i : ℕ) → i < n → contains (order ++ queue) i ≡ (deg i == 0)
    pub ordered : IsOrdered es [] order

  module _ (deps order queue : List ℕ) (u : ℕ) (deg : ℕ → ℕ)
      (lists : (i : ℕ) → count deps i ≡ between es u i) (v : Inv order (u ∷ queue) deg) where
    abbrev listed : List ℕ
    listed = order ++ (u ∷ queue)

    fresh_u : contains order u ≡ false
    fresh_u = Distinct-middle order queue u v.once

    u_below : u < n
    u_below = (All-append _ order (u ∷ queue) v.below).1.0

    enough : (i : ℕ) → count deps i ≤ deg i
    enough i = omega (arith, lists i, v.degrees i, open_in-snoc es order u i fresh_u)

    -- What is counted among the dependents is a number below the bound, and was not queued.
    released : (i : ℕ) → 0 < count deps i → (i < n) × (contains listed i ≡ false)
    released i pos =
        let lt = between-within n es u i inside (omega (arith, pos, lists i)) in
        (lt, ground (arith, v.queued i lt, enough i, pos))

    settled : (s : ℕ) → has_edge es s u ≡ true → contains order s ≡ true
    unfolding contains
    settled s e =
        let zeroed : (deg u == 0) ≡ true =
          sym (v.queued u u_below)
          ∙ ground (arith, contains-append order (u ∷ queue) u, ==-refl u) in
        open_in-none es order s u (sym (v.degrees u) ∙ (==_iff (deg u) 0).0 zeroed) e

    Inv-step : Inv (order ++ (u ∷ [])) (release deps (deg, queue)).1 (release deps (deg, queue)).0
    Inv-step =
        let (fresh, q, falls, which, once) = release_lem deps deg queue enough in
        let deg' = (release deps (deg, queue)).0 in
        let same : (order ++ (u ∷ [])) ++ (release deps (deg, queue)).1 ≡ listed ++ fresh =
          ap (λ r. (order ++ (u ∷ [])) ++ r) q
          ∙ append_assoc order (u ∷ []) (queue ++ fresh)
          ∙ sym (append_assoc order (u ∷ queue) fresh) in
        let pos : (i : ℕ) → contains fresh i ≡ true → 0 < count deps i =
          λ i m. ground (arith, which i, m) in
        record {
          degrees =
              λ i. omega (arith, falls i, lists i, v.degrees i, open_in-snoc es order u i fresh_u);
          once =
              subst Distinct (sym same)
                (Distinct-append listed fresh v.once once (λ i m. (released i (pos i m)).1));
          below = subst (All (λ i. i < n)) (sym same) (
              append-All _ listed fresh v.below
                (contains-All _ fresh (λ i m. (released i (pos i m)).0)));
          queued = λ i lt.
              ap (λ l. contains l i) same
              ∙ ground (arith, contains-append listed fresh i, v.queued i lt, which i, falls i);
          ordered = IsOrdered-snoc es [] order u v.ordered (λ s e. unfold contains in settled s e);
        }

  -- The loop ends within `n` rounds, with every number whose dependencies are done in its order.
  pub kahn-Inv :
      (n_frags : ℕ) (dependents : ℕ → List ℕ)
      → ((u i : ℕ) → count (dependents u) i ≡ between es u i)
      → (fuel : ℕ) (order queue : List ℕ) (deg : ℕ → ℕ) → n ≤ fuel + length order
      → Inv order queue deg
      → (order' : List ℕ) × (deg' : ℕ → ℕ) × (kahn n_frags dependents fuel deg queue
            (map (item n_frags) order)
          ≡ some (map (item n_frags) order'))
        × Inv order' [] deg'
  unfolding kahn
  kahn-Inv n_frags dependents lists zero order [] deg enough v = (order, deg, refl, v)
  kahn-Inv n_frags dependents lists (suc fuel) order [] deg enough v = (order, deg, refl, v)
  kahn-Inv n_frags dependents lists zero order (u ∷ queue) deg enough v = absurd (
      omega (
        arith,
        enough,
        length-le n (order ++ (u ∷ queue)) v.once v.below,
        length-append order (u ∷ queue),
      ))
  kahn-Inv n_frags dependents lists (suc fuel) order (u ∷ queue) deg enough v =
      let state = release (dependents u) (deg, queue) in
      let (order', deg', e, w) =
        kahn-Inv n_frags dependents lists fuel (order ++ (u ∷ [])) state.1 state.0
          (omega (arith, enough, length-append order (u ∷ [])))
          (Inv-step (dependents u) order queue u deg (lists u) v) in
      (
        order',
        deg',
        ap (kahn n_frags dependents fuel state.0 state.1)
              (sym (map-append (item n_frags) order (u ∷ [])))
            ∙ e,
        w,
      )
