-- ===== src/Sedimentree/Topsort/Items.antt =====
-- `topsorted_blob_order`: the items, their indices, and the edges between them by identifier.
use subduction.Identity.{CommitId}
use subduction.LooseCommit.{LooseCommit}
use subduction.Fragment.{Fragment, head}
use subduction.Collections.Map
use subduction.Collections.Map.{Map, values}
use subduction.Collections.Index.{Distinct, points, any-points, index_keys, index-inv}
use subduction.Sedimentree.Topsort.{SedimentreeItem, fragment, loose_commit, item}
use subduction.Sedimentree.Topsort.Built.{at, fragment_dep, parent_at, commit_dep}
use subduction.Sedimentree.Topsort.Depends.{
  boundary_at, parents_at, fragment_heads, commit_heads, depends_on, fragment_dep_at, commit_dep_at,
  commit_dep_before, at-points, points-beyond, any-points_beyond, any-parent_at_fragment,
  any-parent_at_commit,
}
use subduction.Prelude.{
  ℕ, zero, suc, ◌+◌, ◌-◌, ◌≤◌, ◌<◌, ◌≡◌, refl, sym, ap, ◌∙◌, subst, inl, inr, Bool, true, false,
  ◌||◌, none, List, [], ◌∷◌, arith, dec_lt, ltb, nat_eq, Bool-cases, Option-cases, length,
  get_elem?, any, bytes_eq, le_of_ltb, lt_of_ltb, bytes_list_eq, length-map,
}

get_elem?-beyond {ℓ} : {A : Type ℓ} (xs : List A) (i : ℕ) → length xs ≤ i → get_elem? xs i ≡ none
get_elem?-beyond [] i h = refl
get_elem?-beyond (x ∷ xs) zero h = absurd (omega (arith, h))
get_elem?-beyond (x ∷ xs) (suc i) h = get_elem?-beyond xs i (omega (arith, h))

any-false {ℓ} :
    {A : Type ℓ} (f : A → Bool) (xs : List A) → ((x : A) → f x ≡ false) → any f xs ≡ false
any-false f [] h = refl
any-false f (x ∷ xs) h = ground (arith, h x, any-false f xs h)

module _ (fs : List Fragment) (cs : List LooseCommit) where
  abbrev pub IsItem : SedimentreeItem → Type 0
  IsItem (fragment i) = i < length fs
  IsItem (loose_commit i) = i < length cs

  abbrev pub index : SedimentreeItem → ℕ
  index (fragment i) = i
  index (loose_commit i) = length fs + i

  abbrev pub n_total : ℕ
  n_total = length fs + length cs

  pub index-lt : (x : SedimentreeItem) → IsItem x → index x < n_total
  index-lt (fragment i) h = omega (arith, h)
  index-lt (loose_commit i) h = omega (arith, h)

  pub item-index : (x : SedimentreeItem) → IsItem x → item (length fs) (index x) ≡ x
  unfolding item
  item-index (fragment i) h = ground (arith, h)
  item-index (loose_commit i) h =
      let e : length fs + i - length fs ≡ i = omega arith in ground (arith, e)

  pub item-IsItem :
      (i : ℕ) → i < n_total → IsItem (item (length fs) i) × (index (item (length fs) i) ≡ i)
  unfolding item
  item-IsItem i h = elim (Bool-cases (ltb i (length fs))) [
    | inl low ↦ rw low (lt_of_ltb i (length fs) low, refl)
    | inr high ↦
        let le : length fs ≤ i = le_of_ltb i (length fs) high in
        rw high (omega (arith, h, le), omega (arith, le))
  ]

  pub item_inj : (i j : ℕ) → item (length fs) i ≡ item (length fs) j → i ≡ j
  unfolding item
  item_inj i j h = ground (arith, h)

  abbrev hf : Map CommitId ℕ
  hf = index_keys 0 [] (fragment_heads fs)

  abbrev il : Map CommitId ℕ
  il = index_keys 0 [] (commit_heads cs)

  abbrev pub dep : ℕ → ℕ → Bool
  dep s t = fragment_dep hf 0 fs s t || commit_dep hf il (length fs) 0 cs s t

  dep_fragment : (s t : ℕ) → t < length fs → dep s t ≡ any (points hf s) (boundary_at fs t)
  dep_fragment s t h =
      let first : fragment_dep hf 0 fs s t ≡ any (points hf s) (boundary_at fs t) =
        ap (fragment_dep hf 0 fs s) (omega arith) ∙ fragment_dep_at hf 0 fs s t in
      ground (arith, first, commit_dep_before hf il (length fs) 0 cs s t (omega (arith, h)))

  dep_commit :
      (s k : ℕ) → dep s (length fs + k) ≡ any (parent_at hf il (length fs) s) (parents_at cs k)
  dep_commit s k =
      let t = length fs + k in
      let none_there : boundary_at fs t ≡ [] =
        rw (get_elem?-beyond fs t (omega arith), boundary_at) refl in
      let first : fragment_dep hf 0 fs s t ≡ false =
        ap (fragment_dep hf 0 fs s) (omega arith)
        ∙ fragment_dep_at hf 0 fs s t
        ∙ ap (any (points hf s)) none_there in
      let second : commit_dep hf il (length fs) 0 cs s t
          ≡ any (parent_at hf il (length fs) s) (parents_at cs k) =
        ap (commit_dep hf il (length fs) 0 cs s) (omega arith)
        ∙ commit_dep_at hf il (length fs) 0 cs s k in
      ground (arith, first, second)

  parent_at-beyond : (s : ℕ) (p : CommitId) → n_total ≤ s → parent_at hf il (length fs) s p ≡ false
  parent_at-beyond s p h =
      let none_there : at (Map.get hf p) s ≡ false =
        at-points hf s p
        ∙ points-beyond (fragment_heads fs) s p (omega (arith, h, length-map head fs)) in
      elim (Option-cases (Map.get il p)) [
        | inl miss ↦ ground (arith, miss, none_there)
        | inr (j, hit) ↦ ground (
          arith,
          hit,
          none_there,
          h,
          (index-inv (commit_heads cs) p j hit).1,
          length-map (λ (c : LooseCommit). c.head) cs,
        )
      ]

  -- The edges join indices of items.
  pub dep_within : (s t : ℕ) → dep s t ≡ true → (s < n_total) × (t < n_total)
  dep_within s t h = elim (dec_lt t (length fs)) [
    | yes low ↦ (
      elim (dec_lt s n_total) [
        | yes lt ↦ lt
        | no ge ↦ absurd (
            cc (
              h,
              dep_fragment s t low,
              any-points_beyond (fragment_heads fs) s (boundary_at fs t)
                  (omega (arith, ge, length-map head fs)),
            ))
      ],
      omega (arith, low),
    )
    | no high ↦
        let k = t - length fs in
        let e : t ≡ length fs + k = omega (arith, high) in
        let there : any (parent_at hf il (length fs) s) (parents_at cs k) ≡ true =
          sym (dep_commit s k) ∙ ap (dep s) (sym e) ∙ h in
        (
          elim (dec_lt s n_total) [
            | yes lt ↦ lt
            | no ge ↦ absurd (
                cc (
                  there,
                  any-false (parent_at hf il (length fs) s) (parents_at cs k)
                      (λ p. parent_at-beyond s p (omega (arith, ge))),
                ))
          ],
          elim (dec_lt k (length cs)) [
            | yes lt ↦ omega (arith, lt, e)
            | no ge ↦
                let none_there : parents_at cs k ≡ [] =
                  rw (get_elem?-beyond cs k (omega (arith, ge)), parents_at) refl in
                absurd (cc (there, ap (any (parent_at hf il (length fs) s)) none_there))
          ],
        )
  ]

  module _ (once_f : Distinct (fragment_heads fs)) (once_c : Distinct (commit_heads cs)) where
    -- The edges are the dependencies.
    pub dep_items :
        (x y : SedimentreeItem)
        → IsItem x
        → IsItem y
        → dep (index y) (index x) ≡ depends_on fs cs x y
    dep_items (fragment t) (fragment s) hx hy =
        dep_fragment s t hx
        ∙ any-points (fragment_heads fs) once_f s (boundary_at fs t)
            (omega (arith, hy, length-map head fs))
    dep_items (fragment t) (loose_commit s) hx hy =
        dep_fragment (length fs + s) t hx
        ∙ any-points_beyond (fragment_heads fs) (length fs + s) (boundary_at fs t)
            (omega (arith, length-map head fs))
    dep_items (loose_commit t) (fragment s) hx hy =
        dep_commit s t
        ∙ any-parent_at_fragment (fragment_heads fs) (commit_heads cs) (length fs) s
            (parents_at cs t) hy
        ∙ any-points (fragment_heads fs) once_f s (parents_at cs t)
            (omega (arith, hy, length-map head fs))
    dep_items (loose_commit t) (loose_commit s) hx hy =
        dep_commit (length fs + s) t
        ∙ subst
            (λ n.
              any (parent_at hf il n (n + s)) (parents_at cs t)
              ≡ any (points il s) (parents_at cs t))
            (length-map head fs)
            (any-parent_at_commit (fragment_heads fs) (commit_heads cs) s (parents_at cs t))
        ∙ any-points (commit_heads cs) once_c s (parents_at cs t)
            (omega (arith, hy, length-map (λ (c : LooseCommit). c.head) cs))
