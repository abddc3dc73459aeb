-- ===== src/Collections/Members.antt =====
-- The elements of a list, by the position at which they stand, and tests of them by `any`.
use subduction.Prelude.{
  ◌≡◌, refl, sym, ap, ◌∙◌, subst, ◌↔◌, ◌⊎◌, inl, inr, Bool, true, false, List, [], ◌∷◌, arith,
  nat_eq, Bool-cases, filter, any, All, bytes_eq, bytes_list_eq,
}

abbrev pub In : {A : Type 0} → A → List A → Type 0
In x [] = ⊥
In x (y ∷ ys) = (y ≡ x) ⊎ In x ys

module _ {A : Type 0} where
  pub any-In : (f : A → Bool) (xs : List A) → any f xs ≡ true → (x : A) × In x xs × (f x ≡ true)
  any-In f [] h = cc
  any-In f (x ∷ xs) h = elim (Bool-cases (f x)) [
    | inl hit ↦ (x, inl refl, hit)
    | inr miss ↦ let (y, m, q) = any-In f xs (ground (arith, h, miss)) in (y, inr m, q)
  ]

  pub In-any : (f : A → Bool) (xs : List A) (x : A) → In x xs → f x ≡ true → any f xs ≡ true
  In-any f [] x m h = absurd m
  In-any f (y ∷ ys) x (inl e) h = let q : f y ≡ true = ap f e ∙ h in ground (arith, q)
  In-any f (y ∷ ys) x (inr m) h = ground (arith, In-any f ys x m h)

  pub In-filter :
      (p : A → Bool) (xs : List A) (x : A) → In x (filter p xs) ↔ (In x xs × (p x ≡ true))
  In-filter p [] x = (λ m. absurd m, λ m. absurd m.0)
  In-filter p (y ∷ ys) x =
      let (from, to) = In-filter p ys x in
      elim (Bool-cases (p y)) [
        | inl hit ↦
            rw (hit, filter)
              (
                λ m. elim m [
                  | inl e ↦ (inl e, ap p (sym e) ∙ hit)
                  | inr rest ↦ let (n, q) = from rest in (inr n, q)
                ],
                λ m. elim m.0 [ inl e ↦ inl e | inr rest ↦ inr (to (rest, m.1)) ],
              )
        | inr miss ↦
            rw (miss, filter)
              (
                λ m. let (n, q) = from m in (inr n, q),
                λ m. elim m.0 [
                  | inl e ↦ absurd (let q : p y ≡ true = ap p e ∙ m.1 in cc (q, miss))
                  | inr rest ↦ to (rest, m.1)
                ],
              )
      ]

  pub All-In {κ} : (P : A → Type κ) (xs : List A) (x : A) → All P xs → In x xs → P x
  All-In P [] x h m = absurd m
  All-In P (y ∷ ys) x h (inl e) = subst P e h.0
  All-In P (y ∷ ys) x h (inr m) = All-In P ys x h.1 m

  pub In-All {κ} : (P : A → Type κ) (xs : List A) → ((x : A) → In x xs → P x) → All P xs
  In-All P [] h = tt
  In-All P (x ∷ xs) h = (h x (inl refl), In-All P xs (λ y m. h y (inr m)))

-- Two tests that hold together are equal.
pub Bool_ext : (a b : Bool) → (a ≡ true → b ≡ true) → (b ≡ true → a ≡ true) → a ≡ b
Bool_ext true true f g = refl
Bool_ext true false f g = cc (f refl)
Bool_ext false true f g = cc (g refl)
Bool_ext false false f g = refl
