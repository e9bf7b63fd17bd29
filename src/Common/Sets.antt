-- ===== src/Common/Sets.antt =====
-- Finite sets as lists, over a type with a decidable equality, and how much of one another lacks.
use Prim.Native.Nat.{ℕ, suc, ◌+◌, ◌≤◌}
use mathlib.Core.Path.{◌≡◌, refl, ap, sym, ◌∙◌}
use mathlib.Core.Logic.{◌⊎◌, inl, inr, ite}
use mathlib.Core.Bool.{Bool, true, false}
use mathlib.Core.List.{List, [], ◌∷◌, ◌++◌}
use native.Mathlib.Omega.{arith}
use deno_core.Common.Lists.{length}
use deno_core.Common.Tests.{if◌then◌else◌, if_false}

module _ {A : Type 0} where
  abbrev pub In : A → List A → Type 0
  In x [] = ⊥
  In x (y ∷ ys) = (y ≡ x) ⊎ In x ys

  pub In-left : (x : A) (xs ys : List A) → In x xs → In x (xs ++ ys)
  In-left x [] ys h = absurd h
  In-left x (y ∷ xs) ys (inl e) = inl e
  In-left x (y ∷ xs) ys (inr h) = inr (In-left x xs ys h)

  pub In-right : (x : A) (xs ys : List A) → In x ys → In x (xs ++ ys)
  In-right x [] ys h = h
  In-right x (y ∷ xs) ys h = inr (In-right x xs ys h)

  pub In-parts : (x : A) (xs ys : List A) → In x (xs ++ ys) → In x xs ⊎ In x ys
  In-parts x [] ys h = inr h
  In-parts x (y ∷ xs) ys (inl e) = inl (inl e)
  In-parts x (y ∷ xs) ys (inr h) = elim (In-parts x xs ys h) [ inl a ↦ inl (inr a) | inr b ↦ inr b ]

module _ {A : Type 0} (dec : Discrete A) where
  abbrev pub contains : A → List A → Bool
  contains x [] = false
  contains x (y ∷ ys) = ite (dec y x) true (contains x ys)

  pub contains-In : (x : A) (ys : List A) → contains x ys ≡ true → In x ys
  contains-In x [] e = absurd (ground (arith, e))
  contains-In x (y ∷ ys) e = by (dec y x) (contains-In x ys) e
    where
      by :
          (d : Dec (y ≡ x))
          → (contains x ys ≡ true → In x ys)
          → ite d true (contains x ys) ≡ true
          → In x (y ∷ ys)
      by (yes p) rest e = inl p
      by (no p) rest e = inr (rest e)

  -- How many elements of the second list are not in the first.
  abbrev pub lacking : List A → List A → ℕ
  lacking v [] = 0
  lacking v (k ∷ ks) = (if contains k v then 0 else 1) + lacking v ks

  pub lacking_less : (r : A) (v ks : List A) → lacking (r ∷ v) ks ≤ lacking v ks
  lacking_less r v [] = omega arith
  lacking_less r v (k ∷ ks) = omega (arith, by (dec r k), lacking_less r v ks)
    where
      by :
          (d : Dec (r ≡ k))
          → (if ite d true (contains k v) then 0 else 1) ≤ (if contains k v then 0 else 1)
      by (yes p) = omega arith
      by (no p) = omega arith

  pub lacking_new :
      (r : A) (v ks : List A)
      → contains r ks ≡ true
      → contains r v ≡ false
      → suc (lacking (r ∷ v) ks) ≤ lacking v ks
  lacking_new r v [] h fresh = absurd (ground (arith, h))
  lacking_new r v (k ∷ ks) h fresh = by (dec k r) (dec r k) (λ h. lacking_new r v ks h fresh) h
    where
      by :
          (d : Dec (k ≡ r)) (e : Dec (r ≡ k))
          → (contains r ks ≡ true → suc (lacking (r ∷ v) ks) ≤ lacking v ks)
          → ite d true (contains r ks) ≡ true
          → suc ((if ite e true (contains k v) then 0 else 1) + lacking (r ∷ v) ks)
            ≤ (if contains k v then 0 else 1) + lacking v ks
      by (yes p) (yes q) rest h =
          omega
            (arith, lacking_less r v ks, if_false {A = ℕ} 0 1 (ap (λ x. contains x v) p ∙ fresh))
      by (yes p) (no q) rest h = absurd (q (sym p))
      by (no p) (yes q) rest h = absurd (p (sym q))
      by (no p) (no q) rest h = omega (arith, rest h)

  pub lacking_bound : (v ks : List A) → lacking v ks ≤ length ks
  lacking_bound v [] = omega arith
  lacking_bound v (k ∷ ks) = by (contains k v) (lacking_bound v ks)
    where
      by :
          (b : Bool)
          → lacking v ks ≤ length ks
          → (if b then 0 else 1) + lacking v ks ≤ suc (length ks)
      by true h = omega (arith, h)
      by false h = omega (arith, h)

  pub In-contains : (x : A) (ys : List A) → In x ys → contains x ys ≡ true
  In-contains x [] h = absurd h
  In-contains x (y ∷ ys) (inl e) = by (dec y x)
    where
      by : (d : Dec (y ≡ x)) → ite d true (contains x ys) ≡ true
      by (yes p) = refl
      by (no p) = absurd (p e)
  In-contains x (y ∷ ys) (inr h) = by (dec y x) (In-contains x ys h)
    where
      by : (d : Dec (y ≡ x)) → contains x ys ≡ true → ite d true (contains x ys) ≡ true
      by (yes p) e = refl
      by (no p) e = e
