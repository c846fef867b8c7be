-- ===== src/Common/Perms.antt =====
-- Tests of lists, their concatenations and their permutations.
use mathlib.Core.Path.{◌≡◌, refl, ap}
use mathlib.Core.Logic.{inl, inr}
use mathlib.Core.Logic.Or
use mathlib.Core.Bool.{Bool, true, ◌||◌, ◌&&◌}
use mathlib.Core.List.{
  List, [], ◌∷◌, ◌++◌, map, Perm, Mem, mem-cons_self, mem-cons_of_mem, eq-or-mem_of_mem-cons,
  not-mem-nil,
}
use mathlib.Core.List.Perm
use native.Mathlib.Omega.{arith}
use deckard.Common.Tests.{Bool-cases}
use deckard.Common.Lists.{keep, exists, length}

pub exists-append {ℓ} :
    {A : Type ℓ} (p : A → Bool) (xs ys : List A)
    → exists p (xs ++ ys) ≡ (exists p xs || exists p ys)
unfolding exists
exists-append p [] ys = refl
exists-append p (x ∷ xs) ys = ground (arith, exists-append p xs ys)

pub keep-keep {ℓ} :
    {A : Type ℓ} (p q : A → Bool) (xs : List A) → keep p (keep q xs) ≡ keep (λ x. q x && p x) xs
unfolding keep
keep-keep p q [] = refl
keep-keep p q (x ∷ xs) = ground (arith, keep-keep p q xs)

is_true-prop : (b : Bool) → IsProp (b ≡ true)
is_true-prop b = hlevel

exists-mem {ℓ} :
    {A : Type ℓ} (p : A → Bool) (x : A) (xs : List A) → Mem x xs → p x ≡ true → exists p xs ≡ true
unfolding exists
exists-mem p x [] m e = absurd (not-mem-nil m)
exists-mem p x (y ∷ ys) m e =
    Or.elim (is_true-prop (exists p (y ∷ ys))) (eq-or-mem_of_mem-cons m)
      (λ same. ground (arith, ap p same)) (λ later. ground (arith, exists-mem p x ys later e))

mem-exists {ℓ} :
    {A : Type ℓ} (p : A → Bool) (xs : List A)
    → exists p xs ≡ true
    → (x : A) × Mem x xs × (p x ≡ true)
unfolding exists
mem-exists p [] e = cc
mem-exists p (x ∷ xs) e = elim (Bool-cases (p x)) [
  | inl found ↦ (x, mem-cons_self, found)
  | inr other ↦
      let (y, m, f) = mem-exists p xs (ground (arith, e, other)) in (y, mem-cons_of_mem x m, f)
]

exists-perm {ℓ} :
    {A : Type ℓ} (p : A → Bool) {xs ys : List A}
    → Perm xs ys
    → exists p xs ≡ true
    → exists p ys ≡ true
exists-perm p {xs} {ys} d e =
    let (x, m, f) = mem-exists p xs e in exists-mem p x ys (Perm.subset d x m) f

pub exists-perm_eq {ℓ} :
    {A : Type ℓ} (p : A → Bool) {xs ys : List A} → Perm xs ys → exists p xs ≡ exists p ys
exists-perm_eq p {xs} {ys} d = ground (arith, exists-perm p d, exists-perm p (Perm.symm d))

pub keep-ext {ℓ} :
    {A : Type ℓ} (p q : A → Bool) (xs : List A) → ((x : A) → p x ≡ q x) → keep p xs ≡ keep q xs
unfolding keep
keep-ext p q [] h = refl
keep-ext p q (x ∷ xs) h = ground (arith, h x, keep-ext p q xs h)

pub append-nil {ℓ} : {A : Type ℓ} (xs : List A) → xs ++ [] ≡ xs
append-nil [] = refl
append-nil (x ∷ xs) = ap (λ ys. x ∷ ys) (append-nil xs)

pub length-map {ℓ κ} :
    {A : Type ℓ} {B : Type κ} (f : A → B) (xs : List A) → length (map f xs) ≡ length xs
length-map f [] = refl
length-map f (x ∷ xs) = omega (arith, length-map f xs)
