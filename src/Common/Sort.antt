-- ===== src/Common/Sort.antt =====
-- Insertion sort by a test `before`: what `ORDER BY` and `sort.Strings` give where the order leaves
-- no two entries tied. Nothing that is sorted comes before the head.
use mathlib.Core.Path.{◌≡◌, refl, ap, ◌∙◌}
use mathlib.Core.Bool.{Bool, true, false}
use mathlib.Core.List.{List, [], ◌∷◌}
use dockbrr.Common.Tests.{if◌then◌else◌, by_cases}
use dockbrr.Common.Lists.{All, find, count_if}
use native.Mathlib.Omega.{arith}
use Prim.Native.Nat.{suc, ◌≤◌}
use mathlib.Core.Option.{some}

module _ {ℓ} {A : Type ℓ} (before : A → A → Bool) where
  unfoldable pub insert_by : A → List A → List A
  insert_by x [] = x ∷ []
  insert_by x (y ∷ ys) = let rest = insert_by x ys in if before x y then x ∷ y ∷ ys else y ∷ rest

  unfoldable pub sort_by : List A → List A
  unfolding insert_by
  sort_by [] = []
  sort_by (x ∷ xs) = insert_by x (sort_by xs)

  pub All-insert_by {κ} :
      (P : A → Type κ) (x : A) (ys : List A) → P x → All P ys → All P (insert_by x ys)
  unfolding insert_by
  All-insert_by P x [] h a = (h, tt)
  All-insert_by P x (y ∷ ys) h a =
      let rest = All-insert_by P x ys h a.1 in
      by_cases (λ b. All P (if b then x ∷ y ∷ ys else y ∷ insert_by x ys)) (before x y)
        (λ _. (h, a)) (λ _. (a.0, rest))

  pub All-sort_by {κ} : (P : A → Type κ) (xs : List A) → All P xs → All P (sort_by xs)
  unfolding sort_by
  All-sort_by P [] a = tt
  All-sort_by P (x ∷ xs) a = All-insert_by P x (sort_by xs) a.0 (All-sort_by P xs a.1)

  pub All-of_insert_by {κ} :
      (P : A → Type κ) (x : A) (ys : List A) → All P (insert_by x ys) → P x × All P ys
  unfolding insert_by
  All-of_insert_by P x [] a = (a.0, tt)
  All-of_insert_by P x (y ∷ ys) a =
      by_cases (λ b. All P (if b then x ∷ y ∷ ys else y ∷ insert_by x ys) → P x × All P (y ∷ ys))
        (before x y) (λ _ h. (h.0, h.1))
        (λ _ h. let r = All-of_insert_by P x ys h.1 in (r.0, (h.0, r.1))) a

  pub All-of_sort_by {κ} : (P : A → Type κ) (xs : List A) → All P (sort_by xs) → All P xs
  unfolding sort_by
  All-of_sort_by P [] a = tt
  All-of_sort_by P (x ∷ xs) a =
      let r = All-of_insert_by P x (sort_by xs) a in (r.0, All-of_sort_by P xs r.1)

  -- Each entry comes after none of those behind it.
  abbrev pub Sorted : List A → Type ℓ
  Sorted [] = Unit
  Sorted (x ∷ xs) = All (λ y. before y x ≡ false) xs × Sorted xs

  module _ (asymm : (x y : A) → before x y ≡ true → before y x ≡ false)
      (trans : (x y z : A) → before y x ≡ false → before z y ≡ false → before z x ≡ false) where
    All-below :
        (x y : A) (ys : List A)
        → before y x ≡ false
        → All (λ z. before z y ≡ false) ys
        → All (λ z. before z x ≡ false) ys
    All-below x y [] h a = tt
    All-below x y (z ∷ ys) h a = (trans x y z h a.0, All-below x y ys h a.1)

    insert_by-Sorted : (x : A) (ys : List A) → Sorted ys → Sorted (insert_by x ys)
    unfolding insert_by
    insert_by-Sorted x [] s = (tt, tt)
    insert_by-Sorted x (y ∷ ys) s =
        let rest = insert_by-Sorted x ys s.1 in
        by_cases (λ b. Sorted (if b then x ∷ y ∷ ys else y ∷ insert_by x ys)) (before x y)
          (λ e. ((asymm x y e, All-below x y ys (asymm x y e) s.0), s))
          (λ e. (All-insert_by (λ z. before z y ≡ false) x ys e s.0, rest))

    pub sort_by-Sorted : (xs : List A) → Sorted (sort_by xs)
    unfolding sort_by
    sort_by-Sorted [] = tt
    sort_by-Sorted (x ∷ xs) = insert_by-Sorted x (sort_by xs) (sort_by-Sorted xs)

  count_if-insert_by :
      (q : A → Bool) (x : A) (ys : List A) → count_if q (insert_by x ys) ≡ count_if q (x ∷ ys)
  unfolding insert_by
  count_if-insert_by q x [] = refl
  count_if-insert_by q x (y ∷ ys) = ground (arith, count_if-insert_by q x ys)

  pub count_if-sort_by : (q : A → Bool) (xs : List A) → count_if q (sort_by xs) ≡ count_if q xs
  unfolding sort_by
  count_if-sort_by q [] = refl
  count_if-sort_by q (x ∷ xs) =
      count_if-insert_by q x (sort_by xs)
      ∙ ap (λ n. if q x then suc n else n) (count_if-sort_by q xs)

  find-insert_by :
      (q : A → Bool) (x : A) (ys : List A)
      → count_if q (x ∷ ys) ≤ 1
      → find q (insert_by x ys) ≡ find q (x ∷ ys)
  unfolding insert_by
  find-insert_by q x [] h = refl
  find-insert_by q x (y ∷ ys) h = ground (arith, find-insert_by q x ys)

  -- Sorting does not change what a search finds that can find at most one entry.
  pub find-sort_by :
      (q : A → Bool) (xs : List A) → count_if q xs ≤ 1 → find q (sort_by xs) ≡ find q xs
  unfolding sort_by
  find-sort_by q [] h = refl
  find-sort_by q (x ∷ xs) h =
      let same = count_if-sort_by q xs in
      find-insert_by q x (sort_by xs) (ground arith)
      ∙ ap (λ o. if q x then some x else o) (find-sort_by q xs (ground arith))
