-- ===== src/Common/Lists.antt =====
-- Lists measured by native numbers, filtered by Boolean tests, and predicates on their entries.
use Prim.Native.Nat.{ℕ, zero, suc, ◌+◌, ◌≤◌}
use mathlib.Core.Path.{◌≡◌, refl, sym, subst}
use mathlib.Core.Bool.{Bool, true, false}
use mathlib.Core.List.{List, [], ◌∷◌, ◌++◌}
use mathlib.Core.Option
use mathlib.Core.Option.{Option, none, some}
use native.Mathlib.Omega.{arith}
use dockbrr.Common.Tests.{if◌then◌else◌, by_cases}

module _ {ℓ} {A : Type ℓ} where
  abbrev pub length : List A → ℕ
  length [] = 0
  length (x ∷ xs) = suc (length xs)

  abbrev pub get_elem? : List A → ℕ → Option A
  get_elem? [] i = none
  get_elem? (x ∷ xs) zero = some x
  get_elem? (x ∷ xs) (suc i) = get_elem? xs i

  -- A write out of bounds changes nothing.
  abbrev pub set : List A → ℕ → A → List A
  set [] i v = []
  set (x ∷ xs) zero v = v ∷ xs
  set (x ∷ xs) (suc i) v = x ∷ set xs i v

  abbrev pub filter : (A → Bool) → List A → List A
  filter p [] = []
  filter p (x ∷ xs) = let rest = filter p xs in if p x then x ∷ rest else rest

  -- How many entries pass the test.
  abbrev pub count_if : (A → Bool) → List A → ℕ
  count_if p [] = 0
  count_if p (x ∷ xs) = let rest = count_if p xs in if p x then suc rest else rest

  abbrev pub any : (A → Bool) → List A → Bool
  any p [] = false
  any p (x ∷ xs) = let rest = any p xs in if p x then true else rest

  abbrev pub find : (A → Bool) → List A → Option A
  find p [] = none
  find p (x ∷ xs) = let rest = find p xs in if p x then some x else rest

  abbrev pub take : ℕ → List A → List A
  take zero xs = []
  take (suc n) [] = []
  take (suc n) (x ∷ xs) = x ∷ take n xs

  -- Every entry that passes the test is replaced.
  abbrev pub edit : (A → Bool) → (A → A) → List A → List A
  edit p f [] = []
  edit p f (x ∷ xs) = let rest = edit p f xs in (if p x then f x else x) ∷ rest

  pub length-append : (xs ys : List A) → length (xs ++ ys) ≡ length xs + length ys
  length-append [] ys = omega arith
  length-append (x ∷ xs) ys = omega (arith, length-append xs ys)

  pub length-filter : (p : A → Bool) (xs : List A) → length (filter p xs) ≤ length xs
  length-filter p [] = omega arith
  length-filter p (x ∷ xs) = ground (arith, length-filter p xs)

-- Every entry of the list satisfies the predicate.
abbrev pub All {ℓ κ} : {A : Type ℓ} → (A → Type κ) → List A → Type κ
All P [] = Unit
All P (x ∷ xs) = P x × All P xs

-- Membership, as data.
pub data In {ℓ} {A : Type ℓ} (a : A) : List A → Type ℓ where
  here : {xs : List A} → In a (a ∷ xs)
  there : {x : A} {xs : List A} → In a xs → In a (x ∷ xs)

pub All-In {ℓ κ} : {A : Type ℓ} (P : A → Type κ) {a : A} {xs : List A} → All P xs → In a xs → P a
All-In P h here = h.0
All-In P h (there m) = All-In P h.1 m

pub All-intro {ℓ κ} :
    {A : Type ℓ} (P : A → Type κ) (xs : List A) → ((a : A) → In a xs → P a) → All P xs
All-intro P [] h = tt
All-intro P (x ∷ xs) h = (h x here, All-intro P xs (λ a m. h a (there m)))

module _ {ℓ} {A : Type ℓ} where
  pub All-edit {κ} :
      (P : A → Type κ) (p : A → Bool) (f : A → A) (xs : List A)
      → ((x : A) → P x → P (f x))
      → All P xs
      → All P (edit p f xs)
  All-edit P p f [] h a = tt
  All-edit P p f (x ∷ xs) h a = (
    by_cases (λ b. P (if b then f x else x)) (p x) (λ _. h x a.0) (λ _. a.0),
    All-edit P p f xs h a.1,
  )

  pub All-filter {κ} :
      (P : A → Type κ) (p : A → Bool) (xs : List A) → All P xs → All P (filter p xs)
  All-filter P p [] a = tt
  All-filter P p (x ∷ xs) a =
      let rest = All-filter P p xs a.1 in
      by_cases (λ b. All P (if b then x ∷ filter p xs else filter p xs)) (p x) (λ _. (a.0, rest))
        (λ _. rest)

  pub filter-holds : (p : A → Bool) (xs : List A) → All (λ x. p x ≡ true) (filter p xs)
  filter-holds p [] = tt
  filter-holds p (x ∷ xs) =
      let rest = filter-holds p xs in
      by_cases (λ b. All (λ y. p y ≡ true) (if b then x ∷ filter p xs else filter p xs)) (p x)
        (λ e. (e, rest)) (λ _. rest)

  pub In-filter : (p : A → Bool) (x : A) (xs : List A) → p x ≡ true → In x xs → In x (filter p xs)
  In-filter p x [] h m = elim m [ ]
  In-filter p x (y ∷ xs) h here = rw h here
  In-filter p x (y ∷ xs) h (there m) =
      let rest = In-filter p x xs h m in
      by_cases (λ b. In x (if b then y ∷ filter p xs else filter p xs)) (p y) (λ _. there rest)
        (λ _. rest)

  -- An edit that the test of a search does not see changes only what the search finds.
  pub find-edit :
      (q p : A → Bool) (f : A → A)
      → ((x : A) → q (f x) ≡ q x)
      → (xs : List A) → find q (edit p f xs) ≡ Option.map (λ x. if p x then f x else x) (find q xs)
  find-edit q p f h [] = refl
  find-edit q p f h (x ∷ xs) = ground (arith, h x, find-edit q p f h xs)

  -- What holds of every row after an edit.
  pub edit-All {κ} :
      (P : A → Type κ) (p : A → Bool) (f : A → A) (xs : List A)
      → ((x : A) → P (if p x then f x else x))
      → All P (edit p f xs)
  edit-All P p f [] h = tt
  edit-All P p f (x ∷ xs) h = (h x, edit-All P p f xs h)

  pub find-some : (q : A → Bool) (xs : List A) (x : A) → find q xs ≡ some x → In x xs × (q x ≡ true)
  find-some q [] x h = cc
  find-some q (y ∷ ys) x h =
      let rest = find-some q ys x in
      by_cases (λ b. (if b then some y else find q ys) ≡ some x → In x (y ∷ ys) × (q x ≡ true))
        (q y)
        (λ e k.
          let same : y ≡ x = cc k in
          (subst (λ z. In z (y ∷ ys)) same here, subst (λ z. q z ≡ true) same e))
        (λ _ k. let r = rest k in (there r.0, r.1)) h

  pub find-filter :
      (q p : A → Bool) (xs : List A) (x : A)
      → find q xs ≡ some x
      → p x ≡ true
      → find q (filter p xs) ≡ some x
  find-filter q p [] x h k = h
  find-filter q p (y ∷ ys) x h k = ground (arith, find-filter q p ys x)

  pub All-map {κ μ} :
      (P : A → Type κ) (Q : A → Type μ) (xs : List A) → ((x : A) → P x → Q x) → All P xs → All Q xs
  All-map P Q [] h a = tt
  All-map P Q (x ∷ xs) h a = (h x a.0, All-map P Q xs h a.1)

  pub All-self : (xs : List A) → All (λ x. In x xs) xs
  All-self [] = tt
  All-self (x ∷ xs) =
      (here, All-map (λ y. In y xs) (λ y. In y (x ∷ xs)) xs (λ y m. there m) (All-self xs))

  pub All-unfilter {κ} :
      (P : A → Type κ) (p : A → Bool) (xs : List A)
      → All P (filter p xs)
      → All (λ x. p x ≡ true → P x) xs
  All-unfilter P p [] a = tt
  All-unfilter P p (r ∷ rs) a =
      by_cases
        (λ b.
          All P (if b then r ∷ filter p rs else filter p rs)
          → (b ≡ true → P r) × All (λ x. p x ≡ true → P x) rs)
        (p r) (λ _ k. ((λ _. k.0), All-unfilter P p rs k.1))
        (λ _ k. ((λ e. cc), All-unfilter P p rs k)) a

  pub All-append {κ} : (P : A → Type κ) (xs ys : List A) → All P xs → All P ys → All P (xs ++ ys)
  All-append P [] ys h k = k
  All-append P (x ∷ xs) ys h k = (h.0, All-append P xs ys h.1 k)

  -- An edit of the entry that a search finds, and one of entries that it does not find.
  pub find-edit_own :
      (q : A → Bool) (f : A → A)
      → ((x : A) → q (f x) ≡ q x)
      → (xs : List A) (x : A) → find q xs ≡ some x
      → find q (edit q f xs) ≡ some (f x)
  find-edit_own q f stays [] x h = cc
  find-edit_own q f stays (y ∷ ys) x h = ground (arith, stays y, find-edit_own q f stays ys x)

  pub find-edit_other :
      (q p : A → Bool) (f : A → A)
      → ((x : A) → q (f x) ≡ q x)
      → ((x : A) → q x ≡ true → p x ≡ false)
      → (xs : List A) → find q (edit p f xs) ≡ find q xs
  find-edit_other q p f stays apart [] = refl
  find-edit_other q p f stays apart (x ∷ xs) =
      ground (arith, stays x, apart x, find-edit_other q p f stays apart xs)

  pub find-append :
      (q : A → Bool) (xs ys : List A)
      → find q (xs ++ ys) ≡ (if any q xs then find q xs else find q ys)
  find-append q [] ys = refl
  find-append q (x ∷ xs) ys = ground (arith, find-append q xs ys)

  pub find_absent : (q : A → Bool) (xs : List A) → any q xs ≡ false → find q xs ≡ none
  find_absent q [] h = refl
  find_absent q (x ∷ xs) h = ground (arith, find_absent q xs)

  pub find_present : (q : A → Bool) (xs : List A) → any q xs ≡ true → (x : A) × (find q xs ≡ some x)
  find_present q [] h = cc
  find_present q (x ∷ xs) h =
      by_cases
        (λ b.
          (if b then true else any q xs) ≡ true
          → (y : A) × ((if b then some x else find q xs) ≡ some y))
        (q x) (λ _ _. (x, refl)) (λ _ k. find_present q xs k) h

  pub count_absent : (q : A → Bool) (xs : List A) → any q xs ≡ false → count_if q xs ≡ 0
  count_absent q [] h = refl
  count_absent q (x ∷ xs) h = ground (arith, count_absent q xs)

  pub count-append :
      (q : A → Bool) (xs ys : List A) → count_if q (xs ++ ys) ≡ count_if q xs + count_if q ys
  count-append q [] ys = omega arith
  count-append q (x ∷ xs) ys = ground (arith, count-append q xs ys)

  pub count-edit :
      (q p : A → Bool) (f : A → A)
      → ((x : A) → q (f x) ≡ q x)
      → (xs : List A) → count_if q (edit p f xs) ≡ count_if q xs
  count-edit q p f h [] = refl
  count-edit q p f h (x ∷ xs) = ground (arith, h x, count-edit q p f h xs)

  -- An entry that the search does not find.
  pub find-append_other :
      (q : A → Bool) (xs : List A) (y : A) → q y ≡ false → find q (xs ++ (y ∷ [])) ≡ find q xs
  find-append_other q [] y h = rw h refl
  find-append_other q (x ∷ xs) y h = ground (arith, find-append_other q xs y h)

  -- A new entry for which there was none.
  pub find-append_new :
      (q : A → Bool) (xs : List A) (y : A)
      → any q xs ≡ false
      → q y ≡ true
      → find q (xs ++ (y ∷ [])) ≡ some y
  find-append_new q [] y h k = rw k refl
  find-append_new q (x ∷ xs) y h k = ground (arith, find-append_new q xs y)

  -- One more entry than there were, where there were none that count.
  pub count-append_one :
      (q : A → Bool) (xs : List A) (y : A)
      → count_if q xs ≤ 1
      → (q y ≡ true → any q xs ≡ false)
      → count_if q (xs ++ (y ∷ [])) ≤ 1
  count-append_one q xs y h k =
      subst (λ n. n ≤ 1) (sym (count-append q xs (y ∷ [])))
        (by_cases (λ b. (b ≡ true → any q xs ≡ false) → count_if q xs + (if b then 1 else 0) ≤ 1)
          (q y) (λ _ new. let none_there = count_absent q xs (new refl) in omega arith)
          (λ _ _. omega arith) k)
