-- ===== src/Discovery/Reconcile/Marks.antt =====
-- What the pass that marks does to each stored service (internal/discovery/discovery.go).
use dockbrr.Common.{
  ◌≡◌, refl, sym, ap, ◌∙◌, ℕ, ◌==◌, Bool, true, false, Option, none, some, List, [], ◌∷◌, In, here,
  there, any, map, edit, by_cases, if◌then◌else◌,
}
use dockbrr.Store.Services.{
  Service, list_by_project, mark_gone, gone_row, coalesce, of_project, has_id,
}
use dockbrr.Store.Services
use dockbrr.Discovery.Reconcile.{mark_all}

map-edit :
    {A B : Type 0} (p : A → Bool) (f : A → A) (g k : A → B)
    → ((x : A) → g (if p x then f x else x) ≡ k x)
    → (xs : List A) → map g (edit p f xs) ≡ map k xs
map-edit p f g k h [] = refl
map-edit p f g k h (x ∷ xs) = cc (h x, map-edit p f g k h xs)

pub map-In :
    {A B : Type 0} (g k : A → B) (xs : List A)
    → ((x : A) → In x xs → g x ≡ k x)
    → map g xs ≡ map k xs
map-In g k [] h = refl
map-In g k (x ∷ xs) h = cc (h x here, map-In g k xs (λ y m. h y (there m)))

pub map_id : {A : Type 0} (xs : List A) → map (λ x. x) xs ≡ xs
map_id [] = refl
map_id (x ∷ xs) = ap (λ ys. x ∷ ys) (map_id xs)

pub map-map :
    {A : Type 0} (g f k : A → A)
    → ((x : A) → g (f x) ≡ k x)
    → (xs : List A) → map g (map f xs) ≡ map k xs
map-map g f k h [] = refl
map-map g f k h (x ∷ xs) = cc (h x, map-map g f k h xs)

pub In-map :
    {A : Type 0} (f : A → A) (xs : List A) (y : A)
    → In y (map f xs)
    → (x : A) × (In x xs × (y ≡ f x))
In-map f [] y m = elim m [ ]
In-map f (x ∷ xs) y here = (x, (here, refl))
In-map f (x ∷ xs) y (there m) = let r = In-map f xs y m in (r.0, (there r.1.0, r.1.1))

pub both_ways : (a b : Bool) → (a ≡ true → b ≡ true) → (b ≡ true → a ≡ true) → a ≡ b
both_ways true b h k = sym (h refl)
both_ways false true h k = k refl
both_ways false false h k = refl

pub gone_twice : (now : ℕ) (r : Service) → gone_row now (gone_row now r) ≡ gone_row now r
unfolding gone_row
gone_twice now r =
    ap (λ o. record (gone_row now r) { gone_since = o }) (coalesce_twice r.gone_since)
  where
    coalesce_twice : (o : Option ℕ) → coalesce now (coalesce now o) ≡ coalesce now o
    coalesce_twice none = refl
    coalesce_twice (some s) = refl

-- The mark of a row under a test.
abbrev pub mark_if : ℕ → Bool → Service → Service
mark_if now b r = if b then gone_row now r else r

abbrev pub among : List ℕ → Service → Bool
among ids r = any (λ i. r.id == i) ids

mark_all_step :
    (now id : ℕ) (ids : List ℕ) (r : Service)
    → mark_if now
        (among ids (if has_id id r then gone_row now r else r))
        (if has_id id r then gone_row now r else r)
      ≡ mark_if now (among (id ∷ ids) r) r
unfolding gone_row
mark_all_step now id ids r =
    by_cases
      (λ b.
        mark_if now (among ids (if b then gone_row now r else r)) (if b then gone_row now r else r)
        ≡ mark_if now (if b then true else among ids r) r)
      (has_id id r)
      (λ _.
        by_cases (λ c. mark_if now c (gone_row now r) ≡ gone_row now r) (among ids r)
          (λ _. gone_twice now r) (λ _. refl))
      (λ _. refl)

pub mark_all_lem :
    (now : ℕ) (ids : List ℕ) (t : Services.Table)
    → (mark_all now ids t).rows ≡ map (λ r. mark_if now (among ids r) r) t.rows
unfolding mark_all mark_gone
mark_all_lem now [] t = sym (map_id t.rows)
mark_all_lem now (id ∷ ids) t =
    mark_all_lem now ids (mark_gone now id t)
    ∙ map-edit (has_id id) (gone_row now) (λ r. mark_if now (among ids r) r)
        (λ r. mark_if now (among (id ∷ ids) r) r) (mark_all_step now id ids) t.rows
