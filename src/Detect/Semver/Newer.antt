-- ===== src/Detect/Semver/Newer.antt =====
-- The loop of `NewerSemverTag` in internal/detect/semver.go: what it keeps over the tags.
use mathlib.Core.Path.{subst, subst₂}
use dockbrr.Common.{
  ◌≡◌, refl, ◌⊎◌, inl, inr, Option, none, some, false, true, arith, Text, List, [], ◌∷◌, All, In,
  here, there, text_eq_iff, text_eq_refl, ◌≢◌, sym, ap, ◌∙◌,
}
use dockbrr.Detect.Semver.{
  Core, core_less, tag_stream, choose, better, best_of, found, newer_semver_tag, ◌>>=◌,
}
use dockbrr.Detect.Semver.Order.{core_less_irrefl, core_less_trans, core_le_trans, core_less_asymm}

-- A tag that is in the stream `flavor` with the core `c`.
abbrev pub HasCore : Text → Core → Text → Type 0
HasCore flavor c t = tag_stream t ≡ some (c, flavor)

-- A tag that is not newer than `c`, or not of the stream at all.
abbrev pub NotNewer : Text → Core → Text → Type 0
NotNewer flavor c t = (d : Core) → HasCore flavor d t → core_less c d ≡ false

module _ (flavor : Text) (b : Text × Core) (t : Text) where
  choose-le : (o : Option (Core × Text)) → core_less (choose flavor b t o).1 b.1 ≡ false
  unfolding choose
  choose-le none = core_less_irrefl b.1
  choose-le (some (c, fl)) = ground (arith, core_less_irrefl b.1, core_less_asymm b.1 c)

  choose-NotNewer :
      (o : Option (Core × Text)) (d : Core)
      → o ≡ some (d, flavor)
      → core_less (choose flavor b t o).1 d ≡ false
  unfolding choose
  choose-NotNewer none d e = cc
  choose-NotNewer (some (c, fl)) d e = ground (arith, text_eq_refl flavor, core_less_irrefl d)

  choose-cases :
      (o : Option (Core × Text))
      → (choose flavor b t o ≡ b)
        ⊎ (((choose flavor b t o).0 ≡ t)
            × (o ≡ some ((choose flavor b t o).1, flavor))
            × (core_less b.1 (choose flavor b t o).1 ≡ true))
  unfolding choose
  choose-cases none = inl refl
  choose-cases (some (c, fl)) = ground (arith, text_eq_iff fl flavor)

-- What the loop has found: nothing yet, or a tag of the stream newer than where it began.
abbrev Progress : Text → List Text → Text × Core → Text × Core → Type 0
Progress flavor ts b r = (r ≡ b) ⊎ (In r.0 ts × HasCore flavor r.1 r.0 × (core_less b.1 r.1 ≡ true))

best_of-le :
    (flavor : Text) (b : Text × Core) (ts : List Text)
    → core_less (best_of flavor b ts).1 b.1 ≡ false
unfolding best_of better
best_of-le flavor b [] = core_less_irrefl b.1
best_of-le flavor b (t ∷ ts) =
    core_le_trans b.1 (better flavor b t).1 (best_of flavor (better flavor b t) ts).1
      (choose-le flavor b t (tag_stream t)) (best_of-le flavor (better flavor b t) ts)

NotNewer-mono :
    (flavor : Text) (c d : Core) (t : Text)
    → core_less d c ≡ false
    → NotNewer flavor c t
    → NotNewer flavor d t
NotNewer-mono flavor c d t h k e q = core_le_trans e c d (k e q) h

best_of-NotNewer :
    (flavor : Text) (b : Text × Core) (ts : List Text)
    → All (NotNewer flavor (best_of flavor b ts).1) ts
unfolding best_of better
best_of-NotNewer flavor b [] = tt
best_of-NotNewer flavor b (t ∷ ts) = (
  NotNewer-mono flavor (better flavor b t).1 (best_of flavor (better flavor b t) ts).1 t
      (best_of-le flavor (better flavor b t) ts)
      (λ d e. choose-NotNewer flavor b t (tag_stream t) d e),
  best_of-NotNewer flavor (better flavor b t) ts,
)

Progress-step :
    (flavor t : Text) (ts : List Text) (b c r : Text × Core)
    → (c ≡ b) ⊎ ((c.0 ≡ t) × HasCore flavor c.1 t × (core_less b.1 c.1 ≡ true))
    → Progress flavor ts c r
    → Progress flavor (t ∷ ts) b r
Progress-step flavor t ts b c r (inl p) (inl q) = inl (q ∙ p)
Progress-step flavor t ts b c r (inl p) (inr (m, h, l)) =
    inr (there m, h, subst (λ x. core_less x.1 r.1 ≡ true) p l)
Progress-step flavor t ts b c r (inr (p, h, l)) (inl q) = inr (
  subst (λ x. In x (t ∷ ts)) (sym (ap (λ x. x.0) q ∙ p)) here,
  subst₂ (λ x y. HasCore flavor x y) (ap (λ x. x.1) (sym q)) (sym (ap (λ x. x.0) q ∙ p)) h,
  subst (λ x. core_less b.1 x.1 ≡ true) (sym q) l,
)
Progress-step flavor t ts b c r (inr (p, h, l)) (inr (m, k, n)) =
    inr (there m, k, core_less_trans b.1 c.1 r.1 l n)

best_of-Progress :
    (flavor : Text) (b : Text × Core) (ts : List Text) → Progress flavor ts b (best_of flavor b ts)
unfolding best_of
best_of-Progress flavor b [] = inl refl
best_of-Progress flavor b (t ∷ ts) =
    Progress-step flavor t ts b (better flavor b t) (best_of flavor (better flavor b t) ts)
      (unfold better in choose-cases flavor b t (tag_stream t))
      (best_of-Progress flavor (better flavor b t) ts)

found-some : (s t : Text) → found s ≡ some t → (s ≡ t) × (s ≢ [])
unfolding found
found-some [] t h = cc
found-some (c ∷ s) t h = (cc, λ e. cc)

found-none : (s : Text) → found s ≡ none → s ≡ []
unfolding found
found-none [] h = refl
found-none (c ∷ s) h = cc

-- The empty text is in no stream.
no_empty_tag : (flavor : Text) (c : Core) → HasCore flavor c [] → ⊥
unfolding tag_stream
no_empty_tag flavor c h = cc

-- What the text says of a tag that the scan returned: it stands in the list, it is of the stream of
-- the current tag and newer, and no tag of the list in that stream is newer still.
pub record IsNewest (cur : Text) (tags : List Text) (t : Text) : Type 0 where
  pub flavor : Text
  pub from : Core
  pub to : Core
  pub cur_core : HasCore flavor from cur
  pub listed : In t tags
  pub same_stream : HasCore flavor to t
  pub newer : core_less from to ≡ true
  pub newest : All (NotNewer flavor to) tags

IsNewest-of_loop :
    (cur t fl : Text) (c : Core) (tags : List Text)
    → HasCore fl c cur
    → found (best_of fl ([], c) tags).0 ≡ some t
    → IsNewest cur tags t
IsNewest-of_loop cur t fl c tags h e = elim (best_of-Progress fl ([], c) tags) [
  | inl q ↦ absurd ((found-some (best_of fl ([], c) tags).0 t e).1 (ap (λ x. x.0) q))
  | inr (m, k, l) ↦
      let same = (found-some (best_of fl ([], c) tags).0 t e).0 in
      record {
        flavor = fl;
        from = c;
        to = (best_of fl ([], c) tags).1;
        cur_core = h;
        listed = subst (λ x. In x tags) same m;
        same_stream = subst (λ x. HasCore fl (best_of fl ([], c) tags).1 x) same k;
        newer = l;
        newest = best_of-NotNewer fl ([], c) tags;
      }
]

stream_bind :
    (o : Option (Core × Text)) (tags : List Text) (t : Text)
    → (o >>= λ s. found (best_of s.1 ([], s.0) tags).0) ≡ some t
    → (c : Core) × (fl : Text) × (o ≡ some (c, fl)) × (found (best_of fl ([], c) tags).0 ≡ some t)
stream_bind none tags t h = cc
stream_bind (some (c, fl)) tags t h = (c, fl, refl, h)

-- A tag that `NewerSemverTag` returns stands in the list, belongs to the stream of the current
-- tag, is newer than the current tag, and no tag of that stream in the list is newer than it.
pub newer_semver_tag-IsNewest :
    (cur : Text) (tags : List Text) (t : Text)
    → newer_semver_tag cur tags ≡ some t
    → IsNewest cur tags t
newer_semver_tag-IsNewest cur tags t h =
    let (c, fl, e, f) = stream_bind (tag_stream cur) tags t (unfold newer_semver_tag in h) in
    IsNewest-of_loop cur t fl c tags e f

none_of_loop :
    (fl : Text) (c : Core) (tags : List Text)
    → found (best_of fl ([], c) tags).0 ≡ none
    → All (NotNewer fl c) tags
none_of_loop fl c tags e = elim (best_of-Progress fl ([], c) tags) [
  | inl q ↦ subst (λ x. All (NotNewer fl x.1) tags) q (best_of-NotNewer fl ([], c) tags)
  | inr (m, k, l) ↦ absurd (
      no_empty_tag fl (best_of fl ([], c) tags).1 (
        subst (λ x. HasCore fl (best_of fl ([], c) tags).1 x)
          (found-none (best_of fl ([], c) tags).0 e) k))
]

-- Where `NewerSemverTag` returns nothing for a current tag with a core, no tag of its stream in the
-- list is newer.
pub newer_semver_tag-none :
    (cur fl : Text) (c : Core) (tags : List Text)
    → HasCore fl c cur
    → newer_semver_tag cur tags ≡ none
    → All (NotNewer fl c) tags
newer_semver_tag-none cur fl c tags h e = none_of_loop fl c tags (
    subst (λ o. (o >>= λ s. found (best_of s.1 ([], s.0) tags).0) ≡ none) h
      (unfold newer_semver_tag in e))

-- What an answer of `NewerSemverTag` says, for a current tag of the core and the stream.
abbrev pub Tells : Text → Text → Core → List Text → Option Text → Type 0
Tells cur fl c tags none = All (NotNewer fl c) tags
Tells cur fl c tags (some t) = IsNewest cur tags t

-- For a current tag with a core, `NewerSemverTag` returns a tag of the list that belongs to the stream
-- of the current tag, is newer than it, and that no tag of the stream in the list is newer than; or it
-- returns nothing, and then no tag of the stream in the list is newer than the current tag.
pub newer_semver_tag-Tells :
    (cur fl : Text) (c : Core) (tags : List Text)
    → HasCore fl c cur
    → Tells cur fl c tags (newer_semver_tag cur tags)
newer_semver_tag-Tells cur fl c tags h = by_answer (newer_semver_tag cur tags) refl
  where
    by_answer : (o : Option Text) → newer_semver_tag cur tags ≡ o → Tells cur fl c tags o
    by_answer none e = newer_semver_tag-none cur fl c tags h e
    by_answer (some t) e = newer_semver_tag-IsNewest cur tags t e
