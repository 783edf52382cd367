-- ===== src/Common/Automaton.antt =====
-- Automata over lists of effects: `next` gives the stage behind an effect, `none` where the effect is
-- out of order.
use mathlib.Core.Path.{◌≡◌, refl, sym, ap, ◌∙◌}
use mathlib.Core.Option.{Option, none, some}
use mathlib.Core.List.{List, [], ◌∷◌, ◌++◌}

module _ {ℓ κ} {E : Type ℓ} {S : Type κ} (next : E → S → Option S) where
  -- The stage behind a list of effects.
  unfoldable pub follow : List E → Option S → Option S
  follow [] o = o
  follow (e ∷ es) none = none
  follow (e ∷ es) (some s) = follow es (next e s)

  follow-none : (es : List E) → follow es none ≡ none
  unfolding follow
  follow-none [] = refl
  follow-none (e ∷ es) = refl

  pub follow-append :
      (es fs : List E) (o : Option S) → follow (es ++ fs) o ≡ follow fs (follow es o)
  unfolding follow
  follow-append [] fs o = refl
  follow-append (e ∷ es) fs none = sym (follow-none fs)
  follow-append (e ∷ es) fs (some s) = follow-append es fs (next e s)

  -- The effects lead from one stage to the other.
  abbrev pub Leads : S → S → List E → Type κ
  Leads s s' es = follow es (some s) ≡ some s'

  pub Leads-append :
      (s s' s'' : S) (es fs : List E) → Leads s s' es → Leads s' s'' fs → Leads s s'' (es ++ fs)
  Leads-append s s' s'' es fs h k = follow-append es fs (some s) ∙ ap (follow fs) h ∙ k

  pub Leads-cons :
      (s s' s'' : S) (e : E) (es : List E)
      → next e s ≡ some s'
      → Leads s' s'' es
      → Leads s s'' (e ∷ es)
  unfolding follow
  Leads-cons s s' s'' e es h k = ap (follow es) h ∙ k

  pub Leads-nil : (s : S) → Leads s s []
  unfolding follow
  Leads-nil s = refl
