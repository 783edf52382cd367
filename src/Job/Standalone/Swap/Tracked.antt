-- ===== src/Job/Standalone/Swap/Tracked.antt =====
-- One container, as the Docker calls of internal/job/standalone.go leave it.
use dockbrr.Common.{
  ◌≡◌, refl, ap, ◌∙◌, inl, inr, Bool, true, false, Option, none, some, List, [], ◌∷◌, ◌++◌, Text,
  text_eq, if◌then◌else◌, text_eq_refl, by_cases,
}
use dockbrr.Job.Effects.{Answer, good, bad, Answer-cases}
use dockbrr.Job.Standalone.{
  World, leftover, recreating, restoring, Effect, stop, start, remove, rename, create, worked,
  aside,
}
use dockbrr.Job.Standalone.Swap.{
  clear_holder, clear_name_conflict, start_created, create_renamed, rename_stopped, stop_cleared,
  recreate, drop_new, restore_old,
}

-- A container that exists has a name, and runs or not.
pub data Place : Type 0 where
  removed : Place
  placed : Text → Bool → Place

abbrev pub run_state : Bool → Place → Place
run_state b removed = removed
run_state b (placed name _) = placed name b

abbrev pub name_state : Text → Place → Place
name_state name removed = removed
name_state name (placed _ b) = placed name b

-- What a call that worked does to the container with the id.
unfoldable pub moved : Text → Effect → Place → Place
moved id (stop i true) p = if text_eq i id then run_state false p else p
moved id (start i true) p = if text_eq i id then run_state true p else p
moved id (remove i true) p = if text_eq i id then removed else p
moved id (rename i name true) p = if text_eq i id then name_state name p else p
moved id _ p = p

unfoldable pub track : Text → List Effect → Place → Place
track id [] p = p
track id (e ∷ es) p = track id es (moved id e p)

pub track-append :
    (id : Text) (es fs : List Effect) (p : Place)
    → track id (es ++ fs) p ≡ track id fs (track id es p)
unfolding track
track-append id [] fs p = refl
track-append id (e ∷ es) fs p = track-append id es fs (moved id e p)

-- The effects leave the container alone.
abbrev pub Untouched : Text → List Effect → Type 0
Untouched id es = (p : Place) → track id es p ≡ p

pub Untouched-append :
    (id : Text) (es fs : List Effect) → Untouched id es → Untouched id fs → Untouched id (es ++ fs)
Untouched-append id es fs h k p = track-append id es fs p ∙ ap (track id fs) (h p) ∙ k p

-- The effects leave the container in existence.
abbrev pub Kept : Text → List Effect → Type 0
Kept id es =
    (n : Text) (b : Bool) → (m : Text) × (c : Bool) × (track id es (placed n b) ≡ placed m c)

Kept-cons :
    (id : Text) (e : Effect) (es : List Effect)
    → ((n : Text) (b : Bool) → (m : Text) × (c : Bool) × (moved id e (placed n b) ≡ placed m c))
    → Kept id es
    → Kept id (e ∷ es)
unfolding track
Kept-cons id e es h k n b =
    let a = h n b in let r = k a.0 a.1 in (r.0, r.1, ap (track id es) a.2 ∙ r.2)

Kept-append : (id : Text) (es fs : List Effect) → Kept id es → Kept id fs → Kept id (es ++ fs)
Kept-append id es fs h k n b =
    let a = h n b in
    let r = k a.0 a.1 in (r.0, r.1, track-append id es fs (placed n b) ∙ ap (track id fs) a.2 ∙ r.2)

-- The call leaves the container in existence.
abbrev KeptBy : Text → Effect → Type 0
KeptBy id e =
    (n : Text) (b : Bool) → (m : Text) × (c : Bool) × (moved id e (placed n b) ≡ placed m c)

either-placed :
    (t : Bool) (m n : Text) (c b : Bool)
    → (x : Text) × (y : Bool) × ((if t then placed m c else placed n b) ≡ placed x y)
either-placed true m n c b = (m, c, refl)
either-placed false m n c b = (n, b, refl)

stop-Kept : (id i : Text) (ok : Bool) → KeptBy id (stop i ok)
unfolding moved
stop-Kept id i true n b = either-placed (text_eq i id) n n false b
stop-Kept id i false n b = (n, b, refl)

start-Kept : (id i : Text) (ok : Bool) → KeptBy id (start i ok)
unfolding moved
start-Kept id i true n b = either-placed (text_eq i id) n n true b
start-Kept id i false n b = (n, b, refl)

rename-Kept : (id i m : Text) (ok : Bool) → KeptBy id (rename i m ok)
unfolding moved
rename-Kept id i m true n b = either-placed (text_eq i id) m n b b
rename-Kept id i m false n b = (n, b, refl)

create-Kept : (id j i n : Text) (o : Option Text) → KeptBy id (create j i n o)
unfolding moved
create-Kept id j i m o n b = (n, b, refl)

nil-Kept : (id : Text) → Kept id []
unfolding track
nil-Kept id n b = (n, b, refl)

Untouched-Kept : (id : Text) (es : List Effect) → Untouched id es → Kept id es
Untouched-Kept id es h n b = (n, b, h (placed n b))

-- A stop and a removal of another container.
pub pair-Untouched :
    (id i : Text) (a b : Bool) → text_eq i id ≡ false → Untouched id (stop i a ∷ remove i b ∷ [])
unfolding track moved
pair-Untouched id i true true h p = rw h refl
pair-Untouched id i true false h p = rw h refl
pair-Untouched id i false true h p = rw h refl
pair-Untouched id i false false h p = refl

module _ (w : World) where
  -- The clearing of a name never touches the container that is kept.
  clear_holder-Untouched :
      (id : Text) (a : Answer (Option Text)) → Untouched id (clear_holder w id a)
  unfolding clear_holder track
  clear_holder-Untouched id (bad e) = λ p. refl
  clear_holder-Untouched id (good none) = λ p. refl
  clear_holder-Untouched id (good (some i)) =
      by_cases
        (λ b. Untouched id (
          if b
          then []
          else stop i (worked (w.container_stop leftover i))
            ∷ remove i (worked (w.container_remove leftover i))
            ∷ []))
        (text_eq i id) (λ e p. refl)
        (λ e.
          pair-Untouched id i (worked (w.container_stop leftover i))
            (worked (w.container_remove leftover i)) e)

  clear-Untouched : (id want : Text) → Untouched id (clear_name_conflict w want id)
  unfolding clear_name_conflict
  clear-Untouched id want = clear_holder-Untouched id (w.id_by_name want)

  -- The creation, whatever comes of it, leaves the old container in existence.
  module _ (id : Text) where
    start_created-Kept : (new : Text) → Kept id (start_created w new).0
    unfolding start_created
    start_created-Kept new = elim (Answer-cases (w.container_start recreating new)) [
      | inl (_, e) ↦
          rw (start_created, e)
            (Kept-cons id (start new true) [] (start-Kept id new true) (nil-Kept id))
      | inr (_, e) ↦
          rw (start_created, e)
            (Kept-cons id (start new false) [] (start-Kept id new false) (nil-Kept id))
    ]

    create_renamed-Kept :
        (inspect image name : Text) → Kept id (create_renamed w inspect image name).0
    unfolding create_renamed
    create_renamed-Kept inspect image name =
        elim (Answer-cases (w.create_from_inspect inspect image name)) [
          | inl (new, e) ↦
              rw (create_renamed, e)
                (Kept-cons id (create inspect image name (some new)) _
                  (create-Kept id inspect image name (some new)) (start_created-Kept new))
          | inr (_, e) ↦
              rw (create_renamed, e)
                (Kept-cons id (create inspect image name none) []
                  (create-Kept id inspect image name none) (nil-Kept id))
        ]

    rename_stopped-Kept :
        (old inspect image name : Text) → Kept id (rename_stopped w old inspect image name).0
    unfolding rename_stopped
    rename_stopped-Kept old inspect image name =
        elim (Answer-cases (w.container_rename old (aside name))) [
          | inl (_, e) ↦
              rw (rename_stopped, e)
                (Kept-cons id (rename old (aside name) true) _
                  (rename-Kept id old (aside name) true) (create_renamed-Kept inspect image name))
          | inr (_, e) ↦
              rw (rename_stopped, e)
                (Kept-cons id (rename old (aside name) false) []
                  (rename-Kept id old (aside name) false) (nil-Kept id))
        ]

    stop_cleared-Kept :
        (old inspect image name : Text) → Kept id (stop_cleared w old inspect image name).0
    unfolding stop_cleared
    stop_cleared-Kept old inspect image name =
        elim (Answer-cases (w.container_stop recreating old)) [
          | inl (_, e) ↦
              rw (stop_cleared, e)
                (Kept-cons id (stop old true) _ (stop-Kept id old true)
                  (rename_stopped-Kept old inspect image name))
          | inr (_, e) ↦
              rw (stop_cleared, e)
                (Kept-cons id (stop old false) [] (stop-Kept id old false) (nil-Kept id))
        ]

    -- The recreation of a container leaves it in existence.
    pub recreate-Kept : (inspect image name : Text) → Kept id (recreate w id inspect image name).0
    unfolding recreate
    recreate-Kept inspect image name =
        Kept-append id (clear_name_conflict w (aside name) id) _
          (Untouched-Kept id (clear_name_conflict w (aside name) id)
            (clear-Untouched id (aside name)))
          (Kept-append id (clear_name_conflict w name id) _
            (Untouched-Kept id (clear_name_conflict w name id) (clear-Untouched id name))
            (stop_cleared-Kept id inspect image name))

    -- The removal of a new container that is another one.
    pub drop_new-Untouched : (new : Text) → text_eq new id ≡ false → Untouched id (drop_new w new)
    unfolding drop_new track
    drop_new-Untouched [] h = λ p. refl
    drop_new-Untouched (c ∷ new) h = pair-Untouched id (c ∷ new) _ _ h

    put_back :
        (name n : Text) (b : Bool)
        → track id (rename id name true ∷ start id true ∷ []) (placed n b) ≡ placed name true
    unfolding track moved
    put_back name n b = rw (text_eq_refl id) refl

    -- Put back, the container runs under its name, if the last rename and the last start work.
    pub restore_old-Home :
        (name new n : Text) (b : Bool)
        → Untouched id (drop_new w new)
        → w.container_rename id name ≡ good tt
        → w.container_start restoring id ≡ good tt
        → track id (restore_old w id name new) (placed n b) ≡ placed name true
    unfolding restore_old
    restore_old-Home name new n b other r s =
        track-append id (drop_new w new) _ (placed n b)
        ∙ (rw (other (placed n b), r, s) (put_back name n b))
