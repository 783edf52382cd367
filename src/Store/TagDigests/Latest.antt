-- ===== src/Store/TagDigests/Latest.antt =====
-- What a row of internal/store/tag_digests.go reads as behind a write.
use dockbrr.Common.{
  ◌≡◌, refl, sym, subst, ◌⊎◌, ap, ◌∙◌, true, false, ◌&&◌, some, [], Text, text_eq, text_eq_iff,
  text_eq_refl, any, find_present, find-edit_own, find-edit_other, if◌then◌else◌, arith, Bool-cases,
  inl, inr,
}
use dockbrr.Store.TagDigests.{Row, Table, at_key, digest_of, get, upsert, put}

upsert-own :
    (repo tag digest : Text) (t : Table) → get repo tag (upsert repo tag digest t) ≡ some digest
unfolding get upsert
upsert-own repo tag digest t = elim (Bool-cases (any (at_key repo tag) t)) [
  | inl e ↦
      let f = find_present (at_key repo tag) t e in
      rw (upsert, e)
        (ap digest_of (
          find-edit_own (at_key repo tag) (λ r. record r { digest = digest }) (λ x. refl) t f.0
            f.1))
  | inr e ↦ rw (upsert, e, text_eq_refl repo, text_eq_refl tag) refl
]

-- Two keys that differ are not both those of one row.
apart_keys :
    (repo tag repo' tag' : Text) (r : Row)
    → text_eq repo repo' && text_eq tag tag' ≡ false
    → at_key repo' tag' r ≡ true
    → at_key repo tag r ≡ false
apart_keys repo tag repo' tag' r h k = ground (
  arith,
  text_eq_iff r.repo repo,
  text_eq_iff r.repo repo',
  text_eq_iff r.tag tag,
  text_eq_iff r.tag tag',
  text_eq_iff repo repo',
  text_eq_iff tag tag',
)

upsert-other :
    (repo tag digest repo' tag' : Text) (t : Table)
    → text_eq repo repo' && text_eq tag tag' ≡ false
    → get repo' tag' (upsert repo tag digest t) ≡ get repo' tag' t
unfolding get upsert
upsert-other repo tag digest repo' tag' t h = elim (Bool-cases (any (at_key repo tag) t)) [
  | inl e ↦
      rw (upsert, e)
        (ap digest_of (
          find-edit_other (at_key repo' tag') (at_key repo tag) _ (λ x. refl)
            (λ x k. apart_keys repo tag repo' tag' x h k) t))
  | inr e ↦ rw (upsert, e, h) refl
]

-- What stands under a key behind a write of a digest that is not "": that digest under the key written,
-- and what stood there under any other.
pub get-put :
    (repo tag digest repo' tag' : Text) (t : Table)
    → text_eq digest [] ≡ false
    → get repo' tag' (put repo tag digest t)
      ≡ (if text_eq repo repo' && text_eq tag tag' then some digest else get repo' tag' t)
unfolding put
get-put repo tag digest repo' tag' t h =
    elim (Bool-cases (text_eq repo repo' && text_eq tag tag')) [
      | inr e ↦ rw (put, h, e) (upsert-other repo tag digest repo' tag' t e)
      | inl e ↦
          let both : (repo ≡ repo') × (tag ≡ tag') =
            ((text_eq_iff repo repo').0 (ground arith), (text_eq_iff tag tag').0 (ground arith)) in
          rw (put, h, e)
            (subst (λ x. get x tag' (upsert repo tag digest t) ≡ some digest) both.0
              (subst (λ y. get repo y (upsert repo tag digest t) ≡ some digest) both.1
                (upsert-own repo tag digest t)))
    ]

-- A row that is read behind a write was written, or was there.
pub get-put_cases :
    (repo tag d repo' tag' d' : Text) (t : Table)
    → get repo' tag' (put repo tag d t) ≡ some d'
    → ((repo ≡ repo') × (tag ≡ tag') × (d ≡ d')) ⊎ (get repo' tag' t ≡ some d')
unfolding put
get-put_cases repo tag d repo' tag' d' t e = elim (Bool-cases (text_eq d [])) [
  | inl z ↦ inr (sym (kept z) ∙ e)
  | inr z ↦ elim (Bool-cases (text_eq repo repo' && text_eq tag tag')) [
    | inl b ↦
        let read : some d ≡ some d' = sym (get-put repo tag d repo' tag' t z ∙ rw b refl) ∙ e in
        inl (
          (text_eq_iff repo repo').0 (ground arith),
          (text_eq_iff tag tag').0 (ground arith),
          cc read,
        )
    | inr b ↦ inr (sym (get-put repo tag d repo' tag' t z ∙ rw b refl) ∙ e)
  ]
]
  where
    kept : text_eq d [] ≡ true → get repo' tag' (put repo tag d t) ≡ get repo' tag' t
    kept z = rw (put, z) refl
