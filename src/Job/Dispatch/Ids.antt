-- ===== src/Job/Dispatch/Ids.antt =====
-- What the parsers of container ids in internal/job/dispatch.go return.
use dockbrr.Common.{
  ◌≡◌, ◌⊎◌, inl, inr, refl, ap, ◌∙◌, subst, ℕ, zero, suc, true, Option, none, some, List, [], ◌∷◌,
  ◌++◌, Text, text_eq, length, ==_iff, ◌==◌, All, In, here, there, arith, Bool-cases, Option-cases,
}
use dockbrr.Common.Strings.{has_prefix, split_on}
use dockbrr.Compose.Rewrite.Replace.{has_prefix-split}
use dockbrr.Compose.Rewrite.{drop_prefix}
use dockbrr.Job.Dispatch.{
  is_hex, hex_head, find_id, or_text, behind, marker, anchored, line_id, or_next, first_id,
  id_from_mountinfo, id_from_cgroup, all_hex, id_from_hostname,
}

-- So many hexadecimal digits.
abbrev pub IsHex : ℕ → Text → Type 0
IsHex n t = (length t ≡ n) × All (λ c. is_hex c ≡ true) t

hex_head-IsHex : (n : ℕ) (s r : Text) → hex_head n s ≡ some r → IsHex n r
unfolding hex_head
hex_head-IsHex zero s r h = let e : [] ≡ r = cc h in subst (IsHex 0) e (refl, tt)
hex_head-IsHex (suc n) [] r h = cc
hex_head-IsHex (suc n) (c ∷ s) r h = elim (Bool-cases (is_hex c)) [
  | inr e ↦ ground arith
  | inl e ↦ elim (Option-cases (hex_head n s)) [
    | inl k ↦ ground arith
    | inr (q, k) ↦
        let rest = hex_head-IsHex n s q k in
        let same : c ∷ q ≡ r = ground arith in
        subst (IsHex (suc n)) same (ap suc rest.0, (e, rest.1))
  ]
]

-- No id, or one of the length.
abbrev pub IdOrNone : ℕ → Text → Type 0
IdOrNone n t = (t ≡ []) ⊎ IsHex n t

or_text-IdOrNone :
    (s t : Text) (o : Option Text) → hex_head 64 s ≡ o → IdOrNone 64 t → IdOrNone 64 (or_text o t)
or_text-IdOrNone s t none e h = h
or_text-IdOrNone s t (some r) e h = inr (hex_head-IsHex 64 s r e)

find_id-IdOrNone : (s : Text) → IdOrNone 64 (find_id s)
unfolding find_id
find_id-IdOrNone [] = inl refl
find_id-IdOrNone (c ∷ s) =
    or_text-IdOrNone (c ∷ s) (find_id s) (hex_head 64 (c ∷ s)) refl (find_id-IdOrNone s)

or_next-holds : (P : Text → Type 0) (a b : Text) → P a → P b → P (or_next a b)
or_next-holds P [] b h k = k
or_next-holds P (c ∷ s) b h k = h

first_id-holds :
    (P : Text → Type 0) (f : Text → Text) (ls : List Text)
    → P []
    → ((l : Text) → In l ls → P (f l))
    → P (first_id f ls)
unfolding first_id
first_id-holds P f [] n h = n
first_id-holds P f (l ∷ ls) n h =
    or_next-holds P (f l) (first_id f ls) (h l here)
      (first_id-holds P f ls n (λ x m. h x (there m)))

-- The line has the id directly behind the marker.
pub record IsAnchored (lines : List Text) (id : Text) : Type 0 where
  pub line : Text
  pub pre : Text
  pub post : Text
  pub listed : In line lines
  pub written : line ≡ pre ++ (marker ++ (id ++ post))

behind-split :
    (m line rest : Text) → behind m line ≡ some rest → (pre : Text) × (line ≡ pre ++ (m ++ rest))
unfolding behind
behind-split m [] rest h = cc
behind-split m (c ∷ s) rest h = elim (Bool-cases (has_prefix (c ∷ s) m)) [
  | inl e ↦
      let same : drop_prefix (c ∷ s) m ≡ rest = ground arith in
      ([], has_prefix-split (c ∷ s) m e ∙ ap (λ x. m ++ x) same)
  | inr e ↦ let r = behind-split m s rest (ground arith) in (c ∷ r.0, ap (λ x. c ∷ x) r.1)
]

anchored_lem :
    (lines : List Text) (line pre rest id : Text)
    → In line lines
    → line ≡ pre ++ (marker ++ rest)
    → IdOrNone 64 id
    → (anchored rest id ≡ []) ⊎ (IsHex 64 (anchored rest id) × IsAnchored lines (anchored rest id))
unfolding anchored
anchored_lem lines line pre rest id m e (inl n) = inl (unfold text_eq in rw n refl)
anchored_lem lines line pre rest id m e (inr x) = elim (Bool-cases (has_prefix rest id)) [
  | inr q ↦ inl (ground arith)
  | inl q ↦ elim (Bool-cases (text_eq id [])) [
    | inl z ↦ inl (rw z refl)
    | inr z ↦
        rw (z, q)
          (inr (
            x,
            record {
              line = line;
              pre = pre;
              post = drop_prefix rest id;
              listed = m;
              written = e ∙ ap (λ y. pre ++ (marker ++ y)) (has_prefix-split rest id q);
            },
          ))
  ]
]

-- What one of the three parsers may return.
abbrev pub MountinfoAnswer : Text → Text → Type 0
MountinfoAnswer content id = (id ≡ []) ⊎ (IsHex 64 id × IsAnchored (split_on 10 content) id)

line_id_lem :
    (lines : List Text) (line : Text)
    → In line lines
    → (line_id line ≡ []) ⊎ (IsHex 64 (line_id line) × IsAnchored lines (line_id line))
unfolding line_id
line_id_lem lines line m = elim (Option-cases (behind marker line)) [
  | inl e ↦ rw (line_id, e) (inl refl)
  | inr (rest, e) ↦
      let r = behind-split marker line rest e in
      rw (line_id, e)
        (anchored_lem lines line r.0 rest (find_id rest) m r.1 (find_id-IdOrNone rest))
]

all_hex-All : (s : Text) → all_hex s ≡ true → All (λ c. is_hex c ≡ true) s
unfolding all_hex
all_hex-All [] h = tt
all_hex-All (c ∷ s) h = (ground arith, all_hex-All s (ground arith))

hostname_lem : (host : Text) → IdOrNone 12 (id_from_hostname host)
unfolding id_from_hostname
hostname_lem host = elim (Bool-cases (length host == 12)) [
  | inr e ↦ rw e (inl refl)
  | inl e ↦ elim (Bool-cases (all_hex host)) [
    | inr k ↦ rw (e, k) (inl refl)
    | inl k ↦ rw (e, k) (inr ((==_iff (length host) 12).0 e, all_hex-All host k))
  ]
]

-- The parsers return the empty text or an id: of mountinfo 64 hexadecimal digits that stand on a line
-- directly behind "/containers/", of the cgroup 64 digits, of the hostname 12 digits.
pub container_ids_lem :
    (mountinfo cgroup host : Text)
    → MountinfoAnswer mountinfo (id_from_mountinfo mountinfo)
      × IdOrNone 64 (id_from_cgroup cgroup)
      × IdOrNone 12 (id_from_hostname host)
unfolding id_from_mountinfo id_from_cgroup
container_ids_lem mountinfo cgroup host = (
  first_id-holds (MountinfoAnswer mountinfo) line_id (split_on 10 mountinfo) (inl refl)
      (λ l m. line_id_lem (split_on 10 mountinfo) l m),
  first_id-holds (IdOrNone 64) find_id (split_on 10 cgroup) (inl refl) (λ l m. find_id-IdOrNone l),
  hostname_lem host,
)
