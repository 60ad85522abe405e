-- ===== src/App/Versions/Candidates.antt =====
-- The map by revision that `rollbackCandidates` of internal/app/server.go fills from the snapshots of the
-- storage and the entries of etcd.
use etcd_studio.Base.{
  true, false, ◌≡◌, ◌≢◌, ◌⊎◌, inl, inr, refl, sym, ap, ◌∙◌, List, [], ◌∷◌, All, Elem, arith,
  if◌then◌else◌, Bool-cases,
}
use etcd_studio.Base.Int.{ℤ, eqb_ℤ, eqb_ℤ→eq}
use etcd_studio.Base.Sorting.Order.{Elem-All, All-Elem}
use etcd_studio.Base.Sorting.Descending.{IsDistinctBy}
use etcd_studio.Store.Types.{Entry, ValueSnapshot}
use etcd_studio.App.Versions.{
  Candidate, candidate_revision, put_candidate, has_revision, stored_candidate, etcd_candidate,
  add_snapshots, add_entries,
}

-- A candidate of a list has the revision.
abbrev pub Covers : ℤ → List Candidate → Type 0
Covers revision cs = (c : Candidate) × Elem c cs × (candidate_revision c ≡ revision)

All-put_candidate :
    (P : Candidate → Type 0) (c : Candidate) (ds : List Candidate)
    → P c
    → All P ds
    → All P (put_candidate c ds)
All-put_candidate P c [] p h = (p, tt)
All-put_candidate P c (d ∷ ds) p h = ground (arith, All-put_candidate P c ds p h.1)

put_candidate-IsDistinctBy :
    (c : Candidate) (ds : List Candidate)
    → IsDistinctBy candidate_revision ds
    → IsDistinctBy candidate_revision (put_candidate c ds)
put_candidate-IsDistinctBy c [] h = (tt, tt)
put_candidate-IsDistinctBy c (d ∷ ds) h =
    elim (Bool-cases (eqb_ℤ (candidate_revision d) (candidate_revision c))) [
      | inl same ↦
          let e = eqb_ℤ→eq (candidate_revision d) (candidate_revision c) same in rw same (rw e at h)
      | inr other ↦
          let ne : candidate_revision c ≢ candidate_revision d = λ e. ground arith in
          rw other (
            All-put_candidate (λ x. candidate_revision x ≢ candidate_revision d) c ds ne h.0,
            put_candidate-IsDistinctBy c ds h.1,
          )
    ]

put_candidate-Covers-own :
    (c : Candidate) (ds : List Candidate) → Covers (candidate_revision c) (put_candidate c ds)
put_candidate-Covers-own c [] = (c, inl refl, refl)
put_candidate-Covers-own c (d ∷ ds) =
    elim (Bool-cases (eqb_ℤ (candidate_revision d) (candidate_revision c))) [
      | inl same ↦ rw same (c, inl refl, refl)
      | inr other ↦ let (x, there, e) = put_candidate-Covers-own c ds in rw other (x, inr there, e)
    ]

put_candidate-Covers :
    (r : ℤ) (c : Candidate) (ds : List Candidate) → Covers r ds → Covers r (put_candidate c ds)
put_candidate-Covers r c [] (x, there, e) = absurd there
put_candidate-Covers r c (d ∷ ds) (x, there, e) =
    elim (Bool-cases (eqb_ℤ (candidate_revision d) (candidate_revision c))) [
      | inl same ↦ elim there [
        | inl here ↦ rw same (
          c,
          inl refl,
          sym (eqb_ℤ→eq (candidate_revision d) (candidate_revision c) same)
              ∙ ap candidate_revision (sym here)
              ∙ e,
        )
        | inr later ↦ rw same (x, inr later, e)
      ]
      | inr other ↦ elim there [
        | inl here ↦ rw other (x, inl here, e)
        | inr later ↦
            let (y, there', e') = put_candidate-Covers r c ds (x, later, e) in
            rw other (y, inr there', e')
      ]
    ]

-- A candidate is a snapshot of the storage, or an entry of etcd at a revision that no snapshot has.
abbrev pub IsOffered : List ValueSnapshot → List Entry → Candidate → Type 0
IsOffered snapshots entries c =
    ((s : ValueSnapshot) × Elem s snapshots × (c ≡ stored_candidate s))
    ⊎ ((e : Entry) × Elem e entries
        × (c ≡ etcd_candidate e)
        × All (λ s. s.entry.mod_revision ≢ e.mod_revision) snapshots)

pub add_snapshots-IsDistinctBy :
    (ss : List ValueSnapshot) (cs : List Candidate)
    → IsDistinctBy candidate_revision cs
    → IsDistinctBy candidate_revision (add_snapshots ss cs)
unfolding add_snapshots
add_snapshots-IsDistinctBy [] cs h = h
add_snapshots-IsDistinctBy (s ∷ ss) cs h =
    add_snapshots-IsDistinctBy ss (put_candidate (stored_candidate s) cs)
      (put_candidate-IsDistinctBy (stored_candidate s) cs h)

pub All-add_snapshots :
    (P : Candidate → Type 0) (ss : List ValueSnapshot) (cs : List Candidate)
    → All (λ s. P (stored_candidate s)) ss
    → All P cs
    → All P (add_snapshots ss cs)
unfolding add_snapshots
All-add_snapshots P [] cs p h = h
All-add_snapshots P (s ∷ ss) cs p h =
    All-add_snapshots P ss (put_candidate (stored_candidate s) cs) p.1
      (All-put_candidate P (stored_candidate s) cs p.0 h)

add_snapshots-keeps :
    (r : ℤ) (ss : List ValueSnapshot) (cs : List Candidate)
    → Covers r cs
    → Covers r (add_snapshots ss cs)
unfolding add_snapshots
add_snapshots-keeps r [] cs h = h
add_snapshots-keeps r (s ∷ ss) cs h =
    add_snapshots-keeps r ss (put_candidate (stored_candidate s) cs)
      (put_candidate-Covers r (stored_candidate s) cs h)

pub add_snapshots-Covers :
    (ss : List ValueSnapshot) (cs : List Candidate)
    → All (λ s. Covers s.entry.mod_revision (add_snapshots ss cs)) ss
unfolding add_snapshots
add_snapshots-Covers [] cs = tt
add_snapshots-Covers (s ∷ ss) cs =
    let cs' = put_candidate (stored_candidate s) cs in
    (
      add_snapshots-keeps s.entry.mod_revision ss cs'
          (put_candidate-Covers-own (stored_candidate s) cs),
      add_snapshots-Covers ss cs',
    )

has_revision-Covers :
    (r : ℤ) (cs : List Candidate)
    → (has_revision r cs ≡ true) × Covers r cs
      ⊎ (has_revision r cs ≡ false) × All (λ c. candidate_revision c ≢ r) cs
has_revision-Covers r [] = inr (refl, tt)
has_revision-Covers r (c ∷ cs) = elim (Bool-cases (eqb_ℤ (candidate_revision c) r)) [
  | inl same ↦ inl (rw same refl, (c, inl refl, eqb_ℤ→eq (candidate_revision c) r same))
  | inr other ↦ elim (has_revision-Covers r cs) [
    | inl (has, (x, there, e)) ↦ inl (rw other has, (x, inr there, e))
    | inr (lacks, none) ↦ inr (rw other lacks, (λ e. ground arith, none))
  ]
]

-- The list after one entry of etcd.
abbrev with_etcd : Entry → List Candidate → List Candidate
with_etcd e cs = if has_revision e.mod_revision cs then cs else put_candidate (etcd_candidate e) cs

with_etcd-IsDistinctBy :
    (e : Entry) (cs : List Candidate)
    → IsDistinctBy candidate_revision cs
    → IsDistinctBy candidate_revision (with_etcd e cs)
with_etcd-IsDistinctBy e cs h = elim (Bool-cases (has_revision e.mod_revision cs)) [
  | inl has ↦ rw has h
  | inr lacks ↦ rw lacks (put_candidate-IsDistinctBy (etcd_candidate e) cs h)
]

with_etcd-keeps :
    (r : ℤ) (e : Entry) (cs : List Candidate) → Covers r cs → Covers r (with_etcd e cs)
with_etcd-keeps r e cs h = elim (Bool-cases (has_revision e.mod_revision cs)) [
  | inl has ↦ rw has h
  | inr lacks ↦ rw lacks (put_candidate-Covers r (etcd_candidate e) cs h)
]

with_etcd-Covers : (e : Entry) (cs : List Candidate) → Covers e.mod_revision (with_etcd e cs)
with_etcd-Covers e cs = elim (has_revision-Covers e.mod_revision cs) [
  | inl (has, h) ↦ rw has h
  | inr (lacks, none) ↦ rw lacks (put_candidate-Covers-own (etcd_candidate e) cs)
]

-- A revision that some candidate has is not one that none has.
apart :
    (r : ℤ) (cs : List Candidate) (x : ℤ)
    → All (λ c. candidate_revision c ≢ r) cs
    → Covers x cs
    → x ≢ r
apart r cs x none (c, there, e) same =
    Elem-All (λ c. candidate_revision c ≢ r) cs c none there (e ∙ same)

All-with_etcd :
    (snapshots : List ValueSnapshot) (entries : List Entry) (e : Entry) (cs : List Candidate)
    → Elem e entries
    → ((s : ValueSnapshot) → Elem s snapshots → Covers s.entry.mod_revision cs)
    → All (IsOffered snapshots entries) cs
    → All (IsOffered snapshots entries) (with_etcd e cs)
All-with_etcd snapshots entries e cs own covered h = elim (has_revision-Covers e.mod_revision cs) [
  | inl (has, _) ↦ rw has h
  | inr (lacks, none) ↦
      let fresh : All (λ s. s.entry.mod_revision ≢ e.mod_revision) snapshots =
        All-Elem (λ (s : ValueSnapshot). s.entry.mod_revision ≢ e.mod_revision) snapshots
          (λ s there. apart e.mod_revision cs s.entry.mod_revision none (covered s there)) in
      rw lacks (
        All-put_candidate (IsOffered snapshots entries) (etcd_candidate e) cs
          (inr (e, own, refl, fresh)) h)
]

pub add_entries-keeps :
    (r : ℤ) (es : List Entry) (cs : List Candidate) → Covers r cs → Covers r (add_entries es cs)
unfolding add_entries
add_entries-keeps r [] cs h = h
add_entries-keeps r (e ∷ es) cs h =
    add_entries-keeps r es (with_etcd e cs) (with_etcd-keeps r e cs h)

pub add_entries-Covers :
    (es : List Entry) (cs : List Candidate)
    → All (λ e. Covers e.mod_revision (add_entries es cs)) es
unfolding add_entries
add_entries-Covers [] cs = tt
add_entries-Covers (e ∷ es) cs = (
  add_entries-keeps e.mod_revision es (with_etcd e cs) (with_etcd-Covers e cs),
  add_entries-Covers es (with_etcd e cs),
)

pub add_entries-IsDistinctBy :
    (es : List Entry) (cs : List Candidate)
    → IsDistinctBy candidate_revision cs
    → IsDistinctBy candidate_revision (add_entries es cs)
unfolding add_entries
add_entries-IsDistinctBy [] cs h = h
add_entries-IsDistinctBy (e ∷ es) cs h =
    add_entries-IsDistinctBy es (with_etcd e cs) (with_etcd-IsDistinctBy e cs h)

pub All-add_entries :
    (snapshots : List ValueSnapshot) (entries es : List Entry) (cs : List Candidate)
    → ((e : Entry) → Elem e es → Elem e entries)
    → ((s : ValueSnapshot) → Elem s snapshots → Covers s.entry.mod_revision cs)
    → All (IsOffered snapshots entries) cs
    → All (IsOffered snapshots entries) (add_entries es cs)
unfolding add_entries
All-add_entries snapshots entries [] cs own covered h = h
All-add_entries snapshots entries (e ∷ es) cs own covered h =
    All-add_entries snapshots entries es (with_etcd e cs) (λ x there. own x (inr there))
      (λ s there. with_etcd-keeps s.entry.mod_revision e cs (covered s there))
      (All-with_etcd snapshots entries e cs (own e (inl refl)) covered h)
