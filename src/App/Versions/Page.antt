-- ===== src/App/Versions/Page.antt =====
-- What `rollbackCandidates` of internal/app/server.go offers, against the snapshots of the storage and
-- the entries of etcd.
use etcd_studio.Base.{
  ℕ, ◌≤◌, Bool, true, ◌&&◌, ◌≡◌, ◌⊎◌, inl, inr, refl, List, [], ◌∷◌, length, take, length-take-le,
  ltb, All, Elem, arith, if◌then◌else◌, ok, Bool-cases,
}
use mathlib.Core.Path.{subst}
use etcd_studio.Base.Int.{ℤ, ◌<ℤ◌}
use etcd_studio.Base.Sorting.{sort_slice}
use etcd_studio.Base.Sorting.Order.{Elem-All, All-Elem, Elem-take, sort_slice-Elem, All-sort_slice}
use etcd_studio.Base.Sorting.Descending.{
  above, IsDistinctBy, IsDescendingBy, IsDescendingBy-sort_slice, IsDescendingBy-take, take-rest,
}
use etcd_studio.Store.Types.{Entry, ValueSnapshot}
use etcd_studio.App.Versions.{
  Candidate, candidate_revision, Versions, stored_candidate, add_snapshots, add_entries,
  is_none_found, merge_candidates,
}
use etcd_studio.App.Versions.Candidates.{
  Covers, IsOffered, add_snapshots-IsDistinctBy, All-add_snapshots, add_snapshots-Covers,
  add_entries-keeps, add_entries-Covers, add_entries-IsDistinctBy, All-add_entries,
}

-- A revision is among the candidates, or the page is full, there is more, and all of it is newer.
abbrev pub IsReached : ℕ → List Candidate → Bool → ℤ → Type 0
IsReached limit page more r =
    Covers r page
    ⊎ (more ≡ true) × (length page ≡ limit) × All (λ c. r <ℤ candidate_revision c) page

-- A page of candidates: the newest first, no more than the limit, each offered by a source and the
-- storage's before etcd's, and whatever is left out is older.
pub record IsPage (limit : ℕ) (snapshots : List ValueSnapshot) (entries : List Entry)
    (page : List Candidate) (more : Bool) : Type 0 where
  pub offered : All (IsOffered snapshots entries) page
  pub descending : IsDescendingBy candidate_revision page
  pub bounded : length page ≤ limit
  pub snapshots_reached : All (λ s. IsReached limit page more s.entry.mod_revision) snapshots
  pub entries_reached : All (λ e. IsReached limit page more e.mod_revision) entries

abbrev found_in : List ValueSnapshot → List Entry → List Candidate
found_in snapshots entries = add_entries entries (add_snapshots snapshots [])

found_in-IsDistinctBy :
    (snapshots : List ValueSnapshot) (entries : List Entry)
    → IsDistinctBy candidate_revision (found_in snapshots entries)
found_in-IsDistinctBy snapshots entries =
    add_entries-IsDistinctBy entries (add_snapshots snapshots [])
      (add_snapshots-IsDistinctBy snapshots [] tt)

covered_by_storage :
    (snapshots : List ValueSnapshot) (s : ValueSnapshot)
    → Elem s snapshots
    → Covers s.entry.mod_revision (add_snapshots snapshots [])
covered_by_storage snapshots s there =
    Elem-All (λ (t : ValueSnapshot). Covers t.entry.mod_revision (add_snapshots snapshots []))
      snapshots s (add_snapshots-Covers snapshots []) there

found_in-IsOffered :
    (snapshots : List ValueSnapshot) (entries : List Entry)
    → All (IsOffered snapshots entries) (found_in snapshots entries)
found_in-IsOffered snapshots entries =
    All-add_entries snapshots entries entries (add_snapshots snapshots []) (λ e there. there)
      (covered_by_storage snapshots)
      (All-add_snapshots (IsOffered snapshots entries) snapshots []
        (All-Elem (λ (s : ValueSnapshot). IsOffered snapshots entries (stored_candidate s))
          snapshots (λ s there. inl (s, there, refl)))
        tt)

-- The page of a sorted list: all of it, or its first elements.
abbrev page_from : ℕ → List Candidate → List Candidate
page_from limit cs = if ltb limit (length cs) then take limit cs else cs

page_from-IsReached :
    (limit : ℕ) (found : List Candidate) (r : ℤ)
    → IsDistinctBy candidate_revision found
    → Covers r found
    → let sorted = sort_slice (above candidate_revision) found in
      IsReached limit (page_from limit sorted) (ltb limit (length sorted)) r
page_from-IsReached limit found r d (c, there, e) =
    let sorted = sort_slice (above candidate_revision) found in
    let order = IsDescendingBy-sort_slice candidate_revision found d in
    let there' = sort_slice-Elem (above candidate_revision) found c there in
    elim (Bool-cases (ltb limit (length sorted))) [
      | inr all ↦ rw all (inl (c, there', e))
      | inl cut ↦ elim (take-rest candidate_revision limit sorted c order there') [
        | inl kept ↦ rw cut (inl (c, kept, e))
        | inr (full, older) ↦ rw cut (
            inr (
              refl,
              full,
              subst (λ x. All (λ c'. x <ℤ candidate_revision c') (take limit sorted)) e older,
            ))
      ]
    ]

All-page_from :
    (P : Candidate → Type 0) (limit : ℕ) (cs : List Candidate)
    → All P cs
    → All P (page_from limit cs)
All-page_from P limit cs h = elim (Bool-cases (ltb limit (length cs))) [
  | inr all ↦ rw all h
  | inl cut ↦
      rw cut
        (All-Elem P (take limit cs) (λ c there. Elem-All P cs c h (Elem-take limit cs c there)))
]

page_from-IsDescendingBy :
    (limit : ℕ) (cs : List Candidate)
    → IsDescendingBy candidate_revision cs
    → IsDescendingBy candidate_revision (page_from limit cs)
page_from-IsDescendingBy limit cs h = elim (Bool-cases (ltb limit (length cs))) [
  | inr all ↦ rw all h
  | inl cut ↦ rw cut (IsDescendingBy-take candidate_revision limit cs h)
]

length-page_from-le : (limit : ℕ) (cs : List Candidate) → length (page_from limit cs) ≤ limit
length-page_from-le limit cs = ground (arith, length-take-le limit cs)

none_covered :
    (found : List Candidate) (r : ℤ)
    → is_none_found (sort_slice (above candidate_revision) found) ≡ true
    → Covers r found
    → ⊥
none_covered found r h (c, there, e) =
    elsewhere (sort_slice (above candidate_revision) found)
      (sort_slice-Elem (above candidate_revision) found c there) h
  where
    elsewhere : (cs : List Candidate) → Elem c cs → is_none_found cs ≡ true → ⊥
    elsewhere [] there' h' = there'
    elsewhere (d ∷ ds) there' h' = cc

-- Without a candidate both sources are empty.
nothing_found :
    (snapshots : List ValueSnapshot) (versions : Versions)
    → (is_none_found (sort_slice (above candidate_revision) (found_in snapshots versions.entries))
        && versions.compacted)
      ≡ true
    → (snapshots ≡ []) × (versions.entries ≡ []) × (versions.compacted ≡ true)
nothing_found snapshots versions h =
    let found = found_in snapshots versions.entries in
    let empty : is_none_found (sort_slice (above candidate_revision) found) ≡ true = ground arith in
    (
      no_snapshots snapshots (λ s there. none_covered found s.entry.mod_revision empty (
          add_entries-keeps s.entry.mod_revision versions.entries (add_snapshots snapshots [])
            (covered_by_storage snapshots s there))),
      no_entries versions.entries (λ e there. none_covered found e.mod_revision empty (
          Elem-All (λ (x : Entry). Covers x.mod_revision found) versions.entries e
            (add_entries-Covers versions.entries (add_snapshots snapshots [])) there)),
      ground arith,
    )
  where
    no_snapshots : (ss : List ValueSnapshot) → ((s : ValueSnapshot) → Elem s ss → ⊥) → ss ≡ []
    no_snapshots [] none' = refl
    no_snapshots (s ∷ ss) none' = absurd (none' s (inl refl))

    no_entries : (es : List Entry) → ((e : Entry) → Elem e es → ⊥) → es ≡ []
    no_entries [] none' = refl
    no_entries (e ∷ es) none' = absurd (none' e (inl refl))

-- Whatever the two sources have, a page of candidates is the newest first, no longer than the limit,
-- holds only what a source offers, an entry of etcd only where the storage has nothing at its revision,
-- and leaves out no revision of a source unless it is full of newer ones and says that there is more.
-- No page is returned only where both sources are empty and etcd has compacted.
pub merge_candidates-IsPage :
    (limit : ℕ) (snapshots : List ValueSnapshot) (versions : Versions)
    → ((page : List Candidate) × (more : Bool) × (merge_candidates limit snapshots versions
          ≡ ok (page, more))
        × IsPage limit snapshots versions.entries page more)
      ⊎ (snapshots ≡ []) × (versions.entries ≡ []) × (versions.compacted ≡ true)
unfolding merge_candidates
merge_candidates-IsPage limit snapshots versions =
    let found = found_in snapshots versions.entries in
    let sorted = sort_slice (above candidate_revision) found in
    let d = found_in-IsDistinctBy snapshots versions.entries in
    elim (Bool-cases (is_none_found sorted && versions.compacted)) [
      | inr some_found ↦ inl (
        page_from limit sorted,
        ltb limit (length sorted),
        rw some_found refl,
        record {
          offered = All-page_from (IsOffered snapshots versions.entries) limit sorted (
              All-sort_slice (above candidate_revision) (IsOffered snapshots versions.entries) found
                (found_in-IsOffered snapshots versions.entries));
          descending =
              page_from-IsDescendingBy limit sorted
                (IsDescendingBy-sort_slice candidate_revision found d);
          bounded = length-page_from-le limit sorted;
          snapshots_reached =
              All-Elem
                (λ (s : ValueSnapshot).
                  IsReached limit (page_from limit sorted) (ltb limit (length sorted))
                    s.entry.mod_revision)
                snapshots
                (λ s there. page_from-IsReached limit found s.entry.mod_revision d (
                  add_entries-keeps s.entry.mod_revision versions.entries
                    (add_snapshots snapshots []) (covered_by_storage snapshots s there)));
          entries_reached =
              All-Elem
                (λ (e : Entry).
                  IsReached limit (page_from limit sorted) (ltb limit (length sorted))
                    e.mod_revision)
                versions.entries
                (λ e there. page_from-IsReached limit found e.mod_revision d (
                  Elem-All (λ (x : Entry). Covers x.mod_revision found) versions.entries e
                    (add_entries-Covers versions.entries (add_snapshots snapshots [])) there));
        },
      )
      | inl nothing ↦ inr (nothing_found snapshots versions nothing)
    ]
