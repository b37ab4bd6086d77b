-- ===== src/Endpoint/Directory/Order.antt =====
-- The order in which the directories of an endpoint are tried: `sort_by_key` of the candidates.
use sarena.Prelude.{
  ℕ, ◌≡◌, refl, ap, ◌∙◌, inl, inr, ◌≤◌, ◌<◌, Bool, false, ◌||◌, List, [], ◌∷◌, arith, leb, ◌==◌,
  nat_eq, Bool-cases, All, any, leb→le, leb-false→lt,
}
use sarena.Endpoint.Directory.{DirKind, current, next, backup, next_failed}
use sarena.Endpoint.Directory.Files.{name_eq}
use sarena.Endpoint.Directory.Restore.{Candidate, rank, insert_by_key, sort_by_key}

abbrev pub has : DirKind → List Candidate → Bool
has kind cs = any (λ c. rank c.0 == rank kind) cs

abbrev pub Sorted : List Candidate → Type 0
Sorted [] = Unit {0}
Sorted (c ∷ cs) = All (λ d. rank c.0 ≤ rank d.0) cs × Sorted cs

pub rank-injective : (k k' : DirKind) → rank k ≡ rank k' → k ≡ k'
rank-injective current current e = refl
rank-injective next next e = refl
rank-injective backup backup e = refl
rank-injective next_failed next_failed e = refl
rank-injective current next e = absurd (omega arith)
rank-injective current backup e = absurd (omega arith)
rank-injective current next_failed e = absurd (omega arith)
rank-injective next current e = absurd (omega arith)
rank-injective next backup e = absurd (omega arith)
rank-injective next next_failed e = absurd (omega arith)
rank-injective backup current e = absurd (omega arith)
rank-injective backup next e = absurd (omega arith)
rank-injective backup next_failed e = absurd (omega arith)
rank-injective next_failed current e = absurd (omega arith)
rank-injective next_failed next e = absurd (omega arith)
rank-injective next_failed backup e = absurd (omega arith)

has-insert_by_key :
    (k : DirKind) (c : Candidate) (cs : List Candidate)
    → has k (insert_by_key c cs) ≡ ((rank c.0 == rank k) || has k cs)
unfolding insert_by_key
has-insert_by_key k c [] = refl
has-insert_by_key k c (d ∷ cs) = ground (arith, has-insert_by_key k c cs)

All-insert_by_key :
    (P : Candidate → Type 0) (c : Candidate) (cs : List Candidate)
    → P c
    → All P cs
    → All P (insert_by_key c cs)
unfolding insert_by_key
All-insert_by_key P c [] h all = (h, tt)
All-insert_by_key P c (d ∷ cs) h all = elim (Bool-cases (leb (rank c.0) (rank d.0))) [
  | inl e ↦ rw e (h, all)
  | inr e ↦ rw e (all.0, All-insert_by_key P c cs h all.1)
]

All-le_trans :
    (m n : ℕ) (cs : List Candidate)
    → m ≤ n
    → All (λ d. n ≤ rank d.0) cs
    → All (λ d. m ≤ rank d.0) cs
All-le_trans m n [] le all = tt
All-le_trans m n (d ∷ cs) le all = (omega (arith, all.0), All-le_trans m n cs le all.1)

insert_by_key-Sorted :
    (c : Candidate) (cs : List Candidate) → Sorted cs → Sorted (insert_by_key c cs)
unfolding insert_by_key
insert_by_key-Sorted c [] s = (tt, tt)
insert_by_key-Sorted c (d ∷ cs) s = elim (Bool-cases (leb (rank c.0) (rank d.0))) [
  | inl e ↦
      let le = leb→le (rank c.0) (rank d.0) e in
      rw e ((le, All-le_trans (rank c.0) (rank d.0) cs le s.0), s)
  | inr e ↦
      let lt = leb-false→lt (rank c.0) (rank d.0) e in
      rw e (
        All-insert_by_key (λ x. rank d.0 ≤ rank x.0) c cs (omega arith) s.0,
        insert_by_key-Sorted c cs s.1,
      )
]

pub sort_by_key-Sorted : (cs : List Candidate) → Sorted (sort_by_key cs)
unfolding sort_by_key
sort_by_key-Sorted [] = tt
sort_by_key-Sorted (c ∷ cs) = insert_by_key-Sorted c (sort_by_key cs) (sort_by_key-Sorted cs)

pub has-sort_by_key : (k : DirKind) (cs : List Candidate) → has k (sort_by_key cs) ≡ has k cs
unfolding sort_by_key
has-sort_by_key k [] = refl
has-sort_by_key k (c ∷ cs) =
    has-insert_by_key k c (sort_by_key cs)
    ∙ ap (λ b. (rank c.0 == rank k) || b) (has-sort_by_key k cs)

pub All-sort_by_key :
    (P : Candidate → Type 0) (cs : List Candidate) → All P cs → All P (sort_by_key cs)
unfolding sort_by_key
All-sort_by_key P [] all = tt
All-sort_by_key P (c ∷ cs) all =
    All-insert_by_key P c (sort_by_key cs) all.0 (All-sort_by_key P cs all.1)

-- A kind before the first of a sorted list is not in it.
pub has-below :
    (k : DirKind) (m : ℕ) (cs : List Candidate)
    → rank k < m
    → All (λ d. m ≤ rank d.0) cs
    → has k cs ≡ false
has-below k m [] lt all = refl
has-below k m (d ∷ cs) lt all = ground (arith, has-below k m cs lt all.1, all.0)
