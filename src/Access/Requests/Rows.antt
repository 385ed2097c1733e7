-- ===== src/Access/Requests/Rows.antt =====
-- The rows that the updates of internal/store/grant_requests.go find and change.
use dbbat.Prelude.{
  ℕ, ◌+◌, ◌≡◌, ◌≢◌, refl, Bool, none, some, List, [], ◌∷◌, arith, ◌==◌, if◌then◌else◌, Bool-cases,
  inl, inr,
}
use dbbat.Prelude.Sums.{count}
use dbbat.Access.Requests.{GrantRequest, find_request, update_requests}

-- The change leaves the uid alone.
abbrev pub KeepsUid : (GrantRequest → GrantRequest) → Type 0
KeepsUid f = (r : GrantRequest) → (f r).uid ≡ r.uid

pub find-update :
    (uid : ℕ) (f : GrantRequest → GrantRequest) (requests : List GrantRequest) (r : GrantRequest)
    → KeepsUid f
    → find_request uid requests ≡ some r
    → find_request uid (update_requests uid f requests) ≡ some (f r)
unfolding find_request update_requests
find-update uid f [] r k h = absurd (ground arith)
find-update uid f (x ∷ requests) r k h = ground (arith, k x, find-update uid f requests r k)

pub find-update_other :
    (uid other : ℕ) (f : GrantRequest → GrantRequest) (requests : List GrantRequest)
    → KeepsUid f
    → other ≢ uid
    → find_request other (update_requests uid f requests) ≡ find_request other requests
unfolding find_request update_requests
find-update_other uid other f [] k n = refl
find-update_other uid other f (x ∷ requests) k n =
    ground (arith, k x, find-update_other uid other f requests k n)

pub find-update_none :
    (uid other : ℕ) (f : GrantRequest → GrantRequest) (requests : List GrantRequest)
    → KeepsUid f
    → find_request other requests ≡ none
    → find_request other (update_requests uid f requests) ≡ none
unfolding find_request update_requests
find-update_none uid other f [] k h = refl
find-update_none uid other f (x ∷ requests) k h =
    ground (arith, k x, find-update_none uid other f requests k)

pub update_none :
    (uid : ℕ) (f : GrantRequest → GrantRequest) (requests : List GrantRequest)
    → find_request uid requests ≡ none
    → update_requests uid f requests ≡ requests
unfolding find_request update_requests
update_none uid f [] h = refl
update_none uid f (x ∷ requests) h = ground (arith, update_none uid f requests)

pub find-uid :
    (uid : ℕ) (requests : List GrantRequest) (r : GrantRequest)
    → find_request uid requests ≡ some r
    → r.uid ≡ uid
unfolding find_request
find-uid uid [] r h = absurd (ground arith)
find-uid uid (x ∷ requests) r h = ground (arith, find-uid uid requests r)

-- The primary key: no uid stands twice.
abbrev pub UniqueUids : List GrantRequest → Type 0
UniqueUids [] = Unit
UniqueUids (r ∷ requests) = (find_request r.uid requests ≡ none) × UniqueUids requests

pub update-UniqueUids :
    (uid : ℕ) (f : GrantRequest → GrantRequest) (requests : List GrantRequest)
    → KeepsUid f
    → UniqueUids requests
    → UniqueUids (update_requests uid f requests)
unfolding update_requests
update-UniqueUids uid f [] k u = tt
update-UniqueUids uid f (x ∷ requests) k (n, u) =
    let rest = find-update_none uid x.uid f requests k n in
    elim (Bool-cases (x.uid == uid)) [
      | inl e ↦ rw (e, k x) (rest, update-UniqueUids uid f requests k u)
      | inr e ↦ rw e (rest, update-UniqueUids uid f requests k u)
    ]

-- Changing the one row of a uid changes a count by what it changes of that row.
pub count-update :
    (p : GrantRequest → Bool) (uid : ℕ) (f : GrantRequest → GrantRequest)
    (requests : List GrantRequest) (r : GrantRequest)
    → UniqueUids requests
    → find_request uid requests ≡ some r
    → count p (update_requests uid f requests) + (if p r then 1 else 0)
      ≡ count p requests + (if p (f r) then 1 else 0)
unfolding find_request update_requests count
count-update p uid f [] r u h = absurd (ground arith)
count-update p uid f (x ∷ requests) r (n, u) h = elim (Bool-cases (x.uid == uid)) [
  | inl e ↦ ground (arith, e, update_none uid f requests)
  | inr e ↦ ground (arith, e, count-update p uid f requests r u)
]
