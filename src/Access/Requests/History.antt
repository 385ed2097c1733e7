-- ===== src/Access/Requests/History.antt =====
-- What holds of every sequence of the operations of internal/store/grant_requests.go, and of those that
-- create or revoke a grant.
use dbbat.Prelude.{
  ℕ, ◌≡◌, ◌≢◌, refl, ap, ◌∙◌, true, false, none, some, List, [], ◌∷◌, arith, ◌+◌, ◌==◌, length,
  Bool-cases, inl, inr,
}
use dbbat.Prelude.Sums.{count}
use dbbat.Access.Grants.{Grant}
use dbbat.Access.Requests.{GrantRequest, Store, is_pending, find_request, update_requests}
use dbbat.Access.Requests.Rows.{
  UniqueUids, find-update, find-update_other, update-UniqueUids, count-update,
}
use dbbat.Access.Requests.Steps.{
  Op, is_approved, Annotates, step, run, approved_in, SameDecision, Steps, stays, creates, approves,
  closes, annotates, grants, revokes, step-StepsTo, created, all_created,
}

-- No uid stands twice among the requests, and there is one grant for each approved request, and `n`
-- others.
abbrev pub Balanced : ℕ → List GrantRequest → List Grant → Type 0
Balanced n rs gs = UniqueUids rs × (count approved_in rs + n ≡ length gs)

not_approved : (r : GrantRequest) → is_pending r.status ≡ true → approved_in r ≡ false
not_approved r h = ground arith

count-Annotates :
    (uid : ℕ) (f : GrantRequest → GrantRequest) (rs : List GrantRequest)
    → Annotates f
    → count approved_in (update_requests uid f rs) ≡ count approved_in rs
unfolding update_requests count
count-Annotates uid f [] a = refl
count-Annotates uid f (r ∷ rs) a =
    ground (arith, ap is_approved (a r).0, count-Annotates uid f rs a)

Steps-Balanced :
    (k n : ℕ) (rs : List GrantRequest) (gs : List Grant) (rs' : List GrantRequest)
    (gs' : List Grant)
    → Steps k rs gs rs' gs'
    → Balanced n rs gs
    → Balanced (k + n) rs' gs'
Steps-Balanced k n rs gs rs' gs' stays (u, b) = (u, omega (arith, b))
Steps-Balanced k n rs gs rs' gs' (creates r fresh waits) (u, e) =
    ((fresh, u), unfold count in rw (not_approved r waits) (omega (arith, e)))
Steps-Balanced k n rs gs rs' gs' (approves uid r g f e waits same d) (u, b) = (
  update-UniqueUids uid f rs same u,
  ground (arith, count-update approved_in uid f rs r u e, not_approved r waits, (d r).1, b),
)
Steps-Balanced k n rs gs rs' gs' (closes uid r f e waits same d) (u, b) = (
  update-UniqueUids uid f rs same u,
  ground (arith, count-update approved_in uid f rs r u e, not_approved r waits, (d r).1, b),
)
Steps-Balanced k n rs gs rs' gs' (annotates uid f same a) (u, b) =
    (update-UniqueUids uid f rs same u, omega (arith, count-Annotates uid f rs a, b))
Steps-Balanced k n rs gs rs' gs' (grants g) (u, b) = (u, omega (arith, b))
Steps-Balanced k n rs gs rs' gs' (revokes same) (u, b) = (u, omega (arith, same, b))

step-Balanced :
    (op : Op) (n : ℕ) (s : Store)
    → Balanced n s.requests s.grants
    → Balanced (created op s + n) (step op s).requests (step op s).grants
step-Balanced op n s b = Steps-Balanced _ n _ _ _ _ (step-StepsTo op s) b

-- Whatever operations are made on the requests, and whatever grants are created or revoked by
-- `CreateGrant` and `RevokeGrant` among them, from tables where it holds: no two requests have one uid,
-- and there are as many grants as approved requests and successful calls of `CreateGrant`, with the
-- `n` that were there before. So a decision never creates a second grant.
pub run-Balanced :
    (ops : List Op) (n : ℕ) (s : Store)
    → Balanced n s.requests s.grants
    → Balanced (all_created ops s + n) (run ops s).requests (run ops s).grants
unfolding run all_created
run-Balanced [] n s (u, b) = (u, omega (arith, b))
run-Balanced (op ∷ ops) n s b =
    let m = created op s in
    let (u, e) = run-Balanced ops (m + n) (step op s) (step-Balanced op n s b) in
    (u, omega (arith, e))

-- The request is in the table, with the same decision.
abbrev pub Keeps : ℕ → GrantRequest → List GrantRequest → Type 0
Keeps uid r rs = (q : GrantRequest) × (find_request uid rs ≡ some q) × SameDecision r q

SameDecision-trans : (r q p : GrantRequest) → SameDecision r q → SameDecision q p → SameDecision r p
SameDecision-trans r q p (a, b, c, d, e, f, g, h) (a', b', c', d', e', f', g', h') =
    (a' ∙ a, b' ∙ b, c' ∙ c, d' ∙ d, e' ∙ e, f' ∙ f, g' ∙ g, h' ∙ h)

find_cons :
    (uid : ℕ) (q r : GrantRequest) (rs : List GrantRequest)
    → find_request q.uid rs ≡ none
    → find_request uid rs ≡ some r
    → find_request uid (q ∷ rs) ≡ some r
unfolding find_request
find_cons uid q r rs fresh e = ground arith

decides_other :
    (uid other : ℕ) (r q : GrantRequest) (rs : List GrantRequest)
    → find_request uid rs ≡ some r
    → is_pending r.status ≡ true
    → find_request other rs ≡ some q
    → is_pending q.status ≡ false
    → other ≢ uid
decides_other uid other r q rs e waits e' decided = ground arith

Steps-Keeps :
    (k : ℕ) (rs : List GrantRequest) (gs : List Grant) (rs' : List GrantRequest) (gs' : List Grant)
    (uid : ℕ) (r : GrantRequest)
    → Steps k rs gs rs' gs'
    → find_request uid rs ≡ some r
    → is_pending r.status ≡ false
    → Keeps uid r rs'
Steps-Keeps k rs gs rs' gs' uid r stays e d =
    (r, e, (refl, refl, refl, refl, refl, refl, refl, refl))
Steps-Keeps k rs gs rs' gs' uid r (creates q fresh waits) e d =
    (r, find_cons uid q r rs fresh e, (refl, refl, refl, refl, refl, refl, refl, refl))
Steps-Keeps k rs gs rs' gs' uid r (approves other q g f e' waits uids _) e d =
    let n = decides_other other uid q r rs e' waits e d in
    (
      r,
      find-update_other other uid f rs uids n ∙ e,
      (refl, refl, refl, refl, refl, refl, refl, refl),
    )
Steps-Keeps k rs gs rs' gs' uid r (closes other q f e' waits uids _) e d =
    let n = decides_other other uid q r rs e' waits e d in
    (
      r,
      find-update_other other uid f rs uids n ∙ e,
      (refl, refl, refl, refl, refl, refl, refl, refl),
    )
Steps-Keeps k rs gs rs' gs' uid r (annotates other f uids a) e d =
    let same : SameDecision r r = (refl, refl, refl, refl, refl, refl, refl, refl) in
    elim (Bool-cases (uid == other)) [
      | inl here ↦
          let e' : find_request other rs ≡ some r = ground (arith, here) in
          let found : find_request uid (update_requests other f rs) ≡ some (f r) =
            ground (arith, here, find-update other f rs r uids e') in
          (f r, found, a r)
      | inr there ↦
          let n : uid ≢ other = ground (arith, there) in
          (r, find-update_other other uid f rs uids n ∙ e, same)
    ]
Steps-Keeps k rs gs rs' gs' uid r (grants g) e d =
    (r, e, (refl, refl, refl, refl, refl, refl, refl, refl))
Steps-Keeps k rs gs rs' gs' uid r (revokes n) e d =
    (r, e, (refl, refl, refl, refl, refl, refl, refl, refl))

-- Once a request is decided, no sequence of operations loses it or changes who decided what and
-- when, the grant that came of it, or what was asked.
pub run-Keeps :
    (ops : List Op) (s : Store) (uid : ℕ) (r : GrantRequest)
    → find_request uid s.requests ≡ some r
    → is_pending r.status ≡ false
    → Keeps uid r (run ops s).requests
unfolding run
run-Keeps [] s uid r e d = (r, e, (refl, refl, refl, refl, refl, refl, refl, refl))
run-Keeps (op ∷ ops) s uid r e d =
    let (q, found, same) = Steps-Keeps _ _ _ _ _ uid r (step-StepsTo op s) e d in
    let decided : is_pending q.status ≡ false = ap is_pending same.0 ∙ d in
    let (q', found', same') = run-Keeps ops (step op s) uid q found decided in
    (q', found', SameDecision-trans r q q' same same')
