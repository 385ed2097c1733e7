-- ===== src/Access/Requests/Steps.antt =====
-- One operation of internal/store/grant_requests.go, and what it can do to the tables.
use dbbat.Prelude.{
  ℕ, ◌+◌, ◌≡◌, arith, length, Result, ok, err, refl, Bool, true, false, Option, none, some, List,
  [], ◌∷◌, String, Bool-cases, Option-cases, inl, inr,
}
use dbbat.Access.Grants.{
  Grant, GrantDefinition, GrantError, accepts_grant, create_grant, revoke_rows, revoke_grant,
}
use dbbat.Access.Requests.{
  GrantRequestStatus, GrantRequest, Store, Supply, approved, denied, cancelled, is_pending,
  find_request, find_definition, update_requests, approved_request, decided_request,
  create_grant_request, approve_grant_request_tx, approve_grant_request, auto_approve_grant_request,
  transition, deny_grant_request, cancel_grant_request, set_grant_request_slack_message,
  approve_with, new_grant,
}
use dbbat.Access.Requests.Rows.{KeepsUid}

-- An operation with its arguments: those on requests, `CreateGrant` and `RevokeGrant` on the same
-- table of grants, and `define`, any change of the table of definitions, which other code makes.
pub data Op : Type 0 where
  create : ℕ → ℕ → GrantRequest → Op
  approve auto_approve : Supply → ℕ → ℕ → Op
  deny : ℕ → ℕ → ℕ → String → Op
  cancel : ℕ → ℕ → ℕ → Op
  set_slack_message : ℕ → String → String → Op
  grant : Bool → ℕ → ℕ → Grant → Op
  revoke : ℕ → ℕ → ℕ → Op
  define : List GrantDefinition → Op

pub step : Op → Store → Store
step (create uid now req) s = (create_grant_request uid now req s).1
step (approve t uid decided_by) s = (approve_grant_request t uid decided_by s).1
step (auto_approve t uid requester_id) s = (auto_approve_grant_request t uid requester_id s).1
step (deny now uid decided_by reason) s = (deny_grant_request now uid decided_by reason s).1
step (cancel now uid by_user) s = (cancel_grant_request now uid by_user s).1
step (set_slack_message uid channel ts) s = set_grant_request_slack_message uid channel ts s
step (grant references_hold uid now g) s = record s {
  grants = (create_grant references_hold uid now g s.grants).1;
}
step (revoke now uid revoked_by) s = record s {
  grants = (revoke_grant now uid revoked_by s.grants).1;
}
step (define definitions) s = record s { definitions = definitions }

unfoldable pub run : List Op → Store → Store
unfolding step
run [] s = s
run (op ∷ ops) s = run ops (step op s)

abbrev one_if_ok : Result GrantError Grant → ℕ
one_if_ok (ok g) = 1
one_if_ok (err e) = 0

-- How many grants the operation creates without a request.
pub created : Op → Store → ℕ
created (grant references_hold uid now g) s =
    one_if_ok (create_grant references_hold uid now g s.grants).0
created op s = 0

unfoldable pub all_created : List Op → Store → ℕ
unfolding created step
all_created [] s = 0
all_created (op ∷ ops) s = created op s + all_created ops (step op s)

abbrev pub is_approved : GrantRequestStatus → Bool
is_approved approved = true
is_approved status = false

abbrev pub approved_in : GrantRequest → Bool
approved_in r = is_approved r.status

-- The change leaves what has been asked and decided alone.
abbrev pub SameDecision : GrantRequest → GrantRequest → Type 0
SameDecision r q =
    (q.status ≡ r.status)
    × (q.decided_at ≡ r.decided_at)
    × (q.decided_by ≡ r.decided_by)
    × (q.decision_reason ≡ r.decision_reason)
    × (q.resulting_grant_id ≡ r.resulting_grant_id)
    × (q.user_id ≡ r.user_id)
    × (q.database_id ≡ r.database_id)
    × (q.grant_definition_id ≡ r.grant_definition_id)

abbrev pub Decides : (GrantRequest → GrantRequest) → Bool → Type 0
Decides f b = (r : GrantRequest) → (is_pending (f r).status ≡ false) × (approved_in (f r) ≡ b)

abbrev pub Annotates : (GrantRequest → GrantRequest) → Type 0
Annotates f = (r : GrantRequest) → SameDecision r (f r)

-- What an operation can do to the table of requests and to that of grants, with the number of grants
-- that it creates without a request.
pub data Steps : ℕ → List GrantRequest → List Grant → List GrantRequest → List Grant → Type 0 where
  stays : {rs : List GrantRequest} {gs : List Grant} → Steps 0 rs gs rs gs
  creates :
      {rs : List GrantRequest} {gs : List Grant} (r : GrantRequest)
      → find_request r.uid rs ≡ none
      → is_pending r.status ≡ true
      → Steps 0 rs gs (r ∷ rs) gs
  approves :
      {rs : List GrantRequest} {gs : List Grant} (uid : ℕ) (r : GrantRequest) (g : Grant)
      (f : GrantRequest → GrantRequest)
      → find_request uid rs ≡ some r
      → is_pending r.status ≡ true
      → KeepsUid f
      → Decides f true
      → Steps 0 rs gs (update_requests uid f rs) (g ∷ gs)
  closes :
      {rs : List GrantRequest} {gs : List Grant} (uid : ℕ) (r : GrantRequest)
      (f : GrantRequest → GrantRequest)
      → find_request uid rs ≡ some r
      → is_pending r.status ≡ true
      → KeepsUid f
      → Decides f false
      → Steps 0 rs gs (update_requests uid f rs) gs
  annotates :
      {rs : List GrantRequest} {gs : List Grant} (uid : ℕ) (f : GrantRequest → GrantRequest)
      → KeepsUid f
      → Annotates f
      → Steps 0 rs gs (update_requests uid f rs) gs
  grants : {rs : List GrantRequest} {gs : List Grant} (g : Grant) → Steps 1 rs gs rs (g ∷ gs)
  revokes :
      {rs : List GrantRequest} {gs gs' : List Grant} → length gs' ≡ length gs → Steps 0 rs gs rs gs'

abbrev pub StepsTo : ℕ → Store → Store → Type 0
StepsTo n s s' = Steps n s.requests s.grants s'.requests s'.grants

create-StepsTo :
    (uid now : ℕ) (req : GrantRequest) (s : Store)
    → StepsTo 0 s (create_grant_request uid now req s).1
unfolding create_grant_request
create-StepsTo uid now req s = elim (Option-cases (find_request uid s.requests)) [
  | inl e ↦ simp e (creates _ e refl)
  | inr (r, e) ↦ simp e stays
]

approve_with-StepsTo :
    (t : Supply) (uid : ℕ) (decided_by : Option ℕ) (granted_by : ℕ) (req : GrantRequest)
    (found : Option GrantDefinition) (s : Store)
    → find_request uid s.requests ≡ some req
    → is_pending req.status ≡ true
    → StepsTo 0 s (approve_with t uid decided_by granted_by req found s).1
unfolding approve_with
approve_with-StepsTo t uid decided_by granted_by req none s e waits = stays
approve_with-StepsTo t uid decided_by granted_by req (some def) s e waits =
    elim (Bool-cases def.is_active) [
      | inl a ↦
          elim (Bool-cases
            (accepts_grant t.references_hold (new_grant t def req granted_by) s.grants)) [
              | inl taken ↦
                  simp (a, taken)
                    (approves uid req _ (approved_request t decided_by) e waits (λ r. refl)
                      (λ r. (refl, refl)))
              | inr refused ↦ simp (a, refused) stays
            ]
      | inr a ↦ simp a stays
    ]

approve-StepsTo :
    (t : Supply) (uid : ℕ) (decided_by : Option ℕ) (granted_by : ℕ) (s : Store)
    → StepsTo 0 s (approve_grant_request_tx t uid decided_by granted_by s).1
unfolding approve_grant_request_tx
approve-StepsTo t uid decided_by granted_by s = elim (Option-cases (find_request uid s.requests)) [
  | inl e ↦ rw e stays
  | inr (req, e) ↦ elim (Bool-cases (is_pending req.status)) [
    | inr decided ↦ rw (e, decided) stays
    | inl waits ↦
        rw (e, waits)
          (approve_with-StepsTo t uid decided_by granted_by req
            (find_definition req.grant_definition_id s.definitions) s e waits)
  ]
]

transition-StepsTo :
    (now uid : ℕ) (target : GrantRequestStatus) (decided_by : Option ℕ) (reason : String)
    (s : Store)
    → is_pending target ≡ false
    → is_approved target ≡ false
    → StepsTo 0 s (transition now uid target decided_by reason s).1
unfolding transition
transition-StepsTo now uid target decided_by reason s p a =
    elim (Option-cases (find_request uid s.requests)) [
      | inl e ↦ rw e stays
      | inr (req, e) ↦ elim (Bool-cases (is_pending req.status)) [
        | inr decided ↦ rw (e, decided) stays
        | inl waits ↦
            rw (e, waits)
              (closes uid req (decided_request now target decided_by reason) e waits (λ r. refl)
                (λ r. (p, a)))
      ]
    ]

grant-StepsTo :
    (references_hold : Bool) (uid now : ℕ) (g : Grant) (s : Store)
    → let (r, grants') = create_grant references_hold uid now g s.grants in
      Steps (one_if_ok r) s.requests s.grants s.requests grants'
unfolding create_grant
grant-StepsTo references_hold uid now g s =
    let row : Grant = record g {
      uid = uid;
      revoked_at = none;
      revoked_by = none;
      created_at = now;
      query_count = 0;
      bytes_transferred = 0;
    } in
    elim (Bool-cases (accepts_grant references_hold row s.grants)) [
      | inl taken ↦ rw taken (grants row)
      | inr refused ↦ rw refused stays
    ]

length-revoke_rows :
    (now uid revoked_by : ℕ) (gs : List Grant)
    → length (revoke_rows now uid revoked_by gs).0 ≡ length gs
unfolding revoke_rows
length-revoke_rows now uid revoked_by [] = refl
length-revoke_rows now uid revoked_by (g ∷ gs) =
    ground (arith, length-revoke_rows now uid revoked_by gs)

pub step-StepsTo : (op : Op) (s : Store) → StepsTo (created op s) s (step op s)
unfolding step created approve_grant_request auto_approve_grant_request deny_grant_request
    cancel_grant_request set_grant_request_slack_message
step-StepsTo (create uid now req) s = create-StepsTo uid now req s
step-StepsTo (approve t uid decided_by) s = approve-StepsTo t uid (some decided_by) decided_by s
step-StepsTo (auto_approve t uid requester_id) s = approve-StepsTo t uid none requester_id s
step-StepsTo (deny now uid decided_by reason) s =
    transition-StepsTo now uid denied (some decided_by) reason s refl refl
step-StepsTo (cancel now uid by_user) s =
    transition-StepsTo now uid cancelled (some by_user) "" s refl refl
step-StepsTo (set_slack_message uid channel ts) s =
    annotates uid _ (λ r. refl) (λ r. (refl, refl, refl, refl, refl, refl, refl, refl))
step-StepsTo (grant references_hold uid now g) s = grant-StepsTo references_hold uid now g s
step-StepsTo (revoke now uid revoked_by) s =
    unfold revoke_grant in revokes (length-revoke_rows now uid revoked_by s.grants)
step-StepsTo (define definitions) s = stays
