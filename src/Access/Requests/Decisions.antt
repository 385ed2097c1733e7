-- ===== src/Access/Requests/Decisions.antt =====
-- What an approval of internal/store/grant_requests.go does, and that a decision is made once.
use dbbat.Prelude.{
  ℕ, ◌<◌, ◌^◌, ◌≡◌, arith, refl, true, false, Option, none, some, ◌∷◌, Result, ok, err, Bool-cases,
  Option-cases, inl, inr,
}
use dbbat.Access.Grants.{
  Grant, GrantDefinition, add_seconds, build_grant_from_definition, find_grant, fits_int,
  accepts_grant,
}
use dbbat.Access.Requests.{
  GrantRequest, RequestError, Store, Supply, approved, is_pending, find_request, find_definition,
  approved_request, approve_with, approve_grant_request_tx, request_not_found, invalid_transition,
  definition_missing, definition_inactive, duplicate_uid, grant_refused, new_grant,
}
use dbbat.Access.Requests.Rows.{KeepsUid, find-update}

-- The grant is for the request's user and database and is what the definition allows.
abbrev pub Carries : Supply → GrantDefinition → GrantRequest → ℕ → Grant → Type 0
Carries t def req granted_by g =
    (g.uid ≡ t.grant_uid)
    × (g.user_id ≡ req.user_id)
    × (g.database_id ≡ req.database_id)
    × (g.controls ≡ def.controls)
    × (g.max_query_counts ≡ def.max_query_counts)
    × (g.max_bytes_transferred ≡ def.max_bytes_transferred)
    × (g.granted_by ≡ granted_by)
    × (g.starts_at ≡ t.now)
    × (g.expires_at ≡ add_seconds t.now def.duration_seconds)
    × (g.revoked_at ≡ none)

-- The table of grants takes the new row.
abbrev pub InInt : Option ℕ → Type 0
InInt none = Unit
InInt (some n) = n < 2 ^ 31

abbrev pub Acceptable : Supply → GrantDefinition → Store → Type 0
Acceptable t def s =
    (t.references_hold ≡ true)
    × (find_grant t.grant_uid s.grants ≡ none)
    × (t.now < add_seconds t.now def.duration_seconds)
    × InInt def.max_query_counts

-- Why an approval is refused.
abbrev pub Refuses : Supply → ℕ → Store → RequestError → Type 0
Refuses t uid s request_not_found = find_request uid s.requests ≡ none
Refuses t uid s invalid_transition =
    (req : GrantRequest) × (find_request uid s.requests ≡ some req)
    × (is_pending req.status ≡ false)
Refuses t uid s definition_missing =
    (req : GrantRequest) × (find_request uid s.requests ≡ some req)
    × (is_pending req.status ≡ true)
    × (find_definition req.grant_definition_id s.definitions ≡ none)
Refuses t uid s definition_inactive =
    (req : GrantRequest) × (def : GrantDefinition) × (find_request uid s.requests ≡ some req)
    × (is_pending req.status ≡ true)
    × (find_definition req.grant_definition_id s.definitions ≡ some def)
    × (def.is_active ≡ false)
Refuses t uid s grant_refused =
    (req : GrantRequest) × (def : GrantDefinition) × (find_request uid s.requests ≡ some req)
    × (is_pending req.status ≡ true)
    × (find_definition req.grant_definition_id s.definitions ≡ some def)
    × (def.is_active ≡ true)
    × (¬ Acceptable t def s)
Refuses t uid s duplicate_uid = ⊥

-- The result of an approval is right for the store before it.
abbrev pub Approves :
    Supply → ℕ → Option ℕ → ℕ → Store → Result RequestError (Grant × GrantRequest) × Store → Type 0
Approves t uid decided_by granted_by s (err e, s') = (s' ≡ s) × Refuses t uid s e
Approves t uid decided_by granted_by s (ok (g, r), s') =
    (req : GrantRequest) × (def : GrantDefinition) × (find_request uid s.requests ≡ some req)
    × (is_pending req.status ≡ true)
    × (find_definition req.grant_definition_id s.definitions ≡ some def)
    × (def.is_active ≡ true)
    × Acceptable t def s
    × Carries t def req granted_by g
    × (s'.grants ≡ g ∷ s.grants)
    × (s'.definitions ≡ s.definitions)
    × (find_request uid s'.requests ≡ some r)
    × (r.status ≡ approved)
    × (r.resulting_grant_id ≡ some g.uid)
    × (r.decided_by ≡ decided_by)

KeepsUid-approved_request :
    (t : Supply) (decided_by : Option ℕ) → KeepsUid (approved_request t decided_by)
KeepsUid-approved_request t decided_by r = refl

fits_int→InInt : (limit : Option ℕ) → fits_int limit ≡ true → InInt limit
fits_int→InInt none h = tt
fits_int→InInt (some n) h = ground arith

InInt→fits_int : (limit : Option ℕ) → InInt limit → fits_int limit ≡ true
InInt→fits_int none h = refl
InInt→fits_int (some n) h = ground arith

-- The test of the table, on the grant of a definition.
accepts→Acceptable :
    (t : Supply) (def : GrantDefinition) (req : GrantRequest) (granted_by : ℕ) (s : Store)
    → accepts_grant t.references_hold (new_grant t def req granted_by) s.grants ≡ true
    → Acceptable t def s
unfolding accepts_grant build_grant_from_definition
accepts→Acceptable t def req granted_by s h = (
  ground arith,
  elim (Option-cases (find_grant t.grant_uid s.grants)) [
    | inl e ↦ e
    | inr (g, e) ↦ absurd (ground (arith, h, e))
  ],
  ground arith,
  fits_int→InInt def.max_query_counts (ground arith),
)

Acceptable→accepts :
    (t : Supply) (def : GrantDefinition) (req : GrantRequest) (granted_by : ℕ) (s : Store)
    → Acceptable t def s
    → accepts_grant t.references_hold (new_grant t def req granted_by) s.grants ≡ true
unfolding accepts_grant build_grant_from_definition
Acceptable→accepts t def req granted_by s (r, u, w, i) =
    ground (arith, r, u, w, InInt→fits_int def.max_query_counts i)

approve_with-active :
    (t : Supply) (uid : ℕ) (decided_by : Option ℕ) (granted_by : ℕ) (s : Store) (req : GrantRequest)
    (def : GrantDefinition)
    → find_request uid s.requests ≡ some req
    → is_pending req.status ≡ true
    → find_definition req.grant_definition_id s.definitions ≡ some def
    → def.is_active ≡ true
    → accepts_grant t.references_hold (new_grant t def req granted_by) s.grants ≡ true
    → Approves t uid decided_by granted_by s
        (approve_with t uid decided_by granted_by req (some def) s)
unfolding approve_with build_grant_from_definition
approve_with-active t uid decided_by granted_by s req def e waits d a taken =
    rw (a, taken)
      (
        req,
        def,
        e,
        waits,
        d,
        a,
        accepts→Acceptable t def req granted_by s taken,
        (refl, refl, refl, refl, refl, refl, refl, refl, refl, refl),
        refl,
        refl,
        find-update uid (approved_request t decided_by) s.requests req
            (KeepsUid-approved_request t decided_by) e,
        refl,
        refl,
        refl,
      )

approve_with-Approves :
    (t : Supply) (uid : ℕ) (decided_by : Option ℕ) (granted_by : ℕ) (s : Store) (req : GrantRequest)
    (found : Option GrantDefinition)
    → find_request uid s.requests ≡ some req
    → is_pending req.status ≡ true
    → find_definition req.grant_definition_id s.definitions ≡ found
    → Approves t uid decided_by granted_by s (approve_with t uid decided_by granted_by req found s)
approve_with-Approves t uid decided_by granted_by s req none e waits d =
    unfold approve_with in (refl, (req, e, waits, d))
approve_with-Approves t uid decided_by granted_by s req (some def) e waits d =
    elim (Bool-cases def.is_active) [
      | inl a ↦
          elim (Bool-cases
            (accepts_grant t.references_hold (new_grant t def req granted_by) s.grants)) [
              | inl taken ↦
                  approve_with-active t uid decided_by granted_by s req def e waits d a taken
              | inr refused ↦
                  unfold approve_with in
                  simp (a, refused)
                    (
                      refl,
                      (
                        req,
                        def,
                        e,
                        waits,
                        d,
                        a,
                        λ fine. cc (refused, Acceptable→accepts t def req granted_by s fine),
                      ),
                    )
            ]
      | inr a ↦ unfold approve_with in simp a (refl, (req, def, e, waits, d, a))
    ]

-- An approval succeeds for a pending request whose definition exists and is active, if the table takes
-- the grant: its uid is new, its users and its database exist, its end, with the wrap of a `Duration`,
-- is after its start, and its limit of queries fits an INT. Then it adds one grant, for the request's
-- user and database and with the definition's limits, and leaves the request approved with that grant
-- as its result. Otherwise it reports which of these conditions fails, and the store is as before.
pub approve_grant_request_tx-Approves :
    (t : Supply) (uid : ℕ) (decided_by : Option ℕ) (granted_by : ℕ) (s : Store)
    → Approves t uid decided_by granted_by s
        (approve_grant_request_tx t uid decided_by granted_by s)
unfolding approve_grant_request_tx
approve_grant_request_tx-Approves t uid decided_by granted_by s =
    elim (Option-cases (find_request uid s.requests)) [
      | inl e ↦ rw e (refl, e)
      | inr (req, e) ↦ elim (Bool-cases (is_pending req.status)) [
        | inr decided ↦ rw (e, decided) (refl, (req, e, decided))
        | inl waits ↦
            rw (e, waits)
              (approve_with-Approves t uid decided_by granted_by s req
                (find_definition req.grant_definition_id s.definitions) e waits refl)
      ]
    ]
