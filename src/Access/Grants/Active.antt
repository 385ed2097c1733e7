-- ===== src/Access/Grants/Active.antt =====
-- Which grant internal/store/grants.go finds for a user and a database, and what a revocation does.
use dbbat.Prelude.{
  ℕ, ◌≤◌, ◌≡◌, ◌≢◌, ◌⊎◌, refl, sym, subst, true, false, not, ◌&&◌, some, List, [], ◌∷◌, arith, ◌==◌,
  keep, All, Result, ok, err, is_some, Bool-cases, inl, inr,
}
use dbbat.Access.Grants.{
  Grant, Usage, GrantError, no_active_grant, grant_already_revoked, is_active_at, is_for,
  populate_grant_counters, find_grant, revoke_rows, revoke_grant,
}

-- The grant is a row of the table.
abbrev pub Row : Grant → List Grant → Type 0
Row g [] = ⊥
Row g (h ∷ grants) = (g ≡ h) ⊎ Row g grants

abbrev pub NoNewer : Grant → List Grant → Type 0
NoNewer g = All (λ x. x.created_at ≤ g.created_at)

-- The result is right for the table: a grant is the newest of the rows of this user and database
-- that are active now, with its counters; the error means that there is no such row.
abbrev pub Finds : ℕ → Usage → ℕ → ℕ → List Grant → Result GrantError Grant → Type 0
Finds now usage user_id database_id grants (ok g') =
    (g : Grant) × Row g grants
    × (is_for user_id database_id now g ≡ true)
    × NoNewer g (keep (is_for user_id database_id now) grants)
    × (g' ≡ populate_grant_counters usage g)
Finds now usage user_id database_id grants (err e) =
    (e ≡ no_active_grant) × All (λ x. is_for user_id database_id now x ≡ false) grants

-- No row of this uid is active at `t`.
abbrev pub Inactive : ℕ → ℕ → List Grant → Type 0
Inactive uid t = All (λ g. (g.uid == uid && is_active_at t g) ≡ false)

revoked-cons :
    (now uid revoked_by : ℕ) (g : Grant) (grants : List Grant)
    → (g.uid == uid && not (is_some g.revoked_at)) ≡ true
    → (revoke_rows now uid revoked_by (g ∷ grants)).0
      ≡ record g { revoked_at = some now; revoked_by = some revoked_by }
        ∷ (revoke_rows now uid revoked_by grants).0
unfolding revoke_rows
revoked-cons now uid revoked_by g grants e = simp e

kept-cons :
    (now uid revoked_by : ℕ) (g : Grant) (grants : List Grant)
    → (g.uid == uid && not (is_some g.revoked_at)) ≡ false
    → (revoke_rows now uid revoked_by (g ∷ grants)).0
      ≡ g ∷ (revoke_rows now uid revoked_by grants).0
unfolding revoke_rows
kept-cons now uid revoked_by g grants e = simp e

revoke_rows-Inactive :
    (now uid revoked_by t : ℕ) (grants : List Grant)
    → Inactive uid t (revoke_rows now uid revoked_by grants).0
revoke_rows-Inactive now uid revoked_by t [] = unfold revoke_rows in tt
revoke_rows-Inactive now uid revoked_by t (g ∷ grants) =
    let rest = revoke_rows-Inactive now uid revoked_by t grants in
    elim (Bool-cases (g.uid == uid && not (is_some g.revoked_at))) [
      | inl e ↦
          subst (Inactive uid t) (sym (revoked-cons now uid revoked_by g grants e))
            (ground arith, rest)
      | inr e ↦
          subst (Inactive uid t) (sym (kept-cons now uid revoked_by g grants e))
            (ground (arith, e), rest)
    ]

revoke_rows_again :
    (now uid revoked_by now' revoked_by' : ℕ) (grants : List Grant)
    → revoke_rows now' uid revoked_by' (revoke_rows now uid revoked_by grants).0
      ≡ ((revoke_rows now uid revoked_by grants).0, 0)
unfolding revoke_rows
revoke_rows_again now uid revoked_by now' revoked_by' [] = refl
revoke_rows_again now uid revoked_by now' revoked_by' (g ∷ grants) =
    ground (arith, revoke_rows_again now uid revoked_by now' revoked_by' grants)

find_grant-revoke_rows :
    (now uid revoked_by other : ℕ) (grants : List Grant)
    → other ≢ uid
    → find_grant other (revoke_rows now uid revoked_by grants).0 ≡ find_grant other grants
unfolding revoke_rows find_grant
find_grant-revoke_rows now uid revoked_by other [] h = refl
find_grant-revoke_rows now uid revoked_by other (g ∷ grants) h =
    ground (arith, find_grant-revoke_rows now uid revoked_by other grants h)

-- After `RevokeGrant`, whether it reported an error or not, no grant of that uid is active at any
-- instant; a second revocation reports that there is none left to revoke and changes nothing; and
-- the lookup of every other uid finds the same row as before.
pub revoke_grant_lem :
    (now uid revoked_by now' revoked_by' t other : ℕ) (grants : List Grant)
    → other ≢ uid
    → let rows = (revoke_grant now uid revoked_by grants).1 in
      Inactive uid t rows
      × (revoke_grant now' uid revoked_by' rows ≡ (some grant_already_revoked, rows))
      × (find_grant other rows ≡ find_grant other grants)
unfolding revoke_grant
revoke_grant_lem now uid revoked_by now' revoked_by' t other grants h = (
  revoke_rows-Inactive now uid revoked_by t grants,
  ground (arith, revoke_rows_again now uid revoked_by now' revoked_by' grants),
  find_grant-revoke_rows now uid revoked_by other grants h,
)
