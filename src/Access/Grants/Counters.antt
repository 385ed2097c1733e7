-- ===== src/Access/Grants/Counters.antt =====
-- What the counters of internal/store/grants.go count.
use dbbat.Prelude.{
  ℕ, ◌+◌, ◌*◌, ◌≤◌, ◌<◌, ◌≡◌, ◌≢◌, refl, sym, subst, ◌&&◌, List, [], ◌∷◌, arith, ltb, leb,
  if◌then◌else◌, keep, All,
}
use dbbat.Prelude.Sums.{count, sum_of}
use dbbat.Access.Grants.{
  Grant, GrantDefinition, Connection, QueryRow, Usage, window_end, joined, query_count_of, bytes_of,
  build_grant_from_definition,
}

-- The row belongs to the grant's user and database.
abbrev pub IsFor : Grant → Connection → Type 0
IsFor g c = (c.user_id ≡ g.user_id) × (c.database_id ≡ g.database_id)

-- No other connection has the uid.
abbrev pub Fresh : ℕ → List Connection → Type 0
Fresh uid = All (λ c. c.uid ≢ uid)

count-Fresh :
    (g : Grant) (q : QueryRow) (connections : List Connection)
    → Fresh q.connection_id connections
    → joined g connections q ≡ 0
unfolding joined count
count-Fresh g q [] f = refl
count-Fresh g q (c ∷ connections) (f, fs) = ground (arith, count-Fresh g q connections fs)

joined_head :
    (g : Grant) (c : Connection) (q : QueryRow) (connections : List Connection)
    → c.user_id ≡ g.user_id
    → c.database_id ≡ g.database_id
    → q.connection_id ≡ c.uid
    → joined g connections q ≡ 0
    → joined g (c ∷ connections) q
      ≡ (if leb g.starts_at q.executed_at && ltb q.executed_at (window_end g) then 1 else 0)
unfolding joined count
joined_head g c q connections u d e rest = ground (arith, rest)

window_end-le : (g : Grant) → window_end g ≤ g.expires_at
unfolding window_end
window_end-le g = ground arith

joined_one :
    (g : Grant) (c : Connection) (q : QueryRow) (connections : List Connection)
    → IsFor g c
    → q.connection_id ≡ c.uid
    → Fresh c.uid connections
    → joined g (c ∷ connections) q
      ≡ (if leb g.starts_at q.executed_at && ltb q.executed_at (window_end g) then 1 else 0)
joined_one g c q connections (u, d) e f =
    let rest = count-Fresh g q connections (subst (λ n. Fresh n connections) (sym e) f) in
    joined_head g c q connections u d e rest

-- A connection of the grant's user to its database counts its bytes if it was made within the
-- grant's window, from its start to the earlier of its end and its revocation; a query of that
-- connection counts once if it was executed within that window. Outside of it they count nothing.
-- The connection's uid belongs to no other row of the table.
pub counters-cons :
    (g : Grant) (c : Connection) (q : QueryRow) (connections : List Connection)
    (queries : List QueryRow)
    → IsFor g c
    → q.connection_id ≡ c.uid
    → Fresh c.uid connections
    → let before : Usage = record { connections = c ∷ connections; queries = queries } in
      let after : Usage = record { connections = c ∷ connections; queries = q ∷ queries } in
      let without : Usage = record { connections = connections; queries = queries } in
      (query_count_of after g
        ≡ query_count_of before g
          + (if leb g.starts_at q.executed_at && ltb q.executed_at (window_end g) then 1 else 0))
      × (bytes_of before g
          ≡ bytes_of without g
            + (if leb g.starts_at c.connected_at && ltb c.connected_at (window_end g)
                then c.bytes_transferred
                else 0))
      × (window_end g ≤ g.expires_at)
unfolding query_count_of bytes_of sum_of keep
counters-cons g c q connections queries (u, d) e f =
    (omega (arith, joined_one g c q connections (u, d) e f), ground arith, window_end-le g)

-- A grant that is built from a definition lasts as long as the definition says, from now on, where
-- that is less than the 292 years that a duration can hold.
pub build_grant-window :
    (def : GrantDefinition) (user_id database_id granted_by now : ℕ)
    → def.duration_seconds < 9_223_372_036
    → let g = build_grant_from_definition def user_id database_id granted_by now in
      (g.starts_at ≡ now) × (g.expires_at ≡ now + def.duration_seconds * 1_000_000_000)
unfolding build_grant_from_definition
build_grant-window def user_id database_id granted_by now h = ground arith
