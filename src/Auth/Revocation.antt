-- ===== src/Auth/Revocation.antt =====
-- The registry of internal/cache/revocation.go. A handle is a cell of a store: its number is the
-- pointer, and the store holds the atomic flag of each. A UUID is a number, 0 for `uuid.Nil`.
pub mod Delivery
mod Tests
use dbbat.Prelude.{
  ℕ, suc, ◌+◌, Bool, true, false, ◌||◌, Option, none, some, List, [], ◌∷◌, ◌==◌, if◌then◌else◌,
  length,
}
use dbbat.Prelude.Keys.{nat_eq}
use dbbat.Prelude.Maps.{lookup, insert, delete}

-- The flags, and the number of the next handle.
pub record Handles : Type 0 where
  pub next : ℕ
  pub revoked : ℕ → Bool

-- `sessions`: the live handles of each grant.
pub record RevocationRegistry : Type 0 where
  pub sessions : List (ℕ × List ℕ)
  pub handles : Handles

pub new_registry : RevocationRegistry
new_registry = record { sessions = []; handles = record { next = 0; revoked = λ h. false } }

abbrev pub sessions_of : Option (List ℕ) → List ℕ
sessions_of none = []
sessions_of (some set) = set

-- `&RevocationHandle{}`: a new cell whose flag is not set
pub new_handle : Handles → Handles
new_handle hs = record {
  next = suc hs.next;
  revoked = λ h. if h == hs.next then false else hs.revoked h;
}

-- `Register`, on a registry that is not nil; the handle is the number of the new cell.
pub register : ℕ → RevocationRegistry → ℕ × RevocationRegistry
unfolding new_handle
register grant_uid r =
    let h = r.handles.next in
    let handles = new_handle r.handles in
    if grant_uid == 0 then (h, record r { handles = handles }) else (
      h,
      record {
        sessions = insert grant_uid (h ∷ sessions_of (lookup grant_uid r.sessions)) r.sessions;
        handles = handles;
      },
    )

-- `delete(set, h)`
pub remove : ℕ → List ℕ → List ℕ
remove h [] = []
remove h (x ∷ xs) = if x == h then remove h xs else x ∷ remove h xs

abbrev is_empty : List ℕ → Bool
is_empty [] = true
is_empty (x ∷ xs) = false

deregister_in : ℕ → ℕ → Option (List ℕ) → RevocationRegistry → RevocationRegistry
deregister_in grant_uid h none r = r
deregister_in grant_uid h (some set) r =
    let left = remove h set in
    record r {
      sessions =
          if is_empty left then delete grant_uid r.sessions else insert grant_uid left r.sessions;
    }

-- `Deregister`, on a registry and a handle that are not nil
pub deregister : ℕ → ℕ → RevocationRegistry → RevocationRegistry
unfolding deregister_in
deregister grant_uid h r =
    if grant_uid == 0 then r else deregister_in grant_uid h (lookup grant_uid r.sessions) r

-- The loop of `Revoke`: every flag of the set is set, and they are counted.
revoke_loop : List ℕ → ℕ → Handles → ℕ × Handles
revoke_loop [] n hs = (n, hs)
revoke_loop (h ∷ set) n hs =
    revoke_loop set (n + 1) (record hs { revoked = λ x. if x == h then true else hs.revoked x })

-- `Revoke`, on a registry that is not nil
pub revoke : ℕ → RevocationRegistry → ℕ × RevocationRegistry
unfolding revoke_loop
revoke grant_uid r =
    let (n, handles) = revoke_loop (sessions_of (lookup grant_uid r.sessions)) 0 r.handles in
    if grant_uid == 0 then (0, r) else (n, record r { handles = handles })

-- `Revoked`; `none` is the nil handle.
pub is_revoked : Option ℕ → Handles → Bool
is_revoked none hs = false
is_revoked (some h) hs = hs.revoked h
