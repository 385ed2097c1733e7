-- ===== src/Auth/Revocation/Delivery.antt =====
-- Which sessions a revocation of internal/cache/revocation.go reaches, over every history.
use dbbat.Prelude.{
  ℕ, suc, ◌+◌, ◌≤◌, ◌<◌, ◌≡◌, ◌≢◌, refl, Bool, true, false, ◌||◌, ◌&&◌, not, some, List, [], ◌∷◌,
  arith, ◌==◌, if◌then◌else◌, length, Option-cases, inl, inr,
}
use dbbat.Prelude.Keys.{nat_eq}
use dbbat.Prelude.Maps.{lookup, lookup-insert, lookup-delete}
use dbbat.Auth.Revocation.{
  Handles, RevocationRegistry, new_registry, sessions_of, register, remove, is_empty, deregister,
  revoke, revoke_loop, is_revoked,
}

-- The number stands in the list.
pub mem : ℕ → List ℕ → Bool
mem h [] = false
mem h (x ∷ xs) = x == h || mem h xs

-- The handle is registered for the grant.
abbrev pub live : ℕ → ℕ → RevocationRegistry → Bool
live g h r = mem h (sessions_of (lookup g r.sessions))

mem-remove : (h k : ℕ) (xs : List ℕ) → mem h (remove k xs) ≡ (mem h xs && not (h == k))
unfolding mem remove
mem-remove h k [] = refl
mem-remove h k (x ∷ xs) = ground (arith, mem-remove h k xs)

revoke_loop_flags :
    (set : List ℕ) (n : ℕ) (hs : Handles) (h : ℕ)
    → ((revoke_loop set n hs).1.revoked h ≡ (mem h set || hs.revoked h))
      × ((revoke_loop set n hs).0 ≡ n + length set)
unfolding revoke_loop mem
revoke_loop_flags [] n hs h = (refl, omega arith)
revoke_loop_flags (x ∷ set) n hs h =
    let rest =
      revoke_loop_flags set (n + 1)
        (record hs { revoked = λ y. if y == x then true else hs.revoked y }) h in
    ground (arith, rest)

revoke_loop_next : (set : List ℕ) (n : ℕ) (hs : Handles) → (revoke_loop set n hs).1.next ≡ hs.next
unfolding revoke_loop
revoke_loop_next [] n hs = refl
revoke_loop_next (x ∷ set) n hs = revoke_loop_next set (n + 1) (record hs { revoked = _ })

-- What the rest of the program does to the registry.
pub data Event : Type 0 where
  registered : ℕ → Event
  deregistered : ℕ → ℕ → Event
  revoking : ℕ → Event

unfoldable pub step : RevocationRegistry → Event → RevocationRegistry
step r (registered g) = (register g r).1
step r (deregistered g h) = deregister g h r
step r (revoking g) = (revoke g r).1

unfoldable pub run : RevocationRegistry → List Event → RevocationRegistry
run r [] = r
run r (e ∷ es) = run (step r e) es

-- Where a handle stands: registered for `g` if `attached`, for no other grant, and flagged or not.
record Stands (g h : ℕ) (attached flag : Bool) (r : RevocationRegistry) : Type 0 where
  below : h < r.handles.next
  only : (g' : ℕ) → live g' h r ≡ (g' == g && attached)
  flagged : r.handles.revoked h ≡ flag

live-register :
    (g₀ g h : ℕ) (r : RevocationRegistry)
    → live g h (register g₀ r).1
      ≡ (live g h r || (g₀ == g && (not (g₀ == 0) && r.handles.next == h)))
unfolding register mem
live-register g₀ g h r =
    ground
      (arith, lookup-insert g₀ g (r.handles.next ∷ sessions_of (lookup g₀ r.sessions)) r.sessions)

mem_of_empty : (h : ℕ) (xs : List ℕ) → is_empty xs ≡ true → mem h xs ≡ false
unfolding mem
mem_of_empty h [] e = refl
mem_of_empty h (x ∷ xs) e = cc

live-deregister :
    (g₀ h₀ g h : ℕ) (r : RevocationRegistry)
    → live g h (deregister g₀ h₀ r) ≡ (live g h r && not (not (g₀ == 0) && (g₀ == g && h == h₀)))
unfolding deregister
live-deregister g₀ h₀ g h r = elim (Option-cases (lookup g₀ r.sessions)) [
  | inl miss ↦ unfold mem in ground (arith, miss)
  | inr (set, hit) ↦ ground (
    arith,
    hit,
    mem-remove h h₀ set,
    mem_of_empty h (remove h₀ set),
    lookup-delete g₀ g r.sessions,
    lookup-insert g₀ g (remove h₀ set) r.sessions,
  )
]

register-Stands :
    (g h g₀ : ℕ) (attached flag : Bool) (r : RevocationRegistry)
    → Stands g h attached flag r
    → Stands g h attached flag (register g₀ r).1
unfolding register
register-Stands g h g₀ attached flag r s = record {
  below = ground (arith, s.below);
  only = λ g'. ground (arith, live-register g₀ g' h r, s.only g', s.below);
  flagged = ground (arith, s.below, s.flagged);
}

deregister-Stands :
    (g h g₀ h₀ : ℕ) (attached flag : Bool) (r : RevocationRegistry)
    → g ≢ 0
    → Stands g h attached flag r
    → Stands g h (attached && not (g₀ == g && h == h₀)) flag (deregister g₀ h₀ r)
deregister-Stands g h g₀ h₀ attached flag r pos s = record {
  below = unfold deregister in ground (arith, s.below, Option-cases (lookup g₀ r.sessions));
  only = λ g'. ground (arith, live-deregister g₀ h₀ g' h r, s.only g');
  flagged = unfold deregister in ground (arith, s.flagged, Option-cases (lookup g₀ r.sessions));
}

revoke-Stands :
    (g h g₀ : ℕ) (attached flag : Bool) (r : RevocationRegistry)
    → g ≢ 0
    → Stands g h attached flag r
    → Stands g h attached (flag || (g₀ == g && attached)) (revoke g₀ r).1
revoke-Stands g h g₀ attached flag r pos s =
    let set = sessions_of (lookup g₀ r.sessions) in
    let flags = revoke_loop_flags set 0 r.handles h in
    unfold revoke in
    record {
      below = ground (arith, s.below, revoke_loop_next set 0 r.handles);
      only = λ g'. ground (arith, s.only g');
      flagged = ground (arith, flags, s.flagged, s.only g₀);
    }

-- No number that was not handed out yet is registered.
abbrev NoneAbove : RevocationRegistry → Type 0
NoneAbove r = (g h : ℕ) → r.handles.next ≤ h → live g h r ≡ false

step-NoneAbove : (r : RevocationRegistry) (e : Event) → NoneAbove r → NoneAbove (step r e)
unfolding step
step-NoneAbove r (registered g₀) n g h b =
    let next : (register g₀ r).1.handles.next ≡ suc r.handles.next =
      unfold register in ground arith in
    ground (arith, live-register g₀ g h r, n g h, next)
step-NoneAbove r (deregistered g₀ h₀) n g h b =
    let next : (deregister g₀ h₀ r).handles.next ≡ r.handles.next =
      unfold deregister in ground (arith, Option-cases (lookup g₀ r.sessions)) in
    ground (arith, live-deregister g₀ h₀ g h r, n g h, next)
step-NoneAbove r (revoking g₀) n g h b =
    unfold revoke in
    ground (arith, n g h, revoke_loop_next (sessions_of (lookup g₀ r.sessions)) 0 r.handles)

run-NoneAbove : (r : RevocationRegistry) (es : List Event) → NoneAbove r → NoneAbove (run r es)
unfolding run
run-NoneAbove r [] n = n
run-NoneAbove r (e ∷ es) n = run-NoneAbove (step r e) es (step-NoneAbove r e n)

register_fresh :
    (g : ℕ) (r : RevocationRegistry)
    → g ≢ 0
    → NoneAbove r
    → Stands g (register g r).0 true false (register g r).1
register_fresh g r pos n =
    let h : (register g r).0 ≡ r.handles.next = unfold register in ground arith in
    rw h (record {
      below = unfold register in ground arith;
      only = λ g'. ground (arith, live-register g g' r.handles.next r, n g' r.handles.next);
      flagged = unfold register in ground arith;
    })

-- The flag of a handle of `g` at the end, from whether it is registered and flagged at the start:
-- it is set by the first revocation of `g` that comes before the handle is deregistered.
unfoldable pub reached : ℕ → ℕ → Bool → Bool → List Event → Bool
reached g h attached flag [] = flag
reached g h attached flag (registered g₀ ∷ es) = reached g h attached flag es
reached g h attached flag (deregistered g₀ h₀ ∷ es) =
    reached g h (attached && not (g₀ == g && h == h₀)) flag es
reached g h attached flag (revoking g₀ ∷ es) =
    reached g h attached (flag || (g₀ == g && attached)) es

run-reached :
    (g h : ℕ) (attached flag : Bool) (r : RevocationRegistry) (es : List Event)
    → g ≢ 0
    → Stands g h attached flag r
    → is_revoked (some h) (run r es).handles ≡ reached g h attached flag es
unfolding run step reached is_revoked
run-reached g h attached flag r [] pos s = s.flagged
run-reached g h attached flag r (registered g₀ ∷ es) pos s =
    run-reached g h attached flag (register g₀ r).1 es pos
      (register-Stands g h g₀ attached flag r s)
run-reached g h attached flag r (deregistered g₀ h₀ ∷ es) pos s =
    run-reached g h (attached && not (g₀ == g && h == h₀)) flag (deregister g₀ h₀ r) es pos
      (deregister-Stands g h g₀ h₀ attached flag r pos s)
run-reached g h attached flag r (revoking g₀ ∷ es) pos s =
    run-reached g h attached (flag || (g₀ == g && attached)) (revoke g₀ r).1 es pos
      (revoke-Stands g h g₀ attached flag r pos s)

-- A session registers for a grant other than `uuid.Nil` after any history, and any history
-- follows. Its handle reads as revoked exactly if a revocation of that very grant came while the
-- handle was registered: revocations before, of other grants, or after the session deregistered
-- do not reach it, and no other session's coming or going changes that.
pub is_revoked-reached :
    (before after : List Event) (g : ℕ)
    → g ≢ 0
    → let (h, r) = register g (run new_registry before) in
      is_revoked (some h) (run r after).handles ≡ reached g h true false after
is_revoked-reached before after g pos =
    let r = run new_registry before in
    let n = run-NoneAbove new_registry before (unfold new_registry lookup mem in λ g' h b. refl) in
    run-reached g (register g r).0 true false (register g r).1 after pos (register_fresh g r pos n)

-- `Revoke` of a grant other than `uuid.Nil` reports how many sessions are registered for it, sets the
-- flag of each of these and of no other, and changes no registration.
pub revoke_lem :
    (g h : ℕ) (r : RevocationRegistry)
    → g ≢ 0
    → ((revoke g r).0 ≡ length (sessions_of (lookup g r.sessions)))
      × ((revoke g r).1.handles.revoked h ≡ (live g h r || r.handles.revoked h))
      × ((revoke g r).1.sessions ≡ r.sessions)
unfolding revoke
revoke_lem g h r pos =
    ground (arith, revoke_loop_flags (sessions_of (lookup g r.sessions)) 0 r.handles h)
