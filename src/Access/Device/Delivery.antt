-- ===== src/Access/Device/Delivery.antt =====
-- To whom internal/store/device_auth.go delivers a key.
use dbbat.Prelude.{
  ℕ, ◌≡◌, refl, sym, ap, ◌∙◌, subst, false, none, some, List, [], ◌∷◌, String, arith, keep, All, ok,
  err, Bool-cases, Option-cases, inl, inr,
}
use dbbat.Prelude.Keys.{string_eq, ◌=?◌}
use dbbat.Access.Device.{
  OAuthState, DeviceAuthMetadata, is_open, find_state, poll_select, poll_finish, poll, delete_uid,
  not_found,
}

-- No row has the state.
abbrev pub Without : String → List OAuthState → Type 0
Without state = All (λ q. (q.state =? state) ≡ false)

-- The unique index on the states.
abbrev pub UniqueStates : List OAuthState → Type 0
UniqueStates [] = Unit
UniqueStates (r ∷ rows) = Without r.state rows × UniqueStates rows

find-delete_absent :
    (later : ℕ) (code : String) (uid : ℕ) (rows : List OAuthState)
    → Without code rows
    → find_state later code (delete_uid uid rows) ≡ none
unfolding find_state delete_uid keep
find-delete_absent later code uid [] h = refl
find-delete_absent later code uid (r ∷ rows) (n, h) =
    ground (arith, n, find-delete_absent later code uid rows h)

find_absent :
    (now : ℕ) (code : String) (rows : List OAuthState)
    → Without code rows
    → find_state now code rows ≡ none
unfolding find_state
find_absent now code [] h = refl
find_absent now code (r ∷ rows) (n, h) = ground (arith, n, find_absent now code rows h)

find_skip :
    (now : ℕ) (code : String) (x : OAuthState) (rows : List OAuthState)
    → (x.state =? code) ≡ false
    → find_state now code (x ∷ rows) ≡ find_state now code rows
unfolding find_state
find_skip now code x rows other = ground (arith, other)

find-delete_skip :
    (later : ℕ) (code : String) (uid : ℕ) (x : OAuthState) (rows : List OAuthState)
    → (x.state =? code) ≡ false
    → find_state later code (delete_uid uid rows) ≡ none
    → find_state later code (delete_uid uid (x ∷ rows)) ≡ none
unfolding find_state delete_uid keep
find-delete_skip later code uid x rows other h = ground (arith, other, h)

found_head :
    (now : ℕ) (code : String) (x r : OAuthState) (rows : List OAuthState)
    → find_state now code rows ≡ none
    → find_state now code (x ∷ rows) ≡ some r
    → x.uid ≡ r.uid
unfolding find_state
found_head now code x r rows rest h = ground (arith, rest)

delete_head :
    (x : OAuthState) (uid : ℕ) (rows : List OAuthState)
    → x.uid ≡ uid
    → delete_uid uid (x ∷ rows) ≡ delete_uid uid rows
unfolding delete_uid keep
delete_head x uid rows h = ground (arith, h)

find-delete :
    (now later : ℕ) (code : String) (rows : List OAuthState) (r : OAuthState)
    → UniqueStates rows
    → find_state now code rows ≡ some r
    → find_state later code (delete_uid r.uid rows) ≡ none
find-delete now later code [] r u h = unfold find_state in absurd (ground arith)
find-delete now later code (x ∷ rows) r (w, u) h = elim (Bool-cases (x.state =? code)) [
  | inr other ↦
      find-delete_skip later code r.uid x rows other
        (find-delete now later code rows r u (sym (find_skip now code x rows other) ∙ h))
  | inl same ↦
      let w' : Without code rows =
        subst (λ s. Without s rows) ((string_eq.beq_iff x.state code).0 same) w in
      let here = found_head now code x r rows (find_absent now code rows w') h in
      ap (find_state later code) (delete_head x r.uid rows here)
      ∙ find-delete_absent later code r.uid rows w'
]

selected :
    (now : ℕ) (code : String) (rows : List OAuthState) (r : OAuthState) (m : DeviceAuthMetadata)
    → poll_select now code rows ≡ ok (r, m)
    → find_state now code rows ≡ some r
unfolding poll_select
selected now code rows r m h = elim (Option-cases (find_state now code rows)) [
  | inl e ↦ absurd (ground (arith, e))
  | inr (q, e) ↦ elim (Option-cases q.metadata) [
    | inl bad ↦ absurd (ground (arith, e, bad))
    | inr (n, good) ↦ ground (arith, e, good)
  ]
]

poll_closed :
    (now : ℕ) (code : String) (rows : List OAuthState) (r : OAuthState) (m : DeviceAuthMetadata)
    → poll_select now code rows ≡ ok (r, m)
    → is_open m.status ≡ false
    → poll now code rows ≡ (ok (m, m.encrypted_key), delete_uid r.uid rows)
unfolding poll poll_finish
poll_closed now code rows r m read closed = rw (read, poll) (ground (arith, closed))

poll_missed :
    (now : ℕ) (code : String) (rows : List OAuthState)
    → find_state now code rows ≡ none
    → (poll now code rows).0 ≡ err not_found
unfolding poll poll_select
poll_missed now code rows h = rw (h, poll)

-- A poll on its own delivers what was decided once: on a table in which no two rows have one state, the
-- poll of a request that is approved or denied gives its key, and every later poll of the same device
-- code finds no request.
pub poll-consumed :
    (now later : ℕ) (code : String) (rows : List OAuthState) (r : OAuthState)
    (m : DeviceAuthMetadata)
    → UniqueStates rows
    → poll_select now code rows ≡ ok (r, m)
    → is_open m.status ≡ false
    → ((poll now code rows).0 ≡ ok (m, m.encrypted_key))
      × ((poll later code (poll now code rows).1).0 ≡ err not_found)
poll-consumed now later code rows r m u read closed =
    let done = poll_closed now code rows r m read closed in
    (
      ap (λ x. x.0) done,
      ap (λ x. (poll later code x.1).0) done
          ∙ poll_missed later code (delete_uid r.uid rows)
              (find-delete now later code rows r u (selected now code rows r m read)),
    )
