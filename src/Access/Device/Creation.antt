-- ===== src/Access/Device/Creation.antt =====
-- That a new request of internal/store/device_auth.go is found by its user code.
use dbbat.Prelude.{
  ℕ, ◌+◌, ◌≤◌, ◌<◌, ◌≡◌, refl, Bool, false, none, List, [], ◌∷◌, String, arith, ltb, keep, keep-nil,
  length, All, All-mono, Result, ok, err, Bool-cases, inl, inr,
}
use dbbat.Prelude.Keys.{string_eq}
use dbbat.Access.Device.{
  OAuthState, DeviceAuthMetadata, DeviceError, pending, device_auth_ttl, by_user_code,
  user_code_exists, create_oauth_state, device_row, create_device_auth_request, has_state, newest,
  get_by_user_code,
}

keep_absent :
    (p : OAuthState → Bool) (rows : List OAuthState)
    → All (λ r. p r ≡ false) rows
    → keep p rows ≡ []
unfolding keep
keep_absent p [] h = refl
keep_absent p (r ∷ rows) (n, h) = ground (arith, n, keep_absent p rows h)

no_rows : (rows : List OAuthState) → ltb 0 (length rows) ≡ false → rows ≡ []
no_rows [] h = refl
no_rows (r ∷ rows) h = absurd (ground arith)

not_taken :
    (now t : ℕ) (code : String) (rows : List OAuthState)
    → user_code_exists now code rows ≡ false
    → now ≤ t
    → keep (by_user_code t code) rows ≡ []
unfolding user_code_exists
not_taken now t code rows h le =
    let none_now =
      keep-nil (by_user_code now code) rows (no_rows (keep (by_user_code now code) rows) h) in
    keep_absent (by_user_code t code) rows (
      All-mono (λ r. by_user_code now code r ≡ false) (λ r. by_user_code t code r ≡ false) rows
        (λ r e. ground (arith, e)) none_now)

get_first :
    (t later uid created_at : ℕ) (client_name device_code user_code : String)
    (rows : List OAuthState)
    → t < later + device_auth_ttl
    → keep (by_user_code t user_code) rows ≡ []
    → (m : DeviceAuthMetadata) × (m.status ≡ pending)
      × (m.user_code ≡ user_code)
      × (get_by_user_code t user_code
            (device_row uid created_at later client_name device_code user_code ∷ rows)
          ≡ ok (device_row uid created_at later client_name device_code user_code, m))
unfolding get_by_user_code device_row keep newest
get_first t later uid created_at client_name device_code user_code rows h absent = (
  record {
    client_name = client_name;
    user_code = user_code;
    status = pending;
    user_id = none;
    encrypted_key = [];
    key_prefix = "";
  },
  refl,
  refl,
  ground (arith, absent, (string_eq.beq_iff user_code user_code).1 refl),
)

-- What a creation gives, for the instant `t`: an error leaves the table as it was; a new request is
-- what the lookup of its user code finds at `t`, and it is pending.
abbrev pub Created :
    ℕ → String → List OAuthState → Result DeviceError OAuthState × List OAuthState → Type 0
Created t user_code rows (err e, rows') = rows' ≡ rows
Created t user_code rows (ok r, rows') =
    (m : DeviceAuthMetadata) × (m.status ≡ pending)
    × (m.user_code ≡ user_code)
    × (get_by_user_code t user_code rows' ≡ ok (r, m))

-- `CreateDeviceAuthRequest` either reports an error and leaves the table as it was, or from the
-- insert on, until the ten minutes have passed, the lookup of the user code finds the new request,
-- pending, and no other one, as long as nothing else changes the table.
pub create_device_auth_request-Created :
    (now later t uid created_at : ℕ) (client_name device_code user_code : String)
    (rows : List OAuthState)
    → now ≤ later
    → later ≤ t
    → t < later + device_auth_ttl
    → Created t user_code rows
        (create_device_auth_request now later uid created_at client_name device_code user_code rows)
unfolding create_device_auth_request create_oauth_state
create_device_auth_request-Created now later t uid created_at client_name device_code user_code rows
      a b h =
    elim (Bool-cases (user_code_exists now user_code rows)) [
      | inl taken ↦ rw taken refl
      | inr free ↦
          let found =
            get_first t later uid created_at client_name device_code user_code rows h
              (not_taken now t user_code rows free (omega arith)) in
          elim (Bool-cases (ltb 0 (length (keep (has_state device_code) rows)))) [
            | inl double ↦ rw (free, double) refl
            | inr single ↦ rw (free, single) found
          ]
    ]
