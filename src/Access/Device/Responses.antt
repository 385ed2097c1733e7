-- ===== src/Access/Device/Responses.antt =====
-- That a request of internal/store/device_auth.go is responded to once.
use dbbat.Prelude.{
  ℕ, ◌≤◌, ◌≡◌, refl, false, some, List, [], ◌∷◌, String, arith, ok, Bool-cases, Result-cases, inl,
  inr,
}
use dbbat.Prelude.Keys.{string_eq}
use dbbat.Access.Device.{
  OAuthState, DeviceAuthMetadata, Response, is_open, responded, get_by_user_code, respond_select,
  respond_update, respond_finish, already_resolved,
}

responded-closed : (a : Response) (m : DeviceAuthMetadata) → is_open (responded a m).status ≡ false
unfolding responded
responded-closed a m = ground arith

respond_select-closed :
    (now : ℕ) (code : String) (a : Response) (rows : List OAuthState) (uid : ℕ)
    (m : DeviceAuthMetadata)
    → respond_select now code a rows ≡ ok (uid, m)
    → is_open m.status ≡ false
unfolding respond_select
respond_select-closed now code a rows uid m h =
    elim (Result-cases (get_by_user_code now code rows)) [
      | inr (e, bad) ↦ absurd (ground (arith, bad))
      | inl (x, good) ↦ elim (Bool-cases (is_open x.1.status)) [
        | inl waits ↦ ground (arith, good, waits, responded-closed a x.1)
        | inr shut ↦ absurd (ground (arith, good, shut))
      ]
    ]

update_again :
    (now later uid : ℕ) (m m' : DeviceAuthMetadata) (rows : List OAuthState)
    → is_open m.status ≡ false
    → now ≤ later
    → respond_update later uid m' (respond_update now uid m rows).0
      ≡ ((respond_update now uid m rows).0, 0)
unfolding respond_update
update_again now later uid m m' [] closed h = refl
update_again now later uid m m' (r ∷ rows) closed h =
    ground (arith, update_again now later uid m m' rows closed h)

-- Two responders that both read a request as pending: once one of them has come to its end, whether it
-- approves or denies, the end of the other for the same request, at that instant or later and with
-- whatever it writes, reports that the request is already resolved and changes no row.
pub respond_finish-once :
    (now middle later : ℕ) (code : String) (a : Response) (rows rows' : List OAuthState) (uid : ℕ)
    (m m' : DeviceAuthMetadata)
    → respond_select now code a rows ≡ ok (uid, m)
    → middle ≤ later
    → respond_finish later uid m' (respond_finish middle uid m rows').1
      ≡ (some already_resolved, (respond_finish middle uid m rows').1)
unfolding respond_finish
respond_finish-once now middle later code a rows rows' uid m m' read h =
    rw
      (update_again middle later uid m m' rows' (respond_select-closed now code a rows uid m read)
        h)
      refl
