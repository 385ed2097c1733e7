-- ===== src/Access/Device/Tests.antt =====
-- Runs of internal/store/device_auth.go.
use dbbat.Prelude.{ok, err, ◌≡◌, refl, true, some, none, [], ◌∷◌, arith, keep}
use dbbat.Prelude.Keys.{string_eq}
use dbbat.Access.Device.{
  OAuthState, DeviceAuthMetadata, Response, pending, approved, respond_select, respond_finish,
  already_resolved, responded, get_by_user_code, newest, create_device_auth_request, poll_select,
  poll, not_found, find_state,
}
use dbbat.Access.Device.Creation.{Created, create_device_auth_request-Created}
use dbbat.Access.Device.Responses.{respond_finish-once}
use dbbat.Access.Device.Delivery.{poll-consumed}

abbrev waiting : DeviceAuthMetadata
waiting = record {
  client_name = "cli";
  user_code = "ABCD";
  status = pending;
  user_id = none;
  encrypted_key = [];
  key_prefix = "";
}

abbrev granted : DeviceAuthMetadata
granted = record waiting {
  status = approved;
  user_id = some 7;
  encrypted_key = 1 ∷ 2 ∷ [];
  key_prefix = "dbb_1";
}

abbrev a_row : DeviceAuthMetadata → OAuthState
a_row m = record {
  uid = 4;
  state = "secret";
  provider = "device";
  metadata = some m;
  expires_at = 100;
  created_at = 1;
}

abbrev an_approval : Response
an_approval = record {
  user_id = 7;
  approve = true;
  encrypted_key = 1 ∷ 2 ∷ [];
  key_prefix = "dbb_1";
}

respond_finish-once_example :
    respond_finish 30 4 waiting (respond_finish 20 4 granted (a_row waiting ∷ [])).1
    ≡ (some already_resolved, (respond_finish 20 4 granted (a_row waiting ∷ [])).1)
respond_finish-once_example =
    respond_finish-once 10 20 30 "ABCD" an_approval (a_row waiting ∷ []) (a_row waiting ∷ []) 4
      granted waiting (unfold respond_select get_by_user_code newest keep responded in refl)
      (omega arith)

poll-consumed_example :
    ((poll 20 "secret" (a_row granted ∷ [])).0 ≡ ok (granted, 1 ∷ 2 ∷ []))
    × ((poll 30 "secret" (poll 20 "secret" (a_row granted ∷ [])).1).0 ≡ err not_found)
poll-consumed_example =
    poll-consumed 20 30 "secret" (a_row granted ∷ []) (a_row granted) granted (tt, tt)
      (unfold poll_select find_state in refl) refl

create_device_auth_request-Created_example :
    Created 200 "WXYZ"
      (a_row granted ∷ [])
      (create_device_auth_request 150 160 5 2 "cli" "other" "WXYZ" (a_row granted ∷ []))
create_device_auth_request-Created_example =
    create_device_auth_request-Created 150 160 200 5 2 "cli" "other" "WXYZ" (a_row granted ∷ [])
      (omega arith) (omega arith) (omega arith)
