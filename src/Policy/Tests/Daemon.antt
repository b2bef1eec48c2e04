-- ===== src/Policy/Tests/Daemon.antt =====
-- The theorems on the daemon (src/flashspartan-policyd.cpp) at concrete connections.
use flashsentry.Base.{
  is_empty, ◌≡◌, refl, true, false, none, some, [], ◌∷◌, codes, Bool, Bytes, zero, suc, negsuc,
}
use flashsentry.Json.{
  Fields, obj, null, bool, arr, value, insert, to_array, is_object, none_left, nil, cons,
}
use flashsentry.Platform.{Platform}
use flashsentry.Device.Codec.{device_to_json, manifest_to_json, group_to_json}
use flashsentry.Device.Stored.{stored}
use flashsentry.Policy.Blob.{block_to_json}
use flashsentry.Policy.Blob.RoundTrip.{stored_snapshot}
use flashsentry.Policy.Engine.Files.{World}
use flashsentry.Policy.Engine.{done}
use flashsentry.Policy.Gateway
use flashsentry.Policy.Gateway.{Call, upsert, remove, call}
use flashsentry.Policy.Daemon.{Target, replied, ok_reply, import_reply, snapshot_reply, dispatch}
use flashsentry.Policy.Daemon.Client.{Link, request_of, op_request, send, snapshot, import_fields}
use flashsentry.Policy.Daemon.Carried.{Holds, Carries, told_of, send-call}
use flashsentry.Policy.Daemon.Snapshot.{snapshot-stored}
use flashsentry.Policy.Daemon.Import.{import-agrees, import-malformed, import_of}
use flashsentry.Policy.Tests.{bare, stick, both, IsStorable-stick}
use flashsentry.Policy.Tests.Engine.{answers, start}

abbrev link : Link
link = record {
  connected = true;
  written = true;
  handled = true;
  answered = true;
  request_bytes = 9;
  response_bytes = 9;
}

link-Holds : Holds link
link-Holds = record { connected = refl; written = refl; handled = refl; answered = refl }

abbrev nowhere : Target
nowhere = record { file = none; opens = false }

-- Three texts: a request, which has no `ok`, and the two answers.
abbrev line : Fields → Bytes
unfolding value
line o = elim (value "ok" o) [ bool true ↦ 1 ∷ [] | bool false ↦ 2 ∷ [] | _ ↦ 0 ∷ [] ]

-- A platform that carries the request `o`, and the answer `a` that says `ok`.
abbrev carries : Fields → Fields → Platform
unfolding ok_reply
carries o a = record bare {
  to_compact = line;
  parse_json = λ b. elim b [
    | [] ↦ null
    | n ∷ rest ↦ elim n [
      | zero ↦ obj o
      | suc k ↦ elim k [ zero ↦ obj a | suc m ↦ obj (ok_reply false) ]
    ]
  ];
}

abbrev wire : Platform
wire = carries (request_of bare [] (upsert stick [])) (ok_reply true)

request-Carries : Carries wire (λ b. b) 9 (request_of wire [] (upsert stick []))
unfolding request_of insert value is_empty device_to_json carries manifest_to_json group_to_json
request-Carries = record { parses = refl; named = refl; whole = refl }

ok_reply-Carries : (b : Bool) → Carries wire (λ b. b) 9 (ok_reply b)
unfolding ok_reply insert value is_empty
ok_reply-Carries true = record { parses = refl; named = refl; whole = refl }
ok_reply-Carries false = record { parses = refl; named = refl; whole = refl }

send-call_example :
    send wire answers answers nowhere (λ b. b) link [] (upsert stick []) start
    ≡ told_of (call wire answers [] (upsert (stored stick) []) start)
unfolding carries
send-call_example =
    send-call wire answers answers nowhere (λ b. b) link link-Holds [] (upsert stick []) start
      (IsStorable-stick wire refl refl) request-Carries ok_reply-Carries

abbrev filled : World
filled = record start { snapshot = both }

abbrev reader : Platform
reader = carries (op_request (codes "snapshot")) (snapshot_reply bare both)

snapshot-Carries : Carries reader (λ b. b) 9 (op_request (codes "snapshot"))
unfolding insert value is_empty carries
snapshot-Carries = record { parses = refl; named = refl; whole = refl }

snapshot_reply-Carries : Carries reader (λ b. b) 9 (snapshot_reply reader both)
unfolding snapshot_reply insert value is_empty carries to_array device_to_json block_to_json
    manifest_to_json group_to_json
snapshot_reply-Carries = record { parses = refl; named = refl; whole = refl }

snapshot-stored_example :
    snapshot reader answers answers nowhere (λ b. b) link filled
    ≡ (stored_snapshot reader both, done tt filled)
unfolding carries
snapshot-stored_example =
    snapshot-stored reader answers answers nowhere (λ b. b) link filled link-Holds refl
      (IsStorable-stick reader refl refl, tt) (refl, tt) snapshot-Carries snapshot_reply-Carries

-- A file that lists the stick.
abbrev lister : Platform
unfolding insert
lister = record bare {
  parse_json =
      λ b. obj (insert "devices" (arr (cons (obj (device_to_json bare stick)) nil)) none_left);
}

import-agrees_example :
    dispatch lister answers answers
      (record { file = some []; opens = false })
      (import_fields [] true (codes "ui"))
      start
    ≡ import_of (Gateway.import_json lister answers (codes "ui") true (some []) start)
unfolding lister
import-agrees_example =
    import-agrees lister answers answers (record { file = some []; opens = false }) [] true
      (codes "ui") start refl (unfold is_object in refl)

import-malformed_example :
    (w' : World) × (dispatch bare answers answers
        (record { file = some []; opens = false })
        (import_fields [] false (codes "ui"))
        filled
      ≡ done (replied (import_reply 0)) w')
    × (w'.snapshot.devices ≡ [])
    × (Gateway.import_json bare answers (codes "ui") false (some []) filled
        ≡ done (negsuc 0) filled)
import-malformed_example =
    import-malformed bare answers answers (record { file = some []; opens = false }) [] (codes "ui")
      [] filled refl refl (unfold is_object in refl)
