-- ===== src/Policy/Daemon/Carried.antt =====
-- What a call of src/policy/PolicyDaemonClient.cpp does where the connection holds.
use flashsentry.Base.{
  ℕ, ◌≡◌, refl, ap, ◌∙◌, Bool, true, false, Text, Bytes, [], ◌∷◌, ◌++◌, text_eq, take, is_empty,
}
use flashsentry.Json.{Fields, obj, insert, value, to_string, to_bool, to_fields, is_object}
use flashsentry.Platform.{Platform}
use flashsentry.Device.Stored.{IsStorable, stored, device-round_trip}
use flashsentry.Policy.Engine.Files.{World, Env}
use flashsentry.Policy.Engine.{
  Outcome, done, stuck, M, pure, ◌>>=◌, upsert_device, remove_device, clear_devices, block_drive,
  unblock_drive,
}
use flashsentry.Policy.Gateway.{Call, upsert, remove, clear, block, unblock, call}
use flashsentry.Policy.Daemon.{Target, Reply, replied, ok_reply, dispatch, ready_read}
use flashsentry.Policy.Daemon.Client.{
  Link, Sent, and_then, request, request_of, send, read_response, received, is_ok,
}

-- No wait times out, and the handler runs.
pub record Holds (link : Link) : Type 0 where
  pub connected : link.connected ≡ true
  pub written : link.written ≡ true
  pub handled : link.handled ≡ true
  pub answered : link.answered ≡ true

-- The object is written as a line that reads back as it, and both sides have all of it at once.
pub record Carries (p : Platform) (trimmed : Bytes → Bytes) (bytes : ℕ) (o : Fields) : Type 0 where
  pub parses : p.parse_json (trimmed (p.to_compact o ++ b'\n' ∷ [])) ≡ obj o
  pub named : is_empty (trimmed (p.to_compact o ++ b'\n' ∷ [])) ≡ false
  pub whole : take bytes (p.to_compact o ++ b'\n' ∷ []) ≡ p.to_compact o ++ b'\n' ∷ []

-- The call as the daemon's engine gets it: a record is sent without the members that JSON lacks.
abbrev pub sent : Call → Call
sent (upsert r reason) = upsert (stored r) reason
sent c = c

-- What the client returns and the daemon becomes, of an outcome of the engine.
abbrev pub told_of : Outcome Bool → Sent Bool
told_of (done b w) = (b, done tt w)
told_of (stuck w) = (false, stuck w)

abbrev pub IsSendable : Platform → Call → Type 0
IsSendable p (upsert r reason) = IsStorable p r
IsSendable p c = Unit {0}

-- An answer of the daemon as the client reads it.
abbrev replied_of : Outcome Bool → Outcome Reply
replied_of (done b w) = done (replied (ok_reply b)) w
replied_of (stuck w) = stuck w

is_ok_reply : (b : Bool) → is_ok (ok_reply b) ≡ b
unfolding ok_reply value insert to_bool
is_ok_reply b = refl

-- What the handler writes, of an answer.
abbrev pub line_of : Platform → Fields → Bytes
line_of p o = p.to_compact o ++ b'\n' ∷ []

abbrev pub lines_of : Platform → Outcome Reply → Outcome Bytes
lines_of p (done reply w) = done (line_of p reply.response) w
lines_of p (stuck w) = stuck w

module _ (p : Platform) (env env' : Env) (target : Target) where
  ok-replied_of :
      (m : M Bool) (w : World) → (m >>= λ b. pure (replied (ok_reply b))) w ≡ replied_of (m w)
  ok-replied_of m w = go (m w)
    where
      go :
          (o : Outcome Bool)
          → (elim o [ done b w' ↦ done (replied (ok_reply b)) w' | stuck w' ↦ stuck w' ])
            ≡ replied_of o
      go (done b w') = refl
      go (stuck w') = refl

  dispatch-request_of :
      (actor : Text) (c : Call) (w : World)
      → IsSendable p c
      → dispatch p env env' target (request_of p actor c) w
        ≡ replied_of (call p env actor (sent c) w)
  unfolding dispatch request_of call insert value to_string to_fields text_eq
  dispatch-request_of actor (upsert r reason) w h =
      ap (λ x. (upsert_device p env x actor reason >>= λ b. pure (replied (ok_reply b))) w)
        (device-round_trip p r h)
      ∙ ok-replied_of (upsert_device p env (stored r) actor reason) w
  dispatch-request_of actor (remove id reason) w h =
      ok-replied_of (remove_device p env id actor reason) w
  dispatch-request_of actor (clear reason) w h = ok-replied_of (clear_devices p env actor reason) w
  dispatch-request_of actor (block k id l) w h = ok-replied_of (block_drive p env k id l actor) w
  dispatch-request_of actor (unblock k id) w h = ok-replied_of (unblock_drive p env k id actor) w

  module _ (trimmed : Bytes → Bytes) where
    ready_read-lines_of :
        (n : ℕ) (req : Fields) (w : World)
        → Carries p trimmed n req
        → ready_read p env env' target trimmed (take n (line_of p req)) w
          ≡ lines_of p (dispatch p env env' target req w)
    unfolding ready_read is_object to_fields
    ready_read-lines_of n req w c =
        rw (c.whole, c.parses, c.named) (go (dispatch p env env' target req w))
      where
        go :
            (o : Outcome Reply)
            → (elim o [ done reply w' ↦ done (line_of p reply.response) w' | stuck w' ↦ stuck w' ])
              ≡ lines_of p o
        go (done reply w') = refl
        go (stuck w') = refl

    module _ (link : Link) (h : Holds link) where
      pub request-lines_of :
          (req : Fields) (w : World)
          → Carries p trimmed link.request_bytes req
          → request p env env' target trimmed link req w
            ≡ received p env env' target trimmed link
                (lines_of p (dispatch p env env' target req w))
      unfolding request
      request-lines_of req w c =
          rw (h.connected, h.handled, h.written, ready_read-lines_of link.request_bytes req w c)

      pub read_response-line_of :
          (o : Fields)
          → Carries p trimmed link.response_bytes o
          → read_response p env env' target trimmed link (line_of p o) ≡ o
      unfolding read_response is_object to_fields
      read_response-line_of o c = rw (c.whole, c.parses)

      received-told_of :
          ((b : Bool) → Carries p trimmed link.response_bytes (ok_reply b))
          → (o : Outcome Bool)
          → and_then is_ok (received p env env' target trimmed link (lines_of p (replied_of o)))
            ≡ told_of o
      unfolding received value to_bool
      received-told_of c (done b w) =
          rw (h.answered, read_response-line_of (ok_reply b) (c b), is_ok_reply b)
      received-told_of c (stuck w) = refl

      -- Where the connection holds and carries the request and the answer, and a record that is sent has
      -- times of whole seconds and numbers in the range of their types, a mutation through the daemon
      -- is the call of the engine, of the record as JSON keeps it: the client returns what the engine
      -- returned, and the daemon has the world that it left, or false where the engine never returns,
      -- and then the daemon is stuck.
      pub send-call :
          (actor : Text) (c : Call) (w : World)
          → IsSendable p c
          → Carries p trimmed link.request_bytes (request_of p actor c)
          → ((b : Bool) → Carries p trimmed link.response_bytes (ok_reply b))
          → send p env env' target trimmed link actor c w ≡ told_of (call p env actor (sent c) w)
      unfolding send
      send-call actor c w s carries answers =
          ap (and_then is_ok) (request-lines_of (request_of p actor c) w carries)
          ∙ ap (λ o. and_then is_ok (received p env env' target trimmed link (lines_of p o)))
              (dispatch-request_of actor c w s)
          ∙ received-told_of answers (call p env actor (sent c) w)
