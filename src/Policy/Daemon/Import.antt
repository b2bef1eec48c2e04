-- ===== src/Policy/Daemon/Import.antt =====
-- Imports through the daemon (src/flashspartan-policyd.cpp) and in process
-- (src/policy/PolicyInProcessGateway.cpp).
use flashsentry.Base.{
  ◌≡◌, refl, ap, ◌∙◌, sym, Option, none, some, Bool, true, false, ℤ, pos, negsuc, Bytes, ℕ, Text,
  [], codes, text_eq, arith,
}
use flashsentry.Json.{
  Json, Fields, null, bool, num, str, arr, obj, none_left, insert, value, to_string, to_bool,
  to_fields, to_items, is_object,
}
use flashsentry.Platform.{Platform}
use flashsentry.Policy.Engine.Files.{World, Env, free}
use flashsentry.Policy.Engine.{
  Outcome, done, stuck, M, pure, ◌>>=◌, current_snapshot, clear_devices,
}
use flashsentry.Policy.Engine.Commits.{committed, audit_line, clear_devices-committed}
use flashsentry.Policy.Gateway
use flashsentry.Policy.Gateway.{import_loop, import_document}
use flashsentry.Policy.Daemon.{
  Target, Reply, replied, dispatch, error_reply, import_reply, import_request,
}
use flashsentry.Policy.Daemon.Client.{import_fields}

-- What an import in process returns, as the daemon answers it.
abbrev pub import_of : Outcome ℤ → Outcome Reply
import_of (done (pos n) w) = done (replied (import_reply n)) w
import_of (done (negsuc n) w) = done (replied (error_reply (codes "cannot open import"))) w
import_of (stuck w) = stuck w

-- The file does not open, or has a JSON object.
abbrev pub IsDocument : Platform → Option Bytes → Type 0
IsDocument p none = Unit {0}
IsDocument p (some file) = is_object (p.parse_json file) ≡ true

abbrev as_reply : Outcome Fields → Outcome Reply
as_reply (done o w) = done (replied o) w
as_reply (stuck w) = stuck w

to_fields-none : (v : Json) → is_object v ≡ false → to_fields v ≡ none_left
unfolding is_object to_fields
to_fields-none null e = refl
to_fields-none (bool b) e = refl
to_fields-none (num n) e = refl
to_fields-none (str s) e = refl
to_fields-none (arr vs) e = refl
to_fields-none (obj fs) e = cc

module _ (p : Platform) (env env' : Env) (target : Target) where
  dispatch-import_fields :
      (path : Text) (merge : Bool) (actor : Text)
      → dispatch p env env' target (import_fields path merge actor)
        ≡ (import_request p env env' target actor merge target.file >>= λ o. pure (replied o))
  unfolding dispatch import_fields insert value to_string to_bool text_eq
  dispatch-import_fields path merge actor = refl

  -- The loop, as each of the two ends it.
  loop_of :
      (o : Outcome ℕ)
      → (elim (elim o as (λ _. Outcome Fields) [
        | done n w ↦ done (import_reply n) w
        | stuck w ↦ stuck w
      ])
          as (λ _. Outcome Reply) [ done x w ↦ done (replied x) w | stuck w ↦ stuck w ])
        ≡ import_of (elim o as (λ _. Outcome ℤ) [ done n w ↦ done (pos n) w | stuck w ↦ stuck w ])
  loop_of (done n w) = refl
  loop_of (stuck w) = refl

  -- The same behind a clearing, whatever it returned.
  abbrev replaced : M ℕ → Outcome Bool → Outcome Reply
  replaced m o =
      elim (elim o as (λ _. Outcome Fields) [
        | done b w ↦ (m >>= λ n. pure (import_reply n)) w
        | stuck w ↦ stuck w
      ])
        as (λ _. Outcome Reply) [ done x w ↦ done (replied x) w | stuck w ↦ stuck w ]

  replaced_of :
      (m : M ℕ) (o : Outcome Bool)
      → replaced m o
        ≡ import_of (elim o as (λ _. Outcome ℤ) [
          | done b w ↦ (m >>= λ n. pure (pos n)) w
          | stuck w ↦ stuck w
        ])
  replaced_of m (done b w) = loop_of (m w)
  replaced_of m (stuck w) = refl

  current_snapshot-free : (w : World) → w.lock ≡ free → current_snapshot w ≡ done w.snapshot w
  unfolding current_snapshot
  current_snapshot-free w h =
      ground arith ∙ ap (λ l. done w.snapshot (record w { lock = l })) (sym h)

  -- The same of the file.
  request-agrees :
      (merge : Bool) (actor : Text) (file : Option Bytes) (w : World)
      → w.lock ≡ free
      → IsDocument p file
      → (import_request p env env' target actor merge file >>= λ o. pure (replied o)) w
        ≡ import_of (Gateway.import_json p env actor merge file w)
  unfolding import_request Gateway.import_json import_document
  request-agrees merge actor none w h d = refl
  request-agrees true actor (some file) w h d =
      let vs = to_items (value "devices" (to_fields (p.parse_json file))) in
      let counted : M ℤ = import_loop p env actor vs 0 >>= λ n. pure (pos n) in
      rw d (
        loop_of (import_loop p env actor vs 0 w)
        ∙ ap
            (λ o.
              import_of
                (elim o as (λ _. Outcome ℤ) [ done s w' ↦ counted w' | stuck w' ↦ stuck w' ]))
            (sym (current_snapshot-free w h)))
  request-agrees false actor (some file) w h d =
      let vs = to_items (value "devices" (to_fields (p.parse_json file))) in
      rw d (
        replaced_of (import_loop p env actor vs 0)
          (clear_devices p env actor (codes "import replace") w))

  -- Where the file does not open or has a JSON object, and nobody holds the engine's lock, the daemon
  -- answers an import with what the import in process returns, and leaves the same world.
  pub import-agrees :
      (path : Text) (merge : Bool) (actor : Text) (w : World)
      → w.lock ≡ free
      → IsDocument p target.file
      → dispatch p env env' target (import_fields path merge actor) w
        ≡ import_of (Gateway.import_json p env actor merge target.file w)
  import-agrees path merge actor w h d =
      ap (λ m. m w) (dispatch-import_fields path merge actor)
      ∙ request-agrees merge actor target.file w h d

  -- A file that has no JSON object, imported to replace the devices: the import in process refuses
  -- it and changes nothing, and the daemon clears the devices and answers with a count of 0.
  pub import-malformed :
      (path : Text) (actor : Text) (file : Bytes) (w : World)
      → w.lock ≡ free
      → target.file ≡ some file
      → is_object (p.parse_json file) ≡ false
      → (w' : World) × (dispatch p env env' target (import_fields path false actor) w
          ≡ done (replied (import_reply 0)) w')
        × (w'.snapshot.devices ≡ [])
        × (Gateway.import_json p env actor false (some file) w ≡ done (negsuc 0) w)
  unfolding import_request Gateway.import_json import_document import_loop value to_items
  import-malformed path actor file w h e d =
      let w' =
        committed p env
          (audit_line env actor (codes "clear_devices") (codes "*") (codes "import replace"))
          (record w.snapshot { devices = [] }) w in
      let empty : to_fields (p.parse_json file) ≡ none_left =
        to_fields-none (p.parse_json file) d in
      (
        w',
        ap (λ m. m w) (dispatch-import_fields path false actor)
            ∙ ap (λ t. (import_request p env env' target actor false t >>= λ o. pure (replied o)) w)
                e
            ∙ ap
                (λ fs.
                  replaced (import_loop p env actor (to_items (value "devices" fs)) 0)
                    (clear_devices p env actor (codes "import replace") w))
                empty
            ∙ ap (replaced (pure 0))
                (clear_devices-committed p env actor (codes "import replace") w h),
        refl,
        rw d,
      )
