-- ===== src/Database/Refines/Sequence.antt =====
-- A run of changes of src/DatabaseManager.cpp, each at its own time.
use flashsentry.Base.{◌≡◌, ap, ◌∙◌, true, List, [], ◌∷◌, All}
use flashsentry.Platform.{Platform}
use flashsentry.Policy.Engine.Files.{World, Env}
use flashsentry.Policy.Engine.Commits.{writes}
use flashsentry.Policy.Gateway.History.{IsReady}
use flashsentry.Database.{Database, D, pure, ◌>>◌}
use flashsentry.Database.Mirror.{Mirrors}
use flashsentry.Database.Refines.{View, Change, specified, run_change}
use flashsentry.Database.Refines.Tracks.{Tracks, Tracks-eq, then_do}
use flashsentry.Database.Refines.Sound.{view_of, Tracks-unchanged}
use flashsentry.Database.Refines.Runs.{run_change-Tracks}

module _ (p : Platform) where
  -- The calls in their order, each with what the system answers during it.
  unfoldable pub run_changes : List (Env × Change) → D (Unit {0})
  unfolding run_change
  run_changes [] = pure tt
  run_changes ((env, c) ∷ cs) = run_change p env c >> run_changes cs

  -- The same on the map.
  unfoldable pub replay : List (Env × Change) → View → View
  unfolding specified
  replay [] v = v
  replay ((env, c) ∷ cs) v = replay cs (specified p env.now c v)

  -- Where the gateway is the one in process, every write of the store works, the engine is ready
  -- (unlocked, with distinct ids that are not empty), and the table has for each id the engine's
  -- record, a run of changes returns, and leaves the table and the engine's devices equal to the
  -- map that the changes make of the map that the table was.
  pub run_changes-Tracks :
      (cs : List (Env × Change)) (db : Database) (w : World)
      → All (λ call. writes call.0 ≡ true) cs
      → IsReady w
      → Mirrors db w
      → Tracks (run_changes cs db w) (replay cs (view_of db))
  unfolding run_changes replay
  run_changes-Tracks [] db w h ready m = Tracks-unchanged tt db w ready m
  run_changes-Tracks ((env, c) ∷ cs) db w (ok, h) ready m =
      let t = run_change-Tracks p env ok db w ready m c in
      let after : view_of t.database ≡ specified p env.now c (view_of db) =
        λ i id. (t.mirrors.same id ∙ t.view id) i in
      Tracks-eq (ap (then_do (λ _. run_changes cs)) t.returns)
        (λ id. ap (λ v. replay cs v id) after)
        (run_changes-Tracks cs t.database t.world h t.ready t.mirrors)
