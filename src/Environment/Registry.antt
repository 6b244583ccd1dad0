-- ===== src/Environment/Registry.antt =====
-- The registry and the handles that it takes (src/environment.rs).
use rust_lib.Common.{ℕ, ◌≡◌, ◌≢◌, ◌⊎◌, List, ok, err, none, some, false, arith}
use rust_lib.Config.{Config}
use rust_lib.Environment.{
  Environment, incorrect_semver, not_found, register, unregister, lookup, new, from,
}
use rust_lib.Host.{Host, World, returned, panicked, after, answer_to, ProcessCall, process}
use rust_lib.LunaticError
use rust_lib.Process
use rust_lib.Process.{Process}

module _ ⦃h : Host⦄ where
  -- `register` of a handle that was not sent away, by the runtime's status: at 0 it succeeds and at
  -- 1 the version is malformed, and in both cases the handle that was passed in is dropped; any
  -- other status is a panic, and nothing more is called.
  pub register_branches :
      {T : Type 0} (e : Environment) (name version : List ℕ) (p : Process T) (w : World)
      → p.consumed ≡ false
      → let c = process (ProcessCall.register name version e.id p.id) in
        let d = process (ProcessCall.drop_process p.id) in
        let status = answer_to c w in
        (status ≡ 0) × (register e name version p w ≡ (returned (ok tt), after d (after c w)))
        ⊎ (status ≡ 1)
          × (register e name version p w ≡ (returned (err incorrect_semver), after d (after c w)))
        ⊎ (status ≢ 0) × (status ≢ 1) × (register e name version p w ≡ (panicked, after c w))
  unfolding register Process.drop
  register_branches e name version p w held = ground arith

  -- `lookup` by the runtime's status: at 0 it returns a handle of the number that was answered, at 1
  -- the query is malformed, at 2 there is no such process, which is a success, and any other status
  -- is a panic.
  pub lookup_branches :
      (T : Type 0) (name query : List ℕ) (w : World)
      → let c = process (ProcessCall.lookup name query 0) in
        let status = (answer_to c w).0 in
        (status ≡ 0)
          × (lookup {T = T} name query w
              ≡ (returned (ok (some (Process.from (answer_to c w).1))), after c w))
        ⊎ (status ≡ 1)
          × (lookup {T = T} name query w ≡ (returned (err incorrect_semver), after c w))
        ⊎ (status ≡ 2) × (lookup {T = T} name query w ≡ (returned (ok none), after c w))
        ⊎ (status ≢ 0)
          × (status ≢ 1)
          × (status ≢ 2)
          × (lookup {T = T} name query w ≡ (panicked, after c w))
  unfolding lookup
  lookup_branches T name query w = ground arith

  -- `unregister` by the runtime's status: at 0 it succeeds, at 1 the version is malformed, at 2 there
  -- is no such process, which is an error, and any other status is a panic.
  unregister_branches :
      (e : Environment) (name version : List ℕ) (w : World)
      → let c = process (ProcessCall.unregister name version e.id) in
        let status = answer_to c w in
        (status ≡ 0) × (unregister e name version w ≡ (returned (ok tt), after c w))
        ⊎ (status ≡ 1)
          × (unregister e name version w ≡ (returned (err incorrect_semver), after c w))
        ⊎ (status ≡ 2) × (unregister e name version w ≡ (returned (err not_found), after c w))
        ⊎ (status ≢ 0)
          × (status ≢ 1)
          × (status ≢ 2)
          × (unregister e name version w ≡ (panicked, after c w))
  unfolding unregister
  unregister_branches e name version w = ground arith

  -- `Environment::new` returns an environment of the number that was answered at status 0 and that
  -- number as the error at any other, and in both cases the configuration that it has consumed is
  -- dropped right after the answer.
  pub new_drops :
      (config : Config) (w : World)
      → let c = process (ProcessCall.create_environment config.id 0) in
        let d = process (ProcessCall.drop_config config.id) in
        let status = (answer_to c w).0 in
        let id = (answer_to c w).1 in
        (status ≡ 0) × (new config w ≡ (returned (ok (from id)), after d (after c w)))
        ⊎ (status ≢ 0)
          × (new config w ≡ (returned (err (LunaticError.from id)), after d (after c w)))
  unfolding new
  new_drops config w = ground arith
