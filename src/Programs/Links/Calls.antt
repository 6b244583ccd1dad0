-- ===== src/Programs/Links/Calls.antt =====
-- What examples/environment.rs asks of the runtime, where its children fail.
use rust_lib.Common.{ℕ, ◌+◌, ◌^◌, ◌<◌, ◌≡◌, ◌∙◌, ap, ok, err, ◌==◌, if◌then◌else◌, arith}
use rust_lib.Common.Text.{codes}
use rust_lib.Config
use rust_lib.Config.{Config}
use rust_lib.Environment
use rust_lib.Environment.{Environment, add_this_module}
use rust_lib.Host.{
  >>=-returned, answer_to, Host, World, Run, returned, pure, ◌>>=◌, ◌>>◌, after, Call, process,
  ProcessCall,
}
use rust_lib.LinkMailbox.{LinkMailbox, link_mailbox, mailbox_transform, link_mailbox_transform}
use rust_lib.LunaticError
use rust_lib.LunaticError.{LunaticError}
use rust_lib.Mailbox.{Mailbox}
use rust_lib.Programs.Links.{expect_signal, environment_main}
use rust_lib.Serde.{Rmp, unit_serde, unwrap}
use rust_lib.Spawn.{FunctionTable}
use rust_lib.ThisModule
use rust_lib.ThisModule.{ThisModule}
use rust_lib.Programs.Links.Child.{Failing, here, failed, expect_signal-failed}

module _ ⦃h : Host⦄ where
  abbrev configuring : Call
  configuring = process (ProcessCall.create_config 1_200_000 1)

  abbrev config_of : World → ℕ
  config_of w = answer_to configuring w

  -- The world in which the environment is asked for: the configuration was made, with its limits and
  -- its namespace.
  abbrev allowed : World → World
  allowed w =
      after
        (process
          (ProcessCall.allow_namespace (config_of w) (codes "wasi_snapshot_preview1::environ")))
        (after configuring w)

  abbrev env_of : World → ℕ
  env_of w = (answer_to (process (ProcessCall.create_environment (config_of w) 0)) (allowed w)).1

  -- The environment was made, and the configuration dropped.
  abbrev created : World → World
  created w =
      after (process (ProcessCall.drop_config (config_of w)))
        (after (process (ProcessCall.create_environment (config_of w) 0)) (allowed w))

  abbrev adding : World → Call
  adding w = process (ProcessCall.add_this_module (env_of w) 0)

  abbrev module_of : World → ℕ
  module_of w = (answer_to (adding w) (created w)).1

  -- The module was added, and links are caught.
  abbrev pub prepared : World → World
  prepared w = after (process (ProcessCall.die_when_link_dies 0)) (after (adding w) (created w))

  -- The three children have failed, and the module and then the environment were dropped.
  abbrev pub all_failed : ⦃table : FunctionTable⦄ → ℕ → ℕ → ℕ → World → World
  all_failed prints allocates loops w =
      let v =
        failed (module_of w) loops
          (failed (module_of w) allocates (failed (module_of w) prints (prepared w))) in
      after (process (ProcessCall.drop_environment (env_of w)))
        (after (process (ProcessCall.drop_module (module_of w))) v)

module _ ⦃h : Host⦄ ⦃r : Rmp⦄ ⦃table : FunctionTable⦄ (law : Failing) where
  environment_made :
      (w : World)
      → unwrap (Environment.new (record { id = config_of w })) (allowed w)
        ≡ (returned (Environment.from (env_of w)), created w)
  unfolding Environment.new Config.drop
  environment_made w =
      ap
        (λ (status : ℕ).
          unwrap
            (pure (
              if status == 0
              then ok (Environment.from (env_of w))
              else err (LunaticError.from (env_of w))))
            (created w))
        (law.creates (config_of w) (allowed w).host)

  module_added :
      (w : World)
      → unwrap (add_this_module (Environment.from (env_of w))) (created w)
        ≡ (returned (here (module_of w)), after (adding w) (created w))
  unfolding add_this_module
  module_added w =
      ap
        (λ (status : ℕ).
          unwrap
            (pure (
              if status == 0
              then ok (here (module_of w))
              else err (LunaticError.from (module_of w))))
            (after (adding w) (created w)))
        (law.adds (env_of w) (created w).host)

  -- A plain mailbox, from which links are caught first.
  first-failed :
      (m : Mailbox Unit) (module_id function : ℕ) (w : World)
      → w.counter + 1 < 2 ^ 64
      → expect_signal (here module_id) m function w ≡ (
        returned link_mailbox,
        failed module_id function (after (process (ProcessCall.die_when_link_dies 0)) w),
      )
  unfolding expect_signal ThisModule.spawn_link
  first-failed m module_id function w small =
      expect_signal-failed law module_id function
        (after (process (ProcessCall.die_when_link_dies 0)) w) small

  -- `main` from the module, the environment and the configuration on.
  abbrev finishing : Environment → ThisModule → Run Unit
  finishing made module_ = ThisModule.drop module_ >> Environment.drop made

  abbrev third : ℕ → Environment → ThisModule → LinkMailbox (Unit {0}) → Run Unit
  third loops made module_ m₂ = expect_signal module_ m₂ loops >>= λ _. finishing made module_

  abbrev second : ℕ → ℕ → Environment → ThisModule → LinkMailbox (Unit {0}) → Run Unit
  second allocates loops made module_ m₁ =
      expect_signal module_ m₁ allocates >>= third loops made module_

  abbrev with_module : ℕ → ℕ → ℕ → Mailbox Unit → Environment → ThisModule → Run Unit
  with_module prints allocates loops m made module_ =
      expect_signal module_ m prints >>= second allocates loops made module_

  abbrev with_environment : ℕ → ℕ → ℕ → Mailbox Unit → Environment → Run Unit
  with_environment prints allocates loops m made =
      unwrap (add_this_module made) >>= with_module prints allocates loops m made

  -- The three children, one after the other.
  children :
      (prints allocates loops : ℕ) (m : Mailbox Unit) (w : World)
      → w.counter + 3 < 2 ^ 64
      → with_module prints allocates loops m
          (Environment.from (env_of w))
          (here (module_of w))
          (after (adding w) (created w))
        ≡ (returned tt, all_failed prints allocates loops w)
  unfolding ThisModule.drop Environment.drop
  children prints allocates loops m w small =
      let made = Environment.from (env_of w) in
      let id = module_of w in
      let w₁ = failed id prints (prepared w) in
      let w₂ = failed id allocates w₁ in
      >>=-returned (expect_signal (here id) m prints) (second allocates loops made (here id))
        (first-failed m id prints (after (adding w) (created w)) (omega arith))
      ∙ >>=-returned
          (expect_signal (here id) (let l : LinkMailbox (Unit {0}) = link_mailbox in l) allocates)
          (third loops made (here id)) (expect_signal-failed law id allocates w₁ (omega arith))
      ∙ >>=-returned
          (expect_signal (here id) (let l : LinkMailbox (Unit {0}) = link_mailbox in l) loops)
          (λ _. finishing made (here id)) (expect_signal-failed law id loops w₂ (omega arith))

  -- Where the runtime makes the environment, its module and the three children, each with status 0, and
  -- answers a signal to every receive (`Failing`), `main` of examples/environment.rs returns, and the
  -- calls that it has made are these, each with the numbers that the runtime answered to those before
  -- it: the environment is made with the limits and the namespace of the configuration, which is given
  -- back; each child is started in the module of the new environment under a tag of its own, its handle
  -- is given back, and the tag of its signal is asked for; and at the end the module and then the
  -- environment are given back. Fewer than 2 ^ 64 tags are made.
  pub environment_main-calls :
      (prints allocates loops : ℕ) (m : Mailbox Unit) (w : World)
      → w.counter + 3 < 2 ^ 64
      → environment_main prints allocates loops m w
        ≡ (returned tt, all_failed prints allocates loops w)
  unfolding environment_main Config.new Config.allow_namespace
  environment_main-calls prints allocates loops m w small =
      let config : Config = record { id = config_of w } in
      >>=-returned (unwrap (Environment.new config)) (with_environment prints allocates loops m)
        (environment_made w)
      ∙ >>=-returned (unwrap (add_this_module (Environment.from (env_of w))))
          (with_module prints allocates loops m (Environment.from (env_of w))) (module_added w)
      ∙ children prints allocates loops m w small
