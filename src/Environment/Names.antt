-- ===== src/Environment/Names.antt =====
-- The names of processes, from `register` to `lookup` (src/environment.rs).
use rust_lib.Common.{
  ℕ, ◌≡◌, ◌≢◌, ◌∙◌, ap, ap₂, subst, sym, refl, List, [], ◌∷◌, All, Result, ok, err, Option, some,
  Bool, arith, true, false, if◌then◌else◌, Bool-cases, inl, inr,
}
use rust_lib.Common.Bytes.{bytes_eq}
use mathlib.Core.Bool.{◌&&◌}
use rust_lib.Environment.Registry.{register_branches, lookup_branches}
use rust_lib.Environment.{Environment, RegistryError, incorrect_semver, register, lookup}
use rust_lib.Host.{
  Host, World, Run, Returns, Returns-bind, pure, ◌>>=◌, after, ProcessCall, process,
}
use rust_lib.Process
use rust_lib.Process.{Process}

-- The environment that the process belongs to: which process is registered in it under a name and
-- a version, which process is behind a handle, and which texts are versions.
pub record Names ⦃h : Host⦄ : Type 0 where
  pub here : Environment
  pub is_version : List ℕ → Bool
  pub registered : h.State → List ℕ → List ℕ → Option ℕ
  pub process_of : h.State → ℕ → Option ℕ

abbrev pub same : List ℕ → List ℕ → List ℕ → List ℕ → Bool
same name version name' version' = bytes_eq name name' && bytes_eq version version'

-- What the documentation says of the runtime: a registration overwrites the one under the same name and
-- exactly the same version, and no other; a text that is not a version is answered 1; and a query that
-- is an exact version finds what is registered under it.
pub record Registers ⦃h : Host⦄ (names : Names) : Type 0 where
  pub registers :
      (name version : List ℕ) (id pid : ℕ) (s : h.State)
      → names.is_version version ≡ true
      → names.process_of s id ≡ some pid
      → let (status, s') =
          h.answer (process (ProcessCall.register name version names.here.id id)) s in
        (status ≡ 0)
        × ((name' version' : List ℕ)
            → names.registered s' name' version' ≡ (
                if same name version name' version'
                then some pid
                else names.registered s name' version'))
        × ((j : ℕ) → names.process_of s' j ≡ names.process_of s j)
  pub rejects :
      (name version : List ℕ) (id : ℕ) (s : h.State)
      → names.is_version version ≡ false
      → let (status, s') =
          h.answer (process (ProcessCall.register name version names.here.id id)) s in
        (status ≡ 1)
        × ((name' version' : List ℕ)
            → names.registered s' name' version' ≡ names.registered s name' version')
        × ((j : ℕ) → names.process_of s' j ≡ names.process_of s j)
  pub drops :
      (id : ℕ) (s : h.State)
      → let (_, s') = h.answer (process (ProcessCall.drop_process id)) s in
        ((name version : List ℕ)
          → names.registered s' name version ≡ names.registered s name version)
        × ((j : ℕ) → id ≢ j → names.process_of s' j ≡ names.process_of s j)
  pub looks_up :
      (name version : List ℕ) (pid : ℕ) (s : h.State)
      → names.is_version version ≡ true
      → names.registered s name version ≡ some pid
      → let (a, s') = h.answer (process (ProcessCall.lookup name version 0)) s in
        (a.0 ≡ 0) × (names.process_of s' a.1 ≡ some pid)

-- A registration: a handle, and the process behind it.
pub record Entry (T : Type 0) : Type 0 where
  pub name : List ℕ
  pub version : List ℕ
  pub handle : Process T
  pub pid : ℕ

module _ ⦃h : Host⦄ {T : Type 0} where
  unfoldable pub register_all :
      Environment → List (Entry T) → Run (List (Result Unit RegistryError))
  register_all e [] = pure []
  register_all e (x ∷ entries) = do
    result ← register e x.name x.version x.handle
    rest ← register_all e entries
    pure (result ∷ rest)

module _ ⦃h : Host⦄ {T : Type 0} (names : Names) where
  -- The specification: what each registration results in, and what is under a name after them all.
  abbrev pub result_of : Entry T → Result Unit RegistryError
  result_of x = if names.is_version x.version then ok tt else err incorrect_semver

  abbrev pub results_of : List (Entry T) → List (Result Unit RegistryError)
  results_of [] = []
  results_of (x ∷ entries) = result_of x ∷ results_of entries

  abbrev pub update : List ℕ → List ℕ → Entry T → Option ℕ → Option ℕ
  update name version x before =
      if names.is_version x.version
      then (if same x.name x.version name version then some x.pid else before)
      else before

  abbrev pub latest : List ℕ → List ℕ → List (Entry T) → Option ℕ → Option ℕ
  latest name version [] before = before
  latest name version (x ∷ entries) before =
      latest name version entries (update name version x before)

  -- The handles are held, each denotes its process, and no two have the same number.
  abbrev pub Held : h.State → List (Entry T) → Type 0
  Held s [] = Unit
  Held s (x ∷ entries) =
      (x.handle.consumed ≡ false)
      × (names.process_of s x.handle.id ≡ some x.pid)
      × All (λ (y : Entry T). x.handle.id ≢ y.handle.id) entries
      × Held s entries

  Held-kept :
      (id : ℕ) (s s' : h.State) (entries : List (Entry T))
      → ((j : ℕ) → id ≢ j → names.process_of s' j ≡ names.process_of s j)
      → All (λ (y : Entry T). id ≢ y.handle.id) entries
      → Held s entries
      → Held s' entries
  Held-kept id s s' [] keeps apart held = tt
  Held-kept id s s' (x ∷ entries) keeps (other, apart) (free, known, distinct, held) =
      (free, keeps x.handle.id other ∙ known, distinct, Held-kept id s s' entries keeps apart held)

  -- A handle of the process was found.
  abbrev pub Found : ℕ → Result (Option (Process T)) RegistryError → World → Type 0
  Found pid found w' =
      (q : Process T) × (found ≡ ok (some q)) × (names.process_of w'.host q.id ≡ some pid)

  abbrev pub Looked :
      List (Entry T)
      → ℕ
      → List (Result Unit RegistryError) × Result (Option (Process T)) RegistryError
      → World
      → Type 0
  Looked entries pid (results, found) w' = (results ≡ results_of entries) × Found pid found w'

  -- Any list of registrations, and then a lookup.
  unfoldable pub register_then_lookup :
      List (Entry T)
      → List ℕ
      → List ℕ
      → Run (List (Result Unit RegistryError) × Result (Option (Process T)) RegistryError)
  register_then_lookup entries name version = do
    results ← register_all names.here entries
    found ← lookup name version
    pure (results, found)

  module _ (law : Registers names) where
    -- What one registration does.
    Registered : Entry T → World → Result Unit RegistryError → World → Type 0
    Registered x w result w' =
        (result ≡ result_of x)
        × ((name version : List ℕ)
            → names.registered w'.host name version
              ≡ update name version x (names.registered w.host name version))
        × ((j : ℕ) → x.handle.id ≢ j → names.process_of w'.host j ≡ names.process_of w.host j)

    register-Registered :
        (x : Entry T) (w : World)
        → x.handle.consumed ≡ false
        → names.process_of w.host x.handle.id ≡ some x.pid
        → Returns (Registered x w) (register names.here x.name x.version x.handle w)
    unfolding Registered
    register-Registered x w free known =
        let c = process (ProcessCall.register x.name x.version names.here.id x.handle.id) in
        let (kept, handles) = law.drops x.handle.id (after c w).host in
        let branches = register_branches names.here x.name x.version x.handle w free in
        elim (Bool-cases (names.is_version x.version)) [
          | inl valid ↦
              let (zero_status, writes, keeps) =
                law.registers x.name x.version x.handle.id x.pid w.host valid known in
              elim branches [
                | inl (_, e) ↦ subst (Returns (Registered x w)) (sym e) (
                    rw valid (
                      refl,
                      λ name version. kept name version ∙ writes name version,
                      λ j other. handles j other ∙ keeps j,
                    ))
                | inr (inl (one, _)) ↦ absurd (omega (arith, zero_status, one))
                | inr (inr (other, _, _)) ↦ absurd (other zero_status)
              ]
          | inr wrong ↦
              let (one_status, writes, keeps) =
                law.rejects x.name x.version x.handle.id w.host wrong in
              elim branches [
                | inl (zero_status, _) ↦ absurd (omega (arith, zero_status, one_status))
                | inr (inl (_, e)) ↦ subst (Returns (Registered x w)) (sym e) (
                    rw wrong (
                      refl,
                      λ name version. kept name version ∙ writes name version,
                      λ j other. handles j other ∙ keeps j,
                    ))
                | inr (inr (_, other, _)) ↦ absurd (other one_status)
              ]
        ]

    abbrev AllRegistered :
        List (Entry T) → World → List (Result Unit RegistryError) → World → Type 0
    AllRegistered entries w results w' =
        (results ≡ results_of entries)
        × ((name version : List ℕ)
            → names.registered w'.host name version
              ≡ latest name version entries (names.registered w.host name version))

    register_all-AllRegistered :
        (entries : List (Entry T)) (w : World)
        → Held w.host entries
        → Returns (AllRegistered entries w) (register_all names.here entries w)
    unfolding register_all Registered
    register_all-AllRegistered [] w held = (refl, λ name version. refl)
    register_all-AllRegistered (x ∷ entries) w (free, known, apart, held) =
        Returns-bind (Registered x w) (AllRegistered (x ∷ entries) w)
          (register names.here x.name x.version x.handle)
          (λ result. register_all names.here entries >>= λ rest. pure (result ∷ rest)) w
          (register-Registered x w free known)
          (λ result w₁ one.
            Returns-bind (AllRegistered entries w₁) (AllRegistered (x ∷ entries) w)
              (register_all names.here entries) (λ rest. pure (result ∷ rest)) w₁
              (register_all-AllRegistered entries w₁
                (Held-kept x.handle.id w.host w₁.host entries one.2 apart held))
              (λ rest w₂ others. (
                ap₂ (λ r rs. r ∷ rs) one.0 others.0,
                λ name version.
                    others.1 name version ∙ ap (latest name version entries) (one.1 name version),
              )))

    -- After any list of registrations in the environment of the process, whose handles are held and
    -- differ in number, a lookup by a name and a version returns a handle of the process that was
    -- registered last under the two, or of the one from before the list where there is none in it;
    -- and each registration has succeeded if its version is one, and reported it as malformed if not.
    -- The version that is looked up is one, something is registered under the name and it, and the
    -- runtime keeps names as `Registers` says.
    pub register-lookup :
        (entries : List (Entry T)) (name version : List ℕ) (pid : ℕ) (w : World)
        → Held w.host entries
        → names.is_version version ≡ true
        → latest name version entries (names.registered w.host name version) ≡ some pid
        → Returns (Looked entries pid) (register_then_lookup entries name version w)
    unfolding register_then_lookup
    register-lookup entries name version pid w held valid last =
        Returns-bind (AllRegistered entries w) (Looked entries pid)
          (register_all names.here entries)
          (λ results. lookup {T = T} name version >>= λ found. pure (results, found)) w
          (register_all-AllRegistered entries w held)
          (λ results w₁ all.
            let (zero_status, denotes) =
              law.looks_up name version pid w₁.host valid (all.1 name version ∙ last) in
            Returns-bind (Found pid) (Looked entries pid) (lookup {T = T} name version)
              (λ found. pure (results, found)) w₁
              (elim (lookup_branches T name version w₁) [
                | inl (_, e) ↦ subst (Returns (Found pid)) (sym e) (Process.from _, refl, denotes)
                | inr (inl (one, _)) ↦ absurd (omega (arith, zero_status, one))
                | inr (inr (inl (two, _))) ↦ absurd (omega (arith, zero_status, two))
                | inr (inr (inr (other, _, _, _))) ↦ absurd (other zero_status)
              ])
              (λ found w₂ q. (all.0, q)))
