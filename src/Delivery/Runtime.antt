-- ===== src/Delivery/Runtime.antt =====
-- What the library relies on in the functions of src/host_api.rs that handle messages. The runtime is
-- not code of this repository: its state is seen through the fields here, and the laws are what each
-- call does to them.
use rust_lib.Common.{
  ℕ, zero, suc, ◌≡◌, ◌≢◌, refl, ap, List, [], ◌∷◌, ◌++◌, append_assoc, Option, none, some, length,
}
use rust_lib.Host.{
  Host, Call, MessageCall, NetworkingCall, ProcessCall, message, networking, process,
}

-- What travels in a message beside its bytes: the process, or the connection, behind a handle.
pub data Carried : Type 0 where
  a_process : ℕ → Carried
  a_stream : ℕ → Carried

pub record Letter : Type 0 where
  pub tag : ℕ
  pub bytes : List ℕ
  pub carried : List Carried

-- The scratch buffer: the message in it, and the bytes of it that were not read yet. The letters
-- that the process has sent, each with the process it is for, newest first.
pub record View : Type 0 where
  pub letter : Letter
  pub unread : List ℕ
  pub posted : List (ℕ × Letter)

abbrev pub blank : ℕ → Letter
blank tag = record { tag = tag; bytes = []; carried = [] }

-- A letter with more written behind it.
abbrev pub extend : Letter → List ℕ → List Carried → Letter
extend l bytes carried = record l { bytes = l.bytes ++ bytes; carried = l.carried ++ carried }

abbrev pub add : View → List ℕ → List Carried → View
add v bytes carried = record v { letter = extend v.letter bytes carried }

pub extend-extend :
    (l : Letter) (bs bs' : List ℕ) (cs cs' : List Carried)
    → extend (extend l bs cs) bs' cs' ≡ extend l (bs ++ bs') (cs ++ cs')
extend-extend l bs bs' cs cs' = rw (append_assoc l.bytes bs bs', append_assoc l.carried cs cs') refl

pub add-add :
    (v : View) (bs bs' : List ℕ) (cs cs' : List Carried)
    → add (add v bs cs) bs' cs' ≡ add v (bs ++ bs') (cs ++ cs')
add-add v bs bs' cs cs' =
    ap (λ (l : Letter). record v { letter = l }) (extend-extend v.letter bs bs' cs cs')

abbrev pub nth : List Carried → ℕ → Option Carried
nth [] i = none
nth (c ∷ cs) zero = some c
nth (c ∷ cs) (suc i) = nth cs i

pub nth-append :
    (front back : List Carried) (c : Carried) → nth (front ++ c ∷ back) (length front) ≡ some c
nth-append [] back c = refl
nth-append (d ∷ front) back c = nth-append front back c

module _ ⦃h : Host⦄ where
  abbrev pub next_state : Call → h.State → h.State
  next_state c s = (h.answer c s).1

-- The state of the runtime as the process sees it: its scratch buffer, which process or connection
-- is behind a handle, and which process it is itself.
pub record Sight ⦃h : Host⦄ : Type 0 where
  pub view : h.State → View
  pub process_of : h.State → ℕ → Option ℕ
  pub stream_of : h.State → ℕ → Option ℕ
  pub self : h.State → ℕ

module _ ⦃h : Host⦄ (sight : Sight) where
  -- Handles stay what they are.
  abbrev pub Keeps : h.State → h.State → Type 0
  Keeps s s' =
      ((id pid : ℕ) → sight.process_of s id ≡ some pid → sight.process_of s' id ≡ some pid)
      × ((id sid : ℕ) → sight.stream_of s id ≡ some sid → sight.stream_of s' id ≡ some sid)

  -- The call leaves the scratch buffer and the handles as they are.
  abbrev pub Leaves : Call → h.State → Type 0
  Leaves c s = (sight.view (next_state c s) ≡ sight.view s) × Keeps s (next_state c s)

  -- The process handles of some numbers stay what they are.
  abbrev pub Spares : (ℕ → Type 0) → h.State → h.State → Type 0
  Spares P s s' =
      (id pid : ℕ) → P id → sight.process_of s id ≡ some pid → sight.process_of s' id ≡ some pid

  -- A new handle, of the number `id`.
  abbrev pub Spawned : ℕ → h.State → h.State → Type 0
  Spawned id s s' =
      (sight.process_of s id ≡ none)
      × ((sight.view s' ≡ sight.view s) × Keeps s s')
      × ((pid : ℕ) × (sight.process_of s' id ≡ some pid))

  pub Keeps-trans : (s s' s'' : h.State) → Keeps s s' → Keeps s' s'' → Keeps s s''
  Keeps-trans s s' s'' k k' =
      (λ id pid e. k'.0 id pid (k.0 id pid e), λ id sid e. k'.1 id sid (k.1 id sid e))

pub record Lawful ⦃h : Host⦄ (sight : Sight) : Type 0 where
  pub creates :
      (tag capacity : ℕ) (s : h.State)
      → let c = message (MessageCall.create_data tag capacity) in
        (sight.view (next_state c s) ≡ record (sight.view s) { letter = blank tag })
        × Keeps sight s (next_state c s)
  pub writes :
      (bytes : List ℕ) (s : h.State)
      → let c = message (MessageCall.write_data bytes) in
        (sight.view (next_state c s) ≡ add (sight.view s) bytes []) × Keeps sight s (next_state c s)
  -- A read of as many bytes as there are gives them.
  pub reads :
      (front rest : List ℕ) (s : h.State)
      → (sight.view s).unread ≡ front ++ rest
      → let c = message (MessageCall.read_data (length front)) in
        (((h.answer c s).0 ≡ (length front, front))
          × (sight.view (next_state c s) ≡ record (sight.view s) { unread = rest }))
        × Keeps sight s (next_state c s)
  -- A handle moves into the message, and its place there is the answer.
  pub pushes_process :
      (id pid : ℕ) (s : h.State)
      → sight.process_of s id ≡ some pid
      → let c = message (MessageCall.push_process id) in
        ((h.answer c s).0 ≡ length (sight.view s).letter.carried)
        × (sight.view (next_state c s) ≡ add (sight.view s) [] (a_process pid ∷ []))
        × Spares sight (λ j. j ≢ id) s (next_state c s)
  pub pushes_stream :
      (id sid : ℕ) (s : h.State)
      → sight.stream_of s id ≡ some sid
      → let c = message (MessageCall.push_tcp_stream id) in
        ((h.answer c s).0 ≡ length (sight.view s).letter.carried)
        × (sight.view (next_state c s) ≡ add (sight.view s) [] (a_stream sid ∷ []))
        × Spares sight (λ j. Unit {0}) s (next_state c s)
  -- A handle out of the message gets a number of its own.
  pub takes_process :
      (index pid : ℕ) (s : h.State)
      → nth (sight.view s).letter.carried index ≡ some (a_process pid)
      → let c = message (MessageCall.take_process index) in
        (sight.process_of (next_state c s) (h.answer c s).0 ≡ some pid) × Leaves sight c s
  pub takes_stream :
      (index sid : ℕ) (s : h.State)
      → nth (sight.view s).letter.carried index ≡ some (a_stream sid)
      → let c = message (MessageCall.take_tcp_stream index) in
        (sight.stream_of (next_state c s) (h.answer c s).0 ≡ some sid) × Leaves sight c s
  -- The letter is posted; what the buffer holds then is left open.
  pub sends :
      (id pid : ℕ) (s : h.State)
      → sight.process_of s id ≡ some pid
      → let c = message (MessageCall.send id) in
        ((sight.view (next_state c s)).posted
          ≡ (pid, (sight.view s).letter) ∷ (sight.view s).posted)
        × Keeps sight s (next_state c s)
  pub searches :
      (id pid limit : ℕ) (s : h.State)
      → sight.process_of s id ≡ some pid
      → let c = message (MessageCall.send_receive_skip_search id limit) in
        ((sight.view (next_state c s)).posted
          ≡ (pid, (sight.view s).letter) ∷ (sight.view s).posted)
        × Keeps sight s (next_state c s)
  pub gets_tag :
      (s : h.State)
      → let c = message MessageCall.get_tag in
        ((h.answer c s).0 ≡ (sight.view s).letter.tag) × Leaves sight c s
  -- A new handle, to the process itself.
  pub finds_self :
      (s : h.State)
      → let c = process ProcessCall.this in
        (sight.process_of s (h.answer c s).0 ≡ none)
        × (sight.process_of (next_state c s) (h.answer c s).0 ≡ some (sight.self s))
        × Leaves sight c s
  -- A child that was started gets a new handle.
  pub spawns :
      (link module_id : ℕ) (function params : List ℕ) (s : h.State)
      → let c = process (ProcessCall.spawn link module_id function params 0) in
        (h.answer c s).0.0 ≡ 0 → Spawned sight (h.answer c s).0.1 s (next_state c s)
  pub inherits :
      (link : ℕ) (function params : List ℕ) (s : h.State)
      → let c = process (ProcessCall.inherit_spawn link function params 0) in
        (h.answer c s).0.0 ≡ 0 → Spawned sight (h.answer c s).0.1 s (next_state c s)
  -- Where no child is started, no letter is touched.
  pub spawn_fails :
      (link module_id : ℕ) (function params : List ℕ) (s : h.State)
      → let c = process (ProcessCall.spawn link module_id function params 0) in
        (h.answer c s).0.0 ≢ 0 → sight.view (next_state c s) ≡ sight.view s
  pub inherit_fails :
      (link : ℕ) (function params : List ℕ) (s : h.State)
      → let c = process (ProcessCall.inherit_spawn link function params 0) in
        (h.answer c s).0.0 ≢ 0 → sight.view (next_state c s) ≡ sight.view s
  pub traps :
      (mode : ℕ) (s : h.State) → Leaves sight (process (ProcessCall.die_when_link_dies mode)) s
  pub drops_process :
      (id : ℕ) (s : h.State)
      → sight.view (next_state (process (ProcessCall.drop_process id)) s) ≡ sight.view s
  pub drops_stream :
      (id : ℕ) (s : h.State)
      → sight.view (next_state (networking (NetworkingCall.drop_tcp_stream id)) s) ≡ sight.view s
