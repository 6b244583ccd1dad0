-- ===== src/Trace.antt =====
-- What the calls of a process say, newest first: an outside view that no operation computes with.
pub mod Quiet
use rust_lib.Common.{ℕ, ◌+◌, ◌≡◌, List, [], ◌∷◌, ◌++◌, All, Bool, true, false, ◌==◌, if◌then◌else◌}
use rust_lib.Host.{Host, World, Call, MessageCall, ProcessCall, message, process, networking, error}

-- The tag of the message that is being written.
abbrev pub current_tag : List Call → ℕ
current_tag [] = 0
current_tag (message (MessageCall.create_data tag capacity) ∷ calls) = tag
current_tag (c ∷ calls) = current_tag calls

-- The messages that were sent, each with the process it went to and its tag.
abbrev pub sent : List Call → List (ℕ × ℕ)
sent [] = []
sent (message (MessageCall.send process_id) ∷ calls) = (process_id, current_tag calls) ∷ sent calls
sent (message (MessageCall.send_receive_skip_search process_id limit) ∷ calls) =
    (process_id, current_tag calls) ∷ sent calls
sent (c ∷ calls) = sent calls

-- How often a process handle was given back: dropped, or moved into a message.
abbrev pub releases : ℕ → List Call → ℕ
releases id [] = 0
releases id (process (ProcessCall.drop_process i) ∷ calls) =
    (if i == id then 1 else 0) + releases id calls
releases id (message (MessageCall.push_process i) ∷ calls) =
    (if i == id then 1 else 0) + releases id calls
releases id (c ∷ calls) = releases id calls

-- Whether the process dies with its links, which it does until it is told otherwise.
abbrev pub traps : List Call → Bool
traps [] = true
traps (process (ProcessCall.die_when_link_dies trap) ∷ calls) = if trap == 0 then false else true
traps (c ∷ calls) = traps calls
