-- ===== src/Trace/Quiet.antt =====
-- Types whose messages neither fail to be written nor send anything of their own.
use rust_lib.Common.{
  ℕ, ◌≡◌, refl, ◌∙◌, sym, List, [], ◌∷◌, ◌++◌, append_assoc, All, All-append, Result, ok, err,
}
use rust_lib.Host.{
  Host, World, Run, Returns, Call, MessageCall, ProcessCall, message, process, networking, after,
}
use rust_lib.MessageRw
use rust_lib.Serde.{Rmp, Serde}
use rust_lib.Trace.{current_tag, sent, releases}

-- The calls that handing values over and dropping them may take.
abbrev pub IsQuiet : Call → Type 0
IsQuiet (message (MessageCall.write_data bytes)) = Unit
IsQuiet (message (MessageCall.push_process process_id)) = Unit
IsQuiet (message (MessageCall.push_tcp_stream tcp_stream_id)) = Unit
IsQuiet (process (ProcessCall.drop_process process_id)) = Unit
IsQuiet (networking c) = Unit
IsQuiet c = ⊥

module _ ⦃h : Host⦄ where
  -- From one world to a later one only quiet calls were made.
  abbrev pub Quietly : World → World → Type 0
  Quietly w w' = (new : List Call) × All IsQuiet new × (w'.calls ≡ new ++ w.calls)

  pub Quietly-refl : (w : World) → Quietly w w
  Quietly-refl w = ([], tt, refl)

  pub Quietly-trans : (w w' w'' : World) → Quietly w w' → Quietly w' w'' → Quietly w w''
  Quietly-trans w w' w'' (new, q, e) (more, q', e') = (
    more ++ new,
    All-append IsQuiet more new q' q,
    rw (e', e) (sym (append_assoc more new w.calls)),
  )

  pub Quietly-call : (c : Call) (w : World) → IsQuiet c → Quietly w (after c w)
  Quietly-call c w q = (c ∷ [], (q, tt), refl)

-- A quiet call changes neither view.
abbrev Unseen : Call → List Call → Type 0
Unseen c calls = (sent (c ∷ calls) ≡ sent calls) × (current_tag (c ∷ calls) ≡ current_tag calls)

quiet-Unseen : (c : Call) (calls : List Call) → IsQuiet c → Unseen c calls
quiet-Unseen (message (MessageCall.create_data _ _)) calls q = absurd q
quiet-Unseen (message (MessageCall.send _)) calls q = absurd q
quiet-Unseen (message (MessageCall.send_receive_skip_search _ _)) calls q = absurd q
quiet-Unseen c calls q = (refl, refl)

quiet_views :
    (new calls : List Call)
    → All IsQuiet new
    → (sent (new ++ calls) ≡ sent calls) × (current_tag (new ++ calls) ≡ current_tag calls)
quiet_views [] calls q = (refl, refl)
quiet_views (c ∷ new) calls (here, q) =
    let u = quiet-Unseen c (new ++ calls) here in
    let rest = quiet_views new calls q in (u.0 ∙ rest.0, u.1 ∙ rest.1)

module _ ⦃h : Host⦄ where
  pub Quietly-sent : (w w' : World) → Quietly w w' → sent w'.calls ≡ sent w.calls
  Quietly-sent w w' (new, q, e) = rw e (quiet_views new w.calls q).0

  pub Quietly-current_tag :
      (w w' : World) → Quietly w w' → current_tag w'.calls ≡ current_tag w.calls
  Quietly-current_tag w w' (new, q, e) = rw e (quiet_views new w.calls q).1

-- What is asked of a type of messages: writing it succeeds, and neither that nor dropping it makes
-- a call that is not quiet, or makes a tag.
abbrev pub Later : ⦃h : Host⦄ → World → World → Type 0
Later w w' = Quietly w w' × (w'.counter ≡ w.counter)

pub record Sends ⦃h : Host⦄ ⦃r : Rmp⦄ {T : Type 0} (s : Serde T) : Type 0 where
  pub writes :
      (m : T) (w : World)
      → Returns (λ written w'. (written.0 ≡ ok tt) × Later w w') (s.serialize MessageRw.write m w)
  pub drops : (m : T) (w : World) → Returns (λ _ w'. Later w w') (s.drop m w)

pub Later-refl : ⦃h : Host⦄ (w : World) → Later w w
Later-refl w = (Quietly-refl w, refl)

pub Later-trans : ⦃h : Host⦄ (w w' w'' : World) → Later w w' → Later w' w'' → Later w w''
Later-trans w w' w'' p q = (Quietly-trans w w' w'' p.0 q.0, q.1 ∙ p.1)

-- Bytes of the message.
abbrev pub IsWrite : Call → Type 0
IsWrite (message (MessageCall.write_data bytes)) = Unit
IsWrite c = ⊥

IsWrite-IsQuiet : (c : Call) → IsWrite c → IsQuiet c
IsWrite-IsQuiet (message (MessageCall.write_data bytes)) q = tt
IsWrite-IsQuiet c q = absurd q

writes-IsQuiet : (new : List Call) → All IsWrite new → All IsQuiet new
writes-IsQuiet [] q = tt
writes-IsQuiet (c ∷ new) (here, q) = (IsWrite-IsQuiet c here, writes-IsQuiet new q)

releases-write :
    (id : ℕ) (c : Call) (calls : List Call)
    → IsWrite c
    → releases id (c ∷ calls) ≡ releases id calls
releases-write id (message (MessageCall.write_data bytes)) calls q = refl
releases-write id c calls q = absurd q

releases-writes :
    (id : ℕ) (new calls : List Call)
    → All IsWrite new
    → releases id (new ++ calls) ≡ releases id calls
releases-writes id [] calls q = refl
releases-writes id (c ∷ new) calls (here, q) =
    releases-write id c (new ++ calls) here ∙ releases-writes id new calls q

-- From one world to a later one only bytes were written, and no tag was made.
abbrev pub Written : ⦃h : Host⦄ → World → World → Type 0
Written w w' =
    (new : List Call) × All IsWrite new × (w'.calls ≡ new ++ w.calls) × (w'.counter ≡ w.counter)

pub Written-Later : ⦃h : Host⦄ (w w' : World) → Written w w' → Later w w'
Written-Later w w' (new, q, e, c) = ((new, writes-IsQuiet new q, e), c)

pub Written-releases :
    ⦃h : Host⦄ (id : ℕ) (w w' : World) → Written w w' → releases id w'.calls ≡ releases id w.calls
Written-releases id w w' (new, q, e, c) = rw e (releases-writes id new w.calls q)

-- What is asked of the serializer: a number, a tag and the head of a struct can be written, which
-- takes writes to the message alone.
pub record Writes ⦃h : Host⦄ (r : Rmp) : Type 0 where
  pub writes_u64 :
      (n : ℕ) (w : World)
      → Returns
          (λ written w'. (written ≡ ok tt) × Written w w')
          (r.serialize_u64 MessageRw.write n w)
  pub writes_i64 :
      (n : ℕ) (w : World)
      → Returns
          (λ written w'. (written ≡ ok tt) × Written w w')
          (r.serialize_i64 MessageRw.write n w)
  pub writes_struct :
      (n : ℕ) (w : World)
      → Returns
          (λ written w'. (written ≡ ok tt) × Written w w')
          (r.serialize_struct MessageRw.write n w)

-- Reading a message sends nothing and makes no tag.
pub record Reads ⦃h : Host⦄ ⦃r : Rmp⦄ {T : Type 0} (s : Serde T) : Type 0 where
  pub reads :
      (w : World)
      → Returns
          (λ _ w'. (sent w'.calls ≡ sent w.calls) × (w'.counter ≡ w.counter))
          (s.deserialize MessageRw.read w)

-- A branch on a result that is `ok`.
pub ok_branch :
    ⦃h : Host⦄ {A E : Type 0} (x : Result Unit E) (failed : E → Run A) (next : Run A) (w : World)
    → x ≡ ok tt
    → (elim x as (λ _. Run A) [ ok _ ↦ next | err e ↦ failed e ]) w ≡ next w
ok_branch (ok a) failed next w e = refl
ok_branch (err x) failed next w e = cc
