-- ===== src/Delivery/Handles.antt =====
-- Handles as messages: the receiver's handle is of the same process or connection
-- (`Serialize` and `Deserialize` of src/process.rs and src/net/tcp_stream.rs).
use rust_lib.Common.{
  ℕ, ◌≡◌, ◌≢◌, ◌∙◌, ◌^◌, ◌<◌, ap, subst, refl, List, [], ◌∷◌, ◌++◌, Result, ok, err, true, some,
  length, Bool-cases, inl, inr,
}
use rust_lib.Delivery.Codec.{Added, Read, Format, Codec, Returns-is}
use rust_lib.Delivery.Runtime.{
  Carried, a_process, a_stream, View, add, add-add, nth, nth-append, Sight, Lawful, Keeps, Spares,
  Keeps-trans,
}
use rust_lib.Host.{
  Host, World, Returns, Returns-bind, pure, ◌>>=◌, after, answer_to, message, MessageCall,
}
use rust_lib.MessageRw
use rust_lib.Net.TcpStream
use rust_lib.Net.TcpStream.{TcpStream, tcp_stream_serde}
use rust_lib.Process
use rust_lib.Process.{Process, process_serde}
use rust_lib.Serde.{Rmp}

module _ ⦃h : Host⦄ ⦃r : Rmp⦄ {sight : Sight} (law : Lawful sight) (format : Format sight r) where
  -- An index behind a handle that was put into the message.
  pub index_written :
      {X : Type 0} (S : X → Type 0) (P : ℕ → Type 0) (n : ℕ) (c : Carried) (x : X) (w w' : World)
      → sight.view w'.host ≡ add (sight.view w.host) [] (c ∷ [])
      → w'.counter ≡ w.counter
      → Spares sight P w.host w'.host
      → S x
      → Returns
          (λ (y : Result Unit r.EncodeError × X) w''.
            (y.0 ≡ ok tt)
            × Added sight (format.u64 n) (c ∷ []) w w''
            × Spares sight P w.host w''.host
            × S y.1)
          ((r.serialize_u64 MessageRw.write n >>= λ written. pure (written, x)) w')
  index_written {X} S P n c x w w' pushed counted spared spent =
      Returns-bind
        (λ y w''.
          (y ≡ ok tt) × (Added sight (format.u64 n) [] w' w'' × Keeps sight w'.host w''.host))
        (λ (y : Result Unit r.EncodeError × X) w''.
          (y.0 ≡ ok tt)
          × Added sight (format.u64 n) (c ∷ []) w w''
          × Spares sight P w.host w''.host
          × S y.1)
        (r.serialize_u64 MessageRw.write n) (λ written. pure (written, x)) w'
        (format.writes_u64 n w')
        (λ y w'' g. (
          g.0,
          (
            g.1.0.0
                ∙ ap (λ (v : View). add v (format.u64 n) []) pushed
                ∙ add-add (sight.view w.host) [] (format.u64 n) (c ∷ []) [],
            g.1.0.1 ∙ counted,
          ),
          λ id pid apart known. g.1.1.0 id pid (spared id pid apart known),
          spent,
        ))

  -- A handle taken out of the message after its index was read.
  pub process_taken :
      (T : Type 0) (w w' : World) (pid : ℕ) (front back : List Carried) (rest : List ℕ)
      → (sight.view w.host).letter.carried ≡ front ++ a_process pid ∷ back
      → Read sight rest w w'
      → Returns
          (λ x w''.
            (q : Process T) × (x ≡ ok q)
            × ((sight.process_of w''.host q.id ≡ some pid) × Read sight rest w w''))
          (Process.visit_u64 (length front) w')
  unfolding Process.visit_u64
  process_taken T w w' pid front back rest carried (view, keeps, counted) =
      let take = message (MessageCall.take_process (length front)) in
      let found : nth (sight.view w'.host).letter.carried (length front) ≡ some (a_process pid) =
        ap (λ (v : View). nth v.letter.carried (length front)) view
        ∙ ap (λ cs. nth cs (length front)) carried
        ∙ nth-append front back (a_process pid) in
      let g = law.takes_process (length front) pid w'.host found in
      (
        Process.from (answer_to take w'),
        refl,
        (
          g.0,
          (
            g.1.0 ∙ view,
            Keeps-trans sight w.host w'.host (after take w').host keeps g.1.1,
            counted,
          ),
        ),
      )

  unfoldable pub process_codec : (T : Type 0) → Codec sight (process_serde {T = T}) ℕ
  unfolding Process.serialize Process.deserialize Process.visit_u64 Process.drop
  process_codec T = record {
    bytes = λ base pid. format.u64 base;
    carried = λ pid. a_process pid ∷ [];
    Fits = λ base pid. base < 2 ^ 64;
    Means = λ s p pid. sight.process_of s p.id ≡ some pid;
    Spent = λ p. p.consumed ≡ true;
    drops_spent = λ p w gone. rw gone (λ id pid e. e, λ id sid e. e);
    Apart = λ p id. id ≢ p.id;
    fresh = λ p pid st id known new same. cc;
    stable = λ p pid s s' keeps e. keeps.0 p.id pid e;
    writes = λ p pid w e.
        let push = message (MessageCall.push_process p.id) in
        let g = law.pushes_process p.id pid w.host e in
        subst
          (λ n.
            Returns
              (λ (y : Result Unit r.EncodeError × Process T) w''.
                (y.0 ≡ ok tt)
                × Added sight (format.u64 n) (a_process pid ∷ []) w w''
                × Spares sight (λ j. j ≢ p.id) w.host w''.host
                × (y.1.consumed ≡ true))
              (Process.serialize MessageRw.write p w))
          g.0
          (index_written (λ (q : Process T). q.consumed ≡ true) (λ j. j ≢ p.id) (answer_to push w)
            (a_process pid) (record p { consumed = true }) w (after push w) g.1 refl g.2 refl);
    drops = λ p w. elim (Bool-cases p.consumed) [
      | inl gone ↦ rw gone (refl, refl)
      | inr held ↦ rw held (law.drops_process p.id w.host, refl)
    ];
    reads = λ pid front back rest w fits unread carried.
        Returns-is (length front) (Read sight rest w)
          (λ x w'.
            (q : Process T) × (x ≡ ok q)
            × ((sight.process_of w'.host q.id ≡ some pid) × Read sight rest w w'))
          (r.deserialize_u64 MessageRw.read)
          (λ y. elim y [ ok index ↦ Process.visit_u64 index | err d ↦ pure (err d) ]) w
          (format.reads_u64 (length front) rest w fits unread)
          (λ w' g. process_taken T w w' pid front back rest carried g);
  }

  -- A connection taken out of the message after its index was read.
  pub stream_taken :
      (w w' : World) (sid : ℕ) (front back : List Carried) (rest : List ℕ)
      → (sight.view w.host).letter.carried ≡ front ++ a_stream sid ∷ back
      → Read sight rest w w'
      → Returns
          (λ x w''.
            (q : TcpStream) × (x ≡ ok q)
            × ((sight.stream_of w''.host q.id ≡ some sid) × Read sight rest w w''))
          (TcpStream.visit_u64 (length front) w')
  unfolding TcpStream.visit_u64
  stream_taken w w' sid front back rest carried (view, keeps, counted) =
      let take = message (MessageCall.take_tcp_stream (length front)) in
      let found : nth (sight.view w'.host).letter.carried (length front) ≡ some (a_stream sid) =
        ap (λ (v : View). nth v.letter.carried (length front)) view
        ∙ ap (λ cs. nth cs (length front)) carried
        ∙ nth-append front back (a_stream sid) in
      let g = law.takes_stream (length front) sid w'.host found in
      (
        TcpStream.from (answer_to take w'),
        refl,
        (
          g.0,
          (
            g.1.0 ∙ view,
            Keeps-trans sight w.host w'.host (after take w').host keeps g.1.1,
            counted,
          ),
        ),
      )

  unfoldable pub stream_codec : Codec sight tcp_stream_serde ℕ
  unfolding TcpStream.serialize TcpStream.deserialize TcpStream.visit_u64 TcpStream.drop
  stream_codec = record {
    bytes = λ base sid. format.u64 base;
    carried = λ sid. a_stream sid ∷ [];
    Fits = λ base sid. base < 2 ^ 64;
    Means = λ s p sid. sight.stream_of s p.id ≡ some sid;
    Spent = λ p. p.consumed ≡ true;
    drops_spent = λ p w gone. rw gone (λ id pid e. e, λ id sid e. e);
    Apart = λ p id. Unit {0};
    fresh = λ p sid st id known new. tt;
    stable = λ p sid s s' keeps e. keeps.1 p.id sid e;
    writes = λ p sid w e.
        let push = message (MessageCall.push_tcp_stream p.id) in
        let g = law.pushes_stream p.id sid w.host e in
        subst
          (λ n.
            Returns
              (λ (y : Result Unit r.EncodeError × TcpStream) w''.
                (y.0 ≡ ok tt)
                × Added sight (format.u64 n) (a_stream sid ∷ []) w w''
                × Spares sight (λ j. Unit {0}) w.host w''.host
                × (y.1.consumed ≡ true))
              (TcpStream.serialize MessageRw.write p w))
          g.0
          (index_written (λ (q : TcpStream). q.consumed ≡ true) (λ j. Unit {0}) (answer_to push w)
            (a_stream sid) (record p { consumed = true }) w (after push w) g.1 refl g.2 refl);
    drops = λ p w. elim (Bool-cases p.consumed) [
      | inl gone ↦ rw gone (refl, refl)
      | inr held ↦ rw held (law.drops_stream p.id w.host, refl)
    ];
    reads = λ sid front back rest w fits unread carried.
        Returns-is (length front) (Read sight rest w)
          (λ x w'.
            (q : TcpStream) × (x ≡ ok q)
            × ((sight.stream_of w'.host q.id ≡ some sid) × Read sight rest w w'))
          (r.deserialize_u64 MessageRw.read)
          (λ y. elim y [ ok index ↦ TcpStream.visit_u64 index | err d ↦ pure (err d) ]) w
          (format.reads_u64 (length front) rest w fits unread)
          (λ w' g. stream_taken w w' sid front back rest carried g);
  }
