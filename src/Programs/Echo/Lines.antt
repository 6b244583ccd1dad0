-- ===== src/Programs/Echo/Lines.antt =====
-- What a connection gets back from examples/tcp_echo_server.rs.
use rust_lib.Common.{
  ◌%◌, ◌^◌, ℕ, zero, suc, ◌≡◌, ◌<◌, ◌∙◌, ap, subst, sym, refl, inl, inr, List, [], ◌∷◌, ◌++◌,
  append_assoc, append-nil, length, take, All, Result, ok, err, Option, none, some, Bool, true,
  false, Bool-cases, arith,
}
use rust_lib.Common.Text.{codes}
use rust_lib.Host.{
  Host, World, Run, returned, panic, pure, Returns, Returns-bind, Returns-weaken, >>=-returned,
  after, answer_to, ◌>>=◌, ◌>>◌, NetworkingCall, networking, Call,
}
use rust_lib.LunaticError.{IoError}
use rust_lib.Mailbox.{Mailbox}
use rust_lib.Net.TcpStream
use rust_lib.Net.TcpStream.{TcpStream}
use rust_lib.Net.TcpStream.Transfer.{Sockets, Streams}
use rust_lib.Programs.Echo.{LineReader, contains, is_last, echo, handle}
use rust_lib.Programs.Echo.Reading.{echoes, Fronts, Lines}
use rust_lib.Serde.{unwrap}

module _ ⦃h : Host⦄ ⦃reader : LineReader⦄ {sockets : Sockets} (law : Streams sockets)
    (lines_law : Lines sockets reader) (c : TcpStream) (Counts : List ℕ → ℕ → Type 0)
    (accepts : (line : List ℕ) (s : h.State)
      → let (status, n) =
          (h.answer
            (networking (NetworkingCall.tcp_write_vectored c.id (line ∷ []) c.write_timeout 0))
            s).0 in
        (status ≡ 0) × Counts line n) where
  abbrev Sent : List (List ℕ) → World → World → Type 0
  Sent lines w w' =
      (bytes : List ℕ) × Fronts Counts (echoes lines) bytes
      × (sockets.accepted w'.host c.id ≡ sockets.accepted w.host c.id ++ bytes)

  abbrev Ended : List (List ℕ) → World → Option reader.Reader → World → Type 0
  Ended lines w ended w' = (r : reader.Reader) × (ended ≡ some r) × Sent lines w w'

  abbrev written : List ℕ → World → World
  written line w =
      after (networking (NetworkingCall.tcp_write_vectored c.id (line ∷ []) c.write_timeout 0)) w

  -- A write of one line.
  write_line :
      (line : List ℕ) (w : World)
      → (n : ℕ) × Counts line n
        × (TcpStream.write c line w ≡ (returned (ok (n % 2 ^ 32)), written line w))
        × (sockets.accepted (written line w).host c.id
            ≡ sockets.accepted w.host c.id ++ take n line)
  unfolding TcpStream.write TcpStream.write_vectored
  write_line line w =
      let a =
        answer_to
          (networking (NetworkingCall.tcp_write_vectored c.id (line ∷ []) c.write_timeout 0)) w in
      let (fine, counts) = accepts line w.host in
      let (sent, _, _) = law.writes c.id (line ∷ []) c.write_timeout w.host fine in
      (
        a.1,
        counts,
        rw fine refl,
        sent ∙ ap (λ bytes. sockets.accepted w.host c.id ++ take a.1 bytes) (append-nil line),
      )

  last_of :
      (line : List ℕ) → contains line (codes "exit") ≡ true → is_last (length line) line ≡ true
  unfolding is_last
  last_of line exits = rw exits refl

  not_last :
      (line : List ℕ)
      → 0 < length line
      → contains line (codes "exit") ≡ false
      → is_last (length line) line ≡ false
  unfolding is_last
  not_last line full stays = rw stays (ground arith)

  -- What the loop does with a line that was read.
  on_last : ℕ → List ℕ → reader.Reader → Bool → Run (Option reader.Reader)
  on_last fuel buffer r last = elim last as (λ _. Run (Option reader.Reader)) [
    | true ↦ pure (some r)
    | false ↦ unwrap (TcpStream.write c buffer) >>= λ _. echo fuel r c
  ]

  abbrev on_line : ℕ → Result ℕ IoError × List ℕ × reader.Reader → Run (Option reader.Reader)
  on_line fuel (result, buffer, r) =
      unwrap (pure result) >>= λ count. on_last fuel buffer r (is_last count buffer)

  -- One line is echoed, and then the others.
  line_echoed :
      (fuel : ℕ) (line : List ℕ) (lines : List (List ℕ)) (r : reader.Reader) (w w₁ : World)
      → contains line (codes "exit") ≡ false
      → sockets.accepted w₁.host c.id ≡ sockets.accepted w.host c.id
      → Returns (Ended lines (written line w₁)) (echo fuel r c (written line w₁))
      → Returns (Ended (line ∷ lines) w) (on_last fuel line r false w₁)
  unfolding on_last
  line_echoed fuel line lines r w w₁ stays same rest =
      let (n, counts, e, sent) = write_line line w₁ in
      subst (Returns (Ended (line ∷ lines) w))
        (sym (
          >>=-returned (unwrap (TcpStream.write c line)) (λ _. echo fuel r c)
            (>>=-returned (TcpStream.write c line)
              (λ result. elim result as (λ _. Run ℕ) [ ok a ↦ pure a | err x ↦ panic ]) e)))
        (Returns-weaken (Ended lines (written line w₁)) (Ended (line ∷ lines) w)
          (echo fuel r c (written line w₁)) rest
          (λ ended w₃ g. (
            g.0,
            g.1,
            (
              take n line ++ g.2.0,
              rw stays (n, g.2.0, counts, refl, g.2.1),
              g.2.2
                  ∙ ap (λ bytes. bytes ++ g.2.0) (sent ∙ ap (λ bytes. bytes ++ take n line) same)
                  ∙ append_assoc (sockets.accepted w.host c.id) (take n line) g.2.0,
            ),
          )))

  pub echo-Ended :
      (fuel : ℕ) (lines : List (List ℕ)) (r : reader.Reader) (w : World)
      → length lines < fuel
      → All (λ line. 0 < length line) lines
      → lines_law.lines_of r w.host ≡ lines
      → Returns (Ended lines w) (echo fuel r c w)
  unfolding echo on_last is_last
  echo-Ended zero lines r w enough full comes = absurd (omega arith)
  echo-Ended (suc fuel) [] r w enough full comes =
      Returns-bind
        (λ x w'.
          (x ≡ (ok 0, [], x.2))
          × ((id : ℕ) → sockets.accepted w'.host id ≡ sockets.accepted w.host id))
        (Ended [] w) (reader.read_line r) (on_line fuel) w (lines_law.ends r w comes)
        (λ x w' g.
          subst (λ y. Returns (Ended [] w) (on_line fuel y w')) (sym g.0)
            (x.2, refl, ([], refl, g.1 c.id ∙ sym (append-nil (sockets.accepted w.host c.id)))))
  echo-Ended (suc fuel) (line ∷ lines) r w enough (full, fulls) comes =
      Returns-bind
        (λ x w'.
          (x ≡ (ok (length line), line, x.2))
          × (lines_law.lines_of x.2 w'.host ≡ lines)
          × ((id : ℕ) → sockets.accepted w'.host id ≡ sockets.accepted w.host id))
        (Ended (line ∷ lines) w) (reader.read_line r) (on_line fuel) w
        (lines_law.reads r line lines w comes)
        (λ x w₁ g.
          subst (λ y. Returns (Ended (line ∷ lines) w) (on_line fuel y w₁)) (sym g.0)
            (elim (Bool-cases (contains line (codes "exit"))) [
              | inl exits ↦
                  subst (λ b. Returns (Ended (line ∷ lines) w) (on_last fuel line x.2 b w₁))
                    (sym (last_of line exits))
                    (
                      x.2,
                      refl,
                      (
                        [],
                        rw exits refl,
                        g.2 c.id ∙ sym (append-nil (sockets.accepted w.host c.id)),
                      ),
                    )
              | inr stays ↦
                  subst (λ b. Returns (Ended (line ∷ lines) w) (on_last fuel line x.2 b w₁))
                    (sym (not_last line full stays))
                    (line_echoed fuel line lines x.2 w w₁ stays (g.2 c.id) (
                      echo-Ended fuel lines x.2 (written line w₁) (omega arith) fulls
                        (lines_law.write_keeps x.2 c.id (line ∷ []) c.write_timeout w₁.host ∙ g.1)))
            ]))

  abbrev pub copied : World → World
  copied w = after (networking (NetworkingCall.clone_tcp_stream c.id)) w

  abbrev pub copy_of : World → TcpStream
  copy_of w = record c {
    id = answer_to (networking (NetworkingCall.clone_tcp_stream c.id)) w;
    consumed = false;
  }

  -- How a connection ends that was handled from `w` on.
  abbrev pub Handled : List (List ℕ) → World → Option (Unit {0}) → World → Type 0
  Handled lines w ended w' =
      (ended ≡ some tt)
      × Sent lines w w'
      × ((calls : List Call) × (w'.calls
            ≡ networking (NetworkingCall.drop_tcp_stream c.id) ∷ calls))

  -- The two drops at the end.
  closed :
      (lines : List (List ℕ)) (r : reader.Reader) (w w₁ : World)
      → c.consumed ≡ false
      → Sent lines w w₁
      → Returns (Handled lines w) ((reader.drop r >> TcpStream.drop c >> pure (some tt)) w₁)
  unfolding TcpStream.drop
  closed lines r w w₁ held (bytes, fronts, sent) =
      Returns-bind
        (λ _ w₂.
          (sockets.accepted w₂.host c.id ≡ sockets.accepted w.host c.id ++ bytes)
          × ((calls : List Call) × (w₂.calls
                ≡ networking (NetworkingCall.drop_tcp_stream c.id) ∷ calls)))
        (Handled lines w) (reader.drop r >> TcpStream.drop c) (λ _. pure (some tt)) w₁
        (Returns-bind (λ _ w₂. (id : ℕ) → sockets.accepted w₂.host id ≡ sockets.accepted w₁.host id)
          (λ _ w₂.
            (sockets.accepted w₂.host c.id ≡ sockets.accepted w.host c.id ++ bytes)
            × ((calls : List Call) × (w₂.calls
                  ≡ networking (NetworkingCall.drop_tcp_stream c.id) ∷ calls)))
          (reader.drop r) (λ _. TcpStream.drop c) w₁ (lines_law.drops_reader r w₁)
          (λ _ w₂ same.
            rw held (lines_law.drops c.id c.id w₂.host ∙ same c.id ∙ sent, (w₂.calls, refl))))
        (λ _ w₂ g. (refl, (bytes, fronts, g.0), g.1))

  -- A connection that is handed to `handle` gets back every line before the first with `exit` in it, or
  -- before the end of the stream, in order and nothing else, each as far as a write of the line is
  -- accepted: from its front, as many bytes as a count of which `Counts` holds, which is any property
  -- that the counts of accepted writes have (the whole line, say, where they are its length). Then the
  -- function returns and gives the handle back. The fuel is more than the number of lines, no line is
  -- empty, every write of a line on the connection is answered 0 with such a count (a failed one is a
  -- panic), the handle was not sent away, and the reader and the runtime keep to `Lines` and `Streams`.
  pub handle-Handled :
      (fuel : ℕ) (lines : List (List ℕ)) (mb : Mailbox Unit) (w : World)
      → c.consumed ≡ false
      → length lines < fuel
      → All (λ line. 0 < length line) lines
      → lines_law.lines_of (reader.new (copy_of w)) (copied w).host ≡ lines
      → Returns (Handled lines w) (handle fuel c mb w)
  unfolding handle TcpStream.clone
  handle-Handled fuel lines mb w held enough full comes =
      Returns-bind (Ended lines (copied w)) (Handled lines w) (echo fuel (reader.new (copy_of w)) c)
        (λ ended. elim ended as (λ _. Run (Option Unit)) [
          | none ↦ pure none
          | some r ↦ reader.drop r >> TcpStream.drop c >> pure (some tt)
        ])
        (copied w) (echo-Ended fuel lines (reader.new (copy_of w)) (copied w) enough full comes)
        (λ ended w₁ (r, e, (bytes, fronts, sent)).
          subst
            (λ (x : Option reader.Reader). Returns (Handled lines w) (
              (elim x as (λ _. Run (Option Unit)) [
                | none ↦ pure none
                | some r' ↦ reader.drop r' >> TcpStream.drop c >> pure (some tt)
              ])
                w₁))
            (sym e)
            (closed lines r w w₁ held (
              bytes,
              fronts,
              sent ∙ ap (λ front. front ++ bytes) (lines_law.clones c.id c.id w.host),
            )))
