-- ===== src/Net/TcpStream/Transfer.antt =====
-- What goes over a connection through the methods of `Write` and `Read` (src/net/tcp_stream.rs).
use rust_lib.Common.{
  ℕ, zero, suc, ◌≡◌, ◌≢◌, ◌≤◌, ◌<◌, ◌^◌, ◌%◌, ◌∙◌, ap, subst, sym, refl, List, [], ◌∷◌, ◌++◌,
  append_assoc, append-nil, Result, ok, err, length, take, concat, fill, All, arith, ◌==◌, ==→eq,
  ==-false→ne, Bool-cases, inl, inr, if◌then◌else◌,
}
use rust_lib.Common.Bytes.{IsByte}
use rust_lib.Host.{
  Host, World, Run, Returns, Returns-bind, pure, ◌>>=◌, after, answer_to, NetworkingCall,
  networking,
}
use rust_lib.LunaticError
use rust_lib.LunaticError.{IoError, other}
use rust_lib.Net.TcpStream.{TcpStream, write, write_vectored, flush, read}

-- The two directions of the connections, by the numbers of their handles: the bytes that the
-- runtime has accepted, and those that are to come.
pub record Sockets ⦃h : Host⦄ : Type 0 where
  pub accepted : h.State → ℕ → List ℕ
  pub coming : h.State → ℕ → List ℕ

module _ ⦃h : Host⦄ (sockets : Sockets) where
  abbrev pub Unmoved : ℕ → h.State → h.State → Type 0
  Unmoved id s s' =
      (sockets.accepted s' id ≡ sockets.accepted s id)
      × (sockets.coming s' id ≡ sockets.coming s id)

-- What a runtime is asked for: with status 0 a write accepts as many bytes as it says, from the front
-- of the buffers and no more than they hold, and a read gives as many of those to come as it says, and no more than there is
-- space; with another status no byte moves.
pub record Streams ⦃h : Host⦄ (sockets : Sockets) : Type 0 where
  pub writes :
      (id : ℕ) (bufs : List (List ℕ)) (limit : ℕ) (s : h.State)
      → let c = networking (NetworkingCall.tcp_write_vectored id bufs limit 0) in
        let a = (h.answer c s).0 in
        a.0 ≡ 0
        → (sockets.accepted (h.answer c s).1 id ≡ sockets.accepted s id ++ take a.1 (concat bufs))
          × (sockets.coming (h.answer c s).1 id ≡ sockets.coming s id)
          × (a.1 ≤ length (concat bufs))
  pub write_fails :
      (id : ℕ) (bufs : List (List ℕ)) (limit : ℕ) (s : h.State)
      → let c = networking (NetworkingCall.tcp_write_vectored id bufs limit 0) in
        (h.answer c s).0.0 ≢ 0 → Unmoved sockets id s (h.answer c s).1
  pub reads :
      (id space limit : ℕ) (s : h.State)
      → let c = networking (NetworkingCall.tcp_read id space limit 0) in
        let (status, n, bytes) = (h.answer c s).0 in
        status ≡ 0
        → (length bytes ≡ n)
          × (n ≤ space)
          × All IsByte bytes
          × (sockets.coming s id ≡ bytes ++ sockets.coming (h.answer c s).1 id)
          × (sockets.accepted (h.answer c s).1 id ≡ sockets.accepted s id)
  pub read_fails :
      (id space limit : ℕ) (s : h.State)
      → let c = networking (NetworkingCall.tcp_read id space limit 0) in
        (h.answer c s).0.0 ≢ 0 → Unmoved sockets id s (h.answer c s).1
  pub flushes :
      (id : ℕ) (s : h.State)
      → Unmoved sockets id s (h.answer (networking (NetworkingCall.tcp_flush id 0)) s).1

-- What a program does with a connection, and what it is told.
pub data Action : Type 0 where
  put : List ℕ → Action
  put_vectored : List (List ℕ) → Action
  get : List ℕ → Action
  flushed : Action

pub data Told : Type 0 where
  wrote : List ℕ → Result ℕ IoError → Told
  got : Result ℕ IoError → List ℕ → Told
  nothing : Told

-- The buffers of a guest on wasm32 hold fewer than 2 ^ 32 bytes.
abbrev pub IsSmall : Action → Type 0
IsSmall (put buf) = length buf < 2 ^ 32
IsSmall (put_vectored bufs) = length (concat bufs) < 2 ^ 32
IsSmall (get buf) = length buf < 2 ^ 32
IsSmall flushed = Unit

module _ ⦃h : Host⦄ where
  unfoldable pub act : TcpStream → Action → Run Told
  act c (put buf) = do n ← write c buf; pure (wrote buf n)
  act c (put_vectored bufs) = do n ← write_vectored c bufs; pure (wrote (concat bufs) n)
  act c (get buf) = do (n, buf') ← read c buf; pure (got n buf')
  act c flushed = do _ ← flush c; pure nothing

  unfoldable pub act_all : TcpStream → List Action → Run (List Told)
  act_all c [] = pure []
  act_all c (a ∷ actions) = do told ← act c a; rest ← act_all c actions; pure (told ∷ rest)

-- The bytes that the counts say were written, and those that they say were read.
abbrev pub sent_of : Told → List ℕ
sent_of (wrote buf (ok n)) = take n buf
sent_of (wrote buf (err e)) = []
sent_of (got n buf) = []
sent_of nothing = []

abbrev pub read_of : Told → List ℕ
read_of (wrote buf n) = []
read_of (got (ok n) buf) = take n buf
read_of (got (err e) buf) = []
read_of nothing = []

abbrev pub all_of : (Told → List ℕ) → List Told → List ℕ
all_of f [] = []
all_of f (t ∷ told) = f t ++ all_of f told

take-fill :
    (buf bytes : List ℕ) (n : ℕ)
    → length bytes ≡ n
    → n ≤ length buf
    → All IsByte bytes
    → take n (fill buf bytes) ≡ bytes
take-fill buf [] zero count fits b = refl
take-fill buf [] (suc n) count fits b = absurd (omega arith)
take-fill buf (x ∷ bytes) zero count fits b = absurd (omega arith)
take-fill [] (x ∷ bytes) (suc n) count fits b = absurd (omega arith)
take-fill (y ∷ buf) (x ∷ bytes) (suc n) count fits (byte, b) =
    let keep : x % 256 ≡ x = omega arith in
    rw (keep, take-fill buf bytes n (omega arith) (omega arith) b)

module _ ⦃h : Host⦄ {sockets : Sockets} (law : Streams sockets) where
  -- What is told of one action, or of several, is what moved.
  abbrev pub Moved : ℕ → World → List ℕ → List ℕ → World → Type 0
  Moved id w out into w' =
      (sockets.accepted w'.host id ≡ sockets.accepted w.host id ++ out)
      × (sockets.coming w.host id ≡ into ++ sockets.coming w'.host id)

  Moved-trans :
      (id : ℕ) (w w₁ w₂ : World) (out out' into into' : List ℕ)
      → Moved id w out into w₁
      → Moved id w₁ out' into' w₂
      → Moved id w (out ++ out') (into ++ into') w₂
  Moved-trans id w w₁ w₂ out out' into into' (sends, comes) (sends', comes') = (
    sends' ∙ ap (λ bytes. bytes ++ out') sends ∙ append_assoc (sockets.accepted w.host id) out out',
    comes
        ∙ ap (λ bytes. into ++ bytes) comes'
        ∙ sym (append_assoc into into' (sockets.coming w₂.host id)),
  )

  -- What `write_vectored` tells of the buffers.
  put_told : TcpStream → List (List ℕ) → World → Result ℕ IoError
  put_told c bufs w =
      let a =
        answer_to (networking (NetworkingCall.tcp_write_vectored c.id bufs c.write_timeout 0)) w in
      if a.0 == 0 then ok (a.1 % 2 ^ 32) else err (other (LunaticError.from a.1))

  puts-Moved :
      (c : TcpStream) (bufs : List (List ℕ)) (w : World)
      → length (concat bufs) < 2 ^ 32
      → Moved c.id w
          (sent_of (wrote (concat bufs) (put_told c bufs w)))
          []
          (after (networking (NetworkingCall.tcp_write_vectored c.id bufs c.write_timeout 0)) w)
  unfolding put_told
  puts-Moved c bufs w small =
      let a =
        answer_to (networking (NetworkingCall.tcp_write_vectored c.id bufs c.write_timeout 0)) w in
      elim (Bool-cases (a.0 == 0)) [
        | inl fine ↦
            let (accepts, keeps, fits) =
              law.writes c.id bufs c.write_timeout w.host (==→eq a.0 0 fine) in
            let whole : a.1 % 2 ^ 32 ≡ a.1 = omega arith in rw (fine, whole) (accepts, sym keeps)
        | inr failed ↦
            let (keeps, keeps') =
              law.write_fails c.id bufs c.write_timeout w.host (==-false→ne a.0 0 failed) in
            rw failed (keeps ∙ sym (append-nil (sockets.accepted w.host c.id)), sym keeps')
      ]

  gets-Moved :
      (c : TcpStream) (buf : List ℕ) (w : World)
      → length buf < 2 ^ 32
      → Returns
          (λ (told : Result ℕ IoError × List ℕ) w'.
            Moved c.id w [] (read_of (got told.0 told.1)) w')
          (read c buf w)
  unfolding read
  gets-Moved c buf w small =
      let a =
        answer_to (networking (NetworkingCall.tcp_read c.id (length buf) c.read_timeout 0)) w in
      elim (Bool-cases (a.0 == 0)) [
        | inl fine ↦
            let (count, fits, bytes, comes, keeps) =
              law.reads c.id (length buf) c.read_timeout w.host (==→eq a.0 0 fine) in
            let whole : a.1 % 2 ^ 32 ≡ a.1 = omega arith in
            rw (fine, whole)
              (
                keeps ∙ sym (append-nil (sockets.accepted w.host c.id)),
                comes
                    ∙ ap
                        (λ front.
                          front
                          ++ sockets.coming
                              (after
                                (networking
                                  (NetworkingCall.tcp_read c.id (length buf) c.read_timeout 0))
                                w).host
                              c.id)
                        (sym (take-fill buf a.2 a.1 count fits bytes)),
              )
        | inr failed ↦
            let (keeps, keeps') =
              law.read_fails c.id (length buf) c.read_timeout w.host (==-false→ne a.0 0 failed) in
            rw failed (keeps ∙ sym (append-nil (sockets.accepted w.host c.id)), sym keeps')
      ]

  act-Moved :
      (c : TcpStream) (a : Action) (w : World)
      → IsSmall a
      → Returns (λ told w'. Moved c.id w (sent_of told) (read_of told) w') (act c a w)
  unfolding act write write_vectored flush read put_told
  act-Moved c (put buf) w small =
      subst
        (λ bytes. Moved c.id w (sent_of (wrote bytes (put_told c (buf ∷ []) w))) [] (
          after (networking (NetworkingCall.tcp_write_vectored c.id (buf ∷ []) c.write_timeout 0))
            w))
        (append-nil buf)
        (puts-Moved c (buf ∷ []) w
          (subst (λ bytes. length bytes < 2 ^ 32) (sym (append-nil buf)) small))
  act-Moved c (put_vectored bufs) w small = puts-Moved c bufs w small
  act-Moved c (get buf) w small = gets-Moved c buf w small
  act-Moved c flushed w small =
      let (keeps, keeps') = law.flushes c.id w.host in
      (keeps ∙ sym (append-nil (sockets.accepted w.host c.id)), sym keeps')

  -- Over any sequence of writes, vectored writes, reads and flushes on a connection: the bytes that the
  -- runtime has accepted are those from before and then, in order, as many from the front of each
  -- buffer as its write reported; and the bytes that were to come are, in order, as many from the
  -- front of each buffer as its read reported, and then those still to come. A call that reports an
  -- error moves none. Each buffer holds fewer than 2 ^ 32 bytes, and the runtime moves bytes as
  -- `Streams` says.
  pub act_all-Moved :
      (c : TcpStream) (actions : List Action) (w : World)
      → All IsSmall actions
      → Returns
          (λ told w'. Moved c.id w (all_of sent_of told) (all_of read_of told) w')
          (act_all c actions w)
  unfolding act_all
  act_all-Moved c [] w small = (sym (append-nil (sockets.accepted w.host c.id)), refl)
  act_all-Moved c (a ∷ actions) w (small, smalls) =
      Returns-bind (λ t w₁. Moved c.id w (sent_of t) (read_of t) w₁)
        (λ told w'. Moved c.id w (all_of sent_of told) (all_of read_of told) w') (act c a)
        (λ t. act_all c actions >>= λ rest. pure (t ∷ rest)) w (act-Moved c a w small)
        (λ t w₁ first.
          Returns-bind (λ told w'. Moved c.id w₁ (all_of sent_of told) (all_of read_of told) w')
            (λ told w'. Moved c.id w (all_of sent_of told) (all_of read_of told) w')
            (act_all c actions) (λ rest. pure (t ∷ rest)) w₁ (act_all-Moved c actions w₁ smalls)
            (λ rest w₂ next.
              Moved-trans c.id w w₁ w₂ (sent_of t) (all_of sent_of rest) (read_of t)
                (all_of read_of rest) first next))
