-- ===== src/Examples/Post/Laws.antt =====
-- The runtime's laws hold of it.
use rust_lib.Common.{
  take, ℕ, zero, suc, ◌≡◌, ◌≢◌, ap, sym, subst, refl, List, [], ◌∷◌, ◌++◌, Option, none, some,
  length,
}
use rust_lib.Delivery.Runtime.{a_process, a_stream, Letter, add, Lawful, Keeps, Spares}
use rust_lib.Examples.Post.{
  Post, find, clear, drop, deliver, posted_to, push_process, push_stream, take_process, take_stream,
  post, post_sight,
}

take-append : (front rest : List ℕ) → take (length front) (front ++ rest) ≡ front
take-append [] rest = refl
take-append (x ∷ front) rest = ap (λ xs. x ∷ xs) (take-append front rest)

drop-append : (front rest : List ℕ) → drop (length front) (front ++ rest) ≡ rest
drop-append [] rest = refl
drop-append (x ∷ front) rest = drop-append front rest

find-append :
    (xs : List (Option ℕ)) (x : Option ℕ) (i n : ℕ)
    → find xs i ≡ some n
    → find (xs ++ (x ∷ [])) i ≡ some n
find-append [] x i n e = cc
find-append (y ∷ xs) x zero n e = e
find-append (y ∷ xs) x (suc i) n e = find-append xs x i n e

find-length : (xs : List (Option ℕ)) → find xs (length xs) ≡ none
find-length [] = refl
find-length (x ∷ xs) = find-length xs

pub find_new : (xs : List (Option ℕ)) (x : Option ℕ) → find (xs ++ (x ∷ [])) (length xs) ≡ x
find_new [] x = refl
find_new (y ∷ xs) x = find_new xs x

find-clear :
    (xs : List (Option ℕ)) (id j n : ℕ)
    → j ≢ id
    → find xs j ≡ some n
    → find (clear xs id) j ≡ some n
find-clear [] id j n ne e = e
find-clear (x ∷ xs) zero zero n ne e = absurd (ne refl)
find-clear (x ∷ xs) zero (suc j) n ne e = e
find-clear (x ∷ xs) (suc id) zero n ne e = e
find-clear (x ∷ xs) (suc id) (suc j) n ne e = find-clear xs id j n (λ q. ne (ap suc q)) e

post-Keeps_processes :
    (s : Post) (pid : ℕ)
    → Keeps post_sight s (record s { processes = s.processes ++ (some pid ∷ []) })
post-Keeps_processes s pid = (λ id n e. find-append s.processes (some pid) id n e, λ id n e. e)

post-Keeps_streams :
    (s : Post) (sid : ℕ) → Keeps post_sight s (record s { streams = s.streams ++ (some sid ∷ []) })
post-Keeps_streams s sid = (λ id n e. e, λ id n e. find-append s.streams (some sid) id n e)

deliver-Keeps :
    (letters : List Letter) (s : Post)
    → ((deliver letters s).1.view.posted ≡ s.view.posted) × Keeps post_sight s (deliver letters s).1
deliver-Keeps [] s = (refl, (λ id n e. e, λ id n e. e))
deliver-Keeps (l ∷ letters) s = (refl, (λ id n e. e, λ id n e. e))

abbrev Posts : ℕ → Post → Post → Type 0
Posts pid s s' = (s'.view.posted ≡ (pid, s.view.letter) ∷ s.view.posted) × Keeps post_sight s s'

searches_lem :
    (pid : ℕ) (s : Post) (o : Option ℕ)
    → o ≡ some pid
    → Posts pid s (deliver s.inbox (posted_to o s)).1
searches_lem pid s o e =
    subst (λ o'. Posts pid s (deliver s.inbox (posted_to o' s)).1) (sym e)
      (let d = deliver-Keeps s.inbox (posted_to (some pid) s) in (d.0, d.1))

reads_lem :
    (front rest unread : List ℕ)
    → unread ≡ front ++ rest
    → (take (length front) unread ≡ front) × (drop (length front) unread ≡ rest)
reads_lem front rest unread e = rw e (take-append front rest, drop-append front rest)

pub post-Lawful : Lawful post_sight
post-Lawful = record {
  creates = λ tag capacity s. (refl, (λ id n e. e, λ id n e. e));
  writes = λ bytes s. (refl, (λ id n e. e, λ id n e. e));
  reads = λ front rest (s : Post) e.
      let (front_taken, rest_left) = reads_lem front rest s.view.unread e in
      (
        (
          ap (λ bytes. (length front, bytes)) front_taken,
          ap (λ bytes. record s.view { unread = bytes }) rest_left,
        ),
        (λ id n e. e, λ id n e. e),
      );
  pushes_process = λ id pid (s : Post) e.
      let g =
        subst
          (λ o.
            ((push_process o id s).view ≡ add s.view [] (a_process pid ∷ []))
            × Spares post_sight (λ j. j ≢ id) s (push_process o id s))
          (sym e) (refl, λ j q ne known. find-clear s.processes id j q ne known) in
      (refl, g.0, g.1);
  pushes_stream = λ id sid (s : Post) e.
      let g =
        subst
          (λ o.
            ((push_stream o id s).view ≡ add s.view [] (a_stream sid ∷ []))
            × Spares post_sight (λ j. Unit {0}) s (push_stream o id s))
          (sym e) (refl, λ j q u known. known) in
      (refl, g.0, g.1);
  takes_process = λ index pid (s : Post) e.
      subst
        (λ o.
          (find (take_process o s).processes (length s.processes) ≡ some pid)
          × (((take_process o s).view ≡ s.view) × Keeps post_sight s (take_process o s)))
        (sym e) (find_new s.processes (some pid), (refl, post-Keeps_processes s pid));
  takes_stream = λ index sid (s : Post) e.
      subst
        (λ o.
          (find (take_stream o s).streams (length s.streams) ≡ some sid)
          × (((take_stream o s).view ≡ s.view) × Keeps post_sight s (take_stream o s)))
        (sym e) (find_new s.streams (some sid), (refl, post-Keeps_streams s sid));
  sends = λ id pid (s : Post) e.
      subst (λ o. Posts pid s (posted_to o s)) (sym e) (refl, (λ i n f. f, λ i n f. f));
  searches = λ id pid limit (s : Post) e. searches_lem pid s (find s.processes id) e;
  gets_tag = λ s. (refl, (refl, (λ id n e. e, λ id n e. e)));
  finds_self = λ (s : Post). (
    find-length s.processes,
    find_new s.processes (some s.self),
    (refl, post-Keeps_processes s s.self),
  );
  spawns = λ link module_id function params (s : Post) e. (
    find-length s.processes,
    (refl, post-Keeps_processes s 50),
    (50, find_new s.processes (some 50)),
  );
  inherits = λ link function params (s : Post) e. (
    find-length s.processes,
    (refl, post-Keeps_processes s 50),
    (50, find_new s.processes (some 50)),
  );
  spawn_fails = λ link module_id function params s ne. absurd (ne refl);
  inherit_fails = λ link function params s ne. absurd (ne refl);
  traps = λ mode s. (refl, (λ id n e. e, λ id n e. e));
  drops_process = λ id s. refl;
  drops_stream = λ id s. refl;
}
