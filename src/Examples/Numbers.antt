-- ===== src/Examples/Numbers.antt =====
-- The plain serializer writes and reads back numbers, over any runtime that keeps to its interface.
use rust_lib.Common.{
  ℕ, ◌≡◌, ◌∙◌, ◌^◌, ◌<◌, ap, subst, sym, refl, List, [], ◌++◌, Result, ok, replicate, fill,
}
use rust_lib.Common.Bytes.{
  to_le_bytes, from_le_bytes, length-to_le_bytes, to_le_bytes-IsByte, from-to_le_bytes,
}
use rust_lib.Delivery.Codec.{Added, Read, Format, Codec, Plain}
use rust_lib.Delivery.Runtime.{Carried, add, Sight, Lawful, Keeps, Spares}
use rust_lib.Examples.Fixture.{plain_rmp, number_serde, write_number, read_number}
use rust_lib.Host.{Host, World, Returns, Returns-weaken, after, answer_to, message, MessageCall}
use rust_lib.MessageRw
use rust_lib.Net.SocketAddr.RoundTrip.{fill-whole}

module _ ⦃h : Host⦄ {sight : Sight} (law : Lawful sight) where
  pub number_written :
      (n : ℕ) (w : World)
      → Returns
          (λ x w'.
            (x ≡ ok tt) × (Added sight (to_le_bytes 8 n) [] w w' × Keeps sight w.host w'.host))
          (write_number MessageRw.write n w)
  unfolding MessageRw.write
  number_written n w = (
    refl,
    (((law.writes (to_le_bytes 8 n) w.host).0, refl), (law.writes (to_le_bytes 8 n) w.host).1),
  )

  -- A read of eight bytes.
  eight-Read :
      (n : ℕ) (rest : List ℕ) (w : World)
      → (sight.view w.host).unread ≡ to_le_bytes 8 n ++ rest
      → let c = message (MessageCall.read_data 8) in
        (answer_to c w ≡ (8, to_le_bytes 8 n)) × Read sight rest w (after c w)
  eight-Read n rest w unread =
      subst
        (λ len.
          let c = message (MessageCall.read_data len) in
          (answer_to c w ≡ (len, to_le_bytes 8 n)) × Read sight rest w (after c w))
        (length-to_le_bytes 8 n)
        (let g = law.reads (to_le_bytes 8 n) rest w.host unread in (g.0.0, (g.0.1, g.1, refl)))

  pub number_read :
      (n : ℕ) (rest : List ℕ) (w : World)
      → n < 2 ^ 64
      → (sight.view w.host).unread ≡ to_le_bytes 8 n ++ rest
      → Returns (λ x w'. (x ≡ ok n) × Read sight rest w w') (read_number MessageRw.read w)
  unfolding MessageRw.read
  number_read n rest w small unread =
      let g = eight-Read n rest w unread in
      (
        ap (λ (a : ℕ × List ℕ). ok (from_le_bytes (fill (replicate 8 0) a.1))) g.0
            ∙ ap (λ bytes. ok (from_le_bytes bytes))
                (fill-whole (replicate 8 0) (to_le_bytes 8 n) (sym (length-to_le_bytes 8 n))
                  (to_le_bytes-IsByte 8 n))
            ∙ ap ok (from-to_le_bytes 8 n small),
        g.1,
      )

  pub head_read :
      (n : ℕ) (rest : List ℕ) (w : World)
      → n < 2 ^ 64
      → (sight.view w.host).unread ≡ to_le_bytes 8 n ++ rest
      → Returns
          (λ x w'. (x ≡ ok tt) × Read sight rest w w')
          (plain_rmp.deserialize_struct MessageRw.read n w)
  unfolding MessageRw.read
  head_read n rest w small unread = (refl, (eight-Read n rest w unread).1)

  pub number_sent :
      (m n : ℕ) (w : World)
      → m ≡ n
      → Returns
          (λ (x : Result Unit (Unit {0}) × ℕ) w'.
            (x.0 ≡ ok tt)
            × Added sight (to_le_bytes 8 n) [] w w'
            × Spares sight (λ id. Unit {0}) w.host w'.host
            × Unit {0})
          (number_serde.serialize MessageRw.write m w)
  unfolding MessageRw.write
  number_sent m n w e =
      let g = law.writes (to_le_bytes 8 m) w.host in
      (
        refl,
        (
          subst
              (λ i.
                sight.view (after (message (MessageCall.write_data (to_le_bytes 8 m))) w).host
                ≡ add (sight.view w.host) (to_le_bytes 8 i) [])
              e g.0,
          refl,
        ),
        λ id pid u known. g.1.0 id pid known,
        tt,
      )

  pub number_got :
      (n : ℕ) (front back : List Carried) (rest : List ℕ) (w : World)
      → n < 2 ^ 64
      → (sight.view w.host).unread ≡ to_le_bytes 8 n ++ rest
      → (sight.view w.host).letter.carried ≡ front ++ ([] ++ back)
      → Returns
          (λ x w'. (m : ℕ) × (x ≡ ok m) × ((m ≡ n) × Read sight rest w w'))
          (number_serde.deserialize MessageRw.read w)
  number_got n front back rest w small unread holds =
      Returns-weaken (λ x w'. (x ≡ ok n) × Read sight rest w w')
        (λ x w'. (m : ℕ) × (x ≡ ok m) × ((m ≡ n) × Read sight rest w w'))
        (read_number MessageRw.read w) (number_read n rest w small unread)
        (λ x w' g. (n, g.0, (refl, g.1)))

  abbrev pub plain_format : Format sight plain_rmp
  plain_format = record {
    u64 = to_le_bytes 8;
    i64 = to_le_bytes 8;
    head = to_le_bytes 8;
    writes_u64 = number_written;
    writes_i64 = number_written;
    writes_head = number_written;
    reads_u64 = number_read;
    reads_i64 = number_read;
    reads_head = head_read;
  }

  abbrev pub number_codec : Codec sight number_serde ℕ
  number_codec = record {
    bytes = λ base n. to_le_bytes 8 n;
    carried = λ n. [];
    Fits = λ base n. n < 2 ^ 64;
    Means = λ st m n. m ≡ n;
    stable = λ m n st st' keeps e. e;
    Apart = λ m id. Unit {0};
    fresh = λ m n st id means new. tt;
    Spent = λ m. Unit {0};
    writes = number_sent;
    drops = λ m w. (refl, refl);
    drops_spent = λ m w u. (λ id pid e. e, λ id sid e. e);
    reads = number_got;
  }

  pub number-Plain : Plain sight number_serde
  unfolding MessageRw.write
  number-Plain = record { keeps = λ n w. (law.writes (to_le_bytes 8 n) w.host).1 }
