-- ===== src/Delivery/Requests/Encoded.antt =====
-- Requests as messages: the receiver has the body, the tag and a handle to the process that asks.
use rust_lib.Common.{ℕ, ◌≡◌, none}
use rust_lib.Delivery.Codec.{Format, Codec, Plain}
use rust_lib.Delivery.Runtime.{Sight, Lawful}
use rust_lib.Host.{Host}
use rust_lib.Process.{process_serde}
use rust_lib.Request.{Request, request_serde}
use rust_lib.Serde.{Rmp, Serde}
use rust_lib.Delivery.Requests.{
  Asked, request_bytes, request_carried, RequestFits, RequestMeans, RequestApart, RequestSpent,
}
use rust_lib.Delivery.Requests.Writing.{request_written, request_dropped_spent, request_dropped}
use rust_lib.Delivery.Requests.Reading.{request_read}

module _ ⦃h : Host⦄ ⦃r : Rmp⦄ {sight : Sight} (law : Lawful sight) (format : Format sight r)
    (U : Type 0) {T A : Type 0} {s : Serde T} (k : Codec sight s A) (plain : Plain sight s) where
  pub request_fresh :
      (q : Request T U) (a : Asked A) (st : h.State) (id : ℕ)
      → RequestMeans format k st q a
      → sight.process_of st id ≡ none
      → RequestApart format k q id
  request_fresh q a st id means new = (k.fresh q.body a.about st id means.0 new, λ same. cc)

  abbrev pub request_codec : Codec sight (request_serde {T = T} {U = U} ⦃s = s⦄) (Asked A)
  request_codec = record {
    bytes = request_bytes format k;
    carried = request_carried format k;
    Fits = RequestFits format k;
    Means = RequestMeans format k;
    Spent = RequestSpent format k;
    drops_spent = request_dropped_spent law format U k plain;
    Apart = RequestApart format k;
    fresh = request_fresh;
    stable = λ q a st st' keeps means. (
      k.stable q.body a.about st st' keeps means.0,
      means.1,
      keeps.0 q.sender_process.id a.sender means.2,
    );
    writes = request_written law format U k plain;
    drops = request_dropped law format U k plain;
    reads = request_read law format U k plain;
  }
