-- ===== src/Delivery/Requests.antt =====
-- A request as a message (`Request` of src/request.rs): what it says, and its bytes.
pub mod Writing
pub mod Reading
pub mod Encoded
use rust_lib.Common.{
  ℕ, ◌+◌, ◌≡◌, ◌≢◌, ◌∙◌, ◌^◌, ◌<◌, ap, subst, sym, refl, List, [], ◌∷◌, ◌++◌, append_assoc,
  append-nil, Result, ok, err, true, some, true, length, length-append, arith,
}
use rust_lib.Delivery.Codec.{
  Added, Added-trans, Read, Read-trans, Format, Codec, Plain, Returns-ok, Returns-is, Returns-both,
}
use rust_lib.Delivery.Handles.{process_codec}
use rust_lib.Delivery.Runtime.{Carried, a_process, View, add, Sight, Lawful, Keeps, Keeps-trans}
use rust_lib.Host.{Host, World, Run, Returns, Returns-bind, Returns-weaken, pure, ◌>>=◌, ◌>>◌}
use rust_lib.MessageRw
use rust_lib.Process
use rust_lib.Process.{Process, process_serde}
use rust_lib.Request
use rust_lib.Request.{Request, request_serde}
use rust_lib.Serde.{Rmp, Serde}
use rust_lib.Tag
use rust_lib.Tag.{Tag}

-- What a request says.
pub record Asked (A : Type 0) : Type 0 where
  pub about : A
  pub tag : ℕ
  pub sender : ℕ

module _ ⦃h : Host⦄ ⦃r : Rmp⦄ {sight : Sight} (format : Format sight r) {T A : Type 0} {s : Serde T}
    (k : Codec sight s A) where
  abbrev pub index : ℕ → Asked A → ℕ
  index base q = base + length (k.carried q.about)

  -- The bytes before those of the sender.
  abbrev pub fields : ℕ → Asked A → List ℕ
  fields base q = format.head 3 ++ k.bytes base q.about ++ format.i64 q.tag

  abbrev pub request_bytes : ℕ → Asked A → List ℕ
  request_bytes base q = fields base q ++ format.u64 (index base q)

  abbrev pub request_carried : Asked A → List Carried
  request_carried q = k.carried q.about ++ (a_process q.sender ∷ [])

  abbrev pub RequestFits : ℕ → Asked A → Type 0
  RequestFits base q = k.Fits base q.about × (q.tag < 2 ^ 64) × (index base q < 2 ^ 64)

  abbrev pub RequestMeans : {U : Type 0} → h.State → Request T U → Asked A → Type 0
  RequestMeans st q a =
      k.Means st q.body a.about
      × (q.tag.id ≡ a.tag)
      × (sight.process_of st q.sender_process.id ≡ some a.sender)

  abbrev pub RequestSpent : {U : Type 0} → Request T U → Type 0
  RequestSpent q = k.Spent q.body × (q.sender_process.consumed ≡ true)

  abbrev pub RequestApart : {U : Type 0} → Request T U → ℕ → Type 0
  RequestApart q id = k.Apart q.body id × (id ≢ q.sender_process.id)
