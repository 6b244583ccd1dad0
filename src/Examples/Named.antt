-- ===== src/Examples/Named.antt =====
-- Names of processes, at concrete data.
use rust_lib.Common.{
  ℕ, ◌==◌, refl, ap, List, [], ◌∷◌, Option, none, some, Bool, true, false, arith, if◌then◌else◌,
  length,
}
use rust_lib.Common.Bytes.{bytes_eq}
use rust_lib.Common.Text.{codes}
use rust_lib.Environment
use rust_lib.Environment.Names.{
  Names, Registers, Entry, same, Looked, register_then_lookup, register-lookup,
}
use rust_lib.Examples.Fixture.{any_answer, fresh}
use rust_lib.Host.{Host, Returns, Call, Answer, process, ProcessCall}
use rust_lib.Process
use rust_lib.Process.{Process}

-- A registration, under a name and a version.
pub record Row : Type 0 where
  pub name : List ℕ
  pub version : List ℕ
  pub pid : ℕ

-- The newest row first; the handle of a number is of the process of that number.
abbrev find : List Row → List ℕ → List ℕ → Option ℕ
find [] name version = none
find (row ∷ rows) name version =
    if same row.name row.version name version then some row.pid else find rows name version

-- A version is a text of five characters.
abbrev is_version : List ℕ → Bool
is_version text = length text == 5

abbrev enrol : Bool → Row → List Row → ℕ × List Row
enrol true row rows = (0, row ∷ rows)
enrol false row rows = (1, rows)

abbrev answer_find : Option ℕ → ℕ × ℕ
answer_find none = (2, 0)
answer_find (some pid) = (0, pid)

abbrev registry_answer : (c : Call) → List Row → Answer c × List Row
registry_answer (process (ProcessCall.register name version env_id process_id)) rows =
    enrol (is_version version) (record { name = name; version = version; pid = process_id }) rows
registry_answer (process (ProcessCall.lookup name query cell)) rows =
    (answer_find (find rows name query), rows)
registry_answer c rows = (any_answer 0 c, rows)

instance abbrev registry : Host
registry = record { State = List Row; answer = registry_answer }

abbrev names : Names
names = record {
  here = Environment.from 38;
  is_version = is_version;
  registered = find;
  process_of = λ rows id. some id;
}

names-Registers : Registers names
names-Registers = record {
  registers = λ name version id pid rows valid known. rw valid (
    refl,
    λ name' version'.
        ap (λ p. if same name version name' version' then p else find rows name' version') known,
    λ j. refl,
  );
  rejects = λ name version id rows wrong. rw wrong (refl, λ name' version'. refl, λ j. refl);
  drops = λ id rows. (λ name version. refl, λ j other. refl);
  looks_up = λ name version pid rows valid e. rw e (refl, refl);
}

abbrev entry : List ℕ → ℕ → Entry ℕ
entry version id = record {
  name = codes "adder";
  version = version;
  handle = Process.from id;
  pid = id;
}

-- The second is not a version, and the third overwrites the first.
abbrev entries : List (Entry ℕ)
entries = entry (codes "1.0.0") 4 ∷ entry (codes "one") 5 ∷ entry (codes "1.0.0") 6 ∷ []

register-lookup_example :
    Returns
      (Looked names entries 6)
      (register_then_lookup names entries (codes "adder") (codes "1.0.0") (fresh []))
register-lookup_example =
    register-lookup names names-Registers entries (codes "adder") (codes "1.0.0") 6 (fresh [])
      (
        refl,
        refl,
        (omega arith, (omega arith, tt)),
        (refl, refl, (omega arith, tt), (refl, refl, tt, tt)),
      )
      refl (unfold bytes_eq in refl)
