-- ===== src/Snapshot/Tests.antt =====
-- A tag and its commit.
use gitility.Base.{ℕ, ◌≡◌, refl, false, List, [], ◌∷◌, ◌++◌, Option, none, some, replicate}
use gitility.Oid.{sha1, Oid, commit, tag}
use gitility.Error.{Result, ok}
use gitility.Budget.{new_budget, default_limits}
use gitility.Odb.{Object, World, Clock}
use gitility.Odb.Safe.{Outcome}
use gitility.Odb.Static.{StaticOdb, object_at, static_db}
use gitility.Odb.Static.Lookup.{try_find-Safe}
use gitility.Decode.{Parser}
use gitility.Snapshot.{to_tree, peel, open_snapshot}
use gitility.Snapshot.Opens.{Peeled, Opened, chains-ArePeeled}

abbrev clock : Clock ℕ
clock = record { read = λ s. (s, s) }

abbrev Any : ℕ → Type 0
Any s = Unit

abbrev zeros : List ℕ
zeros = replicate 39 b'0'

abbrev someone : List ℕ
someone = b'A' ∷ b'<' ∷ b'a' ∷ b'>' ∷ b' ' ∷ b'7' ∷ b' ' ∷ b'z' ∷ []

-- A payload is the last digit of a target, or of a tree.
abbrev parser : Parser
parser = record {
  commit_ref = λ kind payload. some (record {
    tree = zeros ++ payload;
    parents = [];
    author = someone;
    committer = someone;
    encoding = none;
    headers = [];
    message = [];
  });
  tag_ref = λ kind payload.
      some (record {
        target = zeros ++ payload;
        target_kind = commit;
        tagger = none;
        name = b'v' ∷ [];
      });
}

abbrev numbered : ℕ → Oid
numbered n = record { kind = sha1; bytes = replicate 19 0 ++ (n ∷ replicate 12 0) }

abbrev objects : StaticOdb
objects = record {
  hash = sha1;
  objects =
      (numbered 3, record { kind = tag; payload = b'2' ∷ [] })
      ∷ (numbered 2, record { kind = commit; payload = b'1' ∷ [] })
      ∷ [];
}

abbrev world : World ℕ
world = record { outside = 5; budget = new_budget default_limits none false }

abbrev answer : Oid → Option Object
answer oid = object_at oid objects.objects

abbrev read_values : {A C : Type 0} → Option (Result A × C) → Option (Result A)
read_values none = none
read_values (some r) = some r.0

opens :
    read_values (open_snapshot parser (static_db clock objects) (numbered 3) world)
    ≡ some (ok (record { commit_oid = numbered 2; tree_oid = numbered 1 }))
unfolding open_snapshot static_db gitility.Budget.charge_object new_budget gitility.Budget.charge
    gitility.Object.kind_of_length gitility.Object.hex_pairs gitility.Object.hex_val
    gitility.Object.new_oid
opens = refl

chains-ArePeeled_example :
    Outcome Any
      (Peeled parser (static_db clock objects) answer to_tree (numbered 3))
      (peel parser (static_db clock objects) (numbered 3) to_tree world)
    × Outcome Any
        (Opened parser (static_db clock objects) answer (numbered 3))
        (open_snapshot parser (static_db clock objects) (numbered 3) world)
unfolding static_db
chains-ArePeeled_example =
    chains-ArePeeled parser (static_db clock objects) answer Any
      (try_find-Safe Any clock (λ s i. i) objects) (numbered 3) to_tree world tt
