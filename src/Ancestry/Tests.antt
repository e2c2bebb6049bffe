-- ===== src/Ancestry/Tests.antt =====
-- A history of two commits.
use gitility.Base.{
  ap, sym, ◌∙◌, ◌↔◌, ℕ, ◌<◌, ◌≡◌, refl, true, false, List, [], ◌∷◌, ◌++◌, Option, none, some,
  replicate, map, arith,
}
use gitility.Oid.{sha1, Oid, commit}
use gitility.Error.{Result, ok}
use gitility.Budget.{Budget, new_budget, default_limits}
use gitility.Budget.Suspend.{contains}
use gitility.Odb.{Object, ObjectDb, World, Clock}
use gitility.Odb.Safe.{Outcome, Safe}
use gitility.Odb.Static.{StaticOdb, object_at, static_db}
use gitility.Odb.Static.Lookup.{try_find-Safe}
use gitility.Decode.{Parser}
use gitility.Ancestry.{is_ancestor}
use gitility.Ancestry.Adapter.{without_parent_headers, new_adapter}
use gitility.Ancestry.Adapter.Runs.{find_all, Faithful, find_all-Faithful}
use gitility.Ancestry.Graph.{Reaches, closed-All, unseen}
use gitility.Ancestry.Walk.{parents_at, is_ancestor-Reaches}

abbrev clock : Clock ℕ
clock = record { read = λ s. (s, s) }

abbrev Any : ℕ → Type 0
Any s = Unit

abbrev zeros : List ℕ
zeros = replicate 39 b'0'

abbrev someone : List ℕ
someone = b'A' ∷ b'<' ∷ b'a' ∷ b'>' ∷ b' ' ∷ b'7' ∷ b' ' ∷ b'z' ∷ []

-- Each byte of a payload is the last digit of a parent.
abbrev parser : Parser
parser = record {
  commit_ref = λ kind payload. some (record {
    tree = zeros ++ (b'0' ∷ []);
    parents = map (λ c. zeros ++ (c ∷ [])) payload;
    author = someone;
    committer = someone;
    encoding = none;
    headers = [];
    message = [];
  });
  tag_ref = λ kind payload. none;
}

abbrev numbered : ℕ → Oid
numbered n = record { kind = sha1; bytes = replicate 19 0 ++ (n ∷ replicate 12 0) }

abbrev history : StaticOdb
history = record {
  hash = sha1;
  objects =
      (numbered 2, record { kind = commit; payload = b'1' ∷ [] })
      ∷ (numbered 1, record { kind = commit; payload = [] })
      ∷ [];
}

abbrev world : World ℕ
world = record { outside = 5; budget = new_budget default_limits none false }

abbrev answer : Oid → Option Object
answer oid = object_at oid history.objects

abbrev commits : List Oid
commits = numbered 2 ∷ numbered 1 ∷ []

abbrev parents : Oid → List Oid
parents oid = parents_at Any clock (λ s i. i) parser (static_db clock history) answer oid

abbrev read_values : {A C : Type 0} → Option (Result A × C) → Option (Result A)
read_values none = none
read_values (some r) = some r.0

finds_parent :
    read_values
      (is_ancestor parser clock (static_db clock history) 2 (numbered 1) (numbered 2) world)
    ≡ some (ok true)
unfolding is_ancestor static_db new_budget gitility.Budget.charge_object gitility.Budget.charge
    gitility.Object.kind_of_length gitility.Object.hex_pairs gitility.Object.hex_val
    gitility.Object.new_oid contains
finds_parent = refl

misses_child :
    read_values
      (is_ancestor parser clock (static_db clock history) 2 (numbered 2) (numbered 1) world)
    ≡ some (ok false)
unfolding is_ancestor static_db new_budget gitility.Budget.charge_object gitility.Budget.charge
    gitility.Object.kind_of_length gitility.Object.hex_pairs gitility.Object.hex_val
    gitility.Object.new_oid
misses_child = refl

parents_two : parents (numbered 2) ≡ numbered 1 ∷ []
unfolding gitility.Ancestry.parents_of object_at gitility.Object.kind_of_length
    gitility.Object.hex_pairs gitility.Object.hex_val gitility.Object.new_oid static_db
parents_two = refl

parents_one : parents (numbered 1) ≡ []
unfolding gitility.Ancestry.parents_of object_at gitility.Object.kind_of_length
    gitility.Object.hex_pairs gitility.Object.hex_val gitility.Object.new_oid static_db
parents_one = refl

closed_two : (p : Oid) → contains p (parents (numbered 2)) ≡ true → contains p commits ≡ true
unfolding contains
closed_two p m =
    let at : contains p (numbered 1 ∷ []) ≡ true = ap (contains p) (sym parents_two) ∙ m in
    ground (arith, at)

closed_one : (p : Oid) → contains p (parents (numbered 1)) ≡ true → contains p commits ≡ true
unfolding contains
closed_one p m =
    absurd (let at : contains p [] ≡ true = ap (contains p) (sym parents_one) ∙ m in cc)

total : unseen parents commits [] ≡ 1
unfolding unseen contains gitility.Ancestry.parents_of object_at gitility.Object.kind_of_length
    gitility.Object.hex_pairs gitility.Object.hex_val gitility.Object.new_oid static_db
total = refl

enough : unseen parents commits [] < 2
enough = omega (arith, total)

finds :
    (oid : Oid) → Safe Any (λ found. found ≡ answer oid) ((static_db clock history).try_find oid)
unfolding static_db
finds = try_find-Safe Any clock (λ s i. i) history

is_ancestor-Reaches_example :
    Outcome Any
      (λ b. (b ≡ true) ↔ Reaches parents (numbered 2) (numbered 1))
      (is_ancestor parser clock (static_db clock history) 2 (numbered 1) (numbered 2) world)
unfolding static_db contains
is_ancestor-Reaches_example =
    is_ancestor-Reaches Any clock (λ s i. i) parser (static_db clock history) answer finds
      (numbered 1) (numbered 2) commits
      (closed-All parents commits commits (closed_two, (closed_one, tt))) 2 refl enough world tt

-- A parent in the headers goes, and a line of the message stays.
unparents :
    without_parent_headers
      (b't' ∷ 10 ∷ b'p' ∷ b'a' ∷ b'r' ∷ b'e' ∷ b'n' ∷ b't' ∷ b' ' ∷ b'1' ∷ 10 ∷ 10 ∷ b'm' ∷ [])
    ≡ b't' ∷ 10 ∷ 10 ∷ b'm' ∷ []
unfolding without_parent_headers
unparents = refl

-- One commit twice, and one that is missing.
abbrev walked : List Oid
walked = numbered 2 ∷ numbered 2 ∷ numbered 7 ∷ []

-- The history without what comes before its second commit.
abbrev shallow : ObjectDb ℕ
shallow = record (static_db clock history) { shallow_roots = some (numbered 2 ∷ []) }

find_all-Faithful_example :
    Faithful Any shallow answer walked (find_all clock shallow walked new_adapter world)
find_all-Faithful_example =
    find_all-Faithful Any clock (λ s i. i) shallow answer finds walked world tt
