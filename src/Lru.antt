-- ===== src/Lru.antt =====
-- crates/gitility-core/src/lru.rs: the weighted least-recently-used cache. Keys sit in a map to the
-- indices of a slab, whose nodes form a list linked in both directions. Where the source panics, on
-- a link to no node, an operation gives `none`.
pub mod Segments
pub mod Keys
pub mod Cells
pub mod Represents
pub mod Moves
pub mod Insert
pub mod Recency
pub mod Kept
pub mod Located
pub mod Evict
pub mod Refines
pub mod Runs
pub mod Tests
use gitility.Base.{
  ℕ, zero, suc, ◌+◌, ◌-◌, Bool, List, [], ◌∷◌, ◌++◌, Option, none, some, ltb, ◌==◌, ◌||◌, true,
  false, if◌then◌else◌, length, get_elem?, set, saturating_add, ◌≡◌, ◌↔◌,
}

-- What the cache needs of a key: `Eq`.
pub record Key {ℓ} (K : Type ℓ) : Type ℓ where
  pub same : K → K → Bool
  pub same_iff : (a b : K) → (same a b ≡ true) ↔ (a ≡ b)

pub record Node (K V : Type 0) : Type 0 where
  pub key : K
  pub value : V
  pub weight : ℕ
  pub previous : Option ℕ
  pub next : Option ℕ

-- `free` is the stack of free indices, the top first.
pub record LruCache (K V : Type 0) : Type 0 where
  pub indices : List (K × ℕ)
  pub nodes : List (Option (Node K V))
  pub free : List ℕ
  pub least_recent : Option ℕ
  pub most_recent : Option ℕ
  pub used : ℕ
  pub capacity : ℕ

infixl 5 ◌>>=◌
abbrev pub ◌>>=◌ : {A B : Type 0} → Option A → (A → Option B) → Option B
◌>>=◌ none k = none
◌>>=◌ (some a) k = k a

abbrev pub is_index : Option ℕ → ℕ → Bool
is_index none i = false
is_index (some j) i = j == i

abbrev pub or_else : Option ℕ → Option ℕ → Option ℕ → Option ℕ
or_else none absent present = absent
or_else (some _) absent present = present

-- The indices from the last to the first, which `clear` leaves on the stack.
unfoldable pub descending : ℕ → List ℕ
descending zero = []
descending (suc n) = n ∷ descending n

abbrev pub Slots : Type 0 → Type 0 → Type 0
Slots K V = List (Option (Node K V))

module _ {K : Type 0} ⦃eq : Key K⦄ where
  -- `indices.get` and `indices.remove`.
  unfoldable pub find_index : K → List (K × ℕ) → Option ℕ
  find_index k [] = none
  find_index k ((l, i) ∷ indices) = if eq.same l k then some i else find_index k indices

  unfoldable pub remove_key : K → List (K × ℕ) → List (K × ℕ)
  remove_key k [] = []
  remove_key k ((l, i) ∷ indices) = if eq.same l k then indices else (l, i) ∷ remove_key k indices

module _ {K V : Type 0} where
  -- `LruCache::new`.
  unfoldable pub new_cache : ℕ → LruCache K V
  new_cache capacity = record {
    indices = [];
    nodes = [];
    free = [];
    least_recent = none;
    most_recent = none;
    used = 0;
    capacity = capacity;
  }

  -- `node`.
  abbrev pub occupied : Option (Option (Node K V)) → Option (Node K V)
  occupied none = none
  occupied (some slot) = slot

  unfoldable pub node_at : Slots K V → ℕ → Option (Node K V)
  node_at nodes i = occupied (get_elem? nodes i)

  -- `node_mut` with a change of the node.
  unfoldable pub change : (Node K V → Node K V) → ℕ → Slots K V → Option (Slots K V)
  unfolding node_at
  change f i nodes = elim (node_at nodes i) [
    | none ↦ none
    | some n ↦ some (set nodes i (some (f n)))
  ]

  -- The assignment to a link of the node that an optional index names.
  unfoldable pub link_next : Option ℕ → Option ℕ → Slots K V → Option (Slots K V)
  unfolding change
  link_next none target nodes = some nodes
  link_next (some i) target nodes = change (λ n. record n { next = target }) i nodes

  unfoldable pub link_previous : Option ℕ → Option ℕ → Slots K V → Option (Slots K V)
  unfolding change
  link_previous none target nodes = some nodes
  link_previous (some i) target nodes = change (λ n. record n { previous = target }) i nodes

  -- `touch`, on an index that is not the most recent.
  unfoldable pub move_last : ℕ → LruCache K V → Option (LruCache K V)
  unfolding node_at link_next link_previous change
  move_last i c = do
    n ← node_at c.nodes i
    outer ← link_next n.previous n.next c.nodes
    unlinked ← link_previous n.next n.previous outer
    relinked ← change (λ m. record m { previous = c.most_recent; next = none }) i unlinked
    nodes ← link_next c.most_recent (some i) relinked
    some (record c {
      nodes = nodes;
      least_recent = or_else c.most_recent (some i) (or_else n.previous n.next c.least_recent);
      most_recent = some i;
    })

  unfoldable pub touch : ℕ → LruCache K V → Option (LruCache K V)
  unfolding move_last
  touch i c = if is_index c.most_recent i then some c else move_last i c

  module _ ⦃eq : Key K⦄ where
    -- `remove_index`, behind the take of the node.
    unfoldable pub unlink : Node K V → ℕ → LruCache K V → Option (LruCache K V)
    unfolding link_next link_previous remove_key
    unlink n i c = do
      outer ← link_next n.previous n.next (set c.nodes i none)
      nodes ← link_previous n.next n.previous outer
      some (record c {
        indices = remove_key n.key c.indices;
        nodes = nodes;
        free = i ∷ c.free;
        least_recent = or_else n.previous n.next c.least_recent;
        most_recent = or_else n.next n.previous c.most_recent;
        used = c.used - n.weight;
      })

    unfoldable pub remove_index : ℕ → LruCache K V → Option (Option (Node K V) × LruCache K V)
    unfolding node_at unlink
    remove_index i c = elim (node_at c.nodes i) [
      | none ↦ some (none, c)
      | some n ↦ do d ← unlink n i c; some (some n, d)
    ]

    abbrev pub value_of : Option (Node K V) → Option V
    value_of none = none
    value_of (some n) = some n.value

    -- `get`: a read of the slab out of range panics.
    unfoldable pub get : K → LruCache K V → Option (Option V × LruCache K V)
    unfolding find_index touch
    get k c = elim (find_index k c.indices) [
      | none ↦ some (none, c)
      | some i ↦ do d ← touch i c; slot ← get_elem? d.nodes i; some (value_of slot, d)
    ]

    -- `get_cloned`: values are copied as they are.
    abbrev pub get_cloned : K → LruCache K V → Option (Option V × LruCache K V)
    get_cloned k c = get k c

    unfoldable pub remove : K → LruCache K V → Option (Option V × LruCache K V)
    unfolding find_index remove_index
    remove k c = elim (find_index k c.indices) [
      | none ↦ some (none, c)
      | some i ↦ do r ← remove_index i c; some (value_of r.0, r.1)
    ]

    abbrev pub pair_of : Option (Node K V) → Option (K × V)
    pair_of none = none
    pair_of (some n) = some (n.key, n.value)

    unfoldable pub pop_lru : LruCache K V → Option (Option (K × V) × LruCache K V)
    unfolding remove_index
    pop_lru c = elim c.least_recent [
      | none ↦ some (none, c)
      | some i ↦ do r ← remove_index i c; some (pair_of r.0, r.1)
    ]

    -- The loop of evictions, with fuel, which gives the count and the cache. The count saturates.
    unfoldable pub evict : ℕ → ℕ → ℕ → LruCache K V → Option (ℕ × LruCache K V)
    unfolding remove_index
    evict zero weight evictions c = none
    evict (suc fuel) weight evictions c = elim (ltb c.capacity (saturating_add c.used weight)) [
      | false ↦ some (evictions, c)
      | true ↦ elim c.least_recent [
        | none ↦ some (evictions, c)
        | some i ↦ remove_index i c >>= λ r. evict fuel weight (saturating_add evictions 1) r.1
      ]
    ]

    -- `free.pop`, or a new slot at the end of the slab.
    unfoldable pub take_slot : LruCache K V → ℕ × LruCache K V
    take_slot c = elim c.free [
      | [] ↦ (length c.nodes, record c { nodes = c.nodes ++ (none ∷ []) })
      | i ∷ free ↦ (i, record c { free = free })
    ]

    -- The new node in a slot, behind the most recent one. A slot out of range panics.
    unfoldable pub fill : K → V → ℕ → ℕ × LruCache K V → Option (LruCache K V)
    unfolding link_next
    fill k v weight (i, c) = do
      _ ← get_elem? c.nodes i
      nodes ← link_next c.most_recent (some i) (
          set c.nodes i (
            some (record {
              key = k;
              value = v;
              weight = weight;
              previous = c.most_recent;
              next = none;
            })))
      some (record c {
        indices = (k, i) ∷ remove_key k c.indices;
        nodes = nodes;
        least_recent = or_else c.most_recent (some i) c.least_recent;
        most_recent = some i;
        used = saturating_add c.used weight;
      })

    unfoldable pub drop_key : K → LruCache K V → Option (LruCache K V)
    unfolding find_index remove_index
    drop_key k c = elim (find_index k c.indices) [
      | none ↦ some c
      | some i ↦ remove_index i c >>= λ r. some r.1
    ]

    -- Each eviction takes an entry, so that one more than the entries is enough fuel.
    unfoldable pub insert_counting_evictions : K → V → ℕ → LruCache K V → Option (ℕ × LruCache K V)
    unfolding drop_key evict take_slot fill
    insert_counting_evictions k v weight c = drop_key k c >>= λ d.
        if d.capacity == 0 || ltb d.capacity weight
        then some (0, d)
        else (evict (suc (length d.indices)) weight 0 d >>= λ r.
            fill k v weight (take_slot r.1) >>= λ e. some (r.0, e))

    unfoldable pub insert : K → V → ℕ → LruCache K V → Option (LruCache K V)
    unfolding insert_counting_evictions
    insert k v weight c = insert_counting_evictions k v weight c >>= λ r. some r.1

  unfoldable pub clear_slots : Slots K V → Slots K V
  clear_slots [] = []
  clear_slots (_ ∷ nodes) = none ∷ clear_slots nodes

  unfoldable pub clear : LruCache K V → LruCache K V
  unfolding descending clear_slots
  clear c = record c {
    indices = [];
    nodes = clear_slots c.nodes;
    free = descending (length c.nodes);
    least_recent = none;
    most_recent = none;
    used = 0;
  }

  -- `len`.
  unfoldable pub len : LruCache K V → ℕ
  len c = length c.indices

  unfoldable pub is_empty : LruCache K V → Bool
  is_empty c = length c.indices == 0
