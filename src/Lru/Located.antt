-- ===== src/Lru/Located.antt =====
-- Where a key of crates/gitility-core/src/lru.rs stands, in the map and in the recency list.
use mathlib.Core.Path.{subst, sym}
use gitility.Base.{ℕ, ◌≡◌, refl, ap, ◌∙◌, List, ◌∷◌, ◌++◌, Option, none, some, ◌⊎◌, inl, inr}
use gitility.Lru.{Key, LruCache, find_index}
use gitility.Lru.Segments.{Entry}
use gitility.Lru.Keys.{index_of, index_of-Split}
use gitility.Lru.Represents.{Represents, around}
use gitility.Lru.Recency.{
  entries, lookup, without, without-absent, without-found, lookup-absent, lookup-found,
}

module _ {K V : Type 0} ⦃eq : Key K⦄ where
  pub record Absent (k : K) (c : LruCache K V) (cells : List (ℕ × Entry K V)) : Type 0 where
    pub unmapped : find_index k c.indices ≡ none
    pub unlisted : lookup k (entries cells) ≡ none
    pub others : without k (entries cells) ≡ entries cells
    pub absent : index_of k cells ≡ none

  pub record Found (k : K) (c : LruCache K V) (cells : List (ℕ × Entry K V)) : Type 0 where
    pub index : ℕ
    pub front : List (ℕ × Entry K V)
    pub entry : Entry K V
    pub back : List (ℕ × Entry K V)
    pub mapped : find_index k c.indices ≡ some index
    pub listed : lookup k (entries cells) ≡ some entry
    pub others : without k (entries cells) ≡ entries (front ++ back)
    pub holds : Represents c (front ++ ((index, entry) ∷ back))
    pub absent : index_of k (front ++ back) ≡ none

  pub locate :
      (k : K) (c : LruCache K V) (cells : List (ℕ × Entry K V))
      → Represents c cells
      → Absent k c cells ⊎ Found k c cells
  locate k c cells r = from (index_of k cells) refl
    where
      from : (o : Option ℕ) → index_of k cells ≡ o → Absent k c cells ⊎ Found k c cells
      from none h = inl (record {
        unmapped = r.indexed k ∙ h;
        unlisted = lookup-absent k cells h;
        others = without-absent k cells h;
        absent = h;
      })
      from (some i) h =
          let s = index_of-Split k cells {i = i} h in
          let held = subst (Represents c) s.is r in
          let first = subst (λ l. index_of l s.front ≡ none) (sym s.keyed) s.first in
          inr (record {
            index = i;
            front = s.front;
            entry = s.entry;
            back = s.back;
            mapped = r.indexed k ∙ h;
            listed =
                ap (λ cs. lookup k (entries cs)) s.is
                ∙ subst
                    (λ l. lookup l (entries (s.front ++ ((i, s.entry) ∷ s.back))) ≡ some s.entry)
                    s.keyed (lookup-found s.entry s.front s.back i first);
            others =
                ap (λ cs. without k (entries cs)) s.is
                ∙ subst
                    (λ l.
                      without l (entries (s.front ++ ((i, s.entry) ∷ s.back)))
                      ≡ entries (s.front ++ s.back))
                    s.keyed (without-found s.entry s.front s.back i first);
            holds = held;
            absent =
                subst (λ l. index_of l (s.front ++ s.back) ≡ none) s.keyed
                  (around c s.front s.back i s.entry held).absent;
          })
