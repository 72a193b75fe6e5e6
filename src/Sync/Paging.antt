-- ===== src/Sync/Paging.antt =====
-- backend/src/features/sync/sync_repository.rs: one page of the rows that changed in a table. A
-- table is a list of rows in any order; `V` is the JSON that the database builds from a row.
pub mod Complete
pub mod Download
use kitaza.Common.{
  ℕ, ◌+◌, ◌≡◌, Bool, true, false, ◌&&◌, ◌||◌, Option, none, some, List, [], ◌∷◌, map, take, select,
  ltb, leb, ◌==◌, if◌then◌else◌,
}
use kitaza.Common.Sort.{sort}
use kitaza.Sync.Cursor.{TableMark}

module _ (V : Type 0) where
  pub record Row : Type 0 where
    pub updated_at : ℕ
    pub id : ℕ
    pub store_id : ℕ
    pub value : V

  pub record ChangedPage : Type 0 where
    pub rows : List V
    pub last : Option TableMark

module _ {V : Type 0} where
  abbrev pub mark_of : Row V → TableMark
  mark_of r = record { updated_at = r.updated_at; id = r.id }

  -- `(t.updated_at, t.id) > ($2, $3)`
  abbrev pub is_after : TableMark → Row V → Bool
  is_after m r = ltb m.updated_at r.updated_at || (m.updated_at == r.updated_at && ltb m.id r.id)

  -- `ORDER BY t.updated_at, t.id`
  abbrev pub le : Row V → Row V → Bool
  le r s = ltb r.updated_at s.updated_at || (r.updated_at == s.updated_at && leb r.id s.id)

  -- The `WHERE` of `page_query`, asked at `now`.
  abbrev pub is_wanted : ℕ → ℕ → ℕ → TableMark → Row V → Bool
  is_wanted settle_window now store after r =
      (r.store_id == store && ltb (r.updated_at + settle_window) now) && is_after after r

  -- `slice::last`
  abbrev pub last_of : List (Row V) → Option (Row V)
  last_of [] = none
  last_of (r ∷ []) = some r
  last_of (r ∷ s ∷ rs) = last_of (s ∷ rs)

  -- The rows of `page_query`.
  unfoldable pub page_query : ℕ → ℕ → List (Row V) → ℕ → TableMark → ℕ → List (Row V)
  page_query settle_window now rows store after limit =
      take limit (sort le (select (is_wanted settle_window now store after) rows))

  -- `SyncRepository::changed_since`
  unfoldable pub changed_since : ℕ → ℕ → List (Row V) → ℕ → TableMark → ℕ → ChangedPage V
  unfolding page_query
  changed_since settle_window now rows store after limit =
      let page = page_query settle_window now rows store after limit in
      record {
        rows = map (λ r. r.value) page;
        last = elim (last_of page) [ none ↦ none | some r ↦ some (mark_of r) ];
      }
