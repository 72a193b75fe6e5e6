-- ===== src/Sync/Paging/Download.antt =====
-- Pulling a table page by page, as a device does until a page is not full.
use kitaza.Common.{
  ℕ, zero, suc, ◌+◌, ◌≤◌, ◌<◌, ◌≡◌, refl, sym, subst, ◌∙◌, ap, unwrap_or, Bool, true, false, ◌&&◌,
  some, List, [], ◌∷◌, ◌++◌, map, take, drop, length, select, arith, leb, if◌then◌else◌, Bool-cases,
  inl, inr, Option-cases, min, length-take, length-drop,
}
use kitaza.Common.Sort.{All-sort, sort, All, sort-select}
use kitaza.Sync.Cursor.{TableMark}
use kitaza.Sync.Paging.{Row, mark_of, is_after, le, is_wanted, last_of, page_query, changed_since}
use kitaza.Sync.Paging.Complete.{
  IsAscending, HasKeys, sort-IsAscending, select-IsAscending, All-last_of, select-is_after,
  le-TotalOrder,
}

module _ {V : Type 0} where
  select-refines :
      (p q p' : Row V → Bool) (rs : List (Row V))
      → ((r : Row V) → p' r ≡ (p r && q r))
      → select p' rs ≡ select q (select p rs)
  select-refines p q p' [] h = refl
  select-refines p q p' (r ∷ rs) h = ground (arith, select-refines p q p' rs h, h r)

  All-selected : (p : Row V → Bool) (rs : List (Row V)) → All (λ r. p r ≡ true) (select p rs)
  All-selected p [] = tt
  All-selected p (r ∷ rs) = elim (Bool-cases (p r)) [
    | inl e ↦ rw e (e, All-selected p rs)
    | inr e ↦ rw e (All-selected p rs)
  ]

  take_all : (n : ℕ) (rs : List (Row V)) → length (take n rs) < n → take n rs ≡ rs
  take_all zero rs h = absurd (omega (arith, h))
  take_all (suc n) [] h = refl
  take_all (suc n) (r ∷ rs) h = ground (arith, take_all n rs)

  map-take :
      {W : Type 0} (f : Row V → W) (n : ℕ) (rs : List (Row V))
      → map f (take n rs) ++ map f (drop n rs) ≡ map f rs
  map-take f zero rs = refl
  map-take f (suc n) [] = refl
  map-take f (suc n) (r ∷ rs) = ground (arith, map-take f n rs)

  last_of-cons : (r : Row V) (rs : List (Row V)) → (last : Row V) × (last_of (r ∷ rs) ≡ some last)
  last_of-cons r [] = (r, refl)
  last_of-cons r (s ∷ rs) = last_of-cons s rs

  last_of-some : (rs : List (Row V)) → 1 ≤ length rs → (last : Row V) × (last_of rs ≡ some last)
  last_of-some [] h = absurd (omega (arith, h))
  last_of-some (r ∷ rs) h = last_of-cons r rs

  length-map : {W : Type 0} (f : Row V → W) (rs : List (Row V)) → length (map f rs) ≡ length rs
  length-map f [] = refl
  length-map f (r ∷ rs) = ground (arith, length-map f rs)

  module _ (settle_window now store : ℕ) where
    wanted_next :
        (rs : List (Row V)) (n : ℕ) (after : TableMark) (last : Row V)
        → IsAscending rs
        → last_of (take n (select (is_wanted settle_window now store after) rs)) ≡ some last
        → select (is_wanted settle_window now store (mark_of last)) rs
          ≡ drop n (select (is_wanted settle_window now store after) rs)
    wanted_next rs n after last a e =
        let wanted = is_wanted {V = V} settle_window now store in
        let given : wanted after last ≡ true =
          All-last_of (λ r. wanted after r ≡ true) n (select (wanted after) rs) last
            (All-selected (wanted after) rs) e in
        select-refines (wanted after) (is_after (mark_of last)) (wanted (mark_of last)) rs
          (λ r. ground arith)
        ∙ select-is_after n (select (wanted after) rs) last (select-IsAscending (wanted after) rs a)
            e

    module _ (rows : List (Row V)) where
      -- The rows that a device at a mark has still to get, in the order it gets them.
      abbrev pub left : TableMark → List (Row V)
      left after = sort le (select (is_wanted settle_window now store after) rows)

      pub left-last_of :
          (n : ℕ) (after : TableMark) (last : Row V)
          → HasKeys rows
          → last_of (take n (left after)) ≡ some last
          → left (mark_of last) ≡ drop n (left after)
      left-last_of n after last keys e =
          let wanted = is_wanted {V = V} settle_window now store in
          let same = sort-select le le-TotalOrder (wanted after) rows in
          let same' = sort-select le le-TotalOrder (wanted (mark_of last)) rows in
          same'
          ∙ wanted_next (sort le rows) n after last (sort-IsAscending rows keys)
              (subst (λ rs. last_of (take n rs) ≡ some last) same e)
          ∙ ap (drop n) (sym same)

      -- Pulls until a page is not full, at most `fuel` times.
      unfoldable pub download : ℕ → TableMark → ℕ → List V
      download zero after limit = []
      download (suc fuel) after limit =
          let page = changed_since settle_window now rows store after limit in
          let rest = download fuel (unwrap_or page.last after) limit in
          if leb limit (length page.rows) then page.rows ++ rest else page.rows

      changed_since-rows :
          (after : TableMark) (limit : ℕ)
          → (changed_since settle_window now rows store after limit).rows
            ≡ map (λ r. r.value) (take limit (left after))
      unfolding changed_since page_query
      changed_since-rows after limit = refl

      changed_since-last :
          (after : TableMark) (limit : ℕ) (last : Row V)
          → last_of (take limit (left after)) ≡ some last
          → (changed_since settle_window now rows store after limit).last ≡ some (mark_of last)
      unfolding changed_since page_query
      changed_since-last after limit last e = rw (e, changed_since) refl

      download-full :
          (fuel limit : ℕ) (after m : TableMark)
          → leb limit (length (changed_since settle_window now rows store after limit).rows) ≡ true
          → (changed_since settle_window now rows store after limit).last ≡ some m
          → download (suc fuel) after limit
            ≡ (changed_since settle_window now rows store after limit).rows ++ download fuel m limit
      unfolding download
      download-full fuel limit after m full e = rw (full, e) refl

      download-short :
          (fuel limit : ℕ) (after : TableMark)
          → leb limit (length (changed_since settle_window now rows store after limit).rows) ≡ false
          → download (suc fuel) after limit
            ≡ (changed_since settle_window now rows store after limit).rows
      unfolding download
      download-short fuel limit after short = rw short refl

      length-changed_since :
          (after : TableMark) (limit : ℕ)
          → length (changed_since settle_window now rows store after limit).rows
            ≡ min limit (length (left after))
      length-changed_since after limit =
          rw (changed_since-rows after limit)
            (length-map (λ r. r.value) (take limit (left after)) ∙ length-take limit (left after))

      download-next :
          (fuel limit : ℕ) (after : TableMark) (last : Row V)
          → HasKeys rows
          → leb limit (length (changed_since settle_window now rows store after limit).rows) ≡ true
          → last_of (take limit (left after)) ≡ some last
          → download fuel (mark_of last) limit ≡ map (λ r. r.value) (left (mark_of last))
          → download (suc fuel) after limit ≡ map (λ r. r.value) (left after)
      download-next fuel limit after last keys full e rest =
          download-full fuel limit after (mark_of last) full (changed_since-last after limit last e)
          ∙ rw (changed_since-rows after limit, rest, left-last_of limit after last keys e)
              (map-take (λ r. r.value) limit (left after))

      -- With keys that differ and a page size of at least one, pulling until a page is not full
      -- ends within one pull more than there are rows, and gives exactly the rows of the store
      -- that have settled and lie after the mark, each once, in the order of their last change.
      pub download_all :
          (fuel : ℕ) (after : TableMark) (limit : ℕ)
          → HasKeys rows
          → 1 ≤ limit
          → length (left after) < fuel
          → download fuel after limit ≡ map (λ r. r.value) (left after)
      download_all zero after limit keys positive enough = absurd (omega (arith, enough))
      download_all (suc fuel) after limit keys positive enough =
          let size = length-changed_since after limit in
          let page = changed_since-rows after limit in
          elim (Bool-cases
            (leb limit (length (changed_since settle_window now rows store after limit).rows))) [
              | inl full ↦
                  let filled : limit ≤ length (left after) = ground arith in
                  let (last, e) =
                    last_of-some (take limit (left after))
                      (omega (arith, length-take limit (left after))) in
                  download-next fuel limit after last keys full e (
                    download_all fuel (mark_of last) limit keys positive (
                      rw (left-last_of limit after last keys e)
                        (omega (arith, length-drop limit (left after)))))
              | inr short ↦
                  let unfilled : length (left after) < limit = ground arith in
                  download-short fuel limit after short
                  ∙ page
                  ∙ ap (map (λ r. r.value))
                      (take_all limit (left after) (omega (arith, length-take limit (left after))))
            ]

      -- A row that a pull did not see because its transaction had not committed, and that was
      -- stamped no earlier than the settle window before the pull, still lies ahead of the mark
      -- that the pull leaves: a later pull gets it.
      pub late_row_is_ahead :
          (after m : TableMark) (limit : ℕ) (late : Row V)
          → (changed_since settle_window now rows store after limit).last ≡ some m
          → now ≤ late.updated_at + settle_window
          → is_after m late ≡ true
      unfolding changed_since page_query
      late_row_is_ahead after m limit late e h =
          elim (Option-cases (last_of (take limit (left after)))) [
            | inl none_left ↦ ground arith
            | inr (last, found) ↦
                let settled : is_wanted {V = V} settle_window now store after last ≡ true =
                  All-last_of (λ r. is_wanted settle_window now store after r ≡ true) limit
                    (left after) last (All-sort le _ _ (All-selected _ rows)) found in
                ground arith
          ]
