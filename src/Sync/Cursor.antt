-- ===== src/Sync/Cursor.antt =====
-- backend/src/features/sync/sync_cursor.rs: how far a device has read each table. The map of marks
-- is a function from tables. `to_hex` and `of_hex` stand for the libraries that write the map out
-- (`serde_json` inside `hex`) and read it in.
use kitaza.Common.{ap}
use kitaza.Common.{
  ℕ, ◌≡◌, Bool, true, false, Option, none, some, List, [], ◌∷◌, arith, if◌then◌else◌, String,
  unwrap_or,
}

pub data SyncTable : Type 0 where
  products sales expenses withdrawals stock_movements : SyncTable

-- `SyncTable::ALL`
abbrev pub all : List SyncTable
all = products ∷ sales ∷ expenses ∷ withdrawals ∷ stock_movements ∷ []

-- The derived `PartialEq` of `SyncTable`.
abbrev pub eqb : SyncTable → SyncTable → Bool
eqb products products = true
eqb sales sales = true
eqb expenses expenses = true
eqb withdrawals withdrawals = true
eqb stock_movements stock_movements = true
eqb _ _ = false

pub record TableMark : Type 0 where
  pub updated_at : ℕ
  pub id : ℕ

-- `TableMark::origin`
abbrev pub origin : TableMark
origin = record { updated_at = 0; id = 0 }

abbrev pub SyncCursor : Type 0
SyncCursor = SyncTable → Option TableMark

-- `SyncCursor::default`
abbrev pub default : SyncCursor
default table = none

-- `SyncCursor::mark`
unfoldable pub mark : SyncCursor → SyncTable → TableMark
mark cursor table = unwrap_or (cursor table) origin

-- `SyncCursor::advance`
unfoldable pub advance : SyncTable → TableMark → SyncCursor → SyncCursor
advance table m cursor other = if eqb other table then some m else cursor other

-- `SyncCursor::encode`
abbrev pub encode : (SyncCursor → String) → SyncCursor → String
encode to_hex cursor = to_hex cursor

-- `SyncCursor::decode`
unfoldable pub decode : (String → Option SyncCursor) → Option String → SyncCursor
decode of_hex none = default
decode of_hex (some raw) = unwrap_or (of_hex raw) default

pub mark-advance :
    (table other : SyncTable) (m : TableMark) (cursor : SyncCursor)
    → mark (advance table m cursor) other ≡ (if eqb other table then m else mark cursor other)
unfolding mark advance
mark-advance table other m cursor = ground arith

pub decode-encode :
    (to_hex : SyncCursor → String) (of_hex : String → Option SyncCursor) (c : SyncCursor)
    → of_hex (to_hex c) ≡ some c
    → decode of_hex (some (encode to_hex c)) ≡ c
unfolding decode
decode-encode to_hex of_hex c reads = ap (λ found. unwrap_or found default) reads
