-- ===== src/Auth/Codes.antt =====
-- What `staff_invites` promises: a code is unknown, shared for a staff member until it expires, or
-- used. An abstract view of the table that forgets its order, and the steps that it may take.
pub mod OnceOnly
pub mod Refinement
pub mod Sharing
use kitaza.Common.{
  ℕ, ◌≡◌, ◌<◌, ◌≢◌, Bool, true, false, ◌&&◌, not, Option, none, some, List, [], ◌∷◌, find, any, ltb,
  ◌==◌, is_some, if◌then◌else◌,
}
use kitaza.Auth.Tables.{Invite, AccountTables}

pub data Status : Type 0 where
  unknown : Status
  shared : ℕ → ℕ → Status
  used : Status

abbrev pub Codes : Type 0
Codes = ℕ → Status

abbrev pub status_of : Option Invite → Status
status_of none = unknown
status_of (some i) = if is_some i.redeemed_at then used else shared i.staff_id i.expires_at

-- The view of the table.
abbrev pub codes : AccountTables → Codes
codes t hash = status_of (find (λ i. i.code_hash == hash) t.invites)

-- `code_hash` is unique.
abbrev pub IsDistinct : List Invite → Type 0
IsDistinct [] = Unit
IsDistinct (i ∷ is) = (any (λ j. j.code_hash == i.code_hash) is ≡ false) × IsDistinct is

-- The codes without those shared for a staff member and not used.
abbrev pub withdraw : ℕ → Status → Status
withdraw staff unknown = unknown
withdraw staff (shared who expires) = if who == staff then unknown else shared who expires
withdraw staff used = used

abbrev pub write : ℕ → Status → Codes → Codes
write hash status a h = if h == hash then status else a h

-- A step at the time `now`: none, a new code that replaces those of its staff member, the use of a
-- code that has not expired, or the withdrawal of a staff member's codes.
pub data Allowed (now : ℕ) (a b : Codes) : Type 0 where
  stays : ((h : ℕ) → b h ≡ a h) → Allowed now a b
  shares :
      (staff hash expires : ℕ)
      → withdraw staff (a hash) ≡ unknown
      → ((h : ℕ) → b h ≡ write hash (shared staff expires) (λ k. withdraw staff (a k)) h)
      → Allowed now a b
  uses :
      (hash staff expires : ℕ)
      → a hash ≡ shared staff expires
      → now < expires
      → ((h : ℕ) → b h ≡ write hash used a h)
      → Allowed now a b
  withdraws : (staff : ℕ) → ((h : ℕ) → b h ≡ withdraw staff (a h)) → Allowed now a b
