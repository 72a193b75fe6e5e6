-- ===== src/Auth/Codes/Sharing.antt =====
-- A code that has just been shared lets its staff member in, and the one before it does not.
use kitaza.Auth.Entry.{JoinRequest, join, open_actor, device_name}
use kitaza.Auth.Devices.{
  admits_session, opened, open_session, find_owner_by_id, store_refresh_token,
}
use kitaza.Auth.Tables.{StaffMember, StoreRecord}
use kitaza.Auth.Staff.{record_of, owner_of_code}
use kitaza.Auth.Service.{Draw, issue}
use kitaza.Billing.Gate.{check_staff}
use kitaza.Common.{
  some, String, Option, ==_self, ℕ, ◌+◌, ◌≡◌, ◌<◌, refl, ap, ◌∙◌, Bool, true, false, none, List,
  ◌∷◌, find, ◌==◌, is_some, arith, Option-cases, inl, inr,
}
use kitaza.Common.Failure.{ok, ok-cases}
use kitaza.Access.Actor.{Actor}
use kitaza.Auth.Tables.{AccountTables}
use kitaza.Auth.Staff.{redeem, is_live_code, replace_invite, delete_unused, find_store, find_member}
use kitaza.Auth.JoinCode.{Text, generate}
use kitaza.Auth.JoinCode.Laws.{TypedAs, normalise-TypedAs}
use kitaza.Auth.Service.{AuthEnv, Server}
use kitaza.Auth.Staffing.{fingerprint, new_invite, reinvite, invite_lifetime, InviteView}
use kitaza.Auth.Codes.{unknown, shared, codes, IsDistinct}
use kitaza.Auth.Codes.Refinement.{find-live, replace_invite-Allowed, status-delete_unused}

-- What a successful `new_invite` leaves.
new_invite-stored :
    (env : AuthEnv) (letters : List ℕ) (staff now : ℕ) (t : AccountTables) (view : InviteView)
    → (new_invite env letters staff now t).0 ≡ ok view
    → (new_invite env letters staff now t).1 ≡ record t {
      invites =
          record {
            staff_id = staff;
            code_hash = fingerprint env view.code;
            expires_at = now + invite_lifetime;
            redeemed_at = none;
          }
          ∷ delete_unused staff t.invites;
    }
unfolding new_invite replace_invite
new_invite-stored env letters staff now t view e = ground arith

redeem-unknown :
    (hash now : ℕ) (t : AccountTables)
    → IsDistinct t.invites
    → codes t hash ≡ unknown
    → redeem hash now t ≡ (ok none, t)
unfolding redeem
redeem-unknown hash now t d e = elim (Option-cases (find (is_live_code hash now) t.invites)) [
  | inl f ↦ rw (f, redeem) refl
  | inr (i, f) ↦ let (live, _, _) = find-live hash now t.invites i d f in absurd (ground arith)
]

new_invite-IsDistinct :
    (env : AuthEnv) (letters : List ℕ) (staff now : ℕ) (t : AccountTables)
    → IsDistinct t.invites
    → IsDistinct (new_invite env letters staff now t).1.invites
unfolding new_invite
new_invite-IsDistinct env letters staff now t d =
    let hash = fingerprint env (generate letters) in
    let kept = (replace_invite-Allowed staff hash (now + invite_lifetime) now t d).1 in
    elim (ok-cases (replace_invite staff hash (now + invite_lifetime) t).0) [
      | inl (_, e) ↦ rw (e, new_invite) kept
      | inr (_, e) ↦ rw (e, new_invite) kept
    ]

fingerprint-TypedAs :
    (env : AuthEnv) (typed code : Text)
    → TypedAs typed code
    → fingerprint env typed ≡ fingerprint env code
unfolding fingerprint
fingerprint-TypedAs env typed code h = ap env.sha256_text (normalise-TypedAs h)

-- The tables with a code that has just been shared.
abbrev shared_last : ℕ → ℕ → ℕ → AccountTables → AccountTables
shared_last hash staff expires t = record t {
  invites =
      record { staff_id = staff; code_hash = hash; expires_at = expires; redeemed_at = none }
      ∷ delete_unused staff t.invites;
}

module _ (hash later store staff expires : ℕ) (t : AccountTables) (member : StaffMember)
    (shop : StoreRecord) (works : is_some (find_member store staff t) ≡ true)
    (here : t.staff_members staff ≡ some member) (there : find_store store t ≡ some shop)
    (soon : later < expires) where
  -- The code that was shared last is the one that is found.
  redeem-shared_last :
      (redeem hash later (shared_last hash staff expires t)).0
      ≡ ok (some (record { staff = record_of staff member; owner_id = shop.owner_id }))
  unfolding redeem find_member
  redeem-shared_last = ground arith

  owner_of_code-shared_last :
      owner_of_code hash later (shared_last hash staff expires t) ≡ some shop.owner_id
  unfolding owner_of_code find_member
  owner_of_code-shared_last = ground arith

  redeem-keeps :
      let t' = (redeem hash later (shared_last hash staff expires t)).1 in
      (t'.sessions ≡ t.sessions) × (t'.owners ≡ t.owners) × (t'.staff_members ≡ t.staff_members)
  unfolding redeem
  redeem-keeps = ground arith

open_actor-session :
    (env : AuthEnv) (draw : Draw) (now owner : ℕ) (staff : Option ℕ) (device : String)
    (srv : Server)
    → admits_session draw.session owner staff srv.tables ≡ true
    → (open_actor env draw now owner staff device srv).1.tables.sessions draw.session
      ≡ some (opened owner staff device now)
unfolding open_actor open_session
open_actor-session env draw now owner staff device srv admitted =
    ground (arith, ==_self draw.session)

issue-sessions :
    (env : AuthEnv) (draw : Draw) (now : ℕ) (a : Actor) (srv : Server)
    → (issue env draw now a srv).1.tables.sessions ≡ srv.tables.sessions
unfolding issue store_refresh_token
issue-sessions env draw now a srv = ground arith

-- Joining with the code that was shared last.
join-session :
    (env : AuthEnv) (grace : ℕ) (enforced : Bool) (draw : Draw) (later : ℕ) (request : JoinRequest)
    (hash staff expires store : ℕ) (t : AccountTables) (srv : Server) (member : StaffMember)
    (shop : StoreRecord)
    → is_some (find_member store staff t) ≡ true
    → t.staff_members staff ≡ some member
    → find_store store t ≡ some shop
    → later < expires
    → srv.tables ≡ shared_last hash staff expires t
    → fingerprint env request.code ≡ hash
    → is_some (find_owner_by_id shop.owner_id t) ≡ true
    → check_staff grace later enforced env.show (t.subscriptions shop.owner_id) ≡ ok tt
    → t.sessions draw.session ≡ none
    → (join env grace enforced draw later request srv).0.1.tables.sessions draw.session
      ≡ some (
          opened shop.owner_id
            (some staff)
            (device_name env request.device_name request.device_tag)
            later)
unfolding join
join-session env grace enforced draw later request hash staff expires store t srv member shop works
      here there soon tables typed owner plan fresh =
    let device = device_name env request.device_name request.device_tag in
    let u = (redeem hash later (shared_last hash staff expires t)).1 in
    let kept = redeem-keeps hash later store staff expires t member shop works here there soon in
    let admitted : admits_session draw.session shop.owner_id (some staff) u ≡ true =
      rw (kept.0, kept.1, kept.2) (ground arith) in
    let srv' : Server = record srv { tables = u } in
    ground (
      arith,
      redeem-shared_last hash later store staff expires t member shop works here there soon,
      owner_of_code-shared_last hash later store staff expires t member shop works here there soon,
      open_actor-session env draw later shop.owner_id (some staff) device srv' admitted,
    )

module _ (env : AuthEnv) (grace : ℕ) (enforced : Bool) (letters : List ℕ) (store : ℕ)
    (actor : Actor) (now staff : ℕ) (srv : Server) (view : InviteView)
    (e : (reinvite env grace enforced letters store actor now staff srv).0 ≡ ok view) where
  -- A successful `reinvite` issued a code for somebody who works at the store.
  reinvite-issued :
      (is_some (find_member store staff srv.tables) ≡ true)
      × ((new_invite env letters staff now srv.tables).0 ≡ ok view)
      × ((reinvite env grace enforced letters store actor now staff srv).1.tables
          ≡ (new_invite env letters staff now srv.tables).1)
  unfolding reinvite find_member
  reinvite-issued = ground arith

  reinvite-tables :
      (reinvite env grace enforced letters store actor now staff srv).1.tables
      ≡ record (srv.tables) {
        invites =
            record {
              staff_id = staff;
              code_hash = fingerprint env view.code;
              expires_at = now + invite_lifetime;
              redeemed_at = none;
            }
            ∷ delete_unused staff srv.tables.invites;
      }
  reinvite-tables =
      reinvite-issued.2 ∙ new_invite-stored env letters staff now srv.tables view reinvite-issued.1

  -- A new code makes the staff member's earlier one worthless: whoever still has it is refused.
  pub reinvite_cancels :
      (old expires later : ℕ)
      → IsDistinct srv.tables.invites
      → codes srv.tables old ≡ shared staff expires
      → (old == fingerprint env view.code) ≡ false
      → let t = (reinvite env grace enforced letters store actor now staff srv).1.tables in
        redeem old later t ≡ (ok none, t)
  reinvite_cancels old expires later d was other =
      let t = (reinvite env grace enforced letters store actor now staff srv).1.tables in
      redeem-unknown old later t
        (rw reinvite-issued.2 (new_invite-IsDistinct env letters staff now srv.tables d))
        (rw reinvite-tables (ground (arith, status-delete_unused staff old srv.tables.invites d)))

  -- The new code lets the staff member in for a day, however they type it: in either case, with or
  -- without the dash, with stray characters. While the store's owner is there with a plan that has
  -- staff, and the drawn id is new, joining with it opens a session of that owner and of that staff
  -- member, under the name that the device sends.
  pub reinvited_can_join :
      (draw : Draw) (request : JoinRequest) (later : ℕ) (member : StaffMember) (shop : StoreRecord)
      → srv.tables.staff_members staff ≡ some member
      → find_store store srv.tables ≡ some shop
      → is_some (find_owner_by_id shop.owner_id srv.tables) ≡ true
      → check_staff grace later enforced env.show (srv.tables.subscriptions shop.owner_id) ≡ ok tt
      → srv.tables.sessions draw.session ≡ none
      → TypedAs request.code view.code
      → later < now + invite_lifetime
      → let asked = (reinvite env grace enforced letters store actor now staff srv).1 in
        (join env grace enforced draw later request asked).0.1.tables.sessions draw.session
        ≡ some (
            opened shop.owner_id
              (some staff)
              (device_name env request.device_name request.device_tag)
              later)
  reinvited_can_join draw request later member shop here there owner plan fresh h soon =
      let asked = (reinvite env grace enforced letters store actor now staff srv).1 in
      let hash = fingerprint env view.code in
      join-session env grace enforced draw later request hash staff (now + invite_lifetime) store
        srv.tables asked member shop reinvite-issued.0 here there soon reinvite-tables
        (fingerprint-TypedAs env request.code view.code h) owner plan fresh
