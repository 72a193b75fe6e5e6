-- ===== src/Auth/Codes/Refinement.antt =====
-- Every statement on the tables is a step that the view of the codes allows.
use kitaza.Common.{
  ℕ, ◌≡◌, ◌⊎◌, refl, sym, ap, ◌∙◌, Bool, true, false, ◌&&◌, not, Option, none, some, List, [], ◌∷◌,
  find, any, ltb, ◌==◌, is_some, arith, Option-cases, Bool-cases, inl, inr,
}
use kitaza.Common.Failure.{ApiResult, ok}
use kitaza.Auth.Tables.{Invite, AccountTables}
use kitaza.Auth.Staff.{
  remove, replace_invite, redeem, delete_unused, use_up, is_live_code, is_unused_of, RedeemedInvite,
  find_store, works_at,
}
use kitaza.Auth.Codes.{
  shared, used, codes, status_of, IsDistinct, withdraw, write, Allowed, stays, shares, uses,
  withdraws,
}

find-absent :
    (hash : ℕ) (is : List Invite)
    → any (λ i. i.code_hash == hash) is ≡ false
    → find (λ i. i.code_hash == hash) is ≡ none
find-absent hash [] e = refl
find-absent hash (i ∷ is) e = ground (arith, find-absent hash is)

any-delete_unused :
    (staff hash : ℕ) (is : List Invite)
    → any (λ i. i.code_hash == hash) is ≡ false
    → any (λ i. i.code_hash == hash) (delete_unused staff is) ≡ false
any-delete_unused staff hash [] e = refl
any-delete_unused staff hash (i ∷ is) e = ground (arith, any-delete_unused staff hash is)

pub status-delete_unused :
    (staff hash : ℕ) (is : List Invite)
    → IsDistinct is
    → status_of (find (λ i. i.code_hash == hash) (delete_unused staff is))
      ≡ withdraw staff (status_of (find (λ i. i.code_hash == hash) is))
status-delete_unused staff hash [] d = refl
status-delete_unused staff hash (i ∷ is) d = ground (
  arith,
  status-delete_unused staff hash is,
  find-absent hash (delete_unused staff is),
  any-delete_unused staff i.code_hash is,
)

delete_unused-IsDistinct :
    (staff : ℕ) (is : List Invite) → IsDistinct is → IsDistinct (delete_unused staff is)
delete_unused-IsDistinct staff [] d = tt
delete_unused-IsDistinct staff (i ∷ is) d = elim (Bool-cases (is_unused_of staff i)) [
  | inl e ↦ rw e (delete_unused-IsDistinct staff is d.1)
  | inr e ↦ rw e (any-delete_unused staff i.code_hash is d.0, delete_unused-IsDistinct staff is d.1)
]

any-use_up :
    (hash now other : ℕ) (is : List Invite)
    → any (λ i. i.code_hash == other) (use_up hash now is) ≡ any (λ i. i.code_hash == other) is
any-use_up hash now other [] = refl
any-use_up hash now other (i ∷ is) = ground (arith, any-use_up hash now other is)

use_up-IsDistinct :
    (hash now : ℕ) (is : List Invite) → IsDistinct is → IsDistinct (use_up hash now is)
use_up-IsDistinct hash now [] d = tt
use_up-IsDistinct hash now (i ∷ is) d =
    (ground (arith, any-use_up hash now i.code_hash is, d.0), use_up-IsDistinct hash now is d.1)

find-use_up :
    (hash now other : ℕ) (is : List Invite)
    → (other == hash) ≡ false
    → find (λ i. i.code_hash == other) (use_up hash now is) ≡ find (λ i. i.code_hash == other) is
find-use_up hash now other [] e = refl
find-use_up hash now other (i ∷ is) e = ground (arith, find-use_up hash now other is)

status-use_up_self :
    (hash now : ℕ) (is : List Invite)
    → any (λ i. i.code_hash == hash) is ≡ true
    → status_of (find (λ i. i.code_hash == hash) (use_up hash now is)) ≡ used
status-use_up_self hash now [] e = absurd cc
status-use_up_self hash now (i ∷ is) e = ground (arith, status-use_up_self hash now is)

find_live-absent :
    (hash now : ℕ) (is : List Invite)
    → any (λ j. j.code_hash == hash) is ≡ false
    → find (is_live_code hash now) is ≡ none
find_live-absent hash now [] e = refl
find_live-absent hash now (j ∷ is) e = ground (arith, find_live-absent hash now is)

-- The code that a search for a live one finds.
pub find-live :
    (hash now : ℕ) (is : List Invite) (i : Invite)
    → IsDistinct is
    → find (is_live_code hash now) is ≡ some i
    → (status_of (find (λ j. j.code_hash == hash) is) ≡ shared i.staff_id i.expires_at)
      × (any (λ j. j.code_hash == hash) is ≡ true)
      × (ltb now i.expires_at ≡ true)
find-live hash now [] i d e = absurd cc
find-live hash now (j ∷ is) i d e =
    ground (arith, find-live hash now is i d.1, find_live-absent hash now is, d.0)

pub replace_invite-Allowed :
    (staff hash expires now : ℕ) (t : AccountTables)
    → IsDistinct t.invites
    → Allowed now (codes t) (codes (replace_invite staff hash expires t).1)
      × IsDistinct (replace_invite staff hash expires t).1.invites
unfolding replace_invite
replace_invite-Allowed staff hash expires now t d =
    let kept = delete_unused staff t.invites in
    elim (Bool-cases
      (is_some (t.staff_members staff) && not (any (λ i. i.code_hash == hash) kept))) [
        | inr e ↦ rw (e, replace_invite) (stays (λ h. refl), d)
        | inl e ↦
            rw (e, replace_invite)
              (
                shares staff hash expires
                    (sym (status-delete_unused staff hash t.invites d)
                      ∙ ap status_of (find-absent hash kept (ground arith)))
                    (λ h. ground (arith, status-delete_unused staff h t.invites d)),
                (ground arith, delete_unused-IsDistinct staff t.invites d),
              )
      ]

pub status-use_up :
    (hash now : ℕ) (t : AccountTables)
    → any (λ i. i.code_hash == hash) t.invites ≡ true
    → (h : ℕ)
    → codes (record t { invites = use_up hash now t.invites }) h ≡ write hash used (codes t) h
status-use_up hash now t e h = elim (Bool-cases (h == hash)) [
  | inl f ↦ ground (arith, status-use_up_self hash now t.invites e)
  | inr f ↦ rw f (ap status_of (find-use_up hash now h t.invites f))
]

-- Whether redeeming a code let someone in.
abbrev pub gives : ApiResult (Option RedeemedInvite) → Bool
gives (ok (some _)) = true
gives _ = false

-- What a code that is redeemed was, and what the tables are afterwards.
pub redeem-gives :
    (hash now : ℕ) (t : AccountTables)
    → (((redeem hash now t).1 ≡ t) × (gives (redeem hash now t).0 ≡ false))
      ⊎ ((i : Invite) × (find (is_live_code hash now) t.invites ≡ some i)
          × ((redeem hash now t).1 ≡ record t { invites = use_up hash now t.invites }))
unfolding redeem
redeem-gives hash now t = elim (Option-cases (find (is_live_code hash now) t.invites)) [
  | inl e ↦ inl (ground arith, ground arith)
  | inr (i, e) ↦ elim (Option-cases (t.staff_members i.staff_id)) [
    | inl f ↦ inl (ground arith, ground arith)
    | inr (member, f) ↦ elim (Bool-cases (is_some member.removed_at)) [
      | inl g ↦ inl (ground arith, ground arith)
      | inr g ↦ elim (Option-cases (find_store member.store_id t)) [
        | inl s ↦ inl (ground arith, ground arith)
        | inr (store, s) ↦ inr (i, e, ground arith)
      ]
    ]
  ]
]

pub redeem-Allowed :
    (hash now : ℕ) (t : AccountTables)
    → IsDistinct t.invites
    → Allowed now (codes t) (codes (redeem hash now t).1) × IsDistinct (redeem hash now t).1.invites
redeem-Allowed hash now t d = elim (redeem-gives hash now t) [
  | inl (e, _) ↦ rw e (stays (λ h. refl), d)
  | inr (i, found, e) ↦
      let (status, here, live) = find-live hash now t.invites i d found in
      rw e (
        uses hash i.staff_id i.expires_at status (ground arith) (status-use_up hash now t here),
        use_up-IsDistinct hash now t.invites d,
      )
]

pub remove-Allowed :
    (store staff now : ℕ) (t : AccountTables)
    → IsDistinct t.invites
    → Allowed now (codes t) (codes (remove store staff now t).1)
      × IsDistinct (remove store staff now t).1.invites
unfolding remove
remove-Allowed store staff now t d = elim (Option-cases (t.staff_members staff)) [
  | inl e ↦ rw (e, remove) (stays (λ h. refl), d)
  | inr (member, e) ↦ elim (Bool-cases (works_at store member)) [
    | inl f ↦
        rw (e, f, remove)
          (
            withdraws staff (λ h. status-delete_unused staff h t.invites d),
            delete_unused-IsDistinct staff t.invites d,
          )
    | inr f ↦ rw (e, f, remove) (stays (λ h. refl), d)
  ]
]
