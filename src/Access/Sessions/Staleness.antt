-- ===== src/Access/Sessions/Staleness.antt =====
-- How old an answer of the session directory can be.
use kitaza.Common.{
  ℕ, ◌+◌, ◌≤◌, ◌<◌, ◌≡◌, refl, Option, none, some, [], ◌∷◌, length, leb, arith, if◌then◌else◌, ◌==◌,
  Bool-cases, Option-cases, inl, inr,
}
use kitaza.Access.Actor.{Actor}
use kitaza.Access.Sessions.{
  Database, Remembered, entry, erase, remembered, remember, resolve, actor_in, forget_all,
  trust_window, max_remembered,
}

module _ (session : ℕ) where
  entry-erase_self : (m : Remembered) → entry (erase session m) session ≡ none
  entry-erase_self [] = refl
  entry-erase_self ((s, e) ∷ m) = ground (arith, entry-erase_self m)

  entry-erase :
      (other : ℕ) (m : Remembered)
      → entry (erase session m) other ≡ (if session == other then none else entry m other)
  entry-erase other [] = ground arith
  entry-erase other ((s, e) ∷ m) = ground (arith, entry-erase other m)

  length-erase : (m : Remembered) → length (erase session m) ≤ length m
  length-erase [] = omega arith
  length-erase ((s, e) ∷ m) = ground (arith, length-erase m)

  entry-remember :
      (other now : ℕ) (actor : Option Actor) (m : Remembered)
      → entry (remember session now actor m) other ≡ (
          if session == other
          then some (now, actor)
          else if leb max_remembered (length m)
          then none
          else entry m other)
  unfolding remember
  entry-remember other now actor m = ground (arith, entry-erase other m)

module _ (db : Database) (session asked answered : ℕ) (m : Remembered) where
  resolve-fresh :
      remembered m session asked ≡ none
      → resolve db session asked answered m
        ≡ (actor_in db session, remember session answered (actor_in db session) m)
  unfolding resolve
  resolve-fresh e = rw (e, resolve)

  resolve-known :
      (actor : Option Actor)
      → remembered m session asked ≡ some actor
      → resolve db session asked answered m ≡ (actor, m)
  unfolding resolve
  resolve-known actor e = rw (e, resolve)

remembered-entry :
    (m : Remembered) (session now : ℕ) (actor : Option Actor)
    → remembered m session now ≡ some actor
    → (at : ℕ) × (entry m session ≡ some (at, actor)) × (now < at + trust_window)
unfolding remembered
remembered-entry m session now actor e = elim (Option-cases (entry m session)) [
  | inl missing ↦ ground arith
  | inr ((at, found), known) ↦ (at, ground arith, ground arith)
]

-- Each answer in memory was the database's at a time `t`, and was written within `lag` of it.
pub record IsTruthful (history : ℕ → Database) (lag : ℕ) (m : Remembered) (now : ℕ) : Type 0 where
  pub source :
      (session at : ℕ) (actor : Option Actor)
      → entry m session ≡ some (at, actor)
      → (t : ℕ) × (t ≤ at) × (at ≤ t + lag) × (at ≤ now) × (actor ≡ actor_in (history t) session)

pub forget_all-IsTruthful :
    (history : ℕ → Database) (lag : ℕ) (m : Remembered) (now : ℕ)
    → IsTruthful history lag (forget_all m) now
forget_all-IsTruthful history lag m now = record { source = λ session at actor e. cc }

module _ (history : ℕ → Database) (lag : ℕ) where
  remember-source :
      (session asked answered other at : ℕ) (actor : Option Actor) (m : Remembered)
      → asked ≤ answered
      → answered ≤ asked + lag
      → IsTruthful history lag m asked
      → entry (remember session answered (actor_in (history asked) session) m) other
        ≡ some (at, actor)
      → (t : ℕ) × (t ≤ at) × (at ≤ t + lag) × (at ≤ answered) × (actor ≡ actor_in (history t) other)
  remember-source session asked answered other at actor m after soon truthful e =
      let looked_up = entry-remember session other answered (actor_in (history asked) session) m in
      elim (Bool-cases (session == other)) [
        | inl same ↦
            let same' : session ≡ other = ground arith in
            (
              asked,
              ground (arith, looked_up),
              ground (arith, looked_up),
              ground (arith, looked_up),
              rw (← same') (ground (arith, looked_up)),
            )
        | inr differs ↦
            let kept : entry m other ≡ some (at, actor) = ground (arith, looked_up) in
            let (t, before, near, past, answer) = truthful.source other at actor kept in
            (t, before, near, omega arith, answer)
      ]

  remember-IsTruthful :
      (session asked answered : ℕ) (m : Remembered)
      → asked ≤ answered
      → answered ≤ asked + lag
      → IsTruthful history lag m asked
      → IsTruthful history lag
          (remember session answered (actor_in (history asked) session) m)
          answered
  remember-IsTruthful session asked answered m after soon truthful = record {
    source = λ other at actor.
        remember-source session asked answered other at actor m after soon truthful;
  }

  weaken :
      (m : Remembered) (now later : ℕ)
      → now ≤ later
      → IsTruthful history lag m now
      → IsTruthful history lag m later
  weaken m now later h truthful = record {
    source = λ session at actor e.
        let (t, before, near, past, answer) = truthful.source session at actor e in
        (t, before, near, omega arith, answer);
  }

  -- Where each lookup is written within `lag` of its reading the database, the directory answers
  -- with what the database held at a time `t` that is less than `lag` and the trust window back,
  -- and its memory stays true.
  pub resolve_recent :
      (session asked answered : ℕ) (m : Remembered)
      → asked ≤ answered
      → answered ≤ asked + lag
      → IsTruthful history lag m asked
      → let (actor, m') = resolve (history asked) session asked answered m in
        IsTruthful history lag m' answered
        × ((t : ℕ) × (t ≤ asked)
            × (asked < t + lag + trust_window)
            × (actor ≡ actor_in (history t) session))
  resolve_recent session asked answered m after soon truthful =
      elim (Option-cases (remembered m session asked)) [
        | inl e ↦ rw (resolve-fresh (history asked) session asked answered m e) (
          remember-IsTruthful session asked answered m after soon truthful,
          (asked, omega arith, omega arith, refl),
        )
        | inr (actor, e) ↦
            let (at, known, young) = remembered-entry m session asked actor e in
            let (t, before, near, past, answer) = truthful.source session at actor known in
            rw (resolve-known (history asked) session asked answered m actor e)
              (weaken m asked answered after truthful, (t, omega arith, omega arith, answer))
      ]

-- The memory never holds more than `max_remembered` sessions.
pub length-resolve :
    (db : Database) (session asked answered : ℕ) (m : Remembered)
    → length m ≤ max_remembered
    → length (resolve db session asked answered m).1 ≤ max_remembered
unfolding resolve remember
length-resolve db session asked answered m h = ground (arith, length-erase session m)
