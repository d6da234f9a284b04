-- ===== src/Routes/Publishing.antt =====
-- What a resolution publishes, and what it leaves alone.
use fredoomeaxima.Common.{
  ℕ, ◌≡◌, refl, sym, subst, true, false, ◌&&◌, List, [], ◌∷◌, Option, none, some, arith, ◌⊎◌, ◌+◌,
  ◌<◌, ltb, length, Bool-cases, inl, inr,
}
use fredoomeaxima.Exec.{Result, ok}
use fredoomeaxima.Exec.Steps.{or_throw_keeps}
use fredoomeaxima.Database.{Db, RouteEntry, RouteListVersion}
use fredoomeaxima.Database.Tables.{greater, greatest, OfSome}
use fredoomeaxima.Routes.{
  Dns, Published, find_group, upsert_group, set_enabled, get_current_version, entries_of,
  is_changed, publish, is_empty, settle, resolve_and_publish,
}
use fredoomeaxima.Routes.Steps.{Step, step, steps}

newest_first :
    (new : RouteListVersion) (o : Option RouteListVersion)
    → OfSome (λ old. old.version < new.version) o
    → greater (λ v. v.version) new o ≡ some new
unfolding greater
newest_first new none h = refl
newest_first new (some old) h = ground (arith, h)

publish_current :
    (new_id version : ℕ) (es : List RouteEntry) (db : Db)
    → OfSome (λ old. old.version < version) (get_current_version db)
    → get_current_version (publish new_id version es db)
      ≡ some (record { id = new_id; version = version; entries = es })
unfolding get_current_version publish greatest
publish_current new_id version es db h = newest_first _ (get_current_version db) h

abbrev current_entries : Db → List RouteEntry
current_entries db = entries_of (get_current_version db)

-- A newer version of the list came out of `before`.
abbrev pub IsNext : ℕ → Option RouteListVersion → Published → Db → Type 0
IsNext new_id before p after =
    (v : RouteListVersion) × (get_current_version after ≡ some v)
    × (v.id ≡ new_id)
    × (v.version ≡ p.version)
    × (length v.entries ≡ p.entry_count)
    × OfSome (λ old. old.version < p.version) before

-- What one run leaves: nothing written, or the next version.
abbrev pub IsOutcome : ℕ → Db → Result Published → Db → Type 0
IsOutcome new_id before r after =
    (p : Published) × (r ≡ ok p)
    × ((p.changed ≡ false) × (after ≡ before)
        ⊎ (p.changed ≡ true) × IsNext new_id (get_current_version before) p after)

settle-IsOutcome :
    (new_id : ℕ) (o : Option RouteListVersion) (es : List RouteEntry) (db : Db)
    → get_current_version db ≡ o
    → IsOutcome new_id db (settle new_id o es db).0 (settle new_id o es db).1
unfolding settle
settle-IsOutcome new_id none es db e =
    let first = subst (OfSome (λ old. old.version < 1)) (sym e) tt in
    (_, refl, inr (refl, (_, publish_current new_id 1 es db first, refl, refl, refl, first)))
settle-IsOutcome new_id (some v) es db e =
    let next : OfSome (λ old. old.version < v.version + 1) (get_current_version db) =
      subst (OfSome (λ old. old.version < v.version + 1)) (sym e) (omega arith) in
    elim (Bool-cases (is_empty es && ltb 0 (length v.entries))) [
      | inl emptied ↦ rw emptied (_, refl, inl (refl, refl))
      | inr kept ↦ elim (Bool-cases (is_changed v.entries es)) [
        | inl new ↦
            rw (kept, new)
              (
                _,
                refl,
                inr (
                  refl,
                  (_, publish_current new_id (v.version + 1) es db next, refl, refl, refl, next),
                ),
              )
        | inr same ↦ rw (kept, same) (_, refl, inl (refl, refl))
      ]
    ]

-- A resolution never throws, whatever the DNS answers: either it reports no change and writes
-- nothing, or it makes the reported version, with the reported number of entries, the current one,
-- and its number is greater than the one before.
pub resolve_and_publish-IsOutcome :
    (resolve4 : Dns) (new_id : ℕ) (db : Db)
    → IsOutcome new_id db
        (resolve_and_publish resolve4 new_id db).0
        (resolve_and_publish resolve4 new_id db).1
unfolding resolve_and_publish
resolve_and_publish-IsOutcome resolve4 new_id db =
    settle-IsOutcome new_id (get_current_version db) _ db refl

settle_nonempty :
    (new_id : ℕ) (o : Option RouteListVersion) (es : List RouteEntry) (db : Db)
    → get_current_version db ≡ o
    → ltb 0 (length (entries_of o)) ≡ true
    → ltb 0 (length (current_entries (settle new_id o es db).1)) ≡ true
unfolding settle
settle_nonempty new_id none es db e h = absurd (ground arith)
settle_nonempty new_id (some v) es db e h =
    let next : OfSome (λ old. old.version < v.version + 1) (get_current_version db) =
      subst (OfSome (λ old. old.version < v.version + 1)) (sym e) (omega arith) in
    elim es as (λ es. ltb 0 (length (current_entries (settle new_id (some v) es db).1)) ≡ true) [
      | [] ↦ rw h (rw e h)
      | x ∷ xs ↦ elim (Bool-cases (is_changed v.entries (x ∷ xs))) [
        | inl new ↦
            rw new (rw (publish_current new_id (v.version + 1) (x ∷ xs) db next) (ground arith))
        | inr same ↦ rw same (rw e h)
      ]
    ]

step_nonempty :
    (s : Step) (db : Db)
    → ltb 0 (length (current_entries db)) ≡ true
    → ltb 0 (length (current_entries (step s db))) ≡ true
unfolding upsert_group set_enabled resolve_and_publish
step_nonempty (Step.upserts new_id input) db h = h
step_nonempty (Step.enables key is_enabled) db h =
    or_throw_keeps (λ d. ltb 0 (length (current_entries d)) ≡ true) _ (find_group key db) _ db h
      (λ g e. h)
step_nonempty (Step.resolves resolve4 new_id) db h =
    settle_nonempty new_id (get_current_version db) _ db refl h

-- Once the current version routes something, the current version routes something for ever: no
-- edit of the groups and no outage of the DNS empties the list.
pub steps_nonempty :
    (ss : List Step) (db : Db)
    → ltb 0 (length (entries_of (get_current_version db))) ≡ true
    → ltb 0 (length (entries_of (get_current_version (steps ss db)))) ≡ true
steps_nonempty [] db h = h
steps_nonempty (s ∷ ss) db h = steps_nonempty ss (step s db) (step_nonempty s db h)
