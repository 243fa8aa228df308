-- ===== src/Event/Process/Idempotent.antt =====
-- A resend of an event that is stored changes nothing.
use crashlens.Base.{
  ℕ, ◌≡◌, ◌⊎◌, refl, String, true, Option, none, some, [], ◌∷◌, ◌++◌, any, any-append, string_eq,
  nat_eq, eq_iff, arith, Bool-cases, Option-cases, inl, inr,
}
use crashlens.Json.{Json, str, obj, Fields, get}
use crashlens.Runtime.{Runtime}
use crashlens.SourceMap.Symbolicate.{Disk}
use crashlens.SourceMap.Symbolicate.Frame.{get-symbolicate_envelope_other}
use crashlens.Store.{Tenant, is_event, has_project, has_partition}
use crashlens.Event.Normalize.{normalize_envelope}
use crashlens.Event.Normalize.Chain.{get-normalize_envelope_other}
use crashlens.Event.Fingerprint.{coerce_timestamp}
use crashlens.Event.Process.{
  Signal, stored, duplicate, poison, store_event, store_columns, transact_id, transact, prepare,
  prepare_copy, process_event, uuid_column, other_columns,
}
use crashlens.Event.Rows.{Prepared, Columns, event_row, prior_issue, bump_issue}

-- The event id that the job reads is the one of the envelope as it was sent.
prepare-event_id :
    (rt : Runtime) (disk : Disk) (depth : ℕ) (maps_dir org project : String) (envelope : Json)
    (p : Prepared)
    → prepare rt disk depth maps_dir org project envelope ≡ some p
    → (e : Fields) × (envelope ≡ obj e) × (get "event_id" e ≡ some p.event_id)
unfolding prepare prepare_copy
prepare-event_id rt disk depth maps_dir org project (obj e) p h =
    let kept =
      get-symbolicate_envelope_other disk depth "event_id" (normalize_envelope e) org project
        maps_dir refl in
    let same = get-normalize_envelope_other "event_id" e refl refl refl refl in
    (e, refl, ground (arith, kept, same))
prepare-event_id rt disk depth maps_dir org project (str s) p h = absurd (cc h)
prepare-event_id rt disk depth maps_dir org project _ p h = absurd (cc h)

other_columns-event_id :
    (rt : Runtime) (p : Prepared) (id : String) (c : Columns)
    → other_columns rt p id ≡ some c
    → c.event_id ≡ id
other_columns-event_id rt p id c h = ground arith

module _ (rt : Runtime) (now seen_at : ℕ) (project : String) (p : Prepared) (t : Tenant) where
  -- One row comes to the end of the events.
  events-store_event :
      (c : Columns)
      → (id : ℕ) × ((store_event now seen_at project p c t).1.events
          ≡ t.events ++ event_row project id p c seen_at ∷ [])
  unfolding store_event bump_issue
  events-store_event c = elim (Option-cases (prior_issue t project p.fingerprint)) [
    | inl e ↦ (t.next_id, rw e)
    | inr (old, e) ↦ (old.id, rw e)
  ]

  store_event-found :
      (c : Columns) (id : String)
      → c.event_id ≡ id
      → any (is_event project id) (store_event now seen_at project p c t).1.events ≡ true
  store_event-found c id e =
      let (issue, rows) = events-store_event c in
      let row = event_row project issue p c seen_at in
      rw (rows, any-append (is_event project id) t.events (row ∷ []))
        (ground (arith, eq_iff project project, eq_iff c.event_id id))

  columns-found :
      (id : String) (o : Option Columns) (s : Signal)
      → other_columns rt p id ≡ o
      → (store_columns now seen_at project p o t).0 ≡ stored s
      → any (is_event project id) (store_columns now seen_at project p o t).1.events ≡ true
  columns-found id none s e h = absurd (cc h)
  columns-found id (some c) s e h = elim (Bool-cases (has_partition t seen_at)) [
    | inl there ↦ rw there (store_event-found c id (other_columns-event_id rt p id c e))
    | inr gone ↦ absurd (cc (rw gone at h))
  ]

  -- What is stored is found by the duplicate check.
  stored-found :
      (id : String) (s : Signal)
      → (transact_id rt now seen_at project p (some id) t).0 ≡ stored s
      → any (is_event project id) (transact_id rt now seen_at project p (some id) t).1.events ≡ true
  stored-found id s h = elim (Bool-cases (any (is_event project id) t.events)) [
    | inl dup ↦ absurd (cc (rw dup at h))
    | inr new ↦ elim (Bool-cases (has_project t project)) [
      | inl there ↦
          rw (new, there) (columns-found id (other_columns rt p id) s refl (rw (new, there) at h))
      | inr gone ↦ absurd (cc (rw (new, gone) at h))
    ]
  ]

  resend_lem :
      (now' seen' : ℕ) (p' : Prepared) (s : Signal)
      → p'.event_id ≡ p.event_id
      → (transact rt now seen_at project (some p) t).0 ≡ stored s
      → transact rt now' seen' project (some p') (transact rt now seen_at project (some p) t).1
        ≡ (duplicate, (transact rt now seen_at project (some p) t).1)
  resend_lem now' seen' p' s same h = elim (Option-cases (uuid_column rt p.event_id)) [
    | inl e ↦ absurd (cc (rw e at h))
    | inr (id, e) ↦ rw (same, e, stored-found id s (rw e at h))
  ]

-- Once an event is stored, a resend of its envelope changes no row and stores nothing, whenever it
-- comes and whatever source maps have been uploaded since: it is answered as a duplicate or poison.
pub process_event_resend :
    (rt : Runtime) (disk disk' : Disk) (depth depth' : ℕ) (maps_dir : String) (now now' : ℕ)
    (org project received_at received_at' : String) (envelope : Json) (t : Tenant) (s : Signal)
    → (process_event rt disk depth maps_dir now org project received_at envelope t).0 ≡ stored s
    → let t' = (process_event rt disk depth maps_dir now org project received_at envelope t).1 in
      let again =
        process_event rt disk' depth' maps_dir now' org project received_at' envelope t' in
      (again.1 ≡ t') × ((again.0 ≡ duplicate) ⊎ (again.0 ≡ poison))
unfolding process_event
process_event_resend rt disk disk' depth depth' maps_dir now now' org project received_at
      received_at' envelope t s h =
    elim (Option-cases (prepare rt disk depth maps_dir org project envelope)) [
      | inl e ↦ absurd (cc (rw e at h))
      | inr (p, e) ↦ elim (Option-cases (prepare rt disk' depth' maps_dir org project envelope)) [
        | inl e' ↦ rw e' (refl, inr refl)
        | inr (p', e') ↦
            let (f, fe, fid) = prepare-event_id rt disk depth maps_dir org project envelope p e in
            let (g, ge, gid) =
              prepare-event_id rt disk' depth' maps_dir org project envelope p' e' in
            let same : p'.event_id ≡ p.event_id = ground (arith, fe, ge, fid, gid) in
            let resent =
              resend_lem rt now (coerce_timestamp rt now received_at) project p t now'
                (coerce_timestamp rt now' received_at') p' s same (rw e at h) in
            rw (e, e', resent) (refl, inl refl)
      ]
    ]
