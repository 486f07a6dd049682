-- ===== src/System/Attempts/Rows.antt =====
-- What each transaction does to the attempts of a row.
use mathlib.Core.Bool.{false≢true}
use glacis.Base.{
  ℕ, ◌+◌, ◌≡◌, ◌∙◌, refl, sym, ap, Bool, false, Option, none, some, arith, Text, ◌==◌, ==_sound,
  Bool-cases, Option-cases, inl, inr, any_row, any_row-of_Member, first_row-Member,
  first_row-update, update_where, if◌then◌else◌,
}
use glacis.Core.Json.{Json}
use glacis.Core.Events.{NormalizedEvent}
use glacis.Core.Models.{Uuid, Instant, RawEvent, Db, same_raw_id, get_raw, update_raw}
use glacis.Core.Errors.{ok}
use glacis.Core.Lookup.{raw_is, get-update_self, get-update_ne}
use glacis.Utils.Hashing.{Hashing}
use glacis.Services.Ingestion.{IngestResult}
use glacis.Services.Ingestion.Dedupe.{add_raw, Outcome, as_primary, as_duplicate}
use glacis.Services.Normalization.{Env, persist_normalized, mark_processed, shipments, invoices}
use glacis.Services.Normalization.Outcome.{
  Committed, unclassified, stored, persist_normalized-Committed,
}
use glacis.Services.World.{World}
use glacis.Services.Retry.{acquire, persist_retried, record_outcome, set_acquired, set_outcome}
use glacis.Workers.IngestWorker.{
  claim, persist_claimed, mark_failed, set_failed, reap_before, release, is_stale,
}
use glacis.Workers.IngestWorker.Claims.{Claimed, nothing, row}
use glacis.System.Attempts.{HasAttempts, HasAttempts-eq}

abbrev KeepsAttempts : (RawEvent → RawEvent) → Type 0
KeepsAttempts f = (r : RawEvent) → ((f r).id ≡ r.id) × ((f r).attempts ≡ r.attempts)

module _ (id : Uuid) (n : ℕ) where
  update-HasAttempts :
      (p : RawEvent → Bool) (f : RawEvent → RawEvent) (db db' : Db)
      → KeepsAttempts f
      → db'.raw_events ≡ update_where p f db.raw_events
      → HasAttempts id n db
      → HasAttempts id n db'
  update-HasAttempts p f db db' keeps e h = record {
    raw = if p h.raw then f h.raw else h.raw;
    found =
        rw e (
          first_row-update p f (raw_is id) db.raw_events h.raw (λ x. rw ((keeps x).0) refl)
            h.found);
    attempts = ground (arith, keeps h.raw, h.attempts);
  }

  -- a new row has an id of its own
  add_raw-HasAttempts :
      (r : RawEvent) (db db' : Db)
      → any_row (same_raw_id r) db.raw_events ≡ false
      → db' ≡ add_raw r db
      → HasAttempts id n db
      → HasAttempts id n db'
  add_raw-HasAttempts r db db' fresh e h = elim (Bool-cases (id == r.id)) [
    | inl own ↦
        let m = (first_row-Member (raw_is id) db.raw_events h.raw h.found) in
        absurd (
          false≢true (
            sym fresh
            ∙ any_row-of_Member (same_raw_id r) db.raw_events m.0 (ground (arith, own, m.1))))
    | inr other ↦ record {
      raw = h.raw;
      found = rw e (ground (arith, other, h.found));
      attempts = h.attempts;
    }
  ]

  pub reap-HasAttempts :
      (threshold : Instant) (k : ℕ) (db db' : Db)
      → reap_before threshold db ≡ ok (k, db')
      → HasAttempts id n db
      → HasAttempts id n db'
  unfolding reap_before
  reap-HasAttempts threshold k db db' e h =
      update-HasAttempts (is_stale threshold) release db db' (λ x. (refl, refl)) (ground arith) h

  -- marking a row processed is no attempt
  marked-HasAttempts :
      (i : Uuid) (now : Instant) (note : Option Text) (db db' : Db)
      → db'.raw_events ≡ update_where (raw_is i) (mark_processed now note) db.raw_events
      → HasAttempts id n db
      → HasAttempts id n db'
  unfolding mark_processed
  marked-HasAttempts i now note db db' e h =
      update-HasAttempts (raw_is i) (mark_processed now note) db db' (λ x. (refl, refl)) e h

  row_of_both :
      (i : Uuid) (r : RawEvent) (db : Db)
      → i ≡ id
      → get_raw i db ≡ some r
      → HasAttempts id n db
      → r.attempts ≡ n
  row_of_both i r db own found h =
      let same : some r ≡ some h.raw = sym found ∙ (rw own h.found) in
      ground (arith, same, h.attempts)

  -- an UPDATE of one row that counts an attempt
  counting-HasAttempts :
      (i : Uuid) (f : RawEvent → RawEvent) (r : RawEvent) (db : Db)
      → ((x : RawEvent) → ((f x).id ≡ x.id) × ((f x).attempts ≡ r.attempts + 1))
      → get_raw i db ≡ some r
      → HasAttempts id n db
      → HasAttempts id (n + (if i == id then 1 else 0)) (update_raw i f db)
  counting-HasAttempts i f r db sets found h = elim (Bool-cases (i == id)) [
    | inl own ↦
        let same : i ≡ id = ==_sound i id own in
        record {
          raw = f r;
          found = rw (← same) (get-update_self i f (λ x. (sets x).0) r db found);
          attempts = ground (arith, own, (sets r).1, row_of_both i r db same found h);
        }
    | inr other ↦ record {
      raw = h.raw;
      found = get-update_ne i f (λ x. (sets x).0) id h.raw db other h.found;
      attempts = ground (arith, other, h.attempts);
    }
  ]

  not_missing : (i : Uuid) (db : Db) → get_raw i db ≡ none → HasAttempts id n db → (i == id) ≡ false
  not_missing i db missing h = elim (Bool-cases (i == id)) [
    | inl own ↦
        let gone : get_raw id db ≡ none = rw (← ==_sound i id own) missing in
        absurd (ground (arith, gone, h.found))
    | inr other ↦ other
  ]

  pub mark_failed-HasAttempts :
      (i : Uuid) (error : Text) (k : ℕ) (db db' : Db)
      → mark_failed i error k db ≡ ok (tt, db')
      → HasAttempts id n db
      → HasAttempts id (n + (if i == id then 1 else 0)) db'
  unfolding mark_failed
  mark_failed-HasAttempts i error k db db' e h = elim (Option-cases (get_raw i db)) [
    | inl missing ↦
        let same : db' ≡ db = ground arith in
        let other : (i == id) ≡ false = not_missing i db missing h in
        rw (same, other) (HasAttempts-eq (omega arith) h)
    | inr (r, found) ↦
        let f = set_failed (r.attempts + 1) error k in
        let after : db' ≡ update_raw i f db = ground arith in
        rw after (counting-HasAttempts i f r db (λ x. (refl, refl)) found h)
  ]

  pub acquire-HasAttempts :
      (now : Instant) (i : Uuid) (r : RawEvent) (db db' : Db)
      → acquire now i db ≡ ok (r, db')
      → HasAttempts id n db
      → HasAttempts id (n + (if i == id then 1 else 0)) db'
  unfolding acquire
  acquire-HasAttempts now i r db db' e h = elim (Option-cases (get_raw i db)) [
    | inl missing ↦ absurd (ground arith)
    | inr (q, found) ↦
        let f = set_acquired now (q.attempts + 1) in
        let own : i ≡ q.id =
          ==_sound i q.id (first_row-Member (raw_is i) db.raw_events q found).1 in
        let after : db' ≡ update_raw i f db = ground arith in
        rw after (counting-HasAttempts i f q db (λ x. (refl, refl)) found h)
  ]

  pub record_outcome-HasAttempts :
      (i : Uuid) (error : Text) (db db' : Db)
      → record_outcome i error db ≡ ok (tt, db')
      → HasAttempts id n db
      → HasAttempts id n db'
  unfolding record_outcome
  record_outcome-HasAttempts i error db db' e h = elim (Option-cases (get_raw i db)) [
    | inl missing ↦ let same : db' ≡ db = ground arith in rw same h
    | inr (r, found) ↦
        update-HasAttempts (raw_is i) (set_outcome error) db db' (λ x. (refl, refl)) (ground arith)
          h
  ]

module _ (hashing : Hashing) (w : World) (id : Uuid) where
  module _ (n : ℕ) where
    pub Outcome-HasAttempts :
        {now : Instant} {i j : Uuid} {v : Text} {payload : Json} {db db' : Db} {r : IngestResult}
        → Outcome hashing w.oldest now i j v payload db r db'
        → HasAttempts id n db
        → HasAttempts id n db'
    Outcome-HasAttempts {db} {db'} (as_primary new fresh e f) h =
        add_raw-HasAttempts id n _ db db' fresh f h
    Outcome-HasAttempts {db} {db'} (as_duplicate parent m t fresh e f) h =
        add_raw-HasAttempts id n _ db db' fresh f h

    pub Claimed-HasAttempts :
        {locked : Uuid → Bool} {now : Instant} {k : ℕ} {db db' : Db} {o : Option RawEvent}
        → Claimed w.oldest locked now k db o db'
        → HasAttempts id n db
        → HasAttempts id n db'
    Claimed-HasAttempts (nothing none_left e f) h = rw f h
    Claimed-HasAttempts {now} {db} {db'} (row r m t old e f) h =
        update-HasAttempts id n (raw_is r.id) (claim now) db db' (λ x. (refl, refl))
          (ap (λ (d : Db). d.raw_events) f) h

    Committed-HasAttempts :
        {env : Env} {r : RawEvent} {event : NormalizedEvent} {db db' : Db}
        → Committed w.settings w.model_dump env r event db db'
        → HasAttempts id n db
        → HasAttempts id n db'
    Committed-HasAttempts {env} {r} {db} {db'} (unclassified p e f) h =
        marked-HasAttempts id n r.id env.now _ db db' (ap (λ (d : Db). d.raw_events) f) h
    Committed-HasAttempts {env} {r} {db} {db'} (stored at shipments ref t e m x k f) h =
        marked-HasAttempts id n r.id env.now none db db' (ap (λ (d : Db). d.raw_events) f) h
    Committed-HasAttempts {env} {r} {db} {db'} (stored at invoices ref t e m x k f) h =
        marked-HasAttempts id n r.id env.now none db db' (ap (λ (d : Db). d.raw_events) f) h

    persist-HasAttempts :
        (env : Env) (event : NormalizedEvent) (r : RawEvent) (db db' : Db)
        → persist_normalized w.settings w.model_dump env r event db ≡ ok (tt, db')
        → HasAttempts id n db
        → HasAttempts id n db'
    persist-HasAttempts env event r db db' e h =
        Committed-HasAttempts
          (persist_normalized-Committed w.settings w.model_dump env r event db db' e) h

    pub claimed-HasAttempts :
        (env : Env) (i : Uuid) (event : NormalizedEvent) (db db' : Db)
        → persist_claimed w env i event db ≡ ok (tt, db')
        → HasAttempts id n db
        → HasAttempts id n db'
    unfolding persist_claimed
    claimed-HasAttempts env i event db db' e h = elim (Option-cases (get_raw i db)) [
      | inl missing ↦ let same : db' ≡ db = ground arith in rw same h
      | inr (r, found) ↦ persist-HasAttempts env event r db db' (rw (found, persist_claimed) at e) h
    ]

    pub retried-HasAttempts :
        (env : Env) (i : Uuid) (event : NormalizedEvent) (db db' : Db)
        → persist_retried w env i event db ≡ ok (tt, db')
        → HasAttempts id n db
        → HasAttempts id n db'
    unfolding persist_retried
    retried-HasAttempts env i event db db' e h = elim (Option-cases (get_raw i db)) [
      | inl missing ↦ absurd (ground arith)
      | inr (r, found) ↦ persist-HasAttempts env event r db db' (rw (found, persist_retried) at e) h
    ]
