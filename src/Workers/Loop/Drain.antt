-- ===== src/Workers/Loop/Drain.antt =====
-- The iterations of a worker that is alone on the database, measured by the work that is left.
use mathlib.Core.Bool.{false≢true}
use glacis.Base.{
  ℕ, take, Text, codes, sym, suc, ◌+◌, ◌-◌, ◌≤◌, ◌<◌, ◌≡◌, refl, ◌∙◌, ap, subst, ◌⊎◌, inl, inr,
  Bool, true, false, List, [], ◌∷◌, arith, Member, All, All-at, All-of, any_row, update_where,
  update-update, update-Member, Bool-cases, length, if◌then◌else◌, leb, ltb, ◌*◌, ◌≢◌,
}
use glacis.Core.Models.{Uuid, Instant, Status, RawEvent, Db, update_raw, max_integer, no_nul}
use glacis.Core.Errors.{Error, Result}
use glacis.Core.Events.{NormalizedEvent}
use glacis.Core.Inbox.{IsInbox, KeepsKeys}
use glacis.Core.Lookup.{raw_is, update_rows-IsInbox}
use glacis.Services.Normalization.{Env, mark_processed}
use glacis.Services.World.{World}
use glacis.Workers.IngestWorker.{
  claimable, claim, set_failed, process_one, reap_stale, is_stale, release, minute,
}
use glacis.Workers.IngestWorker.Claims.{pending-not_duplicate}
use glacis.Workers.IngestWorker.Failures.{release-IsInbox, no_nul-told}
use glacis.Workers.IngestWorker.Rounds.{
  Failure, classification, persistence, Ended, processed, failed, stuck, Round, idle, worked,
  process_one-Round,
}
use glacis.Workers.Loop.{Tick, LoopState, is_reap_due, reap_if_due, iterate}
use glacis.Workers.Loop.Budget.{cost, cost_of, work, work-update, work-release}

-- the row `r` has changed, and can cost less than before
record Change (n : ℕ) (r : RawEvent) (rows rows' : List RawEvent) : Type 0 where
  change : RawEvent → RawEvent
  keeps : KeepsKeys change
  updated : rows' ≡ update_where (raw_is r.id) change rows
  less : cost_of n (change r) < cost_of n r
  counted :
      (q : RawEvent) → ((change q).attempts ≡ q.attempts) ⊎ ((change q).attempts ≡ r.attempts + 1)

-- the attempts of every row, `k` times counted, stay below the limit of their column
abbrev pub HasRoom : ℕ → List RawEvent → Type 0
HasRoom k rows = All (λ (r : RawEvent). r.attempts + k < max_integer) rows

failed-cost :
    (n a : ℕ)
    → cost n (if leb n (a + 1) then Status.failed else Status.pending) (a + 1) < suc (n - a)
failed-cost n a = ground arith

module _ (w : World) (now : Instant) (env : Env) (locked : Uuid → Bool) where
  -- no failure of this row is stuck
  told :
      {r : RawEvent} {classified : Result NormalizedEvent} {before : Db} {error : Text}
      → ((e : Error) → no_nul (w.repr e) ≡ true)
      → Failure w now env r classified before error
      → no_nul (take 2000 error) ≡ true
  unfolding no_nul
  told clean (classification e h) = no_nul-told (codes "classify: ") (w.repr e) refl (clean e)
  told clean (persistence event e h k) = no_nul-told (codes "persist: ") (w.repr e) refl (clean e)

  Ended-Change :
      (r : RawEvent) (classified : Result NormalizedEvent) (db db' : Db) (result : Result Bool)
      → ((e : Error) → no_nul (w.repr e) ≡ true)
      → claimable locked r ≡ true
      → Ended w now env r classified (update_raw r.id (claim now) db) result db'
      → Change w.settings.worker_max_attempts r db.raw_events db'.raw_events
  unfolding mark_processed
  Ended-Change r classified db db' result clean t (stuck error why nul) =
      absurd (false≢true (sym nul ∙ told clean why))
  Ended-Change r classified db db' result clean t (processed event note after answer run e) =
      record {
        change = λ q. mark_processed env.now note (claim now q);
        keeps = ground arith;
        updated =
            e
            ∙ update-update (raw_is r.id) (claim now) (mark_processed env.now note) db.raw_events
                (λ q. refl);
        less = ground arith;
        counted = λ q. inl refl;
      }
  Ended-Change r classified db db' result clean t (failed error after why fine e) =
      let fail = set_failed (r.attempts + 1) error w.settings.worker_max_attempts in
      record {
        change = λ q. fail (claim now q);
        keeps = ground arith;
        updated =
            ap (λ (d : Db). d.raw_events) e
            ∙ update-update (raw_is r.id) (claim now) fail db.raw_events (λ q. refl);
        less = ground (arith, failed-cost w.settings.worker_max_attempts r.attempts);
        counted = λ q. inr refl;
      }

room_of :
    (b : Bool) (k m : ℕ) (r p p' q : RawEvent)
    → q ≡ (if b then p' else p)
    → r.attempts + suc k < m
    → p.attempts + suc k < m
    → (p'.attempts ≡ p.attempts) ⊎ (p'.attempts ≡ r.attempts + 1)
    → q.attempts + k < m
room_of true k m r p p' q e own other (inl h) = rw e (omega arith)
room_of true k m r p p' q e own other (inr h) = rw e (omega arith)
room_of false k m r p p' q e own other h = rw e (omega arith)

module _ (n : ℕ) (r : RawEvent) {rows rows' : List RawEvent} (inv : IsInbox rows)
    (m : Member r rows) (c : Change n r rows rows') where
  Change-work : work n rows' < work n rows
  Change-work =
      rw c.updated
        (let e = work-update n c.change r rows inv.ids m in let l = c.less in omega (arith, e, l))

  Change-IsInbox : r.status ≢ Status.duplicate → IsInbox rows'
  Change-IsInbox ne = rw c.updated (update_rows-IsInbox c.change r rows c.keeps inv m ne)

  Change-HasRoom : (k : ℕ) → HasRoom (suc k) rows → HasRoom k rows'
  Change-HasRoom k room =
      All-of (λ (q : RawEvent). q.attempts + k < max_integer) rows'
        λ q mem.
          let (p, mp, e) =
            update-Member (raw_is r.id) c.change rows (subst (Member q) c.updated mem) in
          let own = All-at _ rows room m in
          let other = All-at _ rows room mp in
          room_of (raw_is r.id p) k max_integer r p (c.change p) q e own other (c.counted p)

reap_stale-cases :
    (w : World) (now : Instant) (db : Db)
    → ((reap_stale w.settings now db).1 ≡ db)
      ⊎ ((threshold : Instant) × ((reap_stale w.settings now db).1
            ≡ record db { raw_events = update_where (is_stale threshold) release db.raw_events }))
unfolding reap_stale
reap_stale-cases w now db =
    elim (Bool-cases (ltb now (w.settings.worker_stale_lock_minutes * minute))) [
      | inl early ↦ inl (rw early refl)
      | inr late ↦ inr (now - w.settings.worker_stale_lock_minutes * minute, rw late refl)
    ]

-- what an iteration keeps
record Ready (k : ℕ) (rows : List RawEvent) : Type 0 where
  inbox : IsInbox rows
  room : HasRoom k rows

release-HasRoom :
    (k : ℕ) (threshold : Instant) (rows : List RawEvent)
    → HasRoom k rows
    → HasRoom k (update_where (is_stale threshold) release rows)
release-HasRoom k threshold [] h = tt
release-HasRoom k threshold (r ∷ rows) h = ground (arith, release-HasRoom k threshold rows)

-- a sweep adds no work and keeps what an iteration needs
reap-Ready :
    (w : World) (n k : ℕ) (now : Instant) (db : Db)
    → Ready k db.raw_events
    → (work n (reap_stale w.settings now db).1.raw_events ≤ work n db.raw_events)
      × Ready k (reap_stale w.settings now db).1.raw_events
reap-Ready w n k now db ready = elim (reap_stale-cases w now db) [
  | inl e ↦ rw e (omega arith, ready)
  | inr (threshold, e) ↦ rw e (
    work-release n threshold db.raw_events,
    record {
      inbox = release-IsInbox threshold db.raw_events ready.inbox;
      room = release-HasRoom k threshold db.raw_events ready.room;
    },
  )
]

room-less : (k : ℕ) (rows : List RawEvent) → HasRoom (suc k) rows → HasRoom k rows
room-less k [] h = tt
room-less k (r ∷ rows) h =
    let rest = room-less k rows h.1 in let first = h.0 in (omega (arith, first), rest)

room-at :
    (k : ℕ) (rows : List RawEvent)
    → HasRoom k rows
    → All (λ (r : RawEvent). r.attempts < max_integer) rows
room-at k [] h = tt
room-at k (r ∷ rows) h = let first = h.0 in (omega (arith, first), room-at k rows h.1)

module _ (w : World) where
  -- an iteration of the list finds nothing to claim
  pub data Drained : List Tick → LoopState → Type 0 where
    now_idle :
        {tick : Tick} {ticks : List Tick} {s : LoopState}
        → any_row (claimable tick.locked) (reap_if_due w tick s).db.raw_events ≡ false
        → (iterate w tick s).did_work ≡ false
        → Drained (tick ∷ ticks) s
    later :
        {tick : Tick} {ticks : List Tick} {s : LoopState}
        → Drained ticks (iterate w tick s)
        → Drained (tick ∷ ticks) s

  reap_if_due-Ready :
      (k : ℕ) (tick : Tick) (s : LoopState)
      → Ready k s.db.raw_events
      → (work w.settings.worker_max_attempts (reap_if_due w tick s).db.raw_events
          ≤ work w.settings.worker_max_attempts s.db.raw_events)
        × Ready k (reap_if_due w tick s).db.raw_events
  unfolding reap_if_due
  reap_if_due-Ready k tick s ready = elim (Bool-cases (is_reap_due w s.last_reap tick.time)) [
    | inl due ↦ rw due (reap-Ready w _ k tick.reap_now s.db ready)
    | inr early ↦ rw early (omega arith, ready)
  ]

  -- an iteration from the state after the sweep
  data Iterated (k : ℕ) (tick : Tick) (s : LoopState) : Type 0 where
    rest :
        any_row (claimable tick.locked) (reap_if_due w tick s).db.raw_events ≡ false
        → (iterate w tick s).did_work ≡ false
        → Iterated k tick s
    progress :
        work w.settings.worker_max_attempts (iterate w tick s).db.raw_events
          < work w.settings.worker_max_attempts (reap_if_due w tick s).db.raw_events
        → Ready k (iterate w tick s).db.raw_events
        → Iterated k tick s

  iterated :
      (k : ℕ) (tick : Tick) (s : LoopState) (result : Result Bool) (db' : Db)
      → ((e : Error) → no_nul (w.repr e) ≡ true)
      → Ready (suc k) (reap_if_due w tick s).db.raw_events
      → process_one w tick.locked tick.now tick.env tick.classify (reap_if_due w tick s).db
        ≡ (result, db')
      → Round w tick.now tick.env tick.locked tick.classify (reap_if_due w tick s).db result db'
      → Iterated k tick s
  unfolding iterate
  iterated k tick s result db' clean ready h (idle none_left) = rest none_left (ground arith)
  iterated k tick s result db' clean ready h (worked r m t ended) =
      let c =
        Ended-Change w tick.now tick.env tick.locked r (tick.classify r.payload)
          (reap_if_due w tick s).db db' result clean t ended in
      let same : (iterate w tick s).db ≡ db' = ground arith in
      progress (rw same (Change-work _ r ready.inbox m c)) (
        rw same (record {
          inbox =
              Change-IsInbox _ r ready.inbox m c
                (pending-not_duplicate w.oldest tick.locked tick.now 0 r t);
          room = Change-HasRoom _ r ready.inbox m c k ready.room;
        }))

  drained :
      (ticks : List Tick) (s : LoopState)
      → ((e : Error) → no_nul (w.repr e) ≡ true)
      → Ready (length ticks) s.db.raw_events
      → work w.settings.worker_max_attempts s.db.raw_events < length ticks
      → Drained ticks s
  drained [] s clean ready enough = absurd (omega arith)
  drained (tick ∷ ticks) s clean ready enough =
      let (less, swept) = reap_if_due-Ready (suc (length ticks)) tick s ready in
      let (b, db', h, round) =
        process_one-Round w tick.now tick.env tick.locked tick.classify (reap_if_due w tick s).db
          swept.inbox (room-at _ _ swept.room) in
      elim (iterated (length ticks) tick s b db' clean swept h round) [
        | rest none_left no_work ↦ now_idle none_left no_work
        | progress fewer ready' ↦
            later
              (drained ticks (iterate w tick s) clean ready' (omega (arith, less, fewer, enough)))
      ]

  -- A worker alone on the database, whatever the clocks, the locks and the classifier do, reaches
  -- within as many iterations as the work in the table and one more an iteration that does no work
  -- because no row is claimable, if the `repr` of no exception has U+0000, which `last_error` cannot
  -- store. The attempts of the rows have to leave room for the iterations.
  pub iterate-Drained :
      (ticks : List Tick) (s : LoopState)
      → ((e : Error) → no_nul (w.repr e) ≡ true)
      → IsInbox s.db.raw_events
      → HasRoom (length ticks) s.db.raw_events
      → work w.settings.worker_max_attempts s.db.raw_events < length ticks
      → Drained ticks s
  iterate-Drained ticks s clean inv room enough =
      drained ticks s clean (record { inbox = inv; room = room }) enough
