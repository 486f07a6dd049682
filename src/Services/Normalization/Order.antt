-- ===== src/Services/Normalization/Order.antt =====
-- Sequences of events, and events that arrive out of order.
use mathlib.Core.List.{Permᴰ}
use glacis.Base.{
  ◌≡◌, refl, sym, ◌∙◌, ap, subst, ◌≢◌, Bool, ◌&&◌, Option, none, some, List, [], ◌∷◌, arith, Text,
  text_eq, All, All-perm, if◌then◌else◌,
}
use glacis.Core.Json.{Json}
use glacis.Core.Events.{CanonicalState}
use glacis.Core.Models.{Uuid, Instant, Tables}
use glacis.Core.Errors.{Result, ok}
use glacis.Core.Session.{◌>>=◌, >>=-eq-ok}
use glacis.Services.Normalization.{Env, persist_event}
use glacis.Services.Normalization.Ledger.{IsLedger}
use glacis.Services.Normalization.Steps.{persist_event-IsLedger}
use glacis.Services.Normalization.Latest.{Latest, view, absorb, persist_event-view}

-- one event on its way to the tables
pub record Delivery : Type 0 where
  pub env : Env
  pub raw_event_id : Uuid
  pub vendor : Text
  pub external_ref : Text
  pub state : CanonicalState
  pub event_at : Instant
  pub milestone : Option Text
  pub attributes : Json

unfoldable pub deliver : Delivery → Tables → Result Tables
deliver d =
    persist_event d.env d.raw_event_id d.vendor d.external_ref d.state d.event_at d.milestone
      d.attributes

-- the transactions one after the other, each of which has to commit
unfoldable pub deliver_all : List Delivery → Tables → Result Tables
deliver_all [] t = ok t
deliver_all (d ∷ ds) t = do t' ← deliver d t; deliver_all ds t'

deliver-IsLedger : (d : Delivery) (t t' : Tables) → IsLedger t → deliver d t ≡ ok t' → IsLedger t'
unfolding deliver
deliver-IsLedger d t t' inv h =
    persist_event-IsLedger d.env d.raw_event_id d.vendor d.external_ref d.state d.event_at
      d.milestone d.attributes t t' inv h

module _ (v r : Text) where
  abbrev pub concerns : Delivery → Bool
  concerns d = text_eq v d.vendor && text_eq r d.external_ref

  abbrev pub step : Delivery → Option Latest → Option Latest
  step d o = if concerns d then some (absorb d.state d.event_at d.attributes o) else o

  -- the specification of a sequence of events, on one entity
  unfoldable pub replay : List Delivery → Option Latest → Option Latest
  replay [] o = o
  replay (d ∷ ds) o = replay ds (step d o)

  deliver-view :
      (d : Delivery) (t t' : Tables)
      → IsLedger t
      → deliver d t ≡ ok t'
      → view v r t' ≡ step d (view v r t)
  unfolding deliver
  deliver-view d t t' inv h =
      persist_event-view d.env d.raw_event_id d.vendor d.external_ref d.state d.event_at d.milestone
        d.attributes t t' v r inv h

  -- The view after a sequence of events is the replay of the sequence on the view before.
  deliver_all-view :
      (ds : List Delivery) (t t' : Tables)
      → IsLedger t
      → deliver_all ds t ≡ ok t'
      → view v r t' ≡ replay ds (view v r t)
  unfolding deliver_all replay
  deliver_all-view [] t t' inv h = ground arith
  deliver_all-view (d ∷ ds) t t' inv h =
      let (t₁, f, k) = >>=-eq-ok (deliver d t) (deliver_all ds) h in
      deliver_all-view ds t₁ t' (deliver-IsLedger d t t₁ inv f) k
      ∙ ap (replay ds) (deliver-view d t t₁ inv f)

  step_swap :
      (c d : Delivery) (o : Option Latest)
      → c.event_at ≢ d.event_at
      → step d (step c o) ≡ step c (step d o)
  unfolding absorb
  step_swap c d none ne = ground arith
  step_swap c d (some l) ne = ground arith

-- no two events happened at one time
abbrev pub DistinctTimes : List Delivery → Type 0
DistinctTimes [] = Unit
DistinctTimes (d ∷ ds) = All (λ e. d.event_at ≢ e.event_at) ds × DistinctTimes ds

DistinctTimes-perm : {ds es : List Delivery} → Permᴰ ds es → DistinctTimes ds → DistinctTimes es
DistinctTimes-perm Permᴰ.nil h = h
DistinctTimes-perm (Permᴰ.cons {a = a} e p) h =
    rw (← e) (All-perm (λ (x : Delivery). a.event_at ≢ x.event_at) p h.0, DistinctTimes-perm p h.1)
DistinctTimes-perm (Permᴰ.swap {a = a} {b = b} {b' = b'} {l = l} e f) h =
    subst (λ x. DistinctTimes (x ∷ b' ∷ l)) f
      (subst (λ y. DistinctTimes (b ∷ y ∷ l)) e ((λ q. h.0.0 (sym q), h.1.0), (h.0.1, h.1.1)))
DistinctTimes-perm (Permᴰ.trans p q) h = DistinctTimes-perm q (DistinctTimes-perm p h)

module _ (v r : Text) where
  -- The specification does not depend on the order of events at distinct times.
  replay-perm :
      {ds es : List Delivery}
      → Permᴰ ds es
      → DistinctTimes ds
      → (o : Option Latest) → replay v r ds o ≡ replay v r es o
  unfolding replay
  replay-perm Permᴰ.nil h o = refl
  replay-perm (Permᴰ.cons e p) h o = rw (← e) (replay-perm p h.1 _)
  replay-perm (Permᴰ.swap {a = a} {b = b} {l = l} e f) h o =
      rw (← e, ← f) (ap (replay v r l) (step_swap v r a b o h.0.0))
  replay-perm (Permᴰ.trans p q) h o = replay-perm p h o ∙ replay-perm q (DistinctTimes-perm p h) o

-- Two orders of arrival of the same events, at distinct times, end with the same state, time and
-- attributes of every entity.
pub deliver_all_converges :
    (ds es : List Delivery) (t t₁ t₂ : Tables) (v r : Text)
    → Permᴰ ds es
    → DistinctTimes ds
    → IsLedger t
    → deliver_all ds t ≡ ok t₁
    → deliver_all es t ≡ ok t₂
    → view v r t₁ ≡ view v r t₂
deliver_all_converges ds es t t₁ t₂ v r p distinct inv h k =
    deliver_all-view v r ds t t₁ inv h
    ∙ replay-perm v r p distinct (view v r t)
    ∙ sym (deliver_all-view v r es t t₂ inv k)
