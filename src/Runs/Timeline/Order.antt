-- ===== src/Runs/Timeline/Order.antt =====
-- `listEvents` loses no event, restores the producer's order and keeps lifecycle events in their place.
use mathlib.Core.List.{Perm, perm_middle, perm_append_comm}
use mathlib.Core.List.Perm
use fluxaos.Prelude.{
  leb→le, ℕ, ◌<◌, ◌≤◌, ◌≡◌, refl, ap, Bool, true, false, not, List, [], ◌∷◌, ◌++◌, append_assoc,
  arith, filter, filter-append, All-filter, filter_none, filter-All, All, All-append, All-map, leb,
  ◌==◌, Bool-cases, inl, inr, not_leb→lt, sort_by, IsSortedBy, sort_by-IsSortedBy, sort_by-perm,
  sort_by-keeps, filter-IsSortedBy,
}
use fluxaos.Store.{Event, Db}
use fluxaos.Runs.Timeline.{is_stream, line_of, take_until, drop_until, merge, rows_of, list_events}

abbrev pub is_lifecycle : Event → Bool
is_lifecycle e = not (is_stream e)

abbrev time_of : Event → ℕ
time_of e = e.timestamp

abbrev AllStream : List Event → Type 0
AllStream = All (λ e. is_stream e ≡ true)

abbrev AllLifecycle : List Event → Type 0
AllLifecycle = All (λ e. is_lifecycle e ≡ true)

take-append-drop : (t : ℕ) (ls : List Event) → take_until t ls ++ drop_until t ls ≡ ls
unfolding take_until drop_until
take-append-drop t [] = refl
take-append-drop t (l ∷ ls) = elim (Bool-cases (leb l.timestamp t)) [
  | inl e ↦ rw e (ap (λ r. l ∷ r) (take-append-drop t ls))
  | inr e ↦ rw e
]

take_until-keeps :
    (P : Event → Type 0) (t : ℕ) (ls : List Event) → All P ls → All P (take_until t ls)
unfolding take_until
take_until-keeps P t [] h = tt
take_until-keeps P t (l ∷ ls) h = elim (Bool-cases (leb l.timestamp t)) [
  | inl e ↦ rw e (h.0, take_until-keeps P t ls h.1)
  | inr e ↦ rw e tt
]

drop_until-keeps :
    (P : Event → Type 0) (t : ℕ) (ls : List Event) → All P ls → All P (drop_until t ls)
unfolding drop_until
drop_until-keeps P t [] h = tt
drop_until-keeps P t (l ∷ ls) h = elim (Bool-cases (leb l.timestamp t)) [
  | inl e ↦ rw e (drop_until-keeps P t ls h.1)
  | inr e ↦ rw e h
]

drop_until-IsSortedBy :
    (t : ℕ) (ls : List Event) → IsSortedBy time_of ls → IsSortedBy time_of (drop_until t ls)
unfolding drop_until
drop_until-IsSortedBy t [] s = tt
drop_until-IsSortedBy t (l ∷ ls) s = elim (Bool-cases (leb l.timestamp t)) [
  | inl e ↦ rw e (drop_until-IsSortedBy t ls s.1)
  | inr e ↦ rw e s
]

-- What is left of a sorted queue is later.
drop_until-later :
    (t : ℕ) (ls : List Event) → IsSortedBy time_of ls → All (λ e. t < e.timestamp) (drop_until t ls)
unfolding drop_until
drop_until-later t [] s = tt
drop_until-later t (l ∷ ls) s = elim (Bool-cases (leb l.timestamp t)) [
  | inl e ↦ rw e (drop_until-later t ls s.1)
  | inr e ↦
      let h = not_leb→lt _ _ e in
      rw e (h, All-map _ _ ls (λ x (p : l.timestamp ≤ x.timestamp). omega arith) s.0)
]

merge-perm : (stream ls : List Event) → Perm (merge stream ls) (stream ++ ls)
unfolding merge
merge-perm [] ls = Perm.refl _
merge-perm (s ∷ stream) ls =
    let early = take_until s.timestamp ls in
    let late = drop_until s.timestamp ls in
    let shuffle : Perm (early ++ (stream ++ late)) (stream ++ ls) =
      rw (← append_assoc early stream late) (
        Perm.trans (Perm.append_right late (perm_append_comm early stream))
          (rw append_assoc (rw (take-append-drop s.timestamp ls) (Perm.refl _)))) in
    Perm.trans (perm_middle early (merge stream late))
      (Perm.cons s (Perm.trans (Perm.append_left early (merge-perm stream late)) shuffle))

stream_not_lifecycle : (e : Event) → is_stream e ≡ true → is_lifecycle e ≡ false
stream_not_lifecycle e h = ground arith

lifecycle_not_stream : (e : Event) → is_lifecycle e ≡ true → is_stream e ≡ false
lifecycle_not_stream e h = ground arith

filter_stream-merge :
    (stream ls : List Event)
    → AllStream stream
    → AllLifecycle ls
    → filter is_stream (merge stream ls) ≡ stream
unfolding merge filter
filter_stream-merge [] ls hs hl = filter_none is_stream ls (All-map _ _ ls lifecycle_not_stream hl)
filter_stream-merge (s ∷ stream) ls hs hl = rw (
  filter-append is_stream (take_until s.timestamp ls)
      (s ∷ merge stream (drop_until s.timestamp ls)),
  filter_none is_stream (take_until s.timestamp ls)
      (All-map _ _ _ lifecycle_not_stream (take_until-keeps _ s.timestamp ls hl)),
  hs.0,
  filter_stream-merge stream (drop_until s.timestamp ls) hs.1
      (drop_until-keeps _ s.timestamp ls hl),
)

filter_lifecycle-merge :
    (stream ls : List Event)
    → AllStream stream
    → AllLifecycle ls
    → filter is_lifecycle (merge stream ls) ≡ ls
unfolding merge filter
filter_lifecycle-merge [] ls hs hl = All-filter is_lifecycle ls hl
filter_lifecycle-merge (s ∷ stream) ls hs hl =
    rw
      (
        filter-append is_lifecycle (take_until s.timestamp ls)
            (s ∷ merge stream (drop_until s.timestamp ls)),
        All-filter is_lifecycle (take_until s.timestamp ls) (take_until-keeps _ s.timestamp ls hl),
        stream_not_lifecycle s hs.0,
        filter_lifecycle-merge stream (drop_until s.timestamp ls) hs.1
            (drop_until-keeps _ s.timestamp ls hl),
      )
      (take-append-drop s.timestamp ls)

-- The next stream event, where there is one, is not earlier than a time.
abbrev pub NextIsFrom : ℕ → List Event → Type 0
NextIsFrom t [] = Unit
NextIsFrom t (f ∷ es) =
    (is_stream f ≡ true → t ≤ f.timestamp) × (is_lifecycle f ≡ true → NextIsFrom t es)

-- A lifecycle event stands before the first stream event that is not earlier than it: after a stream event stand
-- only lifecycle events that are later, and the next stream event after a lifecycle event is not earlier.
abbrev pub IsPlaced : List Event → Type 0
IsPlaced [] = Unit
IsPlaced (e ∷ es) =
    (is_stream e ≡ true → All (λ f. is_lifecycle f ≡ true → e.timestamp < f.timestamp) es)
    × (is_lifecycle e ≡ true → NextIsFrom e.timestamp es)
    × IsPlaced es

take_until-early : (t : ℕ) (ls : List Event) → All (λ e. e.timestamp ≤ t) (take_until t ls)
unfolding take_until
take_until-early t [] = tt
take_until-early t (l ∷ ls) = elim (Bool-cases (leb l.timestamp t)) [
  | inl e ↦ rw e (leb→le _ _ e, take_until-early t ls)
  | inr e ↦ rw e tt
]

only_lifecycle : (t : ℕ) (ls : List Event) → AllLifecycle ls → NextIsFrom t ls
only_lifecycle t [] h = tt
only_lifecycle t (l ∷ ls) h =
    (λ s. absurd (cc (lifecycle_not_stream l h.0)), λ _. only_lifecycle t ls h.1)

lifecycle_then :
    (t : ℕ) (ls es : List Event) → AllLifecycle ls → NextIsFrom t es → NextIsFrom t (ls ++ es)
lifecycle_then t [] es hl h = h
lifecycle_then t (l ∷ ls) es hl h =
    (λ s. absurd (cc (lifecycle_not_stream l hl.0)), λ _. lifecycle_then t ls es hl.1 h)

merge-keeps :
    (P : Event → Type 0) (stream ls : List Event)
    → All P stream
    → All P ls
    → All P (merge stream ls)
unfolding merge
merge-keeps P [] ls hs hl = hl
merge-keeps P (s ∷ stream) ls hs hl =
    All-append P _ _ (take_until-keeps P s.timestamp ls hl)
      (hs.0, merge-keeps P stream _ hs.1 (drop_until-keeps P s.timestamp ls hl))

lifecycle-IsPlaced : (ls : List Event) → AllLifecycle ls → IsPlaced ls
lifecycle-IsPlaced [] hl = tt
lifecycle-IsPlaced (l ∷ ls) hl = (
  λ p. absurd (cc (lifecycle_not_stream l hl.0)),
  λ _. only_lifecycle l.timestamp ls hl.1,
  lifecycle-IsPlaced ls hl.1,
)

-- Lifecycle events before a stream event that is not earlier than any of them.
early-IsPlaced :
    (s : Event) (ls es : List Event)
    → is_stream s ≡ true
    → AllLifecycle ls
    → All (λ e. e.timestamp ≤ s.timestamp) ls
    → IsPlaced (s ∷ es)
    → IsPlaced (ls ++ s ∷ es)
early-IsPlaced s [] es hs hl early h = h
early-IsPlaced s (l ∷ ls) es hs hl early h = (
  λ p. absurd (cc (lifecycle_not_stream l hl.0)),
  λ _.
      lifecycle_then l.timestamp ls (s ∷ es) hl.1
        (λ _. early.0, λ p. absurd (cc (lifecycle_not_stream s p, hs))),
  early-IsPlaced s ls es hs hl.1 early.1 h,
)

merge-IsPlaced :
    (stream ls : List Event)
    → AllStream stream
    → AllLifecycle ls
    → IsSortedBy time_of ls
    → IsPlaced (merge stream ls)
unfolding merge
merge-IsPlaced [] ls hs hl sorted = lifecycle-IsPlaced ls hl
merge-IsPlaced (s ∷ stream) ls hs hl sorted =
    let late = drop_until s.timestamp ls in
    let late_lifecycle = drop_until-keeps _ s.timestamp ls hl in
    early-IsPlaced s (take_until s.timestamp ls) (merge stream late) hs.0
      (take_until-keeps _ s.timestamp ls hl) (take_until-early s.timestamp ls)
      (
        λ _.
            merge-keeps (λ f. is_lifecycle f ≡ true → s.timestamp < f.timestamp) stream late
              (All-map _ _ stream (λ f h l. absurd (cc (lifecycle_not_stream f l))) hs.1)
              (All-map _ _ late (λ f h l. h) (drop_until-later s.timestamp ls sorted)),
        λ p. absurd (cc (lifecycle_not_stream s p, hs.0)),
        merge-IsPlaced stream late hs.1 late_lifecycle
            (drop_until-IsSortedBy s.timestamp ls sorted),
      )

partition-perm :
    (p : Event → Bool) (xs : List Event) → Perm (filter p xs ++ filter (λ e. not (p e)) xs) xs
unfolding filter
partition-perm p [] = Perm.refl _
partition-perm p (x ∷ xs) = elim (Bool-cases (p x)) [
  | inl e ↦ rw e (Perm.cons x (partition-perm p xs))
  | inr e ↦ rw e (Perm.trans (perm_middle _ _) (Perm.cons x (partition-perm p xs)))
]

module _ (stage_run_id : ℕ) (db : Db) where
  abbrev rows : List Event
  rows = rows_of stage_run_id db

  stream_all : AllStream (sort_by line_of (filter is_stream rows))
  stream_all = sort_by-keeps line_of _ _ (filter-All is_stream rows)

  lifecycle_all : AllLifecycle (filter is_lifecycle rows)
  lifecycle_all = filter-All is_lifecycle rows

  -- The events of the stage run are all there, each as often as it was stored; those with a line
  -- number come in the order of their numbers, the others in the order of their timestamps; and a
  -- lifecycle event stands where its time puts it: it is later than every stream event before it, and the next
  -- stream event after it is not earlier than it.
  pub list_events-order :
      Perm
        (list_events stage_run_id db)
        (filter (λ (e : Event). e.stage_run_id == stage_run_id) db.events)
      × IsSortedBy line_of (filter is_stream (list_events stage_run_id db))
      × IsSortedBy (λ e. e.timestamp) (filter is_lifecycle (list_events stage_run_id db))
      × IsPlaced (list_events stage_run_id db)
  unfolding list_events
  list_events-order = (
    Perm.trans (merge-perm (sort_by line_of (filter is_stream rows)) (filter is_lifecycle rows)) (
        Perm.trans (Perm.append_right _ (sort_by-perm line_of (filter is_stream rows)))
          (Perm.trans (partition-perm is_stream rows) (sort_by-perm _ _))),
    rw (filter_stream-merge _ _ stream_all lifecycle_all) (sort_by-IsSortedBy line_of _),
    rw (filter_lifecycle-merge _ _ stream_all lifecycle_all)
        (filter-IsSortedBy _ is_lifecycle rows (sort_by-IsSortedBy _ _)),
    merge-IsPlaced _ _ stream_all lifecycle_all
        (filter-IsSortedBy _ is_lifecycle rows (sort_by-IsSortedBy _ _)),
  )
