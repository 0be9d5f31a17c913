-- ===== src/Rollback/Journal/Order.antt =====
-- What an index holds: the appended events under distinct keys, in the order of their frames.
use mathlib.Core.List.{append-nil, append_assoc}
use mathlib.Core.Path.{subst}
use mycore.Base.{
  ◌≡◌, refl, sym, ap, ◌∙◌, ◌⊎◌, inl, inr, none, some, List, [], ◌∷◌, ◌++◌, Option-cases,
}
use mycore.Rollback.Types.{
  RollbackModel, FrameRecord, TimelineErrorCode, Variant, value, error, duplicate_event_key,
}
use mycore.Rollback.Keyed.{
  In, Distinct, find, emplace, first_keys, find_of_in, find_of_not_in, find-snoc,
  Distinct-append_left, Distinct-disjoint, Distinct-snoc,
}
use mycore.Rollback.Journal.{EventIndex, empty_index, append_events, build_event_map}

module _ (m : RollbackModel) where
  open m use {Event, EventKey, event_key, key_discrete}

  -- The events with their keys.
  abbrev pub keyed : List Event → List (EventKey × Event)
  keyed [] = []
  keyed (e ∷ es) = (event_key e, e) ∷ keyed es

  abbrev pub keys : List Event → List EventKey
  keys es = first_keys (keyed es)

  -- The events of the frames, first frame first.
  abbrev pub journal : List (FrameRecord m) → List Event
  journal [] = []
  journal (f ∷ fs) = f.events ++ journal fs

  -- `ix` is the index of these events.
  pub record Indexes (es : List Event) (ix : EventIndex m) : Type 0 where
    pub order : ix.journal_order ≡ keys es
    pub finds : (k : EventKey) → find key_discrete k ix.by_key ≡ find key_discrete k (keyed es)
    pub distinct : Distinct (keys es)

  pub keyed-append : (es fs : List Event) → keyed (es ++ fs) ≡ keyed es ++ keyed fs
  keyed-append [] fs = refl
  keyed-append (e ∷ es) fs = ap (λ l. (event_key e, e) ∷ l) (keyed-append es fs)

  pub keys-append : (es fs : List Event) → keys (es ++ fs) ≡ keys es ++ keys fs
  keys-append [] fs = refl
  keys-append (e ∷ es) fs = ap (λ l. event_key e ∷ l) (keys-append es fs)

  pub journal-append :
      (fs gs : List (FrameRecord m)) → journal (fs ++ gs) ≡ journal fs ++ journal gs
  journal-append [] gs = refl
  journal-append (f ∷ fs) gs =
      ap (λ l. f.events ++ l) (journal-append fs gs)
      ∙ sym (append_assoc f.events (journal fs) (journal gs))

  pub empty-Indexes : Indexes [] (empty_index m)
  empty-Indexes = record { order = refl; finds = λ k. refl; distinct = tt }

  -- One more event, whose key is new.
  abbrev extend : EventIndex m → Event → EventIndex m
  extend ix e = record {
    by_key = (event_key e, e) ∷ ix.by_key;
    journal_order = ix.journal_order ++ event_key e ∷ [];
  }

  extend-Indexes :
      (es : List Event) (ix : EventIndex m) (e : Event)
      → Indexes es ix
      → ¬ In (event_key e) (keys es)
      → Indexes (es ++ e ∷ []) (extend ix e)
  extend-Indexes es ix e h new = record {
    order = ap (λ l. l ++ event_key e ∷ []) h.order ∙ sym (keys-append es (e ∷ []));
    finds = λ k.
        rw (keyed-append es (e ∷ []))
          (find-snoc key_discrete k (event_key e) e (keyed es) ix.by_key (h.finds k) new);
    distinct = rw (keys-append es (e ∷ [])) (Distinct-snoc (keys es) (event_key e) h.distinct new);
  }

  append_events-new :
      (ix : EventIndex m) (e : Event) (es : List Event)
      → find key_discrete (event_key e) ix.by_key ≡ none
      → append_events m ix (e ∷ es) ≡ append_events m (extend ix e) es
  unfolding append_events emplace
  append_events-new ix e es new = rw (new, append_events) (rw (new, emplace))

  append_events-old :
      (ix : EventIndex m) (e old : Event) (es : List Event)
      → find key_discrete (event_key e) ix.by_key ≡ some old
      → append_events m ix (e ∷ es) ≡ error duplicate_event_key
  unfolding append_events emplace
  append_events-old ix e old es found = rw (found, append_events)

  append_events-nil : (ix : EventIndex m) → append_events m ix [] ≡ value ix
  unfolding append_events
  append_events-nil ix = refl

  -- Appending succeeds exactly if all the keys are distinct, and then indexes all the events.
  pub append_events-Indexes :
      (es fs : List Event) (ix ix' : EventIndex m)
      → Indexes es ix
      → append_events m ix fs ≡ value ix'
      → Indexes (es ++ fs) ix'
  append_events-Indexes es [] ix ix' h run =
      let same : ix ≡ ix' = cc (run, append_events-nil ix) in
      rw (append-nil es) (subst (Indexes es) same h)
  append_events-Indexes es (f ∷ fs) ix ix' h run =
      elim (Option-cases (find key_discrete (event_key f) ix.by_key)) [
        | inl new ↦
            let absent : ¬ In (event_key f) (keys es) = λ i.
              (let (e, found) = find_of_in key_discrete (event_key f) (keyed es) i in
                cc (new, h.finds (event_key f), found)) in
            rw (append_assoc es (f ∷ []) fs) at (
              append_events-Indexes (es ++ f ∷ []) fs (extend ix f) ix'
                (extend-Indexes es ix f h absent) (sym (append_events-new ix f fs new) ∙ run))
        | inr (old, found) ↦ absurd (cc (run, append_events-old ix f old fs found))
      ]

  pub append_events-total :
      (es fs : List Event) (ix : EventIndex m)
      → Indexes es ix
      → Distinct (keys (es ++ fs))
      → (ix' : EventIndex m) × (append_events m ix fs ≡ value ix')
  append_events-total es [] ix h d = (ix, append_events-nil ix)
  append_events-total es (f ∷ fs) ix h d =
      let split : Distinct (keys es ++ event_key f ∷ keys fs) = rw (keys-append es (f ∷ fs)) at d in
      let absent : ¬ In (event_key f) (keys es) =
        λ i. Distinct-disjoint (event_key f) (keys es) (event_key f ∷ keys fs) split i (inl refl) in
      let new : find key_discrete (event_key f) ix.by_key ≡ none =
        h.finds (event_key f) ∙ find_of_not_in key_discrete (event_key f) (keyed es) absent in
      let (ix', run) =
        append_events-total (es ++ f ∷ []) fs (extend ix f) (extend-Indexes es ix f h absent)
          (rw (append_assoc es (f ∷ []) fs) d) in
      (ix', append_events-new ix f fs new ∙ run)

  build_event_map-nil : (ix : EventIndex m) → build_event_map m [] ix ≡ value ix
  unfolding build_event_map
  build_event_map-nil ix = refl

  build_event_map-cons :
      (f : FrameRecord m) (fs : List (FrameRecord m)) (ix ix' : EventIndex m)
      → append_events m ix f.events ≡ value ix'
      → build_event_map m (f ∷ fs) ix ≡ build_event_map m fs ix'
  unfolding build_event_map
  build_event_map-cons f fs ix ix' run = rw (run, build_event_map)

  append-cases :
      (ix : EventIndex m) (es : List Event)
      → ((ix' : EventIndex m) × (append_events m ix es ≡ value ix'))
        ⊎ ((code : TimelineErrorCode) × (append_events m ix es ≡ error code))
  append-cases ix es = go (append_events m ix es) refl
    where
      go :
          (v : Variant TimelineErrorCode (EventIndex m))
          → append_events m ix es ≡ v
          → ((ix' : EventIndex m) × (append_events m ix es ≡ value ix'))
            ⊎ ((code : TimelineErrorCode) × (append_events m ix es ≡ error code))
      go (value ix') e = inl (ix', e)
      go (error code) e = inr (code, e)

  build_event_map-error :
      (f : FrameRecord m) (fs : List (FrameRecord m)) (ix : EventIndex m) (code : TimelineErrorCode)
      → append_events m ix f.events ≡ error code
      → build_event_map m (f ∷ fs) ix ≡ error code
  unfolding build_event_map
  build_event_map-error f fs ix code run = rw (run, build_event_map)

  build_event_map-from :
      (fs : List (FrameRecord m)) (es : List Event) (ix : EventIndex m)
      → Indexes es ix
      → Distinct (keys (es ++ journal fs))
      → (ix' : EventIndex m) × (build_event_map m fs ix ≡ value ix')
        × Indexes (es ++ journal fs) ix'
  build_event_map-from [] es ix h d = (ix, build_event_map-nil ix, rw (append-nil es) h)
  build_event_map-from (f ∷ fs) es ix h d =
      let all : Distinct (keys (es ++ f.events ++ journal fs)) =
        rw (append_assoc es f.events (journal fs)) d in
      let front : Distinct (keys (es ++ f.events)) =
        Distinct-append_left _ _ (rw (keys-append (es ++ f.events) (journal fs)) at all) in
      let (ix₁, run₁) = append_events-total es f.events ix h front in
      let (ix₂, run₂, i₂) =
        build_event_map-from fs (es ++ f.events) ix₁
          (append_events-Indexes es f.events ix ix₁ h run₁) all in
      (
        ix₂,
        build_event_map-cons f fs ix ix₁ run₁ ∙ run₂,
        rw (← append_assoc es f.events (journal fs)) i₂,
      )

  -- Where the keys of the frames' events are distinct, the frames have an index, and it is the index
  -- of their journal.
  pub build_event_map-Indexes :
      (fs : List (FrameRecord m))
      → Distinct (keys (journal fs))
      → (ix : EventIndex m) × (build_event_map m fs (empty_index m) ≡ value ix)
        × Indexes (journal fs) ix
  build_event_map-Indexes fs d = build_event_map-from fs [] (empty_index m) empty-Indexes d

  build_event_map-value_from :
      (fs : List (FrameRecord m)) (es : List Event) (ix ix' : EventIndex m)
      → Indexes es ix
      → build_event_map m fs ix ≡ value ix'
      → Indexes (es ++ journal fs) ix'
  build_event_map-value_from [] es ix ix' h run =
      let same : ix ≡ ix' = cc (run, build_event_map-nil ix) in
      rw (append-nil es) (subst (Indexes es) same h)
  build_event_map-value_from (f ∷ fs) es ix ix' h run = elim (append-cases ix f.events) [
    | inl (ix₁, e) ↦ rw (← append_assoc es f.events (journal fs)) (
        build_event_map-value_from fs (es ++ f.events) ix₁ ix'
          (append_events-Indexes es f.events ix ix₁ h e)
          (sym (build_event_map-cons f fs ix ix₁ e) ∙ run))
    | inr (code, e) ↦ absurd (cc (run, build_event_map-error f fs ix code e))
  ]

  -- An index that the frames have is the index of their journal.
  pub build_event_map-value :
      (fs : List (FrameRecord m)) (ix : EventIndex m)
      → build_event_map m fs (empty_index m) ≡ value ix
      → Indexes (journal fs) ix
  build_event_map-value fs ix run =
      build_event_map-value_from fs [] (empty_index m) ix empty-Indexes run
