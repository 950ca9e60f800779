-- ===== src/Anonymizer/Spans/Merging.antt =====
-- What `_merge_person_wins` of src/qfa/adapters/presidio_anonymizer.py keeps of the spans of two passes.
use qualitative_feedback_ana.Prelude.{
  ◌≡◌, ◌⊎◌, ◌<◌, ◌≤◌, refl, sym, ◌∙◌, subst, Bool, true, false, not, ◌&&◌, List, [], ◌∷◌, ◌++◌, any,
  keep, All, All-map, All-append, All-intro, All-keep_test, All-any-false, All-Among, Among,
  Among-append_left, Among-append_right, Among-keep, Bool-cases, inl, inr, arith,
}
use qualitative_feedback_ana.Anonymizer.Spans.{
  Span, overlaps, overlaps_any, is_person, add_persons, survives, merge_person_wins,
}

any-append_left : (p : Span → Bool) (xs ys : List Span) → any p xs ≡ true → any p (xs ++ ys) ≡ true
any-append_left p [] ys h = cc
any-append_left p (x ∷ xs) ys h = ground (arith, any-append_left p xs ys)

add_persons-Among :
    (p : Span) (persons person_pass : List Span)
    → Among p persons
    → Among p (add_persons persons person_pass)
unfolding add_persons
add_persons-Among p persons [] m = m
add_persons-Among p persons (c ∷ person_pass) m = elim (Bool-cases (overlaps_any c persons)) [
  | inl old ↦ rw (add_persons, old) (add_persons-Among p persons person_pass m)
  | inr new ↦
      rw (add_persons, new)
        (add_persons-Among p (persons ++ c ∷ []) person_pass
          (Among-append_left p persons (c ∷ []) m))
]

any-add_persons :
    (p : Span → Bool) (persons person_pass : List Span)
    → any p persons ≡ true
    → any p (add_persons persons person_pass) ≡ true
unfolding add_persons
any-add_persons p persons [] h = h
any-add_persons p persons (c ∷ person_pass) h = elim (Bool-cases (overlaps_any c persons)) [
  | inl old ↦ rw (add_persons, old) (any-add_persons p persons person_pass h)
  | inr new ↦
      rw (add_persons, new)
        (any-add_persons p (persons ++ c ∷ []) person_pass (any-append_left p persons (c ∷ []) h))
]

add_persons-All :
    (P : Span → Type 0) (persons person_pass : List Span)
    → All P persons
    → All P person_pass
    → All P (add_persons persons person_pass)
unfolding add_persons
add_persons-All P persons [] h k = h
add_persons-All P persons (c ∷ person_pass) h k = elim (Bool-cases (overlaps_any c persons)) [
  | inl old ↦ rw (add_persons, old) (add_persons-All P persons person_pass h k.1)
  | inr new ↦
      rw (add_persons, new)
        (add_persons-All P (persons ++ c ∷ []) person_pass
          (All-append P persons (c ∷ []) h (k.0, tt)) k.1)
]

-- A span is among these, or it overlaps one of them.
abbrev IsMet : (spans : List Span) → Span → Type 0
IsMet spans span = Among span spans ⊎ (overlaps_any span spans ≡ true)

taken_already :
    (c : Span) (persons person_pass : List Span)
    → overlaps_any c persons ≡ true
    → add_persons persons person_pass ≡ add_persons persons (c ∷ person_pass)
unfolding add_persons
taken_already c persons person_pass old = rw (add_persons, old) refl

taken_now :
    (c : Span) (persons person_pass : List Span)
    → overlaps_any c persons ≡ false
    → add_persons (persons ++ c ∷ []) person_pass ≡ add_persons persons (c ∷ person_pass)
unfolding add_persons
taken_now c persons person_pass new = rw (add_persons, new) refl

add_persons-IsMet :
    (persons person_pass : List Span) → All (IsMet (add_persons persons person_pass)) person_pass
add_persons-IsMet persons [] = tt
add_persons-IsMet persons (c ∷ person_pass) = elim (Bool-cases (overlaps_any c persons)) [
  | inl old ↦
      subst (λ spans. IsMet spans c × All (IsMet spans) person_pass)
        (taken_already c persons person_pass old)
        (
          inr (unfold overlaps_any in any-add_persons (overlaps c) persons person_pass old),
          add_persons-IsMet persons person_pass,
        )
  | inr new ↦
      subst (λ spans. IsMet spans c × All (IsMet spans) person_pass)
        (taken_now c persons person_pass new)
        (
          inl (
              add_persons-Among c (persons ++ c ∷ []) person_pass
                (Among-append_right c persons (c ∷ []) (inl refl))),
          add_persons-IsMet (persons ++ c ∷ []) person_pass,
        )
]

-- They have a place in common.
abbrev pub Meet : Span → Span → Type 0
Meet a b = (a.start < b.stop) × (b.start < a.stop)

-- A span is among these, or it has a place in common with a person of them.
abbrev pub IsCovered : (spans : List Span) → Span → Type 0
IsCovered spans span =
    Among span spans
    ⊎ ((person : Span) × Among person spans × (is_person person ≡ true) × Meet span person)

overlaps-Meet : (a b : Span) → overlaps a b ≡ true → Meet a b
unfolding overlaps
overlaps-Meet a b h = ground arith

overlaps_any-Meet :
    (span : Span) (persons : List Span)
    → All (λ p. is_person p ≡ true) persons
    → overlaps_any span persons ≡ true
    → (person : Span) × Among person persons × (is_person person ≡ true) × Meet span person
unfolding overlaps_any
overlaps_any-Meet span [] all_persons h = cc h
overlaps_any-Meet span (p ∷ persons) all_persons h = elim (Bool-cases (overlaps span p)) [
  | inl here ↦ (p, inl refl, all_persons.0, overlaps-Meet span p here)
  | inr apart ↦
      let (person, m, kind, met) = overlaps_any-Meet span persons all_persons.1 (rw apart at h) in
      (person, inr m, kind, met)
]

IsMet-IsCovered :
    (persons others : List Span) (span : Span)
    → All (λ p. is_person p ≡ true) persons
    → IsMet persons span
    → IsCovered (persons ++ others) span
IsMet-IsCovered persons others span all_persons (inl m) =
    inl (Among-append_left span persons others m)
IsMet-IsCovered persons others span all_persons (inr o) =
    let (person, m, kind, met) = overlaps_any-Meet span persons all_persons o in
    inr (person, Among-append_left person persons others m, kind, met)

-- A place survives, or a person takes its place.
place-IsCovered :
    (persons primary : List Span) (span : Span)
    → All (λ p. is_person p ≡ true) persons
    → Among span primary
    → is_person span ≡ false
    → IsCovered (persons ++ keep (survives persons) primary) span
unfolding overlaps_any
place-IsCovered persons primary span all_persons m place =
    elim (Bool-cases (overlaps_any span persons)) [
      | inl met ↦
          IsMet-IsCovered persons (keep (survives persons) primary) span all_persons (inr met)
      | inr apart ↦
          let stays : survives persons span ≡ true = rw (place, apart) refl in
          inl (
            Among-append_right span persons (keep (survives persons) primary)
              (Among-keep (survives persons) span primary stays m))
    ]

-- A span that is no person ends before one that is, or begins after it.
abbrev pub KeepsClear : Span → Span → Type 0
KeepsClear span person =
    is_person span ≡ false
    → is_person person ≡ true
    → (span.stop ≤ person.start) ⊎ (person.stop ≤ span.start)

apart-KeepsClear : (span person : Span) → overlaps span person ≡ false → KeepsClear span person
unfolding overlaps
apart-KeepsClear span person h place kind = ground arith

survives-KeepsClear :
    (persons : List Span) (span : Span)
    → survives persons span ≡ true
    → (is_person span ≡ false) × All (λ person. overlaps span person ≡ false) persons
unfolding overlaps_any
survives-KeepsClear persons span h = (
  ground arith,
  All-any-false (overlaps span) persons
      (clear (not (is_person span)) (any (overlaps span) persons) h),
)
  where
    clear : (a b : Bool) → (a && not b) ≡ true → b ≡ false
    clear a b h = ground arith

-- Every person of the first pass is there; every other span of the first pass and every person of the second is there, or has a place in common
-- with a person that is. No span that is no person has a place in common with a person.
pub merge_person_wins_lem :
    (primary person_pass : List Span)
    → All (λ c. is_person c ≡ true) person_pass
    → let merged = merge_person_wins primary person_pass in
      All (λ p. is_person p ≡ true → Among p merged) primary
      × All (IsCovered merged) primary
      × All (IsCovered merged) person_pass
      × All (λ span. All (KeepsClear span) merged) merged
unfolding merge_person_wins
merge_person_wins_lem primary person_pass persons_only =
    let persons = add_persons (keep is_person primary) person_pass in
    let survivors = keep (survives persons) primary in
    let all_persons =
      add_persons-All (λ c. is_person c ≡ true) (keep is_person primary) person_pass
        (All-keep_test (λ _. Unit {0}) (λ c. is_person c ≡ true) is_person (λ c _ t. t) primary
          (All-intro (λ c. tt) primary))
        persons_only in
    let covered : (span : Span) → Among span primary → IsCovered (persons ++ survivors) span =
      λ span m. elim (Bool-cases (is_person span)) [
        | inr place ↦ place-IsCovered persons primary span all_persons m place
        | inl person ↦ inl (
            Among-append_left span persons survivors (
              add_persons-Among span (keep is_person primary) person_pass
                (Among-keep is_person span primary person m)))
      ] in
    let clear =
      All-keep_test (λ _. Unit {0})
        (λ span. (is_person span ≡ false) × All (λ person. overlaps span person ≡ false) persons)
        (survives persons) (λ span _ t. survives-KeepsClear persons span t) primary
        (All-intro (λ c. tt) primary) in
    (
      All-map
          (λ p m t. Among-append_left p persons survivors (
            add_persons-Among p (keep is_person primary) person_pass
              (Among-keep is_person p primary t m)))
          primary (All-Among primary),
      All-map (λ p m. covered p m) primary (All-Among primary),
      All-map (λ c. IsMet-IsCovered persons survivors c all_persons) person_pass
          (add_persons-IsMet (keep is_person primary) person_pass),
      All-append (λ span. All (KeepsClear span) (persons ++ survivors)) persons survivors
          (All-map
            (λ span t. All-intro (λ other other_kind _. both t other_kind) (persons ++ survivors))
            persons all_persons)
          (All-map
            (λ span (_, apart).
              All-append (KeepsClear span) persons survivors
                (All-map (λ person. apart-KeepsClear span person) persons apart)
                (All-map (λ other (other_kind, _) _ person. both person other_kind) survivors
                  clear))
            survivors clear),
    )
  where
    true_false : true ≡ false → ⊥
    true_false e = cc

    both : {t : Bool} {P : Type 0} → t ≡ true → t ≡ false → P
    both this other = absurd (true_false (sym this ∙ other))
