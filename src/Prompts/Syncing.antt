-- ===== src/Prompts/Syncing.antt =====
-- `LangfusePromptAdapter.sync` of src/qfa/adapters/prompts.py: the system prompts, mirrored to Langfuse. Langfuse is a parameter, with the
-- versions that it has as its state. The keys of a dictionary are in the order of insertion.
use qualitative_feedback_ana.Prelude.{
  ℕ, ◌≡◌, refl, sym, ◌∙◌, subst, ap, ◌≢◌, inl, inr, List, [], ◌∷◌, map, Text, text_eq, text_eq-eq,
  text_eq_refl, Bool-cases, All, All-map, All_at, Among, Among-map, Distinct, if◌then◌else◌,
}
use qualitative_feedback_ana.Domain.Errors.{Error, Result, ok, err, ok-injective}

-- What `get_prompt` comes back with for the label `production`: a version, NotFoundError or another exception.
pub data Lookup : Type 0 where
  found : (text : Text) (version : ℕ) → Lookup
  not_found : Lookup
  failed : (raised : Error) → Lookup

-- The client. A lookup changes nothing; a creation comes back with the version, or raises.
pub record Langfuse (State : Type 0) : Type 0 where
  pub get_prompt : (name : Text) → State → Lookup
  pub create_prompt : (name text : Text) → State → Result ℕ × State

module _ {State : Type 0} (l : Langfuse State) where
  -- After the lookup.
  create_unless_current : Lookup → (name text : Text) → State → Result ℕ × State
  create_unless_current (found current version) name text s =
      if text_eq current text then (ok version, s) else l.create_prompt name text s
  create_unless_current not_found name text s = l.create_prompt name text s
  create_unless_current (failed e) name text s = (err e, s)

  unfoldable pub sync_one : (name text : Text) → State → Result ℕ × State
  unfolding create_unless_current
  sync_one name text s = create_unless_current (l.get_prompt name s) name text s

  -- `versions[name] = ...`, unless it raises.
  unfoldable pub with_version :
      (name : Text) → Result ℕ → (versions : List (Text × ℕ)) → List (Text × ℕ)
  with_version name (ok version) versions = (name, version) ∷ versions
  with_version name (err e) versions = versions

  -- The versions, and the state of Langfuse afterwards.
  unfoldable pub sync : (prompts : List (Text × Text)) → State → List (Text × ℕ) × State
  unfolding sync_one with_version
  sync [] s = ([], s)
  sync ((name, text) ∷ prompts) s =
      let (synced, next) = sync_one name text s in
      let (versions, last) = sync prompts next in (with_version name synced versions, last)

  -- The entries that a sync reports: of one of the prompts, with a version that another sync of that prompt reports too, and that changes nothing.
  abbrev pub IsSettled : (prompts : List (Text × Text)) → State → Text × ℕ → Type 0
  IsSettled prompts s (name, version) =
      (text : Text) × Among (name, text) prompts × (sync_one name text s ≡ (ok version, s))

-- What Langfuse documents: a prompt that was created has the label from then on, and other names keep what they have.
module _ {State : Type 0} (l : Langfuse State)
    (created : (name text : Text) (s : State) (version : ℕ)
      → (l.create_prompt name text s).0 ≡ ok version
      → l.get_prompt name (l.create_prompt name text s).1 ≡ found text version)
    (apart : (name text other : Text) (s : State)
      → name ≢ other
      → l.get_prompt other (l.create_prompt name text s).1 ≡ l.get_prompt other s) where
  sync_one-found :
      (name text : Text) (s : State) {version : ℕ}
      → l.get_prompt name s ≡ found text version
      → sync_one l name text s ≡ (ok version, s)
  unfolding sync_one create_unless_current
  sync_one-found name text s e = rw (e, create_unless_current, text_eq_refl text) refl

  -- A version that is reported is the one that Langfuse has afterwards.
  create_unless_current_stores :
      (lookup : Lookup) (name text : Text) (s : State) {version : ℕ}
      → l.get_prompt name s ≡ lookup
      → (create_unless_current l lookup name text s).0 ≡ ok version
      → l.get_prompt name (create_unless_current l lookup name text s).1 ≡ found text version
  unfolding create_unless_current
  create_unless_current_stores (found current v) name text s {version} e h =
      elim (Bool-cases (text_eq current text)) [
        | inl same ↦
            let reported : ok v ≡ ok version = rw same at h in
            rw same (
              e
              ∙ ap (λ t. found t v) (text_eq-eq current text same)
              ∙ ap (found text) (ok-injective reported))
        | inr other ↦ rw other (created name text s _ (rw other at h))
      ]
  create_unless_current_stores not_found name text s e h = created name text s _ h
  create_unless_current_stores (failed raised) name text s e h = cc h

  -- What the others have stays.
  create_unless_current_apart :
      (lookup : Lookup) (name text other : Text) (s : State)
      → name ≢ other
      → l.get_prompt other (create_unless_current l lookup name text s).1 ≡ l.get_prompt other s
  unfolding create_unless_current
  create_unless_current_apart (found current v) name text other s differ =
      elim (Bool-cases (text_eq current text)) [
        | inl same ↦ rw same refl
        | inr fresh ↦ rw fresh (apart name text other s differ)
      ]
  create_unless_current_apart not_found name text other s differ = apart name text other s differ
  create_unless_current_apart (failed raised) name text other s differ = refl

  sync_apart :
      (prompts : List (Text × Text)) (other : Text) (s : State)
      → All (λ name. other ≢ name) (map (λ prompt. prompt.0) prompts)
      → l.get_prompt other (sync l prompts s).1 ≡ l.get_prompt other s
  unfolding sync sync_one
  sync_apart [] other s differ = refl
  sync_apart ((name, text) ∷ prompts) other s differ =
      sync_apart prompts other (sync_one l name text s).1 differ.1
      ∙ create_unless_current_apart (l.get_prompt name s) name text other s
          (λ same. differ.0 (sym same))

  with_version-IsSettled :
      (prompts : List (Text × Text)) (name text : Text) (s : State) (synced : Result ℕ)
      (versions : List (Text × ℕ))
      → ((version : ℕ) → synced ≡ ok version → l.get_prompt name s ≡ found text version)
      → All (IsSettled l prompts s) versions
      → All (IsSettled l ((name, text) ∷ prompts) s) (with_version l name synced versions)
  unfolding with_version
  with_version-IsSettled prompts name text s (ok version) versions stored settled = (
    (text, inl refl, sync_one-found name text s (stored version refl)),
    All-map (λ entry (t, m, again). (t, inr m, again)) versions settled,
  )
  with_version-IsSettled prompts name text s (err e) versions stored settled =
      All-map (λ entry (t, m, again). (t, inr m, again)) versions settled

  -- Whatever else failed, each version that a sync of prompts with different names reports is of one of them, and to sync that prompt again reports the
  -- same version and creates none.
  pub sync-IsSettled :
      (prompts : List (Text × Text)) (s : State)
      → Distinct (map (λ prompt. prompt.0) prompts)
      → All (IsSettled l prompts (sync l prompts s).1) (sync l prompts s).0
  unfolding sync sync_one
  sync-IsSettled [] s distinct = tt
  sync-IsSettled ((name, text) ∷ prompts) s distinct =
      let (synced, next) = sync_one l name text s in
      with_version-IsSettled prompts name text (sync l prompts next).1 synced
        (sync l prompts next).0
        (λ version reported.
          sync_apart prompts name next distinct.0
          ∙ create_unless_current_stores (l.get_prompt name s) name text s refl reported)
        (sync-IsSettled prompts next distinct.1)

  with_version-Among :
      (name : Text) (synced : Result ℕ) (versions : List (Text × ℕ)) (entry : Text × ℕ)
      → Among entry versions
      → Among entry (with_version l name synced versions)
  unfolding with_version
  with_version-Among name (ok version) versions entry m = inr m
  with_version-Among name (err e) versions entry m = m

  -- A prompt whose text Langfuse has already is reported with its version, whatever fails for the others.
  sync_reports :
      (prompts : List (Text × Text)) (s : State)
      → Distinct (map (λ prompt. prompt.0) prompts)
      → (name text : Text) (version : ℕ) → Among (name, text) prompts
      → l.get_prompt name s ≡ found text version
      → Among (name, version) (sync l prompts s).0
  unfolding sync sync_one with_version
  sync_reports [] s distinct name text version m current = absurd m
  sync_reports ((n, t) ∷ prompts) s distinct name text version (inl same) current =
      let current_here =
        subst (λ (p : Text × Text). l.get_prompt p.0 s ≡ found p.1 version) same current in
      let one = ap (λ (r : Result ℕ × State). r.0) (sync_one-found n t s current_here) in
      rw one (inl (ap (λ (p : Text × Text). (p.0, version)) same))
  sync_reports ((n, t) ∷ prompts) s distinct name text version (inr later) current =
      let next = (sync_one l n t s).1 in
      let differ =
        All_at (λ y. n ≢ y) _ distinct.0
          (Among-map (λ prompt. prompt.0) (name, text) prompts later) in
      with_version-Among n (sync_one l n t s).0 (sync l prompts next).0 (name, version)
        (sync_reports prompts next distinct.1 name text version later
          (create_unless_current_apart (l.get_prompt n s) n t name s differ ∙ current))
