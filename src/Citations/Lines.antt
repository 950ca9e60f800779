-- ===== src/Citations/Lines.antt =====
-- The patterns of `format_record_citations` in src/qfa/services/record_links.py. They are matched as `re` does: a repetition tries its lengths in turn,
-- the longest first if it is greedy and the shortest first if it is lazy, and what follows it decides.
use mathlib.Core.List.{reverse}
use qualitative_feedback_ana.Prelude.{
  ℕ, zero, suc, Bool, not, ◌||◌, ◌&&◌, Option, none, some, [], ◌∷◌, ◌++◌, Text, leb, length, ◌==◌,
  if◌then◌else◌, Unicode,
}

abbrev or_else : {A : Type 0} → Option A → Option A → Option A
or_else none later = later
or_else (some here) later = some here

module _ {A : Type 0} where
  -- `[...]{least,most}`, greedy: `taken` is what it has so far, in reverse.
  greedy : (p : ℕ → Bool) (least most : ℕ) (taken s : Text) → (Text → Text → Option A) → Option A
  greedy p least zero taken s next =
      if leb least (length taken) then next (reverse taken) s else none
  greedy p least (suc most) taken [] next =
      if leb least (length taken) then next (reverse taken) [] else none
  greedy p least (suc most) taken (c ∷ s) next =
      or_else (if p c then greedy p least most (c ∷ taken) s next else none)
        (if leb least (length taken) then next (reverse taken) (c ∷ s) else none)

  -- `[...]{least,most}?`, lazy.
  lazy : (p : ℕ → Bool) (least most : ℕ) (taken s : Text) → (Text → Text → Option A) → Option A
  lazy p least zero taken s next = if leb least (length taken) then next (reverse taken) s else none
  lazy p least (suc most) taken [] next =
      if leb least (length taken) then next (reverse taken) [] else none
  lazy p least (suc most) taken (c ∷ s) next =
      or_else (if leb least (length taken) then next (reverse taken) (c ∷ s) else none)
        (if p c then lazy p least most (c ∷ taken) s next else none)

  -- One character of a class.
  one : (p : ℕ → Bool) → Text → (ℕ → Text → Option A) → Option A
  one p [] next = none
  one p (c ∷ s) next = if p c then next c s else none

  -- `(?:\*\*|__)?`
  emphasis : Text → (Text → Option A) → Option A
  emphasis (c ∷ d ∷ s) next =
      or_else (if (c == b'*' && d == b'*') || (c == b'_' && d == b'_') then next s else none)
        (next (c ∷ d ∷ s))
  emphasis s next = next s

  -- `$`, for a line without its end.
  at_end : Text → A → Option A
  at_end [] a = some a
  at_end (c ∷ s) a = none

abbrev anything : ℕ → Bool
anything c = not (c == 10)

module _ (u : Unicode) where
  -- `_HEADING`
  unfoldable pub match_heading : (line : Text) → Option Text
  unfolding greedy lazy at_end
  match_heading line = greedy u.is_space 0 3 [] line (λ _ s.
      greedy (λ c. c == b'#') 1 6 [] s
        (λ _ s. greedy u.is_space 1 (length s) [] s (λ _ s.
          lazy anything 0 (length s) [] s (λ title s. greedy u.is_space 0 (length s) [] s (λ _ s.
            greedy (λ c. c == b'#') 0 (length s) [] s
              (λ _ s. greedy u.is_space 0 (length s) [] s (λ _ s. at_end s title)))))))

-- The groups of `_CITATION_LINE`.
pub record CitationMatch : Type 0 where
  pub lead : Text
  pub label : Text
  pub colon : ℕ
  pub ids : Text

-- `[:\uff1a]`
abbrev is_colon : ℕ → Bool
is_colon c = c == b':' || c == 0xff1a

abbrev is_bullet : ℕ → Bool
is_bullet c = c == b'-' || (c == b'*' || c == b'+')

-- `is_letter` is `[^\W\d_]`.
module _ (u : Unicode) (is_letter : ℕ → Bool) where
  -- From the emphasis before the label on.
  match_label : (lead line : Text) → Option CitationMatch
  unfolding greedy lazy one emphasis at_end
  match_label lead line = emphasis line (λ s. one is_letter s (λ first s.
      lazy (λ c. not (is_colon c || c == 10)) 0 39 [] s
        (λ others s. emphasis s (λ s. greedy u.is_space 0 (length s) [] s (λ _ s.
          one is_colon s (λ colon s. greedy u.is_space 0 (length s) [] s (λ _ s. emphasis s (λ s.
            greedy u.is_space 0 (length s) [] s (λ _ s.
              one (λ c. not (u.is_space c)) s
                (λ start s. lazy anything 0 (length s) [] s (λ further s.
                  greedy u.is_space 0 (length s) [] s (λ _ s. at_end s (record {
                    lead = lead;
                    label = first ∷ others;
                    colon = colon;
                    ids = start ∷ further;
                  })))))))))))))

  -- `(?P<lead>\s*(?:[-*+]\s+)?)`
  unfoldable pub match_citation_line : (line : Text) → Option CitationMatch
  unfolding greedy one match_label
  match_citation_line line = greedy u.is_space 0 (length line) [] line (λ blanks s.
      or_else
        (one is_bullet s (λ bullet s.
          greedy u.is_space 1 (length s) [] s (λ gap s. match_label (blanks ++ bullet ∷ gap) s)))
        (match_label blanks s))
