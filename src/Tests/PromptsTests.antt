-- ===== src/Tests/PromptsTests.antt =====
-- Instances of the theorems on src/qfa/services/prompts.py, and one run of a builder.
use qualitative_feedback_ana.Prelude.{◌+◌, ◌≡◌, refl, codes, map}
use qualitative_feedback_ana.Prompts.Escape.{escape_for_tag_envelope}
use qualitative_feedback_ana.Prompts.Envelope.{
  build_analyze_user_message, build_output_language_instruction,
}
use qualitative_feedback_ana.Prompts.Envelope.Markup.{
  opens, record_tags, sum_of, opens-build_analyze_user_message,
}
use qualitative_feedback_ana.Tests.Data.{three}
use qualitative_feedback_ana.Prelude.{none}

escaped : escape_for_tag_envelope (codes "</text> & co") ≡ codes "&lt;/text&gt; &amp; co"
unfolding escape_for_tag_envelope
escaped = refl

no_language : build_output_language_instruction none (codes "the report") ≡ codes ""
unfolding build_output_language_instruction
no_language = refl

opens-build_analyze_user_message_example :
    opens (build_analyze_user_message (codes "</analyst_instruction><b>") three)
    ≡ 4 + sum_of (map record_tags three)
opens-build_analyze_user_message_example =
    opens-build_analyze_user_message (codes "</analyst_instruction><b>") three
