-- ===== src/Tests/CodingTests.antt =====
-- Instances of the theorems on src/qfa/services/coding.py: two options under one root, and a judge that always replies 0.85.
use qualitative_feedback_ana.Prelude.{
  ◌/◌, Bool, zero, suc, ℕ, ◌+◌, ◌*◌, ◌-◌, ◌≤◌, ◌≡◌, refl, true, false, Option, none, some, List, [],
  ◌∷◌, Text, codes, arith, ascii, leb, length, take, Among, if◌then◌else◌, ◌==◌, ◌<◌, ◌⊎◌, strip,
}
use qualitative_feedback_ana.Prelude.Int.{pos, negsuc}
use qualitative_feedback_ana.Prelude.Decimal.{decimal}
use qualitative_feedback_ana.Domain.Errors.{ok}
use qualitative_feedback_ana.Prompts.Escape.{escape_for_tag_envelope}
use qualitative_feedback_ana.Executor.{complete, ExecutorSettings, complete-IsWithin}
use qualitative_feedback_ana.Coding.Framework.{
  CodingNodes, node, nodes, no_nodes, CodePath, flatten_coding_nodes, Leads,
  flatten_coding_nodes-iff-Leads,
}
use qualitative_feedback_ana.Coding.Scores.{Floats}
use qualitative_feedback_ana.Coding.Reply.{
  parse_judge_response, ascii_same_letter, parse_judge_response-lines,
}
use qualitative_feedback_ana.Coding.Judging.{
  CodingService, JudgeCall, ScoredCode, judge_selected_path, IsOutcome,
  judge_selected_path-IsOutcome,
}
use qualitative_feedback_ana.Coding.Picking.{build_coding_message}
use qualitative_feedback_ana.Coding.Assign.{
  AssignedCodeModel, CodedFeedbackRecordModel, CodingAssignmentRequestModel, CodingCalls,
  assign_codes, coded_as, pick_codes, judge_option,
}
use qualitative_feedback_ana.Coding.Assign.Returns.{assign_codes_returns}
use qualitative_feedback_ana.Coding.Assign.Laws.{IsReport, assign_codes-IsReport}
use qualitative_feedback_ana.Tests.Data.{form}

-- Two decimals are enough here.
abbrev pub hundredths : Text → Option ℕ
hundredths (a ∷ d ∷ b ∷ c ∷ []) =
    if d == b'.' then some (100 * (a - b'0') + (10 * (b - b'0') + (c - b'0'))) else none
hundredths _ = none

pub leb_total : (a b : ℕ) → (leb a b ≡ true) ⊎ (leb b a ≡ true)
leb_total a b = ground arith

pub leb_trans : (a b c : ℕ) → leb a b ≡ true → leb b c ≡ true → leb a c ≡ true
leb_trans a b c p q = ground arith

abbrev total : List ℕ → ℕ
total [] = 0
total (x ∷ xs) = x + total xs

abbrev pub two_digit_floats : Floats
two_digit_floats = record {
  Float = ℕ;
  le = leb;
  le_total = leb_total;
  le_trans = leb_trans;
  float_zero = 0;
  float_one = 100;
  float = hundredths;
  whole_percent = λ n. codes "85%";
  two_decimals = λ n. codes "0.85";
  times = λ x n. x * n;
  over = λ x n. x / n;
  sum = total;
}

abbrev small_settings : ExecutorSettings
small_settings = record { chars_per_token = 4; llm_timeout = 30000000; max_total_tokens = 1000 }

abbrev small_service : CodingService
small_service = record {
  floats = two_digit_floats;
  unicode = ascii;
  same_letter = ascii_same_letter;
  settings = small_settings;
  anonymize = λ t. t;
  coding_system = codes "pick";
  judge_system = codes "judge";
}

abbrev service_codes : CodingNodes
service_codes =
    nodes
      (node (codes "s") (codes "Service")
        (nodes (node (codes "t") (codes "Staff") no_nodes) no_nodes))
      no_nodes

abbrev staff : CodePath
staff = (codes "s", codes "Service") ∷ (codes "t", codes "Staff") ∷ []

abbrev coding_request : CodingAssignmentRequestModel two_digit_floats
coding_request = record {
  feedback_record = form "F-1" "rude staff" "2024-01-05";
  root_codes = service_codes;
  max_codes = 1;
  confidence_threshold = some 60;
  tenant_id = codes "T";
}

abbrev content_judge : JudgeCall
content_judge = record {
  started = 0;
  granted = 5;
  judge_llm = λ _ _ _ _. ok (codes "SCORE: 0.85\nEXPLANATION: fits");
}

abbrev coding_calls : CodingCalls
coding_calls = record {
  started = 0;
  picked = 1;
  pick = λ _ _ _ _. ok (pos 1 ∷ pos 7 ∷ negsuc 0 ∷ pos 1 ∷ []);
  judge = λ _ _. content_judge;
  first_raised = λ e _. e;
}

abbrev coded_staff : List (CodedFeedbackRecordModel two_digit_floats)
coded_staff =
    record {
      feedback_record_id = codes "F-1";
      assigned_codes =
          record {
            coding_level_1_id = some (codes "s");
            coding_level_1_name = some (codes "Service");
            coding_level_2_id = some (codes "t");
            coding_level_2_name = some (codes "Staff");
            coding_level_3_id = none;
            coding_level_3_name = none;
            confidence_level_1 = some 85;
            confidence_level_2 = some 85;
            confidence_level_3 = none;
            confidence = some 85;
            explanation = codes "- Level 1 (0.85): fits\n- Level 2 (0.85): fits";
          }
          ∷ [];
    }
    ∷ []

coded_staff_run : assign_codes small_service coding_request coding_calls 60000000 ≡ ok coded_staff
unfolding assign_codes escape_for_tag_envelope decimal
coded_staff_run = refl

assign_codes-IsReport_example :
    (assigned : List (AssignedCodeModel two_digit_floats)) × (coded_staff
      ≡ coded_as small_service coding_request coding_calls 60000000 assigned)
    × IsReport small_service coding_request coding_calls 60000000
        (flatten_coding_nodes service_codes [])
        assigned
assign_codes-IsReport_example =
    assign_codes-IsReport small_service coding_request coding_calls 60000000 coded_staff_run

abbrev scored_staff : ScoredCode two_digit_floats
scored_staff = record {
  path = staff;
  scores = 85 ∷ 85 ∷ [];
  explanations = codes "fits" ∷ codes "fits" ∷ [];
}

scored_staff_run :
    judge_selected_path small_service
      (form "F-1" "rude staff" "2024-01-05")
      (codes "T")
      60000000
      staff
      (some 60)
      (λ _. content_judge)
    ≡ ok (scored_staff, false)
unfolding judge_selected_path escape_for_tag_envelope decimal
scored_staff_run = refl

judge_selected_path-IsOutcome_example :
    IsOutcome small_service
      (form "F-1" "rude staff" "2024-01-05")
      (codes "T")
      60000000
      (some 60)
      staff
      (85 ∷ 85 ∷ [])
      false
    × (staff ≡ take 2 staff)
    × (length (codes "fits" ∷ codes "fits" ∷ []) ≡ length {A = ℕ} (85 ∷ 85 ∷ []))
judge_selected_path-IsOutcome_example =
    judge_selected_path-IsOutcome small_service (form "F-1" "rude staff" "2024-01-05") (codes "T")
      60000000 staff (some 60) (λ _. content_judge) scored_staff_run

flatten_coding_nodes-iff-Leads_example :
    (Among staff (flatten_coding_nodes service_codes []) → Leads service_codes staff)
    × (Leads service_codes staff → Among staff (flatten_coding_nodes service_codes []))
flatten_coding_nodes-iff-Leads_example = flatten_coding_nodes-iff-Leads service_codes staff

parse_judge_response-lines_example :
    parse_judge_response ascii ascii_same_letter two_digit_floats
      (codes "SCORE: 0.85\nEXPLANATION: fits")
    ≡ ok (record { score = 85; explanation = strip ascii (codes " fits") })
parse_judge_response-lines_example =
    parse_judge_response-lines two_digit_floats b'0' (codes ".85") b'f' (codes "its")
      (refl, (refl, (refl, (refl, tt)))) refl

handed_run :
    complete small_settings
      (λ _ _ _ timeout. ok timeout)
      (codes "s")
      (codes "u")
      (codes "T")
      0
      60000000
    ≡ ok 60000000
unfolding complete
handed_run = refl

complete-IsWithin_example :
    (timeout : ℕ) × (ok timeout ≡ ok 60000000)
    × (3 * 0 + 3 * timeout ≤ 3 * 60000000)
    × (timeout ≤ 3 * 30000000)
complete-IsWithin_example =
    complete-IsWithin small_settings (λ _ _ _ timeout. ok timeout) (codes "s") (codes "u")
      (codes "T") 0 60000000 handed_run

picked_run :
    pick_codes small_service coding_request coding_calls 60000000 (
      build_coding_message
        (form "F-1" "rude staff" "2024-01-05")
        (flatten_coding_nodes service_codes []))
    ≡ ok (pos 1 ∷ pos 7 ∷ negsuc 0 ∷ pos 1 ∷ [])
unfolding pick_codes build_coding_message flatten_coding_nodes escape_for_tag_envelope decimal
picked_run = refl

judged_run :
    (index : ℕ)
    → index < length (flatten_coding_nodes service_codes [])
    → (o : ScoredCode two_digit_floats × Bool) × (judge_option small_service coding_request
          coding_calls 60000000
          (flatten_coding_nodes service_codes [])
          index
        ≡ ok o)
unfolding judge_option flatten_coding_nodes escape_for_tag_envelope decimal
judged_run zero inside = (
  (
    record {
      path = (codes "s", codes "Service") ∷ [];
      scores = 85 ∷ [];
      explanations = codes "fits" ∷ [];
    },
    false,
  ),
  refl,
)
judged_run (suc zero) inside = ((scored_staff, false), refl)
judged_run (suc (suc n)) inside = absurd (omega arith)

assign_codes_returns_example :
    (result : List (CodedFeedbackRecordModel two_digit_floats)) × (assign_codes small_service
        coding_request coding_calls 60000000
      ≡ ok result)
assign_codes_returns_example =
    assign_codes_returns small_service coding_request coding_calls 60000000
      (pos 1 ∷ pos 7 ∷ negsuc 0 ∷ pos 1 ∷ []) (omega arith) picked_run judged_run
