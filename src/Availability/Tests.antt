-- ===== src/Availability/Tests.antt =====
-- The planner's theorems at concrete inputs. Times are small numbers of milliseconds but where an
-- interview is scheduled.

use beleqet_ecosystem_update.Base.{
  ℕ, ◌≡◌, refl, false, ◌&&◌, none, List, [], ◌∷◌, lookup, find_value, arith,
}
use beleqet_ecosystem_update.Availability.Overlap.{Slot, overlaps}
use beleqet_ecosystem_update.Availability.Overlap.Laws.{covers, in_windows, overlaps-covers}
use beleqet_ecosystem_update.Availability.Slots.{
  Planner, Interview, InterviewStatus, CreateInterviewDto, create_interview,
}
use beleqet_ecosystem_update.Availability.Slots.Laws.{Scheduled, create_interview-Scheduled}

abbrev slot : ℕ → ℕ → ℕ → ℕ → Slot
slot id user start end = record {
  id = id;
  user_id = user;
  start_time = start;
  end_time = end;
  timezone = "UTC";
}

abbrev of_employer : List Slot
of_employer = slot 1 10 0 50 ∷ slot 2 10 60 100 ∷ []

abbrev of_candidate : List Slot
of_candidate = slot 3 20 40 80 ∷ []

overlaps-covers_example :
    in_windows (overlaps of_employer of_candidate) 45
    ≡ (covers of_employer 45 && covers of_candidate 45)
overlaps-covers_example = overlaps-covers of_employer of_candidate 45 (omega arith) (omega arith)

abbrev planner : Planner
planner = record {
  slots = (1, slot 1 10 0 7_200_000) ∷ (2, slot 2 20 0 7_200_000) ∷ [];
  interviews = [];
  applications =
      (
        5,
        record {
          user_id = 20;
          employer_id = 10;
          interview_duration_minutes = none;
          interview_scheduled = false;
          interview_slot = none;
        },
      )
      ∷ [];
  notified = [];
}

abbrev dto : CreateInterviewDto
dto = record { application_id = 5; start_time = 0; end_time = 3_600_000; timezone = none }

abbrev interview : Interview
interview = record {
  application_id = 5;
  employer_id = 10;
  candidate_id = 20;
  start_time = 0;
  end_time = 3_600_000;
  timezone = "UTC";
  duration_minutes = 60;
  status = InterviewStatus.scheduled;
}

create_interview-Scheduled_example : Scheduled 10 dto planner interview
unfolding create_interview find_value lookup
create_interview-Scheduled_example = create_interview-Scheduled 9 10 dto planner interview refl
