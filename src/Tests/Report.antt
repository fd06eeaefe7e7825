-- ===== src/Tests/Report.antt =====
-- What node-a prints at the end of the sync of Tests/Everyone.
use ded_swarm.Base.{
  Bool, ◌≡◌, ◌≢◌, refl, true, false, List, [], ◌∷◌, nat_eq, string_eq, option_eq, map, length,
  ℕ_discrete, String, none, some, ok, if◌then◌else◌, ◌==◌, All,
}
use ded_swarm.Base.Dict.{keys, lookup}
use ded_swarm.Base.Order.{sorted, sort_insert, nat_ord}
use ded_swarm.Float.{Ticks, ticks_float}
use ded_swarm.Protocol.{dispute_score}
use ded_swarm.Consensus.{Position, Token, AllScores, detect_disputes}
use ded_swarm.Generation.Scoring.{scores_for}
use ded_swarm.Generation.Phases.{Phased, Scored}
use ded_swarm.Generation.Report.{
  SyncReport, CommitLine, DisputeLine, Part, items_at, sorted_items, commit_lines, part, node_parts,
  dispute_line, full_ids, committed_n, confirmed, frozen_note, report_with, sync_report, ReportArgs,
}
use ded_swarm.Generation.Report.Whole.{report_args, sync_report_total}
use ded_swarm.Tests.Generation.{in_order, detector, fresh, program}
use ded_swarm.Tests.Everyone.{
  a, b, c, commit_by, scores_by, scores_back, says, ticks_a, ticks_c, node_c, participant_a,
  participant_c,
}

abbrev show : Token → String
show tok = if tok == 600 then "six" else if tok == 500 then "five" else "other"

abbrev decode : List Token → String
decode ts = if length ts == 30 then "thirty" else "other"

abbrev scores : AllScores Ticks
scores =
    ("node-a", (10, (600, 900) ∷ (500, 20) ∷ []) ∷ [])
    ∷ ("node-b", (10, (500, 30) ∷ (600, 30) ∷ []) ∷ [])
    ∷ ("node-c", (10, (600, 100) ∷ (500, 200) ∷ []) ∷ [])
    ∷ []

-- The same scores, in the order in which node-c gathers them.
abbrev scores_of_c : AllScores Ticks
scores_of_c =
    ("node-c", (10, (600, 100) ∷ (500, 200) ∷ []) ∷ [])
    ∷ ("node-b", (10, (500, 30) ∷ (600, 30) ∷ []) ∷ [])
    ∷ ("node-a", (10, (600, 900) ∷ (500, 20) ∷ []) ∷ [])
    ∷ []

abbrev phased : Phased in_order a ((1, 5) ∷ []) detector 5 7 ticks_a fresh participant_a.result
unfolding program
phased = record {
  c = record {
    node = record fresh {
      gen_inbox = ((dispute_score, (some "r1", some 3)), ("node-b", scores_by 30 30) ∷ []) ∷ [];
    };
    received = ("node-b", commit_by b) ∷ ("node-c", commit_by c) ∷ [];
    ticks = says 9 "node-c" dispute_score (scores_back 200 100) ∷ [];
  };
  log = ("node-a", a.my_commits) ∷ ("node-b", b.my_commits) ∷ ("node-c", c.my_commits) ∷ [];
  r = record {
    node = fresh;
    ticks = [];
    resolved = (10, 600) ∷ [];
    published = (dispute_score, scores_back 20 900) ∷ [];
  };
  collects = refl;
  reads = refl;
  scores = refl;
  merges = refl;
  checks = refl;
  publishes = refl;
}

abbrev scored :
    Scored in_order a (detect_disputes phased.log) 7 phased.c.ticks phased.c.node phased.r
unfolding program scores_for
scored = record {
  c = record {
    node = fresh;
    received = ("node-b", scores_by 30 30) ∷ ("node-c", scores_back 200 100) ∷ [];
    ticks = [];
  };
  all_scores = scores;
  collects = refl;
  reads = refl;
  resolves = refl;
  publishes = refl;
}

abbrev phased_c : Phased in_order c ((1, 5) ∷ []) detector 5 7 ticks_c node_c participant_c.result
unfolding program
phased_c = record {
  c = record {
    node = record fresh { id = "node-c" };
    received = ("node-a", commit_by a) ∷ ("node-b", commit_by b) ∷ [];
    ticks =
        says 9 "node-b" dispute_score (scores_by 30 30)
        ∷ says 9 "node-a" dispute_score (scores_back 20 900)
        ∷ [];
  };
  log = ("node-c", c.my_commits) ∷ ("node-a", a.my_commits) ∷ ("node-b", b.my_commits) ∷ [];
  r = record {
    node = record fresh { id = "node-c" };
    ticks = [];
    resolved = (10, 600) ∷ [];
    published = (dispute_score, scores_back 200 100) ∷ [];
  };
  collects = refl;
  reads = refl;
  scores = refl;
  merges = refl;
  checks = refl;
  publishes = refl;
}

abbrev printed_by_a : ReportArgs Ticks
printed_by_a =
    report_args in_order a ((1, 5) ∷ []) detector 5 7 ticks_a fresh participant_a.result phased
      scores none 0

abbrev printed_by_c : ReportArgs Ticks
printed_by_c =
    report_args in_order c ((1, 5) ∷ []) detector 5 7 ticks_c node_c participant_c.result phased_c
      scores_of_c none 0

abbrev part_of : String → String → Ticks → Bool → Part Ticks
part_of id decoded prob starred = record {
  node_id = id;
  decoded = decoded;
  prob = prob;
  starred = starred;
}

abbrev line : DisputeLine Ticks
line = record {
  pos = 10;
  parts =
      part_of "node-a" "five" 20 false
      ∷ part_of "node-a" "six" 900 true
      ∷ part_of "node-b" "five" 30 false
      ∷ part_of "node-b" "six" 30 true
      ∷ part_of "node-c" "five" 200 false
      ∷ part_of "node-c" "six" 100 true
      ∷ [];
  winner = some "six";
}

abbrev committed_line : Position → String → Ticks → CommitLine Ticks
committed_line pos decoded conf = record { pos = pos; decoded = decoded; conf = conf }

abbrev report_of_a : SyncReport Ticks
report_of_a = record {
  confirmed = none;
  commits =
      ("node-a", committed_line 10 "five" 90 ∷ committed_line 20 "other" 99 ∷ [])
      ∷ ("node-b", committed_line 10 "six" 70 ∷ [])
      ∷ ("node-c", committed_line 10 "five" 80 ∷ [])
      ∷ [];
  reporters = 3;
  n_commits = 4;
  n_disputes = 1;
  disputes = line ∷ [];
  frozen_note = none;
  committed_n = 3;
  span = 30;
  preview = "thirty";
}

prints_a : sync_report show decode printed_by_a ≡ ok report_of_a
unfolding program sync_report report_with dispute_line node_parts part sorted_items items_at
    commit_lines full_ids committed_n confirmed frozen_note sorted sort_insert keys lookup string_eq
    option_eq ℕ_discrete
prints_a = refl

prints_c : sync_report show decode printed_by_c ≡ ok report_of_a
unfolding program sync_report report_with dispute_line node_parts part sorted_items items_at
    commit_lines full_ids committed_n confirmed frozen_note sorted sort_insert keys lookup string_eq
    option_eq ℕ_discrete
prints_c = refl

sync_report_total_example :
    (r : SyncReport Ticks) × (sync_report show decode printed_by_a ≡ ok r)
    × All (λ l. l.winner ≢ none) r.disputes
    × (map (λ l. l.pos) r.disputes ≡ sorted (keys (detect_disputes phased.log)))
unfolding program scored
sync_report_total_example =
    sync_report_total show decode in_order a ((1, 5) ∷ []) detector 5 7 ticks_a fresh
      participant_a.result phased scores none 0 refl scored refl
