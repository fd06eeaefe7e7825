-- ===== src/Tests/Everyone.antt =====
-- Three participants of a sync. They dispute position 10, hear one another in different orders, one
-- of them before its sync begins, and end alike.
use ded_swarm.Base.{
  ℕ, ◌≡◌, ◌≢◌, refl, true, false, List, [], ◌∷◌, nat_eq, string_eq, String, some, arith, ap, inl,
  inr, if◌then◌else◌, ◌==◌,
}
use ded_swarm.Base.Dict.{keys, SameLookups}
use ded_swarm.Float.{Ticks, ticks_float, Ticks-IsOrdered, Ticks-IsExact}
use ded_swarm.Protocol.{MsgType, Payload, commit, dispute_score}
use ded_swarm.Consensus.{Position, Token, Commit}
use ded_swarm.Swarm.Inbox.{IsInbox, dispatch-IsInbox}
use ded_swarm.Swarm.{SwarmNode, Tick}
use ded_swarm.Generation.{SyncArgs, Synced, commit_payload, scores_payload}
use ded_swarm.Generation.Parties.{Participant, Meeting, TakesPart, AllTakePart}
use ded_swarm.Generation.Parties.Everyone.{do_sync_everyone}
use ded_swarm.Tests.Generation.{in_order, in_order-IsIteration, detector, fresh, program}
use ded_swarm.Tests.Swarm.{fresh-IsInbox}

abbrev args_of : String → List String → Commit Ticks → (Position → Token → Ticks) → SyncArgs Ticks
args_of id others mine log_prob = record {
  id = id;
  round_id = "r1";
  sync_seq = 3;
  other_participants = others;
  my_commits = mine;
  seq_len = 30;
  vocab_size = 1000;
  log_prob = log_prob;
  gen_start = 0;
  gen_end = 30;
}

abbrev pub a : SyncArgs Ticks
a =
    args_of "node-a" ("node-b" ∷ "node-c" ∷ []) ((10, (500, 90)) ∷ (20, (700, 99)) ∷ [])
      (λ pos tok. if tok == 600 then 900 else 20)

abbrev pub b : SyncArgs Ticks
b = args_of "node-b" ("node-a" ∷ "node-c" ∷ []) ((10, (600, 70)) ∷ []) (λ pos tok. 30)

abbrev pub c : SyncArgs Ticks
c =
    args_of "node-c" ("node-b" ∷ "node-a" ∷ []) ((10, (500, 80)) ∷ [])
      (λ pos tok. if tok == 500 then 200 else 100)

abbrev pub says : ℕ → String → MsgType → Payload Ticks → Tick Ticks
says now sender msg_type payload = record {
  now = now;
  env = some (record { msg_type = msg_type; node_id = sender; ts = now; payload = payload });
  receive_ts = now;
}

abbrev pub commit_by : SyncArgs Ticks → Payload Ticks
commit_by p = commit_payload "r1" 3 p.my_commits

abbrev pub scores_by : (x y : Ticks) → Payload Ticks
scores_by x y = scores_payload "r1" 3 ((10, (500, x) ∷ (600, y) ∷ []) ∷ [])

abbrev pub scores_back : (x y : Ticks) → Payload Ticks
scores_back x y = scores_payload "r1" 3 ((10, (600, y) ∷ (500, x) ∷ []) ∷ [])

-- node-b's scores reach node-a before node-c's commits, and a stranger speaks.
abbrev pub ticks_a : List (Tick Ticks)
ticks_a =
    says 6 "node-b" commit (commit_by b)
    ∷ says 7 "node-b" dispute_score (scores_by 30 30)
    ∷ says 7 "node-x" commit (commit_by b)
    ∷ says 8 "node-c" commit (commit_by c)
    ∷ says 9 "node-c" dispute_score (scores_back 200 100)
    ∷ []

abbrev ticks_b : List (Tick Ticks)
ticks_b =
    says 6 "node-c" commit (commit_by c)
    ∷ says 7 "node-a" commit (commit_by a)
    ∷ says 8 "node-a" dispute_score (scores_back 20 900)
    ∷ says 9 "node-c" dispute_score (scores_back 200 100)
    ∷ []

abbrev pub ticks_c : List (Tick Ticks)
ticks_c =
    says 6 "node-b" commit (commit_by b)
    ∷ says 9 "node-b" dispute_score (scores_by 30 30)
    ∷ says 9 "node-a" dispute_score (scores_back 20 900)
    ∷ []

abbrev fresh_b : SwarmNode Ticks
fresh_b = record fresh { id = "node-b" }

-- A poll has read node-a's COMMIT before.
abbrev pub node_c : SwarmNode Ticks
node_c = record fresh {
  id = "node-c";
  gen_inbox = ((commit, (some "r1", some 3)), ("node-a", commit_by a) ∷ []) ∷ [];
}

abbrev ends : SwarmNode Ticks → SyncArgs Ticks → Payload Ticks → Synced Ticks
ends node p scores = record {
  node = record node { gen_inbox = [] };
  ticks = [];
  shared_x = (1, 5) ∷ (10, 600) ∷ (20, 700) ∷ [];
  detector = detector;
  published = (commit, commit_by p) ∷ (dispute_score, scores) ∷ [];
}

abbrev participant :
    SyncArgs Ticks → List (Tick Ticks) → SwarmNode Ticks → Payload Ticks → Participant Ticks
participant p ticks node scores = record {
  iter = in_order;
  args = p;
  shared_x = (1, 5) ∷ [];
  started = 5;
  later = 7;
  ticks = ticks;
  node = node;
  result = ends node p scores;
}

abbrev pub participant_a : Participant Ticks
participant_a = participant a ticks_a fresh (scores_back 20 900)

abbrev participant_b : Participant Ticks
participant_b = participant b ticks_b fresh_b (scores_by 30 30)

abbrev pub participant_c : Participant Ticks
participant_c = participant c ticks_c node_c (scores_back 200 100)

abbrev pub meeting : Meeting Ticks
meeting = record {
  participants =
      ("node-a", participant_a) ∷ ("node-b", participant_b) ∷ ("node-c", participant_c) ∷ [];
  round_id = "r1";
  sync_seq = 3;
  gen_start = 0;
  gen_end = 30;
  shared_x = (1, 5) ∷ [];
  detector = detector;
}

a-ne-b : (a.id ≢ b.id)
unfolding string_eq
a-ne-b e = let read : true ≡ false = ap (λ (s : String). s == "node-a") e in cc

a-ne-c : (a.id ≢ c.id)
unfolding string_eq
a-ne-c e = let read : true ≡ false = ap (λ (s : String). s == "node-a") e in cc

b-ne-c : (b.id ≢ c.id)
unfolding string_eq
b-ne-c e = let read : true ≡ false = ap (λ (s : String). s == "node-b") e in cc

a_takes_part : TakesPart meeting "node-a" participant_a
unfolding program keys
a_takes_part = record {
  named = refl;
  same_round = refl;
  same_sync = refl;
  same_start = refl;
  same_end = refl;
  others = λ s. ground (arith, a-ne-b, a-ne-c, b-ne-c);
  iterates = in_order-IsIteration;
  nodup = ground arith;
  fits = λ pos tok. ground arith;
  same_state = λ pos. refl;
  inbox = fresh-IsInbox;
  filed_genuine = tt;
  timely = (
    (refl, refl, λ _ _. inl refl),
    (
      (refl, refl, λ _ _. inr (inl refl)),
      (
        (refl, refl, λ e _. cc),
        ((refl, refl, λ _ _. inl refl), ((refl, refl, λ _ _. inr (inl refl)), tt)),
      ),
    ),
  );
  returns = refl;
}

b_takes_part : TakesPart meeting "node-b" participant_b
unfolding program keys
b_takes_part = record {
  named = refl;
  same_round = refl;
  same_sync = refl;
  same_start = refl;
  same_end = refl;
  others = λ s. ground (arith, a-ne-b, a-ne-c, b-ne-c);
  iterates = in_order-IsIteration;
  nodup = ground arith;
  fits = λ pos tok. ground arith;
  same_state = λ pos. refl;
  inbox = fresh-IsInbox;
  filed_genuine = tt;
  timely = (
    (refl, refl, λ _ _. inl refl),
    (
      (refl, refl, λ _ _. inl refl),
      ((refl, refl, λ _ _. inr (inl refl)), ((refl, refl, λ _ _. inr (inl refl)), tt)),
    ),
  );
  returns = refl;
}

-- The inbox that the poll left is one that `_dispatch` makes.
node_c-IsInbox : IsInbox node_c.gen_inbox
unfolding program
node_c-IsInbox =
    dispatch-IsInbox (record fresh { id = "node-c" })
      (record { msg_type = commit; node_id = "node-a"; ts = 4; payload = commit_by a }) 4 node_c
      refl fresh-IsInbox

c_takes_part : TakesPart meeting "node-c" participant_c
unfolding program keys
c_takes_part = record {
  named = refl;
  same_round = refl;
  same_sync = refl;
  same_start = refl;
  same_end = refl;
  others = λ s. ground (arith, a-ne-b, a-ne-c, b-ne-c);
  iterates = in_order-IsIteration;
  nodup = ground arith;
  fits = λ pos tok. ground arith;
  same_state = λ pos. refl;
  inbox = node_c-IsInbox;
  filed_genuine = ((λ _ _. inl refl, tt), tt);
  timely = (
    (refl, refl, λ _ _. inl refl),
    ((refl, refl, λ _ _. inr (inl refl)), ((refl, refl, λ _ _. inr (inl refl)), tt)),
  );
  returns = refl;
}

pub all_take_part : AllTakePart meeting
all_take_part = (a_takes_part, (b_takes_part, (c_takes_part, tt)))

do_sync_everyone_example :
    SameLookups participant_a.result.shared_x participant_c.result.shared_x
    × (participant_a.result.detector ≡ participant_c.result.detector)
unfolding program
do_sync_everyone_example =
    do_sync_everyone Ticks-IsOrdered Ticks-IsExact meeting all_take_part "node-a" "node-c"
      participant_a participant_c refl refl
