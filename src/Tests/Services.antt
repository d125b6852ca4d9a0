-- ===== src/Tests/Services.antt =====
-- Inputs for the theorems on account lockout, the rotation of tokens, the rate limiter and the message broker.
use ruskiy.Shared.{
  ℕ, ◌==◌, min, get_elem?, true, false, none, some, String, List, [], ◌∷◌, ◌≡◌, ◌≢◌, refl, arith,
  ◌<◌, str_eq_iff,
}
use ruskiy.Auth.Lockout.{
  new_lockout_manager, record_failed_attempt, is_locked, reset_attempts, entry_or_new,
}
use ruskiy.Auth.Lockout.History.{
  Event, failure, success, accounts_after, streak, Tracks, accounts_after-Tracks,
}
use ruskiy.Auth.Tokens.{
  Rotation, token_revoked, rotate_refresh_token, was_reused_after_revoke, new_memory_token_store,
}
use ruskiy.Auth.Tokens.Replay.{after_rotations, rotate_refresh_token-replay}
use ruskiy.Middleware.RateLimit.{RateLimitConfig, Windows, tier_limit}
use ruskiy.Middleware.RateLimit.Limits.{Request, request, total_served, window-total_served}
use ruskiy.Event.Broker.{
  Partition, Topic, Broker, ok, make_record, consume, publish, partition_for, is_broker_alive,
  elect_new_leader, elect_in, next_alive,
}
use ruskiy.Event.Broker.Delivery.{Holds}
use ruskiy.Event.Broker.Lost.{
  Call, publishes, consumes, elects as elects_leader, run_calls, consume_skips_other_topic,
}
use ruskiy.Event.Broker.Leaders.{elect_new_leader-publish}

abbrev six_failures : List Event
six_failures =
    failure 60 60 "ann"
    ∷ failure 50 50 "ann"
    ∷ failure 40 41 "bob"
    ∷ failure 30 30 "ann"
    ∷ failure 20 20 "ann"
    ∷ failure 10 10 "ann"
    ∷ success "ann"
    ∷ []

accounts_after-Tracks_example :
    Tracks (streak "ann" six_failures) (entry_or_new (accounts_after six_failures "ann"))
accounts_after-Tracks_example = accounts_after-Tracks six_failures "ann"

-- 1000 seconds later the lockout has run out.
expired : is_locked 1000000000000 "ann" (accounts_after six_failures) ≡ false
unfolding record_failed_attempt is_locked new_lockout_manager reset_attempts
expired = refl

abbrev tiny_config : RateLimitConfig
tiny_config = record { free_limit_per_min = 2; premium_limit_per_min = 3; window_duration = 60 }

abbrev no_windows : Windows
no_windows user = none

abbrev mixed_requests : List Request
mixed_requests =
    request 1 "ann" "free"
    ∷ request 2 "bob" "premium"
    ∷ request 3 "ann" "free"
    ∷ request 4 "ann" "free"
    ∷ []

window-total_served_example :
    total_served tiny_config "ann" "free" (5 ∷ 10 ∷ 20 ∷ 65 ∷ []) no_windows
    ≡ min 4 (tier_limit tiny_config "free")
window-total_served_example =
    window-total_served tiny_config "ann" "free" 5 (10 ∷ 20 ∷ 65 ∷ []) no_windows refl
      (omega arith, (omega arith, (omega arith, tt)))

-- Two topics of two partitions; the key "ann" hashes to 1.
abbrev hash : String → ℕ
hash key = 1

abbrev one_record : Partition
one_record = make_record "ann" "x" 0 ∷ []

abbrev activity : Topic
activity = record { partitions = [] ∷ one_record ∷ []; leader_map = 0 ∷ 1 ∷ [] }

abbrev cluster : Broker
cluster = record {
  topics = λ name. some activity;
  groups = λ group idx. 0;
  num_brokers = 3;
  killed_brokers = λ id. id == 1;
  subscribers = λ name. [];
  idempotency_log = λ group. [];
}

abbrev later : List Call
later =
    publishes "content" "ann" "y" ∷ consumes "content" "stats" 1 ∷ elects_leader "content" 1 ∷ []

abbrev first_topic : String
first_topic = "learner"

topics-apart : first_topic ≢ "content"
topics-apart e = absurd (ground (arith, (str_eq_iff "learner" "content").1 e))

consume_skips_other_topic_example :
    let b' = run_calls hash later (consume "learner" "stats" 1 cluster).1 in
    (q' : Partition) × Holds "content" 1 q' b'
    × (get_elem? q' 0 ≡ some (make_record "ann" "x" 0))
    × (m : ℕ) × (0 < m)
    × ((consume "content" "stats" 1 b').0 ≡ ok (get_elem? q' m))
consume_skips_other_topic_example =
    consume_skips_other_topic hash "learner" "content" "stats" 1 one_record one_record
      (make_record "ann" "x" 0) (make_record "ann" "x" 0) later cluster topics-apart
      (activity, refl, refl) (activity, refl, refl) refl refl

elects : (elect_new_leader "learner" (partition_for hash "ann" 2) cluster).0 ≡ ok 2
unfolding elect_new_leader elect_in next_alive is_broker_alive partition_for
elects = refl

elect_new_leader-publish_example :
    (is_broker_alive 2 cluster ≡ true)
    × ((publish hash "learner" "ann" "y"
          (elect_new_leader "learner" (partition_for hash "ann" 2) cluster).1).0
        ≡ ok (partition_for hash "ann" 2, 1))
unfolding partition_for
elect_new_leader-publish_example =
    elect_new_leader-publish hash "learner" "ann" "y" activity one_record 2 cluster refl refl elects

abbrev healthy : Broker
healthy = record {
  topics = λ name. some activity;
  groups = λ group idx. 1;
  num_brokers = 3;
  killed_brokers = λ id. false;
  subscribers = λ name. [];
  idempotency_log = λ group. [];
}

abbrev rotation : String → Rotation
rotation new_token = record {
  old_token = "r1";
  subject = some "ann";
  new_access = some "a2";
  new_refresh = some new_token;
}

rotate_refresh_token-replay_example :
    ((rotate_refresh_token
        (rotation "r3")
        (after_rotations [] (rotate_refresh_token (rotation "r2") new_memory_token_store).1)).0
      ≡ token_revoked)
    × (was_reused_after_revoke "r1"
          (rotate_refresh_token
            (rotation "r3")
            (after_rotations [] (rotate_refresh_token (rotation "r2") new_memory_token_store).1)).1
        ≡ true)
rotate_refresh_token-replay_example =
    rotate_refresh_token-replay "ann" "ann" (rotation "r2") (rotation "r3") []
      new_memory_token_store refl refl refl
