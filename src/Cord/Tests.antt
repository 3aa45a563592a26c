-- ===== src/Cord/Tests.antt =====
-- Nodes and lease votes at concrete inputs.
use netab.Common.{
  ℕ, String, Bool, true, false, List, [], ◌∷◌, some, ◌≡◌, ◌||◌, ◌&&◌, not, includes, ltb, refl,
  arith, get, set, if◌then◌else◌, string_eq,
}
use netab.Cord.Registry.{RuntimeNode, CordRegistry, new_registry, unregister, can_reach}
use netab.Cord.Registry.Reachability.{can_reach-unregister}
use netab.Cord.Election.{
  LeaseParams, LeaderAssignment, quorum, acquire_lease, request_lease, approvals, count_votes,
  assignment_of, required_votes, lease_vote_key, handle_renew_lease,
}
use netab.Cord.Cluster.{ClusterNodeConfig}
use netab.Cord.Election.Health.{ClusterView, voters, is_healthy_assignment, is_eligible, is_nobody}
use netab.Cord.Election.Quorum.{is_healthy_assignment_lem, by_quorum}
use netab.Json.{undefined, end}
use netab.Cord.Election.Votes.{renews, receive_all, receive}
use netab.Cord.Election.Quorum.{Voter, first_replies, second_replies, one_leader, IsPrompt}

abbrev node : String → RuntimeNode
node id = record { node_id = id; addr_list = "addr" ∷ []; started = true }

abbrev split_registry : CordRegistry
split_registry = record {
  nodes = ("a", node "a") ∷ [];
  addresses = [];
  reachability = ("a", ("b", false) ∷ []) ∷ [];
}

found_node : get "a" split_registry.nodes ≡ some (node "a")
unfolding get
found_node = refl

can_reach-unregister_example :
    can_reach "a" "b" (unregister "a" split_registry)
    ≡ (string_eq.equals "a" "a" || string_eq.equals "a" "b" || can_reach "a" "b" split_registry)
can_reach-unregister_example = can_reach-unregister "a" split_registry (node "a") "a" "b" found_node

abbrev lease : String → ℕ → LeaseParams
lease leader term = record {
  cluster_id = "c";
  shard_id = "s";
  term = term;
  ttl_ms = 100;
  leader_node_id = leader;
}

abbrev voter : Bool → Voter
voter arrives = record {
  votes = [];
  first_ms = 1000;
  second_ms = 1050;
  first_eligible = true;
  second_eligible = true;
  between = (1020, renews (lease "n1" 4)) ∷ [];
  first_arrives = true;
  second_arrives = arrives;
}

-- Three voters; the renewal in between asks for the same leader, and so the second request is
-- granted again.
abbrev three : List Voter
three = voter true ∷ voter true ∷ voter true ∷ []

abbrev lease_until : ℕ → LeaderAssignment
lease_until n = record {
  cluster_id = "c";
  shard_id = "s";
  leader_node_id = "n1";
  term = 4;
  lease_until_ms = n;
}

first_won :
    acquire_lease quorum (lease "n1" 4) (first_replies (lease "n1" 4) three)
    ≡ some (lease_until 1100)
unfolding acquire_lease count_votes approvals assignment_of required_votes request_lease get set
    lease_vote_key
first_won = refl

second_won :
    acquire_lease quorum (lease "n1" 4) (second_replies (lease "n1" 4) (lease "n1" 4) three)
    ≡ some (lease_until 1150)
unfolding acquire_lease count_votes approvals assignment_of required_votes request_lease get set
    lease_vote_key receive_all receive handle_renew_lease
second_won = refl

prompt : IsPrompt (lease "n1" 4) (voter true)
prompt = (((omega arith, omega arith), tt), omega arith)

one_leader_example : (lease "n1" 4).leader_node_id ≡ (lease "n1" 4).leader_node_id
one_leader_example =
    one_leader quorum (lease "n1" 4) (lease "n1" 4) three (lease_until 1100) (lease_until 1150) refl
      (omega arith) (prompt, (prompt, (prompt, tt))) first_won second_won

-- A request of a higher term takes the votes over while the lease of the first leader still runs.
taken_over :
    acquire_lease quorum (lease "n2" 5) (second_replies (lease "n1" 4) (lease "n2" 5) three)
    ≡ some (record {
      cluster_id = "c";
      shard_id = "s";
      leader_node_id = "n2";
      term = 5;
      lease_until_ms = 1150;
    })
unfolding acquire_lease count_votes approvals assignment_of required_votes request_lease get set
    lease_vote_key receive_all receive handle_renew_lease
taken_over = refl

abbrev a_member : ClusterNodeConfig
a_member = record { cluster_id = "c"; node_id = "n1"; role = end; props = undefined }

abbrev on_its_own : ClusterView
on_its_own = record {
  members =
      a_member ∷ record { cluster_id = "c"; node_id = "n2"; role = end; props = undefined } ∷ [];
  alive = "n1" ∷ [];
  lease_mode = quorum;
}

is_healthy_assignment_lem_example :
    is_healthy_assignment 1000 on_its_own new_registry (some a_member) (lease_until 1100) ≡ (
      ltb 1000 1100
      && is_eligible (some a_member)
      && includes on_its_own.alive "n1"
      && (if by_quorum quorum then not (is_nobody (voters on_its_own new_registry "n1")) else true))
is_healthy_assignment_lem_example =
    is_healthy_assignment_lem 1000 on_its_own new_registry (some a_member) (lease_until 1100)
