-- ===== src/QosFlow/Tests.antt =====
-- Runs of the flow manager, and its theorems at concrete inputs.
use uesim.Common.{
  ◌≡◌, refl, arith, List, [], ◌∷◌, none, some, true, false, inl, find_first, remove_first,
}
use uesim.QosFlow.{Manager, new_flow, create, find_by_qfi, release, is_gbr, profiles}
use uesim.QosFlow.Flows.{Request, serve_all, AreNumbered, IsValid, serve_all-IsValid}

abbrev empty_manager : Manager
empty_manager = record {
  flows = [];
  default_qfi = 0;
  next_rule_id = 1;
  session_ambr = record { uplink = 100000; downlink = 200000 };
  session_bytes_sent = 0;
  session_bytes_received = 0;
}

abbrev two_flows : Manager
two_flows = (create (create empty_manager 9 none none none 0 true).1 1 none none none 0 true).1

is_gbr-voice : (is_gbr 1 ≡ true) × (is_gbr 9 ≡ false) × (is_gbr 200 ≡ false)
unfolding is_gbr profiles find_first
is_gbr-voice = (refl, refl, refl)

-- The first of two flows is released and another created: the number 2 is given out again, and the
-- search for it gives the older flow.
create_again :
    (create (release two_flows 1).1 5 none none none 0 true).2
    ≡ some (new_flow 1 5 none none none 0)
unfolding create new_flow release find_by_qfi find_first remove_first
create_again = refl

create_again-hidden :
    find_by_qfi (create (release two_flows 1).1 5 none none none 0 true).1 2
    ≡ some (new_flow 1 1 none none none 0)
unfolding create new_flow release find_by_qfi find_first remove_first
create_again-hidden = refl

abbrev requests : List Request
requests =
    Request.create_flow 9 none none none 0 true
    ∷ Request.create_flow 1 none none none 0 true
    ∷ Request.release_flow 1
    ∷ Request.activate_flow 2
    ∷ []

empty_manager-IsValid : IsValid empty_manager
unfolding IsValid AreNumbered
empty_manager-IsValid = (omega arith, tt, inl refl)

serve_all-IsValid_example : IsValid (serve_all empty_manager requests)
serve_all-IsValid_example = serve_all-IsValid empty_manager requests empty_manager-IsValid
