-- ===== src/Tests/Events.antt =====
-- The event parsers of tags/cbnsim-1.1.3 on an event of a workload file, and on a file that ends.
use ccnpl_sim.Prelude.{◌≡◌, codes}
use ccnpl_sim.Workload.Lexer.{id}
use ccnpl_sim.Workload.Stream.{Parser, out_of_fuel}
use ccnpl_sim.Workload.Events.{
  parse_set_predicate, parse_set_multipath, parse_publish_content, parse_send_message,
  parse_download_content, parse_node_fail, parse_node_recover, skip_event,
}
use ccnpl_sim.Workload.Progress.{Ends, Shorter}
use ccnpl_sim.Workload.Ending.{at_end, parse_events-Ends, skip_event_endless}

-- In front of `node_fail 3 7 ;`, whose first word was read.
abbrev failing : Parser
failing = record { rest = codes " 3 7 ; "; val = codes "node_fail"; tok = id }

parse_events-Ends_example :
    Ends (Shorter failing) (parse_set_predicate failing)
    × Ends (Shorter failing) (parse_set_multipath failing)
    × Ends (Shorter failing) (parse_publish_content failing)
    × Ends (Shorter failing) (parse_send_message failing)
    × Ends (Shorter failing) (parse_download_content failing)
    × Ends (Shorter failing) (parse_node_fail failing)
    × Ends (Shorter failing) (parse_node_recover failing)
parse_events-Ends_example = parse_events-Ends failing

skip_event_endless_example : skip_event 100 (at_end (codes "node_crash")) ≡ out_of_fuel
skip_event_endless_example = skip_event_endless 100 (codes "node_crash")
