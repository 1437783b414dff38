-- ===== src/Tests/Layouts.antt =====
-- Runs of the layouts and the access rights.
use damon.Prelude.{◌≡◌, ◌↔◌, not, true, false, none, some}
use damon.Prelude.Int.{pos}
use damon.Layout.Structures.{go_type, a_extended_limit_information}
use damon.Layout.Documented.{c_type}
use damon.Layout.Agreement.{agrees, departs, agrees-not-departs}
use damon.Layout.Classes.{Request, set_cpu_rate, told, documented, rated, told-documented}
use damon.Access.{asked, covers, memory_info}
use damon.Access.Laws.{needed, of_policy, asked-covers-needed}

agrees-not-departs_example :
    agrees (go_type a_extended_limit_information) (c_type a_extended_limit_information)
    ≡ not (departs a_extended_limit_information)
agrees-not-departs_example = agrees-not-departs a_extended_limit_information

-- A range of rates, and neither a maximum nor a weight.
abbrev ranged : Request
ranged = set_cpu_rate (record {
  max = none;
  weight = 0;
  min_max = some (record { max_rate = pos 40; min_rate = pos 20 });
  notify = false;
})

told-documented_example :
    (documented (told ranged).0 ≡ some (told ranged).1) ↔ (rated ranged ≡ true)
told-documented_example = told-documented ranged

asked-covers-needed_example :
    covers (asked memory_info) (needed memory_info) ≡ not (of_policy memory_info)
asked-covers-needed_example = asked-covers-needed memory_info
