-- ===== src/Phase3/Tests/Recovery.antt =====
-- The traced coordinator and the recovery table on the simulated platform.
use ha_mcp.Prelude.{some, []}
use ha_mcp.Phase3.States.{reload_intent}
use ha_mcp.Phase3.Records.{TransactionRecord, domain_reload, automation_reload}
use ha_mcp.Phase3.Coordinator.Apply.{apply}
use ha_mcp.Phase3.Coordinator.Recover.{recover}
use ha_mcp.Phase3.Traced.{WriteAhead, traced}
use ha_mcp.Phase3.Traced.Ahead.{apply-WriteAhead, recover-WriteAhead}
use ha_mcp.Phase3.Tests.Sim.{sim, start}
use ha_mcp.Phase3.Tests.Workflow.{sim_laws, context, stopped, crashed}

apply-WriteAhead_example :
    WriteAhead (apply (traced sim) "proposal" "grant" context (start, [])).1.1
apply-WriteAhead_example = apply-WriteAhead sim sim_laws "proposal" "grant" context start

recover-WriteAhead_example : WriteAhead (recover (traced sim) (crashed, [])).1.1
recover-WriteAhead_example = recover-WriteAhead sim sim_laws crashed

-- A record that had asked for a reload when the process stopped.
abbrev reloading : TransactionRecord
reloading = record stopped {
  state = reload_intent;
  impact = domain_reload;
  reload_target = some automation_reload;
}
