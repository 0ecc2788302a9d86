-- ===== src/WaitTool/Tests.antt =====
-- The tool at a concrete input.
use reqable_mcp.Prelude.{true, none, some, str_eq}
use reqable_mcp.Python.{Python}
use reqable_mcp.WaitQueue.{FilterSpec}
use reqable_mcp.WaitQueue.Waiters.{empty}
use reqable_mcp.WaitTool.{Left, wait_for, wait_for-Left}

abbrev py : Python
py = record {
  lower = λ s. s;
  upper = λ s. s;
  compiles = λ p. true;
  search = str_eq;
  dumps = λ j. "saved";
  loads = λ s. none;
}

abbrev args : FilterSpec
args = record {
  host = some "h";
  method = some "GET";
  path_pattern = none;
  app = none;
  status = none;
}

wait_for-Left_example :
    Left py "w" 5 (λ q. q) (λ q. q) empty (wait_for py "w" 5 (λ q. q) (λ q. q) args (some empty))
wait_for-Left_example = wait_for-Left py "w" 5 (λ q. q) (λ q. q) args empty
