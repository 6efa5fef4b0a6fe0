-- ===== src/Vm/Build/Labels.antt =====
-- vm/vm.go: `Label`: what a label stands for and what the jumps that wait for it become.
use ipfw_go.Vm.Program.{Program}
