-- ===== src/Delivery/Usecases.antt =====
-- The use case of internal/usecase/compile.go behind the handler's interface.
use noted_runner.Usecase.{Host, Sys, start_kernel, run_block, stop_kernel}
use noted_runner.Delivery.{CompilerUsecase}

unfoldable pub compiler_usecase : {W : Type 0} → Host W → CompilerUsecase (Sys W)
compiler_usecase h = record {
  start_kernel = start_kernel h;
  run_block = run_block h;
  stop_kernel = stop_kernel h;
}
