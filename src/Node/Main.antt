-- ===== src/Node/Main.antt =====
-- The program as a whole (`main`, blockchain/node/src/main.rs): the command line over the service.
use Prim.Native.String.{String}
use guillotine.Base.{[], List, Result, ok, err, panic}
use guillotine.Node.Trace.{Answer, success, failure, crash}
use guillotine.Node.Command.{
  Cli, Features, Resource, Step, create_runner, new_partial, make_inherent_data, new_full,
  run_until_exit, run_command, run,
}
use guillotine.Node.Service as Service

-- What a call answers whose body returns a result.
abbrev pub answer_of : Result String (Unit {0}) → Answer
answer_of (ok _) = success
answer_of (err e) = failure e
answer_of panic = crash

-- What the program meets: the notice of `try_runtime_cli`, the runner with the configuration
-- that it makes, the commands, the inherent data, the calls of the
-- service, and the life of the node until it exits.
pub record Outside (Args : Type 0) : Type 0 where
  pub notice : String
  pub create_runner : Args → Answer
  pub configuration : Service.Configuration
  pub make_inherent_data : Answer
  pub run_command : Args → List Resource → Answer
  pub service : Service.Step → Answer
  pub run_until_exit : Answer

module _ {Args : Type 0} (O : Outside Args) where
  -- The calls of the command line: two of them are functions of the service.
  abbrev pub call_answer : Step Args → Answer
  call_answer (create_runner args) = O.create_runner args
  call_answer new_partial = answer_of (Service.new_partial O.service O.configuration []).0
  call_answer make_inherent_data = O.make_inherent_data
  call_answer new_full = answer_of (Service.new_full O.service O.configuration []).0
  call_answer run_until_exit = O.run_until_exit
  call_answer (run_command args given) = O.run_command args given

  -- `main()`, from the parsed command line
  unfoldable pub main : Features → Cli Args → Result String (Unit {0})
  main features cli = (run call_answer O.notice features cli).0
