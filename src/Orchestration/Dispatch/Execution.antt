-- ===== src/Orchestration/Dispatch/Execution.antt =====
-- The asynchronous part of the dispatch proxy: when `dispatchAsync` calls the executor, with what, and
-- what its reply makes of the result. The executor is an argument.
use tri_mc.Prelude.{
  ℕ, ◌≡◌, refl, Bool, true, false, not, Option, none, some, get_or, List, [], ◌++◌, if◌then◌else◌,
  find,
}
use tri_mc.Prelude.Text.{Text, text, decimal}
use tri_mc.Orchestration.{RequestedTask, DispatchRequest, EmployeeRecord}
use tri_mc.Orchestration.Trace.{
  DispatchState, DispatchResult, DispatchTraceEntry, TraceMessage, dispatch_step, dispatched,
  not_executed,
}
use tri_mc.Orchestration.Dispatch.{dispatch}
use tri_mc.Orchestration.Dispatch.Steps.{HandedUp}

pub record ExecutorContext : Type 0 where
  pub task_id : Text
  pub employee_id : Text
  pub cwd : Text

pub record ExecutorReply : Type 0 where
  pub ok : Bool
  pub output : Option Text
  pub error : Option Text

pub record AsyncResult : Type 0 where
  pub result : DispatchResult
  pub output : Option Text
  pub execution_error : Option Text

abbrev is_dispatch_step : DispatchTraceEntry → Bool
is_dispatch_step t = elim t.step [ dispatch_step ↦ true | _ ↦ false ]

abbrev message_id : TraceMessage → Option Text
message_id (dispatched task_id owner) = some task_id
message_id _ = none

abbrev traced_id : Option DispatchTraceEntry → Option Text
traced_id none = none
traced_id (some t) = message_id t.message

-- The task id that the message of the dispatch step begins with.
pub dispatched_id : List DispatchTraceEntry → Option Text
dispatched_id traces = traced_id (find is_dispatch_step traces)

-- What the executor is called with: `now_ms` is the clock for an id that is not in the trace.
pub executor_context : ℕ → Text → DispatchResult → ExecutorContext
executor_context now_ms cwd r = record {
  task_id = get_or (dispatched_id r.trace) (text "task-" ++ decimal now_ms);
  employee_id = get_or r.assigned_to [];
  cwd = cwd;
}

pub write_back : DispatchResult → ExecutorReply → AsyncResult
write_back r reply =
    if reply.ok
    then record { result = r; output = reply.output; execution_error = none }
    else record {
      result = record r {
        success = false;
        rejection_reason = elim reply.error [ none ↦ none | some e ↦ some (not_executed e) ];
      };
      output = none;
      execution_error = reply.error;
    }

abbrev pub plain : DispatchResult → AsyncResult
plain r = record { result = r; output = none; execution_error = none }

-- The part of `dispatchAsync` after the dispatch: the call of the executor, if there is one, beside
-- the result that its reply leads to.
pub execute :
    ℕ
    → Text
    → Option (RequestedTask → ExecutorContext → ExecutorReply)
    → RequestedTask
    → DispatchResult
    → Option ExecutorContext × AsyncResult
execute now_ms cwd none task r = (none, plain r)
execute now_ms cwd (some executor) task r =
    if not r.success
    then (none, plain r)
    else (let context = executor_context now_ms cwd r in
        (some context, write_back r (executor task context)))

-- `dispatchAsync`: the state, the call of the executor, if there is one, and the result.
pub dispatch_async :
    Text
    → ℕ
    → ℕ
    → Text
    → Option (RequestedTask → ExecutorContext → ExecutorReply)
    → DispatchState
    → DispatchRequest
    → Option (List EmployeeRecord)
    → List EmployeeRecord
    → DispatchState × (Option ExecutorContext × AsyncResult)
unfolding execute
dispatch_async now ms now_ms cwd executor st request employees registry =
    let out = dispatch now ms st request employees registry in
    (out.0, execute now_ms cwd executor request.task out.1)

-- What a reply makes of a result.
pub record WrittenBack (r : DispatchResult) (reply : ExecutorReply) (out : AsyncResult)
    : Type 0 where
  pub done :
      reply.ok ≡ true
      → (out.result ≡ r) × (out.output ≡ reply.output) × (out.execution_error ≡ none)
  pub undone :
      reply.ok ≡ false
      → (out.result.success ≡ false)
        × (out.result.assigned_to ≡ r.assigned_to)
        × ((e : Text) → reply.error ≡ some e → out.result.rejection_reason ≡ some (not_executed e))
        × (out.output ≡ none)
        × (out.execution_error ≡ reply.error)

write_back-WrittenBack :
    (r : DispatchResult) (reply : ExecutorReply) → WrittenBack r reply (write_back r reply)
unfolding write_back
write_back-WrittenBack r reply = record {
  done = λ e. rw e (refl, refl, refl);
  undone = λ e. rw e (refl, refl, λ m q. rw q refl, refl, refl);
}

-- The executor's context names the employee of the result, or nobody, and the directory.
pub record Fits (cwd : Text) (r : DispatchResult) (c : ExecutorContext) : Type 0 where
  pub directory : c.cwd ≡ cwd
  pub employee : (id : Text) → r.assigned_to ≡ some id → c.employee_id ≡ id
  pub nobody : HandedUp r → c.employee_id ≡ []
  pub task :
      (t : DispatchTraceEntry) (id : Text) (owner : Option Text)
      → find is_dispatch_step r.trace ≡ some t
      → t.message ≡ dispatched id owner
      → c.task_id ≡ id

named_id :
    (traces : List DispatchTraceEntry) (t : DispatchTraceEntry) (id : Text) (owner : Option Text)
    → find is_dispatch_step traces ≡ some t
    → t.message ≡ dispatched id owner
    → dispatched_id traces ≡ some id
unfolding dispatched_id
named_id traces t id owner e m = rw (e, m) refl

executor_context-Fits :
    (now_ms : ℕ) (cwd : Text) (r : DispatchResult) → Fits cwd r (executor_context now_ms cwd r)
unfolding executor_context
executor_context-Fits now_ms cwd r = record {
  directory = refl;
  employee = λ id e. rw e refl;
  nobody = λ (a, b, x, y). rw b refl;
  task = λ t id owner e m. rw (named_id r.trace t id owner e m) refl;
}

-- With an executor, an asynchronous dispatch calls it exactly when the dispatch has succeeded. It
-- gets the given directory, the employee to whom the task is assigned, and the id that the dispatch
-- step has traced; a success that handed the task up is one as well: then the employee's id that it
-- gets is empty. A reply that is in order leaves the result and adds its output; any other makes it
-- a failure, with its error as the reason. A dispatch that failed is returned as it is, and so is
-- every dispatch without an executor. The state is that of the dispatch.
pub dispatch_async_iff :
    (now : Text) (ms now_ms : ℕ) (cwd : Text)
    (executor : RequestedTask → ExecutorContext → ExecutorReply) (st : DispatchState)
    (request : DispatchRequest) (employees : Option (List EmployeeRecord))
    (registry : List EmployeeRecord)
    → let (st', r) = dispatch now ms st request employees registry in
      let out = dispatch_async now ms now_ms cwd (some executor) st request employees registry in
      (out.0 ≡ st')
      × (r.success ≡ true
          → (c : ExecutorContext) × (out.1.0 ≡ some c)
            × Fits cwd r c
            × WrittenBack r (executor request.task c) out.1.1)
      × (r.success ≡ false → out.1 ≡ (none, plain r))
      × (dispatch_async now ms now_ms cwd none st request employees registry
          ≡ (st', (none, plain r)))
unfolding dispatch_async execute
dispatch_async_iff now ms now_ms cwd executor st request employees registry =
    let r = (dispatch now ms st request employees registry).1 in
    let c = executor_context now_ms cwd r in
    (
      refl,
      λ h. rw h (
        c,
        refl,
        executor_context-Fits now_ms cwd r,
        write_back-WrittenBack r (executor request.task c),
      ),
      λ h. rw h refl,
      refl,
    )
