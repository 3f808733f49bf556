-- ===== src/Runtime/Provider/Runs.antt =====
-- No client leaks, whatever the calls.
use opencode_advance.Prelude.{ℕ, true, false, none, some, List, [], ◌∷◌, Result}
use opencode_advance.Runtime.Provider.{Provider, new_provider, get_client, close, Call, step, run}

-- A provider: open without a client, open with its one client, closed with none ever dialled, closed
-- with its one client closed.
pub data IsTidy : Provider → Type 0 where
  idle : IsTidy (record { client = none; closed = false; opened = []; shut = [] })
  open_with :
      (c : ℕ) → IsTidy (record { client = some c; closed = false; opened = c ∷ []; shut = [] })
  unused : IsTidy (record { client = none; closed = true; opened = []; shut = [] })
  closed_with :
      (c : ℕ) → IsTidy (record { client = none; closed = true; opened = c ∷ []; shut = c ∷ [] })

step-IsTidy : (p : Provider) (c : Call) → IsTidy p → IsTidy (step p c)
unfolding get_client close
step-IsTidy p (Call.wanted (Result.fail e)) IsTidy.idle = IsTidy.idle
step-IsTidy p (Call.wanted (Result.done c)) IsTidy.idle = IsTidy.open_with c
step-IsTidy p (Call.wanted answer) (IsTidy.open_with c) = IsTidy.open_with c
step-IsTidy p (Call.wanted answer) IsTidy.unused = IsTidy.unused
step-IsTidy p (Call.wanted answer) (IsTidy.closed_with c) = IsTidy.closed_with c
step-IsTidy p Call.finished IsTidy.idle = IsTidy.unused
step-IsTidy p Call.finished (IsTidy.open_with c) = IsTidy.closed_with c
step-IsTidy p Call.finished IsTidy.unused = IsTidy.unused
step-IsTidy p Call.finished (IsTidy.closed_with c) = IsTidy.closed_with c

run-IsTidy : (cs : List Call) (p : Provider) → IsTidy p → IsTidy (run p cs)
unfolding run
run-IsTidy [] p h = h
run-IsTidy (c ∷ cs) p h = run-IsTidy cs (step p c) (step-IsTidy p c h)

-- After any calls on a new provider it has dialled with success at most once, and it is open without
-- a client or with the one that it dialled and has not closed, or it is closed, holds no client and
-- has closed the one that it dialled, if any, once.
pub new_provider-run : (cs : List Call) → IsTidy (run new_provider cs)
new_provider-run cs = run-IsTidy cs new_provider IsTidy.idle
