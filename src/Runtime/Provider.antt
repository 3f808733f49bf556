-- ===== src/Runtime/Provider.antt =====
-- internal/advruntime/provider.go: one client of the Temporal server, dialled when it is first wanted.
pub mod Runs
use opencode_advance.Prelude.{
  ℕ, String, Bool, true, false, Option, none, some, List, [], ◌∷◌, if◌then◌else◌, Result,
}

-- type ClientProvider, with the clients that it has dialled and those that it has closed, the latest
-- first. A client is known by a number.
pub record Provider : Type 0 where
  pub client : Option ℕ
  pub closed : Bool
  pub opened : List ℕ
  pub shut : List ℕ

-- func NewTemporalClientProvider
abbrev pub new_provider : Provider
new_provider = record { client = none; closed = false; opened = []; shut = [] }

-- After the dial.
abbrev pub dialled : Provider → Result ℕ → Result ℕ × Provider
dialled p (Result.fail e) = (Result.fail e, p)
dialled p (Result.done c) = (Result.done c, record p { client = some c; opened = c ∷ p.opened })

abbrev pub held_or_dial : Provider → Option ℕ → Result ℕ → Result ℕ × Provider
held_or_dial p (some c) answer = (Result.done c, p)
held_or_dial p none answer = dialled p answer

-- ClientProvider.Client; `answer` is what a dial would give.
pub get_client : Result ℕ → Provider → Result ℕ × Provider
get_client answer p =
    if p.closed
    then (Result.fail "temporal client provider closed", p)
    else held_or_dial p p.client answer

abbrev pub shut_held : Provider → Option ℕ → Provider
shut_held p none = record p { closed = true }
shut_held p (some c) = record p { closed = true; client = none; shut = c ∷ p.shut }

-- ClientProvider.Close
pub close : Provider → Provider
close p = if p.closed then p else shut_held p p.client

-- The calls, in the order in which they take the lock.
pub data Call : Type 0 where
  wanted : Result ℕ → Call
  finished : Call

abbrev pub step : Provider → Call → Provider
step p (Call.wanted answer) = (get_client answer p).1
step p Call.finished = close p

pub run : Provider → List Call → Provider
unfolding get_client close
run p [] = p
run p (c ∷ cs) = run (step p c) cs
