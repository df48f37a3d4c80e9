-- ===== src/Poll/Watch/Ends.antt =====
-- How the loop returns, and that it does.
use ferry_cli.Base.{ℕ, suc, ◌≤◌, ◌<◌, String, ◌≡◌, ◌≢◌, refl, some, ℤ, arith, ◌⊎◌}
use ferry_cli.Api.Duration.{max_seconds}
use ferry_cli.Api.Client.{Result}
use ferry_cli.Poll.Body.{Command, command_delay_seconds}
use ferry_cli.Poll.Watch.{
  got, PollWorld, Watched, no_command_id, Loop, again, decode_reply, round, follow, start,
}
use ferry_cli.Poll.Watch.Rounds.{IsStop, IsNext, IsReached, round_is}

-- No command asks for a wait that a duration cannot hold.
abbrev pub IsPatientPoll : PollWorld → Type 0
IsPatientPoll w =
    (n : ℕ) (r : Result) (c : Command)
    → w.reply n ≡ got r
    → decode_reply w.parse r ≡ some c
    → command_delay_seconds c ≤ max_seconds

command_delay_pos : (c : Command) → 0 < command_delay_seconds c
unfolding command_delay_seconds
command_delay_pos c = ground arith

pub follow_again :
    (w : PollWorld) (id : String) (deadline fuel : ℕ) (l next : Loop)
    → round w id deadline l ≡ again next
    → follow w id deadline (suc fuel) l ≡ follow w id deadline fuel next
unfolding follow
follow_again w id deadline fuel l next is = rw (is, follow) refl

-- What holds of a return: some rounds that go on lead from the loop `l` to the one that returns.
abbrev pub IsEnd : PollWorld → String → ℕ → Loop → Watched → Type 0
IsEnd w id deadline l e =
    (last : Loop) × IsReached w id deadline l last × IsStop w id deadline last e

-- What holds of a return of `Watch`.
abbrev pub IsWatched : PollWorld → String → ℤ → ℕ → ℕ → Watched → Type 0
IsWatched w id initial_delay deadline now e =
    ((id ≡ "") × (e ≡ no_command_id))
    ⊎ ((id ≢ "") × IsEnd w id deadline (start initial_delay now) e)

-- The loop goes round again only on a command without a contradiction in a state that moves, with
-- the wait that this command asks for, one second at least, and one poll more.
pub round_again :
    (w : PollWorld) (id : String) (deadline : ℕ) (l next : Loop)
    → round w id deadline l ≡ again next
    → IsNext w id deadline l next × (0 < next.delay)
round_again w id deadline l next e =
    let h = round_is w id deadline l (again next) e in
    (h, rw h.delay_is (command_delay_pos h.command))
